-- ===== src/Egress/Recorder.antt =====
-- crates/lk-egress/src/server.rs: the jobs of the recorder. Of the EgressInfo that it keeps and reports,
-- the id and the status. The connection, the recording and the upload of a job are outcomes that are
-- given; what a job reports is a list, in order.
use livekit_rs_voice.Base.{
  ℕ, ◌+◌, ◌*◌, Bool, true, false, not, List, [], ◌∷◌, ◌++◌, Option, none, some, String, str_eq, leb,
  if◌then◌else◌, any_of, length, select, Map, get, insert, unwrap_or,
}
use livekit_rs_voice.SipIo.EgressIo.{EgressInfo, EgressCall, create, update}
use livekit_rs_voice.Egress.{Fraction, Request, EgressConfig, Attempt, ok, err}
use livekit_rs_voice.Egress.Specs.{RecSpec, rec_spec}
use livekit_rs_voice.Egress.Redact.{request_info}

-- `active` is a set; `stops` holds what the stop channel of a job has been sent. The map of the stop
-- tasks is its keys. `reports` are the calls of IoClient.
pub record Handlers : Type 0 where
  pub active : List String
  pub stops : Map Bool
  pub infos : Map EgressInfo
  pub stop_tasks : List String
  pub reports : List EgressCall

-- rpc::StartEgressRequest.
pub record StartRequest : Type 0 where
  pub egress_id : String
  pub request : Request

pub data RpcFailure : Type 0 where
  invalid_argument : String → RpcFailure
  unavailable not_registered not_found : RpcFailure

pub data Started : Type 0 where
  started : EgressInfo → RecSpec → Started
  not_started : RpcFailure → Started

-- What a job costs, 3 CPUs if it is not configured.
abbrev pub job_cost : EgressConfig → Fraction
job_cost conf = unwrap_or conf.room_composite_cpu_cost (record { numerator = 3; denominator = 1 })

-- `capacity` is the number of CPUs; the product is not rounded.
unfoldable pub admitted : EgressConfig → ℕ → ℕ → Bool
admitted conf capacity active_count =
    leb ((active_count + 1) * (job_cost conf).numerator) (capacity * (job_cost conf).denominator)

-- HashSet::insert and HashSet::remove.
abbrev pub with_id : String → List String → List String
with_id id ids = if any_of (λ i. str_eq i id) ids then ids else id ∷ ids

abbrev pub without_id : String → List String → List String
without_id id ids = select (λ i. not (str_eq i id)) ids

-- EGRESS_STARTING, EGRESS_ACTIVE, EGRESS_COMPLETE and EGRESS_FAILED.
abbrev pub starting : String → EgressInfo
starting id = record { egress_id = id; status = 0 }

abbrev pub active_info : String → EgressInfo
active_info id = record { egress_id = id; status = 1 }

abbrev pub finished_info : String → EgressInfo
finished_info id = record { egress_id = id; status = 3 }

abbrev pub failed_info : String → EgressInfo
failed_info id = record { egress_id = id; status = 4 }

-- A report is sent, and its failure ignored: `delivered` says whether the server stores it.
abbrev pub report : EgressCall → EgressInfo → Handlers → Handlers
report call info s = record s {
  reports = s.reports ++ call ∷ [];
  infos = insert info.egress_id info s.infos;
}

-- What the checks of StartEgress come to.
pub data Checked : Type 0 where
  refuses : RpcFailure → Checked
  goes_on : RecSpec → Checked

abbrev pub check_spec : EgressConfig → ℕ → Attempt RecSpec → Option Request → Handlers → Checked
check_spec conf capacity (err e) info s = refuses (invalid_argument e)
check_spec conf capacity (ok spec) none s =
    if str_eq spec.room ""
    then refuses (invalid_argument "room_name is required")
    else refuses (invalid_argument "unsupported egress request")
check_spec conf capacity (ok spec) (some info) s =
    if str_eq spec.room ""
    then refuses (invalid_argument "room_name is required")
    else if not (admitted conf capacity (length s.active))
    then refuses unavailable
    else goes_on spec

-- StartEgress up to its first await.
unfoldable pub check_start : EgressConfig → ℕ → StartRequest → Handlers → Checked
unfolding rec_spec request_info admitted
check_start conf capacity req s =
    if str_eq req.egress_id ""
    then refuses (invalid_argument "egress_id is required")
    else check_spec conf capacity (rec_spec req.request conf) (request_info req.request) s

-- StartEgress past its checks, from `create_egress` on. `registers` says whether the topic of StopEgress is registered; if it is
-- not, the error is returned as things are.
unfoldable pub accept_job : Bool → Bool → String → RecSpec → Handlers → Handlers × Started
accept_job registers delivered id spec s =
    let reported = report (create delivered (starting id)) (starting id) s in
    let s' = record reported { stops = insert id false s.stops; active = with_id id s.active } in
    if not registers
    then (s', not_started not_registered)
    else (record s' { stop_tasks = with_id id s.stop_tasks }, started (starting id) spec)

-- The rest of StartEgress, in the state that it then finds.
unfoldable pub after_check : Bool → Bool → String → Checked → Handlers → Handlers × Started
unfolding accept_job
after_check registers delivered id (refuses e) s = (s, not_started e)
after_check registers delivered id (goes_on spec) s = accept_job registers delivered id spec s

-- StartEgress, if no other call comes between its checks and the rest.
unfoldable pub start_egress :
    EgressConfig → ℕ → Bool → Bool → StartRequest → Handlers → Handlers × Started
unfolding check_start after_check
start_egress conf capacity registers delivered req s =
    after_check registers delivered req.egress_id (check_start conf capacity req s) s

-- How a job ends: it does not connect, or it fails after that, or its file is uploaded.
pub data JobEnd : Type 0 where
  not_connected fails_later uploaded : JobEnd

-- `run_one` up to its end; the Boolean says whether it returns Ok.
unfoldable pub run_one : Bool → String → JobEnd → Handlers → Handlers × Bool
run_one delivered id not_connected s = (s, false)
run_one delivered id fails_later s =
    (report (update delivered (active_info id)) (active_info id) s, false)
run_one delivered id uploaded s =
    let connected = report (update delivered (active_info id)) (active_info id) s in
    let done = report (update delivered (finished_info id)) (finished_info id) connected in
    (record done { active = without_id id done.active }, true)

abbrev pub after_run : Bool → String → Handlers × Bool → Handlers
after_run delivered id (s, true) = s
after_run delivered id (s, false) =
    let failed = report (update delivered (failed_info id)) (failed_info id) s in
    record failed { active = without_id id failed.active }

-- The spawned task of a job.
unfoldable pub run_job : Bool → String → JobEnd → Handlers → Handlers
unfolding run_one
run_job delivered id end s =
    let s' = after_run delivered id (run_one delivered id end s) in
    record s' { stop_tasks = without_id id s'.stop_tasks }

-- StopEgress for one egress.
unfoldable pub stop_egress : String → Handlers → Handlers × Option EgressInfo
stop_egress id s = (record s { stops = signal id (get id s.stops) s.stops }, get id s.infos)
  where
    signal : String → Option Bool → Map Bool → Map Bool
    signal id none stops = stops
    signal id (some sent) stops = insert id true stops

-- ListActiveEgress.
unfoldable pub list_active_egress : Handlers → List String
list_active_egress s = s.active
