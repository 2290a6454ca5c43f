-- ===== src/Agent/Offers.antt =====
-- crates/lk-server/src/agent.rs, `dispatch_job` and `launch_room_job`: a job is offered to a worker, and
-- is assigned when the worker accepts it. `dispatch_job` waits for the answer: it is two functions, what
-- it does before and what it does after. Signing the token is a parameter.
use Prim.Native.String.{◌++◌ as text_append}
use livekit_rs_voice.Base.{
  ℕ, ◌+◌, ◌*◌, ◌≡◌, refl, Bool, true, List, Option, none, some, String, str_eq, arith,
  if◌then◌else◌, unwrap_or, is_some, Map, get, Option-cases, inl, inr,
}
use livekit_rs_voice.Core.{unix_seconds}
use livekit_rs_voice.Proto.{RoomInfo}
use livekit_rs_voice.Agent.{
  Store, write, Worker, Job, AgentManager, ServerMessage, availability_request, assignment,
  send_worker, set_availability_responder, fulfill_availability, workers_for, pick_worker,
  track_job,
}

pub record AvailabilityResponse : Type 0 where
  pub available : Bool
  pub participant_identity : String
  pub participant_name : String
  pub participant_metadata : String
  pub participant_attributes : Map String

pub data DispatchError : Type 0 where
  no_worker pending no_answer channel_closed declined : DispatchError
  unknown_key : String → DispatchError
  encoding : String → DispatchError

-- The worker that was asked, with the store and the messages after that.
pub data Asked : Type 0 where
  asked : ℕ → Store → List (ℕ × ServerMessage) → Asked
  not_asked : DispatchError → Asked

unfoldable pub ask_worker : Store → ℕ → Job → ℕ → Asked
unfolding set_availability_responder send_worker
ask_worker store responder job a =
    if is_some (store a).availability
    then not_asked pending
    else let w = set_availability_responder responder (store a) in
      asked a (write a w store) (send_worker (availability_request job) w)

-- `dispatch_job` up to the wait, with the channel made for the answer.
unfoldable pub request_availability : Store → (ℕ → ℕ) → ℕ → Job → AgentManager → Asked
unfolding ask_worker
request_availability store draw responder job m =
    elim (pick_worker store draw (workers_for job.agent_name m)) [
      | none ↦ not_asked no_worker
      | some a ↦ ask_worker store responder job a
    ]

-- What the wait ends with.
pub data Answer : Type 0 where
  timed_out closed : Answer
  answered : AvailabilityResponse → Answer

-- What `build_agent_token` signs; the rest of the claims is fixed.
pub record AgentClaims : Type 0 where
  pub iss : String
  pub sub : String
  pub name : String
  pub metadata : String
  pub attributes : Map String
  pub iat : ℕ
  pub exp : ℕ
  pub room : String

pub data Finished : Type 0 where
  assigned : List (ℕ × ServerMessage) → Finished
  failed : DispatchError → Finished

abbrev pub room_name : Option RoomInfo → String
room_name none = ""
room_name (some r) = r.name

-- The identity that the agent joins with.
abbrev pub identity_for : Job → AvailabilityResponse → String
identity_for job res =
    if str_eq res.participant_identity ""
    then text_append "agent-" job.id
    else res.participant_identity

module _ (encode : AgentClaims → String → Option String) where
  unfoldable pub build_agent_token :
      ℕ → String → String → String → String → String → String → Map String → Option String
  build_agent_token now api_key secret room identity name metadata attributes =
      encode
        (record {
          iss = api_key;
          sub = identity;
          name = name;
          metadata = metadata;
          attributes = attributes;
          iat = unix_seconds now;
          exp = unix_seconds now + 3600;
          room = room;
        })
        secret

  -- The end of `dispatch_job` for an answer that is there.
  unfoldable pub assign : Map String → ℕ → Worker → Job → AvailabilityResponse → Finished
  unfolding build_agent_token send_worker
  assign keys now w job res = elim (get w.api_key keys) [
    | none ↦ failed (unknown_key w.api_key)
    | some secret ↦
        elim (build_agent_token now w.api_key secret (room_name job.room) (identity_for job res)
          res.participant_name res.participant_metadata res.participant_attributes) [
            | none ↦ failed (encoding w.api_key)
            | some token ↦ assigned (send_worker (assignment job token) w)
          ]
  ]

  unfoldable pub finish_dispatch : Map String → ℕ → Worker → Job → Answer → Finished
  unfolding assign
  finish_dispatch keys now w job timed_out = failed no_answer
  finish_dispatch keys now w job closed = failed channel_closed
  finish_dispatch keys now w job (answered res) =
      if res.available then assign keys now w job res else failed declined

-- The job is recorded when it is assigned.
abbrev pub record_job : Finished → Job → AgentManager → AgentManager
record_job (assigned sent) job m = track_job job m
record_job (failed e) job m = m

-- The job that `launch_room_job` makes; `id` is drawn by `new_job_id`.
unfoldable pub room_job :
    String → ℕ → String → RoomInfo → String → String → Map String → Option String → Job
room_job id now agent_name room metadata deployment attributes dispatch_id = record {
  id = id;
  dispatch_id = unwrap_or dispatch_id "";
  job_type = 0;
  room = some room;
  metadata = metadata;
  agent_name = agent_name;
  status = 0;
  updated_at = unix_seconds now * 1000000000;
  deployment = deployment;
  attributes = attributes;
}

-- A worker that was asked is asked again, for this job or another, only after it has answered: until
-- then whatever is offered to it fails, also when the first offer has timed out. The answer, in time
-- or late, frees it.
pub ask_worker-ask_worker :
    (store store' : Store) (responder responder' : ℕ) (job job' : Job) (a : ℕ)
    (sent : List (ℕ × ServerMessage))
    → ask_worker store responder job a ≡ asked a store' sent
    → let (answering, taken) = fulfill_availability (store' a) in
      (ask_worker store' responder' job' a ≡ not_asked pending)
      × (taken ≡ some responder)
      × (ask_worker (write a answering store') responder' job' a
          ≡ asked a
              (write a (set_availability_responder responder' answering) (write a answering store'))
              (send_worker
                (availability_request job')
                (set_availability_responder responder' answering)))
unfolding ask_worker fulfill_availability set_availability_responder
ask_worker-ask_worker store store' responder responder' job job' a sent h = ground (arith, h)

-- A job is assigned only if its worker has answered that it takes it, and has a key that is known:
-- the message then carries the token signed for the room of the job and the identity of the agent.
pub finish_dispatch_lem :
    (encode : AgentClaims → String → Option String) (keys : Map String) (now : ℕ) (w : Worker)
    (job : Job) (answer : Answer) (sent : List (ℕ × ServerMessage))
    → finish_dispatch encode keys now w job answer ≡ assigned sent
    → (res : AvailabilityResponse) × (secret : String) × (token : String) × (answer ≡ answered res)
      × (res.available ≡ true)
      × (get w.api_key keys ≡ some secret)
      × (build_agent_token encode now w.api_key secret
            (room_name job.room)
            (identity_for job res)
            res.participant_name
            res.participant_metadata
            res.participant_attributes
          ≡ some token)
      × (sent ≡ send_worker (assignment job token) w)
unfolding finish_dispatch assign
finish_dispatch_lem encode keys now w job timed_out sent h = absurd cc
finish_dispatch_lem encode keys now w job closed sent h = absurd cc
finish_dispatch_lem encode keys now w job (answered res) sent h =
    elim (Option-cases (get w.api_key keys)) [
      | inl e ↦ absurd (ground (arith, h, e))
      | inr (secret, e) ↦
          elim (Option-cases (
            build_agent_token encode now w.api_key secret (room_name job.room)
              (identity_for job res) res.participant_name res.participant_metadata
              res.participant_attributes)) [
                | inl e' ↦ absurd (ground (arith, h, e, e'))
                | inr (token, e') ↦
                    (res, secret, token, refl, ground (arith, h), e, e', ground (arith, h, e, e'))
              ]
    ]
