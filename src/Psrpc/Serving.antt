-- ===== src/Psrpc/Serving.antt =====
-- crates/lk-psrpc/src/lib.rs: a call, from the client through a server and back.
use livekit_rs_voice.Base.{
  ℕ, ◌+◌, ◌<◌, ◌≡◌, refl, Bool, true, false, List, [], ◌∷◌, ◌++◌, map, Option, none, some, String,
  str_eq, eq_refl, arith, if◌then◌else◌, get, insert, get-insert, remove-insert_new, inl, inr, ◌⊎◌,
  ◌∙◌, ap, subst, insert_again, Map,
}
use livekit_rs_voice.Psrpc.{Request, ClaimRequest, ClaimResponse, Response}
use livekit_rs_voice.Psrpc.Client.{
  PsrpcClient, Call, Input, arrives, round, claim_message, response_message, dispatch, take_claim,
  select_round, call_step, run_call, start_call, response_payload, no_pending, grant_of, Pending,
  Outcome, rpc,
}
use livekit_rs_voice.Psrpc.Server.{
  TopicServer, Job, RpcError, on_request, on_grant, handle_job, retain_bids, response_to, Bid,
  job_of,
}

-- What the handler's result is to the client: an error with an empty message is no error to it.
abbrev pub answer : RpcError ⊎ List ℕ → Outcome
answer (inr bytes) = inr bytes
answer (inl e) = if str_eq e.message "" then inr [] else inl (rpc e.code e.message)

-- One message is routed and the loop goes round.
abbrev pub claim_inputs : List ClaimRequest → List Input
claim_inputs claims = map (λ m. arrives (claim_message m)) claims ++ round true ∷ []

abbrev pub response_inputs : List Response → List Input
response_inputs resps = map (λ m. arrives (response_message m)) resps ++ round true ∷ []

-- The grants reach the server one after the other.
abbrev pub grant_all : List ClaimResponse → TopicServer → List Job
grant_all [] s = []
grant_all (grant ∷ grants) s = let (s', jobs) = on_grant grant s in jobs ++ grant_all grants s'

abbrev bid_of : Request → Bid
bid_of req = record {
  client_id = req.client_id;
  raw_request = req.raw_request;
  expiry = req.expiry;
}

abbrev claim_by : TopicServer → Request → ClaimRequest
claim_by s req = record { request_id = req.request_id; server_id = s.server_id }

on_request_in_time :
    (now : ℕ) (req : Request) (s : TopicServer)
    → now < req.expiry
    → on_request now req s ≡ (
      record s { bids = insert req.request_id (bid_of req) (retain_bids now s.bids) },
      claim_by s req ∷ [],
    )
unfolding on_request
on_request_in_time now req s h = ground (arith, h)

on_grant_bid :
    (s : TopicServer) (req : Request) (bids : Map Bid)
    → (on_grant
        (grant_of (claim_by s req))
        (record s { bids = insert req.request_id (bid_of req) bids })).1
      ≡ job_of (grant_of (claim_by s req)) (bid_of req) ∷ []
unfolding on_grant
on_grant_bid s req bids = ground (
  arith,
  eq_refl s.server_id,
  get-insert req.request_id req.request_id (bid_of req) bids,
  eq_refl req.request_id,
)

-- A client that has just begun the call.
abbrev begun : String → PsrpcClient → PsrpcClient
begun id c = record c { pending = insert id no_pending c.pending }

abbrev call_of : String → Bool → Option Outcome → Call
call_of id granted outcome = record { request_id = id; granted = granted; outcome = outcome }

abbrev waiting : String → Pending → PsrpcClient → PsrpcClient
waiting id p c = record c { pending = insert id p c.pending }

dispatch-claim :
    (claim : ClaimRequest) (c : PsrpcClient)
    → dispatch (claim_message claim) (begun claim.request_id c)
      ≡ waiting claim.request_id (record { claims = claim ∷ []; responses = [] }) c
unfolding dispatch
dispatch-claim claim c =
    let id = claim.request_id in
    ground (
      arith,
      get-insert id id no_pending c.pending,
      eq_refl id,
      insert_again id (record { claims = claim ∷ []; responses = [] }) no_pending c.pending,
    )

dispatch-response :
    (resp : Response) (c : PsrpcClient)
    → dispatch (response_message resp) (begun resp.request_id c)
      ≡ waiting resp.request_id (record { claims = []; responses = resp ∷ [] }) c
unfolding dispatch
dispatch-response resp c =
    let id = resp.request_id in
    ground (
      arith,
      get-insert id id no_pending c.pending,
      eq_refl id,
      insert_again id (record { claims = []; responses = resp ∷ [] }) no_pending c.pending,
    )

select_round-claim :
    (claim : ClaimRequest) (c : PsrpcClient)
    → select_round true
        (call_of claim.request_id false none)
        (waiting claim.request_id (record { claims = claim ∷ []; responses = [] }) c)
      ≡ (begun claim.request_id c, call_of claim.request_id true none, grant_of claim ∷ [])
unfolding select_round take_claim
select_round-claim claim c =
    let id = claim.request_id in
    let p : Pending = record { claims = claim ∷ []; responses = [] } in
    ground (arith, get-insert id id p c.pending, eq_refl id, insert_again id no_pending p c.pending)

select_round-response :
    (resp : Response) (c : PsrpcClient)
    → get resp.request_id c.pending ≡ none
    → select_round true
        (call_of resp.request_id true none)
        (waiting resp.request_id (record { claims = []; responses = resp ∷ [] }) c)
      ≡ (c, call_of resp.request_id true (some (response_payload resp)), [])
unfolding select_round
select_round-response resp c fresh =
    let id = resp.request_id in
    let p : Pending = record { claims = []; responses = resp ∷ [] } in
    ground (arith, get-insert id id p c.pending, eq_refl id, remove-insert_new id p c.pending fresh)

claim_run :
    (claim : ClaimRequest) (c : PsrpcClient)
    → run_call
        (claim_inputs (claim ∷ []))
        (call_of claim.request_id false none)
        (begun claim.request_id c)
      ≡ (begun claim.request_id c, call_of claim.request_id true none, grant_of claim ∷ [])
unfolding run_call call_step
claim_run claim c = rw (dispatch-claim claim c, select_round-claim claim c) refl

response_run :
    (resp : Response) (c : PsrpcClient)
    → get resp.request_id c.pending ≡ none
    → run_call
        (response_inputs (resp ∷ []))
        (call_of resp.request_id true none)
        (begun resp.request_id c)
      ≡ (c, call_of resp.request_id true (some (response_payload resp)), [])
unfolding run_call call_step
response_run resp c fresh = rw (dispatch-response resp c, select_round-response resp c fresh) refl

-- The response reaches the client.
abbrev pub responded :
    (List ℕ → RpcError ⊎ List ℕ)
    → String
    → List Job
    → PsrpcClient × Call × List ClaimResponse
    → PsrpcClient × Option Outcome
responded handle server_id jobs (c, call, grants) =
    let (c', call', none_left) =
      run_call (response_inputs (map (handle_job handle server_id) jobs)) call c in
    (c', call'.outcome)

-- The grant reaches the server.
abbrev pub granted_to :
    (List ℕ → RpcError ⊎ List ℕ)
    → TopicServer
    → PsrpcClient × Call × List ClaimResponse
    → PsrpcClient × Option Outcome
granted_to handle s (c, call, grants) =
    responded handle s.server_id (grant_all grants s) (c, call, grants)

-- A call that one server serves: the request reaches it at `later`, its claim reaches the client, the
-- grant reaches the server, and what the server publishes reaches the client.
abbrev pub served_call :
    (List ℕ → RpcError ⊎ List ℕ)
    → String
    → ℕ
    → ℕ
    → ℕ
    → List ℕ
    → PsrpcClient
    → TopicServer
    → PsrpcClient × Option Outcome
served_call handle id now timeout later payload c s =
    let (c₀, call₀, request) = start_call id now timeout payload c in
    let (s₁, claims) = on_request later request s in
    granted_to handle s₁ (run_call (claim_inputs claims) call₀ c₀)

response_to-answer :
    (server_id : String) (job : Job) (result : RpcError ⊎ List ℕ)
    → response_payload (response_to server_id job result) ≡ answer result
unfolding response_payload
response_to-answer server_id job (inr bytes) = refl
response_to-answer server_id job (inl e) = refl

response_to-request_id :
    (server_id : String) (job : Job) (result : RpcError ⊎ List ℕ)
    → (response_to server_id job result).request_id ≡ job.request_id
response_to-request_id server_id job (inr bytes) = refl
response_to-request_id server_id job (inl e) = refl

handle_job-request_id :
    (handle : List ℕ → RpcError ⊎ List ℕ) (server_id : String) (job : Job)
    → (handle_job handle server_id job).request_id ≡ job.request_id
unfolding handle_job
handle_job-request_id handle server_id job =
    response_to-request_id server_id job (handle job.raw_request)

handle_job-answer :
    (handle : List ℕ → RpcError ⊎ List ℕ) (server_id : String) (job : Job)
    → response_payload (handle_job handle server_id job) ≡ answer (handle job.raw_request)
unfolding handle_job
handle_job-answer handle server_id job = response_to-answer server_id job (handle job.raw_request)

response_run_of :
    (id : String) (resp : Response) (c : PsrpcClient)
    → resp.request_id ≡ id
    → get id c.pending ≡ none
    → run_call (response_inputs (resp ∷ [])) (call_of id true none) (begun id c)
      ≡ (c, call_of id true (some (response_payload resp)), [])
response_run_of id resp c e fresh =
    subst
      (λ k.
        run_call (response_inputs (resp ∷ [])) (call_of k true none) (begun k c)
        ≡ (c, call_of k true (some (response_payload resp)), []))
      e (response_run resp c (ap (λ k. get k c.pending) e ∙ fresh))

-- A call that a server serves before it expires returns what the handler returns for its payload, and
-- leaves the client as it was, if the id of the request is new to the client. An error of the handler
-- that has an empty message is returned as a success with no payload.
pub served_call_lem :
    (handle : List ℕ → RpcError ⊎ List ℕ) (id : String) (now timeout later : ℕ) (payload : List ℕ)
    (c : PsrpcClient) (s : TopicServer)
    → get id c.pending ≡ none
    → later < now + timeout
    → served_call handle id now timeout later payload c s ≡ (c, some (answer (handle payload)))
unfolding start_call
served_call_lem handle id now timeout later payload c s fresh in_time =
    ap
      (λ r.
        granted_to handle r.0 (run_call (claim_inputs r.1) (call_of id false none) (begun id c)))
      (on_request_in_time later request s in_time)
    ∙ ap (granted_to handle s₁) (claim_run (claim_by s request) c)
    ∙ ap (λ jobs. responded handle s.server_id (jobs ++ []) (begun id c, call_of id true none, []))
        (on_grant_bid s request (retain_bids later s.bids))
    ∙ ap (λ r. (r.0, r.1.outcome))
        (response_run_of id (handle_job handle s.server_id job) c
          (handle_job-request_id handle s.server_id job) fresh)
    ∙ ap (λ out. (c, some out)) (handle_job-answer handle s.server_id job)
  where
    request : Request
    request = record {
      request_id = id;
      client_id = c.client_id;
      expiry = now + timeout;
      raw_request = payload;
    }

    s₁ : TopicServer
    s₁ = record s { bids = insert id (bid_of request) (retain_bids later s.bids) }

    job : Job
    job = job_of (grant_of (claim_by s request)) (bid_of request)
