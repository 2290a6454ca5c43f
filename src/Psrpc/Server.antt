-- ===== src/Psrpc/Server.antt =====
-- crates/lk-psrpc/src/lib.rs, `PsrpcServer`: a method that is registered bids for the requests that
-- reach it, and handles those that it is granted. The handler is a parameter.
use livekit_rs_voice.Base.{
  ℕ, not, List, [], ◌∷◌, ◌++◌, none, some, String, str_eq, ltb, leb, if◌then◌else◌, Map, get,
  insert, remove, ◌⊎◌, inl, inr,
}
use livekit_rs_voice.Psrpc.{Request, ClaimRequest, ClaimResponse, Response}

pub record RpcError : Type 0 where
  pub code : String
  pub message : String

-- The client, the request and its expiry.
pub record Bid : Type 0 where
  pub client_id : String
  pub raw_request : List ℕ
  pub expiry : ℕ

-- The task of `register_topic`.
pub record TopicServer : Type 0 where
  pub server_id : String
  pub bids : Map Bid

-- pending.retain(|_, (_, _, exp)| *exp > now)
abbrev pub retain_bids : ℕ → Map Bid → Map Bid
retain_bids now [] = []
retain_bids now ((id, bid) ∷ bids) =
    let rest = retain_bids now bids in if ltb now bid.expiry then (id, bid) ∷ rest else rest

-- A request: what is published on the claim channel of its client.
unfoldable pub on_request : ℕ → Request → TopicServer → TopicServer × List ClaimRequest
on_request now req s =
    let bid : Bid = record {
      client_id = req.client_id;
      raw_request = req.raw_request;
      expiry = req.expiry;
    } in
    let claim : ClaimRequest = record { request_id = req.request_id; server_id = s.server_id } in
    if leb req.expiry now
    then (s, [])
    else (record s { bids = insert req.request_id bid (retain_bids now s.bids) }, claim ∷ [])

-- The arguments of the task that handles a request.
pub record Job : Type 0 where
  pub request_id : String
  pub client_id : String
  pub raw_request : List ℕ

abbrev pub job_of : ClaimResponse → Bid → Job
job_of grant bid = record {
  request_id = grant.request_id;
  client_id = bid.client_id;
  raw_request = bid.raw_request;
}

unfoldable pub on_grant : ClaimResponse → TopicServer → TopicServer × List Job
on_grant grant s =
    if not (str_eq grant.server_id s.server_id)
    then (s, [])
    else elim (get grant.request_id s.bids) [
      | none ↦ (s, [])
      | some bid ↦ (record s { bids = remove grant.request_id s.bids }, job_of grant bid ∷ [])
    ]

abbrev pub response_to : String → Job → RpcError ⊎ List ℕ → Response
response_to server_id job (inr bytes) = record {
  request_id = job.request_id;
  server_id = server_id;
  raw_response = bytes;
  error = "";
  code = "";
}
response_to server_id job (inl e) = record {
  request_id = job.request_id;
  server_id = server_id;
  raw_response = [];
  error = e.message;
  code = e.code;
}

-- What the task publishes on the response channel of the client.
unfoldable pub handle_job : (List ℕ → RpcError ⊎ List ℕ) → String → Job → Response
handle_job handle server_id job = response_to server_id job (handle job.raw_request)

-- A grant is published to every server of the topic.
unfoldable pub deliver_grant : ClaimResponse → List TopicServer → List TopicServer × List Job
unfolding on_grant
deliver_grant grant [] = ([], [])
deliver_grant grant (s ∷ servers) =
    let (s', jobs) = on_grant grant s in
    let (servers', more) = deliver_grant grant servers in (s' ∷ servers', jobs ++ more)

unfoldable pub deliver_grants : List ClaimResponse → List TopicServer → List TopicServer × List Job
unfolding deliver_grant
deliver_grants [] servers = (servers, [])
deliver_grants (grant ∷ grants) servers =
    let (servers', jobs) = deliver_grant grant servers in
    let (servers'', more) = deliver_grants grants servers' in (servers'', jobs ++ more)
