-- ===== src/Psrpc/Client.antt =====
-- crates/lk-psrpc/src/lib.rs, `PsrpcClient`: a call, from its request to its result. What can happen to
-- it is a list of inputs: a message arrives and is routed, the loop of the call goes round, the timeout
-- passes. The channels of a call close only with its entry, at its end, so the loop never sees them
-- closed.
use livekit_rs_voice.Base.{
  ℕ, ◌+◌, Bool, true, false, List, [], ◌∷◌, ◌++◌, Option, none, some, String, str_eq, if◌then◌else◌,
  Map, get, insert, remove, ◌⊎◌, inl, inr,
}
use livekit_rs_voice.Psrpc.{Request, ClaimRequest, ClaimResponse, Response}

pub data PsrpcError : Type 0 where
  bus_error timed_out : PsrpcError
  rpc : String → String → PsrpcError

abbrev pub Outcome : Type 0
Outcome = PsrpcError ⊎ List ℕ

-- What waits in the two channels of a call.
pub record Pending : Type 0 where
  pub claims : List ClaimRequest
  pub responses : List Response

pub record PsrpcClient : Type 0 where
  pub client_id : String
  pub pending : Map Pending

-- A payload that `dispatch` decodes.
pub data Message : Type 0 where
  claim_message : ClaimRequest → Message
  response_message : Response → Message
  other_message : Message

unfoldable pub dispatch : Message → PsrpcClient → PsrpcClient
dispatch (claim_message claim) c = elim (get claim.request_id c.pending) [
  | none ↦ c
  | some p ↦
      let p' = record p { claims = p.claims ++ claim ∷ [] } in
      record c { pending = insert claim.request_id p' c.pending }
]
dispatch (response_message resp) c = elim (get resp.request_id c.pending) [
  | none ↦ c
  | some p ↦
      let p' = record p { responses = p.responses ++ resp ∷ [] } in
      record c { pending = insert resp.request_id p' c.pending }
]
dispatch other_message c = c

unfoldable pub response_payload : Response → Outcome
response_payload resp =
    if str_eq resp.error "" then inr resp.raw_response else inl (rpc resp.code resp.error)

-- A call in its loop, or done.
pub record Call : Type 0 where
  pub request_id : String
  pub granted : Bool
  pub outcome : Option Outcome

abbrev pub no_pending : Pending
no_pending = record { claims = []; responses = [] }

-- The start of `request_single`, with the id that was drawn: the client, the call, and the request to
-- publish.
unfoldable pub start_call : String → ℕ → ℕ → List ℕ → PsrpcClient → PsrpcClient × Call × Request
start_call request_id now timeout payload c = (
  record c { pending = insert request_id no_pending c.pending },
  record { request_id = request_id; granted = false; outcome = none },
  record {
    request_id = request_id;
    client_id = c.client_id;
    expiry = now + timeout;
    raw_request = payload;
  },
)

-- The end of `request_single`: the inner call has returned.
abbrev pub end_call : Outcome → Call → PsrpcClient → PsrpcClient × Call
end_call out call c =
    (record c { pending = remove call.request_id c.pending }, record call { outcome = some out })

abbrev pub grant_of : ClaimRequest → ClaimResponse
grant_of claim = record { request_id = claim.request_id; server_id = claim.server_id }

-- One round of the loop of `request_single_inner`, which takes a response first: what it publishes is
-- its result. `taken` is whether the bus takes what is published.
unfoldable pub take_claim :
    Bool → ClaimRequest → Call → PsrpcClient → PsrpcClient × Call × List ClaimResponse
take_claim taken claim call c =
    if call.granted
    then (c, call, [])
    else if taken
    then (c, record call { granted = true }, grant_of claim ∷ [])
    else let (c', call') = end_call (inl bus_error) call c in (c', call', [])

abbrev pub take_first :
    Bool
    → List Response
    → List ClaimRequest
    → Call
    → PsrpcClient
    → PsrpcClient × Call × List ClaimResponse
take_first taken (resp ∷ responses) claims call c =
    let (c', call') = end_call (response_payload resp) call c in (c', call', [])
take_first taken [] (claim ∷ claims) call c =
    let c' = record c {
      pending = insert call.request_id (record { claims = claims; responses = [] }) c.pending;
    } in
    take_claim taken claim call c'
take_first taken [] [] call c = (c, call, [])

unfoldable pub select_round : Bool → Call → PsrpcClient → PsrpcClient × Call × List ClaimResponse
unfolding take_claim response_payload
select_round taken call c = elim (get call.request_id c.pending) [
  | none ↦ (c, call, [])
  | some p ↦ take_first taken p.responses p.claims call c
]

pub data Input : Type 0 where
  arrives : Message → Input
  round : Bool → Input
  deadline : Input

-- A call that has an outcome takes no more part.
unfoldable pub call_step : Input → Call → PsrpcClient → PsrpcClient × Call × List ClaimResponse
unfolding dispatch select_round
call_step (arrives m) call c = (dispatch m c, call, [])
call_step (round taken) call c = elim call.outcome [
  | none ↦ select_round taken call c
  | some out ↦ (c, call, [])
]
call_step deadline call c = elim call.outcome [
  | none ↦ (c, record call { outcome = some (inl timed_out) }, [])
  | some out ↦ (c, call, [])
]

unfoldable pub run_call : List Input → Call → PsrpcClient → PsrpcClient × Call × List ClaimResponse
unfolding call_step
run_call [] call c = (c, call, [])
run_call (i ∷ inputs) call c =
    let (c₁, call₁, grants) = call_step i call c in
    let (c₂, call₂, more) = run_call inputs call₁ c₁ in (c₂, call₂, grants ++ more)
