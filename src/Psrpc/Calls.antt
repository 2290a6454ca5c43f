-- ===== src/Psrpc/Calls.antt =====
-- crates/lk-psrpc/src/lib.rs: how a call ends, at the client and through a server.
use livekit_rs_voice.Base.{
  ℕ, ◌≡◌, refl, Bool, true, false, List, [], ◌∷◌, ◌++◌, Option, none, some, String, eq_iff, eq_refl,
  arith, get, insert, Map, ◌∙◌, get-insert, get-remove, Option-cases, inl, inr, is_some,
}
use livekit_rs_voice.Psrpc.{ClaimRequest, Response}
use livekit_rs_voice.Psrpc.Client.{
  PsrpcClient, Call, Input, arrives, round, deadline, Message, claim_message, response_message,
  other_message, dispatch, take_claim, take_first, select_round, call_step, run_call, start_call,
  response_payload, no_pending, Outcome, bus_error, timed_out, rpc,
}

-- Which outcomes leave the entry of the call with the client.
abbrev pub keeps_entry : Option Outcome → Bool
keeps_entry none = true
keeps_entry (some (inl timed_out)) = true
keeps_entry (some (inl bus_error)) = false
keeps_entry (some (inl (rpc code message))) = false
keeps_entry (some (inr bytes)) = false

abbrev pub has_entry : Call → PsrpcClient → Bool
has_entry call c = is_some (get call.request_id c.pending)

get-insert_present :
    {V : Type 0} (k j : String) (v : V) (m : Map V)
    → is_some (get k m) ≡ true
    → is_some (get j (insert k v m)) ≡ is_some (get j m)
get-insert_present k j v m h = ground (arith, h, get-insert k j v m, eq_iff k j)

dispatch-has_entry :
    (m : Message) (call : Call) (c : PsrpcClient) → has_entry call (dispatch m c) ≡ has_entry call c
unfolding dispatch
dispatch-has_entry (claim_message claim) call c =
    elim (Option-cases (get claim.request_id c.pending)) [
      | inl gone ↦ ground (arith, gone)
      | inr (p, there) ↦ ground (
        arith,
        there,
        get-insert_present claim.request_id call.request_id
            (record p { claims = p.claims ++ claim ∷ [] }) c.pending,
      )
    ]
dispatch-has_entry (response_message resp) call c =
    elim (Option-cases (get resp.request_id c.pending)) [
      | inl gone ↦ ground (arith, gone)
      | inr (p, there) ↦ ground (
        arith,
        there,
        get-insert_present resp.request_id call.request_id
            (record p { responses = p.responses ++ resp ∷ [] }) c.pending,
      )
    ]
dispatch-has_entry other_message call c = refl

abbrev IsKept : Call → PsrpcClient → Type 0
IsKept call c = has_entry call c ≡ keeps_entry call.outcome

take_first-IsKept :
    (taken : Bool) (responses : List Response) (claims : List ClaimRequest) (call : Call)
    (c : PsrpcClient)
    → call.outcome ≡ none
    → IsKept call c
    → IsKept
        (take_first taken responses claims call c).1
        (take_first taken responses claims call c).0
unfolding take_claim response_payload
take_first-IsKept taken (resp ∷ responses) claims call c running h =
    ground (arith, get-remove call.request_id call.request_id c.pending, eq_refl call.request_id)
take_first-IsKept taken [] (claim ∷ claims) call c running h = ground (
  arith,
  h,
  running,
  get-insert call.request_id call.request_id (record { claims = claims; responses = [] }) c.pending,
  get-remove call.request_id call.request_id
      (insert call.request_id (record { claims = claims; responses = [] }) c.pending),
  eq_refl call.request_id,
)
take_first-IsKept taken [] [] call c running h = h

call_step-IsKept :
    (i : Input) (call : Call) (c : PsrpcClient)
    → IsKept call c
    → IsKept (call_step i call c).1 (call_step i call c).0
unfolding call_step select_round
call_step-IsKept (arrives m) call c h = dispatch-has_entry m call c ∙ h
call_step-IsKept (round taken) call c h = elim (Option-cases call.outcome) [
  | inr (out, over) ↦ ground (arith, over, h)
  | inl running ↦ elim (Option-cases (get call.request_id c.pending)) [
    | inl gone ↦ absurd (ground (arith, gone, running, h))
    | inr (p, there) ↦
        ground
          (arith, running, there, take_first-IsKept taken p.responses p.claims call c running h)
  ]
]
call_step-IsKept deadline call c h = ground (arith, h)

run_call-IsKept :
    (inputs : List Input) (call : Call) (c : PsrpcClient)
    → IsKept call c
    → IsKept (run_call inputs call c).1 (run_call inputs call c).0
unfolding run_call
run_call-IsKept [] call c h = h
run_call-IsKept (i ∷ inputs) call c h =
    let (c₁, call₁, grants) = call_step i call c in
    run_call-IsKept inputs call₁ c₁ (call_step-IsKept i call c h)

-- A call keeps its entry with the client while it runs, and gives it up when it returns a payload, an
-- error of the server or an error of the bus. After a timeout the entry stays.
pub run_call-has_entry :
    (inputs : List Input) (request_id : String) (now timeout : ℕ) (payload : List ℕ)
    (c : PsrpcClient)
    → let (c₀, call₀, request) = start_call request_id now timeout payload c in
      let (c', call', grants) = run_call inputs call₀ c₀ in
      has_entry call' c' ≡ keeps_entry call'.outcome
unfolding start_call
run_call-has_entry inputs request_id now timeout payload c =
    let (c₀, call₀, request) = start_call request_id now timeout payload c in
    run_call-IsKept inputs call₀ c₀
      (ground (arith, get-insert request_id request_id no_pending c.pending, eq_refl request_id))
