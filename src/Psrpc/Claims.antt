-- ===== src/Psrpc/Claims.antt =====
-- crates/lk-psrpc/src/lib.rs: that one server at most runs the handler of a call.
use livekit_rs_voice.Base.{
  ℕ, ◌+◌, ◌≤◌, ◌≡◌, refl, Bool, false, List, [], ◌∷◌, String, str_eq, eq_iff, arith, if◌then◌else◌,
  length, length-append, get, any_of, Option-cases, inl, inr,
}
use livekit_rs_voice.Psrpc.{ClaimRequest, ClaimResponse, Response}
use livekit_rs_voice.Psrpc.Client.{
  PsrpcClient, Call, Input, arrives, round, deadline, take_claim, take_first, select_round,
  call_step, run_call, start_call,
}
use livekit_rs_voice.Psrpc.Server.{TopicServer, on_grant, deliver_grant, deliver_grants}

-- What a call may still grant.
abbrev pub grants_left : Call → ℕ
grants_left call = if call.granted then 0 else 1

take_first-grants :
    (taken : Bool) (responses : List Response) (claims : List ClaimRequest) (call : Call)
    (c : PsrpcClient)
    → length (take_first taken responses claims call c).2
        + grants_left (take_first taken responses claims call c).1
      ≤ grants_left call
unfolding take_claim
take_first-grants taken (resp ∷ responses) claims call c = omega arith
take_first-grants taken [] (claim ∷ claims) call c = ground arith
take_first-grants taken [] [] call c = omega arith

call_step-grants :
    (i : Input) (call : Call) (c : PsrpcClient)
    → length (call_step i call c).2 + grants_left (call_step i call c).1 ≤ grants_left call
unfolding call_step select_round
call_step-grants (arrives m) call c = omega arith
call_step-grants (round taken) call c = elim (Option-cases (get call.request_id c.pending)) [
  | inl gone ↦ ground (arith, gone)
  | inr (p, there) ↦ ground (arith, there, take_first-grants taken p.responses p.claims call c)
]
call_step-grants deadline call c = ground arith

run_call-grants :
    (inputs : List Input) (call : Call) (c : PsrpcClient)
    → length (run_call inputs call c).2 ≤ grants_left call
unfolding run_call
run_call-grants [] call c = omega arith
run_call-grants (i ∷ inputs) call c =
    let (c₁, call₁, grants) = call_step i call c in
    omega (
      arith,
      call_step-grants i call c,
      run_call-grants inputs call₁ c₁,
      length-append grants (run_call inputs call₁ c₁).2,
    )

abbrev has_server : String → List TopicServer → Bool
has_server id servers = any_of (λ s. str_eq id s.server_id) servers

-- No two servers have one id.
abbrev pub AreDistinct : List TopicServer → Type 0
AreDistinct [] = Unit
AreDistinct (s ∷ servers) = (has_server s.server_id servers ≡ false) × AreDistinct servers

on_grant-jobs :
    (grant : ClaimResponse) (s : TopicServer)
    → length (on_grant grant s).1 ≤ (if str_eq grant.server_id s.server_id then 1 else 0)
unfolding on_grant
on_grant-jobs grant s = ground arith

deliver_grant-absent :
    (grant : ClaimResponse) (servers : List TopicServer)
    → has_server grant.server_id servers ≡ false
    → length (deliver_grant grant servers).1 ≡ 0
unfolding deliver_grant
deliver_grant-absent grant [] h = refl
deliver_grant-absent grant (s ∷ servers) h = ground (
  arith,
  h,
  on_grant-jobs grant s,
  deliver_grant-absent grant servers,
  length-append (on_grant grant s).1 (deliver_grant grant servers).1,
)

deliver_grant-jobs :
    (grant : ClaimResponse) (servers : List TopicServer)
    → AreDistinct servers
    → length (deliver_grant grant servers).1 ≤ 1
unfolding deliver_grant
deliver_grant-jobs grant [] d = omega arith
deliver_grant-jobs grant (s ∷ servers) d = ground (
  arith,
  d.0,
  eq_iff grant.server_id s.server_id,
  on_grant-jobs grant s,
  deliver_grant-jobs grant servers d.1,
  deliver_grant-absent grant servers,
  length-append (on_grant grant s).1 (deliver_grant grant servers).1,
)

deliver_grants-jobs :
    (grants : List ClaimResponse) (servers : List TopicServer)
    → AreDistinct servers
    → length grants ≤ 1
    → length (deliver_grants grants servers).1 ≤ 1
unfolding deliver_grants
deliver_grants-jobs [] servers d h = omega arith
deliver_grants-jobs (grant ∷ []) servers d h =
    omega
      (arith, deliver_grant-jobs grant servers d, length-append (deliver_grant grant servers).1 [])
deliver_grants-jobs (grant ∷ next ∷ grants) servers d h = absurd (omega (arith, h))

-- Whatever messages arrive while a call runs, and in whatever order the loop takes them, all servers of
-- the topic together run the handler once at most, where no two servers have one id. (A server that bids
-- twice, or many that bid, are granted once.)
pub run_call-one_job :
    (inputs : List Input) (request_id : String) (now timeout : ℕ) (payload : List ℕ)
    (c : PsrpcClient) (servers : List TopicServer)
    → AreDistinct servers
    → let (c', call, request) = start_call request_id now timeout payload c in
      length (deliver_grants (run_call inputs call c').2 servers).1 ≤ 1
unfolding start_call
run_call-one_job inputs request_id now timeout payload c servers d =
    let (c', call, request) = start_call request_id now timeout payload c in
    deliver_grants-jobs (run_call inputs call c').2 servers d (run_call-grants inputs call c')
