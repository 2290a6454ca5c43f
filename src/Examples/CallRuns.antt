-- ===== src/Examples/CallRuns.antt =====
-- Tests and instances of the theorems on remote calls (crates/lk-psrpc/src/lib.rs).
use livekit_rs_voice.Base.{
  ℕ, ◌≡◌, ◌≤◌, ◌⊎◌, refl, true, inl, inr, List, [], ◌∷◌, length, All, some, String, arith, get,
  insert,
}
use livekit_rs_voice.Psrpc.{sanitize, escape, hex4, hex_digit}
use livekit_rs_voice.Psrpc.Client.{
  PsrpcClient, Call, Input, arrives, round, deadline, claim_message, start_call, run_call,
  call_step, dispatch, select_round, take_claim,
}
use livekit_rs_voice.Psrpc.Server.{TopicServer, RpcError, on_request, deliver_grants}
use livekit_rs_voice.Psrpc.Claims.{AreDistinct, run_call-one_job}
use livekit_rs_voice.Psrpc.Calls.{has_entry, keeps_entry, run_call-has_entry}
use livekit_rs_voice.Psrpc.Serving.{served_call, answer, served_call_lem}
use livekit_rs_voice.Psrpc.Names.{IsChar}
use livekit_rs_voice.Psrpc.Names.Channels.{rpc_channel_inj}

abbrev client : PsrpcClient
client = record { client_id = "CLI_1"; pending = [] }

abbrev started : PsrpcClient × Call
started = let (c, call, request) = start_call "REQ_1" 1000 500 (1 ∷ 2 ∷ []) client in (c, call)

-- A server that has received the request.
abbrev bidder : String → TopicServer
bidder id =
    let (c, call, request) = start_call "REQ_1" 1000 500 (1 ∷ 2 ∷ []) client in
    (on_request 1200 request (record { server_id = id; bids = [] })).0

abbrev claim_from : String → Input
claim_from id = arrives (claim_message (record { request_id = "REQ_1"; server_id = id }))

-- Both servers bid, and the first claims twice.
abbrev two_bids : List Input
two_bids =
    claim_from "SRV_1"
    ∷ claim_from "SRV_2"
    ∷ claim_from "SRV_1"
    ∷ round true
    ∷ round true
    ∷ round true
    ∷ []

bidders-AreDistinct : AreDistinct (bidder "SRV_1" ∷ bidder "SRV_2" ∷ [])
unfolding on_request start_call
bidders-AreDistinct = (refl, (refl, tt))

run_call-one_job_example :
    length
      (deliver_grants
        (run_call two_bids started.1 started.0).2
        (bidder "SRV_1" ∷ bidder "SRV_2" ∷ [])).1
    ≤ 1
run_call-one_job_example =
    run_call-one_job two_bids "REQ_1" 1000 500 (1 ∷ 2 ∷ []) client
      (bidder "SRV_1" ∷ bidder "SRV_2" ∷ []) bidders-AreDistinct

first_is_granted :
    (run_call two_bids started.1 started.0).2
    ≡ record { request_id = "REQ_1"; server_id = "SRV_1" } ∷ []
unfolding run_call call_step dispatch select_round take_claim start_call get insert
first_is_granted = refl

-- After a timeout the entry is still there.
run_call-has_entry_example :
    has_entry
      (run_call (deadline ∷ []) started.1 started.0).1
      (run_call (deadline ∷ []) started.1 started.0).0
    ≡ keeps_entry (run_call (deadline ∷ []) started.1 started.0).1.outcome
run_call-has_entry_example = run_call-has_entry (deadline ∷ []) "REQ_1" 1000 500 (1 ∷ 2 ∷ []) client

-- A handler that refuses an empty payload, and else gives it back.
abbrev echo : List ℕ → RpcError ⊎ List ℕ
echo [] = inl (record { code = "invalid_argument"; message = "empty" })
echo (b ∷ bytes) = inr (b ∷ bytes)

served_call_lem_example :
    served_call echo "REQ_1" 1000 500 1200
      (1 ∷ 2 ∷ [])
      client
      (record { server_id = "SRV_1"; bids = [] })
    ≡ (client, some (answer (echo (1 ∷ 2 ∷ []))))
unfolding get
served_call_lem_example =
    served_call_lem echo "REQ_1" 1000 500 1200 (1 ∷ 2 ∷ []) client
      (record { server_id = "SRV_1"; bids = [] }) refl (omega arith)

-- "io", "Get" and "a.b".
abbrev io : List ℕ
io = 105 ∷ 111 ∷ []

abbrev get_method : List ℕ
get_method = 71 ∷ 101 ∷ 116 ∷ []

abbrev dotted : List ℕ
dotted = 97 ∷ 46 ∷ 98 ∷ []

get_method-IsChar : All IsChar get_method
get_method-IsChar = (omega arith, (omega arith, (omega arith, tt)))

dotted-IsChar : All IsChar dotted
dotted-IsChar = (omega arith, (omega arith, (omega arith, tt)))

rpc_channel_inj_example : (get_method ≡ get_method) × (dotted ≡ dotted)
rpc_channel_inj_example =
    rpc_channel_inj io get_method dotted get_method dotted refl refl refl refl refl
      get_method-IsChar dotted-IsChar get_method-IsChar dotted-IsChar refl

-- "au+002eb"
dotted_is_escaped : sanitize dotted ≡ 97 ∷ 117 ∷ 43 ∷ 48 ∷ 48 ∷ 50 ∷ 101 ∷ 98 ∷ []
unfolding sanitize escape hex4 hex_digit
dotted_is_escaped = refl
