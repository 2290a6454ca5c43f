-- ===== src/Cluster/Relay.antt =====
-- crates/lk-server/src/cluster.rs: the relay of signals between the node of a client and the node of its
-- room, over streams of the bus. Protobuf, base64 and JSON are parameters: `encode`, `decode` and
-- `parse`. What `xread_block` answers, call after call, is the list of replies.
use livekit_rs_voice.Base.{
  ℕ, Bool, true, false, ◌||◌, inl, inr, List, [], ◌∷◌, ◌++◌, Option, none, some, String, str_eq,
  if◌then◌else◌, unwrap_or, Map, get, insert,
}
use livekit_rs_voice.Cluster.{
  Result, StreamId, newest, after, Fields, ClusterBus, relay_ctrl, relay_in, relay_out,
}

abbrev pub Reply : Type 0
Reply = Result (Option (List (ℕ × Fields)))

-- fields.into_iter().collect()
abbrev pub collect_from : Map String → Fields → Map String
collect_from m [] = m
collect_from m ((k, v) ∷ fields) = collect_from (insert k v m) fields

abbrev pub collect : Fields → Map String
collect fields = collect_from [] fields

abbrev pub field_or_default : String → Map String → String
field_or_default k m = unwrap_or (get k m) ""

abbrev pub opt_is : Option String → String → Bool
opt_is none k = false
opt_is (some v) k = str_eq v k

abbrev pub is_kind : String → Map String → Bool
is_kind kind m = opt_is (get "kind" m) kind

abbrev pub close_fields : Fields
close_fields = ("kind", "close") ∷ []

abbrev pub request_fields : String → Fields
request_fields encoded = ("kind", "request") ∷ ("data", encoded) ∷ []

abbrev pub response_fields : String → Fields
response_fields encoded = ("kind", "response") ∷ ("data", encoded) ∷ []

abbrev pub start_fields : String → String → String → Fields
start_fields session_id token params =
    ("kind", "start") ∷ ("session_id", session_id) ∷ ("token", token) ∷ ("params", params) ∷ []

-- The arguments that `run_remote_session` is spawned with.
pub record Start (P : Type 0) : Type 0 where
  pub session_id : String
  pub token : String
  pub params : P

module _ {P : Type 0} (parse : String → Option P) (default_params : P) where
  unfoldable pub start_of : Map String → Start P
  start_of m = record {
    session_id = field_or_default "session_id" m;
    token = field_or_default "token" m;
    params = unwrap_or (elim (get "params" m) [ none ↦ none | some p ↦ parse p ]) default_params;
  }

  -- A pass of `run_relay_consumer` through the entries it has read: the sessions it starts, and the id
  -- it reads after.
  unfoldable pub consume_starts : List (ℕ × Fields) → StreamId → List (Start P) × StreamId
  unfolding start_of
  consume_starts [] last = ([], last)
  consume_starts ((id, fields) ∷ entries) last =
      let m = collect fields in
      let (starts, last') = consume_starts entries (after id) in
      (if is_kind "start" m then start_of m ∷ starts else starts, last')

pub record RelayIoReader (R : Type 0) : Type 0 where
  pub last_id : StreamId
  pub pending : List R

-- What `next_request` has come to, with the replies it has seen: a request, the end, or a wait for the
-- next reply.
pub data Next (R : Type 0) : Type 0 where
  next_one : R → Next R
  ended waits : Next R

module _ {R : Type 0} where
  unfoldable pub relay_reader : RelayIoReader R
  relay_reader = record { last_id = newest; pending = [] }

  abbrev pub decoded : (String → Option R) → Map String → List R
  decoded decode m = elim (get "data" m) [
    | none ↦ []
    | some d ↦ elim (decode d) [ none ↦ [] | some req ↦ req ∷ [] ]
  ]

  -- The loop over the entries of one reply: the reader after it, and whether there was a close.
  unfoldable pub read_entries :
      (String → Option R) → List (ℕ × Fields) → RelayIoReader R → Bool × RelayIoReader R
  read_entries decode [] reader = (false, reader)
  read_entries decode ((id, fields) ∷ entries) reader =
      let m = collect fields in
      let closes = is_kind "close" m in
      let reqs = if is_kind "request" m then decoded decode m else [] in
      let (later, reader') =
        read_entries decode entries
          (record reader { last_id = after id; pending = reader.pending ++ reqs }) in
      (closes || later, reader')

  -- What follows the loop over the entries; `later` is the next round of the outer loop.
  unfoldable pub after_reply :
      Bool
      → RelayIoReader R
      → List Reply
      → Next R × RelayIoReader R × List Reply
      → Next R × RelayIoReader R × List Reply
  after_reply true reader replies later = (ended, reader, replies)
  after_reply false reader replies later = elim reader.pending [
    | [] ↦ later
    | req ∷ reqs ↦ (next_one req, record reader { pending = reqs }, replies)
  ]

  -- The loop of `next_request`.
  unfoldable pub next_reply :
      (String → Option R) → List Reply → RelayIoReader R → Next R × RelayIoReader R × List Reply
  unfolding read_entries after_reply
  next_reply decode [] reader = (waits, reader, [])
  next_reply decode (inl e ∷ replies) reader = (ended, reader, replies)
  next_reply decode (inr none ∷ replies) reader = (ended, reader, replies)
  next_reply decode (inr (some entries) ∷ replies) reader =
      let (got_close, reader') = read_entries decode entries reader in
      let later = next_reply decode replies reader' in after_reply got_close reader' replies later

  unfoldable pub next_request :
      (String → Option R) → List Reply → RelayIoReader R → Next R × RelayIoReader R × List Reply
  unfolding next_reply
  next_request decode replies reader = elim reader.pending [
    | [] ↦ next_reply decode replies reader
    | req ∷ reqs ↦ (next_one req, record reader { pending = reqs }, replies)
  ]

module _ {S : Type 0} (bus : ClusterBus S) where
  abbrev pub is_ok : Result Unit → Bool
  is_ok (inl e) = false
  is_ok (inr u) = true

  -- The writer of the node that hosts the room.
  unfoldable pub relay_send : String → String → S → Bool × S
  unfolding relay_out
  relay_send session_id encoded s =
      let (answer, s') = bus.xadd (relay_out session_id) (response_fields encoded) s in
      (is_ok answer, s')

  unfoldable pub relay_close : String → S → S
  unfolding relay_out
  relay_close session_id s = (bus.xadd (relay_out session_id) close_fields s).1

  -- The node of the client: the start, each request, and what follows the pump.
  unfoldable pub relay_start : String → String → String → String → S → Bool × S
  unfolding relay_ctrl
  relay_start target_node session_id token params s =
      let (answer, s') =
        bus.xadd (relay_ctrl target_node) (start_fields session_id token params) s in
      (is_ok answer, s')

  unfoldable pub relay_request : String → String → S → Bool × S
  unfolding relay_in
  relay_request session_id encoded s =
      let (answer, s') = bus.xadd (relay_in session_id) (request_fields encoded) s in
      (is_ok answer, s')

  -- The in-pump, which stops at the first request that the bus does not take.
  unfoldable pub pump : String → List String → S → S
  unfolding relay_request
  pump session_id [] s = s
  pump session_id (encoded ∷ frames) s =
      let (taken, s') = relay_request session_id encoded s in
      let rest = pump session_id frames s' in if taken then rest else s'

  unfoldable pub relay_finish : String → S → S
  unfolding relay_in relay_out
  relay_finish session_id s =
      let s₁ = (bus.xadd (relay_in session_id) close_fields s).1 in
      let s₂ = (bus.del (relay_in session_id) s₁).1 in (bus.del (relay_out session_id) s₂).1

-- What the out-consumer sends to the client of the entries of one reply, and whether it has closed.
module _ {Q : Type 0} (decode : String → Option Q) where
  unfoldable pub relay_responses : List (ℕ × Fields) → List Q × Bool
  relay_responses [] = ([], false)
  relay_responses ((id, fields) ∷ entries) =
      let m = collect fields in
      let (later, closed) = relay_responses entries in
      if is_kind "close" m
      then ([], true)
      else if is_kind "response" m
      then (elim (decode (field_or_default "data" m)) [ none ↦ later | some q ↦ q ∷ later ], closed)
      else (later, closed)
