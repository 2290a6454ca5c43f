-- ===== src/Cluster/RoundTrip.antt =====
-- crates/lk-server/src/cluster.rs: that the requests which the client's node writes to the relay are
-- those that the session reads from it.
use livekit_rs_voice.Base.{
  ℕ, ◌+◌, ◌≤◌, ◌≡◌, refl, false, inr, List, [], ◌∷◌, ◌++◌, Option, none, some, String, arith,
  if◌then◌else◌, length, map, append-nil, append_assoc, ap, ap₂, sym, ◌∙◌, get, insert, get-insert,
  unwrap_or, eq_refl,
}
use livekit_rs_voice.Cluster.{Fields, StreamId, newest, relay_in}
use livekit_rs_voice.Cluster.Memory.{
  MemoryBus, memory_bus, memory_xread_block, newer_than, last_seen, if_any, memory_xadd, next,
}
use livekit_rs_voice.Cluster.Relay.{Reply, relay_reader, request_fields, pump, relay_request}
use livekit_rs_voice.Cluster.Delivery.{
  requests_of, has_close, delivered, session_requests, session_requests-delivered,
}

abbrev queue : String → MemoryBus → List (ℕ × Fields)
queue stream s = unwrap_or (get stream s.streams) []

abbrev count : String → MemoryBus → ℕ
count stream s = unwrap_or (get stream s.next_id) 0

-- The entries that the bus makes of requests, after `k` others.
abbrev numbered : ℕ → List String → List (ℕ × Fields)
numbered k [] = []
numbered k (encoded ∷ frames) = (k + 1, request_fields encoded) ∷ numbered (k + 1) frames

xadd-queue :
    (stream : String) (fields : Fields) (s : MemoryBus)
    → queue stream (memory_xadd stream fields s).1
      ≡ queue stream s ++ ((count stream s + 1, fields) ∷ [])
unfolding memory_xadd next
xadd-queue stream fields s = ground (
  arith,
  eq_refl stream,
  get-insert stream stream (queue stream s ++ ((count stream s + 1, fields) ∷ [])) s.streams,
)

xadd-count :
    (stream : String) (fields : Fields) (s : MemoryBus)
    → count stream (memory_xadd stream fields s).1 ≡ count stream s + 1
unfolding memory_xadd next
xadd-count stream fields s =
    ground (arith, eq_refl stream, get-insert stream stream (count stream s + 1) s.next_id)

pump-queue :
    (session_id : String) (frames : List String) (s : MemoryBus)
    → queue (relay_in session_id) (pump memory_bus session_id frames s)
      ≡ queue (relay_in session_id) s ++ numbered (count (relay_in session_id) s) frames
unfolding pump relay_request memory_xadd next
pump-queue session_id [] s = sym (append-nil (queue (relay_in session_id) s))
pump-queue session_id (encoded ∷ frames) s =
    let s' = (memory_xadd (relay_in session_id) (request_fields encoded) s).1 in
    pump-queue session_id frames s'
    ∙ ap₂ (λ q k. q ++ numbered k frames)
        (xadd-queue (relay_in session_id) (request_fields encoded) s)
        (xadd-count (relay_in session_id) (request_fields encoded) s)
    ∙ append_assoc (queue (relay_in session_id) s)
        ((count (relay_in session_id) s + 1, request_fields encoded) ∷ [])
        (numbered (count (relay_in session_id) s + 1) frames)

newer_than-numbered :
    (last k : ℕ) (frames : List String)
    → last ≤ k
    → newer_than last (numbered k frames) ≡ numbered k frames
unfolding newer_than
newer_than-numbered last k [] h = refl
newer_than-numbered last k (encoded ∷ frames) h =
    ground (arith, h, newer_than-numbered last (k + 1) frames)

xread_block-queue :
    (stream : String) (last : StreamId) (timeout_ms : ℕ) (s : MemoryBus)
    → (memory_xread_block stream last timeout_ms s).0
      ≡ inr (if_any (newer_than (last_seen last) (queue stream s)))
unfolding memory_xread_block newer_than
xread_block-queue stream last timeout_ms s = ground arith

module _ {R : Type 0} (encode : R → String) (decode : String → Option R) where
  requests_of-numbered :
      (k : ℕ) (reqs : List R)
      → ((r : R) → decode (encode r) ≡ some r)
      → requests_of decode (numbered k (map encode reqs)) ≡ reqs
  unfolding get insert
  requests_of-numbered k [] codec = refl
  requests_of-numbered k (r ∷ reqs) codec =
      rw (codec r) (ap (λ xs. r ∷ xs) (requests_of-numbered (k + 1) reqs codec))

  has_close-numbered : (k : ℕ) (frames : List String) → has_close decode (numbered k frames) ≡ false
  unfolding get insert
  has_close-numbered k [] = refl
  has_close-numbered k (f ∷ frames) = has_close-numbered (k + 1) frames

  delivered-reply :
      (k : ℕ) (reqs : List R)
      → ((r : R) → decode (encode r) ≡ some r)
      → delivered decode (inr (if_any (numbered k (map encode reqs))) ∷ []) ≡ reqs
  delivered-reply k [] codec = refl
  delivered-reply k (r ∷ reqs) codec =
      ap₂ (λ closes xs. if closes then [] else xs ++ [])
        (has_close-numbered k (map encode (r ∷ reqs))) (requests_of-numbered k (r ∷ reqs) codec)
      ∙ append-nil (r ∷ reqs)

-- On the in-memory bus, which reads "$" from the beginning of a stream: the requests that the client's node
-- relays, before the session reads for the first time and on a stream that is not there yet, are those that
-- the session reads, in order, if the decoder undoes the encoder. The bus on Redis does not promise this: there
-- a read from "$" skips what has been written before it.
pub pump-session_requests :
    {R : Type 0} (encode : R → String) (decode : String → Option R) (session_id : String)
    (timeout_ms : ℕ) (reqs : List R) (s : MemoryBus)
    → ((r : R) → decode (encode r) ≡ some r)
    → get (relay_in session_id) s.streams ≡ none
    → let sent = pump memory_bus session_id (map encode reqs) s in
      let reply = (memory_xread_block (relay_in session_id) newest timeout_ms sent).0 in
      session_requests decode (length reqs) (reply ∷ []) relay_reader ≡ reqs
unfolding relay_reader
pump-session_requests encode decode session_id timeout_ms reqs s codec fresh =
    session_requests-delivered decode (length reqs) (reply ∷ []) relay_reader
      (omega (arith, ap length all_read))
    ∙ all_read
  where
    sent : MemoryBus
    sent = pump memory_bus session_id (map encode reqs) s

    reply : Reply
    reply = (memory_xread_block (relay_in session_id) newest timeout_ms sent).0

    sent_queue :
        queue (relay_in session_id) sent
        ≡ numbered (count (relay_in session_id) s) (map encode reqs)
    sent_queue =
        pump-queue session_id (map encode reqs) s
        ∙ ap (λ q. unwrap_or q [] ++ numbered (count (relay_in session_id) s) (map encode reqs))
            fresh

    all_read : delivered decode (reply ∷ []) ≡ reqs
    all_read =
        ap (λ a. delivered decode (a ∷ []))
          (xread_block-queue (relay_in session_id) newest timeout_ms sent
            ∙ ap (λ q. inr (if_any (newer_than 0 q))) sent_queue
            ∙ ap (λ q. inr (if_any q))
                (newer_than-numbered 0 (count (relay_in session_id) s) (map encode reqs)
                  (omega arith)))
        ∙ delivered-reply encode decode (count (relay_in session_id) s) reqs codec
