-- ===== src/Cluster/Memory.antt =====
-- crates/lk-server/src/cluster.rs: the bus in memory, that tests and a node alone use. It keeps no time:
-- a key stays until it is deleted. A wait for entries of a stream is a poll, since nobody else acts
-- during a call.
use livekit_rs_voice.Base.{
  ℕ, ◌+◌, ◌≡◌, refl, Bool, true, false, inr, inl, List, [], ◌∷◌, ◌++◌, Option, none, some, some,
  String, str_eq, eq_iff, arith, if◌then◌else◌, ltb, is_some, unwrap_or, Map, get, insert, remove,
  contains_key, get-insert, insert_same, Option-cases, ◌&&◌, not, ap,
}
use livekit_rs_voice.Cluster.{Result, StreamId, newest, after, Fields, ClusterBus, HashLaws}

pub record MemoryBus : Type 0 where
  pub kv : Map String
  pub hashes : Map (Map String)
  pub streams : Map (List (ℕ × Fields))
  pub next_id : Map ℕ

abbrev pub empty_bus : MemoryBus
empty_bus = record { kv = []; hashes = []; streams = []; next_id = [] }

-- hashes.entry(hash).or_default()
abbrev pub hash_of : String → MemoryBus → Map String
hash_of h s = unwrap_or (get h s.hashes) []

abbrev pub field_of : MemoryBus → String → String → Option String
field_of s h f = get f (hash_of h s)

unfoldable pub next : String → MemoryBus → ℕ × MemoryBus
next stream s =
    let n = unwrap_or (get stream s.next_id) 0 + 1 in
    (n, record s { next_id = insert stream n s.next_id })

unfoldable pub memory_set_with_ttl : String → String → ℕ → MemoryBus → Result Unit × MemoryBus
memory_set_with_ttl key value ttl s = (inr tt, record s { kv = insert key value s.kv })

unfoldable pub memory_get : String → MemoryBus → Result (Option String) × MemoryBus
memory_get key s = (inr (get key s.kv), s)

unfoldable pub memory_hset : String → String → String → MemoryBus → Result Unit × MemoryBus
memory_hset h f v s = (inr tt, record s { hashes = insert h (insert f v (hash_of h s)) s.hashes })

unfoldable pub memory_hsetnx : String → String → String → MemoryBus → Result Bool × MemoryBus
memory_hsetnx h f v s =
    let fields = hash_of h s in
    if contains_key f fields
    then (inr false, record s { hashes = insert h fields s.hashes })
    else (inr true, record s { hashes = insert h (insert f v fields) s.hashes })

unfoldable pub memory_hget : String → String → MemoryBus → Result (Option String) × MemoryBus
memory_hget h f s = (inr (elim (get h s.hashes) [ none ↦ none | some m ↦ get f m ]), s)

unfoldable pub memory_hdel : String → String → MemoryBus → Result Unit × MemoryBus
memory_hdel h f s = elim (get h s.hashes) [
  | none ↦ (inr tt, s)
  | some m ↦ (inr tt, record s { hashes = insert h (remove f m) s.hashes })
]

unfoldable pub memory_del : String → MemoryBus → Result Unit × MemoryBus
memory_del key s = (inr tt, record s { kv = remove key s.kv })

unfoldable pub memory_xadd : String → Fields → MemoryBus → Result Unit × MemoryBus
unfolding next
memory_xadd stream fields s =
    let (id, s') = next stream s in
    (
      inr tt,
      record s' {
        streams =
            insert stream (unwrap_or (get stream s'.streams) [] ++ ((id, fields) ∷ [])) s'.streams;
      },
    )

-- This bus reads "$" as 0, the beginning of the stream; for Redis it is the end of the stream at the time of the read.
abbrev pub last_seen : StreamId → ℕ
last_seen newest = 0
last_seen (after id) = id

-- What a poll hands out of the queue, which it empties.
unfoldable pub newer_than : ℕ → List (ℕ × Fields) → List (ℕ × Fields)
newer_than last [] = []
newer_than last (entry ∷ q) =
    let rest = newer_than last q in if ltb last entry.0 then entry ∷ rest else rest

-- `out` unless it is empty; then the deadline passes.
abbrev pub if_any : List (ℕ × Fields) → Option (List (ℕ × Fields))
if_any [] = none
if_any (entry ∷ out) = some (entry ∷ out)

unfoldable pub memory_xread_block :
    String → StreamId → ℕ → MemoryBus → Result (Option (List (ℕ × Fields))) × MemoryBus
unfolding newer_than
memory_xread_block stream last timeout_ms s = elim (get stream s.streams) [
  | none ↦ (inr none, s)
  | some q ↦ (
    inr (if_any (newer_than (last_seen last) q)),
    record s { streams = insert stream [] s.streams },
  )
]

abbrev pub memory_bus : ClusterBus MemoryBus
memory_bus = record {
  set_with_ttl = memory_set_with_ttl;
  get_key = memory_get;
  hset = memory_hset;
  hsetnx = memory_hsetnx;
  hget = memory_hget;
  hdel = memory_hdel;
  del = memory_del;
  xadd = memory_xadd;
  xread_block = memory_xread_block;
}

pub memory_hget-field_of :
    (h f : String) (s : MemoryBus) → memory_hget h f s ≡ (inr (field_of s h f), s)
unfolding memory_hget get
memory_hget-field_of h f s = ground (arith, Option-cases (get h s.hashes))

pub field_of-memory_hsetnx :
    (j g v h f : String) (s : MemoryBus)
    → field_of (memory_hsetnx j g v s).1 h f ≡ (
        if str_eq j h && str_eq g f && not (is_some (field_of s j g))
        then some v
        else field_of s h f)
unfolding memory_hsetnx
field_of-memory_hsetnx j g v h f s = ground (
  arith,
  eq_iff j h,
  eq_iff g f,
  get-insert j h (hash_of j s) s.hashes,
  get-insert j h (insert g v (hash_of j s)) s.hashes,
  get-insert g f v (hash_of j s),
)

hsetnx_true :
    (h f v : String) (s : MemoryBus)
    → (memory_hsetnx h f v s).0 ≡ inr (not (is_some (field_of s h f)))
unfolding memory_hsetnx
hsetnx_true h f v s = ground arith

pub memory_get-field_of :
    (k h f : String) (s : MemoryBus) → field_of (memory_get k s).1 h f ≡ field_of s h f
unfolding memory_get
memory_get-field_of k h f s = refl

pub hsetnx_keeps_field :
    (j g v h f w : String) (s : MemoryBus)
    → field_of s h f ≡ some w
    → field_of (memory_hsetnx j g v s).1 h f ≡ some w
hsetnx_keeps_field j g v h f w s e =
    ground (arith, e, field_of-memory_hsetnx j g v h f s, eq_iff j h, eq_iff g f)

pub hsetnx_wins_field :
    (h f v : String) (s : MemoryBus)
    → (memory_hsetnx h f v s).0 ≡ inr true
    → field_of (memory_hsetnx h f v s).1 h f ≡ some v
hsetnx_wins_field h f v s e =
    ground
      (arith, e, hsetnx_true h f v s, field_of-memory_hsetnx h f v h f s, eq_iff h h, eq_iff f f)

pub hget_reads_field :
    (h f : String) (o : Option String) (s : MemoryBus)
    → (memory_hget h f s).0 ≡ inr o
    → o ≡ field_of s h f
hget_reads_field h f o s e = ground (arith, e, memory_hget-field_of h f s)

-- `hsetnx` on a field that is there changes nothing.
pub memory_hsetnx_present :
    (h f v w : String) (s : MemoryBus)
    → field_of s h f ≡ some w
    → memory_hsetnx h f v s ≡ (inr false, s)
unfolding memory_hsetnx get
memory_hsetnx_present h f v w s e = elim (Option-cases (get h s.hashes)) [
  | inl absent ↦ absurd (ground (arith, absent, e))
  | inr (m, present) ↦ ground (arith, present, e, insert_same h m s.hashes present)
]

-- The bus in memory has what the routing relies on.
abbrev pub memory_bus-HashLaws : HashLaws memory_bus
memory_bus-HashLaws = record {
  field = field_of;
  get_key-field = memory_get-field_of;
  hget-field = λ j g h f s. ap (λ r. field_of r.1 h f) (memory_hget-field_of j g s);
  hget_reads = hget_reads_field;
  hsetnx_keeps = hsetnx_keeps_field;
  hsetnx_wins = hsetnx_wins_field;
}
