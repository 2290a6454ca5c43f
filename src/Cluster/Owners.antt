-- ===== src/Cluster/Owners.antt =====
-- crates/lk-server/src/cluster.rs: which node a room is routed to, on the bus in memory.
use livekit_rs_voice.Base.{
  ℕ, zero, suc, ◌≡◌, Bool, false, Option, none, some, String, str_eq, eq_iff, arith, if◌then◌else◌,
  is_some, get, insert, remove, get-insert, get-remove, eq_refl, ◌∙◌, ap, inl, inr, Option-cases,
  ◌&&◌, not,
}
use livekit_rs_voice.Cluster.{Cluster, rooms_key, node_key, node_alive}
use livekit_rs_voice.Cluster.Memory.{
  MemoryBus, memory_bus, field_of, hash_of, memory_hget, memory_hsetnx_present,
  memory_hget-field_of, memory_hsetnx, memory_get, memory_hdel,
}
use livekit_rs_voice.Cluster.Routing.{
  Routing, local, remote, route_rounds, route_room, release_room, last_arm, owner_round,
  claim_round, match_owner,
}

-- The registry's owner of a room, and whether a node has a heartbeat.
abbrev pub owner_of : String → MemoryBus → Option String
owner_of room s = field_of s rooms_key room

abbrev pub is_alive : String → MemoryBus → Bool
is_alive n s = is_some (get (node_key n) s.kv)

-- Where a room goes, by its owner.
abbrev pub host_by_owner : Cluster → Option String → MemoryBus → Routing
host_by_owner c none s = local
host_by_owner c (some o) s =
    if str_eq o c.node_id then local else if is_alive o s then remote o else local

match_owner_of :
    (c : Cluster) (o : String) (s : MemoryBus)
    → match_owner memory_bus c (some o) s ≡ (
      if str_eq o c.node_id then some local else if is_alive o s then some (remote o) else none,
      s,
    )
unfolding match_owner node_alive memory_get
match_owner_of c o s = ground arith

last_arm_of :
    (c : Cluster) (o : String) (s : MemoryBus)
    → last_arm memory_bus c (some o) s ≡ (host_by_owner c (some o) s, s)
unfolding last_arm
last_arm_of c o s = ground (arith, match_owner_of c o s)

-- A round that finds an owner returns, or leaves the bus as it was for the next round.
owner_round_of :
    (next : MemoryBus → Routing × MemoryBus) (c : Cluster) (room o : String) (s : MemoryBus)
    → owner_of room s ≡ some o
    → next s ≡ (host_by_owner c (some o) s, s)
    → owner_round memory_bus next c room (some o) s ≡ (host_by_owner c (some o) s, s)
unfolding owner_round claim_round
owner_round_of next c room o s h e =
    ground (arith, h, e, match_owner_of c o s, memory_hsetnx_present rooms_key room c.node_id o s h)

hget_owned :
    (room o : String) (s : MemoryBus)
    → owner_of room s ≡ some o
    → memory_hget rooms_key room s ≡ (inr (some o), s)
hget_owned room o s h = memory_hget-field_of rooms_key room s ∙ ap (λ w. (inr w, s)) h

route_rounds_owned :
    (rounds : ℕ) (c : Cluster) (room o : String) (s : MemoryBus)
    → owner_of room s ≡ some o
    → route_rounds memory_bus rounds c room s ≡ (host_by_owner c (some o) s, s)
unfolding route_rounds
route_rounds_owned zero c room o s h = rw (hget_owned room o s h) (last_arm_of c o s)
route_rounds_owned (suc rounds) c room o s h = rw (hget_owned room o s h) (
    owner_round_of (route_rounds memory_bus rounds c room) c room o s h
      (route_rounds_owned rounds c room o s h))

-- owner.as_deref() == Some(node_id)
abbrev pub opt_eq : Option String → String → Bool
opt_eq none n = false
opt_eq (some o) n = str_eq o n

-- The registry after a node has claimed the room.
abbrev pub claimed : Cluster → String → MemoryBus → MemoryBus
claimed c room s = record s {
  hashes = insert rooms_key (insert room c.node_id (hash_of rooms_key s)) s.hashes;
}

route_rounds_unowned :
    (rounds : ℕ) (c : Cluster) (room : String) (s : MemoryBus)
    → owner_of room s ≡ none
    → route_rounds memory_bus (suc rounds) c room s ≡ (local, claimed c room s)
unfolding route_rounds owner_round claim_round match_owner memory_hsetnx
route_rounds_unowned rounds c room s h = ground (arith, h, memory_hget-field_of rooms_key room s)

-- Where a node of the cluster routes a room to, and the registry after that. A room without an owner
-- is claimed by the node. A room with an owner goes to it: here if it is this node, there if it is
-- another that is alive. If its owner is not alive the room goes here, and the registry keeps the dead
-- owner: no other node learns of it.
pub route_room_lem :
    (c : Cluster) (room : String) (s : MemoryBus)
    → route_room memory_bus c room s ≡ (
      if c.enabled then host_by_owner c (owner_of room s) s else local,
      if c.enabled && not (is_some (owner_of room s)) then claimed c room s else s,
    )
unfolding route_room
route_room_lem c room s = elim (Option-cases (owner_of room s)) [
  | inl unowned ↦ ground (arith, unowned, route_rounds_unowned 7 c room s unowned)
  | inr (o, owned) ↦ ground (arith, owned, route_rounds_owned 8 c room o s owned)
]

-- The hosts that the registry holds after a node has released a room: the room is free if the cluster
-- is enabled and the node was its owner, and else nothing changes; no other room is touched.
pub release_room_lem :
    (c : Cluster) (room j : String) (s : MemoryBus)
    → owner_of j (release_room memory_bus c room s) ≡ (
        if c.enabled && opt_eq (owner_of room s) c.node_id && str_eq room j
        then none
        else owner_of j s)
unfolding release_room memory_hdel get
release_room_lem c room j s = elim (Option-cases (owner_of room s)) [
  | inl unowned ↦ ground (arith, unowned, memory_hget-field_of rooms_key room s)
  | inr (o, owned) ↦ elim (Option-cases (get rooms_key s.hashes)) [
    | inl absent ↦ absurd (ground (arith, absent, owned))
    | inr (m, present) ↦ ground (
      arith,
      owned,
      present,
      eq_iff room j,
      memory_hget-field_of rooms_key room s,
      get-insert rooms_key rooms_key (remove room m) s.hashes,
      eq_refl rooms_key,
      get-remove room j m,
    )
  ]
]
