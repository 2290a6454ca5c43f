-- ===== src/Cluster/Routing.antt =====
-- crates/lk-server/src/cluster.rs, `route_room` and `release_room`: which node hosts a room. Each call of
-- the bus is a moment at which the other nodes may act, so the routing is also given as a machine that
-- makes one call a step.
use livekit_rs_voice.Base.{
  ℕ, zero, suc, Option, none, some, String, str_eq, unwrap_or, if◌then◌else◌,
}
use livekit_rs_voice.Cluster.{ClusterBus, Cluster, rooms_key, node_alive, ok_or_none, ok_or_false}

pub data Routing : Type 0 where
  local : Routing
  remote : String → Routing

-- Between two calls of the bus: about to read the owner, to ask whether it is alive, or to claim the
-- room, with the rounds that are left then; or through, by the registry or by the last arm.
pub data Route : Type 0 where
  reading : ℕ → Route
  asking : ℕ → String → Route
  claiming : ℕ → Route
  settled : Routing → Route
  gave_up : Route

abbrev pub outcome : Route → Option Routing
outcome (settled r) = some r
outcome gave_up = some local
outcome _ = none

-- The arm `_` of the match, with `rounds` rounds left, this one included.
abbrev pub claim_or_give_up : ℕ → Route
claim_or_give_up zero = gave_up
claim_or_give_up (suc rounds) = claiming rounds

abbrev pub read_owner : Cluster → ℕ → Option String → Route
read_owner c rounds none = claim_or_give_up rounds
read_owner c rounds (some owner) =
    if str_eq owner c.node_id then settled local else asking rounds owner

module _ {S : Type 0} (bus : ClusterBus S) where
  -- One call of the bus.
  unfoldable pub route_step : Cluster → String → Route → S → Route × S
  unfolding node_alive
  route_step c room (reading rounds) s =
      let (owner, s') = bus.hget rooms_key room s in (read_owner c rounds (ok_or_none owner), s')
  route_step c room (asking rounds owner) s =
      let (alive, s') = node_alive bus owner s in
      (if alive then settled (remote owner) else claim_or_give_up rounds, s')
  route_step c room (claiming rounds) s =
      let (won, s') = bus.hsetnx rooms_key room c.node_id s in
      (if ok_or_false won then settled local else reading rounds, s')
  route_step c room r s = (r, s)

  unfoldable pub route_steps : ℕ → Cluster → String → Route → S → Route × S
  unfolding route_step
  route_steps zero c room r s = (r, s)
  route_steps (suc n) c room r s =
      let (r', s') = route_step c room r s in route_steps n c room r' s'

  -- Some(owner) if owner == self.node_id, Some(owner) if self.node_alive(&owner).await, and `none` for
  -- the arm `_`.
  unfoldable pub match_owner : Cluster → Option String → S → Option Routing × S
  unfolding node_alive
  match_owner c none s = (none, s)
  match_owner c (some owner) s =
      let (alive, s') = node_alive bus owner s in
      if str_eq owner c.node_id
      then (some local, s)
      else (if alive then some (remote owner) else none, s')

  -- What follows the loop, of the owner that was read.
  unfoldable pub last_arm : Cluster → Option String → S → Routing × S
  unfolding match_owner
  last_arm c owner s = let (found, s') = match_owner c owner s in (unwrap_or found local, s')

  -- The rounds of the loop, then what follows it.
  unfoldable pub claim_round : (S → Routing × S) → Cluster → String → S → Routing × S
  claim_round next_rounds c room s =
      let (won, s') = bus.hsetnx rooms_key room c.node_id s in
      let later = next_rounds s' in if ok_or_false won then (local, s') else later

  unfoldable pub owner_round :
      (S → Routing × S) → Cluster → String → Option String → S → Routing × S
  unfolding match_owner claim_round
  owner_round next_rounds c room owner s =
      let (found, s') = match_owner c owner s in
      elim found [ some r ↦ (r, s') | none ↦ claim_round next_rounds c room s' ]

  -- The rounds of the loop, then what follows it.
  unfoldable pub route_rounds : ℕ → Cluster → String → S → Routing × S
  unfolding last_arm owner_round
  route_rounds zero c room s =
      let (owner, s') = bus.hget rooms_key room s in last_arm c (ok_or_none owner) s'
  route_rounds (suc rounds) c room s =
      let (owner, s') = bus.hget rooms_key room s in
      owner_round (route_rounds rounds c room) c room (ok_or_none owner) s'

  unfoldable pub route_room : Cluster → String → S → Routing × S
  unfolding route_rounds
  route_room c room s = if c.enabled then route_rounds 8 c room s else (local, s)

  unfoldable pub release_room : Cluster → String → S → S
  release_room c room s =
      let (owner, s₁) = bus.hget rooms_key room s in
      if c.enabled
      then elim (ok_or_none owner) [
        | some o ↦ if str_eq o c.node_id then (bus.hdel rooms_key room s₁).1 else s₁
        | none ↦ s₁
      ]
      else s
