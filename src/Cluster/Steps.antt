-- ===== src/Cluster/Steps.antt =====
-- crates/lk-server/src/cluster.rs: the machine that makes one call of the bus a step does what
-- `route_room` does.
use livekit_rs_voice.Base.{
  ℕ, zero, suc, ◌+◌, ◌*◌, ◌≤◌, ◌≡◌, refl, true, Option, none, some, String, arith, if_true, ap, sym,
  ◌∙◌,
}
use livekit_rs_voice.Cluster.{ClusterBus, Cluster, rooms_key, node_alive, ok_or_none}
use livekit_rs_voice.Cluster.Routing.{
  Routing, local, remote, Route, reading, claiming, settled, gave_up, outcome, route_step,
  route_steps, route_rounds, route_room, match_owner, last_arm, owner_round, claim_round,
  read_owner,
}

module _ {S : Type 0} (bus : ClusterBus S) (c : Cluster) (room : String) where
  route_steps_settled :
      (n : ℕ) (r : Routing) (s : S) → route_steps bus n c room (settled r) s ≡ (settled r, s)
  unfolding route_steps route_step
  route_steps_settled zero r s = refl
  route_steps_settled (suc n) r s = route_steps_settled n r s

  route_steps_gave_up : (n : ℕ) (s : S) → route_steps bus n c room gave_up s ≡ (gave_up, s)
  unfolding route_steps route_step
  route_steps_gave_up zero s = refl
  route_steps_gave_up (suc n) s = route_steps_gave_up n s

  abbrev pub route_result : Route × S → Option Routing × S
  route_result (r, s) = (outcome r, s)

  abbrev pub returned : Routing × S → Option Routing × S
  returned (r, s) = (some r, s)

  -- `n` steps from where the machine stands return the same.
  abbrev pub Agrees : ℕ → Route → S → Routing × S → Type 0
  Agrees n r s out = route_result (route_steps bus n c room r s) ≡ returned out

  last_arm-Agrees :
      (n : ℕ) (owner : Option String) (s : S)
      → Agrees (suc n) (read_owner c 0 owner) s (last_arm bus c owner s)
  unfolding last_arm route_steps route_step match_owner
  last_arm-Agrees n none s = rw route_steps_gave_up refl
  last_arm-Agrees n (some owner) s = ground (
    arith,
    route_steps_gave_up n (node_alive bus owner s).1,
    route_steps_settled n local s,
    route_steps_settled n (remote owner) (node_alive bus owner s).1,
  )

  claim_round-Agrees :
      (n rounds : ℕ) (next : S → Routing × S) (s : S)
      → ((s' : S) → Agrees n (reading rounds) s' (next s'))
      → Agrees (suc n) (claiming rounds) s (claim_round bus next c room s)
  unfolding claim_round route_steps route_step
  claim_round-Agrees n rounds next s h = ground (
    arith,
    route_steps_settled n local (bus.hsetnx rooms_key room c.node_id s).1,
    h (bus.hsetnx rooms_key room c.node_id s).1,
  )

  owner_round-Agrees :
      (n rounds : ℕ) (next : S → Routing × S) (owner : Option String) (s : S)
      → ((m : ℕ) → n ≤ m → (s' : S) → Agrees m (reading rounds) s' (next s'))
      → Agrees
          (suc (suc n))
          (read_owner c (suc rounds) owner)
          s
          (owner_round bus next c room owner s)
  unfolding owner_round route_steps route_step match_owner
  owner_round-Agrees n rounds next none s h =
      claim_round-Agrees (suc n) rounds next s (h (suc n) (omega arith))
  owner_round-Agrees n rounds next (some owner) s h = ground (
    arith,
    route_steps_settled (suc n) local s,
    route_steps_settled (suc n) (remote owner) (node_alive bus owner s).1,
    claim_round-Agrees n rounds next (node_alive bus owner s).1 (h n (omega arith)),
  )

  route_rounds-Agrees :
      (rounds n : ℕ) (s : S)
      → 3 * rounds + 2 ≤ n
      → Agrees n (reading rounds) s (route_rounds bus rounds c room s)
  unfolding route_rounds route_steps route_step
  route_rounds-Agrees zero zero s h = absurd (omega (arith, h))
  route_rounds-Agrees zero (suc zero) s h = absurd (omega (arith, h))
  route_rounds-Agrees zero (suc (suc n)) s h =
      let (owner, s') = bus.hget rooms_key room s in last_arm-Agrees n (ok_or_none owner) s'
  route_rounds-Agrees (suc rounds) zero s h = absurd (omega (arith, h))
  route_rounds-Agrees (suc rounds) (suc zero) s h = absurd (omega (arith, h))
  route_rounds-Agrees (suc rounds) (suc (suc zero)) s h = absurd (omega (arith, h))
  route_rounds-Agrees (suc rounds) (suc (suc (suc n))) s h =
      let (owner, s') = bus.hget rooms_key room s in
      owner_round-Agrees n rounds (route_rounds bus rounds c room) (ok_or_none owner) s'
        (λ m le t. route_rounds-Agrees rounds m t (omega (arith, h, le)))

route_room_enabled :
    {S : Type 0} (bus : ClusterBus S) (c : Cluster) (room : String) (s : S)
    → c.enabled ≡ true
    → route_room bus c room s ≡ route_rounds bus 8 c room s
unfolding route_room
route_room_enabled bus c room s h = if_true (route_rounds bus 8 c room s) (local, s) h

-- The machine that makes one call of the bus a step does what the routing of an enabled cluster does:
-- after 26 steps or more, taken one after the other, it is through, with the node that `route_room`
-- returns and the bus as `route_room` leaves it. So a routing makes at most 26 calls of the bus.
pub route_steps-route_room :
    {S : Type 0} (bus : ClusterBus S) (c : Cluster) (room : String) (n : ℕ) (s : S)
    → c.enabled ≡ true
    → 26 ≤ n
    → route_result bus c room (route_steps bus n c room (reading 8) s)
      ≡ returned bus c room (route_room bus c room s)
route_steps-route_room bus c room n s h le =
    route_rounds-Agrees bus c room 8 n s (omega (arith, le))
    ∙ ap (returned bus c room) (sym (route_room_enabled bus c room s h))
