-- ===== src/Cluster/Safety.antt =====
-- crates/lk-server/src/cluster.rs: that a room is claimed by one node, whatever the order in which the
-- nodes make their calls of the bus.
use livekit_rs_voice.Base.{
  ℕ, zero, suc, ◌≡◌, refl, Bool, true, false, Option, none, some, String, str_eq, eq_iff,
  if◌then◌else◌, sym, ◌∙◌, inl, inr, ap, subst, if_cases,
}
use mathlib.Core.Option.{some_inj}
use livekit_rs_voice.Cluster.{
  Result, ClusterBus, Cluster, HashLaws, rooms_key, node_alive, node_key, ok_or_none, ok_or_false,
}
use livekit_rs_voice.Cluster.Routing.{
  local, remote, Route, reading, asking, claiming, settled, gave_up, route_step, read_owner,
  claim_or_give_up,
}

abbrev pub node : String → Cluster
node node_id = record { node_id = node_id; enabled = true }

-- Where each node stands in its routing of the room.
abbrev pub Routes : Type 0
Routes = String → Route

abbrev pub put_route : String → Route → Routes → Routes
put_route n r routes m = if str_eq n m then r else routes m

module _ {S : Type 0} {bus : ClusterBus S} (laws : HashLaws bus) (room : String) where
  -- A node makes its next call, or the bus changes in anything but the fields of its hashes: a
  -- heartbeat, a key that expires, a stream.
  pub data Moves : Routes × S → Routes × S → Type 0 where
    acts :
        (n : String) (routes : Routes) (s : S)
        → Moves
            (routes, s)
            (
              put_route n (route_step bus (node n) room (routes n) s).0 routes,
              (route_step bus (node n) room (routes n) s).1,
            )
    outside :
        (routes : Routes) (s s' : S)
        → laws.field s' rooms_key room ≡ laws.field s rooms_key room
        → Moves (routes, s) (routes, s')

  pub data Runs : Routes × S → Routes × S → Type 0 where
    done : (w : Routes × S) → Runs w w
    more : {u v w : Routes × S} → Moves u v → Runs v w → Runs u w

  -- A node that the registry settled on as the host is the owner that the registry holds.
  abbrev pub Hosts : Route → String → Option String → Type 0
  Hosts (settled local) n owner = owner ≡ some n
  Hosts _ n owner = Unit

  abbrev pub IsAgreed : Routes × S → Type 0
  IsAgreed (routes, s) = (n : String) → Hosts (routes n) n (laws.field s rooms_key room)

  route_step-keeps :
      (n w : String) (r : Route) (s : S)
      → laws.field s rooms_key room ≡ some w
      → laws.field (route_step bus (node n) room r s).1 rooms_key room ≡ some w
  unfolding route_step node_alive
  route_step-keeps n w (reading k) s h = laws.hget-field rooms_key room rooms_key room s ∙ h
  route_step-keeps n w (asking k o) s h = laws.get_key-field (node_key o) rooms_key room s ∙ h
  route_step-keeps n w (claiming k) s h = laws.hsetnx_keeps rooms_key room n rooms_key room w s h
  route_step-keeps n w (settled r) s h = h
  route_step-keeps n w gave_up s h = h

  claim_or_give_up-Hosts : (k : ℕ) (n : String) (o : Option String) → Hosts (claim_or_give_up k) n o
  claim_or_give_up-Hosts zero n o = tt
  claim_or_give_up-Hosts (suc k) n o = tt

  read_owner-Hosts :
      (k : ℕ) (n : String) (found : Option String) → Hosts (read_owner (node n) k found) n found
  read_owner-Hosts k n none = claim_or_give_up-Hosts k n none
  read_owner-Hosts k n (some o) =
      if_cases (λ r. Hosts r n (some o)) (str_eq o n) (settled local) (asking k o)
        (λ h. ap some ((eq_iff o n).0 h)) (λ _. tt)

  answer-Hosts :
      (k : ℕ) (n : String) (answer : Result (Option String)) (s : S)
      → (bus.hget rooms_key room s).0 ≡ answer
      → Hosts
          (read_owner (node n) k (ok_or_none answer))
          n
          (laws.field (bus.hget rooms_key room s).1 rooms_key room)
  answer-Hosts k n (inl e) s h =
      claim_or_give_up-Hosts k n (laws.field (bus.hget rooms_key room s).1 rooms_key room)
  answer-Hosts k n (inr o) s h =
      subst (Hosts (read_owner (node n) k o) n)
        (laws.hget_reads rooms_key room o s h
          ∙ sym (laws.hget-field rooms_key room rooms_key room s))
        (read_owner-Hosts k n o)

  won-Hosts :
      (k : ℕ) (n : String) (answer : Result Bool) (s : S)
      → (bus.hsetnx rooms_key room n s).0 ≡ answer
      → Hosts
          (if ok_or_false answer then settled local else reading k)
          n
          (laws.field (bus.hsetnx rooms_key room n s).1 rooms_key room)
  won-Hosts k n (inl e) s h = tt
  won-Hosts k n (inr true) s h = laws.hsetnx_wins rooms_key room n s h
  won-Hosts k n (inr false) s h = tt

  route_step-Hosts :
      (n : String) (r : Route) (s : S)
      → Hosts r n (laws.field s rooms_key room)
      → Hosts
          (route_step bus (node n) room r s).0
          n
          (laws.field (route_step bus (node n) room r s).1 rooms_key room)
  unfolding route_step
  route_step-Hosts n (reading k) s h = answer-Hosts k n (bus.hget rooms_key room s).0 s refl
  route_step-Hosts n (asking k o) s h =
      let (alive, s') = node_alive bus o s in
      if_cases (λ r. Hosts r n (laws.field s' rooms_key room)) alive (settled (remote o))
        (claim_or_give_up k) (λ _. tt)
        (λ _. claim_or_give_up-Hosts k n (laws.field s' rooms_key room))
  route_step-Hosts n (claiming k) s h = won-Hosts k n (bus.hsetnx rooms_key room n s).0 s refl
  route_step-Hosts n (settled r) s h = h
  route_step-Hosts n gave_up s h = h

  -- What another node does leaves a host the owner.
  Hosts-keeps :
      (n m : String) (r r' : Route) (s : S)
      → Hosts r' m (laws.field s rooms_key room)
      → Hosts r' m (laws.field (route_step bus (node n) room r s).1 rooms_key room)
  Hosts-keeps n m r (settled local) s h = route_step-keeps n m r s h
  Hosts-keeps n m r (settled (remote o)) s h = tt
  Hosts-keeps n m r (reading k) s h = tt
  Hosts-keeps n m r (asking k o) s h = tt
  Hosts-keeps n m r (claiming k) s h = tt
  Hosts-keeps n m r gave_up s h = tt

  Moves-IsAgreed : (u v : Routes × S) → Moves u v → IsAgreed u → IsAgreed v
  Moves-IsAgreed u v (acts n routes s) h m =
      let (r', s') = route_step bus (node n) room (routes n) s in
      if_cases (λ r. Hosts r m (laws.field s' rooms_key room)) (str_eq n m) r' (routes m)
        (λ e.
          subst (λ k. Hosts r' k (laws.field s' rooms_key room)) ((eq_iff n m).0 e)
            (route_step-Hosts n (routes n) s (h n)))
        (λ _. Hosts-keeps n m (routes n) (routes m) s (h m))
  Moves-IsAgreed u v (outside routes s s' e) h m = subst (Hosts (routes m) m) (sym e) (h m)

  Runs-IsAgreed : (u v : Routes × S) → Runs u v → IsAgreed u → IsAgreed v
  Runs-IsAgreed u v (done w) h = h
  Runs-IsAgreed u v (more {v = w} m rest) h = Runs-IsAgreed w v rest (Moves-IsAgreed u w m h)

abbrev pub all_reading : Routes
all_reading n = reading 8

-- However the calls of the nodes that route one room fall between one another, and whatever calls fail,
-- while nobody releases the room: two nodes that the registry settles on as its host are one node. (A
-- node that runs out of rounds and takes the last arm is not among them.)
pub Runs-one_host :
    {S : Type 0} {bus : ClusterBus S} (laws : HashLaws bus) (room : String) (s s' : S)
    (routes : Routes) (n m : String)
    → Runs laws room (all_reading, s) (routes, s')
    → routes n ≡ settled local
    → routes m ≡ settled local
    → n ≡ m
Runs-one_host laws room s s' routes n m runs hn hm = some_inj.0 (sym (host n hn) ∙ host m hm)
  where
    host : (k : String) → routes k ≡ settled local → laws.field s' rooms_key room ≡ some k
    host k h =
        subst (λ r. Hosts laws room r k (laws.field s' rooms_key room)) h
          (Runs-IsAgreed laws room (all_reading, s) (routes, s') runs (λ _. tt) k)
