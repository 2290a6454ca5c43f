-- ===== src/Session/Registering.antt =====
-- crates/lk-server/src/signal.rs, `join_room`: the agent dispatches that a token brings.
use livekit_rs_voice.Base.{
  ◌≡◌, refl, Bool, true, ◌||◌, List, [], ◌∷◌, eq_iff, eq_refl, arith, if◌then◌else◌, any_of,
  any_of-append, All,
}
use livekit_rs_voice.Auth.{RoomAgentDispatch}
use livekit_rs_voice.Room.{Room}
use livekit_rs_voice.Room.Dispatch.{
  dispatch_key, has_key, add_agent_dispatch, mark_dispatch_launched,
}
use livekit_rs_voice.Session.{register_dispatches}

-- Registering a token's dispatches touches the dispatches of the room alone.
abbrev pub DiffersInAgents : Room → Room → Type 0
DiffersInAgents r r' =
    (r'.participants ≡ r.participants)
    × (r'.closed ≡ r.closed)
    × (r'.max_participants ≡ r.max_participants)
    × (r'.name ≡ r.name)

pub register_dispatches-DiffersInAgents :
    (ds : List RoomAgentDispatch) (r : Room) → DiffersInAgents r (register_dispatches ds r).0
unfolding register_dispatches add_agent_dispatch mark_dispatch_launched
register_dispatches-DiffersInAgents [] r = (refl, refl, refl, refl)
register_dispatches-DiffersInAgents (d ∷ ds) r = ground (
  arith,
  register_dispatches-DiffersInAgents ds r,
  register_dispatches-DiffersInAgents ds
      (mark_dispatch_launched (dispatch_key d) (add_agent_dispatch d r).0),
)

-- The room knows the dispatch.
abbrev pub knows : Room → RoomAgentDispatch → Bool
knows r d = any_of (has_key (dispatch_key d)) r.agents

-- What one round of the loop leaves.
abbrev after_one : RoomAgentDispatch → Room → Room
after_one d r =
    let (r', added) = add_agent_dispatch d r in
    if added then mark_dispatch_launched (dispatch_key d) r' else r'

after_one-knows :
    (d e : RoomAgentDispatch) (r : Room)
    → knows (after_one d r) e ≡ (knows r e || has_key (dispatch_key e) d)
unfolding add_agent_dispatch mark_dispatch_launched
after_one-knows d e r = ground (
  arith,
  any_of-append (has_key (dispatch_key e)) r.agents (d ∷ []),
  eq_iff (dispatch_key d) (dispatch_key e),
)

register_dispatches_next :
    (d : RoomAgentDispatch) (ds : List RoomAgentDispatch) (r : Room)
    → (register_dispatches (d ∷ ds) r).0 ≡ (register_dispatches ds (after_one d r)).0
unfolding register_dispatches
register_dispatches_next d ds r = refl

-- What the room knows it does not forget.
register_dispatches-keeps :
    (ds : List RoomAgentDispatch) (e : RoomAgentDispatch) (r : Room)
    → knows r e ≡ true
    → knows (register_dispatches ds r).0 e ≡ true
unfolding register_dispatches
register_dispatches-keeps [] e r h = h
register_dispatches-keeps (d ∷ ds) e r h =
    register_dispatches-keeps ds e (after_one d r) (ground (arith, after_one-knows d e r))

pub register_dispatches-knows :
    (ds : List RoomAgentDispatch) (r : Room)
    → All (λ d. knows (register_dispatches ds r).0 d ≡ true) ds
unfolding register_dispatches
register_dispatches-knows [] r = tt
register_dispatches-knows (d ∷ ds) r = (
  register_dispatches-keeps ds d (after_one d r)
      (ground (arith, after_one-knows d d r, eq_refl (dispatch_key d))),
  register_dispatches-knows ds (after_one d r),
)

-- Dispatches that the room knows are not launched.
pub register_dispatches_known :
    (ds : List RoomAgentDispatch) (r : Room)
    → All (λ d. knows r d ≡ true) ds
    → register_dispatches ds r ≡ (r, [])
unfolding register_dispatches add_agent_dispatch
register_dispatches_known [] r h = refl
register_dispatches_known (d ∷ ds) r h = ground (arith, h.0, register_dispatches_known ds r h.1)
