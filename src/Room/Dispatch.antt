-- ===== src/Room/Dispatch.antt =====
-- crates/lk-server/src/room.rs: the agent dispatches that a room knows.
use Prim.Native.String.{◌++◌ as text_append}
use livekit_rs_voice.Base.{
  Bool, true, false, ◌||◌, List, [], ◌∷◌, ◌++◌, String, str_eq, if◌then◌else◌, any_of, ◌≡◌, refl,
  ◌↔◌, eq_iff, arith, any_of-append,
}
use livekit_rs_voice.Auth.{RoomAgentDispatch}
use livekit_rs_voice.Room.{Room}

-- format!("{}\0{}", agent_name, metadata)
unfoldable pub dispatch_key : RoomAgentDispatch → String
dispatch_key d = text_append d.agent_name (text_append "\0" d.metadata)

abbrev pub has_key : String → RoomAgentDispatch → Bool
has_key key d = str_eq (dispatch_key d) key

unfoldable pub add_agent_dispatch : RoomAgentDispatch → Room → Room × Bool
add_agent_dispatch d r =
    if any_of (has_key (dispatch_key d)) r.agents
    then (r, false)
    else (record r { agents = r.agents ++ d ∷ [] }, true)

-- The set of launched keys, as a list.
unfoldable pub mark_dispatch_launched : String → Room → Room
mark_dispatch_launched key r = record r { launched_agents = key ∷ r.launched_agents }

unfoldable pub was_dispatch_launched : String → Room → Bool
was_dispatch_launched key r = any_of (λ k. str_eq k key) r.launched_agents

-- No two dispatches of a room have the same key.
abbrev pub HaveOwnKeys : List RoomAgentDispatch → Type 0
HaveOwnKeys [] = Unit {0}
HaveOwnKeys (d ∷ ds) = (any_of (has_key (dispatch_key d)) ds ≡ false) × HaveOwnKeys ds

any_of-snoc :
    (d e : RoomAgentDispatch) (ds : List RoomAgentDispatch)
    → any_of (has_key (dispatch_key d)) (ds ++ e ∷ [])
      ≡ (any_of (has_key (dispatch_key d)) ds || (has_key (dispatch_key d) e || false))
any_of-snoc d e ds = any_of-append (has_key (dispatch_key d)) ds (e ∷ [])

snoc-HaveOwnKeys :
    (d : RoomAgentDispatch) (ds : List RoomAgentDispatch)
    → any_of (has_key (dispatch_key d)) ds ≡ false
    → HaveOwnKeys ds
    → HaveOwnKeys (ds ++ d ∷ [])
snoc-HaveOwnKeys d [] h k = (refl, tt)
snoc-HaveOwnKeys d (e ∷ ds) h k = ground (
  arith,
  any_of-snoc e d ds,
  eq_iff (dispatch_key d) (dispatch_key e),
  eq_iff (dispatch_key e) (dispatch_key d),
  snoc-HaveOwnKeys d ds,
)

-- A dispatch is known after it is added, it is reported new exactly when its key was not known, and
-- the keys of a room stay distinct.
pub add_agent_dispatch_lem :
    (d : RoomAgentDispatch) (r : Room)
    → HaveOwnKeys r.agents
    → let (r', added) = add_agent_dispatch d r in
      (any_of (has_key (dispatch_key d)) r'.agents ≡ true)
      × ((added ≡ true) ↔ (any_of (has_key (dispatch_key d)) r.agents ≡ false))
      × HaveOwnKeys r'.agents
unfolding add_agent_dispatch
add_agent_dispatch_lem d r own = ground (
  arith,
  any_of-snoc d d r.agents,
  eq_iff (dispatch_key d) (dispatch_key d),
  snoc-HaveOwnKeys d r.agents,
)
