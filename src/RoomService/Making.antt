-- ===== src/RoomService/Making.antt =====
-- crates/lk-server/src/services.rs: what CreateRoom leaves in the server.
use livekit_rs_voice.Base.{
  ℕ, ◌≡◌, refl, ◌∙◌, ap, sym, Bool, true, false, List, [], ◌∷◌, Option, none, some, String, str_eq,
  eq_iff, arith, ◌==◌, if◌then◌else◌, is_some, get, insert, get-insert, Map, Option-cases, inl, inr,
}
use livekit_rs_voice.Auth.{RoomAgentDispatch}
use livekit_rs_voice.Channels.{Mpsc}
use livekit_rs_voice.Room.{
  Room, Limits, new_room, set_on_close, update_room_metadata, set_empty_timeout,
  set_departure_timeout, set_max_participants,
}
use livekit_rs_voice.Room.Dispatch.{add_agent_dispatch}
use livekit_rs_voice.Server.{RoomManager, get_room}
use livekit_rs_voice.Server.Timeouts.{got-new, got-found, made}
use livekit_rs_voice.RoomService.{CreateRoomRequest, Service, room_of}
use livekit_rs_voice.RoomService.Rooms.{
  configure, configure_limits, configure_metadata, add_agents, made_answer, make_room,
}
use livekit_rs_voice.RoomService.Effects.{state_after}

-- The room that CreateRoom writes: one of the name that is there, or a new one.
abbrev pub room_before : String → ℕ → Limits → String → Option Room → Room
room_before sid now limits name none = set_on_close (new_room sid now name (some limits))
room_before sid now limits name (some r) = r

-- What a room keeps of a setting that the request leaves at 0.
abbrev pub given_or : ℕ → ℕ → ℕ
given_or asked now_set = if asked == 0 then now_set else asked

module _ (now : ℕ) where
  add_agents-settings :
      (ds : List RoomAgentDispatch) (r : Room)
      → ((add_agents ds r).empty_timeout ≡ r.empty_timeout)
        × ((add_agents ds r).departure_timeout ≡ r.departure_timeout)
        × ((add_agents ds r).max_participants ≡ r.max_participants)
        × ((add_agents ds r).participants ≡ r.participants)
        × ((add_agents ds r).metadata ≡ r.metadata)
  unfolding add_agents add_agent_dispatch
  add_agents-settings [] r = (refl, refl, refl, refl, refl)
  add_agents-settings (d ∷ ds) r = ground (arith, add_agents-settings ds (add_agent_dispatch d r).0)

  configure_limits-settings :
      (req : CreateRoomRequest) (r : Room)
      → let r' = configure_limits req r in
        (r'.empty_timeout ≡ given_or req.empty_timeout r.empty_timeout)
        × (r'.departure_timeout ≡ given_or req.departure_timeout r.departure_timeout)
        × (r'.max_participants ≡ given_or req.max_participants r.max_participants)
        × (r'.participants ≡ r.participants)
        × (r'.metadata ≡ r.metadata)
  unfolding configure_limits set_empty_timeout set_departure_timeout set_max_participants
  configure_limits-settings req r = ground arith

  configure_metadata-settings :
      (req : CreateRoomRequest) (r : Room)
      → let r' = configure_metadata now req r in
        (r'.empty_timeout ≡ r.empty_timeout)
        × (r'.departure_timeout ≡ r.departure_timeout)
        × (r'.max_participants ≡ r.max_participants)
        × (r'.participants ≡ r.participants)
        × (r'.metadata ≡ (if str_eq req.metadata "" then r.metadata else req.metadata))
  unfolding configure_metadata update_room_metadata
  configure_metadata-settings req r = ground (arith, eq_iff r.metadata req.metadata)

  configure-settings :
      (req : CreateRoomRequest) (r : Room)
      → let r' = configure now req r in
        (r'.empty_timeout ≡ given_or req.empty_timeout r.empty_timeout)
        × (r'.departure_timeout ≡ given_or req.departure_timeout r.departure_timeout)
        × (r'.max_participants ≡ given_or req.max_participants r.max_participants)
        × (r'.participants ≡ r.participants)
        × (r'.metadata ≡ (if str_eq req.metadata "" then r.metadata else req.metadata))
  unfolding configure
  configure-settings req r =
      let named = configure_metadata now req r in
      let limited = configure_limits req named in
      let (e₁, d₁, m₁, p₁, t₁) = configure_metadata-settings req r in
      let (e₂, d₂, m₂, p₂, t₂) = configure_limits-settings req named in
      let (e₃, d₃, m₃, p₃, t₃) = add_agents-settings req.agents limited in
      (
        e₃ ∙ e₂ ∙ ap (given_or req.empty_timeout) e₁,
        d₃ ∙ d₂ ∙ ap (given_or req.departure_timeout) d₁,
        m₃ ∙ m₂ ∙ ap (given_or req.max_participants) m₁,
        p₃ ∙ p₂ ∙ p₁,
        t₃ ∙ t₂ ∙ t₁,
      )

module _ (mpsc : Mpsc) where
  made_answer-room :
      (now : ℕ) (req : CreateRoomRequest) (existed : Bool) (got : RoomManager × Room × Bool)
      (other : String) (s : Service mpsc)
      → room_of mpsc other (state_after (made_answer mpsc now req existed got s) s)
        ≡ (if str_eq req.name other then some (configure now req got.1) else get other got.0.rooms)
  unfolding made_answer get_room
  made_answer-room now req existed (m, r, created) other s =
      get-insert req.name other (configure now req r) m.rooms

  over_insert :
      {V : Type 0} (k j : String) (v w : V) (m : Map V)
      → (if str_eq k j then some v else get j (insert k w m))
        ≡ (if str_eq k j then some v else get j m)
  over_insert k j v w m = ground (arith, get-insert k j w m)

  make_room-room :
      (sid : String) (now : ℕ) (limits : Limits) (req : CreateRoomRequest) (other : String)
      (s : Service mpsc)
      → room_of mpsc other (state_after (make_room mpsc sid now limits req s) s) ≡ (
          if str_eq req.name other
          then some
              (configure now req (room_before sid now limits req.name (room_of mpsc req.name s)))
          else room_of mpsc other s)
  unfolding make_room get_room
  make_room-room sid now limits req other s =
      elim (Option-cases (get req.name s.running.manager.rooms)) [
        | inl missing ↦
            ap (λ got. room_of mpsc other (state_after (made_answer mpsc now req existed got s) s))
              (got-new sid now limits req.name s.running.manager missing)
            ∙ made_answer-room now req existed
                (
                  record (s.running.manager) {
                    rooms = insert req.name fresh s.running.manager.rooms;
                  },
                  fresh,
                  true,
                )
                other s
            ∙ over_insert req.name other (configure now req fresh) fresh s.running.manager.rooms
            ∙ ap with_before (sym missing)
        | inr (r, found) ↦
            ap (λ got. room_of mpsc other (state_after (made_answer mpsc now req existed got s) s))
              (got-found sid now limits req.name s.running.manager r found)
            ∙ made_answer-room now req existed (s.running.manager, r, false) other s
            ∙ ap with_before (sym found)
      ]
    where
      existed : Bool
      existed = is_some (room_of mpsc req.name s)

      with_before : Option Room → Option Room
      with_before before =
          if str_eq req.name other
          then some (configure now req (room_before sid now limits req.name before))
          else room_of mpsc other s

      fresh : Room
      fresh = made sid now limits req.name s.running.manager

  -- After CreateRoom, past its checks, the server has the room: the one that was there or a new one,
  -- with the settings that the request gives and else those that it had; those in the room stay in it.
  -- The other rooms are as they were.
  pub make_room_lem :
      (sid : String) (now : ℕ) (limits : Limits) (req : CreateRoomRequest) (other : String)
      (s : Service mpsc)
      → let s' = state_after (make_room mpsc sid now limits req s) s in
        let r = room_before sid now limits req.name (room_of mpsc req.name s) in
        let r' = configure now req r in
        (room_of mpsc other s' ≡ (if str_eq req.name other then some r' else room_of mpsc other s))
        × (r'.empty_timeout ≡ given_or req.empty_timeout r.empty_timeout)
        × (r'.departure_timeout ≡ given_or req.departure_timeout r.departure_timeout)
        × (r'.max_participants ≡ given_or req.max_participants r.max_participants)
        × (r'.participants ≡ r.participants)
        × (r'.metadata ≡ (if str_eq req.metadata "" then r.metadata else req.metadata))
  make_room_lem sid now limits req other s =
      let (e, d, m, p, t) =
        configure-settings now req
          (room_before sid now limits req.name (room_of mpsc req.name s)) in
      (make_room-room sid now limits req other s, e, d, m, p, t)
