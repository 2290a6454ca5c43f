-- ===== src/RoomService/Rooms.antt =====
-- crates/lk-server/src/services.rs: CreateRoom, ListRooms, DeleteRoom and UpdateRoomMetadata.
use Prim.Native.String.{len}
use livekit_rs_voice.Base.{
  ℕ, Bool, true, not, List, [], ◌∷◌, ◌++◌, map, select, any_of, String, str_eq, ltb, ◌==◌,
  if◌then◌else◌, is_some,
}
use livekit_rs_voice.Auth.{VideoGrant, RoomAgentDispatch}
use livekit_rs_voice.Proto.{RoomInfo}
use livekit_rs_voice.Channels.{Mpsc}
use livekit_rs_voice.Events.{room_finished, room_started}
use livekit_rs_voice.Room.{
  Room, Limits, update_room_metadata, set_empty_timeout, set_departure_timeout,
  set_max_participants, room_to_proto,
}
use livekit_rs_voice.Room.Broadcast.{broadcast_room_update}
use livekit_rs_voice.Room.Close.{when}
use livekit_rs_voice.Room.Dispatch.{add_agent_dispatch}
use livekit_rs_voice.Server.{RoomManager, get_or_create_room, list_rooms, close_room}
use livekit_rs_voice.RoomService.{
  LimitConfig, CreateRoomRequest, unauthenticated, invalid_argument, ensure_admin, ensure_create,
  ensure_list, validate_metadata, room_reply, rooms_reply, empty_reply, launch_dispatches,
  room_started_task, delete_task, Service, Answer, served, refused, put_room, room_of, found_room,
}

-- ROOM_DELETED of livekit.DisconnectReason.
abbrev pub room_deleted : ℕ
room_deleted = 5

unfoldable pub add_agents : List RoomAgentDispatch → Room → Room
unfolding add_agent_dispatch
add_agents [] r = r
add_agents (d ∷ ds) r = add_agents ds (add_agent_dispatch d r).0

unfoldable pub configure_metadata : ℕ → CreateRoomRequest → Room → Room
unfolding update_room_metadata
configure_metadata now req r =
    if str_eq req.metadata "" then r else (update_room_metadata now req.metadata r).0

unfoldable pub configure_limits : CreateRoomRequest → Room → Room
unfolding set_empty_timeout set_departure_timeout set_max_participants
configure_limits req r =
    let r₁ = if req.empty_timeout == 0 then r else set_empty_timeout req.empty_timeout r in
    let r₂ =
      if req.departure_timeout == 0 then r₁ else set_departure_timeout req.departure_timeout r₁ in
    if req.max_participants == 0 then r₂ else set_max_participants req.max_participants r₂

-- What CreateRoom writes into the room that it has got or made.
unfoldable pub configure : ℕ → CreateRoomRequest → Room → Room
unfolding configure_metadata configure_limits add_agents
configure now req r = add_agents req.agents (configure_limits req (configure_metadata now req r))

module _ (mpsc : Mpsc) where
  -- CreateRoom with the room that it has got or made; `existed` was asked before.
  unfoldable pub made_answer :
      ℕ → CreateRoomRequest → Bool → RoomManager × Room × Bool → Service mpsc → Answer mpsc
  unfolding configure
  made_answer now req existed (manager, r, created) s =
      let r' = configure now req r in
      let got = record s { running = record (s.running) { manager = manager } } in
      served (put_room mpsc req.name r' got) (room_reply (room_to_proto r')) (
        (if created then launch_dispatches req.name ∷ [] else [])
        ++ (if existed then [] else room_started_task r'.has_context (room_to_proto r') ∷ []))

  -- CreateRoom past its checks. `sid` and `limits` are for the room that it may make.
  unfoldable pub make_room : String → ℕ → Limits → CreateRoomRequest → Service mpsc → Answer mpsc
  unfolding made_answer get_or_create_room
  make_room sid now limits req s =
      made_answer now req (is_some (room_of mpsc req.name s))
        (get_or_create_room sid now limits req.name s.running.manager) s

  unfoldable pub create_room :
      VideoGrant
      → LimitConfig
      → String
      → ℕ
      → Limits
      → CreateRoomRequest
      → Service mpsc
      → Answer mpsc
  unfolding ensure_create validate_metadata
  create_room grant config sid now limits req s =
      if not (ensure_create grant)
      then refused unauthenticated
      else if str_eq req.name ""
      then refused (invalid_argument "room name is required")
      else if ltb config.max_room_name_length (len req.name)
      then refused (invalid_argument "room name length exceeds limits")
      else if not (validate_metadata config req.metadata)
      then refused (invalid_argument "metadata size exceeds limits")
      else make_room sid now limits req s

  abbrev pub is_listed : List String → Room → Bool
  is_listed [] r = true
  is_listed (name ∷ names) r = any_of (λ n. str_eq n r.name) (name ∷ names)

  unfoldable pub list_rooms_call : VideoGrant → List String → Service mpsc → Answer mpsc
  unfolding ensure_list list_rooms
  list_rooms_call grant names s =
      if not (ensure_list grant)
      then refused unauthenticated
      else served s
          (rooms_reply
            (map room_to_proto (select (is_listed names) (list_rooms s.running.manager))))
          []

  unfoldable pub delete_room : VideoGrant → String → Service mpsc → Answer mpsc
  unfolding ensure_create
  delete_room grant name s =
      if not (ensure_create grant)
      then refused unauthenticated
      else if str_eq name ""
      then refused (invalid_argument "room is required")
      else found_room mpsc (room_of mpsc name s)
          (λ r. served s empty_reply (delete_task name r.has_context (room_to_proto r) ∷ []))

  -- The task of `delete_room`: a webhook of its own, then the end of the room.
  unfoldable pub run_delete : String → Bool → RoomInfo → Service mpsc → Service mpsc
  unfolding close_room
  run_delete name has_context info s =
      let told = record (s.running) {
        events = s.running.events ++ when has_context (room_finished info ∷ []);
      } in
      record s { running = (close_room mpsc s.heap room_deleted name told).0 }

  unfoldable pub run_room_started : Bool → RoomInfo → Service mpsc → Service mpsc
  run_room_started has_context info s = record s {
    running = record (s.running) {
      events = s.running.events ++ when has_context (room_started info ∷ []);
    };
  }

  unfoldable pub update_metadata_call :
      VideoGrant → LimitConfig → ℕ → String → String → Service mpsc → Answer mpsc
  unfolding ensure_admin validate_metadata update_room_metadata
  update_metadata_call grant config now room metadata s =
      if not (ensure_admin grant room)
      then refused unauthenticated
      else if not (validate_metadata config metadata)
      then refused (invalid_argument "metadata size exceeds limits")
      else found_room mpsc (room_of mpsc room s) (λ r.
        let (r', changed) = update_room_metadata now metadata r in
        let channels' =
          if changed
          then broadcast_room_update mpsc r' s.running.channels
          else s.running.channels in
        let written = put_room mpsc room r' s in
        served (record written { running = record (written.running) { channels = channels' } })
          (room_reply (room_to_proto r')) [])
