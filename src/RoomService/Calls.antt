-- ===== src/RoomService/Calls.antt =====
-- crates/lk-server/src/services.rs: the dispatch of the calls, and who may make them.
use livekit_rs_voice.Base.{ℕ, Bool, true, false, ◌&&◌, List, String, str_eq}
use livekit_rs_voice.Auth.{VideoGrant}
use livekit_rs_voice.Channels.{Mpsc}
use livekit_rs_voice.Room.{Limits}
use livekit_rs_voice.RoomService.{
  LimitConfig, CreateRoomRequest, UpdateParticipantRequest, SendDataRequest, unauthenticated,
  invalid_argument, failed_precondition, not_found, Service, Answer, served, refused,
}
use livekit_rs_voice.RoomService.Rooms.{
  create_room, list_rooms_call, delete_room, update_metadata_call,
}
use livekit_rs_voice.RoomService.Participants.{
  list_participants, get_participant_call, remove_participant_call, mute_published_track,
  update_participant_call, update_subscriptions_call, send_data_call,
}

-- The methods with their decoded bodies; `unsupported` stands for the three that always fail.
pub data RoomCall : Type 0 where
  create_room_call : CreateRoomRequest → RoomCall
  list_rooms_of : List String → RoomCall
  delete_room_call list_participants_of : String → RoomCall
  get_participant_of remove_participant_of : String → String → RoomCall
  mute_track_of : String → String → String → Bool → RoomCall
  update_participant_of : UpdateParticipantRequest → RoomCall
  update_subscriptions_of : String → String → List String → Bool → RoomCall
  send_data_of : SendDataRequest → RoomCall
  update_metadata_of : String → String → RoomCall
  unsupported unknown_method : RoomCall

module _ (mpsc : Mpsc) where
  -- `sid` and `limits` are for the room that CreateRoom may make.
  unfoldable pub room_service :
      VideoGrant → LimitConfig → String → ℕ → Limits → RoomCall → Service mpsc → Answer mpsc
  room_service grant config sid now limits (create_room_call req) s =
      create_room mpsc grant config sid now limits req s
  room_service grant config sid now limits (list_rooms_of names) s =
      list_rooms_call mpsc grant names s
  room_service grant config sid now limits (delete_room_call room) s = delete_room mpsc grant room s
  room_service grant config sid now limits (list_participants_of room) s =
      list_participants mpsc grant room s
  room_service grant config sid now limits (get_participant_of room identity) s =
      get_participant_call mpsc grant room identity s
  room_service grant config sid now limits (remove_participant_of room identity) s =
      remove_participant_call mpsc grant room identity s
  room_service grant config sid now limits (mute_track_of room identity track_sid muted) s =
      mute_published_track mpsc grant now room identity track_sid muted s
  room_service grant config sid now limits (update_participant_of req) s =
      update_participant_call mpsc grant config req s
  room_service grant config sid now limits (update_subscriptions_of room identity sids subscribe)
        s =
      update_subscriptions_call mpsc grant room identity sids subscribe s
  room_service grant config sid now limits (send_data_of req) s = send_data_call mpsc grant req s
  room_service grant config sid now limits (update_metadata_of room metadata) s =
      update_metadata_call mpsc grant config now room metadata s
  room_service grant config sid now limits unsupported s =
      refused (failed_precondition "not supported on this server")
  room_service grant config sid now limits unknown_method s = refused (not_found "method not found")

-- What a call asks of the token: the grant to make rooms, to list them, or to administer the room that
-- it names.
abbrev pub may_call : VideoGrant → RoomCall → Bool
may_call grant (create_room_call req) = grant.room_create
may_call grant (list_rooms_of names) = grant.room_list
may_call grant (delete_room_call room) = grant.room_create
may_call grant (list_participants_of room) = grant.room_admin && str_eq grant.room room
may_call grant (get_participant_of room identity) = grant.room_admin && str_eq grant.room room
may_call grant (remove_participant_of room identity) = grant.room_admin && str_eq grant.room room
may_call grant (mute_track_of room identity sid muted) = grant.room_admin && str_eq grant.room room
may_call grant (update_participant_of req) = grant.room_admin && str_eq grant.room req.room
may_call grant (update_subscriptions_of room identity sids on) =
    grant.room_admin && str_eq grant.room room
may_call grant (send_data_of req) = grant.room_admin && str_eq grant.room req.room
may_call grant (update_metadata_of room metadata) = grant.room_admin && str_eq grant.room room
may_call grant unsupported = true
may_call grant unknown_method = true

-- The answer says that the token does not permit the call.
abbrev pub is_denied : {mpsc : Mpsc} → Answer mpsc → Bool
is_denied (served s reply tasks) = false
is_denied (refused unauthenticated) = true
is_denied (refused (invalid_argument text)) = false
is_denied (refused (not_found text)) = false
is_denied (refused (failed_precondition text)) = false
