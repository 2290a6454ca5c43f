-- ===== src/RoomService/Granting.antt =====
-- crates/lk-server/src/services.rs: whom the room service refuses.
use Prim.Native.String.{len}
use livekit_rs_voice.Base.{
  ℕ, ◌≡◌, refl, Bool, true, false, not, Option, none, some, String, str_eq, if◌then◌else◌, ltb,
}
use livekit_rs_voice.Auth.{VideoGrant}
use livekit_rs_voice.Channels.{Mpsc}
use livekit_rs_voice.Participant.{Participant, get_track}
use livekit_rs_voice.Room.{Room, Limits, get_participant_by_identity}
use livekit_rs_voice.RoomService.{
  LimitConfig, unauthenticated, not_found, ensure_admin, ensure_create, validate_metadata,
  validate_attributes, ensure_list, Service, Answer, refused, room_of, found_room,
  found_participant, with_participant,
}
use livekit_rs_voice.RoomService.Rooms.{
  create_room, make_room, list_rooms_call, delete_room, update_metadata_call,
}
use livekit_rs_voice.RoomService.Participants.{
  list_participants, get_participant_call, remove_participant_call, mute_published_track,
  mute_found, update_participant_call, update_subscriptions_call, send_data_call,
}
use livekit_rs_voice.RoomService.Calls.{
  RoomCall, create_room_call, list_rooms_of, delete_room_call, list_participants_of,
  get_participant_of, remove_participant_of, mute_track_of, update_participant_of,
  update_subscriptions_of, send_data_of, update_metadata_of, unsupported, unknown_method,
  room_service, may_call, is_denied,
}

module _ {mpsc : Mpsc} where
  -- A check of the grant in front of an answer that is never a denial.
  guarded :
      (may : Bool) (a : Answer mpsc)
      → is_denied a ≡ false
      → is_denied {mpsc = mpsc} (if not may then refused unauthenticated else a) ≡ not may
  guarded true a h = h
  guarded false a h = refl

  either-denied :
      (b : Bool) (x y : Answer mpsc)
      → is_denied x ≡ false
      → is_denied y ≡ false
      → is_denied (if b then x else y) ≡ false
  either-denied true x y hx hy = hx
  either-denied false x y hx hy = hy

  found_room-denied :
      (found : Option Room) (k : Room → Answer mpsc)
      → ((r : Room) → is_denied (k r) ≡ false)
      → is_denied (found_room mpsc found k) ≡ false
  found_room-denied none k h = refl
  found_room-denied (some r) k h = h r

  found_participant-denied :
      (found : Option Participant) (k : Participant → Answer mpsc)
      → ((p : Participant) → is_denied (k p) ≡ false)
      → is_denied (found_participant mpsc found k) ≡ false
  found_participant-denied none k h = refl
  found_participant-denied (some p) k h = h p

  track-denied :
      (found : Option ℕ) (k : ℕ → Answer mpsc)
      → ((t : ℕ) → is_denied (k t) ≡ false)
      → is_denied (elim found [ none ↦ refused (not_found "track not found") | some t ↦ k t ])
        ≡ false
  track-denied none k h = refl
  track-denied (some t) k h = h t

  with_participant-denied :
      (room identity : String) (s : Service mpsc) (k : Room → Participant → Answer mpsc)
      → ((r : Room) (p : Participant) → is_denied (k r p) ≡ false)
      → is_denied (with_participant mpsc room identity s k) ≡ false
  with_participant-denied room identity s k h =
      found_room-denied (room_of mpsc room s) _
        (λ r. found_participant-denied (get_participant_by_identity identity r) (k r) (h r))

module _ (mpsc : Mpsc) (grant : VideoGrant) (config : LimitConfig) (sid : String) (now : ℕ)
    (limits : Limits) where
  -- Whatever the state and the body, a call is answered as not permitted exactly when the token lacks
  -- the grant that the call needs: to make rooms for CreateRoom and DeleteRoom, to list them for
  -- ListRooms, and for the others to administer the room that the call names.
  pub room_service-is_denied :
      (call : RoomCall) (s : Service mpsc)
      → is_denied (room_service mpsc grant config sid now limits call s) ≡ not (may_call grant call)
  unfolding room_service ensure_admin ensure_create ensure_list create_room make_room
      list_rooms_call delete_room update_metadata_call list_participants get_participant_call
      remove_participant_call mute_published_track update_participant_call update_subscriptions_call
      send_data_call mute_found
  room_service-is_denied (create_room_call req) s = guarded grant.room_create _ (
      either-denied (str_eq req.name "") _ _ refl (
        either-denied (ltb config.max_room_name_length (len req.name)) _ _ refl
          (either-denied (not (validate_metadata config req.metadata)) _ _ refl refl)))
  room_service-is_denied (list_rooms_of names) s = guarded grant.room_list _ refl
  room_service-is_denied (delete_room_call room) s = guarded grant.room_create _ (
      either-denied (str_eq room "") _ _ refl
        (found_room-denied (room_of mpsc room s) _ (λ r. refl)))
  room_service-is_denied (list_participants_of room) s =
      guarded (ensure_admin grant room) _ (found_room-denied (room_of mpsc room s) _ (λ r. refl))
  room_service-is_denied (get_participant_of room identity) s =
      guarded (ensure_admin grant room) _ (with_participant-denied room identity s _ (λ r p. refl))
  room_service-is_denied (remove_participant_of room identity) s =
      guarded (ensure_admin grant room) _ (with_participant-denied room identity s _ (λ r p. refl))
  room_service-is_denied (mute_track_of room identity track_sid muted) s =
      guarded (ensure_admin grant room) _ (
        with_participant-denied room identity s _
          (λ r p. track-denied (get_track track_sid p) _ (λ t. refl)))
  room_service-is_denied (update_participant_of req) s = guarded (ensure_admin grant req.room) _ (
      with_participant-denied req.room req.identity s _ (λ r p.
        either-denied (not (validate_metadata config req.metadata)) _ _ refl
          (either-denied (not (validate_attributes config req.attributes)) _ _ refl refl)))
  room_service-is_denied (update_subscriptions_of room identity track_sids subscribe) s =
      guarded (ensure_admin grant room) _ (with_participant-denied room identity s _ (λ r p. refl))
  room_service-is_denied (send_data_of req) s =
      guarded (ensure_admin grant req.room) _
        (found_room-denied (room_of mpsc req.room s) _ (λ r. refl))
  room_service-is_denied (update_metadata_of room metadata) s =
      guarded (ensure_admin grant room) _ (
        either-denied (not (validate_metadata config metadata)) _ _ refl
          (found_room-denied (room_of mpsc room s) _ (λ r. refl)))
  room_service-is_denied unsupported s = refl
  room_service-is_denied unknown_method s = refl
