-- ===== src/RoomService.antt =====
-- crates/lk-server/src/services.rs: the calls of the room service. A call is one whose body has been
-- decoded; what a handler spawns is a list of tasks, which run after it has answered.
pub mod Rooms
pub mod Participants
pub mod Calls
pub mod Granting
pub mod Effects
pub mod Making
pub mod Dispatches
use Prim.Native.String.{len}
use livekit_rs_voice.Base.{
  ℕ, ◌+◌, Bool, true, false, not, ◌&&◌, List, [], ◌∷◌, Option, none, some, String, str_eq, ltb,
  if◌then◌else◌, Map, get, insert,
}
use livekit_rs_voice.Track.{TrackInfo}
use livekit_rs_voice.Proto.{ParticipantInfo, Permission, RoomInfo}
use livekit_rs_voice.Auth.{VideoGrant, RoomAgentDispatch}
use livekit_rs_voice.Channels.{Mpsc}
use livekit_rs_voice.Participant.{Participant, Heap}
use livekit_rs_voice.Room.{Room, get_participant_by_identity}
use livekit_rs_voice.Server.{RoomManager, Running, get_room}
use livekit_rs_voice.Session.Data.{DataPacket}

pub data TwirpError : Type 0 where
  unauthenticated : TwirpError
  invalid_argument not_found failed_precondition : String → TwirpError

pub record LimitConfig : Type 0 where
  pub max_metadata : ℕ
  pub max_attributes : ℕ
  pub max_room_name_length : ℕ

unfoldable pub ensure_admin : VideoGrant → String → Bool
ensure_admin grant room = grant.room_admin && str_eq grant.room room

unfoldable pub ensure_create : VideoGrant → Bool
ensure_create grant = grant.room_create

unfoldable pub ensure_list : VideoGrant → Bool
ensure_list grant = grant.room_list

unfoldable pub validate_metadata : LimitConfig → String → Bool
validate_metadata config metadata = not (ltb config.max_metadata (len metadata))

unfoldable pub attributes_size : Map String → ℕ
attributes_size [] = 0
attributes_size ((k, v) ∷ attributes) = len k + len v + attributes_size attributes

unfoldable pub validate_attributes : LimitConfig → Map String → Bool
unfolding attributes_size
validate_attributes config attributes = not (ltb config.max_attributes (attributes_size attributes))

pub record CreateRoomRequest : Type 0 where
  pub name : String
  pub metadata : String
  pub empty_timeout : ℕ
  pub departure_timeout : ℕ
  pub max_participants : ℕ
  pub agents : List RoomAgentDispatch

pub record UpdateParticipantRequest : Type 0 where
  pub room : String
  pub identity : String
  pub name : String
  pub metadata : String
  pub permission : Option Permission
  pub attributes : Map String

pub record SendDataRequest : Type 0 where
  pub room : String
  pub kind : ℕ
  pub payload : List ℕ
  pub destination_identities : List String

pub data RoomReply : Type 0 where
  room_reply : RoomInfo → RoomReply
  rooms_reply : List RoomInfo → RoomReply
  participant_reply : ParticipantInfo → RoomReply
  participants_reply : List ParticipantInfo → RoomReply
  track_reply : TrackInfo → RoomReply
  empty_reply : RoomReply

-- What is spawned: the jobs of a room that was made, webhooks, and the work of the other calls. A
-- webhook is called if the room has its context.
pub data Task : Type 0 where
  launch_dispatches : String → Task
  room_started_task : Bool → RoomInfo → Task
  delete_task : String → Bool → RoomInfo → Task
  end_task : String → String → Task
  mute_task : String → String → String → Bool → Task
  subscriptions_task : String → String → List String → Bool → Task
  data_task : List (String × DataPacket) → Task

module _ (mpsc : Mpsc) where
  pub record Service : Type 0 where
    pub running : Running mpsc
    pub heap : Heap

  pub data Answer : Type 0 where
    served : Service → RoomReply → List Task → Answer
    refused : TwirpError → Answer

  -- A room of the manager is written.
  abbrev pub put_room : String → Room → Service → Service
  put_room name r s =
      let manager : RoomManager = record (s.running.manager) {
        rooms = insert name r s.running.manager.rooms;
      } in
      record s { running = record (s.running) { manager = manager } }

  abbrev pub room_of : String → Service → Option Room
  room_of name s = get_room name s.running.manager

  -- server.get_room(..).ok_or_else(..)?
  abbrev pub found_room : Option Room → (Room → Answer) → Answer
  found_room none k = refused (not_found "room not found")
  found_room (some r) k = k r

  abbrev pub found_participant : Option Participant → (Participant → Answer) → Answer
  found_participant none k = refused (not_found "participant not found")
  found_participant (some p) k = k p

  abbrev pub with_participant : String → String → Service → (Room → Participant → Answer) → Answer
  with_participant room identity s k =
      found_room (room_of room s)
        (λ r. found_participant (get_participant_by_identity identity r) (k r))
