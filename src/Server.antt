-- ===== src/Server.antt =====
-- crates/lk-server/src/server.rs: the rooms of a server, and the task that closes the ones that are
-- due. Metrics are left out; the jobs for a new room are those of Agent.list_dispatches.
pub mod Timeouts
use livekit_rs_voice.Base.{
  ℕ, Bool, true, false, not, ◌&&◌, List, [], ◌∷◌, ◌++◌, Option, none, some, String, if◌then◌else◌,
  Map, get, insert, remove, keys, values, length, unwrap_or,
}
use livekit_rs_voice.Participant.{Heap}
use livekit_rs_voice.Channels.{Mpsc}
use livekit_rs_voice.Events.{Event}
use livekit_rs_voice.Room.{Room, Limits, new_room, set_on_close, should_close}
use livekit_rs_voice.Room.Close.{close}

pub record RoomManager : Type 0 where
  pub rooms : Map Room
  pub speaker_states : Map String

unfoldable pub new_server : RoomManager
new_server = record { rooms = []; speaker_states = [] }

-- The manager, the room, and whether this call made it, which launches its dispatches. `sid` and the
-- limits are those of the room that it may make.
unfoldable pub get_or_create_room :
    String → ℕ → Limits → String → RoomManager → RoomManager × Room × Bool
unfolding set_on_close
get_or_create_room sid now limits name m = elim (get name m.rooms) [
  | some r ↦ (m, r, false)
  | none ↦
      let r = set_on_close (new_room sid now name (some limits)) in
      (record m { rooms = insert name r m.rooms }, r, true)
]

unfoldable pub get_room : String → RoomManager → Option Room
get_room name m = get name m.rooms

unfoldable pub list_rooms : RoomManager → List Room
list_rooms m = values m.rooms

unfoldable pub num_rooms : RoomManager → ℕ
num_rooms m = length m.rooms

unfoldable pub remove_room : String → RoomManager → RoomManager
remove_room name m = record m { rooms = remove name m.rooms }

unfoldable pub on_room_closed : Room → RoomManager → RoomManager
unfolding remove_room
on_room_closed r m =
    remove_room r.name (record m { speaker_states = remove r.name m.speaker_states })

unfoldable pub speaker_state : String → RoomManager → String
speaker_state room m = unwrap_or (get room m.speaker_states) ""

unfoldable pub set_speaker_state : String → String → RoomManager → RoomManager
set_speaker_state room state m = record m { speaker_states = insert room state m.speaker_states }

-- ROOM_CLOSED of livekit.DisconnectReason.
abbrev pub room_closed : ℕ
room_closed = 10

module _ (mpsc : Mpsc) where
  open mpsc use {Channels}

  pub record Running : Type 0 where
    pub manager : RoomManager
    pub channels : Channels
    pub events : List Event

  -- A room of the manager is closed: its callback, which it has once, takes it out of the manager.
  unfoldable pub close_kept : Heap → ℕ → String → Room → Running → Running
  unfolding on_room_closed
  close_kept heap reason name r s =
      let (r', done) = close mpsc heap reason r s.channels in
      let written = record (s.manager) { rooms = insert name r' s.manager.rooms } in
      record {
        manager = if r.on_close && not r.closed then on_room_closed r' written else written;
        channels = done.channels;
        events = s.events ++ done.events;
      }

  unfoldable pub close_room : Heap → ℕ → String → Running → Running × Bool
  unfolding close_kept
  close_room heap reason name s = elim (get name s.manager.rooms) [
    | none ↦ (s, false)
    | some r ↦ (close_kept heap reason name r s, true)
  ]

  unfoldable pub check_room : Heap → ℕ → String → Running → Running
  unfolding close_kept
  check_room heap now name s = elim (get name s.manager.rooms) [
    | none ↦ s
    | some r ↦ if should_close now r then close_kept heap room_closed name r s else s
  ]

  unfoldable pub check_rooms : Heap → ℕ → List String → Running → Running
  unfolding check_room
  check_rooms heap now [] s = s
  check_rooms heap now (name ∷ names) s = check_rooms heap now names (check_room heap now name s)

  -- One tick, at `now`.
  unfoldable pub check_room_timeouts : Heap → ℕ → Running → Running
  unfolding check_rooms
  check_room_timeouts heap now s = check_rooms heap now (keys s.manager.rooms) s
