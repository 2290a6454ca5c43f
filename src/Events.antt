-- ===== src/Events.antt =====
-- What rooms and sessions (crates/lk-server/src/room.rs, signal.rs) do outside themselves: calls of
-- webhook.rs, metrics.rs, agent.rs and cluster.rs, and of the callback of the room manager.
use livekit_rs_voice.Base.{String, ℤ}
use livekit_rs_voice.Proto.{ParticipantInfo, RoomInfo}

pub data Event : Type 0 where
  terminate_room_jobs release_room : String → Event
  participant_total_inc participant_total_dec : Event
  session_duration : ℤ → Event
  room_started room_finished : RoomInfo → Event
  participant_joined participant_left : RoomInfo → ParticipantInfo → Event
  on_close_called : Event
