-- ===== src/Examples/CloseRuns.antt =====
-- Tests and instances of the theorems on closing a room and on its broadcasts
-- (crates/lk-server/src/room.rs).
use livekit_rs_voice.Base.{◌≡◌, refl, true, [], ◌∷◌, get, insert}
use livekit_rs_voice.Core.{is_dependent, bump}
use livekit_rs_voice.Participant.{
  Participant, attach_room, new_participant, participant_to_proto, set_signal_sink,
}
use livekit_rs_voice.Proto.{ParticipantInfo, default_permission}
use livekit_rs_voice.Room.{Room, new_room, join, admit, is_full}
use livekit_rs_voice.Room.Close.{close}
use livekit_rs_voice.Room.Closing.{is_on_close, occurrences, close-channels}
use livekit_rs_voice.Room.Telling.{left_of, finished_of, close-left_of}
use livekit_rs_voice.Examples.Data.{unbounded, quiet, heap, alice, helper, lobby}

-- Alice listens on channel 1 and the helper, who is hidden, on channel 2.
abbrev listener : Participant
listener = (set_signal_sink 1 alice).0

abbrev hidden_helper : Participant
hidden_helper = record (set_signal_sink 2 helper).0 {
  permission = record default_permission { hidden = true };
}

abbrev open_room : Room
open_room = (join 3000 hidden_helper (join 2000 listener lobby).0).0

abbrev inside : Participant
inside = attach_room "lobby" listener

close-channels_example : (close unbounded heap 5 open_room quiet).1.channels ≡ quiet
close-channels_example = close-channels unbounded heap 5 open_room quiet

close-left_of_example :
    let (closed_room, done) = close unbounded heap 5 open_room quiet in
    (closed_room.closed ≡ true)
    × (closed_room.participants ≡ [])
    × (left_of done.events
        ≡ (open_room.sid, ("PA_a", "alice")) ∷ (open_room.sid, ("PA_h", "helper")) ∷ [])
    × (finished_of done.events ≡ open_room.sid ∷ [])
    × (occurrences is_on_close done.events ≡ 0)
unfolding join admit is_full is_dependent new_room new_participant insert attach_room bump get
    set_signal_sink
close-left_of_example = close-left_of unbounded heap 5 open_room quiet refl

abbrev hidden_info : ParticipantInfo
hidden_info = (participant_to_proto heap hidden_helper).1

abbrev alice_info : ParticipantInfo
alice_info = (participant_to_proto heap listener).1
