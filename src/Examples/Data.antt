-- ===== src/Examples/Data.antt =====
-- A room with a few participants, tracks and channels.
use livekit_rs_voice.Base.{
  ℕ, ◌==◌, ◌≡◌, ◌&&◌, arith, Bool, true, List, [], ◌∷◌, ◌++◌, some, String, if◌then◌else◌,
}
use livekit_rs_voice.Core.{ParticipantKind, standard, agent}
use livekit_rs_voice.Track.{PublishedTrack, new_track, microphone}
use livekit_rs_voice.Participant.{Participant, Heap, new_participant}
use livekit_rs_voice.Channels.{Mpsc, SignalResponse}
use livekit_rs_voice.Room.{Room, Limits, new_room}

-- Channels without a bound that never close.
abbrev pub push : ℕ → SignalResponse → (ℕ → List SignalResponse) → (ℕ → List SignalResponse) × Bool
push tx r s = ((λ c. if tx == c then s c ++ r ∷ [] else s c), true)

pub push_received :
    (c tx : ℕ) (r : SignalResponse) (s : ℕ → List SignalResponse)
    → (push tx r s).0 c ≡ (if tx == c && (push tx r s).1 then s c ++ r ∷ [] else s c)
push_received c tx r s = ground arith

abbrev pub unbounded : Mpsc
unbounded = record {
  Channels = ℕ → List SignalResponse;
  received = λ c s. s c;
  try_send = push;
  send = push;
  received-try_send = push_received;
  received-send = push_received;
}

abbrev pub quiet : ℕ → List SignalResponse
quiet c = []

abbrev pub track_of : String → String → PublishedTrack
track_of sid cid = new_track sid 1000 "mic" cid microphone ""

-- Addresses 0, 1 and 2; the last two tracks have the same cid.
abbrev pub heap : Heap
heap a =
    if a == 0
    then track_of "TR_0" "first"
    else if a == 1
    then track_of "TR_1" "second"
    else track_of "TR_2" "second"

abbrev pub person : String → String → ParticipantKind → Participant
person sid identity kind = new_participant sid 5000 identity identity "" kind

abbrev pub alice : Participant
alice = person "PA_a" "alice" standard

abbrev pub helper : Participant
helper = person "PA_h" "helper" agent

abbrev pub limits : Limits
limits = record { empty_timeout = 300; departure_timeout = 20; max_participants = 1 }

abbrev pub lobby : Room
lobby = new_room "RM_1" 1000 "lobby" (some limits)
