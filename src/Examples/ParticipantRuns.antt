-- ===== src/Examples/ParticipantRuns.antt =====
-- Tests and instances of the theorems on participants, tracks and versions
-- (crates/lk-server/src/participant.rs, track.rs, core.rs).
use livekit_rs_voice.Base.{
  ◌≡◌, refl, true, false, none, some, List, [], ◌∷◌, String, arith, Map, get,
}
use livekit_rs_voice.Core.{TimedVersion}
use livekit_rs_voice.Track.{new_track}
use livekit_rs_voice.Auth.{VerifiedToken, VideoGrant}
use livekit_rs_voice.Participant.{Participant, new_participant, Setter, trying, attempt, add_track}
use livekit_rs_voice.Participant.State.{race, attempts, attempts-IsFinished, IsFinished}
use livekit_rs_voice.Participant.Tracks.{AreIndexed, add_track-AreIndexed}
use livekit_rs_voice.Examples.Data.{heap, alice}

abbrev noon : TimedVersion
noon = record { unix_micro = 700; ticks = 3 }

-- Two threads, one that wants joined and one that wants active, interleaved.
abbrev setters : List Setter
setters = trying 1 0 ∷ trying 2 0 ∷ []

race_runs : (race (1 ∷ 0 ∷ 0 ∷ []) 0 setters).0 ≡ 2
unfolding attempt
race_runs = refl

attempts-IsFinished_example : IsFinished (attempts (1 ∷ 1 ∷ 2 ∷ 2 ∷ []) (trying 3 0))
attempts-IsFinished_example =
    attempts-IsFinished (1 ∷ 1 ∷ 2 ∷ 2 ∷ []) 3 0 (omega arith) (omega arith)

abbrev attrs : Map String
attrs = ("lang", "en") ∷ ("mood", "") ∷ []

alice-AreIndexed : AreIndexed heap alice
unfolding new_participant get
alice-AreIndexed = record {
  sid_of = λ s t h. cc;
  cid_of = λ c t h. cc;
  has_cid = λ s t h. cc;
  has_sid = λ c t h. cc;
}

abbrev one_track : Participant
one_track = add_track heap 1 alice

one_track-AreIndexed : AreIndexed heap one_track
unfolding new_participant get new_track
one_track-AreIndexed = add_track-AreIndexed heap alice 1 refl refl alice-AreIndexed

abbrev grant : VideoGrant
grant = record {
  room_create = false;
  room_list = false;
  room_record = false;
  room_admin = false;
  room_join = true;
  room = "lobby";
  can_publish = some false;
  can_subscribe = none;
  can_publish_data = none;
  can_publish_sources = "microphone" ∷ [];
  can_update_own_metadata = none;
  hidden = false;
  recorder = false;
  agent = false;
  can_subscribe_metrics = none;
  destination_room = "";
}

abbrev token : VerifiedToken
token = record {
  api_key = "devkey";
  identity = "alice";
  name = "Alice";
  metadata = "";
  attributes = [];
  kind = "";
  video = grant;
  sip = record { admin = false; call = false };
  room_config = none;
  room_preset = "";
  sha256 = "";
  nbf = none;
}
