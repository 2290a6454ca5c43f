-- ===== src/Examples/RequestRuns.antt =====
-- Tests and instances of the theorems on data packets and requests (crates/lk-server/src/signal.rs).
use livekit_rs_voice.Base.{
  ◌==◌, ◌||◌, ◌&&◌, ◌≡◌, refl, true, false, not, ◌&&◌, List, [], ◌∷◌, none, some, str_eq, any_of,
  get, insert,
}
use livekit_rs_voice.Core.{bump, is_dependent}
use livekit_rs_voice.Proto.{AddTrackRequest, default_permission}
use livekit_rs_voice.Participant.{Participant, new_participant, attach_room, add_track}
use livekit_rs_voice.Room.{Room, new_room, join, admit, is_full}
use livekit_rs_voice.Room.Membership.{IsConsistent, join-IsConsistent}
use livekit_rs_voice.Session.Data.{
  DataPacket, user, destination_count, destination_sids, handle_incoming_data, goes_to,
  handle_incoming_data_iff,
}
use livekit_rs_voice.Session.Requests.{SyncEntry}
use livekit_rs_voice.Examples.Data.{heap, alice, helper, lobby}
use livekit_rs_voice.Examples.RoomRuns.{one_in, lobby-IsConsistent}

abbrev speaker : Participant
speaker = record alice { permission = record default_permission { can_publish_data = true } }

-- A packet for the helper that says that Bob sent it.
abbrev forged : DataPacket
forged = record {
  kind = 0;
  participant_identity = "bob";
  participant_sid = "PA_b";
  destination_identities = "helper" ∷ [];
  value = user [] [];
}

abbrev two_in : Room
two_in = (join 3000 helper one_in).0

two_in-IsConsistent : IsConsistent two_in
two_in-IsConsistent =
    join-IsConsistent 3000 helper one_in (join-IsConsistent 2000 alice lobby lobby-IsConsistent)

handle_incoming_data_iff_example :
    any_of (goes_to "PA_h") (handle_incoming_data speaker true (some forged) (some two_in)) ≡ (
      speaker.permission.can_publish_data
      && not (str_eq "PA_h" speaker.sid)
      && (destination_count forged == 0
          || any_of (λ i. str_eq i "helper") forged.destination_identities
          || any_of (λ d. str_eq d "PA_h") (destination_sids forged.value)))
unfolding join admit is_full is_dependent new_room new_participant insert attach_room bump get
handle_incoming_data_iff_example =
    handle_incoming_data_iff speaker (attach_room "lobby" helper) true forged two_in "PA_h"
      two_in-IsConsistent refl

forged_arrives :
    handle_incoming_data speaker true (some forged) (some two_in)
    ≡ ("PA_h", record forged { kind = 1 }) ∷ []
unfolding join admit is_full is_dependent new_room new_participant insert attach_room bump
    handle_incoming_data
forged_arrives = refl

abbrev named : List SyncEntry
named =
    record {
      fresh = 8;
      sid = "TR_8";
      cid = "new";
      track = some (record { name = "mic"; source = 2; stream = "" });
    }
    ∷ record { fresh = 9; sid = "TR_9"; cid = "none"; track = none }
    ∷ []

abbrev audio_request : AddTrackRequest
audio_request = record {
  cid = "new";
  name = "mic";
  type = 0;
  muted = true;
  disable_dtx = false;
  source = 2;
  stereo = false;
  disable_red = false;
  encryption = 0;
  stream = "";
  backup_codec_policy = 0;
  audio_features = [];
}

abbrev with_track : Participant
with_track = add_track heap 0 alice
