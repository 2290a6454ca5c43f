-- ===== src/Proto.antt =====
-- protos/livekit_models.proto: the messages that the server builds, with the fields that it fills
-- in. A timestamp or a number is a ℕ, and an enum its number on the wire.
use native.Mathlib.Decide.{ℕ_discrete}
use livekit_rs_voice.Base.{ℕ, Bool, false, List, [], Option, String, Map}
use livekit_rs_voice.Core.{TimedVersion}
use livekit_rs_voice.Track.{TrackInfo}

-- livekit.ParticipantPermission
pub record Permission : Type 0 where
  pub can_subscribe : Bool
  pub can_publish : Bool
  pub can_publish_data : Bool
  pub can_publish_sources : List ℕ
  pub hidden : Bool
  pub recorder : Bool
  pub can_update_metadata : Bool
  pub agent : Bool
  pub can_subscribe_metrics : Bool

-- ParticipantPermission::default()
abbrev pub default_permission : Permission
default_permission = record {
  can_subscribe = false;
  can_publish = false;
  can_publish_data = false;
  can_publish_sources = [];
  hidden = false;
  recorder = false;
  can_update_metadata = false;
  agent = false;
  can_subscribe_metrics = false;
}

pub Permission-discrete : Discrete Permission
Permission-discrete = hlevel ℕ_discrete

-- livekit.ParticipantInfo
pub record ParticipantInfo : Type 0 where
  pub sid : String
  pub identity : String
  pub state : ℕ
  pub tracks : List TrackInfo
  pub metadata : String
  pub joined_at : ℕ
  pub joined_at_ms : ℕ
  pub name : String
  pub version : ℕ
  pub permission : Option Permission
  pub is_publisher : Bool
  pub kind : ℕ
  pub attributes : Map String
  pub disconnect_reason : ℕ
  pub client_protocol : ℕ

-- livekit.Room
pub record RoomInfo : Type 0 where
  pub sid : String
  pub name : String
  pub empty_timeout : ℕ
  pub departure_timeout : ℕ
  pub max_participants : ℕ
  pub creation_time : ℕ
  pub creation_time_ms : ℕ
  pub metadata : String
  pub num_participants : ℕ
  pub num_publishers : ℕ
  pub active_recording : Bool
  pub version : Option TimedVersion

-- livekit.AddTrackRequest: the fields that the server reads.
pub record AddTrackRequest : Type 0 where
  pub cid : String
  pub name : String
  pub type : ℕ
  pub muted : Bool
  pub disable_dtx : Bool
  pub source : ℕ
  pub stereo : Bool
  pub disable_red : Bool
  pub encryption : ℕ
  pub stream : String
  pub backup_codec_policy : ℕ
  pub audio_features : List ℕ
