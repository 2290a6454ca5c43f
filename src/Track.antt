-- ===== src/Track.antt =====
-- crates/lk-server/src/track.rs: a published audio track. Tracks are shared objects (`Arc`); a
-- participant holds them by address (Participant.antt), and what is here acts on one of them.
pub mod Sources
use Prim.Native.Char.{code}
use Prim.Native.String
use livekit_rs_voice.Base.{
  ℕ, zero, suc, ◌-◌, Bool, true, false, not, ◌&&◌, List, [], ◌∷◌, map, Option, none, some, String,
  leb, ◌==◌, if◌then◌else◌, unwrap_or,
}
use livekit_rs_voice.Core.{TimedVersion, new_version, bump}

pub data TrackKind : Type 0 where
  audio : TrackKind

unfoldable pub track_kind_to_proto : TrackKind → ℕ
track_kind_to_proto audio = 0

pub data TrackSource : Type 0 where
  unknown camera microphone screen_share screen_share_audio : TrackSource

unfoldable pub source_to_proto : TrackSource → ℕ
source_to_proto unknown = 0
source_to_proto camera = 1
source_to_proto microphone = 2
source_to_proto screen_share = 3
source_to_proto screen_share_audio = 4

unfoldable pub source_from_proto : ℕ → TrackSource
source_from_proto v =
    if v == 1
    then camera
    else if v == 2
    then microphone
    else if v == 3
    then screen_share
    else if v == 4
    then screen_share_audio
    else unknown

unfoldable pub source_str : TrackSource → String
source_str unknown = "unknown"
source_str camera = "camera"
source_str microphone = "microphone"
source_str screen_share = "screen_share"
source_str screen_share_audio = "screen_share_audio"

-- The code points of a text. `to_uppercase` is modelled on ASCII letters, which are all that the
-- compared names are made of.
abbrev pub codes : String → List ℕ
codes String.[] = []
codes (String.◌∷◌ c s) = code c ∷ codes s

unfoldable pub to_upper : ℕ → ℕ
to_upper c = if leb b'a' c && leb c b'z' then c - 32 else c

abbrev pub codes_eq : List ℕ → List ℕ → Bool
codes_eq [] [] = true
codes_eq [] (y ∷ ys) = false
codes_eq (x ∷ xs) [] = false
codes_eq (x ∷ xs) (y ∷ ys) = x == y && codes_eq xs ys

unfoldable pub source_from_str : String → ℕ
unfolding to_upper
source_from_str s =
    let upper : List ℕ = map to_upper (codes s) in
    if codes_eq upper (codes "CAMERA")
    then 1
    else if codes_eq upper (codes "MICROPHONE")
    then 2
    else if codes_eq upper (codes "SCREEN_SHARE")
    then 3
    else if codes_eq upper (codes "SCREEN_SHARE_AUDIO")
    then 4
    else 0

pub record PublishedTrack : Type 0 where
  pub sid : String
  pub cid : String
  pub name : String
  pub kind : TrackKind
  pub source : TrackSource
  pub stream : String
  pub muted : Bool
  pub mime : String
  pub mid : Option String
  pub version : TimedVersion
  pub red_enabled : Bool
  pub encryption : ℕ
  pub stereo : Bool
  pub disable_dtx : Bool
  pub audio_features : List ℕ
  pub backup_codec_policy : ℕ

-- `sid` is the fresh id that `new_track_sid` draws.
unfoldable pub new_track : String → ℕ → String → String → TrackSource → String → PublishedTrack
unfolding new_version
new_track sid now name cid source stream = record {
  sid = sid;
  cid = cid;
  name = name;
  kind = audio;
  source = source;
  stream = stream;
  muted = false;
  mime = "audio/opus";
  mid = none;
  version = new_version now;
  red_enabled = false;
  encryption = 0;
  stereo = false;
  disable_dtx = false;
  audio_features = [];
  backup_codec_policy = 0;
}

abbrev pub bool_ne : Bool → Bool → Bool
bool_ne true b = not b
bool_ne false b = b

-- The result says whether the flag changed; only then is the version bumped.
unfoldable pub set_muted : ℕ → Bool → PublishedTrack → PublishedTrack × Bool
set_muted now muted t =
    let changed = bool_ne t.muted muted in
    (
      if changed
          then record t { muted = muted; version = bump now t.version }
          else record t { muted = muted },
      changed,
    )

unfoldable pub set_mime : String → PublishedTrack → PublishedTrack
set_mime mime t = record t { mime = mime }

unfoldable pub set_mid : Option String → PublishedTrack → PublishedTrack
set_mid mid t = record t { mid = mid }

-- livekit.TrackInfo: the fields that the server fills in.
pub record TrackInfo : Type 0 where
  pub sid : String
  pub type : ℕ
  pub name : String
  pub muted : Bool
  pub source : ℕ
  pub disable_dtx : Bool
  pub mime_type : String
  pub mid : String
  pub stereo : Bool
  pub disable_red : Bool
  pub encryption : ℕ
  pub version : Option TimedVersion
  pub stream : String
  pub audio_features : List ℕ
  pub backup_codec_policy : ℕ

unfoldable pub track_to_proto : PublishedTrack → TrackInfo
unfolding track_kind_to_proto source_to_proto
track_to_proto t = record {
  sid = t.sid;
  type = track_kind_to_proto t.kind;
  name = t.name;
  muted = t.muted;
  source = source_to_proto t.source;
  disable_dtx = t.disable_dtx;
  mime_type = t.mime;
  mid = unwrap_or t.mid "";
  stereo = t.stereo;
  disable_red = not t.red_enabled;
  encryption = t.encryption;
  version = some t.version;
  stream = t.stream;
  audio_features = t.audio_features;
  backup_codec_policy = t.backup_codec_policy;
}
