-- ===== src/Egress/Specs.antt =====
-- crates/lk-egress/src/server.rs: what a request asks to be recorded, and under which name.
use Prim.Native.String.{◌++◌ as text_append}
use livekit_rs_voice.Base.{
  ℕ, Bool, List, [], ◌∷◌, Option, none, some, String, str_eq, ◌==◌, if◌then◌else◌,
}
use livekit_rs_voice.Egress.{
  CompositeOutput, composite_file, composite_stream, composite_segments, OutputConfig, output_file,
  output_stream, output_segments, output_images, EncodedFileOutput, DirectFileOutput, StorageConfig,
  Output, Request, room_composite, track, participant, track_composite, egress, unsupported,
  Destination, EgressConfig, Attempt, ok, err,
}
use livekit_rs_voice.Egress.Destinations.{conf_default, upload_destination}

pub data OutputFormat : Type 0 where
  mp3 wav : OutputFormat

pub record RecSpec : Type 0 where
  pub room : String
  pub format : OutputFormat
  pub destination : Destination
  pub filepath : String
  pub bitrate : ℕ

-- MP3 is 3 of EncodedFileType.
unfoldable pub encoded_format : ℕ → OutputFormat
encoded_format file_type = if file_type == 3 then mp3 else wav

-- A spec, once its destination is known.
abbrev pub with_destination :
    String → OutputFormat → String → ℕ → Attempt Destination → Attempt RecSpec
with_destination room format filepath bitrate (err e) = err e
with_destination room format filepath bitrate (ok destination) = ok (record {
  room = room;
  format = format;
  destination = destination;
  filepath = filepath;
  bitrate = bitrate;
})

abbrev pub first_of : {A : Type 0} → List A → Option A
first_of [] = none
first_of (x ∷ xs) = some x

-- The deprecated file, else the first of the files.
abbrev pub file_of : Option CompositeOutput → List EncodedFileOutput → Option EncodedFileOutput
file_of (some (composite_file f)) files = some f
file_of (some composite_stream) files = first_of files
file_of (some (composite_segments o)) files = first_of files
file_of none files = first_of files

-- A file of a request, or the default of the configuration.
unfoldable pub encoded_spec : String → ℕ → Option EncodedFileOutput → EgressConfig → Attempt RecSpec
unfolding encoded_format upload_destination conf_default
encoded_spec room bitrate none conf = with_destination room wav "" bitrate (conf_default conf)
encoded_spec room bitrate (some f) conf =
    with_destination room (encoded_format f.file_type) f.filepath bitrate
      (upload_destination f.output conf)

abbrev pub bitrate_of : Option ℕ → ℕ
bitrate_of none = 0
bitrate_of (some b) = b

-- `direct_destination` for the file of a track.
unfoldable pub track_spec : String → Option DirectFileOutput → EgressConfig → Attempt RecSpec
unfolding upload_destination conf_default
track_spec room none conf = with_destination room wav "" 0 (conf_default conf)
track_spec room (some f) conf =
    with_destination room wav f.filepath 0 (upload_destination f.output conf)

-- `storage_destination` for an output that names a storage.
unfoldable pub storage_of : Option StorageConfig → EgressConfig → Attempt Destination
unfolding upload_destination conf_default
storage_of none conf = conf_default conf
storage_of (some s) conf = upload_destination s.provider conf

abbrev pub config_spec : String → Option OutputConfig → Attempt Destination → Attempt RecSpec
config_spec room none destination = with_destination room wav "" 0 destination
config_spec room (some output_stream) destination = with_destination room wav "" 0 destination
config_spec room (some (output_segments o)) destination = with_destination room wav "" 0 destination
config_spec room (some (output_images o)) destination = with_destination room wav "" 0 destination
config_spec room (some (output_file f)) destination =
    with_destination room (encoded_format f.file_type) f.filepath 0 destination

unfoldable pub output_spec : String → Option Output → EgressConfig → Attempt RecSpec
unfolding encoded_format storage_of conf_default
output_spec room none conf = with_destination room wav "" 0 (conf_default conf)
output_spec room (some o) conf = config_spec room o.config (storage_of o.storage conf)

unfoldable pub rec_spec : Request → EgressConfig → Attempt RecSpec
unfolding encoded_spec track_spec output_spec
rec_spec (room_composite r) conf =
    encoded_spec r.room_name (bitrate_of r.audio_bitrate) (file_of r.output r.file_outputs) conf
rec_spec (track r) conf = track_spec r.room_name r.output conf
rec_spec (participant r) conf = encoded_spec r.room_name 0 (first_of r.file_outputs) conf
rec_spec (track_composite r) conf =
    encoded_spec r.room_name 0 (file_of r.output r.file_outputs) conf
rec_spec (egress r) conf = output_spec r.room_name (first_of r.outputs) conf
rec_spec unsupported conf = err "web/replay egress is not supported on the voice-only recorder"

-- `ends_with` is str::ends_with.
unfoldable pub storage_key : (String → String → Bool) → String → String → String → String
storage_key ends_with filepath egress_id ext =
    let suffix = text_append "." ext in
    if str_eq filepath ""
    then text_append egress_id suffix
    else if ends_with filepath suffix
    then filepath
    else text_append filepath suffix
