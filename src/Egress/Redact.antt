-- ===== src/Egress/Redact.antt =====
-- crates/lk-egress/src/redact.rs: the request that is reported, without the secrets of its uploads. The urls of
-- streams and the redaction of their keys are left out.
use livekit_rs_voice.Base.{map, Option, none, some, String, str_eq, if◌then◌else◌}
use livekit_rs_voice.Egress.{
  CompositeOutput, composite_file, composite_stream, composite_segments, SegmentedFileOutput,
  ImageOutput, S3Upload, GcpUpload, AzureBlobUpload, AliOssUpload, Upload, s3, gcp, azure, ali_oss,
  EncodedFileOutput, DirectFileOutput, StorageConfig, Output, RoomCompositeEgressRequest,
  TrackCompositeEgressRequest, ParticipantEgressRequest, TrackEgressRequest, StartEgressRequest,
  Request, room_composite, track, participant, track_composite, egress, unsupported,
}

unfoldable pub redact : String → String → String
redact s placeholder = if str_eq s "" then "" else placeholder

unfoldable pub redact_s3 : S3Upload → S3Upload
unfolding redact
redact_s3 u = record u {
  access_key = redact u.access_key "{access_key}";
  secret = redact u.secret "{secret}";
  assume_role_external_id = redact u.assume_role_external_id "{external_id}";
  session_token = redact u.session_token "{session_token}";
}

unfoldable pub redact_gcp : GcpUpload → GcpUpload
unfolding redact
redact_gcp g = record g { credentials = redact g.credentials "{credentials}" }

unfoldable pub redact_azure : AzureBlobUpload → AzureBlobUpload
unfolding redact
redact_azure a = record a {
  account_name = redact a.account_name "{account_name}";
  account_key = redact a.account_key "{account_key}";
}

unfoldable pub redact_alioss : AliOssUpload → AliOssUpload
unfolding redact
redact_alioss a = record a {
  access_key = redact a.access_key "{access_key}";
  secret = redact a.secret "{secret}";
}

-- The match that `redact_storage` and the files share.
unfoldable pub redact_upload : Option Upload → Option Upload
unfolding redact_s3 redact_gcp redact_azure redact_alioss
redact_upload none = none
redact_upload (some (s3 u)) = some (s3 (redact_s3 u))
redact_upload (some (gcp g)) = some (gcp (redact_gcp g))
redact_upload (some (azure a)) = some (azure (redact_azure a))
redact_upload (some (ali_oss a)) = some (ali_oss (redact_alioss a))

unfoldable pub redact_storage : Option StorageConfig → Option StorageConfig
unfolding redact_upload
redact_storage none = none
redact_storage (some s) = some (record s { provider = redact_upload s.provider })

unfoldable pub redact_output : Output → Output
unfolding redact_storage
redact_output o = record o { storage = redact_storage o.storage }

unfoldable pub redact_encoded_output : EncodedFileOutput → EncodedFileOutput
unfolding redact_upload
redact_encoded_output f = record f { output = redact_upload f.output }

unfoldable pub redact_direct_output : DirectFileOutput → DirectFileOutput
unfolding redact_upload
redact_direct_output f = record f { output = redact_upload f.output }

unfoldable pub redact_segments : SegmentedFileOutput → SegmentedFileOutput
unfolding redact_upload
redact_segments o = record o { output = redact_upload o.output }

unfoldable pub redact_images : ImageOutput → ImageOutput
unfolding redact_upload
redact_images o = record o { output = redact_upload o.output }

-- `redact_encoded` for a room composite, whose `file_mut` and `segments_mut` give the deprecated output.
unfoldable pub redact_room_composite : RoomCompositeEgressRequest → RoomCompositeEgressRequest
unfolding redact_encoded_output redact_segments redact_images
redact_room_composite r = record r {
  file_outputs = map redact_encoded_output r.file_outputs;
  segment_outputs = map redact_segments r.segment_outputs;
  image_outputs = map redact_images r.image_outputs;
  output = redact_deprecated r.output;
}
  where
    redact_deprecated : Option CompositeOutput → Option CompositeOutput
    redact_deprecated none = none
    redact_deprecated (some (composite_file f)) = some (composite_file (redact_encoded_output f))
    redact_deprecated (some composite_stream) = some composite_stream
    redact_deprecated (some (composite_segments o)) = some (composite_segments (redact_segments o))

-- `redact_encoded` for the requests whose `file_mut` and `segments_mut` are none.
unfoldable pub redact_participant : ParticipantEgressRequest → ParticipantEgressRequest
unfolding redact_encoded_output redact_segments redact_images
redact_participant r = record r {
  file_outputs = map redact_encoded_output r.file_outputs;
  segment_outputs = map redact_segments r.segment_outputs;
  image_outputs = map redact_images r.image_outputs;
}

unfoldable pub redact_track_composite : TrackCompositeEgressRequest → TrackCompositeEgressRequest
unfolding redact_encoded_output redact_segments redact_images
redact_track_composite r = record r {
  file_outputs = map redact_encoded_output r.file_outputs;
  segment_outputs = map redact_segments r.segment_outputs;
  image_outputs = map redact_images r.image_outputs;
}

unfoldable pub redact_direct : TrackEgressRequest → TrackEgressRequest
unfolding redact_direct_output
redact_direct r = record r { output = redact_file r.output }
  where
    redact_file : Option DirectFileOutput → Option DirectFileOutput
    redact_file none = none
    redact_file (some f) = some (redact_direct_output f)

unfoldable pub redact_start : StartEgressRequest → StartEgressRequest
unfolding redact_storage redact_output
redact_start r = record r {
  storage = redact_storage r.storage;
  outputs = map redact_output r.outputs;
}

-- The request of the reports.
unfoldable pub request_info : Request → Option Request
unfolding redact_room_composite redact_participant redact_track_composite redact_direct redact_start
request_info (room_composite r) = some (room_composite (redact_room_composite r))
request_info (track r) = some (track (redact_direct r))
request_info (participant r) = some (participant (redact_participant r))
request_info (track_composite r) = some (track_composite (redact_track_composite r))
request_info (egress r) = some (egress (redact_start r))
request_info unsupported = none
