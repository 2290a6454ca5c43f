-- ===== src/Egress.antt =====
-- crates/lk-egress: the recorder. Of the messages of protos/livekit_egress.proto, the fields that the
-- recorder reads for a file and the uploads of the other outputs; the streams' urls are left out.
pub mod Destinations
pub mod Specs
pub mod Redact
pub mod Recorder
pub mod Secrecy
pub mod Recording
pub mod Capacity
use livekit_rs_voice.Base.{ℕ, ◌≡◌, refl, Bool, true, false, List, Option, none, some, String, Map}

pub record ProxyConfig : Type 0 where
  pub url : String
  pub username : String
  pub password : String

-- S3Upload of a request, and S3Config, which has the same fields.
pub record S3Upload : Type 0 where
  pub access_key : String
  pub secret : String
  pub session_token : String
  pub region : String
  pub endpoint : String
  pub bucket : String
  pub force_path_style : Bool
  pub metadata : Map String
  pub tagging : String
  pub content_disposition : String
  pub assume_role_arn : String
  pub assume_role_external_id : String
  pub proxy : Option ProxyConfig

pub record GcpUpload : Type 0 where
  pub credentials : String
  pub bucket : String
  pub proxy : Option ProxyConfig

pub record AzureBlobUpload : Type 0 where
  pub account_name : String
  pub account_key : String
  pub container_name : String

pub record AliOssUpload : Type 0 where
  pub access_key : String
  pub secret : String
  pub bucket : String

-- The `output` of a file of either kind, and the `provider` of a StorageConfig.
pub data Upload : Type 0 where
  s3 : S3Upload → Upload
  gcp : GcpUpload → Upload
  azure : AzureBlobUpload → Upload
  ali_oss : AliOssUpload → Upload

pub record EncodedFileOutput : Type 0 where
  pub file_type : ℕ
  pub filepath : String
  pub output : Option Upload

pub record SegmentedFileOutput : Type 0 where
  pub filename_prefix : String
  pub playlist_name : String
  pub output : Option Upload

pub record ImageOutput : Type 0 where
  pub filename_prefix : String
  pub output : Option Upload

pub record DirectFileOutput : Type 0 where
  pub filepath : String
  pub output : Option Upload

pub record FileOutput : Type 0 where
  pub file_type : ℕ
  pub filepath : String

pub record StorageConfig : Type 0 where
  pub provider : Option Upload

-- The `config` of an output.
pub data OutputConfig : Type 0 where
  output_file : FileOutput → OutputConfig
  output_stream : OutputConfig
  output_segments : SegmentedFileOutput → OutputConfig
  output_images : ImageOutput → OutputConfig

pub record Output : Type 0 where
  pub config : Option OutputConfig
  pub storage : Option StorageConfig

-- The deprecated `output` of a composite.
pub data CompositeOutput : Type 0 where
  composite_file : EncodedFileOutput → CompositeOutput
  composite_stream : CompositeOutput
  composite_segments : SegmentedFileOutput → CompositeOutput

-- A bitrate below 0 counts as 0.
pub record RoomCompositeEgressRequest : Type 0 where
  pub room_name : String
  pub output : Option CompositeOutput
  pub file_outputs : List EncodedFileOutput
  pub segment_outputs : List SegmentedFileOutput
  pub image_outputs : List ImageOutput
  pub audio_bitrate : Option ℕ

pub record TrackCompositeEgressRequest : Type 0 where
  pub room_name : String
  pub output : Option CompositeOutput
  pub file_outputs : List EncodedFileOutput
  pub segment_outputs : List SegmentedFileOutput
  pub image_outputs : List ImageOutput

pub record ParticipantEgressRequest : Type 0 where
  pub room_name : String
  pub file_outputs : List EncodedFileOutput
  pub segment_outputs : List SegmentedFileOutput
  pub image_outputs : List ImageOutput

-- `output` is the file, if the track is not sent to a socket.
pub record TrackEgressRequest : Type 0 where
  pub room_name : String
  pub output : Option DirectFileOutput

pub record StartEgressRequest : Type 0 where
  pub room_name : String
  pub outputs : List Output
  pub storage : Option StorageConfig

-- The kind of a request; `unsupported` is none, a web page or a replay.
pub data Request : Type 0 where
  room_composite : RoomCompositeEgressRequest → Request
  track : TrackEgressRequest → Request
  participant : ParticipantEgressRequest → Request
  track_composite : TrackCompositeEgressRequest → Request
  egress : StartEgressRequest → Request
  unsupported : Request

-- upload.rs: where a finished file goes.
pub record S3Target : Type 0 where
  pub access_key : String
  pub secret : String
  pub session_token : String
  pub region : String
  pub endpoint : String
  pub bucket : String
  pub force_path_style : Bool
  pub metadata : Map String
  pub tagging : String
  pub content_disposition : String
  pub assume_role_arn : String
  pub assume_role_external_id : String

-- GcpConfig has the same fields.
pub record GcpTarget : Type 0 where
  pub credentials : String
  pub bucket : String
  pub metadata : Map String
  pub tagging : String
  pub content_disposition : String

-- AzureConfig has the same fields.
pub record AzureTarget : Type 0 where
  pub account_name : String
  pub account_key : String
  pub container_name : String
  pub metadata : Map String
  pub tagging : String
  pub content_disposition : String

pub data Destination : Type 0 where
  local : Destination
  to_s3 : S3Target → Destination
  to_gcp : GcpTarget → Destination
  to_azure : AzureTarget → Destination

-- An f64 that is not below 0, written as a fraction.
pub record Fraction : Type 0 where
  pub numerator : ℕ
  pub denominator : ℕ

-- Of the configuration, what the choice of a destination and the admission of jobs read.
pub record EgressConfig : Type 0 where
  pub s3_default : Option S3Upload
  pub gcp_default : Option GcpTarget
  pub azure_default : Option AzureTarget
  pub alioss_default : Option AliOssUpload
  pub room_composite_cpu_cost : Option Fraction
  pub s3_assume_role_key : String
  pub s3_assume_role_secret : String
  pub s3_assume_role_arn : String
  pub s3_assume_role_external_id : String

-- Result<A, String>.
pub data Attempt (A : Type 0) : Type 0 where
  ok : A → Attempt A
  err : String → Attempt A
