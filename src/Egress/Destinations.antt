-- ===== src/Egress/Destinations.antt =====
-- crates/lk-egress/src/server.rs: where the file of a request is uploaded.
use livekit_rs_voice.Base.{
  Bool, not, ◌&&◌, [], Option, none, some, String, str_eq, if◌then◌else◌, is_some,
}
use livekit_rs_voice.Egress.{
  S3Upload, GcpUpload, AzureBlobUpload, Upload, s3, gcp, azure, ali_oss, S3Target, GcpTarget,
  AzureTarget, Destination, local, to_s3, to_gcp, to_azure, EgressConfig, Attempt, ok, err,
}

abbrev pub or_default : String → String → String
or_default asked default = if str_eq asked "" then default else asked

-- The base credentials of the recorder are for a role that it assumes for who gives none.
abbrev pub uses_base_key : S3Upload → EgressConfig → Bool
uses_base_key u conf =
    not (str_eq (or_default u.assume_role_arn conf.s3_assume_role_arn) "") && str_eq u.access_key ""

unfoldable pub s3_target : S3Upload → EgressConfig → S3Target
s3_target u conf = record {
  access_key = if uses_base_key u conf then conf.s3_assume_role_key else u.access_key;
  secret = if uses_base_key u conf then conf.s3_assume_role_secret else u.secret;
  session_token = u.session_token;
  region = u.region;
  endpoint = u.endpoint;
  bucket = u.bucket;
  force_path_style = u.force_path_style;
  metadata = u.metadata;
  tagging = u.tagging;
  content_disposition = u.content_disposition;
  assume_role_arn = or_default u.assume_role_arn conf.s3_assume_role_arn;
  assume_role_external_id = or_default u.assume_role_external_id conf.s3_assume_role_external_id;
}

unfoldable pub s3_destination : S3Upload → EgressConfig → Attempt Destination
unfolding s3_target
s3_destination u conf =
    if is_some u.proxy
    then err "s3 proxy is not supported on the voice-only recorder"
    else ok (to_s3 (s3_target u conf))

unfoldable pub gcp_destination : GcpUpload → Attempt Destination
gcp_destination g =
    if is_some g.proxy
    then err "gcp proxy is not supported on the voice-only recorder"
    else ok (
        to_gcp (record {
          credentials = g.credentials;
          bucket = g.bucket;
          metadata = [];
          tagging = "";
          content_disposition = "";
        }))

unfoldable pub azure_destination : AzureBlobUpload → Destination
azure_destination a = to_azure (record {
  account_name = a.account_name;
  account_key = a.account_key;
  container_name = a.container_name;
  metadata = [];
  tagging = "";
  content_disposition = "";
})

abbrev pub unsupported_alioss : Attempt Destination
unsupported_alioss = err "aliOSS upload is not supported on the voice-only recorder"

-- The default of the configuration, of the first kind that it has. For S3 the source repeats
-- `s3_destination`.
abbrev pub first_default :
    Option S3Upload
    → Option GcpTarget
    → Option AzureTarget
    → Bool
    → EgressConfig
    → Attempt Destination
first_default (some u) g a has_alioss conf = s3_destination u conf
first_default none (some g) a has_alioss conf = ok (to_gcp g)
first_default none none (some a) has_alioss conf = ok (to_azure a)
first_default none none none has_alioss conf = if has_alioss then unsupported_alioss else ok local

unfoldable pub conf_default : EgressConfig → Attempt Destination
unfolding s3_destination
conf_default conf =
    first_default conf.s3_default conf.gcp_default conf.azure_default (is_some conf.alioss_default)
      conf

-- The upload that a request asks for, else the default. `encoded_spec`, `direct_destination` and
-- `storage_destination` each spell this out.
unfoldable pub upload_destination : Option Upload → EgressConfig → Attempt Destination
unfolding conf_default s3_destination gcp_destination azure_destination
upload_destination none conf = conf_default conf
upload_destination (some (s3 u)) conf = s3_destination u conf
upload_destination (some (gcp g)) conf = gcp_destination g
upload_destination (some (azure a)) conf = ok (azure_destination a)
upload_destination (some (ali_oss a)) conf = unsupported_alioss
