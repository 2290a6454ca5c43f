-- ===== src/Egress/Secrecy.antt =====
-- crates/lk-egress/src/redact.rs: which secrets the reports can still show.
use livekit_rs_voice.Base.{
  Bool, false, ◌||◌, List, [], ◌∷◌, Option, none, some, String, str_eq, any_of, not,
}
use livekit_rs_voice.Egress.{
  ProxyConfig, CompositeOutput, composite_file, composite_stream, composite_segments,
  SegmentedFileOutput, ImageOutput, OutputConfig, output_file, output_stream, output_segments,
  output_images, Upload, s3, gcp, azure, ali_oss, EncodedFileOutput, DirectFileOutput,
  StorageConfig, Request, room_composite, track, participant, track_composite, egress, unsupported,
}

-- What a report may show for a secret.
unfoldable pub is_placeholder : String → Bool
is_placeholder s =
    any_of (λ p. str_eq p s)
      ("" ∷ "{access_key}" ∷ "{secret}" ∷ "{external_id}" ∷ "{session_token}" ∷ "{credentials}"
        ∷ "{account_name}" ∷ "{account_key}" ∷ [])

-- Some text of the list is not a placeholder.
abbrev pub shows : List String → Bool
shows secrets = any_of (λ s. not (is_placeholder s)) secrets

abbrev pub shows_password : Option ProxyConfig → Bool
shows_password none = false
shows_password (some p) = shows (p.password ∷ [])

-- The password of the proxy that an upload goes through can be read.
abbrev pub shows_proxy : Option Upload → Bool
shows_proxy none = false
shows_proxy (some (s3 u)) = shows_password u.proxy
shows_proxy (some (gcp g)) = shows_password g.proxy
shows_proxy (some (azure a)) = false
shows_proxy (some (ali_oss a)) = false

-- A key or other secret of an upload can be read, its proxy's apart.
abbrev pub shows_keys : Option Upload → Bool
shows_keys none = false
shows_keys (some (s3 u)) =
    shows (u.access_key ∷ u.secret ∷ u.assume_role_external_id ∷ u.session_token ∷ [])
shows_keys (some (gcp g)) = shows (g.credentials ∷ [])
shows_keys (some (azure a)) = shows (a.account_name ∷ a.account_key ∷ [])
shows_keys (some (ali_oss a)) = shows (a.access_key ∷ a.secret ∷ [])

abbrev pub shows_upload : Option Upload → Bool
shows_upload u = shows_keys u || shows_proxy u

-- A test of uploads, on the deprecated output of a composite, on a storage, on what is written to a storage
-- and on the file of a track.
abbrev pub composite_with : (Option Upload → Bool) → Option CompositeOutput → Bool
composite_with test none = false
composite_with test (some (composite_file f)) = test f.output
composite_with test (some composite_stream) = false
composite_with test (some (composite_segments o)) = test o.output

abbrev pub storage_with : (Option Upload → Bool) → Option StorageConfig → Bool
storage_with test none = false
storage_with test (some s) = test s.provider

abbrev pub config_with : (Option Upload → Bool) → Option OutputConfig → Bool
config_with test none = false
config_with test (some (output_file f)) = false
config_with test (some output_stream) = false
config_with test (some (output_segments o)) = test o.output
config_with test (some (output_images o)) = test o.output

abbrev pub direct_with : (Option Upload → Bool) → Option DirectFileOutput → Bool
direct_with test none = false
direct_with test (some f) = test f.output

-- A test of uploads, on the lists of a request.
abbrev pub lists_with :
    (Option Upload → Bool)
    → List EncodedFileOutput
    → List SegmentedFileOutput
    → List ImageOutput
    → Bool
lists_with test files parts images =
    any_of (λ f. test f.output) files
    || any_of (λ o. test o.output) parts
    || any_of (λ o. test o.output) images

-- A secret of an upload of the request can be read in it.
abbrev pub shows_secret : Request → Bool
shows_secret (room_composite r) =
    composite_with shows_upload r.output
    || lists_with shows_upload r.file_outputs r.segment_outputs r.image_outputs
shows_secret (track r) = direct_with shows_upload r.output
shows_secret (participant r) =
    lists_with shows_upload r.file_outputs r.segment_outputs r.image_outputs
shows_secret (track_composite r) =
    composite_with shows_upload r.output
    || lists_with shows_upload r.file_outputs r.segment_outputs r.image_outputs
shows_secret (egress r) =
    storage_with shows_upload r.storage
    || any_of (λ o. config_with shows_upload o.config || storage_with shows_upload o.storage)
        r.outputs
shows_secret unsupported = false

abbrev pub reports_secret : Option Request → Bool
reports_secret none = false
reports_secret (some r) = shows_secret r

-- What is left in clear: the passwords of proxies, and of a track composite the deprecated output, of an output
-- with its own storage the uploads of its segments and images.
abbrev pub leaves_secret : Request → Bool
leaves_secret (room_composite r) =
    composite_with shows_proxy r.output
    || lists_with shows_proxy r.file_outputs r.segment_outputs r.image_outputs
leaves_secret (track r) = direct_with shows_proxy r.output
leaves_secret (participant r) =
    lists_with shows_proxy r.file_outputs r.segment_outputs r.image_outputs
leaves_secret (track_composite r) =
    composite_with shows_upload r.output
    || lists_with shows_proxy r.file_outputs r.segment_outputs r.image_outputs
leaves_secret (egress r) =
    storage_with shows_proxy r.storage
    || any_of (λ o. config_with shows_upload o.config || storage_with shows_proxy o.storage)
        r.outputs
leaves_secret unsupported = false
