-- ===== src/Examples/EgressRuns.antt =====
-- Runs of the recorder.
use livekit_rs_voice.Base.{
  ◌+◌, ◌≡◌, refl, true, false, List, length, [], ◌∷◌, none, some, arith, get, any_of, str_eq,
}
use livekit_rs_voice.SipIo.EgressIo.{no_egress, handle_all, fired, starts, ends_egress}
use livekit_rs_voice.Egress.{
  composite_file, S3Upload, s3, EncodedFileOutput, Request, room_composite, track_composite,
  EgressConfig,
}
use livekit_rs_voice.Egress.Redact.{request_info}
use livekit_rs_voice.Egress.Specs.{rec_spec, encoded_spec, encoded_format}
use livekit_rs_voice.Egress.Destinations.{upload_destination, s3_destination}
use livekit_rs_voice.Egress.Recorder.{
  Handlers, StartRequest, start_egress, check_start, after_check, admitted, accept_job, run_job,
  uploaded,
}
use livekit_rs_voice.Egress.Secrecy.{is_placeholder, leaves_secret}
use livekit_rs_voice.Egress.Recording.{is_started, start_egress-run_job}
use livekit_rs_voice.Egress.Capacity.{
  RecorderStep, checks, takes_up, Node, recorder_steps, recorder_step, most_waiting, FitsCpus,
  recorder_steps-FitsCpus,
}

abbrev bucket : S3Upload
bucket = record {
  access_key = "AK";
  secret = "s3cret";
  session_token = "";
  region = "eu";
  endpoint = "";
  bucket = "calls";
  force_path_style = false;
  metadata = [];
  tagging = "";
  content_disposition = "";
  assume_role_arn = "";
  assume_role_external_id = "";
  proxy = none;
}

abbrev file : EncodedFileOutput
file = record { file_type = 3; filepath = "calls/1"; output = some (s3 bucket) }

abbrev whole_room : Request
whole_room = room_composite (record {
  room_name = "r";
  output = none;
  file_outputs = file ∷ [];
  segment_outputs = [];
  image_outputs = [];
  audio_bitrate = none;
})

abbrev one_track : Request
one_track = track_composite (record {
  room_name = "r";
  output = some (composite_file file);
  file_outputs = [];
  segment_outputs = [];
  image_outputs = [];
})

-- A job costs a quarter of a CPU.
abbrev conf : EgressConfig
conf = record {
  s3_default = none;
  gcp_default = none;
  azure_default = none;
  alioss_default = none;
  room_composite_cpu_cost = some (record { numerator = 1; denominator = 4 });
  s3_assume_role_key = "base";
  s3_assume_role_secret = "base-secret";
  s3_assume_role_arn = "";
  s3_assume_role_external_id = "";
}

abbrev idle : Handlers
idle = record { active = []; stops = []; infos = []; stop_tasks = []; reports = [] }

abbrev asked : StartRequest
asked = record { egress_id = "EG_1"; request = whole_room }

abbrev asked_again : StartRequest
asked_again = record { egress_id = "EG_2"; request = one_track }

-- The secret of the track composite is reported, that of the room composite is not.
who_shows : (leaves_secret one_track ≡ true) × (leaves_secret whole_room ≡ false)
unfolding is_placeholder
who_shows = (refl, refl)

accepts : is_started (start_egress conf 1 true true asked idle).1 ≡ true
unfolding start_egress check_start after_check admitted accept_job rec_spec encoded_spec
    encoded_format upload_destination s3_destination request_info
accepts = refl

nothing_known :
    (get "EG_1" (handle_all [] (no_egress [])).store ≡ none)
    × (any_of (λ i. str_eq i "EG_1") (handle_all [] (no_egress [])).ended ≡ false)
unfolding handle_all get
nothing_known = (refl, refl)

start_egress-run_job_example :
    let s' = run_job true "EG_1" uploaded (start_egress conf 1 true true asked idle).0 in
    let io = handle_all [] (no_egress []) in
    let io' = handle_all s'.reports (no_egress []) in
    (fired (starts "EG_1") io' ≡ fired (starts "EG_1") io + 1)
    × (fired (ends_egress "EG_1") io' ≡ fired (ends_egress "EG_1") io + 1)
    × (get "EG_1" io'.store ≡ some (record { egress_id = "EG_1"; status = 3 }))
    × (s'.active ≡ [])
start_egress-run_job_example =
    start_egress-run_job conf 1 asked uploaded idle (no_egress []) accepts refl nothing_known.0
      nothing_known.1

-- Two requests on one CPU of which each job costs all: the second is checked before the first is taken up.
abbrev full : EgressConfig
full = record conf { room_composite_cpu_cost = some (record { numerator = 1; denominator = 1 }) }

abbrev overlap : List RecorderStep
overlap = checks asked ∷ checks asked_again ∷ takes_up true true 0 ∷ takes_up false true 0 ∷ []

abbrev idle_node : Node
idle_node = record { handlers = idle; waiting = [] }

overlaps :
    (length (recorder_steps full 1 overlap idle_node).handlers.active ≡ 2)
    × (most_waiting full 1 overlap idle_node ≡ 1)
unfolding recorder_steps recorder_step most_waiting check_start after_check admitted accept_job
    rec_spec encoded_spec encoded_format upload_destination s3_destination request_info
overlaps = (refl, refl)

recorder_steps-FitsCpus_example :
    let after = recorder_steps full 1 overlap idle_node in
    FitsCpus full 1
      (most_waiting full 1 overlap idle_node)
      (length after.handlers.active + length after.waiting)
recorder_steps-FitsCpus_example = recorder_steps-FitsCpus full 1 overlap idle (omega arith)
