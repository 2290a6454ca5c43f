-- ===== src/Examples/AgentRuns.antt =====
-- Tests and instances of the theorems on agents (crates/lk-server/src/agent.rs).
use livekit_rs_voice.Base.{
  ◌≡◌, refl, true, none, some, [], Option, String, any_of, get, insert, values,
}
use livekit_rs_voice.Proto.{RoomInfo}
use livekit_rs_voice.Room.{room_to_proto, new_room}
use livekit_rs_voice.Agent.{
  Store, write, Worker, Job, AgentDispatch, AgentManager, new_manager, set_availability_responder,
  register_worker, workers_for, create_dispatch, track_job, add_job,
}
use livekit_rs_voice.Agent.Dispatches.{HasDispatches, create_dispatch_lem}
use livekit_rs_voice.Agent.Offers.{AgentClaims, AvailabilityResponse, room_job}
use livekit_rs_voice.Agent.Termination.{
  ends, is_ended, terminate_room_jobs, terminate_room_jobs_lem,
}
use livekit_rs_voice.Examples.Data.{lobby}

abbrev pub scribe_worker : Worker
scribe_worker = record {
  worker_id = "AW_1";
  api_key = "key";
  agent_name = "scribe";
  job_type = 0;
  status = 0;
  load = 0;
  job_count = 0;
  ping_interval = 10;
  is_available = true;
  tx = some 4;
  availability = none;
}

abbrev pub store : Store
store a = scribe_worker

abbrev room : RoomInfo
room = room_to_proto lobby

abbrev created : AgentManager × AgentDispatch
created =
    create_dispatch "AD_1" 5000000 "scribe" "lobby" "" "" [] (register_worker store 7 new_manager)

abbrev manager : AgentManager
manager = created.0

abbrev job : Job
job = room_job "AJ_1" 6000000 "scribe" room "" "" [] (some "AD_1")

-- A stand-in for the signature.
abbrev encode : AgentClaims → String → Option String
encode claims secret = some claims.sub

registered-HasDispatches : HasDispatches (register_worker store 7 new_manager)
unfolding register_worker get
registered-HasDispatches = record { distinct = tt; keyed = λ s d h. cc; live = λ s d h. cc }

manager-HasDispatches : HasDispatches manager
manager-HasDispatches =
    (create_dispatch_lem "AD_1" 5000000 "scribe" "lobby" "" "" []
      (register_worker store 7 new_manager) "AD_1" registered-HasDispatches).1

-- The worker has been asked on channel 1, and does not answer in time.
abbrev waiting : Store
waiting = write 7 (set_availability_responder 1 scribe_worker) store

abbrev response : AvailabilityResponse
response = record {
  available = true;
  participant_identity = "";
  participant_name = "";
  participant_metadata = "";
  participant_attributes = [];
}

terminate_room_jobs_lem_example :
    any_of (ends 4 "AJ_1") (terminate_room_jobs store "lobby" (track_job job manager))
    ≡ any_of
        (λ d. any_of (is_ended store (track_job job manager) "lobby" 4 "AJ_1") d.jobs)
        (values (track_job job manager).dispatches)
terminate_room_jobs_lem_example =
    terminate_room_jobs_lem store "lobby" (track_job job manager) 4 "AJ_1"

-- The job that was tracked is ended.
tracked_ends :
    any_of (ends 4 "AJ_1") (terminate_room_jobs store "lobby" (track_job job manager)) ≡ true
unfolding create_dispatch insert get room_job register_worker track_job terminate_room_jobs
    room_to_proto new_room add_job workers_for
tracked_ends = refl
