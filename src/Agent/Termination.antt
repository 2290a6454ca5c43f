-- ===== src/Agent/Termination.antt =====
-- crates/lk-server/src/agent.rs, `terminate_room_jobs`: what a room that closes tells the workers.
use livekit_rs_voice.Base.{
  ℕ, ◌≡◌, refl, ◌∙◌, Bool, false, ◌&&◌, List, [], ◌∷◌, ◌++◌, Option, none, some, String, str_eq,
  arith, any_of, any_of-append, select, Map, values, get, unwrap_or, ◌==◌,
}
use livekit_rs_voice.Proto.{RoomInfo}
use livekit_rs_voice.Agent.{
  Store, Job, AgentDispatch, AgentManager, ServerMessage, availability_request, assignment,
  termination, pong, send_worker, workers_for, track_job,
}
use livekit_rs_voice.Agent.Offers.{Finished, assigned, failed, record_job, room_job}

abbrev pub is_room : String → Option RoomInfo → Bool
is_room room none = false
is_room room (some r) = str_eq r.name room

abbrev pub is_in : String → Job → Bool
is_in room j = is_room room j.room

-- The jobs of the room under every dispatch.
unfoldable pub room_jobs : String → List AgentDispatch → List Job
room_jobs room [] = []
room_jobs room (d ∷ ds) = select (is_in room) d.jobs ++ room_jobs room ds

unfoldable pub terminate_job : Store → Job → List ℕ → List (ℕ × ServerMessage)
unfolding send_worker
terminate_job store job [] = []
terminate_job store job (a ∷ workers) =
    send_worker (termination job.id) (store a) ++ terminate_job store job workers

unfoldable pub terminate_jobs : Store → AgentManager → List Job → List (ℕ × ServerMessage)
unfolding terminate_job
terminate_jobs store m [] = []
terminate_jobs store m (job ∷ jobs) =
    terminate_job store job (workers_for job.agent_name m) ++ terminate_jobs store m jobs

unfoldable pub terminate_room_jobs : Store → String → AgentManager → List (ℕ × ServerMessage)
unfolding terminate_jobs room_jobs
terminate_room_jobs store room m = terminate_jobs store m (room_jobs room (values m.dispatches))

-- The message ends the job, on the channel.
abbrev pub ends : ℕ → String → ℕ × ServerMessage → Bool
ends c id (tx, termination job) = tx == c && str_eq job id
ends c id (tx, availability_request j) = false
ends c id (tx, assignment j token) = false
ends c id (tx, pong last now) = false

abbrev pub on_channel : ℕ → Option ℕ → Bool
on_channel c none = false
on_channel c (some tx) = tx == c

-- The worker at the address listens on the channel.
abbrev pub listens : Store → ℕ → ℕ → Bool
listens store c a = on_channel c (store a).tx

any_of-terminate_job :
    (store : Store) (c : ℕ) (id : String) (job : Job) (workers : List ℕ)
    → any_of (ends c id) (terminate_job store job workers)
      ≡ (any_of (listens store c) workers && str_eq job.id id)
unfolding terminate_job send_worker
any_of-terminate_job store c id job [] = refl
any_of-terminate_job store c id job (a ∷ workers) = ground (
  arith,
  any_of-append (ends c id) (send_worker (termination job.id) (store a))
      (terminate_job store job workers),
  any_of-terminate_job store c id job workers,
)

-- A job of that id whose agent has a worker on the channel.
abbrev pub is_run_on : Store → AgentManager → ℕ → String → Job → Bool
is_run_on store m c id j = any_of (listens store c) (workers_for j.agent_name m) && str_eq j.id id

any_of-terminate_jobs :
    (store : Store) (c : ℕ) (id : String) (m : AgentManager) (jobs : List Job)
    → any_of (ends c id) (terminate_jobs store m jobs) ≡ any_of (is_run_on store m c id) jobs
unfolding terminate_jobs
any_of-terminate_jobs store c id m [] = refl
any_of-terminate_jobs store c id m (job ∷ jobs) = ground (
  arith,
  any_of-append (ends c id) (terminate_job store job (workers_for job.agent_name m))
      (terminate_jobs store m jobs),
  any_of-terminate_job store c id job (workers_for job.agent_name m),
  any_of-terminate_jobs store c id m jobs,
)

any_of-select_and :
    (test keep : Job → Bool) (js : List Job)
    → any_of test (select keep js) ≡ any_of (λ j. keep j && test j) js
any_of-select_and test keep [] = refl
any_of-select_and test keep (j ∷ js) = ground (arith, any_of-select_and test keep js)

-- A dispatch records such a job of the room.
abbrev records : Store → AgentManager → String → ℕ → String → AgentDispatch → Bool
records store m room c id d = any_of (λ j. is_in room j && is_run_on store m c id j) d.jobs

any_of-room_jobs :
    (store : Store) (m : AgentManager) (room : String) (c : ℕ) (id : String)
    (ds : List AgentDispatch)
    → any_of (is_run_on store m c id) (room_jobs room ds) ≡ any_of (records store m room c id) ds
unfolding room_jobs
any_of-room_jobs store m room c id [] = refl
any_of-room_jobs store m room c id (d ∷ ds) = ground (
  arith,
  any_of-append (is_run_on store m c id) (select (is_in room) d.jobs) (room_jobs room ds),
  any_of-select_and (is_run_on store m c id) (is_in room) d.jobs,
  any_of-room_jobs store m room c id ds,
)

-- The name of the room that a job is in, if it is in one.
abbrev pub room_names : Option RoomInfo → List String
room_names none = []
room_names (some r) = r.name ∷ []

is_room-room_names :
    (room : String) (r : Option RoomInfo)
    → is_room room r ≡ any_of (λ n. str_eq n room) (room_names r)
is_room-room_names room none = refl
is_room-room_names room (some r) = ground arith

-- The job is of that id, in the room of that name, and its agent has a worker on the channel.
abbrev pub is_ended : Store → AgentManager → String → ℕ → String → Job → Bool
is_ended store m room c id j =
    any_of (λ n. str_eq n room) (room_names j.room)
    && any_of (λ a. on_channel c (store a).tx) (unwrap_or (get j.agent_name m.workers) [])
    && str_eq j.id id

records-is_ended :
    (store : Store) (m : AgentManager) (room : String) (c : ℕ) (id : String) (jobs : List Job)
    → any_of (λ j. is_in room j && is_run_on store m c id j) jobs
      ≡ any_of (is_ended store m room c id) jobs
unfolding workers_for
records-is_ended store m room c id [] = refl
records-is_ended store m room c id (j ∷ jobs) =
    ground (arith, is_room-room_names room j.room, records-is_ended store m room c id jobs)

all-is_ended :
    (store : Store) (m : AgentManager) (room : String) (c : ℕ) (id : String)
    (ds : List AgentDispatch)
    → any_of (records store m room c id) ds
      ≡ any_of (λ d. any_of (is_ended store m room c id) d.jobs) ds
all-is_ended store m room c id [] = refl
all-is_ended store m room c id (d ∷ ds) =
    ground (arith, records-is_ended store m room c id d.jobs, all-is_ended store m room c id ds)

-- A worker is told that a job ends exactly when a dispatch that is kept records a job of that id, whose
-- room has the name of the room that closes, and the worker is registered under the job's agent. A job
-- that no dispatch records, as those that the token of a join asks for, is not ended.
pub terminate_room_jobs_lem :
    (store : Store) (room : String) (m : AgentManager) (c : ℕ) (id : String)
    → any_of (ends c id) (terminate_room_jobs store room m)
      ≡ any_of (λ d. any_of (is_ended store m room c id) d.jobs) (values m.dispatches)
unfolding terminate_room_jobs
terminate_room_jobs_lem store room m c id =
    any_of-terminate_jobs store c id m (room_jobs room (values m.dispatches))
    ∙ any_of-room_jobs store m room c id (values m.dispatches)
    ∙ all-is_ended store m room c id (values m.dispatches)

-- A job that a join launches, which names no dispatch, is not recorded however its offer ends: what a
-- room that closes tells the workers is as if the job had not been launched.
pub terminate_room_jobs-unnamed :
    (store : Store) (closing : String) (outcome : Finished) (id : String) (now : ℕ)
    (agent_name : String) (room : RoomInfo) (metadata deployment : String) (attributes : Map String)
    (m : AgentManager)
    → let job = room_job id now agent_name room metadata deployment attributes none in
      terminate_room_jobs store closing (record_job outcome job m)
      ≡ terminate_room_jobs store closing m
unfolding room_job track_job
terminate_room_jobs-unnamed store closing (assigned sent) id now agent_name room metadata deployment
      attributes m =
    refl
terminate_room_jobs-unnamed store closing (failed e) id now agent_name room metadata deployment
      attributes m =
    refl
