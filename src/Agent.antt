-- ===== src/Agent.antt =====
-- crates/lk-server/src/agent.rs: the agent workers, the jobs that they are offered and the dispatches
-- that ask for them. Workers are shared objects, held by address and standing in a store.
pub mod Workers
pub mod Dispatches
pub mod Offers
pub mod Termination
pub mod Sessions
use livekit_rs_voice.Base.{
  ℕ, suc, ◌+◌, ◌*◌, ◌/◌, Bool, true, false, not, ◌&&◌, List, [], ◌∷◌, ◌++◌, map, Option, none, some,
  String, str_eq, ◌==◌, if◌then◌else◌, is_some, unwrap_or, select, any_of, length, get_elem?, Map,
  get, insert, remove, values,
}
use livekit_rs_voice.Core.{unix_seconds}
use livekit_rs_voice.Proto.{RoomInfo}

pub record Worker : Type 0 where
  pub worker_id : String
  pub api_key : String
  pub agent_name : String
  pub job_type : ℕ
  pub status : ℕ
  pub load : ℕ
  pub job_count : ℕ
  pub ping_interval : ℕ
  pub is_available : Bool
  pub tx : Option ℕ
  pub availability : Option ℕ

-- The objects behind the `Arc<Worker>`s.
abbrev pub Store : Type 0
Store = ℕ → Worker

abbrev pub write : ℕ → Worker → Store → Store
write a w store b = if a == b then w else store b

pub record Job : Type 0 where
  pub id : String
  pub dispatch_id : String
  pub job_type : ℕ
  pub room : Option RoomInfo
  pub metadata : String
  pub agent_name : String
  pub status : ℕ
  pub updated_at : ℕ
  pub deployment : String
  pub attributes : Map String

pub record AgentDispatch : Type 0 where
  pub id : String
  pub agent_name : String
  pub room : String
  pub metadata : String
  pub deployment : String
  pub attributes : Map String
  pub created_at : ℕ
  pub deleted_at : Option ℕ
  pub jobs : List Job

pub record AgentManager : Type 0 where
  pub workers : Map (List ℕ)
  pub dispatches : Map AgentDispatch

abbrev pub new_manager : AgentManager
new_manager = record { workers = []; dispatches = [] }

-- What a worker is sent.
pub data ServerMessage : Type 0 where
  availability_request : Job → ServerMessage
  assignment : Job → String → ServerMessage
  termination : String → ServerMessage
  pong : ℕ → ℕ → ServerMessage

-- Worker::send hands the message to the sender of the worker, if it has one; the channel may refuse it.
unfoldable pub send_worker : ServerMessage → Worker → List (ℕ × ServerMessage)
send_worker msg w = elim w.tx [ none ↦ [] | some tx ↦ (tx, msg) ∷ [] ]

unfoldable pub set_availability_responder : ℕ → Worker → Worker
set_availability_responder tx w = record w { availability = some tx }

-- The responder that the answer goes to, if there is one, is taken.
unfoldable pub fulfill_availability : Worker → Worker × Option ℕ
fulfill_availability w = (record w { availability = none }, w.availability)

unfoldable pub register_worker : Store → ℕ → AgentManager → AgentManager
register_worker store a m = record m {
  workers =
      insert (store a).agent_name (unwrap_or (get (store a).agent_name m.workers) [] ++ a ∷ [])
        m.workers;
}

abbrev pub is_other : Store → String → ℕ → Bool
is_other store worker_id a = not (str_eq (store a).worker_id worker_id)

-- values_mut() with retain(), then retain() of the lists that are not empty.
abbrev pub keep_list : String → List ℕ → Map (List ℕ) → Map (List ℕ)
keep_list name [] rest = rest
keep_list name (a ∷ list) rest = (name, a ∷ list) ∷ rest

unfoldable pub unregister_from : Store → String → Map (List ℕ) → Map (List ℕ)
unregister_from store worker_id [] = []
unregister_from store worker_id ((name, list) ∷ rest) =
    keep_list name (select (is_other store worker_id) list) (unregister_from store worker_id rest)

unfoldable pub unregister_worker : Store → String → AgentManager → AgentManager
unregister_worker store worker_id m = record m {
  workers = unregister_from store worker_id m.workers;
}

unfoldable pub workers_for : String → AgentManager → List ℕ
workers_for agent_name m = unwrap_or (get agent_name m.workers) []

-- The choice among the available workers; `draw` gives the random index, below their number.
abbrev pub choose : (ℕ → ℕ) → List ℕ → Option ℕ
choose draw [] = none
choose draw (a ∷ rest) = get_elem? (a ∷ rest) (draw (length (a ∷ rest)))

unfoldable pub pick_worker : Store → (ℕ → ℕ) → List ℕ → Option ℕ
pick_worker store draw workers = choose draw (select (λ a. (store a).is_available) workers)

unfoldable pub is_job : String → Job → Bool
is_job id j = str_eq j.id id

unfoldable pub add_job : Job → AgentDispatch → AgentDispatch
unfolding is_job
add_job job d = if any_of (is_job job.id) d.jobs then d else record d { jobs = d.jobs ++ job ∷ [] }

unfoldable pub track_job : Job → AgentManager → AgentManager
unfolding add_job
track_job job m = if str_eq job.dispatch_id "" then m else elim (get job.dispatch_id m.dispatches) [
  | none ↦ m
  | some d ↦ record m { dispatches = insert job.dispatch_id (add_job job d) m.dispatches }
]

-- `id` is the fresh id that `new_dispatch_id` draws.
unfoldable pub create_dispatch :
    String
    → ℕ
    → String
    → String
    → String
    → String
    → Map String
    → AgentManager
    → AgentManager × AgentDispatch
create_dispatch id now agent_name room metadata deployment attributes m =
    let d : AgentDispatch = record {
      id = id;
      agent_name = agent_name;
      room = room;
      metadata = metadata;
      deployment = deployment;
      attributes = attributes;
      created_at = unix_seconds now;
      deleted_at = none;
      jobs = [];
    } in
    (record m { dispatches = insert id d m.dispatches }, d)

unfoldable pub delete_dispatch : String → ℕ → AgentManager → AgentManager × Option AgentDispatch
delete_dispatch id now m = elim (get id m.dispatches) [
  | none ↦ (record m { dispatches = remove id m.dispatches }, none)
  | some d ↦ (
    record m { dispatches = remove id m.dispatches },
    some (record d { deleted_at = some (unix_seconds now) }),
  )
]

abbrev pub is_live_in : String → AgentDispatch → Bool
is_live_in room d = str_eq d.room room && not (is_some d.deleted_at)

unfoldable pub list_dispatches : String → AgentManager → List AgentDispatch
list_dispatches room m = select (is_live_in room) (values m.dispatches)

abbrev pub keep_live : AgentDispatch → Option AgentDispatch
keep_live d = if is_some d.deleted_at then none else some d

unfoldable pub get_dispatch : String → AgentManager → Option AgentDispatch
get_dispatch id m = elim (get id m.dispatches) [ none ↦ none | some d ↦ keep_live d ]
