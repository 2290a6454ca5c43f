-- ===== src/Agent/Sessions.antt =====
-- crates/lk-server/src/agent.rs, `run_worker_session`: the messages of one worker, from its connection to
-- its end. Frames and their decoding are left out.
use livekit_rs_voice.Base.{
  ℕ, ◌/◌, true, List, [], ◌∷◌, ◌++◌, Option, none, some, String, if◌then◌else◌, ◌==◌,
}
use livekit_rs_voice.Agent.{
  Store, write, Worker, AgentManager, ServerMessage, pong, send_worker, fulfill_availability,
  register_worker, unregister_worker,
}

pub data WorkerMessage : Type 0 where
  register : String → ℕ → ℕ → WorkerMessage
  availability : WorkerMessage
  update_worker : Option ℕ → ℕ → ℕ → WorkerMessage
  ping : ℕ → WorkerMessage
  other : WorkerMessage

-- A session: the id drawn for it, the key of its token, its channel, and the worker that it has
-- registered last.
pub record WorkerSession : Type 0 where
  pub worker_id : String
  pub api_key : String
  pub tx : ℕ
  pub worker : Option ℕ

-- The session, the store of the workers and the manager, with what has been sent.
pub record Serving : Type 0 where
  pub session : WorkerSession
  pub store : Store
  pub manager : AgentManager
  pub sent : List (ℕ × ServerMessage)

abbrev pub ws_available : ℕ
ws_available = 0

unfoldable pub registered_worker : WorkerSession → String → ℕ → ℕ → Worker
registered_worker session agent_name job_type ping_interval = record {
  worker_id = session.worker_id;
  api_key = session.api_key;
  agent_name = agent_name;
  job_type = job_type;
  status = 0;
  load = 0;
  job_count = 0;
  ping_interval = if ping_interval == 0 then 10 else ping_interval;
  is_available = true;
  tx = some session.tx;
  availability = none;
}

unfoldable pub with_status : Option ℕ → Worker → Worker
with_status none w = w
with_status (some status) w = record w { is_available = status == ws_available; status = status }

-- A handler that writes the worker of the session, if it has one.
abbrev pub update : (Worker → Worker) → Serving → Serving
update f s = elim s.session.worker [
  | none ↦ s
  | some a ↦ record s { store = write a (f (s.store a)) s.store }
]

abbrev pub pong_to : ℕ → Serving → ℕ → List (ℕ × ServerMessage)
pong_to now s timestamp = elim s.session.worker [
  | none ↦ []
  | some a ↦ send_worker (pong timestamp (now / 1000)) (s.store a)
]

-- `fresh` is the address of the worker that a registration makes. The response to a registration goes
-- to the channel of the session directly.
unfoldable pub handle_worker_message : ℕ → ℕ → WorkerMessage → Serving → Serving
unfolding registered_worker with_status fulfill_availability register_worker
handle_worker_message now fresh (register agent_name job_type ping_interval) s =
    let store =
      write fresh (registered_worker s.session agent_name job_type ping_interval) s.store in
    record s {
      session = record (s.session) { worker = some fresh };
      store = store;
      manager = register_worker store fresh s.manager;
    }
handle_worker_message now fresh availability s = update (λ w. (fulfill_availability w).0) s
handle_worker_message now fresh (update_worker status load job_count) s =
    update (λ w. record (with_status status w) { load = load; job_count = job_count }) s
handle_worker_message now fresh (ping timestamp) s = record s {
  sent = s.sent ++ pong_to now s timestamp;
}
handle_worker_message now fresh other s = s

-- The messages, each with the time and the address for a worker that it makes.
unfoldable pub serve : List (ℕ × ℕ × WorkerMessage) → Serving → Serving
serve [] s = s
serve ((now, fresh, msg) ∷ msgs) s = serve msgs (handle_worker_message now fresh msg s)

unfoldable pub end_session : Serving → Serving
unfolding unregister_worker
end_session s = elim s.session.worker [
  | none ↦ s
  | some a ↦ record s { manager = unregister_worker s.store (s.store a).worker_id s.manager }
]
