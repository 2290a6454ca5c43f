-- ===== src/Agent/Dispatches.antt =====
-- crates/lk-server/src/agent.rs: the dispatches that are kept, and the jobs recorded under them.
use livekit_rs_voice.Base.{
  ℕ, ◌≡◌, refl, sym, subst, ◌∙◌, ◌≢◌, insert-insert, true, false, List, [], ◌∷◌, ◌++◌, none, some,
  String, str_eq, eq_iff, eq_refl, arith, if◌then◌else◌, is_some, any_of, any_of-append, Map, get,
  insert, remove, Distinct, get-insert, get-remove, insert-Distinct, remove-Distinct, Option-cases,
  inl, inr,
}
use livekit_rs_voice.Agent.{
  Job, AgentDispatch, AgentManager, create_dispatch, delete_dispatch, get_dispatch, track_job,
  add_job, is_job,
}

-- Dispatches are kept under their ids, and none that is kept is deleted.
pub record HasDispatches (m : AgentManager) : Type 0 where
  pub distinct : Distinct m.dispatches
  pub keyed : (id : String) (d : AgentDispatch) → get id m.dispatches ≡ some d → d.id ≡ id
  pub live : (id : String) (d : AgentDispatch) → get id m.dispatches ≡ some d → d.deleted_at ≡ none

-- A dispatch that is created can be got, the others are as they were, and the manager stays in order.
pub create_dispatch_lem :
    (id : String) (now : ℕ) (agent_name room metadata deployment : String) (attributes : Map String)
    (m : AgentManager) (other : String)
    → HasDispatches m
    → let (m', d) = create_dispatch id now agent_name room metadata deployment attributes m in
      (get_dispatch other m' ≡ (if str_eq id other then some d else get_dispatch other m))
      × HasDispatches m'
unfolding create_dispatch get_dispatch
create_dispatch_lem id now agent_name room metadata deployment attributes m other ok =
    let (m', d) = create_dispatch id now agent_name room metadata deployment attributes m in
    (
      ground (arith, get-insert id other d m.dispatches),
      record {
        distinct = insert-Distinct id d m.dispatches ok.distinct;
        keyed =
            λ k e h. ground (arith, h, get-insert id k d m.dispatches, eq_iff id k, ok.keyed k e);
        live = λ k e h. ground (arith, h, get-insert id k d m.dispatches, ok.live k e);
      },
    )

remove-HasDispatches :
    (id : String) (m : AgentManager)
    → HasDispatches m
    → HasDispatches (record m { dispatches = remove id m.dispatches })
remove-HasDispatches id m ok = record {
  distinct = remove-Distinct id m.dispatches ok.distinct;
  keyed = λ k e h. ground (arith, h, get-remove id k m.dispatches, ok.keyed k e);
  live = λ k e h. ground (arith, h, get-remove id k m.dispatches, ok.live k e);
}

delete_dispatch_removes :
    (id : String) (now : ℕ) (m : AgentManager)
    → (delete_dispatch id now m).0 ≡ record m { dispatches = remove id m.dispatches }
unfolding delete_dispatch
delete_dispatch_removes id now m = ground arith

deleted_found :
    (id : String) (now : ℕ) (m : AgentManager)
    → HasDispatches m
    → is_some (delete_dispatch id now m).1 ≡ is_some (get_dispatch id m)
unfolding delete_dispatch get_dispatch
deleted_found id now m ok = elim (Option-cases (get id m.dispatches)) [
  | inl e ↦ ground (arith, e)
  | inr (d, e) ↦ ground (arith, e, ok.live id d e)
]

-- A dispatch that is deleted is given back with the time, once: it is not got, and a second delete
-- finds nothing. The others are as they were, and the manager stays in order.
pub delete_dispatch_lem :
    (id : String) (now later : ℕ) (m : AgentManager) (other : String)
    → HasDispatches m
    → let (m', gone) = delete_dispatch id now m in
      (is_some gone ≡ is_some (get_dispatch id m))
      × (get_dispatch other m' ≡ (if str_eq id other then none else get_dispatch other m))
      × ((delete_dispatch id later m').1 ≡ none)
      × HasDispatches m'
unfolding delete_dispatch get_dispatch
delete_dispatch_lem id now later m other ok = (
  ground (arith, deleted_found id now m ok),
  ground (arith, get-remove id other m.dispatches),
  ground (arith, get-remove id id m.dispatches, eq_refl id),
  subst HasDispatches (sym (delete_dispatch_removes id now m)) (remove-HasDispatches id m ok),
)

-- Jobs recorded under a dispatch have ids of their own.
abbrev pub HaveOwnIds : List Job → Type 0
HaveOwnIds [] = Unit {0}
HaveOwnIds (j ∷ js) = (any_of (is_job j.id) js ≡ false) × HaveOwnIds js

snoc-HaveOwnIds :
    (job : Job) (js : List Job)
    → any_of (is_job job.id) js ≡ false
    → HaveOwnIds js
    → HaveOwnIds (js ++ job ∷ [])
unfolding is_job
snoc-HaveOwnIds job [] h k = (refl, tt)
snoc-HaveOwnIds job (j ∷ js) h k = ground (
  arith,
  any_of-append (is_job j.id) js (job ∷ []),
  eq_iff j.id job.id,
  eq_iff job.id j.id,
  snoc-HaveOwnIds job js,
)

add_job_lem :
    (job : Job) (d : AgentDispatch)
    → HaveOwnIds d.jobs
    → HaveOwnIds (add_job job d).jobs
      × (any_of (is_job job.id) (add_job job d).jobs ≡ true)
      × (add_job job (add_job job d) ≡ add_job job d)
unfolding add_job is_job
add_job_lem job d own = ground (
  arith,
  snoc-HaveOwnIds job d.jobs,
  any_of-append (is_job job.id) d.jobs (job ∷ []),
  eq_refl job.id,
)

track_job_found :
    (job : Job) (m : AgentManager) (d : AgentDispatch)
    → str_eq job.dispatch_id "" ≡ false
    → get job.dispatch_id m.dispatches ≡ some d
    → track_job job m
      ≡ record m { dispatches = insert job.dispatch_id (add_job job d) m.dispatches }
unfolding track_job
track_job_found job m d named found = rw (named, found) refl

-- A job that names a dispatch that is kept is recorded under it, once however often it is tracked,
-- and the jobs there keep ids of their own.
pub track_job_lem :
    (job : Job) (m : AgentManager) (d : AgentDispatch)
    → job.dispatch_id ≢ ""
    → get job.dispatch_id m.dispatches ≡ some d
    → HaveOwnIds d.jobs
    → let m' = track_job job m in
      (get job.dispatch_id m'.dispatches ≡ some (add_job job d))
      × HaveOwnIds (add_job job d).jobs
      × (any_of (is_job job.id) (add_job job d).jobs ≡ true)
      × (track_job job m' ≡ m')
track_job_lem job m d named found own =
    let named' : str_eq job.dispatch_id "" ≡ false =
      ground (arith, eq_iff job.dispatch_id "", named) in
    let m' : AgentManager = record m {
      dispatches = insert job.dispatch_id (add_job job d) m.dispatches;
    } in
    let once : track_job job m ≡ m' = track_job_found job m d named' found in
    let at_id : get job.dispatch_id m'.dispatches ≡ some (add_job job d) = ground (
      arith,
      get-insert job.dispatch_id job.dispatch_id (add_job job d) m.dispatches,
      eq_refl job.dispatch_id,
    ) in
    let (own', there, same) = add_job_lem job d own in
    let twice : track_job job m' ≡ m' =
      track_job_found job m' (add_job job d) named' at_id
      ∙ ground (arith, same, insert-insert job.dispatch_id (add_job job d) m.dispatches) in
    subst
      (λ x.
        (get job.dispatch_id x.dispatches ≡ some (add_job job d))
        × HaveOwnIds (add_job job d).jobs
        × (any_of (is_job job.id) (add_job job d).jobs ≡ true)
        × (track_job job x ≡ x))
      (sym once) (at_id, own', there, twice)
