-- ===== src/Egress/Capacity.antt =====
-- crates/lk-egress/src/server.rs: how many jobs the recorder has at a time, when requests overlap.
use native.Mathlib.Nat.{mul-le-mul_right}
use livekit_rs_voice.Base.{
  zero, suc, is_some, ℕ, ◌+◌, ◌*◌, ◌≤◌, ◌≡◌, refl, sym, subst, Bool, true, false, not, List, [],
  ◌∷◌, ◌++◌, Option, none, some, String, str_eq, arith, if◌then◌else◌, length, length-append,
  length-select-le, max, Bool-cases, inl, inr,
}
use livekit_rs_voice.Egress.{Request, EgressConfig, Attempt, ok, err}
use livekit_rs_voice.Egress.Specs.{RecSpec, rec_spec}
use livekit_rs_voice.Egress.Redact.{request_info}
use livekit_rs_voice.Egress.Recorder.{
  Handlers, job_cost, StartRequest, Checked, refuses, goes_on, check_spec, check_start, after_check,
  admitted, with_id, without_id, accept_job, JobEnd, not_connected, fails_later, uploaded, run_one,
  run_job, stop_egress,
}

-- A request that has passed its checks and has not been taken up: its id and what it asks for.
pub record Waiting : Type 0 where
  pub egress_id : String
  pub spec : RecSpec

-- The recorder and the requests that are between their checks and the rest.
pub record Node : Type 0 where
  pub handlers : Handlers
  pub waiting : List Waiting

-- What may happen in the recorder, in any order: a request is checked; the request at a place of those that
-- wait is taken up, whose topic may fail to be registered; a job runs to its end; a job is stopped.
-- Reports may fail to be stored.
pub data RecorderStep : Type 0 where
  checks : StartRequest → RecorderStep
  takes_up : Bool → Bool → ℕ → RecorderStep
  runs_job : Bool → String → JobEnd → RecorderStep
  stops_job : String → RecorderStep

abbrev pub wait : String → Checked → Node → Node
wait id (refuses e) n = n
wait id (goes_on spec) n = record n {
  waiting = n.waiting ++ record { egress_id = id; spec = spec } ∷ [];
}

-- The request at a place, and those that go on waiting.
abbrev pub take : ℕ → List Waiting → Option Waiting × List Waiting
take k [] = (none, [])
take zero (w ∷ ws) = (some w, ws)
take (suc k) (w ∷ ws) = let (taken, rest) = take k ws in (taken, w ∷ rest)

abbrev pub take_up : Bool → Bool → Option Waiting × List Waiting → Node → Node
take_up registers delivered (none, ws) n = n
take_up registers delivered (some w, ws) n = record {
  handlers = (after_check registers delivered w.egress_id (goes_on w.spec) n.handlers).0;
  waiting = ws;
}

module _ (conf : EgressConfig) (capacity : ℕ) where
  unfoldable pub recorder_step : RecorderStep → Node → Node
  unfolding check_start after_check run_job stop_egress
  recorder_step (checks req) n = wait req.egress_id (check_start conf capacity req n.handlers) n
  recorder_step (takes_up registers delivered k) n =
      take_up registers delivered (take k n.waiting) n
  recorder_step (runs_job delivered id end) n = record n {
    handlers = run_job delivered id end n.handlers;
  }
  recorder_step (stops_job id) n = record n { handlers = (stop_egress id n.handlers).0 }

  unfoldable pub recorder_steps : List RecorderStep → Node → Node
  unfolding recorder_step
  recorder_steps [] n = n
  recorder_steps (step ∷ steps) n = recorder_steps steps (recorder_step step n)

  -- How many requests wait at a check.
  abbrev pub waiting_at : RecorderStep → Node → ℕ
  waiting_at (checks req) n = length n.waiting
  waiting_at (takes_up registers delivered k) n = 0
  waiting_at (runs_job delivered id end) n = 0
  waiting_at (stops_job id) n = 0

  -- The most requests that wait at a check.
  unfoldable pub most_waiting : List RecorderStep → Node → ℕ
  unfolding recorder_step
  most_waiting [] n = 0
  most_waiting (step ∷ steps) n =
      max (waiting_at step n) (most_waiting steps (recorder_step step n))

  -- `m` jobs cost no more than the CPUs and `k` jobs.
  abbrev pub FitsCpus : ℕ → ℕ → Type 0
  FitsCpus k m =
      m * (job_cost conf).numerator
      ≤ capacity * (job_cost conf).denominator + k * (job_cost conf).numerator

  abbrev Fits : ℕ → Node → Type 0
  Fits k n = FitsCpus k (length n.handlers.active + length n.waiting)

  FitsCpus-le : (k m n : ℕ) → m ≤ n → FitsCpus k n → FitsCpus k m
  FitsCpus-le k m n h fits = omega (arith, fits, mul-le-mul_right (job_cost conf).numerator h)

  length-with_id : (id : String) (ids : List String) → length (with_id id ids) ≤ length ids + 1
  length-with_id id ids = ground arith

  accept_job-active :
      (registers delivered : Bool) (id : String) (spec : RecSpec) (s : Handlers)
      → (accept_job registers delivered id spec s).0.active ≡ with_id id s.active
  unfolding accept_job
  accept_job-active true delivered id spec s = refl
  accept_job-active false delivered id spec s = refl

  length-take :
      (k : ℕ) (ws : List Waiting)
      → length ws ≡ length (take k ws).1 + (if is_some (take k ws).0 then 1 else 0)
  length-take k [] = refl
  length-take zero (w ∷ ws) = omega arith
  length-take (suc k) (w ∷ ws) = omega (arith, length-take k ws)

  -- To take up a request gives its place among those that wait to the job.
  take_up-Fits :
      (k : ℕ) (registers delivered : Bool) (o : Option Waiting) (ws : List Waiting) (n : Node)
      → length n.waiting ≡ length ws + (if is_some o then 1 else 0)
      → Fits k n
      → Fits k (take_up registers delivered (o, ws) n)
  unfolding after_check
  take_up-Fits k registers delivered none ws n h fits = fits
  take_up-Fits k registers delivered (some w) ws n h fits =
      subst (λ ids. FitsCpus k (length ids + length ws))
        (sym (accept_job-active registers delivered w.egress_id w.spec n.handlers))
        (FitsCpus-le k _ _ (omega (arith, h, length-with_id w.egress_id n.handlers.active)) fits)

  admitted-FitsCpus : (m : ℕ) → admitted conf capacity m ≡ true → FitsCpus 0 (m + 1)
  unfolding admitted
  admitted-FitsCpus m h = ground (arith, h)

  check_spec-admitted :
      (asked : Attempt RecSpec) (info : Option Request) (s : Handlers) (spec : RecSpec)
      → check_spec conf capacity asked info s ≡ goes_on spec
      → admitted conf capacity (length s.active) ≡ true
  check_spec-admitted (err e) info s spec h = absurd (ground (arith, h))
  check_spec-admitted (ok asked) none s spec h = absurd (ground (arith, h))
  check_spec-admitted (ok asked) (some info) s spec h = ground (arith, h)

  check_start-admitted :
      (req : StartRequest) (s : Handlers) (spec : RecSpec)
      → check_start conf capacity req s ≡ goes_on spec
      → admitted conf capacity (length s.active) ≡ true
  unfolding check_start
  check_start-admitted req s spec h = elim (Bool-cases (str_eq req.egress_id "")) [
    | inl e ↦ absurd (ground (arith, h, e))
    | inr e ↦
        check_spec-admitted (rec_spec req.request conf) (request_info req.request) s spec
          (ground (arith, h, e))
  ]

  FitsCpus-more : (k m w : ℕ) → FitsCpus 0 (m + 1) → w ≤ k → FitsCpus k (m + (w + 1))
  FitsCpus-more k m w fits h = omega (arith, fits, mul-le-mul_right (job_cost conf).numerator h)

  wait-Fits :
      (k : ℕ) (id : String) (c : Checked) (n : Node)
      → ((spec : RecSpec) → c ≡ goes_on spec → FitsCpus 0 (length n.handlers.active + 1))
      → length n.waiting ≤ k
      → Fits k n
      → Fits k (wait id c n)
  wait-Fits k id (refuses e) n admits h fits = fits
  wait-Fits k id (goes_on spec) n admits h fits =
      let w : Waiting = record { egress_id = id; spec = spec } in
      subst (λ x. FitsCpus k (length n.handlers.active + x))
        (sym (length-append n.waiting (w ∷ [])))
        (FitsCpus-more k (length n.handlers.active) (length n.waiting) (admits spec refl) h)

  run_job-active :
      (delivered : Bool) (id : String) (end : JobEnd) (s : Handlers)
      → (run_job delivered id end s).active ≡ without_id id s.active
  unfolding run_job run_one
  run_job-active delivered id not_connected s = refl
  run_job-active delivered id fails_later s = refl
  run_job-active delivered id uploaded s = refl

  recorder_step-Fits :
      (k : ℕ) (step : RecorderStep) (n : Node)
      → waiting_at step n ≤ k
      → Fits k n
      → Fits k (recorder_step step n)
  unfolding recorder_step stop_egress
  recorder_step-Fits k (checks req) n h fits =
      wait-Fits k req.egress_id (check_start conf capacity req n.handlers) n
        (λ spec e. admitted-FitsCpus _ (check_start-admitted req n.handlers spec e)) h fits
  recorder_step-Fits k (takes_up registers delivered i) n h fits =
      take_up-Fits k registers delivered (take i n.waiting).0 (take i n.waiting).1 n
        (length-take i n.waiting) fits
  recorder_step-Fits k (runs_job delivered id end) n h fits =
      subst (λ ids. FitsCpus k (length ids + length n.waiting))
        (sym (run_job-active delivered id end n.handlers))
        (FitsCpus-le k _ _
          (omega (arith, length-select-le (λ i. not (str_eq i id)) n.handlers.active)) fits)
  recorder_step-Fits k (stops_job id) n h fits = fits

  steps-Fits :
      (k : ℕ) (steps : List RecorderStep) (n : Node)
      → most_waiting steps n ≤ k
      → Fits k n
      → Fits k (recorder_steps steps n)
  unfolding recorder_steps most_waiting
  steps-Fits k [] n h fits = fits
  steps-Fits k (step ∷ steps) n h fits =
      steps-Fits k steps (recorder_step step n) (omega (arith, h))
        (recorder_step-Fits k step n (omega (arith, h)) fits)

  -- Requests to start an egress are checked and, later, taken up, in any order among themselves and among the
  -- ends of jobs. If nobody waits at first and the jobs that there are fit the CPUs, then the jobs and the
  -- requests that wait never cost more than the CPUs and, on top, as many jobs as requests waited at a check:
  -- where every request is taken up before the next is checked, they fit.
  pub recorder_steps-FitsCpus :
      (steps : List RecorderStep) (s : Handlers)
      → FitsCpus 0 (length s.active)
      → let start : Node = record { handlers = s; waiting = [] } in
        let after = recorder_steps steps start in
        FitsCpus (most_waiting steps start) (length after.handlers.active + length after.waiting)
  recorder_steps-FitsCpus steps s fits =
      let start : Node = record { handlers = s; waiting = [] } in
      steps-Fits (most_waiting steps start) steps start (omega arith) (omega (arith, fits))
