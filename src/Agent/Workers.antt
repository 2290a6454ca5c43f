-- ===== src/Agent/Workers.antt =====
-- crates/lk-server/src/agent.rs: which workers an agent has, and which of them is picked.
use livekit_rs_voice.Base.{
  ℕ, ◌+◌, ◌<◌, ◌≡◌, refl, sym, subst, ◌∙◌, Bool, true, false, not, List, [], ◌∷◌, ◌++◌, Option,
  none, some, String, str_eq, eq_iff, arith, if◌then◌else◌, unwrap_or, select, All, All-select,
  get_elem?-All, get_elem?-some, length, Map, get, values, Distinct, get-insert, Option-cases, inl,
  inr, is_some, any_of, ◌&&◌,
}
use livekit_rs_voice.Agent.{
  Store, AgentManager, register_worker, unregister_worker, unregister_from, is_other, workers_for,
  pick_worker, choose, keep_list,
}

abbrev is_none_left : List ℕ → Bool
is_none_left [] = true
is_none_left (a ∷ list) = false

abbrev pub WhenPicked : (ℕ → Type 0) → Option ℕ → Type 0
WhenPicked P none = Unit {0}
WhenPicked P (some a) = P a

-- A registered worker is the last of its agent, and the other agents have the workers they had.
pub register_worker_lem :
    (store : Store) (a : ℕ) (m : AgentManager) (name : String)
    → workers_for name (register_worker store a m) ≡ (
        if str_eq (store a).agent_name name
        then workers_for name m ++ a ∷ []
        else workers_for name m)
unfolding workers_for register_worker
register_worker_lem store a m name = ground (
  arith,
  get-insert (store a).agent_name name (unwrap_or (get (store a).agent_name m.workers) [] ++ a ∷ [])
      m.workers,
  eq_iff (store a).agent_name name,
)

get-keep_list :
    (n name : String) (list : List ℕ) (rest : Map (List ℕ))
    → unwrap_or (get name (keep_list n list rest)) []
      ≡ (if str_eq n name && not (is_none_left list) then list else unwrap_or (get name rest) [])
unfolding get
get-keep_list n name [] rest = ground arith
get-keep_list n name (a ∷ list) rest = ground arith

get-unregister_from :
    (store : Store) (id name : String) (workers : Map (List ℕ))
    → Distinct workers
    → unwrap_or (get name (unregister_from store id workers)) []
      ≡ select (is_other store id) (unwrap_or (get name workers) [])
unfolding get unregister_from
get-unregister_from store id name [] d = refl
get-unregister_from store id name ((n, list) ∷ rest) d = ground (
  arith,
  get-keep_list n name (select (is_other store id) list) (unregister_from store id rest),
  get-unregister_from store id name rest d.1,
  eq_iff n name,
  d.0,
)

-- No list of workers is empty.
abbrev pub HasWorkers : List ℕ → Type 0
HasWorkers list = is_none_left list ≡ false

keep_list-HasWorkers :
    (n : String) (list : List ℕ) (rest : Map (List ℕ))
    → All HasWorkers (values rest)
    → All HasWorkers (values (keep_list n list rest))
keep_list-HasWorkers n [] rest h = h
keep_list-HasWorkers n (a ∷ list) rest h = (refl, h)

unregister_from-HasWorkers :
    (store : Store) (id : String) (workers : Map (List ℕ))
    → All HasWorkers (values (unregister_from store id workers))
unfolding unregister_from
unregister_from-HasWorkers store id [] = tt
unregister_from-HasWorkers store id ((n, list) ∷ rest) =
    keep_list-HasWorkers n (select (is_other store id) list) (unregister_from store id rest)
      (unregister_from-HasWorkers store id rest)

-- A worker that is unregistered is off the list of every agent, the others stay in their order, and
-- no agent is left with an empty list.
pub unregister_worker_lem :
    (store : Store) (id : String) (m : AgentManager) (name : String)
    → Distinct m.workers
    → let m' = unregister_worker store id m in
      (workers_for name m' ≡ select (is_other store id) (workers_for name m))
      × All HasWorkers (values m'.workers)
unfolding workers_for unregister_worker
unregister_worker_lem store id m name d =
    (get-unregister_from store id name m.workers d, unregister_from-HasWorkers store id m.workers)

choose_lem :
    (draw : ℕ → ℕ) (xs : List ℕ)
    → ((n : ℕ) → draw (n + 1) < n + 1)
    → is_some (choose draw xs) ≡ not (is_none_left xs)
choose_lem draw [] below = refl
choose_lem draw (x ∷ xs) below =
    ground
      (arith, get_elem?-some (x ∷ xs) (draw (length (x ∷ xs))) (ground (arith, below (length xs))))

choose-All :
    (P : ℕ → Type 0) (draw : ℕ → ℕ) (xs : List ℕ) (a : ℕ) → All P xs → choose draw xs ≡ some a → P a
choose-All P draw [] a h e = absurd cc
choose-All P draw (x ∷ xs) a h e = get_elem?-All P (x ∷ xs) (draw (length (x ∷ xs))) a h e

picked : (P : ℕ → Type 0) (draw : ℕ → ℕ) (xs : List ℕ) → All P xs → WhenPicked P (choose draw xs)
picked P draw xs h = elim (Option-cases (choose draw xs)) [
  | inl e ↦ subst (WhenPicked P) (sym e) tt
  | inr (a, e) ↦ subst (WhenPicked P) (sym e) (choose-All P draw xs a h e)
]

none_left-select :
    (test : ℕ → Bool) (xs : List ℕ) → not (is_none_left (select test xs)) ≡ any_of test xs
none_left-select test [] = refl
none_left-select test (x ∷ xs) = ground (arith, none_left-select test xs)

-- Whenever one of the workers is available, one is picked, and a worker that is picked is available.
pub pick_worker_lem :
    (store : Store) (draw : ℕ → ℕ) (workers : List ℕ)
    → ((n : ℕ) → draw (n + 1) < n + 1)
    → (is_some (pick_worker store draw workers) ≡ any_of (λ a. (store a).is_available) workers)
      × WhenPicked (λ a. (store a).is_available ≡ true) (pick_worker store draw workers)
unfolding pick_worker
pick_worker_lem store draw workers below =
    let available : List ℕ = select (λ a. (store a).is_available) workers in
    (
      choose_lem draw available below ∙ none_left-select (λ a. (store a).is_available) workers,
      picked (λ a. (store a).is_available ≡ true) draw available
          (All-select (λ a. (store a).is_available) workers),
    )
