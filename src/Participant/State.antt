-- ===== src/Participant/State.antt =====
-- crates/lk-server/src/participant.rs: `set_state` called by many threads on one participant.
use livekit_rs_voice.Base.{
  ℕ, zero, suc, ◌-◌, ◌≤◌, ◌<◌, ◌≡◌, Bool, true, false, List, [], ◌∷◌, arith, leb, ltb, ◌==◌,
  if◌then◌else◌, length, All, Bool-cases, inl, inr,
}
use livekit_rs_voice.Participant.{
  Participant, ParticipantState, joining, joined, active, disconnected, state, state_code,
  set_state, Setter, trying, finished, attempt,
}

-- The thread at place `i` makes a round of its loop.
abbrev pub attempt_at : ℕ → ℕ → List Setter → ℕ × List Setter
attempt_at i cell [] = (cell, [])
attempt_at zero cell (t ∷ ts) = let (cell', t') = attempt cell t in (cell', t' ∷ ts)
attempt_at (suc i) cell (t ∷ ts) = let (cell', ts') = attempt_at i cell ts in (cell', t ∷ ts')

-- A schedule names the thread that moves next.
abbrev pub race : List ℕ → ℕ → List Setter → ℕ × List Setter
race [] cell ts = (cell, ts)
race (i ∷ schedule) cell ts = race schedule (attempt_at i cell ts).0 (attempt_at i cell ts).1

-- What a thread read, or asked for when it is done, is not above the state in the cell.
abbrev pub IsBehind : ℕ → Setter → Type 0
IsBehind cell (trying new prev) = prev ≤ cell
IsBehind cell (finished new changed) = new ≤ cell

IsBehind-mono : (cell cell' : ℕ) (t : Setter) → cell ≤ cell' → IsBehind cell t → IsBehind cell' t
IsBehind-mono cell cell' (trying new prev) h b = omega arith
IsBehind-mono cell cell' (finished new changed) h b = omega arith

All-IsBehind-mono :
    (cell cell' : ℕ) (ts : List Setter)
    → cell ≤ cell'
    → All (IsBehind cell) ts
    → All (IsBehind cell') ts
All-IsBehind-mono cell cell' [] h b = tt
All-IsBehind-mono cell cell' (t ∷ ts) h b =
    (IsBehind-mono cell cell' t h b.0, All-IsBehind-mono cell cell' ts h b.1)

attempt-IsBehind :
    (cell : ℕ) (t : Setter)
    → IsBehind cell t
    → (cell ≤ (attempt cell t).0) × IsBehind (attempt cell t).0 (attempt cell t).1
unfolding attempt
attempt-IsBehind cell (trying new prev) b = elim (Bool-cases (leb new prev)) [
  | inl late ↦ rw late (ground arith)
  | inr early ↦ rw early (elim (Bool-cases (cell == prev)) [
    | inl same ↦ rw same (ground arith)
    | inr other ↦ rw other (ground arith)
  ])
]
attempt-IsBehind cell (finished new changed) b = (omega arith, b)

attempt_at-IsBehind :
    (i cell : ℕ) (ts : List Setter)
    → All (IsBehind cell) ts
    → (cell ≤ (attempt_at i cell ts).0)
      × All (IsBehind (attempt_at i cell ts).0) (attempt_at i cell ts).1
attempt_at-IsBehind i cell [] b = (omega arith, tt)
attempt_at-IsBehind zero cell (t ∷ ts) b =
    let (grows, behind) = attempt-IsBehind cell t b.0 in
    (grows, (behind, All-IsBehind-mono cell _ ts grows b.1))
attempt_at-IsBehind (suc i) cell (t ∷ ts) b =
    let (grows, behind) = attempt_at-IsBehind i cell ts b.1 in
    (grows, (IsBehind-mono cell _ t grows b.0, behind))

-- Whatever the schedule of the threads, the state of a participant never falls, and it has reached
-- what each thread that returned had asked for.
pub race-IsBehind :
    (schedule : List ℕ) (cell : ℕ) (ts : List Setter)
    → All (IsBehind cell) ts
    → (cell ≤ (race schedule cell ts).0)
      × All (IsBehind (race schedule cell ts).0) (race schedule cell ts).1
race-IsBehind [] cell ts b = (omega arith, b)
race-IsBehind (i ∷ schedule) cell ts b =
    let (grows, behind) = attempt_at-IsBehind i cell ts b in
    let (grows', behind') =
      race-IsBehind schedule (attempt_at i cell ts).0 (attempt_at i cell ts).1 behind in
    (omega arith, behind')

-- One thread, against the values that the cell has at each of its rounds.
abbrev pub attempts : List ℕ → Setter → Setter
attempts [] t = t
attempts (cell ∷ cells) t = attempts cells (attempt cell t).1

-- The values of the cell do not fall.
abbrev pub IsRising : ℕ → List ℕ → Type 0
IsRising low [] = Unit {0}
IsRising low (cell ∷ cells) = (low ≤ cell) × IsRising cell cells

abbrev pub IsFinished : Setter → Type 0
IsFinished (trying new prev) = ⊥
IsFinished (finished new changed) = Unit {0}

attempts_stay :
    (cells : List ℕ) (new : ℕ) (changed : Bool) → IsFinished (attempts cells (finished new changed))
unfolding attempt
attempts_stay [] new changed = tt
attempts_stay (cell ∷ cells) new changed = attempts_stay cells new changed

-- The loop ends: while the cell only rises, a thread is out of it after as many rounds as there are
-- states from the one it read up to the one it wants, and one more.
pub attempts-IsFinished :
    (cells : List ℕ) (new prev : ℕ)
    → IsRising prev cells
    → new - prev < length cells
    → IsFinished (attempts cells (trying new prev))
unfolding attempt
attempts-IsFinished [] new prev r h = absurd (omega arith)
attempts-IsFinished (cell ∷ cells) new prev r h = elim (Bool-cases (leb new prev)) [
  | inl late ↦ rw (late, attempt) (attempts_stay cells new false)
  | inr early ↦ elim (Bool-cases (cell == prev)) [
    | inl same ↦ rw (early, same, attempt) (attempts_stay cells new true)
    | inr other ↦ rw (early, other, attempt) (attempts-IsFinished cells new cell r.1 (ground arith))
  ]
]

-- With no other writer, a call moves the state to the later of the two in the order joining, joined,
-- active, disconnected, and returns whether it moved.
pub set_state_lem :
    (s : ParticipantState) (p : Participant)
    → p.state_cell ≤ 3
    → (state_code (state (set_state s p).0)
        ≡ (if leb (state_code s) p.state_cell then p.state_cell else state_code s))
      × ((set_state s p).1 ≡ ltb p.state_cell (state_code s))
unfolding set_state state
set_state_lem joining p h = ground arith
set_state_lem joined p h = ground arith
set_state_lem active p h = ground arith
set_state_lem disconnected p h = ground arith
