-- ===== src/AudioLevel/Windows.antt =====
-- crates/lk-server/src/audio_level.rs: what the windows of a detector make of the packets.
use livekit_rs_voice.Base.{
  ℕ, ◌+◌, ◌*◌, ◌/◌, ◌%◌, ◌≤◌, ◌<◌, ◌≡◌, ◌≢◌, ◌↔◌, inl, inr, Bool, true, false, Option, none, some,
  leb, u32_mod, if◌then◌else◌, List, [], ◌∷◌, All, length, select, length-select-le, arith,
  Bool-cases, Option-cases, ◌==◌,
}
use native.Mathlib.Nat.{le-div_iff_mul-le}
use livekit_rs_voice.AudioLevel.{
  AudioLevelDetector, compute_active, has_lasted, roll, count, observe, reset_if_stale, is_active,
  update_interval, active_level_dbov,
}

-- As long as the product fits 32 bits, a window is active exactly when it has packets and at least 40
-- of each hundred of them are loud.
pub compute_active_iff :
    (total active_packets : ℕ)
    → active_packets * 100 < u32_mod
    → (compute_active total active_packets ≡ true)
      ↔ ((total ≢ 0) × (40 * total ≤ active_packets * 100))
unfolding compute_active
compute_active_iff total active_packets fits = elim (Bool-cases (total == 0)) [
  | inl e ↦ ground arith
  | inr ne ↦
      let bound : (40 ≤ active_packets * 100 / total) ↔ (40 * total ≤ active_packets * 100) =
        le-div_iff_mul-le (ground arith) in
      let whole : active_packets * 100 % u32_mod ≡ active_packets * 100 = omega (arith, fits) in
      ground (arith, bound, whole)
]

-- A packet and its time.
abbrev pub loud : ℕ × ℕ → Bool
loud (t, level) = leb level active_level_dbov

abbrev pub observe_all : List (ℕ × ℕ) → AudioLevelDetector → AudioLevelDetector
observe_all [] d = d
observe_all ((t, level) ∷ packets) d = observe_all packets (observe t level d)

-- The packet falls into the window that was started at `start`.
abbrev pub IsWithin : ℕ → ℕ × ℕ → Type 0
IsWithin start (t, level) = t < start + update_interval

observe_all-within :
    (start : ℕ) (packets : List (ℕ × ℕ)) (d : AudioLevelDetector)
    → d.window.started ≡ some start
    → All (IsWithin start) packets
    → d.window.total + length packets < u32_mod
    → d.window.active_packets ≤ d.window.total
    → let d' = observe_all packets d in
      (d'.window.total ≡ d.window.total + length packets)
      × (d'.window.active_packets ≡ d.window.active_packets + length (select loud packets))
      × (d'.window.started ≡ some start)
      × (d'.active ≡ d.active)
unfolding observe roll count
observe_all-within start [] d h w fits le = ground (arith, h)
observe_all-within start ((t, level) ∷ packets) d h (w, ws) fits le =
    ground (arith, h, w, observe_all-within start packets (observe t level d))

fresh-count :
    (t level : ℕ) (d : AudioLevelDetector)
    → has_lasted true update_interval t d.window.started ≡ true
    → let w = (observe t level d).window in
      (w.total ≡ 1)
      × (w.active_packets ≡ (if leb level active_level_dbov then 1 else 0))
      × (w.started ≡ some t)
unfolding observe roll count
fresh-count t level d h = ground (arith, h)

-- A packet that comes after the window judges it.
judged :
    (t t' level' : ℕ) (d : AudioLevelDetector)
    → d.window.started ≡ some t
    → t + update_interval ≤ t'
    → (observe t' level' d).active ≡ compute_active d.window.total d.window.active_packets
unfolding observe roll
judged t t' level' d started ends = ground (arith, started)

-- A window that a packet opens at `t`, that holds the packets of the 400 ms from there, is judged by
-- the first packet after it, at `t'`: the detector is then active exactly when at least 40 of each
-- hundred packets of the window were loud.
pub observe_all_iff :
    (t level t' level' : ℕ) (packets : List (ℕ × ℕ)) (d : AudioLevelDetector)
    → has_lasted true update_interval t d.window.started ≡ true
    → All (IsWithin t) packets
    → t + update_interval ≤ t'
    → (length packets + 1) * 100 < u32_mod
    → (is_active (observe t' level' (observe_all packets (observe t level d))) ≡ true)
      ↔ (40 * length ((t, level) ∷ packets) ≤ 100 * length (select loud ((t, level) ∷ packets)))
unfolding is_active
observe_all_iff t level t' level' packets d opens within ends fits =
    let (total, active_packets, started) = fresh-count t level d opens in
    let (n, k, same, _) =
      observe_all-within t packets (observe t level d) started within (omega (arith, total))
        (ground arith) in
    let loud_le = length-select-le loud packets in
    ground (
      arith,
      judged t t' level' (observe_all packets (observe t level d)) same ends,
      compute_active_iff (length packets + 1) (length (select loud ((t, level) ∷ packets))),
    )

-- A detector that is heard is not reset: up to 400 ms after a packet, `reset_if_stale` does nothing,
-- if the clock does not run back.
pub observe-reset_if_stale :
    (t level now : ℕ) (d : AudioLevelDetector)
    → t ≤ now
    → now ≤ t + update_interval
    → reset_if_stale now (observe t level d) ≡ observe t level d
unfolding reset_if_stale observe roll count
observe-reset_if_stale t level now d before soon = ground arith

abbrev IsAtMost : ℕ → Option ℕ → Type 0
IsAtMost t none = Unit {0}
IsAtMost t (some s) = s ≤ t

-- A detector that is not heard for 800 ms falls silent, if its window was not started after its last
-- packet.
pub observe-reset_if_stale_silent :
    (t level now : ℕ) (d : AudioLevelDetector)
    → IsAtMost t d.window.started
    → t + 2 * update_interval ≤ now
    → let d' = reset_if_stale now (observe t level d) in (is_active d' ≡ false) × (d'.level ≡ 127)
unfolding reset_if_stale observe roll count is_active
observe-reset_if_stale_silent t level now d before late = elim (Option-cases d.window.started) [
  | inl e ↦ ground (arith, e)
  | inr (s, e) ↦ ground (arith, e, before)
]
