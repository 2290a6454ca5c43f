-- ===== src/AudioLevel.antt =====
-- crates/lk-server/src/audio_level.rs: whether a participant speaks, from the level in its packets.
-- Times are milliseconds of a monotone clock. The linear level, in floating point, is left out.
pub mod Windows
use livekit_rs_voice.Base.{
  ℕ, ◌+◌, ◌-◌, ◌*◌, ◌/◌, ◌%◌, ◌^◌, Bool, true, false, Option, none, some, leb, min, u32_mod,
  if◌then◌else◌, ◌==◌, List, [], ◌∷◌,
}

abbrev pub active_level_dbov : ℕ
active_level_dbov = 35

abbrev pub min_percentile : ℕ
min_percentile = 40

abbrev pub update_interval : ℕ
update_interval = 400

abbrev pub smooth_intervals : ℕ
smooth_intervals = 2

pub record Window : Type 0 where
  pub total : ℕ
  pub active_packets : ℕ
  pub started : Option ℕ

pub record AudioLevelDetector : Type 0 where
  pub level : ℕ
  pub active : Bool
  pub window : Window

unfoldable pub new_detector : AudioLevelDetector
new_detector = record {
  level = 127;
  active = false;
  window = record { total = 0; active_packets = 0; started = none };
}

-- The product wraps at 32 bits.
unfoldable pub compute_active : ℕ → ℕ → Bool
compute_active total active_packets =
    if total == 0 then false else leb min_percentile (active_packets * 100 % u32_mod / total)

-- saturating_add(1) on `u32`.
abbrev pub saturating_next : ℕ → ℕ
saturating_next n = min (n + 1) (u32_mod - 1)

-- `limit` or more since the window was started; what stands for a window that was not is given.
abbrev pub has_lasted : Bool → ℕ → ℕ → Option ℕ → Bool
has_lasted otherwise limit now none = otherwise
has_lasted otherwise limit now (some s) = leb limit (now - s)

-- The window that a packet is counted in: the old one, or a new one if that is over.
unfoldable pub roll : ℕ → AudioLevelDetector → AudioLevelDetector
unfolding compute_active
roll now d =
    if has_lasted true update_interval now d.window.started
    then record d {
      active = compute_active d.window.total d.window.active_packets;
      window = record { total = 0; active_packets = 0; started = some now };
    }
    else d

unfoldable pub count : ℕ → Window → Window
count level w = record w {
  total = saturating_next w.total;
  active_packets =
      if leb level active_level_dbov then saturating_next w.active_packets else w.active_packets;
}

unfoldable pub observe : ℕ → ℕ → AudioLevelDetector → AudioLevelDetector
unfolding roll count
observe now level d =
    let rolled = roll now (record d { level = level }) in
    record rolled { window = count level rolled.window }

unfoldable pub reset_if_stale : ℕ → AudioLevelDetector → AudioLevelDetector
reset_if_stale now d =
    if has_lasted false (update_interval * smooth_intervals) now d.window.started
    then record d { active = false; level = 127 }
    else d

unfoldable pub is_active : AudioLevelDetector → Bool
is_active d = d.active
