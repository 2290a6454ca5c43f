-- ===== src/Core/Versions.antt =====
-- crates/lk-server/src/core.rs: what a bumped version and a counter promise about order.
use livekit_rs_voice.Base.{ℕ, ◌+◌, ◌^◌, ◌≤◌, ◌<◌, ◌≡◌, ◌↔◌, ◌⊎◌, arith, u32_mod}
use livekit_rs_voice.Core.{TimedVersion, bump, next_version}

-- The order in which a client reads versions.
abbrev pub Before : TimedVersion → TimedVersion → Type 0
Before v w = (v.unix_micro < w.unix_micro) ⊎ ((v.unix_micro ≡ w.unix_micro) × (v.ticks < w.ticks))

-- While the ticks stay in the range of i32, a bump gives a later version exactly when the clock has
-- not gone behind the time that the version holds.
pub bump-Before_iff :
    (now : ℕ) (v : TimedVersion)
    → v.ticks + 1 < 2 ^ 31
    → Before v (bump now v) ↔ (v.unix_micro ≤ now)
unfolding bump
bump-Before_iff now v h = ground arith

-- Below the range of u32, the version that a counter gives is smaller than the next one exactly
-- when the counter is past its first call: the first two versions are both 1.
pub next_version_grows_iff :
    (n : ℕ) → n + 1 < u32_mod → ((next_version n).1 < (next_version (next_version n).0).1) ↔ (1 ≤ n)
unfolding next_version
next_version_grows_iff n h = ground arith
