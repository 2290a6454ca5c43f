-- ===== src/Base/Signed.antt =====
-- Signed integers: what the source computes in i64 may be negative.
use Prim.Native.Nat.{ℕ, ◌-◌}
use mathlib.Core.Bool.{Bool, false}
use livekit_rs_voice.Base.Tests.{leb, if◌then◌else◌}

-- `negsuc n` is -(n + 1).
pub data ℤ : Type 0 where
  pos : ℕ → ℤ
  negsuc : ℕ → ℤ

-- a - b, as a signed integer.
abbrev pub sub_ℕ : ℕ → ℕ → ℤ
sub_ℕ a b = if leb b a then pos (a - b) else negsuc (b - a - 1)

-- n ≤ z
abbrev pub le_signed : ℕ → ℤ → Bool
le_signed n (pos m) = leb n m
le_signed n (negsuc m) = false
