-- ===== src/Core.antt =====
-- crates/lk-server/src/core.rs: versions that order updates, and the kinds of participant. The
-- clock is an argument `now`, in microseconds since 1970.
pub mod Versions
pub mod Kinds
use livekit_rs_voice.Base.{
  ℕ, zero, suc, ◌+◌, ◌/◌, ◌%◌, max, Bool, true, false, ◌==◌, if◌then◌else◌, u32_mod,
}

unfoldable pub unix_millis : ℕ → ℕ
unix_millis now = now / 1000

unfoldable pub unix_seconds : ℕ → ℕ
unix_seconds now = now / 1000000

-- `ticks` is an i32, kept as its bit pattern.
pub record TimedVersion : Type 0 where
  pub unix_micro : ℕ
  pub ticks : ℕ

unfoldable pub new_version : ℕ → TimedVersion
new_version now = record { unix_micro = now; ticks = 0 }

unfoldable pub bump : ℕ → TimedVersion → TimedVersion
bump now v =
    if now == v.unix_micro
    then record v { ticks = (v.ticks + 1) % u32_mod }
    else record { unix_micro = now; ticks = 0 }

-- `VersionCounter`: the AtomicI64 that starts at 0. `next` leaves the counter one higher and
-- returns a u32.
unfoldable pub next_version : ℕ → ℕ × ℕ
next_version counter = (counter + 1, max counter 1 % u32_mod)

unfoldable pub current_version : ℕ → ℕ
current_version counter = counter % u32_mod

pub data ParticipantKind : Type 0 where
  standard ingress egress sip agent connector bridge : ParticipantKind

unfoldable pub kind_to_proto : ParticipantKind → ℕ
kind_to_proto standard = 0
kind_to_proto ingress = 1
kind_to_proto egress = 2
kind_to_proto sip = 3
kind_to_proto agent = 4
kind_to_proto connector = 7
kind_to_proto bridge = 8

unfoldable pub kind_from_proto : ℕ → ParticipantKind
kind_from_proto v =
    if v == 1
    then ingress
    else if v == 2
    then egress
    else if v == 3
    then sip
    else if v == 4
    then agent
    else if v == 7
    then connector
    else if v == 8
    then bridge
    else standard

-- Agents and egress neither count toward the capacity of a room nor keep it open.
unfoldable pub is_dependent : ParticipantKind → Bool
is_dependent agent = true
is_dependent egress = true
is_dependent _ = false
