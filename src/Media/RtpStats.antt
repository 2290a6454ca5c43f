-- ===== src/Media/RtpStats.antt =====
-- crates/lk-server/src/media.rs, `RtpStats`: what a forwarder counts of the packets it forwards. The
-- jitter estimate, in floating point, is left out; the 64-bit counters do not wrap in a run.
use livekit_rs_voice.Base.{
  ℕ, ◌+◌, ◌-◌, ◌%◌, ◌^◌, ◌&&◌, List, [], ◌∷◌, Option, none, some, ltb, if◌then◌else◌,
}

abbrev pub u16_mod : ℕ
u16_mod = 2 ^ 16

-- a.wrapping_sub(b) on `u16`.
unfoldable pub wrapping_sub : ℕ → ℕ → ℕ
wrapping_sub a b = (a + (u16_mod - b)) % u16_mod

pub record RtpStats : Type 0 where
  pub packets : ℕ
  pub expected : ℕ
  pub lost : ℕ
  pub out_of_order : ℕ
  pub max_seq : Option ℕ

-- RtpStats::default()
abbrev pub no_stats : RtpStats
no_stats = record { packets = 0; expected = 0; lost = 0; out_of_order = 0; max_seq = none }

-- The packet is ahead of, or at, the highest number so far.
unfoldable pub observe_ahead : ℕ → ℕ → RtpStats → RtpStats
unfolding wrapping_sub
observe_ahead max seq s =
    let gap = wrapping_sub seq max in
    if ltb 0 gap && ltb gap 32768
    then record s { expected = s.expected + gap; lost = s.lost + (gap - 1); max_seq = some seq }
    else record s { expected = s.expected + 1 }

unfoldable pub observe_after : ℕ → ℕ → RtpStats → RtpStats
unfolding wrapping_sub observe_ahead
observe_after max seq s =
    let behind = wrapping_sub max seq in
    if ltb 0 behind && ltb behind 32768
    then record s {
      out_of_order = s.out_of_order + 1;
      expected = s.expected + 1;
      lost = if ltb 0 s.lost then s.lost - 1 else s.lost;
    }
    else observe_ahead max seq s

unfoldable pub observe : ℕ → RtpStats → RtpStats
unfolding observe_after
observe seq s =
    let counted = record s { packets = s.packets + 1 } in
    elim s.max_seq [
      | none ↦ record counted { max_seq = some seq; expected = 1 }
      | some max ↦ observe_after max seq counted
    ]

unfoldable pub observe_all : List ℕ → RtpStats → RtpStats
unfolding observe
observe_all [] s = s
observe_all (seq ∷ seqs) s = observe_all seqs (observe seq s)
