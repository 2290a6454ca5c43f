-- ===== src/Examples/MediaRuns.antt =====
-- Tests and instances of the theorems on streams and audio levels
-- (crates/lk-server/src/media.rs, audio_level.rs).
use livekit_rs_voice.Base.{
  ℕ, ◌+◌, ◌-◌, ◌*◌, ◌%◌, ◌≤◌, ◌≡◌, refl, ◌↔◌, true, List, [], ◌∷◌, some, arith, length, select,
}
use livekit_rs_voice.Media.RtpStats.{RtpStats, no_stats, u16_mod, observe_all as observe_stream}
use livekit_rs_voice.Media.Streams.{stream, total, observe_all-stream}
use livekit_rs_voice.AudioLevel.{new_detector, observe, is_active}
use livekit_rs_voice.AudioLevel.Windows.{observe_all, loud, observe_all_iff}

-- Three packets across the wrap of the numbers, with a gap of two.
abbrev gaps : List ℕ
gaps = 1 ∷ 2 ∷ []

observe_all-stream_example :
    observe_stream (65534 % u16_mod ∷ stream 65534 gaps) no_stats ≡ record {
      packets = length gaps + 1;
      expected = total gaps + 1;
      lost = (total gaps + 1) - (length gaps + 1);
      out_of_order = 0;
      max_seq = some ((65534 + total gaps) % u16_mod);
    }
observe_all-stream_example =
    observe_all-stream 65534 gaps ((omega arith, omega arith), ((omega arith, omega arith), tt))

abbrev after_gap : RtpStats
after_gap = record { packets = 3; expected = 4; lost = 1; out_of_order = 0; max_seq = some 1 }

abbrev window : List (ℕ × ℕ)
window = (1000, 20) ∷ (1020, 90) ∷ []

-- A loud packet, a quiet one, and one that ends the window.
observe_all_iff_example :
    (is_active (observe 1400 127 (observe_all ((1020, 90) ∷ []) (observe 1000 20 new_detector)))
      ≡ true)
    ↔ (40 * length window ≤ 100 * length (select loud window))
unfolding new_detector
observe_all_iff_example =
    observe_all_iff 1000 20 1400 127 ((1020, 90) ∷ []) new_detector refl (omega arith, tt)
      (omega arith) (omega arith)
