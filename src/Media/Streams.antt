-- ===== src/Media/Streams.antt =====
-- crates/lk-server/src/media.rs: what `RtpStats` makes of whole streams of packets.
use livekit_rs_voice.Base.{
  ℕ, ◌+◌, ◌-◌, ◌%◌, ◌≤◌, ◌<◌, ◌≡◌, refl, List, [], ◌∷◌, some, arith, length, All, is_some, true,
}
use livekit_rs_voice.Media.RtpStats.{
  RtpStats, no_stats, wrapping_sub, u16_mod, observe, observe_after, observe_ahead, observe_all,
}

wrapping_sub_ahead :
    (n gap : ℕ)
    → 0 < gap
    → gap < 32768
    → (wrapping_sub ((n + gap) % u16_mod) (n % u16_mod) ≡ gap)
      × (32768 < wrapping_sub (n % u16_mod) ((n + gap) % u16_mod))
unfolding wrapping_sub
wrapping_sub_ahead n gap h h' = (omega arith, omega arith)

abbrev IsForward : ℕ → Type 0
IsForward gap = (0 < gap) × (gap < 32768)

observe-ahead :
    (n gap : ℕ) (s : RtpStats)
    → s.max_seq ≡ some (n % u16_mod)
    → IsForward gap
    → observe ((n + gap) % u16_mod) s ≡ record s {
      packets = s.packets + 1;
      expected = s.expected + gap;
      lost = s.lost + (gap - 1);
      max_seq = some ((n + gap) % u16_mod);
    }
unfolding observe observe_after observe_ahead
observe-ahead n gap s h (h0, h1) = ground (arith, h, wrapping_sub_ahead n gap h0 h1)

-- The numbers on the wire of the packets that come, each `gap` ahead of the one before, after one
-- with the number `n`, which is not cut to 16 bits.
abbrev pub stream : ℕ → List ℕ → List ℕ
stream n [] = []
stream n (gap ∷ gaps) = (n + gap) % u16_mod ∷ stream (n + gap) gaps

abbrev pub total : List ℕ → ℕ
total [] = 0
total (gap ∷ gaps) = gap + total gaps

length-total : (gaps : List ℕ) → All IsForward gaps → length gaps ≤ total gaps
length-total [] h = omega arith
length-total (gap ∷ gaps) (h, hs) = omega (arith, h, length-total gaps hs)

observe_all-stream_from :
    (n : ℕ) (gaps : List ℕ) (s : RtpStats)
    → s.max_seq ≡ some (n % u16_mod)
    → All IsForward gaps
    → observe_all (stream n gaps) s ≡ record s {
      packets = s.packets + length gaps;
      expected = s.expected + total gaps;
      lost = s.lost + (total gaps - length gaps);
      max_seq = some ((n + total gaps) % u16_mod);
    }
unfolding observe_all
observe_all-stream_from n [] s h f = ground (arith, h)
observe_all-stream_from n (gap ∷ gaps) s h (f, fs) = ground (
  arith,
  observe-ahead n gap s h f,
  observe_all-stream_from (n + gap) gaps (observe ((n + gap) % u16_mod) s),
  length-total gaps fs,
  f.0,
)

-- A stream in order, with gaps of less than 32768, is counted exactly across every wrap of the 16-bit
-- numbers: what is expected is the last number less the first, plus one, and what is lost is that
-- less the packets that came.
pub observe_all-stream :
    (n : ℕ) (gaps : List ℕ)
    → All IsForward gaps
    → observe_all (n % u16_mod ∷ stream n gaps) no_stats ≡ record {
      packets = length gaps + 1;
      expected = total gaps + 1;
      lost = (total gaps + 1) - (length gaps + 1);
      out_of_order = 0;
      max_seq = some ((n + total gaps) % u16_mod);
    }
unfolding observe_all observe
observe_all-stream n gaps f =
    ground (arith, observe_all-stream_from n gaps (observe (n % u16_mod) no_stats) refl f)

observe_all-bounds_from :
    (seqs : List ℕ) (s : RtpStats)
    → is_some s.max_seq ≡ true
    → s.packets + s.lost ≤ s.expected
    → s.expected ≤ s.packets + s.lost + s.out_of_order
    → let s' = observe_all seqs s in
      (s'.packets + s'.lost ≤ s'.expected) × (s'.expected ≤ s'.packets + s'.lost + s'.out_of_order)
unfolding observe_all observe observe_after observe_ahead
observe_all-bounds_from [] s h l u = (l, u)
observe_all-bounds_from (seq ∷ seqs) s h l u =
    ground (arith, h, observe_all-bounds_from seqs (observe seq s))

-- Whatever the packets, the losses and the packets that came are within what is expected, and what is
-- expected beyond them is at most the packets out of order.
pub observe_all-bounds :
    (seqs : List ℕ)
    → let s = observe_all seqs no_stats in
      (s.packets + s.lost ≤ s.expected) × (s.expected ≤ s.packets + s.lost + s.out_of_order)
unfolding observe_all observe
observe_all-bounds [] = (omega arith, omega arith)
observe_all-bounds (seq ∷ seqs) =
    observe_all-bounds_from seqs (observe seq no_stats) refl (omega arith) (omega arith)

-- A packet that fills a gap, up to 32767 behind the highest number, gives a loss back, and is
-- counted as expected a second time: the gap had counted it already.
pub observe-behind :
    (n back : ℕ) (s : RtpStats)
    → 0 < back
    → back < 32768
    → s.max_seq ≡ some ((n + back) % u16_mod)
    → 0 < s.lost
    → observe (n % u16_mod) s ≡ record s {
      packets = s.packets + 1;
      expected = s.expected + 1;
      lost = s.lost - 1;
      out_of_order = s.out_of_order + 1;
    }
unfolding observe observe_after
observe-behind n back s h h' at_max gap =
    ground (arith, at_max, gap, wrapping_sub_ahead n back h h')
