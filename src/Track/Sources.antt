-- ===== src/Track/Sources.antt =====
-- crates/lk-server/src/track.rs: the wire numbers of track sources, and the effect of muting.
use livekit_rs_voice.Base.{ℕ, ◌≡◌, refl, ◌↔◌, ◌≢◌, if◌then◌else◌, true, false, Bool, arith}
use livekit_rs_voice.Core.{bump}
use livekit_rs_voice.Track.{
  TrackSource, unknown, source_to_proto, source_from_proto, source_from_str, source_str,
  PublishedTrack, set_muted,
}

pub source_from_proto-source_to_proto :
    (s : TrackSource) → source_from_proto (source_to_proto s) ≡ s
unfolding source_from_proto source_to_proto
source_from_proto-source_to_proto unknown = refl
source_from_proto-source_to_proto _ = refl

-- The name that a source prints as is read back, whatever its case, as the number of that source.
pub source_from_str-source_str :
    (s : TrackSource) → source_from_str (source_str s) ≡ source_to_proto s
unfolding source_from_str source_str source_to_proto
source_from_str-source_str unknown = refl
source_from_str-source_str _ = refl

-- Muting leaves the flag as asked, reports a change exactly when the flag was another, and moves
-- the version only then.
pub set_muted_lem :
    (now : ℕ) (muted : Bool) (t : PublishedTrack)
    → let (t', changed) = set_muted now muted t in
      (t'.muted ≡ muted)
      × ((changed ≡ true) ↔ (t.muted ≢ muted))
      × (t'.version ≡ (if changed then bump now t.version else t.version))
unfolding set_muted
set_muted_lem now true t = ground arith
set_muted_lem now false t = ground arith
