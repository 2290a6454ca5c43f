-- ===== src/Examples/WavRuns.antt =====
-- Tests and instances of the theorem on WAV files (crates/lk-egress/src/wav.rs).
use livekit_rs_voice.Base.{ℕ, ◌+◌, ◌*◌, ◌≡◌, refl, List, [], ◌∷◌, length, arith}
use livekit_rs_voice.Wav.{create, write_all, finish, write_pcm, pcm_bytes, header, overwrite}
use livekit_rs_voice.Wav.Reading.{samples, read_u32, skip, concat, finish_lem}

abbrev chunks : List (List ℕ)
chunks = (1 ∷ 65535 ∷ []) ∷ (300 ∷ []) ∷ []

finish_lem_example :
    let file = (finish (write_all chunks (create 1 48000))).file in
    (length file ≡ 44 + 2 * length (concat chunks))
    × (read_u32 4 file + 8 ≡ length file)
    × (read_u32 24 file ≡ 48000)
    × (read_u32 40 file ≡ 2 * length (concat chunks))
    × (samples (skip 44 file) ≡ concat chunks)
finish_lem_example =
    finish_lem 1 48000 chunks (omega arith) (omega arith, (omega arith, (omega arith, tt)))
      (omega arith)

last_bytes :
    skip 44 (finish (write_all chunks (create 1 48000))).file ≡ 1 ∷ 0 ∷ 255 ∷ 255 ∷ 44 ∷ 1 ∷ []
unfolding finish write_all write_pcm pcm_bytes create header overwrite
last_bytes = refl
