-- ===== src/Wav.antt =====
-- crates/lk-egress/src/wav.rs: the writer of WAV files. A file is the list of its bytes, and a 16-bit
-- sample the number of its bits; errors of the file system are left out.
pub mod Reading
use livekit_rs_voice.Base.{ℕ, zero, suc, ◌+◌, ◌*◌, ◌/◌, ◌%◌, List, [], ◌∷◌, ◌++◌, length, u32_mod}

pub record WavWriter : Type 0 where
  pub file : List ℕ
  pub channels : ℕ
  pub sample_rate : ℕ
  pub data_bytes : ℕ

abbrev pub pcm_fmt : ℕ
pcm_fmt = 1

-- to_le_bytes on `u16` and `u32`.
abbrev pub le16 : ℕ → List ℕ
le16 n = n % 256 ∷ n / 256 % 256 ∷ []

abbrev pub le32 : ℕ → List ℕ
le32 n = n % 256 ∷ n / 256 % 256 ∷ n / 65536 % 256 ∷ n / 16777216 % 256 ∷ []

abbrev pub zeros : ℕ → List ℕ
zeros zero = []
zeros (suc n) = 0 ∷ zeros n

unfoldable pub create : ℕ → ℕ → WavWriter
create channels sample_rate = record {
  file = zeros 44;
  channels = channels;
  sample_rate = sample_rate;
  data_bytes = 0;
}

unfoldable pub pcm_bytes : List ℕ → List ℕ
pcm_bytes [] = []
pcm_bytes (s ∷ pcm) = le16 s ++ pcm_bytes pcm

unfoldable pub write_pcm : List ℕ → WavWriter → WavWriter
unfolding pcm_bytes
write_pcm pcm w = record w {
  file = w.file ++ pcm_bytes pcm;
  data_bytes = w.data_bytes + length (pcm_bytes pcm);
}

-- The header of 44 bytes. The products wrap at the widths of their types, and the sizes are cut to 32
-- bits.
unfoldable pub header : ℕ → ℕ → ℕ → List ℕ
header channels sample_rate data_bytes =
    let block_align = channels * 2 % 65536 in
    let byte_rate = sample_rate * block_align % u32_mod in
    b'R' ∷ b'I' ∷ b'F' ∷ b'F' ∷ []
    ++ le32 ((36 + data_bytes) % u32_mod)
    ++ b'W' ∷ b'A' ∷ b'V' ∷ b'E' ∷ b'f' ∷ b'm' ∷ b't' ∷ b' ' ∷ []
    ++ le32 16
    ++ le16 pcm_fmt
    ++ le16 channels
    ++ le32 sample_rate
    ++ le32 byte_rate
    ++ le16 block_align
    ++ le16 16
    ++ b'd' ∷ b'a' ∷ b't' ∷ b'a' ∷ []
    ++ le32 (data_bytes % u32_mod)

-- A write from the start of the file, over what is there.
unfoldable pub overwrite : List ℕ → List ℕ → List ℕ
overwrite [] file = file
overwrite (b ∷ bs) [] = b ∷ bs
overwrite (b ∷ bs) (x ∷ file) = b ∷ overwrite bs file

unfoldable pub finish : WavWriter → WavWriter
unfolding header overwrite
finish w = record w { file = overwrite (header w.channels w.sample_rate w.data_bytes) w.file }

-- The chunks that are written, one after the other.
unfoldable pub write_all : List (List ℕ) → WavWriter → WavWriter
unfolding write_pcm
write_all [] w = w
write_all (pcm ∷ chunks) w = write_all chunks (write_pcm pcm w)
