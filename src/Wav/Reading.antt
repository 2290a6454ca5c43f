-- ===== src/Wav/Reading.antt =====
-- crates/lk-egress/src/wav.rs: what a reader finds in a finished file.
use livekit_rs_voice.Base.{
  ℕ, zero, suc, ◌+◌, ◌*◌, ◌/◌, ◌%◌, ◌<◌, ◌≡◌, refl, sym, ap, subst, ◌∙◌, List, [], ◌∷◌, ◌++◌,
  length, length-append, All, u32_mod, arith,
}
use livekit_rs_voice.Wav.{
  WavWriter, create, pcm_bytes, write_pcm, header, overwrite, finish, write_all,
}

-- The samples that are in a list of bytes.
abbrev pub samples : List ℕ → List ℕ
samples [] = []
samples (b ∷ []) = []
samples (b ∷ c ∷ bytes) = (b + c * 256) ∷ samples bytes

-- The number in the four bytes from a position.
abbrev pub read_u32 : ℕ → List ℕ → ℕ
read_u32 i [] = 0
read_u32 (suc i) (b ∷ bytes) = read_u32 i bytes
read_u32 zero (b ∷ []) = 0
read_u32 zero (b ∷ c ∷ []) = 0
read_u32 zero (b ∷ c ∷ d ∷ []) = 0
read_u32 zero (b ∷ c ∷ d ∷ e ∷ bytes) = b + c * 256 + d * 65536 + e * 16777216

abbrev pub skip : ℕ → List ℕ → List ℕ
skip zero bytes = bytes
skip (suc n) [] = []
skip (suc n) (b ∷ bytes) = skip n bytes

abbrev pub concat : List (List ℕ) → List ℕ
concat [] = []
concat (xs ∷ xss) = xs ++ concat xss

samples-pcm_bytes : (pcm : List ℕ) → All (λ s. s < 65536) pcm → samples (pcm_bytes pcm) ≡ pcm
unfolding pcm_bytes
samples-pcm_bytes [] h = refl
samples-pcm_bytes (s ∷ pcm) (h, hs) = ground (arith, h, samples-pcm_bytes pcm hs)

length-pcm_bytes : (pcm : List ℕ) → length (pcm_bytes pcm) ≡ 2 * length pcm
unfolding pcm_bytes
length-pcm_bytes [] = refl
length-pcm_bytes (s ∷ pcm) = omega (arith, length-pcm_bytes pcm)

pcm_bytes-append : (xs ys : List ℕ) → pcm_bytes (xs ++ ys) ≡ pcm_bytes xs ++ pcm_bytes ys
unfolding pcm_bytes
pcm_bytes-append [] ys = refl
pcm_bytes-append (x ∷ xs) ys = ground (arith, pcm_bytes-append xs ys)

append_assoc : (xs ys zs : List ℕ) → (xs ++ ys) ++ zs ≡ xs ++ (ys ++ zs)
append_assoc [] ys zs = refl
append_assoc (x ∷ xs) ys zs = ap (λ l. x ∷ l) (append_assoc xs ys zs)

append_nil : (xs : List ℕ) → xs ++ [] ≡ xs
append_nil [] = refl
append_nil (x ∷ xs) = ap (λ l. x ∷ l) (append_nil xs)

-- What the writer holds after some chunks.
write_all-form :
    (chunks : List (List ℕ)) (w : WavWriter)
    → write_all chunks w ≡ record w {
      file = w.file ++ pcm_bytes (concat chunks);
      data_bytes = w.data_bytes + 2 * length (concat chunks);
    }
unfolding write_all write_pcm pcm_bytes
write_all-form [] w = ground (arith, append_nil w.file)
write_all-form (pcm ∷ chunks) w = ground (
  arith,
  write_all-form chunks (write_pcm pcm w),
  length-append pcm (concat chunks),
  length-pcm_bytes pcm,
  pcm_bytes-append pcm (concat chunks),
  append_assoc w.file (pcm_bytes pcm) (pcm_bytes (concat chunks)),
)

plain : (n : ℕ) → 0 + n ≡ n
plain n = omega arith

le32-read :
    (n : ℕ)
    → n < u32_mod
    → n % 256 + n / 256 % 256 * 256 + n / 65536 % 256 * 65536 + n / 16777216 % 256 * 16777216 ≡ n
le32-read n h = omega (arith, h)

-- A file whose samples are 16 bits wide and that stays under four gigabytes reads back: its size is
-- that of the header and the samples, the two sizes in the header and the sample rate are right, and
-- the samples behind the header are those that were written, in order.
pub finish_lem :
    (channels sample_rate : ℕ) (chunks : List (List ℕ))
    → sample_rate < u32_mod
    → All (λ s. s < 65536) (concat chunks)
    → 36 + 2 * length (concat chunks) < u32_mod
    → let file = (finish (write_all chunks (create channels sample_rate))).file in
      (length file ≡ 44 + 2 * length (concat chunks))
      × (read_u32 4 file + 8 ≡ length file)
      × (read_u32 24 file ≡ sample_rate)
      × (read_u32 40 file ≡ 2 * length (concat chunks))
      × (samples (skip 44 file) ≡ concat chunks)
unfolding finish create overwrite header
finish_lem channels sample_rate chunks rate narrow small =
    let n : ℕ = 2 * length (concat chunks) in
    let bytes : List ℕ = pcm_bytes (concat chunks) in
    let file : List ℕ = header channels sample_rate n ++ bytes in
    let written : (finish (write_all chunks (create channels sample_rate))).file ≡ file =
      ap (λ w. (finish w).file) (write_all-form chunks (create channels sample_rate))
      ∙ ap (λ k. header channels sample_rate k ++ bytes) (plain n) in
    let size : length file ≡ 44 + n = omega (arith, length-pcm_bytes (concat chunks)) in
    let wrapped : (36 + n) % u32_mod ≡ 36 + n = omega (arith, small) in
    let wrapped' : n % u32_mod ≡ n = omega (arith, small) in
    subst
      (λ f.
        (length f ≡ 44 + n)
        × (read_u32 4 f + 8 ≡ length f)
        × (read_u32 24 f ≡ sample_rate)
        × (read_u32 40 f ≡ n)
        × (samples (skip 44 f) ≡ concat chunks))
      (sym written)
      (
        size,
        omega (arith, size, small),
        le32-read sample_rate rate,
        omega (arith, small),
        samples-pcm_bytes (concat chunks) narrow,
      )
