-- ===== src/SipIo/Numbers.antt =====
-- crates/lk-server/src/ioservice.rs: the normal form of telephone numbers.
use Prim.Native.Char.{char, code}
use Prim.Native.String.{◌++◌ as text_append}
use text.Mathlib.TextLemmas.{cons-append, nil-append}
use livekit_rs_voice.Base.{
  ℕ, ◌≡◌, refl, Bool, true, not, String, str_eq, eq_iff, arith, Bool-cases, inl, inr, ◌⊎◌, ap, sym,
  ◌∙◌,
}
use livekit_rs_voice.SipIo.{
  all_chars, keep_chars, is_filler, is_dialled, starts_with_plus, with_plus, normalize_number,
}

abbrev is_number : ℕ → Bool
is_number c = not (is_filler c)

all_chars-keep_chars :
    (s : String)
    → all_chars is_dialled s ≡ true
    → all_chars is_dialled (keep_chars is_number s) ≡ true
all_chars-keep_chars String.[] h = refl
all_chars-keep_chars (String.◌∷◌ c s) h = elim (Bool-cases (is_number (code c))) [
  | inl kept ↦ rw kept (ground (arith, h, all_chars-keep_chars s))
  | inr dropped ↦ rw dropped (all_chars-keep_chars s (ground (arith, h)))
]

keep_chars-keep_chars :
    (s : String) → keep_chars is_number (keep_chars is_number s) ≡ keep_chars is_number s
keep_chars-keep_chars String.[] = refl
keep_chars-keep_chars (String.◌∷◌ c s) = elim (Bool-cases (is_number (code c))) [
  | inl kept ↦ rw (kept, kept) (ap (String.◌∷◌ c) (keep_chars-keep_chars s))
  | inr dropped ↦ rw dropped (keep_chars-keep_chars s)
]

plus_append : (s : String) → text_append "+" s ≡ String.◌∷◌ (char 43 tt) s
plus_append s = cons-append (char 43 tt) String.[] s ∙ ap (String.◌∷◌ (char 43 tt)) (nil-append s)

-- What `with_plus` gives begins with '+'.
with_plus-starts : (s : String) → starts_with_plus (with_plus s) ≡ true
with_plus-starts s = elim (Bool-cases (starts_with_plus s)) [
  | inl starts ↦ rw starts starts
  | inr other ↦ rw other (rw (plus_append s) refl)
]

with_plus-keep_chars :
    (s : String) → keep_chars is_number s ≡ s → keep_chars is_number (with_plus s) ≡ with_plus s
with_plus-keep_chars s h = elim (Bool-cases (starts_with_plus s)) [
  | inl starts ↦ rw starts h
  | inr other ↦ rw other (rw (plus_append s) (ap (String.◌∷◌ (char 43 tt)) h))
]

with_plus-all_chars :
    (s : String) → all_chars is_dialled s ≡ true → all_chars is_dialled (with_plus s) ≡ true
with_plus-all_chars s h = elim (Bool-cases (starts_with_plus s)) [
  | inl starts ↦ rw starts h
  | inr other ↦ rw other (rw (plus_append s) h)
]

-- A text that begins with '+', is dialled and has no filler is in normal form.
normalize_number_plus :
    (s : String)
    → starts_with_plus s ≡ true
    → all_chars is_dialled s ≡ true
    → keep_chars is_number s ≡ s
    → normalize_number s ≡ s
unfolding normalize_number
normalize_number_plus s starts dialled kept = elim (Bool-cases (str_eq s "")) [
  | inl empty ↦ rw empty (sym ((eq_iff s "").0 empty))
  | inr other ↦ rw (other, dialled) (rw kept (rw starts refl))
]

normalize_number-cases :
    (num : String)
    → (normalize_number num ≡ "")
      ⊎ (normalize_number num ≡ num)
      ⊎ ((all_chars is_dialled num ≡ true)
          × (normalize_number num ≡ with_plus (keep_chars is_number num)))
unfolding normalize_number
normalize_number-cases num = elim (Bool-cases (str_eq num "")) [
  | inl empty ↦ inl (rw empty refl)
  | inr other ↦ elim (Bool-cases (all_chars is_dialled num)) [
    | inl dialled ↦ inr (inr (dialled, rw (other, dialled) refl))
    | inr undialled ↦ inr (inl (rw (other, undialled) refl))
  ]
]

normalize_number_empty : normalize_number "" ≡ ""
unfolding normalize_number
normalize_number_empty = refl

-- To normalize a number twice is to normalize it once, so two numbers that are compared by their normal
-- forms are compared by the same text however they were written.
pub normalize_number-normalize_number :
    (num : String) → normalize_number (normalize_number num) ≡ normalize_number num
normalize_number-normalize_number num = elim (normalize_number-cases num) [
  | inl empty ↦ ap normalize_number empty ∙ normalize_number_empty ∙ sym empty
  | inr (inl same) ↦ ap normalize_number same
  | inr (inr (dialled, e)) ↦
      let cleaned = keep_chars is_number num in
      ap normalize_number e
      ∙ normalize_number_plus (with_plus cleaned) (with_plus-starts cleaned)
          (with_plus-all_chars cleaned (all_chars-keep_chars num dialled))
          (with_plus-keep_chars cleaned (keep_chars-keep_chars num))
      ∙ sym e
]
