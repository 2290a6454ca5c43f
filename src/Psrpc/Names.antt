-- ===== src/Psrpc/Names.antt =====
-- crates/lk-psrpc/src/lib.rs: that no two names are sanitized alike.
pub mod Channels
use livekit_rs_voice.Base.{
  ℕ, ◌+◌, ◌*◌, ◌/◌, ◌%◌, ◌<◌, ◌≡◌, ◌≢◌, refl, Bool, true, false, List, [], ◌∷◌, ◌++◌, arith, ltb,
  leb, ◌==◌, if◌then◌else◌, Bool-cases, inl, inr, All, ◌⊎◌, if_true, subst, sym, ap, ◌∙◌, ap₂,
  append_assoc,
}
use livekit_rs_voice.Psrpc.{
  is_kept, hex_digit, hex4, escape, sanitize, channel, rpc_channel, req_part, is_empty,
}

hex_digit_inj : (a b : ℕ) → a < 16 → b < 16 → hex_digit a ≡ hex_digit b → a ≡ b
unfolding hex_digit
hex_digit_inj a b ha hb h = ground (arith, h)

hex4_inj :
    (a b : ℕ) (x y : List ℕ)
    → a < 0x10000
    → b < 0x10000
    → hex4 a ++ x ≡ hex4 b ++ y
    → (a ≡ b) × (x ≡ y)
unfolding hex4
hex4_inj a b x y ha hb h =
    let d₃ =
      hex_digit_inj (a / 4096 % 16) (b / 4096 % 16) (omega arith) (omega arith)
        (ground (arith, h)) in
    let d₂ =
      hex_digit_inj (a / 256 % 16) (b / 256 % 16) (omega arith) (omega arith) (ground (arith, h)) in
    let d₁ =
      hex_digit_inj (a / 16 % 16) (b / 16 % 16) (omega arith) (omega arith) (ground (arith, h)) in
    let d₀ = hex_digit_inj (a % 16) (b % 16) (omega arith) (omega arith) (ground (arith, h)) in
    (omega (arith, d₃, d₂, d₁, d₀, ha, hb), ground (arith, h))

-- What `escape` pushes, by the three kinds of character.
pub escape-cases :
    (c : ℕ)
    → ((is_kept c ≡ true) × (escape c ≡ c ∷ []))
      ⊎ ((c < 0x10000) × (escape c ≡ 117 ∷ 43 ∷ hex4 c))
      ⊎ (escape c ≡ 85 ∷ 43 ∷ (hex4 (c / 0x10000) ++ hex4 (c % 0x10000)))
unfolding escape
escape-cases c = elim (Bool-cases (is_kept c)) [
  | inl kept ↦ inl (kept, if_true (c ∷ []) _ kept)
  | inr other ↦ elim (Bool-cases (ltb c 0x10000)) [
    | inl small ↦ inr (inl (ground (arith, small), rw (other, small) refl))
    | inr large ↦ inr (inr (rw (other, large) refl))
  ]
]

-- The head of a text that was sanitized is not '+'.
abbrev NotPlus : List ℕ → Type 0
NotPlus [] = Unit
NotPlus (c ∷ s) = c ≢ 43

kept-ne-plus : (c : ℕ) → is_kept c ≡ true → c ≢ 43
kept-ne-plus c kept e = ground (arith, kept, e)

sanitize-NotPlus : (s : List ℕ) → NotPlus (sanitize s)
unfolding sanitize
sanitize-NotPlus [] = tt
sanitize-NotPlus (c ∷ s) = elim (escape-cases c) [
  | inl (kept, e) ↦ subst (λ w. NotPlus (w ++ sanitize s)) (sym e) (kept-ne-plus c kept)
  | inr (inl (small, e)) ↦ subst (λ w. NotPlus (w ++ sanitize s)) (sym e) (λ p. omega (arith, p))
  | inr (inr e) ↦ subst (λ w. NotPlus (w ++ sanitize s)) (sym e) (λ p. omega (arith, p))
]

cons_not_nil : (c : ℕ) (x : List ℕ) → c ∷ x ≢ []
cons_not_nil c x h = absurd cc

pub cons_inj : (c d : ℕ) (x y : List ℕ) → c ∷ x ≡ d ∷ y → (c ≡ d) × (x ≡ y)
cons_inj c d x y h = ground (arith, h)

-- A Unicode character is below 0x110000.
abbrev pub IsChar : ℕ → Type 0
IsChar c = c < 0x110000

as_escaped : {a b w v : List ℕ} (x y : List ℕ) → a ≡ w → b ≡ v → a ++ x ≡ b ++ y → w ++ x ≡ v ++ y
as_escaped x y e e' h = ap (λ l. l ++ x) (sym e) ∙ h ∙ ap (λ l. l ++ y) e'

-- A kept character is not the start of an escape, whose second character is '+'.
kept-not_escape : (c d : ℕ) (x y : List ℕ) → NotPlus x → c ∷ x ≡ d ∷ 43 ∷ y → ⊥
kept-not_escape c d x y px h = subst NotPlus (cons_inj c d x (43 ∷ y) h).1 px refl

hex8_inj :
    (c d : ℕ) (x y : List ℕ)
    → IsChar c
    → IsChar d
    → (hex4 (c / 0x10000) ++ hex4 (c % 0x10000)) ++ x
      ≡ (hex4 (d / 0x10000) ++ hex4 (d % 0x10000)) ++ y
    → (c ≡ d) × (x ≡ y)
hex8_inj c d x y hc hd h =
    let (high, rest) =
      hex4_inj (c / 0x10000) (d / 0x10000) (hex4 (c % 0x10000) ++ x) (hex4 (d % 0x10000) ++ y)
        (omega (arith, hc)) (omega (arith, hd))
        (sym (append_assoc (hex4 (c / 0x10000)) (hex4 (c % 0x10000)) x)
          ∙ h
          ∙ append_assoc (hex4 (d / 0x10000)) (hex4 (d % 0x10000)) y) in
    let (low, same) = hex4_inj (c % 0x10000) (d % 0x10000) x y (omega arith) (omega arith) rest in
    (omega (arith, high, low), same)

-- An escape is told from what follows it.
escape_inj :
    (c d : ℕ) (x y : List ℕ)
    → IsChar c
    → IsChar d
    → NotPlus x
    → NotPlus y
    → escape c ++ x ≡ escape d ++ y
    → (c ≡ d) × (x ≡ y)
escape_inj c d x y hc hd px py h = elim (escape-cases c) [
  | inl (kept, e) ↦ elim (escape-cases d) [
    | inl (kept', e') ↦ cons_inj c d x y (as_escaped x y e e' h)
    | inr (inl (small', e')) ↦ absurd (kept-not_escape c _ x _ px (as_escaped x y e e' h))
    | inr (inr e') ↦ absurd (kept-not_escape c _ x _ px (as_escaped x y e e' h))
  ]
  | inr (inl (small, e)) ↦ elim (escape-cases d) [
    | inl (kept', e') ↦ absurd (kept-not_escape d _ y _ py (sym (as_escaped x y e e' h)))
    | inr (inl (small', e')) ↦
        hex4_inj c d x y small small'
          (cons_inj _ _ _ _ (cons_inj _ _ _ _ (as_escaped x y e e' h)).1).1
    | inr (inr e') ↦ absurd (omega (arith, (cons_inj _ _ _ _ (as_escaped x y e e' h)).0))
  ]
  | inr (inr e) ↦ elim (escape-cases d) [
    | inl (kept', e') ↦ absurd (kept-not_escape d _ y _ py (sym (as_escaped x y e e' h)))
    | inr (inl (small', e')) ↦ absurd (omega (arith, (cons_inj _ _ _ _ (as_escaped x y e e' h)).0))
    | inr (inr e') ↦
        hex8_inj c d x y hc hd (cons_inj _ _ _ _ (cons_inj _ _ _ _ (as_escaped x y e e' h)).1).1
  ]
]

escape-nonempty : (c : ℕ) (x : List ℕ) → escape c ++ x ≢ []
escape-nonempty c x h = elim (escape-cases c) [
  | inl (kept, e) ↦ absurd (cons_not_nil _ _ (ap (λ l. l ++ x) (sym e) ∙ h))
  | inr (inl (small, e)) ↦ absurd (cons_not_nil _ _ (ap (λ l. l ++ x) (sym e) ∙ h))
  | inr (inr e) ↦ absurd (cons_not_nil _ _ (ap (λ l. l ++ x) (sym e) ∙ h))
]

-- Two texts that are sanitized alike are the same text.
pub sanitize_inj : (s t : List ℕ) → All IsChar s → All IsChar t → sanitize s ≡ sanitize t → s ≡ t
unfolding sanitize
sanitize_inj [] [] hs ht h = refl
sanitize_inj [] (d ∷ t) hs ht h = absurd (escape-nonempty d (sanitize t) (sym h))
sanitize_inj (c ∷ s) [] hs ht h = absurd (escape-nonempty c (sanitize s) h)
sanitize_inj (c ∷ s) (d ∷ t) hs ht h =
    let (same, rest) =
      escape_inj c d (sanitize s) (sanitize t) hs.0 ht.0 (sanitize-NotPlus s) (sanitize-NotPlus t)
        h in
    ap₂ ◌∷◌ same (sanitize_inj s t hs.1 ht.1 rest)
