-- ===== src/Psrpc/Names/Channels.antt =====
-- crates/lk-psrpc/src/lib.rs: that the names of channels keep calls apart.
use livekit_rs_voice.Base.{
  ℕ, ◌/◌, ◌%◌, ◌<◌, ◌≡◌, ◌≢◌, refl, true, false, List, [], ◌∷◌, ◌++◌, arith, inl, inr, All, subst,
  sym, ◌∙◌, ap₂,
}
use livekit_rs_voice.Psrpc.{
  is_kept, hex_digit, hex4, escape, sanitize, channel, rpc_channel, req_part, is_empty,
}
use livekit_rs_voice.Psrpc.Names.{cons_inj, escape-cases, IsChar, sanitize_inj}

-- What was sanitized has no '|'.
abbrev NoBar : List ℕ → Type 0
NoBar = All (λ c. c ≢ 124)

All-append : (xs ys : List ℕ) → NoBar xs → NoBar ys → NoBar (xs ++ ys)
All-append [] ys hx hy = hy
All-append (x ∷ xs) ys hx hy = (hx.0, All-append xs ys hx.1 hy)

hex_digit-ne-bar : (d : ℕ) → d < 16 → hex_digit d ≢ 124
unfolding hex_digit
hex_digit-ne-bar d h e = ground (arith, h, e)

hex4-NoBar : (n : ℕ) → NoBar (hex4 n)
unfolding hex4
hex4-NoBar n = (
  hex_digit-ne-bar (n / 4096 % 16) (omega arith),
  (
    hex_digit-ne-bar (n / 256 % 16) (omega arith),
    (hex_digit-ne-bar (n / 16 % 16) (omega arith), (hex_digit-ne-bar (n % 16) (omega arith), tt)),
  ),
)

kept-ne-bar : (c : ℕ) → is_kept c ≡ true → c ≢ 124
kept-ne-bar c kept e = ground (arith, kept, e)

escape-NoBar : (c : ℕ) → NoBar (escape c)
escape-NoBar c = elim (escape-cases c) [
  | inl (kept, e) ↦ subst NoBar (sym e) (kept-ne-bar c kept, tt)
  | inr (inl (small, e)) ↦
      subst NoBar (sym e) ((λ p. omega (arith, p)), ((λ p. omega (arith, p)), hex4-NoBar c))
  | inr (inr e) ↦ subst NoBar (sym e) (
    (λ p. omega (arith, p)),
    (
      (λ p. omega (arith, p)),
      All-append (hex4 (c / 0x10000)) (hex4 (c % 0x10000)) (hex4-NoBar (c / 0x10000))
          (hex4-NoBar (c % 0x10000)),
    ),
  )
]

sanitize-NoBar : (s : List ℕ) → NoBar (sanitize s)
unfolding sanitize
sanitize-NoBar [] = tt
sanitize-NoBar (c ∷ s) = All-append (escape c) (sanitize s) (escape-NoBar c) (sanitize-NoBar s)

-- The first part ends at the first bar.
bar_inj : (a b x y : List ℕ) → NoBar a → NoBar b → a ++ 124 ∷ x ≡ b ++ 124 ∷ y → (a ≡ b) × (x ≡ y)
bar_inj [] [] x y ha hb h = (refl, (cons_inj _ _ _ _ h).1)
bar_inj [] (d ∷ b) x y ha hb h = absurd (hb.0 (sym (cons_inj _ _ _ _ h).0))
bar_inj (c ∷ a) [] x y ha hb h = absurd (ha.0 (cons_inj _ _ _ _ h).0)
bar_inj (c ∷ a) (d ∷ b) x y ha hb h =
    let (same, rest) = cons_inj _ _ _ _ h in
    let (heads, tails) = bar_inj a b x y ha.1 hb.1 rest in (ap₂ ◌∷◌ same heads, tails)

rpc_channel_parts :
    (service method topic : List ℕ)
    → is_empty service ≡ false
    → is_empty method ≡ false
    → is_empty topic ≡ false
    → rpc_channel service method topic
      ≡ sanitize service
        ++ 124 ∷ (sanitize method ++ 124 ∷ (sanitize topic ++ 124 ∷ sanitize req_part))
unfolding rpc_channel channel
rpc_channel_parts [] method topic hs hm ht = absurd cc
rpc_channel_parts (a ∷ service) [] topic hs hm ht = absurd cc
rpc_channel_parts (a ∷ service) (b ∷ method) [] hs hm ht = absurd cc
rpc_channel_parts (a ∷ service) (b ∷ method) (c ∷ topic) hs hm ht = refl

-- Calls of one service that go over one channel are calls of one method and one topic, where none of
-- the names is empty and each is made of Unicode characters.
pub rpc_channel_inj :
    (service method topic method' topic' : List ℕ)
    → is_empty service ≡ false
    → is_empty method ≡ false
    → is_empty topic ≡ false
    → is_empty method' ≡ false
    → is_empty topic' ≡ false
    → All IsChar method
    → All IsChar topic
    → All IsChar method'
    → All IsChar topic'
    → rpc_channel service method topic ≡ rpc_channel service method' topic'
    → (method ≡ method') × (topic ≡ topic')
rpc_channel_inj service method topic method' topic' es em et em' et' cm ct cm' ct' h =
    let (_, methods) =
      bar_inj (sanitize service) (sanitize service) _ _ (sanitize-NoBar service)
        (sanitize-NoBar service)
        (sym (rpc_channel_parts service method topic es em et)
          ∙ h
          ∙ rpc_channel_parts service method' topic' es em' et') in
    let (same_method, topics) =
      bar_inj (sanitize method) (sanitize method') _ _ (sanitize-NoBar method)
        (sanitize-NoBar method') methods in
    let (same_topic, _) =
      bar_inj (sanitize topic) (sanitize topic') _ _ (sanitize-NoBar topic) (sanitize-NoBar topic')
        topics in
    (sanitize_inj method method' cm cm' same_method, sanitize_inj topic topic' ct ct' same_topic)
