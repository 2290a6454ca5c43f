-- ===== src/DispatchRules/Choosing.antt =====
-- crates/lk-server/src/ioservice.rs: the rule that `match_dispatch_rule` finds is the best one.
use livekit_rs_voice.Base.{
  ℕ, suc, ◌+◌, ◌≤◌, ◌≡◌, ◌⊎◌, inl, inr, refl, sym, ap, ◌∙◌, Bool, true, false, not, ◌&&◌, List, [],
  ◌∷◌, Option, none, some, String, arith, ◌==◌, All, select, length, get_elem?, Bool-cases,
  if_cases,
}
use livekit_rs_voice.DispatchRules.{
  SipDispatchRuleInfo, DispatchRequest, dispatch_rule_priority, has_higher_priority, is_empty_list,
  fits, is_of_trunk, Matching, better, match_one, match_loop, or_else, Matched, no_dispatch_matched,
  matched, nothing_yet, match_dispatch_rule,
}

-- No rule of the list comes before this one.
abbrev pub IsFirst : SipDispatchRuleInfo → List SipDispatchRuleInfo → Type 0
IsFirst r rules = All (λ y. dispatch_rule_priority r ≤ dispatch_rule_priority y) rules

-- The rule stands somewhere in the list.
abbrev pub StandsIn : SipDispatchRuleInfo → List SipDispatchRuleInfo → Type 0
StandsIn r rules = (i : ℕ) × (get_elem? rules i ≡ some r)

-- The rules of the trunk, and those of every trunk, that fit the call.
abbrev pub is_specific : Option String → DispatchRequest → SipDispatchRuleInfo → Bool
is_specific trunk req info =
    fits req info && not (is_empty_list info.trunk_ids) && is_of_trunk trunk info

abbrev pub is_default : DispatchRequest → SipDispatchRuleInfo → Bool
is_default req info = fits req info && is_empty_list info.trunk_ids

abbrev best_from :
    List SipDispatchRuleInfo → Option SipDispatchRuleInfo → Option SipDispatchRuleInfo
best_from [] best = best
best_from (x ∷ xs) best = best_from xs (better x best)

higher-le :
    (x y : SipDispatchRuleInfo)
    → has_higher_priority x y ≡ true
    → dispatch_rule_priority x ≤ dispatch_rule_priority y
unfolding has_higher_priority
higher-le x y h = ground (arith, h)

not_higher-le :
    (x y : SipDispatchRuleInfo)
    → has_higher_priority x y ≡ false
    → dispatch_rule_priority y ≤ dispatch_rule_priority x
unfolding has_higher_priority
not_higher-le x y h = ground (arith, h)

IsFirst-le :
    (r b : SipDispatchRuleInfo) (rules : List SipDispatchRuleInfo)
    → dispatch_rule_priority r ≤ dispatch_rule_priority b
    → IsFirst b rules
    → IsFirst r rules
IsFirst-le r b [] h f = tt
IsFirst-le r b (y ∷ ys) h (f, fs) = (omega (arith, h, f), IsFirst-le r b ys h fs)

-- What the search ends with, from a rule that it holds.
abbrev EndsWith :
    List SipDispatchRuleInfo → SipDispatchRuleInfo → Option SipDispatchRuleInfo → Type 0
EndsWith xs b none = ⊥
EndsWith xs b (some r) =
    (dispatch_rule_priority r ≤ dispatch_rule_priority b) × IsFirst r xs × ((r ≡ b) ⊎ StandsIn r xs)

EndsWith-cons :
    (x b c : SipDispatchRuleInfo) (xs : List SipDispatchRuleInfo) (o : Option SipDispatchRuleInfo)
    → dispatch_rule_priority c ≤ dispatch_rule_priority x
    → dispatch_rule_priority c ≤ dispatch_rule_priority b
    → (c ≡ b) ⊎ (c ≡ x)
    → EndsWith xs c o
    → EndsWith (x ∷ xs) b o
EndsWith-cons x b c xs none hx hb e h = h
EndsWith-cons x b c xs (some r) hx hb e (le, first, inr (i, at)) =
    (omega (arith, le, hb), (omega (arith, le, hx), first), inr (suc i, at))
EndsWith-cons x b c xs (some r) hx hb (inl e) (le, first, inl same) =
    (omega (arith, le, hb), (omega (arith, le, hx), first), inl (same ∙ e))
EndsWith-cons x b c xs (some r) hx hb (inr e) (le, first, inl same) = (
  omega (arith, le, hb),
  (omega (arith, le, hx), first),
  inr (0, ap {B = Option SipDispatchRuleInfo} some (sym (same ∙ e))),
)

best_from-EndsWith :
    (xs : List SipDispatchRuleInfo) (b : SipDispatchRuleInfo)
    → EndsWith xs b (best_from xs (some b))
best_from-EndsWith [] b = (omega arith, tt, inl refl)
best_from-EndsWith (x ∷ xs) b = elim (Bool-cases (has_higher_priority x b)) [
  | inl higher ↦ rw higher (
      EndsWith-cons x b x xs (best_from xs (some x)) (omega arith) (higher-le x b higher) (inr refl)
        (best_from-EndsWith xs x))
  | inr lower ↦ rw lower (
      EndsWith-cons x b b xs (best_from xs (some b)) (not_higher-le x b lower) (omega arith)
        (inl refl) (best_from-EndsWith xs b))
]

-- The choice among some rules: none if there are none, and else one of them that is first.
abbrev pub IsChoice : List SipDispatchRuleInfo → Option SipDispatchRuleInfo → Type 0
IsChoice rules none = length rules ≡ 0
IsChoice rules (some r) = IsFirst r rules × StandsIn r rules

EndsWith-IsChoice :
    (x : SipDispatchRuleInfo) (xs : List SipDispatchRuleInfo) (o : Option SipDispatchRuleInfo)
    → EndsWith xs x o
    → IsChoice (x ∷ xs) o
EndsWith-IsChoice x xs none h = absurd h
EndsWith-IsChoice x xs (some r) (le, first, inl same) =
    ((le, first), (0, ap {B = Option SipDispatchRuleInfo} some (sym same)))
EndsWith-IsChoice x xs (some r) (le, first, inr (i, at)) = ((le, first), (suc i, at))

best_from-IsChoice : (xs : List SipDispatchRuleInfo) → IsChoice xs (best_from xs none)
best_from-IsChoice [] = refl
best_from-IsChoice (x ∷ xs) =
    EndsWith-IsChoice x xs (best_from xs (some x)) (best_from-EndsWith xs x)

match_loop-form :
    (trunk : Option String) (req : DispatchRequest) (rules : List SipDispatchRuleInfo)
    (m : Matching)
    → match_loop trunk req rules m ≡ record {
      specific = best_from (select (is_specific trunk req) rules) m.specific;
      specific_cnt = m.specific_cnt + length (select (is_specific trunk req) rules);
      default_rule = best_from (select (is_default req) rules) m.default_rule;
      default_cnt = m.default_cnt + length (select (is_default req) rules);
    }
unfolding match_loop match_one
match_loop-form trunk req [] m = ground arith
match_loop-form trunk req (info ∷ rules) m =
    ground (arith, match_loop-form trunk req rules (match_one trunk req info m))

-- What a call is matched with, from the rules of its trunk and those of every trunk that fit it.
abbrev pub IsMatch : List SipDispatchRuleInfo → List SipDispatchRuleInfo → Matched → Type 0
IsMatch specific default no_dispatch_matched = (length specific ≡ 0) × (length default ≡ 0)
IsMatch specific default (matched none) = ⊥
IsMatch specific default (matched (some r)) =
    (IsFirst r specific × StandsIn r specific)
    ⊎ ((length specific ≡ 0) × IsFirst r default × StandsIn r default)

-- There is no rule on either side.
abbrev none_at_all : List SipDispatchRuleInfo → List SipDispatchRuleInfo → Bool
none_at_all specific default = (0 + length specific == 0) && (0 + length default == 0)

found-IsMatch :
    (specific default : List SipDispatchRuleInfo) (o o' : Option SipDispatchRuleInfo)
    → IsChoice specific o
    → IsChoice default o'
    → none_at_all specific default ≡ false
    → IsMatch specific default (matched (or_else o o'))
found-IsMatch specific default (some r) o' c c' h = inl c
found-IsMatch specific default none (some r) c (first, at) h = inr (c, first, at)
found-IsMatch specific default none none c c' h = absurd (ground (arith, c, c', h))

-- A call is matched with a rule whenever one fits it, and the rule is one that fits: of its trunk if
-- there is such a rule, and else of every trunk, and no rule of the same kind that fits comes before
-- it in priority. It is not matched only if none fits.
pub match_dispatch_rule_lem :
    (rules : List SipDispatchRuleInfo) (trunk : Option String) (req : DispatchRequest)
    → IsMatch
        (select (is_specific trunk req) rules)
        (select (is_default req) rules)
        (match_dispatch_rule rules trunk req)
unfolding match_dispatch_rule
match_dispatch_rule_lem rules trunk req =
    let specific : List SipDispatchRuleInfo = select (is_specific trunk req) rules in
    let default : List SipDispatchRuleInfo = select (is_default req) rules in
    rw (match_loop-form trunk req rules nothing_yet) (
      if_cases (IsMatch specific default) (none_at_all specific default) no_dispatch_matched _
        (λ h. (ground (arith, h), ground (arith, h)))
        (found-IsMatch specific default (best_from specific none) (best_from default none)
          (best_from-IsChoice specific) (best_from-IsChoice default)))
