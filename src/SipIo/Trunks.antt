-- ===== src/SipIo/Trunks.antt =====
-- crates/lk-server/src/ioservice.rs: which trunk a call is matched to.
use livekit_rs_voice.Base.{
  ◌+◌, ◌≡◌, refl, Bool, not, ◌&&◌, List, [], ◌∷◌, ◌++◌, Option, none, some, arith, if◌then◌else◌,
  is_some, length, select, Bool-cases, inl, inr, ap, ap₂, sym, ◌∙◌, append-nil, append_assoc,
  length-append,
}
use livekit_rs_voice.DispatchRules.{is_empty_list}
use livekit_rs_voice.SipIo.{
  SipCall, SipInboundTrunkInfo, Addresses, admits, has_number, TrunkMatch, multiple_trunks,
  multiple_defaults, trunk, choose_trunk, match_trunk_loop, match_trunk,
}

-- The answer by the trunks that fit: the one of the number; else the one for any number; more than
-- one is an error.
abbrev pub only_default : List SipInboundTrunkInfo → TrunkMatch
only_default [] = trunk none
only_default (t ∷ []) = trunk (some t)
only_default (t ∷ u ∷ ts) = multiple_defaults

abbrev pub only_trunk : List SipInboundTrunkInfo → List SipInboundTrunkInfo → TrunkMatch
only_trunk [] defaults = only_default defaults
only_trunk (t ∷ []) defaults = trunk (some t)
only_trunk (t ∷ u ∷ ts) defaults = multiple_trunks

-- What the loop carries stands for lists of the trunks seen: `selected` for one of a number, the last
-- default and the count for the defaults.
abbrev last_of : List SipInboundTrunkInfo → Option SipInboundTrunkInfo
last_of [] = none
last_of (t ∷ []) = some t
last_of (t ∷ u ∷ ts) = last_of (u ∷ ts)

abbrev as_list : Option SipInboundTrunkInfo → List SipInboundTrunkInfo
as_list none = []
as_list (some t) = t ∷ []

last_of-snoc :
    (ts : List SipInboundTrunkInfo) (t : SipInboundTrunkInfo) → last_of (ts ++ t ∷ []) ≡ some t
last_of-snoc [] t = refl
last_of-snoc (u ∷ []) t = refl
last_of-snoc (u ∷ v ∷ ts) t = last_of-snoc (v ∷ ts) t

choose_trunk-only :
    (selected : Option SipInboundTrunkInfo) (defaults : List SipInboundTrunkInfo)
    → choose_trunk selected (last_of defaults) (length defaults)
      ≡ only_trunk (as_list selected) defaults
choose_trunk-only (some t) defaults = refl
choose_trunk-only none [] = refl
choose_trunk-only none (t ∷ []) = refl
choose_trunk-only none (t ∷ u ∷ ts) = ground arith

module _ (net : Addresses) (call : SipCall) where
  -- The trunk admits the caller, and is one of the called number.
  abbrev pub is_specific_trunk : SipInboundTrunkInfo → Bool
  is_specific_trunk tr =
      admits net call tr && not (is_empty_list tr.numbers) && has_number net call tr

  -- The trunk admits the caller, and is for any number.
  abbrev pub is_default_trunk : SipInboundTrunkInfo → Bool
  is_default_trunk tr = admits net call tr && is_empty_list tr.numbers

  abbrev Loops :
      List SipInboundTrunkInfo → Option SipInboundTrunkInfo → List SipInboundTrunkInfo → Type 0
  Loops trunks selected defaults =
      match_trunk_loop net call trunks selected (last_of defaults) (length defaults)
      ≡ only_trunk (as_list selected ++ select is_specific_trunk trunks)
          (defaults ++ select is_default_trunk trunks)

  -- A default that was just seen comes last.
  default_seen :
      (tr : SipInboundTrunkInfo) (trunks : List SipInboundTrunkInfo)
      (selected : Option SipInboundTrunkInfo) (defaults : List SipInboundTrunkInfo)
      → Loops trunks selected (defaults ++ tr ∷ [])
      → match_trunk_loop net call trunks selected (some tr) (length defaults + 1)
        ≡ only_trunk
            (as_list selected ++ select is_specific_trunk trunks)
            (defaults ++ tr ∷ select is_default_trunk trunks)
  default_seen tr trunks selected defaults h =
      ap₂ (λ last n. match_trunk_loop net call trunks selected last n)
        (sym (last_of-snoc defaults tr)) (sym (length-append defaults (tr ∷ [])))
      ∙ h
      ∙ ap (only_trunk (as_list selected ++ select is_specific_trunk trunks))
          (append_assoc defaults (tr ∷ []) (select is_default_trunk trunks))

  -- A second trunk of the number is an error.
  selected_seen :
      (tr : SipInboundTrunkInfo) (trunks : List SipInboundTrunkInfo)
      (selected : Option SipInboundTrunkInfo) (defaults : List SipInboundTrunkInfo)
      → Loops trunks (some tr) defaults
      → (if is_some selected
          then multiple_trunks
          else match_trunk_loop net call trunks (some tr) (last_of defaults) (length defaults))
        ≡ only_trunk
            (as_list selected ++ tr ∷ select is_specific_trunk trunks)
            (defaults ++ select is_default_trunk trunks)
  selected_seen tr trunks none defaults h = h
  selected_seen tr trunks (some t) defaults h = refl

  loop_lem :
      (trunks : List SipInboundTrunkInfo) (selected : Option SipInboundTrunkInfo)
      (defaults : List SipInboundTrunkInfo)
      → Loops trunks selected defaults
  unfolding match_trunk_loop
  loop_lem [] selected defaults =
      choose_trunk-only selected defaults
      ∙ ap₂ only_trunk (sym (append-nil (as_list selected))) (sym (append-nil defaults))
  loop_lem (tr ∷ trunks) selected defaults = elim (Bool-cases (admits net call tr)) [
    | inr refused ↦ rw refused (loop_lem trunks selected defaults)
    | inl admitted ↦ elim (Bool-cases (is_empty_list tr.numbers)) [
      | inl any ↦
          rw (admitted, any)
            (default_seen tr trunks selected defaults
              (loop_lem trunks selected (defaults ++ tr ∷ [])))
      | inr numbered ↦ elim (Bool-cases (has_number net call tr)) [
        | inr other ↦ rw (admitted, numbered, other) (loop_lem trunks selected defaults)
        | inl called ↦
            rw (admitted, numbered, called)
              (selected_seen tr trunks selected defaults (loop_lem trunks (some tr) defaults))
      ]
    ]
  ]

  -- A call is matched to the one trunk that admits its caller and has its number; if there is none, to
  -- the one that admits the caller and is for any number. Two of the first kind are an error, and so are
  -- two of the second kind where there is none of the first.
  pub match_trunk_lem :
      (trunks : List SipInboundTrunkInfo)
      → match_trunk net trunks call
        ≡ only_trunk (select is_specific_trunk trunks) (select is_default_trunk trunks)
  unfolding match_trunk
  match_trunk_lem trunks = loop_lem trunks none []
