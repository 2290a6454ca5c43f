-- ===== src/SipService/ListUpdates.antt =====
-- crates/lk-server/src/services_sip.rs: what an update of a list leaves in it.
use livekit_rs_voice.Base.{
  ◌≡◌, refl, subst, ◌∙◌, true, not, ◌&&◌, ◌||◌, List, [], ◌∷◌, ◌++◌, String, str_eq, eq_iff, arith,
  if◌then◌else◌, any_of-append, select, Bool-cases, inl, inr,
}
use livekit_rs_voice.DispatchRules.{is_empty_list}
use livekit_rs_voice.SipService.{ListUpdate, holds, add_all, remove_all, apply_list_update}

-- A value that is added unless it is there.
holds-added :
    (w v : String) (current : List String)
    → holds w (if holds v current then current else current ++ v ∷ [])
      ≡ (str_eq v w || holds w current)
holds-added w v current = elim (Bool-cases (str_eq v w)) [
  | inl e ↦
      let same : v ≡ w = ground (arith, e, eq_iff v w) in
      elim (Bool-cases (holds v current)) [
        | inl there ↦ rw (there, e) (subst (λ x. holds x current ≡ true) same there)
        | inr not_there ↦
            rw (not_there, e) (ground (arith, e, any_of-append (λ x. str_eq x w) current (v ∷ [])))
      ]
  | inr e ↦ elim (Bool-cases (holds v current)) [
    | inl there ↦ rw (there, e) refl
    | inr not_there ↦
        rw (not_there, e) (ground (arith, e, any_of-append (λ x. str_eq x w) current (v ∷ [])))
  ]
]

holds-add_all :
    (w : String) (vs current : List String)
    → holds w (add_all vs current) ≡ (holds w vs || holds w current)
holds-add_all w [] current = refl
holds-add_all w (v ∷ vs) current =
    holds-add_all w vs (if holds v current then current else current ++ v ∷ [])
    ∙ ground (arith, holds-added w v current)

holds-select :
    (w v : String) (current : List String)
    → holds w (select (λ u. not (str_eq u v)) current) ≡ (holds w current && not (str_eq v w))
holds-select w v [] = refl
holds-select w v (u ∷ current) =
    ground (arith, holds-select w v current, eq_iff u w, eq_iff u v, eq_iff v w)

holds-remove_all :
    (w : String) (vs current : List String)
    → holds w (remove_all vs current) ≡ (holds w current && not (holds w vs))
holds-remove_all w [] current = ground arith
holds-remove_all w (v ∷ vs) current =
    holds-remove_all w vs (select (λ u. not (str_eq u v)) current)
    ∙ ground (arith, holds-select w v current)

-- A list that is updated holds a value exactly when the update does not remove it, and either adds it or
-- the list that the additions go to has it: the one that the update sets, if it sets any, else nothing
-- if it clears, else the list that was there.
pub apply_list_update_lem :
    (u : ListUpdate) (current : List String) (w : String)
    → holds w (apply_list_update u current) ≡ (
        (holds w u.add
          || (if is_empty_list u.set then not u.clear && holds w current else holds w u.set))
        && not (holds w u.remove))
unfolding apply_list_update
apply_list_update_lem u current w =
    let kept : List String = if u.clear then [] else current in
    let base : List String = if is_empty_list u.set then kept else u.set in
    holds-remove_all w u.remove (add_all u.add base) ∙ ground (arith, holds-add_all w u.add base)
