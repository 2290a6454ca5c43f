-- ===== src/Participant/Attributes.antt =====
-- crates/lk-server/src/participant.rs: what the updates of a participant's texts change, and that the
-- flag they return says so.
use livekit_rs_voice.Base.{
  ◌≡◌, refl, sym, ◌∙◌, ◌≢◌, ◌↔◌, ◌⊎◌, inl, inr, Bool, true, false, ◌||◌, [], ◌∷◌, Option, none,
  some, String, str_eq, eq_iff, eq_refl, arith, if◌then◌else◌, unwrap_or, Map, get, Distinct,
  get-insert, get-remove, Bool-cases, Option-cases,
}
use livekit_rs_voice.Participant.{
  Participant, set_attribute, set_attribute_loop, set_attributes, update_metadata,
}

-- An empty value stands for no value.
abbrev pub non_empty : String → Option String
non_empty v = if str_eq v "" then none else some v

-- The value that a key has after an update by `attrs`.
abbrev pub updated : Option String → Option String → Option String
updated none old = old
updated (some v) old = non_empty v

module _ (k v : String) (m : Map String) where
  get-set_attribute :
      (j : String) → get j (set_attribute k v m).0 ≡ (if str_eq k j then non_empty v else get j m)
  unfolding set_attribute
  get-set_attribute j = elim (Bool-cases (str_eq v "")) [
    | inl e ↦ rw e (get-remove k j m)
    | inr e ↦ rw e (get-insert k j v m)
  ]

  get-set_attribute_self : get k (set_attribute k v m).0 ≡ non_empty v
  get-set_attribute_self = rw (get-set_attribute k, eq_refl k)

  get-set_attribute_ne : (j : String) → str_eq k j ≡ false → get j (set_attribute k v m).0 ≡ get j m
  get-set_attribute_ne j e = rw (get-set_attribute j, e)

  set_attribute_quiet : (set_attribute k v m).1 ≡ false → non_empty v ≡ get k m
  unfolding set_attribute
  set_attribute_quiet h = elim (Option-cases (get k m)) [
    | inl e ↦ ground arith
    | inr (w, e) ↦ ground (arith, eq_iff w v)
  ]

  set_attribute_loud : (set_attribute k v m).1 ≡ true → non_empty v ≢ get k m
  unfolding set_attribute
  set_attribute_loud h = elim (Option-cases (get k m)) [
    | inl e ↦ ground arith
    | inr (w, e) ↦ ground (arith, eq_iff w v)
  ]

get-loop :
    (attrs m : Map String) (c : Bool) (j : String)
    → Distinct attrs
    → get j (set_attribute_loop attrs m c).0 ≡ updated (get j attrs) (get j m)
unfolding set_attribute_loop get
get-loop [] m c j d = refl
get-loop ((k, v) ∷ rest) m c j d = ground (
  arith,
  eq_iff k j,
  get-set_attribute k v m j,
  get-loop rest (set_attribute k v m).0 (c || (set_attribute k v m).1) j d.1,
)

-- A flag that is up stays up.
loop_stays_up : (attrs m : Map String) → (set_attribute_loop attrs m true).1 ≡ true
unfolding set_attribute_loop
loop_stays_up [] m = refl
loop_stays_up ((k, v) ∷ rest) m = loop_stays_up rest (set_attribute k v m).0

-- A key that the rest of the update does not name keeps the value of its own entry.
get-loop_cons :
    (k v : String) (rest m : Map String) (c : Bool)
    → get k rest ≡ none
    → Distinct rest
    → get k (set_attribute_loop rest (set_attribute k v m).0 c).0 ≡ non_empty v
get-loop_cons k v rest m c fresh d =
    ground (arith, get-loop rest (set_attribute k v m).0 c k d, get-set_attribute_self k v m)

-- If the flag stays down no value has changed.
loop_quiet :
    (attrs m : Map String) (j : String)
    → Distinct attrs
    → (set_attribute_loop attrs m false).1 ≡ false
    → get j (set_attribute_loop attrs m false).0 ≡ get j m
unfolding set_attribute_loop
loop_quiet [] m j d h = refl
loop_quiet ((k, v) ∷ rest) m j d h = elim (Bool-cases (set_attribute k v m).1) [
  | inl up ↦ ground (arith, loop_stays_up rest (set_attribute k v m).0)
  | inr down ↦ ground (
    arith,
    eq_iff k j,
    loop_quiet rest (set_attribute k v m).0 j d.1,
    set_attribute_quiet k v m down,
    get-set_attribute k v m j,
  )
]

-- The case of `loop_loud` for an entry in front, which set the flag to `c`.
loud_cons :
    (k v : String) (rest m : Map String) (c : Bool)
    → get k rest ≡ none
    → Distinct rest
    → (set_attribute k v m).1 ≡ c
    → ((set_attribute_loop rest (set_attribute k v m).0 false).1 ≡ true
        → (j : String) × (get j (set_attribute_loop rest (set_attribute k v m).0 false).0
            ≢ get j (set_attribute k v m).0))
    → (set_attribute_loop rest (set_attribute k v m).0 c).1 ≡ true
    → (j : String) × (get j (set_attribute_loop rest (set_attribute k v m).0 c).0 ≢ get j m)
loud_cons k v rest m true fresh d up later h =
    (k, λ e. set_attribute_loud k v m up (sym (get-loop_cons k v rest m true fresh d) ∙ e))
loud_cons k v rest m false fresh d down later h =
    let (j, moved) = later h in
    (
      j,
      λ e. moved (
          ground (
            arith,
            e,
            eq_iff k j,
            set_attribute_quiet k v m down,
            get-set_attribute k v m j,
            get-loop_cons k v rest m false fresh d,
          )),
    )

-- If the flag goes up some key has changed its value.
loop_loud :
    (attrs m : Map String)
    → Distinct attrs
    → (set_attribute_loop attrs m false).1 ≡ true
    → (j : String) × (get j (set_attribute_loop attrs m false).0 ≢ get j m)
unfolding set_attribute_loop
loop_loud [] m d h = cc
loop_loud ((k, v) ∷ rest) m d h =
    loud_cons k v rest m (set_attribute k v m).1 d.0 d.1 refl
      (loop_loud rest (set_attribute k v m).0 d.1) h

-- After an update by a map of attributes, a key that the map names has the value given there, or none
-- if that is empty, and every other key has the value it had.
pub set_attributes_lem :
    (attrs : Map String) (p : Participant) (j : String)
    → Distinct attrs
    → get j (set_attributes attrs p).0.attributes ≡ updated (get j attrs) (get j p.attributes)
unfolding set_attributes
set_attributes_lem attrs p j d = get-loop attrs p.attributes false j d

-- The update returns true exactly when the value of some key is another than before.
pub set_attributes_changed_iff :
    (attrs : Map String) (p : Participant)
    → Distinct attrs
    → ((set_attributes attrs p).1 ≡ true)
      ↔ ((j : String) × (get j (set_attributes attrs p).0.attributes ≢ get j p.attributes))
unfolding set_attributes
set_attributes_changed_iff attrs p d = (
  loop_loud attrs p.attributes d,
  λ (j, moved). elim (Bool-cases (set_attribute_loop attrs p.attributes false).1) [
    | inl up ↦ up
    | inr down ↦ absurd (moved (loop_quiet attrs p.attributes j d down))
  ],
)

-- An update of metadata and name returns true exactly when one of the two is another than before;
-- an empty or missing text never replaces one.
pub update_metadata_lem :
    (metadata : String) (name : Option String) (p : Participant)
    → let (p', changed) = update_metadata metadata name p in
      ((changed ≡ true) ↔ ((p'.metadata ≢ p.metadata) ⊎ (p'.name ≢ p.name)))
      × (p'.metadata ≡ (if str_eq metadata "" then p.metadata else metadata))
      × (p'.name ≡ (if str_eq (unwrap_or name "") "" then p.name else unwrap_or name ""))
unfolding update_metadata
update_metadata_lem metadata name p =
    ground (arith, eq_iff p.metadata metadata, eq_iff p.name (unwrap_or name ""))
