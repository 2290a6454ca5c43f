-- ===== src/Base/Maps.antt =====
-- `HashMap<String, V>` and `BTreeMap<String, V>` as association lists. A new key goes to the end;
-- the order in which the source iterates over a map is left open, and no statement depends on it.
use Prim.Native.String.{String}
use mathlib.Core.Path.{◌≡◌, refl, ap}
use mathlib.Core.Bool.{Bool, true, false, ◌||◌}
use mathlib.Core.List.{List, [], ◌∷◌, map}
use mathlib.Core.Option.{Option, none, some}
use native.Mathlib.Omega.{arith}
use text.Mathlib.Text.{◌==◌ as str_eq}
use text.Mathlib.TextEquality.{eq_iff}
use livekit_rs_voice.Base.Tests.{if◌then◌else◌, is_some, Bool-cases}
use livekit_rs_voice.Base.Lists.{length, select, any_of, first_of_list, All}
use text.Mathlib.TextPositions.{eq_refl}
use mathlib.Core.Logic.{inl, inr}
use Prim.Native.Nat.{suc, ◌+◌, ◌≤◌}

abbrev pub Map {ℓ} : Type ℓ → Type ℓ
Map V = List (String × V)

module _ {ℓ} {V : Type ℓ} where
  unfoldable pub get : String → Map V → Option V
  get k [] = none
  get k ((j, v) ∷ m) = if str_eq j k then some v else get k m

  unfoldable pub insert : String → V → Map V → Map V
  insert k v [] = (k, v) ∷ []
  insert k v ((j, w) ∷ m) = if str_eq j k then (k, v) ∷ m else (j, w) ∷ insert k v m

  unfoldable pub remove : String → Map V → Map V
  remove k [] = []
  remove k ((j, v) ∷ m) = let rest = remove k m in if str_eq j k then rest else (j, v) ∷ rest

  abbrev pub contains_key : String → Map V → Bool
  contains_key k m = is_some (get k m)

  abbrev pub values : Map V → List V
  values m = map (λ e. e.1) m

  abbrev pub keys : Map V → List String
  keys m = map (λ e. e.0) m

  -- No key stands twice.
  abbrev pub Distinct : Map V → Type ℓ
  Distinct [] = Unit
  Distinct ((k, v) ∷ m) = (get k m ≡ none) × Distinct m

  pub get-insert :
      (k j : String) (v : V) (m : Map V)
      → get j (insert k v m) ≡ (if str_eq k j then some v else get j m)
  unfolding get insert
  get-insert k j v [] = refl
  get-insert k j v ((i, w) ∷ m) =
      ground (arith, eq_iff k j, eq_iff i k, eq_iff i j, get-insert k j v m)

  pub get-remove :
      (k j : String) (m : Map V) → get j (remove k m) ≡ (if str_eq k j then none else get j m)
  unfolding get remove
  get-remove k j [] = ground arith
  get-remove k j ((i, w) ∷ m) = ground (arith, eq_iff k j, eq_iff i k, eq_iff i j, get-remove k j m)

  pub insert-Distinct : (k : String) (v : V) (m : Map V) → Distinct m → Distinct (insert k v m)
  unfolding get insert
  insert-Distinct k v [] d = ground arith
  insert-Distinct k v ((i, w) ∷ m) d =
      ground (arith, eq_iff i k, eq_iff k i, get-insert k i v m, insert-Distinct k v m d.1)

  pub remove-Distinct : (k : String) (m : Map V) → Distinct m → Distinct (remove k m)
  unfolding get remove
  remove-Distinct k [] d = d
  remove-Distinct k ((i, w) ∷ m) d = ground (arith, get-remove k i m, remove-Distinct k m d.1)

  -- What no value of the map passes, the value at a key does not pass.
  pub any_of-values-get :
      (test : V → Bool) (s : String) (v : V) (m : Map V)
      → get s m ≡ some v
      → any_of test (values m) ≡ false
      → test v ≡ false
  unfolding get
  any_of-values-get test s v [] h n = cc
  any_of-values-get test s v ((k, w) ∷ m) h n = ground (arith, any_of-values-get test s v m)

  -- A value that passes stands at a key.
  pub any_of-values-find :
      (test : V → Bool) (m : Map V)
      → Distinct m
      → any_of test (values m) ≡ true
      → (s : String) × (v : V) × (get s m ≡ some v) × (test v ≡ true)
  unfolding get
  any_of-values-find test [] d h = cc
  any_of-values-find test ((k, w) ∷ m) d h = elim (Bool-cases (test w)) [
    | inl here ↦ (k, w, rw eq_refl, here)
    | inr there ↦
        let (s, v, found, passes) = any_of-values-find test m d.1 (rw there at h) in
        (s, v, ground (arith, eq_iff k s, found, d.0), passes)
  ]

  -- The first value that passes is the value at a key, and passes.
  pub first_of_list-values :
      (test : V → Bool) (m : Map V) (v : V)
      → Distinct m
      → first_of_list test (values m) ≡ some v
      → (test v ≡ true) × (s : String) × (get s m ≡ some v)
  unfolding get
  first_of_list-values test [] v d h = cc
  first_of_list-values test ((k, w) ∷ m) v d h = elim (Bool-cases (test w)) [
    | inl here ↦ (ground arith, k, rw eq_refl (ground arith))
    | inr there ↦
        let (passes, s, found) = first_of_list-values test m v d.1 (rw there at h) in
        (passes, s, ground (arith, eq_iff k s, found, d.0))
  ]

  pub any_of-values-insert_new :
      (test : V → Bool) (k : String) (v : V) (m : Map V)
      → get k m ≡ none
      → any_of test (values (insert k v m)) ≡ (any_of test (values m) || test v)
  unfolding insert get
  any_of-values-insert_new test k v [] h = ground arith
  any_of-values-insert_new test k v ((j, w) ∷ m) h =
      ground (arith, any_of-values-insert_new test k v m)

  pub any_of-values-remove :
      (test : V → Bool) (k : String) (m : Map V)
      → any_of test (values m) ≡ false
      → any_of test (values (remove k m)) ≡ false
  unfolding remove
  any_of-values-remove test k [] h = refl
  any_of-values-remove test k ((j, w) ∷ m) h = ground (arith, any_of-values-remove test k m)

  pub length-select-insert-le :
      (test : V → Bool) (k : String) (v : V) (m : Map V)
      → length (select test (values (insert k v m)))
        ≤ length (select test (values m)) + (if test v then 1 else 0)
  unfolding insert
  length-select-insert-le test k v [] = ground arith
  length-select-insert-le test k v ((j, w) ∷ m) = ground (arith, length-select-insert-le test k v m)

  pub length-select-remove-le :
      (test : V → Bool) (k : String) (m : Map V)
      → length (select test (values (remove k m))) ≤ length (select test (values m))
  unfolding remove
  length-select-remove-le test k [] = omega arith
  length-select-remove-le test k ((j, w) ∷ m) = ground (arith, length-select-remove-le test k m)

  pub remove_absent : (k : String) (m : Map V) → get k m ≡ none → remove k m ≡ m
  unfolding get remove
  remove_absent k [] h = refl
  remove_absent k ((j, w) ∷ m) h = ground (arith, remove_absent k m)

  -- To take out what was just put in at a new key gives the map back.
  pub remove-insert_new :
      (k : String) (v : V) (m : Map V) → get k m ≡ none → remove k (insert k v m) ≡ m
  unfolding get insert remove
  remove-insert_new k v [] h = ground (arith, eq_refl k)
  remove-insert_new k v ((j, w) ∷ m) h = ground (arith, remove-insert_new k v m)

  -- To write a key again with the same value changes nothing.
  pub insert-insert : (k : String) (v : V) (m : Map V) → insert k v (insert k v m) ≡ insert k v m
  unfolding insert
  insert-insert k v [] = ground (arith, eq_refl k)
  insert-insert k v ((j, w) ∷ m) = ground (arith, eq_refl k, insert-insert k v m)

  -- The last value that is written at a key stays.
  pub insert_again : (k : String) (v w : V) (m : Map V) → insert k v (insert k w m) ≡ insert k v m
  unfolding insert
  insert_again k v w [] = ground (arith, eq_refl k)
  insert_again k v w ((j, x) ∷ m) = ground (arith, eq_refl k, insert_again k v w m)

  -- To write what stands at a key changes nothing.
  pub insert_same : (k : String) (v : V) (m : Map V) → get k m ≡ some v → insert k v m ≡ m
  unfolding get insert
  insert_same k v [] h = absurd cc
  insert_same k v ((j, w) ∷ m) h = ground (arith, h, eq_iff j k, insert_same k v m)

module _ {ℓ} {V : Type ℓ} where
  abbrev pub map_values : (V → V) → Map V → Map V
  map_values f [] = []
  map_values f ((k, v) ∷ m) = (k, f v) ∷ map_values f m

  abbrev pub map_option : (V → V) → Option V → Option V
  map_option f none = none
  map_option f (some v) = some (f v)

  pub get-map_values :
      (k : String) (f : V → V) (m : Map V) → get k (map_values f m) ≡ map_option f (get k m)
  unfolding get
  get-map_values k f [] = refl
  get-map_values k f ((j, v) ∷ m) = ground (arith, get-map_values k f m)

  -- A key that has a value is among the keys, and each key has a value.
  pub any_of-keys : (s : String) (m : Map V) → any_of (λ k. str_eq k s) (keys m) ≡ is_some (get s m)
  unfolding get
  any_of-keys s [] = refl
  any_of-keys s ((j, v) ∷ m) = ground (arith, any_of-keys s m)

  All-is_some-cons :
      (j : String) (v : V) (m : Map V) (ks : List String)
      → All (λ k. is_some (get k m) ≡ true) ks
      → All (λ k. is_some (get k ((j, v) ∷ m)) ≡ true) ks
  unfolding get
  All-is_some-cons j v m [] h = tt
  All-is_some-cons j v m (k ∷ ks) h = (ground (arith, h.0), All-is_some-cons j v m ks h.1)

  pub All-keys : (m : Map V) → All (λ k. is_some (get k m) ≡ true) (keys m)
  unfolding get
  All-keys [] = tt
  All-keys ((j, v) ∷ m) = (rw eq_refl, All-is_some-cons j v m (keys m) (All-keys m))

  pub length-keys : (m : Map V) → length (keys m) ≡ length m
  length-keys [] = refl
  length-keys ((j, v) ∷ m) = ap suc (length-keys m)

  pub map_values-Distinct : (f : V → V) (m : Map V) → Distinct m → Distinct (map_values f m)
  map_values-Distinct f [] d = tt
  map_values-Distinct f ((j, v) ∷ m) d =
      (ground (arith, d.0, get-map_values j f m), map_values-Distinct f m d.1)

  -- A test that the function does not change passes as before.
  pub any_of-map_values :
      (test : V → Bool) (f : V → V) (m : Map V)
      → ((v : V) → test (f v) ≡ test v)
      → any_of test (values (map_values f m)) ≡ any_of test (values m)
  any_of-map_values test f [] h = refl
  any_of-map_values test f ((j, v) ∷ m) h = ground (arith, h v, any_of-map_values test f m h)
