-- ===== src/Collections/Map.antt =====
-- `HashMap` as an association list. Rust's maps have one entry for a key: `Distinct` says so, and
-- every operation keeps it.
use rkvm.Prelude.{◌≡◌, refl, List, [], ◌∷◌, arith, Eq, ◌=?◌, Option, none, some, if◌then◌else◌, map}

module _ {ℓ κ} {K : Type ℓ} {V : Type κ} where
  abbrev pub keys : List (K × V) → List K
  keys = map (λ e. e.0)

  abbrev pub values : List (K × V) → List V
  values = map (λ e. e.1)

module _ {ℓ κ} {K : Type ℓ} {V : Type κ} ⦃e : Eq K⦄ where
  unfoldable pub get : K → List (K × V) → Option V
  get k [] = none
  get k ((j, v) ∷ m) = if j =? k then some v else get k m

  unfoldable pub insert : K → V → List (K × V) → List (K × V)
  insert k v [] = (k, v) ∷ []
  insert k v ((j, w) ∷ m) = if j =? k then (k, v) ∷ m else (j, w) ∷ insert k v m

  unfoldable pub remove : K → List (K × V) → List (K × V)
  remove k [] = []
  remove k ((j, w) ∷ m) = if j =? k then m else (j, w) ∷ remove k m

  -- `entry(k).or_insert(v)`, and `entry(k).or_default()` at the default value.
  unfoldable pub or_insert : K → V → List (K × V) → List (K × V)
  unfolding get insert
  or_insert k v m = elim (get k m) [ none ↦ insert k v m | some w ↦ m ]

  abbrev pub Distinct : List (K × V) → Type κ
  Distinct [] = Unit
  Distinct ((j, w) ∷ m) = (get j m ≡ none) × Distinct m

  pub get-insert :
      (k j : K) (v : V) (m : List (K × V))
      → get j (insert k v m) ≡ (if k =? j then some v else get j m)
  unfolding get insert
  get-insert k j v [] = refl
  get-insert k j v ((i, w) ∷ m) = ground (arith, get-insert k j v m)

  pub get-remove :
      (k j : K) (m : List (K × V))
      → Distinct m
      → get j (remove k m) ≡ (if k =? j then none else get j m)
  unfolding get remove
  get-remove k j [] d = ground arith
  get-remove k j ((i, w) ∷ m) d = ground (arith, get-remove k j m d.1)

  pub get-or_insert :
      (k j : K) (v : V) (m : List (K × V))
      → get j (or_insert k v m)
        ≡ elim (get j m) [ some w ↦ some w | none ↦ if k =? j then some v else none ]
  unfolding or_insert
  get-or_insert k j v m = ground (arith, get-insert k j v m)

  pub insert-Distinct : (k : K) (v : V) (m : List (K × V)) → Distinct m → Distinct (insert k v m)
  unfolding insert get
  insert-Distinct k v [] d = (refl, tt)
  insert-Distinct k v ((i, w) ∷ m) d = ground (arith, insert-Distinct k v m d.1, get-insert k i v m)

  pub remove-Distinct : (k : K) (m : List (K × V)) → Distinct m → Distinct (remove k m)
  unfolding remove
  remove-Distinct k [] d = tt
  remove-Distinct k ((i, w) ∷ m) d = ground (arith, remove-Distinct k m d.1, get-remove k i m d.1)

  pub or_insert-Distinct :
      (k : K) (v : V) (m : List (K × V)) → Distinct m → Distinct (or_insert k v m)
  unfolding or_insert
  or_insert-Distinct k v m d = ground (arith, insert-Distinct k v m d)

pub ruleset map_laws = (get-insert, get-remove, get-or_insert)
