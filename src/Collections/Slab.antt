-- ===== src/Collections/Slab.antt =====
-- The `slab` crate, by its documentation: `iter` goes through the entries by ascending key, and
-- `insert` takes a vacant key. Which vacant key it takes is left open: the key is an argument.
use rkvm.Prelude.{ℕ, ◌≡◌, refl, List, [], ◌∷◌, arith, ◌=?◌, ℕ_eq, none, some, if◌then◌else◌, ltb}
use rkvm.Collections.Map

module _ {ℓ} {V : Type ℓ} where
  unfoldable pub insert : ℕ → V → List (ℕ × V) → List (ℕ × V)
  insert k v [] = (k, v) ∷ []
  insert k v ((j, w) ∷ m) = if ltb k j then (k, v) ∷ (j, w) ∷ m else (j, w) ∷ insert k v m

  pub get-insert :
      (k j : ℕ) (v : V) (m : List (ℕ × V))
      → Map.get k m ≡ none
      → Map.get j (insert k v m) ≡ (if k =? j then some v else Map.get j m)
  unfolding insert Map.get
  get-insert k j v [] h = refl
  get-insert k j v ((i, w) ∷ m) h = ground (arith, get-insert k j v m)

  pub insert-Distinct :
      (k : ℕ) (v : V) (m : List (ℕ × V))
      → Map.get k m ≡ none
      → Map.Distinct m
      → Map.Distinct (insert k v m)
  unfolding insert Map.get
  insert-Distinct k v [] h d = (refl, tt)
  insert-Distinct k v ((i, w) ∷ m) h d = ground (arith, insert-Distinct k v m, get-insert k i v m)
