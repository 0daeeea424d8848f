-- ===== src/Collections/Set.antt =====
-- `HashSet`: a list read through `contains`. The order of the list stands for the unspecified
-- iteration order.
use rkvm.Prelude.{
  ◌≡◌, refl, Bool, true, false, ◌&&◌, ◌||◌, not, List, [], ◌∷◌, ◌++◌, arith, Eq, ◌=?◌, filter,
  if◌then◌else◌,
}

abbrev pub is_empty {ℓ} : {A : Type ℓ} → List A → Bool
is_empty [] = true
is_empty (x ∷ xs) = false

module _ {ℓ} {A : Type ℓ} ⦃e : Eq A⦄ where
  unfoldable pub contains : A → List A → Bool
  contains a [] = false
  contains a (x ∷ xs) = (x =? a) || contains a xs

  unfoldable pub remove : A → List A → List A
  remove a = filter (λ x. not (x =? a))

  unfoldable pub insert : A → List A → List A
  unfolding contains
  insert a xs = if contains a xs then xs else a ∷ xs

  unfoldable pub is_subset : List A → List A → Bool
  is_subset [] ys = true
  is_subset (x ∷ xs) ys = contains x ys && is_subset xs ys

  unfoldable pub is_disjoint : List A → List A → Bool
  is_disjoint [] ys = true
  is_disjoint (x ∷ xs) ys = not (contains x ys) && is_disjoint xs ys

  unfoldable pub difference : List A → List A → List A
  unfolding contains
  difference xs ys = filter (λ x. not (contains x ys)) xs

  pub contains-filter :
      (p : A → Bool) (a : A) (xs : List A) → contains a (filter p xs) ≡ p a && contains a xs
  unfolding contains
  contains-filter p a [] = ground arith
  contains-filter p a (x ∷ xs) = ground (arith, contains-filter p a xs)

  pub contains-remove :
      (k a : A) (xs : List A) → contains a (remove k xs) ≡ not (a =? k) && contains a xs
  unfolding remove
  contains-remove k a xs = contains-filter (λ x. not (x =? k)) a xs

  pub contains-insert :
      (k a : A) (xs : List A) → contains a (insert k xs) ≡ (k =? a) || contains a xs
  unfolding insert contains
  contains-insert k a xs = ground arith

  pub contains-difference :
      (a : A) (xs ys : List A)
      → contains a (difference xs ys) ≡ not (contains a ys) && contains a xs
  unfolding difference
  contains-difference a xs ys = contains-filter (λ x. not (contains x ys)) a xs

  pub contains-append :
      (a : A) (xs ys : List A) → contains a (xs ++ ys) ≡ contains a xs || contains a ys
  unfolding contains
  contains-append a [] ys = refl
  contains-append a (x ∷ xs) ys = ground (arith, contains-append a xs ys)

  pub contains_of_subset :
      (a : A) (xs ys : List A)
      → is_subset xs ys ≡ true
      → contains a xs ≡ true
      → contains a ys ≡ true
  unfolding contains is_subset
  contains_of_subset a [] ys s h = ground arith
  contains_of_subset a (x ∷ xs) ys s h = ground (arith, contains_of_subset a xs ys)

  pub subset_of_contains :
      (xs ys : List A)
      → ((a : A) → contains a xs ≡ true → contains a ys ≡ true)
      → is_subset xs ys ≡ true
  unfolding is_subset contains
  subset_of_contains [] ys h = refl
  subset_of_contains (x ∷ xs) ys h =
      ground (arith, h x, subset_of_contains xs ys (λ a m. h a (ground arith)))

  pub not_contains_of_empty : (a : A) (xs : List A) → is_empty xs ≡ true → contains a xs ≡ false
  unfolding contains
  not_contains_of_empty a [] h = refl
  not_contains_of_empty a (x ∷ xs) h = cc

  -- A common element shows that two sets are not disjoint.
  pub not_disjoint_of_common :
      (a : A) (xs ys : List A)
      → contains a xs ≡ true
      → contains a ys ≡ true
      → is_disjoint xs ys ≡ false
  unfolding contains is_disjoint
  not_disjoint_of_common a [] ys h g = ground arith
  not_disjoint_of_common a (x ∷ xs) ys h g = ground (arith, not_disjoint_of_common a xs ys)
