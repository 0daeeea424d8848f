-- ===== src/Collections/Sort.antt =====
-- `sort_by`, `min` and `position` of Rust's standard library, on lists.
use rkvm.Prelude.{
  ℕ, zero, suc, ◌≡◌, refl, Bool, true, false, List, [], ◌∷◌, Option, none, some, arith,
  if◌then◌else◌, ◌≤◌, ◌<◌, ltb, All, Bool-cases, Option-cases, inl, inr, get_elem?, filter, ap, ◌∙◌,
}

module _ {ℓ} {A : Type ℓ} where
  unfoldable pub insert_by : (A → A → Bool) → A → List A → List A
  insert_by le a [] = a ∷ []
  insert_by le a (x ∷ xs) = if le a x then a ∷ x ∷ xs else x ∷ insert_by le a xs

  -- A stable sort.
  unfoldable pub sort_by : (A → A → Bool) → List A → List A
  unfolding insert_by
  sort_by le [] = []
  sort_by le (x ∷ xs) = insert_by le x (sort_by le xs)

  -- `iter().position(p)`
  unfoldable pub position : (A → Bool) → List A → Option ℕ
  position p [] = none
  position p (x ∷ xs) =
      if p x then some 0 else (elim (position p xs) [ none ↦ none | some i ↦ some (suc i) ])

  insert_by-All :
      (P : A → Type 0) (le : A → A → Bool) (a : A) (xs : List A)
      → P a
      → All P xs
      → All P (insert_by le a xs)
  unfolding insert_by
  insert_by-All P le a [] p h = (p, tt)
  insert_by-All P le a (x ∷ xs) p h = elim (Bool-cases (le a x)) [
    | inl e ↦ rw e (p, h)
    | inr e ↦ rw e (h.0, insert_by-All P le a xs p h.1)
  ]

  -- What holds of the elements holds of the sorted ones.
  pub sort_by-All :
      (P : A → Type 0) (le : A → A → Bool) (xs : List A) → All P xs → All P (sort_by le xs)
  unfolding sort_by
  sort_by-All P le [] h = tt
  sort_by-All P le (x ∷ xs) h = insert_by-All P le x (sort_by le xs) h.0 (sort_by-All P le xs h.1)

  earlier :
      (p : A → Bool) (x : A) (xs : List A) (n : ℕ)
      → p x ≡ false
      → ((j : ℕ) (b : A) → j < n → get_elem? xs j ≡ some b → p b ≡ false)
      → (i : ℕ) → i ≡ suc n
      → (j : ℕ) (b : A) → j < i
      → get_elem? (x ∷ xs) j ≡ some b
      → p b ≡ false
  earlier p x xs n e before i here zero b lt found = ground arith
  earlier p x xs n e before i here (suc j) b lt found = before j b (omega arith) found

  -- The position is that of an element that passes, and none before it does.
  pub position_lem :
      (p : A → Bool) (xs : List A) (i : ℕ)
      → position p xs ≡ some i
      → ((a : A) × (get_elem? xs i ≡ some a) × (p a ≡ true))
        × ((j : ℕ) (b : A) → j < i → get_elem? xs j ≡ some b → p b ≡ false)
  unfolding position
  position_lem p [] i h = cc
  position_lem p (x ∷ xs) i h = elim (Bool-cases (p x)) [
    | inl e ↦
        let here : i ≡ 0 = ground arith in
        ((x, ap (get_elem? (x ∷ xs)) here, e), λ j b lt found. absurd (omega arith))
    | inr e ↦ elim (Option-cases (position p xs)) [
      | inl none_there ↦ absurd (ground arith)
      | inr (n, there) ↦
          let here : i ≡ suc n = ground arith in
          let (found, before) = position_lem p xs n there in
          (
            (found.0, ap (get_elem? (x ∷ xs)) here ∙ found.1, found.2),
            earlier p x xs n e before i here,
          )
    ]
  ]

  pub position-none :
      (p : A → Bool) (xs : List A)
      → position p xs ≡ none
      → (j : ℕ) (b : A) → get_elem? xs j ≡ some b
      → p b ≡ false
  unfolding position
  position-none p [] h j b found = absurd cc
  position-none p (x ∷ xs) h zero b found = ground arith
  position-none p (x ∷ xs) h (suc j) b found = position-none p xs (ground arith) j b found

  -- What is filtered passes the test.
  pub filter-All :
      (P : A → Type 0) (p : A → Bool) (xs : List A)
      → All P xs
      → All (λ x. P x × (p x ≡ true)) (filter p xs)
  filter-All P p [] h = tt
  filter-All P p (x ∷ xs) (px, h) = elim (Bool-cases (p x)) [
    | inl e ↦ rw (e, filter, All) ((px, e), filter-All P p xs h)
    | inr e ↦ rw (e, filter, All) (filter-All P p xs h)
  ]

  pub All-map : (P Q : A → Type 0) (xs : List A) → ((x : A) → P x → Q x) → All P xs → All Q xs
  All-map P Q [] f h = tt
  All-map P Q (x ∷ xs) f (px, h) = (f x px, All-map P Q xs f h)

unfoldable pub minimum : List ℕ → Option ℕ
minimum [] = none
minimum (n ∷ ns) = elim (minimum ns) [ none ↦ some n | some m ↦ some (if ltb m n then m else n) ]

minimum-none : (ns : List ℕ) → minimum ns ≡ none → ns ≡ []
unfolding minimum
minimum-none [] h = refl
minimum-none (n ∷ ns) h = ground arith

All-le : (m n : ℕ) (ns : List ℕ) → m ≤ n → All (λ x. n ≤ x) ns → All (λ x. m ≤ x) ns
All-le m n [] h all = tt
All-le m n (x ∷ ns) h (p, all) = (omega arith, All-le m n ns h all)

-- The minimum is below every number.
pub minimum_le : (ns : List ℕ) (m : ℕ) → minimum ns ≡ some m → All (λ n. m ≤ n) ns
unfolding minimum
minimum_le [] m h = tt
minimum_le (n ∷ ns) m h = elim (Option-cases (minimum ns)) [
  | inl e ↦ rw (minimum-none ns e) (ground arith, tt)
  | inr (k, e) ↦ (ground arith, All-le m k ns (ground arith) (minimum_le ns k e))
]
