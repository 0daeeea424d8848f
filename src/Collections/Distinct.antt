-- ===== src/Collections/Distinct.antt =====
-- A list without repetitions, and the test that inserts each element into a set.
use rkvm.Prelude.{◌≡◌, refl, Bool, true, false, ◌&&◌, not, List, [], ◌∷◌, arith, Eq, ap, ◌∙◌, sym}
use rkvm.Collections.Set.{contains}

module _ {ℓ} {A : Type ℓ} ⦃e : Eq A⦄ where
  abbrev pub AreDistinct : List A → Type 0
  AreDistinct [] = Unit
  AreDistinct (a ∷ rest) = (contains a rest ≡ false) × AreDistinct rest

  -- `iter().all(|a| seen.insert(a))`, from the elements that were seen before on.
  unfoldable pub all_new : List A → List A → Bool
  all_new seen [] = true
  all_new seen (a ∷ rest) = not (contains a seen) && all_new (a ∷ seen) rest

  -- No element of the one list is in the other.
  abbrev pub AreApart : List A → List A → Type ℓ
  AreApart seen xs = (a : A) → contains a seen ≡ true → contains a xs ≡ false

  pub nothing_seen : (xs : List A) → AreApart [] xs
  unfolding contains
  nothing_seen xs a h = absurd cc

  pub all_new-AreDistinct :
      (seen xs : List A) → all_new seen xs ≡ true → AreApart seen xs × AreDistinct xs
  unfolding all_new contains
  all_new-AreDistinct seen [] h = (λ a there. refl, tt)
  all_new-AreDistinct seen (x ∷ xs) h =
      let (apart, distinct) = all_new-AreDistinct (x ∷ seen) xs (ground arith) in
      let not_seen : contains x seen ≡ false = ground (arith, h) in
      (
        λ a there. elim (e.dec x a) [
          | yes same ↦ absurd (cc (sym there ∙ ap (λ y. contains y seen) (sym same) ∙ not_seen))
          | no differs ↦ ground (arith, apart a (ground (arith, there)))
        ],
        (apart x (ground arith), distinct),
      )

  pub AreDistinct-all_new :
      (seen xs : List A) → AreApart seen xs → AreDistinct xs → all_new seen xs ≡ true
  unfolding all_new contains
  AreDistinct-all_new seen [] apart h = refl
  AreDistinct-all_new seen (x ∷ xs) apart (fresh, h) =
      let rest =
        AreDistinct-all_new (x ∷ seen) xs
          (λ a there. elim (e.dec x a) [
            | yes same ↦ ap (λ y. contains y xs) (sym same) ∙ fresh
            | no differs ↦ ground (arith, apart a (ground arith))
          ])
          h in
      ground (arith, rest, apart x)
