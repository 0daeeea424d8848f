-- ===== src/Monitor/First.antt =====
-- rkvm-input/src/monitor.rs: `selection` takes the first rule that matches, in the order of the groups
-- and of their rules.
use rkvm.Prelude.{
  ℕ, suc, zero, ◌+◌, ◌<◌, ◌≡◌, refl, true, false, List, [], ◌∷◌, none, some, arith, Option-cases,
  inl, inr, ◌⊎◌, get_elem?, ap, ◌∙◌, sym, subst,
}
use mathlib.Core.Option.{some-injective}
use rkvm.Collections.Sort.{position, position_lem, position-none}
use rkvm.Input.Device.{DeviceInfo}
use rkvm.Monitor.Policy.{
  groups, GroupPolicy, CandidatePolicy, Selection, first_rule, selection, rule_at, matches,
}

-- The rule `r` of the group `j` stands before the rule `rule` of the group `i`.
abbrev Before : ℕ → ℕ → ℕ → ℕ → Type 0
Before j r i rule = (j < i) ⊎ ((j ≡ i) × (r < rule))

abbrev pub IsFirst : ℕ → List GroupPolicy → DeviceInfo → Selection → Type 0
IsFirst i gs info s =
    (j : ℕ) × (c : CandidatePolicy) × (s.group ≡ some (j + i))
    × (rule_at gs j s.rule ≡ some c)
    × (c.matcher info ≡ true)
    × ((l r : ℕ) (d : CandidatePolicy)
        → Before l r j s.rule
        → rule_at gs l r ≡ some d
        → d.matcher info ≡ false)

rule_at_head :
    (g : GroupPolicy) (gs : List GroupPolicy) (r : ℕ)
    → rule_at (g ∷ gs) 0 r ≡ get_elem? g.candidates r
unfolding rule_at
rule_at_head g gs r = refl

rule_at_tail :
    (g : GroupPolicy) (gs : List GroupPolicy) (l r : ℕ)
    → rule_at (g ∷ gs) (suc l) r ≡ rule_at gs l r
unfolding rule_at
rule_at_tail g gs l r = refl

module _ (info : DeviceInfo) where
  Before-tail :
      (g : GroupPolicy) (gs : List GroupPolicy) (j rule : ℕ)
      → position (λ c. c.matcher info) g.candidates ≡ none
      → ((l r : ℕ) (d : CandidatePolicy)
          → Before l r j rule
          → rule_at gs l r ≡ some d
          → d.matcher info ≡ false)
      → (l r : ℕ) (d : CandidatePolicy) → Before l r (suc j) rule
      → rule_at (g ∷ gs) l r ≡ some d
      → d.matcher info ≡ false
  unfolding rule_at
  Before-tail g gs j rule h rest zero r d b found =
      position-none (λ c. c.matcher info) g.candidates h r d found
  Before-tail g gs j rule h rest (suc l) r d (inl lt) found = rest l r d (inl (omega arith)) found
  Before-tail g gs j rule h rest (suc l) r d (inr (e, lt)) found =
      rest l r d (inr (omega arith, lt)) found

  Before-head :
      (g : GroupPolicy) (gs : List GroupPolicy) (rule : ℕ)
      → ((r : ℕ) (d : CandidatePolicy)
          → r < rule
          → get_elem? g.candidates r ≡ some d
          → d.matcher info ≡ false)
      → (l r : ℕ) (d : CandidatePolicy) → Before l r 0 rule
      → rule_at (g ∷ gs) l r ≡ some d
      → d.matcher info ≡ false
  unfolding rule_at
  Before-head g gs rule h l r d (inl lt) found = absurd (omega arith)
  Before-head g gs rule h l r d (inr (e, lt)) found =
      h r d lt (ap (λ x. rule_at (g ∷ gs) x r) (sym e) ∙ found)

  first_rule_lem :
      (i : ℕ) (gs : List GroupPolicy) (s : Selection)
      → first_rule i gs info ≡ some s
      → IsFirst i gs info s
  unfolding first_rule
  first_rule_lem i [] s h = absurd cc
  first_rule_lem i (g ∷ gs) s h =
      elim (Option-cases (position (λ c. c.matcher info) g.candidates)) [
        | inl e ↦
            let (j, c, group, there, ok, before) = first_rule_lem (suc i) gs s (ground arith) in
            (
              suc j,
              c,
              group ∙ ap some (omega arith),
              rule_at_tail g gs j s.rule ∙ there,
              ok,
              Before-tail g gs j s.rule e before,
            )
        | inr (rule, e) ↦
            let same : record { group = some i; rule = rule } ≡ s =
              some-injective (record { group = some i; rule = rule }) s (ground arith) in
            let ((c, there, ok), before) = position_lem (λ c. c.matcher info) g.candidates rule e in
            subst (IsFirst i (g ∷ gs) info) same (
              0,
              c,
              ap some (omega arith),
              rule_at_head g gs rule ∙ there,
              ok,
              Before-head g gs rule before,
            )
      ]

  first_rule-none :
      (i : ℕ) (gs : List GroupPolicy)
      → first_rule i gs info ≡ none
      → (l r : ℕ) (d : CandidatePolicy) → rule_at gs l r ≡ some d
      → d.matcher info ≡ false
  unfolding first_rule rule_at
  first_rule-none i [] h l r d found = absurd cc
  first_rule-none i (g ∷ gs) h zero r d found =
      elim (Option-cases (position (λ c. c.matcher info) g.candidates)) [
        | inl e ↦ position-none (λ c. c.matcher info) g.candidates e r d found
        | inr (rule, e) ↦ absurd (ground arith)
      ]
  first_rule-none i (g ∷ gs) h (suc l) r d found =
      elim (Option-cases (position (λ c. c.matcher info) g.candidates)) [
        | inl e ↦ first_rule-none (suc i) gs (ground arith) l r d found
        | inr (rule, e) ↦ absurd (ground arith)
      ]

rule_at-matches :
    (gs : List GroupPolicy) (info : DeviceInfo) (s : Selection) (i : ℕ) (c : CandidatePolicy)
    → s.group ≡ some i
    → rule_at gs i s.rule ≡ some c
    → c.matcher info ≡ true
    → matches (groups gs) s info ≡ true
unfolding matches
rule_at-matches gs info s i c group there ok = rw (group, there) ok

-- The selection of a device under a policy of groups names a rule that matches the device, so that
-- `matches` accepts the device under it, and no rule of an earlier group or earlier in the group
-- matches. Where nothing is selected, no rule of any group matches.
pub selection-IsFirst :
    (gs : List GroupPolicy) (info : DeviceInfo)
    → ((s : Selection)
        → selection (groups gs) info ≡ some s
        → IsFirst 0 gs info s × (matches (groups gs) s info ≡ true))
      × (selection (groups gs) info ≡ none
          → (l r : ℕ) (d : CandidatePolicy) → rule_at gs l r ≡ some d
          → d.matcher info ≡ false)
unfolding selection
selection-IsFirst gs info = (
  λ s h.
      let (j, c, group, there, ok, before) = first_rule_lem info 0 gs s h in
      (
        (j, c, group, there, ok, before),
        rule_at-matches gs info s j c (group ∙ ap some (omega arith)) there ok,
      ),
  λ h. first_rule-none info 0 gs h,
)
