-- ===== src/Monitor/Policy.antt =====
-- rkvm-input/src/monitor.rs: `Policy`, by which a device is selected, and the rule that selects it.
use rkvm.Prelude.{
  ℕ, suc, Bool, true, false, List, [], ◌∷◌, Option, none, some, ℕ_eq, ℕ_discrete, Eq, get_elem?,
}
use rkvm.Collections.Sort.{position}
use rkvm.Input.Device.{FilePath, DeviceInfo}

-- `grab_delay` is in milliseconds.
pub record CandidatePolicy : Type 0 where
  pub matcher : DeviceInfo → Bool
  pub exact_path : Option FilePath
  pub grab_delay : ℕ

pub record GroupPolicy : Type 0 where
  pub name : List ℕ
  pub candidates : List CandidatePolicy

pub data Policy : Type 0 where
  legacy : (DeviceInfo → Bool) → Policy
  groups : List GroupPolicy → Policy

pub record Selection : Type 0 where
  pub group : Option ℕ
  pub rule : ℕ

unfoldable pub Selection-discrete : Discrete (Option Selection)
unfolding ℕ_discrete
Selection-discrete = hlevel ℕ_discrete

instance abbrev pub Selection_eq : Eq (Option Selection)
Selection_eq = record { dec = Selection-discrete }

-- The first rule of the first group that matches, where the groups are counted from `i`.
unfoldable pub first_rule : ℕ → List GroupPolicy → DeviceInfo → Option Selection
first_rule i [] info = none
first_rule i (g ∷ gs) info = elim (position (λ c. c.matcher info) g.candidates) [
  | none ↦ first_rule (suc i) gs info
  | some rule ↦ some (record { group = some i; rule = rule })
]

unfoldable pub selection : Policy → DeviceInfo → Option Selection
selection (legacy filter) info = elim (filter info) [
  | true ↦ some (record { group = none; rule = 0 })
  | false ↦ none
]
selection (groups gs) info = first_rule 0 gs info

-- The rule that a selection names.
unfoldable pub rule_at : List GroupPolicy → ℕ → ℕ → Option CandidatePolicy
rule_at gs group rule = elim (get_elem? gs group) [
  | none ↦ none
  | some g ↦ get_elem? g.candidates rule
]

abbrev matches_rule : Option CandidatePolicy → DeviceInfo → Bool
matches_rule none info = false
matches_rule (some c) info = c.matcher info

abbrev matches_at : Policy → Option ℕ → ℕ → DeviceInfo → Bool
matches_at (legacy filter) none rule info = filter info
matches_at (legacy filter) (some group) rule info = false
matches_at (groups gs) none rule info = false
matches_at (groups gs) (some group) rule info = matches_rule (rule_at gs group rule) info

unfoldable pub matches : Policy → Selection → DeviceInfo → Bool
unfolding rule_at
matches policy s info = matches_at policy s.group s.rule info

-- Where the rule is out of range the source panics. That does not happen to a selection which the
-- policy has made; here the delay is then zero.
abbrev delay_at : Policy → Option ℕ → ℕ → ℕ
delay_at (legacy filter) group rule = 0
delay_at (groups gs) none rule = 0
delay_at (groups gs) (some group) rule = elim (rule_at gs group rule) [
  | none ↦ 0
  | some c ↦ c.grab_delay
]

unfoldable pub delay : Policy → Selection → ℕ
unfolding rule_at
delay policy s = delay_at policy s.group s.rule

abbrev exact_path_at : Policy → Option ℕ → ℕ → Option FilePath
exact_path_at (legacy filter) group rule = none
exact_path_at (groups gs) none rule = none
exact_path_at (groups gs) (some group) rule = elim (rule_at gs group rule) [
  | none ↦ none
  | some c ↦ c.exact_path
]

unfoldable pub exact_path : Policy → Selection → Option FilePath
unfolding rule_at
exact_path policy s = exact_path_at policy s.group s.rule
