-- ===== src/Monitor/Claimable.antt =====
-- rkvm-input/src/monitor.rs: `claim_order` chooses one candidate of a group, and only while none of
-- the group is active.
use rkvm.Prelude.{
  ℕ, suc, ◌≤◌, ◌≡◌, true, List, [], ◌∷◌, ◌++◌, Option, none, some, arith, ap, ◌∙◌, sym,
  Option-cases, Bool-cases, inl, inr, ◌≢◌, All,
}
use mathlib.Core.Option.{some-injective}
use rkvm.Collections.Map
use rkvm.Collections.Sort.{sort_by-All, filter-All, All-map, minimum}
use rkvm.Input.Device.{Entry, Entry_eq, Entry-discrete}
use rkvm.Monitor.Policy.{Policy, GroupPolicy, Selection}
use rkvm.Monitor.Candidate.{Candidate, is_ready}
use rkvm.Monitor.Inventory.{Candidates}
use rkvm.Monitor.Claims.{
  Files, rule_in, active_rule, is_pending, le_match, preferred, claim_in, claim_groups,
  pending_rules, first_ready,
}
use rkvm.Monitor.Labels.{active_group}

abbrev pub group_of : Option Selection → Option ℕ
group_of none = none
group_of (some s) = s.group

-- The candidate of the key is selected in the group, if it is there.
abbrev pub Home : ℕ → Entry → Candidates → Type 0
Home j key m = (c : Candidate) → Map.get key m ≡ some c → group_of c.selection ≡ some j

-- No candidate is active in the group.
abbrev pub Idle : ℕ → Candidates → Type 0
Idle j m = (k : Entry) (d : Candidate) → Map.get k m ≡ some d → active_group d ≢ some j

-- The keys are of one idle group each, in ascending order from the group `i` on.
abbrev pub Claimable : ℕ → List Entry → Candidates → Type 0
Claimable i [] m = Unit
Claimable i (key ∷ ks) m = (j : ℕ) × (i ≤ j) × Home j key m × Idle j m × Claimable (suc j) ks m

-- Every candidate was there, with its selection, and none is newly active in a group from `i` on.
abbrev pub Keeps : ℕ → Candidates → Candidates → Type 0
Keeps i m m' =
    (k : Entry) (d : Candidate)
    → Map.get k m' ≡ some d
    → (c : Candidate) × (Map.get k m ≡ some c)
      × (c.selection ≡ d.selection)
      × ((n : ℕ) → i ≤ n → active_group d ≡ some n → active_group c ≡ some n)

pub Claimable-Keeps :
    (i : ℕ) (ks : List Entry) (m m' : Candidates)
    → Keeps i m m'
    → Claimable i ks m
    → Claimable i ks m'
Claimable-Keeps i [] m m' keeps h = tt
Claimable-Keeps i (key ∷ ks) m m' keeps (j, le, home, idle, rest) = (
  j,
  le,
  λ d found.
      let (c, there, same, group) = keeps key d found in ap group_of (sym same) ∙ home c there,
  λ k d found e. let (c, there, same, group) = keeps k d found in idle k c there (group j le e),
  Claimable-Keeps (suc j) ks m m'
      (λ k d found.
        let (c, there, same, group) = keeps k d found in
        (c, there, same, λ n lt. group n (omega arith)))
      rest,
)

pub active_rule-Idle : (j : ℕ) (m : Candidates) → active_rule j m ≡ none → Idle j m
unfolding active_rule rule_in active_group Map.get
active_rule-Idle j [] h k d found e = absurd cc
active_rule-Idle j ((key, c) ∷ m) h k d found e = elim (Entry-discrete key k) [
  | yes here ↦ absurd (ground arith)
  | no apart ↦ active_rule-Idle j m (ground arith) k d (ground arith) e
]

extended-found :
    (j : Entry) (c : Candidate) (m xs : Candidates)
    → Map.get j m ≡ none
    → All (λ e. Map.get e.0 m ≡ some e.1) xs
    → All (λ e. Map.get e.0 ((j, c) ∷ m) ≡ some e.1) xs
unfolding Map.get
extended-found j c m [] fresh h = tt
extended-found j c m ((k, d) ∷ xs) fresh (found, h) = (
  elim (Entry-discrete j k) [
    | yes e ↦ absurd (cc (sym found ∙ sym (ap (λ x. Map.get x m) e) ∙ fresh))
    | no n ↦ ground arith
  ],
  extended-found j c m xs fresh h,
)

-- A map finds each of its entries.
pub entries-found : (m : Candidates) → Map.Distinct m → All (λ e. Map.get e.0 m ≡ some e.1) m
unfolding Map.get
entries-found [] h = tt
entries-found ((j, c) ∷ m) (fresh, h) =
    (ground arith, extended-found j c m m fresh (entries-found m h))

rule_in-group :
    (j : ℕ) (c : Candidate) (r : ℕ) → rule_in j c ≡ some r → group_of c.selection ≡ some j
unfolding rule_in
rule_in-group j c r h = ground arith

pending-group :
    (j rule : ℕ) (e : Entry × Candidate)
    → is_pending j rule e ≡ true
    → group_of e.1.selection ≡ some j
unfolding is_pending rule_in
pending-group j rule e h = ground arith

abbrev Chosen : ℕ → Candidates → Entry × Candidate → Type 0
Chosen j m e = (Map.get e.0 m ≡ some e.1) × (group_of e.1.selection ≡ some j)

Claimable-mono :
    (i j : ℕ) (ks : List Entry) (m : Candidates) → i ≤ j → Claimable j ks m → Claimable i ks m
Claimable-mono i j [] m le h = tt
Claimable-mono i j (key ∷ ks) m le (l, le', home, idle, rest) = (l, omega arith, home, idle, rest)

first_ready-Claimable :
    (i : ℕ) (m xs : Candidates) (ks : List Entry)
    → Idle i m
    → All (Chosen i m) xs
    → Claimable (suc i) ks m
    → Claimable i (first_ready xs ++ ks) m
first_ready-Claimable i m [] ks idle h rest = Claimable-mono i (suc i) ks m (omega arith) rest
first_ready-Claimable i m (x ∷ xs) ks idle ((found, group), h) rest =
    elim (Bool-cases (is_ready x.1.state)) [
      | inl e ↦ rw e (
        i,
        omega arith,
        λ c there.
            ap (λ o. group_of o.selection) (some-injective c x.1 (sym there ∙ found)) ∙ group,
        idle,
        rest,
      )
      | inr e ↦ rw e (Claimable-mono i (suc i) ks m (omega arith) rest)
    ]

module _ (files : Files) (policy : Policy) (m : Candidates) (distinct : Map.Distinct m) where
  claim_in-Claimable :
      (i : ℕ) (ks : List Entry)
      → Claimable (suc i) ks m
      → Claimable i (claim_in files policy i m ++ ks) m
  unfolding claim_in preferred
  claim_in-Claimable i ks rest = elim (Option-cases (active_rule i m)) [
    | inr (rule, e) ↦ rw (e, claim_in) (Claimable-mono i (suc i) ks m (omega arith) rest)
    | inl e ↦ elim (Option-cases (minimum (pending_rules i m))) [
      | inl f ↦ rw (e, f, claim_in) (Claimable-mono i (suc i) ks m (omega arith) rest)
      | inr (rule, f) ↦
          rw (e, f, claim_in)
            (first_ready-Claimable i m _ ks (active_rule-Idle i m e)
              (sort_by-All (Chosen i m) (le_match files policy) _ (
                All-map _ (Chosen i m) _ (λ x p. (p.0, pending-group i rule x p.1))
                  (filter-All (λ x. Map.get x.0 m ≡ some x.1) (is_pending i rule) m
                    (entries-found m distinct))))
              rest)
    ]
  ]

  pub claim_groups-Claimable :
      (i : ℕ) (gs : List GroupPolicy) → Claimable i (claim_groups files policy i gs m) m
  unfolding claim_groups
  claim_groups-Claimable i [] = tt
  claim_groups-Claimable i (g ∷ gs) =
      claim_in-Claimable i (claim_groups files policy (suc i) gs m)
        (claim_groups-Claimable (suc i) gs)
