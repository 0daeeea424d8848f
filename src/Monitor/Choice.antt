-- ===== src/Monitor/Choice.antt =====
-- rkvm-input/src/monitor.rs: which candidate `claim_order` chooses in a group.
use rkvm.Prelude.{
  ℕ, ◌≤◌, ◌≡◌, refl, Bool, true, false, List, [], ◌∷◌, Option, none, some, arith, Option-cases,
  Bool-cases, inl, inr, if◌then◌else◌, ap, ◌∙◌, sym, subst, All, filter, ◌||◌,
}
use mathlib.Core.Option.{some-injective}
use rkvm.Collections.Map
use rkvm.Collections.Sort.{sort_by, insert_by, sort_by-All, filter-All, minimum, minimum_le}
use rkvm.Input.Device.{Entry, Entry_eq, Entry-discrete}
use rkvm.Monitor.Policy.{Policy}
use rkvm.Monitor.Candidate.{Candidate, CandidateState, ready, is_ready, suppresses_lower_rules}
use rkvm.Monitor.Inventory.{Candidates}
use rkvm.Monitor.Claims.{
  Files, rule_in, active_rule, pending_rules, is_pending, le_match, preferred, claim_in,
  first_ready, exact_for, or_below,
}
use rkvm.Monitor.Claimable.{Idle, active_rule-Idle, entries-found}

-- The candidate of the key waits in the group with the rule, and no candidate that waits there has a
-- lower one.
abbrev pub IsLowest : ℕ → Candidates → Entry → ℕ → Type 0
IsLowest g m key rule =
    ((c : Candidate) × (Map.get key m ≡ some c) × (c.state ≡ ready) × (rule_in g c ≡ some rule))
    × ((k : Entry) (d : Candidate) (r : ℕ)
        → Map.get k m ≡ some d
        → suppresses_lower_rules d ≡ true
        → rule_in g d ≡ some r
        → rule ≤ r)

or_below-All :
    (P : ℕ → Type 0) (o : Option ℕ) (ns : List ℕ)
    → All P (or_below o ns)
    → All P ns × ((n : ℕ) → o ≡ some n → P n)
or_below-All P none ns h = (h, λ n e. absurd cc)
or_below-All P (some n) ns (p, h) = (h, λ m e. subst P (some-injective n m e) p)

pending_rules-below :
    (g n : ℕ) (m : Candidates)
    → All (λ r. n ≤ r) (pending_rules g m)
    → (k : Entry) (d : Candidate) (r : ℕ) → Map.get k m ≡ some d
    → suppresses_lower_rules d ≡ true
    → rule_in g d ≡ some r
    → n ≤ r
unfolding pending_rules Map.get
pending_rules-below g n [] h k d r found waits rule = absurd cc
pending_rules-below g n ((j, c) ∷ m) h k d r found waits rule =
    let (below, here) =
      or_below-All (λ x. n ≤ x) (if suppresses_lower_rules c then rule_in g c else none)
        (pending_rules g m) h in
    elim (Entry-discrete j k) [
      | yes e ↦
          let same = some-injective c d (ground arith) in
          here r (rw (ap suppresses_lower_rules same ∙ waits) (ap (rule_in g) same ∙ rule))
      | no apart ↦ pending_rules-below g n m below k d r (ground arith) waits rule
    ]

is_pending-rule :
    (g rule : ℕ) (e : Entry × Candidate) → is_pending g rule e ≡ true → rule_in g e.1 ≡ some rule
unfolding is_pending
is_pending-rule g rule e h = ground arith

rule_in-is_pending :
    (g n rule : ℕ) (e : Entry × Candidate)
    → rule_in g e.1 ≡ some rule
    → suppresses_lower_rules e.1 ≡ true
    → n ≡ rule
    → is_pending g n e ≡ true
unfolding is_pending
rule_in-is_pending g n rule e mine waits same = ground (arith, mine, waits, same)

is_ready-ready : (state : CandidateState) → is_ready state ≡ true → state ≡ ready
is_ready-ready state h = ground arith

first_ready-Lowest :
    (g rule : ℕ) (m xs : Candidates) (key : Entry)
    → All (λ e. (Map.get e.0 m ≡ some e.1) × (is_pending g rule e ≡ true)) xs
    → first_ready xs ≡ key ∷ []
    → (c : Candidate) × (Map.get key m ≡ some c) × (c.state ≡ ready) × (rule_in g c ≡ some rule)
first_ready-Lowest g rule m [] key h e = absurd cc
first_ready-Lowest g rule m (x ∷ xs) key ((found, waits), h) e =
    elim (Bool-cases (is_ready x.1.state)) [
      | inl is_it ↦
          let here : x.0 ≡ key = ground arith in
          (
            x.1,
            sym (ap (λ k. Map.get k m) here) ∙ found,
            is_ready-ready x.1.state is_it,
            is_pending-rule g rule x waits,
          )
      | inr not_it ↦ absurd (ground arith)
    ]

-- A key that `claim_order` chooses for a group is that of a ready candidate whose rule in the group is
-- the lowest among the candidates of the group that suppress lower rules, ready or not, and no
-- candidate is active in the group. The keys of the candidates are distinct, as in every map.
pub claim_in-IsLowest :
    (files : Files) (policy : Policy) (g : ℕ) (m : Candidates) (key : Entry)
    → Map.Distinct m
    → claim_in files policy g m ≡ key ∷ []
    → ((rule : ℕ) × IsLowest g m key rule) × Idle g m
unfolding claim_in preferred
claim_in-IsLowest files policy g m key distinct h = elim (Option-cases (active_rule g m)) [
  | inr (rule, e) ↦ absurd (ground arith)
  | inl e ↦ elim (Option-cases (minimum (pending_rules g m))) [
    | inl f ↦ absurd (ground arith)
    | inr (rule, f) ↦ (
      (
        rule,
        (
          first_ready-Lowest g rule m (preferred files policy g rule m) key
              (sort_by-All _ (le_match files policy) _ (
                filter-All (λ x. Map.get x.0 m ≡ some x.1) (is_pending g rule) m
                  (entries-found m distinct)))
              (ground arith),
          pending_rules-below g rule m (minimum_le (pending_rules g m) rule f),
        ),
      ),
      active_rule-Idle g m e,
    )
  ]
]

module _ (files : Files) (policy : Policy) where
  abbrev reaches_it : Entry × Candidate → Bool
  reaches_it e = exact_for files policy e.1

  abbrev head_reaches : Candidates → Bool
  head_reaches [] = false
  head_reaches (x ∷ xs) = reaches_it x

  abbrev any_reaches : Candidates → Bool
  any_reaches [] = false
  any_reaches (x ∷ xs) = reaches_it x || any_reaches xs

  head_reaches-insert_by :
      (e : Entry × Candidate) (xs : Candidates)
      → head_reaches (insert_by (le_match files policy) e xs) ≡ reaches_it e || head_reaches xs
  unfolding insert_by le_match
  head_reaches-insert_by e [] = ground arith
  head_reaches-insert_by e (x ∷ xs) = ground arith

  head_reaches-sort_by :
      (xs : Candidates) → head_reaches (sort_by (le_match files policy) xs) ≡ any_reaches xs
  unfolding sort_by
  head_reaches-sort_by [] = refl
  head_reaches-sort_by (x ∷ xs) =
      head_reaches-insert_by x (sort_by (le_match files policy) xs)
      ∙ ap (λ b. reaches_it x || b) (head_reaches-sort_by xs)

  any_reaches-filter :
      (p : Entry × Candidate → Bool) (m : Candidates) (k : Entry) (d : Candidate)
      → Map.get k m ≡ some d
      → p (k, d) ≡ true
      → reaches_it (k, d) ≡ true
      → any_reaches (filter p m) ≡ true
  unfolding Map.get
  any_reaches-filter p [] k d found passes reach = absurd cc
  any_reaches-filter p ((j, c) ∷ m) k d found passes reach = elim (Entry-discrete j k) [
    | yes e ↦
        let same : (j, c) ≡ (k, d) = λ i. (e i, some-injective c d (ground arith) i) in
        let passes_here : p (j, c) ≡ true = ap p same ∙ passes in
        let reaches_here : reaches_it (j, c) ≡ true = ap reaches_it same ∙ reach in
        rw (passes_here, filter, any_reaches) (ground (arith, reaches_here))
    | no n ↦
        let rest = any_reaches-filter p m k d (ground arith) passes reach in
        elim (Bool-cases (p (j, c))) [
          | inl e ↦ rw (e, filter, any_reaches) (ground (arith, rest))
          | inr e ↦ rw (e, filter, any_reaches) rest
        ]
  ]

  first_ready-reaches :
      (P : Entry × Candidate → Type 0) (xs : Candidates) (key : Entry)
      → All P xs
      → first_ready xs ≡ key ∷ []
      → (x : Entry × Candidate) × P x × (x.0 ≡ key) × (head_reaches xs ≡ reaches_it x)
  first_ready-reaches P [] key all h = absurd cc
  first_ready-reaches P (x ∷ xs) key (p, all) h = (x, p, ground arith, refl)

  -- Among the candidates of a group's lowest rule, one that reaches the rule's exact path is preferred:
  -- where a candidate that waits with the same rule as the chosen one reaches it, the chosen one does.
  -- The keys of the candidates are distinct, as in every map.
  pub claim_in-exact :
      (g : ℕ) (m : Candidates) (key k : Entry) (c d : Candidate) (rule : ℕ)
      → Map.Distinct m
      → claim_in files policy g m ≡ key ∷ []
      → Map.get key m ≡ some c
      → rule_in g c ≡ some rule
      → Map.get k m ≡ some d
      → rule_in g d ≡ some rule
      → suppresses_lower_rules d ≡ true
      → exact_for files policy d ≡ true
      → exact_for files policy c ≡ true
  unfolding claim_in preferred
  claim_in-exact g m key k c d rule distinct h found mine there theirs waits reach =
      elim (Option-cases (active_rule g m)) [
        | inr (n, e) ↦ absurd (ground arith)
        | inl e ↦ elim (Option-cases (minimum (pending_rules g m))) [
          | inl f ↦ absurd (ground arith)
          | inr (n, f) ↦
              let (x, (x_found, x_waits), x_key, head) =
                first_ready-reaches (λ y. (Map.get y.0 m ≡ some y.1) × (is_pending g n y ≡ true))
                  (preferred files policy g n m) key
                  (sort_by-All _ (le_match files policy) _ (
                    filter-All (λ y. Map.get y.0 m ≡ some y.1) (is_pending g n) m
                      (entries-found m distinct)))
                  (ground arith) in
              let same = some-injective x.1 c (sym x_found ∙ ap (λ y. Map.get y m) x_key ∙ found) in
              let rules =
                some-injective n rule
                  (sym (is_pending-rule g n x x_waits) ∙ ap (rule_in g) same ∙ mine) in
              let pending : is_pending g n (k, d) ≡ true =
                rule_in-is_pending g n rule (k, d) theirs waits rules in
              ap (exact_for files policy) (sym same)
              ∙ sym head
              ∙ head_reaches-sort_by (filter (is_pending g n) m)
              ∙ any_reaches-filter (is_pending g n) m k d there pending reach
        ]
      ]
