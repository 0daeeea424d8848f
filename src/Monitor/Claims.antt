-- ===== src/Monitor/Claims.antt =====
-- rkvm-input/src/monitor.rs: `claim_order` and `reconcile`.
use rkvm.Prelude.{
  ℕ, suc, ◌+◌, ◌^◌, Bool, true, false, ◌&&◌, ◌||◌, List, [], ◌∷◌, ◌++◌, map, Option, none, some,
  ◌==◌, ◌=?◌, ltb, if◌then◌else◌, filter, is_some,
}
use rkvm.Collections.Map
use rkvm.Collections.Set.{contains}
use rkvm.Collections.Sort.{sort_by, minimum}
use rkvm.Input.Device.{FilePath, FilePath_eq, Entry, Entry_eq}
use rkvm.Monitor.Policy.{Policy, legacy, groups, GroupPolicy, Selection, exact_path}
use rkvm.Monitor.Candidate.{
  Candidate, active, unsupported, rejected, blocked, blocked_retry, is_active, is_ready,
  suppresses_lower_rules, schedule_backoff,
}
use rkvm.Monitor.Inventory.{
  Candidates, Monitor, activated, exhausted, fatal, Result, ok, err, and_then, store, discard, send,
}

-- What the file system says of paths: their order, and the path that a link leads to.
pub record Files : Type 0 where
  pub le_path : FilePath → FilePath → Bool
  pub canonicalize : FilePath → Option FilePath

abbrev rule_of : ℕ → Option Selection → Option ℕ
rule_of group none = none
rule_of group (some s) = elim s.group [
  | none ↦ none
  | some g ↦ if g == group then some s.rule else none
]

-- The rule of a candidate that is selected in the group.
unfoldable pub rule_in : ℕ → Candidate → Option ℕ
rule_in group c = rule_of group c.selection

unfoldable pub active_rule : ℕ → Candidates → Option ℕ
active_rule group [] = none
active_rule group ((key, c) ∷ candidates) =
    if is_active c.state && is_some (rule_in group c)
    then rule_in group c
    else active_rule group candidates

abbrev pub or_below : Option ℕ → List ℕ → List ℕ
or_below none ns = ns
or_below (some n) ns = n ∷ ns

-- The rules of the group's candidates that suppress lower ones.
unfoldable pub pending_rules : ℕ → Candidates → List ℕ
pending_rules group [] = []
pending_rules group ((key, c) ∷ candidates) =
    or_below (if suppresses_lower_rules c then rule_in group c else none)
      (pending_rules group candidates)

unfoldable pub is_pending : ℕ → ℕ → Entry × Candidate → Bool
is_pending group rule e = elim (rule_in group e.1) [
  | none ↦ false
  | some r ↦ (r == rule) && suppresses_lower_rules e.1
]

abbrev reaches : Files → Candidate → Option FilePath → Bool
reaches files c none = false
reaches files c (some path) =
    (c.info.path =? path)
    || contains path c.aliases
    || (elim (files.canonicalize path) [ none ↦ false | some p ↦ p =? c.info.path ])

unfoldable pub reaches_exact_path : Files → Candidate → Option FilePath → Bool
reaches_exact_path files c path = reaches files c path

abbrev pub exact_for : Files → Policy → Candidate → Bool
exact_for files policy c = elim c.selection [
  | none ↦ false
  | some s ↦ reaches_exact_path files c (exact_path policy s)
]

-- Candidates that reach the exact path of the rule come first, then the order of the paths decides.
unfoldable pub le_match : Files → Policy → Entry × Candidate → Entry × Candidate → Bool
le_match files policy a b =
    let exact_a = exact_for files policy a.1 in
    let exact_b = exact_for files policy b.1 in
    if exact_a
    then (if exact_b then files.le_path a.1.info.path b.1.info.path else true)
    else if exact_b
    then false
    else files.le_path a.1.info.path b.1.info.path

abbrev pub first_ready : List (Entry × Candidate) → List Entry
first_ready [] = []
first_ready (e ∷ es) = if is_ready e.1.state then e.0 ∷ [] else []

-- The group's candidates with the rule, in the order of preference.
unfoldable pub preferred : Files → Policy → ℕ → ℕ → Candidates → Candidates
preferred files policy group rule candidates =
    sort_by (le_match files policy) (filter (is_pending group rule) candidates)

-- The candidate that a group claims: none while one of the group is active.
unfoldable pub claim_in : Files → Policy → ℕ → Candidates → List Entry
claim_in files policy group candidates = elim (active_rule group candidates) [
  | some rule ↦ []
  | none ↦ elim (minimum (pending_rules group candidates)) [
    | none ↦ []
    | some rule ↦ first_ready (preferred files policy group rule candidates)
  ]
]

unfoldable pub claim_groups : Files → Policy → ℕ → List GroupPolicy → Candidates → List Entry
claim_groups files policy group [] candidates = []
claim_groups files policy group (g ∷ gs) candidates =
    claim_in files policy group candidates ++ claim_groups files policy (suc group) gs candidates

unfoldable pub claim_keys : Files → Policy → Candidates → List Entry
claim_keys files (legacy filtered) candidates =
    map (λ e. e.0)
      (sort_by (λ a b. files.le_path a.1.info.path b.1.info.path)
        (filter (λ e. is_ready e.1.state) candidates))
claim_keys files (groups gs) candidates = claim_groups files (groups gs) 0 gs candidates

abbrev pub below : ℕ → Option ℕ → Bool
below rule none = false
below rule (some r) = ltb r rule

-- What `claim_order` notes on the candidates that an active one of their group keeps waiting.
unfoldable pub log_promotion : ℕ → Option ℕ → Candidate → Candidate
log_promotion group none c = c
log_promotion group (some rule) c =
    if below rule (rule_in group c) && suppresses_lower_rules c
    then record c { promotion_logged = true }
    else c

unfoldable pub log_promotions : ℕ → List GroupPolicy → Candidates → Candidates
log_promotions group [] candidates = candidates
log_promotions group (g ∷ gs) candidates =
    log_promotions (suc group) gs
      (map (λ e. (e.0, log_promotion group (active_rule group candidates) e.1)) candidates)

abbrev pub logged : Policy → Candidates → Candidates
logged (legacy filtered) candidates = candidates
logged (groups gs) candidates = log_promotions 0 gs candidates

-- rkvm-input/src/interceptor.rs: how a claim ends, an error of the output with its kind.
pub data Claim : Type 0 where
  claimed owned stale not_applicable busy gone interrupted permission unsupported_device : Claim
  output_vanished output_interrupted output_failed infrastructure other : Claim

abbrev pub activation_ids : ℕ
activation_ids = 2 ^ 64

-- A claim that succeeds takes the next identifier, whose successor must be a `u64`.
abbrev pub activate : Entry → Candidate → Bool → Monitor → Result Monitor
activate key c true s =
    send (activated s.next_activation_id)
      (record (store key (record c { failures = 0; state = active s.next_activation_id false }) s) {
        next_activation_id = suc s.next_activation_id;
      })
activate key c false s = err exhausted

abbrev pub settle : ℕ → Entry → Candidate → Claim → Monitor → Result Monitor
settle now key c claimed s = activate key c (ltb (suc s.next_activation_id) activation_ids) s
settle now key c gone s = ok (discard key s)
settle now key c stale s = ok (discard key s)
settle now key c owned s = ok (discard key s)
settle now key c not_applicable s = ok (store key (record c { state = rejected }) s)
settle now key c unsupported_device s = ok (store key (record c { state = unsupported }) s)
settle now key c busy s = ok (store key (schedule_backoff now c) s)
settle now key c interrupted s = ok (store key (schedule_backoff now c) s)
settle now key c permission s =
    ok (store key (record c { state = blocked (now + blocked_retry) }) s)
settle now key c output_vanished s = ok (discard key s)
settle now key c output_interrupted s = ok (store key (schedule_backoff now c) s)
settle now key c output_failed s =
    ok (store key (record c { state = blocked (now + blocked_retry) }) s)
settle now key c other s = ok (store key (record c { state = blocked (now + blocked_retry) }) s)
settle now key c infrastructure s = err fatal

-- An interrupted claim is tried once more.
abbrev pub attempt : (ℕ → Claim) → Claim
attempt claims = elim (claims 0) [ interrupted ↦ claims 1 | result ↦ result ]

-- The body of the loop of `reconcile`, where `claims` tells how the attempts on the device end.
unfoldable pub claim_key : ℕ → (ℕ → Claim) → Entry → Monitor → Result Monitor
claim_key now claims key s = elim (Map.get key s.candidates) [
  | none ↦ ok s
  | some c ↦ settle now key c (attempt claims) s
]

unfoldable pub claim_all : ℕ → (Entry → ℕ → Claim) → List Entry → Monitor → Result Monitor
claim_all now claims [] s = ok s
claim_all now claims (key ∷ ks) s =
    and_then (claim_key now (claims key) key s) (λ s'. claim_all now claims ks s')

unfoldable pub reconcile : ℕ → Files → Policy → (Entry → ℕ → Claim) → Monitor → Result Monitor
reconcile now files policy claims s =
    claim_all now claims (claim_keys files policy s.candidates)
      (record s { candidates = logged policy s.candidates })
