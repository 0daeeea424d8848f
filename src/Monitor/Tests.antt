-- ===== src/Monitor/Tests.antt =====
-- rkvm-input/src/monitor.rs: a keyboard that is found, claimed, unplugged and released, and examples at
-- which the hypotheses of the theorems hold.
use rkvm.Prelude.{
  ℕ, ◌+◌, ◌≤◌, ◌<◌, ◌≡◌, ◌≢◌, ◌=?◌, if◌then◌else◌, refl, Bool, true, false, List, [], ◌∷◌, none,
  some, arith,
}
use rkvm.Collections.Map
use rkvm.Collections.Set.{contains}
use rkvm.Collections.Sort.{position, sort_by, insert_by, minimum}
use rkvm.Input.Device.{
  FilePath_eq, FilePath-discrete, DeviceInfo, physical, Entry, Entry_eq, Entry-discrete,
}
use rkvm.Server.State.{disconnected}
use rkvm.Monitor.Policy.{
  Policy, groups, GroupPolicy, CandidatePolicy, Selection, first_rule, selection, rule_at, matches,
  delay, exact_path, Selection-discrete,
}
use rkvm.Monitor.Candidate.{
  Candidate, ready, active, waiting, new, deferred_or_ready, suppresses_lower_rules, retry_at,
  update_policy, schedule_backoff, usize_max,
}
use rkvm.Monitor.Inventory.{
  Candidates, Monitor, activated, remove, Snapshot, candidate, Result, ok, err, store, discard,
  send, request_removal, refresh_key, refresh_keys, discover, refresh_inventory, find_active,
  handle_release, released_state, wake_expired,
}
use rkvm.Monitor.Claims.{
  Files, rule_in, active_rule, pending_rules, is_pending, reaches_exact_path, le_match, preferred,
  claim_in, claim_groups, claim_keys, log_promotion, log_promotions, Claim, claimed, claim_key,
  claim_all, reconcile, exact_for,
}
use rkvm.Monitor.Labels.{active_group, active_id, live_id, Injective}
use rkvm.Monitor.Lives.{newborn, are_lawful, afters}
use rkvm.Monitor.Loop.{Round, inventory, release, rescan, take_arm, round, rounds, monitor, initial}
use rkvm.Monitor.Run.{monitor-one_active, monitor-are_lawful, monitor-active_id}
use rkvm.Monitor.Timing.{schedule_backoff-bounds, wake_expired-progress}
use rkvm.Monitor.Claimable.{Idle}
use rkvm.Monitor.Releases.{handle_release_lem}
use rkvm.Monitor.First.{selection-IsFirst, IsFirst}
use rkvm.Monitor.Choice.{IsLowest, claim_in-IsLowest, claim_in-exact}

abbrev keyboard : ℕ → DeviceInfo
keyboard n = record {
  path = n ∷ [];
  sysfs_path = n ∷ [];
  origin = physical;
  name = n ∷ [];
  bustype = 3;
  vendor = 1;
  product = 2;
  version = 3;
  capabilities = record { key = true; relative = false; absolute = false };
}

abbrev node : ℕ → Entry
node n = record { device = 5; inode = n }

abbrev any_device : List GroupPolicy
any_device =
    record {
      name = 7 ∷ [];
      candidates = record { matcher = λ info. true; exact_path = none; grab_delay = 0 } ∷ [];
    }
    ∷ []

abbrev plain_files : Files
plain_files = record { le_path = λ a b. true; canonicalize = λ p. none }

abbrev all_claimed : Entry → ℕ → Claim
all_claimed key attempt = claimed

abbrev both : List (Entry × Snapshot)
both = (node 1, candidate (keyboard 1) []) ∷ (node 2, candidate (keyboard 2) []) ∷ []

abbrev only_second : List (Entry × Snapshot)
only_second = (node 2, candidate (keyboard 2) []) ∷ []

abbrev always_open : ℕ → Bool
always_open n = true

abbrev unplugged : List Round
unplugged =
    record {
      now = 10;
      arm = inventory (some only_second);
      files = plain_files;
      claims = all_claimed;
    }
    ∷ record {
      now = 20;
      arm = release 1 disconnected (some only_second);
      files = plain_files;
      claims = all_claimed;
    }
    ∷ []

abbrev reached : Result Monitor → Monitor
reached (ok s) = s
reached (err failure) = initial always_open

abbrev unplug_run : Result Monitor
unplug_run = monitor (groups any_device) always_open 0 (some both) plain_files all_claimed unplugged

-- The second keyboard takes the place of the first once that is released.
unplug_run_sent : (reached unplug_run).sent ≡ activated 1 ∷ remove 1 ∷ activated 2 ∷ []
unfolding monitor rescan take_arm round rounds refresh_inventory refresh_keys refresh_key discover
    new deferred_or_ready selection first_rule position rule_at matches delay store discard send
    request_removal Map.get Map.insert Map.remove update_policy reconcile claim_keys claim_groups
    claim_in active_rule rule_in minimum pending_rules suppresses_lower_rules preferred sort_by
    insert_by le_match reaches_exact_path exact_path is_pending log_promotions log_promotion
    claim_all claim_key handle_release find_active active_group active_id Entry-discrete
    Selection-discrete
unplug_run_sent = refl

unplug_run_ok : unplug_run ≡ ok (reached unplug_run)
unfolding monitor rescan take_arm round rounds refresh_inventory refresh_keys refresh_key discover
    new deferred_or_ready selection first_rule position rule_at matches delay store discard send
    request_removal Map.get Map.insert Map.remove update_policy reconcile claim_keys claim_groups
    claim_in active_rule rule_in minimum pending_rules suppresses_lower_rules preferred sort_by
    insert_by le_match reaches_exact_path exact_path is_pending log_promotions log_promotion
    claim_all claim_key handle_release find_active active_group active_id Entry-discrete
    Selection-discrete
unplug_run_ok = refl

monitor-one_active_example : Injective active_group (reached unplug_run).candidates
monitor-one_active_example =
    monitor-one_active any_device always_open 0 (some both) plain_files all_claimed unplugged
      (reached unplug_run) unplug_run_ok

monitor-are_lawful_example : are_lawful newborn (reached unplug_run).sent ≡ true
monitor-are_lawful_example =
    monitor-are_lawful any_device always_open 0 (some both) plain_files all_claimed unplugged
      (reached unplug_run) unplug_run_ok

monitor-active_id_example :
    Injective active_id (reached unplug_run).candidates
    × ((k : Entry) (c : Candidate) (n : ℕ)
        → Map.get k (reached unplug_run).candidates ≡ some c
        → active_id c ≡ some n
        → n < (reached unplug_run).next_activation_id)
    × ((k : Entry) (c : Candidate) (n : ℕ)
        → Map.get k (reached unplug_run).candidates ≡ some c
        → live_id c ≡ some n
        → (afters newborn (reached unplug_run).sent).live n ≡ true)
monitor-active_id_example =
    monitor-active_id any_device always_open 0 (some both) plain_files all_claimed unplugged
      (reached unplug_run) unplug_run_ok

abbrev busy_candidate : Candidate
busy_candidate = record {
  info = keyboard 1;
  aliases = [];
  selection = some (record { group = some 0; rule = 0 });
  state = ready;
  failures = 2;
  promotion_logged = false;
}

schedule_backoff-bounds_example :
    ((until : ℕ) × (retry_at (schedule_backoff 50 busy_candidate) ≡ some until)
      × (50 + 100 ≤ until)
      × (until ≤ 50 + 2000))
    × ((schedule_backoff 50 busy_candidate).failures ≤ usize_max)
    × (2 ≤ (schedule_backoff 50 busy_candidate).failures)
schedule_backoff-bounds_example = schedule_backoff-bounds 50 busy_candidate (omega arith)

abbrev waiting_monitor : Monitor
waiting_monitor = record (initial always_open) {
  candidates =
      (node 1, record busy_candidate { state = waiting 100 })
      ∷ (node 2, record busy_candidate { state = active 1 false })
      ∷ [];
}

wake_expired-progress_example :
    ((d : Candidate) (until : ℕ)
      → Map.get (node 1) (wake_expired 100 waiting_monitor).candidates ≡ some d
      → retry_at d ≡ some until
      → 100 < until)
    × ((c : Candidate) (until : ℕ)
        → Map.get (node 1) waiting_monitor.candidates ≡ some c
        → retry_at c ≡ some until
        → until ≤ 100
        → (d : Candidate) × (Map.get (node 1) (wake_expired 100 waiting_monitor).candidates
            ≡ some d)
          × (d.state ≡ ready))
wake_expired-progress_example = wake_expired-progress 100 waiting_monitor (node 1)

unplug_run_distinct : Map.Distinct (reached unplug_run).candidates
unfolding monitor rescan take_arm round rounds refresh_inventory refresh_keys refresh_key discover
    new deferred_or_ready selection first_rule position rule_at matches delay store discard send
    request_removal Map.get Map.insert Map.remove update_policy reconcile claim_keys claim_groups
    claim_in active_rule rule_in minimum pending_rules suppresses_lower_rules preferred sort_by
    insert_by le_match reaches_exact_path exact_path is_pending log_promotions log_promotion
    claim_all claim_key handle_release find_active active_group active_id Entry-discrete
    Selection-discrete
unplug_run_distinct = (refl, tt)

unplug_run_own : Injective active_id (reached unplug_run).candidates
unplug_run_own =
    (monitor-active_id any_device always_open 0 (some both) plain_files all_claimed unplugged
      (reached unplug_run) unplug_run_ok).0

handle_release_lem_example :
    ((key : Entry) (c : Candidate)
      → Map.get key (reached unplug_run).candidates ≡ some c
      → active_id c ≡ some 2
      → (k : Entry)
      → Map.get k (handle_release 70 2 disconnected (reached unplug_run)).candidates ≡ (
          if key =? k
          then some (record c { failures = 0; state = released_state 70 disconnected })
          else Map.get k (reached unplug_run).candidates))
    × (((key : Entry) (c : Candidate)
          → Map.get key (reached unplug_run).candidates ≡ some c
          → active_id c ≢ some 2)
        → handle_release 70 2 disconnected (reached unplug_run) ≡ (reached unplug_run))
handle_release_lem_example =
    handle_release_lem 70 2 disconnected (reached unplug_run) unplug_run_distinct unplug_run_own

selection-IsFirst_example :
    ((s : Selection)
      → selection (groups any_device) (keyboard 1) ≡ some s
      → IsFirst 0 any_device (keyboard 1) s × (matches (groups any_device) s (keyboard 1) ≡ true))
    × (selection (groups any_device) (keyboard 1) ≡ none
        → (l r : ℕ) (d : CandidatePolicy) → rule_at any_device l r ≡ some d
        → d.matcher (keyboard 1) ≡ false)
selection-IsFirst_example = selection-IsFirst any_device (keyboard 1)

abbrev two_ready : Candidates
two_ready =
    (node 1, record busy_candidate { info = keyboard 1 })
    ∷ (node 2, record busy_candidate { info = keyboard 2 })
    ∷ []

two_ready_distinct : Map.Distinct two_ready
unfolding Map.get Entry-discrete
two_ready_distinct = (refl, (refl, tt))

abbrev exact_second : Policy
exact_second = groups (
    record {
      name = 7 ∷ [];
      candidates =
          record { matcher = λ info. true; exact_path = some (2 ∷ []); grab_delay = 0 } ∷ [];
    }
    ∷ [])

-- The candidate that reaches the exact path is chosen, though the other's path comes first.
two_ready_chosen : claim_in plain_files exact_second 0 two_ready ≡ node 2 ∷ []
unfolding claim_in active_rule rule_in minimum pending_rules suppresses_lower_rules preferred
    sort_by insert_by le_match reaches_exact_path exact_path is_pending rule_at FilePath-discrete
    contains
two_ready_chosen = refl

claim_in-IsLowest_example : ((rule : ℕ) × IsLowest 0 two_ready (node 2) rule) × Idle 0 two_ready
claim_in-IsLowest_example =
    claim_in-IsLowest plain_files exact_second 0 two_ready (node 2) two_ready_distinct
      two_ready_chosen

claim_in-exact_example :
    exact_for plain_files exact_second (record busy_candidate { info = keyboard 2 }) ≡ true
unfolding Map.get Entry-discrete rule_in suppresses_lower_rules reaches_exact_path exact_path
    rule_at FilePath-discrete contains
claim_in-exact_example =
    claim_in-exact plain_files exact_second 0 two_ready (node 2) (node 2)
      (record busy_candidate { info = keyboard 2 }) (record busy_candidate { info = keyboard 2 }) 0
      two_ready_distinct two_ready_chosen refl refl refl refl refl refl
