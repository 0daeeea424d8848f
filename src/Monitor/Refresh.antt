-- ===== src/Monitor/Refresh.antt =====
-- rkvm-input/src/monitor.rs: `refresh_inventory`, `handle_release` and `wake_expired` keep the order
-- among the candidates.
use rkvm.Prelude.{
  ℕ, ◌≡◌, refl, Bool, true, false, List, [], ◌∷◌, Option, none, some, arith, Option-cases, inl, inr,
}
use rkvm.Collections.Map
use rkvm.Collections.Map.{keys}
use rkvm.Input.Device.{Entry, Entry_eq}
use rkvm.Server.State.{ReleaseCause, disconnected, failed}
use rkvm.Monitor.Policy.{Policy, Selection, selection}
use rkvm.Monitor.Candidate.{
  Candidate, CandidateState, active, ready, is_active, new, update_policy, wake, retry_at,
  deferred_or_ready, state_for,
}
use rkvm.Monitor.Inventory.{
  Candidates, Monitor, Snapshot, candidate, owned, Result, ok, err, and_then, request_removal,
  removal, kept_if, refreshed, refresh_key, refresh_keys, discovered, discover, released_state,
  refresh_inventory, find_active, handle_release, wake_expired, selected_matches,
}
use rkvm.Monitor.Labels.{active_group, active_id, live_id}
use rkvm.Monitor.Orderly.{
  IsOrderly, Orderly, Follows, store-IsOrderly, discard-IsOrderly, map_values-IsOrderly,
  send-remove-Orderly,
}

-- A candidate that is active in no way follows any other.
pub idle-Follows :
    (m : Candidates) (key : Entry) (c : Candidate) → is_active c.state ≡ false → Follows m key c
unfolding active_group active_id live_id
idle-Follows m key c idle = record {
  group = λ n h. absurd (ground arith);
  id = λ n h. absurd (ground arith);
  unremoved = λ n h. absurd (ground arith);
}

-- Nor does the order depend on the information of a candidate.
kept-Follows :
    (m : Candidates) (key : Entry) (c d : Candidate)
    → Map.get key m ≡ some c
    → d.state ≡ c.state
    → d.selection ≡ c.selection
    → Follows m key d
unfolding active_group active_id live_id
kept-Follows m key c d found state selected = record {
  group = λ n h. (c, found, ground arith);
  id = λ n h. (c, found, ground arith);
  unremoved = λ n h. (c, found, ground arith);
}

removal-Orderly :
    (s : Monitor) (key : Entry) (c d : Candidate)
    → IsOrderly s
    → Map.get key s.candidates ≡ some c
    → d.state ≡ c.state
    → d.selection ≡ c.selection
    → (state : CandidateState) → d.state ≡ state
    → Orderly (removal key d state s)
unfolding active_group active_id live_id
removal-Orderly s key c d o found same selected (active id false) e =
    send-remove-Orderly s key c id o found (ground arith) (record d { state = active id true })
      (record {
        group = λ n h. (c, found, ground arith);
        id = λ n h. (c, found, ground arith);
        unremoved = λ n h. absurd (ground arith);
      })
      refl
removal-Orderly s key c d o found same selected (active id true) e =
    store-IsOrderly s key d o (kept-Follows s.candidates key c d found same selected)
removal-Orderly s key c d o found same selected ready e =
    store-IsOrderly s key d o (kept-Follows s.candidates key c d found same selected)
removal-Orderly s key c d o found same selected _ e =
    store-IsOrderly s key d o (kept-Follows s.candidates key c d found same selected)

pub request_removal-Orderly :
    (s : Monitor) (key : Entry) (c d : Candidate)
    → IsOrderly s
    → Map.get key s.candidates ≡ some c
    → d.state ≡ c.state
    → d.selection ≡ c.selection
    → Orderly (request_removal key d s)
unfolding request_removal
request_removal-Orderly s key c d o found same selected =
    removal-Orderly s key c d o found same selected d.state refl

state_for-idle :
    (now : ℕ) (policy : Policy) (selected : Option Selection)
    → is_active (state_for now policy selected) ≡ false
unfolding deferred_or_ready
state_for-idle now policy none = refl
state_for-idle now policy (some s) = ground arith

update_policy-idle :
    (now : ℕ) (policy : Policy) (c : Candidate)
    → is_active c.state ≡ false
    → is_active (update_policy now policy c).state ≡ false
unfolding update_policy
update_policy-idle now policy c idle =
    ground (arith, state_for-idle now policy (selection policy c.info))

kept_if-Orderly :
    (matching : Bool) (s : Monitor) (key : Entry) (c d : Candidate)
    → IsOrderly s
    → Map.get key s.candidates ≡ some c
    → d.state ≡ c.state
    → d.selection ≡ c.selection
    → Orderly (kept_if matching key d s)
kept_if-Orderly true s key c d o found same selected =
    store-IsOrderly s key d o (kept-Follows s.candidates key c d found same selected)
kept_if-Orderly false s key c d o found same selected =
    request_removal-Orderly s key c d o found same selected

refreshed-Orderly :
    (now : ℕ) (policy : Policy) (key : Entry) (c : Candidate) (snapshot : Option Snapshot)
    (running : Bool) (s : Monitor)
    → IsOrderly s
    → Map.get key s.candidates ≡ some c
    → is_active c.state ≡ running
    → Orderly (refreshed now policy key c snapshot running s)
refreshed-Orderly now policy key c (some (candidate info aliases)) true s o found e =
    kept_if-Orderly (selected_matches policy c.selection info) s key c
      (record c { info = info; aliases = aliases }) o found refl refl
refreshed-Orderly now policy key c (some (candidate info aliases)) false s o found e =
    store-IsOrderly s key _ o (
      idle-Follows s.candidates key _
        (update_policy-idle now policy (record c { info = info; aliases = aliases }) e))
refreshed-Orderly now policy key c (some (owned path aliases)) true s o found e =
    store-IsOrderly s key _ o
      (kept-Follows s.candidates key c (record c { aliases = aliases }) found refl refl)
refreshed-Orderly now policy key c (some (owned path aliases)) false s o found e =
    discard-IsOrderly s key o
refreshed-Orderly now policy key c none true s o found e =
    request_removal-Orderly s key c c o found refl refl
refreshed-Orderly now policy key c none false s o found e = discard-IsOrderly s key o

refresh_key-Orderly :
    (now : ℕ) (policy : Policy) (snapshots : List (Entry × Snapshot)) (key : Entry) (s : Monitor)
    → IsOrderly s
    → Orderly (refresh_key now policy snapshots key s)
unfolding refresh_key
refresh_key-Orderly now policy snapshots key s o = elim (Option-cases (Map.get key s.candidates)) [
  | inl e ↦ rw (e, refresh_key) o
  | inr (c, e) ↦
      rw (e, refresh_key)
        (refreshed-Orderly now policy key c (Map.get key snapshots) (is_active c.state) s o e refl)
]

pub and_then-Orderly :
    (result : Result Monitor) (next : Monitor → Result Monitor)
    → Orderly result
    → ((s : Monitor) → IsOrderly s → Orderly (next s))
    → Orderly (and_then result next)
and_then-Orderly (ok s) next o go = go s o
and_then-Orderly (err failure) next o go = tt

refresh_keys-Orderly :
    (now : ℕ) (policy : Policy) (snapshots : List (Entry × Snapshot)) (ks : List Entry)
    (s : Monitor)
    → IsOrderly s
    → Orderly (refresh_keys now policy snapshots ks s)
unfolding refresh_keys
refresh_keys-Orderly now policy snapshots [] s o = o
refresh_keys-Orderly now policy snapshots (key ∷ ks) s o =
    and_then-Orderly (refresh_key now policy snapshots key s)
      (λ s'. refresh_keys now policy snapshots ks s')
      (refresh_key-Orderly now policy snapshots key s o)
      (λ s' o'. refresh_keys-Orderly now policy snapshots ks s' o')

discovered-IsOrderly :
    (now : ℕ) (policy : Policy) (key : Entry) (snapshot : Snapshot) (c : Option Candidate)
    (s : Monitor)
    → IsOrderly s
    → IsOrderly (discovered now policy key snapshot c s)
unfolding new
discovered-IsOrderly now policy key (candidate info aliases) none s o = store-IsOrderly s key _ o (
    idle-Follows s.candidates key (new now info aliases policy)
      (state_for-idle now policy (selection policy info)))
discovered-IsOrderly now policy key (candidate info aliases) (some c) s o = o
discovered-IsOrderly now policy key (owned path aliases) c s o = o

discover-IsOrderly :
    (now : ℕ) (policy : Policy) (before : Candidates) (snapshots : List (Entry × Snapshot))
    (s : Monitor)
    → IsOrderly s
    → IsOrderly (discover now policy before snapshots s)
unfolding discover
discover-IsOrderly now policy before [] s o = o
discover-IsOrderly now policy before ((key, snapshot) ∷ snapshots) s o =
    discover-IsOrderly now policy before snapshots _
      (discovered-IsOrderly now policy key snapshot (Map.get key before) s o)

-- Whatever the directory holds now, a refresh keeps the order.
pub refresh_inventory-Orderly :
    (now : ℕ) (policy : Policy) (snapshots : List (Entry × Snapshot)) (s : Monitor)
    → IsOrderly s
    → Orderly (refresh_inventory now policy snapshots s)
unfolding refresh_inventory
refresh_inventory-Orderly now policy snapshots s o =
    and_then-Orderly (refresh_keys now policy snapshots (keys s.candidates) s)
      (λ s'. ok (discover now policy s.candidates snapshots s'))
      (refresh_keys-Orderly now policy snapshots (keys s.candidates) s o)
      (λ s' o'. discover-IsOrderly now policy s.candidates snapshots s' o')

released-idle : (now : ℕ) (cause : ReleaseCause) → is_active (released_state now cause) ≡ false
released-idle now disconnected = refl
released-idle now failed = refl

pub handle_release-IsOrderly :
    (now id : ℕ) (cause : ReleaseCause) (s : Monitor)
    → IsOrderly s
    → IsOrderly (handle_release now id cause s)
unfolding handle_release
handle_release-IsOrderly now id cause s o = elim (Option-cases (find_active id s.candidates)) [
  | inl e ↦ rw (e, handle_release) o
  | inr ((key, c), e) ↦
      rw (e, handle_release)
        (store-IsOrderly s key _ o (idle-Follows s.candidates key _ (released-idle now cause)))
]

wake-group :
    (now : ℕ) (c : Candidate) (n : ℕ) → active_group (wake now c) ≡ some n → active_group c ≡ some n
unfolding wake active_group retry_at
wake-group now c n h = ground arith

wake-id : (now : ℕ) (c : Candidate) (n : ℕ) → active_id (wake now c) ≡ some n → active_id c ≡ some n
unfolding wake active_id retry_at
wake-id now c n h = ground arith

wake-live : (now : ℕ) (c : Candidate) (n : ℕ) → live_id (wake now c) ≡ some n → live_id c ≡ some n
unfolding wake live_id retry_at
wake-live now c n h = ground arith

pub wake_expired-IsOrderly : (now : ℕ) (s : Monitor) → IsOrderly s → IsOrderly (wake_expired now s)
unfolding wake_expired
wake_expired-IsOrderly now s o =
    map_values-IsOrderly s (wake now) (wake-group now) (wake-id now) (wake-live now) o
