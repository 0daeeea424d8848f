-- ===== src/Monitor/Inventory.antt =====
-- rkvm-input/src/monitor.rs: the candidates and the messages of the monitor, `refresh_inventory`,
-- `request_removal`, `handle_release` and `wake_expired`.
use rkvm.Prelude.{
  ℕ, ◌+◌, Bool, true, false, List, [], ◌∷◌, ◌++◌, map, Option, none, some, ◌==◌, length,
}
use rkvm.Collections.Map
use rkvm.Collections.Map.{keys}
use rkvm.Input.Device.{FilePath, DeviceInfo, Entry, Entry_eq}
use rkvm.Monitor.Policy.{Policy, Selection, matches}
use rkvm.Monitor.Candidate.{
  Candidate, CandidateState, active, ready, blocked, blocked_retry, is_active, new, update_policy,
  wake,
}
use rkvm.Server.State.{ReleaseCause, disconnected, failed}

pub data MonitorEvent : Type 0 where
  activated : ℕ → MonitorEvent
  remove : ℕ → MonitorEvent

pub data Snapshot : Type 0 where
  candidate : DeviceInfo → List FilePath → Snapshot
  owned : FilePath → List FilePath → Snapshot

abbrev pub Candidates : Type 0
Candidates = List (Entry × Candidate)

-- `sent` are the events that the server's end of the channel has taken, and `is_open` tells by their
-- number whether it takes another.
pub record Monitor : Type 0 where
  pub candidates : Candidates
  pub next_activation_id : ℕ
  pub sent : List MonitorEvent
  pub is_open : ℕ → Bool

-- Why the monitor ends: its receiver is closed, the identifiers are exhausted, a claim is fatal, or the
-- file system fails.
pub data Failure : Type 0 where
  broken_pipe exhausted fatal io : Failure

pub data Result {ℓ} (A : Type ℓ) : Type ℓ where
  ok : A → Result A
  err : Failure → Result A

abbrev pub and_then : Result Monitor → (Monitor → Result Monitor) → Result Monitor
and_then (ok s) next = next s
and_then (err failure) next = err failure

unfoldable pub store : Entry → Candidate → Monitor → Monitor
store key c s = record s { candidates = Map.insert key c s.candidates }

unfoldable pub discard : Entry → Monitor → Monitor
discard key s = record s { candidates = Map.remove key s.candidates }

abbrev pub taken : Bool → MonitorEvent → Monitor → Result Monitor
taken true event s = ok (record s { sent = s.sent ++ event ∷ [] })
taken false event s = err broken_pipe

unfoldable pub send : MonitorEvent → Monitor → Result Monitor
send event s = taken (s.is_open (length s.sent)) event s

-- The candidate of the key, which is stored with what is asked of it.
abbrev pub removal : Entry → Candidate → CandidateState → Monitor → Result Monitor
removal key c (active id false) s =
    send (remove id) (store key (record c { state = active id true }) s)
removal key c state s = ok (store key c s)

unfoldable pub request_removal : Entry → Candidate → Monitor → Result Monitor
request_removal key c s = removal key c c.state s

abbrev pub selected_matches : Policy → Option Selection → DeviceInfo → Bool
selected_matches policy none info = false
selected_matches policy (some selection) info = matches policy selection info

abbrev pub kept_if : Bool → Entry → Candidate → Monitor → Result Monitor
kept_if true key c s = ok (store key c s)
kept_if false key c s = request_removal key c s

-- A candidate that is seen again, with its new information.
abbrev pub seen : ℕ → Policy → Entry → Candidate → Bool → Monitor → Result Monitor
seen now policy key c true s = kept_if (selected_matches policy c.selection c.info) key c s
seen now policy key c false s = ok (store key (update_policy now policy c) s)

abbrev pub refreshed :
    ℕ → Policy → Entry → Candidate → Option Snapshot → Bool → Monitor → Result Monitor
refreshed now policy key c (some (candidate info aliases)) running s =
    seen now policy key (record c { info = info; aliases = aliases }) running s
refreshed now policy key c (some (owned path aliases)) true s =
    ok (store key (record c { aliases = aliases }) s)
refreshed now policy key c (some (owned path aliases)) false s = ok (discard key s)
refreshed now policy key c none true s = request_removal key c s
refreshed now policy key c none false s = ok (discard key s)

-- The body of the loop over the keys that were there before.
unfoldable pub refresh_key : ℕ → Policy → List (Entry × Snapshot) → Entry → Monitor → Result Monitor
refresh_key now policy snapshots key s = elim (Map.get key s.candidates) [
  | none ↦ ok s
  | some c ↦ refreshed now policy key c (Map.get key snapshots) (is_active c.state) s
]

unfoldable pub refresh_keys :
    ℕ → Policy → List (Entry × Snapshot) → List Entry → Monitor → Result Monitor
refresh_keys now policy snapshots [] s = ok s
refresh_keys now policy snapshots (key ∷ ks) s =
    and_then (refresh_key now policy snapshots key s)
      (λ s'. refresh_keys now policy snapshots ks s')

abbrev pub discovered : ℕ → Policy → Entry → Snapshot → Option Candidate → Monitor → Monitor
discovered now policy key (candidate info aliases) none s =
    store key (new now info aliases policy) s
discovered now policy key snapshot c s = s

-- The snapshots that are left: those whose key was not there before.
unfoldable pub discover : ℕ → Policy → Candidates → List (Entry × Snapshot) → Monitor → Monitor
discover now policy before [] s = s
discover now policy before ((key, snapshot) ∷ snapshots) s =
    discover now policy before snapshots (discovered now policy key snapshot (Map.get key before) s)

-- `scan_devices` is the file system's answer, `snapshots`.
unfoldable pub refresh_inventory : ℕ → Policy → List (Entry × Snapshot) → Monitor → Result Monitor
refresh_inventory now policy snapshots s =
    and_then (refresh_keys now policy snapshots (keys s.candidates) s)
      (λ s'. ok (discover now policy s.candidates snapshots s'))

abbrev pub has_id : ℕ → CandidateState → Bool
has_id id (active id' removal_sent) = id' == id
has_id id state = false

unfoldable pub find_active : ℕ → Candidates → Option (Entry × Candidate)
find_active id [] = none
find_active id ((key, c) ∷ candidates) = elim (has_id id c.state) [
  | true ↦ some (key, c)
  | false ↦ find_active id candidates
]

abbrev pub released_state : ℕ → ReleaseCause → CandidateState
released_state now disconnected = ready
released_state now failed = blocked (now + blocked_retry)

unfoldable pub handle_release : ℕ → ℕ → ReleaseCause → Monitor → Monitor
handle_release now id cause s = elim (find_active id s.candidates) [
  | none ↦ s
  | some (key, c) ↦ store key (record c { failures = 0; state = released_state now cause }) s
]

unfoldable pub wake_all : ℕ → Candidates → Candidates
wake_all now = map (λ e. (e.0, wake now e.1))

unfoldable pub wake_expired : ℕ → Monitor → Monitor
unfolding wake_all
wake_expired now s = record s { candidates = wake_all now s.candidates }
