-- ===== src/Monitor/Timing.antt =====
-- rkvm-input/src/monitor.rs: the deadlines of the candidates, which `schedule_backoff` sets and
-- `wake_expired` ends, and the release of a candidate.
use rkvm.Prelude.{
  ℕ, suc, zero, ◌+◌, ◌≤◌, ◌<◌, ◌≡◌, refl, [], ◌∷◌, some, arith, ltb, if◌then◌else◌, ap, ◌∙◌,
  get_elem?,
}
use mathlib.Core.Option.{some-injective}
use rkvm.Collections.Map
use rkvm.Input.Device.{Entry, Entry_eq, Entry-discrete}
use rkvm.Monitor.Candidate.{
  Candidate, ready, backoff_delay, next_failures, schedule_backoff, retry_at, wake, usize_max,
  retry_backoff, or_zero,
}
use rkvm.Monitor.Inventory.{Candidates, Monitor, wake_all, wake_expired}
use rkvm.Monitor.Labels.{get-map_values}

in_table :
    (i : ℕ)
    → i ≤ 4
    → (100 ≤ or_zero (get_elem? retry_backoff i)) × (or_zero (get_elem? retry_backoff i) ≤ 2000)
in_table zero h = ground arith
in_table (suc zero) h = ground arith
in_table (suc (suc zero)) h = ground arith
in_table (suc (suc (suc zero))) h = ground arith
in_table (suc (suc (suc (suc zero)))) h = ground arith
in_table (suc (suc (suc (suc (suc i))))) h = absurd (omega arith)

delay_bounds : (failures : ℕ) → (100 ≤ backoff_delay failures) × (backoff_delay failures ≤ 2000)
unfolding backoff_delay
delay_bounds failures = in_table (if ltb failures 4 then failures else 4) (ground arith)

-- A candidate whose claim is to be repeated waits for at least 100 and at most 2000 milliseconds, and its
-- count of failures stays a `usize`, and does not fall.
pub schedule_backoff-bounds :
    (now : ℕ) (c : Candidate)
    → c.failures ≤ usize_max
    → ((until : ℕ) × (retry_at (schedule_backoff now c) ≡ some until)
        × (now + 100 ≤ until)
        × (until ≤ now + 2000))
      × ((schedule_backoff now c).failures ≤ usize_max)
      × (c.failures ≤ (schedule_backoff now c).failures)
unfolding schedule_backoff retry_at next_failures
schedule_backoff-bounds now c h =
    let (low, high) = delay_bounds c.failures in
    ((now + backoff_delay c.failures, refl, omega arith, omega arith), ground arith, ground arith)

wake-later :
    (now : ℕ) (c : Candidate) (until : ℕ) → retry_at (wake now c) ≡ some until → now < until
unfolding wake retry_at
wake-later now c until h = ground arith

wake-ready :
    (now : ℕ) (c : Candidate) (until : ℕ)
    → retry_at c ≡ some until
    → until ≤ now
    → (wake now c).state ≡ ready
unfolding wake retry_at
wake-ready now c until h le = ground arith

get-wake_all :
    (now : ℕ) (m : Candidates) (k : Entry) (c : Candidate)
    → Map.get k m ≡ some c
    → Map.get k (wake_all now m) ≡ some (wake now c)
unfolding wake_all Map.get
get-wake_all now [] k c h = absurd cc
get-wake_all now ((j, d) ∷ m) k c h = elim (Entry-discrete j k) [
  | yes e ↦ ground (arith, ap (wake now) (some-injective d c (ground arith)))
  | no n ↦ ground (arith, get-wake_all now m k c (ground arith))
]

-- After `wake_expired` the deadline of every candidate is later than now, and every candidate whose
-- deadline had come is there and ready.
pub wake_expired-progress :
    (now : ℕ) (s : Monitor) (k : Entry)
    → ((d : Candidate) (until : ℕ)
        → Map.get k (wake_expired now s).candidates ≡ some d
        → retry_at d ≡ some until
        → now < until)
      × ((c : Candidate) (until : ℕ)
          → Map.get k s.candidates ≡ some c
          → retry_at c ≡ some until
          → until ≤ now
          → (d : Candidate) × (Map.get k (wake_expired now s).candidates ≡ some d)
            × (d.state ≡ ready))
unfolding wake_expired wake_all
wake_expired-progress now s k = (
  λ d until found deadline.
      let (c, there, e) = get-map_values (wake now) s.candidates k d found in
      wake-later now c until (ap retry_at e ∙ deadline),
  λ c until found deadline le.
      (wake now c, get-wake_all now s.candidates k c found, wake-ready now c until deadline le),
)
