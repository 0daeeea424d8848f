-- ===== src/Monitor/Loop.antt =====
-- rkvm-input/src/monitor.rs: `monitor`, its start and the rounds of its loop. What the rest of the
-- system does in a round is its input: the arm of `select!` that is taken, the directory that a scan
-- finds, how claims end, and the time.
use rkvm.Prelude.{ℕ, Bool, List, [], ◌∷◌, Option, none, some}
use rkvm.Input.Device.{Entry}
use rkvm.Server.State.{ReleaseCause}
use rkvm.Monitor.Policy.{Policy}
use rkvm.Monitor.Inventory.{
  Monitor, Snapshot, Result, ok, err, io, and_then, refresh_inventory, handle_release, wake_expired,
}
use rkvm.Monitor.Claims.{Files, Claim, reconcile}

-- What `scan_devices` returns, or that it or the watch before it fails.
abbrev pub Scan : Type 0
Scan = Option (List (Entry × Snapshot))

-- `inventory` is an event of the watch or a tick of the interval.
pub data Arm : Type 0 where
  inventory : Scan → Arm
  release : ℕ → ReleaseCause → Scan → Arm
  retry : Arm

pub record Round : Type 0 where
  pub now : ℕ
  pub arm : Arm
  pub files : Files
  pub claims : Entry → ℕ → Claim

unfoldable pub rescan : ℕ → Policy → Scan → Monitor → Result Monitor
rescan now policy none s = err io
rescan now policy (some snapshots) s = refresh_inventory now policy snapshots s

unfoldable pub take_arm : ℕ → Policy → Arm → Monitor → Result Monitor
take_arm now policy (inventory scan) s = rescan now policy scan s
take_arm now policy (release id cause scan) s =
    rescan now policy scan (handle_release now id cause s)
take_arm now policy retry s = ok (wake_expired now s)

-- One round of the loop.
unfoldable pub round : Policy → Round → Monitor → Result Monitor
round policy r s =
    and_then (take_arm r.now policy r.arm s) (λ s'. reconcile r.now r.files policy r.claims s')

unfoldable pub rounds : Policy → List Round → Monitor → Result Monitor
rounds policy [] s = ok s
rounds policy (r ∷ rs) s = and_then (round policy r s) (λ s'. rounds policy rs s')

abbrev pub initial : (ℕ → Bool) → Monitor
initial is_open = record { candidates = []; next_activation_id = 1; sent = []; is_open = is_open }

-- The monitor from its start on: the first inventory and its claims, and then the rounds of the loop.
unfoldable pub monitor :
    Policy → (ℕ → Bool) → ℕ → Scan → Files → (Entry → ℕ → Claim) → List Round → Result Monitor
monitor policy is_open now scan files claims rs =
    and_then (rescan now policy scan (initial is_open))
      (λ s. and_then (reconcile now files policy claims s) (λ s'. rounds policy rs s'))
