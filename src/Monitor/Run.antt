-- ===== src/Monitor/Run.antt =====
-- rkvm-input/src/monitor.rs: what holds in every round of the monitor under a policy of groups.
use rkvm.Prelude.{ℕ, ◌<◌, ◌≡◌, refl, Bool, true, List, [], ◌∷◌, none, some, subst}
use rkvm.Collections.Map
use rkvm.Input.Device.{Entry, Entry_eq}
use rkvm.Monitor.Policy.{Policy, GroupPolicy, groups}
use rkvm.Monitor.Candidate.{Candidate}
use rkvm.Monitor.Inventory.{Monitor, ok}
use rkvm.Monitor.Claims.{Files, Claim, reconcile}
use rkvm.Monitor.Lives.{newborn, are_lawful, afters}
use rkvm.Monitor.Labels.{active_group, active_id, live_id, Injective}
use rkvm.Monitor.Orderly.{IsOrderly, Orderly}
use rkvm.Monitor.Refresh.{
  and_then-Orderly, refresh_inventory-Orderly, handle_release-IsOrderly, wake_expired-IsOrderly,
}
use rkvm.Monitor.Claiming.{reconcile-Orderly}
use rkvm.Monitor.Loop.{
  Scan, Arm, inventory, release, retry, Round, rescan, take_arm, round, rounds, initial, monitor,
}

initial-IsOrderly : (is_open : ℕ → Bool) → IsOrderly (initial is_open)
unfolding Map.get are_lawful afters
initial-IsOrderly is_open = record {
  distinct = tt;
  one_active = λ k j c d n found. absurd cc;
  own_id = λ k j c d n found. absurd cc;
  issued = λ k c n found. absurd cc;
  lawful = refl;
  announced = λ n h. absurd cc;
  live = λ k c n found. absurd cc;
}

rescan-Orderly :
    (now : ℕ) (policy : Policy) (scan : Scan) (s : Monitor)
    → IsOrderly s
    → Orderly (rescan now policy scan s)
unfolding rescan
rescan-Orderly now policy none s o = tt
rescan-Orderly now policy (some snapshots) s o = refresh_inventory-Orderly now policy snapshots s o

take_arm-Orderly :
    (now : ℕ) (policy : Policy) (arm : Arm) (s : Monitor)
    → IsOrderly s
    → Orderly (take_arm now policy arm s)
unfolding take_arm
take_arm-Orderly now policy (inventory scan) s o = rescan-Orderly now policy scan s o
take_arm-Orderly now policy (release id cause scan) s o =
    rescan-Orderly now policy scan _ (handle_release-IsOrderly now id cause s o)
take_arm-Orderly now policy retry s o = wake_expired-IsOrderly now s o

rounds-Orderly :
    (gs : List GroupPolicy) (rs : List Round) (s : Monitor)
    → IsOrderly s
    → Orderly (rounds (groups gs) rs s)
unfolding rounds round
rounds-Orderly gs [] s o = o
rounds-Orderly gs (r ∷ rs) s o =
    and_then-Orderly (round (groups gs) r s) _
      (and_then-Orderly (take_arm r.now (groups gs) r.arm s) _
        (take_arm-Orderly r.now (groups gs) r.arm s o)
        (λ s' o'. reconcile-Orderly r.now r.files gs r.claims s' o'))
      (λ s' o'. rounds-Orderly gs rs s' o')

module _ (gs : List GroupPolicy) (is_open : ℕ → Bool) (now : ℕ) (scan : Scan) (files : Files)
    (claims : Entry → ℕ → Claim) (rs : List Round) where
  monitor-Orderly : Orderly (monitor (groups gs) is_open now scan files claims rs)
  unfolding monitor
  monitor-Orderly =
      and_then-Orderly (rescan now (groups gs) scan (initial is_open)) _
        (rescan-Orderly now (groups gs) scan (initial is_open) (initial-IsOrderly is_open))
        (λ s o.
          and_then-Orderly (reconcile now files (groups gs) claims s) _
            (reconcile-Orderly now files gs claims s o) (λ s' o'. rounds-Orderly gs rs s' o'))

  reached-IsOrderly :
      (s : Monitor) → monitor (groups gs) is_open now scan files claims rs ≡ ok s → IsOrderly s
  reached-IsOrderly s e = subst Orderly e monitor-Orderly

  -- Under a policy of groups, after any rounds of the monitor from its start that do not end it, no two
  -- candidates of one group are active: two keys whose candidates are active and selected in the same
  -- group are the same key.
  pub monitor-one_active :
      (s : Monitor)
      → monitor (groups gs) is_open now scan files claims rs ≡ ok s
      → Injective active_group s.candidates
  monitor-one_active s e = (reached-IsOrderly s e).one_active

  -- Under a policy of groups, after any rounds of the monitor from its start that do not end it, the
  -- events that it has sent announce each activation identifier at most once, and ask for a removal
  -- only of an activation that was announced before and whose removal was not yet asked for.
  pub monitor-are_lawful :
      (s : Monitor)
      → monitor (groups gs) is_open now scan files claims rs ≡ ok s
      → are_lawful newborn s.sent ≡ true
  monitor-are_lawful s e = (reached-IsOrderly s e).lawful

  -- Under a policy of groups, after any rounds of the monitor from its start that do not end it, the
  -- active candidates have distinct activation identifiers, all below the next one, and an active
  -- candidate whose removal is not marked as sent is one that the sent events announce and do not
  -- remove.
  pub monitor-active_id :
      (s : Monitor)
      → monitor (groups gs) is_open now scan files claims rs ≡ ok s
      → Injective active_id s.candidates
        × ((k : Entry) (c : Candidate) (n : ℕ)
            → Map.get k s.candidates ≡ some c
            → active_id c ≡ some n
            → n < s.next_activation_id)
        × ((k : Entry) (c : Candidate) (n : ℕ)
            → Map.get k s.candidates ≡ some c
            → live_id c ≡ some n
            → (afters newborn s.sent).live n ≡ true)
  monitor-active_id s e = let o = reached-IsOrderly s e in (o.own_id, o.issued, o.live)
