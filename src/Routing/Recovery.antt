-- ===== src/Routing/Recovery.antt =====
-- rkvm-server/src/routing.rs: what a recovery of one device (`ReconcileMode::Recovery`) puts on the
-- outputs, for `add_device` and `reset_device`.
use rkvm.Prelude.{
  ℕ, ◌≡◌, Bool, true, false, ◌&&◌, not, List, Option, some, arith, inl, inr, ◌=?◌, ℕ_eq, get_elem?,
  Option-cases, ◌≢◌, if◌then◌else◌, filter,
}
use rkvm.Collections.Map
use rkvm.Collections.Map.{keys}
use rkvm.Collections.Set.{contains, contains-filter}
use rkvm.Input.Key.{Key, Key_eq}
use rkvm.Routing.Router.{
  Router, Route, SwitchBinding, recovery, keys_of, is_active_trigger, is_unpropagated, is_recovery,
  set_blocked, desired_keys, reconcile_device,
}
use rkvm.Routing.Frame.{is_blocked, is_swallowed}
use rkvm.Routing.Held.{keys_of-insert, keys_of-set_blocked, set_blocked-Distinct}
use rkvm.Routing.Outputs.{Outputs, apply_actions, apply_actions-reconcile_device}
use rkvm.Routing.Invariant.{is_held, IsValid, IsSound}

pub contains-recovery_keys :
    (r : Router) (d : ℕ) (k : Key)
    → contains k (desired_keys r d recovery)
      ≡ (not (contains k r.consumed_buttons) && not (is_blocked r d k)) && is_held r d k
unfolding desired_keys is_held is_blocked keys_of is_recovery contains
contains-recovery_keys r d k = elim (Option-cases (Map.get d r.physical_keys)) [
  | inl e ↦ ground arith
  | inr (ks, e) ↦ ground (
    arith,
    contains-filter
        (λ k. not (contains k r.consumed_buttons) && not (contains k (keys_of d r.blocked_keys))) k
        ks,
  )
]

-- A router after a recovery of one device: its held and blocked keys, and the active binding.
abbrev pub recovered : Router → ℕ → List Key → Option ℕ → (Key → Bool) → Router
recovered r d pressed active p = record r {
  physical_keys = Map.insert d pressed r.physical_keys;
  blocked_keys = set_blocked d (filter p pressed) r.blocked_keys;
  active_binding = active;
}

module _ (r : Router) (d : ℕ) (pressed : List Key) (active : Option ℕ) (p : Key → Bool) where
  pub is_held-recovered :
      (d' : ℕ) (k : Key)
      → is_held (recovered r d pressed active p) d' k
        ≡ (if d =? d' then contains k pressed else is_held r d' k)
  unfolding is_held
  is_held-recovered d' k = keys_of-insert k d d' pressed r.physical_keys

  pub is_blocked-recovered :
      (d' : ℕ) (k : Key)
      → IsValid r
      → is_blocked (recovered r d pressed active p) d' k
        ≡ (if d =? d' then p k && contains k pressed else is_blocked r d' k)
  unfolding is_blocked
  is_blocked-recovered d' k v = ground (
    arith,
    keys_of-set_blocked k d d' (filter p pressed) r.blocked_keys v.blocked,
    contains-filter p k pressed,
  )

  recovered-IsValid :
      IsValid r
      → ((i : ℕ) → active ≡ some i → (b : SwitchBinding) × (get_elem? r.bindings i ≡ some b))
      → IsValid (recovered r d pressed active p)
  recovered-IsValid v in_range = record {
    physical = Map.insert-Distinct d pressed r.physical_keys v.physical;
    blocked = set_blocked-Distinct d (filter p pressed) r.blocked_keys v.blocked;
    blocked_held = λ d' k h.
        ground (arith, is_held-recovered d' k, is_blocked-recovered d' k v, v.blocked_held d' k);
    triggers = v.triggers;
    active = in_range;
  }

  -- What the recovery may put on the current route, and what stays there of the other devices.
  pub recovered-IsSound :
      (routes : List Route) (out : Outputs)
      → IsSound r out
      → contains r.current routes ≡ true
      → ((i : ℕ) → active ≡ some i → (b : SwitchBinding) × (get_elem? r.bindings i ≡ some b))
      → ((k : Key)
          → contains k pressed ≡ true
          → p k ≡ false
          → contains k r.consumed_buttons ≡ false
          → (is_swallowed r k ≡ false)
            × (is_active_trigger (record r { active_binding = active }) k ≡ false))
      → ((d' : ℕ) (k : Key)
          → d ≢ d'
          → is_held r d' k ≡ true
          → is_blocked r d' k ≡ false
          → is_active_trigger r k ≡ false
          → is_active_trigger (record r { active_binding = active }) k ≡ false)
      → IsSound
          (recovered r d pressed active p)
          (apply_actions out (reconcile_device (recovered r d pressed active p) d routes recovery))
  unfolding is_swallowed is_unpropagated is_active_trigger
  recovered-IsSound routes out s available in_range own others = record {
    valid = recovered-IsValid s.valid in_range;
    on = λ route d' k h.
        let r' = recovered r d pressed active p in
        ground (
          arith,
          apply_actions-reconcile_device route d' k out r' d routes recovery,
          contains-recovery_keys r' d' k,
          is_held-recovered d' k,
          is_blocked-recovered d' k s.valid,
          s.on route d' k,
          own k,
          others d' k,
        );
  }
