-- ===== src/Routing/Switch.antt =====
-- rkvm-server/src/routing.rs: lemmas on the soundness of the handoffs, `prepare_handoff` and
-- `prepare_handoff_without_binding` followed by `reconcile_all`.
use rkvm.Prelude.{
  ℕ, ◌≡◌, refl, Bool, true, ◌&&◌, not, List, [], ◌∷◌, Option, some, arith, ◌⊎◌, inl, inr, ℕ_eq,
  get_elem?, Option-cases,
}
use rkvm.Collections.Map
use rkvm.Collections.Map.{keys}
use rkvm.Collections.Set.{contains, contains-filter}
use rkvm.Input.Key.{Key, Key_eq, is_modifier}
use rkvm.Routing.Router.{
  Router, Route, SwitchBinding, handoff, keys_of, is_active_trigger, is_unpropagated, is_recovery,
  block_held, desired_keys, reconcile_all,
}
use rkvm.Routing.Frame.{is_blocked, is_swallowed, next_route}
use rkvm.Routing.Held.{keys_of-block_held, block_held-Distinct}
use rkvm.Routing.Outputs.{Outputs, apply_actions, apply_actions-reconcile_all}
use rkvm.Routing.Invariant.{is_held, IsValid, NoStuckKeys, IsSound}

-- The keys that are down before a handoff: on the old route only, and held.
pub record OnHeld (r : Router) (route d : ℕ) (k : Key) : Type 0 where
  pub current : route ≡ r.current
  pub held : is_held r d k ≡ true

-- A device that holds a key is known.
pub is_known :
    (d : ℕ) (k : Key) (m : List (ℕ × List Key))
    → contains k (keys_of d m) ≡ true
    → contains d (keys m) ≡ true
unfolding keys_of Map.get contains
is_known d k [] h = ground arith
is_known d k ((d', ks) ∷ m) h = ground (arith, is_known d k m)

contains-desired_keys :
    (r : Router) (d : ℕ) (k : Key)
    → contains k (desired_keys r d handoff)
      ≡ (is_modifier k && not (contains k r.consumed_buttons) && not (is_blocked r d k))
        && is_held r d k
unfolding desired_keys is_held is_blocked keys_of is_recovery contains
contains-desired_keys r d k = elim (Option-cases (Map.get d r.physical_keys)) [
  | inl e ↦ ground arith
  | inr (ks, e) ↦ ground (
    arith,
    contains-filter
        (λ k.
          is_modifier k
          && not (contains k r.consumed_buttons)
          && not (contains k (keys_of d r.blocked_keys)))
        k ks,
  )
]

-- A router after a handoff to `route` that blocks the held keys which pass the test.
abbrev pub handed : Router → Route → Option ℕ → (Key → Bool) → Router
handed r route active p = record r {
  current = route;
  active_binding = active;
  blocked_keys = block_held p r.physical_keys;
}

module _ (r : Router) (route : Route) (active : Option ℕ) (p : Key → Bool)
    (routes : List Route) where
  is_blocked-handed :
      (d : ℕ) (k : Key)
      → IsValid r
      → is_blocked (handed r route active p) d k ≡ p k && is_held r d k
  unfolding is_blocked is_held
  is_blocked-handed d k v = keys_of-block_held p k d r.physical_keys v.physical

  handed-IsValid :
      IsValid r
      → ((i : ℕ) → active ≡ some i → (b : SwitchBinding) × (get_elem? r.bindings i ≡ some b))
      → IsValid (handed r route active p)
  unfolding is_held
  handed-IsValid v in_range = record {
    physical = v.physical;
    blocked = block_held-Distinct p r.physical_keys v.physical;
    blocked_held = λ d k h. ground (arith, is_blocked-handed d k v);
    triggers = v.triggers;
    active = in_range;
  }

  handed-NoStuckKeys :
      (out : Outputs)
      → IsValid r
      → ((route' d : ℕ) (k : Key) → out route' d k ≡ true → OnHeld r route' d k)
      → contains r.current routes ≡ true
      → ((k : Key) → is_unpropagated r k ≡ true → p k ≡ true)
      → ((k : Key) → is_active_trigger (handed r route active p) k ≡ true → p k ≡ true)
      → NoStuckKeys
          (handed r route active p)
          (apply_actions out (reconcile_all (handed r route active p) routes handoff))
  unfolding is_held is_swallowed is_unpropagated
  handed-NoStuckKeys out v before here unpropagated trigger route' d k h =
      let r' = handed r route active p in
      ground (
        arith,
        apply_actions-reconcile_all route' d k out r' routes handoff,
        contains-desired_keys r' d k,
        is_blocked-handed d k v,
        before route' d k,
        is_known d k r.physical_keys,
        unpropagated k,
        trigger k,
      )

  -- Where the test blocks every unpropagated key and the new active trigger, the handoff is sound:
  -- the other routes are released, and the new one gets held modifiers only.
  pub handed-IsSound :
      (out : Outputs)
      → IsValid r
      → ((i : ℕ) → active ≡ some i → (b : SwitchBinding) × (get_elem? r.bindings i ≡ some b))
      → ((route' d : ℕ) (k : Key) → out route' d k ≡ true → OnHeld r route' d k)
      → contains r.current routes ≡ true
      → ((k : Key) → is_unpropagated r k ≡ true → p k ≡ true)
      → ((k : Key) → is_active_trigger (handed r route active p) k ≡ true → p k ≡ true)
      → IsSound
          (handed r route active p)
          (apply_actions out (reconcile_all (handed r route active p) routes handoff))
  handed-IsSound out v in_range before here unpropagated trigger = record {
    valid = handed-IsValid v in_range;
    on = handed-NoStuckKeys out v before here unpropagated trigger;
  }

next_route-zero_or_mem :
    (routes : List Route) (current : Route)
    → (next_route routes current ≡ 0) ⊎ (contains (next_route routes current) routes ≡ true)
unfolding next_route contains
next_route-zero_or_mem [] current = inl refl
next_route-zero_or_mem (route ∷ routes) current =
    ground (arith, next_route-zero_or_mem routes current)

-- The next route is available.
pub next_route-mem :
    (routes : List Route) (current : Route)
    → contains 0 routes ≡ true
    → contains (next_route routes current) routes ≡ true
next_route-mem routes current h = elim (next_route-zero_or_mem routes current) [
  | inl e ↦ rw e h
  | inr m ↦ m
]
