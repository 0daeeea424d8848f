-- ===== src/Routing/Targets.antt =====
-- rkvm-server/src/routing.rs: the router's actions name devices that it knows, and it knows only the
-- devices that it was told of.
use rkvm.Prelude.{
  ℕ, ◌≡◌, refl, Bool, true, List, [], ◌∷◌, ◌++◌, map, arith, ℕ_eq, is_some, All, Bool-cases, inl,
  inr, ◌==◌, ap, ◌∙◌, subst,
}
use rkvm.Collections.Map
use rkvm.Collections.Map.{keys}
use rkvm.Collections.Set.{contains}
use rkvm.Input.Key.{Key, Key_eq}
use rkvm.Input.Event.{Event}
use rkvm.Routing.Router.{
  Router, Route, Action, events, set_key_state, ReconcileMode, recovery, handoff, desired_keys,
  release_routes, reconcile_all, reconcile_device, add_device, reset_device, retain_routes,
  prepare_handoff, prepare_handoff_without_binding, clear_inactive_binding, unblock_key,
  rearm_after_trigger_release,
}
use rkvm.Routing.Flush.{flush_run, flush_events}

unfoldable pub target : Action → ℕ
target (events route d es) = d
target (set_key_state route d ks) = d

module _ (T : ℕ → Bool) where
  -- Every action is for a device of the table.
  abbrev pub Targets : List Action → Type 0
  Targets = All (λ action. T (target action) ≡ true)

  -- Each device has one entry and is in the table.
  abbrev pub KnownIn : List (ℕ × List Key) → Type 0
  KnownIn m = Map.Distinct m × ((d : ℕ) → is_some (Map.get d m) ≡ true → T d ≡ true)

  -- The router's devices are in the table.
  abbrev pub Knows : Router → Type 0
  Knows r = KnownIn r.physical_keys

  pub append-Targets : (xs ys : List Action) → Targets xs → Targets ys → Targets (xs ++ ys)
  append-Targets [] ys p q = q
  append-Targets (x ∷ xs) ys p q = (p.0, append-Targets xs ys p.1 q)

  map-Targets :
      (f : ℕ → Action) (ds : List ℕ)
      → ((d : ℕ) → target (f d) ≡ d)
      → All (λ d. T d ≡ true) ds
      → Targets (map f ds)
  map-Targets f [] same p = tt
  map-Targets f (d ∷ ds) same p = (ap T (same d) ∙ p.0, map-Targets f ds same p.1)

  reconcile_device-Targets :
      (r : Router) (d : ℕ) (routes : List Route) (mode : ReconcileMode)
      → T d ≡ true
      → Targets (reconcile_device r d routes mode)
  unfolding reconcile_device target
  reconcile_device-Targets r d [] mode p = tt
  reconcile_device-Targets r d (route ∷ routes) mode p =
      (p, reconcile_device-Targets r d routes mode p)

  release_routes-Targets :
      (ds : List ℕ) (routes : List Route)
      → All (λ d. T d ≡ true) ds
      → Targets (release_routes ds routes)
  unfolding release_routes target
  release_routes-Targets ds [] p = tt
  release_routes-Targets ds (route ∷ routes) p =
      append-Targets _ _ (map-Targets (λ d. set_key_state route d []) ds (λ d. refl) p)
        (release_routes-Targets ds routes p)

  flush_run-Targets :
      (d : ℕ) (route : Route) (run : List Event) (pending : List (Route × Event))
      → T d ≡ true
      → Targets (flush_run d route run pending)
  unfolding flush_run target
  flush_run-Targets d route run [] p = (p, tt)
  flush_run-Targets d route run ((next, event) ∷ pending) p = elim (Bool-cases (next == route)) [
    | inl e ↦ rw e (flush_run-Targets d route (run ++ event ∷ []) pending p)
    | inr e ↦ rw e (p, flush_run-Targets d next (event ∷ []) pending p)
  ]

  pub flush_events-Targets :
      (d : ℕ) (pending : List (Route × Event)) → T d ≡ true → Targets (flush_events d pending)
  unfolding flush_events
  flush_events-Targets d [] p = tt
  flush_events-Targets d ((next, event) ∷ pending) p =
      flush_run-Targets d next (event ∷ []) pending p

  keys_known :
      (m : List (ℕ × List Key))
      → ((d : ℕ) → is_some (Map.get d m) ≡ true → T d ≡ true)
      → All (λ d. T d ≡ true) (keys m)
  unfolding Map.get
  keys_known [] h = tt
  keys_known ((j, ks) ∷ m) h = (h j (ground arith), keys_known m (λ d g. h d (ground arith)))

  pub reconcile_all-Targets :
      (r : Router) (routes : List Route) (mode : ReconcileMode)
      → Knows r
      → Targets (reconcile_all r routes mode)
  unfolding reconcile_all target
  reconcile_all-Targets r routes mode h =
      let known : All (λ d. T d ≡ true) (keys r.physical_keys) = keys_known r.physical_keys h.1 in
      append-Targets _ _ (release_routes-Targets (keys r.physical_keys) _ known)
        (elim (Bool-cases (contains r.current routes)) [
          | inl e ↦ rw e (
              map-Targets (λ d. set_key_state r.current d (desired_keys r d mode))
                (keys r.physical_keys) (λ d. refl) known)
          | inr e ↦ rw e tt
        ])

  pub insert-known :
      (d : ℕ) (ks : List Key) (m : List (ℕ × List Key))
      → T d ≡ true
      → KnownIn m
      → KnownIn (Map.insert d ks m)
  insert-known d ks m p (distinct, h) = (
    Map.insert-Distinct d ks m distinct,
    λ j g. elim (ℕ_eq.dec d j) [
      | yes e ↦ subst (λ i. T i ≡ true) e p
      | no n ↦ h j (ground (arith, Map.get-insert d j ks m))
    ],
  )

  pub or_insert-known :
      (d : ℕ) (ks : List Key) (m : List (ℕ × List Key))
      → T d ≡ true
      → KnownIn m
      → KnownIn (Map.or_insert d ks m)
  or_insert-known d ks m p (distinct, h) = (
    Map.or_insert-Distinct d ks m distinct,
    λ j g. elim (ℕ_eq.dec d j) [
      | yes e ↦ subst (λ i. T i ≡ true) e p
      | no n ↦ h j (ground (arith, Map.get-or_insert d j ks m))
    ],
  )

  pub add_device-Knows :
      (r : Router) (d : ℕ) (pressed : List Key) (routes : List Route)
      → T d ≡ true
      → Knows r
      → Knows (add_device r d pressed routes).0 × Targets (add_device r d pressed routes).1
  unfolding add_device
  add_device-Knows r d pressed routes p h =
      (insert-known d pressed r.physical_keys p h, reconcile_device-Targets _ d routes recovery p)

  pub reset_device-Knows :
      (r : Router) (d : ℕ) (pressed : List Key) (routes : List Route)
      → T d ≡ true
      → Knows r
      → Knows (reset_device r d pressed routes).0 × Targets (reset_device r d pressed routes).1
  unfolding reset_device
  reset_device-Knows r d pressed routes p h =
      (insert-known d pressed r.physical_keys p h, reconcile_device-Targets _ d routes recovery p)

  pub retain_routes-Knows :
      (r : Router) (routes : List Route)
      → Knows r
      → Knows (retain_routes r routes).0 × Targets (retain_routes r routes).1
  unfolding retain_routes prepare_handoff_without_binding
  retain_routes-Knows r routes h = elim (Bool-cases (contains r.current routes)) [
    | inl e ↦ rw e (h, tt)
    | inr e ↦ rw e (h, reconcile_all-Targets _ routes handoff h)
  ]

pub clear_inactive_binding_physical :
    (r : Router) → (clear_inactive_binding r).physical_keys ≡ r.physical_keys
unfolding clear_inactive_binding
clear_inactive_binding_physical r = ground arith

pub rearm_physical :
    (r : Router) (k : Key) → (rearm_after_trigger_release r k).physical_keys ≡ r.physical_keys
unfolding rearm_after_trigger_release
rearm_physical r k = ground arith

pub unblock_key_physical :
    (r : Router) (d : ℕ) (k : Key) → (unblock_key r d k).physical_keys ≡ r.physical_keys
unfolding unblock_key
unblock_key_physical r d k = ground arith

pub prepare_handoff_physical :
    (r : Router) (i : ℕ) → (prepare_handoff r i).physical_keys ≡ r.physical_keys
unfolding prepare_handoff
prepare_handoff_physical r i = ground arith
