-- ===== src/Routing/Outputs.antt =====
-- What the actions of rkvm-server/src/routing.rs do to the outputs: the keys that are down on each
-- route and device, as the receiving `Writer` tracks them (rkvm-input/src/writer.rs).
use rkvm.Prelude.{
  ℕ, ◌≡◌, refl, Bool, false, ◌&&◌, List, [], ◌∷◌, ◌++◌, map, arith, ◌=?◌, ℕ_eq, if◌then◌else◌,
  filter, not, ◌==◌, ◌∙◌, ap, sym, inl, inr, Bool-cases,
}
use mathlib.Core.List.{map-append, append-nil}
use rkvm.Collections.Set.{contains, contains-filter}
use rkvm.Collections.Map.{keys}
use rkvm.Input.Key.{Key, Key_eq}
use rkvm.Input.Event.{Event}
use rkvm.Routing.Router.{
  Route, Action, events, set_key_state, Router, ReconcileMode, release_routes, reconcile_all,
  reconcile_device, desired_keys,
}
use rkvm.Routing.Flush.{flush_run, flush_events, tag, frame}

abbrev pub Outputs : Type 0
Outputs = ℕ → ℕ → Key → Bool

unfoldable pub apply_event : ℕ → Outputs → Route × Event → Outputs
apply_event d out (route, Event.key e) route' d' k =
    if (route =? route') && (d =? d') && (e.key =? k) then e.down else out route' d' k
apply_event d out (route, event) route' d' k = out route' d' k

unfoldable pub apply_events : ℕ → Outputs → List (Route × Event) → Outputs
apply_events d out [] = out
apply_events d out (event ∷ pending) = apply_events d (apply_event d out event) pending

unfoldable pub apply_action : Outputs → Action → Outputs
unfolding apply_events
apply_action out (events route d es) = apply_events d out (tag route es)
apply_action out (set_key_state route d ks) =
    λ route' d' k. if (route =? route') && (d =? d') then contains k ks else out route' d' k

unfoldable pub apply_actions : Outputs → List Action → Outputs
apply_actions out [] = out
apply_actions out (action ∷ actions) = apply_actions (apply_action out action) actions

pub apply_events-append :
    (d : ℕ) (out : Outputs) (xs ys : List (Route × Event))
    → apply_events d out (xs ++ ys) ≡ apply_events d (apply_events d out xs) ys
unfolding apply_events
apply_events-append d out [] ys = refl
apply_events-append d out (x ∷ xs) ys = apply_events-append d (apply_event d out x) xs ys

pub apply_actions-append :
    (out : Outputs) (xs ys : List Action)
    → apply_actions out (xs ++ ys) ≡ apply_actions (apply_actions out xs) ys
unfolding apply_actions
apply_actions-append out [] ys = refl
apply_actions-append out (x ∷ xs) ys = apply_actions-append (apply_action out x) xs ys

apply_action-frame :
    (d : ℕ) (out : Outputs) (route : Route) (run : List Event)
    → apply_action out (events route d (frame run)) ≡ apply_events d out (tag route run)
unfolding apply_action apply_events apply_event
apply_action-frame d out route run =
    ap (apply_events d out) (map-append {B = Route × Event} _ run _)
    ∙ apply_events-append d out (tag route run) _

tag-snoc :
    (route : Route) (run : List Event) (event : Event) (pending : List (Route × Event))
    → tag route (run ++ event ∷ []) ++ pending ≡ tag route run ++ (route, event) ∷ pending
tag-snoc route [] event pending = refl
tag-snoc route (e ∷ run) event pending = ap (◌∷◌ (route, e)) (tag-snoc route run event pending)

apply_actions-flush_run :
    (d : ℕ) (out : Outputs) (route : Route) (run : List Event) (pending : List (Route × Event))
    → apply_actions out (flush_run d route run pending)
      ≡ apply_events d out (tag route run ++ pending)
unfolding flush_run apply_actions
apply_actions-flush_run d out route run [] = rw (apply_action-frame, append-nil)
apply_actions-flush_run d out route run ((next, event) ∷ pending) =
    elim (Bool-cases (next == route)) [
      | inl same ↦
          let here : next ≡ route = ground arith in
          rw (same, here)
            (apply_actions-flush_run d out route (run ++ event ∷ []) pending
              ∙ ap (apply_events d out) (tag-snoc route run event pending))
      | inr other ↦ rw other (
          ap (λ o. apply_actions o (flush_run d next (event ∷ []) pending))
            (apply_action-frame d out route run)
          ∙ apply_actions-flush_run d (apply_events d out (tag route run)) next (event ∷ []) pending
          ∙ sym (apply_events-append d out (tag route run) ((next, event) ∷ pending)))
    ]

-- A flush leaves on the outputs what the pending events say, one by one.
pub apply_actions-flush_events :
    (d : ℕ) (out : Outputs) (pending : List (Route × Event))
    → apply_actions out (flush_events d pending) ≡ apply_events d out pending
unfolding flush_events apply_actions apply_events
apply_actions-flush_events d out [] = refl
apply_actions-flush_events d out ((route, event) ∷ pending) =
    apply_actions-flush_run d out route (event ∷ []) pending

apply_actions-nil : (out : Outputs) → apply_actions out [] ≡ out
unfolding apply_actions
apply_actions-nil out = refl

module _ (route' d' : ℕ) (k : Key) where
  apply_actions-set_devices :
      (out : Outputs) (route : Route) (ks : ℕ → List Key) (devices : List ℕ)
      → apply_actions out (map (λ d. set_key_state route d (ks d)) devices) route' d' k
        ≡ (if (route =? route') && contains d' devices then contains k (ks d') else out route' d' k)
  unfolding apply_actions apply_action contains
  apply_actions-set_devices out route ks [] = ground arith
  apply_actions-set_devices out route ks (d ∷ devices) = ground (
    arith,
    apply_actions-set_devices (apply_action out (set_key_state route d (ks d))) route ks devices,
  )

  apply_actions-release_routes :
      (out : Outputs) (devices : List ℕ) (routes : List Route)
      → apply_actions out (release_routes devices routes) route' d' k
        ≡ (if contains route' routes && contains d' devices then false else out route' d' k)
  unfolding release_routes apply_actions contains
  apply_actions-release_routes out devices [] = ground arith
  apply_actions-release_routes out devices (route ∷ routes) =
      let released = map (λ d. set_key_state route d []) devices in
      rw (apply_actions-append out released (release_routes devices routes)) (
        ground (
          arith,
          apply_actions-set_devices out route (λ _. []) devices,
          apply_actions-release_routes (apply_actions out released) devices routes,
        ))

  -- After a full reconciliation every known device has the desired keys on the current route and
  -- none on the other available ones; all else stays as it was.
  pub apply_actions-reconcile_all :
      (out : Outputs) (r : Router) (routes : List Route) (mode : ReconcileMode)
      → apply_actions out (reconcile_all r routes mode) route' d' k ≡ (
          if contains route' routes && contains d' (keys r.physical_keys)
          then (route' =? r.current) && contains k (desired_keys r d' mode)
          else out route' d' k)
  unfolding reconcile_all
  apply_actions-reconcile_all out r routes mode =
      let devices = keys r.physical_keys in
      let others = filter (λ route. not (route == r.current)) routes in
      let set = map (λ d. set_key_state r.current d (desired_keys r d mode)) devices in
      let released = apply_actions out (release_routes devices others) in
      rw
        (apply_actions-append out (release_routes devices others)
          (if contains r.current routes then set else []))
        (ground (
          arith,
          apply_actions-release_routes out devices others,
          contains-filter (λ route. not (route == r.current)) route' routes,
          apply_actions-set_devices released r.current (λ d. desired_keys r d mode) devices,
          ap (λ o. o route' d' k) (apply_actions-nil released),
        ))

  -- Reconciling one device sets it on every available route, and touches no other device.
  pub apply_actions-reconcile_device :
      (out : Outputs) (r : Router) (d : ℕ) (routes : List Route) (mode : ReconcileMode)
      → apply_actions out (reconcile_device r d routes mode) route' d' k ≡ (
          if contains route' routes && (d =? d')
          then (route' =? r.current) && contains k (desired_keys r d' mode)
          else out route' d' k)
  unfolding reconcile_device apply_actions apply_action contains
  apply_actions-reconcile_device out r d [] mode = ground arith
  apply_actions-reconcile_device out r d (route ∷ routes) mode = ground (
    arith,
    apply_actions-reconcile_device
        (apply_action out
          (set_key_state route d (if route == r.current then desired_keys r d mode else [])))
        r d routes mode,
  )
