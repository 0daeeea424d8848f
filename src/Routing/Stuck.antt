-- ===== src/Routing/Stuck.antt =====
-- rkvm-server/src/routing.rs: recovery with keys held whose release is dropped.
use rkvm.Prelude.{
  ℕ, ◌≡◌, refl, Bool, true, false, ◌||◌, List, [], ◌∷◌, arith, ◌⊎◌, inl, inr, ℕ_eq, ◌≢◌, Bool-cases,
  ◌∙◌,
}
use rkvm.Collections.Map
use rkvm.Collections.Set.{contains}
use rkvm.Input.Key.{Key, Key_eq}
use rkvm.Input.Event.{Event, SyncEvent}
use rkvm.Routing.Router.{
  Route, Router, Action, recovery, is_active_trigger, is_unpropagated, add_device, reset_device,
  update_physical_key, rearm_after_trigger_release, clear_inactive_binding, reconcile_device,
}
use rkvm.Routing.Frame.{
  Loop, is_blocked, is_swallowed, pass_key, step_key, step_event, step_events, process_frame,
}
use rkvm.Routing.Flush.{flush_events}
use rkvm.Routing.Outputs.{Outputs, apply_actions, apply_actions-reconcile_device}
use rkvm.Routing.Invariant.{is_held, IsValid}
use rkvm.Routing.Keys.{is_held-update}
use rkvm.Routing.Recovery.{
  contains-recovery_keys, recovered, is_held-recovered, is_blocked-recovered,
}
use rkvm.Routing.Devices.{found_binding, reset_test, reset_device_shape}

-- The frame in which a device releases one key.
abbrev pub release_frame : Key → List Event
release_frame k = Event.key (record { key = k; down = false }) ∷ Event.sync SyncEvent.all ∷ []

-- No action, and the key is no longer held.
abbrev Dropped : ℕ → Key → Router × List Action → Type 0
Dropped d k result = (result.1 ≡ []) × (is_held result.0 d k ≡ false)

clear_held : (r : Router) (d : ℕ) (k : Key) → is_held (clear_inactive_binding r) d k ≡ is_held r d k
unfolding clear_inactive_binding is_held
clear_held r d k = ground arith

rearm_held :
    (r : Router) (j : Key) (d : ℕ) (k : Key)
    → is_held (rearm_after_trigger_release r j) d k ≡ is_held r d k
unfolding rearm_after_trigger_release is_held
rearm_held r j d k = ground arith

-- An update of the held keys leaves the tests on the key alone.
same_tests :
    (r : Router) (d : ℕ) (k : Key)
    → (is_active_trigger (update_physical_key r d k false) k ≡ is_active_trigger r k)
      × (is_swallowed (update_physical_key r d k false) k ≡ is_swallowed r k)
unfolding update_physical_key is_active_trigger is_swallowed is_unpropagated
same_tests r d k = (refl, refl)

released : (r : Router) (d : ℕ) (k : Key) → is_held (update_physical_key r d k false) d k ≡ false
released r d k = ground (arith, is_held-update r d k false d k)

step_release :
    (s : Loop) (d : ℕ) (k : Key) (routes : List Route)
    → is_blocked s.router d k ≡ false
    → (is_active_trigger s.router k ≡ true) ⊎ (is_swallowed s.router k ≡ true)
    → (r : Router) × (step_key d routes s (Event.key (record { key = k; down = false })) k false
        ≡ record s { router = r })
      × (is_held r d k ≡ false)
unfolding step_key pass_key
step_release s d k routes free lost =
    let u = update_physical_key s.router d k false in
    let same = same_tests s.router d k in
    elim (Bool-cases (is_active_trigger u k)) [
      | inl a ↦ (
        clear_inactive_binding (rearm_after_trigger_release u k),
        rw (free, a),
        clear_held _ d k ∙ rearm_held u k d k ∙ released s.router d k,
      )
      | inr a ↦
          let swallowed : is_swallowed u k ≡ true = ground arith in
          (
            clear_inactive_binding u,
            rw (free, a, swallowed),
            clear_held u d k ∙ released s.router d k,
          )
    ]

-- The release of an unblocked key is dropped if it is the active trigger or a swallowed key.
swallowed_release :
    (r : Router) (d : ℕ) (k : Key) (routes : List Route)
    → is_blocked r d k ≡ false
    → (is_active_trigger r k ≡ true) ⊎ (is_swallowed r k ≡ true)
    → Dropped d k (process_frame r d (release_frame k) routes)
unfolding process_frame step_events step_event flush_events is_blocked is_active_trigger
    is_swallowed is_unpropagated
swallowed_release r d k routes free lost =
    let s : Loop = record {
      router = record r { physical_keys = Map.or_insert d [] r.physical_keys };
      pending = [];
      actions = [];
    } in
    let (r', e, gone) = step_release s d k routes free lost in rw e (refl, gone)

-- So what was down on an output before such a release is down after it.
stays_down :
    (r : Router) (route d : ℕ) (k : Key) (routes : List Route) (out : Outputs)
    → is_blocked r d k ≡ false
    → (is_active_trigger r k ≡ true) ⊎ (is_swallowed r k ≡ true)
    → out route d k ≡ true
    → (apply_actions out (process_frame r d (release_frame k) routes).1 route d k ≡ true)
      × (is_held (process_frame r d (release_frame k) routes).0 d k ≡ false)
unfolding apply_actions
stays_down r route d k routes out free lost down =
    let (none_left, gone) = swallowed_release r d k routes free lost in (rw none_left down, gone)

add_device_puts_down :
    (r : Router) (d : ℕ) (k : Key) (routes : List Route) (out : Outputs)
    → IsValid r
    → contains r.current routes ≡ true
    → contains k r.trigger_keys ≡ false
    → contains k r.consumed_buttons ≡ false
    → (apply_actions out (add_device r d (k ∷ []) routes).1 r.current d k ≡ true)
      × (is_blocked (add_device r d (k ∷ []) routes).0 d k ≡ false)
unfolding add_device contains
add_device_puts_down r d k routes out v available plain unconsumed =
    let p : Key → Bool = λ j. contains j r.trigger_keys || contains j r.consumed_buttons in
    let r' = recovered r d (k ∷ []) r.active_binding p in
    let blocked = is_blocked-recovered r d (k ∷ []) r.active_binding p d k v in
    let held = is_held-recovered r d (k ∷ []) r.active_binding p d k in
    (
      ground (
        arith,
        apply_actions-reconcile_device r.current d k out r' d routes recovery,
        contains-recovery_keys r' d k,
        blocked,
        held,
      ),
      ground (arith, blocked),
    )

-- In a valid router whose route is available and that does not propagate switch keys, a device that is
-- added with one key held, a switch key that is neither a trigger nor a consumed button, leaves that
-- key down on the current output when it is released: `add_device` reasserts the key there, and
-- `process_frame` drops its release.
pub add_device-leaves_key_down :
    (r : Router) (d : ℕ) (k : Key) (routes : List Route) (out : Outputs)
    → IsValid r
    → contains r.current routes ≡ true
    → is_unpropagated r k ≡ true
    → contains k r.trigger_keys ≡ false
    → contains k r.consumed_buttons ≡ false
    → let (r', actions) = add_device r d (k ∷ []) routes in
      let (r'', more) = process_frame r' d (release_frame k) routes in
      (apply_actions (apply_actions out actions) more r.current d k ≡ true)
      × (is_held r'' d k ≡ false)
unfolding add_device is_swallowed is_unpropagated
add_device-leaves_key_down r d k routes out v available unpropagated plain unconsumed =
    let (down, free) = add_device_puts_down r d k routes out v available plain unconsumed in
    stays_down (add_device r d (k ∷ []) routes).0 r.current d k routes
      (apply_actions out (add_device r d (k ∷ []) routes).1) free (inr (ground arith)) down

-- In a valid router, an unblocked trigger of another device that is down on the current output stays
-- down there when it is released, if the resynchronisation of a device makes its binding the active
-- one: `reset_device` does not block it, and `process_frame` drops its release.
pub reset_device-leaves_key_down :
    (r : Router) (d d' : ℕ) (k : Key) (pressed : List Key) (routes : List Route) (out : Outputs)
    → IsValid r
    → d ≢ d'
    → out r.current d' k ≡ true
    → is_blocked r d' k ≡ false
    → is_active_trigger (reset_device r d pressed routes).0 k ≡ true
    → let (r', actions) = reset_device r d pressed routes in
      let (r'', more) = process_frame r' d' (release_frame k) routes in
      (apply_actions (apply_actions out actions) more r.current d' k ≡ true)
      × (is_held r'' d' k ≡ false)
reset_device-leaves_key_down r d d' k pressed routes out v other on free trigger =
    let found = found_binding r d pressed in
    let test = reset_test r d pressed in
    let shape = reset_device_shape r d pressed routes in
    let r' = recovered r d pressed found test in
    let trigger' : is_active_trigger r' k ≡ true = rw shape at trigger in
    rw shape (
      stays_down r' r.current d' k routes
        (apply_actions out (reconcile_device r' d routes recovery))
        (ground (arith, is_blocked-recovered r d pressed found test d' k v)) (inl trigger')
        (ground (arith, apply_actions-reconcile_device r.current d' k out r' d routes recovery)))
