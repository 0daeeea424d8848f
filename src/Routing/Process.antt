-- ===== src/Routing/Process.antt =====
-- rkvm-server/src/routing.rs: the loop of `process_frame`, branch by branch, and the whole of it.
use rkvm.Prelude.{
  ℕ, ◌≡◌, refl, Bool, true, List, [], ◌∷◌, ◌++◌, arith, inl, inr, ℕ_eq, Bool-cases, subst, sym, ◌∙◌,
}
use rkvm.Collections.Map
use rkvm.Collections.Set.{contains}
use rkvm.Input.Key.{Key, Key_eq}
use rkvm.Input.Event.{Event, SyncEvent}
use rkvm.Routing.Router.{Router, Route, is_active_trigger, is_unpropagated, update_physical_key}
use rkvm.Routing.Frame.{
  Loop, is_blocked, is_swallowed, step_key, step_event, step_events, process_frame,
}
use rkvm.Routing.Outputs.{Outputs, apply_event, apply_events, apply_actions}
use rkvm.Routing.Held.{keys_of-or_insert}
use rkvm.Routing.Invariant.{is_held, IsSound}
use rkvm.Routing.Sound.{outputs_of, LoopSound, outputs_of-push, outputs_of-flush}
use rkvm.Routing.Branches.{blocked-LoopSound, active-LoopSound, pass_key-LoopSound}

module _ (d : ℕ) (routes : List Route) (out : Outputs) (s : Loop) (k : Key) where
  still_trigger :
      (down : Bool)
      → is_active_trigger (update_physical_key s.router d k down) k ≡ is_active_trigger s.router k
  unfolding update_physical_key is_active_trigger
  still_trigger down = refl

  step_key-LoopSound :
      (down : Bool)
      → LoopSound d routes out s
      → contains 0 routes ≡ true
      → LoopSound d routes out
          (step_key d routes s (Event.key (record { key = k; down = down })) k down)
  unfolding step_key
  step_key-LoopSound down l home = elim (Bool-cases (is_blocked s.router d k)) [
    | inl was ↦ rw was (blocked-LoopSound d routes out s k down l was)
    | inr free ↦ elim (Bool-cases (is_active_trigger s.router k)) [
      | inl active ↦
          rw (free, still_trigger down, active)
            (active-LoopSound d routes out s k down l free active)
      | inr untriggered ↦
          rw (free, still_trigger down, untriggered)
            (pass_key-LoopSound d routes out s k down l home free untriggered)
    ]
  ]

-- An event that is no key event and does not end the frame.
other-LoopSound :
    (d : ℕ) (routes : List Route) (out : Outputs) (s : Loop) (event : Event)
    → apply_event d (outputs_of d out s) (s.router.current, event) ≡ outputs_of d out s
    → LoopSound d routes out s
    → LoopSound d routes out (record s { pending = s.pending ++ (s.router.current, event) ∷ [] })
other-LoopSound d routes out s event silent l = record {
  sound =
      subst (IsSound s.router)
        (sym (outputs_of-push d out s s.router s.router.current event ∙ silent)) l.sound;
  available = l.available;
}

step_event-LoopSound :
    (d : ℕ) (routes : List Route) (out : Outputs) (s : Loop) (event : Event)
    → LoopSound d routes out s
    → contains 0 routes ≡ true
    → LoopSound d routes out (step_event d routes s event)
unfolding step_event apply_event apply_events outputs_of
step_event-LoopSound d routes out s (Event.sync SyncEvent.all) l home = record {
  sound = subst (IsSound s.router) (sym (outputs_of-flush d out s)) l.sound;
  available = l.available;
}
step_event-LoopSound d routes out s (Event.sync SyncEvent.mt) l home =
    other-LoopSound d routes out s (Event.sync SyncEvent.mt) refl l
step_event-LoopSound d routes out s (Event.key e) l home =
    step_key-LoopSound d routes out s e.key e.down l home
step_event-LoopSound d routes out s (Event.rel e) l home =
    other-LoopSound d routes out s (Event.rel e) refl l
step_event-LoopSound d routes out s (Event.abs e) l home =
    other-LoopSound d routes out s (Event.abs e) refl l

step_events-LoopSound :
    (d : ℕ) (routes : List Route) (out : Outputs) (s : Loop) (events : List Event)
    → LoopSound d routes out s
    → contains 0 routes ≡ true
    → LoopSound d routes out (step_events d routes s events)
unfolding step_events
step_events-LoopSound d routes out s [] l home = l
step_events-LoopSound d routes out s (event ∷ events) l home =
    step_events-LoopSound d routes out (step_event d routes s event) events
      (step_event-LoopSound d routes out s event l home) home

-- `entry(device_id).or_default()`
known-IsSound :
    (r : Router) (d : ℕ) (out : Outputs)
    → IsSound r out
    → IsSound (record r { physical_keys = Map.or_insert d [] r.physical_keys }) out
unfolding is_held is_blocked is_swallowed is_active_trigger is_unpropagated
known-IsSound r d out s = record {
  valid = record {
    physical = Map.or_insert-Distinct d [] r.physical_keys s.valid.physical;
    blocked = s.valid.blocked;
    blocked_held = λ d' k h.
        ground (arith, s.valid.blocked_held d' k, keys_of-or_insert k d d' r.physical_keys);
    triggers = s.valid.triggers;
    active = s.valid.active;
  };
  on = λ route d' k h.
      let o = s.on route d' k h in ground (arith, keys_of-or_insert k d d' r.physical_keys);
}

start-LoopSound :
    (r : Router) (d : ℕ) (routes : List Route) (out : Outputs)
    → IsSound r out
    → contains r.current routes ≡ true
    → LoopSound d routes out (record {
      router = record r { physical_keys = Map.or_insert d [] r.physical_keys };
      pending = [];
      actions = [];
    })
unfolding outputs_of apply_events apply_actions
start-LoopSound r d routes out sound available = record {
  sound = known-IsSound r d out sound;
  available = available;
}

-- Where the router is sound for the outputs, and its route and the local one are available, so it is
-- after `process_frame` for any events of any device, once the returned actions have been applied, and
-- its route is available: a key that is down on an output is held on the device, is down on the
-- current route only, and is neither blocked, swallowed nor the active trigger.
pub process_frame-IsSound :
    (r : Router) (d : ℕ) (frame : List Event) (routes : List Route) (out : Outputs)
    → IsSound r out
    → contains r.current routes ≡ true
    → contains 0 routes ≡ true
    → IsSound
        (process_frame r d frame routes).0
        (apply_actions out (process_frame r d frame routes).1)
      × (contains (process_frame r d frame routes).0.current routes ≡ true)
unfolding process_frame
process_frame-IsSound r d frame routes out sound available home =
    let start : Loop = record {
      router = record r { physical_keys = Map.or_insert d [] r.physical_keys };
      pending = [];
      actions = [];
    } in
    let s = step_events d routes start frame in
    let l =
      step_events-LoopSound d routes out start frame
        (start-LoopSound r d routes out sound available) home in
    (subst (IsSound s.router) (sym (outputs_of-flush d out s)) l.sound, l.available)
