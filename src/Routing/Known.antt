-- ===== src/Routing/Known.antt =====
-- rkvm-server/src/routing.rs: the devices that `process_frame` and `remove_device` leave known, and those
-- that the actions of a frame name.
use rkvm.Prelude.{
  ℕ, ◌≡◌, Bool, true, false, List, [], ◌∷◌, none, some, is_some, ℕ_eq, Option-cases, Bool-cases,
  inl, inr, if◌then◌else◌, ◌&&◌, not, sym, subst,
}
use rkvm.Collections.Map
use rkvm.Input.Key.{Key, Key_eq}
use rkvm.Input.Event.{Event, SyncEvent}
use rkvm.Routing.Router.{
  Router, Route, handoff, remove_device, prepare_handoff, clear_inactive_binding,
  update_physical_key, unblock_key, rearm_after_trigger_release, is_active_trigger,
  matching_binding,
}
use rkvm.Routing.Frame.{
  Loop, is_blocked, is_swallowed, next_route, switch_route, pass_key, step_key, step_event,
  step_events, process_frame,
}
use rkvm.Routing.Targets.{
  Knows, KnownIn, Targets, append-Targets, flush_events-Targets, reconcile_all-Targets,
  insert-known, or_insert-known, clear_inactive_binding_physical, rearm_physical,
  unblock_key_physical, prepare_handoff_physical,
}

module _ (T : ℕ → Bool) where
  abbrev LoopKnows : Loop → Type 0
  LoopKnows s = Knows T s.router × Targets T s.actions

  same_physical-Knows :
      (r r' : Router) → r'.physical_keys ≡ r.physical_keys → Knows T r → Knows T r'
  same_physical-Knows r r' e = subst (KnownIn T) (sym e)

  cleared-Knows : (r : Router) → Knows T r → Knows T (clear_inactive_binding r)
  cleared-Knows r =
      same_physical-Knows r (clear_inactive_binding r) (clear_inactive_binding_physical r)

  rearm-Knows : (r : Router) (k : Key) → Knows T r → Knows T (rearm_after_trigger_release r k)
  rearm-Knows r k = same_physical-Knows r (rearm_after_trigger_release r k) (rearm_physical r k)

  branch-Knows :
      (r r' : Router) (down : Bool) → Knows T r → Knows T r' → Knows T (if down then r else r')
  branch-Knows r r' true h h' = h
  branch-Knows r r' false h h' = h'

  update-Knows :
      (r : Router) (d : ℕ) (k : Key) (down : Bool)
      → T d ≡ true
      → Knows T r
      → Knows T (update_physical_key r d k down)
  unfolding update_physical_key
  update-Knows r d k down p h =
      insert-known T d _ (Map.or_insert d [] r.physical_keys) p
        (or_insert-known T d [] r.physical_keys p h)

  switch_route-Knows :
      (d : ℕ) (routes : List Route) (s : Loop) (event : Event) (k : Key) (binding : ℕ)
      → T d ≡ true
      → LoopKnows s
      → LoopKnows (switch_route d routes s event k binding)
  unfolding switch_route
  switch_route-Knows d routes s event k binding p (h, targets) =
      let r : Router = record s.router {
        current = next_route routes s.router.current;
        active_binding = some binding;
      } in
      let h' : Knows T (prepare_handoff r binding) =
        same_physical-Knows r (prepare_handoff r binding) (prepare_handoff_physical r binding) h in
      (
        h',
        append-Targets T _ _ targets (
            append-Targets T _ _ (flush_events-Targets T d _ p)
              (reconcile_all-Targets T _ routes handoff h')),
      )

  pass_key-Knows :
      (d : ℕ) (routes : List Route) (s : Loop) (event : Event) (k : Key) (down : Bool)
      → T d ≡ true
      → LoopKnows s
      → LoopKnows (pass_key d routes s event k down)
  unfolding pass_key
  pass_key-Knows d routes s event k down p (h, targets) =
      elim (Option-cases (
        if down && not (is_some s.router.active_binding)
        then matching_binding s.router k
        else none)) [
          | inl e ↦
              rw (e, pass_key)
                (elim (Bool-cases (is_swallowed s.router k)) [
                  | inl swallowed ↦ rw swallowed (cleared-Knows s.router h, targets)
                  | inr passed ↦ rw passed (cleared-Knows s.router h, targets)
                ])
          | inr (i, e) ↦ rw (e, pass_key) (switch_route-Knows d routes s event k i p (h, targets))
        ]

  step_key-Knows :
      (d : ℕ) (routes : List Route) (s : Loop) (event : Event) (k : Key) (down : Bool)
      → T d ≡ true
      → LoopKnows s
      → LoopKnows (step_key d routes s event k down)
  unfolding step_key
  step_key-Knows d routes s event k down p (h, targets) =
      let r = update_physical_key s.router d k down in
      let h' : Knows T r = update-Knows s.router d k down p h in
      elim (Bool-cases (is_blocked s.router d k)) [
        | inl blocked ↦ rw blocked (
          cleared-Knows (if down then r else rearm_after_trigger_release (unblock_key r d k) k) (
              branch-Knows r (rearm_after_trigger_release (unblock_key r d k) k) down h' (
                rearm-Knows (unblock_key r d k) k
                  (same_physical-Knows r (unblock_key r d k) (unblock_key_physical r d k) h'))),
          targets,
        )
        | inr free ↦ rw free (elim (Bool-cases (is_active_trigger r k)) [
          | inl active ↦ rw active (
            cleared-Knows (if down then r else rearm_after_trigger_release r k)
                (branch-Knows r (rearm_after_trigger_release r k) down h' (rearm-Knows r k h')),
            targets,
          )
          | inr inactive ↦
              rw inactive
                (pass_key-Knows d routes (record s { router = r }) event k down p (h', targets))
        ])
      ]

  step_event-Knows :
      (d : ℕ) (routes : List Route) (s : Loop) (event : Event)
      → T d ≡ true
      → LoopKnows s
      → LoopKnows (step_event d routes s event)
  unfolding step_event
  step_event-Knows d routes s (Event.sync SyncEvent.all) p (h, targets) =
      (h, append-Targets T _ _ targets (flush_events-Targets T d s.pending p))
  step_event-Knows d routes s (Event.sync SyncEvent.mt) p known = known
  step_event-Knows d routes s (Event.key e) p known =
      step_key-Knows d routes s (Event.key e) e.key e.down p known
  step_event-Knows d routes s (Event.rel e) p known = known
  step_event-Knows d routes s (Event.abs e) p known = known

  step_events-Knows :
      (d : ℕ) (routes : List Route) (s : Loop) (es : List Event)
      → T d ≡ true
      → LoopKnows s
      → LoopKnows (step_events d routes s es)
  unfolding step_events
  step_events-Knows d routes s [] p known = known
  step_events-Knows d routes s (event ∷ es) p known =
      step_events-Knows d routes (step_event d routes s event) es p
        (step_event-Knows d routes s event p known)

  -- A frame of a device of the table yields actions for devices of the table.
  pub process_frame-Knows :
      (r : Router) (d : ℕ) (es : List Event) (routes : List Route)
      → T d ≡ true
      → Knows T r
      → Knows T (process_frame r d es routes).0 × Targets T (process_frame r d es routes).1
  unfolding process_frame
  process_frame-Knows r d es routes p h =
      let start : Loop = record {
        router = record r { physical_keys = Map.or_insert d [] r.physical_keys };
        pending = [];
        actions = [];
      } in
      let (h', targets) =
        step_events-Knows d routes start es p (or_insert-known T d [] r.physical_keys p h, tt) in
      (h', append-Targets T _ _ targets (flush_events-Targets T d _ p))

-- A removed device is known no more.
pub remove_device_physical :
    (r : Router) (d : ℕ) → (remove_device r d).physical_keys ≡ Map.remove d r.physical_keys
unfolding remove_device
remove_device_physical r d = clear_inactive_binding_physical _
