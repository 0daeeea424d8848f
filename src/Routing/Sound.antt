-- ===== src/Routing/Sound.antt =====
-- rkvm-server/src/routing.rs: the soundness of the loop of `process_frame`, with its pending events.
use rkvm.Prelude.{
  ℕ, ◌≡◌, ap, Bool, true, ◌&&◌, ◌||◌, not, List, [], ◌∷◌, ◌++◌, some, arith, inl, inr, ◌=?◌, ℕ_eq,
  get_elem?, Option-cases, Bool-cases, subst, sym, ◌∙◌, if◌then◌else◌,
}
use rkvm.Collections.Map
use rkvm.Collections.Map.{keys}
use rkvm.Collections.Set.{contains, is_subset}
use rkvm.Input.Key.{Key, Key_eq, is_modifier}
use rkvm.Input.Event.{Event}
use rkvm.Routing.Router.{
  Router, Route, Action, SwitchBinding, handoff, is_active_trigger, is_unpropagated, find_satisfied,
  matching_binding, pressed_key_union, prepare_handoff, reconcile_all,
}
use rkvm.Routing.Frame.{Loop, next_route, switch_route}
use rkvm.Routing.Flush.{flush_events}
use rkvm.Routing.Outputs.{
  Outputs, apply_event, apply_events, apply_actions, apply_events-append, apply_actions-append,
  apply_actions-flush_events,
}
use rkvm.Routing.Invariant.{is_held, IsValid, IsSound}
use rkvm.Routing.Switch.{OnHeld, handed, handed-IsSound, next_route-mem}

-- The outputs once the loop's actions and its pending events have taken effect.
unfoldable pub outputs_of : ℕ → Outputs → Loop → Outputs
outputs_of d out s = apply_events d (apply_actions out s.actions) s.pending

-- What the loop keeps: the router is sound for these outputs, and its route is available.
pub record LoopSound (d : ℕ) (routes : List Route) (out : Outputs) (s : Loop) : Type 0 where
  pub sound : IsSound s.router (outputs_of d out s)
  pub available : contains s.router.current routes ≡ true

find_satisfied_lem :
    (bs : List SwitchBinding) (pressed : List Key) (is : List ℕ) (i : ℕ)
    → find_satisfied bs pressed is ≡ some i
    → (b : SwitchBinding) × (get_elem? bs i ≡ some b) × (is_subset b.keys pressed ≡ true)
unfolding find_satisfied
find_satisfied_lem bs pressed [] i h = cc
find_satisfied_lem bs pressed (j ∷ js) i h = elim (Option-cases (get_elem? bs j)) [
  | inl e ↦ find_satisfied_lem bs pressed js i (ground arith)
  | inr (b, e) ↦ elim (Bool-cases (is_subset b.keys pressed)) [
    | inl sub ↦
        let same : j ≡ i = ground arith in (b, subst (λ n. get_elem? bs n ≡ some b) same e, sub)
    | inr other ↦ find_satisfied_lem bs pressed js i (ground arith)
  ]
]

-- A matched binding is one of the bindings, and all its keys are held.
pub matching_binding_lem :
    (r : Router) (k : Key) (i : ℕ)
    → matching_binding r k ≡ some i
    → (b : SwitchBinding) × (get_elem? r.bindings i ≡ some b)
      × (is_subset b.keys (pressed_key_union r.physical_keys) ≡ true)
unfolding matching_binding
matching_binding_lem r k i h = elim (Option-cases (Map.get k r.trigger_bindings)) [
  | inl e ↦ absurd (ground arith)
  | inr (is, e) ↦
      find_satisfied_lem r.bindings (pressed_key_union r.physical_keys) is i (ground arith)
]

pub outputs_of-push :
    (d : ℕ) (out : Outputs) (s : Loop) (r : Router) (route : Route) (event : Event)
    → outputs_of d out
        (record { router = r; pending = s.pending ++ (route, event) ∷ []; actions = s.actions })
      ≡ apply_event d (outputs_of d out s) (route, event)
unfolding outputs_of apply_events
outputs_of-push d out s r route event =
    apply_events-append d (apply_actions out s.actions) s.pending ((route, event) ∷ [])

pub outputs_of-flush :
    (d : ℕ) (out : Outputs) (s : Loop)
    → apply_actions out (s.actions ++ flush_events d s.pending) ≡ outputs_of d out s
unfolding outputs_of
outputs_of-flush d out s =
    apply_actions-append out s.actions (flush_events d s.pending)
    ∙ apply_actions-flush_events d (apply_actions out s.actions) s.pending

-- The pending events of a switch, with the trigger's press where it is propagated.
abbrev switch_pending : Loop → Event → Key → List (Route × Event)
switch_pending s event k =
    if s.router.propagate_switch_keys && not (contains k s.router.consumed_buttons)
    then s.pending ++ (s.router.current, event) ∷ []
    else s.pending

switch_pending_before :
    (d : ℕ) (out : Outputs) (s : Loop) (k : Key)
    → IsSound s.router (outputs_of d out s)
    → is_held s.router d k ≡ true
    → (route d' : ℕ) (k' : Key)
    → apply_events d
        (apply_actions out s.actions)
        (switch_pending s (Event.key (record { key = k; down = true })) k)
        route
        d'
        k'
      ≡ true
    → OnHeld s.router route d' k'
unfolding outputs_of apply_events apply_event
switch_pending_before d out s k sound held route d' k' h =
    let base = apply_actions out s.actions in
    let press : Route × Event = (s.router.current, Event.key (record { key = k; down = true })) in
    ground (
      arith,
      ap (λ o. o route d' k') (apply_events-append d base s.pending (press ∷ [])),
      sound.on route d' k',
    )

-- What a handoff to the binding blocks.
abbrev switch_test : Router → SwitchBinding → Key → Bool
switch_test r b j = not (is_modifier j) || (j =? b.trigger) || is_unpropagated r j

abbrev switched : Router → List Route → ℕ → SwitchBinding → Router
switched r routes i b = handed r (next_route routes r.current) (some i) (switch_test r b)

switched-IsSound :
    (r : Router) (routes : List Route) (i : ℕ) (b : SwitchBinding) (out : Outputs)
    → IsValid r
    → get_elem? r.bindings i ≡ some b
    → ((route d : ℕ) (k : Key) → out route d k ≡ true → OnHeld r route d k)
    → contains r.current routes ≡ true
    → IsSound
        (switched r routes i b)
        (apply_actions out (reconcile_all (switched r routes i b) routes handoff))
unfolding is_active_trigger
switched-IsSound r routes i b out v found before available =
    handed-IsSound r (next_route routes r.current) (some i) (switch_test r b) routes out v
      (λ j e. (b, ground arith)) before available (λ k u. ground arith) (λ k t. ground arith)

prepare_handoff_lem :
    (r : Router) (routes : List Route) (i : ℕ) (b : SwitchBinding)
    → get_elem? r.bindings i ≡ some b
    → prepare_handoff
        (record r { current = next_route routes r.current; active_binding = some i })
        i
      ≡ switched r routes i b
unfolding prepare_handoff is_unpropagated
prepare_handoff_lem r routes i b found = rw (found, prepare_handoff)

-- The outputs after a switch: the pending events, then the reconciliation.
switch_outputs :
    (d : ℕ) (out : Outputs) (actions reconciled : List Action) (pending : List (Route × Event))
    → apply_actions out (actions ++ (flush_events d pending ++ reconciled))
      ≡ apply_actions (apply_events d (apply_actions out actions) pending) reconciled
switch_outputs d out actions reconciled pending =
    apply_actions-append out actions (flush_events d pending ++ reconciled)
    ∙ apply_actions-append (apply_actions out actions) (flush_events d pending) reconciled
    ∙ ap (λ o. apply_actions o reconciled)
        (apply_actions-flush_events d (apply_actions out actions) pending)

pub switch_route-LoopSound :
    (d : ℕ) (routes : List Route) (out : Outputs) (s : Loop) (k : Key) (i : ℕ)
    → IsSound s.router (outputs_of d out s)
    → contains s.router.current routes ≡ true
    → contains 0 routes ≡ true
    → is_held s.router d k ≡ true
    → (b : SwitchBinding) → get_elem? s.router.bindings i ≡ some b
    → LoopSound d routes out
        (switch_route d routes s (Event.key (record { key = k; down = true })) k i)
unfolding switch_route outputs_of apply_events
switch_route-LoopSound d routes out s k i sound available home held b found =
    let r = s.router in
    let pending = switch_pending s (Event.key (record { key = k; down = true })) k in
    rw (prepare_handoff_lem r routes i b found) (record {
      sound =
          subst (IsSound (switched r routes i b))
            (sym (
              switch_outputs d out s.actions (reconcile_all (switched r routes i b) routes handoff)
                pending))
            (switched-IsSound r routes i b (apply_events d (apply_actions out s.actions) pending)
              sound.valid found (switch_pending_before d out s k sound held) available);
      available = next_route-mem routes r.current home;
    })
