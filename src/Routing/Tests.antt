-- ===== src/Routing/Tests.antt =====
-- Runs of the router at concrete inputs, and the routing theorems at them.
use rkvm.Prelude.{◌≡◌, refl, true, false, [], ◌∷◌, some, arith, ℕ_discrete, ℕ_eq}
use rkvm.Collections.Set.{contains, is_subset, is_disjoint, difference}
use rkvm.Collections.Set
use rkvm.Collections.Map
use rkvm.Input.Key.{Key, key, Key_eq, Key-discrete, is_modifier, is_button}
use rkvm.Input.Key.Keys.{Keyboard}
use rkvm.Input.Event.{Event, SyncEvent}
use rkvm.Routing.Router.{
  SwitchBinding, events, set_key_state, Router, keys_of, push_index, index_bindings, binding_keys,
  new, pressed_key_union, is_active_trigger, position, find_satisfied, matching_binding,
  update_physical_key, set_blocked, unblock_key, rearm_after_trigger_release,
  clear_inactive_binding, block_held, is_unpropagated, prepare_handoff,
  prepare_handoff_without_binding, is_recovery, desired_keys, release_routes, reconcile_all,
  reconcile_device, add_device, is_reset_blocked, reset_device, remove_device, retain_routes,
}
use rkvm.Routing.Flush.{flush_run, flush_events, routed}
use rkvm.Routing.Frame.{
  next_route, is_blocked, is_swallowed, switch_route, pass_key, step_key, step_event, step_events,
  process_frame,
}
use rkvm.Routing.Outputs.{Outputs, apply_event, apply_events, apply_action, apply_actions}
use rkvm.Routing.Invariant.{is_held, IsSound, OnKey}
use rkvm.Routing.Flush.{IsFramed, routed-flush_events, flush_events-IsFramed}
use rkvm.Routing.Process.{process_frame-IsSound}
use rkvm.Routing.Devices.{
  all_off, drop_device, new-IsSound, add_device-IsSound, reset_device-IsSound,
}
use rkvm.Routing.Removal.{IsRemoved, remove_device-IsRemoved}
use rkvm.Routing.Retain.{keep_routes, retain_routes-IsSound}
use rkvm.Routing.Session.{Session, here, next, start, frame, Reach-OnKey}
use rkvm.Routing.Bindings.{matching_binding-position, switches, switches-cycle}
use rkvm.Routing.Stuck.{release_frame, add_device-leaves_key_down, reset_device-leaves_key_down}
use rkvm.Input.Convert.{key_to_raw, sync_to_raw}
use rkvm.Input.Tests.{glue}
use rkvm.Input.Writer.{Writer, written, would_block, ok, write_frame, raw_event, raw_events}
use rkvm.Input.Writer.Frames.{answers}
use rkvm.Routing.Writers.{Tracks, write_frame-Tracks}

-- All that a run computes with.
unfoldable pub program : Unit {0}
unfolding ℕ_discrete Key-discrete contains is_subset is_disjoint Set.insert Set.remove Map.get
    Map.insert Map.remove Map.or_insert is_modifier is_button keys_of push_index index_bindings
    binding_keys new pressed_key_union is_active_trigger position find_satisfied matching_binding
    update_physical_key set_blocked unblock_key rearm_after_trigger_release clear_inactive_binding
    block_held is_unpropagated prepare_handoff prepare_handoff_without_binding is_recovery
    desired_keys release_routes reconcile_all reconcile_device add_device is_reset_blocked
    reset_device remove_device retain_routes flush_run flush_events next_route is_blocked
    is_swallowed switch_route pass_key step_key step_event step_events process_frame apply_event
    apply_events apply_action apply_actions is_held
program = tt

abbrev ctrl : Key
ctrl = key Keyboard.left_ctrl

abbrev space : Key
space = key Keyboard.space

abbrev letter : Key
letter = key Keyboard.a

abbrev pub chord : SwitchBinding
chord = record { keys = ctrl ∷ space ∷ []; trigger = space }

abbrev press : Key → Event
press k = Event.key (record { key = k; down = true })

abbrev release : Key → Event
release k = Event.key (record { key = k; down = false })

abbrev sync : Event
sync = Event.sync SyncEvent.all

abbrev fresh : Router
fresh = new (chord ∷ []) true false

-- Pressing the chord switches to the client, releases the keys here, and reasserts Ctrl there.
switch_test :
    (process_frame fresh 7 (press ctrl ∷ press space ∷ sync ∷ []) (0 ∷ 1 ∷ [])).1
    ≡ events 0 7 (press ctrl ∷ press space ∷ sync ∷ [])
      ∷ set_key_state 0 7 []
      ∷ set_key_state 1 7 (ctrl ∷ [])
      ∷ []
unfolding program
switch_test = refl

abbrev typed : Session
typed = record (start (chord ∷ []) true false) {
  router = (process_frame fresh 7 (press letter ∷ sync ∷ []) (0 ∷ [])).0;
  outputs = apply_actions all_off (process_frame fresh 7 (press letter ∷ sync ∷ []) (0 ∷ [])).1;
}

Reach-OnKey_example :
    OnKey typed.router 0 7 letter × (contains typed.router.current (0 ∷ []) ≡ true)
unfolding program
Reach-OnKey_example =
    Reach-OnKey (chord ∷ []) true false typed (next here (frame 7 (press letter ∷ sync ∷ []))) 0 7
      letter refl

process_frame-IsSound_example :
    IsSound (process_frame fresh 7 (press ctrl ∷ press space ∷ sync ∷ []) (0 ∷ 1 ∷ [])).0 (
      apply_actions all_off
        (process_frame fresh 7 (press ctrl ∷ press space ∷ sync ∷ []) (0 ∷ 1 ∷ [])).1)
    × (contains
          (process_frame fresh 7 (press ctrl ∷ press space ∷ sync ∷ []) (0 ∷ 1 ∷ [])).0.current
          (0 ∷ 1 ∷ [])
        ≡ true)
unfolding program
process_frame-IsSound_example =
    process_frame-IsSound fresh 7 (press ctrl ∷ press space ∷ sync ∷ []) (0 ∷ 1 ∷ []) all_off
      (new-IsSound (chord ∷ []) true false) refl refl

matching_binding-position_example :
    matching_binding (record fresh { physical_keys = (7, ctrl ∷ space ∷ []) ∷ [] }) space ≡ some 0
unfolding program
matching_binding-position_example =
    matching_binding-position (record fresh { physical_keys = (7, ctrl ∷ space ∷ []) ∷ [] }) space
      refl

routed-flush_events_example :
    routed (flush_events 7 ((0, press letter) ∷ (0, release letter) ∷ (1, press ctrl) ∷ []))
    ≡ (0, press letter) ∷ (0, release letter) ∷ (1, press ctrl) ∷ []
routed-flush_events_example =
    routed-flush_events 7 ((0, press letter) ∷ (0, release letter) ∷ (1, press ctrl) ∷ [])

flush_events-IsFramed_example :
    IsFramed 7 (flush_events 7 ((0, press letter) ∷ (1, press ctrl) ∷ []))
flush_events-IsFramed_example = flush_events-IsFramed 7 ((0, press letter) ∷ (1, press ctrl) ∷ [])

switches-cycle_example : switches 3 (0 ∷ 2 ∷ 5 ∷ []) 0 ≡ 2 ∷ 5 ∷ 0 ∷ []
switches-cycle_example = switches-cycle (2 ∷ 5 ∷ []) (omega arith)

add_device-IsSound_example :
    IsSound
      (add_device fresh 7 (letter ∷ space ∷ []) (0 ∷ [])).0
      (apply_actions all_off (add_device fresh 7 (letter ∷ space ∷ []) (0 ∷ [])).1)
unfolding new is_unpropagated contains ℕ_discrete
add_device-IsSound_example =
    add_device-IsSound fresh 7 (letter ∷ space ∷ []) (0 ∷ []) all_off
      (new-IsSound (chord ∷ []) true false) refl (λ k held unpropagated. cc)

reset_device-IsSound_example :
    IsSound
      (reset_device fresh 7 (ctrl ∷ space ∷ []) (0 ∷ [])).0
      (apply_actions all_off (reset_device fresh 7 (ctrl ∷ space ∷ []) (0 ∷ [])).1)
unfolding new is_unpropagated is_held keys_of Map.get contains ℕ_discrete
reset_device-IsSound_example =
    reset_device-IsSound fresh 7 (ctrl ∷ space ∷ []) (0 ∷ []) all_off
      (new-IsSound (chord ∷ []) true false) refl (λ k held unpropagated. cc)
      (λ d k other held free. cc)

-- A device is added with two keys held, and removed again.
abbrev added : Router
added = (add_device fresh 7 (letter ∷ space ∷ []) (0 ∷ [])).0

abbrev added_out : Outputs
added_out = apply_actions all_off (add_device fresh 7 (letter ∷ space ∷ []) (0 ∷ [])).1

remove_device-IsRemoved_example :
    IsSound (remove_device added 7) (drop_device 7 added_out)
    × IsRemoved added 7 (remove_device added 7)
unfolding new is_unpropagated contains ℕ_discrete
remove_device-IsRemoved_example = remove_device-IsRemoved added 7 added_out (
    add_device-IsSound fresh 7 (letter ∷ space ∷ []) (0 ∷ []) all_off
      (new-IsSound (chord ∷ []) true false) refl (λ k held unpropagated. cc))

retain_routes-IsSound_example :
    IsSound
      (retain_routes fresh (0 ∷ 3 ∷ [])).0
      (apply_actions (keep_routes (0 ∷ 3 ∷ []) all_off) (retain_routes fresh (0 ∷ 3 ∷ [])).1)
    × (contains (retain_routes fresh (0 ∷ 3 ∷ [])).0.current (0 ∷ 3 ∷ []) ≡ true)
unfolding contains ℕ_discrete
retain_routes-IsSound_example =
    retain_routes-IsSound fresh (0 ∷ 3 ∷ []) all_off (new-IsSound (chord ∷ []) true false) refl

-- Switch keys are not propagated.
abbrev quiet : Router
quiet = new (chord ∷ []) false false

add_device-leaves_key_down_example :
    let (r, actions) = add_device quiet 7 (ctrl ∷ []) (0 ∷ []) in
    let (r', more) = process_frame r 7 (release_frame ctrl) (0 ∷ []) in
    (apply_actions (apply_actions all_off actions) more 0 7 ctrl ≡ true)
    × (is_held r' 7 ctrl ≡ false)
unfolding program
add_device-leaves_key_down_example =
    add_device-leaves_key_down quiet 7 ctrl (0 ∷ []) all_off
      (new-IsSound (chord ∷ []) false false).valid refl refl refl refl

-- A second keyboard holds the trigger when the first one is resynchronised with Ctrl held.
abbrev spaced : Router
spaced = (process_frame fresh 8 (press space ∷ sync ∷ []) (0 ∷ [])).0

abbrev spaced_out : Outputs
spaced_out = apply_actions all_off (process_frame fresh 8 (press space ∷ sync ∷ []) (0 ∷ [])).1

reset_device-leaves_key_down_example :
    let (r, actions) = reset_device spaced 7 (ctrl ∷ []) (0 ∷ []) in
    let (r', more) = process_frame r 8 (release_frame space) (0 ∷ []) in
    (apply_actions (apply_actions spaced_out actions) more 0 8 space ≡ true)
    × (is_held r' 8 space ≡ false)
unfolding program
reset_device-leaves_key_down_example =
    reset_device-leaves_key_down spaced 7 8 space (ctrl ∷ []) (0 ∷ []) spaced_out
      (process_frame-IsSound fresh 8 (press space ∷ sync ∷ []) (0 ∷ []) all_off
        (new-IsSound (chord ∷ []) true false) refl refl).0.valid
      (omega arith) refl refl refl

write_frame-Tracks_example :
    (w : Writer) × (write_frame glue
        (written ∷ would_block ∷ written ∷ [])
        (record { sent = []; pressed_keys = [] })
        (press letter ∷ sync ∷ [])
      ≡ some (w, ok tt))
    × Tracks 0 7 (apply_action all_off (events 0 7 (press letter ∷ sync ∷ []))) w.pressed_keys
unfolding raw_events raw_event answers contains key_to_raw sync_to_raw glue
write_frame-Tracks_example =
    write_frame-Tracks glue (written ∷ would_block ∷ written ∷ [])
      (record { sent = []; pressed_keys = [] }) 0 7 all_off (press letter ∷ sync ∷ []) (λ k. refl)
      tt (omega arith)
