-- ===== src/Routing/Frame.antt =====
-- rkvm-server/src/routing.rs: `process_frame`. The locals of its loop are the fields of `Loop`.
use rkvm.Prelude.{
  ℕ, Bool, ◌&&◌, ◌||◌, not, List, [], ◌∷◌, ◌++◌, none, some, ℕ_eq, ltb, if◌then◌else◌, is_some,
}
use rkvm.Collections.Set.{contains}
use rkvm.Collections.Map
use rkvm.Input.Key.{Key, Key_eq}
use rkvm.Input.Event.{Event, SyncEvent}
use rkvm.Routing.Router.{
  Route, Action, Router, handoff, keys_of, is_active_trigger, is_unpropagated, matching_binding,
  update_physical_key, unblock_key, rearm_after_trigger_release, clear_inactive_binding,
  prepare_handoff, reconcile_all,
}
use rkvm.Routing.Flush.{flush_events}

pub record Loop : Type 0 where
  pub router : Router
  pub pending : List (Route × Event)
  pub actions : List Action

-- `find(|route| *route > current).unwrap_or(0)`
unfoldable pub next_route : List Route → Route → Route
next_route [] current = 0
next_route (route ∷ routes) current = if ltb current route then route else next_route routes current

unfoldable pub is_blocked : Router → ℕ → Key → Bool
is_blocked r d k = contains k (keys_of d r.blocked_keys)

-- `consumed_buttons` or an unpropagated switch key: neither press nor release is passed on.
unfoldable pub is_swallowed : Router → Key → Bool
is_swallowed r k = contains k r.consumed_buttons || is_unpropagated r k

-- The branch of a matched binding.
unfoldable pub switch_route : ℕ → List Route → Loop → Event → Key → ℕ → Loop
switch_route d routes s event k binding =
    let r = s.router in
    let pending =
      if r.propagate_switch_keys && not (contains k r.consumed_buttons)
      then s.pending ++ (r.current, event) ∷ []
      else s.pending in
    let r' =
      prepare_handoff
        (record r { current = next_route routes r.current; active_binding = some binding })
        binding in
    record {
      router = r';
      pending = [];
      actions = s.actions ++ (flush_events d pending ++ reconcile_all r' routes handoff);
    }

-- The rest of the loop's body, once the key is neither blocked nor the active trigger.
unfoldable pub pass_key : ℕ → List Route → Loop → Event → Key → Bool → Loop
pass_key d routes s event k down =
    elim (if down && not (is_some s.router.active_binding)
      then matching_binding s.router k
      else none) [
        | some binding ↦ switch_route d routes s event k binding
        | none ↦
            if is_swallowed s.router k
            then record s { router = clear_inactive_binding s.router }
            else record s {
              pending = s.pending ++ (s.router.current, event) ∷ [];
              router = clear_inactive_binding s.router;
            }
      ]

unfoldable pub step_key : ℕ → List Route → Loop → Event → Key → Bool → Loop
step_key d routes s event k down =
    let r = update_physical_key s.router d k down in
    if is_blocked s.router d k
    then record s {
      router =
          clear_inactive_binding
            (if down then r else rearm_after_trigger_release (unblock_key r d k) k);
    }
    else if is_active_trigger r k
    then record s {
      router = clear_inactive_binding (if down then r else rearm_after_trigger_release r k);
    }
    else pass_key d routes (record s { router = r }) event k down

unfoldable pub step_event : ℕ → List Route → Loop → Event → Loop
step_event d routes s (Event.sync SyncEvent.all) = record s {
  pending = [];
  actions = s.actions ++ flush_events d s.pending;
}
step_event d routes s (Event.key e) = step_key d routes s (Event.key e) e.key e.down
step_event d routes s event = record s { pending = s.pending ++ (s.router.current, event) ∷ [] }

unfoldable pub step_events : ℕ → List Route → Loop → List Event → Loop
step_events d routes s [] = s
step_events d routes s (event ∷ events) = step_events d routes (step_event d routes s event) events

unfoldable pub process_frame : Router → ℕ → List Event → List Route → Router × List Action
process_frame r d events routes =
    let start : Loop = record {
      router = record r { physical_keys = Map.or_insert d [] r.physical_keys };
      pending = [];
      actions = [];
    } in
    let s = step_events d routes start events in (s.router, s.actions ++ flush_events d s.pending)
