-- ===== src/Routing/Retain.antt =====
-- rkvm-server/src/routing.rs: theorems on the soundness of `retain_routes`.
use rkvm.Prelude.{
  ◌≡◌, Bool, true, false, ◌||◌, not, List, arith, inl, inr, ℕ_eq, Bool-cases, if◌then◌else◌,
}
use rkvm.Collections.Set.{contains}
use rkvm.Input.Key.{Key, Key_eq, is_modifier}
use rkvm.Routing.Router.{
  Router, Route, handoff, is_active_trigger, is_unpropagated, reconcile_all, retain_routes,
  prepare_handoff_without_binding,
}
use rkvm.Routing.Frame.{is_blocked}
use rkvm.Routing.Outputs.{Outputs, apply_actions}
use rkvm.Routing.Invariant.{is_held, IsValid, IsSound}
use rkvm.Routing.Switch.{handed, handed-IsSound}

-- The outputs of the available routes: a client that is gone has no keys down.
unfoldable pub keep_routes : List Route → Outputs → Outputs
keep_routes routes out route d k = if contains route routes then out route d k else false

homed-IsValid : (r : Router) → IsValid r → IsValid (record r { current = 0 })
unfolding is_held is_blocked
homed-IsValid r v = record {
  physical = v.physical;
  blocked = v.blocked;
  blocked_held = v.blocked_held;
  triggers = v.triggers;
  active = v.active;
}

kept-IsSound :
    (r : Router) (routes : List Route) (out : Outputs)
    → IsSound r out
    → IsSound r (keep_routes routes out)
unfolding keep_routes
kept-IsSound r routes out s = record {
  valid = s.valid;
  on = λ route d k h. ground (arith, s.on route d k);
}

-- What `prepare_handoff_without_binding` blocks.
abbrev lost_test : Router → Key → Bool
lost_test r k = not (is_modifier k) || is_active_trigger r k || is_unpropagated r k

retain_routes_lost :
    (r : Router) (routes : List Route) (out : Outputs)
    → IsSound r out
    → contains r.current routes ≡ false
    → contains 0 routes ≡ true
    → IsSound (handed (record r { current = 0 }) 0 r.active_binding (lost_test r)) (
        apply_actions (keep_routes routes out) (
          reconcile_all
            (handed (record r { current = 0 }) 0 r.active_binding (lost_test r))
            routes
            handoff))
unfolding keep_routes is_active_trigger is_unpropagated
retain_routes_lost r routes out s lost home =
    handed-IsSound (record r { current = 0 }) 0 r.active_binding (lost_test r) routes
      (keep_routes routes out) (homed-IsValid r s.valid) s.valid.active
      (λ route d k h. absurd (ground (arith, s.on route d k))) home (λ k u. ground arith)
      (λ k t. ground arith)

-- From a sound router, with the outputs of the routes that are gone dropped, `retain_routes` leaves
-- the router sound on an available route, whether its own route survived or not, once its actions
-- are applied and if the local route is available.
pub retain_routes-IsSound :
    (r : Router) (routes : List Route) (out : Outputs)
    → IsSound r out
    → contains 0 routes ≡ true
    → IsSound
        (retain_routes r routes).0
        (apply_actions (keep_routes routes out) (retain_routes r routes).1)
      × (contains (retain_routes r routes).0.current routes ≡ true)
unfolding retain_routes prepare_handoff_without_binding apply_actions is_active_trigger
    is_unpropagated
retain_routes-IsSound r routes out s home = elim (Bool-cases (contains r.current routes)) [
  | inl here ↦ rw here (kept-IsSound r routes out s, here)
  | inr lost ↦ rw lost (retain_routes_lost r routes out s lost home, home)
]
