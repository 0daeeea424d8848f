-- ===== src/Server/Stable.antt =====
-- rkvm-server/src/server.rs: theorems on the rounds of `stabilize_routes`.
use rkvm.Prelude.{
  ℕ, suc, ◌≡◌, refl, true, false, List, [], ◌∷◌, Option, arith, ℕ_eq, Bool-cases, inl, inr, ap, sym,
  ◌∙◌, subst,
}
use rkvm.Collections.Set.{contains}
use rkvm.Routing.Router.{Router, Route, Action, retain_routes, prepare_handoff_without_binding}
use rkvm.Routing.Targets.{Targets, Knows, retain_routes-Knows}
use rkvm.Server.State.{Server, Result, available_routes, dispatch_actions, stabilize_routes, round}
use rkvm.Server.Invariant.{
  table, IsConsistent, IsRouted, Settles, dispatch_actions-Dispatched, and_loop-Settles,
  rerouted-IsConsistent,
}

round-Settles :
    (s : Server) (p : Router × List Action) (next : Server → Option (Result Server))
    → Knows (table s.devices) p.0
    → Targets (table s.devices) p.1
    → IsConsistent s
    → IsRouted (record s { router = p.0 })
    → ((s' : Server) → IsConsistent s' → s'.router ≡ p.0 → Settles (next s'))
    → Settles (round s p next)
round-Settles s (router, []) next known targets c here go =
    (rerouted-IsConsistent s router known c, here)
round-Settles s (router, action ∷ actions) next known targets c here go =
    let s' : Server = record s { router = router } in
    and_loop-Settles s' (dispatch_actions s' (action ∷ actions)) next
      (dispatch_actions-Dispatched s' (action ∷ actions) targets
        (rerouted-IsConsistent s router known c))
      go

retain_routes_kept :
    (r : Router) (routes : List Route)
    → contains r.current routes ≡ true
    → retain_routes r routes ≡ (r, [])
unfolding retain_routes
retain_routes_kept r routes h = rw h refl

retain_routes_lost :
    (r : Router) (routes : List Route)
    → contains r.current routes ≡ false
    → (retain_routes r routes).0.current ≡ 0
unfolding retain_routes prepare_handoff_without_binding
retain_routes_lost r routes h = rw h refl

-- The local route is always available.
home-IsRouted : (s : Server) → s.router.current ≡ 0 → IsRouted s
unfolding available_routes contains
home-IsRouted s e = ground arith

-- A router whose route is available needs one round.
stabilize_kept :
    (fuel : ℕ) (s : Server) → IsConsistent s → IsRouted s → Settles (stabilize_routes (suc fuel) s)
unfolding stabilize_routes
stabilize_kept fuel s c here =
    subst (λ p. Settles (round s p (stabilize_routes fuel)))
      (sym (retain_routes_kept s.router (available_routes s.clients) here)) (c, here)

-- Where the devices, clients and router are consistent, two rounds of the loop are enough:
-- `stabilize_routes` either ends the server with an overflow of a device's queue, or returns with
-- them consistent and the current route available, whichever clients fail on the way.
pub stabilize_routes-Settles : (s : Server) → IsConsistent s → Settles (stabilize_routes 2 s)
unfolding stabilize_routes
stabilize_routes-Settles s c =
    elim (Bool-cases (contains s.router.current (available_routes s.clients))) [
      | inl here ↦ stabilize_kept 1 s c here
      | inr lost ↦
          let p = retain_routes s.router (available_routes s.clients) in
          let (known, targets) =
            retain_routes-Knows (table s.devices) s.router (available_routes s.clients) c.router in
          let home = retain_routes_lost s.router (available_routes s.clients) lost in
          round-Settles s p (stabilize_routes 1) known targets c
            (home-IsRouted (record s { router = p.0 }) home)
            (λ s' c' r. stabilize_kept 0 s' c' (home-IsRouted s' (ap (λ r. r.current) r ∙ home)))
    ]
