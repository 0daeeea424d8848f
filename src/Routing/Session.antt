-- ===== src/Routing/Session.antt =====
-- rkvm-server/src/routing.rs as rkvm-server/src/server.rs drives it: the router, the available
-- routes and the outputs, under any sequence of the router's operations.
use rkvm.Prelude.{ℕ, ◌≡◌, refl, Bool, true, false, List, [], ◌∷◌, ◌≢◌, arith, ℕ_eq, ℕ_discrete}
use rkvm.Collections.Set.{contains}
use rkvm.Input.Key.{Key, Key_eq}
use rkvm.Input.Event.{Event}
use rkvm.Routing.Router.{
  Route, Router, SwitchBinding, new, add_device, reset_device, remove_device, retain_routes,
  is_unpropagated, clear_inactive_binding,
}
use rkvm.Routing.Frame.{is_blocked, process_frame}
use rkvm.Routing.Outputs.{Outputs, apply_actions}
use rkvm.Routing.Invariant.{is_held, IsSound, OnKey}
use rkvm.Routing.Process.{process_frame-IsSound}
use rkvm.Routing.Devices.{
  all_off, drop_device, new-IsSound, add_device-IsSound, reset_device-IsSound,
  remove_device-IsSound,
}
use rkvm.Routing.Retain.{keep_routes, retain_routes-IsSound}

pub record Session : Type 0 where
  pub router : Router
  pub routes : List Route
  pub outputs : Outputs

-- Held keys that recovery may hand to an output: an unpropagated one is a trigger.
abbrev pub Recoverable : Router → List Key → Type 0
Recoverable r pressed =
    (k : Key)
    → contains k pressed ≡ true
    → is_unpropagated r k ≡ true
    → contains k r.trigger_keys ≡ true

-- No other device holds a trigger that is not blocked.
abbrev pub NoOtherTrigger : Router → ℕ → Type 0
NoOtherTrigger r d =
    (d' : ℕ) (k : Key)
    → d ≢ d'
    → is_held r d' k ≡ true
    → is_blocked r d' k ≡ false
    → contains k r.trigger_keys ≡ false

pub data Step (s : Session) : Session → Type 0 where
  frame :
      (d : ℕ) (events : List Event)
      → Step s (record s {
        router = (process_frame s.router d events s.routes).0;
        outputs = apply_actions s.outputs (process_frame s.router d events s.routes).1;
      })
  add :
      (d : ℕ) (pressed : List Key)
      → Recoverable s.router pressed
      → Step s (record s {
        router = (add_device s.router d pressed s.routes).0;
        outputs = apply_actions s.outputs (add_device s.router d pressed s.routes).1;
      })
  reset :
      (d : ℕ) (pressed : List Key)
      → Recoverable s.router pressed
      → NoOtherTrigger s.router d
      → Step s (record s {
        router = (reset_device s.router d pressed s.routes).0;
        outputs = apply_actions s.outputs (reset_device s.router d pressed s.routes).1;
      })
  remove :
      (d : ℕ)
      → Step s (record s { router = remove_device s.router d; outputs = drop_device d s.outputs })
  reroute :
      (routes : List Route)
      → contains 0 routes ≡ true
      → Step s (record {
        router = (retain_routes s.router routes).0;
        routes = routes;
        outputs = apply_actions (keep_routes routes s.outputs) (retain_routes s.router routes).1;
      })

pub data Reach (s : Session) : Session → Type 0 where
  here : Reach s s
  next : {t u : Session} → Reach s t → Step t u → Reach s u

pub record SessionSound (s : Session) : Type 0 where
  pub sound : IsSound s.router s.outputs
  pub available : contains s.router.current s.routes ≡ true
  pub home : contains 0 s.routes ≡ true

remove_current : (r : Router) (d : ℕ) → (remove_device r d).current ≡ r.current
unfolding remove_device clear_inactive_binding
remove_current r d = ground arith

Step-SessionSound : {s t : Session} → Step s t → SessionSound s → SessionSound t
unfolding add_device reset_device
Step-SessionSound {s} (frame d events) v =
    let p = process_frame-IsSound s.router d events s.routes s.outputs v.sound v.available v.home in
    record { sound = p.0; available = p.1; home = v.home }
Step-SessionSound {s} (add d pressed ok) v = record {
  sound = add_device-IsSound s.router d pressed s.routes s.outputs v.sound v.available ok;
  available = v.available;
  home = v.home;
}
Step-SessionSound {s} (reset d pressed ok alone) v = record {
  sound = reset_device-IsSound s.router d pressed s.routes s.outputs v.sound v.available ok alone;
  available = v.available;
  home = v.home;
}
Step-SessionSound {s} (remove d) v = record {
  sound = remove_device-IsSound s.router d s.outputs v.sound;
  available = rw (remove_current s.router d) v.available;
  home = v.home;
}
Step-SessionSound {s} (reroute routes home) v =
    let p = retain_routes-IsSound s.router routes s.outputs v.sound home in
    record { sound = p.0; available = p.1; home = home }

-- The server's start: a new router, the local route alone, and no key down.
abbrev pub start : List SwitchBinding → Bool → Bool → Session
start bs propagate consume = record {
  router = new bs propagate consume;
  routes = 0 ∷ [];
  outputs = all_off;
}

start-SessionSound :
    (bs : List SwitchBinding) (propagate consume : Bool) → SessionSound (start bs propagate consume)
unfolding new contains ℕ_discrete
start-SessionSound bs propagate consume = record {
  sound = new-IsSound bs propagate consume;
  available = refl;
  home = refl;
}

Reach-SessionSound : {s t : Session} → SessionSound s → Reach s t → SessionSound t
Reach-SessionSound v here = v
Reach-SessionSound v (next path step) = Step-SessionSound step (Reach-SessionSound v path)

-- However frames, added, resynchronised and removed devices and changes of the clients follow one
-- another from the start, no output is left with a stuck key: a key that is down on an output is
-- held on its device, on the current route, which is available, and the key is not blocked. An
-- added or resynchronised device holds unpropagated keys only if they are triggers; a device is
-- resynchronised only while no other device holds an unblocked trigger.
pub Reach-OnKey :
    (bs : List SwitchBinding) (propagate consume : Bool) (s : Session)
    → Reach (start bs propagate consume) s
    → (route d : ℕ) (k : Key) → s.outputs route d k ≡ true
    → OnKey s.router route d k × (contains s.router.current s.routes ≡ true)
Reach-OnKey bs propagate consume s path route d k on =
    let v = Reach-SessionSound (start-SessionSound bs propagate consume) path in
    (v.sound.on route d k on, v.available)
