-- ===== src/Server/Run.antt =====
-- rkvm-server/src/server.rs: the loop of `run`, as a sequence of the arms of its `select!`.
use rkvm.Prelude.{
  ℕ, ◌≡◌, refl, Bool, true, false, not, List, [], Option, none, some, is_some, ap, subst, ℕ_eq,
  ℕ_discrete, arith,
}
use rkvm.Collections.Map
use rkvm.Collections.Set.{contains}
use rkvm.Input.Key.{Key}
use rkvm.Input.Event.{Event}
use rkvm.Net.Protocol.{are_legal, afters, no_devices}
use rkvm.Routing.Router.{new, SwitchBinding}
use rkvm.Server.State.{
  Server, Device, Client, Error, network, input, overflow, Result, ok, err, remove_dead_clients,
  available_routes,
}
use rkvm.Server.Loop.{
  stabilize, on_accept, on_authenticated, on_remove, on_activated, on_events, on_input_lost,
  on_error,
}
use rkvm.Server.Invariant.{IsConsistent, IsRouted, Returns, Settles-Returns}
use rkvm.Server.Handlers.{on_accept-Settles, on_events-Settles, on_activated-Settles}
use rkvm.Server.Arms.{
  on_remove-Returns, on_error-Returns, on_input_lost-Returns, on_authenticated-Settles,
}

-- What `select!` yields. A last `Bool` tells whether what the arm awaits besides succeeds: the
-- accepted connection of `accept`, the release to the monitor of `removed`, `input_lost` and `failed`.
pub data Arm : Type 0 where
  accept : (ℕ → Bool) → Bool → Arm
  authenticated : (ℕ → Bool) → ℕ → Client → Arm
  receiver_closed : Arm
  monitor_failed : Arm
  removed : ℕ → Bool → Arm
  activated : ℕ → Device → List Key → Arm
  events : ℕ → ℕ → List Event → Arm
  input_lost : ℕ → ℕ → List Key → Bool → Bool → Arm
  failed : ℕ → ℕ → Bool → Bool → Arm

unfoldable pub step : Arm → Server → Option (Result Server)
step (accept is_dead accepted) s = on_accept accepted is_dead s
step (authenticated is_dead k client) s = on_authenticated is_dead k client s
step receiver_closed s = some (err network)
step monitor_failed s = some (err input)
step (removed activation_id taken) s = on_remove activation_id taken s
step (activated id device pressed) s = on_activated id device pressed s
step (events id activation_id es) s = on_events id activation_id es s
step (input_lost id activation_id pressed delivered taken) s =
    on_input_lost id activation_id pressed delivered taken s
step (failed id activation_id gone taken) s = on_error id activation_id gone taken s

-- The slabs hand out vacant keys, and the channel of a new client is fresh.
abbrev pub IsAllowed : Server → Arm → Type 0
IsAllowed s (authenticated is_dead k client) =
    (client.sender.sent ≡ [])
    × ((s' : Server)
        → stabilize (record s { clients = remove_dead_clients is_dead s.clients }) ≡ some (ok s')
        → Map.get k s'.clients ≡ none)
IsAllowed s (activated id device pressed) = Map.get id s.devices ≡ none
IsAllowed s arm = Unit

-- The errors that may end the server in an arm: an overflow, and that of what the arm awaits where it
-- fails.
abbrev pub may_end : Arm → Error → Bool
may_end arm overflow = true
may_end (accept is_dead accepted) network = not accepted
may_end receiver_closed network = true
may_end arm network = false
may_end monitor_failed input = true
may_end (removed activation_id taken) input = not taken
may_end (input_lost id activation_id pressed delivered taken) input = not taken
may_end (failed id activation_id gone taken) input = not taken
may_end arm input = false

-- Every arm returns once what it awaits has answered: on a consistent server whose route is available,
-- and where the slabs hand out vacant keys and new channels are fresh, it ends the server with an
-- overflow of a device's queue, with a network error where the accept or the channel of authenticated
-- clients has failed, or with an input error where the monitor has failed or does not take a release;
-- or it leaves the server consistent with its route available.
pub step-Returns :
    (s : Server) (arm : Arm)
    → IsConsistent s
    → IsRouted s
    → IsAllowed s arm
    → Returns (may_end arm) (step arm s)
unfolding step on_accept
step-Returns s (accept is_dead true) c here allowed =
    Settles-Returns _ _ refl (on_accept-Settles is_dead s c)
step-Returns s (accept is_dead false) c here allowed = refl
step-Returns s (authenticated is_dead k client) c here (fresh, vacant) =
    Settles-Returns _ _ refl (on_authenticated-Settles is_dead k client s c fresh vacant)
step-Returns s receiver_closed c here allowed = refl
step-Returns s monitor_failed c here allowed = refl
step-Returns s (removed activation_id taken) c here allowed =
    on_remove-Returns _ activation_id taken s (refl, λ e. ap not e) c here
step-Returns s (activated id device pressed) c here allowed =
    Settles-Returns _ _ refl (on_activated-Settles id device pressed s c allowed)
step-Returns s (events id activation_id es) c here allowed =
    Settles-Returns _ _ refl (on_events-Settles id activation_id es s c here)
step-Returns s (input_lost id activation_id pressed delivered taken) c here allowed =
    on_input_lost-Returns _ id activation_id pressed delivered taken s (refl, λ e. ap not e) c here
step-Returns s (failed id activation_id gone taken) c here allowed =
    on_error-Returns _ id activation_id gone taken s (refl, λ e. ap not e) c here

unfoldable pub start : List SwitchBinding → Bool → Bool → Server
start bindings propagate consume = record {
  devices = [];
  clients = [];
  router = new bindings propagate consume;
  released = [];
}

pub data Run (s : Server) : Server → Type 0 where
  here : Run s s
  next : {t u : Server} (arm : Arm) → Run s t → IsAllowed t arm → step arm t ≡ some (ok u) → Run s u

pub start-IsConsistent :
    (bindings : List SwitchBinding) (propagate consume : Bool)
    → IsConsistent (start bindings propagate consume) × IsRouted (start bindings propagate consume)
unfolding start new Map.get available_routes contains ℕ_discrete
start-IsConsistent bindings propagate consume = (
  record {
    devices = tt;
    clients = record { distinct = tt; holds = λ k c h. absurd (ground arith) };
    router = (tt, λ d h. absurd (ground arith));
  },
  refl,
)

Run-IsConsistent :
    {s t : Server} → Run s t → IsConsistent s × IsRouted s → IsConsistent t × IsRouted t
Run-IsConsistent here c = c
Run-IsConsistent (next arm path allowed e) c =
    let (c', h) = Run-IsConsistent path c in
    subst (Returns (may_end arm)) e (step-Returns _ arm c' h allowed)

-- However the arms of the loop follow one another from the start, with vacant keys from the slabs
-- and fresh channels for new clients, every client in the slab accepts the whole sequence of updates
-- that it has been sent: no device is created twice, and none is destroyed or receives events or key
-- states that the client does not have. Its devices are the server's, and the current route, for a
-- server with such a client, is the local one or that of a client.
pub Run-are_legal :
    (bindings : List SwitchBinding) (propagate consume : Bool) (s : Server)
    → Run (start bindings propagate consume) s
    → (k : ℕ) (client : Client) → Map.get k s.clients ≡ some client
    → (are_legal no_devices client.sender.sent ≡ true)
      × ((id : ℕ) → afters no_devices client.sender.sent id ≡ is_some (Map.get id s.devices))
      × (contains s.router.current (available_routes s.clients) ≡ true)
Run-are_legal bindings propagate consume s path k client found =
    let (c, h) = Run-IsConsistent path (start-IsConsistent bindings propagate consume) in
    let (legal, same) = c.clients.holds k client found in (legal, λ id. ap (λ T. T id) same, h)
