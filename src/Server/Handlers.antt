-- ===== src/Server/Handlers.antt =====
-- rkvm-server/src/server.rs: theorems on the arms of the loop of `run` that accept a connection, route
-- events and take on or forget a device.
use rkvm.Prelude.{
  ℕ, ◌≡◌, Bool, true, List, none, arith, ℕ_eq, Bool-cases, inl, inr, sym, subst, fun_ext,
}
use rkvm.Collections.Map
use rkvm.Collections.Slab
use rkvm.Collections.Map.{keys}
use rkvm.Input.Key.{Key}
use rkvm.Input.Event.{Event}
use rkvm.Net.Message.{Update}
use rkvm.Net.Protocol.{is_legal, after, InSync, snoc-InSync}
use rkvm.Routing.Router.{Router, Action}
use rkvm.Routing.Targets.{Targets, Knows, KnownIn, add_device-Knows}
use rkvm.Routing.Known.{process_frame-Knows, remove_device_physical}
use rkvm.Server.State.{
  Server, Device, Devices, broadcast, remove_dead_clients, available_routes, create_device_update,
  is_current_device_event, dispatch_actions,
}
use rkvm.Server.Loop.{
  stabilize, dispatch_and_stabilize, forget_device, on_accept, on_activated, on_events,
}
use rkvm.Server.Clients.{ForEach, broadcast-ForEach, remove_dead_clients-ForEach}
use rkvm.Server.Invariant.{
  table, IsConsistent, IsRouted, Settles, dispatch_actions-Dispatched, and_loop-Settles,
  rerouted-IsConsistent,
}
use rkvm.Server.Stable.{stabilize_routes-Settles}

pub dispatch_and_stabilize-Settles :
    (s : Server) (p : Router × List Action)
    → Knows (table s.devices) p.0
    → Targets (table s.devices) p.1
    → IsConsistent s
    → Settles (dispatch_and_stabilize s p)
dispatch_and_stabilize-Settles s (router, actions) known targets c =
    let s' : Server = record s { router = router } in
    and_loop-Settles s' (dispatch_actions s' actions) stabilize
      (dispatch_actions-Dispatched s' actions targets (rerouted-IsConsistent s router known c))
      (λ s'' c' r. stabilize_routes-Settles s'' c')

pub is_current_device_event_known :
    (devices : Devices) (id activation_id : ℕ)
    → is_current_device_event devices id activation_id ≡ true
    → table devices id ≡ true
unfolding is_current_device_event
is_current_device_event_known devices id activation_id h = ground arith

pub cleaned-IsConsistent :
    (s : Server) (is_dead : ℕ → Bool)
    → IsConsistent s
    → IsConsistent (record s { clients = remove_dead_clients is_dead s.clients })
cleaned-IsConsistent s is_dead c = record {
  devices = c.devices;
  clients = remove_dead_clients-ForEach _ is_dead s.clients c.clients;
  router = c.router;
}

pub on_accept-Settles :
    (is_dead : ℕ → Bool) (s : Server) → IsConsistent s → Settles (on_accept true is_dead s)
unfolding on_accept
on_accept-Settles is_dead s c = stabilize_routes-Settles _ (cleaned-IsConsistent s is_dead c)

pub on_events-Settles :
    (id activation_id : ℕ) (es : List Event) (s : Server)
    → IsConsistent s
    → IsRouted s
    → Settles (on_events id activation_id es s)
unfolding on_events
on_events-Settles id activation_id es s c here =
    elim (Bool-cases (is_current_device_event s.devices id activation_id)) [
      | inl e ↦
          let known = is_current_device_event_known s.devices id activation_id e in
          let (k, t) =
            process_frame-Knows (table s.devices) s.router id es (available_routes s.clients) known
              c.router in
          rw e (dispatch_and_stabilize-Settles s _ k t c)
      | inr e ↦ rw e (c, here)
    ]

-- The server once the clients are told of a new device that is in the slab.
abbrev with_device : Server → ℕ → Device → Server
with_device s id device = record s {
  devices = Slab.insert id device s.devices;
  clients = broadcast (keys s.clients) s.clients (create_device_update id device);
}

with_device-table :
    (s : Server) (id : ℕ) (device : Device)
    → Map.get id s.devices ≡ none
    → after (table s.devices) (create_device_update id device)
      ≡ table (Slab.insert id device s.devices)
unfolding after create_device_update
with_device-table s id device vacant =
    fun_ext (λ j. ground (arith, Slab.get-insert id j device s.devices vacant))

with_device-IsConsistent :
    (s : Server) (id : ℕ) (device : Device)
    → Map.get id s.devices ≡ none
    → IsConsistent s
    → IsConsistent (with_device s id device)
unfolding is_legal create_device_update
with_device-IsConsistent s id device vacant c =
    let T = table s.devices in
    let u = create_device_update id device in
    let same = with_device-table s id device vacant in
    record {
      devices = Slab.insert-Distinct id device s.devices vacant c.devices;
      clients =
          subst (λ t. ForEach (λ k. InSync t) (broadcast (keys s.clients) s.clients u)) same
            (broadcast-ForEach (InSync T) (InSync (after T u)) u
              (λ us h. snoc-InSync T us u (ground arith) h) s.clients c.clients);
      router = (
        c.router.0,
        λ j h. ground (arith, c.router.1 j h, Slab.get-insert id j device s.devices vacant),
      );
    }

pub on_activated-Settles :
    (id : ℕ) (device : Device) (pressed : List Key) (s : Server)
    → IsConsistent s
    → Map.get id s.devices ≡ none
    → Settles (on_activated id device pressed s)
unfolding on_activated
on_activated-Settles id device pressed s c vacant =
    let s' = with_device s id device in
    let c' = with_device-IsConsistent s id device vacant c in
    let (k, t) =
      add_device-Knows (table s'.devices) s.router id pressed (available_routes s'.clients)
        (ground (arith, Slab.get-insert id id device s.devices vacant)) c'.router in
    dispatch_and_stabilize-Settles s' _ k t c'

forget_device-table :
    (s : Server) (id : ℕ)
    → IsConsistent s
    → after (table s.devices) (Update.destroy_device id) ≡ table (Map.remove id s.devices)
unfolding after
forget_device-table s id c = fun_ext (λ j. ground (arith, Map.get-remove id j s.devices c.devices))

pub forget_device-IsConsistent :
    (s : Server) (id : ℕ)
    → table s.devices id ≡ true
    → IsConsistent s
    → IsConsistent (forget_device s id)
unfolding forget_device is_legal
forget_device-IsConsistent s id known c =
    let T = table s.devices in
    let u = Update.destroy_device id in
    record {
      devices = Map.remove-Distinct id s.devices c.devices;
      clients =
          subst (λ t. ForEach (λ k. InSync t) (broadcast (keys s.clients) s.clients u))
            (forget_device-table s id c)
            (broadcast-ForEach (InSync T) (InSync (after T u)) u
              (λ us h. snoc-InSync T us u known h) s.clients c.clients);
      router =
          subst (KnownIn (table (Map.remove id s.devices)))
            (sym (remove_device_physical s.router id))
            (
              Map.remove-Distinct id s.router.physical_keys c.router.0,
              λ j h. ground (
                arith,
                c.router.1 j,
                Map.get-remove id j s.router.physical_keys c.router.0,
                Map.get-remove id j s.devices c.devices,
              ),
            );
    }
