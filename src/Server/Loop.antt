-- ===== src/Server/Loop.antt =====
-- rkvm-server/src/server.rs: `destroy_device`, `reset_client_device` and the arms of the loop of
-- `run`. An arm is one step of the server; `none` would be a loop of `stabilize_routes` that runs
-- out of fuel.
use rkvm.Prelude.{
  ℕ, Bool, true, false, List, [], ◌∷◌, ◌++◌, map, Option, none, some, ◌==◌, ℕ_eq, if◌then◌else◌,
}
use rkvm.Collections.Map
use rkvm.Collections.Slab
use rkvm.Collections.Map.{keys}
use rkvm.Input.Key.{Key}
use rkvm.Input.Event.{Event}
use rkvm.Net.Message.{Update}
use rkvm.Routing.Router.{Action, Router, add_device, reset_device, remove_device}
use rkvm.Routing.Frame.{process_frame}
use rkvm.Server.Channel.{send}
use rkvm.Server.State.{
  Server, Device, Devices, Client, Clients, DeviceCommand, ReleaseCause, disconnected, failed,
  Result, ok, err, network, input, try_send_update, broadcast, send_all, remove_dead_clients,
  available_routes, create_device_update, is_current_device_event, dispatch_actions,
  stabilize_routes, and_loop,
}

-- Two rounds are enough.
abbrev pub stabilize : Server → Option (Result Server)
stabilize = stabilize_routes 2

abbrev pub dispatch_and_stabilize : Server → Router × List Action → Option (Result Server)
dispatch_and_stabilize s (router, actions) =
    and_loop (dispatch_actions (record s { router = router }) actions) stabilize

-- The server once the clients are told and the device is gone from the slab and the router.
unfoldable pub forget_device : Server → ℕ → Server
forget_device s id = record s {
  devices = Map.remove id s.devices;
  clients = broadcast (keys s.clients) s.clients (Update.destroy_device id);
  router = remove_device s.router id;
}

unfoldable pub destroy_device : Server → ℕ → Option (Result (Server × Option ℕ))
destroy_device s id = elim (Map.get id s.devices) [
  | none ↦ some (ok (s, none))
  | some device ↦ elim (stabilize (forget_device s id)) [
    | none ↦ none
    | some (err e) ↦ some (err e)
    | some (ok s') ↦ some (ok (s', some device.activation_id))
  ]
]

-- A destroyed device is given back to the monitor; `taken` tells whether `monitor.release` succeeds.
unfoldable pub destroy_and_release : Bool → Server → ℕ → ReleaseCause → Option (Result Server)
destroy_and_release taken s id cause = elim (destroy_device s id) [
  | none ↦ none
  | some (err e) ↦ some (err e)
  | some (ok (s', none)) ↦ some (ok s')
  | some (ok (s', some activation_id)) ↦
      if taken
      then some (ok (record s' { released = s'.released ++ (activation_id, cause) ∷ [] }))
      else some (err input)
]

unfoldable pub reset_client_device : Clients → ℕ → ℕ → Device → Clients × Bool
reset_client_device clients k id device =
    let (clients', sent) = try_send_update clients k (Update.destroy_device id) in
    let again = try_send_update clients' k (create_device_update id device) in
    if sent then again else (clients', false)

unfoldable pub reset_clients : List ℕ → Clients → ℕ → Device → Clients
reset_clients [] clients id device = clients
reset_clients (k ∷ ks) clients id device =
    reset_clients ks (reset_client_device clients k id device).0 id device

-- `listener.accept()`; `accepted` tells whether it and `set_nodelay` succeed.
unfoldable pub on_accept : Bool → (ℕ → Bool) → Server → Option (Result Server)
on_accept false is_dead s = some (err network)
on_accept true is_dead s = stabilize (record s { clients = remove_dead_clients is_dead s.clients })

-- `authenticated_receiver.recv()`: the client gets the vacant key `k` and every device.
unfoldable pub on_authenticated : (ℕ → Bool) → ℕ → Client → Server → Option (Result Server)
on_authenticated is_dead k client s =
    elim (stabilize (record s { clients = remove_dead_clients is_dead s.clients })) [
      | none ↦ none
      | some (err e) ↦ some (err e)
      | some (ok s') ↦ stabilize (record s' {
        clients =
            send_all (Slab.insert k client s'.clients) k
              (map (λ e. create_device_update e.0 e.1) s'.devices);
      })
    ]

unfoldable pub find_activation : ℕ → Devices → Option ℕ
find_activation activation_id [] = none
find_activation activation_id ((id, device) ∷ devices) =
    if device.activation_id == activation_id then some id else find_activation activation_id devices

-- `MonitorEvent::Remove`
unfoldable pub on_remove : ℕ → Bool → Server → Option (Result Server)
on_remove activation_id taken s = elim (find_activation activation_id s.devices) [
  | none ↦ some (ok s)
  | some id ↦ destroy_and_release taken s id disconnected
]

-- `MonitorEvent::Activated`: the device gets the vacant key `id`.
unfoldable pub on_activated : ℕ → Device → List Key → Server → Option (Result Server)
on_activated id device pressed s =
    let s' : Server = record s {
      devices = Slab.insert id device s.devices;
      clients = broadcast (keys s.clients) s.clients (create_device_update id device);
    } in
    dispatch_and_stabilize s' (add_device s.router id pressed (available_routes s'.clients))

-- `Frame::Events` of a device's task.
unfoldable pub on_events : ℕ → ℕ → List Event → Server → Option (Result Server)
on_events id activation_id es s =
    if is_current_device_event s.devices id activation_id
    then dispatch_and_stabilize s (process_frame s.router id es (available_routes s.clients))
    else some (ok s)

-- `Frame::InputLost`; `delivered` tells whether the device's task takes the reset.
unfoldable pub on_input_lost : ℕ → ℕ → List Key → Bool → Bool → Server → Option (Result Server)
on_input_lost id activation_id pressed delivered taken s =
    if is_current_device_event s.devices id activation_id
    then elim (Map.get id s.devices) [
      | none ↦ some (ok s)
      | some device ↦
          let device' : Device = record device {
            sender = send delivered device.sender DeviceCommand.reset;
          } in
          let s' : Server = record s {
            devices = Map.insert id device' s.devices;
            clients = reset_clients (keys s.clients) s.clients id device;
          } in
          if delivered
          then dispatch_and_stabilize s'
              (reset_device s.router id pressed (available_routes s'.clients))
          else destroy_and_release taken s' id failed
    ]
    else some (ok s)

-- A device's task fails; `gone` is `is_device_disconnect`.
unfoldable pub on_error : ℕ → ℕ → Bool → Bool → Server → Option (Result Server)
on_error id activation_id gone taken s =
    if is_current_device_event s.devices id activation_id
    then destroy_and_release taken s id (if gone then disconnected else failed)
    else some (ok s)
