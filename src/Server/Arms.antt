-- ===== src/Server/Arms.antt =====
-- rkvm-server/src/server.rs: the arms of the loop of `run` that destroy or reset a device or take on
-- a client, and the server as a sequence of arms.
use rkvm.Prelude.{
  ℕ, ◌≡◌, refl, Bool, true, false, List, [], map, Option, none, some, arith, ℕ_eq, is_some,
  Option-cases, Bool-cases, inl, inr, ◌⊎◌, if◌then◌else◌, ap, sym, subst,
}
use rkvm.Collections.Map
use rkvm.Collections.Slab
use rkvm.Collections.Map.{keys}
use rkvm.Input.Key.{Key}
use rkvm.Net.Protocol.{InSync}
use rkvm.Routing.Router.{reset_device}
use rkvm.Routing.Targets.{reset_device-Knows}
use rkvm.Server.Channel.{send}
use rkvm.Server.State.{
  Server, Device, Client, DeviceCommand, ReleaseCause, disconnected, failed, Error, input, overflow,
  Result, ok, err, remove_dead_clients, available_routes, create_device_update,
  is_current_device_event,
}
use rkvm.Server.Loop.{
  stabilize, dispatch_and_stabilize, forget_device, destroy_device, destroy_and_release,
  reset_clients, on_authenticated, find_activation, on_remove, on_input_lost, on_error,
}
use rkvm.Server.Clients.{Apart, insert_new-ForEach, same-Apart, other-Apart}
use rkvm.Server.Invariant.{
  table, IsConsistent, IsRouted, IsOverflow, Settles, Returns, Settles-Returns,
  replaced-IsConsistent,
}
use rkvm.Server.Stable.{stabilize_routes-Settles}
use rkvm.Server.Catchup.{Behind, send_all-InSync, new-InSync, reset_clients-InSync}
use rkvm.Server.Handlers.{
  dispatch_and_stabilize-Settles, cleaned-IsConsistent, forget_device-IsConsistent,
}

-- The results of a loop.
Settled-cases :
    (result : Option (Result Server))
    → Settles result
    → ((e : Error) × (result ≡ some (err e)) × IsOverflow e)
      ⊎ ((s : Server) × (result ≡ some (ok s)) × IsConsistent s × IsRouted s)
Settled-cases none h = absurd h
Settled-cases (some (err e)) h = inl (e, refl, h)
Settled-cases (some (ok s)) h = inr (s, refl, h.0, h.1)

-- The errors of an arm that gives a device back to the monitor.
abbrev MayRelease : Bool → (Error → Bool) → Type 0
MayRelease taken may_end = (may_end overflow ≡ true) × (taken ≡ false → may_end input ≡ true)

destroy_and_release-Returns :
    (may_end : Error → Bool) (taken : Bool) (s : Server) (id : ℕ) (cause : ReleaseCause)
    → MayRelease taken may_end
    → IsConsistent s
    → (Map.get id s.devices ≡ none → IsRouted s)
    → Returns may_end (destroy_and_release taken s id cause)
unfolding destroy_and_release destroy_device
destroy_and_release-Returns may_end taken s id cause may c here =
    elim (Option-cases (Map.get id s.devices)) [
      | inl e ↦ rw (e, destroy_and_release, destroy_device) (c, here e)
      | inr (device, e) ↦
          elim (Settled-cases (stabilize (forget_device s id)) (
            stabilize_routes-Settles (forget_device s id)
              (forget_device-IsConsistent s id (ap is_some e) c))) [
                | inl (error, e', o) ↦
                    rw (e, destroy_and_release, destroy_device, e')
                      (Settles-Returns may_end (some (err error)) may.0 o)
                | inr (s', e', c', here') ↦ elim (Bool-cases taken) [
                  | inl t ↦
                      rw (e, destroy_and_release, destroy_device, e', t)
                        (
                          record { devices = c'.devices; clients = c'.clients; router = c'.router },
                          here',
                        )
                  | inr t ↦ rw (e, destroy_and_release, destroy_device, e', t) (may.1 t)
                ]
              ]
    ]

pub on_remove-Returns :
    (may_end : Error → Bool) (activation_id : ℕ) (taken : Bool) (s : Server)
    → MayRelease taken may_end
    → IsConsistent s
    → IsRouted s
    → Returns may_end (on_remove activation_id taken s)
unfolding on_remove
on_remove-Returns may_end activation_id taken s may c here =
    elim (Option-cases (find_activation activation_id s.devices)) [
      | inl e ↦ rw (e, on_remove) (c, here)
      | inr (id, e) ↦
          rw (e, on_remove)
            (destroy_and_release-Returns may_end taken s id disconnected may c (λ e. here))
    ]

pub on_error-Returns :
    (may_end : Error → Bool) (id activation_id : ℕ) (gone taken : Bool) (s : Server)
    → MayRelease taken may_end
    → IsConsistent s
    → IsRouted s
    → Returns may_end (on_error id activation_id gone taken s)
unfolding on_error
on_error-Returns may_end id activation_id gone taken s may c here =
    elim (Bool-cases (is_current_device_event s.devices id activation_id)) [
      | inl e ↦ rw e (destroy_and_release-Returns may_end taken s id _ may c (λ e. here))
      | inr e ↦ rw e (c, here)
    ]

-- The server once the device's task has been told and the clients have lost the device and got it
-- again.
abbrev with_reset : Server → ℕ → Device → Bool → Server
with_reset s id device delivered = record s {
  devices =
      Map.insert id (record device { sender = send delivered device.sender DeviceCommand.reset })
        s.devices;
  clients = reset_clients (keys s.clients) s.clients id device;
}

with_reset-IsConsistent :
    (s : Server) (id : ℕ) (device : Device) (delivered : Bool)
    → table s.devices id ≡ true
    → IsConsistent s
    → IsConsistent (with_reset s id device delivered)
with_reset-IsConsistent s id device delivered known c =
    replaced-IsConsistent
      (record s { clients = reset_clients (keys s.clients) s.clients id device }) id
      (record device { sender = send delivered device.sender DeviceCommand.reset }) known
      (record {
        devices = c.devices;
        clients =
            reset_clients-InSync (table s.devices) (keys s.clients) s.clients id device known
              c.clients;
        router = c.router;
      })

with_reset-table :
    (s : Server) (id : ℕ) (device : Device) (delivered : Bool)
    → table (with_reset s id device delivered).devices id ≡ true
with_reset-table s id device delivered = ground (
  arith,
  Map.get-insert id id (record device { sender = send delivered device.sender DeviceCommand.reset })
      s.devices,
)

pub on_input_lost-Returns :
    (may_end : Error → Bool) (id activation_id : ℕ) (pressed : List Key) (delivered taken : Bool)
    (s : Server)
    → MayRelease taken may_end
    → IsConsistent s
    → IsRouted s
    → Returns may_end (on_input_lost id activation_id pressed delivered taken s)
unfolding on_input_lost
on_input_lost-Returns may_end id activation_id pressed delivered taken s may c here =
    elim (Bool-cases (is_current_device_event s.devices id activation_id)) [
      | inr e ↦ rw e (c, here)
      | inl e ↦ elim (Option-cases (Map.get id s.devices)) [
        | inl e' ↦ rw (e, on_input_lost, e') (c, here)
        | inr (device, e') ↦
            rw (e, on_input_lost, e') (reset_branch device delivered (ap is_some e'))
      ]
    ]
  where
    reset_branch :
        (device : Device) (delivered : Bool)
        → table s.devices id ≡ true
        → Returns may_end (
            if delivered
            then dispatch_and_stabilize (with_reset s id device delivered) (
                reset_device s.router id pressed
                  (available_routes (with_reset s id device delivered).clients))
            else destroy_and_release taken (with_reset s id device delivered) id failed)
    reset_branch device true known =
        let s' = with_reset s id device true in
        let c' = with_reset-IsConsistent s id device true known c in
        let (k, t) =
          reset_device-Knows (table s'.devices) s.router id pressed (available_routes s'.clients)
            (with_reset-table s id device true) c'.router in
        Settles-Returns may_end _ may.0 (dispatch_and_stabilize-Settles s' _ k t c')
    reset_branch device false known =
        destroy_and_release-Returns may_end taken (with_reset s id device false) id failed may
          (with_reset-IsConsistent s id device false known c)
          (λ gone. absurd (ground (arith, with_reset-table s id device false)))

-- The new client's key is vacant once the dead clients are gone and the routes are stable.
pub on_authenticated-Settles :
    (is_dead : ℕ → Bool) (k : ℕ) (client : Client) (s : Server)
    → IsConsistent s
    → client.sender.sent ≡ []
    → ((s' : Server)
        → stabilize (record s { clients = remove_dead_clients is_dead s.clients }) ≡ some (ok s')
        → Map.get k s'.clients ≡ none)
    → Settles (on_authenticated is_dead k client s)
unfolding on_authenticated
on_authenticated-Settles is_dead k client s c fresh vacant =
    elim (Settled-cases (stabilize (record s { clients = remove_dead_clients is_dead s.clients }))
      (stabilize_routes-Settles _ (cleaned-IsConsistent s is_dead c))) [
        | inl (error, e, o) ↦ rw (e, on_authenticated) o
        | inr (s', e, c', here) ↦
            let T = table s'.devices in
            let us = map (λ e. create_device_update e.0 e.1) s'.devices in
            rw (e, on_authenticated)
              (stabilize_routes-Settles _ (record {
                devices = c'.devices;
                clients = send_all-InSync T (Slab.insert k client s'.clients) k us (
                    insert_new-ForEach (λ j. InSync T) (Apart (λ j. InSync T) k (Behind T us))
                      s'.clients k client (vacant s' e) c'.clients
                      (same-Apart (λ j. InSync T) k (Behind T us) client.sender.sent
                        (subst (Behind T us) (sym fresh) (new-InSync s'.devices c'.devices)))
                      (λ j sent n h. other-Apart (λ j. InSync T) k (Behind T us) sent j n h));
                router = c'.router;
              }))
      ]
