-- ===== src/Server/State.antt =====
-- rkvm-server/src/server.rs: `Device`, `DeviceCommand`, the slabs of the server and the functions
-- that send to clients and devices.
use rkvm.Prelude.{
  ℕ, zero, suc, Bool, true, false, List, [], ◌∷◌, map, Option, none, some, ◌==◌, ℕ_eq,
  if◌then◌else◌, filter,
}
use rkvm.Collections.Map
use rkvm.Collections.Map.{keys}
use rkvm.Input.Key.{Key}
use rkvm.Input.Event.{Event}
use rkvm.Net.Message.{Description, Update}
use rkvm.Routing.Router.{Route, Action, Router, retain_routes}
use rkvm.Server.Channel.{Sender, try_send, accepted, closed, full}

pub data DeviceCommand : Type 0 where
  events : List Event → DeviceCommand
  set_key_state : List Key → DeviceCommand
  reset : DeviceCommand

pub record Device : Type 0 where
  pub activation_id : ℕ
  pub description : Description
  pub sender : Sender DeviceCommand

pub record Client : Type 0 where
  pub sender : Sender Update
  pub addr : ℕ

abbrev pub Devices : Type 0
Devices = List (ℕ × Device)

abbrev pub Clients : Type 0
Clients = List (ℕ × Client)

-- rkvm-input/src/monitor.rs: why the monitor gets an activation back.
pub data ReleaseCause : Type 0 where
  disconnected failed : ReleaseCause

-- `released` is what the server has given back to the monitor.
pub record Server : Type 0 where
  pub devices : Devices
  pub clients : Clients
  pub router : Router
  pub released : List (ℕ × ReleaseCause)

pub data Error : Type 0 where
  network input overflow : Error

pub data Result {ℓ} (A : Type ℓ) : Type ℓ where
  ok : A → Result A
  err : Error → Result A

unfoldable pub remove_client : Clients → ℕ → Clients
remove_client clients k = Map.remove k clients

unfoldable pub try_send_update : Clients → ℕ → Update → Clients × Bool
try_send_update clients k update = elim (Map.get k clients) [
  | none ↦ (clients, false)
  | some c ↦
      let (sender, answer) = try_send c.sender update in
      elim answer [
        | accepted ↦ (Map.insert k (record c { sender = sender }) clients, true)
        | closed ↦ (remove_client clients k, false)
        | full ↦ (remove_client clients k, false)
      ]
]

-- One update to each of the clients that are named.
unfoldable pub broadcast : List ℕ → Clients → Update → Clients
broadcast [] clients update = clients
broadcast (k ∷ ks) clients update = broadcast ks (try_send_update clients k update).0 update

-- The updates in turn, until one is not accepted.
unfoldable pub send_all : Clients → ℕ → List Update → Clients
send_all clients k [] = clients
send_all clients k (update ∷ updates) =
    let (clients', sent) = try_send_update clients k update in
    let rest = send_all clients' k updates in if sent then rest else clients'

unfoldable pub remove_each : List ℕ → Clients → Clients
remove_each [] clients = clients
remove_each (k ∷ ks) clients = remove_each ks (remove_client clients k)

-- `is_dead` tells which clients have closed their channel.
unfoldable pub remove_dead_clients : (ℕ → Bool) → Clients → Clients
remove_dead_clients is_dead clients = remove_each (filter is_dead (keys clients)) clients

unfoldable pub available_routes : Clients → List Route
available_routes clients = 0 ∷ map suc (keys clients)

unfoldable pub create_device_update : ℕ → Device → Update
create_device_update id device = Update.create_device id device.description

unfoldable pub is_current_device_event : Devices → ℕ → ℕ → Bool
is_current_device_event devices id activation_id = elim (Map.get id devices) [
  | none ↦ false
  | some device ↦ device.activation_id == activation_id
]

-- A command for the local device: a closed channel loses it, a full one is an overflow.
unfoldable pub command_device : Devices → ℕ → DeviceCommand → Result Devices
command_device devices id command = elim (Map.get id devices) [
  | none ↦ ok devices
  | some device ↦
      let (sender, answer) = try_send device.sender command in
      let devices' = Map.insert id (record device { sender = sender }) devices in
      elim answer [ accepted ↦ ok devices' | closed ↦ ok devices' | full ↦ err overflow ]
]

abbrev pub local : Server → Result Devices → Result Server
local s (ok devices) = ok (record s { devices = devices })
local s (err e) = err e

unfoldable pub dispatch_action : Server → Action → Result Server
dispatch_action s (Action.events zero d es) =
    local s (command_device s.devices d (DeviceCommand.events es))
dispatch_action s (Action.events (suc k) d es) =
    ok (record s { clients = (try_send_update s.clients k (Update.events d es)).0 })
dispatch_action s (Action.set_key_state zero d ks) =
    local s (command_device s.devices d (DeviceCommand.set_key_state ks))
dispatch_action s (Action.set_key_state (suc k) d ks) =
    ok (record s { clients = (try_send_update s.clients k (Update.set_key_state d ks)).0 })

-- `?` on the result of an operation.
abbrev pub and_then : Result Server → (Server → Result Server) → Result Server
and_then (err e) next = err e
and_then (ok s) next = next s

unfoldable pub dispatch_actions : Server → List Action → Result Server
dispatch_actions s [] = ok s
dispatch_actions s (action ∷ actions) =
    and_then (dispatch_action s action) (λ s'. dispatch_actions s' actions)

-- `?` before an operation that loops.
abbrev pub and_loop : Result Server → (Server → Option (Result Server)) → Option (Result Server)
and_loop (err e) next = some (err e)
and_loop (ok s) next = next s

-- The body of the loop of `stabilize_routes`: it returns when no action is left.
abbrev pub round :
    Server → Router × List Action → (Server → Option (Result Server)) → Option (Result Server)
round s (router, []) next = some (ok (record s { router = router }))
round s (router, action ∷ actions) next =
    and_loop (dispatch_actions (record s { router = router }) (action ∷ actions)) next

-- The loop on fuel: `none` where the fuel is out.
unfoldable pub stabilize_routes : ℕ → Server → Option (Result Server)
stabilize_routes zero s = none
stabilize_routes (suc fuel) s =
    round s (retain_routes s.router (available_routes s.clients)) (stabilize_routes fuel)
