-- ===== src/Server/Invariant.antt =====
-- rkvm-server/src/server.rs: when the devices, the clients and the router of the server are consistent,
-- and lemmas on `dispatch_actions`.
use rkvm.Prelude.{
  ℕ, zero, suc, Bool, ◌≡◌, refl, true, List, [], ◌∷◌, ◌++◌, Option, none, some, arith, ℕ_eq,
  is_some, Option-cases, inl, inr, ◌⊎◌, ap, sym, ◌∙◌, subst, fun_ext,
}
use rkvm.Collections.Map
use rkvm.Collections.Map.{keys}
use rkvm.Collections.Set.{contains}
use rkvm.Net.Message.{Update}
use rkvm.Net.Protocol.{Table, is_legal, after, InSync, snoc-InSync}
use rkvm.Routing.Router.{Router, Action}
use rkvm.Routing.Targets.{target, Targets, Knows}
use rkvm.Server.Channel.{Sender, try_send, accepted, closed}
use rkvm.Server.State.{
  Server, Device, Devices, Clients, DeviceCommand, Error, overflow, Result, ok, err,
  try_send_update, available_routes, local, command_device, dispatch_action, dispatch_actions,
  and_then, and_loop,
}
use rkvm.Server.Clients.{ForEach, Answer-cases, try_send_update-ForEach}

abbrev pub table : Devices → Table
table devices id = is_some (Map.get id devices)

-- Each client accepts the updates that it has been sent and has exactly the server's devices, and
-- the router knows no other device.
pub record IsConsistent (s : Server) : Type 0 where
  pub devices : Map.Distinct s.devices
  pub clients : ForEach (λ k. InSync (table s.devices)) s.clients
  pub router : Knows (table s.devices) s.router

-- The current route is the local one or that of a client.
abbrev pub IsRouted : Server → Type 0
IsRouted s = contains s.router.current (available_routes s.clients) ≡ true

abbrev pub IsOverflow : Error → Type 0
IsOverflow overflow = Unit
IsOverflow e = ⊥

-- The handler returns: it ends the server with an overflow, or leaves it consistent and routed.
abbrev pub Settles : Option (Result Server) → Type 0
Settles none = ⊥
Settles (some (err e)) = IsOverflow e
Settles (some (ok s)) = IsConsistent s × IsRouted s

-- The same with the errors that may end the server.
abbrev pub Returns : (Error → Bool) → Option (Result Server) → Type 0
Returns may_end none = ⊥
Returns may_end (some (err e)) = may_end e ≡ true
Returns may_end (some (ok s)) = IsConsistent s × IsRouted s

pub Settles-Returns :
    (may_end : Error → Bool) (result : Option (Result Server))
    → may_end overflow ≡ true
    → Settles result
    → Returns may_end result
Settles-Returns may_end none may h = h
Settles-Returns may_end (some (err overflow)) may h = may
Settles-Returns may_end (some (err _)) may h = absurd h
Settles-Returns may_end (some (ok s)) may h = h

-- An update for a device that every client has changes nothing in what they have.
pub send-InSync :
    (T : Table) (clients : Clients) (k : ℕ) (u : Update)
    → is_legal T u ≡ true
    → after T u ≡ T
    → ForEach (λ j. InSync T) clients
    → ForEach (λ j. InSync T) (try_send_update clients k u).0
send-InSync T clients k u legal same f =
    try_send_update-ForEach (λ j. InSync T) (λ j. InSync T) clients k u f
      (λ us h. subst (λ t. InSync t (us ++ u ∷ [])) same (snoc-InSync T us u legal h))
      (λ j us n h. h)

-- Replacing a device that is in the slab keeps the table.
pub replace-table :
    (devices : Devices) (id : ℕ) (device : Device)
    → table devices id ≡ true
    → table (Map.insert id device devices) ≡ table devices
replace-table devices id device h =
    fun_ext (λ j. ground (arith, Map.get-insert id j device devices))

pub replaced-IsConsistent :
    (s : Server) (id : ℕ) (device : Device)
    → table s.devices id ≡ true
    → IsConsistent s
    → IsConsistent (record s { devices = Map.insert id device s.devices })
replaced-IsConsistent s id device h c =
    let same = replace-table s.devices id device h in
    record {
      devices = Map.insert-Distinct id device s.devices c.devices;
      clients = subst (λ t. ForEach (λ k. InSync t) s.clients) (sym same) c.clients;
      router = subst (λ t. Knows t s.router) (sym same) c.router;
    }

abbrev pub Dispatched : Server → Result Server → Type 0
Dispatched s (err e) = IsOverflow e
Dispatched s (ok s') =
    IsConsistent s' × (table s'.devices ≡ table s.devices) × (s'.router ≡ s.router)

try_send_answer :
    {A : Type 0} (sender : Sender A) (a : A) → (try_send sender a).1 ≡ sender.answers sender.asked
unfolding try_send
try_send_answer sender a = ground arith

command_answered :
    (s : Server) (id : ℕ) (device : Device) (command : DeviceCommand)
    → Map.get id s.devices ≡ some device
    → (device.sender.answers device.sender.asked ≡ accepted)
      ⊎ (device.sender.answers device.sender.asked ≡ closed)
    → local s (command_device s.devices id command)
      ≡ ok (record s {
        devices =
            Map.insert id (record device { sender = (try_send device.sender command).0 }) s.devices;
      })
unfolding command_device
command_answered s id device command e (inl a) =
    let a' = try_send_answer device.sender command ∙ a in rw (e, command_device, a') refl
command_answered s id device command e (inr a) =
    let a' = try_send_answer device.sender command ∙ a in rw (e, command_device, a') refl

command-Dispatched :
    (s : Server) (id : ℕ) (command : DeviceCommand)
    → IsConsistent s
    → Dispatched s (local s (command_device s.devices id command))
unfolding command_device try_send
command-Dispatched s id command c = elim (Option-cases (Map.get id s.devices)) [
  | inl e ↦ rw (e, command_device) (c, refl, refl)
  | inr (device, e) ↦
      let device' : Device = record device { sender = (try_send device.sender command).0 } in
      let known : table s.devices id ≡ true = ap is_some e in
      let kept : Dispatched s (ok (record s { devices = Map.insert id device' s.devices })) = (
        replaced-IsConsistent s id device' known c,
        replace-table s.devices id device' known,
        refl,
      ) in
      elim (Answer-cases (device.sender.answers device.sender.asked)) [
        | inl a ↦ subst (Dispatched s) (sym (command_answered s id device command e (inl a))) kept
        | inr (inl a) ↦
            subst (Dispatched s) (sym (command_answered s id device command e (inr a))) kept
        | inr (inr a) ↦ rw (e, command_device, try_send, a) tt
      ]
]

send-Dispatched :
    (s : Server) (k : ℕ) (u : Update)
    → is_legal (table s.devices) u ≡ true
    → after (table s.devices) u ≡ table s.devices
    → IsConsistent s
    → Dispatched s (ok (record s { clients = (try_send_update s.clients k u).0 }))
send-Dispatched s k u legal same c = (
  record {
    devices = c.devices;
    clients = send-InSync (table s.devices) s.clients k u legal same c.clients;
    router = c.router;
  },
  refl,
  refl,
)

-- An action for a device of the server keeps it consistent.
dispatch_action-Dispatched :
    (s : Server) (action : Action)
    → table s.devices (target action) ≡ true
    → IsConsistent s
    → Dispatched s (dispatch_action s action)
unfolding dispatch_action target is_legal after
dispatch_action-Dispatched s (Action.events zero d es) known c =
    command-Dispatched s d (DeviceCommand.events es) c
dispatch_action-Dispatched s (Action.events (suc k) d es) known c =
    send-Dispatched s k (Update.events d es) known refl c
dispatch_action-Dispatched s (Action.set_key_state zero d ks) known c =
    command-Dispatched s d (DeviceCommand.set_key_state ks) c
dispatch_action-Dispatched s (Action.set_key_state (suc k) d ks) known c =
    send-Dispatched s k (Update.set_key_state d ks) known refl c

Dispatched-step :
    (s s' : Server) (result : Result Server)
    → table s'.devices ≡ table s.devices
    → s'.router ≡ s.router
    → Dispatched s' result
    → Dispatched s result
Dispatched-step s s' (err e) t r d = d
Dispatched-step s s' (ok s'') t r (c, t', r') = (c, t' ∙ t, r' ∙ r)

and_then-Dispatched :
    (s : Server) (result : Result Server) (next : Server → Result Server)
    → Dispatched s result
    → ((s' : Server)
        → IsConsistent s'
        → table s'.devices ≡ table s.devices
        → Dispatched s' (next s'))
    → Dispatched s (and_then result next)
and_then-Dispatched s (err e) next d go = d
and_then-Dispatched s (ok s') next (c, t, r) go = Dispatched-step s s' (next s') t r (go s' c t)

pub dispatch_actions-Dispatched :
    (s : Server) (actions : List Action)
    → Targets (table s.devices) actions
    → IsConsistent s
    → Dispatched s (dispatch_actions s actions)
unfolding dispatch_actions
dispatch_actions-Dispatched s [] targets c = (c, refl, refl)
dispatch_actions-Dispatched s (action ∷ actions) targets c =
    and_then-Dispatched s (dispatch_action s action) (λ s'. dispatch_actions s' actions)
      (dispatch_action-Dispatched s action targets.0 c)
      (λ s' c' t.
        dispatch_actions-Dispatched s' actions (subst (λ T. Targets T actions) (sym t) targets.1)
          c')

pub and_loop-Settles :
    (s : Server) (result : Result Server) (next : Server → Option (Result Server))
    → Dispatched s result
    → ((s' : Server) → IsConsistent s' → s'.router ≡ s.router → Settles (next s'))
    → Settles (and_loop result next)
and_loop-Settles s (err e) next d go = d
and_loop-Settles s (ok s') next (c, t, r) go = go s' c r

pub rerouted-IsConsistent :
    (s : Server) (router : Router)
    → Knows (table s.devices) router
    → IsConsistent s
    → IsConsistent (record s { router = router })
rerouted-IsConsistent s router known c = record {
  devices = c.devices;
  clients = c.clients;
  router = known;
}
