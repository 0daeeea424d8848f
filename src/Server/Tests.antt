-- ===== src/Server/Tests.antt =====
-- The server at concrete arms of its loop.
use rkvm.Prelude.{
  ℕ, ◌≡◌, refl, true, false, List, [], ◌∷◌, Option, none, some, map, ◌≢◌, ℕ_eq, is_some, ap, sym,
}
use rkvm.Collections.Map
use rkvm.Collections.Slab
use rkvm.Collections.Set.{contains}
use rkvm.Input.Tests.{glue}
use rkvm.Input.Key.{key}
use rkvm.Input.Key.Keys.{Keyboard}
use rkvm.Input.Writer.{written, ok as built}
use rkvm.Net.Message.{Update}
use rkvm.Net.Protocol.{are_legal, afters, no_devices}
use rkvm.Routing.Tests.{program, chord}
use rkvm.Server.Channel.{accepted, try_send, Sender}
use rkvm.Server.State.{
  Server, Device, Client, Result, ok, err, remove_client, try_send_update, broadcast, send_all,
  remove_each, remove_dead_clients, available_routes, create_device_update, is_current_device_event,
  command_device, dispatch_action, dispatch_actions, stabilize_routes,
}
use rkvm.Server.Loop.{on_authenticated, on_activated}
use rkvm.Server.Invariant.{Settles, Returns}
use rkvm.Server.Stable.{stabilize_routes-Settles}
use rkvm.Server.Run.{
  Arm, may_end, activated, authenticated, step, Run, here, next, start, start-IsConsistent,
  step-Returns, Run-are_legal,
}
use rkvm.Server.Agreement.{Run-serve}
use rkvm.Client.Updates.{Answers, invalid_data, serve}

abbrev fresh_channel : {A : Type 0} → Sender A
fresh_channel = record { sent = []; asked = 0; answers = λ n. accepted }

abbrev keyboard : Device
keyboard = record {
  activation_id = 11;
  description = record {
    name = [];
    vendor = 1;
    product = 2;
    version = 3;
    rel = [];
    abs = [];
    keys = [];
    delay = none;
    period = none;
  };
  sender = fresh_channel;
}

abbrev laptop : Client
laptop = record { sender = fresh_channel; addr = 1 }

abbrev empty_server : Server
empty_server = start (chord ∷ []) true false

stabilize_routes-Settles_example : Settles (stabilize_routes 2 empty_server)
stabilize_routes-Settles_example =
    stabilize_routes-Settles empty_server (start-IsConsistent (chord ∷ []) true false).0

step-Returns_example :
    Returns (may_end (activated 0 keyboard [])) (step (activated 0 keyboard []) empty_server)
unfolding start Map.get
step-Returns_example =
    step-Returns empty_server (activated 0 keyboard [])
      (start-IsConsistent (chord ∷ []) true false).0 (start-IsConsistent (chord ∷ []) true false).1
      refl

abbrev outcome_or : Server → Option (Result Server) → Server
outcome_or s none = s
outcome_or s (some (ok s')) = s'
outcome_or s (some (err e)) = s

abbrev connect : Arm
connect = authenticated (λ k. false) 0 laptop

abbrev plug : Arm
plug = activated 0 keyboard (key Keyboard.left_ctrl ∷ [])

abbrev connected : Server
connected = outcome_or empty_server (step connect empty_server)

abbrev plugged : Server
plugged = outcome_or connected (step plug connected)

-- All that a run of the server computes with.
server_program : Unit {0}
unfolding program Slab.insert try_send remove_client try_send_update broadcast send_all remove_each
    remove_dead_clients available_routes create_device_update is_current_device_event command_device
    dispatch_action dispatch_actions stabilize_routes on_authenticated on_activated step start
server_program = tt

session : Run empty_server plugged
unfolding server_program
session =
    next plug
      (next connect here
        (refl, λ s' h. ap (λ r. Map.get 0 (outcome_or empty_server r).clients) (sym h)) refl)
      refl refl

-- What the laptop has been sent when the keyboard is plugged in with Ctrl held.
abbrev sent : List Update
sent = Update.create_device 0 keyboard.description ∷ Update.set_key_state 0 [] ∷ []

abbrev laptop_now : Client
laptop_now = record {
  sender = record { sent = sent; asked = 2; answers = λ n. accepted };
  addr = 1;
}

Run-are_legal_example :
    (are_legal no_devices sent ≡ true)
    × ((id : ℕ) → afters no_devices sent id ≡ is_some (Map.get id plugged.devices))
    × (contains plugged.router.current (available_routes plugged.clients) ≡ true)
unfolding server_program
Run-are_legal_example = Run-are_legal (chord ∷ []) true false plugged session 0 laptop_now refl

abbrev answer : Answers
answer = record { built = built tt; outcomes = written ∷ []; ponged = true }

Run-serve_example : serve glue (map (λ u. (answer, u)) sent) [] ≢ some ([], invalid_data)
unfolding server_program
Run-serve_example =
    Run-serve (chord ∷ []) true false plugged session 0 laptop_now refl glue
      (map (λ u. (answer, u)) sent) [] refl
