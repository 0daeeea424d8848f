-- ===== src/Server/Agreement.antt =====
-- rkvm-server/src/server.rs and rkvm-client/src/client.rs together: the updates of the server, handled
-- by the client.
use rkvm.Prelude.{ℕ, ◌≡◌, Bool, List, [], some, map, ◌≢◌, ap, ◌∙◌, ℕ_eq}
use rkvm.Collections.Map
use rkvm.Input.Convert.{Glue}
use rkvm.Net.Message.{Update}
use rkvm.Net.Protocol.{are_legal, no_devices}
use rkvm.Routing.Router.{SwitchBinding}
use rkvm.Server.State.{Server, Client}
use rkvm.Server.Run.{Run, start, Run-are_legal}
use rkvm.Client.Updates.{Answers, Writers, invalid_data, serve}
use rkvm.Client.Legal.{serve-are_legal}

-- However the arms of the server's loop follow one another from the start, with vacant keys from the
-- slabs and fresh channels for new clients, a client of the slab that receives the updates which
-- the server has sent to it never ends with `InvalidData`, whatever its devices answer.
pub Run-serve :
    (bindings : List SwitchBinding) (propagate consume : Bool) (s : Server)
    → Run (start bindings propagate consume) s
    → (k : ℕ) (client : Client) → Map.get k s.clients ≡ some client
    → (g : Glue) (steps : List (Answers × Update)) (writers : Writers)
    → map (λ e. e.1) steps ≡ client.sender.sent
    → serve g steps [] ≢ some (writers, invalid_data)
Run-serve bindings propagate consume s path k client found g steps writers same =
    serve-are_legal g steps writers (
      ap (are_legal no_devices) same
      ∙ (Run-are_legal bindings propagate consume s path k client found).0)
