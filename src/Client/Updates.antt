-- ===== src/Client/Updates.antt =====
-- rkvm-client/src/client.rs: the updates of the loop of `run_once`. The client has a writer for each
-- device.
use rkvm.Prelude.{ℕ, Bool, List, [], ◌∷◌, Option, none, some, ℕ_eq, if◌then◌else◌}
use rkvm.Collections.Map
use rkvm.Input.Convert.{Glue}
use rkvm.Input.Writer.{Writer, Outcome, Result, ok, err, write, write_frame, set_key_state}
use rkvm.Net.Message.{Update}

abbrev pub Writers : Type 0
Writers = List (ℕ × Writer)

-- How an update ends: `Error::Network` of kind `InvalidData` or for a pong that is not sent, or
-- `Error::Input`.
pub data Handled : Type 0 where
  done : Handled
  invalid_data : Handled
  network_error : Handled
  input_error : ℕ → Handled

-- What the outside answers: whether the device can be built, the outcomes of the writes, and whether
-- the pong is sent.
pub record Answers : Type 0 where
  pub built : Result (Unit {0})
  pub outcomes : List Outcome
  pub ponged : Bool

abbrev pub new_writer : Writer
new_writer = record { sent = []; pressed_keys = [] }

abbrev pub stored : Writers → ℕ → Option (Writer × Result (Unit {0})) → Option (Writers × Handled)
stored writers id none = none
stored writers id (some (w, ok _)) = some (Map.insert id w writers, done)
stored writers id (some (w, err code)) = some (Map.insert id w writers, input_error code)

-- A writer that is there does its work; without one the update is invalid.
abbrev pub write_to :
    Writers
    → ℕ
    → Option Writer
    → (Writer → Option (Writer × Result (Unit {0})))
    → Option (Writers × Handled)
write_to writers id none run = some (writers, invalid_data)
write_to writers id (some w) run = stored writers id (run w)

abbrev pub with_writer :
    Writers → ℕ → (Writer → Option (Writer × Result (Unit {0}))) → Option (Writers × Handled)
with_writer writers id run = write_to writers id (Map.get id writers) run

-- `Entry::Occupied` is invalid; a vacant entry gets the writer that is built.
abbrev pub create_at : Writers → ℕ → Option Writer → Result (Unit {0}) → Option (Writers × Handled)
create_at writers id (some w) built = some (writers, invalid_data)
create_at writers id none (ok _) = some (Map.insert id new_writer writers, done)
create_at writers id none (err code) = some (writers, input_error code)

abbrev pub destroy_at : Writers → ℕ → Option Writer → Option (Writers × Handled)
destroy_at writers id none = some (writers, invalid_data)
destroy_at writers id (some w) = some (Map.remove id writers, done)

-- `none` where the outcomes run out.
unfoldable pub handle : Glue → Answers → Writers → Update → Option (Writers × Handled)
handle g answers writers (Update.create_device id description) =
    create_at writers id (Map.get id writers) answers.built
handle g answers writers (Update.destroy_device id) = destroy_at writers id (Map.get id writers)
handle g answers writers (Update.event id e) =
    with_writer writers id (λ w. write g answers.outcomes w e)
handle g answers writers (Update.events id es) =
    with_writer writers id (λ w. write_frame g answers.outcomes w es)
handle g answers writers (Update.set_key_state id keys) =
    with_writer writers id (λ w. set_key_state g answers.outcomes w keys)
handle g answers writers Update.ping =
    if answers.ponged then some (writers, done) else some (writers, network_error)

abbrev pub continue_with :
    Option (Writers × Handled) → (Writers → Option (Writers × Handled)) → Option (Writers × Handled)
continue_with none next = none
continue_with (some (writers, done)) next = next writers
continue_with (some (writers, invalid_data)) next = some (writers, invalid_data)
continue_with (some (writers, network_error)) next = some (writers, network_error)
continue_with (some (writers, input_error code)) next = some (writers, input_error code)

-- The loop: updates in turn, each with what the outside answers to it, until one fails.
unfoldable pub serve : Glue → List (Answers × Update) → Writers → Option (Writers × Handled)
serve g [] writers = some (writers, done)
serve g ((answers, u) ∷ steps) writers =
    continue_with (handle g answers writers u) (λ writers'. serve g steps writers')
