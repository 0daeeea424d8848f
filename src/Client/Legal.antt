-- ===== src/Client/Legal.antt =====
-- rkvm-client/src/client.rs: theorems on legal and illegal updates.
use rkvm.Prelude.{
  ℕ, ◌≡◌, refl, Bool, true, false, if◌then◌else◌, List, [], ◌∷◌, Option, none, some, arith, ℕ_eq,
  is_some, fun_ext, subst, sym, ap, ◌∙◌, map, ◌≢◌,
}
use rkvm.Collections.Map
use rkvm.Input.Convert.{Glue}
use rkvm.Input.Writer.{Writer, Result, ok, err, write, write_frame, set_key_state}
use rkvm.Net.Message.{Description, Update}
use rkvm.Net.Protocol.{Table, is_legal, after, are_legal, no_devices}
use rkvm.Client.Updates.{
  Writers, Handled, done, invalid_data, network_error, input_error, Answers, new_writer, stored,
  write_to, with_writer, create_at, destroy_at, handle, continue_with, serve,
}

abbrev pub devices : Writers → Table
devices writers id = is_some (Map.get id writers)

-- What an update may do to the writers: they stay distinct, and the update is invalid exactly if it
-- is not legal; once it is done, the devices are those after it. Only a legal update waits for
-- outcomes.
abbrev pub Follows : Table → Update → Option (Writers × Handled) → Type 0
Follows T u none = is_legal T u ≡ true
Follows T u (some (writers, done)) =
    (is_legal T u ≡ true) × (devices writers ≡ after T u) × Map.Distinct writers
Follows T u (some (writers, invalid_data)) = is_legal T u ≡ false
Follows T u (some (writers, network_error)) = is_legal T u ≡ true
Follows T u (some (writers, input_error code)) = is_legal T u ≡ true

with_writer-Follows :
    (writers : Writers) (id : ℕ) (u : Update) (run : Writer → Option (Writer × Result (Unit {0})))
    → Map.Distinct writers
    → is_legal (devices writers) u ≡ devices writers id
    → after (devices writers) u ≡ devices writers
    → Follows (devices writers) u (with_writer writers id run)
with_writer-Follows writers id u run d legal same = found (Map.get id writers) refl
  where
    stored-Follows :
        (result : Option (Writer × Result (Unit {0})))
        → is_legal (devices writers) u ≡ true
        → devices writers id ≡ true
        → Follows (devices writers) u (stored writers id result)
    stored-Follows none fine known = fine
    stored-Follows (some (w, ok _)) fine known = (
      fine,
      fun_ext (λ j. ground (arith, Map.get-insert id j w writers)) ∙ sym same,
      Map.insert-Distinct id w writers d,
    )
    stored-Follows (some (w, err code)) fine known = fine

    found :
        (there : Option Writer)
        → Map.get id writers ≡ there
        → Follows (devices writers) u (write_to writers id there run)
    found none e = legal ∙ ap is_some e
    found (some w) e = stored-Follows (run w) (legal ∙ ap is_some e) (ap is_some e)

create_at-Follows :
    (writers : Writers) (id : ℕ) (description : Description) (there : Option Writer)
    (built : Result (Unit {0}))
    → Map.Distinct writers
    → Map.get id writers ≡ there
    → Follows
        (devices writers)
        (Update.create_device id description)
        (create_at writers id there built)
unfolding is_legal after
create_at-Follows writers id description (some w) built d e = ground arith
create_at-Follows writers id description none (ok _) d e = (
  ground arith,
  fun_ext (λ j. ground (arith, Map.get-insert id j new_writer writers)),
  Map.insert-Distinct id _ writers d,
)
create_at-Follows writers id description none (err code) d e = ground arith

destroy_at-Follows :
    (writers : Writers) (id : ℕ) (there : Option Writer)
    → Map.Distinct writers
    → Map.get id writers ≡ there
    → Follows (devices writers) (Update.destroy_device id) (destroy_at writers id there)
unfolding is_legal after
destroy_at-Follows writers id none d e = ap is_some e
destroy_at-Follows writers id (some w) d e = (
  ap is_some e,
  fun_ext (λ j. ground (arith, Map.get-remove id j writers d)),
  Map.remove-Distinct id writers d,
)

pong-Follows :
    (writers : Writers) (ponged : Bool)
    → Map.Distinct writers
    → Follows
        (devices writers)
        Update.ping
        (if ponged then some (writers, done) else some (writers, network_error))
unfolding is_legal after
pong-Follows writers true d = (refl, refl, d)
pong-Follows writers false d = refl

-- Whatever the outside answers, the client rejects an update as invalid exactly if it creates a
-- device that the client has, or names one that it has not, and once it has carried an update out
-- its devices are those after it, where no device stands twice in its table.
pub handle-Follows :
    (g : Glue) (answers : Answers) (writers : Writers) (u : Update)
    → Map.Distinct writers
    → Follows (devices writers) u (handle g answers writers u)
unfolding handle is_legal after
handle-Follows g answers writers (Update.create_device id description) d =
    create_at-Follows writers id description (Map.get id writers) answers.built d refl
handle-Follows g answers writers (Update.destroy_device id) d =
    destroy_at-Follows writers id (Map.get id writers) d refl
handle-Follows g answers writers (Update.event id e) d =
    with_writer-Follows writers id (Update.event id e) (λ w. write g answers.outcomes w e) d refl
      refl
handle-Follows g answers writers (Update.events id es) d =
    with_writer-Follows writers id (Update.events id es) (λ w. write_frame g answers.outcomes w es)
      d refl refl
handle-Follows g answers writers (Update.set_key_state id keys) d =
    with_writer-Follows writers id (Update.set_key_state id keys)
      (λ w. set_key_state g answers.outcomes w keys) d refl refl
handle-Follows g answers writers Update.ping d = pong-Follows writers answers.ponged d

abbrev NotInvalid : Option (Writers × Handled) → Type 0
NotInvalid none = Unit
NotInvalid (some (writers, done)) = Unit
NotInvalid (some (writers, invalid_data)) = ⊥
NotInvalid (some (writers, network_error)) = Unit
NotInvalid (some (writers, input_error code)) = Unit

continue_with-NotInvalid :
    (T : Table) (u : Update) (result : Option (Writers × Handled))
    (next : Writers → Option (Writers × Handled))
    → is_legal T u ≡ true
    → Follows T u result
    → ((writers : Writers)
        → devices writers ≡ after T u
        → Map.Distinct writers
        → NotInvalid (next writers))
    → NotInvalid (continue_with result next)
continue_with-NotInvalid T u none next legal f go = tt
continue_with-NotInvalid T u (some (writers, done)) next legal (fine, same, d) go =
    go writers same d
continue_with-NotInvalid T u (some (writers, invalid_data)) next legal f go = absurd (ground arith)
continue_with-NotInvalid T u (some (writers, network_error)) next legal f go = tt
continue_with-NotInvalid T u (some (writers, input_error code)) next legal f go = tt

serve-NotInvalid :
    (g : Glue) (steps : List (Answers × Update)) (writers : Writers)
    → Map.Distinct writers
    → are_legal (devices writers) (map (λ e. e.1) steps) ≡ true
    → NotInvalid (serve g steps writers)
unfolding serve are_legal
serve-NotInvalid g [] writers d legal = tt
serve-NotInvalid g ((answers, u) ∷ steps) writers d legal =
    continue_with-NotInvalid (devices writers) u (handle g answers writers u)
      (λ writers'. serve g steps writers') (ground arith) (handle-Follows g answers writers u d)
      (λ writers' same d'.
        serve-NotInvalid g steps writers' d'
          (ap (λ T. are_legal T (map (λ e. e.1) steps)) same ∙ ground arith))

not_invalid :
    (result : Option (Writers × Handled)) (writers : Writers)
    → NotInvalid result
    → result ≢ some (writers, invalid_data)
not_invalid result writers h e = subst NotInvalid e h

-- A client that starts without devices and is sent a legal sequence of updates never ends with
-- `InvalidData`, whatever the outside answers.
pub serve-are_legal :
    (g : Glue) (steps : List (Answers × Update)) (writers : Writers)
    → are_legal no_devices (map (λ e. e.1) steps) ≡ true
    → serve g steps [] ≢ some (writers, invalid_data)
unfolding Map.get
serve-are_legal g steps writers legal = not_invalid _ writers (serve-NotInvalid g steps [] tt legal)
