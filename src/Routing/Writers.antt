-- ===== src/Routing/Writers.antt =====
-- The outputs that the actions of rkvm-server/src/routing.rs describe are the keys that the
-- receiving writers of rkvm-input/src/writer.rs record.
use rkvm.Prelude.{ℕ, ◌≡◌, List, [], ◌∷◌, some, arith, ℕ_eq, ◌≤◌, length}
use rkvm.Collections.Set.{contains, contains-insert, contains-remove}
use rkvm.Input.Key.{Key, Key_eq}
use rkvm.Input.Event.{Event}
use rkvm.Input.Convert.{Glue}
use rkvm.Input.Writer.{
  Writer, Outcome, ok, raw_events, update_key_state, update_key_states, write_frame,
}
use rkvm.Input.Writer.Frames.{NoFailure, answers, write_frame_ok}
use rkvm.Routing.Router.{Route, events}
use rkvm.Routing.Flush.{tag}
use rkvm.Routing.Outputs.{Outputs, apply_event, apply_events, apply_action}

-- The writer of a route's device records the keys that the outputs show for it.
abbrev pub Tracks : Route → ℕ → Outputs → List Key → Type 0
Tracks route d out keys = (k : Key) → contains k keys ≡ out route d k

update-Tracks :
    (route d : ℕ) (out : Outputs) (keys : List Key) (event : Event)
    → Tracks route d out keys
    → Tracks route d (apply_event d out (route, event)) (update_key_state keys event)
unfolding apply_event update_key_state
update-Tracks route d out keys (Event.key e) h k =
    ground (arith, h k, contains-insert e.key k keys, contains-remove e.key k keys)
update-Tracks route d out keys (Event.rel e) h k = h k
update-Tracks route d out keys (Event.abs e) h k = h k
update-Tracks route d out keys (Event.sync e) h k = h k

updates-Tracks :
    (route d : ℕ) (out : Outputs) (keys : List Key) (es : List Event)
    → Tracks route d out keys
    → Tracks route d (apply_events d out (tag route es)) (update_key_states keys es)
unfolding apply_events update_key_states
updates-Tracks route d out keys [] h = h
updates-Tracks route d out keys (event ∷ es) h =
    updates-Tracks route d (apply_event d out (route, event)) (update_key_state keys event) es
      (update-Tracks route d out keys event h)

-- Where no write fails and there is an outcome for each event, a writer that records the keys which
-- are down on an output carries out the events for it, and records the keys that are down after
-- them.
pub write_frame-Tracks :
    (g : Glue) (outcomes : List Outcome) (w : Writer) (route d : ℕ) (out : Outputs)
    (es : List Event)
    → Tracks route d out w.pressed_keys
    → NoFailure outcomes
    → length (raw_events g es) ≤ answers outcomes
    → (w' : Writer) × (write_frame g outcomes w es ≡ some (w', ok tt))
      × Tracks route d (apply_action out (events route d es)) w'.pressed_keys
unfolding apply_action
write_frame-Tracks g outcomes w route d out es h fine enough =
    (_, write_frame_ok g outcomes w es fine enough, updates-Tracks route d out w.pressed_keys es h)
