-- ===== src/Input/Writer.antt =====
-- rkvm-input/src/writer.rs: a uinput device and the keys that are down on it. What the kernel
-- answers to each write is an argument: a list with one outcome for each attempt. A call is `none`
-- while the outcomes do not suffice, as the source waits for the device to become writable.
pub mod Frames
pub mod KeyState
use rkvm.Prelude.{
  ℕ, Bool, true, false, ◌&&◌, ◌||◌, not, List, [], ◌∷◌, ◌++◌, map, Option, none, some, ltb, ◌==◌,
  if◌then◌else◌,
}
use rkvm.Collections.Set
use rkvm.Collections.Set.{contains, difference, is_empty}
use rkvm.Input.Key.{Key, KeyEvent, Key_eq, is_modifier}
use rkvm.Input.Event.{ℤ, pos, Event, RelEvent, AbsEvent, SyncEvent}
use rkvm.Input.Convert.{Glue, key_to_raw, rel_to_raw, abs_to_raw, tool_to_raw, sync_to_raw}

-- Type, code and value.
abbrev pub Raw : Type 0
Raw = ℕ × ℕ × ℤ

-- One call of `libevdev_uinput_write_event`: written, `EAGAIN`, or another error number.
pub data Outcome : Type 0 where
  written : Outcome
  would_block : Outcome
  failed : ℕ → Outcome

pub data Result {ℓ} (A : Type ℓ) : Type ℓ where
  ok : A → Result A
  err : ℕ → Result A

-- `sent` is what the device has received.
pub record Writer : Type 0 where
  pub sent : List Raw
  pub pressed_keys : List Key

abbrev with_code : ℕ → Option ℕ → Option ℤ → Option Raw
with_code type none value = none
with_code type (some code) none = none
with_code type (some code) (some value) = some (type, code, value)

unfoldable pub raw_event : Glue → Event → Option Raw
raw_event g (Event.rel e) = with_code g.ev_rel (rel_to_raw g e.axis) (some e.value)
raw_event g (Event.abs (AbsEvent.axis axis value)) =
    with_code g.ev_abs (abs_to_raw g axis) (some value)
raw_event g (Event.abs (AbsEvent.mt_tool_type tool)) =
    with_code g.ev_abs (some g.abs_mt_tool_type) (tool_to_raw g tool)
raw_event g (Event.key e) =
    with_code g.ev_key (key_to_raw g e.key) (some (pos (if e.down then 1 else 0)))
raw_event g (Event.sync e) = with_code g.ev_syn (sync_to_raw g e) (some (pos 0))

-- `events.iter().filter_map(raw_event)`
unfoldable pub raw_events : Glue → List Event → List Raw
raw_events g [] = []
raw_events g (event ∷ events) = elim (raw_event g event) [
  | none ↦ raw_events g events
  | some raw ↦ raw ∷ raw_events g events
]

unfoldable pub update_key_state : List Key → Event → List Key
update_key_state keys (Event.key e) =
    if e.down then Set.insert e.key keys else Set.remove e.key keys
update_key_state keys event = keys

unfoldable pub update_key_states : List Key → List Event → List Key
update_key_states keys [] = keys
update_key_states keys (event ∷ events) = update_key_states (update_key_state keys event) events

-- The loop of `write_frame` over the events from the cursor on: what has been sent, and whether
-- an error ended it. A write that would block is tried again.
unfoldable pub write_from :
    List Outcome → List Raw → List Raw → Option (List Raw × Result (Unit {0}))
write_from outcomes sent [] = some (sent, ok tt)
write_from [] sent (raw ∷ rest) = none
write_from (written ∷ outcomes) sent (raw ∷ rest) = write_from outcomes (sent ++ raw ∷ []) rest
write_from (would_block ∷ outcomes) sent (raw ∷ rest) = write_from outcomes sent (raw ∷ rest)
write_from (failed code ∷ outcomes) sent (raw ∷ rest) = some (sent, err code)

abbrev finish : Writer → List Event → List Raw × Result (Unit {0}) → Writer × Result (Unit {0})
finish w events (sent, ok _) =
    (record { sent = sent; pressed_keys = update_key_states w.pressed_keys events }, ok tt)
finish w events (sent, err code) = (record w { sent = sent }, err code)

unfoldable pub write_frame :
    Glue → List Outcome → Writer → List Event → Option (Writer × Result (Unit {0}))
write_frame g outcomes w events = elim (write_from outcomes w.sent (raw_events g events)) [
  | none ↦ none
  | some result ↦ some (finish w events result)
]

-- An event with no raw form is skipped, and its key is not recorded.
unfoldable pub write : Glue → List Outcome → Writer → Event → Option (Writer × Result (Unit {0}))
write g outcomes w event = elim (raw_event g event) [
  | none ↦ some (w, ok tt)
  | some raw ↦ elim (write_from outcomes w.sent (raw ∷ [])) [
    | none ↦ none
    | some result ↦ some (finish w (event ∷ []) result)
  ]
]

-- The order of `(bool, Option<u16>)`.
abbrev le_code : Option ℕ → Option ℕ → Bool
le_code none y = true
le_code (some m) none = false
le_code (some m) (some n) = not (ltb n m)

abbrev pub le_rank : Bool × Option ℕ → Bool × Option ℕ → Bool
le_rank (false, x) (true, y) = true
le_rank (true, x) (false, y) = false
le_rank (false, x) (false, y) = le_code x y
le_rank (true, x) (true, y) = le_code x y

-- `sort_by_key`, a stable sort.
unfoldable pub insert_by : (Key → Bool × Option ℕ) → Key → List Key → List Key
insert_by rank k [] = k ∷ []
insert_by rank k (j ∷ ks) =
    if le_rank (rank k) (rank j) then k ∷ j ∷ ks else j ∷ insert_by rank k ks

unfoldable pub sort_by_key : (Key → Bool × Option ℕ) → List Key → List Key
unfolding insert_by
sort_by_key rank [] = []
sort_by_key rank (k ∷ ks) = insert_by rank k (sort_by_key rank ks)

abbrev pub key_events : Bool → List Key → List Event
key_events down = map (λ k. Event.key (record { key = k; down = down }))

unfoldable pub key_state_events : Glue → List Key → List Key → List Event
key_state_events g current desired =
    let released =
      sort_by_key (λ k. (is_modifier k, key_to_raw g k)) (difference current desired) in
    let pressed =
      sort_by_key (λ k. (not (is_modifier k), key_to_raw g k)) (difference desired current) in
    let events = key_events false released ++ key_events true pressed in
    if is_empty events then events else events ++ Event.sync SyncEvent.all ∷ []

unfoldable pub set_key_state :
    Glue → List Outcome → Writer → List Key → Option (Writer × Result (Unit {0}))
set_key_state g outcomes w desired =
    let events = key_state_events g w.pressed_keys desired in
    if is_empty events then some (w, ok tt) else write_frame g outcomes w events
