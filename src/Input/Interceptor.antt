-- ===== src/Input/Interceptor.antt =====
-- rkvm-input/src/interceptor.rs: `read` and `read_frame`, which turn the events of a grabbed device into
-- frames. What the device has to read, whether libevdev recovers after a loss, and the outcomes of the
-- writes to the local device are arguments.
pub mod Frames
pub mod Tables
pub mod Whole
pub mod Readback
pub mod Tests
use rkvm.Prelude.{
  ℕ, zero, suc, ◌+◌, length, Bool, true, false, ◌&&◌, ◌||◌, List, [], ◌∷◌, ◌++◌, Option, none, some,
  ◌==◌, ◌=?◌, ℕ_eq, if◌then◌else◌,
}
use rkvm.Input.Key.{Key, KeyEvent}
use rkvm.Input.Event.{ℤ, ℤ_eq, pos, Event, RelEvent, AbsEvent, SyncEvent}
use rkvm.Input.Convert.{Glue}
use rkvm.Input.Decode.{rel_from_raw, abs_from_raw, tool_from_raw, key_from_raw}
use rkvm.Input.Writer.{Raw, Outcome, written, would_block, failed, Result, ok, err, write_from}

-- An event of the device, or that libevdev reports the loss of some, or, as `read_failed`, an error of
-- `read_raw`.
pub data RawRead : Type 0 where
  event : Raw → RawRead
  input_lost : RawRead
  read_failed : RawRead

-- The constants of the headers that `read` compares with besides those of `Glue`.
pub record Codes : Type 0 where
  pub glue : Glue
  pub syn_dropped : ℕ

-- What becomes of an event: it is put in the queue, passed on to the local device, or skipped, or it
-- tells that events were lost.
pub data Fate : Type 0 where
  queued : Event → Fate
  passed : Fate
  skipped : Fate
  dropped : Fate

abbrev queued_or_passed {ℓ} : {A : Type ℓ} → (A → Event) → Option A → Fate
queued_or_passed f none = passed
queued_or_passed f (some a) = queued (f a)

module _ (c : Codes) where
  abbrev key_fate : ℕ → ℤ → Fate
  key_fate code value =
      if (value =? pos 0) || (value =? pos 1)
      then queued_or_passed (λ k. Event.key (record { key = k; down = value =? pos 1 }))
          (key_from_raw c.glue code)
      else if value =? pos 2
      then skipped
      else passed

  abbrev abs_fate : ℕ → ℤ → Fate
  abs_fate code value =
      if code == c.glue.abs_mt_tool_type
      then queued_or_passed (λ tool. Event.abs (AbsEvent.mt_tool_type tool))
          (tool_from_raw c.glue value)
      else queued_or_passed (λ axis. Event.abs (AbsEvent.axis axis value))
          (abs_from_raw c.glue code)

  abbrev sync_fate : ℕ → Fate
  sync_fate code =
      if code == c.glue.syn_report
      then queued (Event.sync SyncEvent.all)
      else if code == c.syn_dropped
      then dropped
      else if code == c.glue.syn_mt_report
      then queued (Event.sync SyncEvent.mt)
      else skipped

  -- The `match` of `read` on the event.
  unfoldable pub fate : Raw → Fate
  fate (type, code, value) =
      if type == c.glue.ev_rel
      then queued_or_passed (λ axis. Event.rel (record { axis = axis; value = value }))
          (rel_from_raw c.glue code)
      else if type == c.glue.ev_abs
      then abs_fate code value
      else if type == c.glue.ev_key
      then key_fate code value
      else if type == c.glue.ev_syn
      then sync_fate code
      else passed

-- `sent` is what the local device has received. The events are in the order in which they came.
pub record Interceptor : Type 0 where
  pub events : List Event
  pub writing : Option Raw
  pub sent : List Raw

abbrev pub is_all : Event → Bool
is_all (Event.sync SyncEvent.all) = true
is_all _ = false

-- `matches!(self.events.back(), Some(Event::Sync(SyncEvent::All)))`
unfoldable pub is_complete : List Event → Bool
is_complete [] = false
is_complete (e ∷ []) = is_all e
is_complete (e ∷ f ∷ es) = is_complete (f ∷ es)

pub data Read : Type 0 where
  event : Event → Read
  input_lost : List Key → Read

-- How a call ends: it returns, it waits for the device or for the local device (where it may be
-- cancelled), or it fails. What is left of the input and of the outcomes comes with it.
pub data Progress {ℓ} (A : Type ℓ) : Type ℓ where
  done : A → Interceptor → List RawRead → List Outcome → Progress A
  waits : Interceptor → List RawRead → Progress A
  fails : Interceptor → Progress A

-- `write_raw`, which is `write_from` of one event: what is left of the outcomes with its result.
unfoldable pub write_raw : List Outcome → Option (Bool × List Outcome)
write_raw [] = none
write_raw (written ∷ outcomes) = some (true, outcomes)
write_raw (would_block ∷ outcomes) = write_raw outcomes
write_raw (failed code ∷ outcomes) = some (false, outcomes)

-- The event is kept in `writing` for as long as its write has not succeeded. The call goes on after
-- that.
abbrev pub pass_on :
    Interceptor
    → Raw
    → List RawRead
    → Option (Bool × List Outcome)
    → (Interceptor → List Outcome → Progress Read)
    → Progress Read
pass_on s raw input none go = waits (record s { writing = some raw }) input
pass_on s raw input (some (false, outcomes)) go = fails (record s { writing = some raw })
pass_on s raw input (some (true, outcomes)) go =
    go (record s { writing = none; sent = s.sent ++ raw ∷ [] }) outcomes

-- `recover_input_loss`, where `pressed` are the keys that are down then, or `none` if the draining of
-- the events fails.
abbrev pub recover : Option (List Key) → Interceptor → List RawRead → List Outcome → Progress Read
recover (some pressed) s input outcomes =
    done (input_lost pressed) (record s { events = []; writing = none }) input outcomes
recover none s input outcomes = fails (record s { events = []; writing = none })

-- `pop_front`, which is called on a complete queue only, and so on one that is not empty.
abbrev pub pop : Interceptor → List RawRead → List Outcome → Progress Read
pop s input outcomes = elim s.events [
  | [] ↦ waits s input
  | e ∷ es ↦ done (event e) (record s { events = es }) input outcomes
]

-- What an event leads to in the loop of `read`, which goes on with the rest of the input.
abbrev pub proceed :
    Option (List Key)
    → Interceptor
    → Raw
    → Fate
    → List RawRead
    → List Outcome
    → (Interceptor → List Outcome → Progress Read)
    → Progress Read
proceed pressed s raw (queued e) input outcomes go =
    go (record s { events = s.events ++ e ∷ [] }) outcomes
proceed pressed s raw skipped input outcomes go = go s outcomes
proceed pressed s raw dropped input outcomes go = recover pressed s input outcomes
proceed pressed s raw passed input outcomes go = pass_on s raw input (write_raw outcomes) go

-- The loop of `read` and the removal of the first event.
unfoldable pub read_loop :
    Codes → Option (List Key) → List RawRead → Interceptor → List Outcome → Progress Read
read_loop c pressed [] s outcomes = elim (is_complete s.events) [
  | true ↦ pop s [] outcomes
  | false ↦ waits s []
]
read_loop c pressed (event raw ∷ input) s outcomes = elim (is_complete s.events) [
  | true ↦ pop s (event raw ∷ input) outcomes
  | false ↦
      proceed pressed s raw (fate c raw) input outcomes
        (λ s' outcomes'. read_loop c pressed input s' outcomes')
]
read_loop c pressed (input_lost ∷ input) s outcomes = elim (is_complete s.events) [
  | true ↦ pop s (input_lost ∷ input) outcomes
  | false ↦ recover pressed s input outcomes
]
read_loop c pressed (read_failed ∷ input) s outcomes = elim (is_complete s.events) [
  | true ↦ pop s (read_failed ∷ input) outcomes
  | false ↦ fails s
]

abbrev pub resumed :
    Codes
    → Option (List Key)
    → List RawRead
    → Interceptor
    → List Outcome
    → Option Raw
    → Progress Read
resumed c pressed input s outcomes none = read_loop c pressed input s outcomes
resumed c pressed input s outcomes (some raw) =
    pass_on s raw input (write_raw outcomes)
      (λ s' outcomes'. read_loop c pressed input s' outcomes')

-- `read`: a write that was cut short is repeated first.
unfoldable pub read :
    Codes → Option (List Key) → List RawRead → Interceptor → List Outcome → Progress Read
read c pressed input s outcomes = resumed c pressed input s outcomes s.writing

pub data Frame : Type 0 where
  events : List Event → Frame
  input_lost : List Key → Frame

-- One round of the loop of `read_frame`, which goes on while the frame is not at its end.
abbrev pub framed :
    List Event
    → Progress Read
    → (List Event → List RawRead → Interceptor → List Outcome → Option (Progress Frame))
    → Option (Progress Frame)
framed es (done (event e) s input outcomes) go =
    if is_all e
    then some (done (events (es ++ e ∷ [])) s input outcomes)
    else go (es ++ e ∷ []) input s outcomes
framed es (done (input_lost keys) s input outcomes) go =
    some (done (input_lost keys) s input outcomes)
framed es (waits s input) go = some (waits s input)
framed es (fails s) go = some (fails s)

-- The loop of `read_frame`, with the events that it has read so far. A round takes one unit of fuel.
unfoldable pub frame_loop :
    ℕ
    → Codes
    → Option (List Key)
    → List Event
    → List RawRead
    → Interceptor
    → List Outcome
    → Option (Progress Frame)
frame_loop zero c pressed es input s outcomes = none
frame_loop (suc fuel) c pressed es input s outcomes =
    framed es (read c pressed input s outcomes)
      (λ es' input' s' outcomes'. frame_loop fuel c pressed es' input' s' outcomes')

-- As many rounds as there can be events.
unfoldable pub read_frame :
    Codes → Option (List Key) → List RawRead → Interceptor → List Outcome → Option (Progress Frame)
read_frame c pressed input s outcomes =
    frame_loop (suc (length s.events + length input)) c pressed [] input s outcomes
