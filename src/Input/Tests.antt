-- ===== src/Input/Tests.antt =====
-- Runs of rkvm-input at concrete inputs, and its theorems at them.
use rkvm.Prelude.{
  ℕ, ◌≡◌, refl, true, false, ◌&&◌, not, List, [], ◌∷◌, ◌++◌, some, arith, if◌then◌else◌,
}
use rkvm.Collections.Set
use rkvm.Collections.Set.{contains, difference, is_empty}
use rkvm.Input.Key.{Key, key, Key_eq, Key-discrete, is_modifier}
use rkvm.Input.Codes.{KeyCode}
use rkvm.Input.Key.ToRaw.{keyboard_constant}
use rkvm.Input.Key.Keys.{Keyboard}
use rkvm.Input.Event.{pos, Event, SyncEvent}
use rkvm.Input.Convert.{Glue, key_to_raw, sync_to_raw}
use rkvm.Input.Writer.{
  Writer, Result, ok, written, would_block, failed, raw_event, raw_events, update_key_state,
  update_key_states, write_from, write_frame, insert_by, sort_by_key, key_events, key_state_events,
  set_key_state,
}
use rkvm.Input.Writer.Frames.{answers, Written, write_frame-Written}
use rkvm.Input.Writer.KeyState.{
  IsRanked, release_rank, press_rank, set_key_state-contains, key_state_events-IsRanked,
}

key_codes : KeyCode → ℕ
key_codes KeyCode.key_leftctrl = 29
key_codes KeyCode.key_space = 57
key_codes KeyCode.key_a = 30
key_codes _ = 0

-- Some codes of the Linux headers.
unfoldable pub glue : Glue
unfolding key_codes
glue = record {
  key_code = key_codes;
  btn_code = λ c. 272;
  rel_code = λ c. 0;
  abs_code = λ c. 0;
  mt_tool_code = λ c. pos 0;
  syn_report = 0;
  syn_mt_report = 2;
  ev_syn = 0;
  ev_key = 1;
  ev_rel = 2;
  ev_abs = 3;
  abs_mt_tool_type = 55;
  have_abs_profile = true;
}

program : Unit {0}
unfolding Key-discrete keyboard_constant contains difference Set.insert Set.remove is_modifier
    key_to_raw sync_to_raw glue raw_event raw_events update_key_state update_key_states write_from
    write_frame insert_by sort_by_key key_state_events set_key_state answers
program = tt

abbrev ctrl : Key
ctrl = key Keyboard.left_ctrl

abbrev letter : Key
letter = key Keyboard.a

abbrev space : Key
space = key Keyboard.space

abbrev idle : Writer
idle = record { sent = []; pressed_keys = letter ∷ [] }

-- The letter is released first, and Ctrl pressed before the space.
set_key_state_test :
    set_key_state glue
      (written ∷ would_block ∷ written ∷ written ∷ written ∷ [])
      idle
      (space ∷ ctrl ∷ [])
    ≡ some (
      record {
        sent = (1, 30, pos 0) ∷ (1, 29, pos 1) ∷ (1, 57, pos 1) ∷ (0, 0, pos 0) ∷ [];
        pressed_keys = space ∷ ctrl ∷ [];
      },
      ok tt,
    )
unfolding program
set_key_state_test = refl

write_frame-Written_example :
    (r : Writer × Result (Unit {0})) × (write_frame glue
        (written ∷ failed 19 ∷ [])
        idle
        (Event.key (record { key = ctrl; down = true }) ∷ Event.sync SyncEvent.all ∷ [])
      ≡ some r)
    × Written glue idle
        (Event.key (record { key = ctrl; down = true }) ∷ Event.sync SyncEvent.all ∷ [])
        r
unfolding program
write_frame-Written_example =
    write_frame-Written glue (written ∷ failed 19 ∷ []) idle
      (Event.key (record { key = ctrl; down = true }) ∷ Event.sync SyncEvent.all ∷ []) (omega arith)

set_key_state-contains_example :
    (w : Writer) × (set_key_state glue
        (written ∷ would_block ∷ written ∷ written ∷ written ∷ [])
        idle
        (space ∷ ctrl ∷ [])
      ≡ some (w, ok tt))
    × ((k : Key) → contains k w.pressed_keys ≡ contains k (space ∷ ctrl ∷ []))
unfolding program
set_key_state-contains_example =
    set_key_state-contains glue (written ∷ would_block ∷ written ∷ written ∷ written ∷ []) idle
      (space ∷ ctrl ∷ []) tt (omega arith)

key_state_events-IsRanked_example :
    (released pressed : List Key) × (key_state_events glue (letter ∷ []) (space ∷ ctrl ∷ []) ≡ (
      let events = key_events false released ++ key_events true pressed in
      if is_empty events then [] else events ++ Event.sync SyncEvent.all ∷ []))
    × IsRanked (release_rank glue) released
    × IsRanked (press_rank glue) pressed
    × ((k : Key)
        → contains k released ≡ not (contains k (space ∷ ctrl ∷ [])) && contains k (letter ∷ []))
    × ((k : Key)
        → contains k pressed ≡ not (contains k (letter ∷ [])) && contains k (space ∷ ctrl ∷ []))
key_state_events-IsRanked_example = key_state_events-IsRanked glue (letter ∷ []) (space ∷ ctrl ∷ [])
