-- ===== src/Input/Interceptor/Tests.antt =====
-- rkvm-input/src/interceptor.rs: frames that are read, and headers whose constants differ.
use rkvm.Prelude.{
  ℕ, suc, ◌+◌, ◌<◌, ◌≡◌, refl, true, List, [], ◌∷◌, none, some, arith, Eq, ◌=?◌, if◌then◌else◌, ◌≢◌,
  length, ap, ◌∙◌, sym,
}
use rkvm.Collections.Set.{contains}
use rkvm.Input.Key.{key}
use rkvm.Input.Key.Keys.{Keyboard}
use rkvm.Input.Event.{ℤ-discrete, pos, negsuc, Event, SyncEvent}
use rkvm.Input.Codes.{KeyCode, KeyCode-discrete}
use rkvm.Input.Key.ToRaw.{keyboard_constant}
use rkvm.Input.Key.FromRaw.{keyboard_arms, button_arms}
use rkvm.Input.Convert.{Glue, key_to_raw}
use rkvm.Input.Decode.{
  first_arm, rel_arms, abs_arms, tool_arms, abs_arms_of, keyboard_from_raw, button_from_raw,
  key_from_raw,
}
use rkvm.Input.Writer.{written, would_block, raw_event}
use rkvm.Input.Interceptor.{
  RawRead, Codes, queued, fate, Interceptor, is_complete, done, write_raw, read_loop, read, Frame,
  frame_loop, read_frame,
}
use rkvm.Input.Interceptor.Whole.{FrameKept, read_frame-FrameKept}
use rkvm.Input.Interceptor.Tables.{
  KeyCode_eq, BtnCode_eq, RelCode_eq, AbsCode_eq, MtToolCode_eq, constants, Apart,
}
use rkvm.Input.Interceptor.Readback.{Headers, fate-raw_event, keyboard_from_raw-display_toggle}

-- The place of an element in a list.
module _ {A : Type 0} ⦃e : Eq A⦄ where
  unfoldable index_of : List A → A → ℕ
  index_of [] a = 0
  index_of (x ∷ xs) a = if x =? a then 0 else suc (index_of xs a)

  index_of_lt : (xs : List A) (a : A) → contains a xs ≡ true → index_of xs a < length xs
  unfolding index_of contains
  index_of_lt [] a h = absurd cc
  index_of_lt (x ∷ xs) a h = elim (e.dec x a) [
    | yes same ↦ ground arith
    | no other ↦ ground (arith, index_of_lt xs a (ground arith))
  ]

  index_of-Apart : (xs : List A) → Apart (index_of xs) xs
  unfolding index_of contains
  index_of-Apart [] a b h g same = absurd cc
  index_of-Apart (x ∷ xs) a b h g same = elim (e.dec x a) [
    | yes is_a ↦ elim (e.dec x b) [ yes is_b ↦ sym is_a ∙ is_b | no not_b ↦ absurd (ground arith) ]
    | no not_a ↦ elim (e.dec x b) [
      | yes is_b ↦ absurd (ground arith)
      | no not_b ↦ index_of-Apart xs a b (ground arith) (ground arith) (ground arith)
    ]
  ]

abbrev numbered : Glue
numbered = record {
  key_code = index_of (constants keyboard_arms);
  btn_code = λ c. 500 + index_of (constants button_arms) c;
  rel_code = index_of (constants rel_arms);
  abs_code = index_of (constants abs_arms);
  mt_tool_code = λ c. pos (index_of (constants tool_arms) c);
  syn_report = 0;
  syn_mt_report = 2;
  ev_syn = 0;
  ev_key = 1;
  ev_rel = 2;
  ev_abs = 3;
  abs_mt_tool_type = 55;
  have_abs_profile = true;
}

abbrev codes : Codes
codes = record { glue = numbered; syn_dropped = 3 }

pos-injective : (m n : ℕ) → pos m ≡ pos n → m ≡ n
pos-injective m n e = ap (λ z. elim z [ pos k ↦ k | negsuc k ↦ k ]) e

codes-Headers : Headers codes
unfolding abs_arms_of
codes-Headers = record {
  types = (ground arith, (ground arith, (ground arith, tt)));
  more_types = (ground arith, (ground arith, tt));
  last_types = ground arith;
  syncs = (ground arith, ground arith);
  rels = index_of-Apart (constants rel_arms);
  axes = index_of-Apart (constants abs_arms);
  tools = λ a b h g same. index_of-Apart (constants tool_arms) a b h g (pos-injective _ _ same);
  no_tool = λ a h same. absurd (omega (arith, index_of_lt (constants abs_arms) a h, same));
  keys = index_of-Apart (constants keyboard_arms);
  buttons_apart =
      λ a b h g same. index_of-Apart (constants button_arms) a b h g (omega (arith, same));
  no_button =
      λ k b h g same. absurd (omega (arith, index_of_lt (constants keyboard_arms) k h, same));
}

abbrev left_code : ℕ
left_code = index_of (constants keyboard_arms) KeyCode.key_left

abbrev left_down : Event
left_down = Event.key (record { key = key Keyboard.left; down = true })

fate-raw_event_example : fate codes (1, left_code, pos 1) ≡ queued left_down
unfolding raw_event key_to_raw keyboard_constant
fate-raw_event_example =
    fate-raw_event codes codes-Headers left_down (1, left_code, pos 1) (λ e. cc) refl

keyboard_from_raw-display_toggle_example :
    keyboard_from_raw numbered 431 ≢ some Keyboard.display_toggle
keyboard_from_raw-display_toggle_example = keyboard_from_raw-display_toggle numbered 431

abbrev fresh : Interceptor
fresh = record { events = []; writing = none; sent = [] }

-- A key is pressed and repeats, a scan code of type 4 is passed on, and the frame ends.
abbrev pressed_left : List RawRead
pressed_left =
    RawRead.event (4, 4, pos 9)
    ∷ RawRead.event (1, left_code, pos 1)
    ∷ RawRead.event (1, left_code, pos 2)
    ∷ RawRead.event (0, 0, pos 0)
    ∷ RawRead.event (4, 4, pos 8)
    ∷ []

read_pressed_left :
    read_frame codes none pressed_left fresh (would_block ∷ written ∷ [])
    ≡ some (
        done
          (Frame.events (left_down ∷ Event.sync SyncEvent.all ∷ []))
          (record fresh { sent = (4, 4, pos 9) ∷ [] })
          (RawRead.event (4, 4, pos 8) ∷ [])
          [])
unfolding read_frame frame_loop read read_loop write_raw fate is_complete key_from_raw
    keyboard_from_raw button_from_raw first_arm index_of KeyCode-discrete ℤ-discrete
read_pressed_left = refl

read_frame-FrameKept_example :
    FrameKept codes fresh pressed_left
      (read_frame codes none pressed_left fresh (would_block ∷ written ∷ []))
read_frame-FrameKept_example =
    read_frame-FrameKept codes none pressed_left fresh (would_block ∷ written ∷ []) tt
