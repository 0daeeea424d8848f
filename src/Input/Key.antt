-- ===== src/Input/Key.antt =====
-- rkvm-input/src/key.rs: `Key`, `KeyEvent` and `is_modifier`.
pub mod Keys
pub mod Buttons
pub mod ToRaw
pub mod FromRaw
use rkvm.Prelude.{Bool, true, false, Eq}
use Keys.{Keyboard, Keyboard-discrete}
use Buttons.{Button, Button-discrete}

pub data Key : Type 0 where
  key : Keyboard → Key
  button : Button → Key

pub record KeyEvent : Type 0 where
  pub key : Key
  pub down : Bool

is_modifier_keyboard : Keyboard → Bool
is_modifier_keyboard Keyboard.left_alt = true
is_modifier_keyboard Keyboard.left_ctrl = true
is_modifier_keyboard Keyboard.left_meta = true
is_modifier_keyboard Keyboard.left_shift = true
is_modifier_keyboard Keyboard.right_alt = true
is_modifier_keyboard Keyboard.right_ctrl = true
is_modifier_keyboard Keyboard.right_meta = true
is_modifier_keyboard Keyboard.right_shift = true
is_modifier_keyboard _ = false

unfoldable pub is_modifier : Key → Bool
unfolding is_modifier_keyboard
is_modifier (key kb) = is_modifier_keyboard kb
is_modifier (button other) = false

-- `matches!(key, Key::Button(_))`
unfoldable pub is_button : Key → Bool
is_button (key kb) = false
is_button (button other) = true

unfoldable pub Key-discrete : Discrete Key
unfolding Keyboard-discrete Button-discrete
Key-discrete = hlevel (Keyboard-discrete, Button-discrete)

instance abbrev pub Key_eq : Eq Key
Key_eq = record { dec = Key-discrete }
