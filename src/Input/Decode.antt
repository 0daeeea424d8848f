-- ===== src/Input/Decode.antt =====
-- The `from_raw` halves of rkvm-input/src/key.rs, rel.rs and abs.rs; the arms of key/keyboard.rs and
-- key/button.rs are in Key.FromRaw. A `match` is the list of its arms, in their order, each the
-- constant of its pattern with the variant that it returns: the first whose constant is the code
-- gives the result.
use rkvm.Prelude.{
  ℕ, Bool, true, false, List, [], ◌∷◌, Option, none, some, ◌=?◌, if◌then◌else◌, ℕ_eq,
}
use rkvm.Input.Codes.{RelCode, AbsCode, MtToolCode}
use rkvm.Input.Key.{Key, key, button}
use rkvm.Input.Key.Keys.{Keyboard}
use rkvm.Input.Key.Buttons.{Button}
use rkvm.Input.Key.FromRaw.{keyboard_arms, button_arms}
use rkvm.Input.Event.{ℤ, ℤ_eq, RelAxis, AbsAxis, ToolType}
use rkvm.Input.Convert.{Glue}

module _ {ℓ κ} {C : Type κ} {A : Type ℓ} where
  -- The variant of the first arm whose constant passes the test.
  unfoldable pub first_arm : (C → Bool) → List (C × A) → Option A
  first_arm p [] = none
  first_arm p ((c, a) ∷ rest) = if p c then some a else first_arm p rest

abbrev pub rel_arms : List (RelCode × RelAxis)
rel_arms =
    (RelCode.rel_x, RelAxis.x)
    ∷ (RelCode.rel_y, RelAxis.y)
    ∷ (RelCode.rel_z, RelAxis.z)
    ∷ (RelCode.rel_rx, RelAxis.rx)
    ∷ (RelCode.rel_ry, RelAxis.ry)
    ∷ (RelCode.rel_rz, RelAxis.rz)
    ∷ (RelCode.rel_hwheel, RelAxis.hwheel)
    ∷ (RelCode.rel_dial, RelAxis.dial)
    ∷ (RelCode.rel_wheel, RelAxis.wheel)
    ∷ (RelCode.rel_misc, RelAxis.misc)
    ∷ (RelCode.rel_wheel_hi_res, RelAxis.wheel_hi_res)
    ∷ (RelCode.rel_hwheel_hi_res, RelAxis.hwheel_hi_res)
    ∷ []

abbrev pub abs_arms : List (AbsCode × AbsAxis)
abs_arms =
    (AbsCode.abs_x, AbsAxis.x)
    ∷ (AbsCode.abs_y, AbsAxis.y)
    ∷ (AbsCode.abs_z, AbsAxis.z)
    ∷ (AbsCode.abs_rx, AbsAxis.rx)
    ∷ (AbsCode.abs_ry, AbsAxis.ry)
    ∷ (AbsCode.abs_rz, AbsAxis.rz)
    ∷ (AbsCode.abs_throttle, AbsAxis.throttle)
    ∷ (AbsCode.abs_rudder, AbsAxis.rudder)
    ∷ (AbsCode.abs_wheel, AbsAxis.wheel)
    ∷ (AbsCode.abs_gas, AbsAxis.gas)
    ∷ (AbsCode.abs_brake, AbsAxis.brake)
    ∷ (AbsCode.abs_hat0x, AbsAxis.hat0_x)
    ∷ (AbsCode.abs_hat0y, AbsAxis.hat0_y)
    ∷ (AbsCode.abs_hat1x, AbsAxis.hat1_x)
    ∷ (AbsCode.abs_hat1y, AbsAxis.hat1_y)
    ∷ (AbsCode.abs_hat2x, AbsAxis.hat2_x)
    ∷ (AbsCode.abs_hat2y, AbsAxis.hat2_y)
    ∷ (AbsCode.abs_hat3x, AbsAxis.hat3_x)
    ∷ (AbsCode.abs_hat3y, AbsAxis.hat3_y)
    ∷ (AbsCode.abs_pressure, AbsAxis.pressure)
    ∷ (AbsCode.abs_distance, AbsAxis.distance)
    ∷ (AbsCode.abs_tilt_x, AbsAxis.tilt_x)
    ∷ (AbsCode.abs_tilt_y, AbsAxis.tilt_y)
    ∷ (AbsCode.abs_tool_width, AbsAxis.tool_width)
    ∷ (AbsCode.abs_volume, AbsAxis.volume)
    ∷ (AbsCode.abs_profile, AbsAxis.profile)
    ∷ (AbsCode.abs_misc, AbsAxis.misc)
    ∷ (AbsCode.abs_mt_slot, AbsAxis.mt_slot)
    ∷ (AbsCode.abs_mt_touch_major, AbsAxis.mt_touch_major)
    ∷ (AbsCode.abs_mt_touch_minor, AbsAxis.mt_touch_minor)
    ∷ (AbsCode.abs_mt_width_major, AbsAxis.mt_width_major)
    ∷ (AbsCode.abs_mt_width_minor, AbsAxis.mt_width_minor)
    ∷ (AbsCode.abs_mt_orientation, AbsAxis.mt_orientation)
    ∷ (AbsCode.abs_mt_position_x, AbsAxis.mt_position_x)
    ∷ (AbsCode.abs_mt_position_y, AbsAxis.mt_position_y)
    ∷ (AbsCode.abs_mt_blob_id, AbsAxis.mt_blob_id)
    ∷ (AbsCode.abs_mt_tracking_id, AbsAxis.mt_tracking_id)
    ∷ (AbsCode.abs_mt_pressure, AbsAxis.mt_pressure)
    ∷ (AbsCode.abs_mt_distance, AbsAxis.mt_distance)
    ∷ (AbsCode.abs_mt_tool_x, AbsAxis.mt_tool_x)
    ∷ (AbsCode.abs_mt_tool_y, AbsAxis.mt_tool_y)
    ∷ []

abbrev pub tool_arms : List (MtToolCode × ToolType)
tool_arms =
    (MtToolCode.mt_tool_finger, ToolType.finger)
    ∷ (MtToolCode.mt_tool_pen, ToolType.pen)
    ∷ (MtToolCode.mt_tool_palm, ToolType.palm)
    ∷ (MtToolCode.mt_tool_dial, ToolType.dial)
    ∷ []

-- The arms that exist in the build: `ABS_PROFILE` has one only where the headers have it.
unfoldable pub abs_arms_of : Bool → List (AbsCode × AbsAxis) → List (AbsCode × AbsAxis)
abs_arms_of true arms = arms
abs_arms_of false [] = []
abs_arms_of false ((AbsCode.abs_profile, axis) ∷ arms) = abs_arms_of false arms
abs_arms_of false ((c, axis) ∷ arms) = (c, axis) ∷ abs_arms_of false arms

module _ (g : Glue) where
  unfoldable pub keyboard_from_raw : ℕ → Option Keyboard
  keyboard_from_raw code = first_arm (λ c. g.key_code c =? code) keyboard_arms

  unfoldable pub button_from_raw : ℕ → Option Button
  button_from_raw code = first_arm (λ c. g.btn_code c =? code) button_arms

  abbrev key_or_button : Option Keyboard → Option Button → Option Key
  key_or_button (some kb) btn = some (key kb)
  key_or_button none (some btn) = some (button btn)
  key_or_button none none = none

  unfoldable pub key_from_raw : ℕ → Option Key
  unfolding keyboard_from_raw button_from_raw
  key_from_raw code = key_or_button (keyboard_from_raw code) (button_from_raw code)

  unfoldable pub rel_from_raw : ℕ → Option RelAxis
  rel_from_raw code = first_arm (λ c. g.rel_code c =? code) rel_arms

  unfoldable pub abs_from_raw : ℕ → Option AbsAxis
  abs_from_raw code =
      first_arm (λ c. g.abs_code c =? code) (abs_arms_of g.have_abs_profile abs_arms)

  unfoldable pub tool_from_raw : ℤ → Option ToolType
  tool_from_raw value = first_arm (λ c. g.mt_tool_code c =? value) tool_arms
