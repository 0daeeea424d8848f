-- ===== src/Input/Convert.antt =====
-- The `to_raw` halves of rkvm-input/src/key.rs, rel.rs, abs.rs and sync.rs; those of key/keyboard.rs
-- and key/button.rs are in Key.ToRaw. The numbers of the constants are those of the kernel's headers,
-- from which the build generates `glue`: here a parameter. The constants of the tools are given as the
-- `i32` that they are cast to.
use rkvm.Prelude.{ℕ, Bool, Option, none, some, if◌then◌else◌}
use rkvm.Input.Codes.{KeyCode, BtnCode, RelCode, AbsCode, MtToolCode}
use rkvm.Input.Key.{Key, key, button}
use rkvm.Input.Key.ToRaw.{keyboard_constant, button_constant}
use rkvm.Input.Event.{ℤ, RelAxis, AbsAxis, ToolType, SyncEvent}

pub record Glue : Type 0 where
  pub key_code : KeyCode → ℕ
  pub btn_code : BtnCode → ℕ
  pub rel_code : RelCode → ℕ
  pub abs_code : AbsCode → ℕ
  pub mt_tool_code : MtToolCode → ℤ
  pub syn_report : ℕ
  pub syn_mt_report : ℕ
  pub ev_syn : ℕ
  pub ev_key : ℕ
  pub ev_rel : ℕ
  pub ev_abs : ℕ
  pub abs_mt_tool_type : ℕ
  pub have_abs_profile : Bool

unfoldable pub rel_constant : RelAxis → RelCode
rel_constant RelAxis.x = RelCode.rel_x
rel_constant RelAxis.y = RelCode.rel_y
rel_constant RelAxis.z = RelCode.rel_z
rel_constant RelAxis.rx = RelCode.rel_rx
rel_constant RelAxis.ry = RelCode.rel_ry
rel_constant RelAxis.rz = RelCode.rel_rz
rel_constant RelAxis.hwheel = RelCode.rel_hwheel
rel_constant RelAxis.dial = RelCode.rel_dial
rel_constant RelAxis.wheel = RelCode.rel_wheel
rel_constant RelAxis.misc = RelCode.rel_misc
rel_constant RelAxis.wheel_hi_res = RelCode.rel_wheel_hi_res
rel_constant RelAxis.hwheel_hi_res = RelCode.rel_hwheel_hi_res

unfoldable pub abs_constant : AbsAxis → AbsCode
abs_constant AbsAxis.x = AbsCode.abs_x
abs_constant AbsAxis.y = AbsCode.abs_y
abs_constant AbsAxis.z = AbsCode.abs_z
abs_constant AbsAxis.rx = AbsCode.abs_rx
abs_constant AbsAxis.ry = AbsCode.abs_ry
abs_constant AbsAxis.rz = AbsCode.abs_rz
abs_constant AbsAxis.throttle = AbsCode.abs_throttle
abs_constant AbsAxis.rudder = AbsCode.abs_rudder
abs_constant AbsAxis.wheel = AbsCode.abs_wheel
abs_constant AbsAxis.gas = AbsCode.abs_gas
abs_constant AbsAxis.brake = AbsCode.abs_brake
abs_constant AbsAxis.hat0_x = AbsCode.abs_hat0x
abs_constant AbsAxis.hat0_y = AbsCode.abs_hat0y
abs_constant AbsAxis.hat1_x = AbsCode.abs_hat1x
abs_constant AbsAxis.hat1_y = AbsCode.abs_hat1y
abs_constant AbsAxis.hat2_x = AbsCode.abs_hat2x
abs_constant AbsAxis.hat2_y = AbsCode.abs_hat2y
abs_constant AbsAxis.hat3_x = AbsCode.abs_hat3x
abs_constant AbsAxis.hat3_y = AbsCode.abs_hat3y
abs_constant AbsAxis.pressure = AbsCode.abs_pressure
abs_constant AbsAxis.distance = AbsCode.abs_distance
abs_constant AbsAxis.tilt_x = AbsCode.abs_tilt_x
abs_constant AbsAxis.tilt_y = AbsCode.abs_tilt_y
abs_constant AbsAxis.tool_width = AbsCode.abs_tool_width
abs_constant AbsAxis.volume = AbsCode.abs_volume
abs_constant AbsAxis.profile = AbsCode.abs_profile
abs_constant AbsAxis.misc = AbsCode.abs_misc
abs_constant AbsAxis.mt_slot = AbsCode.abs_mt_slot
abs_constant AbsAxis.mt_touch_major = AbsCode.abs_mt_touch_major
abs_constant AbsAxis.mt_touch_minor = AbsCode.abs_mt_touch_minor
abs_constant AbsAxis.mt_width_major = AbsCode.abs_mt_width_major
abs_constant AbsAxis.mt_width_minor = AbsCode.abs_mt_width_minor
abs_constant AbsAxis.mt_orientation = AbsCode.abs_mt_orientation
abs_constant AbsAxis.mt_position_x = AbsCode.abs_mt_position_x
abs_constant AbsAxis.mt_position_y = AbsCode.abs_mt_position_y
abs_constant AbsAxis.mt_blob_id = AbsCode.abs_mt_blob_id
abs_constant AbsAxis.mt_tracking_id = AbsCode.abs_mt_tracking_id
abs_constant AbsAxis.mt_pressure = AbsCode.abs_mt_pressure
abs_constant AbsAxis.mt_distance = AbsCode.abs_mt_distance
abs_constant AbsAxis.mt_tool_x = AbsCode.abs_mt_tool_x
abs_constant AbsAxis.mt_tool_y = AbsCode.abs_mt_tool_y

unfoldable pub tool_constant : ToolType → MtToolCode
tool_constant ToolType.finger = MtToolCode.mt_tool_finger
tool_constant ToolType.pen = MtToolCode.mt_tool_pen
tool_constant ToolType.palm = MtToolCode.mt_tool_palm
tool_constant ToolType.dial = MtToolCode.mt_tool_dial

module _ (g : Glue) where
  unfoldable pub key_to_raw : Key → Option ℕ
  key_to_raw (key kb) = some (g.key_code (keyboard_constant kb))
  key_to_raw (button btn) = some (g.btn_code (button_constant btn))

  unfoldable pub rel_to_raw : RelAxis → Option ℕ
  rel_to_raw axis = some (g.rel_code (rel_constant axis))

  -- `Profile` has a code only where the headers have `ABS_PROFILE`.
  unfoldable pub abs_to_raw : AbsAxis → Option ℕ
  abs_to_raw AbsAxis.profile =
      if g.have_abs_profile then some (g.abs_code (abs_constant AbsAxis.profile)) else none
  abs_to_raw axis = some (g.abs_code (abs_constant axis))

  unfoldable pub tool_to_raw : ToolType → Option ℤ
  tool_to_raw tool = some (g.mt_tool_code (tool_constant tool))

  unfoldable pub sync_to_raw : SyncEvent → Option ℕ
  sync_to_raw SyncEvent.all = some g.syn_report
  sync_to_raw SyncEvent.mt = some g.syn_mt_report
