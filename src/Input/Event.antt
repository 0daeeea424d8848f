-- ===== src/Input/Event.antt =====
-- rkvm-input/src/rel.rs, abs.rs, sync.rs and event.rs: the events of an input device. Values are
-- `i32`: signed integers, which no modelled operation computes with.
use rkvm.Prelude.{ℕ, ℕ_discrete, Eq}
use rkvm.Input.Key.{KeyEvent}

-- An `i32`: `negsuc n` is -(n + 1).
pub data ℤ : Type 0 where
  pos : ℕ → ℤ
  negsuc : ℕ → ℤ

unfoldable pub ℤ-discrete : Discrete ℤ
unfolding ℕ_discrete
ℤ-discrete = hlevel ℕ_discrete

instance abbrev pub ℤ_eq : Eq ℤ
ℤ_eq = record { dec = ℤ-discrete }

pub data RelAxis : Type 0 where
  x y z rx ry rz hwheel dial wheel misc wheel_hi_res hwheel_hi_res : RelAxis

pub data AbsAxis : Type 0 where
  x y z rx ry rz throttle rudder wheel gas brake hat0_x hat0_y hat1_x hat1_y hat2_x hat2_y hat3_x
        hat3_y pressure distance tilt_x tilt_y tool_width volume profile misc mt_slot mt_touch_major
        mt_touch_minor mt_width_major mt_width_minor mt_orientation mt_position_x mt_position_y
        mt_blob_id mt_tracking_id mt_pressure mt_distance mt_tool_x mt_tool_y :
      AbsAxis

unfoldable pub RelAxis-discrete : Discrete RelAxis
RelAxis-discrete = hlevel

unfoldable pub AbsAxis-discrete : Discrete AbsAxis
AbsAxis-discrete = hlevel

pub data ToolType : Type 0 where
  finger pen palm dial : ToolType

pub record AbsInfo : Type 0 where
  pub min : ℤ
  pub max : ℤ
  pub fuzz : ℤ
  pub flat : ℤ
  pub resolution : ℤ

pub record RelEvent : Type 0 where
  pub axis : RelAxis
  pub value : ℤ

pub data AbsEvent : Type 0 where
  axis : AbsAxis → ℤ → AbsEvent
  mt_tool_type : ToolType → AbsEvent

pub data SyncEvent : Type 0 where
  all mt : SyncEvent

pub data Event : Type 0 where
  rel : RelEvent → Event
  abs : AbsEvent → Event
  key : KeyEvent → Event
  sync : SyncEvent → Event
