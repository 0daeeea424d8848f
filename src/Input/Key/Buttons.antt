-- ===== src/Input/Key/Buttons.antt =====
-- rkvm-input/src/key/button.rs: the enum `Button`, one constructor for each variant.
pub data Button : Type 0 where
  b0 b1 b2 b3 b4 b5 b6 b7 b8 b9 left right middle side extra forward back task trigger thumb thumb2
        top top2 pinkie base base2 base3 base4 base5 base6 dead south east c north west z tl tr tl2
        tr2 select start mode thumb_l thumb_r tool_pen tool_rubber tool_brush tool_pencil
        tool_airbrush tool_finger tool_mouse tool_lens quint_tap stylus3 touch stylus stylus2
        double_tap triple_tap quad_tap gear_down gear_up dpad_up dpad_down dpad_left dpad_right
        trigger_happy1 triger_happy2 trigger_happy3 trigger_happy4 trigger_happy5 trigger_happy6
        trigger_happy7 trigger_happy8 trigger_happy9 trigger_happy10 trigger_happy11 trigger_happy12
        trigger_happy13 trigger_happy14 trigger_happy15 trigger_happy16 trigger_happy17
        trigger_happy18 trigger_happy19 trigger_happy20 trigger_happy21 trigger_happy22
        trigger_happy23 trigger_happy24 trigger_happy25 trigger_happy26 trigger_happy27
        trigger_happy28 trigger_happy29 trigger_happy30 trigger_happy31 trigger_happy32
        trigger_happy33 trigger_happy34 trigger_happy35 trigger_happy36 trigger_happy37
        trigger_happy38 trigger_happy39 trigger_happy40 :
      Button

unfoldable pub Button-discrete : Discrete Button
Button-discrete = hlevel
