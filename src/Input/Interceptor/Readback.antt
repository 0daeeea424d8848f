-- ===== src/Input/Interceptor/Readback.antt =====
-- rkvm-input/src/interceptor.rs and writer.rs: the interceptor reads an event as the writer writes it.
use rkvm.Prelude.{
  subst, ℕ, ◌≡◌, refl, Bool, true, false, [], ◌∷◌, some, arith, ap, ◌∙◌, sym, ◌=?◌, if◌then◌else◌,
  ◌≢◌, All, ℕ_eq,
}
use mathlib.Core.Option.{some-injective}
use rkvm.Collections.Set.{contains}
use rkvm.Input.Codes.{KeyCode, BtnCode, AbsCode}
use rkvm.Input.Key.{Key, key, button}
use rkvm.Input.Key.Keys.{Keyboard, Keyboard-discrete}
use rkvm.Input.Key.Buttons.{Button}
use rkvm.Input.Key.ToRaw.{keyboard_constant, button_constant}
use rkvm.Input.Key.FromRaw.{keyboard_arms, button_arms}
use rkvm.Input.Event.{
  ℤ, ℤ_eq, ℤ-discrete, pos, Event, RelEvent, AbsEvent, SyncEvent, AbsAxis, ToolType,
}
use rkvm.Input.Convert.{
  Glue, rel_constant, abs_constant, tool_constant, key_to_raw, rel_to_raw, abs_to_raw, tool_to_raw,
  sync_to_raw,
}
use rkvm.Input.Decode.{
  rel_arms, abs_arms, tool_arms, abs_arms_of, keyboard_from_raw, button_from_raw, key_from_raw,
  rel_from_raw, abs_from_raw, tool_from_raw,
}
use rkvm.Input.Interceptor.Tables.{
  KeyCode_eq, BtnCode_eq, RelCode_eq, AbsCode_eq, MtToolCode_eq, Keyboard_eq, constants, variants,
  Apart, first_arm-none, first_arm-constant, first_arm-contains, Apart-read, keyboard-Agrees,
  button-Agrees, rel-Agrees, abs-Agrees, tool-Agrees,
}
use rkvm.Input.Writer.{Raw, raw_event}
use rkvm.Input.Interceptor.{Codes, queued, fate}

-- What `read` relies on in the constants of the headers: those that are compared differ.
pub record Headers (c : Codes) : Type 0 where
  pub types : All (λ t. c.glue.ev_rel ≢ t) (c.glue.ev_abs ∷ c.glue.ev_key ∷ c.glue.ev_syn ∷ [])
  pub more_types : All (λ t. c.glue.ev_abs ≢ t) (c.glue.ev_key ∷ c.glue.ev_syn ∷ [])
  pub last_types : c.glue.ev_key ≢ c.glue.ev_syn
  pub syncs : (c.glue.syn_report ≢ c.glue.syn_mt_report) × (c.syn_dropped ≢ c.glue.syn_mt_report)
  pub rels : Apart c.glue.rel_code (constants rel_arms)
  pub axes : Apart c.glue.abs_code (constants (abs_arms_of c.glue.have_abs_profile abs_arms))
  pub tools : Apart c.glue.mt_tool_code (constants tool_arms)
  pub no_tool :
      (a : AbsCode)
      → contains a (constants (abs_arms_of c.glue.have_abs_profile abs_arms)) ≡ true
      → c.glue.abs_code a ≢ c.glue.abs_mt_tool_type
  pub keys : Apart c.glue.key_code (constants keyboard_arms)
  pub buttons_apart : Apart c.glue.btn_code (constants button_arms)
  pub no_button :
      (k : KeyCode) (b : BtnCode)
      → contains k (constants keyboard_arms) ≡ true
      → contains b (constants button_arms) ≡ true
      → c.glue.key_code k ≢ c.glue.btn_code b

-- Every event but those of `DisplayToggle`, which has no arm in `from_raw`.
abbrev pub IsReadable : Event → Type 0
IsReadable (Event.key e) = e.key ≢ key Keyboard.display_toggle
IsReadable _ = Unit

module _ (c : Codes) (h : Headers c) where
  keyboard-read :
      (k : Keyboard)
      → k ≢ Keyboard.display_toggle
      → key_from_raw c.glue (c.glue.key_code (keyboard_constant k)) ≡ some (key k)
  unfolding key_from_raw keyboard_from_raw
  keyboard-read kb other =
      rw
        (Apart-read c.glue.key_code keyboard_arms (keyboard_constant kb) kb h.keys
          (keyboard-Agrees kb other))
        refl

  button-read :
      (b : Button) → key_from_raw c.glue (c.glue.btn_code (button_constant b)) ≡ some (button b)
  unfolding key_from_raw keyboard_from_raw button_from_raw
  button-read b =
      let name = button_constant b in
      let there = first_arm-constant button_arms name b (button-Agrees b) in
      rw
        (
          first_arm-none c.glue.key_code keyboard_arms (c.glue.btn_code name)
              (λ k found. h.no_button k name found there),
          Apart-read c.glue.btn_code button_arms name b h.buttons_apart (button-Agrees b),
        )
        refl

  rel-fate :
      (e : RelEvent)
      → fate c (c.glue.ev_rel, c.glue.rel_code (rel_constant e.axis), e.value)
        ≡ queued (Event.rel e)
  unfolding fate rel_from_raw
  rel-fate e = ground (
    arith,
    Apart-read c.glue.rel_code rel_arms (rel_constant e.axis) e.axis h.rels (rel-Agrees e.axis),
  )

  axis-fate :
      (a : AbsAxis) (value : ℤ)
      → (a ≡ AbsAxis.profile → c.glue.have_abs_profile ≡ true)
      → fate c (c.glue.ev_abs, c.glue.abs_code (abs_constant a), value)
        ≡ queued (Event.abs (AbsEvent.axis a value))
  unfolding fate abs_from_raw
  axis-fate a value exists =
      let agrees = abs-Agrees c.glue.have_abs_profile a exists in
      let there = h.no_tool (abs_constant a) (first_arm-constant _ (abs_constant a) a agrees) in
      ground
        (arith, Apart-read c.glue.abs_code _ (abs_constant a) a h.axes agrees, h.types.0, there)

  tool-fate :
      (t : ToolType)
      → fate c (c.glue.ev_abs, c.glue.abs_mt_tool_type, c.glue.mt_tool_code (tool_constant t))
        ≡ queued (Event.abs (AbsEvent.mt_tool_type t))
  unfolding fate tool_from_raw
  tool-fate t = ground (
    arith,
    Apart-read c.glue.mt_tool_code tool_arms (tool_constant t) t h.tools (tool-Agrees t),
    h.types.0,
  )

  key-fate :
      (k : Key) (code : ℕ) (d : Bool)
      → key_from_raw c.glue code ≡ some k
      → fate c (c.glue.ev_key, code, pos (if d then 1 else 0))
        ≡ queued (Event.key (record { key = k; down = d }))
  unfolding fate ℤ-discrete
  key-fate k code true found = ground (arith, found, h.types.1.0, h.more_types.0)
  key-fate k code false found = ground (arith, found, h.types.1.0, h.more_types.0)

  all-fate : fate c (c.glue.ev_syn, c.glue.syn_report, pos 0) ≡ queued (Event.sync SyncEvent.all)
  unfolding fate
  all-fate = ground (arith, h.types.1.1.0, h.more_types.1.0, h.last_types)

  mt-fate : fate c (c.glue.ev_syn, c.glue.syn_mt_report, pos 0) ≡ queued (Event.sync SyncEvent.mt)
  unfolding fate
  mt-fate = ground (arith, h.types.1.1.0, h.more_types.1.0, h.last_types, h.syncs.0, h.syncs.1)

  event-fate :
      (e : Event) (raw r : Raw) → some r ≡ some raw → fate c r ≡ queued e → fate c raw ≡ queued e
  event-fate e raw r same f = ap (fate c) (sym (some-injective r raw same)) ∙ f

  pressed-fate :
      (k : Key) (d : Bool) (raw : Raw)
      → k ≢ key Keyboard.display_toggle
      → raw_event c.glue (Event.key (record { key = k; down = d })) ≡ some raw
      → fate c raw ≡ queued (Event.key (record { key = k; down = d }))
  unfolding raw_event key_to_raw
  pressed-fate (key kb) d raw other w =
      event-fate (Event.key (record { key = key kb; down = d })) raw _ w (
        key-fate (key kb) (c.glue.key_code (keyboard_constant kb)) d
          (keyboard-read kb (λ e. other (ap key e))))
  pressed-fate (button btn) d raw other w =
      event-fate (Event.key (record { key = button btn; down = d })) raw _ w
        (key-fate (button btn) (c.glue.btn_code (button_constant btn)) d (button-read btn))

  -- `Profile` is written only where it exists.
  profile-written :
      (value : ℤ) (raw : Raw)
      → raw_event c.glue (Event.abs (AbsEvent.axis AbsAxis.profile value)) ≡ some raw
      → c.glue.have_abs_profile ≡ true
  unfolding raw_event abs_to_raw
  profile-written value raw w = ground arith

  axis-written :
      (a : AbsAxis) (value : ℤ) (raw : Raw)
      → raw_event c.glue (Event.abs (AbsEvent.axis a value)) ≡ some raw
      → some (c.glue.ev_abs, c.glue.abs_code (abs_constant a), value) ≡ some raw
  unfolding raw_event abs_to_raw
  axis-written AbsAxis.profile value raw w = ground arith
  axis-written _ value raw w = w

  -- Where the constants that `read` and the arms of `from_raw` compare with have numbers of their own, the
  -- raw event that the writer writes for an event is read as that event, unless it is of the key
  -- `DisplayToggle`.
  pub fate-raw_event :
      (e : Event) (raw : Raw) → IsReadable e → raw_event c.glue e ≡ some raw → fate c raw ≡ queued e
  unfolding raw_event rel_to_raw tool_to_raw key_to_raw sync_to_raw
  fate-raw_event (Event.rel e) raw readable w = event-fate (Event.rel e) raw _ w (rel-fate e)
  fate-raw_event (Event.abs (AbsEvent.axis axis value)) raw readable w =
      event-fate (Event.abs (AbsEvent.axis axis value)) raw
        (c.glue.ev_abs, c.glue.abs_code (abs_constant axis), value) (axis-written axis value raw w)
        (axis-fate axis value (λ e.
          profile-written value raw
            (subst (λ a. raw_event c.glue (Event.abs (AbsEvent.axis a value)) ≡ some raw) e w)))
  fate-raw_event (Event.abs (AbsEvent.mt_tool_type tool)) raw readable w =
      event-fate (Event.abs (AbsEvent.mt_tool_type tool)) raw _ w (tool-fate tool)
  fate-raw_event (Event.key e) raw readable w = pressed-fate e.key e.down raw readable w
  fate-raw_event (Event.sync SyncEvent.all) raw readable w =
      event-fate (Event.sync SyncEvent.all) raw _ w all-fate
  fate-raw_event (Event.sync SyncEvent.mt) raw readable w =
      event-fate (Event.sync SyncEvent.mt) raw _ w mt-fate

no_display_toggle : contains Keyboard.display_toggle (variants keyboard_arms) ≡ false
unfolding contains Keyboard-discrete
no_display_toggle = refl

-- No code is read as `DisplayToggle`, which has no arm in `from_raw`.
pub keyboard_from_raw-display_toggle :
    (g : Glue) (code : ℕ) → keyboard_from_raw g code ≢ some Keyboard.display_toggle
unfolding keyboard_from_raw
keyboard_from_raw-display_toggle g code h =
    let there =
      first_arm-contains (λ c. g.key_code c =? code) keyboard_arms Keyboard.display_toggle h in
    absurd (cc (sym there ∙ no_display_toggle))
