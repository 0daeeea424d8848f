-- ===== src/Input/Interceptor/Tables.antt =====
-- rkvm-input/src/key/keyboard.rs, key/button.rs, rel.rs and abs.rs: the arms of `from_raw` beside those
-- of `to_raw`.
use rkvm.Prelude.{
  ◌≡◌, refl, Bool, true, false, List, [], ◌∷◌, map, none, some, ◌=?◌, Eq, ◌≢◌, arith, ap,
  Bool-cases, inl, inr, ◌∙◌,
}
use mathlib.Core.Option.{some-injective}
use rkvm.Collections.Set.{contains}
use rkvm.Input.Codes.{
  KeyCode, KeyCode-discrete, BtnCode, BtnCode-discrete, RelCode, RelCode-discrete, AbsCode,
  AbsCode-discrete, MtToolCode, MtToolCode-discrete,
}
use rkvm.Input.Key.Keys.{Keyboard, Keyboard-discrete}
use rkvm.Input.Key.Buttons.{Button}
use rkvm.Input.Key.ToRaw.{keyboard_constant, button_constant}
use rkvm.Input.Key.FromRaw.{keyboard_arms, button_arms}
use rkvm.Input.Event.{RelAxis, AbsAxis, ToolType}
use rkvm.Input.Convert.{rel_constant, abs_constant, tool_constant}
use rkvm.Input.Decode.{first_arm, rel_arms, abs_arms, tool_arms, abs_arms_of}

instance abbrev pub KeyCode_eq : Eq KeyCode
KeyCode_eq = record { dec = KeyCode-discrete }

instance abbrev pub BtnCode_eq : Eq BtnCode
BtnCode_eq = record { dec = BtnCode-discrete }

instance abbrev pub RelCode_eq : Eq RelCode
RelCode_eq = record { dec = RelCode-discrete }

instance abbrev pub AbsCode_eq : Eq AbsCode
AbsCode_eq = record { dec = AbsCode-discrete }

instance abbrev pub MtToolCode_eq : Eq MtToolCode
MtToolCode_eq = record { dec = MtToolCode-discrete }

instance abbrev pub Keyboard_eq : Eq Keyboard
Keyboard_eq = record { dec = Keyboard-discrete }

module _ {C A : Type 0} where
  abbrev pub constants : List (C × A) → List C
  constants = map (λ arm. arm.0)

  abbrev pub variants : List (C × A) → List A
  variants = map (λ arm. arm.1)

-- The constants have numbers of their own.
abbrev pub Apart : {C D : Type 0} → ⦃e : Eq C⦄ → (C → D) → List C → Type 0
Apart {C} code xs =
    (c d : C) → contains c xs ≡ true → contains d xs ≡ true → code c ≡ code d → c ≡ d

module _ {C A D : Type 0} ⦃e : Eq C⦄ ⦃f : Eq D⦄ where
  first_arm-code :
      (code : C → D) (arms : List (C × A)) (c : C)
      → ((d : C) → contains d (constants arms) ≡ true → code d ≡ code c → d ≡ c)
      → first_arm (λ d. code d =? code c) arms ≡ first_arm (λ d. d =? c) arms
  unfolding first_arm contains
  first_arm-code code [] c apart = refl
  first_arm-code code ((d, a) ∷ rest) c apart =
      let inner = first_arm-code code rest c (λ x there. apart x (ground (arith, there))) in
      elim (f.dec (code d) (code c)) [
        | yes same ↦ let equal : d ≡ c = apart d (ground arith) same in ground (arith, same, equal)
        | no other ↦ elim (e.dec d c) [
          | yes equal ↦ absurd (other (ap code equal))
          | no differ ↦ ground (arith, inner)
        ]
      ]

  pub first_arm-none :
      (code : C → D) (arms : List (C × A)) (wanted : D)
      → ((c : C) → contains c (constants arms) ≡ true → code c ≢ wanted)
      → first_arm (λ c. code c =? wanted) arms ≡ none
  unfolding first_arm contains
  first_arm-none code [] wanted apart = refl
  first_arm-none code ((c, a) ∷ rest) wanted apart = elim (f.dec (code c) wanted) [
    | yes same ↦ absurd (apart c (ground arith) same)
    | no other ↦
        ground (arith, first_arm-none code rest wanted (λ d there. apart d (ground (arith, there))))
  ]

module _ {C A : Type 0} ⦃e : Eq A⦄ where
  pub first_arm-contains :
      (p : C → Bool) (arms : List (C × A)) (a : A)
      → first_arm p arms ≡ some a
      → contains a (variants arms) ≡ true
  unfolding first_arm contains
  first_arm-contains p [] a h = absurd cc
  first_arm-contains p ((c, x) ∷ rest) a h = elim (Bool-cases (p c)) [
    | inl e ↦ let same : x ≡ a = some-injective x a (ground arith) in ground arith
    | inr e ↦ ground (arith, first_arm-contains p rest a (ground arith))
  ]

module _ {C A : Type 0} ⦃e : Eq C⦄ where
  pub first_arm-constant :
      (arms : List (C × A)) (c : C) (a : A)
      → first_arm (λ d. d =? c) arms ≡ some a
      → contains c (constants arms) ≡ true
  unfolding first_arm contains
  first_arm-constant [] c a h = absurd cc
  first_arm-constant ((d, x) ∷ rest) c a h = elim (e.dec d c) [
    | yes same ↦ ground arith
    | no other ↦ ground (arith, first_arm-constant rest c a (ground arith))
  ]

module _ {C A D : Type 0} ⦃e : Eq C⦄ ⦃g : Eq D⦄ where
  -- Where the constants of the arms have numbers of their own, a variant that the first arm for its
  -- constant returns is read from its number.
  pub Apart-read :
      (code : C → D) (arms : List (C × A)) (c : C) (a : A)
      → Apart code (constants arms)
      → first_arm (λ d. d =? c) arms ≡ some a
      → first_arm (λ d. code d =? code c) arms ≡ some a
  Apart-read code arms c a apart found =
      first_arm-code code arms c (λ d listed. apart d c listed (first_arm-constant arms c a found))
      ∙ found

-- The first arm for the constant of a variant returns that variant.
abbrev pub Agrees : {C A : Type 0} → ⦃e : Eq C⦄ → (A → C) → List (C × A) → A → Type 0
Agrees name arms a = first_arm (λ c. c =? name a) arms ≡ some a

pub keyboard-Agrees :
    (kb : Keyboard) → kb ≢ Keyboard.display_toggle → Agrees keyboard_constant keyboard_arms kb
unfolding first_arm keyboard_constant KeyCode-discrete
keyboard-Agrees Keyboard.display_toggle n = absurd (n refl)
keyboard-Agrees _ n = refl

pub button-Agrees : (btn : Button) → Agrees button_constant button_arms btn
unfolding first_arm button_constant BtnCode-discrete
button-Agrees Button.b0 = refl
button-Agrees _ = refl

pub rel-Agrees : (axis : RelAxis) → Agrees rel_constant rel_arms axis
unfolding first_arm rel_constant RelCode-discrete
rel-Agrees RelAxis.x = refl
rel-Agrees _ = refl

pub abs-Agrees :
    (exists : Bool) (axis : AbsAxis)
    → (axis ≡ AbsAxis.profile → exists ≡ true)
    → Agrees abs_constant (abs_arms_of exists abs_arms) axis
unfolding first_arm abs_constant abs_arms_of AbsCode-discrete
abs-Agrees true AbsAxis.x h = refl
abs-Agrees true _ h = refl
abs-Agrees false AbsAxis.profile h = absurd (cc (h refl))
abs-Agrees false _ h = refl

pub tool-Agrees : (tool : ToolType) → Agrees tool_constant tool_arms tool
unfolding first_arm tool_constant MtToolCode-discrete
tool-Agrees ToolType.finger = refl
tool-Agrees _ = refl
