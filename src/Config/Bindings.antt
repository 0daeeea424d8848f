-- ===== src/Config/Bindings.antt =====
-- rkvm-server/src/main.rs: `build_switch_bindings` and `convert_switch_binding`, which turn the
-- configured chords into the bindings of the router.
use rkvm.Prelude.{Bool, true, false, List, [], ◌∷◌, map, Option, none, some}
use rkvm.Input.Key.{Key_eq}
use rkvm.Config.SwitchKeys.{SwitchKey, SwitchKey_eq, into_key}
use rkvm.Collections.Distinct.{all_new}
use rkvm.Routing.Router.{SwitchBinding}

-- Which field an error is about.
pub data Field : Type 0 where
  switch_keys : Field
  switch_bindings : Field

pub data BindingError : Type 0 where
  no_keys : Field → BindingError
  duplicate_keys : Field → BindingError
  not_configured : BindingError

pub data Result {ℓ} (A : Type ℓ) : Type ℓ where
  ok : A → Result A
  err : BindingError → Result A

abbrev pub last : List SwitchKey → Option SwitchKey
last [] = none
last (name ∷ []) = some name
last (name ∷ other ∷ names) = last (other ∷ names)

-- `binding.iter().copied().map(Into::into).collect()`
abbrev pub converted : List SwitchKey → SwitchKey → SwitchBinding
converted ks last_name = record { keys = map into_key ks; trigger = into_key last_name }

abbrev pub with_trigger : Field → List SwitchKey → Option SwitchKey → Bool → Result SwitchBinding
with_trigger field ks none is_new = err (no_keys field)
with_trigger field ks (some last_name) true = ok (converted ks last_name)
with_trigger field ks (some last_name) false = err (duplicate_keys field)

unfoldable pub convert_switch_binding : Field → List SwitchKey → Result SwitchBinding
convert_switch_binding field ks = with_trigger field ks (last ks) (all_new [] ks)

abbrev pub followed :
    Result SwitchBinding → Result (List SwitchBinding) → Result (List SwitchBinding)
followed (err e) rest = err e
followed (ok b) (err e) = err e
followed (ok b) (ok bs) = ok (b ∷ bs)

unfoldable pub convert_all : List (List SwitchKey) → Result (List SwitchBinding)
convert_all [] = ok []
convert_all (ks ∷ kss) = followed (convert_switch_binding switch_bindings ks) (convert_all kss)

abbrev pub or_none : Option (List (List SwitchKey)) → List (List SwitchKey)
or_none none = []
or_none (some kss) = kss

abbrev pub both_fields :
    Option (List SwitchKey) → List (List SwitchKey) → Result (List SwitchBinding)
both_fields none kss = convert_all kss
both_fields (some ks) kss = followed (convert_switch_binding switch_keys ks) (convert_all kss)

abbrev pub some_binding : Result (List SwitchBinding) → Result (List SwitchBinding)
some_binding (err e) = err e
some_binding (ok []) = err not_configured
some_binding (ok (b ∷ bs)) = ok (b ∷ bs)

-- The configuration's fields `switch-keys` and `switch-bindings`.
unfoldable pub build_switch_bindings :
    Option (List SwitchKey) → Option (List (List SwitchKey)) → Result (List SwitchBinding)
build_switch_bindings keys bindings = some_binding (both_fields keys (or_none bindings))
