-- ===== src/Config/Tests.antt =====
-- rkvm-server/src/config.rs and main.rs: a chord of two keys, and a group with one candidate.
use rkvm.Prelude.{ℕ, ◌≡◌, refl, ◌↔◌, true, false, List, [], ◌∷◌, none, some, All, get_elem?}
use rkvm.Collections.Set.{contains, is_empty}
use rkvm.Collections.Distinct.{all_new}
use rkvm.Collections.Sort.{position}
use rkvm.Input.Key.{key}
use rkvm.Input.Key.Keys.{Keyboard}
use rkvm.Input.Device.{DeviceOrigin-discrete, DeviceInfo, physical}
use rkvm.Routing.Router.{SwitchBinding}
use rkvm.Monitor.Policy.{Selection, selection, first_rule}
use rkvm.Config.SwitchKeys.{SwitchKey, SwitchKey-discrete, into_key}
use rkvm.Config.Bindings.{
  ok, err, duplicate_keys, switch_keys, convert_switch_binding, convert_all, build_switch_bindings,
}
use rkvm.Config.Chords.{chords, IsUsable, AreConverted, build_switch_bindings-AreConverted}
use rkvm.Config.Devices.{
  Platform, DeviceCandidate, DeviceGroup, matches, has_no_field, path_matches, group_policy,
  candidate_policy, monitor_policy, check_groups, validate_device_policy,
}
use rkvm.Config.Accepted.{IsAcceptable, validate_device_policy-IsAcceptable}
use rkvm.Config.Fits.{Fits, selection-Fits}

abbrev alts : List SwitchKey
alts = SwitchKey.left_alt ∷ SwitchKey.right_alt ∷ []

two_alts :
    build_switch_bindings (some alts) none
    ≡ ok (
        record {
          keys = key Keyboard.left_alt ∷ key Keyboard.right_alt ∷ [];
          trigger = key Keyboard.right_alt;
        }
        ∷ [])
unfolding build_switch_bindings convert_switch_binding convert_all all_new contains into_key
    SwitchKey-discrete
two_alts = refl

same_alt :
    build_switch_bindings (some (SwitchKey.left_alt ∷ SwitchKey.left_alt ∷ [])) none
    ≡ err (duplicate_keys switch_keys)
unfolding build_switch_bindings convert_switch_binding convert_all all_new contains into_key
    SwitchKey-discrete
same_alt = refl

build_switch_bindings-AreConverted_example :
    ((bs : List SwitchBinding)
      → build_switch_bindings (some alts) none ≡ ok bs
      → (is_empty bs ≡ false) × AreConverted (chords (some alts) none) bs)
    × (is_empty (chords (some alts) none) ≡ false
        → All IsUsable (chords (some alts) none)
        → (bs : List SwitchBinding) × (build_switch_bindings (some alts) none ≡ ok bs))
build_switch_bindings-AreConverted_example = build_switch_bindings-AreConverted (some alts) none

abbrev plain : Platform
plain = record { canonicalize = λ p. none; to_str = λ n. some n; is_blank = λ n. is_empty n }

abbrev usb_keyboards : DeviceGroup
usb_keyboards = record {
  name = 7 ∷ [];
  candidates =
      record {
        matcher = record {
          path = none;
          name = none;
          origin = some physical;
          bustype = some 3;
          vendor = none;
          product = none;
          version = none;
        };
        grab_delay_ms = none;
      }
      ∷ [];
}

abbrev usb_keyboard : DeviceInfo
usb_keyboard = record {
  path = 1 ∷ [];
  sysfs_path = 1 ∷ [];
  origin = physical;
  name = 2 ∷ [];
  bustype = 3;
  vendor = 1;
  product = 2;
  version = 3;
  capabilities = record { key = true; relative = false; absolute = false };
}

validate_device_policy-IsAcceptable_example :
    (validate_device_policy plain none (some (usb_keyboards ∷ [])) ≡ none)
    ↔ IsAcceptable plain none (some (usb_keyboards ∷ []))
validate_device_policy-IsAcceptable_example =
    validate_device_policy-IsAcceptable plain none (some (usb_keyboards ∷ []))

usb_is_valid : validate_device_policy plain none (some (usb_keyboards ∷ [])) ≡ none
unfolding validate_device_policy check_groups has_no_field contains
usb_is_valid = refl

abbrev first_of_first : Selection
first_of_first = record { group = some 0; rule = 0 }

usb_is_selected :
    selection (monitor_policy plain none (some (usb_keyboards ∷ []))) usb_keyboard
    ≡ some first_of_first
unfolding selection monitor_policy first_rule position group_policy candidate_policy matches
    has_no_field path_matches DeviceOrigin-discrete
usb_is_selected = refl

selection-Fits_example :
    (i : ℕ) × (g : DeviceGroup) × (c : DeviceCandidate) × (first_of_first.group ≡ some i)
    × (get_elem? (usb_keyboards ∷ []) i ≡ some g)
    × (get_elem? g.candidates first_of_first.rule ≡ some c)
    × Fits plain c.matcher usb_keyboard
selection-Fits_example =
    selection-Fits plain none (usb_keyboards ∷ []) usb_keyboard first_of_first usb_is_selected
