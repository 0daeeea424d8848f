-- ===== src/Config/Accepted.antt =====
-- rkvm-server/src/main.rs: which configurations `validate_device_policy` accepts.
use rkvm.Prelude.{
  ℕ, ◌≡◌, refl, ◌↔◌, true, false, List, [], ◌∷◌, map, Option, none, some, arith, All,
}
use rkvm.Collections.Set.{is_empty}
use rkvm.Collections.Distinct.{
  AreDistinct, all_new, all_new-AreDistinct, AreDistinct-all_new, nothing_seen,
}
use rkvm.Input.Device.{FilePath_eq}
use rkvm.Config.Devices.{
  Platform, DeviceMatch, DeviceGroup, has_no_field, any_empty, check_groups, validate_device_policy,
}

abbrev pub HasField : DeviceMatch → Type 0
HasField m = has_no_field m ≡ false

any_empty-none : (ms : List DeviceMatch) → (any_empty ms ≡ false) ↔ All HasField ms
any_empty-none [] = (λ h. tt, λ h. refl)
any_empty-none (m ∷ ms) =
    let (there, back) = any_empty-none ms in
    (λ h. (ground arith, there (ground arith)), λ (p, h). ground (arith, p, back h))

module _ (platform : Platform) where
  -- A group with a name, with candidates, and with a field in each of them.
  abbrev pub IsGroup : DeviceGroup → Type 0
  IsGroup g =
      (platform.is_blank g.name ≡ false)
      × (is_empty g.candidates ≡ false)
      × All HasField (map (λ c. c.matcher) g.candidates)

  abbrev pub AreGroups : List DeviceGroup → Type 0
  AreGroups gs = (is_empty gs ≡ false) × All IsGroup gs × AreDistinct (map (λ g. g.name) gs)

  abbrev pub IsAcceptable : Option (List DeviceMatch) → Option (List DeviceGroup) → Type 0
  IsAcceptable none none = Unit
  IsAcceptable (some ms) none = All HasField ms
  IsAcceptable none (some gs) = AreGroups gs
  IsAcceptable (some ms) (some gs) = ⊥

  check_groups-AreGroups :
      (seen : List (List ℕ)) (gs : List DeviceGroup)
      → check_groups platform seen gs ≡ none
      → All IsGroup gs × (all_new seen (map (λ g. g.name) gs) ≡ true)
  unfolding check_groups all_new
  check_groups-AreGroups seen [] h = (tt, refl)
  check_groups-AreGroups seen (g ∷ gs) h =
      let (rest, new_names) = check_groups-AreGroups (g.name ∷ seen) gs (ground arith) in
      (
        (
          (
            ground arith,
            ground arith,
            (any_empty-none (map (λ c. c.matcher) g.candidates)).0 (ground arith),
          ),
          rest,
        ),
        ground (arith, new_names),
      )

  AreGroups-check_groups :
      (seen : List (List ℕ)) (gs : List DeviceGroup)
      → All IsGroup gs
      → all_new seen (map (λ g. g.name) gs) ≡ true
      → check_groups platform seen gs ≡ none
  unfolding check_groups all_new
  AreGroups-check_groups seen [] h n = refl
  AreGroups-check_groups seen (g ∷ gs) ((named, full, fields), h) n =
      let rest = AreGroups-check_groups (g.name ∷ seen) gs h (ground arith) in
      let no_empty = (any_empty-none (map (λ c. c.matcher) g.candidates)).1 fields in
      ground (arith, rest, no_empty)

  -- The check of the device policy succeeds exactly where the configuration does not have both a
  -- whitelist and groups, each entry of the whitelist has a field, and, if there are groups, there is at
  -- least one, their names are not blank and differ, and each has candidates, all with a field.
  pub validate_device_policy-IsAcceptable :
      (whitelist : Option (List DeviceMatch)) (gs : Option (List DeviceGroup))
      → (validate_device_policy platform whitelist gs ≡ none) ↔ IsAcceptable whitelist gs
  unfolding validate_device_policy
  validate_device_policy-IsAcceptable none none = (λ h. tt, λ h. refl)
  validate_device_policy-IsAcceptable (some ms) none =
      (λ h. (any_empty-none ms).0 (ground arith), λ h. ground (arith, (any_empty-none ms).1 h))
  validate_device_policy-IsAcceptable none (some gs) = (
    λ h.
        let (fine, new_names) = check_groups-AreGroups [] gs (ground arith) in
        (ground arith, fine, (all_new-AreDistinct [] (map (λ g. g.name) gs) new_names).1),
    λ (full, fine, distinct).
        let checked = AreGroups-check_groups [] gs fine (
          AreDistinct-all_new [] (map (λ g. g.name) gs) (nothing_seen (map (λ g. g.name) gs))
            distinct) in
        ground (arith, checked, full),
  )
  validate_device_policy-IsAcceptable (some ms) (some gs) = (λ h. absurd cc, λ h. absurd h)
