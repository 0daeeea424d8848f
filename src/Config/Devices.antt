-- ===== src/Config/Devices.antt =====
-- rkvm-server/src/config.rs and main.rs: which devices the configuration is about, the check of that
-- part by `validate_device_policy`, and the policy that server.rs makes of it for the monitor. What
-- Rust's library and the file system say of names and paths is an argument.
use rkvm.Prelude.{
  ℕ, ℕ_eq, Bool, true, false, ◌&&◌, ◌||◌, not, List, [], ◌∷◌, map, Option, none, some, ◌==◌, ◌=?◌,
  if◌then◌else◌, is_some,
}
use rkvm.Collections.Set.{contains, is_empty}
use rkvm.Input.Device.{FilePath, FilePath_eq, DeviceOrigin, DeviceOrigin_eq, DeviceInfo}
use rkvm.Monitor.Policy.{CandidatePolicy, GroupPolicy, Policy, legacy, groups}

-- `canonicalize` of a path, `to_str` of the bytes of a name, and whether a text is blank (`trim` leaves
-- nothing of it).
pub record Platform : Type 0 where
  pub canonicalize : FilePath → Option FilePath
  pub to_str : List ℕ → Option (List ℕ)
  pub is_blank : List ℕ → Bool

pub record DeviceMatch : Type 0 where
  pub path : Option FilePath
  pub name : Option (List ℕ)
  pub origin : Option DeviceOrigin
  pub bustype : Option ℕ
  pub vendor : Option ℕ
  pub product : Option ℕ
  pub version : Option ℕ

pub record DeviceCandidate : Type 0 where
  pub matcher : DeviceMatch
  pub grab_delay_ms : Option ℕ

pub record DeviceGroup : Type 0 where
  pub name : List ℕ
  pub candidates : List DeviceCandidate

-- `DeviceMatch::is_empty`
unfoldable pub has_no_field : DeviceMatch → Bool
has_no_field m =
    not (is_some m.path)
    && not (is_some m.name)
    && not (is_some m.origin)
    && not (is_some m.bustype)
    && not (is_some m.vendor)
    && not (is_some m.product)
    && not (is_some m.version)

-- `map_or(true, p)`
abbrev pub true_or {ℓ} : {A : Type ℓ} → (A → Bool) → Option A → Bool
true_or p none = true
true_or p (some a) = p a

abbrev pub same_path : Option FilePath → Option FilePath → Bool
same_path (some p) (some q) = p =? q
same_path (some p) none = false
same_path none q = false

abbrev pub is_text : List ℕ → Option (List ℕ) → Bool
is_text name none = false
is_text name (some text) = text =? name

module _ (platform : Platform) where
  unfoldable pub path_matches : FilePath → FilePath → Bool
  path_matches configured candidate =
      (configured =? candidate)
      || same_path (platform.canonicalize configured) (platform.canonicalize candidate)

  unfoldable pub matches : DeviceMatch → DeviceInfo → Bool
  unfolding path_matches
  matches m device =
      not (has_no_field m)
      && (true_or (λ path. path_matches path device.path) m.path
          && true_or (λ name. is_text name (platform.to_str device.name)) m.name
          && true_or (λ origin. device.origin =? origin) m.origin
          && true_or (λ bustype. device.bustype == bustype) m.bustype
          && true_or (λ vendor. device.vendor == vendor) m.vendor
          && true_or (λ product. device.product == product) m.product
          && true_or (λ version. device.version == version) m.version)

  -- The policy of the monitor, as `run` makes it.
  abbrev or_default : Option ℕ → ℕ
  or_default none = 0
  or_default (some n) = n

  unfoldable pub candidate_policy : DeviceCandidate → CandidatePolicy
  candidate_policy c = record {
    matcher = matches c.matcher;
    exact_path = c.matcher.path;
    grab_delay = or_default c.grab_delay_ms;
  }

  unfoldable pub group_policy : DeviceGroup → GroupPolicy
  group_policy g = record { name = g.name; candidates = map candidate_policy g.candidates }

  abbrev any_matches : List DeviceMatch → DeviceInfo → Bool
  any_matches [] device = false
  any_matches (m ∷ ms) device = matches m device || any_matches ms device

  unfoldable pub monitor_policy : Option (List DeviceMatch) → Option (List DeviceGroup) → Policy
  monitor_policy whitelist (some gs) = groups (map group_policy gs)
  monitor_policy (some whitelist) none = legacy (any_matches whitelist)
  monitor_policy none none = legacy (λ device. true)

pub data PolicyError : Type 0 where
  exclusive empty_entry no_groups blank_name : PolicyError
  duplicate_name : List ℕ → PolicyError
  no_candidates : List ℕ → PolicyError
  empty_candidate : List ℕ → PolicyError

-- `none` where the check succeeds.
abbrev pub Verdict : Type 0
Verdict = Option PolicyError

abbrev pub any_empty : List DeviceMatch → Bool
any_empty [] = false
any_empty (m ∷ ms) = has_no_field m || any_empty ms

abbrev pub whitelist_has_empty : Option (List DeviceMatch) → Bool
whitelist_has_empty none = false
whitelist_has_empty (some ms) = any_empty ms

module _ (platform : Platform) where
  -- The loop over the groups, with the names that it has seen.
  unfoldable pub check_groups : List (List ℕ) → List DeviceGroup → Verdict
  check_groups seen [] = none
  check_groups seen (g ∷ gs) =
      let rest = check_groups (g.name ∷ seen) gs in
      if platform.is_blank g.name
      then some blank_name
      else if contains g.name seen
      then some (duplicate_name g.name)
      else if is_empty g.candidates
      then some (no_candidates g.name)
      else if any_empty (map (λ c. c.matcher) g.candidates)
      then some (empty_candidate g.name)
      else rest

  abbrev pub checked_groups : Option (List DeviceGroup) → Verdict
  checked_groups none = none
  checked_groups (some gs) = if is_empty gs then some no_groups else check_groups [] gs

  unfoldable pub validate_device_policy :
      Option (List DeviceMatch) → Option (List DeviceGroup) → Verdict
  validate_device_policy whitelist gs =
      if is_some whitelist && is_some gs
      then some exclusive
      else if whitelist_has_empty whitelist
      then some empty_entry
      else checked_groups gs
