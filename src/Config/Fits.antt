-- ===== src/Config/Fits.antt =====
-- rkvm-server/src/config.rs: `DeviceMatch::matches` by the fields that are set, and the devices that the
-- monitor of rkvm-input/src/monitor.rs selects under the configured groups.
use rkvm.Prelude.{
  ℕ, zero, suc, ℕ_eq, ◌≡◌, refl, ◌↔◌, Bool, true, List, [], ◌∷◌, map, Option, none, some, arith,
  get_elem?, ap, ◌∙◌, sym, ◌=?◌, ◌==◌, Option-cases, inl, inr,
}
use mathlib.Core.Option.{some-injective}
use rkvm.Input.Device.{FilePath, DeviceInfo, DeviceOrigin_eq, FilePath_eq}
use rkvm.Monitor.Policy.{CandidatePolicy, Selection, selection, rule_at}
use rkvm.Monitor.First.{selection-IsFirst}
use rkvm.Config.Devices.{
  Platform, DeviceMatch, DeviceCandidate, DeviceGroup, true_or, is_text, path_matches, matches,
  candidate_policy, group_policy, monitor_policy,
}
use rkvm.Config.Accepted.{HasField}

true_or-all :
    {A : Type 0} (p : A → Bool) (o : Option A)
    → (true_or p o ≡ true) ↔ ((a : A) → o ≡ some a → p a ≡ true)
true_or-all p none = (λ h a e. absurd cc, λ h. refl)
true_or-all p (some a) = (λ h b e. ap p (sym (some-injective a b e)) ∙ h, λ h. h a refl)

module _ (platform : Platform) where
  -- At least one field is set, and the device has what each field that is set says.
  abbrev pub Fits : DeviceMatch → DeviceInfo → Type 0
  Fits m d =
      HasField m
      × ((p : FilePath) → m.path ≡ some p → path_matches platform p d.path ≡ true)
      × ((n : List ℕ) → m.name ≡ some n → is_text n (platform.to_str d.name) ≡ true)
      × ((o : _) → m.origin ≡ some o → (d.origin =? o) ≡ true)
      × ((b : ℕ) → m.bustype ≡ some b → (d.bustype == b) ≡ true)
      × ((v : ℕ) → m.vendor ≡ some v → (d.vendor == v) ≡ true)
      × ((p : ℕ) → m.product ≡ some p → (d.product == p) ≡ true)
      × ((v : ℕ) → m.version ≡ some v → (d.version == v) ≡ true)

  matches-Fits : (m : DeviceMatch) (d : DeviceInfo) → matches platform m d ≡ true → Fits m d
  unfolding matches
  matches-Fits m d h = (
    ground arith,
    (true_or-all (λ path. path_matches platform path d.path) m.path).0 (ground arith),
    (true_or-all (λ name. is_text name (platform.to_str d.name)) m.name).0 (ground arith),
    (true_or-all (λ origin. d.origin =? origin) m.origin).0 (ground arith),
    (true_or-all (λ bustype. d.bustype == bustype) m.bustype).0 (ground arith),
    (true_or-all (λ vendor. d.vendor == vendor) m.vendor).0 (ground arith),
    (true_or-all (λ product. d.product == product) m.product).0 (ground arith),
    (true_or-all (λ version. d.version == version) m.version).0 (ground arith),
  )

get_elem?-map :
    {A B : Type 0} (f : A → B) (xs : List A) (i : ℕ) (b : B)
    → get_elem? (map f xs) i ≡ some b
    → (a : A) × (get_elem? xs i ≡ some a) × (f a ≡ b)
get_elem?-map f [] i b h = absurd cc
get_elem?-map f (x ∷ xs) zero b h = (x, refl, some-injective (f x) b h)
get_elem?-map f (x ∷ xs) (suc i) b h = get_elem?-map f xs i b h

module _ (platform : Platform) where
  rule_at-found :
      (gs : List DeviceGroup) (i rule : ℕ) (c : CandidatePolicy)
      → rule_at (map (group_policy platform) gs) i rule ≡ some c
      → (g : DeviceGroup) × (d : DeviceCandidate) × (get_elem? gs i ≡ some g)
        × (get_elem? g.candidates rule ≡ some d)
        × (candidate_policy platform d ≡ c)
  unfolding rule_at group_policy
  rule_at-found gs i rule c h = elim (Option-cases (get_elem? (map (group_policy platform) gs) i)) [
    | inl e ↦ absurd (ground arith)
    | inr (p, e) ↦
        let (g, found, same) = get_elem?-map (group_policy platform) gs i p e in
        let there : get_elem? (map (candidate_policy platform) g.candidates) rule ≡ some c =
          ap (λ q. get_elem? q.candidates rule) same ∙ (ground arith) in
        let (d, at, policy) = get_elem?-map (candidate_policy platform) g.candidates rule c there in
        (g, d, found, at, policy)
  ]

  -- A device that the monitor selects under configured groups has at least one field, and what each field
  -- that is set says, of the candidate of the configuration which the selection names by the places of
  -- its group and of itself.
  pub selection-Fits :
      (whitelist : Option (List DeviceMatch)) (gs : List DeviceGroup) (info : DeviceInfo)
      (s : Selection)
      → selection (monitor_policy platform whitelist (some gs)) info ≡ some s
      → (i : ℕ) × (g : DeviceGroup) × (c : DeviceCandidate) × (s.group ≡ some i)
        × (get_elem? gs i ≡ some g)
        × (get_elem? g.candidates s.rule ≡ some c)
        × Fits platform c.matcher info
  unfolding monitor_policy candidate_policy
  selection-Fits whitelist gs info s h =
      let ((j, p, group, there, fine, before), again) =
        (selection-IsFirst (map (group_policy platform) gs) info).0 s h in
      let (g, c, found, at, policy) = rule_at-found gs j s.rule p there in
      (
        j,
        g,
        c,
        group ∙ ap some (omega arith),
        found,
        at,
        matches-Fits platform c.matcher info (ap (λ q. q.matcher info) policy ∙ fine),
      )
