-- ===== src/Routing/Removal.antt =====
-- rkvm-server/src/routing.rs: theorems on `remove_device` and `clear_inactive_binding`.
use rkvm.Prelude.{
  ℕ, ◌≡◌, refl, true, false, List, [], ◌∷◌, none, some, arith, ◌=?◌, ℕ_eq, get_elem?, inl, inr,
  Bool-cases, if◌then◌else◌, sym, ◌∙◌,
}
use rkvm.Collections.Map
use rkvm.Collections.Set.{contains, is_disjoint, contains-append, not_disjoint_of_common}
use rkvm.Input.Key.{Key, Key_eq}
use rkvm.Routing.Router.{
  Router, SwitchBinding, keys_of, pressed_key_union, clear_inactive_binding, remove_device,
}
use rkvm.Routing.Frame.{is_blocked}
use rkvm.Routing.Held.{keys_of-remove}
use rkvm.Routing.Outputs.{Outputs}
use rkvm.Routing.Invariant.{is_held, IsSound}
use rkvm.Routing.Devices.{drop_device, remove_device-IsSound}

-- The router without the device: the other devices hold and block what they did, and the active
-- binding stays active just as long as some device holds one of its keys.
pub record IsRemoved (r : Router) (d : ℕ) (r' : Router) : Type 0 where
  pub held : (d' : ℕ) (k : Key) → is_held r' d' k ≡ (if d =? d' then false else is_held r d' k)
  pub blocked :
      (d' : ℕ) (k : Key) → is_blocked r' d' k ≡ (if d =? d' then false else is_blocked r d' k)
  pub current : r'.current ≡ r.current
  pub bindings : r'.bindings ≡ r.bindings
  pub idle : r.active_binding ≡ none → r'.active_binding ≡ none
  pub rearmed :
      (i : ℕ) (b : SwitchBinding)
      → r.active_binding ≡ some i
      → get_elem? r.bindings i ≡ some b
      → ((d' : ℕ) (k : Key) → contains k b.keys ≡ true → is_held r' d' k ≡ false)
      → r'.active_binding ≡ none
  pub still_active :
      (i : ℕ) (b : SwitchBinding) (d' : ℕ) (k : Key)
      → r.active_binding ≡ some i
      → get_elem? r.bindings i ≡ some b
      → contains k b.keys ≡ true
      → is_held r' d' k ≡ true
      → r'.active_binding ≡ some i

union_of_held :
    (m : List (ℕ × List Key)) (d : ℕ) (k : Key)
    → contains k (keys_of d m) ≡ true
    → contains k (pressed_key_union m) ≡ true
unfolding keys_of pressed_key_union Map.get contains
union_of_held [] d k h = h
union_of_held ((j, ks) ∷ m) d k h =
    ground (arith, contains-append k ks (pressed_key_union m), union_of_held m d k)

held_of_union :
    (m : List (ℕ × List Key)) (k : Key)
    → Map.Distinct m
    → contains k (pressed_key_union m) ≡ true
    → (d : ℕ) × (contains k (keys_of d m) ≡ true)
unfolding keys_of pressed_key_union Map.get contains
held_of_union [] k distinct h = absurd cc
held_of_union ((j, ks) ∷ m) k distinct h = elim (Bool-cases (contains k ks)) [
  | inl e ↦ (j, ground arith)
  | inr e ↦
      let (d, there) =
        held_of_union m k distinct.1 (ground (arith, contains-append k ks (pressed_key_union m))) in
      (d, ground arith)
]

common_of_not_disjoint :
    (xs ys : List Key)
    → is_disjoint xs ys ≡ false
    → (k : Key) × (contains k xs ≡ true) × (contains k ys ≡ true)
unfolding is_disjoint contains
common_of_not_disjoint [] ys h = absurd cc
common_of_not_disjoint (x ∷ xs) ys h = elim (Bool-cases (contains x ys)) [
  | inl e ↦ (x, ground arith, e)
  | inr e ↦
      let (k, there, here) = common_of_not_disjoint xs ys (ground arith) in (k, ground arith, here)
]

module _ (r : Router) where
  clear_held : (d : ℕ) (k : Key) → is_held (clear_inactive_binding r) d k ≡ is_held r d k
  unfolding clear_inactive_binding is_held
  clear_held d k = ground arith

  clear_blocked : (d : ℕ) (k : Key) → is_blocked (clear_inactive_binding r) d k ≡ is_blocked r d k
  unfolding clear_inactive_binding is_blocked
  clear_blocked d k = ground arith

  clear_current : (clear_inactive_binding r).current ≡ r.current
  unfolding clear_inactive_binding
  clear_current = ground arith

  clear_bindings : (clear_inactive_binding r).bindings ≡ r.bindings
  unfolding clear_inactive_binding
  clear_bindings = ground arith

  clear_idle : r.active_binding ≡ none → (clear_inactive_binding r).active_binding ≡ none
  unfolding clear_inactive_binding
  clear_idle h = ground arith

  module _ (i : ℕ) (b : SwitchBinding) (active : r.active_binding ≡ some i)
      (found : get_elem? r.bindings i ≡ some b) where
    clear_rearmed :
        Map.Distinct r.physical_keys
        → ((d : ℕ) (k : Key) → contains k b.keys ≡ true → is_held r d k ≡ false)
        → (clear_inactive_binding r).active_binding ≡ none
    unfolding clear_inactive_binding is_held
    clear_rearmed distinct gone =
        elim (Bool-cases (is_disjoint b.keys (pressed_key_union r.physical_keys))) [
          | inl e ↦ rw (active, clear_inactive_binding, found, e) refl
          | inr e ↦
              let (k, there, here) = common_of_not_disjoint b.keys _ e in
              let (d, held) = held_of_union r.physical_keys k distinct here in
              absurd (ground (arith, gone d k there))
        ]

    clear_still_active :
        (d : ℕ) (k : Key)
        → contains k b.keys ≡ true
        → is_held r d k ≡ true
        → (clear_inactive_binding r).active_binding ≡ some i
    unfolding clear_inactive_binding is_held
    clear_still_active d k there held =
        let here = union_of_held r.physical_keys d k held in
        let common =
          not_disjoint_of_common k b.keys (pressed_key_union r.physical_keys) there here in
        rw (active, clear_inactive_binding, found, common) active

remove_device-cleared :
    (r : Router) (d : ℕ) (out : Outputs) → IsSound r out → IsRemoved r d (remove_device r d)
unfolding remove_device is_held is_blocked
remove_device-cleared r d out s =
    let r' : Router = record r {
      physical_keys = Map.remove d r.physical_keys;
      blocked_keys = Map.remove d r.blocked_keys;
    } in
    record {
      held = λ d' k. clear_held r' d' k ∙ keys_of-remove k d d' r.physical_keys s.valid.physical;
      blocked =
          λ d' k. clear_blocked r' d' k ∙ keys_of-remove k d d' r.blocked_keys s.valid.blocked;
      current = clear_current r';
      bindings = clear_bindings r';
      idle = clear_idle r';
      rearmed = λ i b active found gone.
          clear_rearmed r' i b active found (Map.remove-Distinct d r.physical_keys s.valid.physical)
            (λ d' k there. sym (clear_held r' d' k) ∙ gone d' k there);
      still_active = λ i b d' k active found there held.
          clear_still_active r' i b active found d' k there (sym (clear_held r' d' k) ∙ held);
    }

-- Removing a device keeps a sound router sound, once the device is destroyed on the outputs: the
-- device then holds and blocks no key, the other devices hold and block the same keys as before, the
-- current route and the bindings stay, and the active binding is kept where some device still
-- holds one of its keys and is dropped where none does.
pub remove_device-IsRemoved :
    (r : Router) (d : ℕ) (out : Outputs)
    → IsSound r out
    → IsSound (remove_device r d) (drop_device d out) × IsRemoved r d (remove_device r d)
remove_device-IsRemoved r d out s =
    (remove_device-IsSound r d out s, remove_device-cleared r d out s)
