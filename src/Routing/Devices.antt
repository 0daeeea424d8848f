-- ===== src/Routing/Devices.antt =====
-- rkvm-server/src/routing.rs: theorems on the soundness of `new`, `add_device`, `reset_device` and
-- `remove_device`.
use rkvm.Prelude.{
  ℕ, zero, suc, ◌≡◌, refl, Bool, true, false, ◌||◌, List, [], ◌∷◌, map, Option, some, arith, inl,
  inr, ◌=?◌, ℕ_eq, get_elem?, Option-cases, Bool-cases, subst, sym, ◌≢◌, if◌then◌else◌, ◌+◌,
}
use rkvm.Collections.Map
use rkvm.Collections.Map.{keys}
use rkvm.Collections.Set.{contains, is_subset}
use rkvm.Input.Key.{Key, Key_eq}
use rkvm.Routing.Router.{
  Router, Route, SwitchBinding, recovery, keys_of, is_active_trigger, is_unpropagated,
  is_reset_blocked, position, reconcile_device, new, add_device, reset_device, remove_device,
  pressed_key_union,
}
use rkvm.Routing.Frame.{is_blocked, is_swallowed}
use rkvm.Routing.Held.{keys_of-remove}
use rkvm.Routing.Outputs.{Outputs, apply_actions}
use rkvm.Routing.Invariant.{is_held, IsSound, clear_inactive_binding-IsSound}
use rkvm.Routing.Recovery.{recovered, recovered-IsSound}

-- No key is down on any output.
abbrev pub all_off : Outputs
all_off route d k = false

get_elem?-trigger :
    (bs : List SwitchBinding) (i : ℕ) (b : SwitchBinding)
    → get_elem? bs i ≡ some b
    → contains b.trigger (map (λ b. b.trigger) bs) ≡ true
unfolding contains
get_elem?-trigger [] i b h = cc
get_elem?-trigger (x ∷ bs) zero b h = ground arith
get_elem?-trigger (x ∷ bs) (suc i) b h = ground (arith, get_elem?-trigger bs i b h)

-- A new router is sound while no key is down on an output.
pub new-IsSound :
    (bs : List SwitchBinding) (propagate consume : Bool)
    → IsSound (new bs propagate consume) all_off
unfolding new is_blocked keys_of Map.get contains
new-IsSound bs propagate consume = record {
  valid = record {
    physical = tt;
    blocked = tt;
    blocked_held = λ d k h. cc;
    triggers = get_elem?-trigger bs;
    active = λ i h. cc;
  };
  on = λ route d k h. cc;
}

active_trigger_mem :
    (r : Router) (k : Key)
    → ((i : ℕ) (b : SwitchBinding)
        → get_elem? r.bindings i ≡ some b
        → contains b.trigger r.trigger_keys ≡ true)
    → contains k r.trigger_keys ≡ false
    → is_active_trigger r k ≡ false
unfolding is_active_trigger
active_trigger_mem r k triggers h = elim (Option-cases r.active_binding) [
  | inl e ↦ ground arith
  | inr (i, e) ↦ elim (Option-cases (get_elem? r.bindings i)) [
    | inl e' ↦ ground arith
    | inr (b, e') ↦ ground (arith, triggers i b e')
  ]
]

-- Where the router is sound for the outputs and its route is available, an added device keeps it
-- sound, once the actions are applied, if every held key of the device that is not propagated is a
-- trigger.
pub add_device-IsSound :
    (r : Router) (d : ℕ) (pressed : List Key) (routes : List Route) (out : Outputs)
    → IsSound r out
    → contains r.current routes ≡ true
    → ((k : Key)
        → contains k pressed ≡ true
        → is_unpropagated r k ≡ true
        → contains k r.trigger_keys ≡ true)
    → IsSound
        (add_device r d pressed routes).0
        (apply_actions out (add_device r d pressed routes).1)
unfolding add_device is_swallowed
add_device-IsSound r d pressed routes out s available propagated =
    recovered-IsSound r d pressed r.active_binding
      (λ k. contains k r.trigger_keys || contains k r.consumed_buttons) routes out s available
      s.valid.active
      (λ k h free unconsumed.
        (ground (arith, propagated k), active_trigger_mem r k s.valid.triggers (ground arith)))
      (λ d' k other held free untriggered. untriggered)

position_lem :
    (p : SwitchBinding → Bool) (i : ℕ) (bs : List SwitchBinding) (j : ℕ)
    → position i p bs ≡ some j
    → (n : ℕ) × (j ≡ i + n) × ((b : SwitchBinding) × (get_elem? bs n ≡ some b) × (p b ≡ true))
unfolding position
position_lem p i [] j h = cc
position_lem p i (b ∷ bs) j h = elim (Bool-cases (p b)) [
  | inl e ↦ (0, ground arith, (b, refl, e))
  | inr e ↦
      let (n, eq, found) = position_lem p (suc i) bs j (ground arith) in (suc n, omega arith, found)
]

-- The index of a satisfied binding is an index into the bindings.
position_in_range :
    (p : SwitchBinding → Bool) (bs : List SwitchBinding) (j : ℕ)
    → position 0 p bs ≡ some j
    → (b : SwitchBinding) × (get_elem? bs j ≡ some b)
position_in_range p bs j h =
    let (n, eq, (b, found, _)) = position_lem p 0 bs j h in
    let same : j ≡ n = omega arith in (b, subst (λ m. get_elem? bs m ≡ some b) (sym same) found)

abbrev pub found_binding : Router → ℕ → List Key → Option ℕ
found_binding r d pressed =
    position 0 (λ b. is_subset b.keys (pressed_key_union (Map.insert d pressed r.physical_keys)))
      r.bindings

abbrev pub reset_test : Router → ℕ → List Key → Key → Bool
reset_test r d pressed = is_reset_blocked (record r {
  physical_keys = Map.insert d pressed r.physical_keys;
  active_binding = found_binding r d pressed;
})

pub reset_device_shape :
    (r : Router) (d : ℕ) (pressed : List Key) (routes : List Route)
    → reset_device r d pressed routes ≡ (
        let r' = recovered r d pressed (found_binding r d pressed) (reset_test r d pressed) in
        (r', reconcile_device r' d routes recovery))
unfolding reset_device keys_of
reset_device_shape r d pressed routes = rw (held_now, keys_of)
  where
    held_now : Map.get d (Map.insert d pressed r.physical_keys) ≡ some pressed
    held_now = ground (arith, Map.get-insert d d pressed r.physical_keys)

reset_free :
    (r : Router) (k : Key)
    → is_reset_blocked r k ≡ false
    → (is_unpropagated r k ≡ true → contains k r.trigger_keys ≡ true)
    → (is_swallowed r k ≡ false) × (is_active_trigger r k ≡ false)
unfolding is_reset_blocked is_swallowed is_active_trigger
reset_free r k free propagated = elim (Option-cases r.active_binding) [
  | inl e ↦ ground arith
  | inr (i, e) ↦ ground arith
]

-- Where the router is sound for the outputs and its route is available, a resynchronised device
-- keeps it sound, once the actions are applied, if every held key of the device that is not
-- propagated is a trigger and no other device holds a trigger that is not blocked.
pub reset_device-IsSound :
    (r : Router) (d : ℕ) (pressed : List Key) (routes : List Route) (out : Outputs)
    → IsSound r out
    → contains r.current routes ≡ true
    → ((k : Key)
        → contains k pressed ≡ true
        → is_unpropagated r k ≡ true
        → contains k r.trigger_keys ≡ true)
    → ((d' : ℕ) (k : Key)
        → d ≢ d'
        → is_held r d' k ≡ true
        → is_blocked r d' k ≡ false
        → contains k r.trigger_keys ≡ false)
    → IsSound
        (reset_device r d pressed routes).0
        (apply_actions out (reset_device r d pressed routes).1)
unfolding is_swallowed is_unpropagated is_active_trigger
reset_device-IsSound r d pressed routes out s available propagated alone =
    let found = found_binding r d pressed in
    let r' : Router = record r {
      physical_keys = Map.insert d pressed r.physical_keys;
      active_binding = found;
    } in
    rw (reset_device_shape r d pressed routes) (
      recovered-IsSound r d pressed found (reset_test r d pressed) routes out s available
        (position_in_range _ r.bindings)
        (λ k h free unconsumed. reset_free r' k free (propagated k h))
        (λ d' k other held free untriggered.
          active_trigger_mem r' k s.valid.triggers (alone d' k other held free)))

-- The outputs without a device: the clients and the local writer destroy it.
unfoldable pub drop_device : ℕ → Outputs → Outputs
drop_device d out route d' k = if d =? d' then false else out route d' k

removed-IsSound :
    (r : Router) (d : ℕ) (out : Outputs)
    → IsSound r out
    → IsSound
        (record r {
          physical_keys = Map.remove d r.physical_keys;
          blocked_keys = Map.remove d r.blocked_keys;
        })
        (drop_device d out)
unfolding drop_device is_held is_blocked is_swallowed is_active_trigger is_unpropagated
removed-IsSound r d out s = record {
  valid = record {
    physical = Map.remove-Distinct d r.physical_keys s.valid.physical;
    blocked = Map.remove-Distinct d r.blocked_keys s.valid.blocked;
    blocked_held = λ d' k h. ground (
      arith,
      keys_of-remove k d d' r.physical_keys s.valid.physical,
      keys_of-remove k d d' r.blocked_keys s.valid.blocked,
      s.valid.blocked_held d' k,
    );
    triggers = s.valid.triggers;
    active = s.valid.active;
  };
  on = λ route d' k h. ground (
    arith,
    keys_of-remove k d d' r.physical_keys s.valid.physical,
    keys_of-remove k d d' r.blocked_keys s.valid.blocked,
    s.on route d' k,
  );
}

pub remove_device-IsSound :
    (r : Router) (d : ℕ) (out : Outputs)
    → IsSound r out
    → IsSound (remove_device r d) (drop_device d out)
unfolding remove_device
remove_device-IsSound r d out s =
    clear_inactive_binding-IsSound _ (drop_device d out) (removed-IsSound r d out s)
