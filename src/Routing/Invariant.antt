-- ===== src/Routing/Invariant.antt =====
-- rkvm-server/src/routing.rs: when a `Router` is well formed, and when no output holds a key that
-- it should not hold.
use rkvm.Prelude.{
  ℕ, ◌≡◌, refl, Bool, true, false, none, some, arith, ◌⊎◌, inl, inr, get_elem?, ℕ_eq, subst, sym,
}
use rkvm.Collections.Set.{contains}
use rkvm.Collections.Map.{Distinct}
use rkvm.Input.Key.{Key, Key_eq}
use rkvm.Routing.Router.{
  Router, SwitchBinding, keys_of, is_active_trigger, is_unpropagated, rearm_after_trigger_release,
  clear_inactive_binding,
}
use rkvm.Routing.Frame.{is_blocked, is_swallowed}
use rkvm.Routing.Outputs.{Outputs}

unfoldable pub is_held : Router → ℕ → Key → Bool
is_held r d k = contains k (keys_of d r.physical_keys)

-- The maps have one entry for a device, blocked keys are held, every trigger is a trigger key, and
-- the active binding is an index into the bindings, so that no lookup of it panics.
pub record IsValid (r : Router) : Type 0 where
  pub physical : Distinct r.physical_keys
  pub blocked : Distinct r.blocked_keys
  pub blocked_held : (d : ℕ) (k : Key) → is_blocked r d k ≡ true → is_held r d k ≡ true
  pub triggers :
      (i : ℕ) (b : SwitchBinding)
      → get_elem? r.bindings i ≡ some b
      → contains b.trigger r.trigger_keys ≡ true
  pub active :
      (i : ℕ) → r.active_binding ≡ some i → (b : SwitchBinding) × (get_elem? r.bindings i ≡ some b)

-- A key that is down on an output: the output is the current one, the key is held on the device,
-- and neither blocked, swallowed, nor the trigger of the active binding.
pub record OnKey (r : Router) (route d : ℕ) (k : Key) : Type 0 where
  pub current : route ≡ r.current
  pub held : is_held r d k ≡ true
  pub unblocked : is_blocked r d k ≡ false
  pub passed : is_swallowed r k ≡ false
  pub untriggered : is_active_trigger r k ≡ false

abbrev pub NoStuckKeys : Router → Outputs → Type 0
NoStuckKeys r out = (route d : ℕ) (k : Key) → out route d k ≡ true → OnKey r route d k

-- Both facts, as every step keeps them.
pub record IsSound (r : Router) (out : Outputs) : Type 0 where
  pub valid : IsValid r
  pub on : NoStuckKeys r out

abbrev pub disarmed : Router → Router
disarmed r = record r { active_binding = none }

pub disarmed-IsSound : (r : Router) (out : Outputs) → IsSound r out → IsSound (disarmed r) out
unfolding is_held is_blocked is_swallowed is_active_trigger is_unpropagated
disarmed-IsSound r out s = record {
  valid = record {
    physical = s.valid.physical;
    blocked = s.valid.blocked;
    blocked_held = s.valid.blocked_held;
    triggers = s.valid.triggers;
    active = λ i h. cc;
  };
  on = λ route d k h.
      let o = s.on route d k h in
      record {
        current = o.current;
        held = o.held;
        unblocked = o.unblocked;
        passed = o.passed;
        untriggered = refl;
      };
}

clear-cases :
    (r : Router) → (clear_inactive_binding r ≡ r) ⊎ (clear_inactive_binding r ≡ disarmed r)
unfolding clear_inactive_binding
clear-cases r = ground arith

rearm-cases :
    (r : Router) (k : Key)
    → (rearm_after_trigger_release r k ≡ r) ⊎ (rearm_after_trigger_release r k ≡ disarmed r)
unfolding rearm_after_trigger_release
rearm-cases r k = ground arith

pub clear_inactive_binding-IsSound :
    (r : Router) (out : Outputs) → IsSound r out → IsSound (clear_inactive_binding r) out
clear_inactive_binding-IsSound r out s = elim (clear-cases r) [
  | inl e ↦ subst (λ x. IsSound x out) (sym e) s
  | inr e ↦ subst (λ x. IsSound x out) (sym e) (disarmed-IsSound r out s)
]

pub rearm_after_trigger_release-IsSound :
    (r : Router) (k : Key) (out : Outputs)
    → IsSound r out
    → IsSound (rearm_after_trigger_release r k) out
rearm_after_trigger_release-IsSound r k out s = elim (rearm-cases r k) [
  | inl e ↦ subst (λ x. IsSound x out) (sym e) s
  | inr e ↦ subst (λ x. IsSound x out) (sym e) (disarmed-IsSound r out s)
]
