-- ===== src/Routing/Keys.antt =====
-- rkvm-server/src/routing.rs: a press or release keeps the router sound on each branch of the
-- loop of `process_frame` that does not switch routes.
use rkvm.Prelude.{
  ℕ, ◌≡◌, refl, Bool, true, false, ◌&&◌, arith, ◌⊎◌, inl, inr, ◌=?◌, ℕ_eq, Option-cases, subst, sym,
}
use rkvm.Collections.Map
use rkvm.Input.Key.{Key, Key_eq}
use rkvm.Input.Event.{Event}
use rkvm.Routing.Router.{
  Router, is_active_trigger, is_unpropagated, update_physical_key, unblock_key,
}
use rkvm.Routing.Frame.{is_blocked, is_swallowed}
use rkvm.Routing.Held.{
  keys_of-update_physical_key, update_physical_key-Distinct, keys_of-unblock_key,
  unblock_key-Distinct,
}
use rkvm.Routing.Outputs.{Outputs, apply_event}
use rkvm.Routing.Invariant.{is_held, IsValid, IsSound}

-- `update_physical_key` changes only what is held.
pub is_held-update :
    (r : Router) (d : ℕ) (k : Key) (down : Bool) (d' : ℕ) (k' : Key)
    → is_held (update_physical_key r d k down) d' k'
      ≡ elim ((d =? d') && (k =? k')) [ true ↦ down | false ↦ is_held r d' k' ]
unfolding is_held
is_held-update r d k down d' k' = ground (arith, keys_of-update_physical_key r d k down d' k')

unblock_key_shape :
    (r : Router) (d : ℕ) (k : Key)
    → unblock_key r d k ≡ record r { blocked_keys = (unblock_key r d k).blocked_keys }
unfolding unblock_key
unblock_key_shape r d k = elim (Option-cases (Map.get d r.blocked_keys)) [
  | inl e ↦ rw (e, unblock_key)
  | inr (ks, e) ↦ rw (e, unblock_key)
]

update-IsValid :
    (r : Router) (d : ℕ) (k : Key) (down : Bool)
    → IsValid r
    → (down ≡ true) ⊎ (is_blocked r d k ≡ false)
    → IsValid (update_physical_key r d k down)
unfolding update_physical_key is_blocked
update-IsValid r d k down v free = record {
  physical = update_physical_key-Distinct r d k down v.physical;
  blocked = v.blocked;
  blocked_held = λ d' k' h. ground (arith, is_held-update r d k down d' k', v.blocked_held d' k');
  triggers = v.triggers;
  active = v.active;
}

-- A press that the outputs do not see.
pub press-IsSound :
    (r : Router) (d : ℕ) (k : Key) (out : Outputs)
    → IsSound r out
    → IsSound (update_physical_key r d k true) out
unfolding update_physical_key is_blocked is_swallowed is_active_trigger is_unpropagated
press-IsSound r d k out s = record {
  valid = update-IsValid r d k true s.valid (inl refl);
  on = λ route d' k' h.
      let o = s.on route d' k' h in ground (arith, is_held-update r d k true d' k');
}

-- A release that the outputs do not see, of a key that is down on none of them.
pub release-IsSound :
    (r : Router) (d : ℕ) (k : Key) (out : Outputs)
    → IsSound r out
    → is_blocked r d k ≡ false
    → ((route : ℕ) → out route d k ≡ false)
    → IsSound (update_physical_key r d k false) out
unfolding update_physical_key is_blocked is_swallowed is_active_trigger is_unpropagated
release-IsSound r d k out s free off = record {
  valid = update-IsValid r d k false s.valid (inr free);
  on = λ route d' k' h.
      let o = s.on route d' k' h in ground (arith, is_held-update r d k false d' k', off route);
}

-- A release of a blocked key, which is unblocked.
pub release_blocked-IsSound :
    (r : Router) (d : ℕ) (k : Key) (out : Outputs)
    → IsSound r out
    → is_blocked r d k ≡ true
    → IsSound (unblock_key (update_physical_key r d k false) d k) out
unfolding is_held update_physical_key is_blocked is_swallowed is_active_trigger is_unpropagated
release_blocked-IsSound r d k out s was =
    let r' = update_physical_key r d k false in
    subst (λ x. IsSound x out) (sym (unblock_key_shape r' d k))
      (record {
        valid = record {
          physical = update_physical_key-Distinct r d k false s.valid.physical;
          blocked = unblock_key-Distinct r' d k s.valid.blocked;
          blocked_held = λ d' k' h. ground (
            arith,
            keys_of-update_physical_key r d k false d' k',
            keys_of-unblock_key r' d k d' k' s.valid.blocked,
            s.valid.blocked_held d' k',
          );
          triggers = s.valid.triggers;
          active = s.valid.active;
        };
        on = λ route d' k' h. ground (
          arith,
          keys_of-update_physical_key r d k false d' k',
          keys_of-unblock_key r' d k d' k' s.valid.blocked,
          s.on route d' k' h,
        );
      })

-- A press or release that is passed on to the current route.
pub pass-IsSound :
    (r : Router) (d : ℕ) (k : Key) (down : Bool) (out : Outputs)
    → IsSound r out
    → is_blocked r d k ≡ false
    → is_active_trigger r k ≡ false
    → is_swallowed r k ≡ false
    → IsSound
        (update_physical_key r d k down)
        (apply_event d out (r.current, Event.key (record { key = k; down = down })))
unfolding update_physical_key is_blocked is_swallowed is_active_trigger is_unpropagated apply_event
pass-IsSound r d k down out s free untriggered passed = record {
  valid = update-IsValid r d k down s.valid (inr free);
  on = λ route d' k' h. ground (arith, is_held-update r d k down d' k', s.on route d' k');
}
