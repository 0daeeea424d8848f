-- ===== src/Routing/Branches.antt =====
-- rkvm-server/src/routing.rs: the soundness of the branches of the loop of `process_frame` for one key
-- event.
use rkvm.Prelude.{
  ℕ, ◌≡◌, Bool, true, false, not, List, [], ◌∷◌, ◌++◌, none, some, arith, inl, inr, ℕ_eq,
  Option-cases, Bool-cases, subst, sym, if◌then◌else◌, is_some,
}
use rkvm.Collections.Set.{contains}
use rkvm.Input.Key.{Key, Key_eq}
use rkvm.Input.Event.{Event}
use rkvm.Routing.Router.{
  Router, Route, is_active_trigger, is_unpropagated, matching_binding, update_physical_key,
  unblock_key, rearm_after_trigger_release, clear_inactive_binding,
}
use rkvm.Routing.Frame.{Loop, is_blocked, is_swallowed, pass_key}
use rkvm.Routing.Outputs.{Outputs}
use rkvm.Routing.Invariant.{
  is_held, IsSound, clear_inactive_binding-IsSound, rearm_after_trigger_release-IsSound,
}
use rkvm.Routing.Keys.{
  is_held-update, press-IsSound, release-IsSound, release_blocked-IsSound, pass-IsSound,
}
use rkvm.Routing.Sound.{
  outputs_of, LoopSound, matching_binding_lem, outputs_of-push, switch_route-LoopSound,
}

clear_current : (r : Router) → (clear_inactive_binding r).current ≡ r.current
unfolding clear_inactive_binding
clear_current r = ground arith

rearm_current : (r : Router) (k : Key) → (rearm_after_trigger_release r k).current ≡ r.current
unfolding rearm_after_trigger_release
rearm_current r k = ground arith

unblock_current : (r : Router) (d : ℕ) (k : Key) → (unblock_key r d k).current ≡ r.current
unfolding unblock_key
unblock_current r d k = ground arith

-- The end of each branch but the switching one.
cleared-LoopSound :
    (d : ℕ) (routes : List Route) (out : Outputs) (s : Loop) (r : Router)
    → IsSound r (outputs_of d out s)
    → contains r.current routes ≡ true
    → LoopSound d routes out (record s { router = clear_inactive_binding r })
unfolding outputs_of
cleared-LoopSound d routes out s r sound available = record {
  sound = clear_inactive_binding-IsSound r _ sound;
  available = rw (clear_current r) available;
}

off_active :
    (out : Outputs) (r : Router) (d : ℕ) (k : Key)
    → IsSound r out
    → is_active_trigger r k ≡ true
    → (route : ℕ) → out route d k ≡ false
off_active out r d k sound active route = ground (arith, sound.on route d k)

off_swallowed :
    (out : Outputs) (r : Router) (d : ℕ) (k : Key)
    → IsSound r out
    → is_swallowed r k ≡ true
    → (route : ℕ) → out route d k ≡ false
off_swallowed out r d k sound swallowed route = ground (arith, sound.on route d k)

module _ (d : ℕ) (routes : List Route) (out : Outputs) (s : Loop) (k : Key) where
  -- The key is blocked.
  pub blocked-LoopSound :
      (down : Bool)
      → LoopSound d routes out s
      → is_blocked s.router d k ≡ true
      → LoopSound d routes out (record s {
        router = clear_inactive_binding (
            if down
            then update_physical_key s.router d k down
            else rearm_after_trigger_release
                (unblock_key (update_physical_key s.router d k down) d k)
                k);
      })
  unfolding update_physical_key
  blocked-LoopSound true l was =
      cleared-LoopSound d routes out s _ (press-IsSound s.router d k _ l.sound) l.available
  blocked-LoopSound false l was =
      cleared-LoopSound d routes out s _
        (rearm_after_trigger_release-IsSound _ k _
          (release_blocked-IsSound s.router d k _ l.sound was))
        (rw (rearm_current, unblock_current) l.available)

  -- The key is the trigger of the active binding.
  pub active-LoopSound :
      (down : Bool)
      → LoopSound d routes out s
      → is_blocked s.router d k ≡ false
      → is_active_trigger s.router k ≡ true
      → LoopSound d routes out (record s {
        router = clear_inactive_binding (
            if down
            then update_physical_key s.router d k down
            else rearm_after_trigger_release (update_physical_key s.router d k down) k);
      })
  unfolding update_physical_key
  active-LoopSound true l free active =
      cleared-LoopSound d routes out s _ (press-IsSound s.router d k _ l.sound) l.available
  active-LoopSound false l free active =
      cleared-LoopSound d routes out s _
        (rearm_after_trigger_release-IsSound _ k _ (
          release-IsSound s.router d k _ l.sound free
            (off_active (outputs_of d out s) s.router d k l.sound active)))
        (rw rearm_current l.available)

  -- The key is swallowed: the outputs see neither its press nor its release.
  swallowed-IsSound :
      (down : Bool)
      → LoopSound d routes out s
      → is_blocked s.router d k ≡ false
      → is_swallowed s.router k ≡ true
      → IsSound (update_physical_key s.router d k down) (outputs_of d out s)
  swallowed-IsSound true l free swallowed = press-IsSound s.router d k _ l.sound
  swallowed-IsSound false l free swallowed =
      release-IsSound s.router d k _ l.sound free
        (off_swallowed (outputs_of d out s) s.router d k l.sound swallowed)

  -- The key is neither blocked, swallowed nor the active trigger.
  emitted-LoopSound :
      (down : Bool)
      → LoopSound d routes out s
      → is_blocked s.router d k ≡ false
      → is_active_trigger s.router k ≡ false
      → is_swallowed s.router k ≡ false
      → LoopSound d routes out (record s {
        router = clear_inactive_binding (update_physical_key s.router d k down);
        pending = s.pending ++ (s.router.current, Event.key (record { key = k; down = down })) ∷ [];
      })
  unfolding update_physical_key
  emitted-LoopSound down l free untriggered passed = record {
    sound = clear_inactive_binding-IsSound (update_physical_key s.router d k down) _ (
        subst (IsSound (update_physical_key s.router d k down))
          (sym (outputs_of-push d out s _ s.router.current _))
          (pass-IsSound s.router d k down (outputs_of d out s) l.sound free untriggered passed));
    available = rw (clear_current (update_physical_key s.router d k down)) l.available;
  }

  -- The branch with no match.
  unmatched-LoopSound :
      (down : Bool)
      → LoopSound d routes out s
      → is_blocked s.router d k ≡ false
      → is_active_trigger s.router k ≡ false
      → LoopSound d routes out (
          if is_swallowed s.router k
          then record s { router = clear_inactive_binding (update_physical_key s.router d k down) }
          else record s {
            router = clear_inactive_binding (update_physical_key s.router d k down);
            pending =
                s.pending ++ (s.router.current, Event.key (record { key = k; down = down })) ∷ [];
          })
  unfolding update_physical_key
  unmatched-LoopSound down l free untriggered = elim (Bool-cases (is_swallowed s.router k)) [
    | inl e ↦ rw e (
        cleared-LoopSound d routes out s (update_physical_key s.router d k down)
          (swallowed-IsSound down l free e) l.available)
    | inr e ↦ rw e (emitted-LoopSound down l free untriggered e)
  ]

  held_after_press : is_held (update_physical_key s.router d k true) d k ≡ true
  held_after_press = ground (arith, is_held-update s.router d k true d k)

  pub pass_key-LoopSound :
      (down : Bool)
      → LoopSound d routes out s
      → contains 0 routes ≡ true
      → is_blocked s.router d k ≡ false
      → is_active_trigger s.router k ≡ false
      → LoopSound d routes out (
          pass_key d routes
            (record s { router = update_physical_key s.router d k down })
            (Event.key (record { key = k; down = down }))
            k
            down)
  unfolding pass_key update_physical_key is_swallowed is_unpropagated outputs_of
  pass_key-LoopSound false l home free untriggered = unmatched-LoopSound false l free untriggered
  pass_key-LoopSound true l home free untriggered =
      let r = update_physical_key s.router d k true in
      elim (Option-cases (if not (is_some r.active_binding) then matching_binding r k else none)) [
        | inl e ↦ rw (e, pass_key) (unmatched-LoopSound true l free untriggered)
        | inr (i, e) ↦
            let m : matching_binding r k ≡ some i = ground arith in
            let (b, found, _) = matching_binding_lem r k i m in
            rw (e, pass_key)
              (switch_route-LoopSound d routes out (record s { router = r }) k i
                (press-IsSound s.router d k _ l.sound) l.available home held_after_press b found)
      ]
