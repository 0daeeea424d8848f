-- ===== src/Monitor/Lives.antt =====
-- The life of an activation in the events of rkvm-input/src/monitor.rs: it is announced once, and its
-- removal is asked for at most once, after that.
use rkvm.Prelude.{
  ℕ, ◌≡◌, refl, Bool, true, false, ◌&&◌, not, List, [], ◌∷◌, ◌++◌, arith, ◌=?◌, ℕ_eq, if◌then◌else◌,
}
use rkvm.Monitor.Inventory.{MonitorEvent, activated, remove}

-- The identifiers that have been announced, and those whose removal has not been asked for.
pub record Lives : Type 0 where
  pub ever : ℕ → Bool
  pub live : ℕ → Bool

abbrev pub newborn : Lives
newborn = record { ever = λ id. false; live = λ id. false }

unfoldable pub is_lawful : Lives → MonitorEvent → Bool
is_lawful l (activated id) = not (l.ever id)
is_lawful l (remove id) = l.live id

unfoldable pub after : Lives → MonitorEvent → Lives
after l (activated id) = record {
  ever = λ j. if id =? j then true else l.ever j;
  live = λ j. if id =? j then true else l.live j;
}
after l (remove id) = record l { live = λ j. if id =? j then false else l.live j }

unfoldable pub are_lawful : Lives → List MonitorEvent → Bool
are_lawful l [] = true
are_lawful l (event ∷ events) = is_lawful l event && are_lawful (after l event) events

unfoldable pub afters : Lives → List MonitorEvent → Lives
afters l [] = l
afters l (event ∷ events) = afters (after l event) events

pub are_lawful-snoc :
    (l : Lives) (events : List MonitorEvent) (event : MonitorEvent)
    → are_lawful l (events ++ event ∷ []) ≡ are_lawful l events && is_lawful (afters l events) event
unfolding are_lawful afters
are_lawful-snoc l [] event = ground arith
are_lawful-snoc l (e ∷ events) event = ground (arith, are_lawful-snoc (after l e) events event)

pub afters-snoc :
    (l : Lives) (events : List MonitorEvent) (event : MonitorEvent)
    → afters l (events ++ event ∷ []) ≡ after (afters l events) event
unfolding afters
afters-snoc l [] event = refl
afters-snoc l (e ∷ events) event = afters-snoc (after l e) events event
