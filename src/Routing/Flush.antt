-- ===== src/Routing/Flush.antt =====
-- rkvm-server/src/routing.rs: `flush_events`, which groups the pending events into one framed
-- action for each run of one route.
use mathlib.Core.List.{append_assoc, map-append}
use rkvm.Prelude.{
  ℕ, ◌≡◌, refl, ap, sym, List, [], ◌∷◌, ◌++◌, map, arith, ◌==◌, if◌then◌else◌, ◌≢◌, subst, inl, inr,
  Bool-cases,
}
use rkvm.Input.Event.{Event, SyncEvent}
use rkvm.Routing.Router.{Route, Action, events, set_key_state}

-- A run that has been collected, closed by its synchronisation event.
abbrev pub frame : List Event → List Event
frame es = es ++ Event.sync SyncEvent.all ∷ []

-- The inner `while`: the run of one route grows until the next event has another route.
unfoldable pub flush_run : ℕ → Route → List Event → List (Route × Event) → List Action
flush_run d route run [] = events route d (frame run) ∷ []
flush_run d route run ((next, event) ∷ pending) =
    let longer = flush_run d route (run ++ event ∷ []) pending in
    let other = flush_run d next (event ∷ []) pending in
    if next == route then longer else events route d (frame run) ∷ other

unfoldable pub flush_events : ℕ → List (Route × Event) → List Action
unfolding flush_run
flush_events d [] = []
flush_events d ((route, event) ∷ pending) = flush_run d route (event ∷ []) pending

-- What the actions carry: each event with its route, the closing synchronisation event left out.
drop_last {ℓ} : {A : Type ℓ} → List A → List A
drop_last [] = []
drop_last (x ∷ []) = []
drop_last (x ∷ y ∷ xs) = x ∷ drop_last (y ∷ xs)

abbrev pub tag : Route → List Event → List (Route × Event)
tag route = map (λ e. (route, e))

unfoldable pub routed : List Action → List (Route × Event)
unfolding drop_last
routed [] = []
routed (events route d es ∷ actions) = tag route (drop_last es) ++ routed actions
routed (set_key_state route d ks ∷ actions) = routed actions

drop_last-append {ℓ} : {A : Type ℓ} (xs : List A) (y : A) → drop_last (xs ++ y ∷ []) ≡ xs
unfolding drop_last
drop_last-append [] y = refl
drop_last-append (x ∷ []) y = refl
drop_last-append (x ∷ x' ∷ xs) y = ap (◌∷◌ x) (drop_last-append (x' ∷ xs) y)

routed-flush_run :
    (d : ℕ) (route : Route) (run : List Event) (pending : List (Route × Event))
    → routed (flush_run d route run pending) ≡ tag route run ++ pending
unfolding routed flush_run
routed-flush_run d route run [] = ground (arith, drop_last-append run (Event.sync SyncEvent.all))
routed-flush_run d route run ((next, event) ∷ pending) = ground (
  arith,
  routed-flush_run d route (run ++ event ∷ []) pending,
  routed-flush_run d next (event ∷ []) pending,
  drop_last-append run (Event.sync SyncEvent.all),
  map-append {B = Route × Event} (λ e. (route, e)) run (event ∷ []),
  append_assoc (tag route run) (tag route (event ∷ [])) pending,
)

-- The actions of a flush carry the pending events, each to its route, in the order in which they
-- came: none is lost, repeated or moved past another.
pub routed-flush_events :
    (d : ℕ) (pending : List (Route × Event)) → routed (flush_events d pending) ≡ pending
unfolding routed flush_events
routed-flush_events d [] = refl
routed-flush_events d ((route, event) ∷ pending) = routed-flush_run d route (event ∷ []) pending

-- Every action is a non-empty run for the device, closed by a synchronisation event, and the next
-- one goes to another route.
abbrev pub IsFramed : ℕ → List Action → Type 0
IsFramed d [] = Unit
IsFramed d (events route d' es ∷ []) =
    (d' ≡ d) × ((e : Event) × (run : List Event) × (es ≡ frame (e ∷ run)))
IsFramed d (events route d' es ∷ events route' d'' es' ∷ actions) =
    (d' ≡ d)
    × ((e : Event) × (run : List Event) × (es ≡ frame (e ∷ run)))
    × (route ≢ route')
    × IsFramed d (events route' d'' es' ∷ actions)
IsFramed d (events route d' es ∷ set_key_state route' d'' ks ∷ actions) = ⊥
IsFramed d (set_key_state route d' ks ∷ actions) = ⊥

flush_run_head :
    (d : ℕ) (route : Route) (run : List Event) (pending : List (Route × Event))
    → (es : List Event) × (rest : List Action) × (flush_run d route run pending
        ≡ events route d es ∷ rest)
unfolding flush_run
flush_run_head d route run [] = (frame run, [], refl)
flush_run_head d route run ((next, event) ∷ pending) = elim (Bool-cases (next == route)) [
  | inl same ↦ rw same (flush_run_head d route (run ++ event ∷ []) pending)
  | inr other ↦ (frame run, flush_run d next (event ∷ []) pending, rw other)
]

IsFramed-cons :
    (d : ℕ) (route next : Route) (e : Event) (run es : List Event) (rest actions : List Action)
    → actions ≡ events next d es ∷ rest
    → route ≢ next
    → IsFramed d actions
    → IsFramed d (events route d (frame (e ∷ run)) ∷ actions)
IsFramed-cons d route next e run es rest actions shape differs framed =
    subst (λ tail. IsFramed d (events route d (frame (e ∷ run)) ∷ tail)) (sym shape)
      (refl, (e, run, refl), differs, subst (IsFramed d) shape framed)

flush_run-IsFramed :
    (d : ℕ) (route : Route) (e : Event) (run : List Event) (pending : List (Route × Event))
    → IsFramed d (flush_run d route (e ∷ run) pending)
unfolding flush_run
flush_run-IsFramed d route e run [] = (refl, (e, run, refl))
flush_run-IsFramed d route e run ((next, event) ∷ pending) = elim (Bool-cases (next == route)) [
  | inl same ↦ rw same (flush_run-IsFramed d route e (run ++ event ∷ []) pending)
  | inr other ↦
      let (es, rest, shape) = flush_run_head d next (event ∷ []) pending in
      rw other (
        IsFramed-cons d route next e run es rest (flush_run d next (event ∷ []) pending) shape
          (ground arith) (flush_run-IsFramed d next event [] pending))
]

-- Every action of a flush is a non-empty run for the flushed device that ends in a synchronisation
-- event, and neighbouring actions have different routes: no run is split.
pub flush_events-IsFramed :
    (d : ℕ) (pending : List (Route × Event)) → IsFramed d (flush_events d pending)
unfolding flush_events
flush_events-IsFramed d [] = tt
flush_events-IsFramed d ((route, event) ∷ pending) = flush_run-IsFramed d route event [] pending
