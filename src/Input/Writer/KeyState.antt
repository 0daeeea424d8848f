-- ===== src/Input/Writer/KeyState.antt =====
-- rkvm-input/src/writer.rs: `set_key_state` brings the device to the desired keys, in an order
-- that is safe for shortcuts.
use rkvm.Prelude.{
  ℕ, ◌≤◌, ◌≡◌, refl, sym, ap, ◌∙◌, Bool, true, false, ◌&&◌, ◌||◌, not, List, [], ◌∷◌, ◌++◌, Option,
  some, arith, length, ◌=?◌, inl, inr, Bool-cases, if◌then◌else◌, ◌⊎◌,
}
use rkvm.Collections.Set
use rkvm.Collections.Set.{
  contains, difference, is_empty, contains-insert, contains-remove, contains-difference,
}
use rkvm.Input.Key.{Key, Key_eq, is_modifier}
use rkvm.Input.Event.{Event, SyncEvent}
use rkvm.Input.Convert.{Glue, key_to_raw}
use rkvm.Input.Writer.{
  Outcome, ok, Writer, raw_events, update_key_state, update_key_states, insert_by, sort_by_key,
  le_rank, key_events, key_state_events, set_key_state,
}
use rkvm.Input.Writer.Frames.{NoFailure, answers, write_frame_ok}

pub update_key_states-append :
    (keys : List Key) (xs ys : List Event)
    → update_key_states keys (xs ++ ys) ≡ update_key_states (update_key_states keys xs) ys
unfolding update_key_states
update_key_states-append keys [] ys = refl
update_key_states-append keys (x ∷ xs) ys = update_key_states-append (update_key_state keys x) xs ys

contains-releases :
    (k : Key) (ks keys : List Key)
    → contains k (update_key_states keys (key_events false ks))
      ≡ not (contains k ks) && contains k keys
unfolding update_key_states update_key_state contains
contains-releases k [] keys = refl
contains-releases k (j ∷ ks) keys =
    ground (arith, contains-releases k ks (Set.remove j keys), contains-remove j k keys)

contains-presses :
    (k : Key) (ks keys : List Key)
    → contains k (update_key_states keys (key_events true ks)) ≡ contains k ks || contains k keys
unfolding update_key_states update_key_state contains
contains-presses k [] keys = refl
contains-presses k (j ∷ ks) keys =
    ground (arith, contains-presses k ks (Set.insert j keys), contains-insert j k keys)

contains-insert_by :
    (rank : Key → Bool × Option ℕ) (k j : Key) (ks : List Key)
    → contains k (insert_by rank j ks) ≡ (j =? k) || contains k ks
unfolding insert_by contains
contains-insert_by rank k j [] = refl
contains-insert_by rank k j (i ∷ ks) = ground (arith, contains-insert_by rank k j ks)

contains-sort_by_key :
    (rank : Key → Bool × Option ℕ) (k : Key) (ks : List Key)
    → contains k (sort_by_key rank ks) ≡ contains k ks
unfolding sort_by_key contains
contains-sort_by_key rank k [] = refl
contains-sort_by_key rank k (j ∷ ks) =
    contains-insert_by rank k j (sort_by_key rank ks)
    ∙ ap (λ b. (j =? k) || b) (contains-sort_by_key rank k ks)

-- The closing synchronisation event records no key.
closed_states :
    (keys : List Key) (events : List Event)
    → update_key_states keys
        (if is_empty events then events else events ++ Event.sync SyncEvent.all ∷ [])
      ≡ update_key_states keys events
unfolding update_key_states update_key_state
closed_states keys [] = refl
closed_states keys (event ∷ events) =
    update_key_states-append keys (event ∷ events) (Event.sync SyncEvent.all ∷ [])
    ∙ last (update_key_states keys (event ∷ events))
  where
    last : (ks : List Key) → update_key_states ks (Event.sync SyncEvent.all ∷ []) ≡ ks
    last ks = refl

-- The order in which keys are released, and in which they are pressed.
abbrev pub release_rank : Glue → Key → Bool × Option ℕ
release_rank g k = (is_modifier k, key_to_raw g k)

abbrev pub press_rank : Glue → Key → Bool × Option ℕ
press_rank g k = (not (is_modifier k), key_to_raw g k)

-- The events of a reconciliation lead from the current keys to the desired ones.
contains-key_state_events :
    (g : Glue) (current desired : List Key) (k : Key)
    → contains k (update_key_states current (key_state_events g current desired))
      ≡ contains k desired
unfolding key_state_events
contains-key_state_events g current desired k =
    let released = sort_by_key (release_rank g) (difference current desired) in
    let pressed = sort_by_key (press_rank g) (difference desired current) in
    let releases = key_events false released in
    let presses = key_events true pressed in
    let after = update_key_states current releases in
    rw
      (
        closed_states current (releases ++ presses),
        update_key_states-append current releases presses,
      )
      (ground (
        arith,
        contains-presses k pressed after,
        contains-releases k released current,
        contains-sort_by_key (release_rank g) k (difference current desired),
        contains-sort_by_key (press_rank g) k (difference desired current),
        contains-difference k current desired,
        contains-difference k desired current,
      ))

nil_of_empty : (es : List Event) → is_empty es ≡ true → es ≡ []
nil_of_empty [] h = refl
nil_of_empty (x ∷ es) h = cc

unchanged :
    (g : Glue) (current desired : List Key) (k : Key)
    → is_empty (key_state_events g current desired) ≡ true
    → contains k current ≡ contains k desired
unfolding update_key_states
unchanged g current desired k none_left =
    sym (ap (λ es. contains k (update_key_states current es)) (nil_of_empty _ none_left))
    ∙ contains-key_state_events g current desired k

-- Where no write fails and there is an outcome for each event, `set_key_state` succeeds, and the
-- keys recorded as down are exactly the desired ones.
pub set_key_state-contains :
    (g : Glue) (outcomes : List Outcome) (w : Writer) (desired : List Key)
    → NoFailure outcomes
    → length (raw_events g (key_state_events g w.pressed_keys desired)) ≤ answers outcomes
    → (w' : Writer) × (set_key_state g outcomes w desired ≡ some (w', ok tt))
      × ((k : Key) → contains k w'.pressed_keys ≡ contains k desired)
unfolding set_key_state
set_key_state-contains g outcomes w desired fine enough =
    let events = key_state_events g w.pressed_keys desired in
    elim (Bool-cases (is_empty events)) [
      | inl e ↦ (w, rw e, λ k. unchanged g w.pressed_keys desired k e)
      | inr e ↦ (
        record {
          sent = w.sent ++ raw_events g events;
          pressed_keys = update_key_states w.pressed_keys events;
        },
        rw e (write_frame_ok g outcomes w events fine enough),
        contains-key_state_events g w.pressed_keys desired,
      )
    ]

-- Each key has a rank that is not above the next one's.
abbrev pub IsRanked : (Key → Bool × Option ℕ) → List Key → Type 0
IsRanked rank [] = Unit {0}
IsRanked rank (k ∷ []) = Unit {0}
IsRanked rank (k ∷ j ∷ ks) = (le_rank (rank k) (rank j) ≡ true) × IsRanked rank (j ∷ ks)

le_rank_total : (x y : Bool × Option ℕ) → (le_rank x y ≡ true) ⊎ (le_rank y x ≡ true)
le_rank_total (a, x) (b, y) = ground arith

insert_by-IsRanked :
    (rank : Key → Bool × Option ℕ) (k : Key) (ks : List Key)
    → IsRanked rank ks
    → IsRanked rank (insert_by rank k ks)
unfolding insert_by
insert_by-IsRanked rank k [] h = tt
insert_by-IsRanked rank k (j ∷ []) h = ground (arith, le_rank_total (rank k) (rank j))
insert_by-IsRanked rank k (j ∷ i ∷ ks) h =
    ground (arith, le_rank_total (rank k) (rank j), insert_by-IsRanked rank k (i ∷ ks) h.1)

sort_by_key-IsRanked :
    (rank : Key → Bool × Option ℕ) (ks : List Key) → IsRanked rank (sort_by_key rank ks)
unfolding sort_by_key
sort_by_key-IsRanked rank [] = tt
sort_by_key-IsRanked rank (k ∷ ks) =
    insert_by-IsRanked rank k (sort_by_key rank ks) (sort_by_key-IsRanked rank ks)

closed_shape :
    (events : List Event)
    → (if is_empty events then events else events ++ Event.sync SyncEvent.all ∷ [])
      ≡ (if is_empty events then [] else events ++ Event.sync SyncEvent.all ∷ [])
closed_shape [] = refl
closed_shape (x ∷ events) = refl

-- A reconciliation releases keys before it presses any, releases modifiers after all other keys,
-- presses modifiers before all other keys, and ends in one synchronisation event; it releases the
-- current keys that are not desired and presses the desired ones that are not current, and has no
-- event where there are none of these.
pub key_state_events-IsRanked :
    (g : Glue) (current desired : List Key)
    → (released pressed : List Key) × (key_state_events g current desired ≡ (
        let events = key_events false released ++ key_events true pressed in
        if is_empty events then [] else events ++ Event.sync SyncEvent.all ∷ []))
      × IsRanked (release_rank g) released
      × IsRanked (press_rank g) pressed
      × ((k : Key) → contains k released ≡ not (contains k desired) && contains k current)
      × ((k : Key) → contains k pressed ≡ not (contains k current) && contains k desired)
unfolding key_state_events
key_state_events-IsRanked g current desired = (
  sort_by_key (release_rank g) (difference current desired),
  sort_by_key (press_rank g) (difference desired current),
  closed_shape (
      key_events false (sort_by_key (release_rank g) (difference current desired))
      ++ key_events true (sort_by_key (press_rank g) (difference desired current))),
  sort_by_key-IsRanked (release_rank g) (difference current desired),
  sort_by_key-IsRanked (press_rank g) (difference desired current),
  λ k.
      contains-sort_by_key (release_rank g) k (difference current desired)
      ∙ contains-difference k current desired,
  λ k.
      contains-sort_by_key (press_rank g) k (difference desired current)
      ∙ contains-difference k desired current,
)
