-- ===== src/Monitor/Releases.antt =====
-- rkvm-input/src/monitor.rs: what `handle_release` does to the candidate that is released, and to the
-- others.
use rkvm.Prelude.{
  ℕ, ◌≡◌, refl, true, [], ◌∷◌, none, some, arith, ◌≢◌, Option-cases, Bool-cases, inl, inr, ◌=?◌,
  if◌then◌else◌, ap, ◌∙◌, sym, subst,
}
use mathlib.Core.Option.{some-injective}
use rkvm.Collections.Map
use rkvm.Input.Device.{Entry, Entry_eq, Entry-discrete}
use rkvm.Server.State.{ReleaseCause}
use rkvm.Monitor.Candidate.{Candidate}
use rkvm.Monitor.Inventory.{
  Candidates, Monitor, store, find_active, handle_release, released_state, has_id,
}
use rkvm.Monitor.Labels.{active_id, Injective}

has_id-active_id : (id : ℕ) (c : Candidate) → has_id id c.state ≡ true → active_id c ≡ some id
unfolding active_id
has_id-active_id id c h = ground arith

active_id-has_id : (id : ℕ) (c : Candidate) → active_id c ≡ some id → has_id id c.state ≡ true
unfolding active_id
active_id-has_id id c h = ground arith

get_tail :
    (j key : Entry) (d c : Candidate) (m : Candidates)
    → Map.get j m ≡ none
    → Map.get key m ≡ some c
    → Map.get key ((j, d) ∷ m) ≡ some c
unfolding Map.get
get_tail j key d c m fresh found = elim (Entry-discrete j key) [
  | yes e ↦ absurd (cc (sym found ∙ sym (ap (λ x. Map.get x m) e) ∙ fresh))
  | no n ↦ ground arith
]

get_here :
    (j key : Entry) (d : Candidate) (m : Candidates) → j ≡ key → Map.get key ((j, d) ∷ m) ≡ some d
unfolding Map.get
get_here j key d m e = ground arith

find_active-found :
    (id : ℕ) (m : Candidates) (e : Entry × Candidate)
    → Map.Distinct m
    → find_active id m ≡ some e
    → (Map.get e.0 m ≡ some e.1) × (active_id e.1 ≡ some id)
unfolding find_active
find_active-found id [] e distinct h = absurd cc
find_active-found id ((j, d) ∷ m) e (fresh, distinct) h = elim (Bool-cases (has_id id d.state)) [
  | inl yes_here ↦
      let same : (j, d) ≡ e = some-injective (j, d) e (ground arith) in
      subst (λ x. (Map.get x.0 ((j, d) ∷ m) ≡ some x.1) × (active_id x.1 ≡ some id)) same
        (get_here j j d m refl, has_id-active_id id d yes_here)
  | inr not_here ↦
      let (found, label) = find_active-found id m e distinct (ground arith) in
      (get_tail j e.0 d e.1 m fresh found, label)
]

find_active-none :
    (id : ℕ) (m : Candidates) (k : Entry) (c : Candidate)
    → find_active id m ≡ none
    → Map.get k m ≡ some c
    → active_id c ≢ some id
unfolding find_active Map.get
find_active-none id [] k c h found label = absurd cc
find_active-none id ((j, d) ∷ m) k c h found label = elim (Bool-cases (has_id id d.state)) [
  | inl yes_here ↦ absurd (ground arith)
  | inr not_here ↦ elim (Entry-discrete j k) [
    | yes e ↦
        let same = some-injective d c (ground arith) in
        absurd (cc (sym not_here ∙ ap (λ x. has_id id x.state) same ∙ active_id-has_id id c label))
    | no n ↦ find_active-none id m k c (ground arith) (ground arith) label
  ]
]

-- Where the keys are distinct and no two candidates have one activation, a release changes the
-- candidate of its activation alone, which forgets its failures and is ready after a disconnection or
-- blocked for a while after a failure, and where no candidate has the activation it changes nothing.
pub handle_release_lem :
    (now id : ℕ) (cause : ReleaseCause) (s : Monitor)
    → Map.Distinct s.candidates
    → Injective active_id s.candidates
    → ((key : Entry) (c : Candidate)
        → Map.get key s.candidates ≡ some c
        → active_id c ≡ some id
        → (k : Entry)
        → Map.get k (handle_release now id cause s).candidates ≡ (
            if key =? k
            then some (record c { failures = 0; state = released_state now cause })
            else Map.get k s.candidates))
      × (((key : Entry) (c : Candidate) → Map.get key s.candidates ≡ some c → active_id c ≢ some id)
          → handle_release now id cause s ≡ s)
unfolding handle_release store
handle_release_lem now id cause s distinct own = elim (Option-cases (find_active id s.candidates)) [
  | inl e ↦ (
    λ key c found label. absurd (find_active-none id s.candidates key c e found label),
    λ other_one. rw (e, handle_release) refl,
  )
  | inr (x, e) ↦
      let (there, mine) = find_active-found id s.candidates x distinct e in
      (
        λ key c found label k.
            let here = own x.0 key x.1 c id there found mine label in
            let same =
              some-injective x.1 c (sym there ∙ ap (λ y. Map.get y s.candidates) here ∙ found) in
            rw (e, handle_release)
              (Map.get-insert x.0 k (record x.1 { failures = 0; state = released_state now cause })
                  s.candidates
                ∙ ap
                    (λ y.
                      if y =? k
                      then some (record x.1 { failures = 0; state = released_state now cause })
                      else Map.get k s.candidates)
                    here
                ∙ ap
                    (λ y.
                      if key =? k
                      then some (record y { failures = 0; state = released_state now cause })
                      else Map.get k s.candidates)
                    same),
        λ no_one. absurd (no_one x.0 x.1 there mine),
      )
]
