-- ===== src/Input/Interceptor/Frames.antt =====
-- rkvm-input/src/interceptor.rs: `read_frame` returns one whole frame, and neither it nor a call of it
-- that is cut short loses or reorders an event.
use rkvm.Prelude.{
  ◌≡◌, refl, Bool, true, false, List, [], ◌∷◌, ◌++◌, Option, none, some, arith, map, All, ap, ◌∙◌,
  sym, subst, Bool-cases, Option-cases, inl, inr,
}
use mathlib.Core.List.{append-nil, append_assoc}
use rkvm.Input.Key.{Key}
use rkvm.Input.Event.{Event, SyncEvent}
use rkvm.Input.Writer.{Raw, Outcome}
use rkvm.Input.Interceptor.{
  RawRead, Codes, Fate, queued, passed, skipped, dropped, fate, Interceptor, is_all, is_complete,
  Read, Progress, done, waits, fails, write_raw, pass_on, recover, pop, proceed, read_loop, resumed,
  read,
}

abbrev pub of_queued : Fate → List Event → List Event
of_queued (queued e) es = e ∷ es
of_queued _ es = es

-- The events among the raw ones, and the raw ones that are passed on, in their order.
unfoldable pub queued_of : Codes → List Raw → List Event
queued_of c [] = []
queued_of c (raw ∷ raws) = of_queued (fate c raw) (queued_of c raws)

abbrev of_passed : Raw → Fate → List Raw → List Raw
of_passed raw passed raws = raw ∷ raws
of_passed raw _ raws = raws

unfoldable pub passed_of : Codes → List Raw → List Raw
passed_of c [] = []
passed_of c (raw ∷ raws) = of_passed raw (fate c raw) (passed_of c raws)

abbrev pub IsOpen : List Event → Type 0
IsOpen = All (λ e. is_all e ≡ false)

abbrev pub sync_all : Event
sync_all = Event.sync SyncEvent.all

abbrev one : Option Raw → List Raw
one none = []
one (some raw) = raw ∷ []

-- What the local device has received, and what is being written to it.
abbrev pub passed_on : Interceptor → List Raw
passed_on s = s.sent ++ one s.writing

-- From the state `s` to the state `s'`, where `after` has been returned or is queued: what has been taken
-- from the input is among these events or has been passed on, in its order.
abbrev pub Conserves :
    Codes → Interceptor → List RawRead → List Event → Interceptor → List RawRead → Type 0
Conserves c s input after s' input' =
    (raws : List Raw) × (input ≡ map RawRead.event raws ++ input')
    × (after ≡ s.events ++ queued_of c raws)
    × (passed_on s' ≡ passed_on s ++ passed_of c raws)

IsOpen-complete : (es : List Event) → IsOpen es → is_complete es ≡ false
unfolding is_complete
IsOpen-complete [] h = refl
IsOpen-complete (e ∷ []) h = h.0
IsOpen-complete (e ∷ f ∷ es) h = IsOpen-complete (f ∷ es) h.1

pub complete_at_end : (es : List Event) → is_complete (es ++ sync_all ∷ []) ≡ true
unfolding is_complete
complete_at_end [] = refl
complete_at_end (e ∷ []) = refl
complete_at_end (e ∷ f ∷ es) = complete_at_end (f ∷ es)

IsOpen-snoc : (es : List Event) (e : Event) → IsOpen es → is_all e ≡ false → IsOpen (es ++ e ∷ [])
IsOpen-snoc [] e h p = (p, tt)
IsOpen-snoc (x ∷ xs) e (q, h) p = (q, IsOpen-snoc xs e h p)

is_all-sync_all : (e : Event) → is_all e ≡ true → e ≡ sync_all
is_all-sync_all e h = ground arith

queued_of-append :
    (c : Codes) (xs ys : List Raw) → queued_of c (xs ++ ys) ≡ queued_of c xs ++ queued_of c ys
unfolding queued_of
queued_of-append c [] ys = refl
queued_of-append c (x ∷ xs) ys = ground (arith, queued_of-append c xs ys)

passed_of-append :
    (c : Codes) (xs ys : List Raw) → passed_of c (xs ++ ys) ≡ passed_of c xs ++ passed_of c ys
unfolding passed_of
passed_of-append c [] ys = refl
passed_of-append c (x ∷ xs) ys = ground (arith, passed_of-append c xs ys)

map-event-append :
    (xs ys : List Raw) (rest : List RawRead)
    → map RawRead.event xs ++ (map RawRead.event ys ++ rest) ≡ map RawRead.event (xs ++ ys) ++ rest
map-event-append [] ys rest = refl
map-event-append (x ∷ xs) ys rest = ap (λ r. RawRead.event x ∷ r) (map-event-append xs ys rest)

Conserves-none :
    (c : Codes) (s : Interceptor) (input : List RawRead) → Conserves c s input s.events s input
unfolding queued_of passed_of
Conserves-none c s input = ([], refl, sym (append-nil s.events), sym (append-nil (passed_on s)))

Conserves-trans :
    (c : Codes) (s t u : Interceptor) (input input' input'' : List RawRead) (after : List Event)
    → Conserves c s input t.events t input'
    → Conserves c t input' after u input''
    → Conserves c s input after u input''
Conserves-trans c s t u input input' input'' after (xs, e, q, p) (ys, e', q', p') = (
  xs ++ ys,
  e ∙ ap (λ r. map RawRead.event xs ++ r) e' ∙ map-event-append xs ys input'',
  q'
      ∙ ap (λ r. r ++ queued_of c ys) q
      ∙ append_assoc s.events (queued_of c xs) (queued_of c ys)
      ∙ ap (λ r. s.events ++ r) (sym (queued_of-append c xs ys)),
  p'
      ∙ ap (λ r. r ++ passed_of c ys) p
      ∙ append_assoc (passed_on s) (passed_of c xs) (passed_of c ys)
      ∙ ap (λ r. passed_on s ++ r) (sym (passed_of-append c xs ys)),
)

abbrev pub ReadKept : Codes → Interceptor → List RawRead → Progress Read → Type 0
ReadKept c s input (done (Read.event e) s' input' outcomes) =
    Conserves c s input (e ∷ s'.events) s' input'
    × ((b : List Event) × IsOpen b × (e ∷ s'.events ≡ b ++ sync_all ∷ []))
    × (s'.writing ≡ none)
ReadKept c s input (done (Read.input_lost keys) s' input' outcomes) =
    (s'.events ≡ []) × (s'.writing ≡ none)
ReadKept c s input (waits s' input') = Conserves c s input s'.events s' input' × IsOpen s'.events
ReadKept c s input (fails s') = Unit

ReadKept-trans :
    (c : Codes) (s t : Interceptor) (input input' : List RawRead) (r : Progress Read)
    → Conserves c s input t.events t input'
    → ReadKept c t input' r
    → ReadKept c s input r
ReadKept-trans c s t input input' (done (Read.event e) u rest outcomes) k (k', b, w) =
    (Conserves-trans c s t u input input' rest (e ∷ u.events) k k', b, w)
ReadKept-trans c s t input input' (done (Read.input_lost keys) u rest outcomes) k h = h
ReadKept-trans c s t input input' (waits u rest) k (k', h) =
    (Conserves-trans c s t u input input' rest u.events k k', h)
ReadKept-trans c s t input input' (fails u) k h = tt

-- One event of the input.
module _ (c : Codes) (s : Interceptor) (raw : Raw) (input : List RawRead) where
  step-queued :
      (e : Event)
      → fate c raw ≡ queued e
      → Conserves c s
          (RawRead.event raw ∷ input)
          (s.events ++ e ∷ [])
          (record s { events = s.events ++ e ∷ [] })
          input
  unfolding queued_of passed_of
  step-queued e f = (
    raw ∷ [],
    refl,
    ap (λ x. s.events ++ of_queued x []) (sym f),
    sym (append-nil (passed_on s)) ∙ ap (λ x. passed_on s ++ of_passed raw x []) (sym f),
  )

  step-skipped : fate c raw ≡ skipped → Conserves c s (RawRead.event raw ∷ input) s.events s input
  unfolding queued_of passed_of
  step-skipped f = (
    raw ∷ [],
    refl,
    sym (append-nil s.events) ∙ ap (λ x. s.events ++ of_queued x []) (sym f),
    sym (append-nil (passed_on s)) ∙ ap (λ x. passed_on s ++ of_passed raw x []) (sym f),
  )

  step-writing :
      fate c raw ≡ passed
      → s.writing ≡ none
      → Conserves c s (RawRead.event raw ∷ input) s.events (record s { writing = some raw }) input
  unfolding queued_of passed_of
  step-writing f w = (
    raw ∷ [],
    refl,
    sym (append-nil s.events) ∙ ap (λ x. s.events ++ of_queued x []) (sym f),
    ap (λ l. l ++ raw ∷ []) (sym (append-nil s.sent) ∙ ap (λ x. s.sent ++ one x) (sym w))
        ∙ ap (λ x. passed_on s ++ of_passed raw x []) (sym f),
  )

written-Conserves :
    (c : Codes) (s : Interceptor) (raw : Raw) (input : List RawRead)
    → s.writing ≡ some raw
    → Conserves c s input s.events (record s { writing = none; sent = s.sent ++ raw ∷ [] }) input
unfolding queued_of passed_of
written-Conserves c s raw input w =
    ([], refl, sym (append-nil s.events), ap (λ x. s.sent ++ one x ++ []) (sym w))

-- Writing an event, and going on.
pass_on-Kept :
    (c : Codes) (s : Interceptor) (raw : Raw) (input : List RawRead)
    (go : Interceptor → List Outcome → Progress Read)
    → IsOpen s.events
    → ((outcomes : List Outcome)
        → let t : Interceptor = record s { writing = none; sent = s.sent ++ raw ∷ [] } in
          ReadKept c t input (go t outcomes))
    → (answer : Option (Bool × List Outcome))
    → ReadKept c (record s { writing = some raw }) input (pass_on s raw input answer go)
pass_on-Kept c s raw input go h kept none =
    (Conserves-none c (record s { writing = some raw }) input, h)
pass_on-Kept c s raw input go h kept (some (false, outcomes)) = tt
pass_on-Kept c s raw input go h kept (some (true, outcomes)) =
    let t : Interceptor = record s { writing = none; sent = s.sent ++ raw ∷ [] } in
    ReadKept-trans c (record s { writing = some raw }) t input input (go t outcomes)
      (written-Conserves c (record s { writing = some raw }) raw input refl) (kept outcomes)

pub not_empty_at_end : (b : List Event) → [] ≡ b ++ sync_all ∷ [] → ⊥
not_empty_at_end [] e = absurd cc
not_empty_at_end (x ∷ b) e = absurd cc

module _ (c : Codes) (s : Interceptor) (b : List Event) (input : List RawRead)
    (outcomes : List Outcome) (h : IsOpen b) (w : s.writing ≡ none) where
  pop_at-Kept :
      (es : List Event)
      → es ≡ b ++ sync_all ∷ []
      → ReadKept c (record s { events = es }) input (pop (record s { events = es }) input outcomes)
  unfolding queued_of passed_of
  pop_at-Kept [] e = absurd (not_empty_at_end b e)
  pop_at-Kept (x ∷ es) e =
      (([], refl, sym (append-nil (x ∷ es)), sym (append-nil (passed_on s))), (b, h, e), w)

  pop-Kept : s.events ≡ b ++ sync_all ∷ [] → ReadKept c s input (pop s input outcomes)
  pop-Kept e = pop_at-Kept s.events e

pub read_loop_complete :
    (c : Codes) (pressed : Option (List Key)) (input : List RawRead) (s : Interceptor)
    (outcomes : List Outcome)
    → is_complete s.events ≡ true
    → read_loop c pressed input s outcomes ≡ pop s input outcomes
unfolding read_loop
read_loop_complete c pressed [] s outcomes h = rw (h, read_loop) refl
read_loop_complete c pressed (RawRead.event raw ∷ input) s outcomes h = rw (h, read_loop) refl
read_loop_complete c pressed (RawRead.input_lost ∷ input) s outcomes h = rw (h, read_loop) refl
read_loop_complete c pressed (RawRead.read_failed ∷ input) s outcomes h = rw (h, read_loop) refl

module _ (c : Codes) (pressed : Option (List Key)) where
  recover-Kept :
      (s : Interceptor) (input input' : List RawRead) (outcomes : List Outcome)
      (p : Option (List Key))
      → ReadKept c s input (recover p s input' outcomes)
  recover-Kept s input input' outcomes none = tt
  recover-Kept s input input' outcomes (some keys) = (refl, refl)

  proceed-Kept :
      (s : Interceptor) (raw : Raw) (input : List RawRead) (outcomes : List Outcome) (f : Fate)
      → fate c raw ≡ f
      → IsOpen s.events
      → s.writing ≡ none
      → ((t : Interceptor) (outcomes' : List Outcome)
          → IsOpen t.events
          → t.writing ≡ none
          → ReadKept c t input (read_loop c pressed input t outcomes'))
      → ReadKept c s (RawRead.event raw ∷ input) (
          proceed pressed s raw f input outcomes
            (λ t outcomes'. read_loop c pressed input t outcomes'))
  proceed-Kept s raw input outcomes (queued e) is h w kept =
      let t : Interceptor = record s { events = s.events ++ e ∷ [] } in
      ReadKept-trans c s t (RawRead.event raw ∷ input) input _ (step-queued c s raw input e is)
        (elim (Bool-cases (is_all e)) [
          | inl all ↦
              let same = is_all-sync_all e all in
              let ends : t.events ≡ s.events ++ sync_all ∷ [] = ap (λ x. s.events ++ x ∷ []) same in
              subst (λ r. ReadKept c t input r)
                (sym (
                  read_loop_complete c pressed input t outcomes
                    (ap is_complete ends ∙ complete_at_end s.events)))
                (pop-Kept c t s.events input outcomes h w ends)
          | inr more ↦ kept t outcomes (IsOpen-snoc s.events e h more) w
        ])
  proceed-Kept s raw input outcomes passed is h w kept =
      ReadKept-trans c s (record s { writing = some raw }) (RawRead.event raw ∷ input) input _
        (step-writing c s raw input is w)
        (pass_on-Kept c s raw input (λ t outcomes'. read_loop c pressed input t outcomes') h
          (λ outcomes'. kept _ outcomes' h refl) (write_raw outcomes))
  proceed-Kept s raw input outcomes skipped is h w kept =
      ReadKept-trans c s s (RawRead.event raw ∷ input) input _ (step-skipped c s raw input is)
        (kept s outcomes h w)
  proceed-Kept s raw input outcomes dropped is h w kept =
      recover-Kept s (RawRead.event raw ∷ input) input outcomes pressed

  read_loop-Kept :
      (input : List RawRead) (s : Interceptor) (outcomes : List Outcome)
      → IsOpen s.events
      → s.writing ≡ none
      → ReadKept c s input (read_loop c pressed input s outcomes)
  unfolding read_loop
  read_loop-Kept [] s outcomes h w =
      rw (IsOpen-complete s.events h, read_loop) (Conserves-none c s [], h)
  read_loop-Kept (RawRead.event raw ∷ input) s outcomes h w =
      rw (IsOpen-complete s.events h, read_loop)
        (proceed-Kept s raw input outcomes (fate c raw) refl h w
          (λ t outcomes' h' w'. read_loop-Kept input t outcomes' h' w'))
  read_loop-Kept (RawRead.input_lost ∷ input) s outcomes h w =
      rw (IsOpen-complete s.events h, read_loop)
        (recover-Kept s (RawRead.input_lost ∷ input) input outcomes pressed)
  read_loop-Kept (RawRead.read_failed ∷ input) s outcomes h w =
      rw (IsOpen-complete s.events h, read_loop) tt

  pub read-Kept :
      (input : List RawRead) (s : Interceptor) (outcomes : List Outcome)
      → IsOpen s.events
      → ReadKept c s input (read c pressed input s outcomes)
  unfolding read
  read-Kept input s outcomes h = elim (Option-cases s.writing) [
    | inl e ↦
        subst (λ r. ReadKept c s input r) (sym (ap (resumed c pressed input s outcomes) e))
          (read_loop-Kept input s outcomes h e)
    | inr (raw, e) ↦
        subst (λ r. ReadKept c s input r) (sym (ap (resumed c pressed input s outcomes) e))
          (subst
            (λ x.
              ReadKept c (record s { writing = x }) input
                (pass_on s raw input (write_raw outcomes)
                  (λ t outcomes'. read_loop c pressed input t outcomes')))
            (sym e)
            (pass_on-Kept c s raw input (λ t outcomes'. read_loop c pressed input t outcomes') h
              (λ outcomes'. read_loop-Kept input _ outcomes' h refl) (write_raw outcomes)))
  ]
