-- ===== src/Input/Interceptor/Whole.antt =====
-- rkvm-input/src/interceptor.rs: the loop of `read_frame` takes the queue up to the end of the frame.
use rkvm.Prelude.{
  ℕ, zero, suc, ◌+◌, ◌≤◌, ◌<◌, ◌≡◌, refl, true, false, List, [], ◌∷◌, ◌++◌, Option, none, some,
  arith, map, length, length-append, ap, ◌∙◌, sym, subst,
}
use mathlib.Core.List.{append_assoc}
use rkvm.Input.Key.{Key}
use rkvm.Input.Event.{Event}
use rkvm.Input.Writer.{Raw, Outcome}
use rkvm.Input.Interceptor.{
  RawRead, Codes, Interceptor, is_all, is_complete, Read, Progress, done, waits, fails, pop,
  resumed, read, Frame, framed, frame_loop, read_frame,
}
use rkvm.Input.Interceptor.Frames.{
  queued_of, IsOpen, sync_all, Conserves, ReadKept, read-Kept, read_loop_complete, complete_at_end,
}

-- What a call of `read_frame` gives: a frame that ends with its only `All`, after which the queue is
-- empty, or a queue without `All` while it waits. In both cases no event is lost. After a loss of input
-- nothing is queued.
abbrev pub FrameKept : Codes → Interceptor → List RawRead → Option (Progress Frame) → Type 0
FrameKept c s input none = ⊥
FrameKept c s input (some (done (Frame.events fs) s' input' outcomes)) =
    ((b : List Event) × IsOpen b × (fs ≡ b ++ sync_all ∷ []))
    × (s'.events ≡ [])
    × (s'.writing ≡ none)
    × Conserves c s input fs s' input'
FrameKept c s input (some (done (Frame.input_lost keys) s' input' outcomes)) =
    (s'.events ≡ []) × (s'.writing ≡ none)
FrameKept c s input (some (waits s' input')) =
    Conserves c s input s'.events s' input' × IsOpen s'.events
FrameKept c s input (some (fails s')) = Unit

queued_of-length : (c : Codes) (raws : List Raw) → length (queued_of c raws) ≤ length raws
unfolding queued_of
queued_of-length c [] = omega arith
queued_of-length c (raw ∷ raws) = ground (arith, queued_of-length c raws)

length-events : (raws : List Raw) → length (map RawRead.event raws) ≡ length raws
length-events [] = refl
length-events (raw ∷ raws) = ap suc (length-events raws)

-- There are no more events queued than were queued or taken.
Conserves-length :
    (c : Codes) (s s' : Interceptor) (input input' : List RawRead) (after : List Event)
    → Conserves c s input after s' input'
    → length after ≤ length s.events + length input
Conserves-length c s s' input input' after (raws, e, q, p) =
    let few = queued_of-length c raws in
    omega (
      arith,
      ap length q ∙ length-append s.events (queued_of c raws),
      ap length e ∙ length-append (map RawRead.event raws) input',
      length-events raws,
      few,
    )

module _ (c : Codes) (pressed : Option (List Key)) (input : List RawRead)
    (outcomes : List Outcome) where
  read_complete :
      (s : Interceptor)
      → s.writing ≡ none
      → is_complete s.events ≡ true
      → read c pressed input s outcomes ≡ pop s input outcomes
  unfolding read
  read_complete s w h =
      ap (resumed c pressed input s outcomes) w ∙ read_loop_complete c pressed input s outcomes h

  frame_pops :
      (b es : List Event) (fuel : ℕ) (s : Interceptor)
      → IsOpen b
      → s.writing ≡ none
      → length b < fuel
      → frame_loop fuel c pressed es input (record s { events = b ++ sync_all ∷ [] }) outcomes
        ≡ some (
            done
              (Frame.events (es ++ (b ++ sync_all ∷ [])))
              (record s { events = [] })
              input
              outcomes)
  unfolding frame_loop
  frame_pops b es zero s h w lt = absurd (omega arith)
  frame_pops [] es (suc fuel) s h w lt =
      rw (read_complete (record s { events = sync_all ∷ [] }) w (complete_at_end []), frame_loop)
        refl
  frame_pops (x ∷ b) es (suc fuel) s (p, h) w lt =
      rw
        (
          read_complete (record s { events = x ∷ b ++ sync_all ∷ [] }) w (complete_at_end (x ∷ b)),
          frame_loop,
        )
        (rw p (
          frame_pops b (es ++ x ∷ []) fuel s h w (omega arith)
          ∙ ap (λ l. some (done (Frame.events l) (record s { events = [] }) input outcomes))
              (append_assoc es (x ∷ []) (b ++ sync_all ∷ []))))

abbrev first_of : List Event → Event
first_of [] = sync_all
first_of (e ∷ es) = e

abbrev rest_of : List Event → List Event
rest_of [] = []
rest_of (e ∷ es) = es

module _ (c : Codes) (pressed : Option (List Key)) where
  framed-Kept :
      (s : Interceptor) (rest : List RawRead) (fuel : ℕ) (r : Progress Read)
      → ReadKept c s rest r
      → length s.events + length rest ≤ fuel
      → FrameKept c s rest
          (framed [] r (λ es input' s' outcomes'. frame_loop fuel c pressed es input' s' outcomes'))
  framed-Kept s rest fuel (done (Read.event e) s' input' outcomes') (k, ([], h, ends), w) le =
      let ended = ap first_of ends in
      let empty = ap rest_of ends in
      rw (ap is_all ended) (
        ([], tt, ap (λ x. x ∷ []) ended),
        empty,
        w,
        (k.0, k.1, ap (λ l. e ∷ l) (sym empty) ∙ k.2, k.3),
      )
  framed-Kept s rest fuel (done (Read.event e) s' input' outcomes') (k, (x ∷ b, (p, h), ends), w)
        le =
      let more : is_all e ≡ false = ap (λ l. is_all (first_of l)) ends ∙ p in
      let queue = ap rest_of ends in
      let few = Conserves-length c s s' rest input' (e ∷ s'.events) k in
      let size = ap length queue ∙ length-append b (sync_all ∷ []) in
      let whole =
        ap (λ l. frame_loop fuel c pressed (e ∷ []) input' (record s' { events = l }) outcomes')
          queue
        ∙ frame_pops c pressed input' outcomes' b (e ∷ []) fuel s' h w
            (omega (arith, few, size, le)) in
      rw more (
        subst (FrameKept c s rest) (sym whole)
          ((e ∷ b, (more, h), refl), refl, w, (k.0, k.1, ap (λ l. e ∷ l) (sym queue) ∙ k.2, k.3)))
  framed-Kept s rest fuel (done (Read.input_lost keys) s' input' outcomes') k le = k
  framed-Kept s rest fuel (waits s' input') k le = k
  framed-Kept s rest fuel (fails s') k le = tt

  -- From a queue without `All`, as it is at first and after each call that does not fail, `read_frame`
  -- has rounds enough and either returns a frame, whose last event is its only `All`, with an empty
  -- queue, or reports a loss of input, with an empty queue, or fails, or waits, with a queue without
  -- `All`. Of what a returned frame or a waiting call has taken from the input, the events whose fate is
  -- to be queued are in the frame or in the queue, in their order and after those that were queued
  -- before, and those whose fate is to be passed on have been written to the local device, in their
  -- order, or, for the last one, are kept to be written again.
  pub read_frame-FrameKept :
      (input : List RawRead) (s : Interceptor) (outcomes : List Outcome)
      → IsOpen s.events
      → FrameKept c s input (read_frame c pressed input s outcomes)
  unfolding read_frame frame_loop
  read_frame-FrameKept input s outcomes h =
      framed-Kept s input (length s.events + length input) (read c pressed input s outcomes)
        (read-Kept c pressed input s outcomes h) (omega arith)
