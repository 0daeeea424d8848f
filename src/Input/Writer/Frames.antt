-- ===== src/Input/Writer/Frames.antt =====
-- rkvm-input/src/writer.rs: what `write_frame` sends, on every way that it can end.
use mathlib.Core.List.{append_assoc, append-nil}
use rkvm.Prelude.{ℕ, suc, ◌≤◌, ◌≡◌, refl, sym, ap, ◌∙◌, List, [], ◌∷◌, ◌++◌, some, arith, length}
use rkvm.Input.Event.{Event}
use rkvm.Input.Convert.{Glue}
use rkvm.Input.Writer.{
  Raw, Outcome, written, would_block, failed, Result, ok, err, Writer, raw_events,
  update_key_states, write_from, write_frame, finish,
}

-- The outcomes that end an attempt: all but `would_block`.
unfoldable pub answers : List Outcome → ℕ
answers [] = 0
answers (written ∷ outcomes) = suc (answers outcomes)
answers (would_block ∷ outcomes) = answers outcomes
answers (failed code ∷ outcomes) = suc (answers outcomes)

abbrev pub NoFailure : List Outcome → Type 0
NoFailure [] = Unit
NoFailure (written ∷ outcomes) = NoFailure outcomes
NoFailure (would_block ∷ outcomes) = NoFailure outcomes
NoFailure (failed code ∷ outcomes) = ⊥

-- All that was due has been sent, or a proper beginning of it and then an error.
abbrev pub Sent : List Raw → List Raw → List Raw × Result (Unit {0}) → Type 0
Sent sent due (now, ok _) = now ≡ sent ++ due
Sent sent due (now, err code) =
    (done : List Raw) × (raw : Raw) × (left : List Raw) × (due ≡ done ++ raw ∷ left)
    × (now ≡ sent ++ done)

Sent-cons :
    (sent : List Raw) (raw : Raw) (due : List Raw) (r : List Raw × Result (Unit {0}))
    → Sent (sent ++ raw ∷ []) due r
    → Sent sent (raw ∷ due) r
Sent-cons sent raw due (now, ok _) h = h ∙ append_assoc sent (raw ∷ []) due
Sent-cons sent raw due (now, err code) (done, raw', left, split, sent_now) =
    (raw ∷ done, raw', left, ap (◌∷◌ raw) split, sent_now ∙ append_assoc sent (raw ∷ []) done)

write_from_lem :
    (outcomes : List Outcome) (sent due : List Raw)
    → length due ≤ answers outcomes
    → (r : List Raw × Result (Unit {0})) × (write_from outcomes sent due ≡ some r) × Sent sent due r
unfolding write_from answers
write_from_lem outcomes sent [] h = ((sent, ok tt), refl, sym (append-nil sent))
write_from_lem [] sent (raw ∷ due) h = absurd (omega arith)
write_from_lem (written ∷ outcomes) sent (raw ∷ due) h =
    let (r, e, post) = write_from_lem outcomes (sent ++ raw ∷ []) due (omega arith) in
    (r, e, Sent-cons sent raw due r post)
write_from_lem (would_block ∷ outcomes) sent (raw ∷ due) h =
    write_from_lem outcomes sent (raw ∷ due) h
write_from_lem (failed code ∷ outcomes) sent (raw ∷ due) h =
    ((sent, err code), refl, ([], raw, due, refl, sym (append-nil sent)))

-- A frame that was written, and a frame that failed: the recorded keys change only if all of it
-- was sent.
abbrev pub Written : Glue → Writer → List Event → Writer × Result (Unit {0}) → Type 0
Written g w events (w', ok _) =
    (w'.sent ≡ w.sent ++ raw_events g events)
    × (w'.pressed_keys ≡ update_key_states w.pressed_keys events)
Written g w events (w', err code) =
    ((done : List Raw) × (raw : Raw) × (left : List Raw) × (raw_events g events
        ≡ done ++ raw ∷ left)
      × (w'.sent ≡ w.sent ++ done))
    × (w'.pressed_keys ≡ w.pressed_keys)

finish-Written :
    (g : Glue) (w : Writer) (events : List Event) (r : List Raw × Result (Unit {0}))
    → Sent w.sent (raw_events g events) r
    → Written g w events (finish w events r)
finish-Written g w events (now, ok _) h = (h, refl)
finish-Written g w events (now, err code) h = (h, refl)

-- With an outcome for each event of the frame `write_frame` returns. On success the device has
-- received each event that has a raw form once, in order, however often a write had to be tried again, and the keys
-- are recorded; on an error it has received a proper beginning, and no key is recorded.
pub write_frame-Written :
    (g : Glue) (outcomes : List Outcome) (w : Writer) (events : List Event)
    → length (raw_events g events) ≤ answers outcomes
    → (r : Writer × Result (Unit {0})) × (write_frame g outcomes w events ≡ some r)
      × Written g w events r
unfolding write_frame
write_frame-Written g outcomes w events enough =
    let (r, e, post) = write_from_lem outcomes w.sent (raw_events g events) enough in
    (finish w events r, rw (e, write_frame), finish-Written g w events r post)

write_from_ok :
    (outcomes : List Outcome) (sent due : List Raw)
    → NoFailure outcomes
    → length due ≤ answers outcomes
    → write_from outcomes sent due ≡ some (sent ++ due, ok tt)
unfolding write_from answers
write_from_ok outcomes sent [] n h = rw append-nil
write_from_ok [] sent (raw ∷ due) n h = absurd (omega arith)
write_from_ok (written ∷ outcomes) sent (raw ∷ due) n h =
    write_from_ok outcomes (sent ++ raw ∷ []) due n (omega arith)
    ∙ ap (λ l. some (l, ok tt)) (append_assoc sent (raw ∷ []) due)
write_from_ok (would_block ∷ outcomes) sent (raw ∷ due) n h =
    write_from_ok outcomes sent (raw ∷ due) n h
write_from_ok (failed code ∷ outcomes) sent (raw ∷ due) n h = absurd n

-- Where no write fails, the frame is written.
pub write_frame_ok :
    (g : Glue) (outcomes : List Outcome) (w : Writer) (events : List Event)
    → NoFailure outcomes
    → length (raw_events g events) ≤ answers outcomes
    → write_frame g outcomes w events
      ≡ some (
        record {
          sent = w.sent ++ raw_events g events;
          pressed_keys = update_key_states w.pressed_keys events;
        },
        ok tt,
      )
unfolding write_frame
write_frame_ok g outcomes w events n enough =
    rw (write_from_ok outcomes w.sent (raw_events g events) n enough, write_frame)
