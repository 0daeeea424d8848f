-- ===== src/Monitor/Orderly.antt =====
-- The order that the monitor of rkvm-input/src/monitor.rs keeps among its candidates and in its
-- events, under the writes to one candidate and the sending of an event.
use rkvm.Prelude.{
  ℕ, suc, ◌<◌, ◌≡◌, Bool, true, false, [], ◌∷◌, none, some, arith, ◌≢◌, ap, ◌∙◌, sym, subst, length,
  ◌++◌, inl, inr, ℕ_eq,
}
use rkvm.Collections.Map
use rkvm.Input.Device.{Entry, Entry_eq, Entry-discrete}
use rkvm.Monitor.Candidate.{Candidate}
use rkvm.Monitor.Inventory.{
  Candidates, Monitor, MonitorEvent, activated, remove, Result, ok, err, store, discard, taken,
  send,
}
use rkvm.Monitor.Lives.{newborn, is_lawful, after, are_lawful, afters, are_lawful-snoc, afters-snoc}
use rkvm.Monitor.Labels.{
  active_group, active_id, live_id, active_id-live_id, Injective, Inherits, IsFree, Inherits-IsFree,
  get-insert_same, get-insert_other, insert-cases, insert-Injective, get-remove-some,
  remove-Injective, get-map_values, map_values, map_values-Distinct, map_values-Injective,
}

-- At most one candidate of a group is active, no two have one activation, and the events tell the
-- life of each activation.
pub record IsOrderly (s : Monitor) : Type 0 where
  pub distinct : Map.Distinct s.candidates
  pub one_active : Injective active_group s.candidates
  pub own_id : Injective active_id s.candidates
  pub issued :
      (k : Entry) (c : Candidate) (n : ℕ)
      → Map.get k s.candidates ≡ some c
      → active_id c ≡ some n
      → n < s.next_activation_id
  pub lawful : are_lawful newborn s.sent ≡ true
  pub announced : (n : ℕ) → (afters newborn s.sent).ever n ≡ true → n < s.next_activation_id
  pub live :
      (k : Entry) (c : Candidate) (n : ℕ)
      → Map.get k s.candidates ≡ some c
      → live_id c ≡ some n
      → (afters newborn s.sent).live n ≡ true

abbrev pub Orderly : Result Monitor → Type 0
Orderly (ok s) = IsOrderly s
Orderly (err failure) = Unit

-- The candidate is active only as the one that it replaces is.
pub record Follows (m : Candidates) (key : Entry) (c : Candidate) : Type 0 where
  pub group : Inherits active_group m key c
  pub id : Inherits active_id m key c
  pub unremoved : Inherits live_id m key c

pub store-IsOrderly :
    (s : Monitor) (key : Entry) (c : Candidate)
    → IsOrderly s
    → Follows s.candidates key c
    → IsOrderly (store key c s)
unfolding store
store-IsOrderly s key c o f = record {
  distinct = Map.insert-Distinct key c s.candidates o.distinct;
  one_active =
      insert-Injective active_group s.candidates key c o.one_active
        (Inherits-IsFree active_group s.candidates key c o.one_active f.group);
  own_id =
      insert-Injective active_id s.candidates key c o.own_id
        (Inherits-IsFree active_id s.candidates key c o.own_id f.id);
  issued = λ k d n found label. elim (Entry-discrete key k) [
    | yes e ↦
        let same =
          get-insert_same s.candidates key c d
            (subst (λ x. Map.get x (Map.insert key c s.candidates) ≡ some d) (sym e) found) in
        let (old, there, l) = f.id n (ap active_id same ∙ label) in o.issued key old n there l
    | no other ↦ o.issued k d n (get-insert_other s.candidates key k c d other found) label
  ];
  lawful = o.lawful;
  announced = o.announced;
  live = λ k d n found label. elim (Entry-discrete key k) [
    | yes e ↦
        let same =
          get-insert_same s.candidates key c d
            (subst (λ x. Map.get x (Map.insert key c s.candidates) ≡ some d) (sym e) found) in
        let (old, there, l) = f.unremoved n (ap live_id same ∙ label) in o.live key old n there l
    | no other ↦ o.live k d n (get-insert_other s.candidates key k c d other found) label
  ];
}

pub discard-IsOrderly : (s : Monitor) (key : Entry) → IsOrderly s → IsOrderly (discard key s)
unfolding discard
discard-IsOrderly s key o = record {
  distinct = Map.remove-Distinct key s.candidates o.distinct;
  one_active = remove-Injective active_group s.candidates key o.distinct o.one_active;
  own_id = remove-Injective active_id s.candidates key o.distinct o.own_id;
  issued = λ k d n found. o.issued k d n (get-remove-some s.candidates key k d o.distinct found);
  lawful = o.lawful;
  announced = o.announced;
  live = λ k d n found. o.live k d n (get-remove-some s.candidates key k d o.distinct found);
}

-- A change of all candidates that makes none active.
pub map_values-IsOrderly :
    (s : Monitor) (f : Candidate → Candidate)
    → ((c : Candidate) (n : ℕ) → active_group (f c) ≡ some n → active_group c ≡ some n)
    → ((c : Candidate) (n : ℕ) → active_id (f c) ≡ some n → active_id c ≡ some n)
    → ((c : Candidate) (n : ℕ) → live_id (f c) ≡ some n → live_id c ≡ some n)
    → IsOrderly s
    → IsOrderly (record s { candidates = map_values f s.candidates })
map_values-IsOrderly s f group id unremoved o = record {
  distinct = map_values-Distinct f s.candidates o.distinct;
  one_active = map_values-Injective active_group f s.candidates group o.one_active;
  own_id = map_values-Injective active_id f s.candidates id o.own_id;
  issued = λ k d n found label.
      let (c, there, e) = get-map_values f s.candidates k d found in
      o.issued k c n there (id c n (ap active_id e ∙ label));
  lawful = o.lawful;
  announced = o.announced;
  live = λ k d n found label.
      let (c, there, e) = get-map_values f s.candidates k d found in
      o.live k c n there (unremoved c n (ap live_id e ∙ label));
}

send-Orderly :
    (s : Monitor) (event : MonitorEvent)
    → IsOrderly (record s { sent = s.sent ++ event ∷ [] })
    → Orderly (send event s)
unfolding send
send-Orderly s event o = go (s.is_open (length s.sent))
  where
    go : (answer : Bool) → Orderly (taken answer event s)
    go true = o
    go false = tt

-- A candidate whose removal is asked for shares its activation with no other.
other_live :
    (s : Monitor) (key : Entry) (c d : Candidate) (id : ℕ)
    → IsOrderly s
    → Map.get key s.candidates ≡ some c
    → live_id c ≡ some id
    → live_id d ≡ none
    → (k : Entry) (e : Candidate) (n : ℕ) → Map.get k (Map.insert key d s.candidates) ≡ some e
    → live_id e ≡ some n
    → id ≢ n
other_live s key c d id o found label removed k e n there l same = elim (Entry-discrete key k) [
  | yes here ↦
      let equal =
        get-insert_same s.candidates key d e
          (subst (λ x. Map.get x (Map.insert key d s.candidates) ≡ some e) (sym here) there) in
      absurd (cc (sym removed ∙ ap live_id equal ∙ l))
  | no other ↦ other (
      o.own_id key k c e n found (get-insert_other s.candidates key k d e other there)
        (active_id-live_id c n (label ∙ ap some same)) (active_id-live_id e n l))
]

-- Asking for the removal of a live activation, whose candidate is marked first.
pub send-remove-Orderly :
    (s : Monitor) (key : Entry) (c : Candidate) (id : ℕ)
    → IsOrderly s
    → Map.get key s.candidates ≡ some c
    → live_id c ≡ some id
    → (d : Candidate) → Follows s.candidates key d
    → live_id d ≡ none
    → Orderly (send (remove id) (store key d s))
unfolding store is_lawful after
send-remove-Orderly s key c id o found label d f removed =
    let stored = store-IsOrderly s key d o f in
    let shape = afters-snoc newborn s.sent (remove id) in
    send-Orderly (store key d s) (remove id) (record {
      distinct = stored.distinct;
      one_active = stored.one_active;
      own_id = stored.own_id;
      issued = stored.issued;
      lawful =
          are_lawful-snoc newborn s.sent (remove id)
          ∙ ground (arith, o.lawful, o.live key c id found label);
      announced = λ n h. o.announced n (ap (λ l. l.ever n) (sym shape) ∙ h);
      live = λ k e n there l.
          let apart = other_live s key c d id o found label removed k e n there l in
          ap (λ x. x.live n) shape ∙ ground (arith, stored.live k e n there l);
    })

-- The next activation is that of no candidate.
new_id :
    (s : Monitor) (c d : Candidate) (n : ℕ) (k : Entry)
    → IsOrderly s
    → active_id c ≡ some s.next_activation_id
    → active_id c ≡ some n
    → Map.get k s.candidates ≡ some d
    → active_id d ≡ some n
    → ⊥
new_id s c d n k o label e there l =
    let same : n ≡ s.next_activation_id = ground arith in
    let below = o.issued k d n there l in omega arith

-- Announcing the activation of a candidate, in whose group no other is active.
pub send_activated-Orderly :
    (s : Monitor) (key : Entry) (c : Candidate)
    → IsOrderly s
    → active_id c ≡ some s.next_activation_id
    → IsFree active_group s.candidates key (active_group c)
    → Orderly (
        send
          (activated s.next_activation_id)
          (record (store key c s) { next_activation_id = suc s.next_activation_id }))
unfolding store is_lawful after
send_activated-Orderly s key c o label free =
    let next = s.next_activation_id in
    let m = s.candidates in
    let shape = afters-snoc newborn s.sent (activated next) in
    send-Orderly (record (store key c s) { next_activation_id = suc next }) (activated next)
      (record {
        distinct = Map.insert-Distinct key c m o.distinct;
        one_active = insert-Injective active_group m key c o.one_active free;
        own_id =
            insert-Injective active_id m key c o.own_id
              (λ n e k d there l. absurd (new_id s c d n k o label e there l));
        issued = λ k d n there l. elim (insert-cases m key k c d there) [
          | inl same ↦
              let equal : n ≡ next = ground (arith, ap active_id same ∙ l, label) in omega arith
          | inr old ↦ omega (arith, o.issued k d n old l)
        ];
        lawful =
            are_lawful-snoc newborn s.sent (activated next)
            ∙ ground (arith, o.lawful, o.announced next);
        announced = λ n h. ground (arith, o.announced n, ap (λ x. x.ever n) (sym shape) ∙ h);
        live = λ k d n there l. ap (λ x. x.live n) shape ∙ (elim (insert-cases m key k c d there) [
          | inl same ↦
              let equal : n ≡ next =
                ground (arith, ap active_id same ∙ active_id-live_id d n l, label) in
              ground arith
          | inr old ↦ ground (arith, o.live k d n old l)
        ]);
      })
