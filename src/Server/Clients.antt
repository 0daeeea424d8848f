-- ===== src/Server/Clients.antt =====
-- rkvm-server/src/server.rs: what the functions that send updates do to the clients, seen from the
-- updates that each client has accepted.
use rkvm.Prelude.{
  ℕ, ◌≡◌, refl, Bool, true, false, List, [], ◌∷◌, ◌++◌, none, some, arith, ◌=?◌, ℕ_eq, Option-cases,
  Bool-cases, if◌then◌else◌, inl, inr, ◌⊎◌, ◌≢◌, filter, subst, ap, ◌∙◌, is_some, sym,
}
use rkvm.Collections.Map
use rkvm.Collections.Slab
use rkvm.Collections.Map.{keys}
use rkvm.Collections.Set.{contains}
use rkvm.Net.Message.{Update}
use rkvm.Server.Channel.{Answer, try_send, accepted, closed, full}
use rkvm.Server.State.{
  Client, Clients, try_send_update, broadcast, send_all, remove_client, remove_each,
  remove_dead_clients,
}

-- A property of the accepted updates of each client, which may depend on the client's key.
pub record ForEach (P : ℕ → List Update → Type 0) (clients : Clients) : Type 0 where
  pub distinct : Map.Distinct clients
  pub holds : (k : ℕ) (c : Client) → Map.get k clients ≡ some c → P k c.sender.sent

pub Answer-cases : (a : Answer) → (a ≡ accepted) ⊎ (a ≡ closed) ⊎ (a ≡ full)
Answer-cases accepted = inl refl
Answer-cases closed = inr (inl refl)
Answer-cases full = inr (inr refl)

module _ (P Q : ℕ → List Update → Type 0) where
  insert-ForEach :
      (clients : Clients) (k : ℕ) (c : Client)
      → ForEach P clients
      → Q k c.sender.sent
      → ((j : ℕ) (us : List Update) → k ≢ j → P j us → Q j us)
      → ForEach Q (Map.insert k c clients)
  insert-ForEach clients k c f here keep = record {
    distinct = Map.insert-Distinct k c clients f.distinct;
    holds = λ j c' h. elim (ℕ_eq.dec k j) [
      | yes e ↦
          let same : c ≡ c' = ground (arith, Map.get-insert k j c clients) in
          subst (λ x. Q j x.sender.sent) same (subst (λ i. Q i c.sender.sent) e here)
      | no n ↦ keep j c'.sender.sent n (f.holds j c' (ground (arith, Map.get-insert k j c clients)))
    ];
  }

  remove-ForEach :
      (clients : Clients) (k : ℕ)
      → ForEach P clients
      → ((j : ℕ) (us : List Update) → k ≢ j → P j us → Q j us)
      → ForEach Q (Map.remove k clients)
  remove-ForEach clients k f keep = record {
    distinct = Map.remove-Distinct k clients f.distinct;
    holds = λ j c' h. elim (ℕ_eq.dec k j) [
      | yes e ↦ absurd (ground (arith, Map.get-remove k j clients f.distinct))
      | no n ↦
          keep j c'.sender.sent n
            (f.holds j c' (ground (arith, Map.get-remove k j clients f.distinct)))
    ];
  }

  -- A client that accepts an update has it last; one that does not is gone.
  pub try_send_update-ForEach :
      (clients : Clients) (k : ℕ) (u : Update)
      → ForEach P clients
      → ((us : List Update) → P k us → Q k (us ++ u ∷ []))
      → ((j : ℕ) (us : List Update) → k ≢ j → P j us → Q j us)
      → ForEach Q (try_send_update clients k u).0
  unfolding try_send_update remove_client try_send
  try_send_update-ForEach clients k u f step keep = elim (Option-cases (Map.get k clients)) [
    | inl e ↦
        rw (e, try_send_update)
          (record {
            distinct = f.distinct;
            holds = λ j c h. keep j c.sender.sent (λ same. ground arith) (f.holds j c h);
          })
    | inr (c, e) ↦ elim (Answer-cases (c.sender.answers c.sender.asked)) [
      | inl a ↦
          rw (e, try_send_update, try_send, a)
            (insert-ForEach clients k (record c { sender = (try_send c.sender u).0 }) f
              (rw (a, try_send) (step c.sender.sent (f.holds k c e))) keep)
      | inr (inl a) ↦ rw (e, try_send_update, try_send, a) (remove-ForEach clients k f keep)
      | inr (inr a) ↦ rw (e, try_send_update, try_send, a) (remove-ForEach clients k f keep)
    ]
  ]

-- No key stands twice in the list.
abbrev DistinctKeys : List ℕ → Type 0
DistinctKeys [] = Unit
DistinctKeys (k ∷ ks) = (contains k ks ≡ false) × DistinctKeys ks

pub contains-keys :
    {V : Type 0} (k : ℕ) (m : List (ℕ × V)) → contains k (keys m) ≡ is_some (Map.get k m)
unfolding contains Map.get
contains-keys k [] = refl
contains-keys k ((j, v) ∷ m) = ground (arith, contains-keys k m)

keys-DistinctKeys : {V : Type 0} (m : List (ℕ × V)) → Map.Distinct m → DistinctKeys (keys m)
keys-DistinctKeys [] d = tt
keys-DistinctKeys ((j, v) ∷ m) d = (ground (arith, contains-keys j m), keys-DistinctKeys m d.1)

contains-head : (k : ℕ) (ks : List ℕ) → contains k (k ∷ ks) ≡ true
unfolding contains
contains-head k ks = ground arith

contains-tail : (k j : ℕ) (ks : List ℕ) → k ≢ j → contains j (k ∷ ks) ≡ contains j ks
unfolding contains
contains-tail k j ks other = ground arith

-- What a client has accepted holds before or after, as its key is still to come or not.
abbrev Halfway : (P Q : List Update → Type 0) → List ℕ → ℕ → List Update → Type 0
Halfway P Q ks k us = if contains k ks then P us else Q us

module _ (P Q : List Update → Type 0) (u : Update)
    (step : (us : List Update) → P us → Q (us ++ u ∷ [])) where
  broadcast_rest :
      (ks : List ℕ) (clients : Clients)
      → DistinctKeys ks
      → ForEach (Halfway P Q ks) clients
      → ForEach (λ k. Q) (broadcast ks clients u)
  unfolding broadcast contains
  broadcast_rest [] clients d f = f
  broadcast_rest (k ∷ ks) clients d f = broadcast_rest ks (try_send_update clients k u).0 d.1 (
      try_send_update-ForEach (Halfway P Q (k ∷ ks)) (Halfway P Q ks) clients k u f
        (λ us p.
          subst (λ b. if b then P (us ++ u ∷ []) else Q (us ++ u ∷ [])) (sym d.0)
            (step us (subst (λ b. if b then P us else Q us) (contains-head k ks) p)))
        (λ j us other p. subst (λ b. if b then P us else Q us) (contains-tail k j ks other) p))

  -- A broadcast reaches every client: those that are left have accepted the update.
  pub broadcast-ForEach :
      (clients : Clients)
      → ForEach (λ k. P) clients
      → ForEach (λ k. Q) (broadcast (keys clients) clients u)
  broadcast-ForEach clients f =
      broadcast_rest (keys clients) clients (keys-DistinctKeys clients f.distinct) (record {
        distinct = f.distinct;
        holds = λ k c h.
            subst (λ b. if b then P c.sender.sent else Q c.sender.sent)
              (sym (contains-keys k clients ∙ ap is_some h)) (f.holds k c h);
      })

-- A client that does not accept an update is removed.
try_send_update_refused :
    (clients : Clients) (k : ℕ) (u : Update)
    → Map.Distinct clients
    → (try_send_update clients k u).1 ≡ false
    → Map.get k (try_send_update clients k u).0 ≡ none
unfolding try_send_update remove_client try_send
try_send_update_refused clients k u d refused = elim (Option-cases (Map.get k clients)) [
  | inl e ↦ rw (e, try_send_update) e
  | inr (c, e) ↦ elim (Answer-cases (c.sender.answers c.sender.asked)) [
    | inl a ↦ absurd (ground arith)
    | inr (inl a) ↦
        rw (e, try_send_update, try_send, a) (ground (arith, Map.get-remove k k clients d))
    | inr (inr a) ↦
        rw (e, try_send_update, try_send, a) (ground (arith, Map.get-remove k k clients d))
  ]
]

same_key : (k : ℕ) → (k =? k) ≡ true
same_key k = ground arith

other_key : (k j : ℕ) → k ≢ j → (k =? j) ≡ false
other_key k j other = ground arith

-- A property of one client and a property of the others.
abbrev pub Apart :
    (ℕ → List Update → Type 0) → ℕ → (List Update → Type 0) → ℕ → List Update → Type 0
Apart Q k P j us = if k =? j then P us else Q j us

module _ (Q : ℕ → List Update → Type 0) (k : ℕ) (P : List Update → Type 0) (us : List Update) where
  Apart-same : Apart Q k P k us → P us
  Apart-same = subst (λ b. if b then P us else Q k us) (same_key k)

  pub same-Apart : P us → Apart Q k P k us
  same-Apart = subst (λ b. if b then P us else Q k us) (sym (same_key k))

  Apart-other : (j : ℕ) → k ≢ j → Apart Q k P j us → Q j us
  Apart-other j other = subst (λ b. if b then P us else Q j us) (other_key k j other)

  pub other-Apart : (j : ℕ) → k ≢ j → Q j us → Apart Q k P j us
  other-Apart j other = subst (λ b. if b then P us else Q j us) (sym (other_key k j other))

module _ (P : List Update → List Update → Type 0) (Q : ℕ → List Update → Type 0) (k : ℕ) where
  Apart-ForEach :
      (clients : Clients) (us : List Update)
      → ForEach (Apart Q k (P us)) clients
      → ((sent : List Update) → P us sent → Q k sent) ⊎ (Map.get k clients ≡ none)
      → ForEach Q clients
  Apart-ForEach clients us f done = record {
    distinct = f.distinct;
    holds = λ j c h. elim (ℕ_eq.dec k j) [
      | yes e ↦ elim done [
        | inl finish ↦
            subst (λ i. Q i c.sender.sent) e
              (finish c.sender.sent (
                Apart-same Q k (P us) c.sender.sent
                  (subst (λ i. Apart Q k (P us) i c.sender.sent) (sym e) (f.holds j c h))))
        | inr gone ↦ absurd (ground arith)
      ]
      | no n ↦ Apart-other Q k (P us) c.sender.sent j n (f.holds j c h)
    ];
  }

  -- Sending the updates in turn to one client, each of which leads from one property to the next.
  pub send_all-ForEach :
      (clients : Clients) (us : List Update)
      → ((u : Update) (rest sent : List Update) → P (u ∷ rest) sent → P rest (sent ++ u ∷ []))
      → ((sent : List Update) → P [] sent → Q k sent)
      → ForEach (Apart Q k (P us)) clients
      → ForEach Q (send_all clients k us)
  unfolding send_all
  send_all-ForEach clients [] step done f = Apart-ForEach clients [] f (inl done)
  send_all-ForEach clients (u ∷ us) step done f =
      let next : ForEach (Apart Q k (P us)) (try_send_update clients k u).0 =
        try_send_update-ForEach (Apart Q k (P (u ∷ us))) (Apart Q k (P us)) clients k u f
          (λ sent p.
            same-Apart Q k (P us) (sent ++ u ∷ [])
              (step u us sent (Apart-same Q k (P (u ∷ us)) sent p)))
          (λ j sent n p.
            other-Apart Q k (P us) sent j n (Apart-other Q k (P (u ∷ us)) sent j n p)) in
      elim (Bool-cases (try_send_update clients k u).1) [
        | inl e ↦ rw e (send_all-ForEach (try_send_update clients k u).0 us step done next)
        | inr e ↦
            rw e (Apart-ForEach _ us next (inr (try_send_update_refused clients k u f.distinct e)))
      ]

pub remove_each-ForEach :
    (P : ℕ → List Update → Type 0) (ks : List ℕ) (clients : Clients)
    → ForEach P clients
    → ForEach P (remove_each ks clients)
unfolding remove_each remove_client
remove_each-ForEach P [] clients f = f
remove_each-ForEach P (k ∷ ks) clients f =
    remove_each-ForEach P ks (Map.remove k clients) (remove-ForEach P P clients k f (λ j us n p. p))

pub remove_dead_clients-ForEach :
    (P : ℕ → List Update → Type 0) (is_dead : ℕ → Bool) (clients : Clients)
    → ForEach P clients
    → ForEach P (remove_dead_clients is_dead clients)
unfolding remove_dead_clients
remove_dead_clients-ForEach P is_dead clients f =
    remove_each-ForEach P (filter is_dead (keys clients)) clients f

-- A new client at a vacant key.
pub insert_new-ForEach :
    (P Q : ℕ → List Update → Type 0) (clients : Clients) (k : ℕ) (c : Client)
    → Map.get k clients ≡ none
    → ForEach P clients
    → Q k c.sender.sent
    → ((j : ℕ) (us : List Update) → k ≢ j → P j us → Q j us)
    → ForEach Q (Slab.insert k c clients)
insert_new-ForEach P Q clients k c vacant f here keep = record {
  distinct = Slab.insert-Distinct k c clients vacant f.distinct;
  holds = λ j c' h. elim (ℕ_eq.dec k j) [
    | yes e ↦
        let same : c ≡ c' = ground (arith, Slab.get-insert k j c clients vacant) in
        subst (λ x. Q j x.sender.sent) same (subst (λ i. Q i c.sender.sent) e here)
    | no n ↦
        keep j c'.sender.sent n
          (f.holds j c' (ground (arith, Slab.get-insert k j c clients vacant)))
  ];
}
