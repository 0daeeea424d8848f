-- ===== src/Monitor/Labels.antt =====
-- Labels of the candidates of rkvm-input/src/monitor.rs that no two candidates share: the group of an
-- active one, and its activation.
use rkvm.Prelude.{
  ℕ, ◌≡◌, refl, false, [], ◌∷◌, map, Option, none, some, arith, ◌≢◌, ◌⊎◌, inl, inr, ap, ◌∙◌, sym,
  subst,
}
use rkvm.Collections.Map
use rkvm.Input.Device.{Entry, Entry_eq, Entry-discrete}
use rkvm.Monitor.Policy.{Selection}
use rkvm.Monitor.Candidate.{Candidate, CandidateState, active}
use rkvm.Monitor.Inventory.{Candidates}

abbrev Label : Type 0
Label = Candidate → Option ℕ

abbrev group_label : CandidateState → Option Selection → Option ℕ
group_label (active id removal_sent) (some s) = s.group
group_label _ _ = none

-- The group that the candidate is active in.
unfoldable pub active_group : Label
active_group c = group_label c.state c.selection

abbrev id_label : CandidateState → Option ℕ
id_label (active id removal_sent) = some id
id_label _ = none

unfoldable pub active_id : Label
active_id c = id_label c.state

abbrev live_label : CandidateState → Option ℕ
live_label (active id false) = some id
live_label _ = none

-- The activation whose removal has not been asked for.
unfoldable pub live_id : Label
live_id c = live_label c.state

pub active_id-live_id : (c : Candidate) (n : ℕ) → live_id c ≡ some n → active_id c ≡ some n
unfolding active_id live_id
active_id-live_id c n h = ground arith

abbrev pub Injective : Label → Candidates → Type 0
Injective label m =
    (k j : Entry) (c d : Candidate) (n : ℕ)
    → Map.get k m ≡ some c
    → Map.get j m ≡ some d
    → label c ≡ some n
    → label d ≡ some n
    → k ≡ j

-- The label of a new candidate is that of the one it replaces.
abbrev pub Inherits : Label → Candidates → Entry → Candidate → Type 0
Inherits label m key c =
    (n : ℕ) → label c ≡ some n → (d : Candidate) × (Map.get key m ≡ some d) × (label d ≡ some n)

-- No other candidate has the label.
abbrev pub IsFree : Label → Candidates → Entry → Option ℕ → Type 0
IsFree label m key wanted =
    (n : ℕ)
    → wanted ≡ some n
    → (k : Entry) (d : Candidate) → Map.get k m ≡ some d
    → label d ≡ some n
    → k ≡ key

pub Inherits-IsFree :
    (label : Label) (m : Candidates) (key : Entry) (c : Candidate)
    → Injective label m
    → Inherits label m key c
    → IsFree label m key (label c)
Inherits-IsFree label m key c inj inherits n e k d found same =
    let (old, there, l) = inherits n e in inj k key d old n found there same l

pub get-insert_same :
    (m : Candidates) (key : Entry) (c d : Candidate)
    → Map.get key (Map.insert key c m) ≡ some d
    → c ≡ d
get-insert_same m key c d h = ground (arith, Map.get-insert key key c m)

pub get-insert_other :
    (m : Candidates) (key k : Entry) (c d : Candidate)
    → key ≢ k
    → Map.get k (Map.insert key c m) ≡ some d
    → Map.get k m ≡ some d
get-insert_other m key k c d n h = ground (arith, Map.get-insert key k c m)

-- What is found after a write is what was written or what was there.
pub insert-cases :
    (m : Candidates) (key k : Entry) (c d : Candidate)
    → Map.get k (Map.insert key c m) ≡ some d
    → (c ≡ d) ⊎ (Map.get k m ≡ some d)
insert-cases m key k c d h = elim (Entry-discrete key k) [
  | yes e ↦
      inl
        (get-insert_same m key c d (subst (λ x. Map.get x (Map.insert key c m) ≡ some d) (sym e) h))
  | no n ↦ inr (get-insert_other m key k c d n h)
]

pub insert-Injective :
    (label : Label) (m : Candidates) (key : Entry) (c : Candidate)
    → Injective label m
    → IsFree label m key (label c)
    → Injective label (Map.insert key c m)
insert-Injective label m key c inj free k j a b n fk fj la lb = elim (Entry-discrete key k) [
  | yes ek ↦ elim (Entry-discrete key j) [
    | yes ej ↦ sym ek ∙ ej
    | no nj ↦
        let same =
          get-insert_same m key c a
            (subst (λ x. Map.get x (Map.insert key c m) ≡ some a) (sym ek) fk) in
        sym ek ∙ sym (free n (ap label same ∙ la) j b (get-insert_other m key j c b nj fj) lb)
  ]
  | no nk ↦ elim (Entry-discrete key j) [
    | yes ej ↦
        let same =
          get-insert_same m key c b
            (subst (λ x. Map.get x (Map.insert key c m) ≡ some b) (sym ej) fj) in
        free n (ap label same ∙ lb) k a (get-insert_other m key k c a nk fk) la ∙ ej
    | no nj ↦
        inj k j a b n (get-insert_other m key k c a nk fk) (get-insert_other m key j c b nj fj) la
          lb
  ]
]

pub get-remove-some :
    (m : Candidates) (key k : Entry) (d : Candidate)
    → Map.Distinct m
    → Map.get k (Map.remove key m) ≡ some d
    → Map.get k m ≡ some d
get-remove-some m key k d distinct h = ground (arith, Map.get-remove key k m distinct)

pub remove-Injective :
    (label : Label) (m : Candidates) (key : Entry)
    → Map.Distinct m
    → Injective label m
    → Injective label (Map.remove key m)
remove-Injective label m key distinct inj k j a b n fk fj =
    inj k j a b n (get-remove-some m key k a distinct fk) (get-remove-some m key j b distinct fj)

abbrev pub map_values : (Candidate → Candidate) → Candidates → Candidates
map_values f = map (λ e. (e.0, f e.1))

-- A value of a mapped list comes from one of the list.
pub get-map_values :
    (f : Candidate → Candidate) (m : Candidates) (k : Entry) (d : Candidate)
    → Map.get k (map_values f m) ≡ some d
    → (c : Candidate) × (Map.get k m ≡ some c) × (f c ≡ d)
unfolding Map.get
get-map_values f [] k d h = cc
get-map_values f ((j, c) ∷ m) k d h = elim (Entry-discrete j k) [
  | yes e ↦ (c, ground arith, ground arith)
  | no n ↦ let (c', there, e) = get-map_values f m k d (ground arith) in (c', ground arith, e)
]

map_values-none :
    (f : Candidate → Candidate) (m : Candidates) (k : Entry)
    → Map.get k m ≡ none
    → Map.get k (map_values f m) ≡ none
unfolding Map.get
map_values-none f [] k h = refl
map_values-none f ((j, c) ∷ m) k h = ground (arith, map_values-none f m k)

pub map_values-Distinct :
    (f : Candidate → Candidate) (m : Candidates) → Map.Distinct m → Map.Distinct (map_values f m)
map_values-Distinct f [] h = tt
map_values-Distinct f ((j, c) ∷ m) (fresh, h) =
    (map_values-none f m j fresh, map_values-Distinct f m h)

pub map_values-Injective :
    (label : Label) (f : Candidate → Candidate) (m : Candidates)
    → ((c : Candidate) (n : ℕ) → label (f c) ≡ some n → label c ≡ some n)
    → Injective label m
    → Injective label (map_values f m)
map_values-Injective label f m keeps inj k j a b n fk fj la lb =
    let (c, tc, ec) = get-map_values f m k a fk in
    let (d, td, ed) = get-map_values f m j b fj in
    inj k j c d n tc td (keeps c n (ap label ec ∙ la)) (keeps d n (ap label ed ∙ lb))
