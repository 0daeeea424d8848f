-- ===== src/Routing/Held.antt =====
-- rkvm-server/src/routing.rs: how the operations change which keys a device holds and which of
-- them are blocked. Each law reads a map of sets through `keys_of`.
use rkvm.Prelude.{
  ℕ, ◌≡◌, refl, Bool, false, ◌&&◌, not, List, [], ◌∷◌, none, arith, ℕ_eq, ◌=?◌, if◌then◌else◌,
  filter, inl, inr, Option-cases,
}
use rkvm.Collections.Set.{
  contains, is_empty, contains-filter, contains-remove, contains-insert, not_contains_of_empty,
}
use rkvm.Collections.Set
use rkvm.Collections.Map
use rkvm.Collections.Map.{Distinct}
use rkvm.Input.Key.{Key, Key_eq}
use rkvm.Routing.Router.{Router, keys_of, update_physical_key, set_blocked, unblock_key, block_held}

module _ (k : Key) (d d' : ℕ) where
  pub keys_of-insert :
      (ks : List Key) (m : List (ℕ × List Key))
      → contains k (keys_of d' (Map.insert d ks m))
        ≡ (if d =? d' then contains k ks else contains k (keys_of d' m))
  unfolding keys_of
  keys_of-insert ks m = ground (arith, Map.get-insert d d' ks m)

  pub keys_of-remove :
      (m : List (ℕ × List Key))
      → Distinct m
      → contains k (keys_of d' (Map.remove d m))
        ≡ (if d =? d' then false else contains k (keys_of d' m))
  unfolding keys_of contains
  keys_of-remove m distinct = ground (arith, Map.get-remove d d' m distinct)

  pub keys_of-or_insert :
      (m : List (ℕ × List Key))
      → contains k (keys_of d' (Map.or_insert d [] m)) ≡ contains k (keys_of d' m)
  unfolding keys_of contains
  keys_of-or_insert m = ground (arith, Map.get-or_insert {V = List Key} d d' [] m)

  pub keys_of-set_blocked :
      (ks : List Key) (m : List (ℕ × List Key))
      → Distinct m
      → contains k (keys_of d' (set_blocked d ks m))
        ≡ (if d =? d' then contains k ks else contains k (keys_of d' m))
  unfolding set_blocked
  keys_of-set_blocked ks m distinct =
      ground (arith, keys_of-insert ks m, keys_of-remove m distinct, not_contains_of_empty k ks)

pub set_blocked-Distinct :
    (d : ℕ) (ks : List Key) (m : List (ℕ × List Key)) → Distinct m → Distinct (set_blocked d ks m)
unfolding set_blocked
set_blocked-Distinct d ks m distinct =
    ground (arith, Map.insert-Distinct d ks m distinct, Map.remove-Distinct d m distinct)

pub get-block_held-none :
    (p : Key → Bool) (d : ℕ) (m : List (ℕ × List Key))
    → Map.get d m ≡ none
    → Map.get d (block_held p m) ≡ none
unfolding block_held Map.get
get-block_held-none p d [] h = refl
get-block_held-none p d ((d', ks) ∷ m) h = ground (arith, get-block_held-none p d m)

-- A device's blocked keys after a handoff are its held keys that pass the test.
pub keys_of-block_held :
    (p : Key → Bool) (k : Key) (d : ℕ) (m : List (ℕ × List Key))
    → Distinct m
    → contains k (keys_of d (block_held p m)) ≡ p k && contains k (keys_of d m)
unfolding keys_of block_held Map.get contains
keys_of-block_held p k d [] distinct = ground arith
keys_of-block_held p k d ((d', ks) ∷ m) distinct = ground (
  arith,
  keys_of-block_held p k d m distinct.1,
  contains-filter p k ks,
  not_contains_of_empty k (filter p ks),
  get-block_held-none p d m,
)

pub block_held-Distinct :
    (p : Key → Bool) (m : List (ℕ × List Key)) → Distinct m → Distinct (block_held p m)
unfolding block_held
block_held-Distinct p [] distinct = tt
block_held-Distinct p ((d, ks) ∷ m) distinct =
    ground (arith, block_held-Distinct p m distinct.1, get-block_held-none p d m)

-- A press adds the key to the device's held keys, a release removes it, and nothing else changes.
pub keys_of-update_physical_key :
    (r : Router) (d : ℕ) (k : Key) (down : Bool) (d' : ℕ) (k' : Key)
    → contains k' (keys_of d' (update_physical_key r d k down).physical_keys)
      ≡ (if (d =? d') && (k =? k') then down else contains k' (keys_of d' r.physical_keys))
unfolding update_physical_key
keys_of-update_physical_key r d k down d' k' =
    let held = Map.or_insert d [] r.physical_keys in
    ground (
      arith,
      keys_of-insert k' d d'
          (if down then Set.insert k (keys_of d held) else Set.remove k (keys_of d held)) held,
      keys_of-or_insert k' d d' r.physical_keys,
      contains-insert k k' (keys_of d held),
      contains-remove k k' (keys_of d held),
    )

pub update_physical_key-Distinct :
    (r : Router) (d : ℕ) (k : Key) (down : Bool)
    → Distinct r.physical_keys
    → Distinct (update_physical_key r d k down).physical_keys
unfolding update_physical_key
update_physical_key-Distinct r d k down distinct =
    Map.insert-Distinct d _ _ (Map.or_insert-Distinct d [] r.physical_keys distinct)

-- Only the released key of the device is unblocked.
pub keys_of-unblock_key :
    (r : Router) (d : ℕ) (k : Key) (d' : ℕ) (k' : Key)
    → Distinct r.blocked_keys
    → contains k' (keys_of d' (unblock_key r d k).blocked_keys)
      ≡ not ((d =? d') && (k =? k')) && contains k' (keys_of d' r.blocked_keys)
unfolding unblock_key keys_of contains
keys_of-unblock_key r d k d' k' distinct = elim (Option-cases (Map.get d r.blocked_keys)) [
  | inl e ↦ ground arith
  | inr (ks, e) ↦ ground (
    arith,
    keys_of-set_blocked k' d d' (Set.remove k ks) r.blocked_keys distinct,
    contains-remove k k' ks,
  )
]

pub unblock_key-Distinct :
    (r : Router) (d : ℕ) (k : Key)
    → Distinct r.blocked_keys
    → Distinct (unblock_key r d k).blocked_keys
unfolding unblock_key
unblock_key-Distinct r d k distinct = elim (Option-cases (Map.get d r.blocked_keys)) [
  | inl e ↦ rw (e, unblock_key) distinct
  | inr (ks, e) ↦
      rw (e, unblock_key) (set_blocked-Distinct d (Set.remove k ks) r.blocked_keys distinct)
]
