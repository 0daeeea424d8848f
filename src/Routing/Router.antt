-- ===== src/Routing/Router.antt =====
-- rkvm-server/src/routing.rs: the data, `Router::new`, the device operations and the queries.
-- A `HashMap` lists its entries in insertion order here; Rust leaves the order open. An index into
-- `bindings` that is out of range panics in the source; here the lookup is `none`.
use rkvm.Prelude.{
  ℕ, suc, Bool, true, false, ◌&&◌, ◌||◌, not, List, [], ◌∷◌, ◌++◌, map, Option, none, some, ℕ_eq,
  ◌=?◌, ◌==◌, if◌then◌else◌, filter, get_elem?,
}
use rkvm.Collections.Set.{contains, is_empty, is_subset, is_disjoint}
use rkvm.Collections.Set
use rkvm.Collections.Map
use rkvm.Collections.Map.{keys}
use rkvm.Input.Key.{Key, Key_eq, is_modifier, is_button}
use rkvm.Input.Event.{Event}

abbrev pub Route : Type 0
Route = ℕ

pub record SwitchBinding : Type 0 where
  pub keys : List Key
  pub trigger : Key

pub data Action : Type 0 where
  events : Route → ℕ → List Event → Action
  set_key_state : Route → ℕ → List Key → Action

pub record Router : Type 0 where
  pub current : Route
  pub bindings : List SwitchBinding
  pub trigger_bindings : List (Key × List ℕ)
  pub switch_keys : List Key
  pub trigger_keys : List Key
  pub consumed_buttons : List Key
  pub propagate_switch_keys : Bool
  pub active_binding : Option ℕ
  pub physical_keys : List (ℕ × List Key)
  pub blocked_keys : List (ℕ × List Key)

pub data ReconcileMode : Type 0 where
  handoff recovery : ReconcileMode

-- `HashMap::get` where a missing set reads as the empty one.
unfoldable pub keys_of : ℕ → List (ℕ × List Key) → List Key
keys_of d m = elim (Map.get d m) [ none ↦ [] | some ks ↦ ks ]

-- `entry(key).or_default().push(index)`
unfoldable pub push_index : Key → ℕ → List (Key × List ℕ) → List (Key × List ℕ)
push_index k i m = elim (Map.get k m) [
  | none ↦ Map.insert k (i ∷ []) m
  | some is ↦ Map.insert k (is ++ i ∷ []) m
]

unfoldable pub index_bindings : ℕ → List SwitchBinding → List (Key × List ℕ) → List (Key × List ℕ)
index_bindings i [] m = m
index_bindings i (b ∷ bs) m = index_bindings (suc i) bs (push_index b.trigger i m)

unfoldable pub binding_keys : List SwitchBinding → List Key
binding_keys [] = []
binding_keys (b ∷ bs) = b.keys ++ binding_keys bs

unfoldable pub new : List SwitchBinding → Bool → Bool → Router
new bindings propagate consume = record {
  current = 0;
  bindings = bindings;
  trigger_bindings = index_bindings 0 bindings [];
  switch_keys = binding_keys bindings;
  trigger_keys = map (λ b. b.trigger) bindings;
  consumed_buttons = filter (λ k. consume && is_button k) (binding_keys bindings);
  propagate_switch_keys = propagate;
  active_binding = none;
  physical_keys = [];
  blocked_keys = [];
}

unfoldable pub pressed_key_union : List (ℕ × List Key) → List Key
pressed_key_union [] = []
pressed_key_union ((d, ks) ∷ m) = ks ++ pressed_key_union m

-- `bindings[index].trigger == key` for the active binding.
unfoldable pub is_active_trigger : Router → Key → Bool
is_active_trigger r k = elim r.active_binding [
  | none ↦ false
  | some i ↦ elim (get_elem? r.bindings i) [ none ↦ false | some b ↦ b.trigger =? k ]
]

-- The first index, counted from the first argument, whose binding passes the test (`position`).
unfoldable pub position : ℕ → (SwitchBinding → Bool) → List SwitchBinding → Option ℕ
position i p [] = none
position i p (b ∷ bs) = if p b then some i else position (suc i) p bs

unfoldable pub find_satisfied : List SwitchBinding → List Key → List ℕ → Option ℕ
find_satisfied bs pressed [] = none
find_satisfied bs pressed (i ∷ is) =
    let rest = find_satisfied bs pressed is in
    elim (get_elem? bs i) [
      | none ↦ rest
      | some b ↦ if is_subset b.keys pressed then some i else rest
    ]

unfoldable pub matching_binding : Router → Key → Option ℕ
matching_binding r trigger = elim (Map.get trigger r.trigger_bindings) [
  | none ↦ none
  | some is ↦ find_satisfied r.bindings (pressed_key_union r.physical_keys) is
]

unfoldable pub update_physical_key : Router → ℕ → Key → Bool → Router
update_physical_key r d k down =
    let held = Map.or_insert d [] r.physical_keys in
    record r {
      physical_keys =
          Map.insert d
            (if down then Set.insert k (keys_of d held) else Set.remove k (keys_of d held)) held;
    }

-- An empty set is removed from the map.
unfoldable pub set_blocked : ℕ → List Key → List (ℕ × List Key) → List (ℕ × List Key)
set_blocked d ks m = if is_empty ks then Map.remove d m else Map.insert d ks m

unfoldable pub unblock_key : Router → ℕ → Key → Router
unblock_key r d k = elim (Map.get d r.blocked_keys) [
  | none ↦ r
  | some ks ↦ record r { blocked_keys = set_blocked d (Set.remove k ks) r.blocked_keys }
]

unfoldable pub rearm_after_trigger_release : Router → Key → Router
rearm_after_trigger_release r k =
    if is_active_trigger r k then record r { active_binding = none } else r

unfoldable pub clear_inactive_binding : Router → Router
clear_inactive_binding r = elim r.active_binding [
  | none ↦ r
  | some i ↦ elim (get_elem? r.bindings i) [
    | none ↦ r
    | some b ↦
        if is_disjoint b.keys (pressed_key_union r.physical_keys)
        then record r { active_binding = none }
        else r
  ]
]

-- The `filter_map` of both handoffs: for each device the held keys that pass the test.
unfoldable pub block_held : (Key → Bool) → List (ℕ × List Key) → List (ℕ × List Key)
block_held p [] = []
block_held p ((d, ks) ∷ m) =
    let rest = block_held p m in if is_empty (filter p ks) then rest else (d, filter p ks) ∷ rest

unfoldable pub is_unpropagated : Router → Key → Bool
is_unpropagated r k = not r.propagate_switch_keys && contains k r.switch_keys

unfoldable pub prepare_handoff : Router → ℕ → Router
prepare_handoff r i = elim (get_elem? r.bindings i) [
  | none ↦ r
  | some b ↦ record r {
    blocked_keys =
        block_held (λ k. not (is_modifier k) || (k =? b.trigger) || is_unpropagated r k)
          r.physical_keys;
  }
]

unfoldable pub prepare_handoff_without_binding : Router → Router
prepare_handoff_without_binding r = record r {
  blocked_keys =
      block_held (λ k. not (is_modifier k) || is_active_trigger r k || is_unpropagated r k)
        r.physical_keys;
}

unfoldable pub is_recovery : ReconcileMode → Bool
is_recovery recovery = true
is_recovery handoff = false

unfoldable pub desired_keys : Router → ℕ → ReconcileMode → List Key
desired_keys r d mode = elim (Map.get d r.physical_keys) [
  | none ↦ []
  | some physical ↦
      filter
        (λ k.
          (is_recovery mode || is_modifier k)
          && not (contains k r.consumed_buttons)
          && not (contains k (keys_of d r.blocked_keys)))
        physical
]

-- The first loop of `reconcile_all`, over the routes other than the current one.
unfoldable pub release_routes : List ℕ → List Route → List Action
release_routes devices [] = []
release_routes devices (route ∷ routes) =
    map (λ d. set_key_state route d []) devices ++ release_routes devices routes

unfoldable pub reconcile_all : Router → List Route → ReconcileMode → List Action
reconcile_all r routes mode =
    release_routes (keys r.physical_keys) (filter (λ route. not (route == r.current)) routes)
    ++ (if contains r.current routes
        then map (λ d. set_key_state r.current d (desired_keys r d mode)) (keys r.physical_keys)
        else [])

unfoldable pub reconcile_device : Router → ℕ → List Route → ReconcileMode → List Action
reconcile_device r d routes mode =
    map (λ route. set_key_state route d (if route == r.current then desired_keys r d mode else []))
      routes

unfoldable pub add_device : Router → ℕ → List Key → List Route → Router × List Action
add_device r d pressed routes =
    let blocked =
      filter (λ k. contains k r.trigger_keys || contains k r.consumed_buttons) pressed in
    let r' : Router = record r {
      physical_keys = Map.insert d pressed r.physical_keys;
      blocked_keys = set_blocked d blocked r.blocked_keys;
    } in
    (r', reconcile_device r' d routes recovery)

-- The test of `reset_device` for a key to block, once the active binding is found.
unfoldable pub is_reset_blocked : Router → Key → Bool
is_reset_blocked r k = contains k r.consumed_buttons || (elim r.active_binding [
  | none ↦ contains k r.trigger_keys
  | some i ↦ not (is_modifier k) || is_active_trigger r k || is_unpropagated r k
])

unfoldable pub reset_device : Router → ℕ → List Key → List Route → Router × List Action
reset_device r d pressed routes =
    let held = Map.insert d pressed r.physical_keys in
    let found = position 0 (λ b. is_subset b.keys (pressed_key_union held)) r.bindings in
    let r' : Router = record r { physical_keys = held; active_binding = found } in
    let blocked = filter (is_reset_blocked r') (keys_of d held) in
    let r'' : Router = record r' { blocked_keys = set_blocked d blocked r.blocked_keys } in
    (r'', reconcile_device r'' d routes recovery)

unfoldable pub remove_device : Router → ℕ → Router
remove_device r d = clear_inactive_binding (record r {
  physical_keys = Map.remove d r.physical_keys;
  blocked_keys = Map.remove d r.blocked_keys;
})

unfoldable pub retain_routes : Router → List Route → Router × List Action
retain_routes r routes =
    let r' = prepare_handoff_without_binding (record r { current = 0 }) in
    if contains r.current routes then (r, []) else (r', reconcile_all r' routes handoff)
