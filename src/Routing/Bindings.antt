-- ===== src/Routing/Bindings.antt =====
-- rkvm-server/src/routing.rs: the index of the bindings by trigger, against a search of all of
-- them, and the order in which `next_route` visits the routes.
use mathlib.Core.List.{append_assoc, append-nil}
use rkvm.Prelude.{
  ℕ, zero, suc, ◌+◌, ◌<◌, ◌≡◌, refl, sym, ap, ◌∙◌, ◌&&◌, List, [], ◌∷◌, ◌++◌, none, some, arith,
  inl, inr, ◌=?◌, ℕ_eq, get_elem?, Option-cases, if◌then◌else◌, subst, All, length, ◌≤◌,
}
use rkvm.Collections.Map
use rkvm.Collections.Set.{is_subset}
use rkvm.Input.Key.{Key, Key_eq}
use rkvm.Routing.Router.{
  Router, Route, SwitchBinding, push_index, index_bindings, position, find_satisfied,
  pressed_key_union, matching_binding,
}
use rkvm.Routing.Frame.{next_route}

indices_of : Key → List (Key × List ℕ) → List ℕ
indices_of k m = elim (Map.get k m) [ none ↦ [] | some is ↦ is ]

-- The indices of the bindings with the trigger, in order.
indices_from : ℕ → Key → List SwitchBinding → List ℕ
indices_from i k [] = []
indices_from i k (b ∷ bs) =
    if b.trigger =? k then i ∷ indices_from (suc i) k bs else indices_from (suc i) k bs

indices_of-push_index :
    (j k : Key) (i : ℕ) (m : List (Key × List ℕ))
    → indices_of k (push_index j i m)
      ≡ (if j =? k then indices_of k m ++ i ∷ [] else indices_of k m)
unfolding indices_of push_index
indices_of-push_index j k i m = elim (Option-cases (Map.get j m)) [
  | inl e ↦ ground (arith, Map.get-insert {V = List ℕ} j k (i ∷ []) m)
  | inr (is, e) ↦ ground (arith, Map.get-insert {V = List ℕ} j k (is ++ i ∷ []) m)
]

indices_of-index_bindings :
    (k : Key) (i : ℕ) (bs : List SwitchBinding) (m : List (Key × List ℕ))
    → indices_of k (index_bindings i bs m) ≡ indices_of k m ++ indices_from i k bs
unfolding index_bindings indices_from
indices_of-index_bindings k i [] m = sym (append-nil (indices_of k m))
indices_of-index_bindings k i (b ∷ bs) m = ground (
  arith,
  indices_of-index_bindings k (suc i) bs (push_index b.trigger i m),
  indices_of-push_index b.trigger k i m,
  append_assoc (indices_of k m) (i ∷ []) (indices_from (suc i) k bs),
)

find_satisfied-indices_from :
    (all : List SwitchBinding) (pressed : List Key) (k : Key) (i : ℕ) (bs : List SwitchBinding)
    → ((n : ℕ) → get_elem? all (i + n) ≡ get_elem? bs n)
    → find_satisfied all pressed (indices_from i k bs)
      ≡ position i (λ b. (b.trigger =? k) && is_subset b.keys pressed) bs
unfolding indices_from find_satisfied position
find_satisfied-indices_from all pressed k i [] h = refl
find_satisfied-indices_from all pressed k i (b ∷ bs) h =
    let here : get_elem? all i ≡ some b =
      subst (λ n. get_elem? all n ≡ some b) (omega arith) (h 0) in
    let later =
      find_satisfied-indices_from all pressed k (suc i) bs
        (λ n. subst (λ m. get_elem? all m ≡ get_elem? bs n) (omega arith) (h (suc n))) in
    ground arith

matching_binding_indices :
    (r : Router) (k : Key)
    → matching_binding r k
      ≡ find_satisfied r.bindings
          (pressed_key_union r.physical_keys)
          (indices_of k r.trigger_bindings)
unfolding matching_binding indices_of find_satisfied
matching_binding_indices r k = ground arith

no_indices : (k : Key) (is : List ℕ) → indices_of k [] ++ is ≡ is
unfolding indices_of Map.get
no_indices k is = refl

-- On a router whose index was built by `new`, `matching_binding` finds the first of all bindings
-- that has the trigger and whose keys are all held, and nothing if there is none.
pub matching_binding-position :
    (r : Router) (k : Key)
    → r.trigger_bindings ≡ index_bindings 0 r.bindings []
    → matching_binding r k
      ≡ position 0
          (λ b. (b.trigger =? k) && is_subset b.keys (pressed_key_union r.physical_keys))
          r.bindings
matching_binding-position r k built =
    let pressed = pressed_key_union r.physical_keys in
    matching_binding_indices r k
    ∙ ap (find_satisfied r.bindings pressed) (
        ap (indices_of k) built
        ∙ indices_of-index_bindings k 0 r.bindings []
        ∙ no_indices k (indices_from 0 k r.bindings))
    ∙ find_satisfied-indices_from r.bindings pressed k 0 r.bindings
        (λ n. ap (get_elem? r.bindings) (omega arith))

-- The routes are above a bound and ascend, as `available_routes` lists them.
abbrev pub Ascending : ℕ → List Route → Type 0
Ascending n [] = Unit {0}
Ascending n (route ∷ routes) = (n < route) × Ascending route routes

-- The routes that as many switches in a row lead to.
unfoldable pub switches : ℕ → List Route → Route → List Route
switches zero routes current = []
switches (suc n) routes current =
    next_route routes current ∷ switches n routes (next_route routes current)

next_route-skip :
    (before after : List Route) (current : Route)
    → All (λ route. route ≤ current) before
    → next_route (before ++ after) current ≡ next_route after current
unfolding next_route
next_route-skip [] after current down = refl
next_route-skip (route ∷ before) after current down =
    ground (arith, next_route-skip before after current down.1)

All-snoc :
    (before : List Route) (current next : Route)
    → All (λ route. route ≤ current) before
    → current < next
    → All (λ route. route ≤ next) (before ++ next ∷ [])
All-snoc [] current next down up = omega arith
All-snoc (route ∷ before) current next down up =
    (omega arith, All-snoc before current next down.1 up)

switches_from :
    (before after : List Route) (current : Route)
    → All (λ route. route ≤ current) before
    → Ascending current after
    → switches (suc (length after)) (before ++ after) current ≡ after ++ 0 ∷ []
unfolding switches next_route
switches_from before [] current down up = rw (next_route-skip before [] current down)
switches_from before (next ∷ after) current down up =
    let step : next_route (before ++ next ∷ after) current ≡ next =
      next_route-skip before (next ∷ after) current down ∙ ground arith in
    rw step (
      ap (◌∷◌ next) (
        subst (λ routes. switches (suc (length after)) routes next ≡ after ++ 0 ∷ [])
          (append_assoc before (next ∷ []) after)
          (switches_from (before ++ next ∷ []) after next (All-snoc before current next down up.0)
            up.1)))

-- From the local route, one switch for each client goes through the clients in ascending order,
-- and the next one leads back to the local route.
pub switches-cycle :
    (clients : List Route)
    → Ascending 0 clients
    → switches (suc (length clients)) (0 ∷ clients) 0 ≡ clients ++ 0 ∷ []
switches-cycle clients up = switches_from (0 ∷ []) clients 0 (omega arith) up
