-- ===== src/Monitor/Claiming.antt =====
-- rkvm-input/src/monitor.rs: `reconcile` keeps the order among the candidates, since it claims only for
-- groups of which no candidate is active.
use rkvm.Prelude.{
  ℕ, suc, ◌≡◌, refl, Bool, true, false, List, [], ◌∷◌, Option, none, some, arith, ap, ◌∙◌, sym,
  subst, length, Option-cases, inl, inr, ltb,
}
use mathlib.Core.Option.{some-injective}
use rkvm.Collections.Map
use rkvm.Input.Device.{Entry, Entry_eq, Entry-discrete}
use rkvm.Monitor.Policy.{groups, GroupPolicy}
use rkvm.Monitor.Candidate.{Candidate, active, is_active, schedule_backoff}
use rkvm.Monitor.Inventory.{
  Candidates, Monitor, MonitorEvent, activated, Result, ok, err, and_then, store, discard, send,
  taken,
}
use rkvm.Monitor.Claims.{
  Files, active_rule, claim_groups, claim_keys, log_promotion, log_promotions, activation_ids,
  claimed, owned, stale, not_applicable, busy, gone, interrupted, permission, unsupported_device,
  output_vanished, output_interrupted, output_failed, infrastructure, other, settle, attempt,
  activate, Claim, claim_key, claim_all, reconcile,
}
use rkvm.Monitor.Labels.{
  active_group, active_id, live_id, get-insert_same, get-insert_other, get-remove-some, map_values,
  get-map_values,
}
use rkvm.Monitor.Orderly.{
  IsOrderly, Orderly, map_values-IsOrderly, store-IsOrderly, discard-IsOrderly,
  send_activated-Orderly,
}
use rkvm.Monitor.Refresh.{idle-Follows}
use rkvm.Monitor.Claimable.{
  group_of, Home, Idle, Claimable, Keeps, Claimable-Keeps, claim_groups-Claimable,
}

active_group-group_of :
    (c : Candidate) (n : ℕ) → active_group c ≡ some n → group_of c.selection ≡ some n
unfolding active_group
active_group-group_of c n h = ground arith

written-Keeps :
    (m : Candidates) (key : Entry) (c d : Candidate) (j : ℕ)
    → Map.get key m ≡ some c
    → c.selection ≡ d.selection
    → group_of c.selection ≡ some j
    → Keeps (suc j) m (Map.insert key d m)
written-Keeps m key c d j found same group k e there = elim (Entry-discrete key k) [
  | yes here ↦
      let equal =
        get-insert_same m key d e
          (subst (λ x. Map.get x (Map.insert key d m) ≡ some e) (sym here) there) in
      let selected = same ∙ ap (λ x. x.selection) equal in
      (
        c,
        sym (ap (λ x. Map.get x m) here) ∙ found,
        selected,
        λ n lt running.
            let equal_group =
              some-injective j n
                (sym group ∙ ap group_of selected ∙ active_group-group_of e n running) in
            absurd (omega arith),
      )
  | no apart ↦ (e, get-insert_other m key k d e apart there, refl, λ n lt running. running)
]

removed-Keeps :
    (m : Candidates) (key : Entry) (i : ℕ) → Map.Distinct m → Keeps i m (Map.remove key m)
removed-Keeps m key i distinct k d there =
    (d, get-remove-some m key k d distinct there, refl, λ n le running. running)

same-Keeps : (m : Candidates) (i : ℕ) → Keeps i m m
same-Keeps m i k d there = (d, there, refl, λ n le running. running)

-- A result that keeps the order, and whose candidates grow in no group from `i` on.
abbrev pub Kept : ℕ → Candidates → Result Monitor → Type 0
Kept i m (ok s) = IsOrderly s × Keeps i m s.candidates
Kept i m (err failure) = Unit

send-Kept :
    (i : ℕ) (m : Candidates) (s : Monitor) (event : MonitorEvent)
    → Orderly (send event s)
    → Keeps i m s.candidates
    → Kept i m (send event s)
unfolding send
send-Kept i m s event = go (s.is_open (length s.sent))
  where
    go :
        (answer : Bool)
        → Orderly (taken answer event s)
        → Keeps i m s.candidates
        → Kept i m (taken answer event s)
    go true o keeps = (o, keeps)
    go false o keeps = tt

-- A claimed candidate is selected in a group of which none is active.
module _ (now : ℕ) (key : Entry) (c : Candidate) (j : ℕ) (s : Monitor) (o : IsOrderly s)
    (found : Map.get key s.candidates ≡ some c) (group : group_of c.selection ≡ some j)
    (idle : Idle j s.candidates) where
  activate-Kept : (in_range : Bool) → Kept (suc j) s.candidates (activate key c in_range s)
  unfolding active_group active_id store
  activate-Kept false = tt
  activate-Kept true =
      let d : Candidate = record c { failures = 0; state = active s.next_activation_id false } in
      send-Kept (suc j) s.candidates _ (activated s.next_activation_id)
        (send_activated-Orderly s key d o refl (λ n e k other_one there running.
          absurd (idle k other_one there (running ∙ sym (active_group-group_of d n e) ∙ group))))
        (written-Keeps s.candidates key c d j found refl group)

  idle-Kept :
      (d : Candidate)
      → is_active d.state ≡ false
      → c.selection ≡ d.selection
      → Kept (suc j) s.candidates (ok (store key d s))
  unfolding store
  idle-Kept d e same = (
    store-IsOrderly s key d o (idle-Follows s.candidates key d e),
    written-Keeps s.candidates key c d j found same group,
  )

  discard-Kept : Kept (suc j) s.candidates (ok (discard key s))
  unfolding discard
  discard-Kept = (discard-IsOrderly s key o, removed-Keeps s.candidates key (suc j) o.distinct)

  settle-Kept : (claim : Claim) → Kept (suc j) s.candidates (settle now key c claim s)
  unfolding schedule_backoff
  settle-Kept claimed = activate-Kept (ltb (suc s.next_activation_id) activation_ids)
  settle-Kept gone = discard-Kept
  settle-Kept stale = discard-Kept
  settle-Kept owned = discard-Kept
  settle-Kept output_vanished = discard-Kept
  settle-Kept not_applicable = idle-Kept _ refl refl
  settle-Kept unsupported_device = idle-Kept _ refl refl
  settle-Kept busy = idle-Kept (schedule_backoff now c) refl refl
  settle-Kept interrupted = idle-Kept (schedule_backoff now c) refl refl
  settle-Kept output_interrupted = idle-Kept (schedule_backoff now c) refl refl
  settle-Kept permission = idle-Kept _ refl refl
  settle-Kept output_failed = idle-Kept _ refl refl
  settle-Kept other = idle-Kept _ refl refl
  settle-Kept infrastructure = tt

claim_key-Kept :
    (now : ℕ) (claims : ℕ → Claim) (key : Entry) (j : ℕ) (s : Monitor)
    → IsOrderly s
    → Home j key s.candidates
    → Idle j s.candidates
    → Kept (suc j) s.candidates (claim_key now claims key s)
unfolding claim_key
claim_key-Kept now claims key j s o home idle = elim (Option-cases (Map.get key s.candidates)) [
  | inl e ↦ rw (e, claim_key) (o, same-Keeps s.candidates (suc j))
  | inr (c, e) ↦ rw (e, claim_key) (settle-Kept now key c j s o e (home c e) idle (attempt claims))
]

and_then-Kept :
    (i : ℕ) (m : Candidates) (result : Result Monitor) (next : Monitor → Result Monitor)
    → Kept i m result
    → ((s : Monitor) → IsOrderly s → Keeps i m s.candidates → Orderly (next s))
    → Orderly (and_then result next)
and_then-Kept i m (ok s) next (o, keeps) go = go s o keeps
and_then-Kept i m (err failure) next kept go = tt

claim_all-Orderly :
    (now : ℕ) (claims : Entry → ℕ → Claim) (i : ℕ) (ks : List Entry) (s : Monitor)
    → IsOrderly s
    → Claimable i ks s.candidates
    → Orderly (claim_all now claims ks s)
unfolding claim_all
claim_all-Orderly now claims i [] s o h = o
claim_all-Orderly now claims i (key ∷ ks) s o (j, le, home, idle, rest) =
    and_then-Kept (suc j) s.candidates (claim_key now (claims key) key s) _
      (claim_key-Kept now (claims key) key j s o home idle)
      (λ s' o' keeps.
        claim_all-Orderly now claims (suc j) ks s' o'
          (Claimable-Keeps (suc j) ks s.candidates s'.candidates keeps rest))

log_promotion-state :
    (i : ℕ) (rule : Option ℕ) (c : Candidate) → (log_promotion i rule c).state ≡ c.state
unfolding log_promotion
log_promotion-state i none c = refl
log_promotion-state i (some rule) c = ground arith

log_promotion-selection :
    (i : ℕ) (rule : Option ℕ) (c : Candidate) → (log_promotion i rule c).selection ≡ c.selection
unfolding log_promotion
log_promotion-selection i none c = refl
log_promotion-selection i (some rule) c = ground arith

-- A change of what is neither the state nor the selection of the candidates.
module _ (f : Candidate → Candidate) (state : (c : Candidate) → (f c).state ≡ c.state)
    (selected : (c : Candidate) → (f c).selection ≡ c.selection) where
  alike-group : (c : Candidate) → active_group (f c) ≡ active_group c
  unfolding active_group
  alike-group c = cc (state c, selected c)

  alike-id : (c : Candidate) → active_id (f c) ≡ active_id c
  unfolding active_id
  alike-id c = cc (state c)

  alike-live : (c : Candidate) → live_id (f c) ≡ live_id c
  unfolding live_id
  alike-live c = cc (state c)

  map_values-Keeps : (m : Candidates) (i : ℕ) → Keeps i m (map_values f m)
  map_values-Keeps m i k d there =
      let (c, old, e) = get-map_values f m k d there in
      (
        c,
        old,
        sym (selected c) ∙ ap (λ x. x.selection) e,
        λ n le running. sym (alike-group c) ∙ ap active_group e ∙ running,
      )

  map_values-alike :
      (s : Monitor) → IsOrderly s → IsOrderly (record s { candidates = map_values f s.candidates })
  map_values-alike s o =
      map_values-IsOrderly s f (λ c n h. sym (alike-group c) ∙ h) (λ c n h. sym (alike-id c) ∙ h)
        (λ c n h. sym (alike-live c) ∙ h) o

log_promotions-Kept :
    (i : ℕ) (ks : List Entry) (j : ℕ) (gs : List GroupPolicy) (s : Monitor)
    → IsOrderly s
    → Claimable i ks s.candidates
    → IsOrderly (record s { candidates = log_promotions j gs s.candidates })
      × Claimable i ks (log_promotions j gs s.candidates)
unfolding log_promotions
log_promotions-Kept i ks j [] s o h = (o, h)
log_promotions-Kept i ks j (g ∷ gs) s o h =
    let rule = active_rule j s.candidates in
    let f = log_promotion j rule in
    let state = log_promotion-state j rule in
    let selected = log_promotion-selection j rule in
    log_promotions-Kept i ks (suc j) gs (record s { candidates = map_values f s.candidates })
      (map_values-alike f state selected s o)
      (Claimable-Keeps i ks s.candidates (map_values f s.candidates)
        (map_values-Keeps f state selected s.candidates i) h)

-- Whatever the claims of the devices return, `reconcile` keeps the order under a policy of groups.
pub reconcile-Orderly :
    (now : ℕ) (files : Files) (gs : List GroupPolicy) (claims : Entry → ℕ → Claim) (s : Monitor)
    → IsOrderly s
    → Orderly (reconcile now files (groups gs) claims s)
unfolding reconcile claim_keys
reconcile-Orderly now files gs claims s o =
    let ks = claim_groups files (groups gs) 0 gs s.candidates in
    let (o', h) =
      log_promotions-Kept 0 ks 0 gs s o
        (claim_groups-Claimable files (groups gs) s.candidates o.distinct 0 gs) in
    claim_all-Orderly now claims 0 ks _ o' h
