-- ===== src/Server/Catchup.antt =====
-- rkvm-server/src/server.rs: several updates to one client, for the handlers that bring a client up
-- to date: the devices that a new client gets, and `reset_client_device`.
use rkvm.Prelude.{
  ℕ, ◌≡◌, refl, true, false, List, [], ◌∷◌, ◌++◌, map, arith, ℕ_eq, is_some, ◌||◌, ap, sym, subst,
  fun_ext,
}
use rkvm.Collections.Map
use rkvm.Collections.Map.{keys}
use rkvm.Net.Message.{Update}
use rkvm.Net.Protocol.{Table, is_legal, after, are_legal, afters, no_devices, InSync, snoc-InSync}
use rkvm.Server.State.{Device, Devices, Clients, send_all, create_device_update}
use rkvm.Server.Loop.{reset_client_device, reset_clients}
use rkvm.Server.Clients.{ForEach, Apart, send_all-ForEach, same-Apart, other-Apart}
use rkvm.Server.Invariant.{table}
use mathlib.Core.List.{append_assoc, append-nil}

-- What a client needs before it is sent the updates, to be in step with the table after them.
abbrev pub Behind : Table → List Update → List Update → Type 0
Behind T us sent = InSync T (sent ++ us)

pub send_all-InSync :
    (T : Table) (clients : Clients) (k : ℕ) (us : List Update)
    → ForEach (Apart (λ j. InSync T) k (Behind T us)) clients
    → ForEach (λ j. InSync T) (send_all clients k us)
send_all-InSync T clients k us f =
    send_all-ForEach (Behind T) (λ j. InSync T) k clients us
      (λ u rest sent h. subst (InSync T) (sym (append_assoc sent (u ∷ []) rest)) h)
      (λ sent h. subst (InSync T) (append-nil sent) h) f

creates : Devices → List Update
creates = map (λ e. create_device_update e.0 e.1)

are_legal-creates :
    (T : Table) (m : Devices)
    → Map.Distinct m
    → ((id : ℕ) → is_some (Map.get id m) ≡ true → T id ≡ false)
    → are_legal T (creates m) ≡ true
unfolding are_legal creates create_device_update is_legal after Map.get
are_legal-creates T [] d h = refl
are_legal-creates T ((id, device) ∷ m) d h =
    let fresh : T id ≡ false = h id (ground arith) in
    let rest = are_legal-creates (after T (create_device_update id device)) m d.1 (λ j g.
      elim (ℕ_eq.dec id j) [ yes e ↦ absurd (ground arith) | no n ↦ ground (arith, h j) ]) in
    ground arith

afters-creates :
    (T : Table) (m : Devices) (j : ℕ) → afters T (creates m) j ≡ T j || is_some (Map.get j m)
unfolding afters creates create_device_update after Map.get
afters-creates T [] j = ground arith
afters-creates T ((id, device) ∷ m) j =
    ground (arith, afters-creates (after T (create_device_update id device)) m j)

-- A new client that is sent every device has the server's devices.
pub new-InSync :
    (m : Devices) → Map.Distinct m → Behind (table m) (map (λ e. create_device_update e.0 e.1) m) []
unfolding creates
new-InSync m d =
    (are_legal-creates no_devices m d (λ id h. refl), fun_ext (λ j. afters-creates no_devices m j))

reset_client_device_all :
    (clients : Clients) (k id : ℕ) (device : Device)
    → (reset_client_device clients k id device).0
      ≡ send_all clients k (Update.destroy_device id ∷ create_device_update id device ∷ [])
unfolding reset_client_device send_all
reset_client_device_all clients k id device = ground arith

restored :
    (T : Table) (id : ℕ) (device : Device)
    → T id ≡ true
    → after (after T (Update.destroy_device id)) (create_device_update id device) ≡ T
unfolding create_device_update after
restored T id device known =
    fun_ext (λ j. elim (ℕ_eq.dec id j) [ yes e ↦ ground (arith, ap T e) | no n ↦ ground arith ])

reset-Behind :
    (T : Table) (id : ℕ) (device : Device) (sent : List Update)
    → T id ≡ true
    → InSync T sent
    → Behind T (Update.destroy_device id ∷ create_device_update id device ∷ []) sent
unfolding create_device_update is_legal after
reset-Behind T id device sent known h =
    let u = Update.destroy_device id in
    let v = create_device_update id device in
    let gone = snoc-InSync T sent u known h in
    let back = snoc-InSync (after T u) (sent ++ u ∷ []) v (ground arith) gone in
    subst (InSync T) (append_assoc sent (u ∷ []) (v ∷ []))
      (subst (λ t. InSync t ((sent ++ u ∷ []) ++ v ∷ [])) (restored T id device known) back)

-- Each client loses the device and gets it again.
pub reset_clients-InSync :
    (T : Table) (ks : List ℕ) (clients : Clients) (id : ℕ) (device : Device)
    → T id ≡ true
    → ForEach (λ j. InSync T) clients
    → ForEach (λ j. InSync T) (reset_clients ks clients id device)
unfolding reset_clients
reset_clients-InSync T [] clients id device known f = f
reset_clients-InSync T (k ∷ ks) clients id device known f =
    reset_clients-InSync T ks (reset_client_device clients k id device).0 id device known (
      subst (ForEach (λ j. InSync T)) (sym (reset_client_device_all clients k id device)) (
        send_all-InSync T clients k _ (record {
          distinct = f.distinct;
          holds = λ j c h.
              let us = Update.destroy_device id ∷ create_device_update id device ∷ [] in
              elim (ℕ_eq.dec k j) [
                | yes e ↦
                    subst (λ i. Apart (λ j. InSync T) k (Behind T us) i c.sender.sent) e
                      (same-Apart (λ j. InSync T) k (Behind T us) c.sender.sent
                        (reset-Behind T id device c.sender.sent known (f.holds j c h)))
                | no n ↦
                    other-Apart (λ j. InSync T) k (Behind T us) c.sender.sent j n (f.holds j c h)
              ];
        })))
