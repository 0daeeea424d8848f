-- ===== src/Net/Protocol.antt =====
-- What a sequence of the updates of rkvm-net/src/lib.rs may be: a device is created once, and only a
-- device that exists is destroyed or receives events and key states.
use rkvm.Prelude.{
  ℕ, ◌≡◌, refl, Bool, true, false, ◌&&◌, not, List, [], ◌∷◌, ◌++◌, arith, ◌=?◌, ℕ_eq, if◌then◌else◌,
  ap, ◌∙◌,
}
use rkvm.Net.Message.{Update}

-- The devices that a client has.
abbrev pub Table : Type 0
Table = ℕ → Bool

abbrev pub no_devices : Table
no_devices id = false

unfoldable pub is_legal : Table → Update → Bool
is_legal table (Update.create_device id description) = not (table id)
is_legal table (Update.destroy_device id) = table id
is_legal table (Update.event id e) = table id
is_legal table (Update.events id es) = table id
is_legal table (Update.set_key_state id keys) = table id
is_legal table Update.ping = true

unfoldable pub after : Table → Update → Table
after table (Update.create_device id description) j = if id =? j then true else table j
after table (Update.destroy_device id) j = if id =? j then false else table j
after table update j = table j

unfoldable pub are_legal : Table → List Update → Bool
are_legal table [] = true
are_legal table (update ∷ updates) = is_legal table update && are_legal (after table update) updates

unfoldable pub afters : Table → List Update → Table
afters table [] = table
afters table (update ∷ updates) = afters (after table update) updates

pub are_legal-snoc :
    (table : Table) (us : List Update) (u : Update)
    → are_legal table (us ++ u ∷ []) ≡ are_legal table us && is_legal (afters table us) u
unfolding are_legal afters
are_legal-snoc table [] u = ground arith
are_legal-snoc table (v ∷ us) u = ground (arith, are_legal-snoc (after table v) us u)

pub afters-snoc :
    (table : Table) (us : List Update) (u : Update)
    → afters table (us ++ u ∷ []) ≡ after (afters table us) u
unfolding afters
afters-snoc table [] u = refl
afters-snoc table (v ∷ us) u = afters-snoc (after table v) us u

-- A client that gets these updates accepts them all, and has the devices of the table after them.
abbrev pub InSync : Table → List Update → Type 0
InSync table us = (are_legal no_devices us ≡ true) × (afters no_devices us ≡ table)

pub snoc-InSync :
    (table : Table) (us : List Update) (u : Update)
    → is_legal table u ≡ true
    → InSync table us
    → InSync (after table u) (us ++ u ∷ [])
snoc-InSync table us u legal (fine, e) = (
  are_legal-snoc no_devices us u
      ∙ ap (λ t. are_legal no_devices us && is_legal t u) e
      ∙ ground arith,
  afters-snoc no_devices us u ∙ ap (λ t. after t u) e,
)
