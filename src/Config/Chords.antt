-- ===== src/Config/Chords.antt =====
-- rkvm-server/src/main.rs: which configured chords `build_switch_bindings` accepts, and what the router
-- gets.
use rkvm.Prelude.{
  ◌≡◌, refl, Bool, true, false, List, [], ◌∷◌, map, Option, none, some, arith, All, ap, ◌∙◌, sym,
  subst, Option-cases, inl, inr, ◌≢◌,
}
use mathlib.Core.Option.{some-injective}
use rkvm.Collections.Set.{contains, is_empty}
use rkvm.Input.Key.{Key_eq}
use rkvm.Config.SwitchKeys.{SwitchKey, SwitchKey_eq, SwitchKey-discrete, into_key}
use rkvm.Config.Names.{into_key-injective}
use rkvm.Collections.Distinct.{
  AreDistinct, all_new, all_new-AreDistinct, AreDistinct-all_new, nothing_seen,
}
use rkvm.Routing.Router.{SwitchBinding}
use rkvm.Config.Bindings.{
  Field, switch_keys, switch_bindings, BindingError, Result, ok, err, last, converted, with_trigger,
  convert_switch_binding, followed, convert_all, or_none, both_fields, some_binding,
  build_switch_bindings,
}

-- A chord has no key twice, and its trigger is one of its keys.
abbrev pub IsChord : SwitchBinding → Type 0
IsChord b = AreDistinct b.keys × (contains b.trigger b.keys ≡ true)

-- The chords of the configuration, those of `switch-keys` first.
abbrev pub chords : Option (List SwitchKey) → Option (List (List SwitchKey)) → List (List SwitchKey)
chords none bindings = or_none bindings
chords (some ks) bindings = ks ∷ or_none bindings

contains-map :
    (name : SwitchKey) (names : List SwitchKey)
    → contains (into_key name) (map into_key names) ≡ contains name names
unfolding contains
contains-map name [] = refl
contains-map name (other ∷ names) = elim (SwitchKey-discrete other name) [
  | yes same ↦ ground (arith, ap into_key same)
  | no apart ↦ ground (arith, contains-map name names, into_key-injective other name)
]

AreDistinct-map : (names : List SwitchKey) → AreDistinct names → AreDistinct (map into_key names)
AreDistinct-map [] h = tt
AreDistinct-map (name ∷ names) (fresh, h) =
    (contains-map name names ∙ fresh, AreDistinct-map names h)

contains-last :
    (names : List SwitchKey) (last_name : SwitchKey)
    → last names ≡ some last_name
    → contains last_name names ≡ true
unfolding contains
contains-last [] last_name h = absurd cc
contains-last (name ∷ []) last_name h =
    let same : name ≡ last_name = some-injective name last_name h in ground arith
contains-last (name ∷ other ∷ names) last_name h =
    ground (arith, contains-last (other ∷ names) last_name h)

-- What the configuration promises of a chord.
abbrev pub IsUsable : List SwitchKey → Type 0
IsUsable names = (is_empty names ≡ false) × AreDistinct names

-- The binding is that of the names, in their order, with the last one as its trigger.
abbrev pub IsConverted : List SwitchKey → SwitchBinding → Type 0
IsConverted names b = (name : SwitchKey) × (last names ≡ some name) × (b ≡ converted names name)

abbrev pub AreConverted : List (List SwitchKey) → List SwitchBinding → Type 0
AreConverted [] [] = Unit
AreConverted [] (b ∷ bs) = ⊥
AreConverted (names ∷ chords) [] = ⊥
AreConverted (names ∷ chords) (b ∷ bs) =
    IsUsable names × IsConverted names b × IsChord b × AreConverted chords bs

last-empty :
    (names : List SwitchKey) (name : SwitchKey) → last names ≡ some name → is_empty names ≡ false
last-empty [] name h = absurd cc
last-empty (first_name ∷ names) name h = refl

empty-last : (names : List SwitchKey) → is_empty names ≡ false → last names ≢ none
empty-last [] h e = absurd cc
empty-last (name ∷ []) h e = absurd cc
empty-last (name ∷ other ∷ names) h e = empty-last (other ∷ names) refl e

abbrev built : {A : Type 0} → A → Result A → A
built a (ok b) = b
built a (err e) = a

err-ok : {A : Type 0} → {e : BindingError} → {a : A} → err e ≡ ok a → ⊥
err-ok h = absurd cc

module _ (field : Field) where
  ok-IsUsable :
      (names : List SwitchKey) (o : Option SwitchKey) (b : SwitchBinding) (is_new : Bool)
      → last names ≡ o
      → all_new [] names ≡ is_new
      → with_trigger field names o is_new ≡ ok b
      → IsUsable names × IsConverted names b × IsChord b
  ok-IsUsable names none b is_new e n h = absurd (err-ok h)
  ok-IsUsable names (some name) b false e n h = absurd (err-ok h)
  ok-IsUsable names (some name) b true e n h =
      let same : converted names name ≡ b = ap (built (converted names name)) h in
      (
        (last-empty names name e, ((all_new-AreDistinct [] names n).1)),
        (name, e, sym same),
        subst IsChord same (
          AreDistinct-map names ((all_new-AreDistinct [] names n).1),
          contains-map name names ∙ contains-last names name e,
        ),
      )

  usable-ok :
      (names : List SwitchKey)
      → IsUsable names
      → (b : SwitchBinding) × (convert_switch_binding field names ≡ ok b)
  unfolding convert_switch_binding
  usable-ok names (full, distinct) = elim (Option-cases (last names)) [
    | inl e ↦ absurd (empty-last names full e)
    | inr (name, e) ↦ (
      converted names name,
      rw (e, AreDistinct-all_new [] names (nothing_seen names) distinct) refl,
    )
  ]

  convert_switch_binding-IsChord :
      (names : List SwitchKey) (b : SwitchBinding)
      → convert_switch_binding field names ≡ ok b
      → IsUsable names × IsConverted names b × IsChord b
  unfolding convert_switch_binding
  convert_switch_binding-IsChord names b h =
      ok-IsUsable names (last names) b (all_new [] names) refl refl h

followed-ok :
    (r : Result SwitchBinding) (rest : Result (List SwitchBinding)) (bs : List SwitchBinding)
    → followed r rest ≡ ok bs
    → (b : SwitchBinding) × (bs' : List SwitchBinding) × (r ≡ ok b)
      × (rest ≡ ok bs')
      × (b ∷ bs' ≡ bs)
followed-ok (err e) rest bs h = absurd (err-ok h)
followed-ok (ok b) (err e) bs h = absurd (err-ok h)
followed-ok (ok b) (ok bs') bs h = (b, bs', refl, refl, ap (built (b ∷ bs')) h)

-- One more chord before those that have been converted.
followed-AreConverted :
    (field : Field) (names : List SwitchKey) (chords : List (List SwitchKey))
    (rest : Result (List SwitchBinding))
    → ((bs : List SwitchBinding) → rest ≡ ok bs → AreConverted chords bs)
    → (bs : List SwitchBinding) → followed (convert_switch_binding field names) rest ≡ ok bs
    → AreConverted (names ∷ chords) bs
followed-AreConverted field names chords rest more bs h =
    let (b, bs', first_ok, rest_ok, same) =
      followed-ok (convert_switch_binding field names) rest bs h in
    let (usable, conv, chord) = convert_switch_binding-IsChord field names b first_ok in
    subst (AreConverted (names ∷ chords)) same (usable, conv, chord, more bs' rest_ok)

convert_all-AreConverted :
    (chords : List (List SwitchKey)) (bs : List SwitchBinding)
    → convert_all chords ≡ ok bs
    → AreConverted chords bs
unfolding convert_all
convert_all-AreConverted [] bs h = subst (AreConverted []) (ap (built []) h) tt
convert_all-AreConverted (names ∷ chords) bs h =
    followed-AreConverted switch_bindings names chords (convert_all chords)
      (convert_all-AreConverted chords) bs h

both_fields-AreConverted :
    (keys : Option (List SwitchKey)) (bindings : Option (List (List SwitchKey)))
    (bs : List SwitchBinding)
    → both_fields keys (or_none bindings) ≡ ok bs
    → AreConverted (chords keys bindings) bs
both_fields-AreConverted none bindings bs h = convert_all-AreConverted (or_none bindings) bs h
both_fields-AreConverted (some names) bindings bs h =
    followed-AreConverted switch_keys names (or_none bindings) (convert_all (or_none bindings))
      (convert_all-AreConverted (or_none bindings)) bs h

followed-usable :
    (field : Field) (names : List SwitchKey) (rest : Result (List SwitchBinding))
    (bs : List SwitchBinding)
    → IsUsable names
    → rest ≡ ok bs
    → (b : SwitchBinding) × (followed (convert_switch_binding field names) rest ≡ ok (b ∷ bs))
followed-usable field names rest bs h e =
    let (b, f) = usable-ok field names h in (b, rw (f, e) refl)

convert_all-usable :
    (chords : List (List SwitchKey))
    → All IsUsable chords
    → (bs : List SwitchBinding) × (convert_all chords ≡ ok bs)
unfolding convert_all
convert_all-usable [] h = ([], refl)
convert_all-usable (names ∷ chords) (p, h) =
    let (bs, e) = convert_all-usable chords h in
    let (b, f) = followed-usable switch_bindings names (convert_all chords) bs p e in (b ∷ bs, f)

both_fields-usable :
    (keys : Option (List SwitchKey)) (bindings : Option (List (List SwitchKey)))
    → All IsUsable (chords keys bindings)
    → (bs : List SwitchBinding) × (both_fields keys (or_none bindings) ≡ ok bs)
both_fields-usable none bindings h = convert_all-usable (or_none bindings) h
both_fields-usable (some names) bindings (p, h) =
    let (bs, e) = convert_all-usable (or_none bindings) h in
    let (b, f) = followed-usable switch_keys names (convert_all (or_none bindings)) bs p e in
    (b ∷ bs, f)

some_binding-ok :
    (r : Result (List SwitchBinding)) (bs : List SwitchBinding)
    → some_binding r ≡ ok bs
    → (r ≡ ok bs) × (is_empty bs ≡ false)
some_binding-ok (err e) bs h = absurd (err-ok h)
some_binding-ok (ok []) bs h = absurd (err-ok h)
some_binding-ok (ok (b ∷ bs')) bs h = (h, subst (λ l. is_empty l ≡ false) (ap (built []) h) refl)

nonempty :
    (kss : List (List SwitchKey)) (bs : List SwitchBinding) (r : Result (List SwitchBinding))
    → r ≡ ok bs
    → AreConverted kss bs
    → is_empty kss ≡ false
    → some_binding r ≡ ok bs
nonempty [] bs r e h full = absurd cc
nonempty (names ∷ kss) [] r e h full = absurd h
nonempty (names ∷ kss) (b ∷ bs) r e h full = rw e refl

-- The switch bindings of a configuration are built exactly where it has a chord and each of its chords
-- has a key and no key twice. Then they are those of the chords in their order, that of `switch-keys`
-- first: each has the keys of its chord, without a key twice, and the last of them as its trigger.
pub build_switch_bindings-AreConverted :
    (keys : Option (List SwitchKey)) (bindings : Option (List (List SwitchKey)))
    → ((bs : List SwitchBinding)
        → build_switch_bindings keys bindings ≡ ok bs
        → (is_empty bs ≡ false) × AreConverted (chords keys bindings) bs)
      × (is_empty (chords keys bindings) ≡ false
          → All IsUsable (chords keys bindings)
          → (bs : List SwitchBinding) × (build_switch_bindings keys bindings ≡ ok bs))
unfolding build_switch_bindings
build_switch_bindings-AreConverted keys bindings = (
  λ bs h.
      let (e, full) = some_binding-ok (both_fields keys (or_none bindings)) bs h in
      (full, both_fields-AreConverted keys bindings bs e),
  λ full h.
      let (bs, e) = both_fields-usable keys bindings h in
      (
        bs,
        nonempty (chords keys bindings) bs _ e (both_fields-AreConverted keys bindings bs e) full,
      ),
)
