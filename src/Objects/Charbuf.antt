-- ===== src/Objects/Charbuf.antt =====
-- The commands of csrc/methods.c on charbufs in capsules: dump_charbuf() and new_charbuf().
use Prim.Native.String.{String}
use text.Mathlib.Text.{◌==◌ as str_eq}
use py_ccn.Base.{
  ◌-◌, get_elem?, ◌≡◌, ◌≢◌, ◌↔◌, refl, sym, ap, ◌∙◌, Bool, true, false, Option, none, some, List,
  [], ◌∷◌, ◌==◌, All, Bytes, if◌then◌else◌, Bool-cases, inl, inr, arith,
}
use py_ccn.Base.Run.{Run, ok, raise, fault, ◌>>=◌, type_error, value_error, memory_error}
use py_ccn.Objects.{
  CapsuleType, to_int, closure, content_object, exclusion_filter, handle, interest, key_locator,
  name, pkey_priv, pkey_pub, signature, signed_info, signing_params, namecrypto_state,
}
use py_ccn.Objects.Types.{Build, IsServed, name2type-type2name}
use py_ccn.Objects.Lifetime.{
  Capsule, Memory, Release, Outcome, new_charbuf, destroy, object_new, destroy_on_failure,
  has_charbuf, has_charbuf-IsServed,
}
use py_ccn.Objects.Access.{object_is_valid, object_get, object_get-object_new}

abbrev types : List CapsuleType
types =
    content_object ∷ exclusion_filter ∷ interest ∷ key_locator ∷ name ∷ signature ∷ signed_info ∷ []

module _ (matches : Option String → Option String → Bool) (b : Build) where
  -- The loop over the types.
  unfoldable pub first_valid : List CapsuleType → Capsule → Run (Option CapsuleType)
  first_valid [] c = ok none
  first_valid (t ∷ ts) c =
      let rest = first_valid ts c in
      object_is_valid matches b t c >>= λ valid. if valid then ok (some t) else rest

  -- _pyndn_cmd_dump_charbuf(), of a capsule and the bytes of its charbuf. A null pointer is a fault.
  unfoldable pub cmd_dump_charbuf : Capsule → (charbuf : Bytes) → Run Bytes
  unfolding first_valid
  cmd_dump_charbuf c charbuf = do
    found ← first_valid types c
    elim found [
      | none ↦ raise type_error
      | some t ↦ do
        got ← object_get matches b t c charbuf
        elim got [ some bytes ↦ ok bytes | none ↦ fault ]
    ]

-- The label `error` of _pyndn_cmd_new_charbuf(): the capsule is given up.
unfoldable pub give_up : Build → Capsule → Run (Capsule × Bytes) × List Release
give_up b c = elim (destroy b c) [
  | ok after ↦ (raise memory_error, after)
  | raise e ↦ (raise e, [])
  | fault ↦ (fault, [])
]

-- What follows NDNObject_New_charbuf(): `appended` says whether the bytes could be appended.
unfoldable pub append_data :
    Build
    → (appended : Bool) → (charbuf_data : Bytes) → Outcome
    → Run (Capsule × Bytes) × List Release
unfolding give_up
append_data b appended charbuf_data (ok c, rs) =
    if appended then (ok (c, charbuf_data), rs) else give_up b c
append_data b appended charbuf_data (raise e, rs) = (raise e, rs)
append_data b appended charbuf_data (fault, rs) = (fault, rs)

-- _pyndn_cmd_new_charbuf(): the capsule with what its charbuf holds, and what has been released. `args`
-- is what the parse of the arguments gives.
unfoldable pub cmd_new_charbuf :
    Build
    → (created appended : Bool) → Memory
    → (args : Run (String × Bytes)) → Run (Capsule × Bytes) × List Release
unfolding append_data
cmd_new_charbuf b created appended m (raise e) = (raise e, [])
cmd_new_charbuf b created appended m fault = (fault, [])
cmd_new_charbuf b created appended m (ok (type, charbuf_data)) =
    if str_eq type "KeyLocator_ndn_data"
    then append_data b appended charbuf_data (new_charbuf b created m key_locator)
    else (raise value_error, [])

abbrev numbered : List CapsuleType
numbered =
    closure ∷ content_object ∷ exclusion_filter ∷ handle ∷ interest ∷ key_locator ∷ name ∷ pkey_priv
    ∷ pkey_pub ∷ signature ∷ signed_info ∷ signing_params ∷ namecrypto_state ∷ []

elem-to_int : (t : CapsuleType) → get_elem? numbered (to_int t - 1) ≡ some t
elem-to_int closure = refl
elem-to_int _ = refl

to_int_differs : (t u : CapsuleType) → t ≢ u → (to_int t == to_int u) ≡ false
to_int_differs t u ne = elim (Bool-cases (to_int t == to_int u)) [
  | inr e ↦ e
  | inl e ↦
      let same : to_int t ≡ to_int u = ground (arith, e) in
      absurd (
        ne (
          let p : some t ≡ some u =
            sym (elem-to_int t) ∙ ap (λ n. get_elem? numbered (n - 1)) same ∙ elem-to_int u in
          cc))
]

abbrev find : CapsuleType → List CapsuleType → Option CapsuleType
find t [] = none
find t (u ∷ us) = if to_int t == to_int u then some u else find t us

find-types : (t : CapsuleType) → find t types ≡ (if has_charbuf t then some t else none)
unfolding has_charbuf
find-types closure = refl
find-types _ = refl

types-has_charbuf : All (λ t. has_charbuf t ≡ true) types
unfolding has_charbuf
types-has_charbuf = (refl, (refl, (refl, (refl, (refl, (refl, (refl, tt)))))))

module _ (matches : Option String → Option String → Bool)
    (law : (n m : String) → (matches (some n) (some m) ≡ true) ↔ (n ≡ m)) (b : Build) (m : Memory)
    (p : m.capsule ≡ true) (q : m.context ≡ true) (r : m.set_context ≡ true) where
  module _ (t : CapsuleType) (st : IsServed t) (c : Capsule)
      (made : object_new b m t ≡ (ok c, [])) where
    valid_as :
        (u : CapsuleType) → IsServed u → object_is_valid matches b u c ≡ ok (to_int t == to_int u)
    unfolding object_is_valid
    valid_as u su =
        let (c', made', valid, _, _) = object_get-object_new matches law b m p q r t u tt st su in
        let same : c' ≡ c = cc in
        let (s, named, _) = name2type-type2name b u su in
        let answer : object_is_valid matches b u c' ≡ ok (matches c.name (some s)) =
          rw (same, named) refl in
        elim (Bool-cases (matches c.name (some s))) [
          | inl hit ↦
              let is : t ≡ u = valid.0 (answer ∙ ap ok hit) in rw (named, hit, is) (ground arith)
          | inr miss ↦
              let differ : t ≢ u = λ e. let is = valid.1 e in cc in
              rw (named, miss, to_int_differs t u differ) refl
        ]

    first_valid-find :
        (us : List CapsuleType)
        → All (λ u. has_charbuf u ≡ true) us
        → first_valid matches b us c ≡ ok (find t us)
    unfolding first_valid
    first_valid-find [] all = refl
    first_valid-find (u ∷ us) (h, hs) =
        rw (first_valid-find us hs, valid_as u (has_charbuf-IsServed u h))
          (elim (Bool-cases (to_int t == to_int u)) [ inl e ↦ rw e refl | inr e ↦ rw e refl ])

  -- A capsule that NDNObject_New() made, with memory enough, is dumped as the bytes of its charbuf if
  -- its type has one, and refused as of the wrong type if it has none. SIGNING_PARAMS and
  -- NAMECRYPTO_STATE are left out.
  pub cmd_dump_charbuf-object_new :
      (t : CapsuleType) (charbuf : Bytes)
      → IsServed t
      → (c : Capsule) × (object_new b m t ≡ (ok c, []))
        × (cmd_dump_charbuf matches b c charbuf
            ≡ (if has_charbuf t then ok charbuf else raise type_error))
  unfolding cmd_dump_charbuf
  cmd_dump_charbuf-object_new t charbuf st =
      let (c, made, _, _, got) = object_get-object_new matches law b m p q r t t charbuf st st in
      (
        c,
        made,
        rw (first_valid-find t st c made types types-has_charbuf, find-types t)
            (elim (Bool-cases (has_charbuf t)) [
              | inl e ↦ rw (e, got.1 refl) refl
              | inr e ↦ rw e refl
            ]),
      )

  -- What new_charbuf() makes of the bytes of a key locator, with memory enough, dump_charbuf() gives
  -- back; any other type of charbuf it refuses with a ValueError.
  pub cmd_dump_charbuf-cmd_new_charbuf :
      (charbuf_data : Bytes) (type : String)
      → str_eq type "KeyLocator_ndn_data" ≡ false
      → (c : Capsule) × (cmd_new_charbuf b true true m (ok ("KeyLocator_ndn_data", charbuf_data))
          ≡ (ok (c, charbuf_data), []))
        × (cmd_dump_charbuf matches b c charbuf_data ≡ ok charbuf_data)
        × (cmd_new_charbuf b true true m (ok (type, charbuf_data)) ≡ (raise value_error, []))
  unfolding cmd_new_charbuf append_data new_charbuf has_charbuf destroy_on_failure
  cmd_dump_charbuf-cmd_new_charbuf charbuf_data type other =
      let (c, made, dumped) =
        cmd_dump_charbuf-object_new key_locator charbuf_data (λ e. cc, λ e. cc) in
      let named : new_charbuf b true m key_locator ≡ (ok c, []) = ap destroy_on_failure made in
      (c, ap (append_data b true charbuf_data) named, dumped, rw other refl)
