-- ===== src/Objects/Types.antt =====
-- The table g_types_to_names of csrc/objects.c, and its two lookups.
use Prim.Native.String.{String}
use text.Mathlib.Text.{◌==◌ as str_eq}
use py_ccn.Base.{
  ℕ, ◌+◌, ◌-◌, ◌≡◌, ◌≢◌, refl, Bool, true, false, Option, none, some, List, [], ◌∷◌, ◌++◌, ltb,
  ◌==◌, if◌then◌else◌, length, get_elem?,
}
use py_ccn.Base.Run.{Run, ok, fault, ◌>>=◌, ◌>>◌, assert}
use py_ccn.Objects.{
  CapsuleType, closure, content_object, exclusion_filter, handle, interest, key_locator, name,
  to_int, pkey_priv, pkey_pub, signature, signed_info, signing_params, namecrypto_state,
}

-- How the module is compiled: with the authenticated interests, and with assertions.
pub record Build : Type 0 where
  pub namecrypto : Bool
  pub asserts : Bool

abbrev names : List (CapsuleType × String)
names =
    (closure, "Closure_ndn_data")
    ∷ (content_object, "Data_ndn_data")
    ∷ (exclusion_filter, "ExclusionFilter_ndn_data")
    ∷ (handle, "NDN_ndn_data")
    ∷ (interest, "Interest_ndn_data")
    ∷ (key_locator, "KeyLocator_ndn_data")
    ∷ (name, "Name_ndn_data")
    ∷ (pkey_priv, "PKEY_PRIV_ndn_data")
    ∷ (pkey_pub, "PKEY_PUB_ndn_data")
    ∷ (signature, "Signature_ndn_data")
    ∷ (signed_info, "SignedInfo_ndn_data")
    ∷ []

-- The entries before the last one, which is {0, NULL}.
abbrev pub types_to_names : Build → List (CapsuleType × String)
types_to_names b =
    if b.namecrypto then names ++ ((namecrypto_state, "Namecrypto_state") ∷ []) else names

abbrev pub check : Build → Bool → Run (Unit {0})
check b test = if b.asserts then assert test else ok tt

-- The entry at an index: none is {0, NULL}. Past that it is a read outside of the table.
unfoldable pub entry_at : List (CapsuleType × String) → ℕ → Run (Option (CapsuleType × String))
entry_at table i = elim (get_elem? table i) [
  | some e ↦ ok (some e)
  | none ↦ if i == length table then ok none else fault
]

unfoldable pub entry_type : Option (CapsuleType × String) → ℕ
entry_type none = 0
entry_type (some (t, s)) = to_int t

unfoldable pub entry_name : Option (CapsuleType × String) → Option String
entry_name none = none
entry_name (some (t, s)) = some s

-- The sizeof counts the last entry as well.
unfoldable pub type2name : Build → CapsuleType → Run (Option String)
unfolding entry_at entry_type entry_name
type2name b t = do
  check b (ltb 0 (to_int t))
  check b (ltb (to_int t) (length (types_to_names b) + 1))
  p ← entry_at (types_to_names b) (to_int t - 1)
  check b (entry_type p == to_int t)
  ok (entry_name p)

unfoldable pub find_name : String → List (CapsuleType × String) → Run CapsuleType
find_name s [] = fault
find_name s ((t, n) ∷ table) = if str_eq n s then ok t else find_name s table

-- A null name is a fault, with the assertion or in strcmp(); an unknown one ends in panic().
unfoldable pub name2type : Build → Option String → Run CapsuleType
unfolding find_name
name2type b none = fault
name2type b (some s) = find_name s (types_to_names b)

-- All types but the two for which the index into the table is off.
abbrev pub IsServed : CapsuleType → Type 0
IsServed t = (t ≢ signing_params) × (t ≢ namecrypto_state)

served_name :
    (nc dbg : Bool) (t : CapsuleType)
    → IsServed t
    → (s : String) × (type2name (record { namecrypto = nc; asserts = dbg }) t ≡ ok (some s))
      × (name2type (record { namecrypto = nc; asserts = dbg }) (some s) ≡ ok t)
unfolding type2name name2type
served_name true true closure h = (_, refl, refl)
served_name true false closure h = (_, refl, refl)
served_name false true closure h = (_, refl, refl)
served_name false false closure h = (_, refl, refl)
served_name _ _ signing_params h = absurd (h.0 refl)
served_name _ _ namecrypto_state h = absurd (h.1 refl)
served_name _ _ _ h = (_, refl, refl)

-- In every build each other type has a name, and the name leads back to the type.
pub name2type-type2name :
    (b : Build) (t : CapsuleType)
    → IsServed t
    → (s : String) × (type2name b t ≡ ok (some s)) × (name2type b (some s) ≡ ok t)
name2type-type2name b t served = served_name b.namecrypto b.asserts t served

unserved_name :
    (nc dbg : Bool)
    → (dbg ≡ true)
    → (type2name (record { namecrypto = nc; asserts = dbg }) signing_params ≡ fault)
      × (type2name (record { namecrypto = nc; asserts = dbg }) namecrypto_state ≡ fault)
unfolding type2name
unserved_name true true e = (refl, refl)
unserved_name false true e = (refl, refl)
unserved_name true false e = cc
unserved_name false false e = cc

-- With assertions a capsule of either of the two types cannot even be named.
pub type2name-unserved :
    (b : Build)
    → b.asserts ≡ true
    → (type2name b signing_params ≡ fault) × (type2name b namecrypto_state ≡ fault)
type2name-unserved b e = unserved_name b.namecrypto b.asserts e

-- Without assertions the entry of NAMECRYPTO_STATE is the last one, so its name is null.
pub type2name-state :
    (b : Build) → b.asserts ≡ false → b.namecrypto ≡ true → type2name b namecrypto_state ≡ ok none
unfolding type2name
type2name-state b e f = rw (e, f)
