-- ===== src/KeyLocator/Runs.antt =====
-- Runs of the key locators of csrc/methods_key.c in the small format of Ndnb/Instance, with keys
-- of one byte.
use py_ccn.Base.{ℕ, ◌≡◌, refl, true, false, Option, none, some, List, [], ◌∷◌, ◌++◌, Bytes, arith}
use py_ccn.Base.Run.{Run, ok, raise, ◌>>=◌, ndn_key_locator_error}
use py_ccn.Wire.{encode_name, encode_comps, encode_comp}
use py_ccn.Wire.Instance.{unary, unary_lib, unary_laws, split_from, count_zeros}
use py_ccn.Ndnb.Instance.{small, small_laws, cursor}
use py_ccn.Ndnb.Instance.Laws.{small_reads, NameOf, small_name}
use py_ccn.KeyLocator
use py_ccn.KeyLocator.{KeyLib, by_name, by_key}
use py_ccn.KeyLocator.RoundTrip
use py_ccn.KeyLocator.RoundTrip.{KeyLaws}

abbrev one_of : Bytes → Option ℕ
one_of (k ∷ []) = some k
one_of _ = none

abbrev keys : KeyLib ℕ
keys = record { append_pubkey_blob = λ cb k. some (cb ++ (2 ∷ 1 ∷ k ∷ [])); d2i_pubkey = one_of }

key_laws : KeyLaws small small_laws keys
key_laws = record {
  der = λ k. k ∷ [];
  der_blob = λ k. 2 ∷ 1 ∷ k ∷ [];
  append_pubkey_blob = λ cb k. refl;
  key_blob = λ t k. refl;
  d2i_pubkey-der = λ k. refl;
  length-der = λ k. omega arith;
}

abbrev key_obj : ℕ → Run Bytes
key_obj k = ok (k ∷ k ∷ [])

-- /ab/c
abbrev comps : List Bytes
comps = (97 ∷ 98 ∷ []) ∷ (99 ∷ []) ∷ []

comps-NameOf : NameOf (encode_name unary comps)
unfolding encode_name encode_comps encode_comp unary unary_lib split_from count_zeros
comps-NameOf rest = refl

key_locator-name_example :
    (KeyLocator.key_locator_to_ndn small keys (some (some (encode_name unary comps))) none true
      >>= KeyLocator.key_locator_obj_from_ndn cursor unary_lib keys key_obj)
    ≡ ok (by_name comps)
key_locator-name_example =
    RoundTrip.key_locator-name small small_laws cursor small_reads unary_lib keys key_obj unary
      unary_laws comps none true (small_name _ comps-NameOf)

key_locator-key_example :
    (KeyLocator.key_locator_to_ndn small keys none (some (some 5)) false
      >>= KeyLocator.key_locator_obj_from_ndn cursor unary_lib keys key_obj)
    ≡ ok (by_key (5 ∷ 5 ∷ []))
key_locator-key_example =
    RoundTrip.key_locator-key small small_laws cursor small_reads unary_lib keys key_obj key_laws 5
      false

-- A locator of nothing is written, and is not read.
empty_run :
    (KeyLocator.key_locator_to_ndn small keys none none false
      >>= KeyLocator.key_locator_obj_from_ndn cursor unary_lib keys key_obj)
    ≡ raise ndn_key_locator_error
unfolding KeyLocator.key_locator_to_ndn KeyLocator.append_locator
    KeyLocator.key_locator_obj_from_ndn
empty_run = refl
