-- ===== src/SignedInfo/Runs.antt =====
-- A run of csrc/methods_signedinfo.c in the small format of Ndnb/Instance, with keys of one byte.
use py_ccn.Base.{ℕ, Option, none, some, [], ◌∷◌, ◌++◌, Bytes}
use py_ccn.Base.Int.{negsuc}
use py_ccn.Base.Run.{Run, ok}
use py_ccn.Ndnb.{key_locator, key}
use py_ccn.Ndnb.Instance.{small_laws}
use py_ccn.KeyLocator.{KeyLib}
use py_ccn.KeyLocator
use py_ccn.SignedInfo
use py_ccn.SignedInfo.RoundTrip

abbrev one_of : Bytes → Option ℕ
one_of (k ∷ []) = some k
one_of _ = none

abbrev keys : KeyLib ℕ
keys = record { append_pubkey_blob = λ cb k. some (cb ++ (2 ∷ 1 ∷ k ∷ [])); d2i_pubkey = one_of }

abbrev key_obj : ℕ → Run Bytes
key_obj k = ok (k ∷ k ∷ [])

-- The key locator of the key 5.
abbrev inner : Bytes
inner = small_laws.blob_bytes key (5 ∷ []) ++ small_laws.closer_bytes

abbrev locator : Bytes
locator = small_laws.tt_bytes key_locator ++ inner

abbrev handed : RoundTrip.Given
handed = record {
  digest = 1 ∷ 2 ∷ 3 ∷ 4 ∷ 5 ∷ 6 ∷ 7 ∷ 8 ∷ 9 ∷ 10 ∷ 11 ∷ 12 ∷ 13 ∷ 14 ∷ 15 ∷ 16 ∷ [];
  type = 3408010;
  freshness = negsuc 0;
  final_block = some (0 ∷ []);
  locator = some locator;
}
