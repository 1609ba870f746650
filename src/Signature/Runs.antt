-- ===== src/Signature/Runs.antt =====
-- Runs of csrc/methods_signature.c in the small format of Ndnb/Instance.
use py_ccn.Base.{◌≡◌, refl, true, none, some, [], ◌∷◌, Bytes, arith}
use py_ccn.Base.Run.{ok, ◌>>=◌}
use py_ccn.Objects.{absent}
use py_ccn.Ndnb.Instance.{small, small_laws, cursor}
use py_ccn.Ndnb.Instance.Laws.{small_reads}
use py_ccn.Signature
use py_ccn.Signature.RoundTrip

abbrev python3 : Signature.Build
python3 = record { python3 = true; asserts = true }

-- "1.2", no witness, and three bytes.
abbrev digest : Bytes
digest = 49 ∷ 46 ∷ 50 ∷ []

abbrev bits : Bytes
bits = 7 ∷ 0 ∷ 9 ∷ []

signature_obj-round_trip_example :
    (Signature.signature_obj_to_ndn small python3 (RoundTrip.obj_of (some digest) none (some bits))
      >>= Signature.signature_obj_from_ndn cursor)
    ≡ ok (record { digest_algorithm = some digest; witness = none; signature_bits = bits })
signature_obj-round_trip_example =
    RoundTrip.signature_obj-round_trip small small_laws python3 cursor small_reads (some digest)
      none bits (unfold Signature.has_no_zero in refl) (omega arith) tt (omega arith)

-- A Signature with no attributes at all is an element with nothing in it.
empty_run :
    Signature.signature_obj_to_ndn small python3
      (record { digest_algorithm = absent; witness = absent; signature_bits = absent })
    ≡ ok (1 ∷ 13 ∷ 0 ∷ [])
unfolding Signature.signature_obj_to_ndn Signature.append_digest_algorithm Signature.append_witness
    Signature.append_signature_bits
empty_run = refl
