-- ===== src/Signature/RoundTrip.antt =====
-- Signature_obj_from_ndn() on what Signature_obj_to_ndn() makes.
use py_ccn.Base.{
  ◌≤◌, ◌≡◌, refl, sym, ap, true, Option, none, some, [], ◌++◌, append_assoc, append-nil, Bytes,
  length, arith, if◌then◌else◌, Bool-cases, inl, inr,
}
use py_ccn.Base.Run.{ok, raise, fault, ◌>>=◌, ndn_signature_error}
use py_ccn.Objects.{unicode, bytes, Attr, none_value, value}
use py_ccn.Ndnb.{
  signature, digest_algorithm, witness, signature_bits, Encoder, Appends, BufDecoder, Decodes,
}
use py_ccn.Ndnb.Fields.{
  optional_bytes, NonEmpty, start-On, match-On, advance-On, close-On, Lacks-blob, Lacks-end,
  Lacks-optional, optional_field-On, required_field-On, required_field-Lacks,
}
use py_ccn.Signature.{
  Build, has_no_zero, SignatureObj, append_digest_algorithm, append_witness, append_signature_bits,
  signature_obj_to_ndn, PySignature, signature_obj_from_ndn,
}

abbrev pub attr : {A B : Type 0} → (A → B) → Option A → Attr B
attr f none = none_value
attr f (some a) = value (f a)

abbrev pub IsText : Option Bytes → Type 0
IsText none = Unit {0}
IsText (some s) = has_no_zero s ≡ true

-- A Signature with a text as its digest algorithm.
abbrev pub obj_of : (digest wit bits : Option Bytes) → SignatureObj
obj_of digest wit bits = record {
  digest_algorithm = attr (λ s. unicode (some s)) digest;
  witness = attr some wit;
  signature_bits = attr some bits;
}

-- The attributes of a decoded Signature.
abbrev pub attributes : PySignature → SignatureObj
attributes py = record {
  digest_algorithm = attr bytes py.digest_algorithm;
  witness = attr some py.witness;
  signature_bits = value (some py.signature_bits);
}

module _ (enc : Encoder) (law : Appends enc) (b : Build) where
  abbrev pub encoded : (digest wit bits : Option Bytes) → Bytes
  encoded digest wit bits =
      law.tt_bytes signature
      ++ (optional_bytes law digest_algorithm digest
          ++ (optional_bytes law witness wit
              ++ (optional_bytes law signature_bits bits ++ law.closer_bytes)))

  digest-append :
      (cb : Bytes) (digest : Option Bytes)
      → IsText digest
      → append_digest_algorithm enc b cb (attr (λ s. unicode (some s)) digest)
        ≡ ok (cb ++ optional_bytes law digest_algorithm digest)
  unfolding append_digest_algorithm
  digest-append cb none h = ap ok (sym (append-nil cb))
  digest-append cb (some s) h = ground (arith, h, law.tagged_blob cb digest_algorithm s)

  witness-append :
      (cb : Bytes) (wit : Option Bytes)
      → append_witness enc cb (attr some wit) ≡ ok (cb ++ optional_bytes law witness wit)
  unfolding append_witness
  witness-append cb none = ap ok (sym (append-nil cb))
  witness-append cb (some s) = rw (law.tagged_blob cb witness s)

  bits-append :
      (cb : Bytes) (bits : Option Bytes)
      → append_signature_bits enc cb (attr some bits)
        ≡ ok (cb ++ optional_bytes law signature_bits bits)
  unfolding append_signature_bits
  bits-append cb none = ap ok (sym (append-nil cb))
  bits-append cb (some s) = rw (law.tagged_blob cb signature_bits s)

  pub to_ndn-encoded :
      (digest wit bits : Option Bytes)
      → IsText digest
      → signature_obj_to_ndn enc b (obj_of digest wit bits) ≡ ok (encoded digest wit bits)
  unfolding signature_obj_to_ndn
  to_ndn-encoded digest wit bits h = rw (law.append_tt [] signature) (
      rw (digest-append _ digest h) (
        rw (witness-append _ wit)
          (rw (bits-append _ bits) (rw (law.append_closer _) (simp append_assoc)))))

  bytes-append :
      (cb s : Bytes)
      → has_no_zero s ≡ true
      → append_digest_algorithm enc b cb (value (bytes s))
        ≡ (if b.python3 then fault else ok (cb ++ law.blob_bytes digest_algorithm s))
  unfolding append_digest_algorithm
  bytes-append cb s h = ground (arith, h, law.tagged_blob cb digest_algorithm s)

  rewritten :
      (digest : Bytes) (wit : Option Bytes) (bits : Bytes)
      → has_no_zero digest ≡ true
      → signature_obj_to_ndn enc b (
          attributes
            (record { digest_algorithm = some digest; witness = wit; signature_bits = bits }))
        ≡ (if b.python3 then fault else ok (encoded (some digest) wit (some bits)))
  unfolding signature_obj_to_ndn
  rewritten digest wit bits h = rw (law.append_tt [] signature) (
      rw (bytes-append _ digest h) (elim (Bool-cases b.python3) [
        | inl e ↦ rw e
        | inr e ↦ rw e (
            rw (witness-append _ wit)
              (rw (bits-append _ (some bits)) (rw (law.append_closer _) (simp append_assoc))))
      ]))

  module _ {D : Type 0} (dec : BufDecoder D) (reads : Decodes enc law dec) where
    pub from_ndn-encoded :
        (digest wit : Option Bytes) (bits : Bytes)
        → NonEmpty digest
        → NonEmpty wit
        → 1 ≤ length bits
        → signature_obj_from_ndn dec (encoded digest wit (some bits))
          ≡ ok (record { digest_algorithm = digest; witness = wit; signature_bits = bits })
    unfolding signature_obj_from_ndn
    from_ndn-encoded digest wit bits nd nw nb =
        let tail3 = law.blob_bytes signature_bits bits ++ law.closer_bytes in
        let tail2 = optional_bytes law witness wit ++ tail3 in
        let on0 = start-On reads (encoded digest wit (some bits)) in
        let m = match-On reads signature _ on0 refl in
        let on1 = advance-On reads signature _ on0 refl in
        let (d2, e2, on2) =
          optional_field-On reads digest_algorithm digest tail2 nd
            (Lacks-optional reads digest_algorithm witness wit tail3 (λ e. cc)
              (Lacks-blob reads digest_algorithm signature_bits bits _ (λ e. cc)))
            on1 refl in
        let (d3, e3, on3) =
          optional_field-On reads witness wit tail3 nw
            (Lacks-blob reads witness signature_bits bits _ (λ e. cc)) on2 refl in
        let (d4, e4, on4) =
          required_field-On reads signature_bits bits law.closer_bytes 1 none ndn_signature_error nb
            on3 refl in
        let on5 = close-On reads [] on4 (sym (append-nil law.closer_bytes)) in
        rw m (rw (e2) (rw e3 (rw e4 (rw (reads.state_ok-At on5.at)))))

    -- With memory enough, a Signature that is written is read back, with its digest algorithm as bytes,
    -- where that is a text without a zero, no attribute is empty and the signature bits are there.
    pub signature_obj-round_trip :
        (digest wit : Option Bytes) (bits : Bytes)
        → IsText digest
        → NonEmpty digest
        → NonEmpty wit
        → 1 ≤ length bits
        → (signature_obj_to_ndn enc b (obj_of digest wit (some bits))
            >>= signature_obj_from_ndn dec)
          ≡ ok (record { digest_algorithm = digest; witness = wit; signature_bits = bits })
    signature_obj-round_trip digest wit bits t nd nw nb =
        rw (to_ndn-encoded digest wit (some bits) t) (from_ndn-encoded digest wit bits nd nw nb)

    -- A Signature without signature bits is written without an error, and raises when it is read.
    pub signature_obj-no_bits :
        (digest wit : Option Bytes)
        → IsText digest
        → NonEmpty digest
        → NonEmpty wit
        → (signature_obj_to_ndn enc b (obj_of digest wit none) ≡ ok (encoded digest wit none))
          × (signature_obj_from_ndn dec (encoded digest wit none) ≡ raise ndn_signature_error)
    unfolding signature_obj_from_ndn
    signature_obj-no_bits digest wit t nd nw =
        let tail2 = optional_bytes law witness wit ++ law.closer_bytes in
        let on0 = start-On reads (encoded digest wit none) in
        let m = match-On reads signature _ on0 refl in
        let on1 = advance-On reads signature _ on0 refl in
        let (d2, e2, on2) =
          optional_field-On reads digest_algorithm digest tail2 nd
            (Lacks-optional reads digest_algorithm witness wit law.closer_bytes (λ e. cc)
              (Lacks-end reads digest_algorithm))
            on1 refl in
        let (d3, e3, on3) =
          optional_field-On reads witness wit law.closer_bytes nw (Lacks-end reads witness) on2
            refl in
        (
          to_ndn-encoded digest wit none t,
          rw m (
              rw e2 (
                rw e3 (
                  rw (
                    required_field-Lacks reads signature_bits 1 none ndn_signature_error
                      (Lacks-end reads signature_bits) on3)))),
        )

    -- A decoded Signature with a digest algorithm that has no zero, written again with memory enough: in Python 3 its bytes are no text,
    -- which is a fault; in Python 2 they are, and the encoding is the one that was read.
    pub signature_obj-rewrite :
        (digest : Bytes) (wit : Option Bytes) (bits : Bytes)
        → has_no_zero digest ≡ true
        → 1 ≤ length digest
        → NonEmpty wit
        → 1 ≤ length bits
        → (signature_obj_from_ndn dec (encoded (some digest) wit (some bits)) >>= λ py.
            signature_obj_to_ndn enc b (attributes py))
          ≡ (if b.python3 then fault else ok (encoded (some digest) wit (some bits)))
    signature_obj-rewrite digest wit bits t nd nw nb =
        rw (from_ndn-encoded (some digest) wit bits nd nw nb) (rewritten digest wit bits t)
