-- ===== src/Signature.antt =====
-- csrc/methods_signature.c: a Python Signature and its encoding.
pub mod RoundTrip
mod Runs
use py_ccn.Base.{
  ℕ, zero, suc, Bool, true, false, ◌&&◌, not, Option, none, some, List, [], ◌∷◌, ◌++◌, ◌==◌,
  if◌then◌else◌, Bytes,
}
use py_ccn.Base.Run.{
  Run, ok, raise, fault, ◌>>=◌, ◌>>◌, guard, or_raise, memory_error, type_error, value_error,
  ndn_signature_error,
}
use py_ccn.Objects.{Object, unicode, bytes, Attr, absent, none_value, value}
use py_ccn.Ndnb.{Dtag, signature, digest_algorithm, witness, signature_bits, Encoder, BufDecoder}
use py_ccn.Ndnb.Fields.{optional_field, required_field}

-- How the module is compiled: for Python 3, and with assertions.
pub record Build : Type 0 where
  pub python3 : Bool
  pub asserts : Bool

-- strlen() of the text is its length.
unfoldable pub has_no_zero : Bytes → Bool
has_no_zero [] = true
has_no_zero (b ∷ bs) = if b == 0 then false else has_no_zero bs

-- _pyndn_unicode_to_utf8(). A value of another type fails an assertion, and without assertions it is
-- taken for a text, which reads outside of the object; in Python 2 PyString_AsStringAndSize() refuses
-- it.
unfoldable pub unicode_to_utf8 : Build → Object → Run Bytes
unicode_to_utf8 b (unicode (some s)) = ok s
unicode_to_utf8 b (unicode none) = raise value_error
unicode_to_utf8 b (bytes s) = if b.python3 then fault else ok s
unicode_to_utf8 b _ = if b.python3 then fault else (if b.asserts then fault else raise type_error)

-- With assertions the length of the text is looked at before the result is, so that a failed
-- conversion reads through a pointer that was never set.
unfoldable pub checked_utf8 : Build → Run Bytes → Run Bytes
checked_utf8 b (ok s) = if b.asserts && not (has_no_zero s) then fault else ok s
checked_utf8 b (raise e) = if b.asserts then fault else raise e
checked_utf8 b fault = fault

-- A Python Signature; a missing attribute is absent. Bytes are none where the value is of another
-- type.
pub record SignatureObj : Type 0 where
  pub digest_algorithm : Attr Object
  pub witness : Attr (Option Bytes)
  pub signature_bits : Attr (Option Bytes)

module _ (enc : Encoder) where
  unfoldable pub append_digest_algorithm : Build → Bytes → Attr Object → Run Bytes
  unfolding unicode_to_utf8 checked_utf8
  append_digest_algorithm b cb absent = ok cb
  append_digest_algorithm b cb none_value = ok cb
  append_digest_algorithm b cb (value o) = do
    str ← checked_utf8 b (unicode_to_utf8 b o)
    or_raise (enc.tagged_blob cb digest_algorithm str) memory_error

  unfoldable pub append_witness : Bytes → Attr (Option Bytes) → Run Bytes
  append_witness cb absent = ok cb
  append_witness cb none_value = ok cb
  append_witness cb (value py_witness) = do
    blob ← or_raise py_witness type_error
    or_raise (enc.tagged_blob cb witness blob) memory_error

  unfoldable pub append_signature_bits : Bytes → Attr (Option Bytes) → Run Bytes
  append_signature_bits cb absent = ok cb
  append_signature_bits cb none_value = ok cb
  append_signature_bits cb (value py_bits) = do
    blob ← or_raise py_bits type_error
    or_raise (enc.tagged_blob cb signature_bits blob) memory_error

  -- Signature_obj_to_ndn()
  unfoldable pub signature_obj_to_ndn : Build → SignatureObj → Run Bytes
  signature_obj_to_ndn b obj = do
    cb ← or_raise (enc.append_tt [] signature) memory_error
    cb ← append_digest_algorithm b cb obj.digest_algorithm
    cb ← append_witness cb obj.witness
    cb ← append_signature_bits cb obj.signature_bits
    or_raise (enc.append_closer cb) memory_error

-- The attributes that Signature_obj_from_ndn() sets.
pub record PySignature : Type 0 where
  pub digest_algorithm : Option Bytes
  pub witness : Option Bytes
  pub signature_bits : Bytes

module _ {D : Type 0} (dec : BufDecoder D) where
  -- Signature_obj_from_ndn(), on the content of the capsule.
  unfoldable pub signature_obj_from_ndn : Bytes → Run PySignature
  signature_obj_from_ndn buf = do
    let d = dec.start buf
    guard (dec.match_dtag d signature) ndn_signature_error
    let d = dec.advance d
    let (digest, d) = optional_field dec buf d digest_algorithm
    let (wit, d) = optional_field dec buf d witness
    (bits, d) ← required_field dec buf d signature_bits 1 none ndn_signature_error
    guard (dec.state_ok (dec.check_close d)) ndn_signature_error
    ok (record { digest_algorithm = digest; witness = wit; signature_bits = bits })
