-- ===== src/Data/Encode.antt =====
-- csrc/methods_contentobject.c: _pyndn_cmd_encode_Data() and the conversions of a content to bytes.
use py_ccn.Base.{◌≡◌, refl, Bool, Option, none, some, Bytes}
use py_ccn.Base.Run.{
  Run, ok, raise, ◌>>=◌, ◌>>◌, guard, or_raise, type_error, value_error, ndn_error, callee_error,
}
use py_ccn.Objects.{Object, none_object, unicode, bytes, byte_array, number, capsule, other}
use py_ccn.SignedInfo.{Argument, not_given, wrong_type, given}
use py_ccn.Key.{PyKey, key_to_ndn_private}

-- The text of an object, where the conversions make one of it.
unfoldable pub text_of : Object → Option (Run Bytes)
text_of (number (some s)) = some (ok s)
text_of (number none) = some (raise (callee_error 0))
text_of (unicode (some s)) = some (ok s)
text_of (unicode none) = some (raise value_error)
text_of _ = none

-- PyObject_Bytes() is `to_bytes`; none is None.
unfoldable pub content_to_bytes : (to_bytes : Object → Run Bytes) → Object → Run (Option Bytes)
unfolding text_of
content_to_bytes to_bytes none_object = ok none
content_to_bytes to_bytes arg = elim (text_of arg) [
  | some text ↦ text >>= λ s. ok (some s)
  | none ↦ to_bytes arg >>= λ s. ok (some s)
]

-- PyByteArray_FromObject() is `from_object`.
unfoldable pub content_to_bytearray :
    (from_object : Object → Run Bytes) → Object → Run (Option Bytes)
unfolding text_of
content_to_bytearray from_object none_object = ok none
content_to_bytearray from_object arg = elim (text_of arg) [
  | some text ↦ text >>= λ s. from_object (bytes s) >>= λ b. ok (some b)
  | none ↦ from_object arg >>= λ b. ok (some b)
]

unfoldable pub content_argument : Argument Bytes → Run (Option Bytes)
content_argument not_given = ok none
content_argument wrong_type = raise type_error
content_argument (given s) = ok (some s)

-- ndn_encode_ContentObject() is `encode`, none where it reports failure. A name or a signed info of
-- another type is none, and so is an object that is no Key.
unfoldable pub cmd_encode_data :
    {K : Type 0}
    → (encode : (name signed_info : Bytes) → (content : Option Bytes) → K → Option Bytes)
    → (is_data : Bool) → (name : Option Bytes) → (content : Argument Bytes)
    → (signed_info : Option Bytes) → (key : Option (PyKey K)) → Run Bytes
unfolding content_argument
cmd_encode_data encode is_data py_name py_content py_signed_info py_key = do
  guard is_data type_error
  name ← or_raise py_name type_error
  content ← content_argument py_content
  signed_info ← or_raise py_signed_info type_error
  key ← or_raise py_key type_error
  private_key ← key_to_ndn_private key
  or_raise (encode name signed_info content private_key) ndn_error

-- Where the conversions of Python agree on what is no text and no number, and keep bytes as they are,
-- so do the conversions of a content.
pub content_to_bytes-content_to_bytearray :
    (to_bytes from_object : Object → Run Bytes)
    → ((s : Bytes) → from_object (bytes s) ≡ ok s)
    → ((o : Object) → text_of o ≡ none → to_bytes o ≡ from_object o)
    → (arg : Object) → content_to_bytes to_bytes arg ≡ content_to_bytearray from_object arg
unfolding content_to_bytes content_to_bytearray text_of
content_to_bytes-content_to_bytearray to_bytes from_object keep same none_object = refl
content_to_bytes-content_to_bytearray to_bytes from_object keep same (number (some s)) =
    rw (keep s) refl
content_to_bytes-content_to_bytearray to_bytes from_object keep same (number none) = refl
content_to_bytes-content_to_bytearray to_bytes from_object keep same (unicode (some s)) =
    rw (keep s) refl
content_to_bytes-content_to_bytearray to_bytes from_object keep same (unicode none) = refl
content_to_bytes-content_to_bytearray to_bytes from_object keep same (bytes s) =
    rw (same (bytes s) refl) refl
content_to_bytes-content_to_bytearray to_bytes from_object keep same (byte_array s) =
    rw (same (byte_array s) refl) refl
content_to_bytes-content_to_bytearray to_bytes from_object keep same (capsule t s) =
    rw (same (capsule t s) refl) refl
content_to_bytes-content_to_bytearray to_bytes from_object keep same other =
    rw (same other refl) refl
