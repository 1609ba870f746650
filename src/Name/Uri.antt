-- ===== src/Name/Uri.antt =====
-- csrc/methods_name.c: a name and its URI. The functions of ndn are parameters, none where they report
-- failure.
use py_ccn.Base.{
  ◌≢◌, inl, inr, arith, Bool-cases, Bool, true, false, Option, none, some, Bytes, if◌then◌else◌,
}
use py_ccn.Base.Run.{
  Run, raise, fault, ◌>>=◌, ◌>>◌, guard, or_raise, Exception, type_error, ndn_name_error,
}
use py_ccn.Objects.{
  Object, none_object, byte_array, number, other, unicode, bytes, capsule, CapsuleType,
}
use py_ccn.Signature.{Build, unicode_to_utf8, has_no_zero}

-- _pyndn_STRING_CHECK()
unfoldable pub is_string : Build → Object → Bool
is_string b (unicode s) = true
is_string b (bytes s) = if b.python3 then false else true
is_string b _ = false

-- A text without a size is refused by Python where it has a zero byte; `null_error` is the exception,
-- which depends on the version.
unfoldable pub cmd_name_from_uri :
    Build → (null_error : Exception) → (name_from_uri : Bytes → Option Bytes) → Object → Run Bytes
unfolding is_string
cmd_name_from_uri b null_error name_from_uri py_uri = do
  guard (is_string b py_uri) type_error
  buf ← unicode_to_utf8 b py_uri
  guard (has_no_zero buf) null_error
  or_raise (name_from_uri buf) ndn_name_error

-- PyUnicode_FromStringAndSize() is `decode`.
unfoldable pub cmd_name_to_uri :
    (uri_append : Bytes → Option Bytes) → (decode : Bytes → Run Bytes) → Object → Run Bytes
cmd_name_to_uri uri_append decode (capsule CapsuleType.name name) = do
  uri ← or_raise (uri_append name) ndn_name_error
  decode uri
cmd_name_to_uri uri_append decode _ = raise type_error

from_text :
    (test : Bool) (x : Exception) (parsed : Option Bytes)
    → (guard test x >> or_raise parsed ndn_name_error) ≢ fault
from_text false x parsed e = cc
from_text true x none e = cc
from_text true x (some n) e = cc

-- In no build does an object make name_from_uri() abort: what is no string is refused before
-- _pyndn_unicode_to_utf8() would fail on it.
pub cmd_name_from_uri-total :
    (b : Build) (null_error : Exception) (name_from_uri : Bytes → Option Bytes) (py_uri : Object)
    → cmd_name_from_uri b null_error name_from_uri py_uri ≢ fault
unfolding cmd_name_from_uri is_string unicode_to_utf8
cmd_name_from_uri-total b x f (unicode (some s)) e = from_text (has_no_zero s) x (f s) e
cmd_name_from_uri-total b x f (unicode none) e = cc
cmd_name_from_uri-total b x f (bytes s) e = elim (Bool-cases b.python3) [
  | inl p ↦ ground (arith, p, e)
  | inr p ↦ from_text (has_no_zero s) x (f s) (ground (arith, p, e))
]
cmd_name_from_uri-total b x f none_object e = cc
cmd_name_from_uri-total b x f (byte_array s) e = cc
cmd_name_from_uri-total b x f (number s) e = cc
cmd_name_from_uri-total b x f (capsule t s) e = cc
cmd_name_from_uri-total b x f other e = cc
