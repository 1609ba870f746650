-- ===== src/Objects.antt =====
-- csrc/objects.c: the capsules in which Python holds the C data, and the Python values that the
-- bindings tell apart.
pub mod Types
pub mod Lifetime
pub mod Access
pub mod Charbuf
mod Runs
use py_ccn.Base.{ℕ, Bool, true, false, Option, Bytes}
use py_ccn.Base.Run.{Run, ok, raise, Exception}

-- enum _pyndn_capsules, with NAMECRYPTO.
pub data CapsuleType : Type 0 where
  closure content_object exclusion_filter handle interest key_locator name : CapsuleType
  pkey_priv pkey_pub signature signed_info signing_params namecrypto_state : CapsuleType

abbrev pub to_int : CapsuleType → ℕ
to_int closure = 1
to_int content_object = 2
to_int exclusion_filter = 3
to_int handle = 4
to_int interest = 5
to_int key_locator = 6
to_int name = 7
to_int pkey_priv = 8
to_int pkey_pub = 9
to_int signature = 10
to_int signed_info = 11
to_int signing_params = 12
to_int namecrypto_state = 13

-- A Python object, as far as the bindings look at it. `unicode` carries what the UTF-8 encoder
-- gives and `number` what str() gives, none where that raises. A capsule carries the bytes of its
-- charbuf.
pub data Object : Type 0 where
  none_object : Object
  unicode : Option Bytes → Object
  bytes : Bytes → Object
  byte_array : Bytes → Object
  number : Option Bytes → Object
  capsule : CapsuleType → Bytes → Object
  other : Object

-- PyObject_GetAttrString(): no such attribute, None, or a value.
pub data Attr (A : Type 0) : Type 0 where
  absent none_value : Attr A
  value : A → Attr A
