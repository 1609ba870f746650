-- ===== src/Interest.antt =====
-- csrc/methods_interest.c: a Python Interest and its encoding. Attributes come as what the Python
-- calls on them give; the charbuf functions of ndn are those of Encoder.
pub mod Encode
pub mod Exclude
pub mod Parse
pub mod Layout
mod Small
mod Ranges
pub mod RoundTrip
pub mod Stale
mod Runs
use py_ccn.Base.{
  ℕ, ◌*◌, ◌/◌, ◌%◌, ◌^◌, ◌≡◌, ltb, if◌then◌else◌, Bool, true, false, Option, none, some, List, [],
  ◌∷◌, ◌++◌, Bytes,
}
pub use py_ccn.Objects.{Attr, absent, none_value, value}
pub use py_ccn.Ndnb.{
  Dtag, interest, name, min_suffix_components, max_suffix_components, publisher_public_key_digest,
  child_selector, answer_origin_kind, scope, interest_lifetime, nonce, exclude, Encoder,
}
use py_ccn.Base.Int.{ℤ, int_of_long}
use py_ccn.Base.Run.{Run, ok, raise, fault, ◌>>=◌, or_raise, callee_error, memory_error, type_error}

-- The class of the exception that a missing attribute raises.
abbrev pub attribute_error : ℕ
attribute_error = 1

unfoldable pub is_attr_set : {A : Type 0} → Attr A → Run (Option A)
is_attr_set absent = raise (callee_error attribute_error)
is_attr_set none_value = ok none
is_attr_set (value a) = ok (some a)

-- A Python float: the numerator over 2 ^ shift, which each finite double is.
pub data Float : Type 0 where
  finite : (negative : Bool) → (numerator shift : ℕ) → Float
  not_finite : Float

-- The whole part of lifetime * 4096, without its sign. The product of a double is exact.
unfoldable pub ticks : Float → ℕ
ticks (finite negative numerator shift) = numerator * 4096 / 2 ^ shift
ticks not_finite = 0

-- Whether C defines the conversion of lifetime * 4096 to unsigned long: its whole part is in range.
unfoldable pub is_defined : Float → Bool
unfolding ticks
is_defined (finite negative numerator shift) =
    let i_lifetime = ticks (finite negative numerator shift) in
    ltb i_lifetime (if negative then 1 else 2 ^ 64)
is_defined not_finite = false

-- A number is what PyLong_AsLong() gives, or the exception that it raises; bytes are none where the
-- value is of another type.
pub record InterestObj : Type 0 where
  pub name : Attr (Run Bytes)
  pub min_suffix : Attr (Run ℤ)
  pub max_suffix : Attr (Run ℤ)
  pub digest : Attr (Option Bytes)
  pub exclude : Attr Bytes
  pub child_selector : Attr (Run ℤ)
  pub answer_origin_kind : Attr (Run ℤ)
  pub scope : Attr (Run ℤ)
  pub lifetime : Attr (Option Float)
  pub nonce : Attr (Option Bytes)

-- The three low bytes of i_lifetime, the highest first.
unfoldable pub lifetime_bytes : ℕ → Bytes
lifetime_bytes i_lifetime =
    (i_lifetime / 256 / 256 % 256) ∷ (i_lifetime / 256 % 256) ∷ (i_lifetime % 256) ∷ []

module _ (enc : Encoder) where
  unfoldable pub process_int_attribute : Bytes → Dtag → Attr (Run ℤ) → Run Bytes
  unfolding is_attr_set
  process_int_attribute cb tag attr = do
    set ← is_attr_set attr
    elim set [
      | none ↦ ok cb
      | some long ↦ do v ← long; or_raise (enc.tagged_putf cb tag (int_of_long v)) memory_error
    ]

  -- An interest with no name is a template, with an empty Name element.
  unfoldable pub append_name : Bytes → Attr (Run Bytes) → Run Bytes
  unfolding is_attr_set
  append_name cb attr = do
    set ← is_attr_set attr
    elim set [
      | none ↦ do
        cb' ← or_raise (enc.append_tt cb name) memory_error
        or_raise (enc.append_closer cb') memory_error
      | some py_name ↦ do cname ← py_name; or_raise (enc.append_charbuf cb cname) memory_error
    ]

  unfoldable pub append_digest : Bytes → Attr (Option Bytes) → Run Bytes
  unfolding is_attr_set
  append_digest cb attr = do
    set ← is_attr_set attr
    elim set [
      | none ↦ ok cb
      | some py_o ↦ do
        blob ← or_raise py_o type_error
        or_raise (enc.tagged_blob cb publisher_public_key_digest blob) memory_error
    ]

  -- The attribute is only looked up: the code that would encode it is commented out.
  unfoldable pub check_exclude : Bytes → Attr Bytes → Run Bytes
  unfolding is_attr_set
  check_exclude cb attr = is_attr_set attr >>= λ _. ok cb

  -- is_attr_set() is asked, but only for zero: where the attribute is missing, the code goes on
  -- with an old pointer, a fault, and so is a conversion to unsigned long that C leaves undefined.
  unfoldable pub append_lifetime : Bytes → Attr (Option Float) → Run Bytes
  unfolding lifetime_bytes ticks is_defined
  append_lifetime cb absent = fault
  append_lifetime cb none_value = ok cb
  append_lifetime cb (value none) = raise type_error
  append_lifetime cb (value (some lifetime)) =
      if is_defined lifetime
      then or_raise (enc.tagged_blob cb interest_lifetime (lifetime_bytes (ticks lifetime)))
          memory_error
      else fault

  unfoldable pub append_nonce : Bytes → Attr (Option Bytes) → Run Bytes
  append_nonce cb absent = fault
  append_nonce cb none_value = ok cb
  append_nonce cb (value none) = raise type_error
  append_nonce cb (value (some s)) = or_raise (enc.tagged_blob cb nonce s) memory_error

  -- Interest_obj_to_ndn()
  unfoldable pub interest_obj_to_ndn : InterestObj → Run Bytes
  interest_obj_to_ndn obj = do
    cb ← or_raise (enc.append_tt [] interest) memory_error
    cb ← append_name cb obj.name
    cb ← process_int_attribute cb min_suffix_components obj.min_suffix
    cb ← process_int_attribute cb max_suffix_components obj.max_suffix
    cb ← append_digest cb obj.digest
    cb ← check_exclude cb obj.exclude
    cb ← process_int_attribute cb child_selector obj.child_selector
    cb ← process_int_attribute cb answer_origin_kind obj.answer_origin_kind
    cb ← process_int_attribute cb scope obj.scope
    cb ← append_lifetime cb obj.lifetime
    cb ← append_nonce cb obj.nonce
    or_raise (enc.append_closer cb) memory_error
