-- ===== src/Data/Packet.antt =====
-- csrc/methods_contentobject.c: Data_obj_from_ndn() and the other commands on the capsule of a Data
-- packet. A capsule is its buffer and its context, and an argument of another type is none. The
-- functions of ndn that are given the buffer and the parsed form are parameters.
use py_ccn.Base.{
  ℕ, ◌-◌, Bool, true, false, Option, none, some, List, Bytes, ltb, leb, ◌==◌, not, if◌then◌else◌,
  read, length,
}
use py_ccn.Base.Int.{ℤ, pos, negsuc}
use py_ccn.Base.Run.{
  Run, ok, raise, ◌>>=◌, ◌>>◌, guard, assert, or_raise, type_error, memory_error, value_error,
  ndn_error, ndn_name_error, ndn_signature_error,
}
use py_ccn.Wire.{NameLib}
use py_ccn.Name.{name_obj_from_ndn}
use py_ccn.Ndnb.{BufDecoder}
use py_ccn.KeyLocator.{KeyLib}
use py_ccn.Signature.{PySignature, signature_obj_from_ndn}
use py_ccn.SignedInfo.{PySignedInfo, signed_info_obj_from_ndn}
use py_ccn.Data.{Context, empty, get_pco}

-- The fields of struct ndn_parsed_Data that the bindings look at: the number of components, and the
-- offsets of three sections and of the end.
pub record Parsed : Type 0 where
  pub name_ncomps : ℤ
  pub b_name : ℕ
  pub e_name : ℕ
  pub b_signature : ℕ
  pub e_signature : ℕ
  pub b_signed_info : ℕ
  pub e_signed_info : ℕ
  pub e : ℕ

pub record Capsule (C : Type 0) : Type 0 where
  pub content_object : Bytes
  pub context : Context Parsed C

-- The attributes of a Python Data; digestAlgorithm is None.
pub record PyData (P : Type 0) : Type 0 where
  pub name : List Bytes
  pub content : Bytes
  pub signature : PySignature
  pub signed_info : PySignedInfo P
  pub ndn_data : Bytes

unfoldable pub positive : ℤ → Bool
positive (pos n) = ltb 0 n
positive (negsuc n) = false

unfoldable pub is_zero : ℤ → Bool
is_zero (pos n) = n == 0
is_zero (negsuc n) = false

unfoldable pub not_negative : ℤ → Bool
not_negative (pos n) = true
not_negative (negsuc n) = false

-- ndn_charbuf_append() of a section to an empty charbuf. A section that ends before it starts has a
-- size that no memory holds.
unfoldable pub section : Bytes → (start stop : ℕ) → Run Bytes
section buf start stop =
    if leb start stop then read buf start (stop - start) else raise memory_error

-- ndn_parse_Data() is `parse`, and the two tests are those of get_pco.
module _ {C : Type 0} (parse : Bytes → Option (Parsed × C))
    (pco_allocated comps_allocated : Bool) where
  -- The type of the argument, its parsed form, and what is done with it.
  unfoldable pub with_pco :
      {A : Type 0} → Option (Capsule C) → (Bytes → Parsed → Run A) → Run A × Option (Capsule C)
  with_pco none next = (raise type_error, none)
  with_pco (some co) next =
      let got = get_pco parse pco_allocated comps_allocated co.content_object co.context in
      (got.0 >>= next co.content_object, some (record co { context = got.1 }))

  -- ndn_content_get_value() is `content_get_value`.
  module _ (content_get_value : Bytes → Parsed → Option Bytes) where
    unfoldable pub content_from_ndn_parsed : Bytes → Parsed → Run Bytes
    content_from_ndn_parsed content_object pco =
        or_raise (content_get_value content_object pco) ndn_error

    -- Name_obj_from_ndn_parsed(), once the parsed form is there.
    unfoldable pub name_obj_from_ndn_parsed : NameLib → Bytes → Parsed → Run (List Bytes)
    name_obj_from_ndn_parsed lib content_object pco = do
      guard (positive pco.name_ncomps) ndn_name_error
      name ← section content_object pco.b_name pco.e_name
      name_obj_from_ndn lib name

    module _ {D K P : Type 0} (dec : BufDecoder D) (lib : NameLib) (keys : KeyLib K)
        (key_obj : K → Run P) (content_data : ℕ) where
      unfoldable pub data_from_parsed : Bytes → Parsed → Run (PyData P)
      data_from_parsed content_object pco = do
        name ← name_obj_from_ndn_parsed lib content_object pco
        content ← content_from_ndn_parsed content_object pco
        signature ← section content_object pco.b_signature pco.e_signature
        py_signature ← signature_obj_from_ndn dec signature
        signed_info ← section content_object pco.b_signed_info pco.e_signed_info
        py_signed_info ← signed_info_obj_from_ndn dec lib keys key_obj content_data signed_info
        ok (record {
          name = name;
          content = content;
          signature = py_signature;
          signed_info = py_signed_info;
          ndn_data = content_object;
        })

      unfoldable pub data_obj_from_ndn : Option (Capsule C) → Run (PyData P) × Option (Capsule C)
      unfolding with_pco
      data_obj_from_ndn co = with_pco co data_from_parsed

      -- Data_obj_from_ndn_buffer(): an argument that is no buffer is none.
      unfoldable pub data_obj_from_ndn_buffer : Option Bytes → Run (PyData P)
      unfolding data_obj_from_ndn
      data_obj_from_ndn_buffer none = raise type_error
      data_obj_from_ndn_buffer (some buffer) =
          (data_obj_from_ndn (some (record { content_object = buffer; context = empty }))).0

  -- ndn_digest_ContentObject() leaves the digest in the parsed form, where nothing else reads it.
  unfoldable pub cmd_digest_contentobject :
      (digest : Bytes → Parsed → Bytes) → Option (Capsule C) → Run Bytes × Option (Capsule C)
  unfolding with_pco
  cmd_digest_contentobject digest co = with_pco co λ content_object pco. do
    guard (length content_object == pco.e) value_error
    ok (digest content_object pco)

  -- ndn_verify_content() gives 0 for a good packet.
  unfoldable pub cmd_verify_content :
      {H : Type 0}
      → (verify : H → Bytes → Parsed → ℤ) → Option H
      → Option (Capsule C)
      → Run Bool × Option (Capsule C)
  unfolding with_pco
  cmd_verify_content verify none co = (raise type_error, co)
  cmd_verify_content verify (some handle) co = with_pco co λ content_object pco. do
    assert (length content_object == pco.e)
    ok (is_zero (verify handle content_object pco))

  -- ndn_verify_signature() gives a negative number on an error, and 0 for a bad signature.
  unfoldable pub cmd_verify_signature :
      {K : Type 0}
      → (verify : Bytes → Parsed → K → ℤ) → Option (Capsule C)
      → Option K
      → Run Bool × Option (Capsule C)
  unfolding with_pco
  cmd_verify_signature verify none key = (raise type_error, none)
  cmd_verify_signature verify (some co) none = (raise type_error, some co)
  cmd_verify_signature verify (some co) (some key) = with_pco (some co) λ content_object pco. do
    let r = verify content_object pco key
    guard (not_negative r) ndn_signature_error
    ok (not (is_zero r))
