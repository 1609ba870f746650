-- ===== src/SignedInfo.antt =====
-- csrc/methods_signedinfo.c: the signed info of a Data packet.
pub mod Decode
pub mod RoundTrip
pub mod Creator
mod Runs
use py_ccn.Base.{
  ℕ, ◌-◌, Bool, true, false, Option, none, some, [], ltb, if◌then◌else◌, Bytes, read, length,
}
use py_ccn.Base.Int.{ℤ}
use py_ccn.Base.Run.{
  Run, ok, raise, fault, ◌>>=◌, ◌>>◌, guard, assert, or_raise, memory_error, type_error,
  not_implemented_error, ndn_error, ndn_signed_info_error,
}
use py_ccn.Wire.{NameLib}
use py_ccn.Ndnb.{
  Dtag, signed_info, publisher_public_key_digest, timestamp, content_type, freshness_seconds,
  final_block_id, key_locator, Encoder, BufDecoder,
}
use py_ccn.Ndnb.Fields.{optional_field, required_field}
use py_ccn.KeyLocator.{KeyLib, PyKeyLocator, key_locator_obj_from_ndn}

-- The attributes that SignedInfo_obj_from_ndn() sets.
pub record PySignedInfo (P : Type 0) : Type 0 where
  pub digest : Bytes
  pub timestamp : Bytes
  pub content_type : ℤ
  pub freshness : Option ℕ
  pub final_block : Option Bytes
  pub locator : Option (PyKeyLocator P)

module _ {D K P : Type 0} (dec : BufDecoder D) (lib : NameLib) (keys : KeyLib K)
    (key_obj : K → Run P) where
  -- The key locator, where there is one: its element is copied and decoded. A failed assertion on the
  -- size is a fault.
  unfoldable pub locator_field : Bytes → D → Run (Option (PyKeyLocator P) × D)
  locator_field buf d = do
    let start = dec.token_index d
    if dec.match_dtag d key_locator
        then (do
          let (found, d') = dec.advance_past_element d
          guard found ndn_signed_info_error
          let size = dec.token_index d' - start
          assert (ltb 0 size)
          copy ← read buf start size
          locator ← key_locator_obj_from_ndn dec lib keys key_obj copy
          ok (some locator, d'))
        else ok (none, d)

  -- SignedInfo_obj_from_ndn(), on the content of the capsule; `content_data` is NDN_CONTENT_DATA.
  unfoldable pub signed_info_obj_from_ndn : (content_data : ℕ) → Bytes → Run (PySignedInfo P)
  signed_info_obj_from_ndn content_data buf = do
    let d = dec.start buf
    guard (dec.match_dtag d signed_info) ndn_signed_info_error
    let d = dec.advance d
    (digest, d) ←
        required_field dec buf d publisher_public_key_digest 16 (some 64) ndn_signed_info_error
    (time, d) ← required_field dec buf d timestamp 1 none ndn_signed_info_error
    assert (dec.state_ok d)
    let (kind, d) = dec.optional_binary d content_type 3 3 content_data
    guard (dec.state_ok d) ndn_signed_info_error
    let (fresh, d) = dec.optional_number d freshness_seconds
    let (final, d) = optional_field dec buf d final_block_id
    (locator, d) ← locator_field buf d
    guard (dec.state_ok (dec.check_close d)) ndn_signed_info_error
    ok (record {
      digest = digest;
      timestamp = time;
      content_type = kind;
      freshness = fresh;
      final_block = final;
      locator = locator;
    })

-- ndn_signed_info_create(), on an empty charbuf: the digest, the type, the freshness, the final block
-- and the key locator. ndn_charbuf_append_tt() with NDN_BLOB takes a size.
pub record SignedInfoLib : Type 0 where
  pub append_blob_tt : Bytes → ℕ → Option Bytes
  pub create : Bytes → (content_type freshness : ℤ) → Option Bytes → Option Bytes → Option Bytes

-- An argument of SignedInfo_to_ndn() that is None, of a wrong type, or right.
pub data Argument (A : Type 0) : Type 0 where
  not_given wrong_type : Argument A
  given : A → Argument A

module _ (enc : Encoder) (lib : SignedInfoLib) where
  -- The charbuf of the final block, with its size before it.
  unfoldable pub final_block_charbuf : Argument Bytes → Run (Option Bytes)
  final_block_charbuf not_given = ok none
  final_block_charbuf wrong_type = raise type_error
  final_block_charbuf (given s) = do
    cb ← or_raise (lib.append_blob_tt [] (length s)) memory_error
    cb ← or_raise (enc.append_charbuf cb s) memory_error
    ok (some cb)

  unfoldable pub locator_argument : Argument Bytes → Run (Option Bytes)
  locator_argument not_given = ok none
  locator_argument wrong_type = raise type_error
  locator_argument (given l) = ok (some l)

  -- _pyndn_cmd_SignedInfo_to_ndn(); `has_timestamp` says that a timestamp is given.
  unfoldable pub signed_info_to_ndn :
      (pubkey_digest : Option Bytes) (content_type : ℤ) (has_timestamp : Bool) (freshness : ℤ)
      → (final_block key_locator : Argument Bytes) → Run Bytes
  signed_info_to_ndn pubkey_digest kind has_timestamp freshness final_block py_locator = do
    publisher_key_id ← or_raise pubkey_digest type_error
    guard (if has_timestamp then false else true) not_implemented_error
    finalblockid ← final_block_charbuf final_block
    locator ← locator_argument py_locator
    or_raise (lib.create publisher_key_id kind freshness finalblockid locator) ndn_error
