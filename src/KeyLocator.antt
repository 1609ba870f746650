-- ===== src/KeyLocator.antt =====
-- csrc/methods_key.c: key locators, by the name of a key or by the key itself.
pub mod RoundTrip
mod Runs
use py_ccn.Base.{
  ℕ, ◌+◌, ◌-◌, Bool, true, false, Option, none, some, List, [], ◌++◌, ltb, if◌then◌else◌, Bytes,
  read,
}
use py_ccn.Base.Run.{
  Run, ok, raise, fault, ◌>>=◌, ◌>>◌, guard, assert, or_raise, memory_error, type_error,
  not_implemented_error, ndn_key_locator_error,
}
use py_ccn.Wire.{NameLib}
use py_ccn.Name.{name_comps_from_ndn}
use py_ccn.Ndnb.{Dtag, key_locator, key_name, key, certificate, Encoder, BufDecoder}
use py_ccn.Ndnb.Fields.{required_field}

-- The functions of ndn on public keys; none: they report failure. `K` is a key of the library.
pub record KeyLib (K : Type 0) : Type 0 where
  pub append_pubkey_blob : Bytes → K → Option Bytes
  pub d2i_pubkey : Bytes → Option K

-- An argument that is no capsule of the right type is none.
module _ (enc : Encoder) where
  unfoldable pub key_locator_name_to_ndn : Bytes → Option Bytes → Run Bytes
  key_locator_name_to_ndn cb py_name = do
    name ← or_raise py_name type_error
    cb ← or_raise (enc.append_tt cb key_name) memory_error
    cb ← or_raise (enc.append_charbuf cb name) memory_error
    or_raise (enc.append_closer cb) memory_error

  module _ {K : Type 0} (keys : KeyLib K) where
    unfoldable pub key_locator_key_to_ndn : Bytes → Option K → Run Bytes
    key_locator_key_to_ndn cb py_key = do
      k ← or_raise py_key type_error
      cb ← or_raise (enc.append_tt cb key) memory_error
      cb ← or_raise (keys.append_pubkey_blob cb k) memory_error
      or_raise (enc.append_closer cb) memory_error

    -- The first of name, key and certificate that is not None counts.
    unfoldable pub append_locator :
        Bytes
        → (name : Option (Option Bytes)) (py_key : Option (Option K)) (cert : Bool) → Run Bytes
    append_locator cb (some py_name) py_key cert = key_locator_name_to_ndn cb py_name
    append_locator cb none (some py_key) cert = key_locator_key_to_ndn cb py_key
    append_locator cb none none true = raise not_implemented_error
    append_locator cb none none false = ok cb

    -- _pyndn_cmd_KeyLocator_to_ndn(): an argument that is None is none.
    unfoldable pub key_locator_to_ndn :
        (name : Option (Option Bytes)) (py_key : Option (Option K)) (cert : Bool) → Run Bytes
    key_locator_to_ndn name py_key cert = do
      cb ← or_raise (enc.append_tt [] key_locator) memory_error
      cb ← append_locator cb name py_key cert
      or_raise (enc.append_closer cb) memory_error

-- A Python KeyLocator, with the attribute that is set; `P` is a Python Key.
pub data PyKeyLocator (P : Type 0) : Type 0 where
  by_name : List Bytes → PyKeyLocator P
  by_key : P → PyKeyLocator P

-- `key_obj` is Key_obj_from_ndn() on a public key.
module _ {D K P : Type 0} (dec : BufDecoder D) (lib : NameLib) (keys : KeyLib K)
    (key_obj : K → Run P) where
  unfoldable pub locator_by_name : Bytes → D → Run (PyKeyLocator P)
  locator_by_name buf d = do
    let start = dec.token_index d
    let (found, d') = dec.parse_name d
    guard found ndn_key_locator_error
    let stop = dec.token_index d'
    assert (ltb start stop)
    name ← read buf start (stop - start)
    comps ← name_comps_from_ndn lib name
    ok (by_name comps)

  unfoldable pub locator_by_key : Bytes → D → Run (PyKeyLocator P)
  locator_by_key buf d = do
    guard (dec.required_blob d key 1 none).0 ndn_key_locator_error
    (dkey, d') ← required_field dec buf d key 1 none ndn_key_locator_error
    pubkey ← or_raise (keys.d2i_pubkey dkey) ndn_key_locator_error
    py_key ← key_obj pubkey
    ok (by_key py_key)

  -- KeyLocator_obj_from_ndn(), on the content of the capsule. How the element ends is not looked at.
  unfoldable pub key_locator_obj_from_ndn : Bytes → Run (PyKeyLocator P)
  key_locator_obj_from_ndn buf = do
    let d = dec.start buf
    guard (dec.match_dtag d key_locator) ndn_key_locator_error
    let d = dec.advance d
    if dec.match_dtag d key_name
        then locator_by_name buf (dec.advance d)
        else (if dec.match_dtag d key
            then locator_by_key buf d
            else raise (
                if dec.match_dtag d certificate
                then not_implemented_error
                else ndn_key_locator_error))
