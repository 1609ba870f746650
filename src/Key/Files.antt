-- ===== src/Key/Files.antt =====
-- csrc/key_utils.c and csrc/methods_key.c: keys in PEM and in DER, and the commands that read and write
-- them. An argument that is None is none; one of a wrong type is `some none`.
use py_ccn.Base.{Bool, true, false, Option, none, some, Bytes, if◌then◌else◌}
use py_ccn.Base.Run.{
  Run, raise, ◌>>=◌, or_raise, type_error, value_error, not_implemented_error, ndn_key_error,
}
use py_ccn.Key.{Ssl, ReadKey, KeyCapsule, pkey_priv, pkey_pub, no_key, finish_read}

-- PEM_read_PrivateKey(): a key, no start line of one (the reason 108), or another error.
pub data PemRead (K : Type 0) : Type 0 where
  read_key : K → PemRead K
  no_start_line other_error : PemRead K

-- The functions of OpenSSL on PEM, on what the file holds or on a buffer in memory.
pub record Pem (K : Type 0) : Type 0 where
  pub file_private : Bytes → (password : Option Bytes) → PemRead K
  pub file_public : Bytes → Option K
  pub bio_private : Bytes → (password : Option Bytes) → Option K
  pub bio_public : Bytes → Option K
  pub write_private : K → (password : Option Bytes) → Option Bytes
  pub write_public : K → Option Bytes
  pub file_write_private : K → (password : Option Bytes) → Option Bytes
  pub file_write_public : K → Option Bytes

module _ {K R : Type 0} (ssl : Ssl K R) where
  unfoldable pub get_key_der_private : K → Run Bytes
  get_key_der_private key = or_raise (ssl.i2d_private_key key) ndn_key_error

  unfoldable pub get_key_der_public : K → Run Bytes
  get_key_der_public key = or_raise (ssl.i2d_pubkey key) ndn_key_error

  -- The result of d2i is not tested.
  unfoldable pub put_key_der : (allocated is_public_only : Bool) → Option Bytes → Run (ReadKey K)
  unfolding finish_read
  put_key_der allocated is_public_only py_key_der = do
    key_der ← or_raise py_key_der type_error
    finish_read ssl allocated is_public_only
        (if is_public_only then ssl.d2i_pubkey key_der else ssl.d2i_private_key key_der)

  unfoldable pub cmd_der_read_key :
      (allocated : Bool) → (private_der public_der : Option (Option Bytes)) → Run (ReadKey K)
  unfolding put_key_der
  cmd_der_read_key allocated (some py_der) public_der = put_key_der allocated false py_der
  cmd_der_read_key allocated none (some py_der) = put_key_der allocated true py_der
  cmd_der_read_key allocated none none = raise value_error

  unfoldable pub cmd_der_write_key : (has_file : Bool) → KeyCapsule K → Run Bytes
  unfolding get_key_der_private get_key_der_public
  cmd_der_write_key has_file no_key = raise type_error
  cmd_der_write_key true (pkey_priv key) = raise not_implemented_error
  cmd_der_write_key true (pkey_pub key) = raise not_implemented_error
  cmd_der_write_key false (pkey_priv key) = get_key_der_private key
  cmd_der_write_key false (pkey_pub key) = get_key_der_public key

  module _ (pem : Pem K) where
    unfoldable pub get_key_pem_private : K → (password : Option Bytes) → Run Bytes
    get_key_pem_private key password = or_raise (pem.write_private key password) ndn_key_error

    unfoldable pub get_key_pem_public : K → Run Bytes
    get_key_pem_public key = or_raise (pem.write_public key) ndn_key_error

    -- The result is what the file gets.
    unfoldable pub write_key_pem_private : K → (password : Option Bytes) → Run Bytes
    write_key_pem_private key password =
        or_raise (pem.file_write_private key password) ndn_key_error

    unfoldable pub write_key_pem_public : K → Run Bytes
    write_key_pem_public key = or_raise (pem.file_write_public key) ndn_key_error

    -- The result is what Python gets or, with a file, what the file gets. The file is open.
    unfoldable pub cmd_pem_write_key :
        (has_file : Bool) → KeyCapsule K → (password : Option Bytes) → Run Bytes
    unfolding get_key_pem_private get_key_pem_public write_key_pem_private write_key_pem_public
    cmd_pem_write_key has_file no_key password = raise type_error
    cmd_pem_write_key true (pkey_priv key) password = write_key_pem_private key password
    cmd_pem_write_key true (pkey_pub key) password = write_key_pem_public key
    cmd_pem_write_key false (pkey_priv key) password = get_key_pem_private key password
    cmd_pem_write_key false (pkey_pub key) password = get_key_pem_public key

    -- The file is read from the same position a second time. fgetpos() and fsetpos() do not fail.
    unfoldable pub read_key_pem :
        (allocated : Bool) → Bytes → (password : Option Bytes) → Run (ReadKey K)
    unfolding finish_read
    read_key_pem allocated file password = elim (pem.file_private file password) [
      | read_key key ↦ finish_read ssl allocated false (some key)
      | no_start_line ↦ do
        key ← or_raise (pem.file_public file) ndn_key_error
        finish_read ssl allocated true (some key)
      | other_error ↦ raise ndn_key_error
    ]

    unfoldable pub put_key_pem :
        (allocated is_public_only : Bool)
        → Option Bytes
        → (password : Option Bytes) → Run (ReadKey K)
    unfolding finish_read
    put_key_pem allocated is_public_only py_key_pem password = do
      key_pem ← or_raise py_key_pem type_error
      key ←
          or_raise
            (if is_public_only then pem.bio_public key_pem else pem.bio_private key_pem password)
            ndn_key_error
      finish_read ssl allocated is_public_only (some key)

    unfoldable pub cmd_pem_read_key :
        (allocated : Bool)
        → (file : Option Bytes) → (private_pem public_pem : Option (Option Bytes))
        → (password : Option Bytes) → Run (ReadKey K)
    unfolding read_key_pem put_key_pem
    cmd_pem_read_key allocated (some file) private_pem public_pem password =
        read_key_pem allocated file password
    cmd_pem_read_key allocated none (some py_pem) public_pem password =
        put_key_pem allocated false py_pem password
    cmd_pem_read_key allocated none none (some py_pem) password =
        put_key_pem allocated true py_pem none
    cmd_pem_read_key allocated none none none password = raise type_error
