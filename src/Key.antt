-- ===== src/Key.antt =====
-- csrc/key_utils.c, csrc/methods_key.c and the default key of csrc/methods_handle.c: keys, their two halves and the digest that names them. The
-- functions of OpenSSL are those of Ssl; none: they report failure. A capsule is made without
-- failing.
pub mod FileHandle
pub mod Files
pub mod Generate
pub mod Halves
mod Runs
use py_ccn.Base.{ℕ, Bool, true, false, Option, none, some, Bytes, ltb, if◌then◌else◌}
use py_ccn.Base.Int.{ℤ, pos, negsuc}
use mathlib.Core.Option.{get_or}
use py_ccn.Base.Run.{
  Run, ok, raise, fault, ◌>>=◌, ◌>>◌, guard, or_raise, type_error, system_error, ndn_error,
  ndn_key_error,
}

-- `K` is an EVP_PKEY, and `R` an RSA key with or without its private part.
pub record Ssl (K R : Type 0) : Type 0 where
  pub get1_rsa : K → Option R
  pub private_key_dup : R → Option R
  pub public_key_dup : R → Option R
  -- EVP_PKEY_set1_RSA() on a new key
  pub set1_rsa : R → Option K
  pub i2d_pubkey : K → Option Bytes
  pub i2d_private_key : K → Option Bytes
  pub d2i_pubkey : Bytes → Option K
  pub d2i_private_key : Bytes → Option K
  -- A SHA-256 digest of the ndn library.
  pub digest : Bytes → Option Bytes

-- The two halves of a key; a public key has no private half.
pub record KeyPair (K : Type 0) : Type 0 where
  pub private_key : Option K
  pub public_key : K

-- What the functions that read a key give: its halves and the digest of the public one.
pub record ReadKey (K : Type 0) : Type 0 where
  pub private_key : Option K
  pub public_key : K
  pub public_key_digest : Bytes

-- A capsule that a Python caller hands over.
pub data KeyCapsule (K : Type 0) : Type 0 where
  pkey_priv pkey_pub : K → KeyCapsule K
  no_key : KeyCapsule K

-- The attributes that Key_obj_from_ndn() sets; type is "RSA".
pub record PyKey (K : Type 0) : Type 0 where
  pub public_key_id : Bytes
  pub ndn_data_private : Option K
  pub ndn_data_public : K

-- A null pointer that is handed to OpenSSL as a key.
unfoldable pub not_null : {A : Type 0} → Option A → Run A
not_null none = fault
not_null (some a) = ok a

-- Key_to_ndn_private(): None is no capsule of a private key, and an assertion fails.
unfoldable pub key_to_ndn_private : {K : Type 0} → PyKey K → Run K
unfolding not_null
key_to_ndn_private py_key = not_null py_key.ndn_data_private

module _ {K R : Type 0} (ssl : Ssl K R) where
  -- `allocated` is the test of EVP_PKEY_new(). Where EVP_PKEY_set1_RSA() fails, no exception is set,
  -- for which Python raises a SystemError.
  unfoldable pub private_half : (allocated : Bool) → Option K → Run K
  unfolding not_null
  private_half allocated key = do
    guard allocated ndn_key_error
    k ← not_null key
    rsa ← or_raise (ssl.get1_rsa k) ndn_key_error
    rsa_copy ← or_raise (ssl.private_key_dup rsa) ndn_key_error
    or_raise (ssl.set1_rsa rsa_copy) system_error

  unfoldable pub public_half : (allocated : Bool) → Option K → Run K
  unfolding not_null
  public_half allocated key = do
    guard allocated ndn_key_error
    k ← not_null key
    rsa ← or_raise (ssl.get1_rsa k) ndn_key_error
    public_rsa ← or_raise (ssl.public_key_dup rsa) ndn_key_error
    or_raise (ssl.set1_rsa public_rsa) system_error

  -- ndn_keypair(), whose callers ask for both halves.
  unfoldable pub ndn_keypair : (allocated public_only : Bool) → Option K → Run (KeyPair K)
  unfolding private_half public_half
  ndn_keypair allocated true key = do
    public_key ← public_half allocated key
    ok (record { private_key = none; public_key = public_key })
  ndn_keypair allocated false key = do
    private_key ← private_half allocated key
    public_key ← public_half allocated key
    ok (record { private_key = some private_key; public_key = public_key })

  unfoldable pub create_key_digest : Bytes → Run Bytes
  create_key_digest dkey = or_raise (ssl.digest dkey) ndn_key_error

  unfoldable pub create_public_key_digest : K → Run Bytes
  unfolding create_key_digest
  create_public_key_digest key = do
    public_key_der ← or_raise (ssl.i2d_pubkey key) ndn_key_error
    create_key_digest public_key_der

  -- What each reader of a key ends with.
  unfoldable pub finish_read : (allocated public_only : Bool) → Option K → Run (ReadKey K)
  unfolding ndn_keypair create_public_key_digest not_null
  finish_read allocated public_only key = do
    pair ← ndn_keypair allocated public_only key
    k ← not_null key
    digest ← create_public_key_digest k
    ok (record {
      private_key = pair.private_key;
      public_key = pair.public_key;
      public_key_digest = digest;
    })

  unfoldable pub key_obj_of : (allocated public_only : Bool) → K → Run (PyKey K)
  unfolding finish_read
  key_obj_of allocated public_only key = do
    read ← finish_read allocated public_only (some key)
    ok (record {
      public_key_id = read.public_key_digest;
      ndn_data_private = read.private_key;
      ndn_data_public = read.public_key;
    })

  unfoldable pub key_obj_from_ndn : (allocated : Bool) → KeyCapsule K → Run (PyKey K)
  unfolding key_obj_of
  key_obj_from_ndn allocated (pkey_priv key) = key_obj_of allocated false key
  key_obj_from_ndn allocated (pkey_pub key) = key_obj_of allocated true key
  key_obj_from_ndn allocated no_key = raise type_error

  -- _pyndn_privatekey_dup(). EVP_PKEY_set1_RSA() reports failure with 0, which is not taken for one: the
  -- key that is given is then `empty`, as EVP_PKEY_new() makes it.
  unfoldable pub privatekey_dup : (allocated : Bool) → (empty : K) → K → Run K
  privatekey_dup allocated empty key = do
    guard allocated ndn_key_error
    rsa ← or_raise (ssl.get1_rsa key) ndn_key_error
    ok (get_or (ssl.set1_rsa rsa) empty)

  -- _pyndn_cmd_get_default_key() with memory enough for its charbuf and its keystore: `keystore` is the
  -- private key of the keystore that ndn_keystore_init() reads, none where it fails.
  unfoldable pub cmd_get_default_key :
      (allocated : Bool) → (empty : K) → (keystore : Option K) → Run (PyKey K)
  unfolding privatekey_dup key_obj_from_ndn
  cmd_get_default_key allocated empty keystore = do
    key ← or_raise keystore ndn_error
    py_ndn_key ← privatekey_dup allocated empty key
    key_obj_from_ndn allocated (pkey_priv py_ndn_key)

  -- The loads of seed_prng(), each as what RAND_load_file() gives; `seed_file` says that there is a
  -- name for the seed file. panic() is the fault.
  unfoldable pub seed_prng : (seed_file : Bool) → (file urandom random : ℕ) → Run (Unit {0})
  seed_prng false file urandom random = fault
  seed_prng true file urandom random =
      if ltb 0 file
      then ok tt
      else (if ltb urandom 2048 then fault else (if ltb random 32 then fault else ok tt))

  -- generate_key() behind the seeding, on what RSA_generate_key() gives; `key_allocated` is the test
  -- of its own EVP_PKEY_new(), and `assigned` is that key with the RSA key in it.
  unfoldable pub generate_key :
      (key_allocated allocated : Bool)
      → (seeded : Run (Unit {0})) → Option R
      → (assigned : R → K) → Run (ReadKey K)
  unfolding finish_read
  generate_key key_allocated allocated seeded rsa assigned = do
    seeded
    r ← or_raise rsa ndn_key_error
    guard key_allocated ndn_key_error
    finish_read allocated false (some (assigned r))
