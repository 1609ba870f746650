-- ===== src/Namecrypto.antt =====
-- csrc/namecrypto: authenticated interests. Constants and `state` of authentication.h, the
-- libraries that it calls (OpenSSL), and KDF() of encryption.c. The name functions of ndn are
-- those of Wire.
pub mod State
pub mod NewState
pub mod Sign
pub mod Verify
pub mod Freshness
pub mod Attempt
pub mod Replay
pub mod Soundness
mod Extract
mod Fields
pub mod RoundTrip
pub mod Commands
pub mod Malformed
mod Runs
use Prim.Native.String.{String}
use py_ccn.Base.{ℕ, Bool, Option, List, [], ◌∷◌, Bytes}

-- What the C code calls and does not implement. The key of RSA stays abstract.
pub record Crypto (Rsa : Type 0) : Type 0 where
  pub sha256 : Bytes → Bytes
  -- The key, then the message.
  pub hmac_sha256 : Bytes → Bytes → Bytes
  pub rsa_size : Rsa → ℕ
  -- none: RSA_sign() reports failure.
  pub rsa_sign : Bytes → Rsa → Option Bytes
  -- The digest, the signature and the public key.
  pub rsa_verify : Bytes → Bytes → Rsa → Bool

-- The return codes of authentication.h, less the types of authenticators.
pub data Code : Type 0 where
  auth_ok fail_missing_authenticator fail_verification_failed fail_invalid_policy : Code
  fail_command_expired fail_invalid_authenticator fail_duplicate_interest : Code
  fail_verification_key_not_provided fail_no_memory info_state_not_verified : Code

pub data AuthType : Type 0 where
  not_authenticator auth_symmetric auth_asymmetric : AuthType

abbrev pub pk_auth_magic : Bytes
pk_auth_magic = 0x21 ∷ 0x44 ∷ 0x07 ∷ 0x65 ∷ []

abbrev pub sk_auth_magic : Bytes
sk_auth_magic = 0x40 ∷ 0x96 ∷ 0x1c ∷ 0x51 ∷ []

abbrev pub auth_magic_len : ℕ
auth_magic_len = 4

abbrev pub state_len : ℕ
state_len = 16

abbrev pub mac_len : ℕ
mac_len = 32

unfoldable pub ret_to_string : Code → String
ret_to_string auth_ok = "Interest verification successful\n"
ret_to_string fail_missing_authenticator = "Missing or corrupted interest authenticator\n"
ret_to_string fail_verification_failed = "Incorrect interest authenticator\n"
ret_to_string fail_invalid_policy = "Invalid interest policy\n"
ret_to_string fail_command_expired = "Interest expired\n"
ret_to_string fail_duplicate_interest = "Duplicate interest\n"
ret_to_string fail_verification_key_not_provided =
    "The appropriate verification key has not been supplied\n"
ret_to_string fail_no_memory = "malloc() failed"
ret_to_string _ = "Unknown value\n"

module _ {Rsa : Type 0} (crypto : Crypto Rsa) where
  -- KDF() keys HMAC-SHA256 with the first argument.
  unfoldable pub kdf : Bytes → Bytes → Bytes
  kdf key appid = crypto.hmac_sha256 key appid

  -- appID() and appKey() copy the first 32 bytes, all that SHA-256 gives.
  unfoldable pub app_id : Bytes → Bytes
  app_id unique_app_name = crypto.sha256 unique_app_name

  unfoldable pub app_key : Bytes → Bytes → Bytes
  unfolding kdf
  app_key k appid = kdf k appid
