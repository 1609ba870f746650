-- ===== src/Namecrypto/Soundness.antt =====
-- The evidence behind a command that verifyCommand() accepts.
use py_ccn.Base.{ℕ, ◌≡◌, refl, true, Option, none, some, [], ◌∷◌, ◌++◌, arith, Bytes}
use py_ccn.Base.{bytes_eq, bytes_eq→eq, drop, sym}
use py_ccn.Wire.{NameLib}
use py_ccn.Base.Run.{Run, ok, raise, fault}
use py_ccn.Namecrypto.{Crypto, auth_ok, mac_len, auth_magic_len, app_id, app_key}
use py_ccn.Namecrypto.{AuthType, not_authenticator, auth_symmetric, auth_asymmetric}
use py_ccn.Namecrypto.State.{State, TimeVal, read_state}
use py_ccn.Namecrypto.Verify.{
  Extracted, Fields, extract_from_interest, parse_authenticator, expected_mac, verify_command_symm,
  verify_command_sig, dispatch, verify_command,
}
use py_ccn.Namecrypto.Freshness.{conclude-ok}

module _ {Rsa : Type 0} (crypto : Crypto Rsa) where
  -- The evidence in an authenticator. The message is the prefix, the application's name and the
  -- state; the key of the MAC is derived from the fixture's key and the application's name.
  pub data Authentic (e : Extracted) (fixture : Option Bytes) (pub_key : Option Rsa) : Type 0 where
    by_mac :
        (key : Bytes) (f : Fields)
        → fixture ≡ some key
        → parse_authenticator mac_len (drop auth_magic_len e.authenticator_with_magic) ≡ ok f
        → f.tail
          ≡ crypto.hmac_sha256
              (app_key crypto key (app_id crypto f.appname))
              (e.prefix ++ f.appname ++ f.state_bytes)
        → Authentic e fixture pub_key
    by_signature :
        (key : Rsa) (f : Fields)
        → pub_key ≡ some key
        → parse_authenticator (crypto.rsa_size key) (drop auth_magic_len e.authenticator_with_magic)
          ≡ ok f
        → crypto.rsa_verify (crypto.sha256 (e.prefix ++ f.appname ++ f.state_bytes)) f.tail key
          ≡ true
        → Authentic e fixture pub_key

  module _ (c : State) (max : ℕ) (now : TimeVal) (out : Option State) where
    symm-ok :
        (auth prefix key : Bytes) (p : Run Fields)
        → parse_authenticator mac_len auth ≡ p
        → verify_command_symm crypto auth prefix key (some c) max now ≡ ok (auth_ok, out)
        → (f : Fields) × (parse_authenticator mac_len auth ≡ ok f)
          × (f.tail ≡ expected_mac crypto key prefix f)
    unfolding verify_command_symm
    symm-ok auth prefix key (ok f) e h =
        let (good, _, _) =
          conclude-ok c (read_state f.state_bytes) max now
            (bytes_eq (expected_mac crypto key prefix f) f.tail) {out = out}
            (ground (arith, e, h)) in
        (f, e, sym (bytes_eq→eq _ _ good))
    symm-ok auth prefix key (raise x) e h = ground (arith, e, h)
    symm-ok auth prefix key fault e h = ground (arith, e, h)

    sig-ok :
        (auth prefix : Bytes) (key : Rsa) (p : Run Fields)
        → parse_authenticator (crypto.rsa_size key) auth ≡ p
        → verify_command_sig crypto auth prefix (some c) key max now ≡ ok (auth_ok, out)
        → (f : Fields) × (parse_authenticator (crypto.rsa_size key) auth ≡ ok f)
          × (crypto.rsa_verify (crypto.sha256 (prefix ++ f.appname ++ f.state_bytes)) f.tail key
              ≡ true)
    unfolding verify_command_sig
    sig-ok auth prefix key (ok f) e h =
        let (good, _, _) =
          conclude-ok c (read_state f.state_bytes) max now
            (crypto.rsa_verify (crypto.sha256 (prefix ++ f.appname ++ f.state_bytes)) f.tail key)
            {out = out} (ground (arith, e, h)) in
        (f, e, good)
    sig-ok auth prefix key (raise x) e h = ground (arith, e, h)
    sig-ok auth prefix key fault e h = ground (arith, e, h)

    dispatch-Authentic :
        (kind : AuthType) (auth prefix : Bytes) (fixture : Option Bytes) (pub_key : Option Rsa)
        → dispatch crypto
            (record { kind = kind; authenticator_with_magic = auth; prefix = prefix })
            fixture
            pub_key
            (some c)
            max
            now
          ≡ ok (auth_ok, out)
        → Authentic
            (record { kind = kind; authenticator_with_magic = auth; prefix = prefix })
            fixture
            pub_key
    unfolding dispatch expected_mac
    dispatch-Authentic not_authenticator auth prefix fixture pub_key h = cc
    dispatch-Authentic auth_symmetric auth prefix none pub_key h = cc
    dispatch-Authentic auth_symmetric auth prefix (some []) pub_key h = cc
    dispatch-Authentic auth_symmetric auth prefix (some (k ∷ ks)) pub_key h =
        let (f, p, m) = symm-ok (drop auth_magic_len auth) prefix (k ∷ ks) _ refl h in
        by_mac (k ∷ ks) f refl p m
    dispatch-Authentic auth_asymmetric auth prefix fixture none h = cc
    dispatch-Authentic auth_asymmetric auth prefix fixture (some key) h =
        let (f, p, m) = sig-ok (drop auth_magic_len auth) prefix key _ refl h in
        by_signature key f refl p m

    verify-Authentic :
        (lib : NameLib) (name : Bytes) (fixture : Option Bytes) (pub_key : Option Rsa)
        → (x : Run (Option Extracted)) → extract_from_interest lib name ≡ x
        → verify_command crypto lib name fixture pub_key (some c) max now ≡ ok (auth_ok, out)
        → (e : Extracted) × (extract_from_interest lib name ≡ ok (some e))
          × Authentic e fixture pub_key
    unfolding verify_command
    verify-Authentic lib name fixture pub_key (ok none) x h = ground (arith, x, h)
    verify-Authentic lib name fixture pub_key (ok (some e)) x h = (
      e,
      x,
      dispatch-Authentic e.kind e.authenticator_with_magic e.prefix fixture pub_key (rw x at h),
    )
    verify-Authentic lib name fixture pub_key (raise y) x h = ground (arith, x, h)
    verify-Authentic lib name fixture pub_key fault x h = ground (arith, x, h)

-- A command is accepted only with a MAC or a signature that fits the keys of the receiver.
pub verify_command-Authentic :
    {Rsa : Type 0} (crypto : Crypto Rsa) (lib : NameLib) (name : Bytes)
    → (fixture : Option Bytes) (pub_key : Option Rsa)
    → (c : State) (max : ℕ) (now : TimeVal) (out : Option State)
    → verify_command crypto lib name fixture pub_key (some c) max now ≡ ok (auth_ok, out)
    → (e : Extracted) × (extract_from_interest lib name ≡ ok (some e))
      × Authentic crypto e fixture pub_key
verify_command-Authentic crypto lib name fixture pub_key c max now out h =
    verify-Authentic crypto c max now out lib name fixture pub_key _ refl h
