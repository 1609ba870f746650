-- ===== src/Namecrypto/RoundTrip.antt =====
-- verifyCommand() on what authenticateCommand() and authenticateCommandSig() make.
use py_ccn.Base.{
  ℕ, ◌^◌, ◌<◌, ◌≡◌, refl, true, false, Option, some, List, [], ◌∷◌, ◌++◌, append_assoc, arith,
  length, Bytes, bytes_eq_refl,
}
use py_ccn.Wire.{NameLib, NameLaws, encode_name}
use py_ccn.Base.Run.{ok}
use py_ccn.Namecrypto.{Crypto, sk_auth_magic, pk_auth_magic, mac_len}
use py_ccn.Namecrypto.{auth_symmetric, auth_asymmetric, auth_ok}
use py_ccn.Namecrypto.{app_id, app_key}
use py_ccn.Namecrypto.State.{
  State, IsState, TimeVal, read_state, state_bytes, update_state, is_expired, accept,
  verify_update_state_freshness,
}
use py_ccn.Namecrypto.Verify.{
  extract_from_interest, conclude, verify_command_symm, verify_command_sig, verify_command,
}
use py_ccn.Namecrypto.Extract.{extracted, extract-encode}
use py_ccn.Namecrypto.Fields.{read_state-bytes, update_state-IsState, fields, parse-fields}
use py_ccn.Namecrypto.Fields.{detect-authenticator, drop-authenticator, length-authenticator}
use py_ccn.Namecrypto.Freshness.{freshness-accept}
use mathlib.Core.Option.{get_or}
use py_ccn.Namecrypto.Sign.{authenticator, authenticate_command, authenticate_command_sig}

-- What RSA promises of a private key and its public key.
pub record IsKeyPair {Rsa : Type 0} (crypto : Crypto Rsa) (priv pub_key : Rsa) : Type 0 where
  pub sign : Bytes → Bytes
  pub signs : (md : Bytes) → crypto.rsa_sign md priv ≡ some (sign md)
  pub length-sign : (md : Bytes) → length (sign md) ≡ crypto.rsa_size pub_key
  pub verify-sign : (md : Bytes) → crypto.rsa_verify md (sign md) pub_key ≡ true

module _ {Rsa : Type 0} (crypto : Crypto Rsa) (header : ℕ → Bytes) (lib : NameLib)
    (laws : NameLaws header lib) (st : State) (front : List Bytes) (prev appname : Bytes)
    (sent received : TimeVal) (c : State) (max : ℕ) where
  -- What the sender puts behind the name.
  abbrev command : Bytes
  command = encode_name header (front ++ (prev ∷ []))

  abbrev message : Bytes
  message = command ++ appname ++ state_bytes (update_state st sent)

  fresh-ok :
      IsState st
      → c.seq < (update_state st sent).seq
      → is_expired (update_state st sent) max received ≡ false
      → conclude
          (verify_update_state_freshness
            (some c)
            (read_state (state_bytes (update_state st sent)))
            max
            received)
          true
        ≡ (auth_ok, some (accept c (update_state st sent) received))
  unfolding conclude
  fresh-ok i s x = rw (
    read_state-bytes (update_state st sent) (update_state-IsState st sent i),
    freshness-accept c (update_state st sent) max received s x,
  )

  appended :
      (auth : Bytes)
      → get_or (lib.name_append command auth) command
        ≡ encode_name header (front ++ (prev ∷ (auth ∷ [])))
  appended auth =
      rw
        (laws.append-encode (front ++ (prev ∷ [])) auth, append_assoc front (prev ∷ []) (auth ∷ []))

  symm-fields :
      (key mac : Bytes)
      → length mac ≡ mac_len
      → mac ≡ crypto.hmac_sha256 (app_key crypto key (app_id crypto appname)) message
      → IsState st
      → length appname < 2 ^ 16
      → c.seq < (update_state st sent).seq
      → is_expired (update_state st sent) max received ≡ false
      → verify_command_symm crypto
          (fields appname (state_bytes (update_state st sent)) mac)
          command
          key
          (some c)
          max
          received
        ≡ ok (auth_ok, some (accept c (update_state st sent) received))
  unfolding verify_command_symm state_bytes
  symm-fields key mac m e i a s x = ground (
    arith,
    parse-fields appname (state_bytes (update_state st sent)) mac refl a,
    m,
    bytes_eq_refl mac,
    fresh-ok i s x,
  )

  -- A command that authenticateCommand() made is accepted by a receiver with the fixture's key, if
  -- its number is new to the receiver and its time is recent enough.
  pub verify_command-authenticate :
      (k : ℕ) (ks : Bytes) (pub_key : Option Rsa)
      → ((key m : Bytes) → length (crypto.hmac_sha256 key m) ≡ mac_len)
      → IsState st
      → length appname < 2 ^ 16
      → c.seq < (update_state st sent).seq
      → is_expired (update_state st sent) max received ≡ false
      → verify_command crypto lib
          (authenticate_command crypto lib st command appname
            (app_key crypto (k ∷ ks) (app_id crypto appname))
            sent).1
          (some (k ∷ ks))
          pub_key
          (some c)
          max
          received
        ≡ ok (auth_ok, some (accept c (update_state st sent) received))
  unfolding authenticate_command verify_command
  verify_command-authenticate k ks pub_key hmac i a s x =
      rw (appended (authenticator sk_auth_magic appname net mac)) (
        rw (found, verify_command)
          (rw ((drop-authenticator appname net mac).0)
            (symm-fields (k ∷ ks) mac (hmac _ _) refl i a s x)))
    where
      net : Bytes
      net = state_bytes (update_state st sent)

      mac : Bytes
      mac = crypto.hmac_sha256 (app_key crypto (k ∷ ks) (app_id crypto appname)) message

      found :
          extract_from_interest lib (
            encode_name header
              (front ++ (prev ∷ (authenticator sk_auth_magic appname net mac ∷ []))))
          ≡ ok (
              some (
                extracted header front prev
                  (authenticator sk_auth_magic appname net mac)
                  auth_symmetric))
      found =
          extract-encode header lib laws front prev _ auth_symmetric
            (detect-authenticator appname net mac).0 (λ e. cc)
            (length-authenticator appname net mac).0

  module _ (priv pub_key : Rsa) (pair : IsKeyPair crypto priv pub_key) where
    signature : Bytes
    signature = pair.sign (crypto.sha256 message)

    sig-fields :
        IsState st
        → length appname < 2 ^ 16
        → c.seq < (update_state st sent).seq
        → is_expired (update_state st sent) max received ≡ false
        → verify_command_sig crypto
            (fields appname (state_bytes (update_state st sent)) signature)
            command
            (some c)
            pub_key
            max
            received
          ≡ ok (auth_ok, some (accept c (update_state st sent) received))
    unfolding verify_command_sig state_bytes signature
    sig-fields i a s x = ground (
      arith,
      parse-fields appname (state_bytes (update_state st sent)) signature refl a,
      pair.length-sign (crypto.sha256 message),
      pair.verify-sign (crypto.sha256 message),
      fresh-ok i s x,
    )

    found_sig :
        extract_from_interest lib (
          encode_name header (
            front
            ++ (prev
                ∷ (authenticator pk_auth_magic appname
                      (state_bytes (update_state st sent))
                      signature
                    ∷ []))))
        ≡ ok (
            some (
              extracted header front prev
                (authenticator pk_auth_magic appname (state_bytes (update_state st sent)) signature)
                auth_asymmetric))
    found_sig =
        extract-encode header lib laws front prev _ auth_asymmetric
          (detect-authenticator appname (state_bytes (update_state st sent)) signature).1 (λ e. cc)
          (length-authenticator appname (state_bytes (update_state st sent)) signature).1

    verify-found :
        (fixture : Option Bytes)
        → IsState st
        → length appname < 2 ^ 16
        → c.seq < (update_state st sent).seq
        → is_expired (update_state st sent) max received ≡ false
        → verify_command crypto lib
            (encode_name header (
              front
              ++ (prev
                  ∷ (authenticator pk_auth_magic appname
                        (state_bytes (update_state st sent))
                        signature
                      ∷ []))))
            fixture
            (some pub_key)
            (some c)
            max
            received
          ≡ ok (auth_ok, some (accept c (update_state st sent) received))
    unfolding verify_command
    verify-found fixture i a s x =
        rw (found_sig, verify_command)
          (rw ((drop-authenticator appname (state_bytes (update_state st sent)) signature).1)
            (sig-fields i a s x))

    -- authenticateCommandSig() succeeds, and a receiver with the public key accepts the command, if
    -- its number is new to the receiver and its time is recent enough.
    pub verify_command-authenticate_sig :
        (fixture : Option Bytes)
        → IsState st
        → length appname < 2 ^ 16
        → c.seq < (update_state st sent).seq
        → is_expired (update_state st sent) max received ≡ false
        → (name : Bytes) × (authenticate_command_sig crypto lib st command appname priv sent
            ≡ ok (update_state st sent, name))
          × (verify_command crypto lib name fixture (some pub_key) (some c) max received
              ≡ ok (auth_ok, some (accept c (update_state st sent) received)))
    unfolding authenticate_command_sig signature
    verify_command-authenticate_sig fixture i a s x = (
      _,
      rw (pair.signs (crypto.sha256 message), authenticate_command_sig) (rw (appended _)),
      verify-found fixture i a s x,
    )
