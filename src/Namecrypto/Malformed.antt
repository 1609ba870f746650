-- ===== src/Namecrypto/Malformed.antt =====
-- verifyCommand() on an authenticator whose length is not the one that it announces.
use py_ccn.Base.{
  ℕ, ◌+◌, ◌*◌, ◌≡◌, ◌≢◌, refl, Option, some, List, [], ◌∷◌, ◌++◌, arith, length, Bytes, bytes_eq,
  read,
}
use py_ccn.Base.Run.{ok, fault}
use py_ccn.Wire.{NameLib, NameLaws, encode_name}
use py_ccn.Namecrypto.{Crypto, sk_auth_magic, auth_symmetric, state_len, mac_len}
use py_ccn.Namecrypto.State.{State, TimeVal}
use py_ccn.Namecrypto.Verify.{
  detect_authenticator, parse_authenticator, verify_command_symm, verify_command,
  extract_from_interest,
}
use py_ccn.Namecrypto.Extract.{extracted, extract-encode}

module _ (hi lo : ℕ) (rest : Bytes) (ne : length rest ≢ hi * 256 + lo + state_len + mac_len) where
  -- What stands behind the magic number, and the component.
  abbrev pub announced : Bytes
  announced = hi ∷ (lo ∷ rest)

  abbrev pub malformed : Bytes
  malformed = sk_auth_magic ++ announced

  parse-malformed : parse_authenticator mac_len announced ≡ fault
  unfolding parse_authenticator read
  parse-malformed = ground arith

  found :
      (header : ℕ → Bytes) (lib : NameLib) (laws : NameLaws header lib) (front : List Bytes)
      → (prev : Bytes)
      → extract_from_interest lib (encode_name header (front ++ (prev ∷ (malformed ∷ []))))
        ≡ ok (some (extracted header front prev malformed auth_symmetric))
  unfolding detect_authenticator bytes_eq
  found header lib laws front prev =
      extract-encode header lib laws front prev malformed auth_symmetric refl (λ e. cc)
        (omega arith)

  -- The assertion of verifyCommandSymm() is on what the sender wrote: any authenticator with the
  -- magic number and a wrong length aborts a receiver that has the fixture's key, before the MAC.
  pub verify_command-malformed :
      {Rsa : Type 0} (crypto : Crypto Rsa)
      → (header : ℕ → Bytes) (lib : NameLib) (laws : NameLaws header lib)
      → (front : List Bytes) (prev : Bytes) (k : ℕ) (ks : Bytes) (pub_key : Option Rsa)
      → (cur : Option State) (max : ℕ) (now : TimeVal)
      → verify_command crypto lib
          (encode_name header (front ++ (prev ∷ (malformed ∷ []))))
          (some (k ∷ ks))
          pub_key
          cur
          max
          now
        ≡ fault
  unfolding verify_command verify_command_symm
  verify_command-malformed crypto header lib laws front prev k ks pub_key cur max now =
      rw (found header lib laws front prev, verify_command) (rw parse-malformed)
