-- ===== src/Namecrypto/Verify.antt =====
-- The verifying side of authentication.c: extractFromInterest(), verifyCommandSymm(),
-- verifyCommandSig() and verifyCommand(). memcpy() past the end of a buffer is a fault.
use py_ccn.Base.{ℕ, zero, suc, ◌+◌, ◌-◌, ◌*◌, Bool, true, false, Option, none, some}
use py_ccn.Base.{List, [], ◌∷◌, ◌++◌, ◌==◌, if◌then◌else◌, length, take, drop}
use py_ccn.Base.{Bytes, bytes_eq, byte_at, read}
use py_ccn.Wire.{NameLib}
use py_ccn.Base.Run.{Run, ok, ◌>>=◌, ◌>>◌, assert}
use py_ccn.Namecrypto.{
  Crypto, sk_auth_magic, pk_auth_magic, auth_magic_len, state_len, mac_len, app_id, app_key, Code,
  auth_ok, fail_missing_authenticator, fail_verification_failed, info_state_not_verified,
  fail_verification_key_not_provided, AuthType, not_authenticator, auth_symmetric, auth_asymmetric,
}
use py_ccn.Namecrypto.State.{State, TimeVal, read_state, verify_update_state_freshness}
use mathlib.Core.Option.{get_or}

-- What extractFromInterest() hands over through its four pointers.
pub record Extracted : Type 0 where
  pub kind : AuthType
  pub authenticator_with_magic : Bytes
  pub prefix : Bytes

unfoldable pub detect_authenticator : Bytes → AuthType
detect_authenticator magic =
    if bytes_eq magic pk_auth_magic
    then auth_asymmetric
    else if bytes_eq magic sk_auth_magic
    then auth_symmetric
    else not_authenticator

-- The prefix goes up to the closer of the component before the authenticator, and is closed anew.
-- A failure of the second ndn_name_comp_get() would leave `out` and `len` as they are.
unfoldable pub extract_at :
    NameLib → (name : Bytes) → List ℕ → ℕ → AuthType → (out len : ℕ) → Run Extracted
extract_at lib name nix before kind out len = do
  auth ← read name out len
  let previous = get_or (lib.comp_get name nix before) (out, len)
  let prefix_len = previous.1 + previous.0 + 2
  prefix ← read name 0 (prefix_len - 1)
  ok (record { kind = kind; authenticator_with_magic = auth; prefix = prefix ++ (0 ∷ []) })

-- The loop from the component `i` down to 1; none is FAIL_MISSING_AUTHENTICATOR.
unfoldable pub extract_loop : NameLib → (name : Bytes) → List ℕ → (i : ℕ) → Run (Option Extracted)
extract_loop lib name nix zero = ok none
extract_loop lib name nix (suc i) =
    let rest = extract_loop lib name nix i in
    elim (lib.comp_get name nix (suc i)) [
      | none ↦ ok none
      | some (out, len) ↦ do
        magic ← read name out auth_magic_len
        elim (detect_authenticator magic) [
          | not_authenticator ↦ rest
          | auth_symmetric ↦ do e ← extract_at lib name nix i auth_symmetric out len; ok (some e)
          | auth_asymmetric ↦ do e ← extract_at lib name nix i auth_asymmetric out len; ok (some e)
        ]
    ]

unfoldable pub extract_from_interest : NameLib → Bytes → Run (Option Extracted)
extract_from_interest lib name = elim (lib.name_split name) [
  | none ↦ ok none
  | some nix ↦ extract_loop lib name nix (length nix - 2)
]

-- The fields of an authenticator without its magic number.
pub record Fields : Type 0 where
  pub appname : Bytes
  pub state_bytes : Bytes
  pub tail : Bytes

-- appname_len and the pointers into the authenticator, and the assertion on its length.
unfoldable pub parse_authenticator : (tail_len : ℕ) → Bytes → Run Fields
parse_authenticator tail_len authenticator = do
  header ← read authenticator 0 2
  let appname_len = byte_at header 0 * 256 + byte_at header 1
  assert (length authenticator == 2 + appname_len + state_len + tail_len)
  ok (record {
    appname = take appname_len (drop 2 authenticator);
    state_bytes = take state_len (drop (2 + appname_len) authenticator);
    tail = take tail_len (drop (2 + appname_len + state_len) authenticator);
  })

-- (state_ret != AUTH_OK) && (state_ret != INFO_STATE_NOT_VERIFIED) ends the verification.
unfoldable pub may_go_on : Code → Bool
may_go_on auth_ok = true
may_go_on info_state_not_verified = true
may_go_on _ = false

-- What is returned after the freshness check, given whether the MAC or the signature is right.
unfoldable pub conclude : Code × Option State → Bool → Code × Option State
unfolding may_go_on
conclude (ret, cur) good =
    if may_go_on ret then (if good then auth_ok else fail_verification_failed, cur) else (ret, cur)

module _ {Rsa : Type 0} (crypto : Crypto Rsa) where
  -- The MAC that the receiver computes.
  unfoldable pub expected_mac : (fixture_key command_name : Bytes) → Fields → Bytes
  unfolding app_id app_key
  expected_mac fixture_key command_name f =
      crypto.hmac_sha256 (app_key crypto fixture_key (app_id crypto f.appname))
        (command_name ++ f.appname ++ f.state_bytes)

  unfoldable pub verify_command_symm :
      (authenticator command_name fixture_key : Bytes)
      → Option State
      → (max_msec : ℕ) → TimeVal
      → Run (Code × Option State)
  unfolding parse_authenticator expected_mac conclude
  verify_command_symm authenticator command_name fixture_key currstate max_msec now = do
    f ← parse_authenticator mac_len authenticator
    let fresh = verify_update_state_freshness currstate (read_state f.state_bytes) max_msec now
    ok (conclude fresh (bytes_eq (expected_mac fixture_key command_name f) f.tail))

  unfoldable pub verify_command_sig :
      (authenticator command_name : Bytes)
      → Option State
      → Rsa
      → (max_msec : ℕ) → TimeVal
      → Run (Code × Option State)
  unfolding parse_authenticator conclude
  verify_command_sig authenticator command_name currstate pub_key max_msec now = do
    f ← parse_authenticator (crypto.rsa_size pub_key) authenticator
    let fresh = verify_update_state_freshness currstate (read_state f.state_bytes) max_msec now
    let md = crypto.sha256 (command_name ++ f.appname ++ f.state_bytes)
    ok (conclude fresh (crypto.rsa_verify md f.tail pub_key))

  -- After extractFromInterest(). none stands for a null key; `fixtureKey && keylen`.
  unfoldable pub dispatch :
      Extracted
      → (fixture_key : Option Bytes) (pub_key : Option Rsa) → Option State
      → (max_msec : ℕ) → TimeVal
      → Run (Code × Option State)
  unfolding verify_command_symm verify_command_sig
  dispatch e fixture_key pub_key currstate max_msec now =
      let authenticator = drop auth_magic_len e.authenticator_with_magic in
      elim e.kind [
        | not_authenticator ↦ ok (fail_missing_authenticator, currstate)
        | auth_asymmetric ↦ elim pub_key [
          | none ↦ ok (fail_verification_key_not_provided, currstate)
          | some key ↦ verify_command_sig authenticator e.prefix currstate key max_msec now
        ]
        | auth_symmetric ↦ elim fixture_key [
          | none ↦ ok (fail_verification_key_not_provided, currstate)
          | some [] ↦ ok (fail_verification_key_not_provided, currstate)
          | some (k ∷ ks) ↦
              verify_command_symm authenticator e.prefix (k ∷ ks) currstate max_msec now
        ]
      ]

  unfoldable pub verify_command :
      NameLib
      → (name : Bytes) (fixture_key : Option Bytes) (pub_key : Option Rsa) → Option State
      → (max_msec : ℕ) → TimeVal
      → Run (Code × Option State)
  unfolding extract_from_interest dispatch
  verify_command lib name fixture_key pub_key currstate max_msec now = do
    extracted ← extract_from_interest lib name
    elim extracted [
      | none ↦ ok (fail_missing_authenticator, currstate)
      | some e ↦ dispatch e fixture_key pub_key currstate max_msec now
    ]
