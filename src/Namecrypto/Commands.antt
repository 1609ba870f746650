-- ===== src/Namecrypto/Commands.antt =====
-- csrc/methods_namecrypto.c: the Python commands on authenticated names. A capsule of another type is
-- none, and so is a value that is no bytes object; a capsule is made without failing. The capsule of
-- the state is changed in place, so its state is in the result.
use py_ccn.Base.{
  ℕ, ◌<◌, ◌≡◌, refl, ◌↔◌, Bool, true, false, Option, none, some, List, [], ◌∷◌, ◌++◌, ◌==◌,
  if◌then◌else◌, Bytes, length, arith, ◌^◌,
}
use py_ccn.Base.Int.{ℤ, pos, negsuc}
use py_ccn.Base.Run.{
  Run, ok, raise, ◌>>=◌, ◌>>◌, guard, or_raise, type_error, value_error, ndn_key_error,
}
use py_ccn.Wire.{NameLib, NameLaws, encode_name}
use py_ccn.Objects.{namecrypto_state}
use py_ccn.Objects.Types.{Build, type2name, type2name-state}
use py_ccn.SignedInfo.{Argument, not_given, wrong_type, given}
use py_ccn.Namecrypto.{
  Crypto, Code, auth_ok, fail_missing_authenticator, fail_verification_failed, fail_invalid_policy,
  fail_command_expired, fail_invalid_authenticator, fail_duplicate_interest,
  fail_verification_key_not_provided, fail_no_memory, info_state_not_verified, app_id, app_key,
  mac_len,
}
use py_ccn.Namecrypto.State.{State, IsState, TimeVal, update_state, is_expired, accept}
use py_ccn.Namecrypto.Sign.{authenticate_command, authenticate_command_sig}
use py_ccn.Namecrypto.Verify.{verify_command}
use py_ccn.Namecrypto.RoundTrip.{verify_command-authenticate}

-- APPIDLEN and APPKEYLEN
abbrev pub key_len : ℕ
key_len = 32

-- The numbers of authentication.h.
unfoldable pub code_number : Code → ℤ
code_number auth_ok = pos 0
code_number fail_missing_authenticator = negsuc 0
code_number fail_verification_failed = negsuc 1
code_number fail_invalid_policy = negsuc 2
code_number fail_command_expired = negsuc 3
code_number fail_invalid_authenticator = negsuc 4
code_number fail_duplicate_interest = negsuc 5
code_number fail_verification_key_not_provided = negsuc 6
code_number fail_no_memory = negsuc 7
code_number info_state_not_verified = negsuc 20

-- What Python gets: True, or the number.
pub data Answer : Type 0 where
  py_true : Answer
  py_int : ℤ → Answer

-- bool() of it.
abbrev pub truth : Answer → Bool
truth py_true = true
truth (py_int (pos n)) = if n == 0 then false else true
truth (py_int (negsuc n)) = true

unfoldable pub answer_of : Code → Answer
unfolding code_number
answer_of auth_ok = py_true
answer_of code = py_int (code_number code)

-- NDNObject_ReqType() and NDNObject_Get() for NAMECRYPTO_STATE: the name of the type is looked up before
-- the capsule is looked at.
unfoldable pub state_argument : Build → Option State → Run State
state_argument b py_state = do _ ← type2name b namecrypto_state; or_raise py_state type_error

state_argument-some :
    (b : Build) (st : State)
    → b.namecrypto ≡ true
    → b.asserts ≡ false
    → state_argument b (some st) ≡ ok st
unfolding state_argument
state_argument-some b st nc rel = rw (type2name-state b rel nc) refl

module _ {Rsa K : Type 0} (crypto : Crypto Rsa) (lib : NameLib) (get1_rsa : K → Option Rsa) where
  unfoldable pub cmd_app_id : Option Bytes → Run Bytes
  cmd_app_id py_appname = do appname ← or_raise py_appname type_error; ok (app_id crypto appname)

  unfoldable pub cmd_app_key : (fixture_key appid : Option Bytes) → Run Bytes
  cmd_app_key py_fixture_key py_appid = do
    fixture_key ← or_raise py_fixture_key type_error
    appid ← or_raise py_appid type_error
    guard (length appid == key_len) value_error
    ok (app_key crypto fixture_key appid)

  unfoldable pub cmd_authenticate_command :
      Build → Option State → (name appname appkey : Option Bytes) → TimeVal → Run (State × Bytes)
  cmd_authenticate_command b py_state py_name py_appname py_appkey now = do
    st ← state_argument b py_state
    name ← or_raise py_name type_error
    appname ← or_raise py_appname type_error
    appkey ← or_raise py_appkey type_error
    guard (length appkey == key_len) value_error
    ok (authenticate_command crypto lib st name appname appkey now)

  unfoldable pub cmd_authenticate_command_sig :
      Build
      → Option State
      → (name appname : Option Bytes) → Option K
      → TimeVal
      → Run (State × Bytes)
  cmd_authenticate_command_sig b py_state py_name py_appname py_sigkey now = do
    st ← state_argument b py_state
    name ← or_raise py_name type_error
    appname ← or_raise py_appname type_error
    key ← or_raise py_sigkey type_error
    rsa ← or_raise (get1_rsa key) ndn_key_error
    authenticate_command_sig crypto lib st name appname rsa now

  unfoldable pub fixture_argument : Argument Bytes → Run (Option Bytes)
  fixture_argument not_given = ok none
  fixture_argument wrong_type = raise type_error
  fixture_argument (given k) = ok (some k)

  unfoldable pub rsa_argument : Argument K → Run (Option Rsa)
  rsa_argument not_given = ok none
  rsa_argument wrong_type = raise type_error
  rsa_argument (given k) = do rsa ← or_raise (get1_rsa k) ndn_key_error; ok (some rsa)

  unfoldable pub cmd_verify_command :
      Build
      → Option State
      → (name : Option Bytes) (maxtime_ms : ℕ) → (fixture_key : Argument Bytes)
      → (pub_key : Argument K) → TimeVal
      → Run (Answer × Option State)
  unfolding fixture_argument rsa_argument answer_of
  cmd_verify_command b py_state py_name maxtime_ms py_fixture_key py_pub_key now = do
    st ← state_argument b py_state
    name ← or_raise py_name type_error
    fixture_key ← fixture_argument py_fixture_key
    rsa ← rsa_argument py_pub_key
    (code, st') ← verify_command crypto lib name fixture_key rsa (some st) maxtime_ms now
    ok (answer_of code, st')

answer_of-truth : (code : Code) → truth (answer_of code) ≡ true
unfolding answer_of code_number
answer_of-truth auth_ok = refl
answer_of-truth fail_missing_authenticator = refl
answer_of-truth fail_verification_failed = refl
answer_of-truth fail_invalid_policy = refl
answer_of-truth fail_command_expired = refl
answer_of-truth fail_invalid_authenticator = refl
answer_of-truth fail_duplicate_interest = refl
answer_of-truth fail_verification_key_not_provided = refl
answer_of-truth fail_no_memory = refl
answer_of-truth info_state_not_verified = refl

answer_of-py_true : (code : Code) → (answer_of code ≡ py_true) ↔ (code ≡ auth_ok)
unfolding answer_of code_number
answer_of-py_true auth_ok = (λ e. refl, λ e. refl)
answer_of-py_true fail_missing_authenticator = (λ e. cc, λ e. cc)
answer_of-py_true fail_verification_failed = (λ e. cc, λ e. cc)
answer_of-py_true fail_invalid_policy = (λ e. cc, λ e. cc)
answer_of-py_true fail_command_expired = (λ e. cc, λ e. cc)
answer_of-py_true fail_invalid_authenticator = (λ e. cc, λ e. cc)
answer_of-py_true fail_duplicate_interest = (λ e. cc, λ e. cc)
answer_of-py_true fail_verification_key_not_provided = (λ e. cc, λ e. cc)
answer_of-py_true fail_no_memory = (λ e. cc, λ e. cc)
answer_of-py_true info_state_not_verified = (λ e. cc, λ e. cc)

-- In a build without assertions, with the key of a fixture and no public key: whatever code the verification of a command gives, Python
-- takes the answer for true; only the answer True itself says that the command was verified.
pub cmd_verify_command-truth :
    {Rsa K : Type 0} (crypto : Crypto Rsa) (lib : NameLib) (get1_rsa : K → Option Rsa) (b : Build)
    → b.namecrypto ≡ true
    → b.asserts ≡ false
    → (c : State) (name : Bytes) (maxtime_ms : ℕ) (fixture_key : Bytes) (now : TimeVal)
      (code : Code) (out : Option State)
    → verify_command crypto lib name (some fixture_key) none (some c) maxtime_ms now
      ≡ ok (code, out)
    → (answer : Answer) × (cmd_verify_command crypto lib get1_rsa b
          (some c)
          (some name)
          maxtime_ms
          (given fixture_key)
          not_given
          now
        ≡ ok (answer, out))
      × (truth answer ≡ true)
      × ((answer ≡ py_true) ↔ (code ≡ auth_ok))
unfolding cmd_verify_command fixture_argument rsa_argument
cmd_verify_command-truth crypto lib get1_rsa b nc rel c name maxtime_ms fixture_key now code out e =
    (
      answer_of code,
      rw (state_argument-some b c nc rel) (rw e refl),
      answer_of-truth code,
      answer_of-py_true code,
    )

module _ {Rsa K : Type 0} (crypto : Crypto Rsa) (header : ℕ → Bytes) (lib : NameLib)
    (laws : NameLaws header lib) (get1_rsa : K → Option Rsa) where
  -- The commands one after another, as the Python module calls them: the key of an application is made
  -- from the key of the fixture, a command is signed with it, and a receiver with the key of the
  -- fixture answers True in a build without assertions, where its digests and MACs have 32 bytes, the name of the application is
  -- shorter than 2^16, the number is new to the receiver and the time is recent enough. The receiver's
  -- state takes over the number and its current time.
  pub cmd_verify_command-authenticate :
      (b : Build)
      → b.namecrypto ≡ true
      → b.asserts ≡ false
      → (st : State) (front : List Bytes) (prev appname : Bytes) (sent received : TimeVal)
        (c : State) (max k : ℕ) (ks : Bytes)
      → ((key m : Bytes) → length (crypto.hmac_sha256 key m) ≡ mac_len)
      → ((m : Bytes) → length (crypto.sha256 m) ≡ key_len)
      → IsState st
      → length appname < 2 ^ 16
      → c.seq < (update_state st sent).seq
      → is_expired (update_state st sent) max received ≡ false
      → (cmd_app_id crypto lib get1_rsa (some appname) >>= λ id.
          cmd_app_key crypto lib get1_rsa (some (k ∷ ks)) (some id) >>= λ key.
          cmd_authenticate_command crypto lib get1_rsa b
            (some st)
            (some (encode_name header (front ++ (prev ∷ []))))
            (some appname)
            (some key)
            sent
          >>= λ signed.
              cmd_verify_command crypto lib get1_rsa b
                (some c)
                (some signed.1)
                max
                (given (k ∷ ks))
                not_given
                received)
        ≡ ok (py_true, some (accept c (update_state st sent) received))
  unfolding cmd_app_id cmd_app_key cmd_authenticate_command cmd_verify_command fixture_argument
      rsa_argument answer_of app_id app_key
  cmd_verify_command-authenticate b nc rel st front prev appname sent received c max k ks hmac sha i
        a s x =
      let verified =
        verify_command-authenticate crypto header lib laws st front prev appname sent received c max
          k ks none hmac i a s x in
      let long_id : (length (crypto.sha256 appname) == key_len) ≡ true =
        ground (arith, sha appname) in
      let long_key : (length (app_key crypto (k ∷ ks) (app_id crypto appname)) == key_len) ≡ true =
        ground (arith, hmac (k ∷ ks) (crypto.sha256 appname)) in
      rw (long_id) (
        rw (long_key) (
          rw (state_argument-some b st nc rel, state_argument-some b c nc rel)
            (rw (verified) refl)))
