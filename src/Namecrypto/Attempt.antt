-- ===== src/Namecrypto/Attempt.antt =====
-- How verifyCommand() depends on the state of the application and on the time, by way of the
-- freshness check.
use py_ccn.Base.{ℕ, ◌≤◌, ◌<◌, ◌≡◌, ◌≢◌, refl, ◌⊎◌, inl, inr, Bool, Option, none, some, arith}
use py_ccn.Base.{[], ◌∷◌, ◌++◌, Bytes, bytes_eq}
use mathlib.Core.Path.{subst, fun_ext, ap, ◌∙◌}
use py_ccn.Wire.{NameLib}
use py_ccn.Base.Run.{Run, ok, raise, fault}
use py_ccn.Namecrypto.{
  Crypto, Code, auth_ok, fail_missing_authenticator, fail_verification_failed,
  fail_duplicate_interest, fail_verification_key_not_provided, mac_len, AuthType, not_authenticator,
  auth_symmetric, auth_asymmetric,
}
use py_ccn.Namecrypto.State.{State, TimeVal, accept, verify_update_state_freshness, read_state}
use py_ccn.Namecrypto.Verify.{
  Extracted, Fields, extract_from_interest, parse_authenticator, conclude, expected_mac,
  verify_command_symm, verify_command_sig, dispatch, verify_command,
}
use py_ccn.Namecrypto.Freshness.{conclude-ok, conclude-failed, conclude_state, conclude_duplicate}

abbrev pub Verifier : Type 0
Verifier = Option State → ℕ → TimeVal → Run (Code × Option State)

-- The three ways in which a verification depends on the state and on the time.
pub data Attempt (run : Verifier) : Type 0 where
  no_result :
      ((cur : Option State) (max : ℕ) (now : TimeVal) (r : Code × Option State)
        → run cur max now ≢ ok r)
      → Attempt run
  refused :
      (code : Code)
      → code ≢ auth_ok
      → code ≢ fail_verification_failed
      → ((cur : Option State) (max : ℕ) (now : TimeVal) → run cur max now ≡ ok (code, cur))
      → Attempt run
  checked :
      (n : State) (good : Bool)
      → ((cur : Option State) (max : ℕ) (now : TimeVal)
          → run cur max now ≡ ok (conclude (verify_update_state_freshness cur n max now) good))
      → Attempt run

Attempt-eq :
    {f g : Verifier}
    → ((cur : Option State) (max : ℕ) (now : TimeVal) → f cur max now ≡ g cur max now)
    → Attempt f
    → Attempt g
Attempt-eq h = subst Attempt (fun_ext (λ cur. fun_ext (λ max. fun_ext (λ now. h cur max now))))

module _ {Rsa : Type 0} (crypto : Crypto Rsa) where
  symm-Attempt :
      (auth prefix key : Bytes) (p : Run Fields)
      → parse_authenticator mac_len auth ≡ p
      → Attempt (λ cur max now. verify_command_symm crypto auth prefix key cur max now)
  unfolding verify_command_symm
  symm-Attempt auth prefix key (ok f) e =
      checked (read_state f.state_bytes) (bytes_eq (expected_mac crypto key prefix f) f.tail)
        (λ cur max now. rw e)
  symm-Attempt auth prefix key (raise x) e = no_result (λ cur max now r h. ground (arith, e, h))
  symm-Attempt auth prefix key fault e = no_result (λ cur max now r h. ground (arith, e, h))

  sig-Attempt :
      (auth prefix : Bytes) (key : Rsa) (p : Run Fields)
      → parse_authenticator (crypto.rsa_size key) auth ≡ p
      → Attempt (λ cur max now. verify_command_sig crypto auth prefix cur key max now)
  unfolding verify_command_sig
  sig-Attempt auth prefix key (ok f) e =
      checked (read_state f.state_bytes)
        (crypto.rsa_verify (crypto.sha256 (prefix ++ f.appname ++ f.state_bytes)) f.tail key)
        (λ cur max now. rw e)
  sig-Attempt auth prefix key (raise x) e = no_result (λ cur max now r h. ground (arith, e, h))
  sig-Attempt auth prefix key fault e = no_result (λ cur max now r h. ground (arith, e, h))

  dispatch-Attempt :
      (kind : AuthType) (auth prefix : Bytes) (fixture : Option Bytes) (pub_key : Option Rsa)
      → Attempt (λ cur max now.
        dispatch crypto
          (record { kind = kind; authenticator_with_magic = auth; prefix = prefix })
          fixture
          pub_key
          cur
          max
          now)
  unfolding dispatch
  dispatch-Attempt not_authenticator auth prefix fixture pub_key =
      refused fail_missing_authenticator (λ e. cc) (λ e. cc) (λ cur max now. refl)
  dispatch-Attempt auth_symmetric auth prefix none pub_key =
      refused fail_verification_key_not_provided (λ e. cc) (λ e. cc) (λ cur max now. refl)
  dispatch-Attempt auth_symmetric auth prefix (some []) pub_key =
      refused fail_verification_key_not_provided (λ e. cc) (λ e. cc) (λ cur max now. refl)
  dispatch-Attempt auth_symmetric auth prefix (some (k ∷ ks)) pub_key =
      symm-Attempt _ prefix (k ∷ ks) _ refl
  dispatch-Attempt auth_asymmetric auth prefix fixture none =
      refused fail_verification_key_not_provided (λ e. cc) (λ e. cc) (λ cur max now. refl)
  dispatch-Attempt auth_asymmetric auth prefix fixture (some key) = sig-Attempt _ prefix key _ refl

  module _ (lib : NameLib) (name : Bytes) (fixture : Option Bytes) (pub_key : Option Rsa) where
    Attempt-of :
        (x : Run (Option Extracted))
        → extract_from_interest lib name ≡ x
        → Attempt (verify_command crypto lib name fixture pub_key)
    unfolding verify_command
    Attempt-of (ok none) e =
        refused fail_missing_authenticator (λ e. cc) (λ e. cc) (λ cur max now. rw e)
    Attempt-of (ok (some x)) e =
        Attempt-eq (λ cur max now. rw e)
          (dispatch-Attempt x.kind x.authenticator_with_magic x.prefix fixture pub_key)
    Attempt-of (raise x) e = no_result (λ cur max now r h. ground (arith, e, h))
    Attempt-of fault e = no_result (λ cur max now r h. ground (arith, e, h))

    pub attempt : Attempt (verify_command crypto lib name fixture pub_key)
    attempt = Attempt-of (extract_from_interest lib name) refl

-- The consequences for any verifier of that shape.
module _ {run : Verifier} where
  pub Attempt-ok :
      (c : State) (max : ℕ) (now : TimeVal) (out : Option State)
      → Attempt run
      → run (some c) max now ≡ ok (auth_ok, out)
      → (n : State) × (out ≡ some (accept c n now))
        × (c.seq < n.seq)
        × ((c' : State) (max' : ℕ) (later : TimeVal)
            → n.seq ≤ c'.seq
            → run (some c') max' later ≡ ok (fail_duplicate_interest, some c'))
  Attempt-ok c max now out (no_result h) e = absurd (h _ _ _ _ e)
  Attempt-ok c max now out (refused code ne ne' h) e = absurd (ne (cc (h (some c) max now)))
  Attempt-ok c max now out (checked n good h) e =
      let (_, lt, is) = conclude-ok c n max now good (cc (h (some c) max now)) in
      (
        n,
        is,
        lt,
        λ c' max' later le.
            h (some c') max' later ∙ ap ok (conclude_duplicate c' n max' later good le),
      )

  pub Attempt-state :
      (c : State) (max : ℕ) (now : TimeVal) (code : Code) (out : Option State)
      → Attempt run
      → run (some c) max now ≡ ok (code, out)
      → (out ≡ some c) ⊎ ((n : State) × (c.seq < n.seq) × (out ≡ some (accept c n now)))
  Attempt-state c max now code out (no_result h) e = absurd (h _ _ _ _ e)
  Attempt-state c max now code out (refused code' ne ne' h) e = inl (cc (h (some c) max now))
  Attempt-state c max now code out (checked n good h) e =
      elim (conclude_state c n max now good {code = code} {out = out} (cc (h (some c) max now))) [
        | inl same ↦ inl same
        | inr (lt, is) ↦ inr (n, lt, is)
      ]

  pub Attempt-failed :
      (c : State) (max : ℕ) (now : TimeVal) (out : Option State)
      → Attempt run
      → run (some c) max now ≡ ok (fail_verification_failed, out)
      → (n : State) × (out ≡ some (accept c n now)) × (c.seq < n.seq)
  Attempt-failed c max now out (no_result h) e = absurd (h _ _ _ _ e)
  Attempt-failed c max now out (refused code ne ne' h) e = absurd (ne' (cc (h (some c) max now)))
  Attempt-failed c max now out (checked n good h) e =
      let (_, lt, is) = conclude-failed c n max now good (cc (h (some c) max now)) in (n, is, lt)
