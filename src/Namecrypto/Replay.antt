-- ===== src/Namecrypto/Replay.antt =====
-- verifyCommand() over time, on one state of an application.
use py_ccn.Base.{ℕ, ◌≤◌, ◌<◌, ◌≡◌, refl, ◌⊎◌, inl, inr, ◌%◌, ◌^◌, Option, some, arith, Bytes}
use py_ccn.Wire.{NameLib}
use py_ccn.Base.Run.{ok}
use py_ccn.Namecrypto.{Crypto, Code, auth_ok, fail_verification_failed}
use py_ccn.Namecrypto.{fail_duplicate_interest}
use py_ccn.Namecrypto.State.{State, TimeVal, accept}
use py_ccn.Namecrypto.Verify.{verify_command}
use py_ccn.Namecrypto.Attempt.{attempt, Attempt-ok, Attempt-state, Attempt-failed}

module _ {Rsa : Type 0} (crypto : Crypto Rsa) (lib : NameLib) where
  -- One call of verifyCommand() on the state `c`, by any sender, with any keys and at any time.
  pub data Step (c : State) (c' : State) : Type 0 where
    step :
        (name : Bytes) (fixture : Option Bytes) (pub_key : Option Rsa) (max : ℕ) (now : TimeVal)
        → (code : Code)
        → verify_command crypto lib name fixture pub_key (some c) max now ≡ ok (code, some c')
        → Step c c'

  pub data Reach (c : State) : State → Type 0 where
    here : Reach c c
    next : {c' c'' : State} → Reach c c' → Step c' c'' → Reach c c''

  -- A verification that returns at all keeps the state or moves it to a greater number.
  pub verify_command-seq :
      (name : Bytes) (fixture : Option Bytes) (pub_key : Option Rsa)
      → (c : State) (max : ℕ) (now : TimeVal) (code : Code) (out : Option State)
      → verify_command crypto lib name fixture pub_key (some c) max now ≡ ok (code, out)
      → (c' : State) × (out ≡ some c') × ((c' ≡ c) ⊎ (c.seq < c'.seq))
  unfolding accept
  verify_command-seq name fixture pub_key c max now code out e =
      elim (Attempt-state c max now code out (attempt crypto lib name fixture pub_key) e) [
        | inl same ↦ (c, same, inl refl)
        | inr (n, lt, is) ↦ (accept c n now, is, inr lt)
      ]

  Step-seq : {c c' : State} → Step c c' → c.seq ≤ c'.seq
  Step-seq {c} {c'} (step name fixture pub_key max now code e) =
      ground (arith, verify_command-seq name fixture pub_key c max now code (some c') e)

  pub Reach-seq : {c c' : State} → Reach c c' → c.seq ≤ c'.seq
  Reach-seq here = omega arith
  Reach-seq (next r s) = omega (arith, Reach-seq r, Step-seq s)

  module _ (name : Bytes) (fixture : Option Bytes) (pub_key : Option Rsa) where
    -- A command that was accepted is answered with FAIL_DUPLICATE_INTEREST ever after, whatever
    -- was verified in between and at whatever time.
    pub verify_command-no_replay :
        (c c' later : State) (max max' : ℕ) (now now' : TimeVal)
        → verify_command crypto lib name fixture pub_key (some c) max now ≡ ok (auth_ok, some c')
        → Reach c' later
        → verify_command crypto lib name fixture pub_key (some later) max' now'
          ≡ ok (fail_duplicate_interest, some later)
    unfolding accept
    verify_command-no_replay c c' later max max' now now' e r =
        let (n, is, lt, again) =
          Attempt-ok c max now (some c') (attempt crypto lib name fixture pub_key) e in
        again later max' now' (ground (arith, Reach-seq r, is))

    -- A command whose MAC or signature is wrong moves the state all the same: the number that it
    -- claims, greater than the last one, and the current time are taken over.
    pub verify_command-forged :
        (c : State) (max : ℕ) (now : TimeVal) (out : Option State)
        → verify_command crypto lib name fixture pub_key (some c) max now
          ≡ ok (fail_verification_failed, out)
        → (c' : State) × (out ≡ some c')
          × (c.seq < c'.seq)
          × (c'.tv_sec ≡ now.sec % 2 ^ 32)
          × (c'.tv_usec ≡ now.usec % 2 ^ 32)
    unfolding accept
    verify_command-forged c max now out e =
        let (n, is, lt) =
          Attempt-failed c max now out (attempt crypto lib name fixture pub_key) e in
        (accept c n now, is, lt, refl, refl)
