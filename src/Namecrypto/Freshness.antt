-- ===== src/Namecrypto/Freshness.antt =====
-- verify_update_state_freshness(): when a state is accepted, and what the delay measures.
use py_ccn.Base.{ℕ, ◌+◌, ◌*◌, ◌/◌, ◌%◌, ◌^◌, ◌≤◌, ◌<◌, ◌≡◌, false, true, Option, some, arith}
use py_ccn.Base.{◌↔◌, ◌⊎◌, ◌-◌}
use py_ccn.Namecrypto.{
  Code, auth_ok, fail_duplicate_interest, fail_command_expired, fail_verification_failed,
}
use py_ccn.Namecrypto.State.{
  State, TimeVal, usec_of_now, usec_of_state, delay_msec, is_expired, accept,
  verify_update_state_freshness,
}
use py_ccn.Namecrypto.Verify.{conclude}

module _ (c n : State) (max_delay : ℕ) (now : TimeVal) where
  -- A new number in a state that is not expired is taken over.
  pub freshness-accept :
      c.seq < n.seq
      → is_expired n max_delay now ≡ false
      → verify_update_state_freshness (some c) n max_delay now ≡ (auth_ok, some (accept c n now))
  unfolding verify_update_state_freshness
  freshness-accept lt fresh = ground arith

  -- An accepting end of a verification: the proof was right, and the check had passed.
  pub conclude-ok :
      (good : _) {out : Option State}
      → conclude (verify_update_state_freshness (some c) n max_delay now) good ≡ (auth_ok, out)
      → (good ≡ true) × (c.seq < n.seq) × (out ≡ some (accept c n now))
  unfolding conclude verify_update_state_freshness
  conclude-ok good e = ground arith

  -- A failed proof leaves the state as if it had been right.
  pub conclude-failed :
      (good : _) {out : Option State}
      → conclude (verify_update_state_freshness (some c) n max_delay now) good
        ≡ (fail_verification_failed, out)
      → (good ≡ false) × (c.seq < n.seq) × (out ≡ some (accept c n now))
  unfolding conclude verify_update_state_freshness
  conclude-failed good e = ground arith

  -- The state stays, or it takes over a number that is new.
  pub conclude_state :
      (good : _) {code : Code} {out : Option State}
      → conclude (verify_update_state_freshness (some c) n max_delay now) good ≡ (code, out)
      → (out ≡ some c) ⊎ ((c.seq < n.seq) × (out ≡ some (accept c n now)))
  unfolding conclude verify_update_state_freshness
  conclude_state good e = ground arith

  pub conclude_duplicate :
      (good : _)
      → n.seq ≤ c.seq
      → conclude (verify_update_state_freshness (some c) n max_delay now) good
        ≡ (fail_duplicate_interest, some c)
  unfolding conclude verify_update_state_freshness
  conclude_duplicate good h = ground arith

-- How far apart two times are, in microseconds, whichever is later.
abbrev pub distance : TimeVal → State → ℕ
distance now st = (usec_of_now now - usec_of_state st) + (usec_of_state st - usec_of_now now)

-- Below 2 ^ 31 microseconds the delay is the distance in milliseconds, whichever is later.
pub delay_msec_near :
    (now : TimeVal) (st : State)
    → usec_of_now now < usec_of_state st + 2 ^ 31
    → usec_of_state st < usec_of_now now + 2 ^ 31
    → delay_msec now st ≡ distance now st / 1000
unfolding delay_msec
delay_msec_near now st h k = ground arith

-- The cast to int drops every multiple of 2 ^ 32 microseconds, which is 71 minutes and 35 seconds.
pub delay_msec_wraps :
    (now later : TimeVal) (st : State) (k : ℕ)
    → usec_of_now later ≡ usec_of_now now + k * 2 ^ 32
    → delay_msec later st ≡ delay_msec now st
unfolding delay_msec
delay_msec_wraps now later st k e = ground arith

-- Within 2 ^ 31 microseconds is_expired() is about the distance: the delay is cut to milliseconds, and
-- no limit is a limit of 0.
is_expired_near :
    (n : State) (max_delay : ℕ) (now : TimeVal)
    → usec_of_now now < usec_of_state n + 2 ^ 31
    → usec_of_state n < usec_of_now now + 2 ^ 31
    → (is_expired n max_delay now ≡ true)
      ↔ ((0 < max_delay) × ((max_delay + 1) * 1000 ≤ distance now n))
unfolding is_expired
is_expired_near n max_delay now h k = ground (arith, delay_msec_near now n h k)

-- What a state with a time less than 2^31 microseconds from now does to the current state: its number
-- and the current time are taken over, the reserved bits staying, exactly if the number is greater and there is no
-- limit or the times are less than a millisecond more than the limit apart; it is a duplicate
-- exactly if the number is not greater, and expired exactly otherwise, and both leave the state as it was.
pub freshness-ok :
    (c n : State) (max_delay : ℕ) (now : TimeVal) (out : Option State)
    → usec_of_now now < usec_of_state n + 2 ^ 31
    → usec_of_state n < usec_of_now now + 2 ^ 31
    → ((verify_update_state_freshness (some c) n max_delay now ≡ (auth_ok, out)) ↔ (
        (c.seq < n.seq)
        × ((max_delay ≡ 0) ⊎ (distance now n < (max_delay + 1) * 1000))
        × (out
            ≡ some (record {
              tv_sec = now.sec % 2 ^ 32;
              tv_usec = now.usec % 2 ^ 32;
              seq = n.seq;
              rsvd = c.rsvd;
            }))))
      × ((verify_update_state_freshness (some c) n max_delay now ≡ (fail_duplicate_interest, out))
          ↔ ((n.seq ≤ c.seq) × (out ≡ some c)))
      × ((verify_update_state_freshness (some c) n max_delay now ≡ (fail_command_expired, out)) ↔ (
          (c.seq < n.seq)
          × ((0 < max_delay) × ((max_delay + 1) * 1000 ≤ distance now n))
          × (out ≡ some c)))
unfolding verify_update_state_freshness accept
freshness-ok c n max_delay now out h k = ground (arith, is_expired_near n max_delay now h k)
