-- ===== src/Namecrypto/State.antt =====
-- The state of an application in authentication.c: initialisation, update, freshness.
use py_ccn.Base.{
  ℕ, ◌+◌, ◌*◌, ◌%◌, ◌^◌, Bool, ◌&&◌, Option, none, some, ◌++◌, ltb, leb, if◌then◌else◌,
}
use py_ccn.Base.{Bytes, IsU32, be32, u32_at}
use py_ccn.Base.Int.{sub_ℕ, int_of_long, div_ℤ, labs}
use py_ccn.Namecrypto.{Code, auth_ok, fail_duplicate_interest, fail_command_expired}
use py_ccn.Namecrypto.{info_state_not_verified}

pub record State : Type 0 where
  pub tv_sec : ℕ
  pub tv_usec : ℕ
  pub seq : ℕ
  pub rsvd : ℕ

-- Every field is a u_int32_t.
pub record IsState (s : State) : Type 0 where
  pub sec : IsU32 s.tv_sec
  pub usec : IsU32 s.tv_usec
  pub number : IsU32 s.seq
  pub reserved : IsU32 s.rsvd

-- What gettimeofday() gives; its fields are 64 bits wide.
pub record TimeVal : Type 0 where
  pub sec : ℕ
  pub usec : ℕ

unfoldable pub state_init : State
state_init = record { tv_sec = 0; tv_usec = 0; seq = 0; rsvd = 0 }

unfoldable pub update_state : State → TimeVal → State
update_state st now = record st {
  tv_sec = now.sec % 2 ^ 32;
  tv_usec = now.usec % 2 ^ 32;
  seq = (st.seq + 1) % 2 ^ 32;
}

-- `state` in network byte order, as it stands in memory, and back.
unfoldable pub state_bytes : State → Bytes
state_bytes st = be32 st.tv_sec ++ be32 st.tv_usec ++ be32 st.seq ++ be32 st.rsvd

unfoldable pub read_state : Bytes → State
read_state bs = record {
  tv_sec = u32_at bs 0;
  tv_usec = u32_at bs 4;
  seq = u32_at bs 8;
  rsvd = u32_at bs 12;
}

abbrev pub usec_of_now : TimeVal → ℕ
usec_of_now now = now.sec * 1000000 + now.usec

abbrev pub usec_of_state : State → ℕ
usec_of_state st = st.tv_sec * 1000000 + st.tv_usec

-- labs(diff): the cast to int binds tighter than the division.
unfoldable pub delay_msec : TimeVal → State → ℕ
delay_msec now st = labs (div_ℤ (int_of_long (sub_ℕ (usec_of_now now) (usec_of_state st))) 1000)

unfoldable pub is_expired : State → ℕ → TimeVal → Bool
unfolding delay_msec
is_expired new_state max_delay now = ltb 0 max_delay && ltb max_delay (delay_msec now new_state)

unfoldable pub accept : State → State → TimeVal → State
accept currstate new_state now = record currstate {
  seq = new_state.seq;
  tv_sec = now.sec % 2 ^ 32;
  tv_usec = now.usec % 2 ^ 32;
}

-- The state that is passed by a pointer comes back with the code.
unfoldable pub verify_update_state_freshness :
    Option State → State → ℕ → TimeVal → Code × Option State
unfolding is_expired accept
verify_update_state_freshness none new_state max_delay now = (info_state_not_verified, none)
verify_update_state_freshness (some cur) new_state max_delay now =
    if leb new_state.seq cur.seq
    then (fail_duplicate_interest, some cur)
    else if is_expired new_state max_delay now
    then (fail_command_expired, some cur)
    else (auth_ok, some (accept cur new_state now))
