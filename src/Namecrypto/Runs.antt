-- ===== src/Namecrypto/Runs.antt =====
-- Runs of the authenticated interests with small stand-ins for OpenSSL and for the name functions,
-- and the theorems at those inputs.
use py_ccn.Base.{
  ℕ, ◌+◌, ◌*◌, ◌%◌, ◌^◌, ◌≤◌, ◌<◌, ◌≡◌, refl, ◌⊎◌, ◌↔◌, true, false, Option, none, some, [], ◌∷◌,
  ◌++◌, arith, Bytes, bytes_eq, bytes_eq_refl, read,
}
use py_ccn.Base.Run.{◌>>=◌, ok, fault}
use py_ccn.Wire.{encode_name, encode_comps, encode_comp}
use py_ccn.Wire.Instance.{unary, unary_lib, unary_laws}
use py_ccn.Namecrypto.{
  Crypto, auth_ok, fail_verification_failed, fail_duplicate_interest, fail_command_expired, app_id,
  app_key,
}
use py_ccn.Namecrypto.State.{
  State, TimeVal, state_init, update_state, accept, is_expired, delay_msec, state_bytes, read_state,
  verify_update_state_freshness,
}
use mathlib.Core.Option
use py_ccn.Namecrypto.Sign.{authenticate_command, authenticate_command_sig}
use py_ccn.Namecrypto.Verify.{
  verify_command, extract_loop, extract_at, detect_authenticator, extract_from_interest, Extracted,
}
use py_ccn.Objects.Types.{Build}
use py_ccn.Objects.Lifetime.{Memory, destroy}
use py_ccn.Namecrypto.NewState.{nameless, cmd_nc_new_state, cmd_nc_new_state-fault}
use py_ccn.Namecrypto.Freshness.{distance, freshness-ok, delay_msec_near}
use py_ccn.Namecrypto.Replay.{
  here, verify_command-seq, verify_command-no_replay, verify_command-forged,
}
use py_ccn.Namecrypto.Soundness.{Authentic, verify_command-Authentic}
use py_ccn.Namecrypto.RoundTrip.{
  IsKeyPair, verify_command-authenticate, verify_command-authenticate_sig,
}
use py_ccn.SignedInfo.{given, not_given}
use py_ccn.Namecrypto.Commands
use py_ccn.Namecrypto.Commands.{Answer, py_true, truth}
use py_ccn.Namecrypto.Malformed.{verify_command-malformed, malformed}

abbrev sum : Bytes → ℕ
sum [] = 0
sum (b ∷ bs) = b + sum bs

abbrev thirty_two : ℕ → Bytes
thirty_two b =
    b ∷ b ∷ b ∷ b ∷ b ∷ b ∷ b ∷ b ∷ b ∷ b ∷ b ∷ b ∷ b ∷ b ∷ b ∷ b ∷ b ∷ b ∷ b ∷ b ∷ b ∷ b ∷ b ∷ b
    ∷ b ∷ b ∷ b ∷ b ∷ b ∷ b ∷ b ∷ b ∷ []

-- A checksum in place of the hash; a private key is the same number as its public key.
abbrev checksums : Crypto ℕ
checksums = record {
  sha256 = λ m. thirty_two (sum m % 256);
  hmac_sha256 = λ k m. thirty_two ((sum k + 3 * sum m) % 256);
  rsa_size = λ key. 2;
  rsa_sign = λ md key. some ((sum md % 256) ∷ key ∷ []);
  rsa_verify = λ md sig key. bytes_eq sig ((sum md % 256) ∷ key ∷ []);
}

abbrev pair : IsKeyPair checksums 7 7
pair = record {
  sign = λ md. (sum md % 256) ∷ 7 ∷ [];
  signs = λ md. refl;
  length-sign = λ md. refl;
  verify-sign = λ md. bytes_eq_refl _;
}

abbrev start : State
start = record { tv_sec = 0; tv_usec = 0; seq = 0; rsvd = 0 }

abbrev sent : TimeVal
sent = record { sec = 1000; usec = 5 }

abbrev received : TimeVal
received = record { sec = 1001; usec = 5 }

abbrev lamp : Bytes
lamp = b'l' ∷ b'a' ∷ b'm' ∷ b'p' ∷ []

abbrev app : Bytes
app = b'a' ∷ b'p' ∷ b'p' ∷ []

abbrev key : Bytes
key = 1 ∷ 2 ∷ []

-- The sender's name, and the state of the receiver after it.
abbrev command : Bytes
command =
    (authenticate_command checksums unary_lib start (encode_name unary ([] ++ (lamp ∷ []))) app
      (app_key checksums key (app_id checksums app)) sent).1

abbrev after : State
after = accept start (update_state start sent) received

accepted :
    verify_command checksums unary_lib command (some key) none (some start) 2000 received
    ≡ ok (auth_ok, some after)
accepted =
    verify_command-authenticate checksums unary unary_lib unary_laws start [] lamp app sent received
      start 2000 1 (2 ∷ []) none (λ k m. refl) (omega arith) (omega arith)
      (unfold update_state in omega arith) (unfold is_expired update_state in refl)

abbrev limit : ℕ
limit = 2000

abbrev taken : Option State
taken = some (accept start after received)

freshness-ok_example :
    ((verify_update_state_freshness (some start) after limit received ≡ (auth_ok, taken)) ↔ (
      (start.seq < after.seq)
      × ((limit ≡ 0) ⊎ (distance received after < (limit + 1) * 1000))
      × (taken
          ≡ some (record {
            tv_sec = received.sec % 2 ^ 32;
            tv_usec = received.usec % 2 ^ 32;
            seq = after.seq;
            rsvd = start.rsvd;
          }))))
    × ((verify_update_state_freshness (some start) after limit received
          ≡ (fail_duplicate_interest, taken))
        ↔ ((after.seq ≤ start.seq) × (taken ≡ some start)))
    × ((verify_update_state_freshness (some start) after limit received
          ≡ (fail_command_expired, taken))
        ↔ ((start.seq < after.seq)
            × ((0 < limit) × ((limit + 1) * 1000 ≤ distance received after))
            × (taken ≡ some start)))
unfolding update_state accept
freshness-ok_example = freshness-ok start after limit received taken (omega arith) (omega arith)

delay_msec_near_example : delay_msec received (update_state start sent) ≡ 1000
unfolding update_state
delay_msec_near_example =
    delay_msec_near received (update_state start sent) (omega arith) (omega arith)

verify_command-authenticate_example :
    verify_command checksums unary_lib command (some key) none (some start) 2000 received
    ≡ ok (auth_ok, some after)
verify_command-authenticate_example =
    verify_command-authenticate checksums unary unary_lib unary_laws start [] lamp app sent received
      start 2000 1 (2 ∷ []) none (λ k m. refl) (omega arith) (omega arith)
      (unfold update_state in omega arith) (unfold is_expired update_state in refl)

verify_command-authenticate_sig_example :
    (name : Bytes) × (authenticate_command_sig checksums unary_lib start
        (encode_name unary ([] ++ (lamp ∷ [])))
        app
        7
        sent
      ≡ ok (update_state start sent, name))
    × (verify_command checksums unary_lib name none (some 7) (some start) 2000 received
        ≡ ok (auth_ok, some after))
verify_command-authenticate_sig_example =
    verify_command-authenticate_sig checksums unary unary_lib unary_laws start [] lamp app sent
      received start 2000 7 7 pair none (omega arith) (omega arith)
      (unfold update_state in omega arith) (unfold is_expired update_state in refl)

verify_command-seq_example :
    (c' : State) × (◌≡◌ {A = Option State} (some after) (some c'))
    × ((c' ≡ start) ⊎ (start.seq < c'.seq))
verify_command-seq_example =
    verify_command-seq checksums unary_lib command (some key) none start 2000 received auth_ok
      (some after) accepted

verify_command-no_replay_example :
    verify_command checksums unary_lib command (some key) none (some after) 0 received
    ≡ ok (fail_duplicate_interest, some after)
verify_command-no_replay_example =
    verify_command-no_replay checksums unary_lib command (some key) none start after after 2000 0
      received received accepted here

verify_command-Authentic_example :
    (e : Extracted) × (extract_from_interest unary_lib command ≡ ok (some e))
    × Authentic checksums e (some key) none
verify_command-Authentic_example =
    verify_command-Authentic checksums unary_lib command (some key) none start 2000 received
      (some after) accepted

verify_command-malformed_example :
    verify_command checksums unary_lib
      (encode_name unary ([] ++ (lamp ∷ (malformed 0 3 [] (omega arith) ∷ []))))
      (some key)
      none
      (some start)
      2000
      received
    ≡ fault
verify_command-malformed_example =
    verify_command-malformed 0 3 [] (omega arith) checksums unary unary_lib unary_laws [] lamp 1
      (2 ∷ []) none (some start) 2000 received

-- The receiver has another key.
refused :
    verify_command checksums unary_lib command (some (9 ∷ [])) none (some start) 2000 received
    ≡ ok (fail_verification_failed, some after)
unfolding authenticate_command verify_command unary_lib encode_name encode_comps encode_comp unary
    state_bytes extract_loop Option.bind read detect_authenticator bytes_eq extract_at
    verify_update_state_freshness read_state update_state
refused = refl

verify_command-forged_example :
    (c' : State) × (◌≡◌ {A = Option State} (some after) (some c'))
    × (start.seq < c'.seq)
    × (c'.tv_sec ≡ received.sec % 2 ^ 32)
    × (c'.tv_usec ≡ received.usec % 2 ^ 32)
verify_command-forged_example =
    verify_command-forged checksums unary_lib command (some (9 ∷ [])) none start 2000 received
      (some after) refused

abbrev release_build : Build
release_build = record { namecrypto = true; asserts = false }

-- A capsule of a key holds it.
abbrev rsa_of : ℕ → Option ℕ
rsa_of k = some k

cmd_verify_command-truth_example :
    (answer : Answer) × (Commands.cmd_verify_command checksums unary_lib rsa_of release_build
        (some start)
        (some command)
        2000
        (given (9 ∷ []))
        not_given
        received
      ≡ ok (answer, some after))
    × (truth answer ≡ true)
    × ((answer ≡ py_true) ↔ (fail_verification_failed ≡ auth_ok))
cmd_verify_command-truth_example =
    Commands.cmd_verify_command-truth checksums unary_lib rsa_of release_build refl refl start
      command 2000 (9 ∷ []) received fail_verification_failed (some after) refused

cmd_verify_command-authenticate_example :
    (Commands.cmd_app_id checksums unary_lib rsa_of (some app) >>= λ id.
    Commands.cmd_app_key checksums unary_lib rsa_of (some key) (some id) >>= λ k.
    Commands.cmd_authenticate_command checksums unary_lib rsa_of release_build
      (some start)
      (some (encode_name unary ([] ++ (lamp ∷ []))))
      (some app)
      (some k)
      sent
    >>= λ signed.
        Commands.cmd_verify_command checksums unary_lib rsa_of release_build
          (some start)
          (some signed.1)
          2000
          (given key)
          not_given
          received)
    ≡ ok (py_true, some after)
cmd_verify_command-authenticate_example =
    Commands.cmd_verify_command-authenticate checksums unary unary_lib unary_laws rsa_of
      release_build refl refl start [] lamp app sent received start 2000 1 (2 ∷ []) (λ k m. refl)
      (λ m. refl) (omega arith) (omega arith) (unfold update_state in omega arith)
      (unfold is_expired update_state in refl)

abbrev plenty : Memory
plenty = record { capsule = true; context = true; set_context = true }

cmd_nc_new_state-fault_example :
    (cmd_nc_new_state release_build true plenty ≡ (ok (nameless, state_init), []))
    × (destroy release_build nameless ≡ fault)
    × (((cmd_nc_new_state release_build true plenty).0 >>= λ made. destroy release_build made.0)
        ≡ fault)
cmd_nc_new_state-fault_example = cmd_nc_new_state-fault release_build plenty refl refl
