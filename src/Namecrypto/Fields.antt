-- ===== src/Namecrypto/Fields.antt =====
-- The fields of an authenticator and of a state, written and read.
use py_ccn.Base.{
  ℕ, ◌+◌, ◌*◌, ◌%◌, ◌^◌, ◌≤◌, ◌<◌, ◌≡◌, refl, sym, ◌++◌, arith, length, take, drop, length-append,
  take-append, drop-append, drop-append_add, take-length, read-front, be16, ◌/◌, Bytes, bytes_eq,
  read,
}
use py_ccn.Base.Run.{ok}
use py_ccn.Namecrypto.{sk_auth_magic, pk_auth_magic, auth_magic_len, state_len}
use py_ccn.Namecrypto.{auth_symmetric, auth_asymmetric}
use py_ccn.Namecrypto.State.{State, IsState, TimeVal, read_state, state_bytes, update_state}
use py_ccn.Namecrypto.Verify.{detect_authenticator, parse_authenticator}
use py_ccn.Namecrypto.Sign.{authenticator}

pub read_state-bytes : (st : State) → IsState st → read_state (state_bytes st) ≡ st
unfolding read_state state_bytes
read_state-bytes st h = ground arith

pub update_state-IsState : (st : State) (now : TimeVal) → IsState st → IsState (update_state st now)
unfolding update_state
update_state-IsState st now h = omega arith

be16_lem : (n : ℕ) → n < 2 ^ 16 → n / 256 % 256 * 256 + n % 256 ≡ n
be16_lem n h = omega arith

-- The fields of an authenticator, behind its magic number.
abbrev pub fields : (appname net tail : Bytes) → Bytes
fields appname net tail = be16 (length appname) ++ (appname ++ (net ++ tail))

module _ (appname net tail : Bytes) (n : length net ≡ state_len) where
  read-header : read (fields appname net tail) 0 2 ≡ ok (be16 (length appname))
  read-header = read-front (be16 (length appname)) (appname ++ (net ++ tail)) 2 refl

  length-fields : length (fields appname net tail) ≡ 2 + length appname + state_len + length tail
  length-fields = omega (arith, length-append appname (net ++ tail), length-append net tail)

  appname-fields : take (length appname) (drop 2 (fields appname net tail)) ≡ appname
  appname-fields = take-append appname (net ++ tail) (length appname) refl

  state-fields : take state_len (drop (2 + length appname) (fields appname net tail)) ≡ net
  state-fields =
      rw
        (
          drop-append_add (be16 (length appname)) (appname ++ (net ++ tail)) (2 + length appname)
              (length appname) refl,
          drop-append appname (net ++ tail) (length appname) refl,
        )
        (take-append net tail state_len (sym n))

  tail-fields :
      take (length tail) (drop (2 + length appname + state_len) (fields appname net tail)) ≡ tail
  tail-fields =
      rw
        (
          drop-append_add (be16 (length appname)) (appname ++ (net ++ tail))
              (2 + length appname + state_len) (length appname + state_len) (omega arith),
          drop-append_add appname (net ++ tail) (length appname + state_len) state_len refl,
          drop-append net tail state_len (sym n),
        )
        (take-length tail)

  pub parse-fields :
      length appname < 2 ^ 16
      → parse_authenticator (length tail) (fields appname net tail)
        ≡ ok (record { appname = appname; state_bytes = net; tail = tail })
  unfolding parse_authenticator
  parse-fields a = ground (
    arith,
    read-header,
    length-fields,
    appname-fields,
    state-fields,
    tail-fields,
    be16_lem (length appname),
  )

-- The magic number tells the kind, and the fields follow it.
pub detect-authenticator :
    (appname net tail : Bytes)
    → (detect_authenticator (take auth_magic_len (authenticator sk_auth_magic appname net tail))
        ≡ auth_symmetric)
      × (detect_authenticator (take auth_magic_len (authenticator pk_auth_magic appname net tail))
          ≡ auth_asymmetric)
unfolding detect_authenticator bytes_eq authenticator
detect-authenticator appname net tail = (refl, refl)

pub drop-authenticator :
    (appname net tail : Bytes)
    → (drop auth_magic_len (authenticator sk_auth_magic appname net tail) ≡ fields appname net tail)
      × (drop auth_magic_len (authenticator pk_auth_magic appname net tail)
          ≡ fields appname net tail)
unfolding authenticator
drop-authenticator appname net tail = (refl, refl)

pub length-authenticator :
    (appname net tail : Bytes)
    → (auth_magic_len ≤ length (authenticator sk_auth_magic appname net tail))
      × (auth_magic_len ≤ length (authenticator pk_auth_magic appname net tail))
unfolding authenticator
length-authenticator appname net tail = omega arith
