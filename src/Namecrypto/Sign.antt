-- ===== src/Namecrypto/Sign.antt =====
-- authenticateCommand() and authenticateCommandSig() of authentication.c.
use py_ccn.Base.{none, some, ◌++◌, Bytes, be16, length}
use py_ccn.Wire.{NameLib}
use py_ccn.Base.Run.{Run, ok, fault}
use py_ccn.Namecrypto.{Crypto, sk_auth_magic, pk_auth_magic}
use py_ccn.Namecrypto.State.{State, TimeVal, update_state, state_bytes}
use mathlib.Core.Option.{get_or}

-- authenticator | mac or signature, behind the magic number.
unfoldable pub authenticator : Bytes → Bytes → Bytes → Bytes → Bytes
authenticator magic appname net_st tail =
    magic ++ (be16 (length appname) ++ (appname ++ (net_st ++ tail)))

module _ {Rsa : Type 0} (crypto : Crypto Rsa) (lib : NameLib) where
  -- The name is changed in place. The result of ndn_name_append() is not looked at, so a failed
  -- append leaves the name as it was.
  unfoldable pub authenticate_command :
      State → (commandname appname appkey : Bytes) → TimeVal → State × Bytes
  unfolding authenticator
  authenticate_command st commandname appname appkey now =
      let st' = update_state st now in
      let net_st = state_bytes st' in
      let mac = crypto.hmac_sha256 appkey (commandname ++ appname ++ net_st) in
      let auth = authenticator sk_auth_magic appname net_st mac in
      (st', get_or (lib.name_append commandname auth) commandname)

  -- Where RSA_sign() fails the C code goes on with a length that it never set: a fault.
  unfoldable pub authenticate_command_sig :
      State → (commandname appname : Bytes) → Rsa → TimeVal → Run (State × Bytes)
  unfolding authenticator
  authenticate_command_sig st commandname appname key now =
      let st' = update_state st now in
      let net_st = state_bytes st' in
      let md = crypto.sha256 (commandname ++ appname ++ net_st) in
      elim (crypto.rsa_sign md key) [
        | none ↦ fault
        | some sig ↦
            let auth = authenticator pk_auth_magic appname net_st sig in
            ok (st', get_or (lib.name_append commandname auth) commandname)
      ]
