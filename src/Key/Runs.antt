-- ===== src/Key/Runs.antt =====
-- Runs of csrc/key_utils.c and csrc/methods_key.c with keys of one number.
use py_ccn.Base.{
  ℕ, ◌≡◌, refl, sym, ap, ◌==◌, Bool, true, false, Option, none, some, [], ◌∷◌, Bytes, if◌then◌else◌,
}
use py_ccn.Base.Run.{ok, raise, fault, ◌>>=◌, ndn_key_error}
use py_ccn.Key
use py_ccn.Key.{Ssl, ReadKey, PyKey, pkey_priv, pkey_pub}
use py_ccn.Key.Files
use py_ccn.Key.Files.{Pem, other_error}
use py_ccn.Key.Generate
use py_ccn.Key.Halves
use py_ccn.Key.Halves.{SslLaws}

-- A key, with or without its private part.
record Rsa : Type 0 where
  number : ℕ
  secret : Bool

abbrev public_of : Rsa → Rsa
public_of r = record r { secret = false }

abbrev read_public : Bytes → Option Rsa
read_public (t ∷ n ∷ []) = if t == 48 then some (record { number = n; secret = false }) else none
read_public _ = none

abbrev read_private : Bytes → Option Rsa
read_private (t ∷ n ∷ []) = if t == 49 then some (record { number = n; secret = true }) else none
read_private _ = none

abbrev ssl : Ssl Rsa Rsa
ssl = record {
  get1_rsa = λ r. some r;
  private_key_dup = λ r. if r.secret then some r else none;
  public_key_dup = λ r. some (public_of r);
  set1_rsa = λ r. some r;
  i2d_pubkey = λ r. some (48 ∷ r.number ∷ []);
  i2d_private_key = λ r. if r.secret then some (49 ∷ r.number ∷ []) else none;
  d2i_pubkey = read_public;
  d2i_private_key = read_private;
  digest = λ b. some (9 ∷ b);
}

abbrev five : Rsa
five = record { number = 5; secret = true }

ssl_laws : SslLaws ssl
ssl_laws = record {
  IsPrivate = λ r. r.secret ≡ true;
  key_of = λ r. r;
  public_of = public_of;
  spki = λ r. 48 ∷ r.number ∷ [];
  pkcs = λ r. 49 ∷ r.number ∷ [];
  sha256 = λ b. 9 ∷ b;
  get1_rsa-key_of = λ r. refl;
  set1_rsa-some = λ r. refl;
  private_key_dup-some = λ r is. rw is refl;
  public_key_dup-some = λ r. refl;
  i2d_pubkey-key_of = λ r. refl;
  spki-public_of = λ r. refl;
  d2i_pubkey-spki = λ r. refl;
  public_of-public_of = λ r. refl;
  i2d_private_key-key_of = λ r is. rw is refl;
  d2i_private_key-pkcs = λ r is. ap (λ s. some (record r { secret = s })) (sym is);
  digest-some = λ b. refl;
}

generate_key-der_example :
    (key : ReadKey Rsa) × (Key.generate_key ssl true true (ok tt) (some five) (λ r. r) ≡ ok key)
    × ((Key.not_null key.private_key >>= λ k.
          Files.cmd_der_write_key ssl false (pkey_priv k) >>= λ der.
          Files.cmd_der_read_key ssl true (some (some der)) none)
        ≡ ok key)
    × ((Files.cmd_der_write_key ssl false (pkey_pub key.public_key) >>= λ der.
          Files.cmd_der_read_key ssl true none (some (some der)))
        ≡ ok (record key { private_key = none }))
unfolding ssl_laws
generate_key-der_example = Halves.generate_key-der ssl ssl_laws five refl

key_obj_from_ndn-halves_example :
    (key : PyKey Rsa) × (Key.key_obj_from_ndn ssl true (pkey_priv five) ≡ ok key)
    × (Key.key_to_ndn_private key ≡ ok five)
    × ((Key.key_obj_from_ndn ssl true (pkey_pub key.ndn_data_public))
        ≡ ok (record key { ndn_data_private = none }))
    × (Key.key_to_ndn_private (record key { ndn_data_private = none }) ≡ fault)
    × (Key.cmd_get_default_key ssl true (public_of five) (some five) ≡ ok key)
unfolding ssl_laws
key_obj_from_ndn-halves_example =
    Halves.key_obj_from_ndn-halves ssl ssl_laws five (public_of five) refl

abbrev read_five : ReadKey Rsa
read_five = record {
  private_key = some five;
  public_key = public_of five;
  public_key_digest = 9 ∷ 48 ∷ 5 ∷ [];
}

-- The publicKeyID cannot be set.
abbrev no_id : Generate.Sets
no_id = record {
  set_private = ok tt;
  set_public = ok tt;
  set_type = ok tt;
  set_public_key_id = raise ndn_key_error;
}

cmd_generate_rsa_key-count_example :
    Generate.count Generate.public_key_digest
      (Generate.cmd_generate_rsa_key (ok tt) true (ok read_five) no_id).1
    ≡ 2
cmd_generate_rsa_key-count_example =
    Generate.cmd_generate_rsa_key-count read_five no_id Generate.public_key_digest
      (λ e. cc, λ e. cc, λ e. cc, λ e. cc)
