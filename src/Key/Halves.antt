-- ===== src/Key/Halves.antt =====
-- The two halves of a key and its digest, over writing, reading and the conversion to a Python Key.
use py_ccn.Base.{◌≡◌, refl, Bool, true, false, Option, none, some, Bytes}
use py_ccn.Base.Run.{ok, raise, fault, ◌>>=◌, ndn_key_error}
use py_ccn.Key.{
  Ssl, ReadKey, pkey_priv, pkey_pub, PyKey, not_null, private_half, public_half, ndn_keypair,
  create_key_digest, create_public_key_digest, finish_read, key_obj_of, key_obj_from_ndn,
  key_to_ndn_private, generate_key, privatekey_dup, cmd_get_default_key,
}
use py_ccn.Key.Files.{
  Pem, get_key_der_private, get_key_der_public, put_key_der, cmd_der_read_key, cmd_der_write_key,
  put_key_pem,
}

-- What is relied on of OpenSSL where there is memory enough: a key is its RSA key, `IsPrivate` are
-- those with the private part, and `public_of` drops it.
pub record SslLaws {K R : Type 0} (ssl : Ssl K R) : Type 1 where
  pub IsPrivate : R → Type 0
  pub key_of : R → K
  pub public_of : R → R
  pub spki : R → Bytes
  pub pkcs : R → Bytes
  pub sha256 : Bytes → Bytes
  pub get1_rsa-key_of : (r : R) → ssl.get1_rsa (key_of r) ≡ some r
  pub set1_rsa-some : (r : R) → ssl.set1_rsa r ≡ some (key_of r)
  pub private_key_dup-some : (r : R) → IsPrivate r → ssl.private_key_dup r ≡ some r
  pub public_key_dup-some : (r : R) → ssl.public_key_dup r ≡ some (public_of r)
  -- SubjectPublicKeyInfo has the public part alone.
  pub i2d_pubkey-key_of : (r : R) → ssl.i2d_pubkey (key_of r) ≡ some (spki r)
  pub spki-public_of : (r : R) → spki (public_of r) ≡ spki r
  pub d2i_pubkey-spki : (r : R) → ssl.d2i_pubkey (spki r) ≡ some (key_of (public_of r))
  pub public_of-public_of : (r : R) → public_of (public_of r) ≡ public_of r
  pub i2d_private_key-key_of :
      (r : R) → IsPrivate r → ssl.i2d_private_key (key_of r) ≡ some (pkcs r)
  pub d2i_private_key-pkcs : (r : R) → IsPrivate r → ssl.d2i_private_key (pkcs r) ≡ some (key_of r)
  pub digest-some : (b : Bytes) → ssl.digest b ≡ some (sha256 b)

module _ {K R : Type 0} (ssl : Ssl K R) (laws : SslLaws ssl) where
  -- The halves of a key, and the digest of its public half.
  abbrev pub halves : R → ReadKey K
  halves r = record {
    private_key = some (laws.key_of r);
    public_key = laws.key_of (laws.public_of r);
    public_key_digest = laws.sha256 (laws.spki r);
  }

  abbrev pub public_part : R → ReadKey K
  public_part r = record (halves r) { private_key = none }

  public_half_lem :
      (r : R) → public_half ssl true (some (laws.key_of r)) ≡ ok (laws.key_of (laws.public_of r))
  unfolding public_half not_null
  public_half_lem r =
      rw (laws.get1_rsa-key_of r)
        (rw (laws.public_key_dup-some r) (rw (laws.set1_rsa-some (laws.public_of r)) refl))

  digest_lem :
      (r : R) → create_public_key_digest ssl (laws.key_of r) ≡ ok (laws.sha256 (laws.spki r))
  unfolding create_public_key_digest create_key_digest
  digest_lem r = rw (laws.i2d_pubkey-key_of r) (rw (laws.digest-some (laws.spki r)) refl)

  finish_read-public :
      (r : R) → finish_read ssl true true (some (laws.key_of r)) ≡ ok (public_part r)
  unfolding finish_read ndn_keypair not_null
  finish_read-public r = rw (public_half_lem r) (rw (digest_lem r) refl)

  private_half_lem :
      (r : R) → laws.IsPrivate r → private_half ssl true (some (laws.key_of r)) ≡ ok (laws.key_of r)
  unfolding private_half not_null
  private_half_lem r is =
      rw (laws.get1_rsa-key_of r)
        (rw (laws.private_key_dup-some r is) (rw (laws.set1_rsa-some r) refl))

  finish_read-private :
      (r : R) → laws.IsPrivate r → finish_read ssl true false (some (laws.key_of r)) ≡ ok (halves r)
  unfolding finish_read ndn_keypair not_null
  finish_read-private r is =
      rw (private_half_lem r is) (rw (public_half_lem r) (rw (digest_lem r) refl))

  finish_read-public_of :
      (r : R)
      → finish_read ssl true true (some (laws.key_of (laws.public_of r))) ≡ ok (public_part r)
  finish_read-public_of r =
      rw (finish_read-public (laws.public_of r))
        (rw (laws.public_of-public_of r, laws.spki-public_of r) refl)

  der_private :
      (r : R)
      → laws.IsPrivate r
      → (cmd_der_write_key ssl false (pkey_priv (laws.key_of r)) >>= λ der.
          cmd_der_read_key ssl true (some (some der)) none)
        ≡ ok (halves r)
  unfolding cmd_der_write_key cmd_der_read_key put_key_der get_key_der_private
  der_private r is =
      rw (laws.i2d_private_key-key_of r is)
        (rw (laws.d2i_private_key-pkcs r is) (finish_read-private r is))

  der_public :
      (r : R)
      → (cmd_der_write_key ssl false (pkey_pub (laws.key_of (laws.public_of r))) >>= λ der.
          cmd_der_read_key ssl true none (some (some der)))
        ≡ ok (public_part r)
  unfolding cmd_der_write_key cmd_der_read_key put_key_der get_key_der_public
  der_public r =
      rw (laws.i2d_pubkey-key_of (laws.public_of r))
        (rw (laws.spki-public_of r) (rw (laws.d2i_pubkey-spki r) (finish_read-public_of r)))

  -- With memory enough and a seeded generator, a generated key is given as its halves and its digest. Its private half, written in DER and read
  -- again, gives all of them; its public half gives the public half and the same digest.
  pub generate_key-der :
      (r : R)
      → laws.IsPrivate r
      → (key : ReadKey K) × (generate_key ssl true true (ok tt) (some r) laws.key_of ≡ ok key)
        × ((not_null key.private_key >>= λ k. cmd_der_write_key ssl false (pkey_priv k) >>= λ der.
              cmd_der_read_key ssl true (some (some der)) none)
            ≡ ok key)
        × ((cmd_der_write_key ssl false (pkey_pub key.public_key) >>= λ der.
              cmd_der_read_key ssl true none (some (some der)))
            ≡ ok (record key { private_key = none }))
  unfolding generate_key not_null
  generate_key-der r is = (halves r, finish_read-private r is, der_private r is, der_public r)

  -- With memory enough, Key_obj_from_ndn() of a private key gives a Key whose private key comes out of Key_to_ndn_private(). From the public
  -- half of that Key it makes a Key with the same publicKeyID and the same public half, and with no
  -- private key: Key_to_ndn_private() fails on it. A keystore with that private key gives the same Key as
  -- the default key.
  pub key_obj_from_ndn-halves :
      (r : R) (empty : K)
      → laws.IsPrivate r
      → (key : PyKey K) × (key_obj_from_ndn ssl true (pkey_priv (laws.key_of r)) ≡ ok key)
        × (key_to_ndn_private key ≡ ok (laws.key_of r))
        × ((key_obj_from_ndn ssl true (pkey_pub key.ndn_data_public))
            ≡ ok (record key { ndn_data_private = none }))
        × (key_to_ndn_private (record key { ndn_data_private = none }) ≡ fault)
        × (cmd_get_default_key ssl true empty (some (laws.key_of r)) ≡ ok key)
  unfolding key_obj_from_ndn key_obj_of key_to_ndn_private not_null privatekey_dup
      cmd_get_default_key
  key_obj_from_ndn-halves r empty is = (
    record {
      public_key_id = laws.sha256 (laws.spki r);
      ndn_data_private = some (laws.key_of r);
      ndn_data_public = laws.key_of (laws.public_of r);
    },
    rw (finish_read-private r is) refl,
    refl,
    rw (finish_read-public_of r) refl,
    refl,
    rw (laws.get1_rsa-key_of r) (rw (laws.set1_rsa-some r) (rw (finish_read-private r is) refl)),
  )

-- With memory enough, bytes in which OpenSSL finds no key, public or private, are refused with an NDNKeyError where they are read as PEM, and reach OpenSSL
-- as a null pointer where they are read as DER.
pub put_key_der-malformed :
    {K R : Type 0} (ssl : Ssl K R) (pem : Pem K) (b : Bytes) (password : Option Bytes)
    → pem.bio_private b password ≡ none
    → pem.bio_public b ≡ none
    → ssl.d2i_private_key b ≡ none
    → ssl.d2i_pubkey b ≡ none
    → ((is_public_only : Bool)
        → put_key_pem ssl pem true is_public_only (some b) password ≡ raise ndn_key_error)
      × ((is_public_only : Bool) → put_key_der ssl true is_public_only (some b) ≡ fault)
unfolding put_key_pem put_key_der finish_read ndn_keypair private_half public_half not_null
put_key_der-malformed ssl pem b password e f g h = (pem_refused, der_faults)
  where
    pem_refused : (p : Bool) → put_key_pem ssl pem true p (some b) password ≡ raise ndn_key_error
    pem_refused true = rw f refl
    pem_refused false = rw e refl

    der_faults : (p : Bool) → put_key_der ssl true p (some b) ≡ fault
    der_faults true = rw h refl
    der_faults false = rw g refl
