-- ===== src/Interest/Encode.antt =====
-- Interest_obj_to_ndn() and the elements of an Interest, in the order of the protocol.
use py_ccn.Base.{
  ◌*◌, ◌/◌, ◌^◌, ◌<◌, if◌then◌else◌, arith, ◌≡◌, refl, sym, ◌≢◌, ap, true, Option, none, some, [],
  ◌++◌, append_assoc, append-nil, Bytes,
}
use py_ccn.Base.Int.{ℤ, int_of_long}
use py_ccn.Base.Run.{ok, fault}
use py_ccn.Ndnb.{Appends}
use py_ccn.Interest

-- The values of an Interest whose attributes all exist and have the right types.
pub record Values : Type 0 where
  pub name : Option Bytes
  pub min_suffix : Option ℤ
  pub max_suffix : Option ℤ
  pub digest : Option Bytes
  pub exclude : Interest.Attr Bytes
  pub child_selector : Option ℤ
  pub answer_origin_kind : Option ℤ
  pub scope : Option ℤ
  pub lifetime : Option Interest.Float
  pub nonce : Option Bytes

-- A lifetime of which the whole units of 1/4096 s fit an unsigned long; below zero there are none.
abbrev pub IsTime : Option Interest.Float → Type 0
IsTime none = Unit {0}
IsTime (some (Interest.finite negative numerator shift)) =
    numerator * 4096 / 2 ^ shift < (if negative then 1 else 2 ^ 64)
IsTime (some Interest.not_finite) = ⊥

IsTime-is_defined :
    (lifetime : Interest.Float) → IsTime (some lifetime) → Interest.is_defined lifetime ≡ true
unfolding Interest.is_defined Interest.ticks
IsTime-is_defined (Interest.finite negative numerator shift) h = ground (arith, h)
IsTime-is_defined Interest.not_finite h = absurd h

abbrev pub attr : {A B : Type 0} → (A → B) → Option A → Interest.Attr B
attr f none = Interest.none_value
attr f (some a) = Interest.value (f a)

abbrev pub obj_of : Values → Interest.InterestObj
obj_of v = record {
  name = attr ok v.name;
  min_suffix = attr ok v.min_suffix;
  max_suffix = attr ok v.max_suffix;
  digest = attr some v.digest;
  exclude = v.exclude;
  child_selector = attr ok v.child_selector;
  answer_origin_kind = attr ok v.answer_origin_kind;
  scope = attr ok v.scope;
  lifetime = attr some v.lifetime;
  nonce = attr some v.nonce;
}

abbrev pub optional : {A : Type 0} → (A → Bytes) → Option A → Bytes
optional f none = []
optional f (some a) = f a

module _ (enc : Interest.Encoder) (law : Appends enc) where
  abbrev pub int_bytes : Interest.Dtag → Option ℤ → Bytes
  int_bytes t n = optional (λ k. law.putf_bytes t (int_of_long k)) n

  abbrev pub name_bytes : Option Bytes → Bytes
  name_bytes none = law.tt_bytes Interest.name ++ law.closer_bytes
  name_bytes (some n) = n

  -- The elements in order.
  unfoldable pub elements : Values → Bytes
  elements v =
      law.tt_bytes Interest.interest
      ++ (name_bytes v.name
          ++ (int_bytes Interest.min_suffix_components v.min_suffix
              ++ (int_bytes Interest.max_suffix_components v.max_suffix
                  ++ (optional (law.blob_bytes Interest.publisher_public_key_digest) v.digest
                      ++ (int_bytes Interest.child_selector v.child_selector
                          ++ (int_bytes Interest.answer_origin_kind v.answer_origin_kind
                              ++ (int_bytes Interest.scope v.scope
                                  ++ (optional
                                        (λ n.
                                          law.blob_bytes Interest.interest_lifetime
                                            (Interest.lifetime_bytes (Interest.ticks n)))
                                        v.lifetime
                                      ++ (optional (law.blob_bytes Interest.nonce) v.nonce
                                          ++ law.closer_bytes)))))))))

  int-append :
      (cb : Bytes) (t : Interest.Dtag) (n : Option ℤ)
      → Interest.process_int_attribute enc cb t (attr ok n) ≡ ok (cb ++ int_bytes t n)
  unfolding Interest.process_int_attribute
  int-append cb t none = ap ok (sym (append-nil cb))
  int-append cb t (some k) = rw (law.tagged_putf cb t (int_of_long k))

  name-append :
      (cb : Bytes) (n : Option Bytes)
      → Interest.append_name enc cb (attr ok n) ≡ ok (cb ++ name_bytes n)
  unfolding Interest.append_name
  name-append cb none = rw (law.append_tt cb Interest.name) (
      rw (law.append_closer (cb ++ law.tt_bytes Interest.name))
        (ap ok (append_assoc cb (law.tt_bytes Interest.name) law.closer_bytes)))
  name-append cb (some n) = rw (law.append_charbuf cb n)

  digest-append :
      (cb : Bytes) (n : Option Bytes)
      → Interest.append_digest enc cb (attr some n)
        ≡ ok (cb ++ optional (law.blob_bytes Interest.publisher_public_key_digest) n)
  unfolding Interest.append_digest
  digest-append cb none = ap ok (sym (append-nil cb))
  digest-append cb (some b) = rw (law.tagged_blob cb Interest.publisher_public_key_digest b)

  lifetime-append :
      (cb : Bytes) (n : Option Interest.Float)
      → IsTime n
      → Interest.append_lifetime enc cb (attr some n)
        ≡ ok (
            cb
            ++ optional
                (λ k.
                  law.blob_bytes Interest.interest_lifetime
                    (Interest.lifetime_bytes (Interest.ticks k)))
                n)
  unfolding Interest.append_lifetime
  lifetime-append cb none is = ap ok (sym (append-nil cb))
  lifetime-append cb (some k) is = rw (
    IsTime-is_defined k is,
    law.tagged_blob cb Interest.interest_lifetime (Interest.lifetime_bytes (Interest.ticks k)),
  )

  nonce-append :
      (cb : Bytes) (n : Option Bytes)
      → Interest.append_nonce enc cb (attr some n)
        ≡ ok (cb ++ optional (law.blob_bytes Interest.nonce) n)
  unfolding Interest.append_nonce
  nonce-append cb none = ap ok (sym (append-nil cb))
  nonce-append cb (some b) = rw (law.tagged_blob cb Interest.nonce b)

  -- Where the exclude attribute exists, it leaves no trace.
  exclude-skip :
      (cb : Bytes) (x : Interest.Attr Bytes)
      → x ≢ Interest.absent
      → Interest.check_exclude enc cb x ≡ ok cb
  unfolding Interest.check_exclude
  exclude-skip cb Interest.absent ne = absurd (ne refl)
  exclude-skip cb Interest.none_value ne = refl
  exclude-skip cb (Interest.value b) ne = refl

  -- With memory enough, an Interest with all its attributes and a lifetime in range is encoded as its elements; the exclude
  -- filter is not among them, whatever it is.
  pub interest_obj_to_ndn-elements :
      (v : Values)
      → v.exclude ≢ Interest.absent
      → IsTime v.lifetime
      → Interest.interest_obj_to_ndn enc (obj_of v) ≡ ok (elements v)
  unfolding Interest.interest_obj_to_ndn elements
  interest_obj_to_ndn-elements v ne is = rw (law.append_tt [] Interest.interest) (
      rw (name-append _ v.name) (
        rw (int-append _ Interest.min_suffix_components v.min_suffix) (
          rw (int-append _ Interest.max_suffix_components v.max_suffix) (
            rw (digest-append _ v.digest) (
              rw (exclude-skip _ v.exclude ne) (
                rw (int-append _ Interest.child_selector v.child_selector) (
                  rw (int-append _ Interest.answer_origin_kind v.answer_origin_kind) (
                    rw (int-append _ Interest.scope v.scope) (
                      rw (lifetime-append _ v.lifetime is) (
                        rw (nonce-append _ v.nonce)
                          (rw (law.append_closer _) (simp append_assoc))))))))))))

  -- Where the attribute interestLifetime is missing, the encoder faults, with everything else as it
  -- should be.
  pub interest_obj_to_ndn-no_lifetime :
      (v : Values)
      → v.exclude ≢ Interest.absent
      → Interest.interest_obj_to_ndn enc (record (obj_of v) { lifetime = Interest.absent }) ≡ fault
  unfolding Interest.interest_obj_to_ndn
  interest_obj_to_ndn-no_lifetime v ne = rw (law.append_tt [] Interest.interest) (
      rw (name-append _ v.name) (
        rw (int-append _ Interest.min_suffix_components v.min_suffix) (
          rw (int-append _ Interest.max_suffix_components v.max_suffix) (
            rw (digest-append _ v.digest) (
              rw (exclude-skip _ v.exclude ne) (
                rw (int-append _ Interest.child_selector v.child_selector) (
                  rw (int-append _ Interest.answer_origin_kind v.answer_origin_kind) (
                    rw (int-append _ Interest.scope v.scope)
                      (unfold Interest.append_lifetime in refl)))))))))
