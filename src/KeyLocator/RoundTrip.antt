-- ===== src/KeyLocator/RoundTrip.antt =====
-- KeyLocator_obj_from_ndn() on what _pyndn_cmd_KeyLocator_to_ndn() makes.
use py_ccn.Base.{
  ℕ, ◌-◌, ◌≤◌, ◌≡◌, refl, ap, ◌∙◌, Bool, true, Option, none, some, List, [], ◌++◌, append_assoc,
  Bytes, length, length-append, take-length, read, read-middle, ltb, arith,
}
use py_ccn.Base.Run.{Run, ok, ◌>>=◌, ndn_key_locator_error}
use py_ccn.Wire.{NameLib, NameLaws, encode_name}
use py_ccn.Name.Decode.{name_comps_from_ndn-encode}
use py_ccn.Ndnb.{Dtag, key_locator, key_name, key, Encoder, Appends, BufDecoder, Decodes}
use py_ccn.Ndnb.Fields.{On, start-On, match-On, advance-On, Lacks-blob, required_field-On}
use py_ccn.KeyLocator.{
  KeyLib, key_locator_name_to_ndn, key_locator_key_to_ndn, append_locator, key_locator_to_ndn,
  by_name, by_key, locator_by_name, locator_by_key, key_locator_obj_from_ndn,
}

-- A public key is appended as the blob of its DER encoding, less the tags around it.
pub record KeyLaws {K : Type 0} (enc : Encoder) (law : Appends enc) (keys : KeyLib K) : Type 0 where
  pub der : K → Bytes
  pub der_blob : K → Bytes
  pub append_pubkey_blob :
      (cb : Bytes) (k : K) → keys.append_pubkey_blob cb k ≡ some (cb ++ der_blob k)
  pub key_blob :
      (t : Dtag) (k : K)
      → law.tt_bytes t ++ (der_blob k ++ law.closer_bytes) ≡ law.blob_bytes t (der k)
  pub d2i_pubkey-der : (k : K) → keys.d2i_pubkey (der k) ≡ some k
  pub length-der : (k : K) → 1 ≤ length (der k)

length-encode_name : (header : ℕ → Bytes) (cs : List Bytes) → 1 ≤ length (encode_name header cs)
unfolding encode_name
length-encode_name header cs = omega arith

module _ {D K P : Type 0} (enc : Encoder) (law : Appends enc) (dec : BufDecoder D)
    (reads : Decodes enc law dec) (lib : NameLib) (keys : KeyLib K) (key_obj : K → Run P) where
  abbrev pub name_locator : Bytes → Bytes
  name_locator n =
      law.tt_bytes key_locator
      ++ (law.tt_bytes key_name ++ (n ++ (law.closer_bytes ++ law.closer_bytes)))

  name_to_ndn :
      (n : Bytes) (py_key : Option (Option K)) (cert : Bool)
      → key_locator_to_ndn enc keys (some (some n)) py_key cert ≡ ok (name_locator n)
  unfolding key_locator_to_ndn append_locator key_locator_name_to_ndn
  name_to_ndn n py_key cert = rw (law.append_tt [] key_locator) (
      rw (law.append_tt _ key_name) (
        rw (law.append_charbuf _ n)
          (rw (law.append_closer _) (rw (law.append_closer _) (simp append_assoc)))))

  -- The name at the position of the decoder.
  by_name-On :
      (header : ℕ → Bytes) (laws : NameLaws header lib) (cs : List Bytes) (rest : Bytes)
      {buf : Bytes} {d : D}
      → reads.IsName (encode_name header cs)
      → On reads buf (encode_name header cs ++ rest) d
      → locator_by_name dec lib keys key_obj buf d ≡ ok (by_name cs)
  unfolding locator_by_name
  by_name-On header laws cs rest {buf} {d} is on =
      let n = encode_name header cs in
      let (d', p, at') = reads.parse_name-At n rest is on.at refl in
      let start = reads.token_index-At on.at in
      let stop = reads.token_index-At at' in
      let sizes = length-append on.front n in
      let longer : ltb (dec.token_index d) (dec.token_index d') ≡ true =
        ground (arith, start, stop, sizes, length-encode_name header cs) in
      let size : dec.token_index d' - dec.token_index d ≡ length n =
        omega (arith, start, stop, sizes) in
      let found : read buf (dec.token_index d) (length n) ≡ ok n =
        rw on.whole (read-middle on.front n rest _ (length n) start (omega arith))
        ∙ ap ok (take-length n) in
      rw (p) (rw (longer, size, found) (rw (name_comps_from_ndn-encode header lib laws cs)))

  name_from_ndn :
      (header : ℕ → Bytes) (laws : NameLaws header lib) (cs : List Bytes)
      → reads.IsName (encode_name header cs)
      → key_locator_obj_from_ndn dec lib keys key_obj (name_locator (encode_name header cs))
        ≡ ok (by_name cs)
  unfolding key_locator_obj_from_ndn
  name_from_ndn header laws cs is =
      let on0 = start-On reads (name_locator (encode_name header cs)) in
      let m0 = match-On reads key_locator _ on0 refl in
      let on1 = advance-On reads key_locator _ on0 refl in
      let m1 = match-On reads key_name _ on1 refl in
      let on2 = advance-On reads key_name _ on1 refl in
      rw (m0) (rw m1 (by_name-On header laws cs _ is on2))

  -- With memory enough, a key locator that is written with the well-formed name of a key is read back as the components of the name,
  -- whatever key or certificate is given with it.
  pub key_locator-name :
      (header : ℕ → Bytes) (laws : NameLaws header lib) (cs : List Bytes)
      → (py_key : Option (Option K)) (cert : Bool) → reads.IsName (encode_name header cs)
      → (key_locator_to_ndn enc keys (some (some (encode_name header cs))) py_key cert
          >>= key_locator_obj_from_ndn dec lib keys key_obj)
        ≡ ok (by_name cs)
  key_locator-name header laws cs py_key cert is =
      rw (name_to_ndn (encode_name header cs) py_key cert) (name_from_ndn header laws cs is)

  module _ (klaws : KeyLaws enc law keys) where
    abbrev pub locator_of_key : K → Bytes
    locator_of_key k =
        law.tt_bytes key_locator ++ (law.blob_bytes key (klaws.der k) ++ law.closer_bytes)

    key_to_ndn :
        (k : K) (cert : Bool)
        → key_locator_to_ndn enc keys none (some (some k)) cert ≡ ok (locator_of_key k)
    unfolding key_locator_to_ndn append_locator key_locator_key_to_ndn
    key_to_ndn k cert = rw (law.append_tt [] key_locator) (
        rw (law.append_tt _ key) (
          rw (klaws.append_pubkey_blob _ k) (
            rw (law.append_closer _)
              (rw (law.append_closer _) (rw (← klaws.key_blob key k) (simp append_assoc))))))

    -- With memory enough, a key locator that is written with a key and no name is read back as that key: KeyLocator_obj_from_ndn()
    -- gives what Key_obj_from_ndn() makes of it.
    pub key_locator-key :
        (k : K) (cert : Bool)
        → (key_locator_to_ndn enc keys none (some (some k)) cert
            >>= key_locator_obj_from_ndn dec lib keys key_obj)
          ≡ (key_obj k >>= λ p. ok (by_key p))
    unfolding key_locator_obj_from_ndn locator_by_key
    key_locator-key k cert =
        let on0 = start-On reads (locator_of_key k) in
        let m0 = match-On reads key_locator _ on0 refl in
        let on1 = advance-On reads key_locator _ on0 refl in
        let lacks = Lacks-blob reads key_name key (klaws.der k) law.closer_bytes (λ e. cc) in
        let m1 = lacks on1.front _ on1.at in
        let m2 = match-On reads key _ on1 (
          ap (λ x. x ++ law.closer_bytes) (reads.blob_layout key (klaws.der k))
          ∙ append_assoc (law.tt_bytes key) (reads.blob_tail (klaws.der k)) law.closer_bytes) in
        let (d', e, on2) =
          required_field-On reads key (klaws.der k) law.closer_bytes 1 none ndn_key_locator_error
            (klaws.length-der k) on1 refl in
        let (_, found, _) =
          reads.required-present key (klaws.der k) 1 none law.closer_bytes (klaws.length-der k)
            on1.at refl in
        rw (key_to_ndn k cert)
          (rw m0 (rw m1 (rw m2 (rw found (rw e (rw (klaws.d2i_pubkey-der k)))))))
