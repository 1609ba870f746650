-- ===== src/SignedInfo/Decode.antt =====
-- SignedInfo_obj_from_ndn() on a well-formed signed info.
use py_ccn.Base.{
  ℕ, ◌≤◌, ◌≡◌, ◌≢◌, refl, sym, ap, ◌∙◌, true, Option, none, some, [], ◌++◌, append_assoc,
  append-nil, Bytes, length, ltb, arith,
}
use py_ccn.Base.Run.{Run, ok, ◌>>=◌, >>=_assoc, ndn_signed_info_error}
use py_ccn.Wire.{NameLib}
use py_ccn.Ndnb.{
  Dtag, signed_info, publisher_public_key_digest, timestamp, content_type, freshness_seconds,
  final_block_id, key_locator, Encoder, Appends, BufDecoder, Decodes,
}
use py_ccn.Ndnb.Fields.{
  optional_bytes, NonEmpty, On, Lacks, start-On, match-On, advance-On, close-On, Lacks-end,
  Lacks-optional, optional_field-On, required_field-On,
}
use py_ccn.Ndnb.Numbers.{
  optional_number, binary_value, OptionFits, Lacks-number, binary-On, number-On, past-On,
}
use py_ccn.KeyLocator.{KeyLib, PyKeyLocator, key_locator_obj_from_ndn}
use py_ccn.SignedInfo.{locator_field, signed_info_obj_from_ndn}

-- What a signed info says. The type is three bytes; a key locator is its whole element.
pub record Info : Type 0 where
  pub digest : Bytes
  pub timestamp : Bytes
  pub kind : Option Bytes
  pub freshness : Option ℕ
  pub final_block : Option Bytes
  pub locator : Option Bytes

pub record IsInfo (i : Info) : Type 0 where
  pub digest_fits : (16 ≤ length i.digest) × (length i.digest ≤ 64)
  pub timestamp_fits : 1 ≤ length i.timestamp
  pub kind_fits : OptionFits 3 3 i.kind
  pub final_fits : NonEmpty i.final_block

abbrev pub raw : Option Bytes → Bytes
raw none = []
raw (some b) = b

module _ {D K P : Type 0} (enc : Encoder) (law : Appends enc) (dec : BufDecoder D)
    (reads : Decodes enc law dec) (lib : NameLib) (keys : KeyLib K) (key_obj : K → Run P) where
  -- The elements of a signed info, in order.
  abbrev pub info_bytes : Info → Bytes
  info_bytes i =
      law.tt_bytes signed_info
      ++ (law.blob_bytes publisher_public_key_digest i.digest
          ++ (law.blob_bytes timestamp i.timestamp
              ++ (optional_bytes law content_type i.kind
                  ++ (optional_number law freshness_seconds i.freshness
                      ++ (optional_bytes law final_block_id i.final_block
                          ++ (raw i.locator ++ law.closer_bytes))))))

  -- The element of a key locator, with its tag.
  pub record IsLocator (l : Bytes) : Type 0 where
    pub element : reads.IsElement l
    pub inner : Bytes
    pub tagged : l ≡ law.tt_bytes key_locator ++ inner
    pub size : 1 ≤ length l

  pub data Locator : Option Bytes → Type 0 where
    no_locator : Locator none
    a_locator : {l : Bytes} → IsLocator l → Locator (some l)

  -- What the key locator of a signed info is decoded to.
  abbrev pub located : Option Bytes → Run (Option (PyKeyLocator P))
  located none = ok none
  located (some l) = key_locator_obj_from_ndn dec lib keys key_obj l >>= λ k. ok (some k)

  Lacks-Locator :
      (t : Dtag) (l : Option Bytes)
      → t ≢ key_locator
      → Locator l
      → Lacks reads t (raw l ++ law.closer_bytes)
  Lacks-Locator t none ne no_locator = Lacks-end reads t
  Lacks-Locator t (some l) ne (a_locator is) = λ front d at.
      reads.match-other t key_locator (is.inner ++ law.closer_bytes) ne at
        (ap (λ x. x ++ law.closer_bytes) is.tagged ∙ append_assoc _ is.inner law.closer_bytes)

  locator_field-On :
      (l : Option Bytes) {buf : Bytes} {d : D}
      → Locator l
      → On reads buf (raw l ++ law.closer_bytes) d
      → (d' : D) × (locator_field dec lib keys key_obj buf d ≡ (located l >>= λ k. ok (k, d')))
        × On reads buf law.closer_bytes d'
  unfolding locator_field
  locator_field-On none {d = d} no_locator on =
      let m = Lacks-end reads key_locator on.front _ on.at in (d, rw m, on)
  locator_field-On (some l) {buf} {d} (a_locator is) on =
      let m =
        match-On reads key_locator (is.inner ++ law.closer_bytes) on
          (ap (λ x. x ++ law.closer_bytes) is.tagged ∙ append_assoc _ is.inner law.closer_bytes) in
      let (d', p, size, copy, on') = past-On reads l law.closer_bytes is.element on in
      let positive : ltb 0 (length l) ≡ true = ground (arith, is.size) in
      (
        d',
        rw m (
            rw (p) (
              rw (size) (
                rw (positive) (
                  rw copy
                    (sym (>>=_assoc (key_locator_obj_from_ndn dec lib keys key_obj l) _ _)))))),
        on',
      )

  -- A well-formed signed info is decoded as what it says, and its key locator as what
  -- KeyLocator_obj_from_ndn() gives; the type is NDN_CONTENT_DATA where there is none.
  pub signed_info_obj_from_ndn-info :
      (content_data : ℕ) (i : Info)
      → IsInfo i
      → Locator i.locator
      → signed_info_obj_from_ndn dec lib keys key_obj content_data (info_bytes i) ≡ (
          located i.locator >>= λ l. ok (record {
            digest = i.digest;
            timestamp = i.timestamp;
            content_type = binary_value content_data i.kind;
            freshness = i.freshness;
            final_block = i.final_block;
            locator = l;
          }))
  unfolding signed_info_obj_from_ndn
  signed_info_obj_from_ndn-info content_data i is loc =
      let tail5 = raw i.locator ++ law.closer_bytes in
      let tail4 = optional_bytes law final_block_id i.final_block ++ tail5 in
      let tail3 = optional_number law freshness_seconds i.freshness ++ tail4 in
      let tail2 = optional_bytes law content_type i.kind ++ tail3 in
      let tail1 = law.blob_bytes timestamp i.timestamp ++ tail2 in
      let lacks5 = λ (t : Dtag) (ne : t ≢ key_locator). Lacks-Locator t i.locator ne loc in
      let on0 = start-On reads (info_bytes i) in
      let m0 = match-On reads signed_info _ on0 refl in
      let on1 = advance-On reads signed_info _ on0 refl in
      let (d2, e2, on2) =
        required_field-On reads publisher_public_key_digest i.digest tail1 16 (some 64)
          ndn_signed_info_error is.digest_fits on1 refl in
      let (d3, e3, on3) =
        required_field-On reads timestamp i.timestamp tail2 1 none ndn_signed_info_error
          is.timestamp_fits on2 refl in
      let (d4, e4, on4) =
        binary-On reads content_type i.kind 3 3 content_data tail3 is.kind_fits
          (Lacks-number reads content_type freshness_seconds i.freshness tail4 (λ e. cc)
            (Lacks-optional reads content_type final_block_id i.final_block tail5 (λ e. cc)
              (lacks5 content_type (λ e. cc))))
          on3 in
      let (d5, e5, on5) =
        number-On reads freshness_seconds i.freshness tail4
          (Lacks-optional reads freshness_seconds final_block_id i.final_block tail5 (λ e. cc)
            (lacks5 freshness_seconds (λ e. cc)))
          on4 in
      let (d6, e6, on6) =
        optional_field-On reads final_block_id i.final_block tail5 is.final_fits
          (lacks5 final_block_id (λ e. cc)) on5 refl in
      let (d7, e7, on7) = locator_field-On i.locator loc on6 in
      let on8 = close-On reads [] on7 (sym (append-nil law.closer_bytes)) in
      rw m0 (
        rw e2 (
          rw e3 (
            rw (reads.state_ok-At on3.at) (
              rw e4 (
                rw (reads.state_ok-At on4.at) (
                  rw e5 (
                    rw e6 (
                      rw e7 (
                        rw (>>=_assoc (located i.locator) _ _)
                          (rw (reads.state_ok-At on8.at) refl))))))))))
