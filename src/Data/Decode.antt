-- ===== src/Data/Decode.antt =====
-- Data_obj_from_ndn() and the other commands on packets that parse.
use py_ccn.Base.{
  ℕ, ◌-◌, ◌≤◌, ◌≡◌, ◌≢◌, refl, ◌∙◌, true, false, ◌==◌, Option, some, List, [], ◌++◌, Bytes, length,
  take, take-length, length-append, read, read-middle, leb, arith,
}
use py_ccn.Base.Int.{ℤ, pos}
use py_ccn.Base.Run.{Run, ok, raise, fault, ◌>>=◌, >>=_assoc, ndn_name_error, value_error}
use py_ccn.Wire.{NameLib, NameLaws, encode_name}
use py_ccn.Name.{name_obj_from_ndn}
use py_ccn.Name.Decode.{name_comps_from_ndn-encode}
use py_ccn.Ndnb.{Encoder, Appends, BufDecoder, Decodes}
use py_ccn.Ndnb.Fields.{NonEmpty}
use py_ccn.Ndnb.Numbers.{binary_value}
use py_ccn.KeyLocator.{KeyLib}
use py_ccn.Signature.{Build}
use py_ccn.Signature.RoundTrip.{encoded, from_ndn-encoded}
use py_ccn.SignedInfo.Decode.{
  Info, IsInfo, Locator, info_bytes, located, signed_info_obj_from_ndn-info,
}
use py_ccn.Data.{Context, get_pco}
use py_ccn.Data.Cache.{Coherent, get_pco-Coherent}
use py_ccn.Data.Packet.{
  Parsed, PyData, positive, section, with_pco, content_from_ndn_parsed, name_obj_from_ndn_parsed,
  data_from_parsed, data_obj_from_ndn, cmd_digest_contentobject, cmd_verify_content,
}

-- A part of a buffer between two offsets.
pub record Section (buf x : Bytes) (start stop : ℕ) : Type 0 where
  pub front : Bytes
  pub back : Bytes
  pub whole : buf ≡ front ++ (x ++ back)
  pub starts : start ≡ length front
  pub stops : stop ≡ length (front ++ x)

section-Section :
    (buf x : Bytes) (start stop : ℕ) → Section buf x start stop → section buf start stop ≡ ok x
unfolding section
section-Section buf x start stop s =
    let sizes = length-append s.front x in
    let size : stop - start ≡ length x = omega (arith, sizes, s.starts, s.stops) in
    let ordered : leb start stop ≡ true = ground (arith, sizes, s.starts, s.stops) in
    let found : read (s.front ++ (x ++ s.back)) start (length x) ≡ ok (take (length x) x) =
      read-middle s.front x s.back start (length x) s.starts (omega arith) in
    rw (ordered, size, s.whole, found, take-length x) refl

-- What a packet says; its digest algorithm and its witness stand in the signature.
pub record Packet : Type 0 where
  pub comps : List Bytes
  pub content : Bytes
  pub digest_algorithm : Option Bytes
  pub witness : Option Bytes
  pub signature_bits : Bytes
  pub info : Info

module _ {D K P C : Type 0} (enc : Encoder) (law : Appends enc) (dec : BufDecoder D)
    (reads : Decodes enc law dec) (header : ℕ → Bytes) (lib : NameLib) (laws : NameLaws header lib)
    (keys : KeyLib K) (key_obj : K → Run P) (content_data : ℕ) (b : Build)
    (parse : Bytes → Option (Parsed × C)) (content_get_value : Bytes → Parsed → Option Bytes) where
  -- The packet stands in the buffer as the parsed form tells.
  pub record IsPacket (p : Packet) (buf : Bytes) (pco : Parsed) : Type 0 where
    pub ncomps : pco.name_ncomps ≡ pos (length p.comps)
    pub name : Section buf (encode_name header p.comps) pco.b_name pco.e_name
    pub content : content_get_value buf pco ≡ some p.content
    pub signature :
        Section buf
          (encoded enc law b p.digest_algorithm p.witness (some p.signature_bits))
          pco.b_signature
          pco.e_signature
    pub signed_info :
        Section buf
          (info_bytes enc law dec reads lib keys key_obj p.info)
          pco.b_signed_info
          pco.e_signed_info
    pub digest_fits : NonEmpty p.digest_algorithm
    pub witness_fits : NonEmpty p.witness
    pub bits_fit : 1 ≤ length p.signature_bits
    pub info_fits : IsInfo p.info
    pub locator_fits : Locator enc law dec reads lib keys key_obj p.info.locator

  -- The Data that a packet is decoded to, when its key locator is decoded to `l`.
  abbrev pub data_of : Packet → Bytes → Run (PyData P)
  data_of p buf = located enc law dec reads lib keys key_obj p.info.locator >>= λ l. ok (record {
    name = p.comps;
    content = p.content;
    signature = record {
      digest_algorithm = p.digest_algorithm;
      witness = p.witness;
      signature_bits = p.signature_bits;
    };
    signed_info = record {
      digest = p.info.digest;
      timestamp = p.info.timestamp;
      content_type = binary_value content_data p.info.kind;
      freshness = p.info.freshness;
      final_block = p.info.final_block;
      locator = l;
    };
    ndn_data = buf;
  })

  name-Section :
      (cs : List Bytes) (buf : Bytes) (pco : Parsed)
      → 1 ≤ length cs
      → pco.name_ncomps ≡ pos (length cs)
      → Section buf (encode_name header cs) pco.b_name pco.e_name
      → name_obj_from_ndn_parsed parse true true content_get_value lib buf pco ≡ ok cs
  unfolding name_obj_from_ndn_parsed name_obj_from_ndn positive
  name-Section cs buf pco n e s =
      let some_name : positive (pos (length cs)) ≡ true = ground (arith, n) in
      rw (e, some_name)
        (rw (section-Section buf _ _ _ s) (rw (name_comps_from_ndn-encode header lib laws cs) refl))

  data_from_parsed-packet :
      (p : Packet) (buf : Bytes) (pco : Parsed)
      → 1 ≤ length p.comps
      → IsPacket p buf pco
      → data_from_parsed parse true true content_get_value dec lib keys key_obj content_data buf pco
        ≡ data_of p buf
  unfolding data_from_parsed content_from_ndn_parsed
  data_from_parsed-packet p buf pco n is =
      let named = name-Section p.comps buf pco n is.ncomps is.name in
      let signed =
        from_ndn-encoded enc law b dec reads p.digest_algorithm p.witness p.signature_bits
          is.digest_fits is.witness_fits is.bits_fit in
      let info =
        signed_info_obj_from_ndn-info enc law dec reads lib keys key_obj content_data p.info
          is.info_fits is.locator_fits in
      rw (named) (
        rw (is.content) (
          rw (section-Section buf _ _ _ is.signature) (
            rw signed (
              rw (section-Section buf _ _ _ is.signed_info) (
                rw info
                  (>>=_assoc (located enc law dec reads lib keys key_obj p.info.locator) _ _))))))

  module _ (p : Packet) (buf : Bytes) (pco : Parsed) (c : C) (parses : parse buf ≡ some (pco, c))
      (context : Context Parsed C) (co : Coherent parse buf context) where
    got : (get_pco parse true true buf context).0 ≡ ok pco
    got = get_pco-Coherent parse buf context co ∙ rw parses

    -- However the capsule was used before, a packet that parses, has a name of one component or more
    -- and well-formed sections is decoded, with memory enough, as what it says, and its key locator as
    -- what KeyLocator_obj_from_ndn() gives.
    pub data_obj_from_ndn-packet :
        1 ≤ length p.comps
        → IsPacket p buf pco
        → (data_obj_from_ndn parse true true content_get_value dec lib keys key_obj content_data
            (some (record { content_object = buf; context = context }))).0
          ≡ data_of p buf
    unfolding data_obj_from_ndn with_pco
    data_obj_from_ndn-packet n is = rw got (data_from_parsed-packet p buf pco n is)

    -- A packet whose name has no components is refused, though it parses.
    pub data_obj_from_ndn-nameless :
        p.comps ≡ []
        → IsPacket p buf pco
        → (data_obj_from_ndn parse true true content_get_value dec lib keys key_obj content_data
            (some (record { content_object = buf; context = context }))).0
          ≡ raise ndn_name_error
    unfolding data_obj_from_ndn with_pco data_from_parsed name_obj_from_ndn_parsed positive
    data_obj_from_ndn-nameless n is = rw got (rw (is.ncomps) (rw (n) refl))

    -- On a capsule with more or fewer bytes than the packet has, digest_contentobject() raises a
    -- ValueError, and verify_content() fails an assertion.
    pub digest_contentobject-trailing :
        {H : Type 0} (digest : Bytes → Parsed → Bytes) (verify : H → Bytes → Parsed → ℤ)
        (handle : H)
        → length buf ≢ pco.e
        → ((cmd_digest_contentobject parse true true digest
              (some (record { content_object = buf; context = context }))).0
            ≡ raise value_error)
          × ((cmd_verify_content parse true true verify
                (some handle)
                (some (record { content_object = buf; context = context }))).0
              ≡ fault)
    unfolding cmd_digest_contentobject cmd_verify_content with_pco
    digest_contentobject-trailing digest verify handle ne =
        let differs : (length buf == pco.e) ≡ false = ground (arith, ne) in
        (rw (got, differs) refl, rw (got, differs) refl)
