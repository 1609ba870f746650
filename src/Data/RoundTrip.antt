-- ===== src/Data/RoundTrip.antt =====
-- The commands of csrc/methods_contentobject.c one after another: a packet is made by encode_Data(), and
-- decoded as the capsule that this gives.
use py_ccn.Base.{ℕ, ◌≤◌, ◌≡◌, Option, none, some, List, Bytes, length}
use py_ccn.Base.Run.{Run, ◌>>=◌}
use py_ccn.Wire.{NameLib, NameLaws, encode_name}
use py_ccn.Ndnb.{Encoder, Appends, BufDecoder, Decodes}
use py_ccn.KeyLocator.{KeyLib}
use py_ccn.Signature.{Build}
use py_ccn.SignedInfo.{SignedInfoLib}
use py_ccn.SignedInfo.RoundTrip.{Given, Creates, info_of}
use py_ccn.SignedInfo.Decode.{Info, IsInfo, Locator, info_bytes}
use py_ccn.Data.Packet.{Parsed}
use py_ccn.Data.Decode.{Packet, IsPacket}
use mathlib.Core.Option.{get_or}

-- What a packet is made of.
pub record Parts (S : Type 0) : Type 0 where
  pub comps : List Bytes
  pub content : Option Bytes
  pub info : Info
  pub key : S

module _ {D K P C S : Type 0} (enc : Encoder) (law : Appends enc) (dec : BufDecoder D)
    (reads : Decodes enc law dec) (header : ℕ → Bytes) (lib : NameLib) (laws : NameLaws header lib)
    (keys : KeyLib K) (key_obj : K → Run P) (content_data : ℕ) (b : Build)
    (parse : Bytes → Option (Parsed × C)) (content_get_value : Bytes → Parsed → Option Bytes)
    (encode : (name signed_info : Bytes) → (content : Option Bytes) → S → Option Bytes) where
  -- What the functions of ndn do with well-formed parts and a key that signs:
  -- ndn_encode_ContentObject() makes a packet that ndn_parse_Data() splits into the parts and a
  -- signature. Of other parts nothing is said.
  pub record Signs : Type 1 where
    pub CanSign : S → Type 0
    pub packet_bytes : Parts S → Bytes
    pub parsed_as : Parts S → Parsed
    pub index : Parts S → C
    pub witness : Parts S → Option Bytes
    pub signature_bits : Parts S → Bytes
    pub encode-packet_bytes :
        (p : Parts S)
        → 1 ≤ length p.comps
        → IsInfo p.info
        → Locator enc law dec reads lib keys key_obj p.info.locator
        → CanSign p.key
        → encode
            (encode_name header p.comps)
            (info_bytes enc law dec reads lib keys key_obj p.info)
            p.content
            p.key
          ≡ some (packet_bytes p)
    pub parse-packet_bytes :
        (p : Parts S)
        → 1 ≤ length p.comps
        → IsInfo p.info
        → Locator enc law dec reads lib keys key_obj p.info.locator
        → CanSign p.key
        → parse (packet_bytes p) ≡ some (parsed_as p, index p)
    pub packet_bytes-IsPacket :
        (p : Parts S)
        → 1 ≤ length p.comps
        → IsInfo p.info
        → Locator enc law dec reads lib keys key_obj p.info.locator
        → CanSign p.key
        → IsPacket enc law dec reads header lib laws keys key_obj content_data b parse
            content_get_value
            (record {
              comps = p.comps;
              content = get_or p.content List.[];
              digest_algorithm = none;
              witness = witness p;
              signature_bits = signature_bits p;
              info = p.info;
            })
            (packet_bytes p)
            (parsed_as p)

  module _ (signs : Signs) where
    abbrev pub said : Parts S → Packet
    said p = record {
      comps = p.comps;
      content = get_or p.content List.[];
      digest_algorithm = none;
      witness = signs.witness p;
      signature_bits = signs.signature_bits p;
      info = p.info;
    }

    module _ (now : Bytes) (create_lib : SignedInfoLib)
        (creates : Creates enc law dec reads lib keys key_obj content_data now create_lib) where
      -- The parts of a packet whose signed info is made of what is given.
      abbrev pub parts_of :
          (comps : List Bytes) (content : Option Bytes) (g : Given) (key : S) → Parts S
      parts_of comps content g key = record {
        comps = comps;
        content = content;
        info = info_of enc law dec reads lib keys key_obj content_data now g;
        key = key;
      }
