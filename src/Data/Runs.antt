-- ===== src/Data/Runs.antt =====
-- Runs of csrc/methods_contentobject.c: of the cache on a parser of one-byte packets, and of
-- Data_obj_from_ndn() in the small format of Ndnb/Instance.
use py_ccn.Base.{ℕ, ◌≡◌, refl, true, false, false, Option, none, some, List, [], ◌∷◌, Bytes}
use py_ccn.Base.Run.{ok, raise, ◌>>=◌, or_raise, ndn_data_error}
use py_ccn.Base.{◌++◌, arith}
use py_ccn.Base.Int.{pos}
use py_ccn.Base.Run.{Run, fault, value_error}
use py_ccn.Wire.Instance.{unary, unary_lib, unary_laws}
use py_ccn.Ndnb.Instance.{small, small_laws, cursor}
use py_ccn.Ndnb.Instance.Laws.{small_reads}
use py_ccn.Data.Packet
use py_ccn.Data.Packet.{Parsed, Capsule}
use py_ccn.Data.Sample.{keys, key_obj, build, info, packet, buf, pco, packet-IsPacket, comps}
use py_ccn.Data.RoundTrip
use py_ccn.Data.Signer.{sign, split, value_of, small_signer}
use py_ccn.Objects.{Object, unicode, bytes}
use py_ccn.SignedInfo.RoundTrip.{Given}
use py_ccn.SignedInfo.Creator.{creator, creator-Creates}
use py_ccn.SignedInfo.{given, not_given}
use py_ccn.Key.{PyKey, key_to_ndn_private, not_null}
use py_ccn.Data.Encode
use py_ccn.Data.Decode
use py_ccn.Data.Decode.{Packet, IsPacket, Section, data_of}
use py_ccn.Data.{get_pco, get_comps, empty}
use py_ccn.Data.Cache

abbrev one_byte : Bytes → Option (ℕ × Bytes)
one_byte (b ∷ []) = some (b, 7 ∷ b ∷ [])
one_byte _ = none

abbrev calls : List (Cache.Call one_byte (5 ∷ []))
calls = Cache.pco_call true false ∷ Cache.comps_call true true ∷ []

get_pco-get_comps_example :
    ((get_pco one_byte true true (5 ∷ []) (Cache.after_all one_byte (5 ∷ []) calls empty)).0
      ≡ (or_raise (one_byte (5 ∷ [])) ndn_data_error >>= λ pc. ok pc.0))
    × ((get_comps one_byte true true (5 ∷ []) (Cache.after_all one_byte (5 ∷ []) calls empty)).0
        ≡ (or_raise (one_byte (5 ∷ [])) ndn_data_error >>= λ pc. ok pc.1))
get_pco-get_comps_example = Cache.get_pco-get_comps one_byte (5 ∷ []) calls

unparsed_run :
    (get_pco one_byte true true [] (Cache.after_all one_byte [] [] empty)).0 ≡ raise ndn_data_error
unfolding get_pco Cache.after_all
unparsed_run = refl

abbrev decode : List Bytes → Run (Packet.PyData Bytes)
decode cs =
    (Packet.data_obj_from_ndn (λ b. some (pco cs, tt)) true true (λ b p. some (104 ∷ 105 ∷ []))
      cursor unary_lib keys key_obj 0
      (some (record { content_object = buf cs; context = empty }))).0

data_obj_from_ndn-packet_example :
    decode comps
    ≡ data_of small small_laws cursor small_reads unary unary_lib unary_laws keys key_obj 0 build
        (λ b. some (pco comps, tt))
        (λ b p. some (104 ∷ 105 ∷ []))
        (packet comps)
        (buf comps)
data_obj_from_ndn-packet_example =
    Decode.data_obj_from_ndn-packet small small_laws cursor small_reads unary unary_lib unary_laws
      keys key_obj 0 build (λ b. some (pco comps, tt)) (λ b p. some (104 ∷ 105 ∷ [])) (packet comps)
      (buf comps) (pco comps) tt refl empty Cache.unparsed (omega arith) (packet-IsPacket comps)

-- A packet of four bytes, and a fifth byte behind it.
abbrev short : Parsed
short = record (pco []) { e = 4 }

abbrev five : Bytes
five = 1 ∷ 2 ∷ 3 ∷ 4 ∷ 5 ∷ []

abbrev trailing : Capsule Unit
trailing = record { content_object = five; context = empty }

trailing_run :
    (Packet.cmd_digest_contentobject (λ b. some (short, tt)) true true (λ b p. b) (some trailing)).0
    ≡ raise value_error
unfolding Packet.cmd_digest_contentobject Packet.with_pco get_pco
trailing_run = refl

verified_run :
    (Packet.cmd_verify_content
      (λ b. some (short, tt))
      true
      true
      (λ (h : ℕ) b p. pos 0)
      (some 1)
      (some trailing)).0
    ≡ fault
unfolding Packet.cmd_verify_content Packet.with_pco get_pco
verified_run = refl

-- A packet that is its name, its content and its key one after another.
abbrev joined : (name signed_info : Bytes) → Option Bytes → ℕ → Option Bytes
joined name signed_info none key = some (name ++ (key ∷ []))
joined name signed_info (some content) key = some (name ++ (content ++ (key ∷ [])))

abbrev signer : (private_key : Option ℕ) → PyKey ℕ
signer private_key = record {
  public_key_id = [];
  ndn_data_private = private_key;
  ndn_data_public = 4;
}

encode_run :
    Encode.cmd_encode_data joined true
      (some (1 ∷ []))
      (given (2 ∷ []))
      (some [])
      (some (signer (some 3)))
    ≡ ok (1 ∷ 2 ∷ 3 ∷ [])
unfolding Encode.cmd_encode_data key_to_ndn_private not_null
encode_run = refl

-- A public key does not sign.
public_run :
    Encode.cmd_encode_data joined true (some (1 ∷ [])) not_given (some []) (some (signer none))
    ≡ fault
unfolding Encode.cmd_encode_data key_to_ndn_private not_null
public_run = refl

abbrev handed : Given
handed = record {
  digest = info.digest;
  type = 787648;
  freshness = pos 60;
  final_block = some (0 ∷ []);
  locator = none;
}

abbrev parts : RoundTrip.Parts ℕ
parts =
    RoundTrip.parts_of small small_laws cursor small_reads unary unary_lib unary_laws keys key_obj 0
      build split value_of sign small_signer (80 ∷ 81 ∷ []) (creator 0)
      (creator-Creates keys key_obj 0) comps (some (104 ∷ 105 ∷ [])) handed 5

abbrev items : List Object
items = unicode (some (97 ∷ 98 ∷ [])) ∷ bytes (99 ∷ []) ∷ []

abbrev five_key : PyKey ℕ
five_key = record { public_key_id = []; ndn_data_private = some 5; ndn_data_public = 5 }
