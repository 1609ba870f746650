-- ===== src/Data/Sample.antt =====
-- A Data packet in the small format of Ndnb/Instance, for the tests.
use py_ccn.Base.{ℕ, refl, true, none, some, List, [], ◌∷◌, ◌++◌, Bytes, length, arith}
use py_ccn.Base.Int.{pos}
use py_ccn.Base.Run.{Run, ok}
use py_ccn.Wire.{encode_name}
use py_ccn.Wire.Instance.{unary, unary_lib, unary_laws}
use py_ccn.Ndnb.Instance.{small, small_laws, cursor}
use py_ccn.Ndnb.Instance.Laws.{small_reads}
use py_ccn.KeyLocator.{KeyLib}
use py_ccn.Signature.{Build}
use py_ccn.Signature.RoundTrip.{encoded}
use py_ccn.SignedInfo.Decode.{Info, no_locator, info_bytes}
use py_ccn.Data.Packet.{Parsed}
use py_ccn.Data.Decode.{Packet, IsPacket}

abbrev pub keys : KeyLib ℕ
keys = record { append_pubkey_blob = λ cb k. none; d2i_pubkey = λ b. none }

abbrev pub key_obj : ℕ → Run Bytes
key_obj k = ok []

abbrev pub build : Build
build = record { python3 = true; asserts = true }

abbrev pub info : Info
info = record {
  digest = 1 ∷ 2 ∷ 3 ∷ 4 ∷ 5 ∷ 6 ∷ 7 ∷ 8 ∷ 9 ∷ 10 ∷ 11 ∷ 12 ∷ 13 ∷ 14 ∷ 15 ∷ 16 ∷ [];
  timestamp = 80 ∷ 81 ∷ [];
  kind = some (12 ∷ 4 ∷ 192 ∷ []);
  freshness = none;
  final_block = none;
  locator = none;
}

-- A packet with these components, and the content 104 105.
abbrev pub packet : List Bytes → Packet
packet cs = record {
  comps = cs;
  content = 104 ∷ 105 ∷ [];
  digest_algorithm = none;
  witness = some (3 ∷ []);
  signature_bits = 7 ∷ 7 ∷ [];
  info = info;
}

abbrev pub signature_part : Bytes
signature_part = encoded small small_laws build none (some (3 ∷ [])) (some (7 ∷ 7 ∷ []))

abbrev pub info_part : Bytes
info_part = info_bytes small small_laws cursor small_reads unary_lib keys key_obj info

abbrev pub buf : List Bytes → Bytes
buf cs = signature_part ++ (encode_name unary cs ++ (info_part ++ (104 ∷ 105 ∷ [])))

abbrev pub pco : List Bytes → Parsed
pco cs = record {
  name_ncomps = pos (length cs);
  b_name = length signature_part;
  e_name = length (signature_part ++ encode_name unary cs);
  b_signature = 0;
  e_signature = length signature_part;
  b_signed_info = length (signature_part ++ encode_name unary cs);
  e_signed_info = length ((signature_part ++ encode_name unary cs) ++ info_part);
  e = length (buf cs);
}

pub packet-IsPacket :
    (cs : List Bytes)
    → IsPacket small small_laws cursor small_reads unary unary_lib unary_laws keys key_obj 0 build
        (λ b. some (pco cs, tt))
        (λ b p. some (104 ∷ 105 ∷ []))
        (packet cs)
        (buf cs)
        (pco cs)
packet-IsPacket cs = record {
  ncomps = refl;
  name = record {
    front = signature_part;
    back = info_part ++ (104 ∷ 105 ∷ []);
    whole = refl;
    starts = refl;
    stops = refl;
  };
  content = refl;
  signature = record {
    front = [];
    back = encode_name unary cs ++ (info_part ++ (104 ∷ 105 ∷ []));
    whole = refl;
    starts = refl;
    stops = refl;
  };
  signed_info = record {
    front = signature_part ++ encode_name unary cs;
    back = 104 ∷ 105 ∷ [];
    whole = refl;
    starts = refl;
    stops = refl;
  };
  digest_fits = tt;
  witness_fits = omega arith;
  bits_fit = omega arith;
  info_fits = record {
    digest_fits = (omega arith, omega arith);
    timestamp_fits = omega arith;
    kind_fits = (omega arith, omega arith);
    final_fits = tt;
  };
  locator_fits = no_locator;
}

-- /ab/c
abbrev pub comps : List Bytes
comps = (97 ∷ 98 ∷ []) ∷ (99 ∷ []) ∷ []
