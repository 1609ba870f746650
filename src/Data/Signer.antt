-- ===== src/Data/Signer.antt =====
-- Functions that make and split packets in the small format of Ndnb/Instance, which shows that
-- the laws of Data/RoundTrip can hold. A packet begins with three numbers: the sizes of its name and of
-- its signed info, and the number of components; the signature holds the key.
use py_ccn.Base.{
  ℕ, ◌+◌, ◌-◌, ◌≡◌, refl, ap, ◌∙◌, Option, none, some, [], ◌∷◌, ◌++◌, Bytes, length, append_assoc,
  drop, drop-append, length-append, arith,
}
use py_ccn.Base.Int.{pos}
use mathlib.Core.Option
use py_ccn.Wire.{encode_name, comp_offsets}
use py_ccn.Wire.Layout.{length-offsets_from}
use py_ccn.Wire.Instance.{unary, unary_lib, unary_laws}
use py_ccn.Ndnb.Instance.{small, small_laws, cursor}
use py_ccn.Ndnb.Instance.Laws.{small_reads}
use py_ccn.Signature.RoundTrip.{encoded}
use py_ccn.SignedInfo.Decode.{info_bytes}
use py_ccn.Data.Packet.{Parsed}
use py_ccn.Data.Sample.{keys, key_obj, build}
use py_ccn.Data.RoundTrip.{Parts, Signs}

abbrev pub sig : ℕ → Bytes
sig key = encoded small small_laws build none none (some (key ∷ []))

abbrev pub count_comps : Bytes → ℕ
count_comps name = Option.get_or (Option.map length (unary_lib.name_split name)) 0 - 1

abbrev pub joined : (a b k : ℕ) → (signature name signed_info content : Bytes) → Bytes
joined a b k signature name signed_info content =
    a ∷ b ∷ k ∷ (signature ++ (name ++ (signed_info ++ content)))

abbrev pub sign : (name signed_info : Bytes) → (content : Option Bytes) → ℕ → Option Bytes
sign name signed_info content key = some (
    joined (length name) (length signed_info) (count_comps name) (sig key) name signed_info
      (Option.get_or content []))

abbrev pub split : Bytes → Option (Parsed × Unit {0})
split (a ∷ b ∷ k ∷ rest) = some (
  record {
    name_ncomps = pos k;
    b_name = 12;
    e_name = 12 + a;
    b_signature = 3;
    e_signature = 12;
    b_signed_info = 12 + a;
    e_signed_info = 12 + a + b;
    e = 3 + length rest;
  },
  tt,
)
split _ = none

abbrev pub value_of : Bytes → Parsed → Option Bytes
value_of buf pco = some (drop pco.e_signed_info buf)

abbrev pub info_part : Parts ℕ → Bytes
info_part p = info_bytes small small_laws cursor small_reads unary_lib keys key_obj p.info

abbrev pub name_part : Parts ℕ → Bytes
name_part p = encode_name unary p.comps

abbrev pub packet_of : Parts ℕ → Bytes
packet_of p =
    joined (length (name_part p)) (length (info_part p)) (length p.comps) (sig p.key) (name_part p)
      (info_part p) (Option.get_or p.content [])

sig-size : (key : ℕ) → length (sig key) ≡ 9
sig-size key = refl

pub count_comps-name : (p : Parts ℕ) → count_comps (name_part p) ≡ length p.comps
unfolding comp_offsets
count_comps-name p =
    rw (unary_laws.split-encode p.comps) (omega (arith, length-offsets_from unary 1 p.comps))

abbrev pub parsed : Parts ℕ → Parsed
parsed p = record {
  name_ncomps = pos (length p.comps);
  b_name = 12;
  e_name = 12 + length (name_part p);
  b_signature = 3;
  e_signature = 12;
  b_signed_info = 12 + length (name_part p);
  e_signed_info = 12 + length (name_part p) + length (info_part p);
  e = 3 + length (sig p.key ++ (name_part p ++ (info_part p ++ Option.get_or p.content [])));
}

abbrev pub head : Parts ℕ → Bytes
head p = length (name_part p) ∷ length (info_part p) ∷ length p.comps ∷ sig p.key

pub content_left :
    (p : Parts ℕ) → value_of (packet_of p) (parsed p) ≡ some (Option.get_or p.content [])
content_left p =
    let front = head p ++ (name_part p ++ info_part p) in
    let whole : packet_of p ≡ front ++ Option.get_or p.content [] = simp append_assoc in
    ap some (
      ap (drop (12 + length (name_part p) + length (info_part p))) whole
      ∙ drop-append front (Option.get_or p.content []) _ (
          omega (
            arith,
            length-append (head p) (name_part p ++ info_part p),
            length-append (name_part p) (info_part p),
          )))

abbrev pub small_signer :
    Signs small small_laws cursor small_reads unary unary_lib unary_laws keys key_obj 0 build split
      value_of sign
small_signer = record {
  CanSign = λ key. Unit;
  packet_bytes = packet_of;
  parsed_as = parsed;
  index = λ p. tt;
  witness = λ p. none;
  signature_bits = λ p. p.key ∷ [];
  encode-packet_bytes = λ p long fits located can.
      ap
        (λ k. some (
          joined (length (name_part p)) (length (info_part p)) k (sig p.key) (name_part p)
            (info_part p) (Option.get_or p.content [])))
        (count_comps-name p);
  parse-packet_bytes = λ p long fits located can. refl;
  packet_bytes-IsPacket = λ p long fits located can. record {
    ncomps = refl;
    name = record {
      front = head p;
      back = info_part p ++ Option.get_or p.content [];
      whole = refl;
      starts = refl;
      stops = omega (arith, length-append (head p) (name_part p));
    };
    content = content_left p;
    signature = record {
      front = length (name_part p) ∷ length (info_part p) ∷ length p.comps ∷ [];
      back = name_part p ++ (info_part p ++ Option.get_or p.content []);
      whole = refl;
      starts = refl;
      stops = refl;
    };
    signed_info = record {
      front = head p ++ name_part p;
      back = Option.get_or p.content [];
      whole = simp append_assoc;
      starts = omega (arith, length-append (head p) (name_part p));
      stops = omega (
        arith,
        length-append (head p ++ name_part p) (info_part p),
        length-append (head p) (name_part p),
      );
    };
    digest_fits = tt;
    witness_fits = tt;
    bits_fit = omega arith;
    info_fits = fits;
    locator_fits = located;
  };
}
