-- ===== src/Interest/RoundTrip.antt =====
-- Interest_obj_to_ndn() and then Interest_obj_from_ndn() of csrc/methods_interest.c.
use py_ccn.Base.{
  ℕ, ◌^◌, ◌<◌, ◌≡◌, ◌≢◌, refl, ap, ◌∙◌, true, Option, none, some, List, append_assoc, Bytes, take,
  drop, arith,
}
use py_ccn.Base.Int.{pos, int_of_long}
use py_ccn.Base.Run.{ok}
use py_ccn.Wire.{NameLib, NameLaws, encode_name}
use py_ccn.Objects.{Object}
use py_ccn.Name.{name_obj_to_ndn}
use py_ccn.Name.Encode.{Spells, name_comps-round_trip}
use py_ccn.Ndnb.{
  Dtag, min_suffix_components, max_suffix_components, publisher_public_key_digest, child_selector,
  answer_origin_kind, scope, interest_lifetime, nonce, Encoder, Appends,
}
use mathlib.Core.Option
use py_ccn.Interest.{Attr, absent, value, Float, ticks, lifetime_bytes, interest_obj_to_ndn}
use py_ccn.Interest.Encode.{
  Values, IsTime, obj_of, elements, interest_obj_to_ndn-elements, int_bytes, optional,
}
use py_ccn.Interest.Parse.{Decoder, PyInterest, interest_from_parsed, interest_obj_from_ndn, get_pi}
use py_ccn.Interest.Ranges.{IsInt, carried, number_at, blob_at, no_exclude, lifetime_at, name_at}
use py_ccn.Interest.Layout.{numbered, of_bytes, row_bytes, interest_bytes, Fields, rows, Parses}

-- The values of an Interest with all its attributes, each None or of the right type.
pub record Sent : Type 0 where
  pub comps : List Bytes
  pub min_suffix : Option ℕ
  pub max_suffix : Option ℕ
  pub digest : Option Bytes
  pub exclude : Attr Bytes
  pub child_selector : Option ℕ
  pub answer_origin_kind : Option ℕ
  pub scope : Option ℕ
  pub lifetime : Option Float
  pub nonce : Option Bytes

abbrev pub fields_of : Sent → Fields
fields_of s = record {
  comps = s.comps;
  min_suffix = s.min_suffix;
  max_suffix = s.max_suffix;
  digest = s.digest;
  child_selector = s.child_selector;
  answer_origin_kind = s.answer_origin_kind;
  scope = s.scope;
  lifetime = Option.map (λ t. lifetime_bytes (ticks t)) s.lifetime;
  nonce = s.nonce;
}

abbrev pub values_of : (header : ℕ → Bytes) → Sent → Values
values_of header s = record {
  name = some (encode_name header s.comps);
  min_suffix = Option.map pos s.min_suffix;
  max_suffix = Option.map pos s.max_suffix;
  digest = s.digest;
  exclude = s.exclude;
  child_selector = Option.map pos s.child_selector;
  answer_origin_kind = Option.map pos s.answer_origin_kind;
  scope = Option.map pos s.scope;
  lifetime = s.lifetime;
  nonce = s.nonce;
}

-- What is read back: whole units of the lifetime modulo 4096 s, and no filter.
abbrev pub received : Sent → PyInterest
received s = record {
  name = s.comps;
  min_suffix = s.min_suffix;
  max_suffix = s.max_suffix;
  digest = s.digest;
  child_selector = s.child_selector;
  answer_origin_kind = s.answer_origin_kind;
  scope = s.scope;
  lifetime = Option.map carried s.lifetime;
  nonce = s.nonce;
}

abbrev pub AreInts : Sent → Type 0
AreInts s =
    IsInt s.min_suffix
    × IsInt s.max_suffix
    × IsInt s.child_selector
    × IsInt s.answer_origin_kind
    × IsInt s.scope

int_of_long-pos : (n : ℕ) → n < 2 ^ 31 → int_of_long (pos n) ≡ pos n
int_of_long-pos n h = ground (arith, h)

module _ {enc : Encoder} (law : Appends enc) (header : ℕ → Bytes) {dec : Decoder}
    (parses : Parses law header dec) where
  read_back :
      (lib : NameLib)
      → NameLaws header lib
      → (s : Sent) → (dec.parse_interest (interest_bytes law header (fields_of s))).0 ≡ true
      → AreInts s
      → interest_from_parsed dec
          (interest_bytes law header (fields_of s))
          (dec.parse_interest (interest_bytes law header (fields_of s))).1
          lib
        ≡ ok (received s)
  unfolding interest_from_parsed
  read_back lib laws s accepted (i, j, k, l, m) =
      let f = fields_of s in
      let front = λ (n : ℕ). take n (rows f) in
      let back = λ (n : ℕ). drop n (rows f) in
      rw
        (
          name_at law header parses f accepted lib laws,
          number_at law header parses f accepted (front 0) (back 1) min_suffix_components
              s.min_suffix i refl,
          number_at law header parses f accepted (front 1) (back 2) max_suffix_components
              s.max_suffix j refl,
          blob_at law header parses f accepted (front 2) (back 3) publisher_public_key_digest
              s.digest refl,
          no_exclude law header parses f accepted (front 3) (back 4) refl,
          number_at law header parses f accepted (front 4) (back 5) child_selector s.child_selector
              k refl,
          number_at law header parses f accepted (front 5) (back 6) answer_origin_kind
              s.answer_origin_kind l refl,
          number_at law header parses f accepted (front 6) (back 7) scope s.scope m refl,
          lifetime_at law header parses f accepted s.lifetime refl,
          blob_at law header parses f accepted (front 8) (back 9) nonce s.nonce refl,
        )
        refl

  int_bytes-row :
      (t : Dtag) (n : Option ℕ)
      → IsInt n
      → int_bytes enc law t (Option.map pos n) ≡ row_bytes law (t, numbered n)
  int_bytes-row t none i = refl
  int_bytes-row t (some n) i = ap (law.putf_bytes t) (int_of_long-pos n i)

  blob-row :
      (t : Dtag) (b : Option Bytes) → optional (law.blob_bytes t) b ≡ row_bytes law (t, of_bytes b)
  blob-row t none = refl
  blob-row t (some b) = refl

  lifetime-row :
      (n : Option Float)
      → optional (λ k. law.blob_bytes interest_lifetime (lifetime_bytes (ticks k))) n
        ≡ row_bytes law (interest_lifetime, of_bytes (Option.map (λ t. lifetime_bytes (ticks t)) n))
  lifetime-row none = refl
  lifetime-row (some n) = refl

  elements-interest_bytes :
      (s : Sent)
      → AreInts s
      → elements enc law (values_of header s) ≡ interest_bytes law header (fields_of s)
  unfolding elements
  elements-interest_bytes s (i, j, k, l, m) =
      rw
        (
          int_bytes-row min_suffix_components s.min_suffix i,
          int_bytes-row max_suffix_components s.max_suffix j,
          int_bytes-row child_selector s.child_selector k,
          int_bytes-row answer_origin_kind s.answer_origin_kind l,
          int_bytes-row scope s.scope m,
          blob-row publisher_public_key_digest s.digest,
          lifetime-row s.lifetime,
          blob-row nonce s.nonce,
        )
        (simp append_assoc)

  -- An Interest whose name is a Name of items that spell components, with numbers that are not negative
  -- and fit an int, a lifetime that fits an unsigned long in units of 1/4096 s, and all other attributes
  -- None or of the right type, is encoded, with memory enough; where ndn_parse_interest() accepts the
  -- encoding, it is read back as it was, but for the exclusion filter, which is lost, and for the
  -- lifetime, of which whole units of 1/4096 s come back, modulo 4096 s.
  pub interest_obj-round_trip :
      (lib : NameLib)
      → NameLaws header lib
      → (s : Sent) {items : List Object} → Spells items s.comps
      → s.exclude ≢ absent
      → AreInts s
      → IsTime s.lifetime
      → (dec.parse_interest (interest_bytes law header (fields_of s))).0 ≡ true
      → (interest_obj_to_ndn enc (record (obj_of (values_of header s)) {
        name = value (name_obj_to_ndn lib (ok (some items)));
      })
          ≡ ok (interest_bytes law header (fields_of s)))
        × ((interest_obj_from_ndn dec lib true (interest_bytes law header (fields_of s)) none).0
            ≡ ok (received s))
  unfolding interest_obj_from_ndn get_pi name_obj_to_ndn
  interest_obj-round_trip lib laws s spells ne ints time accepted = (
    ap (λ n. interest_obj_to_ndn enc (record (obj_of (values_of header s)) { name = value n }))
          (name_comps-round_trip header lib laws spells).0
        ∙ interest_obj_to_ndn-elements enc law (values_of header s) ne time
        ∙ ap ok (elements-interest_bytes s ints),
    rw accepted (read_back lib laws s accepted ints),
  )
