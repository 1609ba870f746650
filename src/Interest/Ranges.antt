-- ===== src/Interest/Ranges.antt =====
-- The attributes that Interest_obj_from_ndn() of csrc/methods_interest.c reads out of an Interest that is
-- laid out as the protocol says, each from the range that the parser gives for it.
use py_ccn.Base.{
  ℕ, ◌+◌, ◌-◌, ◌*◌, ◌/◌, ◌%◌, ◌^◌, ◌≤◌, ◌<◌, ◌≡◌, refl, sym, ap, ◌∙◌, false, true, Option, none,
  some, List, [], ◌∷◌, ◌++◌, append_assoc, Bytes, length, take, drop, take-length, read,
  read-middle, ltb, arith,
}
use py_ccn.Base.Run.{ok}
use py_ccn.Wire.{NameLib, NameLaws, encode_name}
use py_ccn.Name.Decode.{name_comps_from_ndn-encode}
use py_ccn.Ndnb.{
  Dtag, interest, min_suffix_components, max_suffix_components, publisher_public_key_digest,
  exclude, child_selector, answer_origin_kind, scope, interest_lifetime, nonce, Encoder, Appends,
}
use py_ccn.Ndnb
use mathlib.Core.Option
use py_ccn.Interest.{Float, finite, not_finite, ticks, lifetime_bytes}
use py_ccn.Interest.Stale.{lifetime_from-lifetime_bytes}
use py_ccn.Interest.Parse.{
  Decoder, ParsedInterest, number_field, blob_field, name_field, exclude_field, lifetime_field,
}
use py_ccn.Interest.Layout.{
  numbered, of_bytes, Row, row_bytes, rows_bytes, interest_bytes, range, Fields, rows, Parses,
}

-- A number that is an int.
abbrev pub IsInt : Option ℕ → Type 0
IsInt none = Unit {0}
IsInt (some n) = n < 2 ^ 31

-- What comes back of a lifetime: its whole units of 1/4096 s, modulo 4096 s.
abbrev pub carried : Float → Float
carried (finite negative numerator shift) = finite false (numerator * 4096 / 2 ^ shift % 2 ^ 24) 12
carried not_finite = finite false 0 12

units-carried : (lifetime : Float) → finite false (ticks lifetime % 2 ^ 24) 12 ≡ carried lifetime
unfolding ticks
units-carried (finite negative numerator shift) = refl
units-carried not_finite = refl

name-size : (header : ℕ → Bytes) (comps : List Bytes) → 1 ≤ length (encode_name header comps)
unfolding encode_name
name-size header comps = omega arith

module _ {enc : Encoder} (law : Appends enc) (header : ℕ → Bytes) {dec : Decoder}
    (parses : Parses law header dec) where
  number_field-range :
      (front rest : Bytes) (t : Dtag) (n : Option ℕ) (buf : Bytes) (pi : ParsedInterest)
      → IsInt n
      → buf ≡ front ++ (row_bytes law (t, numbered n) ++ rest)
      → pi t ≡ range law front (row_bytes law (t, numbered n))
      → number_field dec buf pi t ≡ ok n
  unfolding number_field
  number_field-range front rest t none buf pi int e p = rw p (ground arith)
  number_field-range front rest t (some n) buf pi int e p =
      rw (p, e, parses.fetch_number-present t n front rest int)
        (ground (arith, parses.putf-size t n))

  blob_field-range :
      (front rest : Bytes) (t : Dtag) (b : Option Bytes) (buf : Bytes) (pi : ParsedInterest)
      → buf ≡ front ++ (row_bytes law (t, of_bytes b) ++ rest)
      → pi t ≡ range law front (row_bytes law (t, of_bytes b))
      → blob_field dec buf pi t ≡ ok b
  unfolding blob_field
  blob_field-range front rest t none buf pi e p = rw p (ground arith)
  blob_field-range front rest t (some b) buf pi e p =
      rw (p, e, parses.ref_blob-present t b front rest) (ground (arith, parses.blob-size t b))

  name_field-range :
      (lib : NameLib)
      → NameLaws header lib
      → (front rest : Bytes) (comps : List Bytes) (buf : Bytes) (pi : ParsedInterest)
      → buf ≡ front ++ (encode_name header comps ++ rest)
      → pi Ndnb.name ≡ range law front (encode_name header comps)
      → name_field dec buf pi lib ≡ ok comps
  unfolding name_field
  name_field-range lib laws front rest comps buf pi e p =
      let whole = encode_name header comps in
      let size : length front + length whole - length front ≡ length whole = omega arith in
      let copy : read buf (length front) (length front + length whole - length front) ≡ ok whole =
        rw (e, size)
          (read-middle front whole rest (length front) (length whole) refl (omega arith)
            ∙ ap ok (take-length whole)) in
      let longer : ltb (length front) (length front + length whole) ≡ true =
        ground (arith, name-size header comps) in
      rw (p, longer, copy) (name_comps_from_ndn-encode header lib laws comps)

  rows_bytes-append :
      (front back : List Row)
      → rows_bytes law (front ++ back) ≡ rows_bytes law front ++ rows_bytes law back
  rows_bytes-append [] back = refl
  rows_bytes-append (r ∷ front) back =
      rw (rows_bytes-append front back)
        (sym (append_assoc (row_bytes law r) (rows_bytes law front) (rows_bytes law back)))

  -- The Interest, cut at one of its rows.
  cut :
      (f : Fields) (front back : List Row) (r : Row)
      → rows f ≡ front ++ (r ∷ back)
      → interest_bytes law header f
        ≡ (law.tt_bytes interest ++ (encode_name header f.comps ++ rows_bytes law front))
          ++ (row_bytes law r ++ (rows_bytes law back ++ law.closer_bytes))
  cut f front back r e =
      ap
        (λ rs.
          law.tt_bytes interest
          ++ (encode_name header f.comps ++ (rows_bytes law rs ++ law.closer_bytes)))
        e
      ∙ rw (rows_bytes-append front (r ∷ back)) (simp append_assoc)

  module _ (f : Fields)
      (accepted : (dec.parse_interest (interest_bytes law header f)).0 ≡ true) where
    abbrev pub buf : Bytes
    buf = interest_bytes law header f

    abbrev pub pi : ParsedInterest
    pi = (dec.parse_interest buf).1

    pub number_at :
        (front back : List Row) (t : Dtag) (n : Option ℕ)
        → IsInt n
        → rows f ≡ front ++ ((t, numbered n) ∷ back)
        → number_field dec buf pi t ≡ ok n
    number_at front back t n int e =
        number_field-range _ _ t n buf pi int (cut f front back (t, numbered n) e)
          (parses.parse-row f t (numbered n) front back accepted e)

    pub blob_at :
        (front back : List Row) (t : Dtag) (b : Option Bytes)
        → rows f ≡ front ++ ((t, of_bytes b) ∷ back)
        → blob_field dec buf pi t ≡ ok b
    blob_at front back t b e =
        blob_field-range _ _ t b buf pi (cut f front back (t, of_bytes b) e)
          (parses.parse-row f t (of_bytes b) front back accepted e)

    pub no_exclude :
        (front back : List Row)
        → rows f ≡ front ++ ((exclude, none) ∷ back)
        → exclude_field dec buf pi ≡ ok none
    unfolding exclude_field
    no_exclude front back e =
        rw (parses.parse-row f exclude none front back accepted e) (ground arith)

    pub lifetime_at :
        (lifetime : Option Float)
        → f.lifetime ≡ Option.map (λ t. lifetime_bytes (ticks t)) lifetime
        → lifetime_field dec buf pi ≡ ok (Option.map carried lifetime)
    unfolding lifetime_field
    lifetime_at none e =
        rw (blob_at (take 7 (rows f)) (drop 8 (rows f)) interest_lifetime f.lifetime refl, e) refl
    lifetime_at (some t) e =
        rw (blob_at (take 7 (rows f)) (drop 8 (rows f)) interest_lifetime f.lifetime refl, e)
          (ap (λ k. ok (some (finite false k 12))) (lifetime_from-lifetime_bytes (ticks t))
            ∙ ap (λ k. ok (some k)) (units-carried t))

    pub name_at : (lib : NameLib) → NameLaws header lib → name_field dec buf pi lib ≡ ok f.comps
    name_at lib laws =
        name_field-range lib laws (law.tt_bytes interest) _ f.comps buf pi refl
          (parses.parse-name f accepted)
