-- ===== src/Interest/Layout.antt =====
-- An encoded Interest as the protocol lays it out: the name, then optional elements in a fixed order;
-- and what Interest_obj_from_ndn() of csrc/methods_interest.c relies on of ndn_parse_interest() and of
-- the functions that read one element.
use py_ccn.Base.{
  ℕ, ◌+◌, ◌^◌, ◌≤◌, ◌<◌, ◌≡◌, true, Option, none, some, List, [], ◌∷◌, ◌++◌, Bytes, length,
}
use py_ccn.Base.Int.{pos}
use py_ccn.Wire.{encode_name}
use py_ccn.Ndnb.{
  Dtag, interest, min_suffix_components, max_suffix_components, publisher_public_key_digest,
  exclude, child_selector, answer_origin_kind, scope, interest_lifetime, nonce, Encoder, Appends,
}
use py_ccn.Ndnb
use py_ccn.Interest.Parse.{Decoder}

pub data Payload : Type 0 where
  number : ℕ → Payload
  blob : Bytes → Payload

-- An optional element.
abbrev pub Row : Type 0
Row = Dtag × Option Payload

pub record Fields : Type 0 where
  pub comps : List Bytes
  pub min_suffix : Option ℕ
  pub max_suffix : Option ℕ
  pub digest : Option Bytes
  pub child_selector : Option ℕ
  pub answer_origin_kind : Option ℕ
  pub scope : Option ℕ
  pub lifetime : Option Bytes
  pub nonce : Option Bytes

abbrev pub numbered : Option ℕ → Option Payload
numbered none = none
numbered (some n) = some (number n)

abbrev pub of_bytes : Option Bytes → Option Payload
of_bytes none = none
of_bytes (some b) = some (blob b)

-- The elements behind the name, without an exclusion filter.
abbrev pub rows : Fields → List Row
rows f =
    (min_suffix_components, numbered f.min_suffix)
    ∷ (max_suffix_components, numbered f.max_suffix)
    ∷ (publisher_public_key_digest, of_bytes f.digest)
    ∷ (exclude, none)
    ∷ (child_selector, numbered f.child_selector)
    ∷ (answer_origin_kind, numbered f.answer_origin_kind)
    ∷ (scope, numbered f.scope)
    ∷ (interest_lifetime, of_bytes f.lifetime)
    ∷ (nonce, of_bytes f.nonce)
    ∷ []

module _ {enc : Encoder} (law : Appends enc) where
  abbrev pub row_bytes : Row → Bytes
  row_bytes (t, none) = []
  row_bytes (t, some (number n)) = law.putf_bytes t (pos n)
  row_bytes (t, some (blob b)) = law.blob_bytes t b

  abbrev pub rows_bytes : List Row → Bytes
  rows_bytes [] = []
  rows_bytes (r ∷ rs) = row_bytes r ++ rows_bytes rs

  -- `header` is as in NameLaws.
  abbrev pub interest_bytes : (header : ℕ → Bytes) → Fields → Bytes
  interest_bytes header f =
      law.tt_bytes interest
      ++ (encode_name header f.comps ++ (rows_bytes (rows f) ++ law.closer_bytes))

  -- Where an element begins and ends, in front of which there are some bytes.
  abbrev pub range : (front element : Bytes) → ℕ × ℕ
  range front element = (length front, length front + length element)

  -- What the functions give on an Interest of that form. ndn_parse_interest() may refuse it, for the
  -- size of an element; where it does not, an element that is absent begins where it ends. A number is
  -- an int.
  pub record Parses (header : ℕ → Bytes) (dec : Decoder) : Type 0 where
    pub putf-size : (t : Dtag) (n : ℕ) → 1 ≤ length (law.putf_bytes t (pos n))
    pub blob-size : (t : Dtag) (b : Bytes) → 1 ≤ length (law.blob_bytes t b)
    pub parse-name :
        (f : Fields)
        → (dec.parse_interest (interest_bytes header f)).0 ≡ true
        → (dec.parse_interest (interest_bytes header f)).1 Ndnb.name
          ≡ range (law.tt_bytes interest) (encode_name header f.comps)
    pub parse-row :
        (f : Fields) (t : Dtag) (payload : Option Payload) (front back : List Row)
        → (dec.parse_interest (interest_bytes header f)).0 ≡ true
        → rows f ≡ front ++ ((t, payload) ∷ back)
        → (dec.parse_interest (interest_bytes header f)).1 t
          ≡ range
              (law.tt_bytes interest ++ (encode_name header f.comps ++ rows_bytes front))
              (row_bytes (t, payload))
    pub fetch_number-present :
        (t : Dtag) (n : ℕ) (front rest : Bytes)
        → n < 2 ^ 31
        → dec.fetch_number t
            (front ++ (law.putf_bytes t (pos n) ++ rest))
            (length front)
            (length front + length (law.putf_bytes t (pos n)))
          ≡ some n
    pub ref_blob-present :
        (t : Dtag) (b front rest : Bytes)
        → dec.ref_blob t
            (front ++ (law.blob_bytes t b ++ rest))
            (length front)
            (length front + length (law.blob_bytes t b))
          ≡ some b
