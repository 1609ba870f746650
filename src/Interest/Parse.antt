-- ===== src/Interest/Parse.antt =====
-- csrc/methods_interest.c: _pyndn_interest_get_pi() and Interest_obj_from_ndn(), the attributes of a
-- Python Interest out of an encoded one.
use py_ccn.Base.{
  ℕ, ◌+◌, ◌-◌, ◌*◌, Bool, true, false, Option, none, some, List, [], ◌∷◌, ltb, if◌then◌else◌, Bytes,
  read,
}
use py_ccn.Base.Run.{Run, ok, raise, ◌>>=◌, or_raise, memory_error, ndn_interest_error}
use py_ccn.Wire.{NameLib}
use py_ccn.Name.{name_comps_from_ndn}
use py_ccn.Interest.{
  Float, finite, Dtag, name, min_suffix_components, max_suffix_components,
  publisher_public_key_digest, child_selector, answer_origin_kind, scope, interest_lifetime, nonce,
  exclude,
}

-- The offsets of a struct ndn_parsed_interest: where an element begins and where it ends.
abbrev pub ParsedInterest : Type 0
ParsedInterest = Dtag → ℕ × ℕ

-- The functions of ndn that read an Interest; none: they report failure. ndn_parse_interest() also
-- fills the struct, whether it fails or not.
pub record Decoder : Type 0 where
  pub parse_interest : Bytes → Bool × ParsedInterest
  pub fetch_number : Dtag → Bytes → (start stop : ℕ) → Option ℕ
  pub ref_blob : Dtag → Bytes → (start stop : ℕ) → Option Bytes

-- The attributes that are set.
pub record PyInterest : Type 0 where
  pub name : List Bytes
  pub min_suffix : Option ℕ
  pub max_suffix : Option ℕ
  pub digest : Option Bytes
  pub child_selector : Option ℕ
  pub answer_origin_kind : Option ℕ
  pub scope : Option ℕ
  pub lifetime : Option Float
  pub nonce : Option Bytes

-- _pyndn_interest_set_pi(), with whether it gives an old struct to free().
unfoldable pub set_pi : Option ParsedInterest → Option ParsedInterest → Option ParsedInterest × Bool
set_pi pi context_pi = (pi, elim context_pi [ none ↦ false | some old ↦ true ])

-- lifetime = lifetime * 256.0 + (double) blob[i], from a value on; a double is exact up to six bytes.
unfoldable pub lifetime_from : ℕ → Bytes → ℕ
lifetime_from lifetime [] = lifetime
lifetime_from lifetime (b ∷ blob) = lifetime_from (lifetime * 256 + b) blob

module _ (dec : Decoder) where
  -- The result, and context->pi afterwards. `allocated` says whether calloc() gives a struct.
  unfoldable pub get_pi :
      (allocated : Bool)
      → Bytes
      → Option ParsedInterest
      → Run ParsedInterest × Option ParsedInterest
  get_pi allocated interest (some pi) = (ok pi, some pi)
  get_pi false interest none = (raise memory_error, none)
  get_pi true interest none =
      let parsed = dec.parse_interest interest in
      (if parsed.0 then ok parsed.1 else raise ndn_interest_error, some parsed.1)

  module _ (interest : Bytes) (pi : ParsedInterest) where
    unfoldable pub number_field : Dtag → Run (Option ℕ)
    number_field tag =
        let (start, stop) = pi tag in
        let r = dec.fetch_number tag interest start stop in
        if ltb start stop then (or_raise r ndn_interest_error >>= λ n. ok (some n)) else ok none

    unfoldable pub blob_field : Dtag → Run (Option Bytes)
    blob_field tag =
        let (start, stop) = pi tag in
        let r = dec.ref_blob tag interest start stop in
        if ltb start stop then (or_raise r ndn_interest_error >>= λ b. ok (some b)) else ok none

    unfoldable pub name_field : NameLib → Run (List Bytes)
    name_field lib =
        let (start, stop) = pi name in
        let cname = read interest start (stop - start) in
        if ltb start stop then (cname >>= name_comps_from_ndn lib) else raise ndn_interest_error

    -- The filter is copied, and the copy is given up.
    unfoldable pub exclude_field : Run (Option Bytes)
    exclude_field =
        let (start, stop) = pi exclude in
        let copy = read interest start (stop - start) in
        if ltb start stop then (copy >>= λ _. ok none) else ok none

    -- lifetime /= 4096.0 is exact.
    unfoldable pub lifetime_field : Run (Option Float)
    unfolding blob_field lifetime_from
    lifetime_field = do
      blob ← blob_field interest_lifetime
      elim blob [ none ↦ ok none | some b ↦ ok (some (finite false (lifetime_from 0 b) 12)) ]

    unfoldable pub interest_from_parsed : NameLib → Run PyInterest
    interest_from_parsed lib = do
      n ← name_field lib
      min ← number_field min_suffix_components
      max ← number_field max_suffix_components
      digest ← blob_field publisher_public_key_digest
      _ ← exclude_field
      child ← number_field child_selector
      origin ← number_field answer_origin_kind
      sc ← number_field scope
      lifetime ← lifetime_field
      non ← blob_field nonce
      ok (record {
        name = n;
        min_suffix = min;
        max_suffix = max;
        digest = digest;
        child_selector = child;
        answer_origin_kind = origin;
        scope = sc;
        lifetime = lifetime;
        nonce = non;
      })

  -- Interest_obj_from_ndn(): the result, and context->pi afterwards.
  unfoldable pub interest_obj_from_ndn :
      NameLib
      → (allocated : Bool) → Bytes
      → Option ParsedInterest
      → Run PyInterest × Option ParsedInterest
  unfolding get_pi
  interest_obj_from_ndn lib allocated interest context =
      let got = get_pi allocated interest context in
      (got.0 >>= λ pi. interest_from_parsed interest pi lib, got.1)
