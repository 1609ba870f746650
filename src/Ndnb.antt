-- ===== src/Ndnb.antt =====
-- The elements of ndnb as the bindings write and read them: the functions of the ndn library that
-- append to a charbuf (Encoder) and those on a struct ndn_buf_decoder (BufDecoder), with what is
-- relied on of them where there is memory enough (Appends, Decodes).
pub mod Fields
pub mod Numbers
pub mod Instance
use py_ccn.Base.{
  ℕ, zero, suc, ◌+◌, ◌*◌, ◌≤◌, ◌≡◌, ◌≢◌, Bool, true, false, Option, none, some, List, [], ◌∷◌, ◌++◌,
  Bytes, length,
}
use py_ccn.Base.Int.{ℤ, pos}

-- The dtags of the elements that the bindings touch.
pub data Dtag : Type 0 where
  interest name min_suffix_components max_suffix_components publisher_public_key_digest : Dtag
  child_selector answer_origin_kind scope interest_lifetime nonce exclude any component : Dtag
  signature digest_algorithm witness signature_bits : Dtag
  signed_info timestamp content_type freshness_seconds final_block_id : Dtag
  key_locator key_name key certificate : Dtag

-- The functions that append to a charbuf; none: they report failure.
pub record Encoder : Type 0 where
  pub append_tt : Bytes → Dtag → Option Bytes
  pub append_closer : Bytes → Option Bytes
  pub append_charbuf : Bytes → Bytes → Option Bytes
  pub tagged_blob : Bytes → Dtag → Bytes → Option Bytes
  -- ndnb_tagged_putf() with "%d".
  pub tagged_putf : Bytes → Dtag → ℤ → Option Bytes

-- What they append.
pub record Appends (enc : Encoder) : Type 0 where
  pub tt_bytes : Dtag → Bytes
  pub closer_bytes : Bytes
  pub blob_bytes : Dtag → Bytes → Bytes
  pub putf_bytes : Dtag → ℤ → Bytes
  pub append_tt : (cb : Bytes) (t : Dtag) → enc.append_tt cb t ≡ some (cb ++ tt_bytes t)
  pub append_closer : (cb : Bytes) → enc.append_closer cb ≡ some (cb ++ closer_bytes)
  pub append_charbuf : (cb b : Bytes) → enc.append_charbuf cb b ≡ some (cb ++ b)
  pub tagged_blob :
      (cb : Bytes) (t : Dtag) (b : Bytes) → enc.tagged_blob cb t b ≡ some (cb ++ blob_bytes t b)
  pub tagged_putf :
      (cb : Bytes) (t : Dtag) (n : ℤ) → enc.tagged_putf cb t n ≡ some (cb ++ putf_bytes t n)

-- The functions on a struct ndn_buf_decoder. The Boolean says that the result is not negative.
pub record BufDecoder (D : Type 0) : Type 0 where
  pub start : Bytes → D
  -- d->decoder.token_index, and d->decoder.state >= 0
  pub token_index : D → ℕ
  pub state_ok : D → Bool
  pub match_dtag : D → Dtag → Bool
  pub advance : D → D
  pub check_close : D → D
  pub advance_past_element : D → Bool × D
  pub parse_name : D → Bool × D
  -- The least size, and the greatest, where there is one.
  pub optional_blob : D → Dtag → ℕ → Option ℕ → D
  pub required_blob : D → Dtag → ℕ → Option ℕ → Bool × D
  -- ndn_parse_optional_tagged_binary_number(), with its default; none: a negative result.
  pub optional_binary : D → Dtag → (least most : ℕ) → (default : ℕ) → ℤ × D
  pub optional_number : D → Dtag → Option ℕ × D
  -- ndn_ref_tagged_BLOB()
  pub ref_blob : Dtag → Bytes → (start stop : ℕ) → Option Bytes

-- A size between two bounds.
abbrev pub Fits : ℕ → Option ℕ → ℕ → Type 0
Fits least none n = least ≤ n
Fits least (some most) n = (least ≤ n) × (n ≤ most)

-- The number that bytes stand for, the highest byte first.
abbrev pub be_value : ℕ → Bytes → ℕ
be_value acc [] = acc
be_value acc (b ∷ bs) = be_value (acc * 256 + b) bs

-- What they do on the buffer front ++ rest, between the two parts.
pub record Decodes {D : Type 0} (enc : Encoder) (law : Appends enc) (dec : BufDecoder D)
    : Type 1 where
  pub At : (front rest : Bytes) → D → Type 0
  -- The encoding of one whole element, and of a name.
  pub IsElement : Bytes → Type 0
  pub IsName : Bytes → Type 0
  pub blob_tail : Bytes → Bytes
  pub putf_tail : ℤ → Bytes
  pub blob_layout : (t : Dtag) (b : Bytes) → law.blob_bytes t b ≡ law.tt_bytes t ++ blob_tail b
  pub putf_layout : (t : Dtag) (n : ℤ) → law.putf_bytes t n ≡ law.tt_bytes t ++ putf_tail n
  pub start-At : (rest : Bytes) → At [] rest (dec.start rest)
  pub token_index-At :
      {front rest : Bytes} {d : D} → At front rest d → dec.token_index d ≡ length front
  pub state_ok-At : {front rest : Bytes} {d : D} → At front rest d → dec.state_ok d ≡ true
  pub match-same :
      (t : Dtag) (rest : Bytes) {front tail : Bytes} {d : D}
      → At front tail d
      → tail ≡ law.tt_bytes t ++ rest
      → dec.match_dtag d t ≡ true
  pub match-other :
      (t u : Dtag) (rest : Bytes) {front tail : Bytes} {d : D}
      → t ≢ u
      → At front tail d
      → tail ≡ law.tt_bytes u ++ rest
      → dec.match_dtag d t ≡ false
  pub match-closer :
      (t : Dtag) (rest : Bytes) {front tail : Bytes} {d : D}
      → At front tail d
      → tail ≡ law.closer_bytes ++ rest
      → dec.match_dtag d t ≡ false
  pub advance-At :
      (t : Dtag) (rest : Bytes) {front tail : Bytes} {d : D}
      → At front tail d
      → tail ≡ law.tt_bytes t ++ rest
      → At (front ++ law.tt_bytes t) rest (dec.advance d)
  pub check_close-At :
      (rest : Bytes) {front tail : Bytes} {d : D}
      → At front tail d
      → tail ≡ law.closer_bytes ++ rest
      → At (front ++ law.closer_bytes) rest (dec.check_close d)
  pub past-At :
      (e : Bytes) (rest : Bytes) {front tail : Bytes} {d : D}
      → IsElement e
      → At front tail d
      → tail ≡ e ++ rest
      → (d' : D) × (dec.advance_past_element d ≡ (true, d')) × At (front ++ e) rest d'
  pub parse_name-At :
      (n : Bytes) (rest : Bytes) {front tail : Bytes} {d : D}
      → IsName n
      → At front tail d
      → tail ≡ n ++ rest
      → (d' : D) × (dec.parse_name d ≡ (true, d')) × At (front ++ n) rest d'
  pub optional-present :
      (t : Dtag) (b : Bytes) (least : ℕ) (most : Option ℕ) (rest : Bytes) {front tail : Bytes}
      {d : D}
      → Fits least most (length b)
      → At front tail d
      → tail ≡ law.blob_bytes t b ++ rest
      → At (front ++ law.blob_bytes t b) rest (dec.optional_blob d t least most)
  pub optional-absent :
      (t : Dtag) (least : ℕ) (most : Option ℕ) {front rest : Bytes} {d : D}
      → dec.match_dtag d t ≡ false
      → At front rest d
      → At front rest (dec.optional_blob d t least most)
  pub required-present :
      (t : Dtag) (b : Bytes) (least : ℕ) (most : Option ℕ) (rest : Bytes) {front tail : Bytes}
      {d : D}
      → Fits least most (length b)
      → At front tail d
      → tail ≡ law.blob_bytes t b ++ rest
      → (d' : D) × (dec.required_blob d t least most ≡ (true, d'))
        × At (front ++ law.blob_bytes t b) rest d'
  -- A blob that is missing leaves the decoder where it was, in an error state.
  pub required-absent :
      (t : Dtag) (least : ℕ) (most : Option ℕ) {front rest : Bytes} {d : D}
      → dec.match_dtag d t ≡ false
      → At front rest d
      → (d' : D) × (dec.required_blob d t least most ≡ (false, d'))
        × (dec.token_index d' ≡ length front)
  pub binary-present :
      (t : Dtag) (b : Bytes) (least most default : ℕ) (rest : Bytes) {front tail : Bytes} {d : D}
      → Fits least (some most) (length b)
      → At front tail d
      → tail ≡ law.blob_bytes t b ++ rest
      → (d' : D) × (dec.optional_binary d t least most default ≡ (pos (be_value 0 b), d'))
        × At (front ++ law.blob_bytes t b) rest d'
  pub binary-absent :
      (t : Dtag) (least most default : ℕ) {front rest : Bytes} {d : D}
      → dec.match_dtag d t ≡ false
      → At front rest d
      → (d' : D) × (dec.optional_binary d t least most default ≡ (pos default, d'))
        × At front rest d'
  pub number-present :
      (t : Dtag) (n : ℕ) (rest : Bytes) {front tail : Bytes} {d : D}
      → At front tail d
      → tail ≡ law.putf_bytes t (pos n) ++ rest
      → (d' : D) × (dec.optional_number d t ≡ (some n, d'))
        × At (front ++ law.putf_bytes t (pos n)) rest d'
  pub number-absent :
      (t : Dtag) {front rest : Bytes} {d : D}
      → dec.match_dtag d t ≡ false
      → At front rest d
      → (d' : D) × (dec.optional_number d t ≡ (none, d')) × At front rest d'
  pub ref-present :
      (t : Dtag) (b front rest : Bytes) (start stop : ℕ)
      → start ≡ length front
      → stop ≡ length (front ++ law.blob_bytes t b)
      → dec.ref_blob t (front ++ (law.blob_bytes t b ++ rest)) start stop ≡ some b
  pub ref-absent : (t : Dtag) (buf : Bytes) (start : ℕ) → dec.ref_blob t buf start start ≡ none
