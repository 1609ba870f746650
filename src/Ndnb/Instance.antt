-- ===== src/Ndnb/Instance.antt =====
-- A small format with functions that obey Appends and Decodes: 1 and a number begin an element, 0
-- ends it, 2 and a size stand before bytes, 3 (or 4, if it is negative) before a number.
pub mod Laws
pub mod Names
use py_ccn.Base.{
  ℕ, zero, suc, ◌+◌, ◌≤◌, ◌≡◌, ◌≢◌, refl, sym, ap, ◌∙◌, Bool, true, false, Option, none, some, List,
  [], ◌∷◌, ◌++◌, append_assoc, ◌==◌, if◌then◌else◌, Bytes, length, length-append, take, drop,
  take-append, drop-append, get_elem?, arith, Bool-cases, inl, inr, ◌-◌,
}
use mathlib.Core.Option
use py_ccn.Wire.Instance.{unary_lib}
use py_ccn.Base.Int.{ℤ, pos, negsuc}
use py_ccn.Ndnb.{
  Dtag, interest, name, min_suffix_components, max_suffix_components, publisher_public_key_digest,
  child_selector, answer_origin_kind, scope, interest_lifetime, nonce, exclude, any, component,
  signature, digest_algorithm, witness, signature_bits, signed_info, timestamp, content_type,
  freshness_seconds, final_block_id, key_locator, key_name, key, certificate, Encoder, Appends,
  BufDecoder, Decodes, be_value,
}

abbrev tags : List Dtag
tags =
    interest ∷ name ∷ min_suffix_components ∷ max_suffix_components ∷ publisher_public_key_digest
    ∷ child_selector ∷ answer_origin_kind ∷ scope ∷ interest_lifetime ∷ nonce ∷ exclude ∷ any
    ∷ component ∷ signature ∷ digest_algorithm ∷ witness ∷ signature_bits ∷ signed_info ∷ timestamp
    ∷ content_type ∷ freshness_seconds ∷ final_block_id ∷ key_locator ∷ key_name ∷ key ∷ certificate
    ∷ []

abbrev pub tag_of : Dtag → ℕ
tag_of interest = 0
tag_of name = 1
tag_of min_suffix_components = 2
tag_of max_suffix_components = 3
tag_of publisher_public_key_digest = 4
tag_of child_selector = 5
tag_of answer_origin_kind = 6
tag_of scope = 7
tag_of interest_lifetime = 8
tag_of nonce = 9
tag_of exclude = 10
tag_of any = 11
tag_of component = 12
tag_of signature = 13
tag_of digest_algorithm = 14
tag_of witness = 15
tag_of signature_bits = 16
tag_of signed_info = 17
tag_of timestamp = 18
tag_of content_type = 19
tag_of freshness_seconds = 20
tag_of final_block_id = 21
tag_of key_locator = 22
tag_of key_name = 23
tag_of key = 24
tag_of certificate = 25

elem-tag_of : (t : Dtag) → get_elem? tags (tag_of t) ≡ some t
elem-tag_of interest = refl
elem-tag_of _ = refl

pub tag_of_differs : (t u : Dtag) → t ≢ u → (tag_of u == tag_of t) ≡ false
tag_of_differs t u ne = elim (Bool-cases (tag_of u == tag_of t)) [
  | inl e ↦
      let same : tag_of u ≡ tag_of t = ground (arith, e) in
      absurd (
        ne (
          let p : some t ≡ some u =
            sym (elem-tag_of t) ∙ ap (get_elem? tags) (sym same) ∙ elem-tag_of u in
          cc))
  | inr e ↦ e
]

abbrev pub number_tail : ℤ → Bytes
number_tail (pos n) = 3 ∷ n ∷ 0 ∷ []
number_tail (negsuc n) = 4 ∷ n ∷ 0 ∷ []

abbrev pub tail_of : Bytes → Bytes
tail_of b = 2 ∷ length b ∷ (b ++ (0 ∷ []))

abbrev pub small : Encoder
small = record {
  append_tt = λ cb t. some (cb ++ (1 ∷ tag_of t ∷ []));
  append_closer = λ cb. some (cb ++ (0 ∷ []));
  append_charbuf = λ cb b. some (cb ++ b);
  tagged_blob = λ cb t b. some (cb ++ (1 ∷ tag_of t ∷ tail_of b));
  tagged_putf = λ cb t n. some (cb ++ (1 ∷ tag_of t ∷ number_tail n));
}

abbrev pub small_laws : Appends small
small_laws = record {
  tt_bytes = λ t. 1 ∷ tag_of t ∷ [];
  closer_bytes = 0 ∷ [];
  blob_bytes = λ t b. 1 ∷ tag_of t ∷ tail_of b;
  putf_bytes = λ t n. 1 ∷ tag_of t ∷ number_tail n;
  append_tt = λ cb t. refl;
  append_closer = λ cb. refl;
  append_charbuf = λ cb b. refl;
  tagged_blob = λ cb t b. refl;
  tagged_putf = λ cb t n. refl;
}

-- What is left of the buffer, how many bytes have been passed, and whether all went well.
pub record Cursor : Type 0 where
  pub left : Bytes
  pub index : ℕ
  pub good : Bool

abbrev pub opens : Dtag → Bytes → Bool
opens t (suc zero ∷ x ∷ xs) = x == tag_of t
opens t _ = false

abbrev pub moved_to : Cursor → ℕ → Bytes → Cursor
moved_to c n xs = record c { left = xs; index = c.index + n }

abbrev pub failed : Cursor → Cursor
failed c = record c { good = false }

-- Past a tag, a size, bytes and the closer.
abbrev pub eat_blob : Cursor → Bytes → Cursor
eat_blob c (a ∷ t ∷ b ∷ n ∷ xs) = moved_to c (n + 5) (drop (n + 1) xs)
eat_blob c _ = failed c

abbrev pub blob_of : Bytes → Bytes
blob_of (a ∷ t ∷ b ∷ n ∷ xs) = take n xs
blob_of _ = []

-- Past a tag and a number that is not negative.
abbrev pub eat_number : Cursor → Bytes → Option ℕ × Cursor
eat_number c (a ∷ t ∷ b ∷ n ∷ z ∷ xs) = (some n, moved_to c 5 xs)
eat_number c _ = (none, failed c)

-- What follows an element, at a depth of nested elements.
unfoldable pub skip : (fuel nest : ℕ) → Bytes → Option Bytes
skip zero nest xs = none
skip (suc fuel) nest (zero ∷ xs) = elim nest [
  | zero ↦ none
  | suc zero ↦ some xs
  | suc (suc k) ↦ skip fuel (suc k) xs
]
skip (suc fuel) nest (suc zero ∷ t ∷ xs) = skip fuel (suc nest) xs
skip (suc fuel) nest (suc (suc zero) ∷ n ∷ xs) = skip fuel nest (drop n xs)
skip (suc fuel) nest (_ ∷ n ∷ xs) = skip fuel nest xs
skip (suc fuel) nest _ = none

-- The size of a name that stands first.
abbrev pub last : List ℕ → ℕ
last [] = 0
last (o ∷ []) = o
last (o ∷ p ∷ os) = last (p ∷ os)

abbrev pub name_size : Bytes → Option ℕ
name_size buf = Option.map (λ os. last os + 1) (unary_lib.name_split buf)

abbrev pub past : Cursor → Option Bytes → Bool × Cursor
past c none = (false, failed c)
past c (some rest) = (true, moved_to c (length c.left - length rest) rest)

abbrev pub past_name : Cursor → Option ℕ → Bool × Cursor
past_name c none = (false, failed c)
past_name c (some n) = (true, moved_to c n (drop n c.left))

abbrev closed : Cursor → Bytes → Cursor
closed c (zero ∷ xs) = moved_to c 1 xs
closed c _ = failed c

abbrev pub cursor : BufDecoder Cursor
cursor = record {
  start = λ buf. record { left = buf; index = 0; good = true };
  token_index = λ c. c.index;
  state_ok = λ c. c.good;
  match_dtag = λ c t. opens t c.left;
  advance = λ c. moved_to c 2 (drop 2 c.left);
  check_close = λ c. closed c c.left;
  advance_past_element = λ c. past c (skip (length c.left) 0 c.left);
  parse_name = λ c. past_name c (name_size c.left);
  optional_blob = λ c t least most. if opens t c.left then eat_blob c c.left else c;
  required_blob =
      λ c t least most. if opens t c.left then (true, eat_blob c c.left) else (false, failed c);
  optional_binary = λ c t least most default.
      if opens t c.left
      then (pos (be_value 0 (blob_of c.left)), eat_blob c c.left)
      else (pos default, c);
  optional_number = λ c t. if opens t c.left then eat_number c c.left else (none, c);
  ref_blob = λ t buf start stop. if start == stop then none else some (blob_of (drop start buf));
}
