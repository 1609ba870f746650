-- ===== src/Wire.antt =====
-- The encoded names that the bindings exchange with the ndn library: the layout that the library
-- documents for ndnb, its functions on names, and what is relied on of them.
pub mod Layout
pub mod Instance
use py_ccn.Base.{none, ℕ, suc, ◌+◌, ◌≤◌, ◌<◌, ◌≡◌, Option, some, List, [], ◌∷◌, ◌++◌, length, Bytes}

-- NDN_DTAG_Name and NDN_DTAG_Component, each a header of one byte.
abbrev pub name_tag : ℕ
name_tag = 0xf2

abbrev pub comp_tag : ℕ
comp_tag = 0xfa

-- A header is bytes below 128 and then one byte from 128 on.
abbrev pub IsHeader : Bytes → Type 0
IsHeader [] = ⊥
IsHeader (b ∷ []) = 128 ≤ b
IsHeader (b ∷ b' ∷ bs) = (b < 128) × IsHeader (b' ∷ bs)

-- `header n` is the header of a blob of n bytes.
module _ (header : ℕ → Bytes) where
  -- The tag, the header of the value, the value and the closer.
  unfoldable pub encode_comp : Bytes → Bytes
  encode_comp c = comp_tag ∷ (header (length c) ++ (c ++ (0 ∷ [])))

  unfoldable pub encode_comps : List Bytes → Bytes
  encode_comps [] = []
  encode_comps (c ∷ cs) = encode_comp c ++ encode_comps cs

  unfoldable pub encode_name : List Bytes → Bytes
  encode_name cs = name_tag ∷ (encode_comps cs ++ (0 ∷ []))

  -- The offset of each component, and of the end of the last one.
  unfoldable pub offsets_from : ℕ → List Bytes → List ℕ
  offsets_from o [] = o ∷ []
  offsets_from o (c ∷ cs) = o ∷ offsets_from (o + length (encode_comp c)) cs

  unfoldable pub comp_offsets : List Bytes → List ℕ
  comp_offsets cs = offsets_from 1 cs

  -- Where the value of the component behind `front` begins.
  unfoldable pub value_offset : (front : List Bytes) → Bytes → ℕ
  value_offset front c = 2 + length (encode_comps front) + length (header (length c))

-- The functions of ndn on an encoded name. `name_split` gives the offset of each component and of
-- the end of the last one; `comp_get` the offset and the size of the value of one component.
pub record NameLib : Type 0 where
  pub name_init : Bytes
  pub name_split : Bytes → Option (List ℕ)
  pub comp_get : Bytes → List ℕ → ℕ → Option (ℕ × ℕ)
  pub name_append : Bytes → Bytes → Option Bytes

-- What they do on a well-formed name.
pub record NameLaws (header : ℕ → Bytes) (lib : NameLib) : Type 0 where
  pub header-IsHeader : (n : ℕ) → IsHeader (header n)
  pub init-encode : lib.name_init ≡ encode_name header []
  pub split-encode :
      (cs : List Bytes) → lib.name_split (encode_name header cs) ≡ some (comp_offsets header cs)
  pub comp_get-encode :
      (front : List Bytes) (c : Bytes) (back : List Bytes)
      → lib.comp_get
          (encode_name header (front ++ (c ∷ back)))
          (comp_offsets header (front ++ (c ∷ back)))
          (length front)
        ≡ some (value_offset header front c, length c)
  pub comp_get-end :
      (cs : List Bytes)
      → lib.comp_get (encode_name header cs) (comp_offsets header cs) (length cs) ≡ none
  pub append-encode :
      (cs : List Bytes) (c : Bytes)
      → lib.name_append (encode_name header cs) c ≡ some (encode_name header (cs ++ (c ∷ [])))
