-- ===== src/SignedInfo/RoundTrip.antt =====
-- SignedInfo_to_ndn() and then SignedInfo_obj_from_ndn() of csrc/methods_signedinfo.c.
use py_ccn.Base.{
  ℕ, ◌/◌, ◌%◌, ◌^◌, ◌≤◌, ◌<◌, ◌≡◌, refl, false, Option, none, some, [], ◌∷◌, ◌++◌, Bytes, length,
  ◌==◌, if◌then◌else◌, inl, inr, Bool-cases, arith,
}
use py_ccn.Base.Int.{ℤ, pos, negsuc}
use py_ccn.Base.Run.{Run, ok}
use mathlib.Core.Option
use py_ccn.Wire.{NameLib}
use py_ccn.Ndnb.{Encoder, Appends, BufDecoder, Decodes}
use py_ccn.Ndnb.Fields.{NonEmpty}
use py_ccn.Ndnb.Numbers.{OptionFits}
use py_ccn.KeyLocator.{KeyLib}
use py_ccn.SignedInfo.{
  SignedInfoLib, Argument, not_given, given, final_block_charbuf, locator_argument,
  signed_info_to_ndn,
}
use py_ccn.SignedInfo.Decode.{Info, IsInfo, info_bytes}

abbrev pub argument : Option Bytes → Argument Bytes
argument none = not_given
argument (some b) = given b

-- The type stands in three bytes, and not at all if it is the one that is taken for granted.
abbrev pub kind_bytes : (content_data type : ℕ) → Option Bytes
kind_bytes content_data type =
    if type == content_data
    then none
    else some ((type / 65536 % 256) ∷ (type / 256 % 256) ∷ (type % 256) ∷ [])

kind-fits : (content_data type : ℕ) → OptionFits 3 3 (kind_bytes content_data type)
kind-fits content_data type = elim (Bool-cases (type == content_data)) [
  | inl e ↦ rw e tt
  | inr e ↦ rw e (omega arith, omega arith)
]

-- A freshness below zero is none.
abbrev pub freshness_of : ℤ → Option ℕ
freshness_of (pos n) = some n
freshness_of (negsuc n) = none

-- What the caller gives; `type` is an int that is not negative.
pub record Given : Type 0 where
  pub digest : Bytes
  pub type : ℕ
  pub freshness : ℤ
  pub final_block : Option Bytes
  pub locator : Option Bytes

module _ {D K P : Type 0} (enc : Encoder) (law : Appends enc) (dec : BufDecoder D)
    (reads : Decodes enc law dec) (lib : NameLib) (keys : KeyLib K) (key_obj : K → Run P)
    (content_data : ℕ) (now : Bytes) where
  abbrev pub info_of : Given → Info
  info_of g = record {
    digest = g.digest;
    timestamp = now;
    kind = kind_bytes content_data g.type;
    freshness = freshness_of g.freshness;
    final_block = g.final_block;
    locator = g.locator;
  }

  pub record IsGiven (g : Given) : Type 0 where
    pub digest_fits : (16 ≤ length g.digest) × (length g.digest ≤ 64)
    pub now_fits : 1 ≤ length now
    pub type_fits : g.type < 2 ^ 24
    pub final_fits : NonEmpty g.final_block

  pub info_of-IsInfo : (g : Given) → IsGiven g → IsInfo (info_of g)
  info_of-IsInfo g is = record {
    digest_fits = is.digest_fits;
    timestamp_fits = is.now_fits;
    kind_fits = kind-fits content_data g.type;
    final_fits = is.final_fits;
  }

  -- ndn_signed_info_create() writes its arguments and the current time. The charbuf of the final block
  -- has the header of a blob in front.
  pub record Creates (create_lib : SignedInfoLib) : Type 0 where
    pub blob_header : ℕ → Bytes
    pub append_blob_tt-header : (n : ℕ) → create_lib.append_blob_tt [] n ≡ some (blob_header n)
    pub create-info_of :
        (g : Given)
        → create_lib.create g.digest
            (pos g.type)
            g.freshness
            (Option.map (λ s. blob_header (length s) ++ s) g.final_block)
            g.locator
          ≡ some (info_bytes enc law dec reads lib keys key_obj (info_of g))

  module _ (create_lib : SignedInfoLib) (creates : Creates create_lib) where
    final_block_lem :
        (final : Option Bytes)
        → final_block_charbuf enc create_lib (argument final)
          ≡ ok (Option.map (λ s. creates.blob_header (length s) ++ s) final)
    unfolding final_block_charbuf
    final_block_lem none = refl
    final_block_lem (some s) =
        rw
          (
            creates.append_blob_tt-header (length s),
            law.append_charbuf (creates.blob_header (length s)) s,
          )
          refl

    locator_lem : (l : Option Bytes) → locator_argument enc create_lib (argument l) ≡ ok l
    unfolding locator_argument
    locator_lem none = refl
    locator_lem (some l) = refl

    -- What SignedInfo_to_ndn() makes of its arguments, with memory enough.
    pub signed_info_to_ndn-info_of :
        (g : Given)
        → signed_info_to_ndn enc create_lib
            (some g.digest)
            (pos g.type)
            false
            g.freshness
            (argument g.final_block)
            (argument g.locator)
          ≡ ok (info_bytes enc law dec reads lib keys key_obj (info_of g))
    unfolding signed_info_to_ndn
    signed_info_to_ndn-info_of g =
        rw (final_block_lem g.final_block, locator_lem g.locator, creates.create-info_of g) refl
