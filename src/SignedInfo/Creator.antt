-- ===== src/SignedInfo/Creator.antt =====
-- A concrete ndn_signed_info_create() in the small format of Ndnb/Instance, at the time 80 81, which
-- shows that the laws of SignedInfo/RoundTrip can hold.
use py_ccn.Base.{ℕ, ◌≡◌, refl, Option, none, some, [], ◌∷◌, ◌++◌, Bytes, length}
use py_ccn.Base.Int.{ℤ, pos, negsuc}
use py_ccn.Base.Run.{Run}
use mathlib.Core.Option
use py_ccn.Wire.Instance.{unary_lib}
use py_ccn.Ndnb.{
  signed_info, publisher_public_key_digest, timestamp, content_type, freshness_seconds,
  final_block_id,
}
use py_ccn.Ndnb.Fields.{optional_bytes}
use py_ccn.Ndnb.Numbers.{optional_number}
use py_ccn.Ndnb.Instance.{small, small_laws, cursor}
use py_ccn.Ndnb.Instance.Laws.{small_reads}
use py_ccn.KeyLocator.{KeyLib}
use py_ccn.SignedInfo.{SignedInfoLib}
use py_ccn.SignedInfo.Decode.{raw}
use py_ccn.SignedInfo.RoundTrip.{kind_bytes, freshness_of, Creates}

abbrev pub final_element : Option Bytes → Bytes
final_element none = []
final_element (some cb) = small_laws.tt_bytes final_block_id ++ (cb ++ small_laws.closer_bytes)

abbrev pub create :
    (content_data : ℕ) → Bytes → (type freshness : ℤ) → Option Bytes → Option Bytes → Option Bytes
create content_data digest (negsuc type) freshness final l = none
create content_data digest (pos type) freshness final l = some (
    small_laws.tt_bytes signed_info
    ++ (small_laws.blob_bytes publisher_public_key_digest digest
        ++ (small_laws.blob_bytes timestamp (80 ∷ 81 ∷ [])
            ++ (optional_bytes small_laws content_type (kind_bytes content_data type)
                ++ (optional_number small_laws freshness_seconds (freshness_of freshness)
                    ++ (final_element final ++ (raw l ++ small_laws.closer_bytes)))))))

abbrev pub creator : ℕ → SignedInfoLib
creator content_data = record {
  append_blob_tt = λ cb n. some (cb ++ (2 ∷ n ∷ []));
  create = create content_data;
}

final_element_lem :
    (final : Option Bytes)
    → final_element (Option.map (λ s. 2 ∷ length s ∷ s) final)
      ≡ optional_bytes small_laws final_block_id final
final_element_lem none = refl
final_element_lem (some s) = refl

pub creator-Creates :
    {K P : Type 0} (keys : KeyLib K) (key_obj : K → Run P) (content_data : ℕ)
    → Creates small small_laws cursor small_reads unary_lib keys key_obj content_data
        (80 ∷ 81 ∷ [])
        (creator content_data)
creator-Creates keys key_obj content_data = record {
  blob_header = λ n. 2 ∷ n ∷ [];
  append_blob_tt-header = λ n. refl;
  create-info_of = λ g. rw (final_element_lem g.final_block) refl;
}
