-- ===== src/Name/Buffer.antt =====
-- The decoder on a buffer, which asks ndn for each component.
use py_ccn.Base.{
  ℕ, zero, suc, ◌<◌, ◌≡◌, ap, ◌∙◌, List, [], ◌∷◌, ◌++◌, append_assoc, append-nil, arith, length,
  length-append, take-length, Bytes, read,
}
use py_ccn.Base.Run.{ok}
use py_ccn.Wire.{encode_name, comp_offsets, NameLib, NameLaws, value_offset}
use py_ccn.Wire.Layout.{read-value, length-offsets_from}
use py_ccn.Name.{comp_get_loop, name_comps_from_buffer}

module _ (header : ℕ → Bytes) (lib : NameLib) (laws : NameLaws header lib) where
  read-whole :
      (front : List Bytes) (c : Bytes) (back : List Bytes)
      → read (encode_name header (front ++ (c ∷ back))) (value_offset header front c) (length c)
        ≡ ok c
  read-whole front c back =
      read-value header front c back (length c) (omega arith) ∙ ap ok (take-length c)

  comp_get_loop-encode :
      (front back : List Bytes) (fuel : ℕ)
      → length back < fuel
      → comp_get_loop lib
          (encode_name header (front ++ back))
          (comp_offsets header (front ++ back))
          fuel
          (length front)
        ≡ ok back
  unfolding comp_get_loop
  comp_get_loop-encode front back zero h = absurd (omega arith)
  comp_get_loop-encode front [] (suc fuel) h =
      rw append-nil (rw (laws.comp_get-end front, comp_get_loop))
  comp_get_loop-encode front (c ∷ back) (suc fuel) h = ground (
    arith,
    laws.comp_get-encode front c back,
    read-whole front c back,
    append_assoc front (c ∷ []) back,
    length-append front (c ∷ []),
    comp_get_loop-encode (front ++ (c ∷ [])) back fuel,
  )

  -- On a well-formed name it gives the components, whatever a failed split would leave.
  pub name_comps_from_buffer-encode :
      (left : List ℕ) (cs : List Bytes)
      → name_comps_from_buffer lib left (encode_name header cs) ≡ ok cs
  unfolding name_comps_from_buffer comp_offsets
  name_comps_from_buffer-encode left cs =
      rw (laws.split-encode cs, name_comps_from_buffer)
        (comp_get_loop-encode [] cs _ (omega (arith, length-offsets_from header 1 cs)))
