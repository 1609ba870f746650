-- ===== src/Name/Decode.antt =====
-- name_comps_from_ndn() on well-formed names.
use py_ccn.Base.{
  ℕ, zero, suc, ◌+◌, ◌-◌, ◌≤◌, ◌≡◌, refl, sym, List, [], ◌∷◌, ◌++◌, append_assoc, arith, length,
  drop, length-append, drop-append_add, Bytes, read-front,
}
use py_ccn.Base.Run.{ok}
use py_ccn.Wire.{name_tag, IsHeader, encode_comp, encode_comps, encode_name, offsets_from}
use py_ccn.Wire.{comp_offsets, NameLib, NameLaws}
use py_ccn.Name.{walk_header, component_at, components_at, name_comps_from_ndn}

-- The walk ends behind the header, and `h` has counted all its bytes but one.
walk_header-append :
    (hd r : Bytes) (rounds h : ℕ)
    → IsHeader hd
    → length hd ≤ rounds
    → walk_header rounds h (hd ++ r) ≡ ok (h + length hd - 1, r)
unfolding walk_header
walk_header-append [] r rounds h i le = absurd i
walk_header-append (b ∷ []) r zero h i le = absurd (omega arith)
walk_header-append (b ∷ []) r (suc rounds) h i le = ground arith
walk_header-append (b ∷ b' ∷ bs) r zero h i le = absurd (omega arith)
walk_header-append (b ∷ b' ∷ bs) r (suc rounds) h (small, i) le =
    ground (arith, walk_header-append (b' ∷ bs) r rounds (h + 1) i (omega arith))

components_at-cons :
    (buf : Bytes) (o o' : ℕ) (r : List ℕ) (c : Bytes) (cs : List Bytes)
    → component_at buf o o' ≡ ok c
    → components_at buf (o' ∷ r) ≡ ok cs
    → components_at buf (o ∷ (o' ∷ r)) ≡ ok (c ∷ cs)
unfolding components_at
components_at-cons buf o o' r c cs e f = rw (e, components_at) (rw f)

offsets_from-head :
    (header : ℕ → Bytes) (o : ℕ) (cs : List Bytes)
    → (r : List ℕ) × (offsets_from header o cs ≡ o ∷ r)
unfolding offsets_from
offsets_from-head header o [] = ([], refl)
offsets_from-head header o (c ∷ cs) = (_, refl)

regroup : (a b c : Bytes) → a ++ ((b ++ c) ++ (0 ∷ [])) ≡ (a ++ b) ++ (c ++ (0 ∷ []))
regroup a b c = simp append_assoc

IsHeader-pos : (hd : Bytes) → IsHeader hd → 1 ≤ length hd
IsHeader-pos [] i = absurd i
IsHeader-pos (b ∷ bs) i = omega arith

module _ (header : ℕ → Bytes) (is : (n : ℕ) → IsHeader (header n)) where
  length-encode_comp :
      (c : Bytes) → length (encode_comp header c) ≡ 2 + length (header (length c)) + length c
  unfolding encode_comp
  length-encode_comp c =
      omega (arith, length-append (header (length c)) (c ++ (0 ∷ [])), length-append c (0 ∷ []))

  module _ (before c after : Bytes) (start stop : ℕ) (e : start ≡ length before)
      (f : stop ≡ start + length (encode_comp header c)) where
    drop-tag :
        drop (start + 1) (before ++ (encode_comp header c ++ after))
        ≡ header (length c) ++ (c ++ (0 ∷ after))
    unfolding encode_comp
    drop-tag =
        rw (drop-append_add before (encode_comp header c ++ after) (start + 1) 1 (omega arith))
          (simp append_assoc)

    walk-tag :
        walk_header (stop - start - 2) 2 (header (length c) ++ (c ++ (0 ∷ after)))
        ≡ ok (2 + length (header (length c)) - 1, c ++ (0 ∷ after))
    walk-tag =
        walk_header-append (header (length c)) (c ++ (0 ∷ after)) (stop - start - 2) 2
          (is (length c)) (omega (arith, length-encode_comp c))

    component_at-encode : component_at (before ++ (encode_comp header c ++ after)) start stop ≡ ok c
    unfolding component_at
    component_at-encode = ground (
      arith,
      drop-tag,
      walk-tag,
      length-encode_comp c,
      IsHeader-pos (header (length c)) (is (length c)),
      read-front c (0 ∷ after) (stop - start - 1 - (2 + length (header (length c)) - 1)),
    )

  components_at-encode :
      (before : Bytes) (cs : List Bytes) (o : ℕ)
      → o ≡ length before
      → components_at (before ++ (encode_comps header cs ++ (0 ∷ []))) (offsets_from header o cs)
        ≡ ok cs
  unfolding offsets_from encode_comps
  components_at-encode before [] o e = unfold components_at in refl
  components_at-encode before (c ∷ cs) o e =
      let (r, head) = offsets_from-head header (o + length (encode_comp header c)) cs in
      rw head (
        components_at-cons _ o (o + length (encode_comp header c)) r c cs
          (rw (append_assoc (encode_comp header c) (encode_comps header cs) (0 ∷ []))
            (component_at-encode before c (encode_comps header cs ++ (0 ∷ [])) o _ e refl))
          (rw (regroup before (encode_comp header c) (encode_comps header cs), sym head)
            (components_at-encode (before ++ encode_comp header c) cs _
              (omega (arith, length-append before (encode_comp header c))))))

-- Every well-formed name is read back as its components.
pub name_comps_from_ndn-encode :
    (header : ℕ → Bytes) (lib : NameLib)
    → NameLaws header lib
    → (cs : List Bytes) → name_comps_from_ndn lib (encode_name header cs) ≡ ok cs
unfolding name_comps_from_ndn encode_name comp_offsets
name_comps_from_ndn-encode header lib laws cs =
    rw (laws.split-encode cs, name_comps_from_ndn)
      (components_at-encode header laws.header-IsHeader (name_tag ∷ []) cs 1 refl)
