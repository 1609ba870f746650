-- ===== src/Wire/Layout.antt =====
-- Reading an encoded name at the offsets of its components.
use py_ccn.Base.{
  ℕ, ◌+◌, ◌≤◌, ◌≡◌, refl, sym, ap, ◌∙◌, List, [], ◌∷◌, ◌++◌, append_assoc, append-nil, arith,
  length, take, length-append, Bytes, read, read-middle, read-front,
}
use py_ccn.Base.Run.{ok}
use py_ccn.Wire.{name_tag, comp_tag, encode_comp, encode_comps, encode_name, offsets_from}
use py_ccn.Wire.{value_offset}

module _ (header : ℕ → Bytes) where
  pub encode_comps-append :
      (xs ys : List Bytes)
      → encode_comps header (xs ++ ys) ≡ encode_comps header xs ++ encode_comps header ys
  unfolding encode_comps
  encode_comps-append [] ys = refl
  encode_comps-append (x ∷ xs) ys =
      ap (λ r. encode_comp header x ++ r) (encode_comps-append xs ys)
      ∙ sym (append_assoc (encode_comp header x) (encode_comps header xs) (encode_comps header ys))

  pub length-offsets_from :
      (o : ℕ) (cs : List Bytes) → length (offsets_from header o cs) ≡ length cs + 1
  unfolding offsets_from
  length-offsets_from o [] = omega arith
  length-offsets_from o (c ∷ cs) =
      omega (arith, length-offsets_from (o + length (encode_comp header c)) cs)

  -- A name falls into what stands before a value, the value, and what follows it.
  pub before_value : (front : List Bytes) → Bytes → Bytes
  before_value front c = name_tag ∷ (encode_comps header front ++ (comp_tag ∷ header (length c)))

  pub encode_name-split :
      (front : List Bytes) (c : Bytes) (back : List Bytes)
      → encode_name header (front ++ (c ∷ back))
        ≡ before_value front c ++ (c ++ (0 ∷ (encode_comps header back ++ (0 ∷ []))))
  unfolding encode_name encode_comps encode_comp before_value
  encode_name-split front c back = rw (encode_comps-append front (c ∷ back)) (simp append_assoc)

  pub length-before_value :
      (front : List Bytes) (c : Bytes) → length (before_value front c) ≡ value_offset header front c
  unfolding before_value value_offset
  length-before_value front c =
      omega (arith, length-append (encode_comps header front) (comp_tag ∷ header (length c)))

  pub read-value :
      (front : List Bytes) (c : Bytes) (back : List Bytes) (n : ℕ)
      → n ≤ length c
      → read (encode_name header (front ++ (c ∷ back))) (value_offset header front c) n
        ≡ ok (take n c)
  read-value front c back n h =
      rw (encode_name-split front c back)
        (read-middle (before_value front c) c _ _ n (sym (length-before_value front c)) h)

  length-through_value :
      (front : List Bytes) (c : Bytes)
      → length c + value_offset header front c + 1
        ≡ length (before_value front c ++ (c ++ (0 ∷ [])))
  length-through_value front c = omega (
    arith,
    length-append (before_value front c) (c ++ (0 ∷ [])),
    length-append c (0 ∷ []),
    length-before_value front c,
  )

  -- Everything up to the closer of a component.
  pub take-value :
      (front : List Bytes) (c : Bytes) (back : List Bytes)
      → read
          (encode_name header (front ++ (c ∷ back)))
          0
          (length c + value_offset header front c + 1)
        ≡ ok (name_tag ∷ encode_comps header (front ++ (c ∷ [])))
  unfolding encode_comps encode_comp before_value
  take-value front c back =
      rw (encode_name-split front c back, encode_comps-append front (c ∷ []))
        (rw (regroup (before_value front c) c _) (
          read-front (before_value front c ++ (c ++ (0 ∷ []))) _ _ (length-through_value front c)
          ∙ ap ok (simp (append_assoc, append-nil))))
    where
      regroup : (a b r : Bytes) → a ++ (b ++ (0 ∷ r)) ≡ (a ++ (b ++ (0 ∷ []))) ++ r
      regroup a b r = simp append_assoc
