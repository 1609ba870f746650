-- ===== src/Ndnb/Instance/Names.antt =====
-- Every well-formed name is a name of the small format.
use py_ccn.Base.{
  ℕ, suc, ◌+◌, ◌≤◌, ◌≡◌, ap, ◌∙◌, some, List, [], ◌∷◌, ◌++◌, append_assoc, Bytes, length,
  length-append, arith,
}
use py_ccn.Wire.{encode_name, encode_comps, offsets_from, encode_comp}
use py_ccn.Wire.Instance.{unary, unary_lib, split_from-encode, length-encode_comps}
use py_ccn.Ndnb.Instance.{last}
use py_ccn.Ndnb.Instance.Laws.{NameOf}

last-offsets_from :
    (o : ℕ) (cs : List Bytes) → last (offsets_from unary o cs) ≡ o + length (encode_comps unary cs)
unfolding offsets_from encode_comps
last-offsets_from o [] = omega arith
last-offsets_from o (c ∷ []) = omega (arith, length-append (encode_comp unary c) [])
last-offsets_from o (c ∷ d ∷ cs) =
    last-offsets_from (o + length (encode_comp unary c)) (d ∷ cs)
    ∙ omega (arith, length-append (encode_comp unary c) (encode_comps unary (d ∷ cs)))

pub encode_name-NameOf : (cs : List Bytes) → NameOf (encode_name unary cs)
unfolding encode_name unary_lib
encode_name-NameOf cs rest =
    let whole = encode_comps unary cs ++ (0 ∷ rest) in
    let same : (encode_comps unary cs ++ (0 ∷ [])) ++ rest ≡ whole =
      append_assoc (encode_comps unary cs) (0 ∷ []) rest in
    let fuel : length cs ≤ length whole =
      omega (arith, length-encode_comps cs, length-append (encode_comps unary cs) (0 ∷ rest)) in
    rw (same, split_from-encode cs (suc (length whole)) 1 rest (omega (arith, fuel)))
      (ap some
        (omega (arith, last-offsets_from 1 cs, length-append (encode_comps unary cs) (0 ∷ []))))
