-- ===== src/Wire/Instance.antt =====
-- A small implementation of the functions of ndn on names, which shows that the laws of NameLaws
-- can hold. Its headers count in ones: a value of n bytes has n bytes 0 and a byte 128 before it.
use py_ccn.Base.{
  ℕ, zero, suc, ◌+◌, ◌-◌, ◌*◌, ◌≤◌, ◌<◌, ◌≡◌, refl, ap, ◌∙◌, Option, none, some, List, [], ◌∷◌,
  ◌++◌, append_assoc, arith, ltb, ◌==◌, if◌then◌else◌, length, take, drop, get_elem?, length-append,
  take-append, drop-append, drop-append_add, append-nil, Bytes,
}
use py_ccn.Wire.{name_tag, comp_tag, IsHeader, encode_comp, encode_comps, encode_name}
use py_ccn.Wire.{offsets_from, comp_offsets, value_offset, NameLib, NameLaws}
use py_ccn.Wire.Layout.{encode_comps-append, length-offsets_from}
use mathlib.Core.Option

unfoldable pub unary : ℕ → Bytes
unary zero = 128 ∷ []
unary (suc n) = 0 ∷ unary n

unary-IsHeader : (n : ℕ) → IsHeader (unary n)
unfolding unary
unary-IsHeader zero = omega arith
unary-IsHeader (suc zero) = omega arith
unary-IsHeader (suc (suc n)) = (omega arith, unary-IsHeader (suc n))

pub length-unary : (n : ℕ) → length (unary n) ≡ n + 1
unfolding unary
length-unary zero = refl
length-unary (suc n) = omega (arith, length-unary n)

-- The value of a header at the front of a buffer.
unfoldable pub count_zeros : Bytes → ℕ
count_zeros [] = 0
count_zeros (b ∷ bs) = if b == 0 then suc (count_zeros bs) else 0

count_zeros-unary : (n : ℕ) (r : Bytes) → count_zeros (unary n ++ r) ≡ n
unfolding unary count_zeros
count_zeros-unary zero r = refl
count_zeros-unary (suc n) r = ap suc (count_zeros-unary n r)

unfoldable pub split_from : ℕ → ℕ → Bytes → Option (List ℕ)
split_from zero o buf = none
split_from (suc fuel) o [] = none
split_from (suc fuel) o (b ∷ bs) =
    let n = count_zeros bs in
    let rest = split_from fuel (o + (2 * n + 3)) (drop (2 * n + 2) bs) in
    if b == comp_tag then Option.map (λ os. o ∷ os) rest else some (o ∷ [])

unfoldable pub unary_lib : NameLib
unfolding split_from count_zeros
unary_lib = record {
  name_init = name_tag ∷ 0 ∷ [];
  name_split = λ buf. split_from (length buf) 1 (drop 1 buf);
  comp_get = λ buf idx i. Option.bind (get_elem? idx i) (λ o.
      let n = count_zeros (drop (suc o) buf) in
      if ltb (i + 1) (length idx) then some (o + 2 + n, n) else none);
  name_append = λ buf c. some (take (length buf - 1) buf ++ (encode_comp unary c ++ (0 ∷ [])));
}

-- What follows the tag of a component.
abbrev body : Bytes → Bytes
body c = unary (length c) ++ (c ++ (0 ∷ []))

count_zeros-body : (c r : Bytes) → count_zeros (body c ++ r) ≡ length c
count_zeros-body c r =
    rw (append_assoc (unary (length c)) (c ++ (0 ∷ [])) r) (count_zeros-unary (length c) _)

length-body : (c : Bytes) → 2 * length c + 2 ≡ length (body c)
length-body c = omega (
  arith,
  length-append (unary (length c)) (c ++ (0 ∷ [])),
  length-append c (0 ∷ []),
  length-unary (length c),
)

split_from-comp :
    (fuel o : ℕ) (c r : Bytes)
    → split_from (suc fuel) o (encode_comp unary c ++ r)
      ≡ Option.map (λ os. o ∷ os) (split_from fuel (o + length (encode_comp unary c)) r)
unfolding split_from encode_comp
split_from-comp fuel o c r =
    rw (count_zeros-body c r, drop-append (body c) r _ (length-body c))
      (ap (λ k. Option.map (λ os. o ∷ os) (split_from fuel (o + k) r))
        (omega (arith, length-body c)))

pub split_from-encode :
    (cs : List Bytes) (fuel o : ℕ) (rest : Bytes)
    → length cs < fuel
    → split_from fuel o (encode_comps unary cs ++ (0 ∷ rest)) ≡ some (offsets_from unary o cs)
unfolding encode_comps offsets_from
split_from-encode cs zero o rest h = absurd (omega arith)
split_from-encode [] (suc fuel) o rest h = unfold split_from in refl
split_from-encode (c ∷ cs) (suc fuel) o rest h = rw (
  append_assoc (encode_comp unary c) (encode_comps unary cs) (0 ∷ rest),
  split_from-comp fuel o c (encode_comps unary cs ++ (0 ∷ rest)),
  split_from-encode cs fuel (o + length (encode_comp unary c)) rest (omega arith),
)

pub length-encode_comps : (cs : List Bytes) → length cs ≤ length (encode_comps unary cs)
unfolding encode_comps encode_comp
length-encode_comps [] = omega arith
length-encode_comps (c ∷ cs) =
    omega
      (arith, length-append (encode_comp unary c) (encode_comps unary cs), length-encode_comps cs)

unary-split :
    (cs : List Bytes) → unary_lib.name_split (encode_name unary cs) ≡ some (comp_offsets unary cs)
unfolding unary_lib encode_name comp_offsets
unary-split cs =
    split_from-encode cs (length (encode_name unary cs)) 1 []
      (omega (arith, length-encode_comps cs, length-append (encode_comps unary cs) (0 ∷ [])))

get_elem?-offsets :
    (o : ℕ) (front : List Bytes) (c : Bytes) (back : List Bytes)
    → get_elem? (offsets_from unary o (front ++ (c ∷ back))) (length front)
      ≡ some (o + length (encode_comps unary front))
unfolding offsets_from encode_comps
get_elem?-offsets o [] c back = ap some (omega arith)
get_elem?-offsets o (x ∷ xs) c back =
    get_elem?-offsets (o + length (encode_comp unary x)) xs c back
    ∙ ap some (omega (arith, length-append (encode_comp unary x) (encode_comps unary xs)))

drop-front :
    (front : List Bytes) (c : Bytes) (back : List Bytes)
    → drop (suc (1 + length (encode_comps unary front))) (encode_name unary (front ++ (c ∷ back)))
      ≡ body c ++ (encode_comps unary back ++ (0 ∷ []))
unfolding encode_name
drop-front front c back =
    rw
      (
        encode_comps-append unary front (c ∷ back),
        append_assoc (encode_comps unary front) (encode_comps unary (c ∷ back)) (0 ∷ []),
        drop-append_add (encode_comps unary front) (encode_comps unary (c ∷ back) ++ (0 ∷ []))
            (1 + length (encode_comps unary front)) 1 (omega arith),
      )
      (unfold encode_comps encode_comp in append_assoc (body c) (encode_comps unary back) (0 ∷ []))

unary-comp_get :
    (front : List Bytes) (c : Bytes) (back : List Bytes)
    → unary_lib.comp_get
        (encode_name unary (front ++ (c ∷ back)))
        (comp_offsets unary (front ++ (c ∷ back)))
        (length front)
      ≡ some (value_offset unary front c, length c)
unfolding unary_lib comp_offsets value_offset Option.bind encode_comps
unary-comp_get front c back =
    rw
      (
        get_elem?-offsets 1 front c back,
        drop-front front c back,
        count_zeros-body c (encode_comps unary back ++ (0 ∷ [])),
      )
      (ground (
        arith,
        length-offsets_from unary 1 (front ++ (c ∷ back)),
        length-append front (c ∷ back),
        length-unary (length c),
      ))

get_elem?-end :
    (o : ℕ) (cs : List Bytes)
    → get_elem? (offsets_from unary o cs) (length cs) ≡ some (o + length (encode_comps unary cs))
unfolding offsets_from encode_comps
get_elem?-end o [] = ap some (omega arith)
get_elem?-end o (c ∷ cs) =
    get_elem?-end (o + length (encode_comp unary c)) cs
    ∙ ap some (omega (arith, length-append (encode_comp unary c) (encode_comps unary cs)))

unary-end :
    (cs : List Bytes)
    → unary_lib.comp_get (encode_name unary cs) (comp_offsets unary cs) (length cs) ≡ none
unfolding unary_lib comp_offsets Option.bind
unary-end cs = rw (get_elem?-end 1 cs) (ground (arith, length-offsets_from unary 1 cs))

unary-append :
    (cs : List Bytes) (c : Bytes)
    → unary_lib.name_append (encode_name unary cs) c ≡ some (encode_name unary (cs ++ (c ∷ [])))
unfolding unary_lib encode_name
unary-append cs c = ap some (
    rw
      (
        take-append (name_tag ∷ encode_comps unary cs) (0 ∷ []) (length (encode_name unary cs) - 1)
            (omega (arith, length-append (encode_comps unary cs) (0 ∷ []))),
        encode_comps-append unary cs (c ∷ []),
      )
      (unfold encode_comps in simp (append_assoc, append-nil)))

pub unary_laws : NameLaws unary unary_lib
unary_laws = record {
  header-IsHeader = unary-IsHeader;
  init-encode = unfold unary_lib encode_name encode_comps in refl;
  split-encode = unary-split;
  comp_get-encode = unary-comp_get;
  comp_get-end = unary-end;
  append-encode = unary-append;
}
