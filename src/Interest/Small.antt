-- ===== src/Interest/Small.antt =====
-- A parser of Interests in the small format of Ndnb/Instance, which shows that the laws of
-- Interest/Layout can hold.
use py_ccn.Base.{
  ℕ, zero, suc, ◌+◌, ◌≡◌, refl, sym, ap, ◌∙◌, Bool, false, Option, none, some, List, [], ◌∷◌, ◌++◌,
  append_assoc, ◌==◌, if◌then◌else◌, Bytes, length, length-append, drop, drop-append, map, arith,
}
use py_ccn.Base.Int.{pos}
use mathlib.Core.Option.{get_or}
use py_ccn.Wire.{encode_name}
use py_ccn.Wire.Instance.{unary}
use py_ccn.Ndnb.{
  Dtag, interest, min_suffix_components, max_suffix_components, publisher_public_key_digest,
  exclude, child_selector, answer_origin_kind, scope, interest_lifetime, nonce,
}
use py_ccn.Ndnb
use py_ccn.Ndnb.Instance.{tag_of, small_laws, cursor, opens, name_size}
use py_ccn.Ndnb.Instance.Laws.{small_reads}
use py_ccn.Ndnb.Instance.Names.{encode_name-NameOf}
use py_ccn.Interest.Parse.{Decoder}
use py_ccn.Interest.Layout.{
  Payload, number, blob, Row, row_bytes, rows_bytes, rows, Fields, interest_bytes, range, Parses,
}

abbrev order : List Dtag
order =
    min_suffix_components ∷ max_suffix_components ∷ publisher_public_key_digest ∷ exclude
    ∷ child_selector ∷ answer_origin_kind ∷ scope ∷ interest_lifetime ∷ nonce ∷ []

-- The size of the blob or the number that stands first.
abbrev size : Bytes → ℕ
size (a ∷ t ∷ suc (suc zero) ∷ n ∷ xs) = n + 5
size xs = 5

abbrev size_of : Dtag → Bytes → ℕ
size_of t xs = if opens t xs then size xs else 0

-- The range of a tag, in a buffer that is passed over element by element.
abbrev scan : List Dtag → ℕ → Bytes → Dtag → ℕ × ℕ
scan [] o xs t = (o, o)
scan (u ∷ us) o xs t =
    let n = size_of u xs in
    let rest = scan us (o + n) (drop n xs) t in if tag_of u == tag_of t then (o, o + n) else rest

abbrev parse : Bytes → Bool × (Dtag → ℕ × ℕ)
parse buf =
    let n = get_or (name_size (drop 2 buf)) 0 in
    (
      opens interest buf,
      λ t. if tag_of t == 1 then (2, 2 + n) else scan order (2 + n) (drop n (drop 2 buf)) t,
    )

abbrev number_of : Bytes → Option ℕ
number_of (a ∷ t ∷ b ∷ n ∷ xs) = some n
number_of xs = none

abbrev pub small_decoder : Decoder
small_decoder = record {
  parse_interest = parse;
  fetch_number = λ t buf start stop. number_of (drop start buf);
  ref_blob = cursor.ref_blob;
}

-- No row of the tag.
abbrev Misses : Dtag → List Row → Type 0
Misses t [] = Unit {0}
Misses t ((u, p) ∷ rs) = ((tag_of u == tag_of t) ≡ false) × Misses t rs

abbrev Distinct : List Row → Type 0
Distinct [] = Unit {0}
Distinct ((t, p) ∷ rs) = Misses t rs × Distinct rs

abbrev tail : Bytes
tail = 0 ∷ []

opens-Misses :
    (t : Dtag) (rs : List Row) → Misses t rs → opens t (rows_bytes small_laws rs ++ tail) ≡ false
opens-Misses t [] m = refl
opens-Misses t ((u, none) ∷ rs) (m, ms) = opens-Misses t rs ms
opens-Misses t ((u, some (number n)) ∷ rs) (m, ms) = m
opens-Misses t ((u, some (blob b)) ∷ rs) (m, ms) = m

size_of-row :
    (t : Dtag) (p : Option Payload) (rs : List Row)
    → Misses t rs
    → size_of t (rows_bytes small_laws ((t, p) ∷ rs) ++ tail) ≡ length (row_bytes small_laws (t, p))
size_of-row t none rs m = rw (opens-Misses t rs m) refl
size_of-row t (some (number n)) rs m = ground arith
size_of-row t (some (blob b)) rs m = ground (arith, length-append b (0 ∷ []))

Misses-at :
    (t u : Dtag) (p : Option Payload) (front back : List Row)
    → Misses u (front ++ ((t, p) ∷ back))
    → (tag_of u == tag_of t) ≡ false
Misses-at t u p [] back (m, ms) = ground (arith, m)
Misses-at t u p ((v, q) ∷ front) back (m, ms) = Misses-at t u p front back ms

abbrev tags : List Row → List Dtag
tags = map (λ (r : Row). r.0)

abbrev bytes : List Row → Bytes
bytes = rows_bytes small_laws

scan-next :
    (t u : Dtag) (q : Option Payload) (rs : List Row) (o : ℕ)
    → Misses u rs
    → (tag_of u == tag_of t) ≡ false
    → scan (tags ((u, q) ∷ rs)) o (bytes ((u, q) ∷ rs) ++ tail) t
      ≡ scan (tags rs) (o + length (row_bytes small_laws (u, q))) (bytes rs ++ tail) t
scan-next t u q rs o m differ =
    rw
      (
        size_of-row u q rs m,
        differ,
        append_assoc (row_bytes small_laws (u, q)) (bytes rs) tail,
        drop-append (row_bytes small_laws (u, q)) (bytes rs ++ tail) _ refl,
      )
      refl

scan-row :
    (t : Dtag) (p : Option Payload) (front back : List Row) (o : ℕ)
    → Distinct (front ++ ((t, p) ∷ back))
    → scan (tags (front ++ ((t, p) ∷ back))) o (bytes (front ++ ((t, p) ∷ back)) ++ tail) t
      ≡ (o + length (bytes front), o + length (bytes front) + length (row_bytes small_laws (t, p)))
scan-row t p [] back o (m, d) = rw (size_of-row t p back m) (ground arith)
scan-row t p ((u, q) ∷ front) back o (m, d) =
    scan-next t u q (front ++ ((t, p) ∷ back)) o m (Misses-at t u p front back m)
    ∙ scan-row t p front back (o + length (row_bytes small_laws (u, q))) d
    ∙ ground (arith, length-append (row_bytes small_laws (u, q)) (bytes front))

rows-Distinct : (f : Fields) → Distinct (rows f)
rows-Distinct f = (
  (refl, (refl, (refl, (refl, (refl, (refl, (refl, (refl, tt)))))))),
  (
    (refl, (refl, (refl, (refl, (refl, (refl, (refl, tt))))))),
    (
      (refl, (refl, (refl, (refl, (refl, (refl, tt)))))),
      (
        (refl, (refl, (refl, (refl, (refl, tt))))),
        (
          (refl, (refl, (refl, (refl, tt)))),
          ((refl, (refl, (refl, tt))), ((refl, (refl, tt)), ((refl, tt), (tt, tt)))),
        ),
      ),
    ),
  ),
)

name-Misses : (f : Fields) → Misses Ndnb.name (rows f)
name-Misses f = (refl, (refl, (refl, (refl, (refl, (refl, (refl, (refl, (refl, tt)))))))))

abbrev whole : Fields → Bytes
whole f = interest_bytes small_laws unary f

name-passed :
    (f : Fields) → name_size (drop 2 (whole f)) ≡ some (length (encode_name unary f.comps))
name-passed f = encode_name-NameOf f.comps (bytes (rows f) ++ tail)

parse-name :
    (f : Fields) → (parse (whole f)).1 Ndnb.name ≡ (2, 2 + length (encode_name unary f.comps))
parse-name f = rw (name-passed f) refl

parse-row :
    (f : Fields) (t : Dtag) (p : Option Payload) (front back : List Row)
    → rows f ≡ front ++ ((t, p) ∷ back)
    → (parse (whole f)).1 t
      ≡ range small_laws
          (1 ∷ 0 ∷ (encode_name unary f.comps ++ bytes front))
          (row_bytes small_laws (t, p))
parse-row f t p front back e =
    let not_name : (tag_of t == 1) ≡ false =
      ground (arith, Misses-at t Ndnb.name p front back (rw (← e) (name-Misses f))) in
    let name_size = length (encode_name unary f.comps) in
    let left : drop name_size (drop 2 (whole f)) ≡ bytes (front ++ ((t, p) ∷ back)) ++ tail =
      drop-append (encode_name unary f.comps) (bytes (rows f) ++ tail) name_size refl
      ∙ ap (λ rs. bytes rs ++ tail) e in
    let scanned = scan-row t p front back (2 + name_size) (rw (← e) (rows-Distinct f)) in
    rw (name-passed f, not_name, left)
      (ap (λ us. scan us (2 + name_size) (bytes (front ++ ((t, p) ∷ back)) ++ tail) t) (ap tags e)
        ∙ scanned
        ∙ ground (arith, length-append (encode_name unary f.comps) (bytes front)))

pub small-Parses : Parses small_laws unary small_decoder
small-Parses = record {
  putf-size = λ t n. omega arith;
  blob-size = λ t b. omega arith;
  parse-name = λ f accepted. parse-name f;
  parse-row = λ f t p front back accepted e. parse-row f t p front back e;
  fetch_number-present = λ t n front rest small.
      rw (drop-append front (small_laws.putf_bytes t (pos n) ++ rest) (length front) refl) refl;
  ref_blob-present = λ t b front rest.
      small_reads.ref-present t b front rest (length front) _ refl
        (sym (length-append front (small_laws.blob_bytes t b)));
}
