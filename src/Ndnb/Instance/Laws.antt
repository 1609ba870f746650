-- ===== src/Ndnb/Instance/Laws.antt =====
-- The laws of Decodes for the small format.
use py_ccn.Base.{
  ℕ, ◌+◌, ◌-◌, ◌≡◌, ◌≢◌, refl, sym, ap, true, false, none, some, [], ◌∷◌, ◌++◌, append_assoc, ◌==◌,
  if◌then◌else◌, Bytes, length, length-append, drop, take-append, drop-append, arith,
}
use py_ccn.Base.Int.{pos}
use py_ccn.Ndnb.{Dtag, Decodes, be_value}
use py_ccn.Ndnb.Instance.{
  tag_of, tag_of_differs, small, small_laws, Cursor, cursor, opens, failed, eat_blob, blob_of, skip,
  name_size, past, past_name, number_tail, tail_of,
}

abbrev at_front : (front rest : Bytes) → Cursor
at_front front rest = record { left = rest; index = length front; good = true }

opens_same : (t : Dtag) (xs : Bytes) → opens t (1 ∷ tag_of t ∷ xs) ≡ true
opens_same t xs = ground arith

abbrev blob : Dtag → Bytes → Bytes
blob t b = 1 ∷ tag_of t ∷ tail_of b

eat_blob_lem :
    (t : Dtag) (b front rest : Bytes)
    → eat_blob (at_front front (blob t b ++ rest)) (blob t b ++ rest)
      ≡ at_front (front ++ blob t b) rest
eat_blob_lem t b front rest =
    let sizes : length front + (length b + 5) ≡ length (front ++ blob t b) =
      omega (arith, length-append front (blob t b), length-append b (0 ∷ [])) in
    let left : drop (length b + 1) ((b ++ (0 ∷ [])) ++ rest) ≡ rest =
      drop-append (b ++ (0 ∷ [])) rest _ (omega (arith, length-append b (0 ∷ []))) in
    rw (sizes, left) refl

blob_of_lem : (t : Dtag) (b rest : Bytes) → blob_of (blob t b ++ rest) ≡ b
blob_of_lem t b rest =
    rw (append_assoc b (0 ∷ []) rest) (take-append b ((0 ∷ []) ++ rest) (length b) refl)

record AtFront (front rest : Bytes) (d : Cursor) : Type 0 where
  is : d ≡ at_front front rest

arrived : (front rest : Bytes) → AtFront front rest (at_front front rest)
arrived front rest = record { is = refl }

abbrev pub SkipsTo : Bytes → Type 0
SkipsTo e = (rest : Bytes) → skip (length (e ++ rest)) 0 (e ++ rest) ≡ some rest

abbrev pub NameOf : Bytes → Type 0
NameOf n = (rest : Bytes) → name_size (n ++ rest) ≡ some (length n)

module _ (t : Dtag) (rest : Bytes) {front tail : Bytes} {d : Cursor}
    (at : AtFront front tail d) where
  same : tail ≡ 1 ∷ tag_of t ∷ rest → opens t d.left ≡ true
  same e = rw (at.is, e) (opens_same t rest)

  other : (u : Dtag) → t ≢ u → tail ≡ 1 ∷ tag_of u ∷ rest → opens t d.left ≡ false
  other u ne e = rw (at.is, e) (tag_of_differs t u ne)

  closer : tail ≡ 0 ∷ rest → opens t d.left ≡ false
  closer e = rw (at.is, e)

  advanced :
      tail ≡ 1 ∷ tag_of t ∷ rest → AtFront (front ++ (1 ∷ tag_of t ∷ [])) rest (cursor.advance d)
  advanced e = record {
    is =
        rw (at.is, e)
          (ap (λ n. record { left = rest; index = n; good = true })
            (sym (length-append front (1 ∷ tag_of t ∷ []))));
  }

  module _ (b : Bytes) (e : tail ≡ blob t b ++ rest) where
    eaten : (if opens t d.left then eat_blob d d.left else d) ≡ at_front (front ++ blob t b) rest
    eaten = rw (at.is, e, opens_same t (tail_of b ++ rest), eat_blob_lem t b front rest) refl

    eaten_required : cursor.required_blob d t 0 none ≡ (true, at_front (front ++ blob t b) rest)
    eaten_required =
        rw (at.is, e, opens_same t (tail_of b ++ rest), eat_blob_lem t b front rest) refl

    eaten_binary :
        (least most default : ℕ)
        → cursor.optional_binary d t least most default
          ≡ (pos (be_value 0 b), at_front (front ++ blob t b) rest)
    eaten_binary least most default =
        rw
          (
            at.is,
            e,
            opens_same t (tail_of b ++ rest),
            eat_blob_lem t b front rest,
            blob_of_lem t b rest,
          )
          refl

closed_lem :
    (rest : Bytes) {front tail : Bytes} {d : Cursor}
    → AtFront front tail d
    → tail ≡ 0 ∷ rest
    → AtFront (front ++ (0 ∷ [])) rest (cursor.check_close d)
closed_lem rest {front} at e = record {
  is =
      rw (at.is, e)
        (ap (λ n. record { left = rest; index = n; good = true })
          (sym (length-append front (0 ∷ []))));
}

past_lem :
    (x rest : Bytes) {front tail : Bytes} {d : Cursor}
    → SkipsTo x
    → AtFront front tail d
    → tail ≡ x ++ rest
    → past d (skip (length d.left) 0 d.left) ≡ (true, at_front (front ++ x) rest)
past_lem x rest {front} skips at e =
    let size : length front + (length (x ++ rest) - length rest) ≡ length (front ++ x) =
      omega (arith, length-append front x, length-append x rest) in
    rw (at.is, e, skips rest, size) refl

past_name_lem :
    (x rest : Bytes) {front tail : Bytes} {d : Cursor}
    → NameOf x
    → AtFront front tail d
    → tail ≡ x ++ rest
    → past_name d (name_size d.left) ≡ (true, at_front (front ++ x) rest)
past_name_lem x rest {front} is at e =
    rw (at.is, e, is rest, sym (length-append front x), drop-append x rest (length x) refl) refl

absent :
    (t : Dtag) {front rest : Bytes} {d : Cursor}
    → opens t d.left ≡ false
    → AtFront front rest d
    → (if opens t d.left then eat_blob d d.left else d) ≡ at_front front rest
absent t m at = rw m at.is

module _ (t : Dtag) (d : Cursor) (m : opens t d.left ≡ false) where
  absent_binary : (default : ℕ) → cursor.optional_binary d t 0 0 default ≡ (pos default, d)
  absent_binary default = rw m

  absent_number : cursor.optional_number d t ≡ (none, d)
  absent_number = rw m

  absent_required : cursor.required_blob d t 0 none ≡ (false, failed d)
  absent_required = rw m

number_lem :
    (t : Dtag) (n : ℕ) (rest : Bytes) {front tail : Bytes} {d : Cursor}
    → AtFront front tail d
    → tail ≡ 1 ∷ tag_of t ∷ 3 ∷ n ∷ 0 ∷ rest
    → cursor.optional_number d t
      ≡ (some n, at_front (front ++ (1 ∷ tag_of t ∷ 3 ∷ n ∷ 0 ∷ [])) rest)
number_lem t n rest {front} at e =
    rw (at.is, e, opens_same t (3 ∷ n ∷ 0 ∷ rest))
      (ap (λ k. (some n, record { left = rest; index = k; good = true }))
        (sym (length-append front (1 ∷ tag_of t ∷ 3 ∷ n ∷ 0 ∷ []))))

ref_lem :
    (t : Dtag) (b front rest : Bytes) (start stop : ℕ)
    → start ≡ length front
    → stop ≡ length (front ++ blob t b)
    → cursor.ref_blob t (front ++ (blob t b ++ rest)) start stop ≡ some b
ref_lem t b front rest start stop e f =
    let differ : (start == stop) ≡ false = ground (arith, e, f, length-append front (blob t b)) in
    rw (differ, drop-append front (blob t b ++ rest) start e, blob_of_lem t b rest) refl

ref_absent : (t : Dtag) (buf : Bytes) (start : ℕ) → cursor.ref_blob t buf start start ≡ none
ref_absent t buf start = ground arith

pub small_reads : Decodes small small_laws cursor
small_reads = record {
  At = AtFront;
  IsElement = SkipsTo;
  IsName = NameOf;
  blob_tail = tail_of;
  putf_tail = number_tail;
  blob_layout = λ t b. refl;
  putf_layout = λ t n. refl;
  start-At = λ rest. arrived [] rest;
  token_index-At = λ at. ap (λ (c : Cursor). c.index) at.is;
  state_ok-At = λ at. ap (λ (c : Cursor). c.good) at.is;
  match-same = λ t rest at e. same t rest at e;
  match-other = λ t u rest ne at e. other t rest at u ne e;
  match-closer = λ t rest at e. closer t rest at e;
  advance-At = λ t rest at e. advanced t rest at e;
  check_close-At = λ rest at e. closed_lem rest at e;
  past-At = λ x rest is at e. (_, past_lem x rest is at e, arrived _ rest);
  parse_name-At = λ x rest is at e. (_, past_name_lem x rest is at e, arrived _ rest);
  optional-present = λ t b least most rest fits at e. record { is = eaten t rest at b e };
  optional-absent = λ t least most m at. record { is = absent t m at };
  required-present =
      λ t b least most rest fits at e. (_, eaten_required t rest at b e, arrived _ rest);
  required-absent =
      λ t least most m at. (_, absent_required t _ m, ap (λ (c : Cursor). c.index) at.is);
  binary-present = λ t b least most default rest fits at e.
      (_, eaten_binary t rest at b e least most default, arrived _ rest);
  binary-absent = λ t least most default m at. (_, absent_binary t _ m default, at);
  number-present = λ t n rest at e. (_, number_lem t n rest at e, arrived _ rest);
  number-absent = λ t m at. (_, absent_number t _ m, at);
  ref-present = λ t b front rest start stop e f. ref_lem t b front rest start stop e f;
  ref-absent = λ t buf start. ref_absent t buf start;
}

-- What a name and an element are in the small format.
pub small_name : (n : Bytes) → NameOf n → small_reads.IsName n
unfolding small_reads
small_name n is = is

pub small_element : (e : Bytes) → SkipsTo e → small_reads.IsElement e
unfolding small_reads
small_element e is = is
