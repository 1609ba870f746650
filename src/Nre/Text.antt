-- ===== src/Nre/Text.antt =====
-- The text of a regular expression of python/ndn/nre.py: where its parts end, and the numbers of a
-- repetition.
use py_ccn.Base.{
  ℕ, zero, suc, ◌+◌, ◌-◌, ◌*◌, ◌==◌, Bool, false, ◌&&◌, ◌||◌, Option, none, some, [], ◌∷◌, ltb, leb,
  if◌then◌else◌, Bytes,
}

-- What a constructor raises. `out_of_fuel` belongs to the model only.
pub data Error : Type 0 where
  regex_error index_error re_error attribute_error out_of_fuel : Error

pub data Built {ℓ} (A : Type ℓ) : Type ℓ where
  built : A → Built A
  raises : Error → Built A

infixl 5 ◌>>=◌
abbrev pub ◌>>=◌ {ℓ κ} : {A : Type ℓ} {B : Type κ} → Built A → (A → Built B) → Built B
built a >>= k = k a
raises e >>= k = raises e

-- A loop that counts `left` and `right` and stops behind the bracket that closes, in
-- PatternListMatcher._extractSubPattern(). `open_brackets` is lcount - rcount; the text is what follows
-- the index.
unfoldable pub extract_sub_pattern : (left right : ℕ) → (open_brackets index : ℕ) → Bytes → Built ℕ
extract_sub_pattern left right zero index expr = built index
extract_sub_pattern left right (suc n) index [] = raises regex_error
extract_sub_pattern left right (suc n) index (c ∷ expr) =
    extract_sub_pattern left right
      ((if c == left then suc (suc n) else suc n) - (if c == right then 1 else 0)) (suc index) expr

-- The loop from a brace on, in PatternListMatcher._extractRepetition().
unfoldable pub extract_braces : (index : ℕ) → Bytes → Built ℕ
extract_braces index [] = raises regex_error
extract_braces index (c ∷ expr) =
    let rest = extract_braces (suc index) expr in if c == b'}' then built (suc index) else rest

abbrev pub is_repetition : ℕ → Bool
is_repetition c = c == b'+' || (c == b'?' || c == b'*')

-- PatternListMatcher._extractRepetition()
unfoldable pub extract_repetition : (index : ℕ) → Bytes → Built ℕ
unfolding extract_braces
extract_repetition index [] = built index
extract_repetition index (c ∷ expr) =
    if is_repetition c
    then built (suc index)
    else (if c == b'{' then extract_braces index (c ∷ expr) else built index)

-- The numbers of a repetition in braces.
abbrev pub is_digit : ℕ → Bool
is_digit c = leb b'0' c && leb c b'9'

-- int() of the digits in front, from a value on, and what follows them; none: there is no digit.
unfoldable pub digits_from : (value : ℕ) → Bytes → ℕ × Bytes
digits_from value [] = (value, [])
digits_from value (c ∷ expr) =
    let rest = digits_from (value * 10 + (c - b'0')) expr in
    if is_digit c then rest else (value, c ∷ expr)

unfoldable pub number : Bytes → Option ℕ × Bytes
unfolding digits_from
number [] = (none, [])
number (c ∷ expr) =
    let (value, rest) = digits_from 0 (c ∷ expr) in
    if is_digit c then (some value, rest) else (none, c ∷ expr)

abbrev pub closes : Bytes → Bool
closes (c ∷ []) = c == b'}'
closes _ = false

-- The four forms behind the opening brace: {n,m} {n,} {,m} {n}
unfoldable pub bounds : (int_max : ℕ) → Option ℕ × Bytes → Built (ℕ × ℕ)
unfolding number
bounds int_max (first, []) = raises regex_error
bounds int_max (first, c ∷ rest) =
    if c == b','
    then (let (second, end) = number rest in
        if closes end
        then elim first [
          | none ↦ elim second [ none ↦ raises regex_error | some m ↦ built (0, m) ]
          | some n ↦ elim second [ none ↦ built (n, int_max) | some m ↦ built (n, m) ]
        ]
        else raises regex_error)
    else (if closes (c ∷ rest)
        then elim first [ none ↦ raises regex_error | some n ↦ built (n, n) ]
        else raises regex_error)

abbrev pub checked_bounds : (int_max : ℕ) → ℕ × ℕ → Built (ℕ × ℕ)
checked_bounds int_max (low, high) =
    if ltb int_max low || (ltb int_max high || ltb high low)
    then raises regex_error
    else built (low, high)

-- RepeatMatcher._parseRepetition(), on the text behind the indicator.
unfoldable pub parse_repetition : (int_max : ℕ) → Bytes → Built (ℕ × ℕ)
unfolding bounds number
parse_repetition int_max [] = built (1, 1)
parse_repetition int_max (c ∷ []) =
    if c == b'?'
    then built (0, 1)
    else (if c == b'+'
        then built (1, int_max)
        else (if c == b'*' then built (0, int_max) else raises attribute_error))
parse_repetition int_max (c ∷ d ∷ expr) =
    if c == b'{'
    then (bounds int_max (number (d ∷ expr)) >>= checked_bounds int_max)
    else raises regex_error
