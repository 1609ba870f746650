-- ===== src/Nre/Safe.antt =====
-- Reading a regular expression of python/ndn/nre.py: constructors that end with a value of which
-- something is known, or raise an exception of Python.
use py_ccn.Base.{
  ltb, ◌||◌, ℕ, zero, suc, ◌-◌, ◌≤◌, ◌<◌, ◌≡◌, ◌≢◌, refl, Bool, true, false, ◌==◌, Option, [], ◌∷◌,
  if◌then◌else◌, length, Bytes, arith,
}
use py_ccn.Nre.Text.{
  Built, built, raises, regex_error, index_error, re_error, attribute_error, out_of_fuel, ◌>>=◌,
  extract_sub_pattern, extract_braces, extract_repetition, is_repetition, number, bounds,
  checked_bounds, parse_repetition,
}
use py_ccn.Nre.Compile.{char_at}

unfoldable pub Safe : {A : Type 0} → (A → Type 0) → Built A → Type 0
Safe P (built a) = P a
Safe P (raises regex_error) = Unit
Safe P (raises index_error) = Unit
Safe P (raises re_error) = Unit
Safe P (raises attribute_error) = Unit
Safe P (raises out_of_fuel) = ⊥

module _ {A B : Type 0} (P : A → Type 0) (Q : B → Type 0) where
  pub >>=-Safe :
      (x : Built A) (k : A → Built B) → Safe P x → ((a : A) → P a → Safe Q (k a)) → Safe Q (x >>= k)
  unfolding Safe
  >>=-Safe (built a) k s next = next a s
  >>=-Safe (raises regex_error) k s next = tt
  >>=-Safe (raises index_error) k s next = tt
  >>=-Safe (raises re_error) k s next = tt
  >>=-Safe (raises attribute_error) k s next = tt
  >>=-Safe (raises out_of_fuel) k s next = s

-- What comes after a call is looked at only where the call returns.
pub >>=_ext :
    {A B : Type 0} (P : A → Type 0) (x : Built A) (k k' : A → Built B)
    → Safe P x
    → ((a : A) → P a → k a ≡ k' a)
    → (x >>= k) ≡ (x >>= k')
unfolding Safe
>>=_ext P (built a) k k' s same = same a s
>>=_ext P (raises e) k k' s same = refl

pub Safe-≢ : {A : Type 0} (P : A → Type 0) (x : Built A) → Safe P x → x ≢ raises out_of_fuel
unfolding Safe
Safe-≢ P (built a) s e = cc
Safe-≢ P (raises regex_error) s e = cc
Safe-≢ P (raises index_error) s e = cc
Safe-≢ P (raises re_error) s e = cc
Safe-≢ P (raises attribute_error) s e = cc
Safe-≢ P (raises out_of_fuel) s e = s

pub Safe-weaken :
    {A : Type 0} (P Q : A → Type 0) (x : Built A) → Safe P x → ((a : A) → P a → Q a) → Safe Q x
unfolding Safe
Safe-weaken P Q (built a) s to = to a s
Safe-weaken P Q (raises regex_error) s to = tt
Safe-weaken P Q (raises index_error) s to = tt
Safe-weaken P Q (raises re_error) s to = tt
Safe-weaken P Q (raises attribute_error) s to = tt
Safe-weaken P Q (raises out_of_fuel) s to = s

pub if-Safe :
    {A : Type 0} (P : A → Type 0) (b : Bool) (x y : Built A)
    → (b ≡ true → Safe P x)
    → (b ≡ false → Safe P y)
    → Safe P (if b then x else y)
if-Safe P true x y t f = t refl
if-Safe P false x y t f = f refl

pub if_ext :
    {A : Type 0} (b : Bool) (x x' y y' : A)
    → x ≡ x'
    → y ≡ y'
    → (if b then x else y) ≡ (if b then x' else y')
if_ext true x x' y y' e f = e
if_ext false x x' y y' e f = f

-- Nothing is known of the value.
abbrev pub Any : {A : Type 0} → A → Type 0
Any a = Unit {0}

pub built_Safe : {A : Type 0} (a : A) → Safe Any (built a)
unfolding Safe
built_Safe a = tt

pub then_built-Safe :
    {A B : Type 0} (f : A → B) (x : Built A) → Safe Any x → Safe Any (x >>= λ a. built (f a))
unfolding Safe
then_built-Safe f x s = >>=-Safe Any Any x (λ a. built (f a)) s (λ a h. tt)

pub then_made-Safe :
    {A B : Type 0} (P : A → Type 0) (Q : B → Type 0) (f : A → B) (x : Built A)
    → Safe P x
    → ((a : A) → P a → Q (f a))
    → Safe Q (x >>= λ a. built (f a))
unfolding Safe
then_made-Safe P Q f x s made = >>=-Safe P Q x (λ a. built (f a)) s made

pub char_at-Safe : (expr : Bytes) (index : ℕ) → Safe (λ c. index < length expr) (char_at expr index)
unfolding Safe
char_at-Safe [] index = tt
char_at-Safe (c ∷ expr) zero = omega arith
char_at-Safe (c ∷ expr) (suc index) =
    Safe-weaken (λ c. index < length expr) (λ d. suc index < length (c ∷ expr)) (char_at expr index)
      (char_at-Safe expr index) (λ d h. omega arith)

pub extract_sub_pattern-Safe :
    (left right : ℕ) (expr : Bytes) (n index : ℕ)
    → Safe (λ indicator. index ≤ indicator) (extract_sub_pattern left right n index expr)
unfolding Safe extract_sub_pattern
extract_sub_pattern-Safe left right expr zero index = omega arith
extract_sub_pattern-Safe left right [] (suc n) index = tt
extract_sub_pattern-Safe left right (c ∷ expr) (suc n) index =
    let n' = (if c == left then suc (suc n) else suc n) - (if c == right then 1 else 0) in
    Safe-weaken (λ i. suc index ≤ i) (λ i. index ≤ i)
      (extract_sub_pattern left right n' (suc index) expr)
      (extract_sub_pattern-Safe left right expr n' (suc index)) (λ i h. omega arith)

extract_braces-Safe :
    (index : ℕ) (expr : Bytes) → Safe (λ end. index ≤ end) (extract_braces index expr)
unfolding Safe extract_braces
extract_braces-Safe index [] = tt
extract_braces-Safe index (c ∷ expr) =
    if-Safe (λ end. index ≤ end) (c == b'}') (built (suc index)) (extract_braces (suc index) expr)
      (λ e. omega arith)
      (λ e.
        Safe-weaken (λ i. suc index ≤ i) (λ i. index ≤ i) (extract_braces (suc index) expr)
          (extract_braces-Safe (suc index) expr) (λ i h. omega arith))

pub extract_repetition-Safe :
    (index : ℕ) (expr : Bytes) → Safe (λ end. index ≤ end) (extract_repetition index expr)
unfolding Safe extract_repetition
extract_repetition-Safe index [] = omega arith
extract_repetition-Safe index (c ∷ expr) =
    if-Safe _ (is_repetition c) _ _ (λ e. omega arith)
      (λ e.
        if-Safe (λ end. index ≤ end) (c == b'{') (extract_braces index (c ∷ expr)) (built index)
          (λ e. extract_braces-Safe index (c ∷ expr)) (λ e. omega arith))

bounds-Safe : (int_max : ℕ) (read : Option ℕ × Bytes) → Safe Any (bounds int_max read)
unfolding Safe bounds
bounds-Safe int_max (first, []) = tt
bounds-Safe int_max (first, c ∷ rest) = ground arith

-- The bounds of a repetition are in order.
abbrev pub InOrder : ℕ → ℕ × ℕ → Type 0
InOrder int_max (low, high) = 1 ≤ int_max → low ≤ high

checked_bounds-Safe :
    (int_max : ℕ) (read : ℕ × ℕ) → Safe (InOrder int_max) (checked_bounds int_max read)
unfolding Safe
checked_bounds-Safe int_max (low, high) =
    if-Safe (InOrder int_max) (ltb int_max low || (ltb int_max high || ltb high low))
      (raises regex_error) (built (low, high)) (λ e. tt) (λ e some_max. ground (arith, e))

pub parse_repetition-Safe :
    (int_max : ℕ) (expr : Bytes) → Safe (InOrder int_max) (parse_repetition int_max expr)
unfolding Safe parse_repetition
parse_repetition-Safe int_max [] = λ h. omega arith
parse_repetition-Safe int_max (c ∷ []) =
    if-Safe (InOrder int_max) (c == b'?') _ _ (λ e h. omega arith)
      (λ e.
        if-Safe (InOrder int_max) (c == b'+') _ _ (λ e h. h)
          (λ e.
            if-Safe (InOrder int_max) (c == b'*') (built (0, int_max)) (raises attribute_error)
              (λ e h. omega arith) (λ e. tt)))
parse_repetition-Safe int_max (c ∷ d ∷ expr) =
    if-Safe (InOrder int_max) (c == b'{')
      (bounds int_max (number (d ∷ expr)) >>= checked_bounds int_max) (raises regex_error)
      (λ e.
        >>=-Safe Any (InOrder int_max) (bounds int_max (number (d ∷ expr))) (checked_bounds int_max)
          (bounds-Safe int_max (number (d ∷ expr))) (λ read h. checked_bounds-Safe int_max read))
      (λ e. tt)
