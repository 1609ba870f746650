-- ===== src/Base/Run.antt =====
-- How a C function of the bindings ends. `raise` stands for a NULL (or negative) result with a
-- Python exception set, of which the class is kept and the text is not; `fault` for an abort:
-- a failed assertion, a call of panic(), or an access outside of an object.
use Prim.Native.Nat.{ℕ}
use mathlib.Core.Path.{◌≡◌, refl}
use mathlib.Core.Logic.{◌⊎◌, inl, inr}
use mathlib.Core.Bool.{Bool, true, false}
use mathlib.Core.Option.{Option, none, some}

pub data Exception : Type 0 where
  type_error value_error memory_error io_error not_implemented_error system_error : Exception
  ndn_error ndn_name_error ndn_key_error ndn_signed_info_error : Exception
  ndn_interest_error ndn_signature_error ndn_data_error ndn_key_locator_error : Exception
  -- Raised by a Python callee, such as an attribute access.
  callee_error : ℕ → Exception

pub data Run {ℓ} (A : Type ℓ) : Type ℓ where
  ok : A → Run A
  raise : Exception → Run A
  fault : Run A

-- A check that raises.
abbrev pub guard : Bool → Exception → Run (Unit {0})
guard false error = raise error
guard true error = ok tt

-- assert()
abbrev pub assert : Bool → Run (Unit {0})
assert true = ok tt
assert false = fault

-- A callee of the libraries that reports failure: none becomes the exception `e`.
abbrev pub or_raise {ℓ} : {A : Type ℓ} → Option A → Exception → Run A
or_raise (some a) e = ok a
or_raise none e = raise e

-- What comes after a call, with the value that it returns, or with none.
infixl 5 ◌>>=◌ ◌>>◌
abbrev pub ◌>>=◌ {ℓ κ} : {A : Type ℓ} {B : Type κ} → Run A → (A → Run B) → Run B
raise error >>= k = raise error
fault >>= k = fault
ok value >>= k = k value

abbrev pub ◌>>◌ {ℓ} : {B : Type ℓ} → Run (Unit {0}) → Run B → Run B
m >> next = m >>= λ done. next

-- A chain that returns has a first call that returned.
pub >>=-eq-ok {ℓ κ} :
    {Value : Type ℓ} {Result : Type κ} (first : Run Value) (next : Value → Run Result)
    {result : Result}
    → (first >>= next) ≡ ok result
    → (value : Value) × (first ≡ ok value) × (next value ≡ ok result)
>>=-eq-ok fault next returned = cc
>>=-eq-ok (raise error) next returned = cc
>>=-eq-ok (ok value) next returned = (value, refl, returned)

-- To split on how a call ended and keep the equation.
pub Run-cases {ℓ} :
    {Value : Type ℓ} (ended : Run Value)
    → (((value : Value) × (ended ≡ ok value)) ⊎ ((e : Exception) × (ended ≡ raise e)))
      ⊎ (ended ≡ fault)
Run-cases fault = inr refl
Run-cases (raise e) = inl (inr (e, refl))
Run-cases (ok value) = inl (inl (value, refl))

-- Calls one after another, however they are grouped.
pub >>=_assoc {ℓ κ μ} :
    {A : Type ℓ} {B : Type κ} {C : Type μ} (first : Run A) (next : A → Run B) (last : B → Run C)
    → (first >>= next >>= last) ≡ (first >>= λ a. next a >>= last)
>>=_assoc fault next last = refl
>>=_assoc (raise e) next last = refl
>>=_assoc (ok a) next last = refl
