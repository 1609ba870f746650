-- ===== src/Pyndn/Exceptions.antt =====
-- initialize_exceptions() of csrc/pyndn.c: the exceptions of the module.
use py_ccn.Base.{
  ℕ, ◌≡◌, refl, ap, ◌∙◌, List, [], ◌∷◌, Bool, true, false, ◌||◌, not, inl, inr, Bool-cases, arith,
  Option, none, some, ◌==◌, if◌then◌else◌,
}
use py_ccn.Base.Run.{Run, ok, ◌>>=◌, ◌>>◌, assert}
use mathlib.Core.Option.{get_or}

-- The names that NEW_EXCEPTION() is given.
pub data ErrorName : Type 0 where
  ndn_error ndn_name_error ndn_key_locator_error ndn_signature_error ndn_signed_info_error :
      ErrorName
  ndn_interest_error ndn_exclusion_filter_error ndn_key_error ndn_data_error : ErrorName

abbrev pub place : ErrorName → ℕ
place ndn_error = 0
place ndn_name_error = 1
place ndn_key_locator_error = 2
place ndn_signature_error = 3
place ndn_signed_info_error = 4
place ndn_interest_error = 5
place ndn_exclusion_filter_error = 6
place ndn_key_error = 7
place ndn_data_error = 8

-- A Python class of exceptions: Exception, or one that is made from its name and its base.
pub data ExceptionClass : Type 0 where
  exception : ExceptionClass
  made : ErrorName → ExceptionClass → ExceptionClass

-- The variables g_PyExc_*, null pointers at first.
abbrev pub Globals : Type 0
Globals = ErrorName → Option ExceptionClass

abbrev pub no_exceptions : Globals
no_exceptions name = none

abbrev pub define : ErrorName → Option ExceptionClass → Globals → Globals
define name base globals n =
    if place name == place n then some (made name (get_or base exception)) else globals n

-- NEW_EXCEPTION(): PyErr_NewExceptionWithDoc() takes a base that is a null pointer for Exception. What
-- it gives is not checked: Py_INCREF() of a null pointer is a fault.
unfoldable pub new_exception :
    (created : ErrorName → Bool)
    → ErrorName
    → (base : Option ExceptionClass) → Globals
    → Run Globals
new_exception created name base globals = do assert (created name); ok (define name base globals)

-- The uses of NEW_EXCEPTION(), in order, with the variable that each gives as the base.
abbrev pub Declared : Type 0
Declared = ErrorName × Option ErrorName

abbrev pub declared : List Declared
declared =
    (ndn_error, none)
    ∷ (ndn_name_error, some ndn_error)
    ∷ (ndn_key_locator_error, some ndn_error)
    ∷ (ndn_signature_error, some ndn_error)
    ∷ (ndn_signed_info_error, some ndn_error)
    ∷ (ndn_interest_error, some ndn_error)
    ∷ (ndn_exclusion_filter_error, some ndn_interest_error)
    ∷ (ndn_key_error, some ndn_key_error)
    ∷ (ndn_data_error, some ndn_error)
    ∷ []

-- What a variable holds when it is given as the base.
abbrev pub base_of : Option ErrorName → Globals → Option ExceptionClass
base_of none globals = none
base_of (some name) globals = globals name

unfoldable pub new_exceptions : (created : ErrorName → Bool) → List Declared → Globals → Run Globals
unfolding new_exception
new_exceptions created [] g = ok g
new_exceptions created ((name, base) ∷ declared) g =
    new_exception created name (base_of base g) g >>= new_exceptions created declared

unfoldable pub initialize_exceptions : (created : ErrorName → Bool) → Run Globals
unfolding new_exceptions
initialize_exceptions created = new_exceptions created declared no_exceptions

-- Does `except` with the class of that name catch an exception of this class?
abbrev pub is_caught : (by : ErrorName) → ExceptionClass → Bool
is_caught by exception = false
is_caught by (made name base) = (place name == place by) || is_caught by base

-- The exceptions, all made.
abbrev pub exceptions : ErrorName → ExceptionClass
exceptions ndn_error = made ndn_error exception
exceptions ndn_exclusion_filter_error =
    made ndn_exclusion_filter_error (made ndn_interest_error (made ndn_error exception))
exceptions ndn_key_error = made ndn_key_error exception
exceptions name = made name (made ndn_error exception)

abbrev pub define_all : List Declared → Globals → Globals
define_all [] g = g
define_all ((name, base) ∷ declared) g = define_all declared (define name (base_of base g) g)

new_exceptions-all :
    (created : ErrorName → Bool) (declared : List Declared) (g globals : Globals)
    → new_exceptions created declared g ≡ ok globals
    → globals ≡ define_all declared g
unfolding new_exceptions
new_exceptions-all created [] g globals e = ground (arith, e)
new_exceptions-all created ((name, base) ∷ declared) g globals e =
    elim (Bool-cases (created name)) [
      | inl is ↦
          new_exceptions-all created declared (define name (base_of base g) g) globals
            (ground (arith, is, e))
      | inr isnt ↦ ground (arith, isnt, e)
    ]

exceptions-defined :
    (name : ErrorName) → define_all declared no_exceptions name ≡ some (exceptions name)
exceptions-defined ndn_error = refl
exceptions-defined _ = refl

exceptions-caught :
    (name : ErrorName)
    → (is_caught name (exceptions name) ≡ true)
      × (is_caught ndn_error (exceptions name) ≡ not (place name == place ndn_key_error))
exceptions-caught ndn_error = (refl, refl)
exceptions-caught _ = (refl, refl)

-- When every exception could be made, each is in its variable and `except` with its own name catches
-- it. `except NDNError` catches each of them but NDNKeyError: its base is its own variable, still a
-- null pointer then, and so the class Exception.
pub initialize_exceptions-caught :
    (created : ErrorName → Bool) (globals : Globals) (name : ErrorName)
    → initialize_exceptions created ≡ ok globals
    → (globals name ≡ some (exceptions name))
      × (is_caught name (exceptions name) ≡ true)
      × (is_caught ndn_error (exceptions name) ≡ not (place name == place ndn_key_error))
unfolding initialize_exceptions
initialize_exceptions-caught created globals name e =
    let all = new_exceptions-all created declared no_exceptions globals e in
    let (own, general) = exceptions-caught name in
    (ap (λ g. g name) all ∙ exceptions-defined name, own, general)
