-- ===== src/Upcall.antt =====
-- csrc/methods_handle.c: closures. Python hands a closure to ndn in a capsule, ndn calls
-- ndn_upcall_handler() on it, and the last upcall gives the capsule up.
pub mod Closures
mod Runs
use py_ccn.Base.{ℕ, Bool, true, false, ◌&&◌, Option, none, some, List, [], ◌∷◌, ◌==◌, if◌then◌else◌}
use py_ccn.Base.Int.{ℤ, negsuc, int_of_long}
use py_ccn.Base.Run.{Run, ok, raise, fault, ◌>>=◌, ◌>>◌, guard, type_error, io_error}
use mathlib.Core.Option.{get_or}

-- enum ndn_upcall_kind, as far as the code tells its values apart.
pub data Kind : Type 0 where
  final interest consumed_interest content interest_timed_out : Kind
  content_unverified content_bad content_keymissing content_raw other_kind : Kind

unfoldable pub is_final : Kind → Bool
is_final final = true
is_final _ = false

unfoldable pub has_data : Kind → Bool
has_data content = true
has_data content_unverified = true
has_data content_bad = true
has_data content_keymissing = true
has_data content_raw = true
has_data _ = false

unfoldable pub has_interest : Kind → Bool
has_interest interest = true
has_interest consumed_interest = true
has_interest interest_timed_out = true
has_interest content = true
has_interest content_unverified = true
has_interest content_bad = true
has_interest content_keymissing = true
has_interest content_raw = true
has_interest _ = false

-- The capsules of closures that are alive, each with the Python closure on which it holds a
-- reference.
abbrev pub Store : Type 0
Store = List (ℕ × ℕ)

-- PyCapsule_GetContext(); none: the capsule is gone.
unfoldable pub closure_of : ℕ → Store → Option ℕ
closure_of capsule [] = none
closure_of capsule ((c, closure) ∷ store) =
    if c == capsule then some closure else closure_of capsule store

-- Py_DECREF() of the last reference on a capsule: its destructor gives back the closure.
unfoldable pub release : ℕ → Store → Store
release capsule [] = []
release capsule ((c, closure) ∷ store) =
    if c == capsule then store else (c, closure) ∷ release capsule store

pub record UpcallInfo (D I : Type 0) : Type 0 where
  pub matched_comps : ℕ
  pub packet : Option D
  pub asked : Option I

-- What Python does: the method "upcall" of a closure, if it has one. It answers with a number, or
-- with something else, and may hand further closures to ndn.
abbrev pub Method : Type 0 → Type 0 → Type 0
Method D I = Kind → UpcallInfo D I → Store → Run (Option ℤ) × Store

module _ {D I : Type 0} where
  -- UpcallInfo_obj_from_ndn(), on what finding and calling its class, Data_obj_from_ndn() and
  -- Interest_obj_from_ndn() give.
  unfoldable pub upcall_info :
      (object : Run (Unit {0})) → Kind → (matched_comps : ℕ) → Run D → Run I → Run (UpcallInfo D I)
  unfolding has_data has_interest
  upcall_info object kind matched_comps data_obj interest_obj = do
    object
    d ← if has_data kind then (data_obj >>= λ d. ok (some d)) else ok none
    i ← if has_interest kind then (interest_obj >>= λ i. ok (some i)) else ok none
    ok (record { matched_comps = matched_comps; packet = d; asked = i })

  -- The call of the method, and the closures afterwards.
  unfoldable pub call_upcall :
      Run (Method D I) → Run (UpcallInfo D I) → Kind → Store → Run (Option ℤ) × Store
  call_upcall (raise e) info kind store = (raise e, store)
  call_upcall fault info kind store = (fault, store)
  call_upcall (ok method) (ok ui) kind store = method kind ui store
  call_upcall (ok method) (raise e) kind store = (raise e, store)
  call_upcall (ok method) fault kind store = (fault, store)

  -- ndn_upcall_handler(): what ndn is told, and the closures afterwards. An answer that is no number
  -- becomes -1, and an exception NDN_UPCALL_RESULT_ERR, of which the value is an argument.
  unfoldable pub upcall_handler :
      (result_err : ℤ) (method_of : ℕ → Run (Method D I))
      → Run (UpcallInfo D I)
      → Kind
      → (capsule : ℕ) → Store
      → Run (ℤ × Store)
  unfolding is_final call_upcall
  upcall_handler result_err method_of info kind capsule store = elim (closure_of capsule store) [
    | none ↦ fault
    | some closure ↦
        let called = call_upcall (method_of closure) info kind store in
        let left = if is_final kind then release capsule called.1 else called.1 in
        elim called.0 [
          | ok r ↦ ok (int_of_long (get_or r (negsuc 0)), left)
          | raise e ↦ ok (result_err, left)
          | fault ↦ fault
        ]
  ]

-- From NDNObject_New_Closure() on. `accepted` is what ndn answers, none a failure. Without memory the
-- code writes through a pointer that it never set.
unfoldable pub submit :
    (allocated : Bool) → (accepted : Option ℤ) → (capsule closure : ℕ) → Store → Run ℤ × Store
unfolding release
submit false accepted capsule closure store = (fault, store)
submit true (some r) capsule closure store = (ok r, (capsule, closure) ∷ store)
submit true none capsule closure store =
    (raise io_error, release capsule ((capsule, closure) ∷ store))

-- The arguments of _pyndn_cmd_express_interest(): the tests of their types, and how their capsules
-- are found.
pub record ExpressArgs : Type 0 where
  pub is_ndn : Bool
  pub is_name : Bool
  pub is_closure : Bool
  pub is_template : Bool
  pub handle : Run (Unit {0})
  pub name : Run (Unit {0})
  pub template : Run (Unit {0})

unfoldable pub check_express : ExpressArgs → Run (Unit {0})
check_express a = do
  guard a.is_ndn type_error
  guard a.is_name type_error
  guard a.is_closure type_error
  guard a.is_template type_error
  a.handle
  a.name
  a.template

unfoldable pub express_interest :
    ExpressArgs
    → (allocated : Bool) → (accepted : Option ℤ) → (capsule closure : ℕ) → Store
    → Run (Unit {0}) × Store
unfolding check_express submit
express_interest a allocated accepted capsule closure store =
    let submitted = submit allocated accepted capsule closure store in
    elim (check_express a) [
      | ok done ↦ (submitted.0 >>= λ r. ok tt, submitted.1)
      | raise e ↦ (raise e, store)
      | fault ↦ (fault, store)
    ]

unfoldable pub set_interest_filter :
    (is_handle is_name is_closure allocated : Bool)
    → (accepted : Option ℤ) → (capsule closure : ℕ) → Store
    → Run ℤ × Store
unfolding submit
set_interest_filter is_handle is_name is_closure allocated accepted capsule closure store =
    if is_handle && (is_name && is_closure)
    then submit allocated accepted capsule closure store
    else (raise type_error, store)
