-- ===== src/Pyndn/Runs.antt =====
-- Runs of csrc/pyndn.c, with a package in which every name can be imported and with one that is gone.
use Prim.Native.String.{String}
use py_ccn.Base.{ℕ, ◌≡◌, refl, true, false, none, some, [], ◌∷◌}
use py_ccn.Base.Int.{ℤ, negsuc}
use py_ccn.Base.Run.{Run, ok, raise, fault, system_error}
use py_ccn.Upcall
use py_ccn.Pyndn.Types.{Python, no_classes, get_type}
use py_ccn.Pyndn.Types
use py_ccn.Pyndn.Classes.{here, ask, get_type-settled}
use py_ccn.Pyndn.Exceptions.{initialize_exceptions}
use py_ccn.Pyndn.Exceptions
use py_ccn.Pyndn.Upcalls.{upcall_info_object, upcall_handler-fault}
use py_ccn.Upcall.Closures

abbrev installed : Python (String × String)
installed = record { Module = String; import_module = λ m. ok m; get_item = λ m c. some (m, c) }

abbrev gone : Python (String × String)
gone = record { Module = String; import_module = λ m. raise system_error; get_item = λ m c. none }

abbrev data_class : String × String
data_class = ("ndn.Data", "Data")

get_type-gone : (get_type gone false Types.key no_classes).0 ≡ raise system_error
unfolding get_type
get_type-gone = refl

get_type-Data : (get_type installed true Types.data_packet no_classes).0 ≡ ok data_class
unfolding get_type
get_type-Data = refl

-- Without assertions, SigningParams stands for the class behind it.
get_type-SigningParams :
    (get_type installed false Types.signing_params no_classes).0 ≡ ok ("ndn.Closure", "UpcallInfo")
unfolding get_type
get_type-SigningParams = refl

get_type-settled_example :
    get_type gone true Types.data_packet
      (get_type gone true Types.key (get_type installed true Types.data_packet no_classes).1).1
    ≡ (
      ok data_class,
      (get_type gone true Types.key (get_type installed true Types.data_packet no_classes).1).1,
    )
get_type-settled_example =
    get_type-settled true no_classes installed gone Types.data_packet data_class get_type-Data
      (ask gone Types.key here)

-- With memory enough the exceptions are made.
initialize_exceptions-all_made :
    initialize_exceptions (λ name. true)
    ≡ ok (Exceptions.define_all Exceptions.declared Exceptions.no_exceptions)
unfolding initialize_exceptions
initialize_exceptions-all_made = refl

abbrev method_of : ℕ → Run (Upcall.Method ℕ ℕ)
method_of closure = ok (λ kind info store. (ok none, store))

abbrev store : Upcall.Store
store = (9, 70) ∷ []

closure_of-9 : Upcall.closure_of 9 store ≡ some 70
unfolding Upcall.closure_of
closure_of-9 = refl

upcall_handler-fault_example :
    Upcall.upcall_handler
      (negsuc 0)
      method_of
      (Upcall.upcall_info
        (upcall_info_object false
          (λ c. ok tt)
          (get_type installed false Types.upcall_info
            (get_type installed false Types.data_packet no_classes).1).0)
        Upcall.interest
        2
        (raise system_error)
        (ok 6))
      Upcall.interest
      9
      store
    ≡ fault
upcall_handler-fault_example =
    upcall_handler-fault false installed (λ c. ok tt) (negsuc 0) method_of
      (λ kind info store. (ok none, store)) Upcall.interest 2 9 70 (raise system_error) (ok 6) store
      (ask installed Types.data_packet here) closure_of-9 refl

-- Closure 70 has no method.
abbrev without_method : ℕ → Run (Upcall.Method ℕ ℕ)
without_method closure = raise system_error

abbrev express_args : Upcall.ExpressArgs
express_args = record {
  is_ndn = true;
  is_name = true;
  is_closure = true;
  is_template = true;
  handle = ok tt;
  name = ok tt;
  template = ok tt;
}

abbrev asked : Closures.System
asked = record { store = store; held = 9 ∷ [] }

abbrev left_by : Run (ℤ × Upcall.Store)
left_by =
    Upcall.upcall_handler (negsuc 0) without_method
      (Upcall.upcall_info
        (upcall_info_object false (λ c. ok tt)
          (get_type installed false Types.upcall_info no_classes).0)
        Upcall.final 2 (raise system_error) (ok 6))
      Upcall.final 9 store
