-- ===== src/Upcall/Runs.antt =====
-- Runs of closures of csrc/methods_handle.c: one Interest is expressed, and its closure is called.
use py_ccn.Base.{ℕ, zero, suc, ◌≡◌, refl, true, none, some, [], ◌∷◌}
use py_ccn.Base.Int.{pos, negsuc}
use py_ccn.Base.Run.{Run, ok, raise, fault, ndn_error}
use py_ccn.Upcall
use py_ccn.Upcall.Closures

abbrev express_args : Upcall.ExpressArgs
express_args = record {
  is_ndn = true;
  is_name = true;
  is_closure = true;
  is_template = true;
  handle = ok tt;
  name = ok tt;
  template = ok tt;
}

abbrev numbers : Upcall.UpcallInfo ℕ ℕ
numbers = record { matched_comps = 2; packet = some 5; asked = some 6 }

-- Closure 0 has no method, any other one answers.
abbrev method_of : ℕ → Run (Upcall.Method ℕ ℕ)
method_of zero = raise ndn_error
method_of (suc closure) = ok (λ kind info store. (ok (some (pos 1)), store))

abbrev asked : Closures.System
asked = record { store = (9, 70) ∷ []; held = 9 ∷ [] }

final_run :
    Upcall.upcall_handler (negsuc 0) method_of (ok numbers) Upcall.final 9 asked.store
    ≡ ok (pos 1, [])
unfolding Upcall.upcall_handler Upcall.closure_of Upcall.release
final_run = refl

upcall_info_run :
    Upcall.upcall_info {D = ℕ} {I = ℕ} (ok tt) Upcall.final 2 fault fault
    ≡ ok (record { matched_comps = 2; packet = none; asked = none })
unfolding Upcall.upcall_info
upcall_info_run = refl
