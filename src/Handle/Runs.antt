-- ===== src/Handle/Runs.antt =====
-- Runs of get() and put() of csrc/methods_handle.c on the packet of Data/Sample.
use py_ccn.Base.{ℕ, ◌≡◌, refl, true, Option, none, some, [], ◌∷◌, Bytes}
use py_ccn.Base.Int.{ℤ, pos}
use py_ccn.Base.Run.{ok, raise, ◌>>=◌, io_error}
use py_ccn.Wire.Instance.{unary_lib}
use py_ccn.Ndnb.Instance.{cursor}
use py_ccn.SignedInfo.{not_given}
use py_ccn.Data.Packet.{Parsed, data_obj_from_ndn_buffer}
use py_ccn.Data.Sample.{keys, key_obj, buf, pco, comps}
use py_ccn.Handle
use py_ccn.Handle.{Got, got, get_failed, GetArgs}
use py_ccn.Handle.Get

abbrev parse : Bytes → Option (Parsed × Unit {0})
parse b = some (pco comps, tt)

abbrev value : Bytes → Parsed → Option Bytes
value b p = some (104 ∷ 105 ∷ [])

abbrev answers : ℕ → Bytes → Option Bytes → ℤ → Got (Unit {0})
answers h name interest timeout = got (buf comps) (pco comps) tt

abbrev args : GetArgs ℕ
args = record {
  is_ndn = true;
  handle = ok 4;
  is_name = true;
  name = ok (1 ∷ []);
  interest = not_given;
  timeout = pos 3000;
}

cmd_get-data_obj_from_ndn_buffer_example :
    Handle.cmd_get parse value cursor unary_lib keys key_obj 0 answers true true args ≡ (
      data_obj_from_ndn_buffer parse true true value cursor unary_lib keys key_obj 0
        (some (buf comps))
      >>= λ py_data. ok (some py_data))
unfolding Handle.interest_argument
cmd_get-data_obj_from_ndn_buffer_example =
    Get.cmd_get-data_obj_from_ndn_buffer parse value cursor unary_lib keys key_obj 0 answers args 4
      (1 ∷ []) none refl refl refl refl refl (buf comps) (pco comps) tt refl refl

-- No answer in time, and an answer that is an error.
silent_run :
    Handle.cmd_get parse value cursor unary_lib keys key_obj 0
      (λ (h : ℕ) n i t. get_failed 0)
      true
      true
      args
    ≡ ok none
unfolding Handle.cmd_get Handle.interest_argument Handle.received
silent_run = refl

failed_run :
    Handle.cmd_get parse value cursor unary_lib keys key_obj 0
      (λ (h : ℕ) n i t. get_failed 5)
      true
      true
      args
    ≡ raise io_error
unfolding Handle.cmd_get Handle.interest_argument Handle.received
failed_run = refl

put_run : Handle.cmd_put (λ (h : ℕ) b. none) true true (ok 4) (ok (1 ∷ [])) ≡ raise io_error
unfolding Handle.cmd_put
put_run = refl
