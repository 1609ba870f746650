-- ===== src/Key/FileHandle.antt =====
-- The file that PEM_read_key() and PEM_write_key() of csrc/methods_key.c are given:
-- _pyndn_open_file_handle() and _pyndn_close_file_handle() of csrc/util.c around its use.
use py_ccn.Base.{
  ℕ, suc, zero, ◌≡◌, refl, Bool, true, false, Option, none, some, List, [], ◌∷◌, ◌++◌,
}
use py_ccn.Base.Run.{Run, ok, raise, fault, io_error}

-- dup(), close(), and fclose(), which closes the descriptor of its stream.
pub data Step : Type 0 where
  dup close fclose : Step

-- _pyndn_open_file_handle(): the steps that succeed. `descriptor` is what PyObject_AsFileDescriptor()
-- gives; `duplicated` and `opened` say whether dup() and fdopen() succeed.
unfoldable pub open_file_handle :
    (descriptor : Run (Unit {0})) (duplicated opened : Bool) → Run (Unit {0}) × List Step
open_file_handle (raise e) duplicated opened = (raise e, [])
open_file_handle fault duplicated opened = (fault, [])
open_file_handle (ok fd) false opened = (raise io_error, [])
open_file_handle (ok fd) true false = (raise io_error, dup ∷ close ∷ [])
open_file_handle (ok fd) true true = (ok tt, dup ∷ [])

-- A use of the file between its opening and its closing.
unfoldable pub use_stream : {A : Type 0} → Run A → Run (Unit {0}) × List Step → Run A × List Step
use_stream used (ok fin, steps) = (used, steps ++ (fclose ∷ []))
use_stream used (raise e, steps) = (raise e, steps)
use_stream used (fault, steps) = (fault, steps)

unfoldable pub with_file :
    {A : Type 0}
    → (descriptor : Run (Unit {0})) (duplicated opened : Bool) → (used : Run A) → Run A × List Step
unfolding open_file_handle use_stream
with_file descriptor duplicated opened used =
    use_stream used (open_file_handle descriptor duplicated opened)

-- Descriptors that are open after the steps, when `n` were open before.
abbrev pub open_after : ℕ → List Step → Option ℕ
open_after n [] = some n
open_after n (dup ∷ steps) = open_after (suc n) steps
open_after zero (_ ∷ steps) = none
open_after (suc n) (_ ∷ steps) = open_after n steps

-- Whatever fails, and whatever the use of the file gives, no descriptor is left open and none is closed
-- twice.
pub with_file-balanced :
    {A : Type 0} (descriptor : Run (Unit {0})) (duplicated opened : Bool) (used : Run A)
    → open_after 0 (with_file descriptor duplicated opened used).1 ≡ some 0
unfolding with_file
with_file-balanced (raise e) duplicated opened used = refl
with_file-balanced fault duplicated opened used = refl
with_file-balanced (ok fd) false opened used = refl
with_file-balanced (ok fd) true false used = refl
with_file-balanced (ok fd) true true used = refl
