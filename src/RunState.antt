-- ===== src/RunState.antt =====
-- csrc/util.c: the chain of the handles for which ndn_run() is executing, and its users
-- _pyndn_cmd_run() and _pyndn_cmd_is_run_executing() in csrc/methods_handle.c. A handle is a number,
-- and the chain of malloc'ed nodes is the list of their handles, the newest first.
pub mod Threads
pub mod Bag
mod Runs
use py_ccn.Base.{ℕ, Bool, true, false, Option, none, some, List, [], ◌∷◌, ◌==◌, if◌then◌else◌}
use py_ccn.Base.Run.{Run, ok, raise, type_error, memory_error, ndn_error}

abbrev pub Chain : Type 0
Chain = List ℕ

-- `allocated` says whether malloc() gives a node.
unfoldable pub run_state_add : (allocated : Bool) → ℕ → Chain → Run Chain
run_state_add true handle chain = ok (handle ∷ chain)
run_state_add false handle chain = raise memory_error

-- The node that is found, with what follows it.
unfoldable pub run_state_find : ℕ → Chain → Option Chain
run_state_find handle [] = none
run_state_find handle (p ∷ ps) = if p == handle then some (p ∷ ps) else run_state_find handle ps

-- The loop of _pyndn_run_state_clear() behind the node `q`.
unfoldable pub unlink_after : ℕ → Chain → Chain
unlink_after handle [] = []
unlink_after handle (p ∷ ps) = if p == handle then ps else p ∷ unlink_after handle ps

-- none is the read through the null pointer of an empty chain.
unfoldable pub run_state_clear : ℕ → Chain → Option Chain
unfolding unlink_after
run_state_clear handle [] = none
run_state_clear handle (p ∷ ps) = if p == handle then some ps else some (p ∷ unlink_after handle ps)

unfoldable pub cmd_is_run_executing : Option ℕ → Chain → Run Bool
cmd_is_run_executing none chain = raise type_error
cmd_is_run_executing (some handle) chain = elim (run_state_find handle chain) [
  | none ↦ ok false
  | some p ↦ ok true
]

-- What Python sees of the result of ndn_run().
unfoldable pub run_result : (failed : Bool) → Run (Unit {0})
run_result true = raise ndn_error
run_result false = ok tt

-- The result and the chain; none is a fault. ndn_run() runs with the lock of the interpreter
-- released, so the chain at its return is what `ndn_run` makes of the chain at its call.
unfoldable pub cmd_run :
    (allocated : Bool)
    → (ndn_run : Chain → Bool × Chain) → Option ℕ
    → Chain
    → Option (Run (Unit {0}) × Chain)
unfolding run_state_add run_result
cmd_run allocated ndn_run none chain = some (raise type_error, chain)
cmd_run false ndn_run (some handle) chain = some (raise memory_error, chain)
cmd_run true ndn_run (some handle) chain =
    let during = ndn_run (handle ∷ chain) in
    elim (run_state_clear handle during.1) [
      | none ↦ none
      | some left ↦ some (run_result during.0, left)
    ]
