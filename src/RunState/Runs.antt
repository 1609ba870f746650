-- ===== src/RunState/Runs.antt =====
-- Two threads on the handles 5 and 6, and the theorems there.
use py_ccn.Base.{ℕ, ltb, ◌≡◌, refl, some, [], ◌∷◌, ◌++◌}
use py_ccn.Base.Run.{ok}
use py_ccn.RunState.{Chain, run_state_add, run_state_clear, cmd_is_run_executing}
use py_ccn.RunState.Bag.{BagReach, bag_of, occurrences, Reach-Bag}
use py_ccn.RunState.Threads.{
  count, System, Reach, here, next, enter, leave, idle, run_state_clear-running,
}

abbrev both : System
both = record { chain = 6 ∷ 5 ∷ []; running = 6 ∷ 5 ∷ [] }

-- The first thread leaves before the second.
abbrev second : System
second = record { chain = 6 ∷ []; running = 6 ∷ [] }

both-Reach : Reach idle both
unfolding run_state_add
both-Reach = next (next here (enter 5 (5 ∷ []) refl)) (enter 6 (6 ∷ 5 ∷ []) refl)

second-Reach : Reach idle second
unfolding run_state_clear
second-Reach = next both-Reach (leave 5 (6 ∷ []) [] (6 ∷ []) refl refl)

run_state_clear-running_example :
    (newer : Chain) × (older : Chain) × (both.chain ≡ newer ++ (5 ∷ older))
    × (count 5 newer ≡ 0)
    × (run_state_clear 5 both.chain ≡ some (newer ++ older))
run_state_clear-running_example = run_state_clear-running 5 (6 ∷ []) [] both-Reach refl

Reach-Bag_example :
    BagReach (bag_of []) (bag_of second.chain)
    × (bag_of second.chain ≡ bag_of second.running)
    × ((h : ℕ)
        → cmd_is_run_executing (some h) second.chain
          ≡ ok (ltb 0 (occurrences h (bag_of second.chain))))
Reach-Bag_example = Reach-Bag second-Reach
