-- ===== src/RunState/Bag.antt =====
-- The chain of csrc/util.c as a bag of handles, whatever the order of its nodes: what the threads that
-- enter and leave _pyndn_cmd_run() do to it, and what is_run_executing() reads off it.
use py_ccn.Base.{ℕ, ◌<◌, ◌≡◌, some, [], ◌∷◌, ltb, arith}
use py_ccn.Base.Run.{ok}
use mathlib.Core.Quot
use mathlib.Core.Quot.{Quot, Quot-set}
use native.Mathlib.Nat.{ℕ_set}
use py_ccn.RunState.{Chain, run_state_add, run_state_clear, cmd_is_run_executing}
use py_ccn.RunState.Threads
use py_ccn.RunState.Threads.{
  count, count-append, count-clear, find-count, System, Step, Reach, idle, Tracks, Reach-Tracks,
}

-- The same handles, each as often.
abbrev pub SameItems : Chain → Chain → Type 0
SameItems xs ys = (h : ℕ) → count h xs ≡ count h ys

abbrev pub Bag : Type 0
Bag = Quot SameItems

abbrev pub bag_of : Chain → Bag
bag_of = Quot.mk

abbrev pub occurrences : ℕ → Bag → ℕ
occurrences h = Quot.lift ℕ_set (count h) (λ xs ys same. same h)

pub SameItems-cons : (h : ℕ) (xs ys : Chain) → SameItems xs ys → SameItems (h ∷ xs) (h ∷ ys)
SameItems-cons h xs ys same j = ground (arith, same j)

abbrev pub put : ℕ → Bag → Bag
put h =
    Quot.lift Quot-set (λ xs. bag_of (h ∷ xs))
      (λ xs ys same. Quot.sound (SameItems-cons h xs ys same))

-- A thread enters, or one that has entered leaves.
pub data BagStep (b : Bag) : Bag → Type 0 where
  enter : (h : ℕ) → BagStep b (put h b)
  leave : (h : ℕ) (left : Bag) → b ≡ put h left → BagStep b left

pub data BagReach (b : Bag) : Bag → Type 0 where
  here : BagReach b b
  next : {c d : Bag} → BagReach b c → BagStep c d → BagReach b d

cleared-SameItems :
    (h : ℕ) (chain left : Chain)
    → 0 < count h chain
    → run_state_clear h chain ≡ some left
    → SameItems chain (h ∷ left)
cleared-SameItems h chain left some_h e j = ground (arith, count-clear h j chain left e, some_h)

added : (c d : Chain) → ok d ≡ ok c → c ≡ d
added c d e = cc

Step-BagStep : {s t : System} → Tracks s → Step s t → BagStep (bag_of s.chain) (bag_of t.chain)
unfolding run_state_add
Step-BagStep {s} tr (Threads.enter h chain e) = rw (added chain (h ∷ s.chain) e) (enter h)
Step-BagStep {s} tr (Threads.leave h before after chain e f) = leave h (bag_of chain) (
    Quot.sound (
      cleared-SameItems h s.chain chain (ground (arith, tr h, e, count-append h before (h ∷ after)))
        f))

Reach-BagReach : {s : System} → Reach idle s → BagReach (bag_of []) (bag_of s.chain)
Reach-BagReach Threads.here = here
Reach-BagReach (Threads.next r st) = next (Reach-BagReach r) (Step-BagStep (Reach-Tracks r) st)

-- However threads enter and leave, from no thread at all, the chain refines a bag of handles: each entering thread puts its
-- handle in, each leaving one takes its handle out, the bag is that of the running handles, and
-- is_run_executing() answers whether a handle occurs in it.
pub Reach-Bag :
    {s : System}
    → Reach idle s
    → BagReach (bag_of []) (bag_of s.chain)
      × (bag_of s.chain ≡ bag_of s.running)
      × ((h : ℕ)
          → cmd_is_run_executing (some h) s.chain ≡ ok (ltb 0 (occurrences h (bag_of s.chain))))
Reach-Bag {s} r =
    (Reach-BagReach r, Quot.sound (Reach-Tracks r), λ h. ground (arith, find-count h s.chain))
