-- ===== src/RunState/Threads.antt =====
-- Threads that enter and leave _pyndn_cmd_run() in any order, and the chain meanwhile.
use py_ccn.Base.{
  ℕ, suc, ◌+◌, ◌-◌, ◌<◌, ◌≡◌, refl, ◌↔◌, Bool, true, false, Option, none, some, List, [], ◌∷◌, ◌++◌,
  ◌==◌, if◌then◌else◌, arith, ap, inl, inr, Bool-cases,
}
use py_ccn.Base.Run.{Run, ok}
use py_ccn.RunState.{
  Chain, run_state_add, run_state_find, unlink_after, run_state_clear, cmd_is_run_executing,
  cmd_run, run_result,
}

abbrev pub count : ℕ → List ℕ → ℕ
count h [] = 0
count h (x ∷ xs) = if x == h then suc (count h xs) else count h xs

pub count-append : (h : ℕ) (xs ys : List ℕ) → count h (xs ++ ys) ≡ count h xs + count h ys
count-append h [] ys = omega arith
count-append h (x ∷ xs) ys = ground (arith, count-append h xs ys)

pub record System : Type 0 where
  pub chain : Chain
  -- One entry for each thread inside of ndn_run().
  pub running : List ℕ

-- The other calls of the bindings leave the chain alone.
pub data Step (s : System) : System → Type 0 where
  enter :
      (h : ℕ) (chain : Chain)
      → run_state_add true h s.chain ≡ ok chain
      → Step s (record { chain = chain; running = h ∷ s.running })
  leave :
      (h : ℕ) (before after : List ℕ) (chain : Chain)
      → s.running ≡ before ++ (h ∷ after)
      → run_state_clear h s.chain ≡ some chain
      → Step s (record { chain = chain; running = before ++ after })

pub data Reach (s : System) : System → Type 0 where
  here : Reach s s
  next : {t u : System} → Reach s t → Step t u → Reach s u

abbrev pub idle : System
idle = record { chain = []; running = [] }

-- The chain holds each handle as often as it is running.
abbrev pub Tracks : System → Type 0
Tracks s = (h : ℕ) → count h s.chain ≡ count h s.running

count-unlink_after :
    (h j : ℕ) (ps : Chain)
    → count j (unlink_after h ps) ≡ (if h == j then count j ps - 1 else count j ps)
unfolding unlink_after
count-unlink_after h j [] = ground arith
count-unlink_after h j (p ∷ ps) = ground (arith, count-unlink_after h j ps)

pub count-clear :
    (h j : ℕ) (ps chain : Chain)
    → run_state_clear h ps ≡ some chain
    → count j chain ≡ (if h == j then count j ps - 1 else count j ps)
unfolding run_state_clear
count-clear h j [] chain e = cc
count-clear h j (p ∷ ps) chain e = ground (arith, count-unlink_after h j ps)

pub Step-Tracks : {s t : System} → Step s t → Tracks s → Tracks t
unfolding run_state_add
Step-Tracks (enter h chain e) tr j = ground (arith, tr j, e)
Step-Tracks {s} (leave h before after chain e f) tr j = ground (
  arith,
  tr j,
  count-clear h j s.chain chain f,
  count-append j before (h ∷ after),
  count-append j before after,
)

-- However the threads interleave, the chain is the bag of the running handles.
pub Reach-Tracks : {s : System} → Reach idle s → Tracks s
Reach-Tracks here h = refl
Reach-Tracks (next r st) h = Step-Tracks st (Reach-Tracks r) h

-- What _pyndn_run_state_clear() makes of a chain with the node: it takes out the newest one.
abbrev Cleared : (h : ℕ) (ps : Chain) → Type 0
Cleared h ps =
    (newer : Chain) × (older : Chain) × (ps ≡ newer ++ (h ∷ older))
    × (count h newer ≡ 0)
    × (run_state_clear h ps ≡ some (newer ++ older))

unlinked :
    (h : ℕ) (ps : Chain)
    → 0 < count h ps
    → (newer : Chain) × (older : Chain) × (ps ≡ newer ++ (h ∷ older))
      × (count h newer ≡ 0)
      × (unlink_after h ps ≡ newer ++ older)
unfolding unlink_after
unlinked h [] lt = absurd (omega arith)
unlinked h (p ∷ ps) lt = elim (Bool-cases (p == h)) [
  | inl e ↦ ([], ps, ground (arith, e), refl, rw e refl)
  | inr e ↦
      let (newer, older, whole, none_newer, left) = unlinked h ps (ground (arith, e, lt)) in
      (p ∷ newer, older, ap (◌∷◌ p) whole, ground (arith, e), rw e (ap (◌∷◌ p) left))
]

clear-Cleared : (h : ℕ) (ps : Chain) → 0 < count h ps → Cleared h ps
unfolding run_state_clear
clear-Cleared h [] lt = absurd (omega arith)
clear-Cleared h (p ∷ ps) lt = elim (Bool-cases (p == h)) [
  | inl e ↦ ([], ps, ground (arith, e), refl, rw e refl)
  | inr e ↦
      let (newer, older, whole, none_newer, left) = unlinked h ps (ground (arith, e, lt)) in
      (
        p ∷ newer,
        older,
        ap (◌∷◌ p) whole,
        ground (arith, e),
        rw e (ap (λ chain. some (p ∷ chain)) left),
      )
]

-- A thread that returns from ndn_run(), however the threads interleave, finds a node of its handle, so
-- the read through a null pointer does not happen: of these nodes the newest is taken out, and all
-- other nodes stay, in their order.
pub run_state_clear-running :
    {s : System} (h : ℕ) (before after : List ℕ)
    → Reach idle s
    → s.running ≡ before ++ (h ∷ after)
    → (newer : Chain) × (older : Chain) × (s.chain ≡ newer ++ (h ∷ older))
      × (count h newer ≡ 0)
      × (run_state_clear h s.chain ≡ some (newer ++ older))
run_state_clear-running {s} h before after r e =
    clear-Cleared h s.chain (ground (arith, Reach-Tracks r h, count-append h before (h ∷ after)))

pub find-count :
    (h : ℕ) (ps : Chain)
    → cmd_is_run_executing (some h) ps ≡ ok (if 0 == count h ps then false else true)
unfolding cmd_is_run_executing run_state_find
find-count h [] = refl
find-count h (p ∷ ps) = ground (arith, find-count h ps)

-- is_run_executing() answers True exactly for the handles that some thread is running.
pub is_run_executing-running :
    {s : System} (h : ℕ)
    → Reach idle s
    → (cmd_is_run_executing (some h) s.chain ≡ ok true) ↔ (0 < count h s.running)
is_run_executing-running {s} h r = ground (arith, Reach-Tracks r h, find-count h s.chain)

-- If ndn_run() leaves the chain as it was, so does _pyndn_cmd_run(), whatever its result is.
pub cmd_run-chain :
    (allocated : Bool) (ndn_run : Chain → Bool × Chain) (handle : Option ℕ) (chain : Chain)
    → ((c : Chain) → (ndn_run c).1 ≡ c)
    → (result : Run (Unit {0})) × (cmd_run allocated ndn_run handle chain ≡ some (result, chain))
unfolding cmd_run run_state_clear
cmd_run-chain allocated ndn_run none chain same = (_, refl)
cmd_run-chain false ndn_run (some h) chain same = (_, refl)
cmd_run-chain true ndn_run (some h) chain same =
    (run_result (ndn_run (h ∷ chain)).0, ground (arith, same (h ∷ chain)))
