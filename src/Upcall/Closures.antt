-- ===== src/Upcall/Closures.antt =====
-- The closures of csrc/methods_handle.c over calls and upcalls in any order, also upcalls in which
-- Python hands over more closures.
use py_ccn.Base.{
  ℕ, ◌≡◌, refl, inl, inr, Bool, true, false, none, some, List, [], ◌∷◌, ◌==◌, Bool-cases,
  if◌then◌else◌, arith,
}
use py_ccn.Base.Int.{ℤ}
use py_ccn.Base.Run.{Run, ok}
use py_ccn.Upcall.{
  Kind, is_final, Store, closure_of, release, UpcallInfo, Method, call_upcall, upcall_handler,
  ExpressArgs, express_interest, set_interest_filter,
}

pub record System : Type 0 where
  pub store : Store
  -- The capsules that ndn has taken and has not yet called with FINAL, the newest first.
  pub held : List ℕ

abbrev pub idle : System
idle = record { store = []; held = [] }

abbrev pub remove : ℕ → List ℕ → List ℕ
remove x [] = []
remove x (y ∷ ys) = if y == x then ys else y ∷ remove x ys

abbrev pub holds : ℕ → List ℕ → Bool
holds x [] = false
holds x (y ∷ ys) = if y == x then true else holds x ys

abbrev pub capsules : Store → List ℕ
capsules [] = []
capsules ((c, closure) ∷ store) = c ∷ capsules store

pub capsules-release :
    (capsule : ℕ) (store : Store)
    → capsules (release capsule store) ≡ remove capsule (capsules store)
unfolding release
capsules-release capsule [] = refl
capsules-release capsule ((c, closure) ∷ store) = ground (arith, capsules-release capsule store)

pub closure_of-holds :
    (capsule : ℕ) (store : Store)
    → holds capsule (capsules store) ≡ true
    → (closure : ℕ) × (closure_of capsule store ≡ some closure)
unfolding closure_of
closure_of-holds capsule [] h = cc
closure_of-holds capsule ((c, closure) ∷ store) h = elim (Bool-cases (c == capsule)) [
  | inl e ↦ (closure, ground (arith, e))
  | inr e ↦
      let (found, is) = closure_of-holds capsule store (ground (arith, e, h)) in
      (found, ground (arith, e, is))
]

module _ (D I : Type 0) (result_err : ℤ) where
  -- ndn takes a closure or refuses it, or calls one that is alive, as each is that it holds. The
  -- method of the closure leaves the bindings in a reachable `u`. After FINAL ndn does not hold the
  -- closure any more.
  pub data Reach (s : System) : System → Type 0 where
    here : Reach s s
    express :
        {t : System} (a : ExpressArgs) (r : ℤ) (capsule closure : ℕ) (store : Store)
        → Reach s t
        → express_interest a true (some r) capsule closure t.store ≡ (ok tt, store)
        → Reach s (record { store = store; held = capsule ∷ t.held })
    filter :
        {t : System} (is_handle is_name is_closure : Bool) (r : ℤ) (capsule closure : ℕ)
        → (store : Store) → Reach s t
        → set_interest_filter is_handle is_name is_closure true (some r) capsule closure t.store
          ≡ (ok r, store)
        → Reach s (record { store = store; held = capsule ∷ t.held })
    refused :
        {t : System} (a : ExpressArgs) (capsule closure : ℕ)
        → Reach s t
        → Reach s (record {
          store = (express_interest a true none capsule closure t.store).1;
          held = t.held;
        })
    upcall :
        {t u : System} (method_of : ℕ → Run (Method D I)) (info : Run (UpcallInfo D I))
        → (kind : Kind) (capsule closure : ℕ) (answer : ℤ) (store : Store) → Reach s t
        → closure_of capsule t.store ≡ some closure
        → Reach s u
        → (call_upcall (method_of closure) info kind t.store).1 ≡ u.store
        → upcall_handler result_err method_of info kind capsule t.store ≡ ok (answer, store)
        → Reach s (record {
          store = store;
          held = if is_final kind then remove capsule u.held else u.held;
        })
