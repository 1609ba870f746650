-- ===== src/Pyndn/Upcalls.antt =====
-- The upcalls of csrc/methods_handle.c with the class that UpcallInfo_obj_from_ndn() asks for, which is
-- not at its place in the table of csrc/pyndn.c.
use py_ccn.Base.{
  ℕ, ◌≡◌, refl, ap, ◌∙◌, Bool, true, false, none, some, ◌==◌, if◌then◌else◌, inl, inr, Option-cases,
}
use py_ccn.Base.Int.{ℤ}
use py_ccn.Base.Run.{Run, ok, raise, fault, ◌>>=◌}
use py_ccn.Upcall.Closures
use py_ccn.Upcall.{Kind, Store, closure_of, Method, upcall_info, call_upcall, upcall_handler}
use py_ccn.Pyndn.Types.{
  ClassType, to_int, Classes, no_classes, keep, Python, entry_of, look_up, kept, get_type,
}
use py_ccn.Pyndn.Types
use py_ccn.Pyndn.Classes.{Reach, here, ask}

-- assert(g_type_UpcallInfo), and the call of the class: a null pointer fails the assertion, and without
-- assertions it is not called. `call` is what calling a class without arguments gives.
unfoldable pub upcall_info_object :
    {C : Type 0} (asserts : Bool) → (call : C → Run (Unit {0})) → Run C → Run (Unit {0})
upcall_info_object asserts call (ok c) = call c
upcall_info_object asserts call (raise e) = if asserts then fault else raise e
upcall_info_object asserts call fault = fault

entry_of-upcall_info :
    {C : Type 0} (asserts : Bool) (python : Python C)
    → (entry_of asserts Types.upcall_info >>= look_up python) ≡ fault
unfolding entry_of look_up
entry_of-upcall_info true python = refl
entry_of-upcall_info false python = refl

kept-other :
    {C : Type 0} (classes : Classes C) (t : ClassType) (found : Run C) (n : ℕ)
    → (to_int t == n) ≡ false
    → kept classes t found n ≡ classes n
unfolding kept
kept-other classes t fault n e = refl
kept-other classes t (raise x) n e = refl
kept-other classes t (ok c) n e = rw e refl

kept-none :
    {C : Type 0} (asserts : Bool) (python : Python C) (classes : Classes C) (t : ClassType)
    → classes 10 ≡ none
    → kept classes t (entry_of asserts t >>= look_up python) 10 ≡ none
unfolding kept
kept-none asserts python classes Types.upcall_info e =
    ap (λ found. kept classes Types.upcall_info found 10) (entry_of-upcall_info asserts python) ∙ e
kept-none asserts python classes t e =
    kept-other classes t (entry_of asserts t >>= look_up python) 10 refl ∙ e

module _ {C : Type 0} (asserts : Bool) where
  get_type-none :
      (python : Python C) (classes : Classes C) (t : ClassType)
      → classes 10 ≡ none
      → (get_type python asserts t classes).1 10 ≡ none
  unfolding get_type kept
  get_type-none python classes t e = elim (Option-cases (classes (to_int t))) [
    | inr (c, f) ↦ rw (get_type, f) e
    | inl f ↦ rw (get_type, f) (kept-none asserts python classes t e)
  ]

  -- The class of an UpcallInfo is never kept.
  Reach-none : {classes : Classes C} → Reach asserts no_classes classes → classes 10 ≡ none
  Reach-none here = refl
  Reach-none (ask {classes} python t reach) = get_type-none python classes t (Reach-none reach)

  get_type-upcall_info :
      {classes : Classes C} (python : Python C)
      → Reach asserts no_classes classes
      → (get_type python asserts Types.upcall_info classes).0 ≡ fault
  unfolding get_type
  get_type-upcall_info python reach =
      rw (get_type, Reach-none reach) (entry_of-upcall_info asserts python)

  -- ndn_upcall_handler() aborts on every upcall of a closure that has a method "upcall", whatever
  -- classes were asked for before and whatever Python can import, with assertions and without: the
  -- table has the end of the table where the class UpcallInfo is looked for.
  pub upcall_handler-fault :
      {D I : Type 0} {classes : Classes C} (python : Python C) (call : C → Run (Unit {0}))
      → (result_err : ℤ) (method_of : ℕ → Run (Method D I)) (method : Method D I) (kind : Kind)
      → (matched_comps capsule closure : ℕ) (data_obj : Run D) (interest_obj : Run I)
        (store : Store)
      → Reach asserts no_classes classes
      → closure_of capsule store ≡ some closure
      → method_of closure ≡ ok method
      → upcall_handler result_err method_of
          (upcall_info
            (upcall_info_object asserts call (get_type python asserts Types.upcall_info classes).0)
            kind
            matched_comps
            data_obj
            interest_obj)
          kind
          capsule
          store
        ≡ fault
  unfolding upcall_handler upcall_info upcall_info_object call_upcall
  upcall_handler-fault python call result_err method_of method kind matched_comps capsule closure
        data_obj interest_obj store reach f g =
      rw (upcall_handler, f, g, get_type-upcall_info python reach) refl
