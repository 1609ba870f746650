-- ===== src/Pyndn/Classes.antt =====
-- The table of classes of csrc/pyndn.c over any sequence of calls of _pyndn_get_type(), each with what
-- Python then has to import.
use py_ccn.Base.{
  ℕ, ◌≡◌, refl, ap, Bool, none, some, ◌==◌, ==_iff, arith, inl, inr, Option-cases, Bool-cases,
}
use py_ccn.Base.Run.{Run, ok, raise, fault, ◌>>=◌, >>=-eq-ok, or_raise, system_error}
use py_ccn.Pyndn.Types.{
  ClassType, to_int, Classes, Python, entry_of, look_up, kept, get_type, Entry, IsListed, home,
  entry_of-listed,
}

module _ {C : Type 0} (asserts : Bool) where
  -- What calls for any types make of the classes that are kept.
  pub data Reach (start : Classes C) : Classes C → Type 1 where
    here : Reach start start
    ask :
        {classes : Classes C} (python : Python C) (t : ClassType)
        → Reach start classes
        → Reach start (get_type python asserts t classes).1

  kept-some :
      (classes : Classes C) (u : ClassType) (found : Run C) (n : ℕ) (c : C)
      → classes (to_int u) ≡ none
      → classes n ≡ some c
      → kept classes u found n ≡ some c
  unfolding kept
  kept-some classes u fault n c e f = f
  kept-some classes u (raise x) n c e f = f
  kept-some classes u (ok d) n c e f = elim (Bool-cases (to_int u == n)) [
    | inl same ↦ ground (arith, ap classes ((==_iff (to_int u) n).0 same), e, f)
    | inr other ↦ rw other f
  ]

  get_type-some :
      (python : Python C) (classes : Classes C) (u : ClassType) (n : ℕ) (c : C)
      → classes n ≡ some c
      → (get_type python asserts u classes).1 n ≡ some c
  unfolding get_type
  get_type-some python classes u n c f = elim (Option-cases (classes (to_int u))) [
    | inl e ↦ rw (get_type, e) (kept-some classes u (entry_of asserts u >>= look_up python) n c e f)
    | inr (d, e) ↦ rw (get_type, e) f
  ]

  Reach-some :
      {classes later : Classes C} (n : ℕ) (c : C)
      → Reach classes later
      → classes n ≡ some c
      → later n ≡ some c
  Reach-some n c here f = f
  Reach-some n c (ask {classes} python u reach) f =
      get_type-some python classes u n c (Reach-some n c reach f)

  get_type-returned :
      (python : Python C) (classes : Classes C) (t : ClassType) (c : C)
      → (get_type python asserts t classes).0 ≡ ok c
      → ((get_type python asserts t classes).1 (to_int t) ≡ some c)
        × ((entry : Entry) × (entry_of asserts t ≡ ok entry))
  unfolding get_type kept
  get_type-returned python classes t c f = elim (Option-cases (classes (to_int t))) [
    | inr (d, e) ↦
        let (entry, found, is) =
          >>=-eq-ok (entry_of asserts t) (λ p. ok d) {result = c} (ground (arith, f, e)) in
        (ground (arith, is, f, e), (entry, found))
    | inl e ↦
        let returned : (entry_of asserts t >>= look_up python) ≡ ok c = ground (arith, f, e) in
        let (entry, found, is) = >>=-eq-ok (entry_of asserts t) (look_up python) returned in
        (ground (arith, e, returned, (==_iff (to_int t) (to_int t)).1 refl), (entry, found))
  ]

  -- A class that is not kept yet is looked up under its own name in the package.
  get_type-first :
      (python : Python C) (classes : Classes C) (t : ClassType)
      → IsListed t
      → classes (to_int t) ≡ none
      → (get_type python asserts t classes).0 ≡ (
          python.import_module (home t).0 >>= λ m.
          or_raise (python.get_item m (home t).1) system_error)
  unfolding get_type look_up
  get_type-first python classes t h e = rw (get_type, e, entry_of-listed asserts t h) refl

  -- A class that _pyndn_get_type() has once returned it returns ever after, whatever else is asked for
  -- in between, without looking it up again: what Python could then import makes no difference.
  pub get_type-settled :
      (classes : Classes C) {later : Classes C} (python other : Python C) (t : ClassType) (c : C)
      → (get_type python asserts t classes).0 ≡ ok c
      → Reach (get_type python asserts t classes).1 later
      → get_type other asserts t later ≡ (ok c, later)
  unfolding get_type
  get_type-settled classes {later} python other t c f reach =
      let (is, (entry, e)) = get_type-returned python classes t c f in
      rw (get_type, Reach-some (to_int t) c reach is, e) refl
