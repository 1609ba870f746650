-- ===== src/Namecrypto/NewState.antt =====
-- _pyndn_cmd_nc_new_state() of csrc/methods_namecrypto.c: a state of its own for an application, in a
-- capsule of csrc/objects.c.
use py_ccn.Base.{
  ◌≡◌, refl, ap, Bool, true, none, List, [], ◌∷◌, ◌++◌, inl, inr, Bool-cases, if◌then◌else◌,
}
use py_ccn.Base.Run.{Run, ok, raise, fault, ◌>>=◌, memory_error}
use py_ccn.Objects.{namecrypto_state}
use py_ccn.Objects.Types.{Build, name2type, type2name-state, type2name-unserved}
use py_ccn.Objects.Lifetime.{
  Capsule, Memory, Release, Outcome, free_state, no_context, object_new, destroy,
}
use py_ccn.Namecrypto.State.{State, state_init}

-- The state is freed where NDNObject_New() gives no capsule.
unfoldable pub free_state_on_failure : Outcome → Run (Capsule × State) × List Release
free_state_on_failure (ok c, rs) = (ok (c, state_init), rs)
free_state_on_failure (raise e, rs) = (raise e, rs ++ (free_state ∷ []))
free_state_on_failure (fault, rs) = (fault, rs)

-- `allocated` says whether malloc() gives a state.
unfoldable pub cmd_nc_new_state :
    Build → (allocated : Bool) → Memory → Run (Capsule × State) × List Release
unfolding free_state_on_failure
cmd_nc_new_state b allocated m =
    if allocated
    then free_state_on_failure (object_new b m namecrypto_state)
    else (raise memory_error, [])

-- The capsule that a build without assertions gets: its name is a null pointer.
abbrev pub nameless : Capsule
nameless = record { name = none; context = no_context }

-- Where there is memory enough, a build with assertions aborts in nc_new_state(). One without them gets
-- a state, in a capsule without a name, on which the destructor aborts: no state can be made and then
-- given up.
pub cmd_nc_new_state-fault :
    (b : Build) (m : Memory)
    → b.namecrypto ≡ true
    → m.capsule ≡ true
    → (cmd_nc_new_state b true m
        ≡ (if b.asserts then (fault, []) else (ok (nameless, state_init), [])))
      × (destroy b nameless ≡ fault)
      × (((cmd_nc_new_state b true m).0 >>= λ made. destroy b made.0) ≡ fault)
unfolding cmd_nc_new_state object_new destroy name2type free_state_on_failure
cmd_nc_new_state-fault b m nc room = elim (Bool-cases b.asserts) [
  | inl dbg ↦
      let named = (type2name-unserved b dbg).1 in
      let none_made : object_new b m namecrypto_state ≡ (fault, []) = rw (object_new, named) refl in
      let made : cmd_nc_new_state b true m ≡ (fault, []) = ap free_state_on_failure none_made in
      (rw (made, dbg) refl, refl, rw made refl)
  | inr rel ↦
      let named = type2name-state b rel nc in
      let one_made : object_new b m namecrypto_state ≡ (ok nameless, []) =
        rw (object_new, named, room) refl in
      let made : cmd_nc_new_state b true m ≡ (ok (nameless, state_init), []) =
        ap free_state_on_failure one_made in
      (rw (made, rel) refl, refl, rw made refl)
]
