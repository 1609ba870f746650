-- ===== src/Objects/Access.antt =====
-- The use of a capsule in csrc/objects.c: NDNObject_IsValid(), NDNObject_ReqType(), NDNObject_Get(),
-- NDNObject_Borrow() and NDNObject_New_Closure().
use Prim.Native.String.{String}
use py_ccn.Base.{
  ◌≡◌, refl, ◌↔◌, Bool, true, false, Option, none, some, [], ◌∷◌, ◌++◌, if◌then◌else◌, arith,
}
use py_ccn.Base.Run.{Run, ok, raise, fault, ◌>>=◌, ◌>>◌, type_error, memory_error}
use py_ccn.Objects.{CapsuleType, closure, content_object, interest}
use py_ccn.Objects.Types.{Build, check, type2name, name2type, IsServed, name2type-type2name}
use py_ccn.Objects.Lifetime.{
  Capsule, Memory, Outcome, no_context, free_closure, content_object_data, interest_data,
  object_new,
}

-- NDNObject_Borrow(): a capsule without a destructor. `allocated` says whether PyCapsule_New() gives
-- one; without assertions the null pointer is returned.
unfoldable pub object_borrow : Build → (allocated : Bool) → CapsuleType → Run (Option Capsule)
object_borrow b allocated t = do
  n ← type2name b t
  check b allocated
  ok (if allocated then some (record { name = n; context = no_context }) else none)

unfoldable pub free_on_failure : Outcome → Outcome
free_on_failure (ok c, rs) = (ok c, rs)
free_on_failure (raise e, rs) = (raise e, rs ++ (free_closure ∷ []))
free_on_failure (fault, rs) = (fault, rs)

-- NDNObject_New_Closure()
unfoldable pub new_closure : Build → (allocated : Bool) → Memory → Outcome
unfolding object_new free_on_failure
new_closure b allocated m =
    if allocated then free_on_failure (object_new b m closure) else (raise memory_error, [])

-- PyCapsule_IsValid() of a capsule's name and the name asked for is `matches`.
module _ (matches : Option String → Option String → Bool) where
  unfoldable pub object_is_valid : Build → CapsuleType → Capsule → Run Bool
  object_is_valid b t c = do n ← type2name b t; ok (matches c.name n)

  unfoldable pub object_req_type : Build → CapsuleType → Capsule → Run (Unit {0})
  unfolding object_is_valid
  object_req_type b t c = do r ← object_is_valid b t c; if r then ok tt else raise type_error

  -- Without assertions a capsule of another type gives the null pointer.
  unfoldable pub object_get :
      {A : Type 0} → Build → CapsuleType → Capsule → (pointer : A) → Run (Option A)
  unfolding object_is_valid
  object_get b t c pointer = do
    r ← object_is_valid b t c
    check b r
    ok (if r then some pointer else none)

module _ (matches : Option String → Option String → Bool) where
  module _ (law : (n m : String) → (matches (some n) (some m) ≡ true) ↔ (n ≡ m)) (b : Build)
      (m : Memory) (p : m.capsule ≡ true) (q : m.context ≡ true) (r : m.set_context ≡ true) where
    made_named :
        (t : CapsuleType) (s : String)
        → type2name b t ≡ ok (some s)
        → (c : Capsule) × (object_new b m t ≡ (ok c, [])) × (c.name ≡ some s)
    unfolding object_new
    made_named content_object s e = (
      record { name = some s; context = content_object_data false false },
      ground (arith, e),
      refl,
    )
    made_named interest s e =
        (record { name = some s; context = interest_data false }, ground (arith, e), refl)
    made_named _ s e = (record { name = some s; context = no_context }, ground (arith, e), refl)

    same_type :
        (t u : CapsuleType) (s v : String)
        → type2name b t ≡ ok (some s)
        → type2name b u ≡ ok (some v)
        → name2type b (some s) ≡ ok t
        → name2type b (some v) ≡ ok u
        → (matches (some s) (some v) ≡ true) ↔ (t ≡ u)
    same_type t u s v e f g h = (λ x. let is = (law s v).0 x in cc, λ x. (law s v).1 cc)

    -- A capsule that NDNObject_New() made, with memory enough, is valid as one type alone, its own:
    -- NDNObject_ReqType() lets no other type pass, and NDNObject_Get() gives its pointer for no
    -- other. SIGNING_PARAMS and NAMECRYPTO_STATE are left out.
    pub object_get-object_new :
        {A : Type 0} (t u : CapsuleType) (pointer : A)
        → IsServed t
        → IsServed u
        → (c : Capsule) × (object_new b m t ≡ (ok c, []))
          × ((object_is_valid matches b u c ≡ ok true) ↔ (t ≡ u))
          × ((object_req_type matches b u c ≡ ok tt) ↔ (t ≡ u))
          × ((object_get matches b u c pointer ≡ ok (some pointer)) ↔ (t ≡ u))
    unfolding object_is_valid object_req_type object_get
    object_get-object_new t u pointer st su =
        let (s, e, g) = name2type-type2name b t st in
        let (v, f, h) = name2type-type2name b u su in
        let (c, made, named) = made_named t s e in
        let same = same_type t u s v e f g h in
        (
          c,
          made,
          ground (arith, f, named, same),
          ground (arith, f, named, same),
          ground (arith, f, named, same),
        )
