-- ===== src/Objects/Lifetime.antt =====
-- The life of a capsule in csrc/objects.c: NDNObject_New(), NDNObject_New_charbuf() and the
-- destructor. What they give back to the allocators is a list, in the order of the calls.
use Prim.Native.String.{String}
use py_ccn.Base.{
  ℕ, suc, ◌≡◌, ◌≢◌, refl, Bool, true, false, Option, some, List, [], ◌∷◌, ◌++◌, if◌then◌else◌,
  arith,
}
use py_ccn.Base.Run.{Run, ok, raise, fault, ◌>>=◌, memory_error}
use py_ccn.Objects.{
  CapsuleType, closure, content_object, exclusion_filter, handle, interest, key_locator, name,
  pkey_priv, pkey_pub, signature, signed_info, signing_params, namecrypto_state,
}
use py_ccn.Objects.Types.{Build, type2name, name2type, name2type-type2name, IsServed}

pub data Release : Type 0 where
  destroy_charbuf destroy_comps free_pco free_pi free_context : Release
  decref_closure free_closure disconnect destroy_handle free_pubkey free_params free_state : Release

-- struct content_object_data and struct interest_data, by which of their pointers are set.
pub data Context : Type 0 where
  no_context closure_context : Context
  content_object_data : (pco comps : Bool) → Context
  interest_data : (pi : Bool) → Context

pub record Capsule : Type 0 where
  pub name : Option String
  pub context : Context

abbrev pub released_if : Bool → Release → List Release
released_if b r = if b then r ∷ [] else []

-- The switch of pyndn_Capsule_Destructor(). A closure without its context fails an assertion.
unfoldable pub releases : CapsuleType → Context → Run (List Release)
releases closure closure_context = ok (decref_closure ∷ free_closure ∷ [])
releases closure _ = fault
releases content_object (content_object_data pco comps) = ok (
    released_if pco free_pco
    ++ (released_if comps destroy_comps ++ (free_context ∷ destroy_charbuf ∷ [])))
releases content_object _ = ok (destroy_charbuf ∷ [])
releases handle _ = ok (disconnect ∷ destroy_handle ∷ [])
releases interest (interest_data pi) =
    ok (released_if pi free_pi ++ (free_context ∷ destroy_charbuf ∷ []))
releases interest _ = ok (destroy_charbuf ∷ [])
releases pkey_priv _ = ok (free_pubkey ∷ [])
releases pkey_pub _ = ok (free_pubkey ∷ [])
releases signing_params _ = ok (free_params ∷ [])
releases namecrypto_state _ = ok (free_state ∷ [])
releases _ _ = ok (destroy_charbuf ∷ [])

unfoldable pub destroy : Build → Capsule → Run (List Release)
unfolding releases
destroy b c = do t ← name2type b c.name; releases t c.context

-- Whether PyCapsule_New(), calloc() and PyCapsule_SetContext() succeed.
pub record Memory : Type 0 where
  pub capsule : Bool
  pub context : Bool
  pub set_context : Bool

-- What has been released besides the result.
abbrev pub Outcome : Type 0
Outcome = Run Capsule × List Release

-- The label `error`: the last reference goes, so the destructor runs.
unfoldable pub drop_capsule : Build → Option String → List Release → Outcome
unfolding destroy
drop_capsule b n before = elim (destroy b (record { name = n; context = no_context })) [
  | ok after ↦ (raise memory_error, before ++ after)
  | raise e ↦ (raise e, before)
  | fault ↦ (fault, before)
]

unfoldable pub with_context : Build → Memory → Option String → Context → Outcome
unfolding drop_capsule
with_context b m n context =
    if m.context
    then (if m.set_context
        then (ok (record { name = n; context = context }), [])
        else drop_capsule b n (free_context ∷ []))
    else drop_capsule b n []

unfoldable pub context_of : Build → Memory → Option String → CapsuleType → Outcome
unfolding with_context
context_of b m n content_object = with_context b m n (content_object_data false false)
context_of b m n interest = with_context b m n (interest_data false)
context_of b m n _ = (ok (record { name = n; context = no_context }), [])

-- NDNObject_New()
unfoldable pub object_new : Build → Memory → CapsuleType → Outcome
unfolding context_of
object_new b m t = elim (type2name b t) [
  | ok n ↦ if m.capsule then context_of b m n t else (raise memory_error, [])
  | raise e ↦ (raise e, [])
  | fault ↦ (fault, [])
]

-- The types of the assertion in NDNObject_New_charbuf().
unfoldable pub has_charbuf : CapsuleType → Bool
has_charbuf content_object = true
has_charbuf exclusion_filter = true
has_charbuf interest = true
has_charbuf key_locator = true
has_charbuf name = true
has_charbuf signature = true
has_charbuf signed_info = true
has_charbuf _ = false

-- After NDNObject_New() the charbuf is destroyed if there is no capsule.
unfoldable pub destroy_on_failure : Outcome → Outcome
destroy_on_failure (ok c, rs) = (ok c, rs)
destroy_on_failure (raise e, rs) = (raise e, rs ++ (destroy_charbuf ∷ []))
destroy_on_failure (fault, rs) = (fault, rs)

-- NDNObject_New_charbuf(); `created` says whether ndn_charbuf_create() succeeds.
unfoldable pub new_charbuf : Build → (created : Bool) → Memory → CapsuleType → Outcome
unfolding object_new has_charbuf destroy_on_failure
new_charbuf b created m t =
    if has_charbuf t
    then (if created then destroy_on_failure (object_new b m t) else (raise memory_error, []))
    else (fault, [])

pub has_charbuf-IsServed : (t : CapsuleType) → has_charbuf t ≡ true → IsServed t
unfolding has_charbuf
has_charbuf-IsServed signing_params h = cc
has_charbuf-IsServed namecrypto_state h = cc
has_charbuf-IsServed _ h = (λ e. cc, λ e. cc)

abbrev pub charbufs : List Release → ℕ
charbufs [] = 0
charbufs (destroy_charbuf ∷ rs) = suc (charbufs rs)
charbufs (_ ∷ rs) = charbufs rs

-- What a capsule of the type owns besides its charbuf, when it is new.
abbrev pub owned : CapsuleType → List Release
owned content_object = free_context ∷ []
owned interest = free_context ∷ []
owned _ = []

abbrev fresh : CapsuleType → Context
fresh content_object = content_object_data false false
fresh interest = interest_data false
fresh _ = no_context

module _ (b : Build) (m : Memory) (p : m.capsule ≡ true) where
  destroy_named :
      (t : CapsuleType) (s : String)
      → has_charbuf t ≡ true
      → m.context ≡ true
      → m.set_context ≡ true
      → type2name b t ≡ ok (some s)
      → name2type b (some s) ≡ ok t
      → (new_charbuf b true m t ≡ (ok (record { name = some s; context = fresh t }), []))
        × (destroy b (record { name = some s; context = fresh t })
            ≡ ok (owned t ++ (destroy_charbuf ∷ [])))
  unfolding new_charbuf destroy
  destroy_named content_object s h q r e f = (ground (arith, e), ground (arith, f))
  destroy_named interest s h q r e f = (ground (arith, e), ground (arith, f))
  destroy_named _ s h q r e f = (ground (arith, e), ground (arith, f))

  twice_named :
      (t : CapsuleType) (s : String)
      → has_charbuf t ≡ true
      → m.context ≡ false
      → owned t ≢ []
      → type2name b t ≡ ok (some s)
      → name2type b (some s) ≡ ok t
      → new_charbuf b true m t ≡ (raise memory_error, destroy_charbuf ∷ destroy_charbuf ∷ [])
  unfolding new_charbuf
  twice_named content_object s h q o e f = ground (arith, e, f)
  twice_named interest s h q o e f = ground (arith, e, f)
  twice_named _ s h q o e f = absurd (o refl)

  -- With memory enough a capsule is made and nothing is released; its destructor then gives back
  -- the context, if it has one, and the charbuf, each once.
  pub destroy-new_charbuf :
      (t : CapsuleType)
      → has_charbuf t ≡ true
      → m.context ≡ true
      → m.set_context ≡ true
      → (c : Capsule) × (new_charbuf b true m t ≡ (ok c, []))
        × (destroy b c ≡ ok (owned t ++ (destroy_charbuf ∷ [])))
  destroy-new_charbuf t h q r =
      let (s, e, f) = name2type-type2name b t (has_charbuf-IsServed t h) in
      let (made, gone) = destroy_named t s h q r e f in (_, made, gone)

  -- Where the memory for the context is missing, the charbuf is destroyed twice: by the destructor
  -- of the capsule that is dropped, and by NDNObject_New_charbuf().
  pub new_charbuf-twice :
      (t : CapsuleType)
      → has_charbuf t ≡ true
      → m.context ≡ false
      → owned t ≢ []
      → new_charbuf b true m t ≡ (raise memory_error, destroy_charbuf ∷ destroy_charbuf ∷ [])
  new_charbuf-twice t h q o =
      let (s, e, f) = name2type-type2name b t (has_charbuf-IsServed t h) in
      twice_named t s h q o e f
