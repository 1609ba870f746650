-- ===== src/Objects/Runs.antt =====
-- The table and the life of capsules in concrete builds.
use Prim.Native.String.{String}
use text.Mathlib.Text.{◌==◌ as str_eq}
use text.Mathlib.TextEquality.{eq_iff}
use py_ccn.Base.{ℕ, ◌↔◌, Bool, Option, ◌≡◌, refl, true, false, none, some, [], ◌∷◌, ◌++◌}
use py_ccn.Base.Run.{ok, raise, memory_error}
use py_ccn.Objects.{interest, name}
use py_ccn.Objects.Types.{Build}
use py_ccn.Objects.Lifetime.{
  Memory, Capsule, destroy, destroy_charbuf, owned, has_charbuf, new_charbuf, destroy-new_charbuf,
  new_charbuf-twice, object_new,
}
use py_ccn.Objects.Charbuf.{cmd_dump_charbuf, cmd_dump_charbuf-object_new}
use py_ccn.Objects.Access.{object_is_valid, object_req_type, object_get, object_get-object_new}

abbrev debug : Build
debug = record { namecrypto = true; asserts = true }

abbrev release : Build
release = record { namecrypto = true; asserts = false }

abbrev plenty : Memory
plenty = record { capsule = true; context = true; set_context = true }

abbrev no_room : Memory
no_room = record { capsule = true; context = false; set_context = true }

destroy-new_charbuf_example :
    (c : Capsule) × (new_charbuf debug true plenty interest ≡ (ok c, []))
    × (destroy debug c ≡ ok (owned interest ++ (destroy_charbuf ∷ [])))
destroy-new_charbuf_example =
    destroy-new_charbuf debug plenty refl interest (unfold has_charbuf in refl) refl refl

new_charbuf-twice_example :
    new_charbuf debug true no_room interest
    ≡ (raise memory_error, destroy_charbuf ∷ destroy_charbuf ∷ [])
new_charbuf-twice_example =
    new_charbuf-twice debug no_room refl interest (unfold has_charbuf in refl) refl (λ e. cc)

-- As PyCapsule_IsValid() compares names.
abbrev matches : Option String → Option String → Bool
matches none none = true
matches (some n) (some m) = str_eq n m
matches _ _ = false

abbrev address : ℕ
address = 5

object_get-object_new_example :
    (c : Capsule) × (object_new debug plenty interest ≡ (ok c, []))
    × ((object_is_valid matches debug name c ≡ ok true) ↔ (interest ≡ name))
    × ((object_req_type matches debug name c ≡ ok tt) ↔ (interest ≡ name))
    × ((object_get matches debug name c address ≡ ok (some address)) ↔ (interest ≡ name))
object_get-object_new_example =
    object_get-object_new matches eq_iff debug plenty refl refl refl interest name address
      (λ e. cc, λ e. cc) (λ e. cc, λ e. cc)

cmd_dump_charbuf-object_new_example :
    (c : Capsule) × (object_new release plenty name ≡ (ok c, []))
    × (cmd_dump_charbuf matches release c (1 ∷ 2 ∷ []) ≡ ok (1 ∷ 2 ∷ []))
unfolding has_charbuf
cmd_dump_charbuf-object_new_example =
    cmd_dump_charbuf-object_new matches eq_iff release plenty refl refl refl name (1 ∷ 2 ∷ [])
      (λ e. cc, λ e. cc)
