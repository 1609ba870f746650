-- ===== src/Key/Generate.antt =====
-- _pyndn_cmd_generate_RSA_key() of csrc/methods.c: what it sets on a Key, and the references that it
-- gives up on its way.
use py_ccn.Base.{
  ℕ, suc, ◌≡◌, ◌≢◌, if◌then◌else◌, refl, Bool, true, false, ◌&&◌, not, List, [], ◌∷◌, ◌++◌,
}
use py_ccn.Base.Run.{Run, ok, raise, fault, type_error, ndn_key_error}
use py_ccn.Key.{ReadKey, PyKey}

-- The references that generate_key() hands over.
pub data Reference : Type 0 where
  private_key public_key public_key_digest : Reference

-- How each PyObject_SetAttrString() ends, which takes a reference of its own; for the type, with the
-- PyUnicode_FromString() before it.
pub record Sets : Type 0 where
  pub set_private : Run (Unit {0})
  pub set_public : Run (Unit {0})
  pub set_type : Run (Unit {0})
  pub set_public_key_id : Run (Unit {0})

-- A call, and the references that have been given up at its end: `then_given` behind it in any case,
-- and at the label `error` those of `error_given`.
abbrev pub Outcome : Type 0 → Type 0
Outcome A = Run A × List Reference

unfoldable pub giving :
    {A : Type 0}
    → (then_given error_given : List Reference) → Run (Unit {0})
    → Outcome A
    → Outcome A
giving then_given error_given (ok done) (r, given) = (r, then_given ++ given)
giving then_given error_given (raise e) next = (raise e, then_given ++ error_given)
giving then_given error_given fault next = (fault, [])

module _ {K : Type 0} where
  unfoldable pub set_key : Sets → ReadKey K → Outcome (PyKey K)
  unfolding giving
  set_key s key = giving (private_key ∷ []) (public_key_digest ∷ public_key ∷ []) s.set_private (
      giving (public_key ∷ []) (public_key_digest ∷ []) s.set_public (
        giving [] (public_key_digest ∷ []) s.set_type (
          giving (public_key_digest ∷ []) (public_key_digest ∷ []) s.set_public_key_id (
            ok (record {
              public_key_id = key.public_key_digest;
              ndn_data_private = key.private_key;
              ndn_data_public = key.public_key;
            }),
            [],
          ))))

  -- `args` is the parse of the arguments, `is_key` the test of the type's name, and `generated` what
  -- generate_key() gives: its exception is replaced by another.
  unfoldable pub cmd_generate_rsa_key :
      (args : Run (Unit {0})) (is_key : Bool) (generated : Run (ReadKey K))
      → Sets
      → Outcome (PyKey K)
  unfolding set_key
  cmd_generate_rsa_key (raise e) is_key generated s = (raise e, [])
  cmd_generate_rsa_key fault is_key generated s = (fault, [])
  cmd_generate_rsa_key (ok done) false generated s = (raise type_error, [])
  cmd_generate_rsa_key (ok done) true (raise e) s = (raise ndn_key_error, [])
  cmd_generate_rsa_key (ok done) true fault s = (fault, [])
  cmd_generate_rsa_key (ok done) true (ok key) s = set_key s key

abbrev pub same : Reference → Reference → Bool
same private_key private_key = true
same public_key public_key = true
same public_key_digest public_key_digest = true
same _ _ = false

abbrev pub count : Reference → List Reference → ℕ
count r [] = 0
count r (x ∷ xs) = let rest = count r xs in if same r x then suc rest else rest

abbrev pub is_ok : Run (Unit {0}) → Bool
is_ok (ok done) = true
is_ok _ = false

-- Is publicKeyID the attribute that fails?
abbrev pub fails_last : Sets → Bool
fails_last s =
    is_ok s.set_private
    && (is_ok s.set_public && (is_ok s.set_type && not (is_ok s.set_public_key_id)))

abbrev pub DoReturn : Sets → Type 0
DoReturn s =
    (s.set_private ≢ fault)
    × (s.set_public ≢ fault)
    × (s.set_type ≢ fault)
    × (s.set_public_key_id ≢ fault)

abbrev pub expected : Reference → Bool → ℕ
expected public_key_digest true = 2
expected _ _ = 1

-- The orders in which they are given up.
orders :
    (r : Reference)
    → (count r (private_key ∷ public_key_digest ∷ public_key ∷ []) ≡ expected r false)
      × (count r (private_key ∷ public_key ∷ public_key_digest ∷ []) ≡ expected r false)
      × (count r (private_key ∷ public_key ∷ public_key_digest ∷ public_key_digest ∷ [])
          ≡ expected r true)
orders private_key = (refl, refl, refl)
orders public_key = (refl, refl, refl)
orders public_key_digest = (refl, refl, refl)

counted :
    {K : Type 0} (key : ReadKey K) (r : Reference) (a b c d : Run (Unit {0}))
    → DoReturn (record { set_private = a; set_public = b; set_type = c; set_public_key_id = d })
    → count r
        (set_key
          (record { set_private = a; set_public = b; set_type = c; set_public_key_id = d })
          key).1
      ≡ expected r (
          fails_last
            (record { set_private = a; set_public = b; set_type = c; set_public_key_id = d }))
unfolding set_key giving
counted key r fault b c d (h, i, j, k) = absurd (h refl)
counted key r a fault c d (h, i, j, k) = absurd (i refl)
counted key r a b fault d (h, i, j, k) = absurd (j refl)
counted key r a b c fault (h, i, j, k) = absurd (k refl)
counted key r (raise e) b c d h = (orders r).0
counted key r (ok _) (raise e) c d h = (orders r).1
counted key r (ok _) (ok _) (raise e) d h = (orders r).1
counted key r (ok _) (ok _) (ok _) (raise e) h = (orders r).2
counted key r (ok _) (ok _) (ok _) (ok _) h = (orders r).1

-- Where a key was generated, each of its three references is given up once, whether all attributes can
-- be set or one cannot, but for publicKeyID: where that is the first that cannot be set, the reference
-- on the digest is given up twice.
pub cmd_generate_rsa_key-count :
    {K : Type 0} (key : ReadKey K) (s : Sets) (r : Reference)
    → DoReturn s
    → count r (cmd_generate_rsa_key (ok tt) true (ok key) s).1 ≡ expected r (fails_last s)
unfolding cmd_generate_rsa_key
cmd_generate_rsa_key-count key s r ret =
    counted key r s.set_private s.set_public s.set_type s.set_public_key_id ret
