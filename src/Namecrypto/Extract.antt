-- ===== src/Namecrypto/Extract.antt =====
-- extractFromInterest() on a well-formed name that ends in an authenticator.
use py_ccn.Base.{
  ℕ, suc, ◌+◌, ◌-◌, ◌≤◌, ◌≡◌, ◌≢◌, refl, sym, some, List, [], ◌∷◌, ◌++◌, append_assoc, arith,
  length, take, length-append, take-length, Bytes, read,
}
use py_ccn.Wire.{NameLib, NameLaws, encode_name, comp_offsets, value_offset}
use py_ccn.Wire.Layout.{read-value, take-value, length-offsets_from}
use py_ccn.Base.Run.{ok}
use py_ccn.Namecrypto.{auth_magic_len}
use py_ccn.Namecrypto.{AuthType, not_authenticator, auth_symmetric, auth_asymmetric}
use py_ccn.Namecrypto.Verify.{
  Extracted, detect_authenticator, extract_at, extract_loop, extract_from_interest,
}

-- What extractFromInterest() is to find in the name `front`, `prev`, `auth`.
abbrev pub extracted : (ℕ → Bytes) → List Bytes → (prev auth : Bytes) → AuthType → Extracted
extracted header front prev auth kind = record {
  kind = kind;
  authenticator_with_magic = auth;
  prefix = encode_name header (front ++ (prev ∷ []));
}

count : (front : List Bytes) (prev : Bytes) → length (front ++ (prev ∷ [])) ≡ suc (length front)
count front prev = omega (arith, length-append front (prev ∷ []))

two_less : (n : ℕ) → n + 2 - 1 ≡ n + 1
two_less n = omega arith

last_index :
    (header : ℕ → Bytes) (front : List Bytes) (prev auth : Bytes)
    → length (comp_offsets header (front ++ (prev ∷ (auth ∷ [])))) - 2 ≡ suc (length front)
unfolding comp_offsets
last_index header front prev auth = omega (
  arith,
  length-offsets_from header 1 (front ++ (prev ∷ (auth ∷ []))),
  length-append front (prev ∷ (auth ∷ [])),
)

module _ (header : ℕ → Bytes) (lib : NameLib) (laws : NameLaws header lib) where
  module _ (front : List Bytes) (prev auth : Bytes) where
    abbrev signed : List Bytes
    signed = front ++ (prev ∷ (auth ∷ []))

    regroup : signed ≡ (front ++ (prev ∷ [])) ++ (auth ∷ [])
    regroup = sym (append_assoc front (prev ∷ []) (auth ∷ []))

    read-last :
        (n : ℕ)
        → n ≤ length auth
        → read (encode_name header signed) (value_offset header (front ++ (prev ∷ [])) auth) n
          ≡ ok (take n auth)
    read-last n h = rw regroup (read-value header (front ++ (prev ∷ [])) auth [] n h)

    comp_get-last :
        lib.comp_get (encode_name header signed) (comp_offsets header signed) (suc (length front))
        ≡ some (value_offset header (front ++ (prev ∷ [])) auth, length auth)
    comp_get-last =
        rw (regroup, sym (count front prev)) (laws.comp_get-encode (front ++ (prev ∷ [])) auth [])

    extract_at_last :
        (kind : AuthType)
        → extract_at lib
            (encode_name header signed)
            (comp_offsets header signed)
            (length front)
            kind
            (value_offset header (front ++ (prev ∷ [])) auth)
            (length auth)
          ≡ ok (extracted header front prev auth kind)
    unfolding extract_at encode_name
    extract_at_last kind = rw (
      read-last (length auth) (omega arith),
      take-length auth,
      laws.comp_get-encode front prev (auth ∷ []),
      two_less (length prev + value_offset header front prev),
      take-value header front prev (auth ∷ []),
    )

    -- The loop stops at the last component, whose magic number tells the kind.
    extract_loop_last :
        (kind : AuthType)
        → detect_authenticator (take auth_magic_len auth) ≡ kind
        → kind ≢ not_authenticator
        → auth_magic_len ≤ length auth
        → extract_loop lib
            (encode_name header signed)
            (comp_offsets header signed)
            (suc (length front))
          ≡ ok (some (extracted header front prev auth kind))
    unfolding extract_loop
    extract_loop_last not_authenticator e ne h = absurd (ne refl)
    extract_loop_last auth_symmetric e ne h =
        ground (arith, comp_get-last, read-last 4 h, extract_at_last auth_symmetric)
    extract_loop_last auth_asymmetric e ne h =
        ground (arith, comp_get-last, read-last 4 h, extract_at_last auth_asymmetric)

    pub extract-encode :
        (kind : AuthType)
        → detect_authenticator (take auth_magic_len auth) ≡ kind
        → kind ≢ not_authenticator
        → auth_magic_len ≤ length auth
        → extract_from_interest lib (encode_name header signed)
          ≡ ok (some (extracted header front prev auth kind))
    unfolding extract_from_interest
    extract-encode kind e ne h =
        rw (laws.split-encode signed, extract_from_interest)
          (rw (last_index header front prev auth) (extract_loop_last kind e ne h))
