-- ===== src/Nre/Sets.antt =====
-- The constructors of ComponentMatcher and ComponentSetMatcher in python/ndn/nre.py come to an end.
use py_ccn.Base.{
  ℕ, zero, suc, ◌+◌, ◌-◌, ◌≤◌, ◌<◌, Bool, true, false, ◌==◌, ltb, [], ◌∷◌, if◌then◌else◌, inl, inr,
  length, drop, Bytes, arith, Option-cases,
}
use py_ccn.Nre.{ReLib, Matcher, component_set_matcher}
use py_ccn.Nre.Text.{built, raises, regex_error, ◌>>=◌}
use py_ccn.Nre.Compile.{
  slice, char_at, extract_component, component_matcher, compile_single_component,
  compile_multiple_components, component_set,
}
use py_ccn.Nre.Language.{IsBounded}
use py_ccn.Nre.Safe.{then_made-Safe, Safe, >>=-Safe, if-Safe, Any, char_at-Safe}

extract_component-ge : (expr : Bytes) (n index : ℕ) → index ≤ extract_component n index expr
unfolding extract_component
extract_component-ge expr zero index = omega arith
extract_component-ge [] (suc n) index = omega arith
extract_component-ge (c ∷ expr) (suc n) index =
    let n' = if c == b'<' then suc (suc n) else (if c == b'>' then n else suc n) in
    omega (arith, extract_component-ge expr n' (suc index))

module _ (re : ReLib) where
  component_matcher-Safe : (expr : Bytes) (refs : ℕ) → Safe Any (component_matcher re expr refs)
  unfolding component_matcher Safe
  component_matcher-Safe expr refs = elim (Option-cases (re.groups expr)) [
    | inl e ↦ rw (e, component_matcher, Safe) tt
    | inr (g, e) ↦ rw (e, component_matcher, Safe) tt
  ]

  compile_single_component-Safe :
      (expr : Bytes) (refs : ℕ) → Safe Any (compile_single_component re expr refs)
  unfolding compile_single_component Safe
  compile_single_component-Safe expr refs =
      let end = extract_component 1 1 (drop 1 expr) in
      if-Safe Any (length expr == end) _ (raises regex_error)
        (λ e.
          >>=-Safe Any Any (component_matcher re (slice 1 (end - 1) expr) refs) _
            (component_matcher-Safe (slice 1 (end - 1) expr) refs) (λ m h. tt))
        (λ e. tt)

  -- With a round for each character that is left.
  compile_multiple_components-Safe :
      (rounds : ℕ) (expr : Bytes) (index last_index refs : ℕ)
      → last_index ≤ index + rounds
      → Safe Any (compile_multiple_components re rounds expr index last_index refs)
  unfolding compile_multiple_components Safe
  compile_multiple_components-Safe zero expr index last_index refs h =
      if-Safe Any (ltb index last_index) _ _ (λ e. ground (arith, e, h))
        (λ e.
          if-Safe Any (index == last_index) (built ([], refs)) (raises regex_error) (λ e. tt)
            (λ e. tt))
  compile_multiple_components-Safe (suc rounds) expr index last_index refs h =
      let end = extract_component 1 (suc index) (drop (suc index) expr) in
      if-Safe Any (ltb index last_index) _ _
        (λ e.
          >>=-Safe (λ c. index < length expr) Any (char_at expr index) _ (char_at-Safe expr index)
            (λ c lt.
              if-Safe Any (c == b'<') _ _
                (λ e.
                  >>=-Safe Any Any (component_matcher re (slice (suc index) (end - 1) expr) refs) _
                    (component_matcher-Safe (slice (suc index) (end - 1) expr) refs)
                    (λ (matcher, after) h'.
                      >>=-Safe Any Any
                        (compile_multiple_components re rounds expr end last_index after) _
                        (compile_multiple_components-Safe rounds expr end last_index after (
                          omega
                            (arith, extract_component-ge (drop (suc index) expr) 1 (suc index))))
                        (λ (matchers, last) h'. tt)))
                (λ e. tt)))
        (λ e.
          if-Safe Any (index == last_index) (built ([], refs)) (raises regex_error) (λ e. tt)
            (λ e. tt))

  abbrev pub SetMade : Matcher × ℕ → Type 0
  SetMade (matcher, after) = IsBounded matcher

  set_of_many-Safe :
      (include : Bool) (expr : Bytes) (index last_index refs : ℕ)
      → Safe SetMade (
          compile_multiple_components re last_index expr index last_index refs
          >>= λ (matchers, after). built (component_set_matcher include matchers, after))
  unfolding IsBounded
  set_of_many-Safe include expr index last_index refs =
      then_made-Safe Any SetMade
        (λ (matchers, after). (component_set_matcher include matchers, after))
        (compile_multiple_components re last_index expr index last_index refs)
        (compile_multiple_components-Safe last_index expr index last_index refs (omega arith))
        (λ made u. tt)

  pub component_set-Safe : (expr : Bytes) (refs : ℕ) → Safe SetMade (component_set re expr refs)
  unfolding component_set Safe IsBounded
  component_set-Safe expr refs =
      let last_index = length expr - 1 in
      >>=-Safe (λ c. 0 < length expr) SetMade (char_at expr 0) _ (char_at-Safe expr 0)
        (λ c h.
          if-Safe SetMade (c == b'<') _ _
            (λ e.
              then_made-Safe Any SetMade
                (λ (matchers, after). (component_set_matcher true matchers, after))
                (compile_single_component re expr refs) (compile_single_component-Safe expr refs)
                (λ made u. tt))
            (λ e.
              if-Safe SetMade (c == b'[') _ _
                (λ e.
                  >>=-Safe (λ c. last_index < length expr) SetMade (char_at expr last_index) _
                    (char_at-Safe expr last_index)
                    (λ close h.
                      if-Safe SetMade (close == b']') _ _
                        (λ e.
                          >>=-Safe (λ c. 1 < length expr) SetMade (char_at expr 1) _
                            (char_at-Safe expr 1)
                            (λ d h.
                              if-Safe SetMade (d == b'^') _ _
                                (λ e. set_of_many-Safe false expr 2 last_index refs)
                                (λ e. set_of_many-Safe true expr 1 last_index refs)))
                        (λ e. tt)))
                (λ e. tt)))
