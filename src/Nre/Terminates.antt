-- ===== src/Nre/Terminates.antt =====
-- The constructors of the matchers in python/ndn/nre.py come to an end.
use py_ccn.Base.{
  Bool, true, false, ◌++◌, ℕ, zero, suc, ◌-◌, ◌≤◌, ◌<◌, ◌==◌, ◌≢◌, [], ◌∷◌, if◌then◌else◌, length,
  take, drop, length-take, length-drop, Bytes, arith,
}
use py_ccn.Nre.{ReLib, Matcher, Matchers}
use py_ccn.Nre.Text.{
  Built, raises, out_of_fuel, extract_sub_pattern, extract_repetition, parse_repetition,
}
use py_ccn.Nre.Compile.{
  slice, char_at, component_set, back_ref, repeat, bracketed, extract_pattern, pattern_list,
}
use py_ccn.Nre.Regex.{
  any_components, close_expr, secondary, pattern_list_matcher, with_matchers, regex_matcher,
}
use py_ccn.Nre.Language.{IsBounded, AllBounded}
use py_ccn.Nre.Safe.{
  then_made-Safe, Safe-weaken, InOrder, Safe-≢, built_Safe, Safe, >>=-Safe, if-Safe, Any,
  char_at-Safe, extract_sub_pattern-Safe, extract_repetition-Safe, parse_repetition-Safe,
}
use py_ccn.Nre.Sets.{SetMade, component_set-Safe}

module _ (re : ReLib) (int_max : ℕ) where
  -- What is known of a matcher that was made, of a list of them, and of one with its end, which is
  -- behind its first character.
  abbrev Made : Matcher × ℕ → Type 0
  Made (matcher, after) = 1 ≤ int_max → IsBounded matcher

  abbrev pub AllMade : Matchers × ℕ → Type 0
  AllMade (patterns, after) = 1 ≤ int_max → AllBounded patterns

  abbrev pub MadeTo : Matcher × ℕ × ℕ → Type 0
  MadeTo (matcher, after, end) = (1 ≤ end) × (1 ≤ int_max → IsBounded matcher)

  -- Texts shorter than a bound are read to the end.
  abbrev Reads : ℕ → (Bytes → ℕ → Built (Matchers × ℕ)) → Type 0
  Reads size pattern_list =
      (expr : Bytes) (refs : ℕ) → length expr < size → Safe AllMade (pattern_list expr refs)

  pub length-inner :
      (expr : Bytes) → 0 < length expr → length (slice 1 (length expr - 1) expr) < length expr
  length-inner expr h =
      omega (arith, length-take (length expr - 1 - 1) (drop 1 expr), length-drop 1 expr)

  module _ (size : ℕ) (pl : Bytes → ℕ → Built (Matchers × ℕ)) (reads : Reads size pl) where
    back_ref-Safe :
        (expr : Bytes) (refs : ℕ)
        → length expr ≤ size
        → Safe Made (back_ref re int_max pl expr refs)
    unfolding back_ref Safe IsBounded
    back_ref-Safe expr refs h =
        let last_index = length expr - 1 in
        >>=-Safe (λ c. 0 < length expr) Made (char_at expr 0) _ (char_at-Safe expr 0)
          (λ c nonempty.
            >>=-Safe (λ c. last_index < length expr) Made (char_at expr last_index) _
              (char_at-Safe expr last_index)
              (λ close h'.
                if-Safe Made (c == b'(') _ _
                  (λ e.
                    if-Safe Made (close == b')') _ _
                      (λ e.
                        then_made-Safe AllMade Made _ (pl (slice 1 last_index expr) (suc refs))
                          (reads (slice 1 last_index expr) (suc refs)
                            (omega (arith, length-inner expr nonempty)))
                          (λ made b. b))
                      (λ e. tt))
                  (λ e. tt)))

    repeat-Safe :
        (expr : Bytes) (indicator refs : ℕ)
        → length expr ≤ size
        → Safe Made (repeat re int_max pl expr indicator refs)
    unfolding repeat Safe IsBounded
    repeat-Safe expr indicator refs h =
        >>=-Safe (λ c. 0 < length expr) Made (char_at expr 0) _ (char_at-Safe expr 0)
          (λ c nonempty.
            >>=-Safe Made Made
              (if c == b'('
                then back_ref re int_max pl (take indicator expr) refs
                else component_set re (take indicator expr) refs)
              _
              (if-Safe Made (c == b'(') _ _
                (λ e.
                  back_ref-Safe (take indicator expr) refs
                    (omega (arith, length-take indicator expr)))
                (λ e.
                  Safe-weaken (SetMade re) Made (component_set re (take indicator expr) refs)
                    (component_set-Safe re (take indicator expr) refs) (λ made b some_max. b)))
              (λ (matcher, after) b.
                then_made-Safe (InOrder int_max) Made _
                  (parse_repetition int_max (drop indicator expr))
                  (parse_repetition-Safe int_max (drop indicator expr))
                  (λ (low, high) ordered some_max. (ordered some_max, b some_max))))

    bracketed-Safe :
        (left right : ℕ) (make : ℕ → ℕ → Built (Matcher × ℕ)) (expr : Bytes)
        → ((indicator end : ℕ) → Safe Made (make indicator end))
        → Safe MadeTo (bracketed re int_max pl left right make expr)
    unfolding Safe
    bracketed-Safe left right make expr made =
        >>=-Safe (λ i. 1 ≤ i) MadeTo (extract_sub_pattern left right 1 1 (drop 1 expr)) _
          (extract_sub_pattern-Safe left right (drop 1 expr) 1 1)
          (λ indicator low.
            >>=-Safe (λ e. indicator ≤ e) MadeTo
              (extract_repetition indicator (drop indicator expr)) _
              (extract_repetition-Safe indicator (drop indicator expr))
              (λ end high.
                >>=-Safe Made MadeTo (make indicator end) _ (made indicator end)
                  (λ (matcher, after) b. (omega arith, b))))

    pub extract_pattern-Safe :
        (expr : Bytes) (refs : ℕ)
        → length expr ≤ size
        → Safe MadeTo (extract_pattern re int_max pl expr refs)
    unfolding extract_pattern Safe
    extract_pattern-Safe expr refs h =
        let part : (n : ℕ) → length (take n expr) ≤ size = λ n. omega (arith, length-take n expr) in
        let rep : (indicator end : ℕ)
            → Safe Made (repeat re int_max pl (take end expr) indicator refs) =
          λ indicator end. repeat-Safe (take end expr) indicator refs (part end) in
        >>=-Safe (λ c. 0 < length expr) MadeTo (char_at expr 0) _ (char_at-Safe expr 0)
          (λ c nonempty.
            if-Safe MadeTo (c == b'(') _ _
              (λ e. bracketed-Safe b'(' b')' _ expr (λ indicator end.
                if-Safe Made (indicator == end) _ _
                  (λ e. back_ref-Safe (take end expr) refs (part end)) (λ e. rep indicator end)))
              (λ e.
                if-Safe MadeTo (c == b'<') _ _ (λ e. bracketed-Safe b'<' b'>' _ expr rep)
                  (λ e.
                    if-Safe MadeTo (c == b'[') _ _ (λ e. bracketed-Safe b'[' b']' _ expr rep)
                      (λ e. tt))))

  pub pattern_list-Safe :
      (fuel : ℕ) (expr : Bytes) (refs : ℕ)
      → length expr ≤ fuel
      → Safe AllMade (pattern_list re int_max fuel expr refs)
  unfolding pattern_list Safe AllBounded
  pattern_list-Safe fuel [] refs h = λ some_max. tt
  pattern_list-Safe zero (c ∷ expr) refs h = omega arith
  pattern_list-Safe (suc fuel) (c ∷ expr) refs h =
      >>=-Safe MadeTo AllMade
        (extract_pattern re int_max (pattern_list re int_max fuel) (c ∷ expr) refs) _
        (extract_pattern-Safe (suc fuel) (pattern_list re int_max fuel)
          (λ e r lt. pattern_list-Safe fuel e r (omega arith)) (c ∷ expr) refs h)
        (λ (matcher, after, end) (low, b).
          then_made-Safe AllMade AllMade _
            (pattern_list re int_max fuel (drop end (c ∷ expr)) after)
            (pattern_list-Safe fuel (drop end (c ∷ expr)) after
              (omega (arith, length-drop end (c ∷ expr))))
            (λ (matchers, last) bs some_max. (b some_max, bs some_max)))

  pub pattern_list_matcher-Safe :
      (expr : Bytes) → Safe AllMade (pattern_list_matcher re int_max expr)
  unfolding pattern_list_matcher
  pattern_list_matcher-Safe expr = pattern_list-Safe (suc (length expr)) expr 0 (omega arith)

  secondary-Safe : (anchored : Bool) (expr : Bytes) → Safe Any (secondary re int_max anchored expr)
  unfolding Safe
  secondary-Safe true expr = tt
  secondary-Safe false expr =
      then_made-Safe AllMade Any _ (pattern_list_matcher re int_max (any_components ++ expr))
        (pattern_list_matcher-Safe (any_components ++ expr)) (λ made b. tt)

  regex_matcher-Safe : (expr : Bytes) → Safe Any (regex_matcher re int_max expr)
  unfolding regex_matcher close_expr with_matchers
  regex_matcher-Safe expr =
      let last_index = length expr - 1 in
      >>=-Safe Any Any (close_expr expr) _
        (>>=-Safe (λ c. last_index < length expr) Any (char_at expr last_index) _
          (char_at-Safe expr last_index) (λ c h. built_Safe _))
        (λ tmp_expr u.
          >>=-Safe (λ c. 0 < length tmp_expr) Any (char_at tmp_expr 0) _ (char_at-Safe tmp_expr 0)
            (λ first h.
              >>=-Safe Any Any (secondary re int_max (first == b'^') tmp_expr) _
                (secondary-Safe (first == b'^') tmp_expr)
                (λ (second, second_refs) u.
                  then_made-Safe AllMade Any _
                    (pattern_list_matcher re int_max
                      (if first == b'^' then drop 1 tmp_expr else tmp_expr))
                    (pattern_list_matcher-Safe
                      (if first == b'^' then drop 1 tmp_expr else tmp_expr))
                    (λ made b. tt))))

  -- The constructor of RegexMatcher, with those that it calls, comes to an end on every text: the fuel
  -- of the model is enough.
  pub regex_matcher-total : (expr : Bytes) → regex_matcher re int_max expr ≢ raises out_of_fuel
  regex_matcher-total expr = Safe-≢ Any (regex_matcher re int_max expr) (regex_matcher-Safe expr)
