-- ===== src/Nre/Fuel.antt =====
-- The fuel of pattern_list(): more of it changes nothing.
use mathlib.Core.Path.{fun_ext}
use py_ccn.Base.{
  ℕ, zero, suc, ◌-◌, ◌≤◌, ◌<◌, ◌≡◌, refl, ap, ◌==◌, [], ◌∷◌, length, take, drop, length-take,
  length-drop, Bytes, arith, ◌∙◌,
}
use py_ccn.Nre.{ReLib, Matcher, Matchers, cons}
use py_ccn.Nre.Text.{Built, built, ◌>>=◌, parse_repetition}
use py_ccn.Nre.Compile.{slice, char_at, back_ref, repeat, bracketed, extract_pattern, pattern_list}
use py_ccn.Nre.Safe.{>>=_ext, if_ext, char_at-Safe}
use py_ccn.Nre.Terminates.{MadeTo, length-inner, extract_pattern-Safe, pattern_list-Safe}

module _ (re : ReLib) (int_max size : ℕ) (pl pl' : Bytes → ℕ → Built (Matchers × ℕ))
    (same : (expr : Bytes) (refs : ℕ) → length expr < size → pl expr refs ≡ pl' expr refs) where
  back_ref-same :
      (expr : Bytes) (refs : ℕ)
      → length expr ≤ size
      → back_ref re int_max pl expr refs ≡ back_ref re int_max pl' expr refs
  unfolding back_ref
  back_ref-same expr refs h =
      let last_index = length expr - 1 in
      >>=_ext (λ c. 0 < length expr) (char_at expr 0) _ _ (char_at-Safe expr 0)
        (λ c nonempty.
          >>=_ext (λ close. last_index < length expr) (char_at expr last_index) _ _
            (char_at-Safe expr last_index)
            (λ close h'.
              if_ext (c == b'(') _ _ _ _
                (if_ext (close == b')') _ _ _ _
                  (ap
                    (λ x. x >>= λ (matchers, after).
                      built (Matcher.back_ref_matcher refs matchers, after))
                    (same (slice 1 last_index expr) (suc refs)
                      (omega (arith, length-inner re int_max expr nonempty))))
                  refl)
                refl))

  repeat-same :
      (expr : Bytes) (indicator refs : ℕ)
      → length expr ≤ size
      → repeat re int_max pl expr indicator refs ≡ repeat re int_max pl' expr indicator refs
  unfolding repeat
  repeat-same expr indicator refs h =
      >>=_ext (λ c. 0 < length expr) (char_at expr 0) _ _ (char_at-Safe expr 0)
        (λ c nonempty.
          ap
            (λ x. x >>= λ (matcher, after).
              parse_repetition int_max (drop indicator expr) >>= λ (low, high).
              built (Matcher.repeat_matcher low high matcher, after))
            (if_ext (c == b'(') _ _ _ _
              (back_ref-same (take indicator expr) refs (omega (arith, length-take indicator expr)))
              refl))

  extract_pattern-same :
      (expr : Bytes) (refs : ℕ)
      → length expr ≤ size
      → extract_pattern re int_max pl expr refs ≡ extract_pattern re int_max pl' expr refs
  unfolding extract_pattern
  extract_pattern-same expr refs h =
      let part : (n : ℕ) → length (take n expr) ≤ size = λ n. omega (arith, length-take n expr) in
      let rep : ◌≡◌ {A = ℕ → ℕ → Built (Matcher × ℕ)}
          (λ indicator end. repeat re int_max pl (take end expr) indicator refs)
          (λ indicator end. repeat re int_max pl' (take end expr) indicator refs) =
        fun_ext
          (λ indicator. fun_ext (λ end. repeat-same (take end expr) indicator refs (part end))) in
      >>=_ext (λ c. 0 < length expr) (char_at expr 0) _ _ (char_at-Safe expr 0)
        (λ c nonempty.
          if_ext (c == b'(') _ _ _ _
            (ap (λ make. bracketed re int_max pl b'(' b')' make expr)
              (fun_ext (λ indicator. fun_ext (λ end.
                if_ext (indicator == end) _ _ _ _ (back_ref-same (take end expr) refs (part end))
                  (repeat-same (take end expr) indicator refs (part end))))))
            (if_ext (c == b'<') _ _ _ _
              (ap (λ make. bracketed re int_max pl b'<' b'>' make expr) rep)
              (if_ext (c == b'[') _ _ _ _
                (ap (λ make. bracketed re int_max pl b'[' b']' make expr) rep) refl)))

module _ (re : ReLib) (int_max : ℕ) where
  pub pattern_list-fuel :
      (fuel more : ℕ) (expr : Bytes) (refs : ℕ)
      → length expr ≤ fuel
      → length expr ≤ more
      → pattern_list re int_max fuel expr refs ≡ pattern_list re int_max more expr refs
  unfolding pattern_list
  pattern_list-fuel fuel more [] refs h h' = refl
  pattern_list-fuel zero more (c ∷ expr) refs h h' = absurd (omega arith)
  pattern_list-fuel (suc fuel) zero (c ∷ expr) refs h h' = absurd (omega arith)
  pattern_list-fuel (suc fuel) (suc more) (c ∷ expr) refs h h' =
      let pl = pattern_list re int_max fuel in
      let pl' = pattern_list re int_max more in
      ap
        (λ x. x >>= λ (matcher, after, end).
          pattern_list re int_max fuel (drop end (c ∷ expr)) after >>= λ (matchers, last).
          built (cons matcher matchers, last))
        (extract_pattern-same re int_max (suc (length expr)) pl pl'
          (λ e r lt. pattern_list-fuel fuel more e r (omega arith) (omega arith)) (c ∷ expr) refs
          (omega arith))
      ∙ >>=_ext (MadeTo re int_max) (extract_pattern re int_max pl' (c ∷ expr) refs) _ _
          (extract_pattern-Safe re int_max (suc (length expr)) pl'
            (λ e r lt. pattern_list-Safe re int_max more e r (omega arith)) (c ∷ expr) refs
            (omega arith))
          (λ (matcher, after, end) (low, b).
            ap (λ x. x >>= λ (matchers, last). built (cons matcher matchers, last))
              (pattern_list-fuel fuel more (drop end (c ∷ expr)) after
                (omega (arith, length-drop end (c ∷ expr)))
                (omega (arith, length-drop end (c ∷ expr)))))
