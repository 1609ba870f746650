-- ===== src/Nre/AnyComponents.antt =====
-- <.*>* in the regular expressions of python/ndn/nre.py, which RegexMatcher puts before and behind.
use py_ccn.Base.{
  ℕ, zero, suc, ◌+◌, ◌-◌, ◌≤◌, ◌≡◌, refl, true, some, List, [], ◌∷◌, ◌++◌, length, Bytes, arith,
}
use py_ccn.Nre.{ReLib, Matcher, component_set_matcher, repeat_matcher, cons}
use py_ccn.Nre.Language.{Times, accepts, some_accepts, Matches}
use py_ccn.Nre.Search.{get_elem?-lt}
use py_ccn.Nre.Text.{built, ◌>>=◌, extract_sub_pattern, extract_repetition, parse_repetition}
use py_ccn.Nre.Compile.{
  pattern_list, component_set, compile_single_component, component_matcher, extract_component,
  repeat, extract_pattern,
}
use py_ccn.Nre.Regex.{any_components}

-- .*
abbrev any_text : Bytes
any_text = b'.' ∷ b'*' ∷ []

-- The module re, on `.*`: a pattern without groups that every text matches.
pub record AnyText (re : ReLib) : Type 0 where
  pub no_groups : re.groups any_text ≡ some 0
  pub always : (component : Bytes) → re.match any_text component ≡ some []

-- <.*>*
abbrev pub any_matcher : (int_max : ℕ) → Matcher
any_matcher int_max =
    repeat_matcher 0 int_max
      (component_set_matcher true (record { expr = any_text; first_ref = 0 } ∷ []))

module _ (re : ReLib) (int_max : ℕ) (any : AnyText re) where
  any_component_matcher :
      component_matcher re any_text 0 ≡ built (record { expr = any_text; first_ref = 0 }, 0)
  unfolding component_matcher
  any_component_matcher = rw (any.no_groups, component_matcher) refl

  any_set :
      component_set re (b'<' ∷ b'.' ∷ b'*' ∷ b'>' ∷ []) 0
      ≡ built (component_set_matcher true (record { expr = any_text; first_ref = 0 } ∷ []), 0)
  unfolding component_set compile_single_component extract_component
  any_set = rw (any_component_matcher) refl

  pub any_first :
      (fuel : ℕ) (expr : Bytes)
      → pattern_list re int_max (suc fuel) (any_components ++ expr) 0 ≡ (
          pattern_list re int_max fuel expr 0 >>= λ (patterns, last).
          built (cons (any_matcher int_max) patterns, last))
  unfolding pattern_list extract_pattern extract_sub_pattern extract_repetition repeat
      parse_repetition
  any_first fuel expr = rw (any_component_matcher) refl

  any-Times :
      (name : List Bytes) (times offset len : ℕ)
      → offset + times ≤ length name
      → len ≡ times
      → Times
          (Matches re name
            (component_set_matcher true (record { expr = any_text; first_ref = 0 } ∷ [])))
          times
          offset
          len
  unfolding Times Matches some_accepts accepts
  any-Times name zero offset len h e = e
  any-Times name (suc times) offset len h e =
      let (component, found) = get_elem?-lt name offset (omega arith) in
      (
        1,
        omega arith,
        (refl, (component, found, rw (any.always component) refl)),
        any-Times name times (offset + 1) (len - 1) (omega arith) (omega arith),
      )

  pub any-Matches :
      (name : List Bytes) (len : ℕ)
      → len ≤ length name
      → length name ≤ int_max
      → Matches re name (any_matcher int_max) 0 len
  unfolding Matches
  any-Matches name len h limit =
      (len, omega arith, omega arith, any-Times name len 0 len (omega arith) refl)
