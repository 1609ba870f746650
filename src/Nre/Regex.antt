-- ===== src/Nre/Regex.antt =====
-- RegexMatcher of python/ndn/nre.py, and match().
use py_ccn.Base.{
  ℕ, suc, ◌-◌, ◌==◌, ◌||◌, leb, Bool, true, false, Option, none, some, List, [], ◌∷◌, ◌++◌,
  if◌then◌else◌, Bytes, length, take, drop,
}
use py_ccn.Nre.{
  ReLib, Matchers, Answer, matched, failed, BackRefs, MatchResult, Order, aggressive, components,
  pattern_list_match,
}
use py_ccn.Nre.Text.{Built, built, raises, regex_error, ◌>>=◌}
use py_ccn.Nre.Compile.{char_at, pattern_list}

-- The attributes of a RegexMatcher, with the lists of the matchers that they refer to.
pub record RegexMatcher : Type 0 where
  pub primary_matcher : Matchers
  pub secondary_matcher : Option Matchers
  pub back_ref : BackRefs
  pub second_back_ref : BackRefs
  pub back_ref_len : ℕ
  pub second_back_ref_len : ℕ
  pub match_result : MatchResult
  pub secondary_used : Bool

abbrev pub no_results : BackRefs
no_results = λ i. []

-- A RegexMatcher that was not used yet.
abbrev pub new_matcher :
    (primary : Matchers) → (second : Option Matchers) → (refs second_refs : ℕ) → RegexMatcher
new_matcher primary second refs second_refs = record {
  primary_matcher = primary;
  secondary_matcher = second;
  back_ref = no_results;
  second_back_ref = no_results;
  back_ref_len = refs;
  second_back_ref_len = second_refs;
  match_result = [];
  secondary_used = false;
}

-- <.*>*
abbrev pub any_components : Bytes
any_components = b'<' ∷ b'.' ∷ b'*' ∷ b'>' ∷ b'*' ∷ []

-- What becomes of the end of the text: `$` goes, or any components may follow.
unfoldable pub close_expr : Bytes → Built Bytes
close_expr expr = char_at expr (length expr - 1) >>= λ last.
    built (if last == b'$' then take (length expr - 1) expr else expr ++ any_components)

module _ (re : ReLib) (int_max : ℕ) where
  -- PatternListMatcher(expr, []), with the number of its backRefs.
  unfoldable pub pattern_list_matcher : Bytes → Built (Matchers × ℕ)
  unfolding pattern_list
  pattern_list_matcher expr = pattern_list re int_max (suc (length expr)) expr 0

  -- The secondary matcher, where there is no ^: any components may come first.
  abbrev pub secondary : (anchored : Bool) → Bytes → Built (Option Matchers × ℕ)
  secondary true tmp_expr = built (none, 0)
  secondary false tmp_expr =
      pattern_list_matcher (any_components ++ tmp_expr) >>= λ (patterns, refs).
      built (some patterns, refs)

  -- The constructor of RegexMatcher, from the test for ^ on.
  unfoldable pub with_matchers : (anchored : Bool) → Bytes → Built RegexMatcher
  unfolding pattern_list_matcher
  with_matchers anchored tmp_expr = secondary anchored tmp_expr >>= λ (second, second_refs).
      pattern_list_matcher (if anchored then drop 1 tmp_expr else tmp_expr) >>= λ (primary, refs).
      built (new_matcher primary second refs second_refs)

  -- The constructor of RegexMatcher.
  unfoldable pub regex_matcher : Bytes → Built RegexMatcher
  unfolding close_expr with_matchers
  regex_matcher expr = close_expr expr >>= λ tmp_expr.
      char_at tmp_expr 0 >>= λ first. with_matchers (first == b'^') tmp_expr

module _ (re : ReLib) (depth : ℕ) where
  -- What the call of a PatternListMatcher on a whole name leaves in its matchResult.
  abbrev pub result_of : List Bytes → Answer → MatchResult
  result_of name matched = components re name 0 (length name)
  result_of name _ = []

  -- Whether a call came back, and did not raise.
  abbrev pub returned : Answer → Bool
  returned matched = true
  returned failed = true
  returned _ = false

  -- The call of the primary matcher, and that of the secondary one.
  abbrev pub ask_primary : Order → List Bytes → RegexMatcher → Answer × RegexMatcher
  ask_primary order name m =
      let (answer, refs) =
        pattern_list_match re name order depth m.primary_matcher 0 (length name) m.back_ref in
      (
        answer,
        record m {
          back_ref = refs;
          match_result = m.match_result ++ result_of name answer;
          secondary_used = false;
        },
      )

  abbrev pub ask_secondary : Order → List Bytes → Matchers → RegexMatcher → Answer × RegexMatcher
  ask_secondary order name patterns m =
      let (answer, refs) =
        pattern_list_match re name order depth patterns 0 (length name) m.second_back_ref in
      (
        answer,
        record m {
          second_back_ref = refs;
          match_result = m.match_result ++ result_of name answer;
          secondary_used = returned answer || m.secondary_used;
        },
      )

  -- `if False == res and None != self.secondaryMatcher`
  abbrev pub retry :
      Answer × RegexMatcher
      → Option Matchers
      → (Matchers → RegexMatcher → Answer × RegexMatcher)
      → Answer × RegexMatcher
  retry (failed, m) (some patterns) ask = ask patterns m
  retry outcome secondary ask = outcome

  -- matchName() is lazy, matchN() is aggressive.
  unfoldable pub match_regex : Order → List Bytes → RegexMatcher → Answer × RegexMatcher
  unfolding pattern_list_match
  match_regex order name m =
      retry (ask_primary order name m) m.secondary_matcher (ask_secondary order name)

  -- Calls one after another.
  unfoldable pub match_calls : List (Order × List Bytes) → RegexMatcher → RegexMatcher
  unfolding match_regex
  match_calls [] m = m
  match_calls ((order, name) ∷ calls) m = match_calls calls (match_regex order name m).1

  -- match() of a pattern and a Name; it returns None where the answer is not `matched`.
  unfoldable pub match_pattern :
      (int_max : ℕ) → (pattern : Bytes) → (name : List Bytes) → Built (Answer × RegexMatcher)
  unfolding regex_matcher match_regex
  match_pattern int_max pattern name =
      regex_matcher re int_max pattern >>= λ m. built (match_regex aggressive name m)

abbrev used_back_ref : RegexMatcher → BackRefs × ℕ
used_back_ref m =
    if m.secondary_used
    then (m.second_back_ref, m.second_back_ref_len)
    else (m.back_ref, m.back_ref_len)

-- RegexMatcher.extract(), by the numbers of the rule.
unfoldable pub extract : RegexMatcher → (refs : List ℕ) → Built MatchResult
extract m [] = built []
extract m (index ∷ refs) =
    let rest = extract m refs in
    let (back_ref, len) = used_back_ref m in
    if index == 0 || leb len (index - 1)
    then raises regex_error
    else (rest >>= λ result. built (back_ref (index - 1) ++ result))
