-- ===== src/Nre/Whole.antt =====
-- What the regular expressions of python/ndn/nre.py match: RegexMatcher with its constructor.
use py_ccn.Base.{
  ℕ, suc, ◌+◌, ◌-◌, ◌≤◌, ◌<◌, ◌≡◌, ◌↔◌, refl, ap, ◌∙◌, Bool, true, false, ◌==◌, Option, none, some,
  List, [], ◌∷◌, ◌++◌, if◌then◌else◌, length, drop, Bytes, arith,
}
use py_ccn.Nre.{ReLib, Matchers, cons, Order, Answer, matched, failed, index_error, recursion_error}
use py_ccn.Nre.Language.{all_take, AllProper-of_take, nullable, IsProper, MatchesAll, AllProper}
use py_ccn.Nre.Decides.{Decides, Decides-iff}
use py_ccn.Nre.Search.{pattern_list_match-Decides}
use py_ccn.Nre.Text.{built, ◌>>=◌}
use py_ccn.Nre.Regex.{
  RegexMatcher, any_components, close_expr, pattern_list_matcher, secondary, with_matchers,
  regex_matcher, new_matcher, ask_primary, ask_secondary, retry, match_regex, match_calls,
}
use py_ccn.Nre.AnyComponents.{AnyText, any_matcher, any_first, any-Matches}
use py_ccn.Nre.Safe.{Safe}
use py_ccn.Nre.Terminates.{pattern_list_matcher-Safe}
use py_ccn.Nre.Fuel.{pattern_list-fuel}

module _ (G H : Type 0) (re : ReLib) (depth : ℕ)
    (ask : Matchers → RegexMatcher → Answer × RegexMatcher) where
  retry-none-Decides :
      (outcome : Answer × RegexMatcher) (second : Option Matchers)
      → second ≡ none
      → Decides G outcome.0
      → Decides G (retry re depth outcome second ask).0
  retry-none-Decides (matched, m) second e d = d
  retry-none-Decides (failed, m) second e d = rw e d
  retry-none-Decides (index_error, m) second e d = d
  retry-none-Decides (recursion_error, m) second e d = d

  retry-Decides :
      (outcome : Answer × RegexMatcher) (second : Option Matchers) (patterns : Matchers)
      → second ≡ some patterns
      → Decides G outcome.0
      → ((m : RegexMatcher) → Decides H (ask patterns m).0)
      → (G → H)
      → Decides H (retry re depth outcome second ask).0
  unfolding Decides
  retry-Decides (matched, m) second patterns e d h to = to d
  retry-Decides (failed, m) second patterns e d h to = rw (e, Decides) (h m)
  retry-Decides (index_error, m) second patterns e d h to = absurd d
  retry-Decides (recursion_error, m) second patterns e d h to = absurd d

zero_add : (n : ℕ) → 0 + n ≡ n
zero_add n = omega arith

sub_zero : (n : ℕ) → n - 0 ≡ n
sub_zero n = omega arith

-- The trees of matchers stay the same.
abbrev Keeps : (patterns : Matchers) → (second : Option Matchers) → RegexMatcher → Type 0
Keeps patterns second m = (m.primary_matcher ≡ patterns) × (m.secondary_matcher ≡ second)

retry-Keeps :
    (re : ReLib) (depth : ℕ) (order : Order) (name : List Bytes) (outcome : Answer × RegexMatcher)
    (next second : Option Matchers) (patterns : Matchers)
    → Keeps patterns second outcome.1
    → Keeps patterns second (retry re depth outcome next (ask_secondary re depth order name)).1
retry-Keeps re depth order name (matched, m) next second patterns k = k
retry-Keeps re depth order name (failed, m) none second patterns k = k
retry-Keeps re depth order name (failed, m) (some other) second patterns k = k
retry-Keeps re depth order name (index_error, m) next second patterns k = k
retry-Keeps re depth order name (recursion_error, m) next second patterns k = k

match_calls-Keeps :
    (re : ReLib) (depth : ℕ) (calls : List (Order × List Bytes)) (m : RegexMatcher)
    (patterns : Matchers) (second : Option Matchers)
    → m.primary_matcher ≡ patterns
    → m.secondary_matcher ≡ second
    → Keeps patterns second (match_calls re depth calls m)
unfolding match_calls match_regex
match_calls-Keeps re depth [] m patterns second p s = (p, s)
match_calls-Keeps re depth ((order, name) ∷ calls) m patterns second p s =
    let (p', s') =
      retry-Keeps re depth order name (ask_primary re depth order name m) m.secondary_matcher second
        patterns (p, s) in
    match_calls-Keeps re depth calls (match_regex re depth order name m).1 patterns second p' s'

-- What it means that a regular expression, with or without ^, matches a name: with ^ the patterns
-- match the whole name, without it they match its end.
unfoldable pub MatchesEnd : (re : ReLib) (name : List Bytes) (anchored : Bool) → Matchers → Type 0
MatchesEnd re name true patterns = MatchesAll re name patterns 0 (length name)
MatchesEnd re name false patterns =
    (skipped : ℕ) × (skipped ≤ length name)
    × MatchesAll re name patterns skipped (length name - skipped)

module _ (re : ReLib) (int_max depth : ℕ) (any : AnyText re) (patterns : Matchers)
    (proper : AllProper patterns) (name : List Bytes) (deep : length name < depth)
    (limit : length name ≤ int_max) where
  with_any_iff :
      MatchesAll re name (cons (any_matcher int_max) patterns) 0 (length name)
      ↔ MatchesEnd re name false patterns
  unfolding MatchesEnd MatchesAll
  with_any_iff = (
    λ (skipped, le, m, ms). (skipped, le, rw (zero_add skipped) at ms),
    λ (skipped, le, ms).
        (skipped, le, any-Matches re int_max any name skipped le limit, rw (zero_add skipped) ms),
  )

  with_any-AllProper : AllProper (cons (any_matcher int_max) patterns)
  unfolding AllProper IsProper nullable
  with_any-AllProper = ((refl, omega arith, tt), proper)

  primary-Decides :
      (order : Order) (m : RegexMatcher)
      → m.primary_matcher ≡ patterns
      → Decides (MatchesEnd re name true patterns) (ask_primary re depth order name m).0
  unfolding MatchesEnd
  primary-Decides order m e = rw (e) (
      pattern_list_match-Decides re name order depth patterns 0 (length name) m.back_ref proper deep
        (omega arith))

  secondary-Decides :
      (order : Order) (m : RegexMatcher)
      → Decides
          (MatchesEnd re name false patterns)
          (ask_secondary re depth order name (cons (any_matcher int_max) patterns) m).0
  secondary-Decides order m = Decides-iff _ with_any_iff.0 with_any_iff.1 (
      pattern_list_match-Decides re name order depth (cons (any_matcher int_max) patterns) 0
        (length name) m.second_back_ref with_any-AllProper deep (omega arith))

  whole→end : MatchesEnd re name true patterns → MatchesEnd re name false patterns
  unfolding MatchesEnd
  whole→end ms = (0, omega arith, rw (sub_zero (length name)) ms)

  -- Of a RegexMatcher with these patterns.
  anchored-Decides :
      (order : Order) (m : RegexMatcher)
      → m.primary_matcher ≡ patterns
      → m.secondary_matcher ≡ none
      → Decides (MatchesEnd re name true patterns) (match_regex re depth order name m).0
  unfolding match_regex
  anchored-Decides order m e none_second =
      retry-none-Decides (MatchesEnd re name true patterns) (MatchesEnd re name true patterns) re
        depth (ask_secondary re depth order name) (ask_primary re depth order name m)
        m.secondary_matcher none_second (primary-Decides order m e)

  free-Decides :
      (order : Order) (m : RegexMatcher)
      → m.primary_matcher ≡ patterns
      → m.secondary_matcher ≡ some (cons (any_matcher int_max) patterns)
      → Decides (MatchesEnd re name false patterns) (match_regex re depth order name m).0
  unfolding match_regex
  free-Decides order m e second =
      retry-Decides (MatchesEnd re name true patterns) (MatchesEnd re name false patterns) re depth
        (ask_secondary re depth order name) (ask_primary re depth order name m) m.secondary_matcher
        (cons (any_matcher int_max) patterns) second (primary-Decides order m e)
        (secondary-Decides order) whole→end

  secondary-built :
      (tmp_expr : Bytes) (refs : ℕ)
      → pattern_list_matcher re int_max tmp_expr ≡ built (patterns, refs)
      → secondary re int_max false tmp_expr
        ≡ built (some (cons (any_matcher int_max) patterns), refs)
  unfolding pattern_list_matcher
  secondary-built tmp_expr refs e =
      let size = length (any_components ++ tmp_expr) in
      ap (λ x. x >>= λ (patterns, refs). built (some patterns, refs))
        (any_first re int_max any size tmp_expr
          ∙ ap (λ x. x >>= λ (patterns, last). built (cons (any_matcher int_max) patterns, last))
              (pattern_list-fuel re int_max size (suc (length tmp_expr)) tmp_expr 0 (omega arith)
                  (omega arith)
                ∙ e))

  with_matchers-Decides :
      (order : Order) (anchored : Bool) (tmp_expr : Bytes) (refs : ℕ)
      → pattern_list_matcher re int_max (if anchored then drop 1 tmp_expr else tmp_expr)
        ≡ built (patterns, refs)
      → (m : RegexMatcher) × (with_matchers re int_max anchored tmp_expr ≡ built m)
        × ((calls : List (Order × List Bytes))
            → Decides
                (MatchesEnd re name anchored patterns)
                (match_regex re depth order name (match_calls re depth calls m)).0)
  unfolding with_matchers
  with_matchers-Decides order true tmp_expr refs e =
      let m = new_matcher patterns none refs 0 in
      (
        m,
        rw e refl,
        λ calls.
            let (p, s) = match_calls-Keeps re depth calls m patterns none refl refl in
            anchored-Decides order (match_calls re depth calls m) p s,
      )
  with_matchers-Decides order false tmp_expr refs e =
      let second = some (cons (any_matcher int_max) patterns) in
      let m = new_matcher patterns second refs refs in
      (
        m,
        rw (secondary-built tmp_expr refs e, e) refl,
        λ calls.
            let (p, s) = match_calls-Keeps re depth calls m patterns second refl refl in
            free-Decides order (match_calls re depth calls m) p s,
      )

-- What the constructor of PatternListMatcher makes has its bounds in order.
pattern_list_matcher-AllProper :
    (re : ReLib) (int_max : ℕ) (expr : Bytes) (patterns : Matchers) (refs : ℕ)
    → pattern_list_matcher re int_max expr ≡ built (patterns, refs)
    → 1 ≤ int_max
    → all_take patterns ≡ true
    → AllProper patterns
unfolding Safe
pattern_list_matcher-AllProper re int_max expr patterns refs e some_max t =
    AllProper-of_take patterns t (rw e at (pattern_list_matcher-Safe re int_max expr) some_max)

-- Where re takes `.*` as a pattern without groups that every text matches, a regular expression is
-- compiled if what stands behind ^, or all of it, is, with `<.*>*` in place of a missing $. If what
-- is repeated takes a component each time, and the largest number is at least 1 and the length of
-- the name, matchName() and matchN() of the RegexMatcher, however it was used before, come to an
-- end within a depth above the length of the name, and both answer whether the patterns match the
-- whole name, or without ^ an end of it.
pub match_regex-Decides :
    (re : ReLib) (int_max depth : ℕ) (order : Order) (expr tmp_expr : Bytes) (c : ℕ)
    (patterns : Matchers) (refs : ℕ) (name : List Bytes)
    → AnyText re
    → close_expr expr ≡ built (c ∷ tmp_expr)
    → pattern_list_matcher re int_max (if c == b'^' then tmp_expr else c ∷ tmp_expr)
      ≡ built (patterns, refs)
    → all_take patterns ≡ true
    → length name < depth
    → length name ≤ int_max
    → 1 ≤ int_max
    → (m : RegexMatcher) × (regex_matcher re int_max expr ≡ built m)
      × ((calls : List (Order × List Bytes))
          → Decides
              (MatchesEnd re name (c == b'^') patterns)
              (match_regex re depth order name (match_calls re depth calls m)).0)
unfolding regex_matcher
match_regex-Decides re int_max depth order expr tmp_expr c patterns refs name any closed compiled
      take deep limit some_max =
    let proper =
      pattern_list_matcher-AllProper re int_max (if c == b'^' then tmp_expr else c ∷ tmp_expr)
        patterns refs compiled some_max take in
    let (m, made, decides) =
      with_matchers-Decides re int_max depth any patterns proper name deep limit order (c == b'^')
        (c ∷ tmp_expr) refs compiled in
    (m, rw closed made, decides)
