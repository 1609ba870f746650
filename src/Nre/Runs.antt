-- ===== src/Nre/Runs.antt =====
-- Runs of python/ndn/nre.py, as in tests/test-ndn-nre.py.
use Prim.Native.Char.{code}
use Prim.Native.String.{String}
use py_ccn.Base.{
  ℕ, ◌≡◌, ◌≢◌, refl, arith, Bool, true, false, Option, none, some, List, [], ◌∷◌, ◌==◌, ◌||◌, ◌^◌,
  ◌-◌, bytes_eq, if◌then◌else◌, Bytes, map,
}
use py_ccn.Nre.{
  ReLib, MatchResult, Answer, matched, failed, recursion_error, Order, lazy, aggressive, Matcher,
  Matchers, nil, cons, component_set_matcher, back_ref_matcher, repeat_matcher, match,
  pattern_list_match,
}
use py_ccn.Nre.Language.{IsProper, AllProper, all_take}
use py_ccn.Nre.Decides.{Decides}
use py_ccn.Nre.Deep.{match-nullable}
use py_ccn.Nre.Text.{Built, built, raises, out_of_fuel, ◌>>=◌}
use py_ccn.Nre.Regex.{RegexMatcher, no_results, regex_matcher, match_regex, match_calls, extract}
use py_ccn.Nre.Terminates.{regex_matcher-total}
use py_ccn.Nre.AnyComponents.{AnyText}
use py_ccn.Nre.Frame.{AllAbove}
use py_ccn.Nre.Capture.{Captured, pattern_list_match-Captured}
use py_ccn.Nre.Whole.{MatchesEnd, match_regex-Decides}

-- The characters of an ASCII text.
abbrev codes : String → Bytes
codes String.[] = []
codes (String.◌∷◌ c s) = code c ∷ codes s

-- A module re for patterns that are empty, a dot and a star, or a single character.
abbrev sample_groups : Bytes → Option ℕ
sample_groups expr = some 0

abbrev starts : Bytes → Bytes → Bool
starts (c ∷ []) (d ∷ component) = c == d
starts expr component = false

abbrev sample_match : Bytes → Bytes → Option (List (Option Bytes))
sample_match expr component =
    if bytes_eq expr (codes ".*") || starts expr component then some [] else none

abbrev sample_re : ReLib
sample_re = record { groups = sample_groups; match = sample_match }

abbrev run : Order → Bytes → List Bytes → List ℕ → Built (Answer × MatchResult × MatchResult)
run order pattern name rule = regex_matcher sample_re (2 ^ 31 - 1) pattern >>= λ m.
    let (answer, after) = match_regex sample_re 20 order name m in
    extract after rule >>= λ extracted. built (answer, after.match_result, extracted)

-- /n/a/b/c
abbrev nabc : List Bytes
nabc = map (λ c. c ∷ []) (codes "nabc")

abbrev names : String → MatchResult
names s = map (λ c. some (c ∷ [])) (codes s)

lazy_group : run lazy (codes "^(<.*>*)<.*>") nabc (1 ∷ []) ≡ built (matched, names "nabc", [])
unfolding regex_matcher match_regex extract bytes_eq
lazy_group = refl

aggressive_group :
    run aggressive (codes "(<.*>*)<.*>$") nabc (1 ∷ []) ≡ built (matched, names "nabc", names "nab")
unfolding regex_matcher match_regex extract bytes_eq
aggressive_group = refl

set_group : run aggressive (codes "<a>([^<b>]+)$") nabc [] ≡ built (failed, [], [])
unfolding regex_matcher match_regex extract bytes_eq
set_group = refl

-- A group that the last attempt left out keeps what an earlier attempt gave it.
stale_group :
    run aggressive (codes "^(<a>)*<a>$") (map (λ c. c ∷ []) (codes "a")) (1 ∷ [])
    ≡ built (matched, names "a", names "a")
unfolding regex_matcher match_regex extract bytes_eq
stale_group = refl

-- A repeated group that may be empty: Python's recursion is too deep.
deep_group :
    run lazy (codes "^(<a>*)*$") (map (λ c. c ∷ []) (codes "a")) []
    ≡ built (recursion_error, [], [])
unfolding regex_matcher match_regex extract bytes_eq
deep_group = refl

greedy_group :
    run aggressive (codes "^(<a>*)*$") (map (λ c. c ∷ []) (codes "a")) []
    ≡ built (matched, names "a", [])
unfolding regex_matcher match_regex extract bytes_eq
greedy_group = refl

abbrev sample_any_text : AnyText sample_re
unfolding bytes_eq
sample_any_text = record { no_groups = refl; always = λ component. refl }

abbrev literal : String → (refs : ℕ) → Matcher
literal s refs =
    repeat_matcher 1 1
      (component_set_matcher true (record { expr = codes s; first_ref = refs } ∷ []))

-- <a>(<b>)+
abbrev a_bs : Matchers
a_bs =
    cons (literal "a" 0)
      (cons (repeat_matcher 1 100 (back_ref_matcher 0 (cons (literal "b" 1) nil))) nil)

match_regex-Decides_example :
    (m : RegexMatcher) × (regex_matcher sample_re 100 (codes "<a>(<b>)+$") ≡ built m)
    × ((calls : List (Order × List Bytes))
        → Decides
            (MatchesEnd sample_re nabc (b'<' == b'^') a_bs)
            (match_regex sample_re 5 lazy nabc (match_calls sample_re 5 calls m)).0)
unfolding regex_matcher all_take
match_regex-Decides_example =
    match_regex-Decides sample_re 100 5 lazy (codes "<a>(<b>)+$") (codes "a>(<b>)+") b'<' a_bs 1
      nabc sample_any_text refl refl refl (omega arith) (omega arith) (omega arith)

-- (<a>*)
abbrev stars : Matcher
stars = back_ref_matcher 0 (
    cons
      (repeat_matcher 0 100
        (component_set_matcher true (record { expr = codes "a"; first_ref = 0 } ∷ [])))
      nil)

stars-IsProper : IsProper stars
unfolding AllProper
stars-IsProper = ((refl, omega arith, tt), tt)

match-nullable_example :
    (match sample_re nabc lazy 10 (repeat_matcher 0 100 stars) 1 2 no_results).0 ≡ recursion_error
unfolding AllProper
match-nullable_example =
    match-nullable sample_re nabc 10 0 100 stars 1 1 no_results stars-IsProper refl (omega arith)
      (omega arith) (omega arith)

regex_matcher-total_example :
    regex_matcher sample_re 100 (codes "[^<a><b>]{2,3}$") ≢ raises out_of_fuel
regex_matcher-total_example = regex_matcher-total sample_re 100 (codes "[^<a><b>]{2,3}$")

-- <.*>{low,high}
abbrev any_part : (low high refs : ℕ) → Matcher
any_part low high refs =
    repeat_matcher low high
      (component_set_matcher true (record { expr = codes ".*"; first_ref = refs } ∷ []))

pattern_list_match-Captured_example :
    Captured sample_re nabc
      (cons (literal "a" 0) nil)
      (cons (any_part 0 100 1) nil)
      (cons (any_part 1 1 1) nil)
      0
      1
      3
      (pattern_list_match sample_re nabc aggressive 5
        (cons
          (literal "a" 0)
          (cons (back_ref_matcher 0 (cons (any_part 0 100 1) nil)) (cons (any_part 1 1 1) nil)))
        1
        3
        no_results).1
unfolding pattern_list_match AllProper AllAbove bytes_eq
pattern_list_match-Captured_example =
    pattern_list_match-Captured sample_re nabc aggressive 5 0 (cons (literal "a" 0) nil)
      (cons (any_part 0 100 1) nil) (cons (any_part 1 1 1) nil) 1 3 no_results _
      ((refl, omega arith, tt), (((refl, omega arith, tt), tt), ((refl, omega arith, tt), tt)))
      ((omega arith, tt), tt) (omega arith) (omega arith) refl
