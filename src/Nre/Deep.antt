-- ===== src/Nre/Deep.antt =====
-- Repetitions in python/ndn/nre.py of what matches no components at all.
use py_ccn.Base.{
  ℕ, zero, suc, ◌+◌, ◌-◌, ◌≤◌, ◌<◌, ◌≡◌, refl, true, false, leb, List, Bytes, length, arith,
}
use py_ccn.Nre.{
  ReLib, Matcher, component_set_matcher, back_ref_matcher, repeat_matcher, Matchers, nil, cons,
  Answer, matched, failed, index_error, recursion_error, BackRefs, Outcome, Match, and_then,
  or_else, attempts, upwards, both, lazy, repeated, repeat_match, match,
}
use py_ccn.Nre.Language.{Times, Matches, MatchesAll, nullable, all_nullable, IsProper, AllProper}
use py_ccn.Nre.Decides.{Decides}
use py_ccn.Nre.Search.{match-Decides}

module _ (re : ReLib) (name : List Bytes) where
  mutual
    unfolding Matches MatchesAll nullable all_nullable IsProper AllProper Times

    null :
        (matcher : Matcher) (offset : ℕ)
        → IsProper matcher
        → nullable matcher ≡ true
        → Matches re name matcher offset 0
    null (component_set_matcher include matchers) offset p h = cc
    null (back_ref_matcher ref patterns) offset p h = all_null patterns offset p h
    null (repeat_matcher repeat_min repeat_max matcher) offset (takes, bounds, p) h =
        (0, ground (arith, takes, h), omega arith, refl)

    all_null :
        (patterns : Matchers) (offset : ℕ)
        → AllProper patterns
        → all_nullable patterns ≡ true
        → MatchesAll re name patterns offset 0
    all_null nil offset p h = refl
    all_null (cons matcher patterns) offset (p, ps) h = (
      0,
      omega arith,
      null matcher offset p (ground (arith, h)),
      all_null patterns (offset + 0) ps (ground (arith, h)),
    )

yes-matched : {G : Type 0} (answer : Answer) → G → Decides G answer → answer ≡ matched
unfolding Decides
yes-matched matched g d = refl
yes-matched failed g d = absurd (d g)
yes-matched index_error g d = absurd d
yes-matched recursion_error g d = absurd d

or_else-deep :
    (outcome : Outcome) (other : BackRefs → Outcome)
    → outcome.0 ≡ recursion_error
    → (or_else outcome other).0 ≡ recursion_error
or_else-deep (matched, refs) other e = e
or_else-deep (failed, refs) other e = cc
or_else-deep (index_error, refs) other e = e
or_else-deep (recursion_error, refs) other e = refl

-- A part that matches at once with nothing is followed by what comes next.
nothing_first :
    (outcome : Outcome) (next other : BackRefs → Outcome)
    → outcome.0 ≡ matched
    → ((refs : BackRefs) → (next refs).0 ≡ recursion_error)
    → (or_else (and_then outcome next) other).0 ≡ recursion_error
nothing_first (matched, refs) next other e deep = or_else-deep (next refs) other (deep refs)
nothing_first (failed, refs) next other e deep = cc
nothing_first (index_error, refs) next other e deep = cc
nothing_first (recursion_error, refs) next other e deep = refl

module _ (size repeat_min repeat_max : ℕ) (matcher : Match)
    (empty : (offset : ℕ) (refs : BackRefs)
      → offset ≤ size
      → (matcher offset 0 refs).0 ≡ matched) where
  repeated_deep :
      (depth repeat offset len : ℕ) (refs : BackRefs)
      → repeat + depth ≤ repeat_max
      → offset ≤ size
      → 0 < len
      → (repeated lazy repeat_min repeat_max matcher depth repeat offset len refs).0
        ≡ recursion_error
  unfolding repeated attempts upwards
  repeated_deep zero repeat offset len refs h o l = refl
  repeated_deep (suc depth) repeat offset zero refs h o l = absurd (omega arith)
  repeated_deep (suc depth) repeat offset (suc len) refs h o l =
      let room : leb repeat_max repeat ≡ false = ground (arith, h) in
      rw (room, repeated)
        (nothing_first (matcher offset 0 refs)
          (repeated lazy repeat_min repeat_max matcher depth (suc repeat) (offset + 0)
            (suc len - 0))
          (upwards (suc len) 1 (
            both matcher (repeated lazy repeat_min repeat_max matcher depth (suc repeat)) offset
              (suc len)))
          (empty offset refs o)
          (λ after.
            repeated_deep depth (suc repeat) (offset + 0) (suc len - 0) after (omega arith)
              (omega arith) (omega arith)))

repeat_match_deep :
    (size repeat_min repeat_max : ℕ) (matcher : Match)
    → ((offset : ℕ) (refs : BackRefs) → offset ≤ size → (matcher offset 0 refs).0 ≡ matched)
    → (depth offset len : ℕ) (refs : BackRefs) → depth ≤ repeat_max
    → offset ≤ size
    → (repeat_match lazy repeat_min repeat_max matcher depth offset (suc len) refs).0
      ≡ recursion_error
unfolding repeat_match
repeat_match_deep size zero repeat_max matcher empty depth offset len refs h o =
    repeated_deep size 0 repeat_max matcher empty depth 0 offset (suc len) refs (omega arith) o
      (omega arith)
repeat_match_deep size (suc repeat_min) repeat_max matcher empty depth offset len refs h o =
    repeated_deep size (suc repeat_min) repeat_max matcher empty depth 0 offset (suc len) refs
      (omega arith) o (omega arith)

-- The lazy search of a repetition, of at most `repeat_max` times, of what matches no components at
-- all, and in which all repetitions have their bounds in order and repeat what takes a component
-- each time, runs into Python's limit on recursion on every part with a component, however far that
-- limit is above the length of the name, if it is not above `repeat_max`.
pub match-nullable :
    (re : ReLib) (name : List Bytes) (depth repeat_min repeat_max : ℕ) (matcher : Matcher)
    (offset len : ℕ) (refs : BackRefs)
    → IsProper matcher
    → nullable matcher ≡ true
    → length name < depth
    → depth ≤ repeat_max
    → offset + suc len ≤ length name
    → (match re name lazy depth
        (repeat_matcher repeat_min repeat_max matcher)
        offset
        (suc len)
        refs).0
      ≡ recursion_error
unfolding match
match-nullable re name depth repeat_min repeat_max matcher offset len refs proper empty deep limit
      h =
    repeat_match_deep (length name) repeat_min repeat_max (match re name lazy depth matcher)
      (λ o after le.
        yes-matched (match re name lazy depth matcher o 0 after).0
          (null re name matcher o proper empty)
          (match-Decides re name lazy depth matcher o 0 after proper deep (omega arith)))
      depth offset len refs limit (omega arith)
