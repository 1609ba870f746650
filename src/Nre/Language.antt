-- ===== src/Nre/Language.antt =====
-- What a regular expression of python/ndn/nre.py stands for: which parts of a name match it, with
-- no order of search in it.
use py_ccn.Base.{
  ℕ, zero, suc, ◌+◌, ◌-◌, ◌≤◌, ◌==◌, ◌≡◌, Bool, true, false, ◌&&◌, ◌||◌, not, none, some, List, [],
  ◌∷◌, Bytes, get_elem?, arith, inl, inr, Bool-cases,
}
use py_ccn.Nre.{
  ReLib, ComponentMatcher, Matcher, component_set_matcher, back_ref_matcher, repeat_matcher,
  Matchers, nil, cons,
}

-- A number of parts, one after another from an offset, that make up a length and each have a
-- property.
unfoldable pub Times : (ℕ → ℕ → Type 0) → (times offset len : ℕ) → Type 0
Times P zero offset len = len ≡ 0
Times P (suc times) offset len =
    (first : ℕ) × (first ≤ len) × P offset first × Times P times (offset + first) (len - first)

module _ (re : ReLib) (name : List Bytes) where
  -- An empty pattern stands for any component.
  unfoldable pub accepts : (expr : Bytes) → Bytes → Bool
  accepts [] component = true
  accepts (c ∷ expr) component = elim (re.match (c ∷ expr) component) [
    | none ↦ false
    | some group ↦ true
  ]

  unfoldable pub some_accepts : List ComponentMatcher → Bytes → Bool
  unfolding accepts
  some_accepts [] component = false
  some_accepts (matcher ∷ matchers) component =
      accepts matcher.expr component || some_accepts matchers component

  -- A set takes one component, which is in it, or, with ^, is not in it. Lists of patterns match one
  -- after another.
  unfoldable mutual
    unfolding Times some_accepts

    pub Matches : Matcher → (offset len : ℕ) → Type 0
    Matches (component_set_matcher include matchers) offset len =
        (len ≡ 1)
        × ((component : Bytes) × (get_elem? name offset ≡ some component)
            × (some_accepts matchers component ≡ include))
    Matches (back_ref_matcher ref patterns) offset len = MatchesAll patterns offset len
    Matches (repeat_matcher repeat_min repeat_max matcher) offset len =
        (times : ℕ) × (repeat_min ≤ times)
        × (times ≤ repeat_max)
        × Times (Matches matcher) times offset len

    pub MatchesAll : Matchers → (offset len : ℕ) → Type 0
    MatchesAll nil offset len = len ≡ 0
    MatchesAll (cons matcher patterns) offset len =
        (first : ℕ) × (first ≤ len)
        × Matches matcher offset first
        × MatchesAll patterns (offset + first) (len - first)

-- Whether no component at all can match.
unfoldable mutual
  pub nullable : Matcher → Bool
  nullable (component_set_matcher include matchers) = false
  nullable (back_ref_matcher ref patterns) = all_nullable patterns
  nullable (repeat_matcher repeat_min repeat_max matcher) = repeat_min == 0 || nullable matcher

  pub all_nullable : Matchers → Bool
  all_nullable nil = true
  all_nullable (cons matcher patterns) = nullable matcher && all_nullable patterns

-- What is repeated takes a component each time, and the bounds are in order.
unfoldable mutual
  unfolding nullable

  pub IsProper : Matcher → Type 0
  IsProper (component_set_matcher include matchers) = Unit
  IsProper (back_ref_matcher ref patterns) = AllProper patterns
  IsProper (repeat_matcher repeat_min repeat_max matcher) =
      (nullable matcher ≡ false) × (repeat_min ≤ repeat_max) × IsProper matcher

  pub AllProper : Matchers → Type 0
  AllProper nil = Unit
  AllProper (cons matcher patterns) = IsProper matcher × AllProper patterns

-- The bounds of repetitions are in order.
unfoldable mutual
  pub IsBounded : Matcher → Type 0
  IsBounded (component_set_matcher include matchers) = Unit
  IsBounded (back_ref_matcher ref patterns) = AllBounded patterns
  IsBounded (repeat_matcher repeat_min repeat_max matcher) =
      (repeat_min ≤ repeat_max) × IsBounded matcher

  pub AllBounded : Matchers → Type 0
  AllBounded nil = Unit
  AllBounded (cons matcher patterns) = IsBounded matcher × AllBounded patterns

-- Whether all that is repeated takes a component each time.
unfoldable mutual
  unfolding nullable

  pub takes : Matcher → Bool
  takes (component_set_matcher include matchers) = true
  takes (back_ref_matcher ref patterns) = all_take patterns
  takes (repeat_matcher repeat_min repeat_max matcher) = not (nullable matcher) && takes matcher

  pub all_take : Matchers → Bool
  all_take nil = true
  all_take (cons matcher patterns) = takes matcher && all_take patterns

mutual
  unfolding takes all_take IsBounded AllBounded IsProper AllProper

  is_proper : (matcher : Matcher) → takes matcher ≡ true → IsBounded matcher → IsProper matcher
  is_proper (component_set_matcher include matchers) t b = tt
  is_proper (back_ref_matcher ref patterns) t b = all_proper patterns t b
  is_proper (repeat_matcher repeat_min repeat_max matcher) t (bounds, b) =
      (ground (arith, t), bounds, is_proper matcher (ground (arith, t)) b)

  all_proper :
      (patterns : Matchers) → all_take patterns ≡ true → AllBounded patterns → AllProper patterns
  all_proper nil t b = tt
  all_proper (cons matcher patterns) t (b, bs) =
      (is_proper matcher (ground (arith, t)) b, all_proper patterns (ground (arith, t)) bs)

pub AllProper-of_take :
    (patterns : Matchers) → all_take patterns ≡ true → AllBounded patterns → AllProper patterns
AllProper-of_take = all_proper

-- No parts that take a component each make up nothing.
pub not-Times-nil :
    (P : ℕ → ℕ → Type 0) (times offset : ℕ) → ¬ P offset 0 → ¬ Times P (suc times) offset 0
unfolding Times
not-Times-nil P times offset h (zero, _, m, ts) = h m
not-Times-nil P times offset h (suc n, le, m, ts) = omega (arith, le)

module _ (re : ReLib) (name : List Bytes) where
  mutual
    unfolding nullable Matches MatchesAll all_nullable

    not_null :
        (matcher : Matcher) (offset : ℕ)
        → nullable matcher ≡ false
        → ¬ Matches re name matcher offset 0
    not_null (component_set_matcher include matchers) offset h (e, _) = omega (arith, e)
    not_null (back_ref_matcher ref patterns) offset h m = not_all_null patterns offset h m
    not_null (repeat_matcher zero repeat_max matcher) offset h m = cc
    not_null (repeat_matcher (suc repeat_min) repeat_max matcher) offset h (zero, least, _, _) =
        omega (arith, least)
    not_null (repeat_matcher (suc repeat_min) repeat_max matcher) offset h (suc times, _, _, ts) =
        not-Times-nil (Matches re name matcher) times offset
          (not_null matcher offset (ground (arith, h))) ts

    not_all_null :
        (patterns : Matchers) (offset : ℕ)
        → all_nullable patterns ≡ false
        → ¬ MatchesAll re name patterns offset 0
    not_all_null nil offset h m = cc
    not_all_null (cons matcher patterns) offset h (suc n, le, m, ms) = omega (arith, le)
    not_all_null (cons matcher patterns) offset h (zero, le, m, ms) =
        elim (Bool-cases (nullable matcher)) [
          | inl e ↦ not_all_null patterns (offset + 0) (ground (arith, e, h)) ms
          | inr e ↦ not_null matcher offset e m
        ]

  -- What is not nullable matches no empty part.
  pub not-Matches-nil :
      (matcher : Matcher) (offset : ℕ)
      → nullable matcher ≡ false
      → ¬ Matches re name matcher offset 0
  not-Matches-nil = not_null
