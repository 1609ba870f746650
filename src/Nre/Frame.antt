-- ===== src/Nre/Frame.antt =====
-- Which results of groups the search of python/ndn/nre.py leaves as they were.
use py_ccn.Base.{
  ℕ, suc, ◌<◌, ◌≡◌, refl, Bool, true, false, ◌==◌, Option, List, [], ◌∷◌, inl, inr, get_elem?,
  Bytes, arith, Bool-cases, Option-cases,
}
use py_ccn.Nre.{
  ReLib, ComponentMatcher, Matcher, component_set_matcher, back_ref_matcher, repeat_matcher,
  Matchers, nil, cons, matched, failed, index_error, recursion_error, BackRefs, MatchResult,
  Outcome, Match, Order, in_sequence, append_back_ref, set_result, components, expr_match,
  component_match, any_match, included, component_set_match, back_ref_match, match, match_all,
  pattern_list_match,
}
use py_ccn.Nre.Keep.{
  Keeps, MatchKeeps, and_then-Keeps, or_else-Keeps, both-Keeps, alone-Keeps, repeat_match-Keeps,
}

-- All groups in a matcher stand behind a place in `backRef`.
abbrev pub ComponentsAbove : ℕ → List ComponentMatcher → Type 0
ComponentsAbove r [] = Unit {0}
ComponentsAbove r (matcher ∷ matchers) = (r < matcher.first_ref) × ComponentsAbove r matchers

unfoldable mutual
  pub IsAbove : ℕ → Matcher → Type 0
  IsAbove r (component_set_matcher include matchers) = ComponentsAbove r matchers
  IsAbove r (back_ref_matcher ref patterns) = (r < ref) × AllAbove r patterns
  IsAbove r (repeat_matcher repeat_min repeat_max matcher) = IsAbove r matcher

  pub AllAbove : ℕ → Matchers → Type 0
  AllAbove r nil = Unit
  AllAbove r (cons matcher patterns) = IsAbove r matcher × AllAbove r patterns

module _ (r : ℕ) (result : MatchResult) where
  set_result-Keeps :
      (i : ℕ) (other : MatchResult) (refs : BackRefs)
      → r < i
      → refs r ≡ result
      → set_result i other refs r ≡ result
  set_result-Keeps i other refs lt e = ground (arith, e)

  append_back_ref-Keeps :
      (group : List (Option Bytes)) (i : ℕ) (refs : BackRefs)
      → r < i
      → refs r ≡ result
      → append_back_ref i group refs r ≡ result
  unfolding append_back_ref
  append_back_ref-Keeps [] i refs lt e = e
  append_back_ref-Keeps (g ∷ group) i refs lt e =
      append_back_ref-Keeps group (suc i) (set_result i (g ∷ []) refs) (omega arith)
        (set_result-Keeps i (g ∷ []) refs lt e)

  module _ (re : ReLib) (name : List Bytes) where
    expr_match-Keeps :
        (expr : Bytes) (first_ref : ℕ) (component : Bytes)
        → r < first_ref
        → Keeps r result (expr_match re name expr first_ref component)
    unfolding expr_match
    expr_match-Keeps [] first_ref component lt refs e = e
    expr_match-Keeps (c ∷ expr) first_ref component lt refs e =
        elim (Option-cases (re.match (c ∷ expr) component)) [
          | inl none_found ↦ rw (none_found, expr_match) e
          | inr (group, found) ↦
              rw (found, expr_match) (append_back_ref-Keeps group first_ref refs lt e)
        ]

    any_match-Keeps :
        (matchers : List ComponentMatcher) (component : Bytes)
        → ComponentsAbove r matchers
        → Keeps r result (any_match re name matchers component)
    unfolding any_match
    any_match-Keeps [] component above refs e = e
    any_match-Keeps (matcher ∷ matchers) component (lt, above) refs e =
        or_else-Keeps r result (component_match re name matcher component refs)
          (any_match re name matchers component)
          (expr_match-Keeps matcher.expr matcher.first_ref component lt refs e)
          (any_match-Keeps matchers component above)

    included-Keeps :
        (include : Bool) (outcome : Outcome)
        → outcome.1 r ≡ result
        → (included re name include outcome).1 r ≡ result
    included-Keeps true outcome e = e
    included-Keeps false (matched, refs) e = e
    included-Keeps false (failed, refs) e = e
    included-Keeps false (index_error, refs) e = e
    included-Keeps false (recursion_error, refs) e = e

    component_set_match-Keeps :
        (include : Bool) (matchers : List ComponentMatcher)
        → ComponentsAbove r matchers
        → MatchKeeps r result (component_set_match re name include matchers)
    unfolding component_set_match
    component_set_match-Keeps include matchers above offset len refs e =
        elim (Bool-cases (len == 1)) [
          | inr many ↦ rw (many, component_set_match) e
          | inl one ↦ elim (Option-cases (get_elem? name offset)) [
            | inl out ↦ rw (one, out, component_set_match) e
            | inr (component, found) ↦
                rw (one, found, component_set_match)
                  (included-Keeps include (any_match re name matchers component refs)
                    (any_match-Keeps matchers component above refs e))
          ]
        ]

    back_ref_match-Keeps :
        (ref : ℕ) (matcher : Match)
        → r < ref
        → MatchKeeps r result matcher
        → MatchKeeps r result (back_ref_match re name ref matcher)
    unfolding back_ref_match
    back_ref_match-Keeps ref matcher lt k offset len refs e =
        and_then-Keeps r result (matcher offset len (set_result ref [] refs))
          (λ after. (matched, set_result ref (components re name offset len) after))
          (k offset len (set_result ref [] refs) (set_result-Keeps ref [] refs lt e))
          (λ after kept. set_result-Keeps ref (components re name offset len) after lt kept)

    module _ (order : Order) (depth : ℕ) where
      mutual
        unfolding match match_all IsAbove AllAbove in_sequence

        keeps :
            (matcher : Matcher)
            → IsAbove r matcher
            → MatchKeeps r result (match re name order depth matcher)
        keeps (component_set_matcher include matchers) above offset len refs e =
            component_set_match-Keeps include matchers above offset len refs e
        keeps (back_ref_matcher ref patterns) (lt, above) offset len refs e =
            back_ref_match-Keeps ref
              (in_sequence order (in_sequence order (match_all re name order depth patterns) ∷ []))
              lt
              (alone-Keeps r result order
                (in_sequence order (match_all re name order depth patterns))
                (all_keep patterns above))
              offset len refs e
        keeps (repeat_matcher mn mx matcher) above offset len refs e =
            repeat_match-Keeps r result order mn mx (match re name order depth matcher)
              (keeps matcher above) depth offset len refs e

        all_keep :
            (patterns : Matchers)
            → AllAbove r patterns
            → MatchKeeps r result (in_sequence order (match_all re name order depth patterns))
        all_keep nil above offset len refs e = e
        all_keep (cons matcher patterns) (a, above) offset len refs e =
            both-Keeps r result order (match re name order depth matcher)
              (in_sequence order (match_all re name order depth patterns)) offset len
              (keeps matcher a) (all_keep patterns above) refs e

-- A search keeps what the groups before those of its matchers hold.
pub pattern_list_match-above :
    (re : ReLib) (name : List Bytes) (order : Order) (depth r : ℕ) (patterns : Matchers)
    (offset len : ℕ) (refs : BackRefs)
    → AllAbove r patterns
    → (pattern_list_match re name order depth patterns offset len refs).1 r ≡ refs r
unfolding pattern_list_match
pattern_list_match-above re name order depth r patterns offset len refs above =
    all_keep r (refs r) re name order depth patterns above offset len refs refl
