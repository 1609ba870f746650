-- ===== src/Nre.antt =====
-- python/ndn/nre.py: the regular expressions on names. Here are the trees of matchers and how they
-- match.
pub mod Language
mod Decides
mod Repeat
pub mod Search
pub mod Deep
pub mod Text
pub mod Compile
pub mod Regex
mod Safe
mod Sets
pub mod Terminates
mod Fuel
pub mod AnyComponents
pub mod Whole
mod Keep
mod Frame
pub mod Capture
mod Runs
use py_ccn.Base.{
  ℕ, zero, suc, ◌+◌, ◌-◌, ◌==◌, Bool, true, false, not, Option, none, some, List, [], ◌∷◌, map, ltb,
  leb, if◌then◌else◌, Bytes, drop, take, get_elem?,
}

-- The module re of Python: the number of groups of a pattern, none where it does not compile, and
-- the groups of a match at the beginning of a text.
pub record ReLib : Type 0 where
  pub groups : Bytes → Option ℕ
  pub match : Bytes → Bytes → Option (List (Option Bytes))

-- The list `matchResult` of a matcher; a group that took no part is none.
abbrev pub MatchResult : Type 0
MatchResult = List (Option Bytes)

-- The list `backRef`, by the place of a matcher in it.
abbrev pub BackRefs : Type 0
BackRefs = ℕ → MatchResult

abbrev pub set_result : ℕ → MatchResult → BackRefs → BackRefs
set_result i result refs = λ j. if j == i then result else refs j

-- The groups of the pattern have the places in `backRef` from `first_ref` on.
pub record ComponentMatcher : Type 0 where
  pub expr : Bytes
  pub first_ref : ℕ

-- A PatternListMatcher is its list; a BackRefMatcher stands at its place in `backRef`.
mutual
  pub data Matcher : Type 0 where
    component_set_matcher : (include : Bool) → List ComponentMatcher → Matcher
    back_ref_matcher : (ref : ℕ) → Matchers → Matcher
    repeat_matcher : (repeat_min repeat_max : ℕ) → Matcher → Matcher

  pub data Matchers : Type 0 where
    nil : Matchers
    cons : Matcher → Matchers → Matchers

-- The methods come twice: match() tries short parts first, aggressiveMatch() long ones.
pub data Order : Type 0 where
  lazy aggressive : Order

-- What a method returns, True or False, or that it raises: an index outside of the name, or a
-- recursion that is too deep.
pub data Answer : Type 0 where
  matched failed index_error recursion_error : Answer

abbrev pub Outcome : Type 0
Outcome = Answer × BackRefs

-- A call of match() or aggressiveMatch() on a name: an offset, a length, and `backRef`.
abbrev pub Match : Type 0
Match = (offset len : ℕ) → BackRefs → Outcome

-- `a and b`, and `a or b`, where an exception goes on.
abbrev pub and_then : Outcome → (BackRefs → Outcome) → Outcome
and_then (matched, refs) next = next refs
and_then (failed, refs) next = (failed, refs)
and_then (index_error, refs) next = (index_error, refs)
and_then (recursion_error, refs) next = (recursion_error, refs)

abbrev pub or_else : Outcome → (BackRefs → Outcome) → Outcome
or_else (failed, refs) next = next refs
or_else (matched, refs) next = (matched, refs)
or_else (index_error, refs) next = (index_error, refs)
or_else (recursion_error, refs) next = (recursion_error, refs)

-- The loops over `tried`, up from a value with a number of rounds, and down to 0.
unfoldable pub upwards : (rounds tried : ℕ) → (ℕ → BackRefs → Outcome) → BackRefs → Outcome
upwards zero tried attempt refs = (failed, refs)
upwards (suc rounds) tried attempt refs =
    or_else (attempt tried refs) (upwards rounds (suc tried) attempt)

unfoldable pub downwards : (tried : ℕ) → (ℕ → BackRefs → Outcome) → BackRefs → Outcome
downwards zero attempt refs = attempt zero refs
downwards (suc tried) attempt refs = or_else (attempt (suc tried) refs) (downwards tried attempt)

unfoldable pub attempts : Order → (len : ℕ) → (ℕ → BackRefs → Outcome) → BackRefs → Outcome
unfolding upwards downwards
attempts lazy len attempt refs = upwards (suc len) 0 attempt refs
attempts aggressive len attempt refs = downwards len attempt refs

-- matcher.match(name, offset, tried) and the rest of the name by the rest of the matchers
abbrev pub both : Match → Match → (offset len tried : ℕ) → BackRefs → Outcome
both first rest offset len tried refs =
    and_then (first offset tried refs) (rest (offset + tried) (len - tried))

-- BaseMatcher._recursiveMatch() and _aRecursiveMatch() on the rest of `matcherList`.
unfoldable pub in_sequence : Order → List Match → Match
unfolding attempts
in_sequence order [] offset len refs = (if len == 0 then matched else failed, refs)
in_sequence order (matcher ∷ matcher_list) offset len refs =
    attempts order len (both matcher (in_sequence order matcher_list) offset len) refs

-- RepeatMatcher._recursiveMatch() and _aRecursiveMatch(); `depth` is how deep Python lets them
-- call themselves.
unfoldable pub repeated : Order → (repeat_min repeat_max : ℕ) → Match → (depth repeat : ℕ) → Match
unfolding attempts
repeated order repeat_min repeat_max matcher zero repeat offset len refs = (recursion_error, refs)
repeated order repeat_min repeat_max matcher (suc depth) repeat offset zero refs =
    (if ltb repeat repeat_min then failed else matched, refs)
repeated order repeat_min repeat_max matcher (suc depth) repeat offset (suc len) refs =
    elim (leb repeat_max repeat) [
      | true ↦ (failed, refs)
      | false ↦
          attempts order (suc len)
            (both matcher (repeated order repeat_min repeat_max matcher depth (suc repeat)) offset
              (suc len))
            refs
    ]

-- RepeatMatcher.match() and aggressiveMatch()
unfoldable pub repeat_match : Order → (repeat_min repeat_max : ℕ) → Match → (depth : ℕ) → Match
unfolding repeated
repeat_match order zero repeat_max matcher depth offset zero refs = (matched, refs)
repeat_match order repeat_min repeat_max matcher depth offset len refs =
    repeated order repeat_min repeat_max matcher depth 0 offset len refs

-- ComponentMatcher._appendBackRef()
unfoldable pub append_back_ref : ℕ → List (Option Bytes) → BackRefs → BackRefs
append_back_ref i [] refs = refs
append_back_ref i (g ∷ group) refs = append_back_ref (suc i) group (set_result i (g ∷ []) refs)

module _ (re : ReLib) (name : List Bytes) where
  -- ComponentMatcher.match() on name[offset], by the pattern.
  unfoldable pub expr_match : (expr : Bytes) → (first_ref : ℕ) → Bytes → BackRefs → Outcome
  unfolding append_back_ref
  expr_match [] first_ref component refs = (matched, refs)
  expr_match (c ∷ expr) first_ref component refs = elim (re.match (c ∷ expr) component) [
    | none ↦ (failed, refs)
    | some group ↦ (matched, append_back_ref first_ref group refs)
  ]

  abbrev pub component_match : ComponentMatcher → Bytes → BackRefs → Outcome
  component_match matcher = expr_match matcher.expr matcher.first_ref

  -- The loop of ComponentSetMatcher.match().
  unfoldable pub any_match : List ComponentMatcher → Bytes → BackRefs → Outcome
  unfolding expr_match
  any_match [] component refs = (failed, refs)
  any_match (matcher ∷ matcher_list) component refs =
      or_else (component_match matcher component refs) (any_match matcher_list component)

  -- ComponentSetMatcher.match(): matched if self.include else (not matched)
  abbrev pub included : (include : Bool) → Outcome → Outcome
  included true outcome = outcome
  included false (matched, refs) = (failed, refs)
  included false (failed, refs) = (matched, refs)
  included false outcome = outcome

  unfoldable pub component_set_match : (include : Bool) → List ComponentMatcher → Match
  unfolding any_match
  component_set_match include matcher_list offset len refs =
      if len == 1
      then elim (get_elem? name offset) [
        | none ↦ (index_error, refs)
        | some component ↦ included include (any_match matcher_list component refs)
      ]
      else (failed, refs)

  -- name[offset], ..., name[offset + len - 1], where match() succeeded
  abbrev pub components : (offset len : ℕ) → MatchResult
  components offset len = map some (take len (drop offset name))

  -- BaseMatcher.match() and aggressiveMatch() of a BackRefMatcher, whose matchResult is its place in
  -- `backRef`.
  unfoldable pub back_ref_match : (ref : ℕ) → Match → Match
  back_ref_match ref recursive_match offset len refs =
      and_then (recursive_match offset len (set_result ref [] refs))
        (λ after. (matched, set_result ref (components offset len) after))

  module _ (order : Order) (depth : ℕ) where
    unfoldable mutual
      unfolding component_set_match back_ref_match in_sequence repeat_match

      -- match() or aggressiveMatch() of a matcher
      pub match : Matcher → Match
      match (component_set_matcher include matcher_list) = component_set_match include matcher_list
      match (back_ref_matcher ref pattern_list) =
          back_ref_match ref (in_sequence order (in_sequence order (match_all pattern_list) ∷ []))
      match (repeat_matcher repeat_min repeat_max matcher) =
          repeat_match order repeat_min repeat_max (match matcher) depth

      pub match_all : Matchers → List Match
      match_all nil = []
      match_all (cons matcher pattern_list) = match matcher ∷ match_all pattern_list

    -- match() or aggressiveMatch() of a PatternListMatcher
    unfoldable pub pattern_list_match : Matchers → Match
    unfolding match_all in_sequence
    pattern_list_match pattern_list = in_sequence order (match_all pattern_list)
