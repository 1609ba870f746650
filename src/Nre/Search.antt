-- ===== src/Nre/Search.antt =====
-- The search of the matchers in python/ndn/nre.py and the language of a regular expression.
use py_ccn.Base.{
  ℕ, zero, suc, ◌+◌, ◌-◌, ◌≤◌, ◌<◌, ◌≡◌, refl, sym, Bool, true, false, Option, none, some, List, [],
  ◌∷◌, ◌==◌, ==_iff, if◌then◌else◌, inl, inr, ◌⊎◌, ◌↔◌, ◌||◌, arith, Bytes, length, get_elem?,
  Bool-cases, Option-cases,
}
use py_ccn.Nre.{
  ReLib, ComponentMatcher, Matcher, component_set_matcher, back_ref_matcher, repeat_matcher,
  Matchers, nil, cons, matched, failed, index_error, recursion_error, BackRefs, Outcome, Match,
  Order, in_sequence, set_result, components, expr_match, component_match, any_match, included,
  component_set_match, back_ref_match, match, match_all, pattern_list_match,
}
use py_ccn.Nre.Language.{
  accepts, some_accepts, Matches, MatchesAll, IsProper, AllProper, not-Matches-nil,
}
use py_ccn.Nre.Decides.{Decides, Decides-iff, or_else-Decides, and_then-Decides, both-Decides}
use py_ccn.Nre.Repeat.{Answers, repeat_match-Decides}

or_iff : (a b : Bool) → ((a || b) ≡ true) ↔ ((a ≡ true) ⊎ (b ≡ true))
or_iff true b = (λ e. inl refl, λ e. refl)
or_iff false b = (λ e. inr e, λ s. elim s [ inl e ↦ cc | inr e ↦ e ])

included-Decides :
    (include b : Bool) (outcome : Outcome)
    → Decides (b ≡ true) outcome.0
    → (re : ReLib) (name : List Bytes) → Decides (b ≡ include) (included re name include outcome).0
unfolding Decides
included-Decides true b outcome d re name = d
included-Decides false b (matched, refs) d re name = λ e. cc
included-Decides false true (failed, refs) d re name = absurd (d refl)
included-Decides false false (failed, refs) d re name = refl
included-Decides false b (index_error, refs) d re name = d
included-Decides false b (recursion_error, refs) d re name = d

pub get_elem?-lt :
    {A : Type 0} (xs : List A) (i : ℕ) → i < length xs → (x : A) × (get_elem? xs i ≡ some x)
get_elem?-lt [] i h = absurd (omega arith)
get_elem?-lt (x ∷ xs) zero h = (x, refl)
get_elem?-lt (x ∷ xs) (suc i) h = get_elem?-lt xs i (omega arith)

module _ (re : ReLib) (name : List Bytes) where
  accepts-matched :
      (c : ℕ) (expr component : Bytes) {group : List (Option Bytes)}
      → re.match (c ∷ expr) component ≡ some group
      → accepts re name (c ∷ expr) component ≡ true
  unfolding accepts
  accepts-matched c expr component e = rw (e, accepts) refl

  accepts-unmatched :
      (c : ℕ) (expr component : Bytes)
      → re.match (c ∷ expr) component ≡ none
      → accepts re name (c ∷ expr) component ≡ false
  unfolding accepts
  accepts-unmatched c expr component e = rw (e, accepts) refl

  expr_match-Decides :
      (expr : Bytes) (first_ref : ℕ) (component : Bytes) (refs : BackRefs)
      → Decides
          (accepts re name expr component ≡ true)
          (expr_match re name expr first_ref component refs).0
  unfolding expr_match accepts Decides
  expr_match-Decides [] i component refs = refl
  expr_match-Decides (c ∷ expr) i component refs =
      elim (Option-cases (re.match (c ∷ expr) component)) [
        | inl e ↦ rw (e, Decides) (λ h. cc (h, accepts-unmatched c expr component e))
        | inr (group, e) ↦ rw (e, Decides) (accepts-matched c expr component e)
      ]

  any_match-Decides :
      (matchers : List ComponentMatcher) (component : Bytes) (refs : BackRefs)
      → Decides
          (some_accepts re name matchers component ≡ true)
          (any_match re name matchers component refs).0
  unfolding any_match some_accepts Decides
  any_match-Decides [] component refs = λ e. cc
  any_match-Decides (matcher ∷ matchers) component refs =
      let (to, from) =
        or_iff (accepts re name matcher.expr component) (some_accepts re name matchers component) in
      Decides-iff _ from to (
        or_else-Decides _ _ (component_match re name matcher component refs) _
          (expr_match-Decides matcher.expr matcher.first_ref component refs)
          (any_match-Decides matchers component))

  component_set_match-Decides :
      (include : Bool) (matchers : List ComponentMatcher) (offset len : ℕ) (refs : BackRefs)
      → offset + len ≤ length name
      → Decides
          (Matches re name (component_set_matcher include matchers) offset len)
          (component_set_match re name include matchers offset len refs).0
  unfolding component_set_match Matches Decides
  component_set_match-Decides include matchers offset len refs h = elim (Bool-cases (len == 1)) [
    | inl e ↦
        let one = (==_iff len 1).0 e in
        let (component, found) = get_elem?-lt name offset (omega (arith, one)) in
        rw (e, found, Decides)
          (Decides-iff {G = some_accepts re name matchers component ≡ include}
            {H = Matches re name (component_set_matcher include matchers) offset len}
            (included re name include (any_match re name matchers component refs)).0
            (λ taken. (one, (component, found, taken)))
            (λ (_, (other, same, taken)). cc (same, found, taken))
            (included-Decides include _ _ (any_match-Decides matchers component refs) re name))
    | inr e ↦ rw (e, Decides) (λ (one, _). ground (arith, e, one))
  ]

  nothing-Decides : (len : ℕ) → Decides (len ≡ 0) (if len == 0 then matched else failed)
  unfolding Decides
  nothing-Decides len = elim (Bool-cases (len == 0)) [
    | inl e ↦ rw (e, Decides) ((==_iff len 0).0 e)
    | inr e ↦ rw (e, Decides) (λ zero. ground (arith, e, zero))
  ]

  whole : (P : ℕ → Type 0) (len : ℕ) → ((t : ℕ) × (t ≤ len) × P t × (len - t ≡ 0)) → P len
  whole P len (t, le, m, e) = let same : t ≡ len = omega arith in rw (sym same) m

  -- One matcher behind which nothing is left.
  alone-Decides :
      (P : ℕ → ℕ → Type 0) (matcher : Match) (order : Order)
      → Answers (length name) P matcher
      → Answers (length name) P (in_sequence order (matcher ∷ []))
  unfolding in_sequence
  alone-Decides P matcher order answers offset len refs h =
      Decides-iff (in_sequence order (matcher ∷ []) offset len refs).0 (whole (P offset) len)
        (λ m. (len, omega arith, m, omega arith))
        (both-Decides (P offset) (λ t. len - t ≡ 0) matcher (in_sequence order []) offset len
          (λ t after le. answers offset t after (omega arith))
          (λ t after le m. nothing-Decides (len - t)) order refs)

  back_ref_match-Decides :
      (P : ℕ → ℕ → Type 0) (ref : ℕ) (matcher : Match)
      → Answers (length name) P matcher
      → Answers (length name) P (back_ref_match re name ref matcher)
  unfolding back_ref_match Decides
  back_ref_match-Decides P ref matcher answers offset len refs h =
      let cleared = set_result ref [] refs in
      Decides-iff {G = P offset len × Unit {0}} {H = P offset len}
        (back_ref_match re name ref matcher offset len refs).0 (λ (m, done). m) (λ m. (m, tt))
        (and_then-Decides (P offset len) (Unit {0}) (matcher offset len cleared)
          (λ after. (matched, set_result ref (components re name offset len) after))
          (answers offset len cleared h) (λ m after. tt))

  module _ (order : Order) (depth : ℕ) (deep : length name < depth) where
    mutual
      unfolding match match_all Matches MatchesAll IsProper AllProper in_sequence

      answers :
          (matcher : Matcher)
          → IsProper matcher
          → Answers (length name) (Matches re name matcher) (match re name order depth matcher)
      answers (component_set_matcher include matchers) proper offset len refs h =
          component_set_match-Decides include matchers offset len refs h
      answers (back_ref_matcher ref patterns) proper offset len refs h =
          back_ref_match-Decides (MatchesAll re name patterns) ref
            (in_sequence order (in_sequence order (match_all re name order depth patterns) ∷ []))
            (alone-Decides (MatchesAll re name patterns)
              (in_sequence order (match_all re name order depth patterns)) order
              (all_answer patterns proper))
            offset len refs h
      answers (repeat_matcher repeat_min repeat_max matcher) (takes, bounds, proper) offset len refs
            h =
          repeat_match-Decides (Matches re name matcher) (length name) repeat_min repeat_max
            (match re name order depth matcher) order (answers matcher proper)
            (λ o. not-Matches-nil re name matcher o takes) depth offset len refs h (omega arith)

      all_answer :
          (patterns : Matchers)
          → AllProper patterns
          → Answers
              (length name)
              (MatchesAll re name patterns)
              (in_sequence order (match_all re name order depth patterns))
      all_answer nil proper offset len refs h = nothing-Decides len
      all_answer (cons matcher patterns) (p, ps) offset len refs h =
          both-Decides (Matches re name matcher offset)
            (λ t. MatchesAll re name patterns (offset + t) (len - t))
            (match re name order depth matcher)
            (in_sequence order (match_all re name order depth patterns)) offset len
            (λ t after le. answers matcher p offset t after (omega arith))
            (λ t after le m. all_answer patterns ps (offset + t) (len - t) after (omega arith))
            order refs

  -- In both orders, and whatever was matched before, the search of a list of patterns ends with True or
  -- False within a depth above the length of the name, and answers whether the part of the name
  -- matches them, if what is repeated takes a component each time.
  pub pattern_list_match-Decides :
      (order : Order) (depth : ℕ) (patterns : Matchers) (offset len : ℕ) (refs : BackRefs)
      → AllProper patterns
      → length name < depth
      → offset + len ≤ length name
      → Decides
          (MatchesAll re name patterns offset len)
          (pattern_list_match re name order depth patterns offset len refs).0
  unfolding pattern_list_match
  pattern_list_match-Decides order depth patterns offset len refs proper deep h =
      all_answer order depth deep patterns proper offset len refs h

  -- The same of one matcher.
  pub match-Decides :
      (order : Order) (depth : ℕ) (matcher : Matcher) (offset len : ℕ) (refs : BackRefs)
      → IsProper matcher
      → length name < depth
      → offset + len ≤ length name
      → Decides
          (Matches re name matcher offset len)
          (match re name order depth matcher offset len refs).0
  match-Decides order depth matcher offset len refs proper deep h =
      answers order depth deep matcher proper offset len refs h
