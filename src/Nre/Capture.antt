-- ===== src/Nre/Capture.antt =====
-- What the groups of a regular expression in python/ndn/nre.py hold after a match.
use py_ccn.Base.{
  ℕ, zero, suc, ◌+◌, ◌-◌, ◌≤◌, ◌<◌, ◌≡◌, refl, sym, ap, ◌∙◌, List, [], ◌∷◌, length, Bytes, arith,
  ◌⊎◌, inl, inr,
}
use py_ccn.Nre.{
  ReLib, back_ref_matcher, Matchers, nil, cons, matched, failed, index_error, recursion_error,
  BackRefs, MatchResult, Outcome, Match, Order, lazy, aggressive, and_then, or_else, upwards,
  downwards, attempts, both, in_sequence, set_result, components, back_ref_match, match, match_all,
  pattern_list_match,
}
use py_ccn.Nre.Language.{Matches, MatchesAll, IsProper, AllProper}
use py_ccn.Nre.Decides.{Decides}
use py_ccn.Nre.Search.{match-Decides, pattern_list_match-Decides}
use py_ccn.Nre.Frame.{AllAbove, pattern_list_match-above}

-- A search that succeeds has an attempt that did.
or_else-matched :
    (outcome : Outcome) (next : BackRefs → Outcome) {after : BackRefs}
    → or_else outcome next ≡ (matched, after)
    → (outcome ≡ (matched, after)) ⊎ ((refs : BackRefs) × (next refs ≡ (matched, after)))
or_else-matched (matched, refs) next e = inl e
or_else-matched (failed, refs) next e = inr (refs, e)
or_else-matched (index_error, refs) next e = cc
or_else-matched (recursion_error, refs) next e = cc

and_then-matched :
    (outcome : Outcome) (next : BackRefs → Outcome) {after : BackRefs}
    → and_then outcome next ≡ (matched, after)
    → (refs : BackRefs) × (outcome ≡ (matched, refs)) × (next refs ≡ (matched, after))
and_then-matched (matched, refs) next e = (refs, refl, e)
and_then-matched (failed, refs) next e = cc
and_then-matched (index_error, refs) next e = cc
and_then-matched (recursion_error, refs) next e = cc

module _ (attempt : ℕ → BackRefs → Outcome) (after : BackRefs) where
  abbrev Found : ℕ → Type 0
  Found len = (t : ℕ) × (t ≤ len) × ((refs : BackRefs) × (attempt t refs ≡ (matched, after)))

  upwards-matched :
      (rounds tried len : ℕ) (refs : BackRefs)
      → tried + rounds ≡ suc len
      → upwards rounds tried attempt refs ≡ (matched, after)
      → Found len
  unfolding upwards
  upwards-matched zero tried len refs h e = cc
  upwards-matched (suc rounds) tried len refs h e =
      elim (or_else-matched (attempt tried refs) (upwards rounds (suc tried) attempt) e) [
        | inl here ↦ (tried, omega arith, (refs, here))
        | inr (later, there) ↦ upwards-matched rounds (suc tried) len later (omega arith) there
      ]

  downwards-matched :
      (tried len : ℕ) (refs : BackRefs)
      → tried ≤ len
      → downwards tried attempt refs ≡ (matched, after)
      → Found len
  unfolding downwards
  downwards-matched zero len refs h e = (0, omega arith, (refs, e))
  downwards-matched (suc tried) len refs h e =
      elim (or_else-matched (attempt (suc tried) refs) (downwards tried attempt) e) [
        | inl here ↦ (suc tried, h, (refs, here))
        | inr (later, there) ↦ downwards-matched tried len later (omega arith) there
      ]

  attempts-matched :
      (order : Order) (len : ℕ) (refs : BackRefs)
      → attempts order len attempt refs ≡ (matched, after)
      → Found len
  unfolding attempts
  attempts-matched lazy len refs e = upwards-matched (suc len) 0 len refs (omega arith) e
  attempts-matched aggressive len refs e = downwards-matched len len refs (omega arith) e

both-matched :
    (order : Order) (first rest : Match) (offset len : ℕ) (refs after : BackRefs)
    → attempts order len (both first rest offset len) refs ≡ (matched, after)
    → (t : ℕ) × (t ≤ len)
      × (before : BackRefs) × (between : BackRefs) × (first offset t before ≡ (matched, between))
      × (rest (offset + t) (len - t) between ≡ (matched, after))
both-matched order first rest offset len refs after e =
    let (t, le, (before, here)) =
      attempts-matched (both first rest offset len) after order len refs e in
    let (between, one, others) =
      and_then-matched (first offset t before) (rest (offset + t) (len - t)) here in
    (t, le, before, between, one, others)

holds :
    {G : Type 0} (outcome : Outcome) (after : BackRefs)
    → Decides G outcome.0
    → outcome ≡ (matched, after)
    → G
unfolding Decides
holds outcome after d e = rw e at d

set_result_same :
    (r : ℕ) (result : MatchResult) (refs : BackRefs) → set_result r result refs r ≡ result
set_result_same r result refs = ground arith

back_ref_match-result :
    (re : ReLib) (name : List Bytes) (r : ℕ) (matcher : Match) (offset len : ℕ)
    (refs after : BackRefs)
    → back_ref_match re name r matcher offset len refs ≡ (matched, after)
    → after r ≡ components re name offset len
unfolding back_ref_match
back_ref_match-result re name r matcher offset len refs after e =
    let (between, one, set) = and_then-matched (matcher offset len (set_result r [] refs)) _ e in
    sym (ap (λ o. o.1 r) set) ∙ set_result_same r (components re name offset len) between

abbrev pub append : Matchers → Matchers → Matchers
append nil behind = behind
append (cons matcher before) behind = cons matcher (append before behind)

-- A group holds a part of the name that its patterns match, with what stands before it and behind it
-- matching the rest.
abbrev pub Captured :
    (re : ReLib) (name : List Bytes) (before group behind : Matchers) (r offset len : ℕ)
    → BackRefs
    → Type 0
Captured re name before group behind r offset len after =
    (start : ℕ) × (stop : ℕ) × (offset ≤ start)
    × (start ≤ stop)
    × (stop ≤ offset + len)
    × MatchesAll re name before offset (start - offset)
    × MatchesAll re name group start (stop - start)
    × MatchesAll re name behind stop (offset + len - stop)
    × (after r ≡ components re name start (stop - start))

module _ (re : ReLib) (name : List Bytes) (order : Order) (depth : ℕ) (deep : length name < depth)
    (r : ℕ) (group behind : Matchers) (above : AllAbove r behind) where
  captured :
      (before : Matchers) (offset len : ℕ) (refs after : BackRefs)
      → AllProper (append before (cons (back_ref_matcher r group) behind))
      → offset + len ≤ length name
      → pattern_list_match re name order depth
          (append before (cons (back_ref_matcher r group) behind))
          offset
          len
          refs
        ≡ (matched, after)
      → Captured re name before group behind r offset len after
  unfolding pattern_list_match match_all in_sequence match AllProper IsProper Matches MatchesAll
  captured nil offset len refs after (proper, others) h e =
      let (t, le, first, between, one, rest) =
        both-matched order (match re name order depth (back_ref_matcher r group))
          (in_sequence order (match_all re name order depth behind)) offset len refs after e in
      let shift : offset + t - offset ≡ t = omega arith in
      let left : offset + len - (offset + t) ≡ len - t = omega arith in
      (
        offset,
        offset + t,
        omega arith,
        omega arith,
        omega arith,
        omega arith,
        rw shift (
            holds _ between
              (match-Decides re name order depth (back_ref_matcher r group) offset t first proper
                deep (omega arith))
              one),
        rw left (
            holds _ after
              (pattern_list_match-Decides re name order depth behind (offset + t) (len - t) between
                others deep (omega arith))
              rest),
        rw shift (
            sym (ap (λ o. o.1 r) rest)
            ∙ pattern_list_match-above re name order depth r behind (offset + t) (len - t) between
                above
            ∙ back_ref_match-result re name r
                (in_sequence order (in_sequence order (match_all re name order depth group) ∷ []))
                offset t first between one),
      )
  captured (cons matcher before) offset len refs after (p, proper) h e =
      let (t, le, first, between, one, rest) =
        both-matched order (match re name order depth matcher)
          (in_sequence order (
            match_all re name order depth (append before (cons (back_ref_matcher r group) behind))))
          offset len refs after e in
      let (start, stop, low, mid, high, ms, gs, bs, holds_it) =
        captured before (offset + t) (len - t) between after proper (omega arith) rest in
      let shift : start - offset - t ≡ start - (offset + t) = omega arith in
      let left : offset + len - stop ≡ offset + t + (len - t) - stop = omega arith in
      (
        start,
        stop,
        omega arith,
        mid,
        omega arith,
        (
          t,
          omega arith,
          holds _ between
              (match-Decides re name order depth matcher offset t first p deep (omega arith)) one,
          rw shift ms,
        ),
        gs,
        rw left bs,
        holds_it,
      )

-- A search that succeeds leaves in a group, which is not repeated and before those behind it in
-- `backRef`, the components of a part of the name that the patterns of the group match, where what stands
-- before the group matches the components before that part, and what stands behind it the rest; in
-- both orders, and whatever the groups held before, if what is repeated takes a component
-- each time and the depth is above the length of the name.
pub pattern_list_match-Captured :
    (re : ReLib) (name : List Bytes) (order : Order) (depth r : ℕ) (before group behind : Matchers)
    (offset len : ℕ) (refs after : BackRefs)
    → AllProper (append before (cons (back_ref_matcher r group) behind))
    → AllAbove r behind
    → length name < depth
    → offset + len ≤ length name
    → pattern_list_match re name order depth
        (append before (cons (back_ref_matcher r group) behind))
        offset
        len
        refs
      ≡ (matched, after)
    → Captured re name before group behind r offset len after
pattern_list_match-Captured re name order depth r before group behind offset len refs after proper
      above deep h e =
    captured re name order depth deep r group behind above before offset len refs after proper h e
