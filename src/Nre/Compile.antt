-- ===== src/Nre/Compile.antt =====
-- The constructors of the matchers in python/ndn/nre.py: from the text of a regular expression to the
-- tree of matchers.
use py_ccn.Base.{
  ℕ, zero, suc, ◌+◌, ◌-◌, ◌==◌, true, false, none, some, List, [], ◌∷◌, ltb, if◌then◌else◌, Bytes,
  length, take, drop, get_elem?,
}
use py_ccn.Nre.{
  ReLib, ComponentMatcher, Matcher, component_set_matcher, back_ref_matcher, repeat_matcher,
  Matchers, nil, cons,
}
use py_ccn.Nre.Text.{
  Built, built, raises, regex_error, index_error, re_error, out_of_fuel, ◌>>=◌, extract_sub_pattern,
  extract_repetition, parse_repetition,
}

-- expr[from:to]
abbrev pub slice : (from to : ℕ) → Bytes → Bytes
slice from to expr = take (to - from) (drop from expr)

-- expr[index]
abbrev pub char_at : Bytes → ℕ → Built ℕ
char_at expr index = elim (get_elem? expr index) [ none ↦ raises index_error | some c ↦ built c ]

-- ComponentSetMatcher._extractComponent(), on what follows the index.
unfoldable pub extract_component : (open_brackets index : ℕ) → Bytes → ℕ
extract_component zero index expr = index
extract_component (suc n) index [] = index
extract_component (suc n) index (c ∷ expr) =
    extract_component (if c == b'<' then suc (suc n) else (if c == b'>' then n else suc n))
      (suc index) expr

module _ (re : ReLib) where
  -- The constructor of ComponentMatcher; `refs` is the length of `backRef`, before and after.
  unfoldable pub component_matcher : Bytes → (refs : ℕ) → Built (ComponentMatcher × ℕ)
  component_matcher expr refs = elim (re.groups expr) [
    | none ↦ raises re_error
    | some groups ↦ built (record { expr = expr; first_ref = refs }, refs + groups)
  ]

  -- ComponentSetMatcher._compileSingleComponent()
  unfoldable pub compile_single_component : Bytes → (refs : ℕ) → Built (List ComponentMatcher × ℕ)
  unfolding extract_component component_matcher
  compile_single_component expr refs =
      let end = extract_component 1 1 (drop 1 expr) in
      if length expr == end
      then (component_matcher (slice 1 (end - 1) expr) refs >>= λ (matcher, after).
          built (matcher ∷ [], after))
      else raises regex_error

  -- The loop of ComponentSetMatcher._compileMultipleComponents(), which goes on in every round.
  unfoldable pub compile_multiple_components :
      (rounds : ℕ) → Bytes → (index last_index refs : ℕ) → Built (List ComponentMatcher × ℕ)
  unfolding extract_component component_matcher
  compile_multiple_components zero expr index last_index refs =
      if ltb index last_index
      then raises out_of_fuel
      else (if index == last_index then built ([], refs) else raises regex_error)
  compile_multiple_components (suc rounds) expr index last_index refs =
      let end = extract_component 1 (suc index) (drop (suc index) expr) in
      if ltb index last_index
      then (char_at expr index >>= λ c.
          if c == b'<'
          then (component_matcher (slice (suc index) (end - 1) expr) refs >>= λ (matcher, after).
              compile_multiple_components rounds expr end last_index after >>= λ (matchers, last).
              built (matcher ∷ matchers, last))
          else raises regex_error)
      else (if index == last_index then built ([], refs) else raises regex_error)

  -- The constructor of ComponentSetMatcher.
  unfoldable pub component_set : Bytes → (refs : ℕ) → Built (Matcher × ℕ)
  unfolding compile_single_component compile_multiple_components
  component_set expr refs = char_at expr 0 >>= λ c.
      let last_index = length expr - 1 in
      if c == b'<'
      then (compile_single_component expr refs >>= λ (matchers, after).
          built (component_set_matcher true matchers, after))
      else (if c == b'['
          then (char_at expr last_index >>= λ close.
              if close == b']'
              then (char_at expr 1 >>= λ d.
                  if d == b'^'
                  then (compile_multiple_components last_index expr 2 last_index refs
                      >>= λ (matchers, after). built (component_set_matcher false matchers, after))
                  else (compile_multiple_components last_index expr 1 last_index refs
                      >>= λ (matchers, after). built (component_set_matcher true matchers, after)))
              else raises regex_error)
          else built (component_set_matcher true [], refs))

  -- The constructor of PatternListMatcher, as the ones of BackRefMatcher and RepeatMatcher call it.
  module _ (int_max : ℕ) (pattern_list : Bytes → ℕ → Built (Matchers × ℕ)) where
    -- The constructor of BackRefMatcher.
    unfoldable pub back_ref : Bytes → (refs : ℕ) → Built (Matcher × ℕ)
    back_ref expr refs =
        let last_index = length expr - 1 in
        char_at expr 0 >>= λ c. char_at expr last_index >>= λ close.
        if c == b'('
        then (if close == b')'
            then (pattern_list (slice 1 last_index expr) (suc refs) >>= λ (matchers, after).
                built (back_ref_matcher refs matchers, after))
            else raises regex_error)
        else raises regex_error

    -- The constructor of RepeatMatcher.
    unfoldable pub repeat : Bytes → (indicator refs : ℕ) → Built (Matcher × ℕ)
    unfolding back_ref component_set parse_repetition
    repeat expr indicator refs = char_at expr 0 >>= λ c.
        (if c == b'('
          then back_ref (take indicator expr) refs
          else component_set (take indicator expr) refs)
        >>= λ (matcher, after). parse_repetition int_max (drop indicator expr) >>= λ (low, high).
            built (repeat_matcher low high matcher, after)

    -- What the branches of PatternListMatcher._extractPattern() share: a part in brackets, to its
    -- indicator, and the repetition behind it, to its end.
    abbrev pub bracketed :
        (left right : ℕ)
        → (make : (indicator end : ℕ) → Built (Matcher × ℕ)) → Bytes
        → Built (Matcher × ℕ × ℕ)
    bracketed left right make expr =
        extract_sub_pattern left right 1 1 (drop 1 expr) >>= λ indicator.
        extract_repetition indicator (drop indicator expr) >>= λ end.
        make indicator end >>= λ (matcher, after). built (matcher, after, end)

    -- PatternListMatcher._extractPattern() on the text from the index on: the matcher, the length of
    -- `backRef` and where the pattern ends.
    unfoldable pub extract_pattern : Bytes → (refs : ℕ) → Built (Matcher × ℕ × ℕ)
    unfolding repeat back_ref extract_sub_pattern extract_repetition
    extract_pattern expr refs = char_at expr 0 >>= λ c.
        if c == b'('
        then bracketed b'(' b')'
            (λ indicator end.
              if indicator == end
              then back_ref (take end expr) refs
              else repeat (take end expr) indicator refs)
            expr
        else (if c == b'<'
            then bracketed b'<' b'>' (λ indicator end. repeat (take end expr) indicator refs) expr
            else (if c == b'['
                then bracketed b'[' b']' (λ indicator end. repeat (take end expr) indicator refs)
                    expr
                else raises regex_error))

  -- The constructor of PatternListMatcher. It calls itself on shorter texts.
  unfoldable pub pattern_list : (int_max fuel : ℕ) → Bytes → (refs : ℕ) → Built (Matchers × ℕ)
  unfolding extract_pattern
  pattern_list int_max fuel [] refs = built (nil, refs)
  pattern_list int_max zero (c ∷ expr) refs = raises out_of_fuel
  pattern_list int_max (suc fuel) (c ∷ expr) refs =
      extract_pattern int_max (pattern_list int_max fuel) (c ∷ expr) refs
      >>= λ (matcher, after, end).
          pattern_list int_max fuel (drop end (c ∷ expr)) after >>= λ (matchers, last).
          built (cons matcher matchers, last)
