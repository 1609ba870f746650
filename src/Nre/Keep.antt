-- ===== src/Nre/Keep.antt =====
-- The loops of the matchers in python/ndn/nre.py, where their bodies keep the result of a group.
use py_ccn.Base.{ℕ, zero, suc, ◌+◌, ◌-◌, ◌≡◌, leb, [], ◌∷◌, inl, inr, Bool-cases}
use py_ccn.Nre.{
  matched, failed, index_error, recursion_error, BackRefs, MatchResult, Outcome, Match, Order, lazy,
  aggressive, and_then, or_else, upwards, downwards, attempts, both, in_sequence, repeated,
  repeat_match,
}

module _ (r : ℕ) (result : MatchResult) where
  -- The call keeps the result at the place.
  abbrev pub Keeps : (BackRefs → Outcome) → Type 0
  Keeps next = (refs : BackRefs) → refs r ≡ result → (next refs).1 r ≡ result

  pub and_then-Keeps :
      (outcome : Outcome) (next : BackRefs → Outcome)
      → outcome.1 r ≡ result
      → Keeps next
      → (and_then outcome next).1 r ≡ result
  and_then-Keeps (matched, refs) next e k = k refs e
  and_then-Keeps (failed, refs) next e k = e
  and_then-Keeps (index_error, refs) next e k = e
  and_then-Keeps (recursion_error, refs) next e k = e

  pub or_else-Keeps :
      (outcome : Outcome) (next : BackRefs → Outcome)
      → outcome.1 r ≡ result
      → Keeps next
      → (or_else outcome next).1 r ≡ result
  or_else-Keeps (matched, refs) next e k = e
  or_else-Keeps (failed, refs) next e k = k refs e
  or_else-Keeps (index_error, refs) next e k = e
  or_else-Keeps (recursion_error, refs) next e k = e

  module _ (attempt : ℕ → BackRefs → Outcome) (keeps : (tried : ℕ) → Keeps (attempt tried)) where
    upwards-Keeps : (rounds tried : ℕ) → Keeps (upwards rounds tried attempt)
    unfolding upwards
    upwards-Keeps zero tried refs e = e
    upwards-Keeps (suc rounds) tried refs e =
        or_else-Keeps (attempt tried refs) (upwards rounds (suc tried) attempt) (keeps tried refs e)
          (upwards-Keeps rounds (suc tried))

    downwards-Keeps : (tried : ℕ) → Keeps (downwards tried attempt)
    unfolding downwards
    downwards-Keeps zero refs e = keeps zero refs e
    downwards-Keeps (suc tried) refs e =
        or_else-Keeps (attempt (suc tried) refs) (downwards tried attempt)
          (keeps (suc tried) refs e) (downwards-Keeps tried)

    attempts-Keeps : (order : Order) (len : ℕ) → Keeps (attempts order len attempt)
    unfolding attempts
    attempts-Keeps lazy len refs e = upwards-Keeps (suc len) 0 refs e
    attempts-Keeps aggressive len refs e = downwards-Keeps len refs e

  -- The matcher keeps the result in every call.
  abbrev pub MatchKeeps : Match → Type 0
  MatchKeeps matcher = (offset len : ℕ) → Keeps (matcher offset len)

  pub both-Keeps :
      (order : Order) (first rest : Match) (offset len : ℕ)
      → MatchKeeps first
      → MatchKeeps rest
      → Keeps (attempts order len (both first rest offset len))
  both-Keeps order first rest offset len f k =
      attempts-Keeps (both first rest offset len)
        (λ tried refs e.
          and_then-Keeps (first offset tried refs) (rest (offset + tried) (len - tried))
            (f offset tried refs e) (k (offset + tried) (len - tried)))
        order len

  pub alone-Keeps :
      (order : Order) (matcher : Match)
      → MatchKeeps matcher
      → MatchKeeps (in_sequence order (matcher ∷ []))
  unfolding in_sequence
  alone-Keeps order matcher k offset len =
      both-Keeps order matcher (in_sequence order []) offset len k (λ o n refs e. e)

  repeated-Keeps :
      (order : Order) (repeat_min repeat_max : ℕ) (matcher : Match)
      → MatchKeeps matcher
      → (depth repeat : ℕ) → MatchKeeps (repeated order repeat_min repeat_max matcher depth repeat)
  unfolding repeated
  repeated-Keeps order mn mx matcher k zero repeat offset len refs e = e
  repeated-Keeps order mn mx matcher k (suc depth) repeat offset zero refs e = e
  repeated-Keeps order mn mx matcher k (suc depth) repeat offset (suc len) refs e =
      elim (Bool-cases (leb mx repeat)) [
        | inl full ↦ rw (full, repeated) e
        | inr room ↦
            rw (room, repeated)
              (both-Keeps order matcher (repeated order mn mx matcher depth (suc repeat)) offset
                (suc len) k (repeated-Keeps order mn mx matcher k depth (suc repeat)) refs e)
      ]

  pub repeat_match-Keeps :
      (order : Order) (repeat_min repeat_max : ℕ) (matcher : Match)
      → MatchKeeps matcher
      → (depth : ℕ) → MatchKeeps (repeat_match order repeat_min repeat_max matcher depth)
  unfolding repeat_match
  repeat_match-Keeps order zero mx matcher k depth offset zero refs e = e
  repeat_match-Keeps order zero mx matcher k depth offset (suc len) refs e =
      repeated-Keeps order zero mx matcher k depth 0 offset (suc len) refs e
  repeat_match-Keeps order (suc mn) mx matcher k depth offset len refs e =
      repeated-Keeps order (suc mn) mx matcher k depth 0 offset len refs e
