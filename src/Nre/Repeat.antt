-- ===== src/Nre/Repeat.antt =====
-- RepeatMatcher of python/ndn/nre.py: the search of its parts.
use py_ccn.Base.{
  ℕ, zero, suc, ◌+◌, ◌-◌, ◌≤◌, ◌<◌, ◌≡◌, refl, false, ltb, leb, inl, inr, arith, tests, Bool-cases,
}
use py_ccn.Nre.{BackRefs, Match, Order, repeated, repeat_match}
use py_ccn.Nre.Language.{Times, not-Times-nil}
use py_ccn.Nre.Decides.{Decides, Decides-iff, both-Decides}

-- A matcher answers a question about each part of a name of a size.
abbrev pub Answers : (size : ℕ) → (ℕ → ℕ → Type 0) → Match → Type 0
Answers size P matcher =
    (offset len : ℕ) (refs : BackRefs)
    → offset + len ≤ size
    → Decides (P offset len) (matcher offset len refs).0

-- Repetition of what takes a component each time.
module _ (P : ℕ → ℕ → Type 0) (size repeat_min repeat_max : ℕ) (matcher : Match) (order : Order)
    (answers : Answers size P matcher) (takes : (offset : ℕ) → ¬ P offset 0) where
  -- What is left to do after some rounds.
  abbrev Left : (repeat offset len : ℕ) → Type 0
  Left repeat offset len =
      (times : ℕ) × (repeat_min ≤ repeat + times)
      × (repeat + times ≤ repeat_max)
      × Times P times offset len

  -- A round and what is left after it.
  abbrev Round : (repeat offset len : ℕ) → Type 0
  Round repeat offset len =
      (t : ℕ) × (t ≤ len) × P offset t × Left (suc repeat) (offset + t) (len - t)

  Left-full : (repeat offset len : ℕ) → repeat_max ≤ repeat → ¬ Left repeat offset (suc len)
  unfolding Times
  Left-full repeat offset len h (zero, least, most, e) = omega (arith, e)
  Left-full repeat offset len h (suc times, least, most, ts) = omega arith

  Left-nil : (repeat offset : ℕ) → Left repeat offset 0 → repeat_min ≤ repeat
  Left-nil repeat offset (zero, least, most, ts) = omega arith
  Left-nil repeat offset (suc times, least, most, ts) =
      absurd (not-Times-nil P times offset (takes offset) ts)

  Round→Left : (repeat offset len : ℕ) → Round repeat offset len → Left repeat offset len
  unfolding Times
  Round→Left repeat offset len (t, le, m, (times, least, most, ts)) =
      (suc times, omega arith, omega arith, (t, le, m, ts))

  Left→Round :
      (repeat offset len : ℕ) → Left repeat offset (suc len) → Round repeat offset (suc len)
  unfolding Times
  Left→Round repeat offset len (zero, least, most, e) = absurd (omega (arith, e))
  Left→Round repeat offset len (suc times, least, most, (t, le, m, ts)) =
      (t, le, m, (times, omega arith, omega arith, ts))

  P-pos : (offset t : ℕ) → P offset t → 0 < t
  P-pos offset zero m = absurd (takes offset m)
  P-pos offset (suc t) m = omega arith

  room : (repeat : ℕ) → leb repeat_max repeat ≡ false → suc repeat ≤ repeat_max
  room repeat e = ground (arith, e)

  repeated-Decides :
      (depth repeat offset len : ℕ) (refs : BackRefs)
      → offset + len ≤ size
      → len < depth
      → repeat ≤ repeat_max
      → Decides
          (Left repeat offset len)
          (repeated order repeat_min repeat_max matcher depth repeat offset len refs).0
  unfolding repeated Decides Times
  repeated-Decides zero repeat offset len refs h d r = omega arith
  repeated-Decides (suc depth) repeat offset zero refs h d r =
      elim (Bool-cases (ltb repeat repeat_min)) [
        | inl e ↦ rw (e, Decides) (λ l. omega (tests, e, Left-nil repeat offset l))
        | inr e ↦ rw (e, Decides) (0, ground (arith, e), omega arith, refl)
      ]
  repeated-Decides (suc depth) repeat offset (suc len) refs h d r =
      elim (Bool-cases (leb repeat_max repeat)) [
        | inl e ↦ rw (e, repeated, Decides) (Left-full repeat offset len (omega (tests, e)))
        | inr e ↦
            rw (e, repeated)
              (Decides-iff _ (Round→Left repeat offset (suc len)) (Left→Round repeat offset len) (
                both-Decides (P offset) (λ t. Left (suc repeat) (offset + t) (suc len - t)) matcher
                  (repeated order repeat_min repeat_max matcher depth (suc repeat)) offset (suc len)
                  (λ t after le. answers offset t after (omega arith))
                  (λ t after le m.
                    repeated-Decides depth (suc repeat) (offset + t) (suc len - t) after
                      (omega arith) (omega (arith, P-pos offset t m)) (room repeat e))
                  order refs))
      ]

  started-Decides :
      (depth offset len : ℕ) (refs : BackRefs)
      → offset + len ≤ size
      → len < depth
      → Decides
          ((times : ℕ) × (repeat_min ≤ times) × (times ≤ repeat_max) × Times P times offset len)
          (repeated order repeat_min repeat_max matcher depth 0 offset len refs).0
  started-Decides depth offset len refs h d =
      Decides-iff (repeated order repeat_min repeat_max matcher depth 0 offset len refs).0
        (λ (times, least, most, ts). (times, omega arith, omega arith, ts))
        (λ (times, least, most, ts). (times, omega arith, omega arith, ts))
        (repeated-Decides depth 0 offset len refs h d (omega arith))

-- The search of a repetition, where what is repeated takes a component each time.
pub repeat_match-Decides :
    (P : ℕ → ℕ → Type 0) (size repeat_min repeat_max : ℕ) (matcher : Match) (order : Order)
    → Answers size P matcher
    → ((offset : ℕ) → ¬ P offset 0)
    → (depth offset len : ℕ) (refs : BackRefs) → offset + len ≤ size
    → len < depth
    → Decides
        ((times : ℕ) × (repeat_min ≤ times) × (times ≤ repeat_max) × Times P times offset len)
        (repeat_match order repeat_min repeat_max matcher depth offset len refs).0
unfolding repeat_match Decides Times
repeat_match-Decides P size zero mx m order a takes depth offset zero refs h d =
    (0, omega arith, omega arith, refl)
repeat_match-Decides P size zero mx m order a takes depth offset (suc len) refs h d =
    started-Decides P size zero mx m order a takes depth offset (suc len) refs h d
repeat_match-Decides P size (suc mn) mx m order a takes depth offset len refs h d =
    started-Decides P size (suc mn) mx m order a takes depth offset len refs h d
