-- ===== src/Nre/Decides.antt =====
-- The loops of the matchers in python/ndn/nre.py, with what their bodies answer.
use py_ccn.Base.{
  ℕ, zero, suc, ◌+◌, ◌-◌, ◌≤◌, ◌<◌, ◌≡◌, sym, ◌⊎◌, inl, inr, ◌==◌, ==_iff, arith, Bool-cases,
}
use py_ccn.Nre.{
  Answer, matched, failed, index_error, recursion_error, BackRefs, Outcome, Match, and_then,
  or_else, upwards, downwards, attempts, both, Order, lazy, aggressive,
}

-- The call ended with True or False, and the answer is right about `G`.
unfoldable pub Decides : Type 0 → Answer → Type 0
Decides G matched = G
Decides G failed = ¬ G
Decides G index_error = ⊥
Decides G recursion_error = ⊥

pub Decides-iff :
    {G H : Type 0} (answer : Answer) → (G → H) → (H → G) → Decides G answer → Decides H answer
unfolding Decides
Decides-iff matched to from d = to d
Decides-iff failed to from d = λ h. d (from h)
Decides-iff index_error to from d = d
Decides-iff recursion_error to from d = d

pub and_then-Decides :
    (G H : Type 0) (outcome : Outcome) (next : BackRefs → Outcome)
    → Decides G outcome.0
    → (G → (refs : BackRefs) → Decides H (next refs).0)
    → Decides (G × H) (and_then outcome next).0
unfolding Decides
and_then-Decides G H (matched, refs) next d k =
    Decides-iff (next refs).0 (λ h. (d, h)) (λ gh. gh.1) (k d refs)
and_then-Decides G H (failed, refs) next d k = λ gh. d gh.0
and_then-Decides G H (index_error, refs) next d k = absurd d
and_then-Decides G H (recursion_error, refs) next d k = absurd d

pub or_else-Decides :
    (G H : Type 0) (outcome : Outcome) (next : BackRefs → Outcome)
    → Decides G outcome.0
    → ((refs : BackRefs) → Decides H (next refs).0)
    → Decides (G ⊎ H) (or_else outcome next).0
unfolding Decides
or_else-Decides G H (matched, refs) next d k = inl d
or_else-Decides G H (failed, refs) next d k =
    Decides-iff (next refs).0 inr (λ gh. elim gh [ inl g ↦ absurd (d g) | inr h ↦ h ]) (k refs)
or_else-Decides G H (index_error, refs) next d k = absurd d
or_else-Decides G H (recursion_error, refs) next d k = absurd d

le-cases : (a b : ℕ) → a ≤ b → (a ≡ b) ⊎ (a < b)
le-cases a b h = elim (Bool-cases (a == b)) [
  | inl e ↦ inl ((==_iff a b).0 e)
  | inr e ↦ inr (ground (arith, e, h))
]

-- To look at one end of a range of numbers and then at the rest.
module _ (P : ℕ → Type 0) where
  abbrev Between : ℕ → ℕ → Type 0
  Between low high = (t : ℕ) × (low ≤ t) × (t ≤ high) × P t

  from_low : (low high : ℕ) → low ≤ high → P low ⊎ Between (suc low) high → Between low high
  from_low low high h (inl p) = (low, omega arith, h, p)
  from_low low high h (inr (t, l, u, p)) = (t, omega arith, u, p)

  to_low : (low high : ℕ) → Between low high → P low ⊎ Between (suc low) high
  to_low low high (t, l, u, p) = elim (le-cases low t l) [
    | inl e ↦ inl (rw e p)
    | inr lt ↦ inr (t, omega arith, u, p)
  ]

  from_high : (high : ℕ) → P (suc high) ⊎ Between 0 high → Between 0 (suc high)
  from_high high (inl p) = (suc high, omega arith, omega arith, p)
  from_high high (inr (t, l, u, p)) = (t, l, omega arith, p)

  to_high : (high : ℕ) → Between 0 (suc high) → P (suc high) ⊎ Between 0 high
  to_high high (t, l, u, p) = elim (le-cases t (suc high) u) [
    | inl e ↦ inl (rw (sym e) p)
    | inr lt ↦ inr (t, l, omega arith, p)
  ]

  to_zero : Between 0 0 → P 0
  to_zero (zero, l, u, p) = p
  to_zero (suc t, l, u, p) = absurd (omega arith)

module _ (P : ℕ → Type 0) (len : ℕ) (attempt : ℕ → BackRefs → Outcome)
    (decides : (tried : ℕ) (refs : BackRefs)
      → tried ≤ len
      → Decides (P tried) (attempt tried refs).0) where
  upwards-Decides :
      (rounds tried : ℕ) (refs : BackRefs)
      → tried + rounds ≡ suc len
      → Decides (Between P tried len) (upwards rounds tried attempt refs).0
  unfolding Decides upwards
  upwards-Decides zero tried refs e = λ (t, low, high, p). omega (arith, low, high)
  upwards-Decides (suc rounds) tried refs e =
      Decides-iff (or_else (attempt tried refs) (upwards rounds (suc tried) attempt)).0
        (from_low P tried len (omega arith)) (to_low P tried len)
        (or_else-Decides (P tried) (Between P (suc tried) len) (attempt tried refs) _
          (decides tried refs (omega arith))
          (λ after. upwards-Decides rounds (suc tried) after (omega arith)))

  downwards-Decides :
      (tried : ℕ) (refs : BackRefs)
      → tried ≤ len
      → Decides (Between P 0 tried) (downwards tried attempt refs).0
  unfolding downwards
  downwards-Decides zero refs h =
      Decides-iff (attempt zero refs).0 (λ p. (0, omega arith, omega arith, p)) (to_zero P)
        (decides zero refs h)
  downwards-Decides (suc tried) refs h =
      Decides-iff (or_else (attempt (suc tried) refs) (downwards tried attempt)).0
        (from_high P tried) (to_high P tried)
        (or_else-Decides (P (suc tried)) (Between P 0 tried) (attempt (suc tried) refs) _
          (decides (suc tried) refs h) (λ after. downwards-Decides tried after (omega arith)))

  pub attempts-Decides :
      (order : Order) (refs : BackRefs)
      → Decides ((t : ℕ) × (t ≤ len) × P t) (attempts order len attempt refs).0
  unfolding attempts
  attempts-Decides lazy refs =
      Decides-iff (upwards (suc len) 0 attempt refs).0 (λ (t, low, high, p). (t, high, p))
        (λ (t, high, p). (t, omega arith, high, p)) (upwards-Decides (suc len) 0 refs (omega arith))
  attempts-Decides aggressive refs =
      Decides-iff (downwards len attempt refs).0 (λ (t, low, high, p). (t, high, p))
        (λ (t, high, p). (t, omega arith, high, p)) (downwards-Decides len refs (omega arith))

-- One matcher on a first part, and then the others on what is left.
pub both-Decides :
    (P Q : ℕ → Type 0) (first rest : Match) (offset len : ℕ)
    → ((t : ℕ) (refs : BackRefs) → t ≤ len → Decides (P t) (first offset t refs).0)
    → ((t : ℕ) (refs : BackRefs)
        → t ≤ len
        → P t
        → Decides (Q t) (rest (offset + t) (len - t) refs).0)
    → (order : Order) (refs : BackRefs)
    → Decides
        ((t : ℕ) × (t ≤ len) × P t × Q t)
        (attempts order len (both first rest offset len) refs).0
both-Decides P Q first rest offset len p q order refs =
    Decides-iff (attempts order len (both first rest offset len) refs).0
      (λ (t, le, (m, n)). (t, le, m, n)) (λ (t, le, m, n). (t, le, (m, n)))
      (attempts-Decides (λ t. P t × Q t) len (both first rest offset len)
        (λ t after le.
          and_then-Decides (P t) (Q t) (first offset t after) (rest (offset + t) (len - t))
            (p t after le) (λ matches later. q t later le matches))
        order refs)
