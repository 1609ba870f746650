-- ===== src/Base/Int.antt =====
-- Signed integers over the native numbers, for the C expressions that go below zero.
use Prim.Native.Nat.{ℕ, suc, ◌-◌, ◌/◌, ◌%◌, ◌^◌}
use py_ccn.Base.Tests.{ltb, leb, if◌then◌else◌}

-- `negsuc n` is -(n + 1).
pub data ℤ : Type 0 where
  pos : ℕ → ℤ
  negsuc : ℕ → ℤ

-- a - b, as an integer.
abbrev pub sub_ℕ : ℕ → ℕ → ℤ
sub_ℕ a b = if leb b a then pos (a - b) else negsuc (b - a - 1)

-- The integer that a 32-bit pattern stands for.
abbrev pub signed32 : ℕ → ℤ
signed32 w = if ltb w (2 ^ 31) then pos w else negsuc (2 ^ 32 - w - 1)

-- The C cast `(int)` of a wider signed integer: its low 32 bits, read as two's complement.
abbrev pub int_of_long : ℤ → ℤ
int_of_long (pos n) = signed32 (n % 2 ^ 32)
int_of_long (negsuc n) = signed32 (2 ^ 32 - 1 - n % 2 ^ 32)

-- Division by a positive constant, which in C rounds towards zero.
abbrev pub div_ℤ : ℤ → ℕ → ℤ
div_ℤ (pos n) k = pos (n / k)
div_ℤ (negsuc n) k = sub_ℕ 0 (suc n / k)

abbrev pub labs : ℤ → ℕ
labs (pos n) = n
labs (negsuc n) = suc n
