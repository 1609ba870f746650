-- ===== src/Base/ByteString.antt =====
-- Byte strings: comparison, big-endian words, and reads that stay inside of a buffer.
use py_ccn.Base.Tests.{leb, ◌==◌, if◌then◌else◌}
use py_ccn.Base.Lists.{length, take, drop, length-append, take-append, take-append_le, drop-append}
use py_ccn.Base.Run.{Run, ok, fault}
use Prim.Native.Nat.{ℕ, zero, suc, ◌+◌, ◌*◌, ◌/◌, ◌%◌, ◌^◌, ◌≤◌, ◌<◌}
use mathlib.Core.Path.{◌≡◌, refl}
use mathlib.Core.Bool.{Bool, true, false, ◌&&◌}
use mathlib.Core.List.{List, [], ◌∷◌, ◌++◌}
use native.Mathlib.Omega.{arith}

abbrev pub Bytes : Type 0
Bytes = List ℕ

abbrev pub IsU32 : ℕ → Type 0
IsU32 n = n < 2 ^ 32

-- !memcmp() of two strings.
unfoldable pub bytes_eq : Bytes → Bytes → Bool
bytes_eq [] [] = true
bytes_eq [] (y ∷ ys) = false
bytes_eq (x ∷ xs) [] = false
bytes_eq (x ∷ xs) (y ∷ ys) = x == y && bytes_eq xs ys

pub bytes_eq→eq : (xs ys : Bytes) → bytes_eq xs ys ≡ true → xs ≡ ys
unfolding bytes_eq
bytes_eq→eq [] [] h = refl
bytes_eq→eq [] (y ∷ ys) h = cc
bytes_eq→eq (x ∷ xs) [] h = cc
bytes_eq→eq (x ∷ xs) (y ∷ ys) h = ground (arith, bytes_eq→eq xs ys)

pub bytes_eq_refl : (xs : Bytes) → bytes_eq xs xs ≡ true
unfolding bytes_eq
bytes_eq_refl [] = refl
bytes_eq_refl (x ∷ xs) = ground (arith, bytes_eq_refl xs)

-- The byte at an index, 0 past the end; every call is behind a check of the length.
abbrev pub byte_at : Bytes → ℕ → ℕ
byte_at [] i = 0
byte_at (x ∷ xs) zero = x
byte_at (x ∷ xs) (suc i) = byte_at xs i

-- (n >> 8) & 0xff, n & 0xff
abbrev pub be16 : ℕ → Bytes
be16 n = (n / 256 % 256) ∷ (n % 256) ∷ []

-- The bytes of htonl(n) in memory.
abbrev pub be32 : ℕ → Bytes
be32 n = (n / 2 ^ 24 % 256) ∷ (n / 2 ^ 16 % 256) ∷ (n / 2 ^ 8 % 256) ∷ (n % 256) ∷ []

-- ntohl() of the four bytes at an offset.
abbrev pub u32_at : Bytes → ℕ → ℕ
u32_at bs i =
    byte_at bs i * 2 ^ 24
    + byte_at bs (suc i) * 2 ^ 16
    + byte_at bs (suc (suc i)) * 2 ^ 8
    + byte_at bs (suc (suc (suc i)))

-- memcpy() out of a buffer; to read past its end is a fault.
unfoldable pub read : Bytes → ℕ → ℕ → Run Bytes
read buf offset n = if leb (offset + n) (length buf) then ok (take n (drop offset buf)) else fault

-- Reading the middle part, or a part of it.
pub read-middle :
    (a b c : Bytes) (offset n : ℕ)
    → offset ≡ length a
    → n ≤ length b
    → read (a ++ (b ++ c)) offset n ≡ ok (take n b)
unfolding read
read-middle a b c offset n e h =
    rw (drop-append a (b ++ c) offset e, take-append_le b c n h)
      (ground (arith, length-append a (b ++ c), length-append b c))

pub read-front : (a b : Bytes) (n : ℕ) → n ≡ length a → read (a ++ b) 0 n ≡ ok a
unfolding read
read-front a b n e = rw (take-append a b n e) (ground (arith, length-append a b))
