-- ===== src/Arithmetic.antt =====
-- Tests for overflow: src/kernel/lib/arithmetic.c. A `long long` is an integer of the model between
-- LLONG_MIN and LLONG_MAX, an `unsigned long` a number below 2 ^ 32.
pub mod Overflow
use cyanurus.Base.{ℕ, ◌+◌, ◌-◌, Bool, true, false, ◌&&◌, ltb, leb, if◌then◌else◌, ℤ, pos, negsuc}

-- ULONG_MAX
abbrev pub ulong_max : ℕ
ulong_max = 0xffff_ffff

-- LLONG_MAX; LLONG_MIN is one further from 0.
abbrev pub llong_max : ℕ
llong_max = 0x7fff_ffff_ffff_ffff

abbrev pub less : ℤ → ℤ → Bool
less (pos m) (pos n) = ltb m n
less (pos m) (negsuc n) = false
less (negsuc m) (pos n) = true
less (negsuc m) (negsuc n) = ltb n m

unfoldable pub add_overflow_unsigned_long : ℕ → ℕ → Bool
add_overflow_unsigned_long a b = ltb (ulong_max - b) a

-- LLONG_MIN - b, for b = -(n + 1)
abbrev pub llong_min_minus : ℕ → ℤ
llong_min_minus n = if leb llong_max n then pos 0 else negsuc (llong_max - n - 1)

unfoldable pub add_overflow_long_long : ℤ → ℤ → Bool
add_overflow_long_long a (pos n) = ltb 0 n && less (pos (llong_max - n)) a
add_overflow_long_long a (negsuc n) = less a (llong_min_minus n)

-- The sum of two integers.
abbrev pub ◌+ℤ◌ : ℤ → ℤ → ℤ
pos m +ℤ pos n = pos (m + n)
pos m +ℤ negsuc n = if ltb n m then pos (m - n - 1) else negsuc (n - m)
negsuc m +ℤ pos n = if ltb m n then pos (n - m - 1) else negsuc (m - n)
negsuc m +ℤ negsuc n = negsuc (m + n + 1)

infixl 6 ◌+ℤ◌
