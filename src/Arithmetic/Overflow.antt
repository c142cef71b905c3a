-- ===== src/Arithmetic/Overflow.antt =====
-- The tests for overflow against the exact sum.
use cyanurus.Base.{ℕ, ◌+◌, ◌≤◌, ◌≡◌, ◌↔◌, false, arith, ℤ, pos, negsuc}
use cyanurus.Arithmetic.{
  ulong_max, llong_max, add_overflow_unsigned_long, add_overflow_long_long, ◌+ℤ◌,
}

-- A value of type `long long`.
abbrev pub IsLongLong : ℤ → Type 0
IsLongLong (pos n) = n ≤ llong_max
IsLongLong (negsuc n) = n ≤ llong_max

-- Two values of type `long long` pass the test exactly if their sum is one.
pub add_overflow_long_long_iff :
    (a b : ℤ)
    → IsLongLong a
    → IsLongLong b
    → (add_overflow_long_long a b ≡ false) ↔ IsLongLong (a +ℤ b)
unfolding add_overflow_long_long
add_overflow_long_long_iff (pos m) (pos n) h k = (λ e. ground (arith, e), λ e. ground (arith, e))
add_overflow_long_long_iff (pos m) (negsuc n) h k = (λ e. ground (arith, e), λ e. ground (arith, e))
add_overflow_long_long_iff (negsuc m) (pos n) h k = (λ e. ground (arith, e), λ e. ground (arith, e))
add_overflow_long_long_iff (negsuc m) (negsuc n) h k =
    (λ e. ground (arith, e), λ e. ground (arith, e))

-- Two values of type `unsigned long` pass the test exactly if their sum is one.
pub add_overflow_unsigned_long_iff :
    (a b : ℕ) → b ≤ ulong_max → (add_overflow_unsigned_long a b ≡ false) ↔ (a + b ≤ ulong_max)
unfolding add_overflow_unsigned_long
add_overflow_unsigned_long_iff a b h = (λ e. ground (arith, e), λ e. ground (arith, e))
