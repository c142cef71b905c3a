-- ===== src/Bits/Step.antt =====
-- `|` and `&` by their lowest digit: the equations on which the laws of bits rest. The native
-- operations recurse on a count of digits, for which their first argument serves.
use Prim.Native.Nat.{min, max, digits, bitwise, bit_and-bitwise, bit_or-bitwise}
use cyanurus.Base.{
  ℕ, zero, suc, ◌+◌, ◌-◌, ◌*◌, ◌/◌, ◌%◌, ◌≤◌, bit_and, bit_or, ◌≡◌, refl, ap, ◌∙◌, arith,
}

module _ (last : ℕ → ℕ) (digit : ℕ → ℕ → ℕ) where
  -- One digit more in the count changes nothing, if the count was enough.
  one_more :
      (count x y : ℕ) → x ≤ count → digits last digit (suc count) x y ≡ digits last digit count x y
  one_more zero zero y h = refl
  one_more zero (suc x) y h = absurd (omega arith)
  one_more (suc count) zero y h = refl
  one_more (suc count) (suc x) y h =
      ap (λ high. high * 2 + digit (suc x % 2) (y % 2))
        (one_more count (suc x / 2) (y / 2) (omega arith))

  any_more : (spare x y : ℕ) → digits last digit (spare + x) x y ≡ bitwise last digit x y
  any_more zero x y = let e : 0 + x ≡ x = omega arith in rw e refl
  any_more (suc spare) x y =
      let e : suc spare + x ≡ suc (spare + x) = omega arith in
      rw e (one_more (spare + x) x y (omega arith) ∙ any_more spare x y)

  enough : (count x y : ℕ) → x ≤ count → digits last digit count x y ≡ bitwise last digit x y
  enough count x y h =
      let e : count ≡ count - x + x = omega arith in rw e (any_more (count - x) x y)

pub bit_or_step : (a b : ℕ) → bit_or a b ≡ max (a % 2) (b % 2) + 2 * bit_or (a / 2) (b / 2)
bit_or_step zero b = omega (arith, bit_or-bitwise 0 b, bit_or-bitwise 0 (b / 2))
bit_or_step (suc a) b =
    let high = enough (λ y. y) max a (suc a / 2) (b / 2) (omega arith) in
    omega (arith, bit_or-bitwise (suc a) b, high, bit_or-bitwise (suc a / 2) (b / 2))

pub zero-bit_and : (b : ℕ) → bit_and 0 b ≡ 0
zero-bit_and b = bit_and-bitwise 0 b

pub bit_and_step : (a b : ℕ) → bit_and a b ≡ min (a % 2) (b % 2) + 2 * bit_and (a / 2) (b / 2)
bit_and_step zero b = omega (arith, zero-bit_and b, zero-bit_and (b / 2))
bit_and_step (suc a) b =
    let high = enough (λ _. 0) min a (suc a / 2) (b / 2) (omega arith) in
    omega (arith, bit_and-bitwise (suc a) b, high, bit_and-bitwise (suc a / 2) (b / 2))

-- No digit of 0 is set: the bound `n` is what the recursion on halves goes down.
none_below : (n a : ℕ) → a ≤ n → bit_and a 0 ≡ 0
none_below zero a h = let e : a ≡ 0 = omega arith in rw e (zero-bit_and 0)
none_below (suc n) a h = omega (arith, bit_and_step a 0, none_below n (a / 2) (omega arith))

pub bit_and-zero : (a : ℕ) → bit_and a 0 ≡ 0
bit_and-zero a = none_below a a (omega arith)
