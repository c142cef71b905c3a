-- ===== src/Bitset/Laws.antt =====
-- The macros of lib/bitset.h against a set of numbers below the array's number of bits.
use cyanurus.Base.{
  ℕ, ◌/◌, ◌%◌, ◌^◌, ◌<◌, bit_and, bit_or, ◌≡◌, inl, inr, not, ◌&&◌, ◌||◌, arith, ◌==◌, Bool-cases,
  length, get_or, length-set, get_or-set_self, get_or-set_ne,
}
use cyanurus.Bits.{
  test_bit, complement, test_bit-or, test_bit-pow, test_bit-and, test_bit-complement, bit_and-pow,
  pow-lt,
}
use cyanurus.Bitset.{Bitset, add, remove, test, nslots}

test-test_bit : (p : Bitset) (n : ℕ) → test p n ≡ test_bit (get_or p (n / 32) 0) (n % 32)
unfolding test
test-test_bit p n = ground (arith, bit_and-pow (n % 32) (get_or p (n / 32) 0))

same_bit : (i j : ℕ) → (i == j) ≡ ((i / 32 == j / 32) && (i % 32 == j % 32))
same_bit i j = ground arith

-- After `bitset_add` of n, exactly n and the former members test true.
pub test-add :
    (p : Bitset) (n j : ℕ) → n / 32 < length p → test (add p n) j ≡ ((n == j) || test p j)
unfolding add
test-add p n j h = elim (Bool-cases (n / 32 == j / 32)) [
  | inl e ↦
      let q : n / 32 ≡ j / 32 = ground arith in
      ground (
        arith,
        test-test_bit (add p n) j,
        test-test_bit p j,
        get_or-set_self p (j / 32) (bit_or (get_or p (j / 32) 0) (2 ^ (n % 32))) 0,
        test_bit-or (j % 32) (get_or p (j / 32) 0) (2 ^ (n % 32)),
        test_bit-pow (j % 32) (n % 32),
      )
  | inr e ↦ ground (
    arith,
    test-test_bit (add p n) j,
    test-test_bit p j,
    get_or-set_ne p (n / 32) (j / 32) (bit_or (get_or p (n / 32) 0) (2 ^ (n % 32))) 0,
  )
]

-- After `bitset_remove` of n, exactly the former members but n test true.
pub test-remove :
    (p : Bitset) (n j : ℕ) → n / 32 < length p → test (remove p n) j ≡ (test p j && not (n == j))
unfolding remove
test-remove p n j h = elim (Bool-cases (n / 32 == j / 32)) [
  | inl e ↦
      let q : n / 32 ≡ j / 32 = ground arith in
      ground (
        arith,
        test-test_bit (remove p n) j,
        test-test_bit p j,
        get_or-set_self p (j / 32) (bit_and (get_or p (j / 32) 0) (complement 32 (2 ^ (n % 32)))) 0,
        test_bit-and (j % 32) (get_or p (j / 32) 0) (complement 32 (2 ^ (n % 32))),
        test_bit-complement 32 (j % 32) (2 ^ (n % 32)) (pow-lt 32 (n % 32) (omega arith)),
        test_bit-pow (j % 32) (n % 32),
      )
  | inr e ↦ ground (
    arith,
    test-test_bit (remove p n) j,
    test-test_bit p j,
    get_or-set_ne p (n / 32) (j / 32) (bit_and (get_or p (n / 32) 0) (complement 32 (2 ^ (n % 32))))
        0,
  )
]

-- `bitset_nslots(n)` words are enough for the numbers below n, and no fewer are.
pub nslots_enough : (n k : ℕ) → k < n → k / 32 < nslots n
nslots_enough n k h = omega arith

pub length-add : (p : Bitset) (n : ℕ) → length (add p n) ≡ length p
unfolding add
length-add p n = length-set p (n / 32) _

pub length-remove : (p : Bitset) (n : ℕ) → length (remove p n) ≡ length p
unfolding remove
length-remove p n = length-set p (n / 32) _
