-- ===== src/Sigset/Ffs.antt =====
-- `__builtin_ffs` finds the lowest set bit.
use cyanurus.Base.{
  ℕ, zero, suc, ◌+◌, ◌-◌, ◌/◌, ◌%◌, ◌≤◌, ◌<◌, ◌≡◌, refl, ◌⊎◌, inl, inr, true, false, arith, ◌==◌,
  Bool-cases,
}
use cyanurus.Bits.{test_bit}
use cyanurus.Sigset.{ffs_from, ffs}

-- Either no bit below `n` is set, or the result names the lowest one.
abbrev pub Lowest : ℕ → ℕ → ℕ → Type 0
Lowest n x r =
    ((r ≡ 0) × ((k : ℕ) → k < n → test_bit x k ≡ false))
    ⊎ ((0 < r)
        × (r ≤ n)
        × (test_bit x (r - 1) ≡ true)
        × ((k : ℕ) → suc k < r → test_bit x k ≡ false))

Lowest_even :
    (n x i r : ℕ)
    → (x % 2 == 1) ≡ false
    → ((r ≡ 0) × ((k : ℕ) → k < n → test_bit (x / 2) k ≡ false))
      ⊎ ((i + 1 < r)
          × (r ≤ i + 1 + n)
          × (test_bit (x / 2) (r - 1 - (i + 1)) ≡ true)
          × ((k : ℕ) → suc k + (i + 1) < r → test_bit (x / 2) k ≡ false))
    → ((r ≡ 0) × ((k : ℕ) → k < suc n → test_bit x k ≡ false))
      ⊎ ((i < r)
          × (r ≤ i + suc n)
          × (test_bit x (r - 1 - i) ≡ true)
          × ((k : ℕ) → suc k + i < r → test_bit x k ≡ false))
unfolding test_bit
Lowest_even n x i r even (inl (z, none_set)) = inl (z, clear)
  where
    clear : (k : ℕ) → k < suc n → test_bit x k ≡ false
    clear zero h = even
    clear (suc k) h = none_set k (omega arith)
Lowest_even n x i r even (inr (a, b, c, d)) = inr (omega arith, omega arith, found, clear)
  where
    found : test_bit x (r - 1 - i) ≡ true
    found = let e : r - 1 - i ≡ suc (r - 1 - (i + 1)) = omega arith in rw e c

    clear : (k : ℕ) → suc k + i < r → test_bit x k ≡ false
    clear zero h = even
    clear (suc k) h = d k (omega arith)

ffs_from-Lowest :
    (n x i : ℕ)
    → let r = ffs_from n x i in
      ((r ≡ 0) × ((k : ℕ) → k < n → test_bit x k ≡ false))
      ⊎ ((i < r)
          × (r ≤ i + n)
          × (test_bit x (r - 1 - i) ≡ true)
          × ((k : ℕ) → suc k + i < r → test_bit x k ≡ false))
unfolding ffs_from
ffs_from-Lowest zero x i = inl (refl, λ k h. absurd (omega arith))
ffs_from-Lowest (suc n) x i = elim (Bool-cases (x % 2 == 1)) [
  | inl odd ↦ rw odd (inr (omega arith, omega arith, lowest odd, λ k h. absurd (omega arith)))
  | inr even ↦
      rw even
        (Lowest_even n x i (ffs_from n (x / 2) (i + 1)) even (ffs_from-Lowest n (x / 2) (i + 1)))
]
  where
    lowest : (x % 2 == 1) ≡ true → test_bit x (i + 1 - 1 - i) ≡ true
    lowest odd = let e : i + 1 - 1 - i ≡ 0 = omega arith in rw e (unfold test_bit in odd)

pub ffs-Lowest : (x : ℕ) → Lowest 32 x (ffs x)
unfolding ffs
ffs-Lowest x = elim (ffs_from-Lowest 32 x 0) [
  | inl h ↦ inl h
  | inr (a, b, c, d) ↦ inr (
    a,
    omega arith,
    (let e : ffs_from 32 x 0 - 1 - 0 ≡ ffs_from 32 x 0 - 1 = omega arith in rw e at c),
    λ k h. d k (omega arith),
  )
]
