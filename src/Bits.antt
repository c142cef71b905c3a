-- ===== src/Bits.antt =====
-- The bits of a machine word: what `|`, `&`, `~` and `1 << k` do to them.
mod Step
use Step.{bit_or_step, bit_and_step, zero-bit_and, bit_and-zero}
use native.Mathlib.Nat.{pow-suc, one-le-pow}
use cyanurus.Base.{
  ℕ, zero, suc, ◌-◌, ◌*◌, ◌/◌, ◌%◌, ◌^◌, ◌≤◌, ◌<◌, bit_and, bit_or, ◌≡◌, refl, ap, Bool, false, not,
  ◌&&◌, ◌||◌, arith, ◌==◌,
}

-- bit `k` of `x`
unfoldable pub test_bit : ℕ → ℕ → Bool
test_bit x zero = x % 2 == 1
test_bit x (suc k) = test_bit (x / 2) k

-- `~x` on `w` bits
unfoldable pub complement : ℕ → ℕ → ℕ
complement w x = 2 ^ w - 1 - x

pub test_bit-or : (k a b : ℕ) → test_bit (bit_or a b) k ≡ (test_bit a k || test_bit b k)
unfolding test_bit
test_bit-or zero a b = ground (arith, bit_or_step a b)
test_bit-or (suc k) a b =
    let e : bit_or a b / 2 ≡ bit_or (a / 2) (b / 2) = omega (arith, bit_or_step a b) in
    rw e (test_bit-or k (a / 2) (b / 2))

pub test_bit-and : (k a b : ℕ) → test_bit (bit_and a b) k ≡ (test_bit a k && test_bit b k)
unfolding test_bit
test_bit-and zero a b = ground (arith, bit_and_step a b)
test_bit-and (suc k) a b =
    let e : bit_and a b / 2 ≡ bit_and (a / 2) (b / 2) = omega (arith, bit_and_step a b) in
    rw e (test_bit-and k (a / 2) (b / 2))

pub test_bit_zero : (k : ℕ) → test_bit 0 k ≡ false
unfolding test_bit
test_bit_zero zero = refl
test_bit_zero (suc k) = test_bit_zero k

pub test_bit-pow : (k j : ℕ) → test_bit (2 ^ j) k ≡ (j == k)
unfolding test_bit
test_bit-pow zero zero = refl
test_bit-pow zero (suc j) = ground (arith, pow-suc 2 j)
test_bit-pow (suc k) zero = ground (arith, test_bit_zero k)
test_bit-pow (suc k) (suc j) =
    let e : 2 ^ suc j / 2 ≡ 2 ^ j = omega (arith, pow-suc 2 j) in
    rw e (ground (arith, test_bit-pow k j))

pub test_bit-complement :
    (w k x : ℕ) → x < 2 ^ w → k < w → test_bit (complement w x) k ≡ not (test_bit x k)
unfolding test_bit complement
test_bit-complement zero k x h lt = absurd (omega arith)
test_bit-complement (suc w) zero x h lt = ground (arith, pow-suc 2 w)
test_bit-complement (suc w) (suc k) x h lt =
    let e : (2 ^ suc w - 1 - x) / 2 ≡ 2 ^ w - 1 - x / 2 = omega (arith, pow-suc 2 w) in
    rw e (test_bit-complement w k (x / 2) (omega (arith, pow-suc 2 w)) (omega arith))

-- A word of `w` bits is zero beyond them.
pub test_bit_beyond : (w k x : ℕ) → x < 2 ^ w → w ≤ k → test_bit x k ≡ false
unfolding test_bit
test_bit_beyond zero k x h le = let e : x ≡ 0 = omega arith in rw e (test_bit_zero k)
test_bit_beyond (suc w) zero x h le = absurd (omega arith)
test_bit_beyond (suc w) (suc k) x h le =
    test_bit_beyond w k (x / 2) (omega (arith, pow-suc 2 w)) (omega arith)

pub complement-lt : (w x : ℕ) → complement w x < 2 ^ w
unfolding complement
complement-lt w x = omega (arith, one-le-pow w 2)

pub bit_or-lt : (w a b : ℕ) → a < 2 ^ w → b < 2 ^ w → bit_or a b < 2 ^ w
bit_or-lt zero a b h k =
    let p : a ≡ 0 = omega arith in let q : b ≡ 0 = omega arith in rw (p, q) (omega arith)
bit_or-lt (suc w) a b h k = omega (
  arith,
  pow-suc 2 w,
  bit_or_step a b,
  bit_or-lt w (a / 2) (b / 2) (omega (arith, pow-suc 2 w)) (omega (arith, pow-suc 2 w)),
)

pub bit_and-le : (n a b : ℕ) → a ≤ n → bit_and a b ≤ a
bit_and-le n zero b h = omega (arith, zero-bit_and b)
bit_and-le zero (suc a) b h = absurd (omega arith)
bit_and-le (suc n) (suc a) b h =
    omega (arith, bit_and_step (suc a) b, bit_and-le n (suc a / 2) (b / 2) (omega arith))

-- `x & (1 << k)` is zero exactly when bit `k` of `x` is clear.
pub bit_and-pow : (k x : ℕ) → (bit_and x (2 ^ k) == 0) ≡ not (test_bit x k)
unfolding test_bit
bit_and-pow zero x = ground (arith, bit_and_step x 1, bit_and-zero (x / 2))
bit_and-pow (suc k) x =
    let e : 2 ^ suc k / 2 ≡ 2 ^ k = omega (arith, pow-suc 2 k) in
    ground (arith, e, bit_and_step x (2 ^ suc k), pow-suc 2 k, bit_and-pow k (x / 2))

pub pow-lt : (w k : ℕ) → k < w → 2 ^ k < 2 ^ w
pow-lt zero k h = absurd (omega arith)
pow-lt (suc w) zero h = omega (arith, pow-suc 2 w, one-le-pow w 2)
pow-lt (suc w) (suc k) h = omega (arith, pow-suc 2 w, pow-suc 2 k, pow-lt w k (omega arith))

-- A word masked with ones keeps its bits.
pub bit_and-ones : (w x : ℕ) → x < 2 ^ w → bit_and x (2 ^ w - 1) ≡ x
bit_and-ones zero x h = let e : x ≡ 0 = omega arith in rw e (zero-bit_and 0)
bit_and-ones (suc w) x h =
    let half : (2 ^ suc w - 1) / 2 ≡ 2 ^ w - 1 = omega (arith, pow-suc 2 w, one-le-pow w 2) in
    let odd : (2 ^ suc w - 1) % 2 ≡ 1 = omega (arith, pow-suc 2 w, one-le-pow w 2) in
    let below : x / 2 < 2 ^ w = omega (arith, pow-suc 2 w) in
    let step = bit_and_step x (2 ^ suc w - 1) in
    omega (arith, rw (half, odd) at step, bit_and-ones w (x / 2) below)

-- `& ~7` rounds down to a multiple of 8.
pub bit_and-align8 : (x : ℕ) → x < 2 ^ 32 → bit_and x (complement 32 7) ≡ x - x % 8
unfolding complement
bit_and-align8 x h = omega (
  arith,
  bit_and_step x 4294967288,
  bit_and_step (x / 2) 2147483644,
  bit_and_step (x / 2 / 2) 1073741822,
  bit_and-ones 29 (x / 2 / 2 / 2) (omega arith),
)

-- `& ~0xfff` rounds down to a page.
pub bit_and-align_page : (x : ℕ) → x < 2 ^ 32 → bit_and x (complement 32 0xfff) ≡ x - x % 0x1000
unfolding complement
bit_and-align_page x h =
    let low : bit_and x 0xffff_f000 ≡ bit_and (x / 8) 0x1fff_fe00 * 8 = omega (
      arith,
      bit_and_step x 0xffff_f000,
      bit_and_step (x / 2) 0x7fff_f800,
      bit_and_step (x / 2 / 2) 0x3fff_fc00,
      (let e : x / 2 / 2 / 2 ≡ x / 8 = omega arith in ap (λ y. bit_and y 0x1fff_fe00) e),
    ) in
    let middle : bit_and (x / 8) 0x1fff_fe00 ≡ bit_and (x / 64) 0x3ff_ffc0 * 8 = omega (
      arith,
      bit_and_step (x / 8) 0x1fff_fe00,
      bit_and_step (x / 8 / 2) 0xfff_ff00,
      bit_and_step (x / 8 / 2 / 2) 0x7ff_ff80,
      (let e : x / 8 / 2 / 2 / 2 ≡ x / 64 = omega arith in ap (λ y. bit_and y 0x3ff_ffc0) e),
    ) in
    let high : bit_and (x / 64) 0x3ff_ffc0 ≡ bit_and (x / 512) 0x7f_fff8 * 8 = omega (
      arith,
      bit_and_step (x / 64) 0x3ff_ffc0,
      bit_and_step (x / 64 / 2) 0x1ff_ffe0,
      bit_and_step (x / 64 / 2 / 2) 0xff_fff0,
      (let e : x / 64 / 2 / 2 / 2 ≡ x / 512 = omega arith in ap (λ y. bit_and y 0x7f_fff8) e),
    ) in
    let top : bit_and (x / 512) 0x7f_fff8 ≡ bit_and (x / 4096) 0xf_ffff * 8 = omega (
      arith,
      bit_and_step (x / 512) 0x7f_fff8,
      bit_and_step (x / 512 / 2) 0x3f_fffc,
      bit_and_step (x / 512 / 2 / 2) 0x1f_fffe,
      (let e : x / 512 / 2 / 2 / 2 ≡ x / 4096 = omega arith in ap (λ y. bit_and y 0xf_ffff) e),
    ) in
    omega (arith, low, middle, high, top, bit_and-ones 20 (x / 4096) (omega arith))
