-- ===== src/Sigset/Member.antt =====
-- A signal set as the set of its members, and what adding and removing one signal does to it.
use cyanurus.Base.{
  ℕ, ◌-◌, ◌^◌, ◌≤◌, ◌<◌, bit_and, ◌≡◌, refl, ◌⊎◌, Bool, not, ◌&&◌, ◌||◌, arith, ltb, ◌==◌,
  if◌then◌else◌, ℤ, pos, negsuc,
}
use cyanurus.Bits.{
  test_bit, test_bit-or, test_bit-and, test_bit-pow, test_bit-complement, bit_and-pow, complement,
  pow-lt,
}
use cyanurus.Sigset.{Sigset, sigaddset, sigdelset, sigismember}

-- Signal `n`, from 1 to 64, is in the set.
abbrev pub member : Sigset → ℕ → Bool
member s n = if ltb 32 n then test_bit s.high (n - 33) else test_bit s.low (n - 1)

abbrev pub IsSignal : ℕ → Type 0
IsSignal n = (1 ≤ n) × (n < 65)

abbrev pub OutOfRange : ℤ → Type 0
OutOfRange (pos n) = (n ≡ 0) ⊎ (65 ≤ n)
OutOfRange (negsuc n) = Unit {0}

-- sigismember answers by membership: 1 for a member, 0 for a signal that is not one.
pub sigismember-member :
    (s : Sigset) (n : ℕ)
    → IsSignal n
    → sigismember s (pos n) ≡ (if member s n then pos 1 else pos 0)
unfolding sigismember
sigismember-member s n h = ground (arith, bit_and-pow (n - 33) s.high, bit_and-pow (n - 1) s.low)

-- sigaddset succeeds on a signal and adds it, and nothing else, to the set.
pub member-sigaddset :
    (s : Sigset) (n j : ℕ)
    → IsSignal n
    → IsSignal j
    → ((sigaddset s (pos n)).0 ≡ pos 0)
      × (member (sigaddset s (pos n)).1 j ≡ ((n == j) || member s j))
unfolding sigaddset
member-sigaddset s n j h k = ground (
  arith,
  test_bit-or (j - 33) s.high (2 ^ (n - 33)),
  test_bit-or (j - 1) s.low (2 ^ (n - 1)),
  test_bit-pow (j - 33) (n - 33),
  test_bit-pow (j - 1) (n - 1),
)

-- A bit of `w & ~(1 << i)`, for 32-bit words.
cleared :
    (w i k : ℕ)
    → i < 32
    → k < 32
    → test_bit (bit_and w (complement 32 (2 ^ i))) k ≡ (test_bit w k && not (i == k))
cleared w i k hi hk = ground (
  arith,
  test_bit-and k w (complement 32 (2 ^ i)),
  test_bit-complement 32 k (2 ^ i) (pow-lt 32 i hi) hk,
  test_bit-pow k i,
)

-- sigdelset succeeds on a signal and takes it, and nothing else, out of the set.
pub member-sigdelset :
    (s : Sigset) (n j : ℕ)
    → IsSignal n
    → IsSignal j
    → ((sigdelset s (pos n)).0 ≡ pos 0)
      × (member (sigdelset s (pos n)).1 j ≡ (member s j && not (n == j)))
unfolding sigdelset
member-sigdelset s n j h k =
    ground (arith, cleared s.high (n - 33) (j - 33), cleared s.low (n - 1) (j - 1))

-- A number that is no signal is refused by all three, and the set stays as it was.
pub refuses_no_signal :
    (s : Sigset) (n : ℤ)
    → OutOfRange n
    → (sigaddset s n ≡ (negsuc 0, s))
      × (sigdelset s n ≡ (negsuc 0, s))
      × (sigismember s n ≡ negsuc 0)
unfolding sigaddset sigdelset sigismember
refuses_no_signal s (pos n) h = ground arith
refuses_no_signal s (negsuc n) h = (refl, refl, refl)
