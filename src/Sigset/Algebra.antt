-- ===== src/Sigset/Algebra.antt =====
-- Union, intersection and complement of signal sets, and the signal that is taken first.
use cyanurus.Base.{
  ℕ, ◌+◌, ◌-◌, ◌≤◌, ◌<◌, ◌≡◌, ◌⊎◌, inl, inr, true, false, not, ◌&&◌, ◌||◌, arith, ltb,
  if◌then◌else◌,
}
use cyanurus.Bits.{test_bit-or, test_bit-and, test_bit-complement}
use cyanurus.Sigset.{Sigset, IsWords, sigorset, sigandset, signotset, sigpeekset, ffs}
use cyanurus.Sigset.Member.{member, IsSignal}
use cyanurus.Sigset.Ffs.{Lowest, ffs-Lowest}

-- sigorset, sigandset and signotset are union, intersection and complement of the members.
pub member_algebra :
    (s t : Sigset) (j : ℕ)
    → IsWords s
    → IsSignal j
    → (member (sigorset s t) j ≡ (member s j || member t j))
      × (member (sigandset s t) j ≡ (member s j && member t j))
      × (member (signotset s) j ≡ not (member s j))
unfolding sigorset sigandset signotset
member_algebra s t j w h = ground (
  arith,
  test_bit-or (j - 33) s.high t.high,
  test_bit-or (j - 1) s.low t.low,
  test_bit-and (j - 33) s.high t.high,
  test_bit-and (j - 1) s.low t.low,
  test_bit-complement 32 (j - 33) s.high,
  test_bit-complement 32 (j - 1) s.low,
)

-- sigpeekset takes the lowest member: it is a member, nothing below it is, and the answer 0 is
-- given only for a set without members.
pub sigpeekset_least :
    (s : Sigset)
    → ((sigpeekset s ≡ 0) × ((j : ℕ) → IsSignal j → member s j ≡ false))
      ⊎ (IsSignal (sigpeekset s)
          × (member s (sigpeekset s) ≡ true)
          × ((j : ℕ) → 1 ≤ j → j < sigpeekset s → member s j ≡ false))
unfolding sigpeekset
sigpeekset_least s = go (ffs s.low) (ffs s.high) (ffs-Lowest s.low) (ffs-Lowest s.high)
  where
    go :
        (a b : ℕ)
        → Lowest 32 s.low a
        → Lowest 32 s.high b
        → let r = if ltb 0 a then a else if ltb 0 b then b + 32 else 0 in
          ((r ≡ 0) × ((j : ℕ) → IsSignal j → member s j ≡ false))
          ⊎ (IsSignal r × (member s r ≡ true) × ((j : ℕ) → 1 ≤ j → j < r → member s j ≡ false))
    go a b (inl (p, f)) (inl (q, g)) =
        inl (ground arith, λ j h. ground (arith, f (j - 1), g (j - 33)))
    go a b (inl (p, f)) (inr (q, u, m, g)) = inr (
      (ground arith, ground arith),
      ground (arith, (let e : b + 32 - 33 ≡ b - 1 = omega arith in e)),
      λ j h k. ground (arith, f (j - 1), g (j - 33)),
    )
    go a b (inr (q, u, m, f)) z =
        inr ((ground arith, ground arith), ground arith, λ j h k. ground (arith, f (j - 1)))
