-- ===== src/Sigset.antt =====
-- Signal sets: src/kernel/lib/signal.c. A set is two 32-bit words; signal n is bit n - 1 of the pair.
pub mod Ffs
pub mod Member
pub mod Algebra
use cyanurus.Base.{
  ℕ, zero, suc, ◌+◌, ◌-◌, ◌%◌, ◌/◌, ◌^◌, ◌<◌, bit_and, bit_or, ◌&&◌, ◌||◌, ℤ, pos, negsuc, ◌==◌,
  ltb, leb, if◌then◌else◌,
}
use cyanurus.Bits.{complement}

-- `sigset_t`, with `__fields[0]` and `__fields[1]`
pub record Sigset : Type 0 where
  pub low : ℕ
  pub high : ℕ

-- The words are `uint32_t`.
pub record IsWords (s : Sigset) : Type 0 where
  pub low_word : s.low < 2 ^ 32
  pub high_word : s.high < 2 ^ 32

-- NSIG
abbrev pub nsig : ℕ
nsig = 65

pub sigemptyset : Sigset → ℤ × Sigset
sigemptyset s = (pos 0, record s { low = 0; high = 0 })

pub sigfillset : Sigset → ℤ × Sigset
sigfillset s = (pos 0, record s { low = 0xffff_ffff; high = 0xffff_ffff })

unfoldable pub sigaddset : Sigset → ℤ → ℤ × Sigset
sigaddset s (negsuc n) = (negsuc 0, s)
sigaddset s (pos signum) =
    if ltb signum 1 || leb nsig signum
    then (negsuc 0, s)
    else if ltb 32 signum
    then (pos 0, record s { high = bit_or s.high (2 ^ (signum - 33)) })
    else (pos 0, record s { low = bit_or s.low (2 ^ (signum - 1)) })

unfoldable pub sigdelset : Sigset → ℤ → ℤ × Sigset
sigdelset s (negsuc n) = (negsuc 0, s)
sigdelset s (pos signum) =
    if ltb signum 1 || leb nsig signum
    then (negsuc 0, s)
    else if ltb 32 signum
    then (pos 0, record s { high = bit_and s.high (complement 32 (2 ^ (signum - 33))) })
    else (pos 0, record s { low = bit_and s.low (complement 32 (2 ^ (signum - 1))) })

unfoldable pub sigismember : Sigset → ℤ → ℤ
sigismember s (negsuc n) = negsuc 0
sigismember s (pos signum) =
    if ltb signum 1 || leb nsig signum
    then negsuc 0
    else if ltb 32 signum
    then (if bit_and s.high (2 ^ (signum - 33)) == 0 then pos 0 else pos 1)
    else (if bit_and s.low (2 ^ (signum - 1)) == 0 then pos 0 else pos 1)

unfoldable pub sigisemptyset : Sigset → ℤ
sigisemptyset s = if (s.low == 0) && (s.high == 0) then pos 1 else pos 0

-- The value that is stored through `dest`; each of the three returns 0.
unfoldable pub signotset : Sigset → Sigset
signotset src = record { low = complement 32 src.low; high = complement 32 src.high }

unfoldable pub sigorset : Sigset → Sigset → Sigset
sigorset left right = record { low = bit_or left.low right.low; high = bit_or left.high right.high }

unfoldable pub sigandset : Sigset → Sigset → Sigset
sigandset left right = record {
  low = bit_and left.low right.low;
  high = bit_and left.high right.high;
}

-- `__builtin_ffs`: one plus the index of the lowest set bit of a 32-bit word, 0 for the word 0.
pub ffs_from : ℕ → ℕ → ℕ → ℕ
ffs_from zero x i = 0
ffs_from (suc n) x i = let rest = ffs_from n (x / 2) (i + 1) in if x % 2 == 1 then i + 1 else rest

pub ffs : ℕ → ℕ
unfolding ffs_from
ffs x = ffs_from 32 x 0

unfoldable pub sigpeekset : Sigset → ℕ
sigpeekset s =
    if ltb 0 (ffs s.low) then ffs s.low else if ltb 0 (ffs s.high) then ffs s.high + 32 else 0
