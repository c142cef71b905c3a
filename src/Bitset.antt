-- ===== src/Bitset.antt =====
-- Bit sets over an array of 32-bit words: the macros of src/kernel/lib/bitset.h.
pub mod Laws
use cyanurus.Base.{ℕ, ◌+◌, ◌-◌, ◌/◌, ◌%◌, ◌^◌, bit_and, bit_or, Bool, not, List, ◌==◌, get_or, set}
use cyanurus.Bits.{complement}

-- `bitset p[n]`, the words in order
abbrev pub Bitset : Type 0
Bitset = List ℕ

abbrev pub mask : ℕ → ℕ
mask n = 2 ^ (n % 32)

abbrev pub slot : ℕ → ℕ
slot n = n / 32

abbrev pub nslots : ℕ → ℕ
nslots n = (n + 32 - 1) / 32

unfoldable pub add : Bitset → ℕ → Bitset
add p n = set p (slot n) (bit_or (get_or p (slot n) 0) (mask n))

unfoldable pub remove : Bitset → ℕ → Bitset
remove p n = set p (slot n) (bit_and (get_or p (slot n) 0) (complement 32 (mask n)))

-- The macro's value is the masked word; a caller asks whether it is not zero.
unfoldable pub test : Bitset → ℕ → Bool
test p n = not (bit_and (get_or p (slot n) 0) (mask n) == 0)
