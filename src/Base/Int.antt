-- ===== src/Base/Int.antt =====
-- C integers that can be negative: results, error codes and arguments of the system calls.
use Prim.Native.Nat.{ℕ, ◌+◌, ◌-◌, ◌%◌}
use cyanurus.Base.Tests.{ltb, if◌then◌else◌}

-- `negsuc n` is -(n + 1).
pub data ℤ : Type 0 where
  pos : ℕ → ℤ
  negsuc : ℕ → ℤ

-- `-e` for an error number e > 0
abbrev pub error : ℕ → ℤ
error e = negsuc (e - 1)

-- `size_t` and `uint32_t` arithmetic wraps at 2 ^ 32.
abbrev pub u32 : ℕ
u32 = 0x1_0000_0000

abbrev pub add32 : ℕ → ℕ → ℕ
add32 a b = (a + b) % u32

abbrev pub sub32 : ℕ → ℕ → ℕ
sub32 a b = (a + u32 - b) % u32

-- A 32-bit word read as a signed one.
abbrev pub signed32 : ℕ → ℤ
signed32 w = if ltb w 0x8000_0000 then pos w else negsuc (u32 - 1 - w)
