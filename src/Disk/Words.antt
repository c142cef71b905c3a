-- ===== src/Disk/Words.antt =====
-- Words stored in a buffer and loaded again.
use cyanurus.Base.{ℕ, ◌+◌, ◌≤◌, ◌<◌, ◌≡◌, ◌⊎◌, arith, u32}
use cyanurus.Disk.{Block, load16, load32, store16, store32}

pub load32-store32_self : (b : Block) (p v : ℕ) → v < u32 → load32 (store32 b p v) p ≡ v
unfolding load32 store32
load32-store32_self b p v h = ground arith

pub load16-store16_self : (b : Block) (p v : ℕ) → v < 0x1_0000 → load16 (store16 b p v) p ≡ v
unfolding load16 store16
load16-store16_self b p v h = ground arith

-- A store leaves the bytes outside it alone.
pub store32_outside : (b : Block) (p v a : ℕ) → (a < p) ⊎ (p + 4 ≤ a) → store32 b p v a ≡ b a
unfolding store32
store32_outside b p v a h = ground arith

pub store16_outside : (b : Block) (p v a : ℕ) → (a < p) ⊎ (p + 2 ≤ a) → store16 b p v a ≡ b a
unfolding store16
store16_outside b p v a h = ground arith

pub load32_same :
    (b c : Block) (p : ℕ) → ((a : ℕ) → p ≤ a → a < p + 4 → b a ≡ c a) → load32 b p ≡ load32 c p
unfolding load32
load32_same b c p h = ground (
  arith,
  h p (omega arith) (omega arith),
  h (p + 1) (omega arith) (omega arith),
  h (p + 2) (omega arith) (omega arith),
  h (p + 3) (omega arith) (omega arith),
)

pub load16_same :
    (b c : Block) (p : ℕ) → ((a : ℕ) → p ≤ a → a < p + 2 → b a ≡ c a) → load16 b p ≡ load16 c p
unfolding load16
load16_same b c p h =
    ground (arith, h p (omega arith) (omega arith), h (p + 1) (omega arith) (omega arith))
