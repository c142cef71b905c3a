-- ===== src/Disk.antt =====
-- The block device as the file system sees it: src/kernel/block.h.
-- block_read returns what block_write stored last, since src/kernel/block.c writes through its cache;
-- a buffer of one block (a page from buddy_alloc) is a value of the model.
pub mod Words
pub mod Card
pub mod Cache
use cyanurus.Base.{ℕ, ◌+◌, ◌*◌, ◌/◌, ◌%◌, update}

-- BLOCK_SIZE
abbrev pub block_size : ℕ
block_size = 4096

-- bytes, by position
abbrev pub Block : Type 0
Block = ℕ → ℕ

abbrev pub Disk : Type 0
Disk = ℕ → Block

-- `block_index` is a uint16_t.
abbrev pub block_index : ℕ → ℕ
block_index n = n % 0x1_0000

abbrev pub block_read : Disk → ℕ → Block
block_read d n = d (block_index n)

abbrev pub block_write : Disk → ℕ → Block → Disk
block_write d n b = update d (block_index n) b

-- Little-endian loads and stores at byte `p` of a buffer.
unfoldable pub load16 : Block → ℕ → ℕ
load16 b p = b p + 0x100 * b (p + 1)

unfoldable pub load32 : Block → ℕ → ℕ
load32 b p = b p + 0x100 * b (p + 1) + 0x1_0000 * b (p + 2) + 0x100_0000 * b (p + 3)

unfoldable pub store16 : Block → ℕ → ℕ → Block
store16 b p v = update (update b p (v % 0x100)) (p + 1) (v / 0x100 % 0x100)

unfoldable pub store32 : Block → ℕ → ℕ → Block
store32 b p v =
    update
      (update (update (update b p (v % 0x100)) (p + 1) (v / 0x100 % 0x100)) (p + 2)
        (v / 0x1_0000 % 0x100))
      (p + 3) (v / 0x100_0000 % 0x100)
