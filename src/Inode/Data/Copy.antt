-- ===== src/Inode/Data/Copy.antt =====
-- The pieces that a transfer is cut into: each stays inside one block.
use cyanurus.Base.{ℕ, ◌+◌, ◌≤◌, ◌<◌, ◌≡◌, ◌⊎◌, arith, u32}
use cyanurus.Disk.{block_size}
use cyanurus.Inode.Data.{calculate_block_offset, calculate_block_copy_size}

-- A piece begins where the position lies in its block, does not go past the block or the bytes
-- left, and is not empty while bytes are left; it is all that is left unless it ends the block.
pub copy_size_bounds :
    (start size : ℕ)
    → size + block_size < u32
    → let offset = calculate_block_offset start in
      let copy = calculate_block_copy_size start size in
      (offset < block_size)
      × (offset + copy ≤ block_size)
      × (copy ≤ size)
      × (0 < size → 0 < copy)
      × ((copy ≡ size) ⊎ (offset + copy ≡ block_size))
unfolding calculate_block_copy_size
copy_size_bounds start size h = ground arith
