-- ===== src/Inode/Zone/Extend.antt =====
-- How extend_zone of src/kernel/inode.c ends.
use cyanurus.Base.{ℕ, zero, suc, ◌+◌, ◌*◌, ◌<◌, ◌≡◌, ◌⊎◌, ℤ, pos, error}
use cyanurus.Disk.{Disk, block_size}
use cyanurus.Inode.{Superblock, DiskInode}
use cyanurus.Inode.Zone.{done, no_space, extend_block}
use cyanurus.Inode.Zone.Laws.{Filled, NoZone}

-- `count` rounds from `block` on that do not run out of zones, each of which fills its block
abbrev pub Rounds : Superblock → ℕ → ℕ → Disk → DiskInode → Disk → DiskInode → Type 0
Rounds sb zero block d n d' n' = (d ≡ d') × (n ≡ n')
Rounds sb (suc count) block d n d' n' =
    (d1 : Disk) × (n1 : DiskInode) × (extend_block sb d n block ≡ done d1 n1)
    × Filled sb d1 n1 block
    × Rounds sb count (block + 1) d1 n1 d' n'

-- All the rounds are made, and the size is set; or one finds no zone, and the size is set to the
-- start of its block.
abbrev pub Extended : Superblock → ℕ → ℕ → ℕ → Disk → DiskInode → ℤ × Disk × DiskInode → Type 0
Extended sb size count block d n (r, d', n') =
    ((r ≡ pos 0)
      × ((m : DiskInode) × Rounds sb count block d n d' m × (n' ≡ record m { size = size })))
    ⊎ ((c : ℕ) × (d1 : Disk) × (n1 : DiskInode) × (m : DiskInode) × (r ≡ error 28)
        × (c < count)
        × Rounds sb c block d n d1 n1
        × (extend_block sb d1 n1 (block + c) ≡ no_space d' m)
        × NoZone sb d'
        × (n' ≡ record m { size = (block + c) * block_size }))
