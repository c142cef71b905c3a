-- ===== src/Inode/Zone.antt =====
-- The zones of a file: extend_zone, shrink_zone and get_block of src/kernel/inode.c.
-- Zones 0 to 6 of an inode are data blocks, zone 7 is a block of 1024 zone numbers, and zone 8 is a
-- block of numbers of such blocks.
pub mod Path
pub mod Laws
pub mod Extend
pub mod Shrink
pub mod Double
use cyanurus.Base.{
  ℕ, zero, suc, ◌+◌, ◌-◌, ◌*◌, ◌/◌, ◌%◌, ltb, leb, ◌==◌, if◌then◌else◌, update, ℤ, pos, error,
}
use cyanurus.Disk.{Block, Disk, block_size, block_index, block_read, block_write, load32, store32}
use cyanurus.Inode.{Superblock, DiskInode, mark_zmap, unmark_zmap, read_inode}

-- ZONES_PER_BLOCK
abbrev pub zones_per_block : ℕ
zones_per_block = 1024

-- the variable `z0`
unfoldable pub zone_slot : ℕ → ℕ
zone_slot block = if leb block 6 then block else if ltb block (7 + zones_per_block) then 7 else 8

-- the index into the block of zone 7, and the two of zone 8
abbrev pub indirect : ℕ → ℕ
indirect block = block - 7

abbrev pub double_outer : ℕ → ℕ
double_outer block = (block - (7 + zones_per_block)) / zones_per_block

abbrev pub double_inner : ℕ → ℕ
double_inner block = (block - (7 + zones_per_block)) % zones_per_block

-- `zones[i]` of a block of zone numbers
abbrev pub entry : Block → ℕ → ℕ
entry b i = load32 b (4 * i)

abbrev pub set_entry : Block → ℕ → ℕ → Block
set_entry b i v = store32 b (4 * i) v

abbrev pub set_zone : DiskInode → ℕ → ℕ → DiskInode
set_zone n z v = record n { zone = update n.zone z v }

-- A step that may run out of zones. The disk and the inode are as the step leaves them.
pub data Step : Type 0 where
  done : Disk → DiskInode → Step
  no_space : Disk → DiskInode → Step

-- `if (!zones[z2]) { zones[z2] = mark_zmap(); … block_write(z1, zones); }`: the zone number that
-- the entry then holds.
pub data Entry : Type 0 where
  has : (zone : ℕ) → Disk → Entry
  full : Disk → Entry

unfoldable pub fill_entry : Superblock → Disk → (z1 z2 : ℕ) → Entry
fill_entry sb d z1 z2 =
    let zones = block_read d z1 in
    let (z, d') = mark_zmap sb d in
    if entry zones z2 == 0
    then (if z == 0 then full d' else has z (block_write d' z1 (set_entry zones z2 z)))
    else has (entry zones z2) d

-- `if (!inode->i_zone[z0]) { inode->i_zone[z0] = mark_zmap(); … }`
unfoldable pub fill_zone : Superblock → Disk → DiskInode → (z0 : ℕ) → Step
fill_zone sb d n z0 =
    let (z, d') = mark_zmap sb d in
    if n.zone z0 == 0
    then (if z == 0 then no_space d' (set_zone n z0 0) else done d' (set_zone n z0 z))
    else done d n

-- The indirect levels of one round, once zone `z0` of the inode is there.
unfoldable pub extend_indirect : Superblock → (block : ℕ) → Disk → DiskInode → Step
extend_indirect sb block d n =
    if zone_slot block == 7
    then elim (fill_entry sb d (n.zone 7) (indirect block)) [
      | has z d' ↦ done d' n
      | full d' ↦ no_space d' n
    ]
    else if zone_slot block == 8
    then elim (fill_entry sb d (n.zone 8) (double_outer block)) [
      | full d' ↦ no_space d' n
      | has z1 d' ↦ elim (fill_entry sb d' z1 (double_inner block)) [
        | has z d'' ↦ done d'' n
        | full d'' ↦ no_space d'' n
      ]
    ]
    else done d n

-- One round of extend_zone.
unfoldable pub extend_block : Superblock → Disk → DiskInode → (block : ℕ) → Step
extend_block sb d n block = elim (fill_zone sb d n (zone_slot block)) [
  | no_space d' n' ↦ no_space d' n'
  | done d' n' ↦ extend_indirect sb block d' n'
]

-- `left` blocks are to come, from `block` on; a failure records how far the file reaches.
unfoldable pub extend_loop :
    Superblock → (size : ℕ) → Disk → DiskInode → (left block : ℕ) → ℤ × Disk × DiskInode
extend_loop sb size d n zero block = (pos 0, d, record n { size = size })
extend_loop sb size d n (suc left) block = elim (extend_block sb d n block) [
  | no_space d' n' ↦ (error 28, d', record n' { size = block * block_size })
  | done d' n' ↦ extend_loop sb size d' n' left (block + 1)
]

-- ENOSPC is 28. `start`, `end` and `block` are of type block_index.
unfoldable pub extend_zone : Superblock → Disk → DiskInode → (size : ℕ) → ℤ × Disk × DiskInode
extend_zone sb d n size =
    let start = block_index (n.size / block_size + 1) in
    let end = block_index (size / block_size + 1) in
    if ltb end start then (pos 0, d, n) else extend_loop sb size d n (end - start) start

-- unmark_zmap takes a block_index.
abbrev pub give_back : Superblock → Disk → ℕ → Disk
give_back sb d z = unmark_zmap sb d (block_index z)

-- One round of shrink_zone: the block's zone is given back, and so is a block of zone numbers when
-- its first entry goes.
unfoldable pub shrink_block : Superblock → Disk → DiskInode → (block : ℕ) → Disk × DiskInode
shrink_block sb d n block =
    let z0 = zone_slot block in
    if n.zone z0 == 0
    then (d, n)
    else if z0 == 7
    then (let z1 = n.zone 7 in
        let z2 = indirect block in
        let zones0 = block_read d z1 in
        let d1 = block_write (give_back sb d (entry zones0 z2)) z1 (set_entry zones0 z2 0) in
        if entry zones0 z2 == 0
        then (d, n)
        else if z2 == 0
        then (give_back sb d1 (n.zone 7), set_zone n 7 0)
        else (d1, n))
    else if z0 == 8
    then (let z1 = n.zone 8 in
        let z2 = double_outer block in
        let zones0 = block_read d z1 in
        let z3 = entry zones0 z2 in
        let z4 = double_inner block in
        let zones1 = block_read d z3 in
        let d1 = block_write (give_back sb d (entry zones1 z4)) z3 (set_entry zones1 z4 0) in
        let d2 = block_write (give_back sb d1 z3) z1 (set_entry zones0 z2 0) in
        if z3 == 0
        then (d, n)
        else if entry zones1 z4 == 0
        then (d, n)
        else if z4 == 0
        then (if z2 == 0 then (give_back sb d2 (n.zone 8), set_zone n 8 0) else (d2, n))
        else (d1, n))
    else (give_back sb d (n.zone z0), set_zone n z0 0)

-- Blocks are given back from the last one down to the one behind the new end.
unfoldable pub shrink_loop : Superblock → Disk → DiskInode → (left block : ℕ) → Disk × DiskInode
shrink_loop sb d n zero block = (d, n)
shrink_loop sb d n (suc left) block =
    let (d', n') = shrink_block sb d n block in shrink_loop sb d' n' left (block - 1)

unfoldable pub shrink_zone : Superblock → Disk → DiskInode → (size : ℕ) → Disk × DiskInode
shrink_zone sb d n size =
    let start = block_index (n.size / block_size) in
    let end = block_index (size / block_size) in
    let (d', n') = shrink_loop sb d n (start - end) start in (d', record n' { size = size })

-- get_block on an inode that has been read; its result is a block_index, and 0 means no block.
unfoldable pub zone_of : Disk → DiskInode → (block : ℕ) → ℕ
zone_of d n block =
    let z0 = zone_slot block in
    let z = n.zone z0 in
    if z == 0
    then 0
    else if z0 == 7
    then block_index (entry (block_read d z) (indirect block))
    else if z0 == 8
    then (let z1 = entry (block_read d z) (double_outer block) in
        if z1 == 0 then 0 else block_index (entry (block_read d z1) (double_inner block)))
    else block_index z

unfoldable pub get_block : Superblock → Disk → (index block : ℕ) → ℕ
get_block sb d index block = zone_of d (read_inode sb d index) block
