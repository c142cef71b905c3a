-- ===== src/Inode/Zone/Shrink.antt =====
-- What shrink_zone gives up, and what extend_zone trusts.
use native.Mathlib.Decide.{dec_lt}
use cyanurus.Base.{ℕ, ◌+◌, ◌≤◌, ◌<◌, ◌≡◌, ◌≢◌, refl, ◌∙◌, arith, ◌==◌, if◌then◌else◌, ne→==_false}
use cyanurus.Disk.{Disk, block_index, block_read, block_write}
use cyanurus.Inode.{Superblock, DiskInode, mark_zmap}
use cyanurus.Inode.Zone.{
  done, zone_slot, indirect, entry, set_entry, set_zone, fill_entry, fill_zone, extend_indirect,
  extend_block, shrink_block, give_back, zone_of,
}
use cyanurus.Inode.Zone.Laws.{
  entry_written, slot_direct, slot_single, extend_single, zone_of_direct, zone_of_single,
}

shrink_direct :
    (sb : Superblock) (d : Disk) (n : DiskInode) (block : ℕ)
    → block < 7
    → shrink_block sb d n block
      ≡ (if n.zone block == 0 then (d, n) else (give_back sb d (n.zone block), set_zone n block 0))
unfolding shrink_block
shrink_direct sb d n block h =
    rw (slot_direct block h, ne→==_false block 7 (omega arith), ne→==_false block 8 (omega arith))

shrink_single :
    (sb : Superblock) (d : Disk) (n : DiskInode) (block : ℕ)
    → 7 ≤ block
    → block < 7 + 1024
    → let zones0 = block_read d (n.zone 7) in
      let z2 = indirect block in
      let d1 = block_write (give_back sb d (entry zones0 z2)) (n.zone 7) (set_entry zones0 z2 0) in
      shrink_block sb d n block ≡ (
        if n.zone 7 == 0
        then (d, n)
        else if entry zones0 z2 == 0
        then (d, n)
        else if z2 == 0
        then (give_back sb d1 (n.zone 7), set_zone n 7 0)
        else (d1, n))
unfolding shrink_block
shrink_single sb d n block h k = rw (slot_single block h k)

-- A round of shrink_zone for a block that is reached directly or through zone 7 leaves it unmapped:
-- get_block answers 0 for it from then on.
pub zone_of-shrink_near :
    (sb : Superblock) (d : Disk) (n : DiskInode) (block : ℕ)
    → block < 7 + 1024
    → let (d', n') = shrink_block sb d n block in zone_of d' n' block ≡ 0
zone_of-shrink_near sb d n block h = elim (dec_lt block 7) [
  | yes direct ↦ ground (
    arith,
    shrink_direct sb d n block direct,
    zone_of_direct (shrink_block sb d n block).0 (shrink_block sb d n block).1 block direct,
  )
  | no other ↦ ground (
    arith,
    shrink_single sb d n block (omega arith) h,
    zone_of_single (shrink_block sb d n block).0 (shrink_block sb d n block).1 block (omega arith)
        h,
    entry_written (give_back sb d (entry (block_read d (n.zone 7)) (indirect block))) (n.zone 7)
        (indirect block) 0 (block_read d (n.zone 7)) (omega arith),
  )
]

-- An entry that is not zero is taken as it is.
extend_seven :
    (sb : Superblock) (d : Disk) (n : DiskInode) {z : ℕ}
    → n.zone 7 ≡ z
    → entry (block_read d z) 0 ≢ 0
    → extend_indirect sb 7 d n ≡ done d n
unfolding fill_entry
extend_seven sb d n {z} e old =
    extend_single sb 7 d n (omega arith) (omega arith)
    ∙ rw (e, ne→==_false (entry (block_read d z) 0) 0 old)

fill_seven :
    (sb : Superblock) (d : Disk) (n : DiskInode) {z : ℕ} {d' : Disk}
    → n.zone 7 ≡ 0
    → mark_zmap sb d ≡ (z, d')
    → z ≢ 0
    → fill_zone sb d n (zone_slot 7) ≡ done d' (set_zone n 7 z)
unfolding fill_zone
fill_seven sb d n {z} {d'} none_yet taken nz =
    let slot : zone_slot 7 ≡ 7 = slot_single 7 (omega arith) (omega arith) in
    ground (arith, slot, none_yet, taken, nz)

-- extend_zone does not clear a block of zone numbers that it has just taken: whatever the block
-- held before is read as zone numbers. If its first entry is not zero, the round for block 7 takes
-- no zone for the data at all and the file is given the block that the old entry names.
pub extend_block_trusts_stale :
    (sb : Superblock) (d : Disk) (n : DiskInode) {z : ℕ} {d' : Disk}
    → n.zone 7 ≡ 0
    → mark_zmap sb d ≡ (z, d')
    → z ≢ 0
    → entry (block_read d' z) 0 ≢ 0
    → (extend_block sb d n 7 ≡ done d' (set_zone n 7 z))
      × (zone_of d' (set_zone n 7 z) 7 ≡ block_index (entry (block_read d' z) 0))
unfolding extend_block
extend_block_trusts_stale sb d n {z} {d'} none_yet taken nz stale = (
  rw (fill_seven sb d n none_yet taken nz, extend_block)
      (extend_seven sb d' (set_zone n 7 z) refl stale),
  zone_of_single d' (set_zone n 7 z) 7 (omega arith) (omega arith) ∙ rw (ne→==_false z 0 nz),
)
