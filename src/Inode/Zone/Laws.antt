-- ===== src/Inode/Zone/Laws.antt =====
-- What extending and shrinking do to the blocks that a file maps.
use mathlib.Core.Path.{subst}
use cyanurus.Base.{
  ℕ, ◌+◌, ◌*◌, ◌≤◌, ◌<◌, ◌≡◌, ◌≢◌, refl, ap, ◌∙◌, ◌==◌, if◌then◌else◌, ◌⊎◌, inl, inr, arith,
  ne→==_false, update_self, u32,
}
use native.Mathlib.Decide.{dec_lt}
use cyanurus.Disk.{Block, Disk, block_index, block_read, block_write}
use cyanurus.Disk.Words.{load32-store32_self}
use cyanurus.Inode.{Superblock, DiskInode, mark_zmap}
use cyanurus.Inode.Zone.{
  Step, done, no_space, Entry, has, full, zone_slot, indirect, entry, set_entry, fill_entry,
  fill_zone, extend_indirect, extend_block, zone_of, double_outer, double_inner,
}

pub mark_zmap-lt : (sb : Superblock) (d : Disk) → (mark_zmap sb d).0 < 0x1_0000
unfolding mark_zmap
mark_zmap-lt sb d = ground arith

-- get_block finds a zone number, and answers the 16 bits of it that a block_index has.
abbrev pub Mapped : Disk → DiskInode → ℕ → Type 0
Mapped d n block = (z : ℕ) × (z ≢ 0) × (zone_of d n block ≡ block_index z)

pub entry_written :
    (d : Disk) (z1 z2 z : ℕ) (b : Block)
    → z < u32
    → entry (block_read (block_write d z1 (set_entry b z2 z)) z1) z2 ≡ z
entry_written d z1 z2 z b h =
    rw (update_self d (block_index z1) (set_entry b z2 z)) (load32-store32_self b (4 * z2) z h)

fill_entry-has :
    (sb : Superblock) (d : Disk) (z1 z2 : ℕ) {z : ℕ} {d' : Disk}
    → fill_entry sb d z1 z2 ≡ has z d'
    → (z ≢ 0) × (entry (block_read d' z1) z2 ≡ z)
unfolding fill_entry
fill_entry-has sb d z1 z2 {z} {d'} e = ground (
  arith,
  mark_zmap-lt sb d,
  entry_written (mark_zmap sb d).1 z1 z2 (mark_zmap sb d).0 (block_read d z1),
)

fill_zone-done :
    (sb : Superblock) (d : Disk) (n : DiskInode) (z0 : ℕ) {d' : Disk} {n' : DiskInode}
    → fill_zone sb d n z0 ≡ done d' n'
    → n'.zone z0 ≢ 0
unfolding fill_zone
fill_zone-done sb d n z0 {d'} {n'} e = ground arith

pub slot_direct : (block : ℕ) → block < 7 → zone_slot block ≡ block
unfolding zone_slot
slot_direct block h = ground arith

pub slot_single : (block : ℕ) → 7 ≤ block → block < 7 + 1024 → zone_slot block ≡ 7
unfolding zone_slot
slot_single block h k = ground arith

pub extend_direct :
    (sb : Superblock) (block : ℕ) (d : Disk) (n : DiskInode)
    → block < 7
    → extend_indirect sb block d n ≡ done d n
unfolding extend_indirect
extend_direct sb block d n h =
    rw (slot_direct block h, ne→==_false block 7 (omega arith), ne→==_false block 8 (omega arith))

pub extend_single :
    (sb : Superblock) (block : ℕ) (d : Disk) (n : DiskInode)
    → 7 ≤ block
    → block < 7 + 1024
    → extend_indirect sb block d n ≡ (elim (fill_entry sb d (n.zone 7) (indirect block)) [
      | has z d' ↦ done d' n
      | full d' ↦ no_space d' n
    ])
unfolding extend_indirect
extend_single sb block d n h k = rw (slot_single block h k)

-- get_block on a block that is reached directly, and through zone 7
pub zone_of_direct :
    (d : Disk) (n : DiskInode) (block : ℕ)
    → block < 7
    → zone_of d n block ≡ block_index (n.zone block)
unfolding zone_of
zone_of_direct d n block h =
    rw (slot_direct block h, ne→==_false block 7 (omega arith), ne→==_false block 8 (omega arith))
      (ground arith)

pub zone_of_single :
    (d : Disk) (n : DiskInode) (block : ℕ)
    → 7 ≤ block
    → block < 7 + 1024
    → zone_of d n block ≡ (
        if n.zone 7 == 0 then 0 else block_index (entry (block_read d (n.zone 7)) (indirect block)))
unfolding zone_of
zone_of_single d n block h k = rw (slot_single block h k)

direct-Mapped :
    (d : Disk) (n : DiskInode) (block : ℕ)
    → block < 7
    → n.zone (zone_slot block) ≢ 0
    → Mapped d n block
direct-Mapped d n block h z =
    (n.zone block, (λ e. z (ap n.zone (slot_direct block h) ∙ e)), zone_of_direct d n block h)

single-Mapped :
    (d : Disk) (n : DiskInode) (block z : ℕ)
    → 7 ≤ block
    → block < 7 + 1024
    → n.zone (zone_slot block) ≢ 0
    → z ≢ 0
    → entry (block_read d (n.zone 7)) (indirect block) ≡ z
    → Mapped d n block
single-Mapped d n block z h k nz x e =
    let y : n.zone 7 ≢ 0 = λ a. nz (ap n.zone (slot_single block h k) ∙ a) in
    (z, x, zone_of_single d n block h k ∙ rw (ne→==_false (n.zone 7) 0 y) (ap block_index e))

pub slot_double : (block : ℕ) → 7 + 1024 ≤ block → zone_slot block ≡ 8
unfolding zone_slot
slot_double block h = ground arith

extend_double :
    (sb : Superblock) (block : ℕ) (d : Disk) (n : DiskInode)
    → 7 + 1024 ≤ block
    → extend_indirect sb block d n ≡ (elim (fill_entry sb d (n.zone 8) (double_outer block)) [
      | full d' ↦ no_space d' n
      | has z1 d' ↦ elim (fill_entry sb d' z1 (double_inner block)) [
        | has z d'' ↦ done d'' n
        | full d'' ↦ no_space d'' n
      ]
    ])
unfolding extend_indirect
extend_double sb block d n h = rw (slot_double block h)

-- What a round leaves: its block is mapped; or, behind the blocks of zone 7, the block of zone 8 had
-- the number of a block of zone numbers at its place on a disk `d0`, and filling that one's entry,
-- which is not zero now, led from `d0` to the disk.
abbrev pub Filled : Superblock → Disk → DiskInode → ℕ → Type 0
Filled sb d n block =
    ((block < 7 + 1024) × Mapped d n block)
    ⊎ ((d0 : Disk) × (z1 : ℕ) × (z : ℕ) × (7 + 1024 ≤ block)
        × (n.zone 8 ≢ 0)
        × (z1 ≢ 0)
        × (entry (block_read d0 (n.zone 8)) (double_outer block) ≡ z1)
        × (fill_entry sb d0 z1 (double_inner block) ≡ has z d)
        × (entry (block_read d z1) (double_inner block) ≡ z)
        × (z ≢ 0))

-- no zone is free on a disk, and looking for one leaves `d`
abbrev pub NoZone : Superblock → Disk → Type 0
NoZone sb d = (d0 : Disk) × ((mark_zmap sb d0).0 ≡ 0) × ((mark_zmap sb d0).1 ≡ d)

fill_entry-full :
    (sb : Superblock) (d : Disk) (z1 z2 : ℕ) {d' : Disk}
    → fill_entry sb d z1 z2 ≡ full d'
    → NoZone sb d'
unfolding fill_entry
fill_entry-full sb d z1 z2 {d'} e = (d, ground arith, ground arith)

fill_zone-none :
    (sb : Superblock) (d : Disk) (n : DiskInode) (z0 : ℕ) {d' : Disk} {n' : DiskInode}
    → fill_zone sb d n z0 ≡ no_space d' n'
    → NoZone sb d'
unfolding fill_zone
fill_zone-none sb d n z0 {d'} {n'} e = (d, ground arith, ground arith)

-- how a round ends
abbrev pub Ended : Superblock → ℕ → Step → Type 0
Ended sb block (done d n) = Filled sb d n block
Ended sb block (no_space d n) = NoZone sb d

near_entry :
    (sb : Superblock) (block : ℕ) (d : Disk) (n : DiskInode) (s : Entry)
    → 7 ≤ block
    → block < 7 + 1024
    → n.zone (zone_slot block) ≢ 0
    → fill_entry sb d (n.zone 7) (indirect block) ≡ s
    → Ended sb block (elim s [ has z d' ↦ done d' n | full d' ↦ no_space d' n ])
near_entry sb block d n (full d') h k nz e = fill_entry-full sb d (n.zone 7) (indirect block) e
near_entry sb block d n (has z d') h k nz e =
    let f = fill_entry-has sb d (n.zone 7) (indirect block) e in
    inl (k, single-Mapped d' n block z h k nz f.0 f.1)

inner_entry :
    (sb : Superblock) (block : ℕ) (d : Disk) (n : DiskInode) (z1 : ℕ) (s : Entry)
    → 7 + 1024 ≤ block
    → n.zone 8 ≢ 0
    → z1 ≢ 0
    → entry (block_read d (n.zone 8)) (double_outer block) ≡ z1
    → fill_entry sb d z1 (double_inner block) ≡ s
    → Ended sb block (elim s [ has z d' ↦ done d' n | full d' ↦ no_space d' n ])
inner_entry sb block d n z1 (full d') h nz x o e = fill_entry-full sb d z1 (double_inner block) e
inner_entry sb block d n z1 (has z d') h nz x o e =
    let f = fill_entry-has sb d z1 (double_inner block) e in
    inr (d, z1, z, h, nz, x, o, e, f.1, f.0)

outer_entry :
    (sb : Superblock) (block : ℕ) (d : Disk) (n : DiskInode) (s : Entry)
    → 7 + 1024 ≤ block
    → n.zone 8 ≢ 0
    → fill_entry sb d (n.zone 8) (double_outer block) ≡ s
    → Ended sb block (elim s [
      | full d' ↦ no_space d' n
      | has z1 d' ↦ elim (fill_entry sb d' z1 (double_inner block)) [
        | has z d'' ↦ done d'' n
        | full d'' ↦ no_space d'' n
      ]
    ])
outer_entry sb block d n (full d') h nz e = fill_entry-full sb d (n.zone 8) (double_outer block) e
outer_entry sb block d n (has z1 d') h nz e =
    let f = fill_entry-has sb d (n.zone 8) (double_outer block) e in
    inner_entry sb block d' n z1 (fill_entry sb d' z1 (double_inner block)) h nz f.0 f.1 refl

extend_indirect-Ended :
    (sb : Superblock) (block : ℕ) (d : Disk) (n : DiskInode)
    → n.zone (zone_slot block) ≢ 0
    → Ended sb block (extend_indirect sb block d n)
extend_indirect-Ended sb block d n nz = elim (dec_lt block 7) [
  | yes a ↦ rw (extend_direct sb block d n a) (inl (omega arith, direct-Mapped d n block a nz))
  | no a ↦ elim (dec_lt block (7 + 1024)) [
    | yes b ↦ rw (extend_single sb block d n (omega arith) b) (
        near_entry sb block d n (fill_entry sb d (n.zone 7) (indirect block)) (omega arith) b nz
          refl)
    | no b ↦ rw (extend_double sb block d n (omega arith)) (
        outer_entry sb block d n (fill_entry sb d (n.zone 8) (double_outer block)) (omega arith)
          (λ e. nz (ap n.zone (slot_double block (omega arith)) ∙ e)) refl)
  ]
]

pub extend_block-Ended :
    (sb : Superblock) (d : Disk) (n : DiskInode) (block : ℕ)
    → Ended sb block (extend_block sb d n block)
unfolding extend_block
extend_block-Ended sb d n block = go (fill_zone sb d n (zone_slot block)) refl
  where
    go :
        (s : Step)
        → fill_zone sb d n (zone_slot block) ≡ s
        → Ended sb block (elim s [
          | no_space d1 n1 ↦ no_space d1 n1
          | done d1 n1 ↦ extend_indirect sb block d1 n1
        ])
    go (no_space d1 n1) f = fill_zone-none sb d n (zone_slot block) f
    go (done d1 n1) f =
        extend_indirect-Ended sb block d1 n1 (fill_zone-done sb d n (zone_slot block) f)

pub extend_block-Filled :
    (sb : Superblock) (d : Disk) (n : DiskInode) (block : ℕ) {d' : Disk} {n' : DiskInode}
    → extend_block sb d n block ≡ done d' n'
    → Filled sb d' n' block
extend_block-Filled sb d n block e = subst (Ended sb block) e (extend_block-Ended sb d n block)
