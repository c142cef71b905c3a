-- ===== src/Inode.antt =====
-- Inodes on disk: the allocation maps and the inode table of src/kernel/inode.c.
-- `struct minix2_inode` and the superblock's fields are those of src/kernel/minix.h.
pub mod Map
pub mod Table
pub mod Zone
pub mod Data
use cyanurus.Base.{
  ℕ, zero, suc, ◌+◌, ◌-◌, ◌*◌, ◌/◌, ◌%◌, ◌^◌, bit_and, bit_or, ltb, leb, ◌==◌, if◌then◌else◌,
  update, add32, sub32,
}
use cyanurus.Bits.{complement}
use cyanurus.Disk.{
  Block, Disk, block_size, block_index, block_read, block_write, load16, load32, store16, store32,
}

-- `struct minix3_superblock`, the fields that the file system reads
pub record Superblock : Type 0 where
  pub ninodes : ℕ
  pub imap_blocks : ℕ
  pub zmap_blocks : ℕ
  pub firstdatazone : ℕ
  pub zones : ℕ

-- IMAP_ZONE_INDEX
abbrev pub imap_zone_index : ℕ
imap_zone_index = 2

-- INODE_ZONE_INDEX
abbrev pub inode_zone_index : Superblock → ℕ
inode_zone_index sb = imap_zone_index + sb.imap_blocks + sb.zmap_blocks

-- How the scan of a map goes on: no clear bit yet, or the number to return and the disk.
pub data Scan : Type 0 where
  scanning : (index : ℕ) → Scan
  stopped : (result : ℕ) → Disk → Scan

-- The loop over the bits of one byte, from bit `b` on; `left` bits are to come.
unfoldable pub scan_bits : Disk → (block : ℕ) → Block → (i limit index : ℕ) → (left b : ℕ) → Scan
scan_bits d block buf i limit index zero b = scanning index
scan_bits d block buf i limit index (suc left) b =
    let rest = scan_bits d block buf i limit index left (b + 1) in
    if leb limit (add32 index b)
    then stopped 0 d
    else if bit_and (complement 8 (buf i)) (2 ^ b) == 0
    then rest
    else stopped (add32 index b) (block_write d block (update buf i (bit_or (buf i) (2 ^ b))))

unfoldable pub scan_byte : Disk → (block : ℕ) → Block → (i limit index : ℕ) → Scan
scan_byte d block buf i limit index =
    if buf i == 0xff then scanning (add32 index 8) else scan_bits d block buf i limit index 8 0

-- The loop over the bytes of one block; `left` bytes are to come.
unfoldable pub scan_bytes : Disk → (block : ℕ) → Block → (limit : ℕ) → (left i index : ℕ) → Scan
scan_bytes d block buf limit zero i index = scanning index
scan_bytes d block buf limit (suc left) i index = elim (scan_byte d block buf i limit index) [
  | scanning index' ↦ scan_bytes d block buf limit left (i + 1) index'
  | stopped r d' ↦ stopped r d'
]

-- The loop over the blocks of the map; `left` blocks are to come.
unfoldable pub scan_blocks : Disk → (limit : ℕ) → (left block index : ℕ) → Scan
scan_blocks d limit zero block index = scanning index
scan_blocks d limit (suc left) block index =
    elim (scan_bytes d block (block_read d block) limit block_size 0 index) [
      | scanning index' ↦ scan_blocks d limit left (block + 1) index'
      | stopped r d' ↦ stopped r d'
    ]

unfoldable pub mark_map : Disk → (start end limit : ℕ) → ℕ × Disk
mark_map d start end limit = elim (scan_blocks d limit (end - start) start 0) [
  | scanning index ↦ (0, d)
  | stopped r d' ↦ (r, d')
]

unfoldable pub unmark_map : Disk → (index start : ℕ) → Disk
unmark_map d index start =
    let block = start + index / 8 / block_size in
    let buf = block_read d block in
    let i = index / 8 % block_size in
    block_write d block (update buf i (bit_and (buf i) (complement 8 (2 ^ (index % 8)))))

unfoldable pub mark_imap : Superblock → Disk → ℕ × Disk
unfolding mark_map
mark_imap sb d =
    mark_map d imap_zone_index (block_index (imap_zone_index + sb.imap_blocks)) sb.ninodes

unfoldable pub unmark_imap : Superblock → Disk → (index : ℕ) → Disk
unfolding unmark_map
unmark_imap sb d index = unmark_map d index imap_zone_index

-- What mark_map returns is stored in a `block_index`.
unfoldable pub mark_zmap : Superblock → Disk → ℕ × Disk
unfolding mark_map
mark_zmap sb d =
    let start = block_index (imap_zone_index + sb.imap_blocks) in
    let (n, d') =
      mark_map d start (block_index (start + sb.zmap_blocks)) (sub32 sb.zones sb.firstdatazone) in
    if block_index n == 0 then (0, d') else (block_index (block_index n + sb.firstdatazone - 1), d')

unfoldable pub unmark_zmap : Superblock → Disk → (index : ℕ) → Disk
unfolding unmark_map
unmark_zmap sb d index =
    if ltb index sb.firstdatazone
    then d
    else unmark_map d (index - sb.firstdatazone + 1)
        (block_index (imap_zone_index + sb.imap_blocks))

-- `struct minix2_inode`; `zone` is `i_zone`, of ten entries
pub record DiskInode : Type 0 where
  pub mode : ℕ
  pub nlinks : ℕ
  pub uid : ℕ
  pub gid : ℕ
  pub size : ℕ
  pub atime : ℕ
  pub mtime : ℕ
  pub ctime : ℕ
  pub zone : ℕ → ℕ

abbrev pub inodes_per_block : ℕ
inodes_per_block = 64

-- The bytes of an inode at byte `p` of a block, as memcpy moves them.
unfoldable pub decode : Block → ℕ → DiskInode
decode b p = record {
  mode = load16 b p;
  nlinks = load16 b (p + 2);
  uid = load16 b (p + 4);
  gid = load16 b (p + 6);
  size = load32 b (p + 8);
  atime = load32 b (p + 12);
  mtime = load32 b (p + 16);
  ctime = load32 b (p + 20);
  zone = λ k. load32 b (p + 24 + 4 * k);
}

unfoldable pub store_zones : Block → ℕ → (ℕ → ℕ) → ℕ → Block
store_zones b p zone zero = b
store_zones b p zone (suc n) = store32 (store_zones b p zone n) (p + 4 * n) (zone n)

-- The fields in front of `i_zone`, 24 bytes.
unfoldable pub encode_head : Block → ℕ → DiskInode → Block
encode_head b p n =
    let b1 = store16 (store16 b p n.mode) (p + 2) n.nlinks in
    let b2 = store16 (store16 b1 (p + 4) n.uid) (p + 6) n.gid in
    let b3 = store32 (store32 b2 (p + 8) n.size) (p + 12) n.atime in
    store32 (store32 b3 (p + 16) n.mtime) (p + 20) n.ctime

unfoldable pub encode : Block → ℕ → DiskInode → Block
encode b p n = store_zones (encode_head b p n) (p + 24) n.zone 10

-- Inode numbers start at 1.
unfoldable pub inode_block : Superblock → ℕ → ℕ
inode_block sb index = inode_zone_index sb + block_index (sub32 index 1 / inodes_per_block)

unfoldable pub inode_position : ℕ → ℕ
inode_position index = 64 * (sub32 index 1 % inodes_per_block)

unfoldable pub read_inode : Superblock → Disk → (index : ℕ) → DiskInode
read_inode sb d index = decode (block_read d (inode_block sb index)) (inode_position index)

unfoldable pub write_inode : Superblock → Disk → (index : ℕ) → DiskInode → Disk
write_inode sb d index n =
    let block = inode_block sb index in
    block_write d block (encode (block_read d block) (inode_position index) n)
