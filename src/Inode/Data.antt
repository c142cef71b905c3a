-- ===== src/Inode/Data.antt =====
-- The operations on inodes: src/kernel/inode.c from calculate_block_offset on, with the cache of inodes
-- in memory (`inodes`, get_inode, release_inode).
pub mod Copy
pub mod Reading
use cyanurus.Base.{
  ℕ, zero, suc, ◌+◌, ◌-◌, ◌/◌, ◌%◌, ◌&&◌, Option, none, some, List, [], ◌∷◌, ◌++◌, ltb, leb, ◌==◌,
  if◌then◌else◌, length, take, drop, update, ℤ, pos, negsuc, error, add32, sub32, signed32,
}
use cyanurus.Disk.{Block, Disk, block_size, block_index, block_read, block_write}
use cyanurus.Inode.{
  Superblock, DiskInode, mark_imap, unmark_imap, mark_zmap, unmark_zmap, read_inode, write_inode,
}
use cyanurus.Inode.Zone.{extend_zone, shrink_zone, get_block}

-- `struct inode`. A pointer to one is its index: the cache holds one inode for each.
pub record Inode : Type 0 where
  pub index : ℕ
  pub mode : ℕ
  pub nlinks : ℕ
  pub size : ℕ

-- The disk, the superblock and the list `inodes`, the latest in front.
pub record Fs : Type 0 where
  pub sb : Superblock
  pub disk : Disk
  pub inodes : List Inode

unfoldable pub calculate_block_offset : ℕ → ℕ
calculate_block_offset start = start % block_size

unfoldable pub calculate_block_copy_size : ℕ → ℕ → ℕ
unfolding calculate_block_offset
calculate_block_copy_size start size =
    let offset = calculate_block_offset start in
    if ltb block_size (add32 offset size) then block_size - offset else size

unfoldable pub find_inode : ℕ → List Inode → Option Inode
find_inode index [] = none
find_inode index (n ∷ ns) = if n.index == index then some n else find_inode index ns

-- A write through the pointer to an inode of the cache.
unfoldable pub store_inode : Inode → List Inode → List Inode
store_inode n [] = []
store_inode n (m ∷ ms) = if m.index == n.index then n ∷ ms else m ∷ store_inode n ms

unfoldable pub get_inode : Fs → ℕ → Inode × Fs
get_inode fs index =
    let new : Inode = record { index = index; mode = 0; nlinks = 0; size = 0 } in
    elim (find_inode index fs.inodes) [
      | some n ↦ (n, fs)
      | none ↦ (new, record fs { inodes = new ∷ fs.inodes })
    ]

unfoldable pub remove_inode : ℕ → List Inode → List Inode
remove_inode index [] = []
remove_inode index (n ∷ ns) = if n.index == index then ns else n ∷ remove_inode index ns

unfoldable pub release_inode : Fs → Inode → Fs
release_inode fs n = record fs { inodes = remove_inode n.index fs.inodes }

abbrev pub save : Fs → Inode → Fs
save fs n = record fs { inodes = store_inode n fs.inodes }

abbrev pub empty_inode : DiskInode
empty_inode = record {
  mode = 0;
  nlinks = 0;
  uid = 0;
  gid = 0;
  size = 0;
  atime = 0;
  mtime = 0;
  ctime = 0;
  zone = λ _. 0;
}

-- i_mode is a uint16_t. `none` is NULL.
unfoldable pub inode_create : Fs → (mode : ℕ) → Option Inode × Fs
inode_create fs mode =
    let (index, d1) = mark_imap fs.sb fs.disk in
    let (z, d2) = mark_zmap fs.sb d1 in
    let new = record empty_inode { mode = mode % 0x1_0000; zone = update (λ _. 0) 0 z } in
    let d3 = write_inode fs.sb d2 index new in
    let (n, fs') = get_inode (record fs { disk = d3 }) index in
    let n' = record n { mode = mode } in
    if index == 0
    then (none, record fs { disk = d1 })
    else if z == 0
    then (none, record fs { disk = unmark_imap fs.sb d2 index })
    else (some n', save fs' n')

-- memset(buf + p, 0, n)
abbrev pub clear : Block → ℕ → ℕ → Block
clear b p n a = if leb p a && ltb a (p + n) then 0 else b a

-- The loop of inode_truncate that clears what a file gains.
pub data Cleared : Type 0 where
  cleared : Disk → Cleared
  no_block : Disk → Cleared
  bug : Cleared
  out_of_fuel : Cleared

unfoldable pub clear_loop : ℕ → Superblock → (index size : ℕ) → Disk → (tstart tsize : ℕ) → Cleared
clear_loop zero sb index size d tstart tsize = out_of_fuel
clear_loop (suc fuel) sb index size d tstart tsize =
    let toffset = calculate_block_offset tstart in
    let tcopy = calculate_block_copy_size tstart tsize in
    let b = get_block sb d index (block_index (tstart / block_size)) in
    let d' = block_write d b (clear (block_read d b) toffset tcopy) in
    let tstart' = add32 tstart tcopy in
    let tsize' = sub32 tsize tcopy in
    let rest = clear_loop fuel sb index size d' tstart' tsize' in
    if tsize == 0
    then cleared d
    else if b == 0
    then no_block d
    else if add32 tstart' tsize' == size
    then rest
    else bug

-- How inode_truncate and what calls it leave: a result, or SYSTEM_BUG_ON.
pub data Outcome (A : Type 0) : Type 0 where
  result : A → Fs → Outcome A
  halted : Outcome A

-- The end of inode_truncate: the new size reaches the inode in memory and on disk.
unfoldable pub truncate_end : Fs → Inode → Disk → DiskInode → Outcome (ℤ × Inode)
truncate_end fs n d m =
    let n' = record n { size = m.size } in
    result (pos 0, n') (save (record fs { disk = write_inode fs.sb d n.index m }) n')

-- `tsize` rounds and one to see the end are enough for the loop, since each clears a byte.
unfoldable pub inode_truncate : Fs → Inode → (size : ℕ) → Outcome (ℤ × Inode)
inode_truncate fs n size =
    let m = read_inode fs.sb fs.disk n.index in
    let (r, d1, m1) = extend_zone fs.sb fs.disk m size in
    let grown = clear_loop (size - n.size + 1) fs.sb n.index size d1 n.size (size - n.size) in
    let (d2, m2) = shrink_zone fs.sb fs.disk m size in
    if size == n.size
    then result (pos 0, n) fs
    else if ltb n.size size
    then elim r [
      | negsuc e ↦ result (negsuc e, n) (record fs { disk = d1 })
      | pos _ ↦ elim grown [
        | cleared d ↦ truncate_end fs n d m1
        | no_block d ↦ result (error 28, n) (record fs { disk = d })
        | bug ↦ halted
        | out_of_fuel ↦ halted
      ]
    ]
    else truncate_end fs n d2 m2

-- The result of inode_truncate is not looked at.
unfoldable pub inode_destroy : Fs → Inode → Outcome ℤ
inode_destroy fs n = elim (inode_truncate fs n 0) [
  | halted ↦ halted
  | result (_, n') fs1 ↦
      let m = read_inode fs1.sb fs1.disk n.index in
      let d1 = unmark_zmap fs1.sb fs1.disk (block_index (m.zone 0)) in
      let d2 = write_inode fs1.sb d1 n.index empty_inode in
      let d3 = unmark_imap fs1.sb d2 n.index in
      result (pos 0) (release_inode (record fs1 { disk = d3 }) n')
]

unfoldable pub inode_get : Fs → (index : ℕ) → Inode × Fs
inode_get fs index =
    let m = read_inode fs.sb fs.disk index in
    let (n, fs') = get_inode fs index in
    let n' = record n { mode = m.mode; size = m.size; nlinks = m.nlinks } in (n', save fs' n')

unfoldable pub inode_set : Fs → Inode → Fs
inode_set fs n =
    let m = read_inode fs.sb fs.disk n.index in
    let m' = record m { mode = n.mode % 0x1_0000; size = n.size; nlinks = n.nlinks % 0x1_0000 } in
    record fs { disk = write_inode fs.sb fs.disk n.index m' }

-- memcpy between a block buffer and the caller's bytes
unfoldable pub copy_out : Block → ℕ → ℕ → List ℕ
copy_out b p zero = []
copy_out b p (suc n) = b p ∷ copy_out b (p + 1) n

unfoldable pub copy_in : Block → ℕ → List ℕ → Block
copy_in b p [] = b
copy_in b p (x ∷ xs) = copy_in (update b p x) (p + 1) xs

-- What a file holds at a block: the block that get_block finds, or zeros.
unfoldable pub read_block : Superblock → Disk → (index zone : ℕ) → Block
read_block sb d index zone =
    let b = get_block sb d index zone in if b == 0 then (λ _. 0) else block_read d b

-- The loop of inode_read, `left` blocks to come.
unfoldable pub read_loop :
    Superblock → Disk → (index : ℕ) → (left zone cur_start cur_size : ℕ) → List ℕ
read_loop sb d index zero zone cur_start cur_size = []
read_loop sb d index (suc left) zone cur_start cur_size =
    let offset = calculate_block_offset cur_start in
    let copy = calculate_block_copy_size cur_start cur_size in
    copy_out (read_block sb d index zone) offset copy
    ++ read_loop sb d index left (zone + 1) (add32 cur_start copy) (sub32 cur_size copy)

-- The value that is returned and the bytes that are stored through `data`.
unfoldable pub inode_read : Fs → Inode → (size start : ℕ) → ℤ × List ℕ
inode_read fs n size start =
    let size' = if ltb n.size (add32 start size) then n.size - start else size in
    let first = block_index (start / block_size) in
    let last = block_index (add32 start size' / block_size) in
    if leb n.size start
    then (pos 0, [])
    else (signed32 size', read_loop fs.sb fs.disk n.index (last + 1 - first) first start size')

-- The loop of inode_write: `size` bytes are asked for, `bytes` are those still to be written.
-- EINVAL is 22.
unfoldable pub write_failed : (size cur_size : ℕ) → ℤ → ℤ
write_failed size cur_size e = if size == cur_size then e else signed32 (sub32 size cur_size)

unfoldable pub write_at : Fs → Inode → (zone offset : ℕ) → List ℕ → Option Fs
write_at fs n zone offset chunk =
    let b = get_block fs.sb fs.disk n.index zone in
    if b == 0
    then none
    else some
        (record fs { disk = block_write fs.disk b (copy_in (block_read fs.disk b) offset chunk) })

unfoldable pub grow_for : Fs → Inode → (end : ℕ) → Outcome (ℤ × Inode)
grow_for fs n end = if ltb n.size end then inode_truncate fs n end else result (pos 0, n) fs

unfoldable pub write_loop :
    Fs → Inode → (size : ℕ) → (left zone cur_start : ℕ) → List ℕ → Outcome (ℤ × Inode)
write_loop fs n size zero zone cur_start bytes = result (signed32 size, n) fs
write_loop fs n size (suc left) zone cur_start bytes =
    let offset = calculate_block_offset cur_start in
    let copy = calculate_block_copy_size cur_start (length bytes) in
    elim (grow_for fs n (add32 cur_start copy)) [
      | halted ↦ halted
      | result (negsuc e, n1) fs1 ↦ result (write_failed size (length bytes) (negsuc e), n1) fs1
      | result (pos _, n1) fs1 ↦ elim (write_at fs1 n1 zone offset (take copy bytes)) [
        | none ↦ result (write_failed size (length bytes) (error 22), n1) fs1
        | some fs2 ↦ write_loop fs2 n1 size left (zone + 1) (add32 cur_start copy) (drop copy bytes)
      ]
    ]

unfoldable pub inode_write : Fs → Inode → (start : ℕ) → List ℕ → Outcome (ℤ × Inode)
inode_write fs n start bytes =
    let size = length bytes in
    let first = block_index (start / block_size) in
    let last = block_index (add32 start size / block_size) in
    if ltb last first
    then result (negsuc 0, n) fs
    else write_loop fs n size (last + 1 - first) first start bytes
