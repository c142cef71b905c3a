-- ===== src/Tests/Inodes.antt =====
-- A small file system in which every byte of the disk is 1.
use cyanurus.Base.{ℕ, min, bit_or, ◌≡◌, ◌≢◌, refl, inr, ◌⊎◌, [], arith, update, pos}
use cyanurus.Bits.{complement}
use cyanurus.Disk.{load32, Disk, block_index, block_read, block_write}
use cyanurus.Inode.{
  Superblock, DiskInode, mark_map, mark_zmap, scan_blocks, scan_bytes, scan_byte, scan_bits,
  read_inode, write_inode,
}
use cyanurus.Inode.Map.{FirstFree, NoneFree, mark_map_first_fit}
use cyanurus.Inode.Table.{IsDiskInode, SameInode, read_inode-write_inode}
use cyanurus.Inode.Zone.{done, set_zone, zone_of, entry, extend_block, shrink_block}
use cyanurus.Inode.Zone.Shrink.{extend_block_trusts_stale}
use cyanurus.Inode.Zone.Double.{zone_of-shrink_block}
use cyanurus.Inode.Data.{Inode, Fs, inode_read}
use cyanurus.Inode.Data.Reading.{file_bytes, inode_read-file_bytes}

abbrev ones : Disk
ones b p = 1

abbrev super : Superblock
super = record { ninodes = 64; imap_blocks = 1; zmap_blocks = 1; firstdatazone = 10; zones = 100 }

abbrev file : (ℕ → ℕ) → ℕ → DiskInode
file zone size = record {
  mode = 0o100644;
  nlinks = 1;
  uid = 0;
  gid = 0;
  size = size;
  atime = 0;
  mtime = 0;
  ctime = 0;
  zone = zone;
}

mark_map_first_fit_example :
    FirstFree ones 2 1 64 (mark_map ones 2 3 64) ⊎ NoneFree ones 2 1 64 (mark_map ones 2 3 64)
mark_map_first_fit_example =
    mark_map_first_fit ones 2 3 64 (λ b p. omega arith) (omega arith) (omega arith)

file-IsDiskInode : IsDiskInode (file (λ k. k) 300)
file-IsDiskInode = record {
  mode_fits = omega arith;
  nlinks_fits = omega arith;
  uid_fits = omega arith;
  gid_fits = omega arith;
  size_fits = omega arith;
  atime_fits = omega arith;
  mtime_fits = omega arith;
  ctime_fits = omega arith;
  zone_fits = λ k h. omega arith;
}

read_inode-write_inode_example :
    SameInode
      (read_inode super (write_inode super ones 3 (file (λ k. k) 300)) 3)
      (file (λ k. k) 300)
read_inode-write_inode_example =
    read_inode-write_inode super ones 3 (file (λ k. k) 300) file-IsDiskInode

zone_of-shrink_block_example :
    let (d', n') = shrink_block super ones (file (λ k. 50) 300) 2000 in zone_of d' n' 2000 ≡ 0
zone_of-shrink_block_example =
    zone_of-shrink_block super ones (file (λ k. 50) 300) 2000 (inr (omega arith))

-- The disk once zone 10, the second of the map, has been taken.
abbrev taken : Disk
taken = block_write ones 3 (update (block_read ones 3) 0 (bit_or 1 2))

takes : mark_zmap super ones ≡ (10, taken)
unfolding mark_zmap mark_map scan_blocks scan_bytes scan_byte scan_bits complement
takes = refl

stale : entry (block_read taken 10) 0 ≢ 0
unfolding load32
stale z = absurd (omega (arith, z))

extend_block_trusts_stale_example :
    (extend_block super ones (file (λ k. 0) 28672) 7
      ≡ done taken (set_zone (file (λ k. 0) 28672) 7 10))
    × (zone_of taken (set_zone (file (λ k. 0) 28672) 7 10) 7
        ≡ block_index (entry (block_read taken 10) 0))
extend_block_trusts_stale_example =
    extend_block_trusts_stale super ones (file (λ k. 0) 28672) refl takes
      (λ z. absurd (omega (arith, z))) stale

abbrev system : Fs
system = record { sb = super; disk = ones; inodes = [] }

abbrev opened : Inode
opened = record { index = 3; mode = 0o100644; nlinks = 1; size = 5000 }

inode_read-file_bytes_example :
    inode_read system opened 300 4000
    ≡ (pos (min 300 1000), file_bytes super ones 3 4000 (min 300 1000))
inode_read-file_bytes_example =
    inode_read-file_bytes system opened 300 4000 (omega arith) (omega arith)
