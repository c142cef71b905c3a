-- ===== src/Inode/Table.antt =====
-- The inode table: what write_inode stores is what read_inode loads, and no other inode changes.
use cyanurus.Base.{
  ℕ, zero, suc, ◌+◌, ◌-◌, ◌*◌, ◌/◌, ◌≤◌, ◌<◌, ◌≡◌, ◌≢◌, refl, ap, ◌∙◌, ◌⊎◌, inl, arith, update_self,
  update_ne, u32,
}
use native.Mathlib.Decide.{dec_lt, ℕ_discrete}
use cyanurus.Disk.{
  Block, Disk, block_index, block_read, block_write, load16, load32, store16, store32,
}
use cyanurus.Disk.Words.{load32-store32_self, store32_outside, load32_same, load16_same}
use cyanurus.Inode.{
  Superblock, DiskInode, inode_zone_index, decode, encode, encode_head, store_zones, inode_block,
  inode_position, read_inode, write_inode,
}

-- The fields fit the widths of `struct minix2_inode`.
pub record IsDiskInode (n : DiskInode) : Type 0 where
  pub mode_fits : n.mode < 0x1_0000
  pub nlinks_fits : n.nlinks < 0x1_0000
  pub uid_fits : n.uid < 0x1_0000
  pub gid_fits : n.gid < 0x1_0000
  pub size_fits : n.size < u32
  pub atime_fits : n.atime < u32
  pub mtime_fits : n.mtime < u32
  pub ctime_fits : n.ctime < u32
  pub zone_fits : (k : ℕ) → k < 10 → n.zone k < u32

-- Two inodes agree on every field; only ten zones count.
pub record SameInode (n m : DiskInode) : Type 0 where
  pub mode : n.mode ≡ m.mode
  pub nlinks : n.nlinks ≡ m.nlinks
  pub uid : n.uid ≡ m.uid
  pub gid : n.gid ≡ m.gid
  pub size : n.size ≡ m.size
  pub atime : n.atime ≡ m.atime
  pub mtime : n.mtime ≡ m.mtime
  pub ctime : n.ctime ≡ m.ctime
  pub zone : (k : ℕ) → k < 10 → n.zone k ≡ m.zone k

store_zones_outside :
    (b : Block) (p : ℕ) (zone : ℕ → ℕ) (n a : ℕ)
    → (a < p) ⊎ (p + 4 * n ≤ a)
    → store_zones b p zone n a ≡ b a
unfolding store_zones
store_zones_outside b p zone zero a h = refl
store_zones_outside b p zone (suc n) a h =
    store32_outside (store_zones b p zone n) (p + 4 * n) (zone n) a (omega arith)
    ∙ store_zones_outside b p zone n a (omega arith)

load32-store_zones :
    (b : Block) (p : ℕ) (zone : ℕ → ℕ) (n k : ℕ)
    → zone k < u32
    → k < n
    → load32 (store_zones b p zone n) (p + 4 * k) ≡ zone k
unfolding store_zones
load32-store_zones b p zone zero k fits l = absurd (omega arith)
load32-store_zones b p zone (suc n) k fits l = elim (dec_lt k n) [
  | yes below ↦
      load32_same _ (store_zones b p zone n) (p + 4 * k)
        (λ a h e. store32_outside (store_zones b p zone n) (p + 4 * n) (zone n) a (omega arith))
      ∙ load32-store_zones b p zone n k fits below
  | no last ↦
      let e : k ≡ n = omega arith in
      rw e (load32-store32_self (store_zones b p zone n) (p + 4 * n) (zone n) (rw e at fits))
]

head_outside :
    (b : Block) (p : ℕ) (n : DiskInode) (a : ℕ) → (a < p) ⊎ (p + 24 ≤ a) → encode_head b p n a ≡ b a
unfolding encode_head store16 store32
head_outside b p n a h = ground arith

encode_outside :
    (b : Block) (p : ℕ) (n : DiskInode) (a : ℕ) → (a < p) ⊎ (p + 64 ≤ a) → encode b p n a ≡ b a
unfolding encode
encode_outside b p n a h =
    store_zones_outside (encode_head b p n) (p + 24) n.zone 10 a (omega arith)
    ∙ head_outside b p n a (omega arith)

-- A later store elsewhere does not change the word at `q`.
past : (b : Block) (p v q : ℕ) → (q + 4 ≤ p) ⊎ (p + 4 ≤ q) → load32 (store32 b p v) q ≡ load32 b q
past b p v q h = load32_same (store32 b p v) b q (λ a l e. store32_outside b p v a (omega arith))

-- The words of the head, each through the later stores.
module _ (b : Block) (p : ℕ) (n : DiskInode) (v : IsDiskInode n) where
  head_words :
      (load16 (encode_head b p n) p ≡ n.mode)
      × (load16 (encode_head b p n) (p + 2) ≡ n.nlinks)
      × (load16 (encode_head b p n) (p + 4) ≡ n.uid)
      × (load16 (encode_head b p n) (p + 6) ≡ n.gid)
  unfolding encode_head store16 store32 load16
  head_words = (
    ground (arith, v.mode_fits),
    ground (arith, v.nlinks_fits),
    ground (arith, v.uid_fits),
    ground (arith, v.gid_fits),
  )

  head_longs :
      (load32 (encode_head b p n) (p + 8) ≡ n.size)
      × (load32 (encode_head b p n) (p + 12) ≡ n.atime)
      × (load32 (encode_head b p n) (p + 16) ≡ n.mtime)
      × (load32 (encode_head b p n) (p + 20) ≡ n.ctime)
  unfolding encode_head
  head_longs = (
    past _ (p + 20) n.ctime (p + 8) (omega arith)
        ∙ past _ (p + 16) n.mtime (p + 8) (omega arith)
        ∙ past _ (p + 12) n.atime (p + 8) (omega arith)
        ∙ load32-store32_self _ (p + 8) n.size v.size_fits,
    past _ (p + 20) n.ctime (p + 12) (omega arith)
        ∙ past _ (p + 16) n.mtime (p + 12) (omega arith)
        ∙ load32-store32_self _ (p + 12) n.atime v.atime_fits,
    past _ (p + 20) n.ctime (p + 16) (omega arith)
        ∙ load32-store32_self _ (p + 16) n.mtime v.mtime_fits,
    load32-store32_self _ (p + 20) n.ctime v.ctime_fits,
  )

  through : (a : ℕ) → a < p + 24 → encode b p n a ≡ encode_head b p n a
  unfolding encode
  through a h = store_zones_outside (encode_head b p n) (p + 24) n.zone 10 a (inl h)

  short : (q : ℕ) → q + 2 ≤ p + 24 → load16 (encode b p n) q ≡ load16 (encode_head b p n) q
  short q h = load16_same _ _ q (λ a l e. through a (omega arith))

  long : (q : ℕ) → q + 4 ≤ p + 24 → load32 (encode b p n) q ≡ load32 (encode_head b p n) q
  long q h = load32_same _ _ q (λ a l e. through a (omega arith))

  decode-encode : SameInode (decode (encode b p n) p) n
  unfolding decode
  decode-encode = record {
    mode = short p (omega arith) ∙ head_words.0;
    nlinks = short (p + 2) (omega arith) ∙ head_words.1;
    uid = short (p + 4) (omega arith) ∙ head_words.2;
    gid = short (p + 6) (omega arith) ∙ head_words.3;
    size = long (p + 8) (omega arith) ∙ head_longs.0;
    atime = long (p + 12) (omega arith) ∙ head_longs.1;
    mtime = long (p + 16) (omega arith) ∙ head_longs.2;
    ctime = long (p + 20) (omega arith) ∙ head_longs.3;
    zone = λ k h.
        unfold encode in
        load32-store_zones (encode_head b p n) (p + 24) n.zone 10 k (v.zone_fits k h) h;
  }

-- An inode elsewhere in the block reads as before.
decode_same :
    (b c : Block) (p : ℕ)
    → ((a : ℕ) → p ≤ a → a < p + 64 → c a ≡ b a)
    → SameInode (decode c p) (decode b p)
unfolding decode
decode_same b c p h = record {
  mode = load16_same c b p (λ a l e. h a l (omega arith));
  nlinks = load16_same c b (p + 2) (λ a l e. h a (omega arith) (omega arith));
  uid = load16_same c b (p + 4) (λ a l e. h a (omega arith) (omega arith));
  gid = load16_same c b (p + 6) (λ a l e. h a (omega arith) (omega arith));
  size = load32_same c b (p + 8) (λ a l e. h a (omega arith) (omega arith));
  atime = load32_same c b (p + 12) (λ a l e. h a (omega arith) (omega arith));
  mtime = load32_same c b (p + 16) (λ a l e. h a (omega arith) (omega arith));
  ctime = load32_same c b (p + 20) (λ a l e. h a (omega arith) (omega arith));
  zone = λ k kl. load32_same c b (p + 24 + 4 * k) (λ a l e. h a (omega arith) (omega arith));
}

-- The numbers of the inode table: from 1 on, with the table inside the 2 ^ 16 blocks.
abbrev pub InTable : Superblock → ℕ → Type 0
InTable sb i = (0 < i) × (i < u32) × (inode_zone_index sb + (i - 1) / 64 < 0x1_0000)

-- read_inode gives back what write_inode stored under the same number, field by field.
pub read_inode-write_inode :
    (sb : Superblock) (d : Disk) (i : ℕ) (n : DiskInode)
    → IsDiskInode n
    → SameInode (read_inode sb (write_inode sb d i n) i) n
unfolding read_inode write_inode
read_inode-write_inode sb d i n v =
    rw
      (update_self d (block_index (inode_block sb i))
        (encode (block_read d (inode_block sb i)) (inode_position i) n))
      (decode-encode (block_read d (inode_block sb i)) (inode_position i) n v)

-- write_inode leaves every other inode of the table as it was.
pub read_inode-write_inode_ne :
    (sb : Superblock) (d : Disk) (i j : ℕ) (n : DiskInode)
    → InTable sb i
    → InTable sb j
    → i ≢ j
    → SameInode (read_inode sb (write_inode sb d i n) j) (read_inode sb d j)
unfolding read_inode write_inode inode_block inode_position
read_inode-write_inode_ne sb d i j n hi hj ne = decode_same _ _ _ same
  where
    b : ℕ
    b = inode_block sb i

    same :
        (a : ℕ)
        → inode_position j ≤ a
        → a < inode_position j + 64
        → block_read
            (block_write d b (encode (block_read d b) (inode_position i) n))
            (inode_block sb j)
            a
          ≡ block_read d (inode_block sb j) a
    same a l e =
        elim (ℕ_discrete (block_index (inode_block sb i)) (block_index (inode_block sb j))) [
          | yes one ↦
              rw
                (
                  ← one,
                  update_self d (block_index (inode_block sb i))
                      (encode (block_read d (inode_block sb i)) (inode_position i) n),
                )
                (encode_outside _ (inode_position i) n a (omega arith))
          | no two ↦
              ap (λ (c : Block). c a)
                (update_ne d (block_index (inode_block sb i)) (block_index (inode_block sb j))
                  (encode (block_read d (inode_block sb i)) (inode_position i) n) two)
        ]
