-- ===== src/Disk/Cache.antt =====
-- The block cache: src/kernel/block.c, on the card of src/kernel/mmc.c.
-- Lists of blocks are List (their rings are Links); a block's buffer is a page of the memory.

pub mod Coherent
pub mod Refines
use mathlib.Core.Option
use cyanurus.Base.{
  ℕ, zero, suc, ◌+◌, ◌*◌, ◌/◌, Option, none, some, List, [], ◌∷◌, ◌==◌, if◌then◌else◌,
}
use cyanurus.Page.{page_size, page_address}
use cyanurus.Disk.{Block, block_index, block_size}
use cyanurus.Disk.Card.{mmc_write, copy_bytes, Bytes, mmc_read}

-- struct block, less its links
pub record CachedBlock : Type 0 where
  pub index : ℕ
  pub page : ℕ
  pub address : ℕ

-- `allocated` counts the pages taken from buddy_alloc so far; none is given back.
pub record Cache : Type 0 where
  pub used_blocks : List CachedBlock
  pub free_blocks : List CachedBlock
  pub allocated : ℕ
  pub memory : Bytes
  pub card : Bytes

abbrev pub blocks_per_page : ℕ
blocks_per_page = page_size / block_size

-- block_init
abbrev pub empty_cache : Bytes → Bytes → Cache
empty_cache memory card = record {
  used_blocks = [];
  free_blocks = [];
  allocated = 0;
  memory = memory;
  card = card;
}

unfoldable pub find_block : ℕ → List CachedBlock → Option CachedBlock
find_block index [] = none
find_block index (b ∷ bs) = if b.index == index then some b else find_block index bs

-- The loop of prepare_blocks, from the block `i` of the page on, `k` blocks in all.
unfoldable pub prepare_loop : ℕ → ℕ → ℕ → List CachedBlock → List CachedBlock
prepare_loop zero i page free = free
prepare_loop (suc k) i page free =
    prepare_loop k (suc i) page
      (record { index = 0; page = page; address = page_address page + i * block_size } ∷ free)

-- The result of a card transfer, which the code does not test.
abbrev pub or_else : Option Bytes → Bytes → Bytes
or_else none d = d
or_else (some b) d = b

-- the bytes that the caller's buffer gets
unfoldable pub copy_out : CachedBlock × Cache → Block × Cache
copy_out (b, s) = ((λ p. s.memory (b.address + p)), s)

-- The buffer is written, then the card from it.
unfoldable pub write_through : ℕ → Block → CachedBlock × Cache → Cache
write_through index v (b, s) =
    let m = copy_bytes s.memory b.address v 0 block_size in
    let c = or_else (mmc_write s.card (index * block_size) block_size m b.address) s.card in
    record s { memory = m; card = c }

-- What buddy_alloc(PAGE_SIZE) returns the n-th time.
module _ (page_of : ℕ → ℕ) where
  unfoldable pub prepare_blocks : Cache → Cache
  prepare_blocks s = record s {
    allocated = suc s.allocated;
    free_blocks = prepare_loop blocks_per_page 0 (page_of s.allocated) s.free_blocks;
  }

  -- A block off the free list is filled from the card; without one the system halts.
  unfoldable pub load_block : Cache → ℕ → Option (CachedBlock × Cache)
  load_block s index = elim s.free_blocks as (λ _. Option (CachedBlock × Cache)) [
    | [] ↦ none
    | b ∷ rest ↦
        let c : CachedBlock = record b { index = index } in
        let m =
          or_else (mmc_read s.card (index * block_size) block_size s.memory c.address) s.memory in
        some (c, record s { used_blocks = c ∷ s.used_blocks; free_blocks = rest; memory = m })
  ]

  unfoldable pub get_block : Cache → ℕ → Option (CachedBlock × Cache)
  get_block s index = elim (find_block index s.used_blocks) as (λ _. Option (CachedBlock × Cache)) [
    | some b ↦ some (b, s)
    | none ↦ elim s.free_blocks as (λ _. Option (CachedBlock × Cache)) [
      | [] ↦ load_block (prepare_blocks s) index
      | b ∷ rest ↦ load_block s index
    ]
  ]

  abbrev pub block_read : Cache → ℕ → Option (Block × Cache)
  block_read s n = Option.map copy_out (get_block s (block_index n))

  abbrev pub block_write : Cache → ℕ → Block → Option Cache
  block_write s n v = Option.map (write_through (block_index n) v) (get_block s (block_index n))
