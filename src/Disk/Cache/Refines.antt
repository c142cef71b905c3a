-- ===== src/Disk/Cache/Refines.antt =====
-- The block cache implements the device of Disk: block_read and block_write of src/kernel/block.c.
use mathlib.Core.Option
use mathlib.Core.Path.{subst}
use cyanurus.Base.{
  ℕ, suc, ◌+◌, ◌*◌, ◌<◌, ◌≤◌, ◌≡◌, ◌≢◌, ◌⊎◌, inl, inr, refl, sym, ap, ◌∙◌, Bool-cases, none, some,
  Option-cases, List, [], ◌∷◌, ◌==◌, arith, All_mono, All_zip, update,
}
use cyanurus.Page.{page_address}
use cyanurus.Disk
use cyanurus.Disk.{block_size, Block, Disk, block_index}
use cyanurus.Disk.Card.{
  Bytes, copy_bytes, copy_bytes_self, copy_bytes_apart, mmc_read-copy_bytes, mmc_write-copy_bytes,
}
use cyanurus.Disk.Cache.{
  CachedBlock, Cache, find_block, prepare_loop, prepare_blocks, load_block, get_block, copy_out,
  write_through, block_read, block_write,
}
use cyanurus.Disk.Cache.Coherent.{
  IsCache, Placed, Holds, page_apart, block_apart, find_block-All, find_block-none, find_block-only,
  Fresh-pages, Fresh-All, SameOrApart,
}

-- The device that the card is: the specification of Disk.
abbrev pub device : Cache → Disk
device s i p = s.card (i * block_size + p)

module _ (page_of : ℕ → ℕ) where
  abbrev cache : List CachedBlock → ℕ → Bytes → Bytes → Cache
  cache used n memory card = record {
    used_blocks = used;
    free_blocks = [];
    allocated = n;
    memory = memory;
    card = card;
  }

  -- the block that a miss loads
  abbrev fresh_block : ℕ → ℕ → CachedBlock
  fresh_block n i = record {
    index = i;
    page = page_of n;
    address = page_address (page_of n) + 0 * block_size;
  }

  abbrev loaded : List CachedBlock → ℕ → Bytes → Bytes → ℕ → Cache
  loaded used n memory card i =
      let b = fresh_block n i in
      cache (b ∷ used) (suc n) (copy_bytes memory b.address card (i * block_size) block_size) card

  get_block-cache :
      (used : List CachedBlock) (n : ℕ) (memory card : Bytes) (i : ℕ)
      → find_block i used ≡ none
      → get_block page_of (cache used n memory card) i
        ≡ some (fresh_block n i, loaded used n memory card i)
  unfolding get_block load_block prepare_blocks prepare_loop find_block copy_bytes
  get_block-cache used n memory card i e =
      rw
        (
          e,
          mmc_read-copy_bytes card (i * block_size) 8 memory
              (page_address (page_of n) + 0 * block_size),
        )
        refl

  later : (n : ℕ) (d : CachedBlock) → Placed page_of n d → Placed page_of (suc n) d
  later n d (a, (k, l, e)) = (a, (k, omega arith, e))

  -- a buffer is not touched by what is copied to another page
  Holds-copy_bytes :
      (n : ℕ) (memory card : Bytes) (q c : ℕ) (src : Bytes) (a : ℕ) (d : CachedBlock)
      → c ≡ page_address q
      → (Placed page_of n d × (q ≢ d.page)) × Holds memory card d
      → Holds (copy_bytes memory c src a block_size) card d
  Holds-copy_bytes n memory card q c src a d g (((w, k), o), h) p l =
      let e : (page_address d.page + p < page_address q)
          ⊎ (page_address q + block_size ≤ page_address d.page + p) =
        page_apart d.page q p (λ x. o (sym x)) l in
      copy_bytes_apart memory c src a block_size (d.address + p) (rw (w, g) e) ∙ h p l

  loaded-IsCache :
      (used : List CachedBlock) (n : ℕ) (memory card : Bytes) (i : ℕ)
      → ((i j : ℕ) → page_of i ≡ page_of j → i ≡ j)
      → IsCache page_of (cache used n memory card)
      → find_block i used ≡ none
      → IsCache page_of (loaded used n memory card i)
  loaded-IsCache used n memory card i inj v e =
      let b = fresh_block n i in
      let f = Fresh-pages page_of n used inj v.placed in
      let z =
        All_zip (Placed page_of n) (λ d. page_of n ≢ d.page) used v.placed
          (Fresh-All (page_of n) used f) in
      let y =
        All_zip (λ d. Placed page_of n d × (page_of n ≢ d.page)) (Holds memory card) used z
          v.coherent in
      let m = copy_bytes memory b.address card (i * block_size) block_size in
      record {
        spare = refl;
        placed = (
          (omega arith, (n, omega arith, refl)),
          All_mono (Placed page_of n) (Placed page_of (suc n)) used (later n) v.placed,
        );
        apart = (f, v.apart);
        unique = (find_block-none i used e, v.unique);
        coherent = (
          (λ p l. copy_bytes_self memory b.address card (i * block_size) block_size p l),
          All_mono (λ d. (Placed page_of n d × (page_of n ≢ d.page)) × Holds memory card d)
              (Holds m card) used
              (λ d.
                Holds-copy_bytes n memory card (page_of n) b.address card (i * block_size) d
                  (omega arith))
              y,
        );
      }

  -- what get_block gives: the block of index `i`, in a cache that is well formed over the same card
  abbrev pub Got : Cache → ℕ → CachedBlock × Cache → Type 0
  Got s i (b, t) = IsCache page_of t × (find_block i t.used_blocks ≡ some b) × (t.card ≡ s.card)

  pub get_block-IsCache :
      (s : Cache) (i : ℕ)
      → ((i j : ℕ) → page_of i ≡ page_of j → i ≡ j)
      → IsCache page_of s
      → (r : CachedBlock × Cache) × (get_block page_of s i ≡ some r) × Got s i r
  unfolding get_block find_block
  get_block-IsCache s i inj v = elim (Option-cases (find_block i s.used_blocks)) [
    | inl e ↦
        let q : s ≡ cache s.used_blocks s.allocated s.memory s.card =
          ap (λ f. record s { free_blocks = f }) v.spare in
        let w = subst (λ t. IsCache page_of t) q v in
        (
          (fresh_block s.allocated i, loaded s.used_blocks s.allocated s.memory s.card i),
          ap (λ t. get_block page_of t i) q
              ∙ get_block-cache s.used_blocks s.allocated s.memory s.card i e,
          (loaded-IsCache s.used_blocks s.allocated s.memory s.card i inj w e, ground arith, refl),
        )
    | inr (b, e) ↦ ((b, s), rw (get_block, e) refl, (v, e, refl))
  ]

  -- Reading through the cache succeeds and gives the bytes that the device holds in that block,
  -- and leaves the device as it was and the cache well formed.
  pub block_read_refines :
      (s : Cache) (n p : ℕ)
      → ((i j : ℕ) → page_of i ≡ page_of j → i ≡ j)
      → IsCache page_of s
      → p < block_size
      → (b : Block) × (t : Cache) × (block_read page_of s n ≡ some (b, t))
        × (b p ≡ Disk.block_read (device s) n p)
        × (device t ≡ device s)
        × IsCache page_of t
  unfolding copy_out
  block_read_refines s n p inj v l =
      let ((b, t), e, (w, f, c)) = get_block-IsCache s (block_index n) inj v in
      let r = find_block-All (Holds t.memory t.card) (block_index n) b t.used_blocks f w.coherent in
      let h : t.memory (b.address + p) ≡ t.card (b.index * block_size + p) = r.0 p l in
      (
        (λ q. t.memory (b.address + q)),
        t,
        ap (Option.map copy_out) e,
        h ∙ rw (r.1, c) refl,
        ap (λ m i q. m (i * block_size + q)) c,
        w,
      )

  -- one block's coherence across a write of block `i` through the buffer `b`
  Holds-write :
      (memory card : Bytes) (v : Block) (n i : ℕ) (b d : CachedBlock)
      → Placed page_of n b
      → (SameOrApart i b.page d × Placed page_of n d) × Holds memory card d
      → Holds
          (copy_bytes memory b.address v 0 block_size)
          (copy_bytes card
            (i * block_size)
            (copy_bytes memory b.address v 0 block_size)
            b.address
            block_size)
          d
  Holds-write memory card v n i b d u ((o, w), h) p l =
      let m = copy_bytes memory b.address v 0 block_size in
      let a : b.address ≡ page_address b.page = u.0 in
      let c : d.address ≡ page_address d.page = w.0 in
      elim o [
        | inl (x, y) ↦
            let e : d.address ≡ b.address = c ∙ ap page_address y ∙ sym a in
            rw (x, e) (sym (copy_bytes_self card (i * block_size) m b.address block_size p l))
        | inr (x, y) ↦
            let q : (d.address + p < b.address) ⊎ (b.address + block_size ≤ d.address + p) =
              rw (c, a) (page_apart d.page b.page p y l) in
            copy_bytes_apart memory b.address v 0 block_size (d.address + p) q
            ∙ h p l
            ∙ sym (
                copy_bytes_apart card (i * block_size) m b.address block_size
                  (d.index * block_size + p) (block_apart d.index i p x l))
      ]

  write_through_lem :
      (t : Cache) (i : ℕ) (v : Block) (b : CachedBlock)
      → write_through i v (b, t) ≡ record t {
        memory = copy_bytes t.memory b.address v 0 block_size;
        card =
            copy_bytes t.card
              (i * block_size)
              (copy_bytes t.memory b.address v 0 block_size)
              b.address
              block_size;
      }
  unfolding write_through
  write_through_lem t i v b =
      rw
        (mmc_write-copy_bytes t.card (i * block_size) 8
          (copy_bytes t.memory b.address v 0 block_size) b.address)
        refl

  device-write :
      (d : Disk) (card m : Bytes) (i a : ℕ) (v : Block) (j p : ℕ)
      → p < block_size
      → card (j * block_size + p) ≡ d j p
      → m (a + p) ≡ v p
      → copy_bytes card (i * block_size) m a block_size (j * block_size + p) ≡ update d i v j p
  device-write d card m i a v j p l e h = elim (Bool-cases (i == j)) [
    | inl t ↦
        let x : i ≡ j = ground arith in
        rw (t, x) (copy_bytes_self card (j * block_size) m a block_size p l ∙ h)
    | inr f ↦ rw f (
        copy_bytes_apart card (i * block_size) m a block_size (j * block_size + p)
          (block_apart j i p (ground arith) l)
        ∙ e)
  ]

  -- Writing through the cache succeeds, leaves the cache well formed, and changes the device as
  -- its specification says, in every byte of every block.
  pub block_write_refines :
      (s : Cache) (n : ℕ) (v : Block) (j p : ℕ)
      → ((i j : ℕ) → page_of i ≡ page_of j → i ≡ j)
      → IsCache page_of s
      → p < block_size
      → (t : Cache) × (block_write page_of s n v ≡ some t)
        × (device t j p ≡ Disk.block_write (device s) n v j p)
        × IsCache page_of t
  unfolding write_through
  block_write_refines s n v j p inj k l =
      let ((b, t), e, (w, f, c)) = get_block-IsCache s (block_index n) inj k in
      let i = block_index n in
      let u = (find_block-All (Placed page_of t.allocated) i b t.used_blocks f w.placed).0 in
      let m = copy_bytes t.memory b.address v 0 block_size in
      let only = find_block-only i b t.used_blocks f w.unique w.apart in
      let z =
        All_zip (SameOrApart i b.page) (Placed page_of t.allocated) t.used_blocks only w.placed in
      let y =
        All_zip (λ d. SameOrApart i b.page d × Placed page_of t.allocated d) (Holds t.memory t.card)
          t.used_blocks z w.coherent in
      let r : Cache = record t {
        memory = m;
        card = copy_bytes t.card (i * block_size) m b.address block_size;
      } in
      (
        r,
        ap (Option.map (write_through i v)) e ∙ ap some (write_through_lem t i v b),
        device-write (device s) t.card m i b.address v j p l (ap (λ g. g (j * block_size + p)) c)
            (copy_bytes_self t.memory b.address v 0 block_size p l ∙ ap v (omega arith)),
        record {
          spare = w.spare;
          placed = w.placed;
          apart = w.apart;
          unique = w.unique;
          coherent =
              All_mono
                (λ d.
                  (SameOrApart i b.page d × Placed page_of t.allocated d) × Holds t.memory t.card d)
                (Holds m r.card) t.used_blocks
                (λ d. Holds-write t.memory t.card v t.allocated i b d u) y;
        },
      )
