-- ===== src/Page/Slab/Address.antt =====
-- From the address of an object back to its slab: the first lines of slab_cache_free of
-- src/kernel/slab.c, over the pages of src/kernel/page.c.
use native.Mathlib.Nat.{
  div-mul-le_self, mul-add, mul-suc, mul_comm, mul-le-mul_left, mul-div_cancel_left,
}
use cyanurus.Base.{
  ℕ, suc, ◌+◌, ◌-◌, ◌*◌, ◌/◌, ◌%◌, ◌<◌, ◌≤◌, ◌≡◌, ap, true, some, inr, List, ◌∷◌, update, Fresh,
  arith, u32, sub32,
}
use cyanurus.Page.{page_size, page_address}
use cyanurus.Page.Buddy.{Pages, pages_of}
use cyanurus.Page.Buddy.Heap.{IsHeap}
use cyanurus.Page.Find.{
  page_find_by_address, page_find_head, page_find_by_address-page_address, page_find_head-block,
}
use cyanurus.Page.Slab.{
  slab_header_size, SlabCache, slab_max_object_num, object_address, slab_find, slab_cache_free,
}
use cyanurus.Page.Slab.Objects.{HasSlab, KeepsSlabs, IsSlabCache, give_back-IsSlabCache}

-- the objects of a slab with their numbers end within it
room :
    (n size slab_size i : ℕ)
    → n * (size + 4) ≤ slab_size - slab_header_size
    → i < n
    → slab_header_size + 4 * n + (size * i + size) ≤ slab_size
room n size slab_size i x l =
    let y : n * (size + 4) ≡ n * size + n * 4 = mul-add n size 4 in
    let z : n * size ≡ size * n = mul_comm n size in
    let u : size * suc i ≤ size * n = mul-le-mul_left size l in
    let w = mul-suc size i in omega arith

-- an object ends within its slab
object_end :
    (c : SlabCache) (i : ℕ)
    → i < slab_max_object_num c
    → slab_header_size + 4 * slab_max_object_num c + (c.object_size * i + c.object_size)
      ≤ c.slab_size
object_end c i l =
    room (slab_max_object_num c) c.object_size c.slab_size i
      (div-mul-le_self (c.slab_size - slab_header_size) (c.object_size + 4)) l

-- page_find_by_address and page_find_head lead from an address in a block in use to the block
block_of :
    (s : Pages) (p offset : ℕ)
    → IsHeap s
    → s.first_page p ≡ true
    → offset < page_size * pages_of (s.order p)
    → (q : ℕ) × (page_find_by_address (page_address p + offset) ≡ some q)
      × (page_find_head s q ≡ some p)
block_of s p offset v f l =
    let q = p + offset / page_size in
    let y = (v.fits p (inr f)).0 in
    let e : page_address p + offset ≡ page_address q + offset % page_size = omega arith in
    (
      q,
      rw e (page_find_by_address-page_address q (offset % page_size) (omega arith) (omega arith)),
      page_find_head-block s p q v f (omega arith) (omega arith),
    )

sub32_of : (a b x : ℕ) → b ≡ a + x → a < u32 → x < u32 → sub32 b a ≡ x
sub32_of a b x e l h = omega arith

-- From the address of an object, slab_cache_free finds the slab it is in and its number, if the slab
-- is a block in use of the page allocator.
pub slab_find-object_address :
    (s : Pages) (c : SlabCache) (p i : ℕ)
    → IsHeap s
    → s.first_page p ≡ true
    → c.slab_size ≡ page_size * pages_of (s.order p)
    → 0 < c.object_size
    → i < slab_max_object_num c
    → slab_find s c (object_address c (page_address p) i) ≡ some (page_address p, i)
unfolding slab_find
slab_find-object_address s c p i v f e o l =
    let n = slab_max_object_num c in
    let offset = slab_header_size + 4 * n + c.object_size * i in
    let g = object_end c i l in
    let b = block_of s p offset v f (omega arith) in
    let y = (v.fits p (inr f)).0 in
    let k : object_address c (page_address p) i ≡ page_address p + offset = omega arith in
    let first = object_address c (page_address p) 0 in
    let object = object_address c (page_address p) i in
    let d : sub32 object first ≡ c.object_size * i =
      sub32_of first object (c.object_size * i) (omega arith) (omega arith) (omega arith) in
    let z : sub32 object first / c.object_size ≡ i =
      rw d (mul-div_cancel_left i {n = c.object_size} o) in
    rw (slab_find, k, b.1, b.2) (ap (λ x. some (page_address p, x)) z)

-- slab_cache_free of the address of an object `i` that is given out, of a slab of the cache that is
-- a block in use of the page allocator, succeeds, and the object is free afterwards; what is free
-- otherwise does not change, and the cache has the slabs that it had.
pub slab_cache_free-IsSlabCache :
    (s : Pages) (c : SlabCache) (avail : ℕ → List ℕ) (p i : ℕ)
    → IsHeap s
    → s.first_page p ≡ true
    → c.slab_size ≡ page_size * pages_of (s.order p)
    → 0 < c.object_size
    → IsSlabCache c avail
    → HasSlab c (page_address p)
    → i < slab_max_object_num c
    → Fresh i (avail (page_address p))
    → (t : SlabCache) × (slab_cache_free s c (object_address c (page_address p) i) ≡ some t)
      × IsSlabCache t (update avail (page_address p) (i ∷ avail (page_address p)))
      × KeepsSlabs c (page_address p) t
unfolding slab_cache_free
slab_cache_free-IsSlabCache s c avail p i v f e o w m l g =
    let r = give_back-IsSlabCache c avail (page_address p) i w m l g in
    (r.0, rw (slab_cache_free, slab_find-object_address s c p i v f e o l) r.1, r.2, r.3)
