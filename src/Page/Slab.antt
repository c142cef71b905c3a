-- ===== src/Page/Slab.antt =====
-- The allocator of objects: src/kernel/slab.c.
-- A slab is named by the address of its header; a list of slabs is the List that `next` links.
pub mod Address
pub mod Chain
pub mod Create
pub mod Objects
use mathlib.Core.Option
use cyanurus.Base.{
  ℕ, zero, suc, ◌+◌, ◌-◌, ◌*◌, ◌/◌, Bool, Option, none, some, List, [], ◌∷◌, ◌==◌, leb, add32,
  sub32, if◌then◌else◌, update,
}
use cyanurus.Page.{page_size, page_address}
use cyanurus.Page.Buddy.{Pages, page_max_depth, pages_of}
use cyanurus.Page.Find.{page_find_by_address, page_find_head}

-- SLAB_FREE_END, SLAB_HEADER_SIZE
abbrev pub slab_free_end : ℕ
slab_free_end = 0xffff_ffff

abbrev pub slab_header_size : ℕ
slab_header_size = 16

-- The numbers behind a header, and the position in them that `header->free` points to.
pub record Slab : Type 0 where
  pub free_list : ℕ → ℕ
  pub free : ℕ

pub record SlabCache : Type 0 where
  pub slab_size : ℕ
  pub object_size : ℕ
  pub slabs_full : List ℕ
  pub slabs_partial : List ℕ
  pub slabs : ℕ → Slab

abbrev pub slab_max_object_num : SlabCache → ℕ
slab_max_object_num cache = (cache.slab_size - slab_header_size) / (cache.object_size + 4)

-- the loop of slab_new: `k` numbers from position `i` on
unfoldable pub link_loop : ℕ → ℕ → (ℕ → ℕ) → ℕ → ℕ
link_loop zero i numbers = numbers
link_loop (suc k) i numbers = link_loop k (suc i) (update numbers i (suc i))

-- A slab of `n` objects; `numbers` is what the memory behind the header held before.
unfoldable pub slab_new : ℕ → (ℕ → ℕ) → Slab
slab_new n numbers = record { free_list = update (link_loop n 0 numbers) n slab_free_end; free = 0 }

-- The first free object is taken; the test is whether it was the last one.
unfoldable pub take_object : Slab → ℕ × Slab × Bool
take_object header =
    let index = header.free in
    let next_index = header.free_list index in
    let numbers = update header.free_list index slab_free_end in
    (index, record { free_list = numbers; free = next_index }, numbers next_index == slab_free_end)

-- The head of the partial slabs gives an object; `rest` are the others.
unfoldable pub alloc_from : SlabCache → ℕ → Slab → List ℕ → SlabCache × ℕ × ℕ
alloc_from cache h header rest =
    let (index, header1, last) = take_object header in
    let slabs = update cache.slabs h header1 in
    (
      (if last
          then record cache {
            slabs = slabs;
            slabs_partial = rest;
            slabs_full = h ∷ cache.slabs_full;
          }
          else record cache { slabs = slabs; slabs_partial = h ∷ rest }),
      h,
      index,
    )

-- the partial slabs are `partial`; without one a new slab is made at `fresh`
abbrev pub alloc_first : SlabCache → ℕ → (ℕ → ℕ) → List ℕ → SlabCache × ℕ × ℕ
alloc_first cache fresh numbers [] =
    alloc_from cache fresh (slab_new (slab_max_object_num cache) numbers) []
alloc_first cache fresh numbers (h ∷ rest) = alloc_from cache h (cache.slabs h) rest

-- The slab and the number of the object; `fresh` is the address of a new slab, if one is needed.
abbrev pub slab_cache_alloc : SlabCache → ℕ → (ℕ → ℕ) → SlabCache × ℕ × ℕ
slab_cache_alloc cache fresh numbers = alloc_first cache fresh numbers cache.slabs_partial

-- The object goes in front of the free ones; the test is whether there was none.
unfoldable pub give_object : Slab → ℕ → Slab × Bool
give_object header index =
    let next_index = header.free in
    let numbers = update header.free_list index next_index in
    (record { free_list = numbers; free = index }, numbers next_index == slab_free_end)

-- the search of the full slabs: the list without `h`
unfoldable pub remove_slab : ℕ → List ℕ → Option (List ℕ)
remove_slab h [] = none
remove_slab h (q ∷ qs) = if q == h then some qs else Option.map (λ l. q ∷ l) (remove_slab h qs)

-- a full slab becomes a partial one; none is a stop of the machine
unfoldable pub move_slab : SlabCache → ℕ → Option (List ℕ) → Option SlabCache
move_slab cache h none = none
move_slab cache h (some full) =
    some (record cache { slabs_full = full; slabs_partial = h ∷ cache.slabs_partial })

-- slab_cache_free, from the slab `h` and the number of the object on
unfoldable pub give_back : SlabCache → ℕ → ℕ → Option SlabCache
give_back cache h index =
    let (header, was_full) = give_object (cache.slabs h) index in
    let cache1 = record cache { slabs = update cache.slabs h header } in
    if was_full then move_slab cache1 h (remove_slab h cache.slabs_full) else some cache1

-- MAX_SLAB_NAME
abbrev pub max_slab_name : ℕ
max_slab_name = 32

-- what slab_cache_init stores in `slab_size_limits[order]`
abbrev pub slab_size_limit : ℕ → ℕ
slab_size_limit order = page_size * pages_of order / 8 - (slab_header_size / 8 + 1) - 4

-- the loop of slab_cache_create; none leaves the slab size at zero
unfoldable pub size_loop : ℕ → ℕ → ℕ → Option ℕ
size_loop zero i size = none
size_loop (suc c) i size =
    let rest = size_loop c (suc i) size in
    if leb size (slab_size_limit i) then some (page_size * pages_of i) else rest

-- The size in words of four bytes, as an unsigned 32-bit sum.
abbrev pub object_words : ℕ → ℕ
object_words size = add32 size 3 / 4

-- A cache for objects of `size` bytes under a name of that length; none is NULL. What the memory at
-- an address holds before a slab is made there is `memory`.
unfoldable pub slab_cache_create : (ℕ → Slab) → ℕ → ℕ → Option SlabCache
slab_cache_create memory name_length size =
    if size == 0
    then none
    else if leb max_slab_name name_length
    then none
    else Option.map
        (λ s. record {
          slab_size = s;
          object_size = object_words size * 4;
          slabs_full = [];
          slabs_partial = [];
          slabs = memory;
        })
        (size_loop page_max_depth 0 (object_words size * 4))

-- The address of the object `index` of the slab at `h`; `header->object` is that of number 0.
abbrev pub object_address : SlabCache → ℕ → ℕ → ℕ
object_address cache h index =
    h + slab_header_size + 4 * slab_max_object_num cache + cache.object_size * index

-- What slab_cache_free makes of the address of an object: the address of the slab and the number of
-- the object.
unfoldable pub slab_find : Pages → SlabCache → ℕ → Option (ℕ × ℕ)
slab_find s cache object = elim (page_find_by_address object) as (λ _. Option (ℕ × ℕ)) [
  | none ↦ none
  | some q ↦
      Option.map
        (λ p. (
          page_address p,
          sub32 object (object_address cache (page_address p) 0) / cache.object_size,
        ))
        (page_find_head s q)
]

-- slab_cache_free of the address of an object
unfoldable pub slab_cache_free : Pages → SlabCache → ℕ → Option SlabCache
slab_cache_free s cache object = elim (slab_find s cache object) as (λ _. Option SlabCache) [
  | none ↦ none
  | some (h, index) ↦ give_back cache h index
]
