-- ===== src/Tests/Slabs.antt =====
-- A cache for objects of ten bytes, and one with a slab of three large objects.
use cyanurus.Base.{ℕ, suc, ◌≡◌, refl, sym, ap, ◌*◌, some, List, [], ◌∷◌, arith, update, inl}
use cyanurus.Page.Slab.{
  Slab, SlabCache, slab_cache_create, size_loop, slab_cache_alloc, slab_cache_free, object_address,
}
use cyanurus.Page.Slab.Chain.{IsSlab}
use cyanurus.Page.Slab.Objects.{IsSlabCache, KeepsSlabs, Allocated, slab_cache_alloc-Allocated}
use cyanurus.Page.Slab.Address.{slab_cache_free-IsSlabCache}
use cyanurus.Page.{page_address, page_size}
use cyanurus.Page.Buddy.{pages_of}
use cyanurus.Tests.Pages.{one, one-IsHeap, one_used, one_order}
use cyanurus.Page.Slab.Create.{Created, slab_cache_create-Created}
use mathlib.Core.Path.{subst}

abbrev memory : ℕ → Slab
memory h = record { free_list = λ i. 7; free = 0 }

slab_cache_create-Created_example : Created 5 10 (slab_cache_create memory 5 10)
slab_cache_create-Created_example = slab_cache_create-Created memory 5 10 (omega arith)

abbrev words : SlabCache
words = record {
  slab_size = 4096;
  object_size = 12;
  slabs_full = [];
  slabs_partial = [];
  slabs = memory;
}

words_created : slab_cache_create memory 5 10 ≡ some words
unfolding slab_cache_create size_loop
words_created = refl

words-IsSlabCache : IsSlabCache words (λ h. [])
words-IsSlabCache = (subst (Created 5 10) words_created slab_cache_create-Created_example).0

slab_cache_alloc-Allocated_example :
    Allocated words (λ h. []) 0x6500_0000 (slab_cache_alloc words 0x6500_0000 (λ i. 7))
slab_cache_alloc-Allocated_example =
    slab_cache_alloc-Allocated words (λ h. []) 0x6500_0000 (λ i. 7) words-IsSlabCache tt

-- three objects, of which the first is in use
abbrev partly_used : Slab
partly_used = record {
  free_list = update (update (λ i. suc i) 0 0xffff_ffff) 3 0xffff_ffff;
  free = 1;
}

abbrev stocked : SlabCache
stocked = record words {
  slab_size = 4096;
  object_size = 1356;
  slabs_partial = page_address 1023 ∷ [];
  slabs = λ h. partly_used;
}

abbrev available : ℕ → List ℕ
available h = 1 ∷ 2 ∷ []

partly_used-IsSlab : IsSlab 3 partly_used (1 ∷ 2 ∷ [])
partly_used-IsSlab = record {
  chain = (refl, (refl, refl));
  below = (omega arith, (omega arith, tt));
  once = (((λ e. omega arith), tt), (tt, tt));
  stop = refl;
  few = omega arith;
}

stocked-IsSlabCache : IsSlabCache stocked available
stocked-IsSlabCache = record {
  some_objects = (omega arith, omega arith);
  partial = ((partly_used-IsSlab, refl), tt);
  full = tt;
  partial_once = (tt, tt);
  full_once = tt;
  apart = (tt, tt);
}

slab_cache_free-IsSlabCache_example :
    (t : SlabCache) × (slab_cache_free one.0 stocked (object_address stocked (page_address 1023) 0)
      ≡ some t)
    × IsSlabCache t (update available (page_address 1023) (0 ∷ 1 ∷ 2 ∷ []))
    × KeepsSlabs stocked (page_address 1023) t
slab_cache_free-IsSlabCache_example =
    slab_cache_free-IsSlabCache one.0 stocked available 1023 0 one-IsHeap one_used
      (ap (λ k. page_size * pages_of k) (sym one_order)) (omega arith) stocked-IsSlabCache
      (inl (inl refl)) (omega arith) ((λ e. omega arith), ((λ e. omega arith), tt))
