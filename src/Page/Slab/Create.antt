-- ===== src/Page/Slab/Create.antt =====
-- The caches that slab_cache_create of src/kernel/slab.c makes.
use mathlib.Core.Option
use native.Mathlib.Nat.{div-mul-le_self, div-le_self, le-div_iff_mul-le}
use mathlib.Core.Path.{subst}
use cyanurus.Base.{
  ℕ, zero, suc, ◌+◌, ◌-◌, ◌*◌, ◌/◌, ◌<◌, ◌≤◌, ◌≡◌, ◌⊎◌, refl, Bool-cases, Option, none, some, inl,
  inr, [], ◌==◌, leb, u32, arith,
}
use cyanurus.Page.{page_size}
use cyanurus.Page.Buddy.{page_max_depth, pages_of}
use cyanurus.Page.Buddy.Heap.{pow_pos, pow_suc}
use cyanurus.Page.Slab.{
  slab_free_end, slab_header_size, Slab, SlabCache, slab_max_object_num, max_slab_name,
  slab_size_limit, size_loop, object_words, slab_cache_create,
}
use cyanurus.Page.Slab.Objects.{IsSlabCache}

pages_of_le : (k j : ℕ) → j + k ≡ 10 → pages_of j ≤ 1024
pages_of_le zero j e = let y : j ≡ 10 = omega arith in rw y (omega arith)
pages_of_le (suc k) j e =
    let w = pow_suc j in let y = pages_of_le k (suc j) (omega arith) in omega arith

-- the size that the loop finds: a power of two pages, in which the objects are small
abbrev Size : ℕ → Option ℕ → Type 0
Size size none = slab_size_limit 10 < size
Size size (some s) =
    (order : ℕ) × (order < page_max_depth)
    × (s ≡ page_size * pages_of order)
    × (size ≤ slab_size_limit order)

size_loop-Size :
    (c i size : ℕ)
    → i + c ≡ page_max_depth
    → (i ≡ 0) ⊎ (slab_size_limit (i - 1) < size)
    → Size size (size_loop c i size)
unfolding size_loop
size_loop-Size zero i size n (inl z) = absurd (omega arith)
size_loop-Size zero i size n (inr z) =
    let y : i ≡ 11 = omega arith in subst (λ j. slab_size_limit (j - 1) < size) y z
size_loop-Size (suc c) i size n h = elim (Bool-cases (leb size (slab_size_limit i))) [
  | inl t ↦ rw t (i, omega arith, refl, ground arith)
  | inr f ↦ rw f (
      size_loop-Size c (suc i) size (omega arith)
        (inr (let y : suc i - 1 ≡ i = omega arith in rw y (ground arith))))
]

-- the objects, their numbers and the number at the end are within the slab
abbrev pub InSlab : SlabCache → Type 0
InSlab c = slab_header_size + slab_max_object_num c * (c.object_size + 4) ≤ c.slab_size

at_least_one :
    (c : SlabCache) (order : ℕ)
    → order < page_max_depth
    → c.slab_size ≡ page_size * pages_of order
    → c.object_size ≤ slab_size_limit order
    → ((0 < slab_max_object_num c) × (slab_max_object_num c < slab_free_end)) × InSlab c
at_least_one c order l e g =
    let p = pow_pos order in
    let q = pages_of_le (10 - order) order (omega arith) in
    let a = c.slab_size - slab_header_size in
    let d = c.object_size + 4 in
    let one : 1 * d ≤ a = omega arith in
    let x : 1 ≤ a / d = (le-div_iff_mul-le {k = d} {x = 1} {y = a} (omega arith)).1 one in
    let y = div-mul-le_self a d in
    let z = div-le_self a d in ((omega arith, omega arith), omega arith)

-- the answer for a name of that length: NULL, or a cache without slabs whose objects are as large
-- as asked for, rounded up to whole words
abbrev pub Created : ℕ → ℕ → Option SlabCache → Type 0
Created name_length size none =
    (size ≡ 0) ⊎ (max_slab_name ≤ name_length) ⊎ (slab_size_limit 10 < object_words size * 4)
Created name_length size (some c) =
    IsSlabCache c (λ h. []) × InSlab c × (size ≤ c.object_size) × (c.object_size < size + 4)

rounded-Created :
    (memory : ℕ → Slab) (name_length size : ℕ) (r : Option ℕ)
    → size + 3 < u32
    → Size (object_words size * 4) r
    → Created name_length size (
        Option.map
          (λ s. record {
            slab_size = s;
            object_size = object_words size * 4;
            slabs_full = [];
            slabs_partial = [];
            slabs = memory;
          })
          r)
rounded-Created memory name_length size none w s = inr (inr s)
rounded-Created memory name_length size (some s) w (order, l, e, g) =
    let c : SlabCache = record {
      slab_size = s;
      object_size = object_words size * 4;
      slabs_full = [];
      slabs_partial = [];
      slabs = memory;
    } in
    let a = at_least_one c order l e g in
    (
      record {
        some_objects = a.0;
        partial = tt;
        full = tt;
        partial_once = tt;
        full_once = tt;
        apart = tt;
      },
      a.1,
      omega arith,
      omega arith,
    )

-- slab_cache_create of a size that can be rounded up to whole words without overflow answers NULL
-- only for no bytes, a name that is too long or a size above the largest limit, and else makes a
-- cache that is well formed, has no free object, and whose objects have room for the size, with at
-- least one of them and all their numbers within a slab.
pub slab_cache_create-Created :
    (memory : ℕ → Slab) (name_length size : ℕ)
    → size + 3 < u32
    → Created name_length size (slab_cache_create memory name_length size)
unfolding slab_cache_create
slab_cache_create-Created memory name_length size w = elim (Bool-cases (size == 0)) [
  | inl t ↦ rw t (inl (ground arith))
  | inr f ↦ elim (Bool-cases (leb max_slab_name name_length)) [
    | inl t ↦ rw (f, t) (inr (inl (ground arith)))
    | inr g ↦
        rw (f, g)
          (rounded-Created memory name_length size
            (size_loop page_max_depth 0 (object_words size * 4)) w
            (size_loop-Size page_max_depth 0 (object_words size * 4) refl (inl refl)))
  ]
]
