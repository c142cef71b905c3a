-- ===== src/Page/Slab/Objects.antt =====
-- The objects of a cache of src/kernel/slab.c: none is given out twice.
use mathlib.Core.Path.{subst}
use cyanurus.Base.{
  ℕ, zero, suc, ◌<◌, ◌≡◌, ◌≢◌, ◌⊎◌, refl, sym, ap, ◌∙◌, Bool, true, false, Bool-cases, some, inl,
  inr, List, [], ◌∷◌, ◌==◌, arith, update, All, All_mono, All-Fresh, Elem, All-Elem, Fresh,
  Distinct, ==_refl, ne→==_false, Fresh_of_eq,
}
use cyanurus.Page.Slab.{
  slab_free_end, Slab, SlabCache, slab_max_object_num, slab_new, take_object, alloc_from,
  alloc_first, slab_cache_alloc, give_object, remove_slab, move_slab, give_back,
}
use cyanurus.Page.Buddy.{without}
use cyanurus.Page.Buddy.Moves.{
  without-All, Elem-without, Distinct-without, Fresh-without, without-gone,
}
use cyanurus.Page.Slab.Chain.{
  IsSlab, is_nil, from, take_object-IsSlab, give_object-IsSlab, slab_new-IsSlab,
}

-- a slab with the free objects `avail h`: none, if `empty`, or some
abbrev pub Holds : ℕ → (ℕ → Slab) → (ℕ → List ℕ) → Bool → ℕ → Type 0
Holds n slabs avail empty h = IsSlab n (slabs h) (avail h) × (is_nil (avail h) ≡ empty)

-- The full slabs have no free object, the partial ones have some, and no slab is on two places.
pub record IsSlabCache (c : SlabCache) (avail : ℕ → List ℕ) : Type 0 where
  pub some_objects : (0 < slab_max_object_num c) × (slab_max_object_num c < slab_free_end)
  pub partial : All (Holds (slab_max_object_num c) c.slabs avail false) c.slabs_partial
  pub full : All (Holds (slab_max_object_num c) c.slabs avail true) c.slabs_full
  pub partial_once : Distinct c.slabs_partial
  pub full_once : Distinct c.slabs_full
  pub apart : All (λ h. Fresh h c.slabs_full) c.slabs_partial

-- one slab changes; those of a list without it do not
Holds-update :
    (n : ℕ) (slabs : ℕ → Slab) (avail : ℕ → List ℕ) (empty : Bool) (h : ℕ) (s : Slab)
    (xs qs : List ℕ)
    → Fresh h qs
    → All (Holds n slabs avail empty) qs
    → All (Holds n (update slabs h s) (update avail h xs) empty) qs
Holds-update n slabs avail empty h s xs [] f a = tt
Holds-update n slabs avail empty h s xs (q ∷ qs) f a =
    let e = ne→==_false h q f.0 in (rw e a.0, Holds-update n slabs avail empty h s xs qs f.1 a.1)

Holds-self :
    (n : ℕ) (slabs : ℕ → Slab) (avail : ℕ → List ℕ) (empty : Bool) (h : ℕ) (s : Slab) (xs : List ℕ)
    → IsSlab n s xs
    → is_nil xs ≡ empty
    → Holds n (update slabs h s) (update avail h xs) empty h
Holds-self n slabs avail empty h s xs v e = rw (==_refl h) (v, e)

also :
    (h : ℕ) (full qs : List ℕ)
    → Fresh h qs
    → All (λ q. Fresh q full) qs
    → All (λ q. Fresh q (h ∷ full)) qs
also h full [] f a = tt
also h full (q ∷ qs) f a = (((λ e. f.0 (sym e)), a.0), also h full qs f.1 a.1)

alloc_from-last :
    (c : SlabCache) (h : ℕ) (s : Slab) (rest : List ℕ)
    → (take_object s).2 ≡ true
    → alloc_from c h s rest ≡ (
      record c {
        slabs = update c.slabs h (take_object s).1;
        slabs_partial = rest;
        slabs_full = h ∷ c.slabs_full;
      },
      h,
      (take_object s).0,
    )
unfolding alloc_from
alloc_from-last c h s rest e = rw (alloc_from, e) refl

alloc_from-more :
    (c : SlabCache) (h : ℕ) (s : Slab) (rest : List ℕ)
    → (take_object s).2 ≡ false
    → alloc_from c h s rest ≡ (
      record c { slabs = update c.slabs h (take_object s).1; slabs_partial = h ∷ rest },
      h,
      (take_object s).0,
    )
unfolding alloc_from
alloc_from-more c h s rest e = rw (alloc_from, e) refl

-- a slab of the cache
abbrev pub HasSlab : SlabCache → ℕ → Type 0
HasSlab c q = Elem q c.slabs_partial ⊎ Elem q c.slabs_full

-- The cache afterwards has the slabs that it had and `h`, and no other, and objects of the same size.
pub record KeepsSlabs (c : SlabCache) (h : ℕ) (t : SlabCache) : Type 0 where
  pub sizes : (t.slab_size ≡ c.slab_size) × (t.object_size ≡ c.object_size)
  pub kept : (q : ℕ) → HasSlab c q → HasSlab t q
  pub own : HasSlab t h
  pub others : (q : ℕ) → HasSlab t q → HasSlab c q ⊎ (q ≡ h)

-- what an allocation from a slab with the free objects `x` and `xs` leaves
abbrev Gives : SlabCache → (ℕ → List ℕ) → ℕ → ℕ → List ℕ → SlabCache × ℕ × ℕ → Type 0
Gives c avail h x xs (t, q, i) =
    IsSlabCache t (update avail h xs) × (q ≡ h) × (i ≡ x) × KeepsSlabs c h t

-- the slabs before: `rest`, perhaps with `h`, are the partial ones
abbrev Rest : SlabCache → ℕ → List ℕ → Type 0
Rest c h rest =
    ((q : ℕ) → Elem q c.slabs_partial → Elem q (h ∷ rest))
    × ((q : ℕ) → Elem q rest → Elem q c.slabs_partial)

KeepsSlabs-full :
    (c : SlabCache) (slabs : ℕ → Slab) (h : ℕ) (rest : List ℕ)
    → Rest c h rest
    → KeepsSlabs c h
        (record c { slabs = slabs; slabs_partial = rest; slabs_full = h ∷ c.slabs_full })
KeepsSlabs-full c slabs h rest r = record {
  sizes = (refl, refl);
  kept = λ q m. elim m [
    | inl y ↦ elim (r.0 q y) [ inl e ↦ inr (inl e) | inr z ↦ inl z ]
    | inr y ↦ inr (inr y)
  ];
  own = inr (inl refl);
  others = λ q m. elim m [
    | inl y ↦ inl (inl (r.1 q y))
    | inr y ↦ elim y [ inl e ↦ inr e | inr z ↦ inl (inr z) ]
  ];
}

KeepsSlabs-partial :
    (c : SlabCache) (slabs : ℕ → Slab) (h : ℕ) (rest : List ℕ)
    → Rest c h rest
    → KeepsSlabs c h (record c { slabs = slabs; slabs_partial = h ∷ rest })
KeepsSlabs-partial c slabs h rest r = record {
  sizes = (refl, refl);
  kept = λ q m. elim m [ inl y ↦ inl (r.0 q y) | inr y ↦ inr y ];
  own = inl (inl refl);
  others = λ q m. elim m [
    | inl y ↦ elim y [ inl e ↦ inr e | inr z ↦ inl (inl (r.1 q z)) ]
    | inr y ↦ inl (inr y)
  ];
}

alloc_from-Gives :
    (c : SlabCache) (avail : ℕ → List ℕ) (h : ℕ) (s : Slab) (x : ℕ) (xs rest : List ℕ)
    → (0 < slab_max_object_num c) × (slab_max_object_num c < slab_free_end)
    → IsSlab (slab_max_object_num c) s (x ∷ xs)
    → All (Holds (slab_max_object_num c) c.slabs avail false) rest
    → All (Holds (slab_max_object_num c) c.slabs avail true) c.slabs_full
    → Distinct (h ∷ rest)
    → Distinct c.slabs_full
    → All (λ q. Fresh q c.slabs_full) (h ∷ rest)
    → Rest c h rest
    → Gives c avail h x xs (alloc_from c h s rest)
alloc_from-Gives c avail h s x [] rest o v p f d g a b =
    let n = slab_max_object_num c in
    let r = take_object-IsSlab n x s [] v in
    let t = (take_object s).1 in
    rw (alloc_from-last c h s rest r.2) (
      record {
        some_objects = o;
        partial = Holds-update n c.slabs avail false h t [] rest d.0 p;
        full = (
          Holds-self n c.slabs avail true h t [] r.1 refl,
          Holds-update n c.slabs avail true h t [] c.slabs_full a.0 f,
        );
        partial_once = d.1;
        full_once = (a.0, g);
        apart = also h c.slabs_full rest d.0 a.1;
      },
      refl,
      r.0,
      KeepsSlabs-full c (update c.slabs h t) h rest b,
    )
alloc_from-Gives c avail h s x (y ∷ xs) rest o v p f d g a b =
    let n = slab_max_object_num c in
    let r = take_object-IsSlab n x s (y ∷ xs) v in
    let t = (take_object s).1 in
    rw (alloc_from-more c h s rest r.2) (
      record {
        some_objects = o;
        partial = (
          Holds-self n c.slabs avail false h t (y ∷ xs) r.1 refl,
          Holds-update n c.slabs avail false h t (y ∷ xs) rest d.0 p,
        );
        full = Holds-update n c.slabs avail true h t (y ∷ xs) c.slabs_full a.0 f;
        partial_once = d;
        full_once = g;
        apart = a;
      },
      refl,
      r.0,
      KeepsSlabs-partial c (update c.slabs h t) h rest b,
    )

-- Where the object `i` of the slab `h` comes from: it was free, or no slab had one and this is new.
abbrev pub WasFree : SlabCache → (ℕ → List ℕ) → ℕ → ℕ → ℕ → List ℕ → Type 0
WasFree c avail fresh h i xs =
    (Elem h c.slabs_partial × (avail h ≡ i ∷ xs))
    ⊎ ((h ≡ fresh) × (c.slabs_partial ≡ []) × (from (slab_max_object_num c) 0 ≡ i ∷ xs))

abbrev pub Allocated : SlabCache → (ℕ → List ℕ) → ℕ → SlabCache × ℕ × ℕ → Type 0
Allocated c avail fresh (t, h, i) =
    (xs : List ℕ) × IsSlabCache t (update avail h xs)
    × WasFree c avail fresh h i xs
    × (i < slab_max_object_num c)
    × Fresh i xs
    × KeepsSlabs c h t

to_Allocated :
    (c : SlabCache) (avail : ℕ → List ℕ) (fresh h x : ℕ) (xs : List ℕ) (r : SlabCache × ℕ × ℕ)
    → Gives c avail h x xs r
    → WasFree c avail fresh h x xs
    → x < slab_max_object_num c
    → Fresh x xs
    → Allocated c avail fresh r
to_Allocated c avail fresh h x xs (t, q, i) (v, e, g, k) w l f = (
  xs,
  subst (λ z. IsSlabCache t (update avail z xs)) (sym e) v,
  rw (e, g) w,
  rw g l,
  Fresh_of_eq x i xs (sym g) f,
  subst (λ z. KeepsSlabs c z t) (sym e) k,
)

from_ne : (n : ℕ) → 0 < n → from n 0 ≢ []
from_ne zero l e = omega arith
from_ne (suc n) l e = ground arith

alloc_partial :
    (c : SlabCache) (avail : ℕ → List ℕ) (fresh h : ℕ) (rest xs : List ℕ)
    → c.slabs_partial ≡ h ∷ rest
    → avail h ≡ xs
    → IsSlabCache c avail
    → Allocated c avail fresh (alloc_from c h (c.slabs h) rest)
alloc_partial c avail fresh h rest [] e g v =
    let p = subst (All (Holds (slab_max_object_num c) c.slabs avail false)) e v.partial in
    let y = p.0.1 in let z : is_nil (avail h) ≡ true = ap is_nil g in absurd (ground arith)
alloc_partial c avail fresh h rest (x ∷ xs) e g v =
    let n = slab_max_object_num c in
    let p = subst (All (Holds n c.slabs avail false)) e v.partial in
    let s : IsSlab n (c.slabs h) (x ∷ xs) = subst (IsSlab n (c.slabs h)) g p.0.0 in
    let r =
      alloc_from-Gives c avail h (c.slabs h) x xs rest v.some_objects s p.1 v.full
        (subst Distinct e v.partial_once) v.full_once
        (subst (All (λ q. Fresh q c.slabs_full)) e v.apart)
        ((λ q m. subst (Elem q) e m), λ q m. subst (Elem q) (sym e) (inr m)) in
    to_Allocated c avail fresh h x xs (alloc_from c h (c.slabs h) rest) r (inl (rw e (inl refl), g))
      s.below.0 s.once.0

alloc_new :
    (c : SlabCache) (avail : ℕ → List ℕ) (fresh : ℕ) (numbers : ℕ → ℕ) (xs : List ℕ)
    → from (slab_max_object_num c) 0 ≡ xs
    → IsSlabCache c avail
    → Fresh fresh c.slabs_full
    → c.slabs_partial ≡ []
    → Allocated c avail fresh (alloc_from c fresh (slab_new (slab_max_object_num c) numbers) [])
alloc_new c avail fresh numbers [] g v f b =
    absurd (from_ne (slab_max_object_num c) v.some_objects.0 g)
alloc_new c avail fresh numbers (x ∷ xs) g v f b =
    let n = slab_max_object_num c in
    let h = slab_new n numbers in
    let s : IsSlab n h (x ∷ xs) =
      subst (IsSlab n h) g (slab_new-IsSlab n numbers v.some_objects.1) in
    let r =
      alloc_from-Gives c avail fresh h x xs [] v.some_objects s tt v.full (tt, tt) v.full_once
        (f, tt) ((λ q m. inr (subst (Elem q) b m)), λ q m. absurd m) in
    to_Allocated c avail fresh fresh x xs (alloc_from c fresh h []) r (inr (refl, b, g)) s.below.0
      s.once.0

alloc_first-Allocated :
    (c : SlabCache) (avail : ℕ → List ℕ) (fresh : ℕ) (numbers : ℕ → ℕ) (partial : List ℕ)
    → c.slabs_partial ≡ partial
    → IsSlabCache c avail
    → Fresh fresh c.slabs_full
    → Allocated c avail fresh (alloc_first c fresh numbers partial)
alloc_first-Allocated c avail fresh numbers [] e v f =
    alloc_new c avail fresh numbers (from (slab_max_object_num c) 0) refl v f e
alloc_first-Allocated c avail fresh numbers (h ∷ rest) e v f =
    alloc_partial c avail fresh h rest (avail h) e refl v

-- slab_cache_alloc gives an object that was free, of a slab of the cache or, if none has one, of a new one at an
-- address where the cache has no slab, and it is free no longer; what is free otherwise does not
-- change, and the cache has that slab and those that it had.
pub slab_cache_alloc-Allocated :
    (c : SlabCache) (avail : ℕ → List ℕ) (fresh : ℕ) (numbers : ℕ → ℕ)
    → IsSlabCache c avail
    → Fresh fresh c.slabs_full
    → Allocated c avail fresh (slab_cache_alloc c fresh numbers)
slab_cache_alloc-Allocated c avail fresh numbers v f =
    alloc_first-Allocated c avail fresh numbers c.slabs_partial refl v f

-- the search of the full slabs finds a slab that is one of them
remove_slab-without : (h : ℕ) (qs : List ℕ) → Elem h qs → remove_slab h qs ≡ some (without h qs)
unfolding remove_slab
remove_slab-without h [] m = absurd m
remove_slab-without h (q ∷ qs) (inl e) = let t : (q == h) ≡ true = ground arith in rw t refl
remove_slab-without h (q ∷ qs) (inr m) = elim (Bool-cases (q == h)) [
  | inl t ↦ rw t refl
  | inr f ↦ rw (f, remove_slab-without h qs m) refl
]

free-more :
    (c : SlabCache) (h i : ℕ)
    → (give_object (c.slabs h) i).1 ≡ false
    → give_back c h i ≡ some (record c { slabs = update c.slabs h (give_object (c.slabs h) i).0 })
unfolding give_back
free-more c h i e = rw (give_back, e) refl

free-full :
    (c : SlabCache) (h i : ℕ) (full : List ℕ)
    → (give_object (c.slabs h) i).1 ≡ true
    → remove_slab h c.slabs_full ≡ some full
    → give_back c h i
      ≡ some (record c {
        slabs = update c.slabs h (give_object (c.slabs h) i).0;
        slabs_full = full;
        slabs_partial = h ∷ c.slabs_partial;
      })
unfolding give_back move_slab
free-full c h i full e r = rw (give_back, e, r) refl

-- a slab of the list changes, and still has a free object
Holds-touch :
    (n : ℕ) (slabs : ℕ → Slab) (avail : ℕ → List ℕ) (h : ℕ) (s : Slab) (xs qs : List ℕ)
    → IsSlab n s xs
    → is_nil xs ≡ false
    → All (Holds n slabs avail false) qs
    → All (Holds n (update slabs h s) (update avail h xs) false) qs
Holds-touch n slabs avail h s xs [] v e a = tt
Holds-touch n slabs avail h s xs (q ∷ qs) v e a = elim (Bool-cases (h == q)) [
  | inl t ↦ rw t ((v, e), Holds-touch n slabs avail h s xs qs v e a.1)
  | inr f ↦ rw f (a.0, Holds-touch n slabs avail h s xs qs v e a.1)
]

not_both : (h : ℕ) (qs : List ℕ) → Fresh h qs → Elem h qs → ⊥
not_both h [] f m = m
not_both h (q ∷ qs) f (inl e) = f.0 e
not_both h (q ∷ qs) f (inr m) = not_both h qs f.1 m

Elem-all : (q h : ℕ) (qs : List ℕ) → Elem q (without h qs) → Elem q qs
Elem-all q h [] m = m
Elem-all q h (x ∷ qs) m = elim (Bool-cases (x == h)) [
  | inl t ↦ inr (rw t at m)
  | inr f ↦ elim (rw f at m) [ inl e ↦ inl e | inr y ↦ inr (Elem-all q h qs y) ]
]

-- a full slab becomes a partial one
KeepsSlabs-back :
    (c : SlabCache) (slabs : ℕ → Slab) (h : ℕ)
    → Elem h c.slabs_full
    → KeepsSlabs c h (record c {
      slabs = slabs;
      slabs_full = without h c.slabs_full;
      slabs_partial = h ∷ c.slabs_partial;
    })
KeepsSlabs-back c slabs h m = record {
  sizes = (refl, refl);
  kept = λ q y. elim y [
    | inl z ↦ inl (inr z)
    | inr z ↦ elim (Bool-cases (h == q)) [
      | inl t ↦ inl (inl (ground arith))
      | inr f ↦ inr (Elem-without q h c.slabs_full (ground arith) z)
    ]
  ];
  own = inl (inl refl);
  others = λ q y. elim y [
    | inl z ↦ elim z [ inl e ↦ inr e | inr x ↦ inl (inl x) ]
    | inr z ↦ inl (inr (Elem-all q h c.slabs_full z))
  ];
}

-- an object that was given out is free again
pub give_back-IsSlabCache :
    (c : SlabCache) (avail : ℕ → List ℕ) (h i : ℕ)
    → IsSlabCache c avail
    → HasSlab c h
    → i < slab_max_object_num c
    → Fresh i (avail h)
    → (t : SlabCache) × (give_back c h i ≡ some t)
      × IsSlabCache t (update avail h (i ∷ avail h))
      × KeepsSlabs c h t
give_back-IsSlabCache c avail h i v (inl m) l f =
    let n = slab_max_object_num c in
    let k = All-Elem (Holds n c.slabs avail false) h c.slabs_partial v.partial m in
    let r = give_object-IsSlab n i (c.slabs h) (avail h) k.0 l f in
    let t = (give_object (c.slabs h) i).0 in
    let xs = i ∷ avail h in
    (
      record c { slabs = update c.slabs h t },
      free-more c h i (r.1 ∙ k.1),
      record {
        some_objects = v.some_objects;
        partial = Holds-touch n c.slabs avail h t xs c.slabs_partial r.0 refl v.partial;
        full =
            Holds-update n c.slabs avail true h t xs c.slabs_full
              (All-Elem (λ q. Fresh q c.slabs_full) h c.slabs_partial v.apart m) v.full;
        partial_once = v.partial_once;
        full_once = v.full_once;
        apart = v.apart;
      },
      record { sizes = (refl, refl); kept = λ q y. y; own = inl m; others = λ q y. inl y },
    )
give_back-IsSlabCache c avail h i v (inr m) l f =
    let n = slab_max_object_num c in
    let k = All-Elem (Holds n c.slabs avail true) h c.slabs_full v.full m in
    let r = give_object-IsSlab n i (c.slabs h) (avail h) k.0 l f in
    let t = (give_object (c.slabs h) i).0 in
    let xs = i ∷ avail h in
    let full = without h c.slabs_full in
    let a =
      All-Fresh (λ q. Fresh q c.slabs_full) h c.slabs_partial
        (λ q y e. not_both h c.slabs_full (Fresh_of_eq q h c.slabs_full (sym e) y) m) v.apart in
    let g = without-gone h c.slabs_full v.full_once in
    (
      record c {
        slabs = update c.slabs h t;
        slabs_full = full;
        slabs_partial = h ∷ c.slabs_partial;
      },
      free-full c h i full (r.1 ∙ k.1) (remove_slab-without h c.slabs_full m),
      record {
        some_objects = v.some_objects;
        partial = (
          Holds-self n c.slabs avail false h t xs r.0 refl,
          Holds-update n c.slabs avail false h t xs c.slabs_partial a v.partial,
        );
        full =
            Holds-update n c.slabs avail true h t xs full g
              (without-All (Holds n c.slabs avail true) h c.slabs_full v.full);
        partial_once = (a, v.partial_once);
        full_once = Distinct-without h c.slabs_full v.full_once;
        apart = (
          g,
          All_mono (λ q. Fresh q c.slabs_full) (λ q. Fresh q full) c.slabs_partial
              (λ q y. Fresh-without q h c.slabs_full y) v.apart,
        );
      },
      KeepsSlabs-back c (update c.slabs h t) h m,
    )
