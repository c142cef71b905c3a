-- ===== src/Disk/Cache/Coherent.antt =====
-- The block cache's invariant, and what get_block of src/kernel/block.c makes of it.
use cyanurus.Base.{
  ℕ, ◌+◌, ◌*◌, ◌<◌, ◌≤◌, ◌≡◌, ◌≢◌, ◌⊎◌, inl, inr, refl, sym, ◌∙◌, Bool, true, false, Option, none,
  some, List, [], ◌∷◌, ◌==◌, if◌then◌else◌, arith, All, Fresh, Distinct,
}
use cyanurus.Page.{page_address}
use cyanurus.Disk.{block_size}
use cyanurus.Disk.Card.{Bytes}
use cyanurus.Disk.Cache.{CachedBlock, Cache, find_block}

abbrev pub pages : List CachedBlock → List ℕ
pages [] = []
pages (b ∷ bs) = b.page ∷ pages bs

abbrev pub indices : List CachedBlock → List ℕ
indices [] = []
indices (b ∷ bs) = b.index ∷ indices bs

-- the block's buffer holds what the card holds
abbrev pub Holds : Bytes → Bytes → CachedBlock → Type 0
Holds memory card b =
    (p : ℕ) → p < block_size → memory (b.address + p) ≡ card (b.index * block_size + p)

-- the block's buffer is one of the first `n` pages that the allocator returned
abbrev pub Placed : (ℕ → ℕ) → ℕ → CachedBlock → Type 0
Placed page_of n b = (b.address ≡ page_address b.page) × ((k : ℕ) × (k < n) × (b.page ≡ page_of k))

pub record IsCache (page_of : ℕ → ℕ) (s : Cache) : Type 0 where
  pub spare : s.free_blocks ≡ []
  pub placed : All (Placed page_of s.allocated) s.used_blocks
  pub apart : Distinct (pages s.used_blocks)
  pub unique : Distinct (indices s.used_blocks)
  pub coherent : All (Holds s.memory s.card) s.used_blocks

-- two pages do not overlap
pub page_apart :
    (a b p : ℕ)
    → a ≢ b
    → p < block_size
    → (page_address a + p < page_address b) ⊎ (page_address b + block_size ≤ page_address a + p)
page_apart a b p n h = omega arith

pub block_apart :
    (a b p : ℕ)
    → a ≢ b
    → p < block_size
    → (a * block_size + p < b * block_size) ⊎ (b * block_size + block_size ≤ a * block_size + p)
block_apart a b p n h = omega arith

-- the two ways in which a search step ends
pick-cases {ℓ} :
    {A : Type ℓ} (t : Bool) (c b : A) (rest : Option A)
    → (if t then some c else rest) ≡ some b
    → ((t ≡ true) × (b ≡ c)) ⊎ ((t ≡ false) × (rest ≡ some b))
pick-cases true c b rest e = inl (refl, ground arith)
pick-cases false c b rest e = inr (refl, e)

miss-cases {ℓ} :
    {A : Type ℓ} (t : Bool) (c : A) (rest : Option A)
    → (if t then some c else rest) ≡ none
    → (t ≡ false) × (rest ≡ none)
miss-cases true c rest e = absurd (ground arith)
miss-cases false c rest e = (refl, e)

pub find_block-All {ℓ} :
    (P : CachedBlock → Type ℓ) (i : ℕ) (b : CachedBlock) (bs : List CachedBlock)
    → find_block i bs ≡ some b
    → All P bs
    → P b × (b.index ≡ i)
unfolding find_block
find_block-All P i b [] e h = absurd (ground arith)
find_block-All P i b (c ∷ bs) e h = elim (pick-cases (c.index == i) c b (find_block i bs) e) [
  | inl (t, w) ↦ rw w (h.0, ground arith)
  | inr (f, w) ↦ find_block-All P i b bs w h.1
]

pub find_block-none :
    (i : ℕ) (bs : List CachedBlock) → find_block i bs ≡ none → Fresh i (indices bs)
unfolding find_block
find_block-none i [] e = tt
find_block-none i (c ∷ bs) e =
    let r = miss-cases (c.index == i) c (find_block i bs) e in
    let n : (c.index == i) ≡ false = r.0 in (ground arith, find_block-none i bs r.1)

index_of : (c : CachedBlock) (i : ℕ) → (c.index == i) ≡ true → c.index ≡ i
index_of c i t = ground arith

pub Fresh-All : (p : ℕ) (bs : List CachedBlock) → Fresh p (pages bs) → All (λ d. p ≢ d.page) bs
Fresh-All p [] h = tt
Fresh-All p (d ∷ bs) h = (h.0, Fresh-All p bs h.1)

-- the block `d` is that of index `i` and page `p`, or differs from it in both
abbrev pub SameOrApart : ℕ → ℕ → CachedBlock → Type 0
SameOrApart i p d = ((d.index ≡ i) × (d.page ≡ p)) ⊎ ((d.index ≢ i) × (d.page ≢ p))

others :
    (i p : ℕ) (bs : List CachedBlock)
    → Fresh i (indices bs)
    → Fresh p (pages bs)
    → All (SameOrApart i p) bs
others i p [] h k = tt
others i p (d ∷ bs) h k = (inr ((λ e. h.0 (sym e)), (λ e. k.0 (sym e))), others i p bs h.1 k.1)

-- The block found is the only one with its index, and the only one with its page.
pub find_block-only :
    (i : ℕ) (b : CachedBlock) (bs : List CachedBlock)
    → find_block i bs ≡ some b
    → Distinct (indices bs)
    → Distinct (pages bs)
    → All (SameOrApart i b.page) bs
unfolding find_block
find_block-only i b [] e u v = tt
find_block-only i b (c ∷ bs) e u v = elim (pick-cases (c.index == i) c b (find_block i bs) e) [
  | inl (t, w) ↦
      (inl (ground arith, rw w refl), others i b.page bs (rw (sym (index_of c i t)) u.0) (rw w v.0))
  | inr (f, w) ↦ (
    inr (
      ground arith,
      (find_block-All (λ d. c.page ≢ d.page) i b bs w (Fresh-All c.page bs v.0)).0,
    ),
    find_block-only i b bs w u.1 v.1,
  )
]

pub Fresh-pages :
    (page_of : ℕ → ℕ) (n : ℕ) (bs : List CachedBlock)
    → ((i j : ℕ) → page_of i ≡ page_of j → i ≡ j)
    → All (Placed page_of n) bs
    → Fresh (page_of n) (pages bs)
Fresh-pages page_of n [] inj h = tt
Fresh-pages page_of n (c ∷ bs) inj ((a, (k, l, e)), h) =
    ((λ w. let v : n ≡ k = inj n k (w ∙ e) in ground arith), Fresh-pages page_of n bs inj h)
