-- ===== src/Page/Buddy/Allocation.antt =====
-- What buddy_alloc of src/kernel/buddy.c gives its caller.
use mathlib.Core.Option
use mathlib.Core.Path.{subst}
use cyanurus.Base.{
  update, Bool, false, ℕ, zero, suc, ◌+◌, ◌-◌, ◌*◌, ◌≤◌, ◌<◌, ◌≡◌, ◌⊎◌, inl, inr, refl, sym, ap,
  ◌∙◌, true, Bool-cases, Option, none, some, leb, arith,
}
use cyanurus.Page.{page_size}
use cyanurus.Page.Buddy.{
  Pages, page_max_order, page_max_depth, pages_of, take_block, order_loop, mark_first, buddy_alloc,
}
use cyanurus.Page.Buddy.Heap.{InHand, IsHeap, Disjoint}
use cyanurus.Page.Buddy.Moves.{hand_out}
use cyanurus.Page.Buddy.Alloc.{Keeps, Empty, Outcome, take_block-Outcome}

-- `k` is the least order whose blocks hold `size` bytes.
abbrev pub Enough : ℕ → ℕ → Type 0
Enough size k =
    (size ≤ pages_of k * page_size)
    × (k ≤ page_max_order)
    × ((k ≡ 0) ⊎ (pages_of (k - 1) * page_size < size))

-- what the loop of buddy_alloc finds, with orders below `i` too small
abbrev Order : ℕ → Option ℕ → Type 0
Order size none = pages_of page_max_order * page_size < size
Order size (some k) = Enough size k

order_loop-Order :
    (c i size : ℕ)
    → i + c ≡ page_max_depth
    → ((i ≡ 0) ⊎ (pages_of (i - 1) * page_size < size))
    → Order size (order_loop c i size)
unfolding order_loop
order_loop-Order zero i size n h =
    let y : i ≡ 11 = omega arith in
    elim h [
      | inl z ↦ absurd (omega arith)
      | inr z ↦ subst (λ j. pages_of (j - 1) * page_size < size) y z
    ]
order_loop-Order (suc c) i size n h = elim (Bool-cases (leb size (pages_of i * page_size))) [
  | inl t ↦ rw t (ground arith, omega arith, h)
  | inr f ↦ rw f (
      order_loop-Order c (suc i) size (omega arith)
        (inr (let y : suc i - 1 ≡ i = omega arith in rw y (ground arith))))
]

-- `q`, if it was handed out before, still is, and has no page of the new block `p`
abbrev pub Spared : Bool → Pages → Pages → ℕ → ℕ → Type 0
Spared false s t p q = Unit
Spared true s t p q =
    (t.first_page q ≡ true) × (t.order q ≡ s.order q) × Disjoint p (t.order p) q (t.order q)

-- nothing, if the size is too large or no block that is large enough is free, or else a block
abbrev pub Allocation : Pages → ℕ → ℕ → Option (Pages × ℕ) → Type 0
Allocation s size q none =
    (pages_of page_max_order * page_size < size)
    ⊎ ((k : ℕ) × Enough size k × Empty s (page_max_depth - k) k)
Allocation s size q (some (t, p)) =
    IsHeap t
    × Enough size (t.order p)
    × (t.first_page p ≡ true)
    × (s.first_page p ≡ false)
    × Spared (s.first_page q) s t p q

spare :
    (s t : Pages) (p q k : ℕ) (b : Bool)
    → s.first_page q ≡ b
    → InHand t p k
    → Keeps s t
    → t.order p ≡ k
    → Spared b s (record t { first_page = update t.first_page p true }) p q
spare s t p q k false f h w o = tt
spare s t p q k true f h w o =
    let g : t.first_page q ≡ true = ap (λ z. z q) w.first ∙ f in
    (ground arith, w.order q f, subst (λ z. Disjoint p z q (t.order q)) (sym o) (h.apart q (inr g)))

mark-Allocation :
    (s : Pages) (size q k : ℕ) (o : Option (Pages × ℕ))
    → Enough size k
    → Outcome s k o
    → Allocation s size q (Option.map mark_first o)
mark-Allocation s size q k none e h = inr (k, e, h)
mark-Allocation s size q k (some (t, p)) e ((v, h, w), o) = (
  hand_out t p k v h o,
  subst (Enough size) (sym o) e,
  ground arith,
  ap (λ z. z p) (sym w.first) ∙ h.unused,
  spare s t p q k (s.first_page q) refl h w o,
)

-- buddy_alloc keeps the blocks in order. It fails only if the size is larger than the largest block
-- or if every free list of an order that is large enough is empty; else the block that it returns
-- was not handed out, has the least order that is enough, and has no page of any block `q` that was
-- handed out before, which stays what it was.
pub buddy_alloc-Allocation :
    (s : Pages) (size q : ℕ) → IsHeap s → Allocation s size q (buddy_alloc s size)
unfolding buddy_alloc
buddy_alloc-Allocation s size q v =
    let r = order_loop-Order page_max_depth 0 size refl (inl refl) in
    found (order_loop page_max_depth 0 size) r
  where
    found :
        (o : Option ℕ)
        → Order size o
        → Allocation s size q (elim o as (λ _. Option (Pages × ℕ)) [
          | none ↦ none
          | some i ↦ Option.map mark_first (take_block s i)
        ])
    found none h = inl h
    found (some k) h = mark-Allocation s size q k (take_block s k) h (take_block-Outcome s k v h.1)
