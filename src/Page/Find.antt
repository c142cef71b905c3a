-- ===== src/Page/Find.antt =====
-- From an address or a page to the block: page_find_by_address and page_find_head of
-- src/kernel/page.c.
use cyanurus.Base.{
  ℕ, zero, suc, ◌+◌, ◌-◌, ◌*◌, ◌/◌, ◌%◌, ◌≤◌, ◌<◌, ◌≡◌, inl, inr, refl, sym, ap, ◌∙◌, Bool, true,
  false, Bool-cases, Option, none, some, ◌==◌, ltb, if◌then◌else◌, arith, sub32,
}
use cyanurus.Page.{page_num, page_size, page_start, page_address}
use cyanurus.Page.Buddy.{Pages, pages_of}
use cyanurus.Page.Buddy.Heap.{IsHeap, pow_pos}

-- The difference of the pointers is signed, its quotient by PAGE_SIZE rounded towards zero and then
-- cast to an unsigned long.
unfoldable pub page_find_by_address : ℕ → Option ℕ
page_find_by_address address =
    let d = sub32 address page_start in
    let index =
      if ltb d 0x8000_0000
      then d / page_size
      else (0x1_0000_0000 - (0x1_0000_0000 - d) / page_size) % 0x1_0000_0000 in
    if ltb index page_num then some index else none

-- The loop of page_find_head from the page `index` down; below page 0 the index wraps around.
unfoldable pub head_loop : (ℕ → Bool) → ℕ → Option ℕ
head_loop first zero = if first 0 then some 0 else none
head_loop first (suc index) =
    let rest = head_loop first index in if first (suc index) then some (suc index) else rest

unfoldable pub page_find_head : Pages → ℕ → Option ℕ
page_find_head s index = if ltb index page_num then head_loop s.first_page index else none

-- The page of an address is the one that the address lies in, for every address of the memory that
-- the allocator manages.
pub page_find_by_address-page_address :
    (p n : ℕ) → p < page_num → n < page_size → page_find_by_address (page_address p + n) ≡ some p
unfolding page_find_by_address
page_find_by_address-page_address p n l h =
    let d : sub32 (page_address p + n) page_start ≡ page_size * p + n = omega arith in ground arith

-- the nearest flagged page at or below `q`
head_loop-nearest :
    (first : ℕ → Bool) (p q : ℕ)
    → p ≤ q
    → first p ≡ true
    → ((i : ℕ) → p < i → i ≤ q → first i ≡ false)
    → head_loop first q ≡ some p
unfolding head_loop
head_loop-nearest first p zero l f h =
    let y : p ≡ 0 = omega arith in let g : first 0 ≡ true = ap first (sym y) ∙ f in rw (g, y) refl
head_loop-nearest first p (suc q) l f h = elim (Bool-cases (p == suc q)) [
  | inl t ↦
      let y : p ≡ suc q = ground arith in
      let g : first (suc q) ≡ true = ap first (sym y) ∙ f in rw (g, y) refl
  | inr n ↦
      let g : first (suc q) ≡ false = h (suc q) (ground arith) (omega arith) in
      rw g (head_loop-nearest first p q (ground arith) f (λ i a b. h i a (omega arith)))
]

-- no block begins inside a block
not_first :
    (s : Pages) (p i : ℕ)
    → IsHeap s
    → s.first_page p ≡ true
    → p < i
    → i < p + pages_of (s.order p)
    → s.first_page i ≡ false
not_first s p i v f l h = elim (Bool-cases (s.first_page i)) [
  | inl t ↦
      let d = v.apart p i (inr f) (inr t) (λ e. omega arith) in
      let z = pow_pos (s.order i) in absurd (ground arith)
  | inr n ↦ n
]

-- page_find_head of any page of a block that was handed out is the block.
pub page_find_head-block :
    (s : Pages) (p q : ℕ)
    → IsHeap s
    → s.first_page p ≡ true
    → p ≤ q
    → q < p + pages_of (s.order p)
    → page_find_head s q ≡ some p
unfolding page_find_head
page_find_head-block s p q v f l h =
    let b : q < page_num = (let y = (v.fits p (inr f)).0 in omega arith) in
    let t : ltb q page_num ≡ true = ground arith in
    rw t (head_loop-nearest s.first_page p q l f (λ i a c. not_first s p i v f a (omega arith)))
