-- ===== src/Tests/Pages.antt =====
-- The memory as buddy_init leaves it, and after two pages are allocated.
use mathlib.Core.Path.{subst}
use cyanurus.Base.{ℕ, ◌≡◌, ◌⊎◌, refl, Option, none, some, arith, true, false}
use cyanurus.Page.Buddy.{
  Pages, buddy_init, buddy_alloc, buddy_free, order_loop, take_block, buddy_pull_block, pull_loop,
  split_block, split_loop,
}
use cyanurus.Page.Buddy.Heap.{IsHeap}
use cyanurus.Page.Buddy.Init.{buddy_init-IsHeap}
use cyanurus.Page.Buddy.Allocation.{Allocation, buddy_alloc-Allocation}
use cyanurus.Page.Buddy.Free.{IsFree, InBlock, buddy_free-IsHeap}

abbrev result : Option (Pages × ℕ) → Pages × ℕ
result none = (buddy_init, 0)
result (some r) = r

abbrev pub one : Pages × ℕ
one = result (buddy_alloc buddy_init 100)

one_found : buddy_alloc buddy_init 100 ≡ some one
unfolding buddy_alloc order_loop take_block buddy_pull_block pull_loop split_block split_loop
    buddy_init
one_found = refl

pub one-IsHeap : IsHeap one.0
one-IsHeap =
    (subst (Allocation buddy_init 100 0) one_found
      (buddy_alloc-Allocation buddy_init 100 0 buddy_init-IsHeap)).0

abbrev two : Pages × ℕ
two = result (buddy_alloc one.0 8192)

buddy_alloc-Allocation_example : Allocation one.0 8192 one.1 (buddy_alloc one.0 8192)
buddy_alloc-Allocation_example = buddy_alloc-Allocation one.0 8192 one.1 one-IsHeap

two_found : buddy_alloc one.0 8192 ≡ some two
unfolding buddy_alloc order_loop take_block buddy_pull_block pull_loop split_block split_loop
    buddy_init
two_found = refl

two-IsHeap : IsHeap two.0
two-IsHeap = (subst (Allocation one.0 8192 one.1) two_found buddy_alloc-Allocation_example).0

one_first : two.0.first_page 1023 ≡ true
unfolding buddy_alloc order_loop take_block buddy_pull_block pull_loop split_block split_loop
    buddy_init
one_first = refl

pub one_used : one.0.first_page 1023 ≡ true
unfolding buddy_alloc order_loop take_block buddy_pull_block pull_loop split_block split_loop
    buddy_init
one_used = refl

pub one_order : one.0.order 1023 ≡ 0
unfolding buddy_alloc order_loop take_block buddy_pull_block pull_loop split_block split_loop
    buddy_init
one_order = refl

two_first : two.0.first_page 1020 ≡ true
unfolding buddy_alloc order_loop take_block buddy_pull_block pull_loop split_block split_loop
    buddy_init
two_first = refl

buddy_free-IsHeap_example :
    (t : Pages) × (buddy_free 11 two.0 1023 ≡ some t)
    × IsHeap t
    × (t.first_page 1023 ≡ false)
    × (t.first_page 1020 ≡ true)
    × (t.order 1020 ≡ two.0.order 1020)
    × ((i : ℕ) → IsFree two.0 i ⊎ InBlock 1023 (two.0.order 1023) i → IsFree t i)
buddy_free-IsHeap_example =
    buddy_free-IsHeap two.0 1023 1020 two-IsHeap one_first two_first (omega arith)
