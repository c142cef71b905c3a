-- ===== src/Page/Buddy.antt =====
-- The page allocator: src/kernel/buddy.c, on the page structures of src/kernel/page.h.
-- A free list is the List of the pages that its `next` links go through; a page off the lists has no
-- next page. A page is named by its index.
pub mod Heap
pub mod Moves
pub mod Alloc
pub mod Allocation
pub mod Free
pub mod Init
use mathlib.Core.Option
use cyanurus.Base.{
  ℕ, zero, suc, ◌+◌, ◌-◌, ◌*◌, ◌/◌, ◌%◌, ◌^◌, Bool, true, false, not, ◌&&◌, ◌||◌, Option, none,
  some, List, [], ◌∷◌, ◌==◌, ltb, leb, if◌then◌else◌, update,
}
use cyanurus.Page.{page_size, page_num}

-- PAGE_MAX_ORDER, PAGE_MAX_DEPTH
abbrev pub page_max_order : ℕ
page_max_order = 10

abbrev pub page_max_depth : ℕ
page_max_depth = 11

-- The free lists by order, and the fields of `struct page` by index: the flags PF_FREE_LIST and
-- PF_FIRST_PAGE and the order.
pub record Pages : Type 0 where
  pub free_lists : ℕ → List ℕ
  pub free_list : ℕ → Bool
  pub first_page : ℕ → Bool
  pub order : ℕ → ℕ

-- 1 << order
abbrev pub pages_of : ℕ → ℕ
pages_of order = 2 ^ order

abbrev pub buddy_find_buddy_index : ℕ → ℕ → ℕ
buddy_find_buddy_index p order =
    if p / pages_of order % 2 == 1 then p - pages_of order else p + pages_of order

-- the first page of a list taken off it
abbrev pub pop_first : Pages → ℕ → List ℕ → Option (ℕ × Pages)
pop_first s k [] = none
pop_first s k (p ∷ rest) = some (
  p,
  record s { free_lists = update s.free_lists k rest; free_list = update s.free_list p false },
)

abbrev pub buddy_list_pop : Pages → ℕ → Option (ℕ × Pages)
buddy_list_pop s k = pop_first s k (s.free_lists k)

abbrev pub buddy_list_push : Pages → ℕ → ℕ → Pages
buddy_list_push s k p = record s {
  free_lists = update s.free_lists k (p ∷ s.free_lists k);
  free_list = update s.free_list p true;
}

abbrev pub contains : ℕ → List ℕ → Bool
contains p [] = false
contains p (q ∷ qs) = (q == p) || contains p qs

abbrev pub without : ℕ → List ℕ → List ℕ
without p [] = []
without p (q ∷ qs) = if q == p then qs else q ∷ without p qs

abbrev pub buddy_list_remove : Pages → ℕ → ℕ → Option Pages
buddy_list_remove s k p =
    if contains p (s.free_lists k)
    then some (record s {
      free_lists = update s.free_lists k (without p (s.free_lists k));
      free_list = update s.free_list p false;
    })
    else none

abbrev pub buddy_is_free_buddy : Pages → ℕ → ℕ → Bool
buddy_is_free_buddy s p b = s.free_list b && (s.order b == s.order p)

-- The blocks of the largest order from the `i`-th on, `n` of them.
abbrev pub largest : ℕ → ℕ → List ℕ
largest zero i = []
largest (suc n) i = i * pages_of page_max_order ∷ largest n (suc i)

unfoldable pub buddy_init : Pages
buddy_init =
    let is_head = λ (p : ℕ). ltb p page_num && (p % pages_of page_max_order == 0) in
    record {
      free_lists = update (λ k. []) page_max_order (largest (page_num / pages_of page_max_order) 0);
      free_list = is_head;
      first_page = λ p. false;
      order = λ p. if is_head p then page_max_order else 0;
    }

-- The second loop of buddy_pull_block: the left half goes on its list, the right one is split on.
unfoldable pub split_loop : ℕ → Pages → ℕ → ℕ → Pages × ℕ
split_loop zero s from page = (s, page)
split_loop (suc c) s from page =
    let i = from + c in
    split_loop c
      (record s {
        order = update s.order page i;
        free_lists = update s.free_lists i (page ∷ []);
        free_list = update s.free_list page true;
      })
      from (page + pages_of i)

-- after the search: the block found on list `i` is split down to `from`
unfoldable pub split_block : Pages → ℕ → ℕ → ℕ → Pages × ℕ
split_block s from i page =
    let (t, p) = split_loop (i - from) s from page in
    (record t { order = update t.order p from }, p)

-- The first loop of buddy_pull_block, from the list `i` on; none is out of memory.
unfoldable pub pull_loop : ℕ → Pages → ℕ → ℕ → Option (Pages × ℕ)
pull_loop zero s from i = none
pull_loop (suc c) s from i =
    let rest = pull_loop c s from (suc i) in
    elim (buddy_list_pop s i) as (λ _. Option (Pages × ℕ)) [
      | some (p, t) ↦ some (split_block t from i p)
      | none ↦ rest
    ]

unfoldable pub buddy_pull_block : Pages → ℕ → Option (Pages × ℕ)
buddy_pull_block s from = pull_loop (page_max_depth - suc from) s from (suc from)

-- a block of order `i`, from its list or split off a larger one
unfoldable pub take_block : Pages → ℕ → Option (Pages × ℕ)
take_block s i = elim (buddy_list_pop s i) as (λ _. Option (Pages × ℕ)) [
  | some (p, t) ↦ some (t, p)
  | none ↦ buddy_pull_block s i
]

-- The loop of buddy_alloc: the least order that is enough; none is a size that is too large.
unfoldable pub order_loop : ℕ → ℕ → ℕ → Option ℕ
order_loop zero i size = none
order_loop (suc c) i size =
    let rest = order_loop c (suc i) size in
    if leb size (pages_of i * page_size) then some i else rest

abbrev pub mark_first : Pages × ℕ → Pages × ℕ
mark_first (s, p) = (record s { first_page = update s.first_page p true }, p)

unfoldable pub buddy_alloc : Pages → ℕ → Option (Pages × ℕ)
buddy_alloc s size = elim (order_loop page_max_depth 0 size) as (λ _. Option (Pages × ℕ)) [
  | none ↦ none
  | some i ↦ Option.map mark_first (take_block s i)
]

-- The two halves become the block of the left one, whose order is one more.
unfoldable pub merge : Pages → ℕ → ℕ → Pages × ℕ
merge s page p =
    let k = s.order page in
    if p / pages_of k % 2 == 1
    then (record s { order = update (update s.order p 0) page (suc k) }, page)
    else (record s { order = update (update s.order page 0) p (suc (s.order p)) }, p)

-- buddy_free calls itself with the merged block; none is a stop of the machine.
unfoldable pub buddy_free : ℕ → Pages → ℕ → Option Pages
buddy_free zero s page = none
buddy_free (suc fuel) s page =
    let k = s.order page in
    let b = buddy_find_buddy_index page k in
    let s1 : Pages = record s { first_page = update s.first_page page false } in
    if (k == page_max_order) || not (buddy_is_free_buddy s1 page b)
    then some (buddy_list_push s1 k page)
    else elim (buddy_list_remove (record s1 { free_list = update s1.free_list page false }) k b)
        as (λ _. Option Pages) [
          | none ↦ none
          | some s2 ↦ let (s3, q) = merge s2 page b in buddy_free fuel s3 q
        ]
