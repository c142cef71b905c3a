-- ===== src/Page/Buddy/Init.antt =====
-- buddy_init of src/kernel/buddy.c.
use cyanurus.Base.{
  ℕ, zero, suc, ◌+◌, ◌*◌, ◌/◌, ◌%◌, ◌≤◌, ◌<◌, ◌≡◌, inl, inr, refl, true, Bool-cases, ◌==◌, arith,
  update-each, [], Elem, All, Fresh, Distinct,
}
use cyanurus.Page.{page_num}
use cyanurus.Page.Buddy.{page_max_order, pages_of, largest, buddy_init}
use cyanurus.Page.Buddy.Heap.{IsHeap, Head}

-- the first pages of the blocks of the largest order
abbrev IsFirst : ℕ → Type 0
IsFirst p = (p < page_num) × (p % pages_of page_max_order ≡ 0)

init-Head : (p : ℕ) → Head buddy_init p → IsFirst p
unfolding buddy_init
init-Head p d = ground arith

init-order : (p : ℕ) → IsFirst p → buddy_init.order p ≡ page_max_order
unfolding buddy_init
init-order p d = ground arith

largest-All :
    (n i : ℕ)
    → i + n ≤ 16
    → All
        (λ p. (buddy_init.free_list p ≡ true) × (buddy_init.order p ≡ page_max_order))
        (largest n i)
unfolding buddy_init
largest-All zero i l = tt
largest-All (suc n) i l =
    let e : i * 1024 % 1024 ≡ 0 = omega arith in
    ((ground arith, ground arith), largest-All n (suc i) (omega arith))

largest-Fresh : (n i m : ℕ) → m < i → Fresh (m * pages_of page_max_order) (largest n i)
largest-Fresh zero i m l = tt
largest-Fresh (suc n) i m l = ((λ e. omega arith), largest-Fresh n (suc i) m (omega arith))

largest-Distinct : (n i : ℕ) → Distinct (largest n i)
largest-Distinct zero i = tt
largest-Distinct (suc n) i = (largest-Fresh n (suc i) i (omega arith), largest-Distinct n (suc i))

largest-Elem :
    (n i p m : ℕ) → i ≤ m → m < i + n → p ≡ m * pages_of page_max_order → Elem p (largest n i)
largest-Elem zero i p m l h e = absurd (omega arith)
largest-Elem (suc n) i p m l h e = elim (Bool-cases (i == m)) [
  | inl t ↦ let y : i ≡ m = ground arith in inl (rw y e)
  | inr f ↦ inr (largest-Elem n (suc i) p m (ground arith) (omega arith) e)
]

-- At the start all the memory is in blocks of the largest order.
pub buddy_init-IsHeap : IsHeap buddy_init
unfolding buddy_init
buddy_init-IsHeap = record {
  fits = λ p d.
      (let f = init-Head p d in
        let o = init-order p f in rw o (omega arith, omega arith, (p / 1024, omega arith)));
  apart = λ p q d e n.
      (let f = init-Head p d in
        let g = init-Head q e in
        let o = init-order p f in let u = init-order q g in rw (o, u) (omega arith));
  exclusive = λ p f. refl;
  listed =
      update-each (λ k xs. All (λ p. (buddy_init.free_list p ≡ true) × (buddy_init.order p ≡ k)) xs)
        (λ k. []) page_max_order (largest 16 0) (largest-All 16 0 (omega arith)) (λ k n. tt);
  once =
      update-each (λ k xs. Distinct xs) (λ k. []) page_max_order (largest 16 0)
        (largest-Distinct 16 0) (λ k n. tt);
  flagged = λ p d.
      (let f = init-Head p (inl d) in
        let o = init-order p f in
        rw o (largest-Elem 16 0 p (p / 1024) (omega arith) (omega arith) (omega arith)));
}
