-- ===== src/Page/Buddy/Alloc.antt =====
-- buddy_alloc of src/kernel/buddy.c.
use mathlib.Core.Path.{subst}
use cyanurus.Base.{
  ℕ, zero, suc, ◌+◌, ◌-◌, ◌≤◌, ◌<◌, ◌≡◌, ◌≢◌, ◌⊎◌, inl, inr, refl, sym, ap, ◌∙◌, true, false,
  Bool-cases, Option, none, some, ◌==◌, arith, update, List, [], ◌∷◌,
}
use cyanurus.Page.Buddy.{
  Pages, page_max_order, page_max_depth, pages_of, split_loop, split_block, pull_loop,
  buddy_pull_block, take_block,
}
use cyanurus.Page.Buddy.Heap.{
  IsHeap, InHand, InHand-left, InHand-right, Head, Head-cases, list_block, pow_pos,
}
use cyanurus.Page.Buddy.Moves.{popped, pop, reorder, reorder_hand, in_hand_ne}

-- What was handed out before stays what it was.
pub record Keeps (s t : Pages) : Type 0 where
  pub first : t.first_page ≡ s.first_page
  pub order : (q : ℕ) → s.first_page q ≡ true → t.order q ≡ s.order q

-- a block of order `k` in hand, and the rest in order
abbrev pub Taken : Pages → ℕ → Pages × ℕ → Type 0
Taken s k (t, p) = IsHeap t × InHand t p k × Keeps s t

-- `x` is on the list `i`, before `qs`, and the other half in hand
abbrev left_listed : Pages → ℕ → ℕ → List ℕ → Pages
left_listed s x i qs = record s {
  order = update s.order x i;
  free_lists = update s.free_lists i (x ∷ qs);
  free_list = update s.free_list x true;
}

abbrev Listed : Pages → ℕ → ℕ → List ℕ → Type 0
Listed s x i qs =
    IsHeap (left_listed s x i qs)
    × InHand (left_listed s x i qs) (x + pages_of i) i
    × Keeps s (left_listed s x i qs)

list_left :
    (s : Pages) (x i : ℕ) → IsHeap s → InHand s x (suc i) → s.free_lists i ≡ [] → Listed s x i []
list_left s x i v h e =
    let lists = update s.free_lists i (x ∷ s.free_lists i) in
    let order = update s.order x i in
    let r = list_block s x i order v (InHand-left s x i h) (ground arith) (λ q n. ground arith) in
    let b = InHand-right s x i h in
    let z = pow_pos i in
    let all : Listed s x i (s.free_lists i) = (
      r,
      record {
        off = let o = b.off in ground arith;
        unused = b.unused;
        fits = b.fits;
        apart = λ q d. elim (Head-cases s x q order lists d) [
          | inl y ↦ let g : order q ≡ i = ground arith in inr (rw (g, sym y) (omega arith))
          | inr (y, c) ↦ let g : order q ≡ s.order q = ground arith in rw g (b.apart q c)
        ];
      },
      record {
        first = refl;
        order = λ q f.
            let y : x ≢ q =
              λ w. (let g = ap s.first_page w ∙ f in let u = h.unused in ground arith) in
            ground arith;
      },
    ) in
    subst (λ qs. Listed s x i qs) e all

pub Keeps-trans : (s t u : Pages) → Keeps s t → Keeps t u → Keeps s u
Keeps-trans s t u a b = record {
  first = b.first ∙ a.first;
  order = λ q f. b.order q (ap (λ g. g q) a.first ∙ f) ∙ a.order q f;
}

split_loop-Taken :
    (c : ℕ) (s : Pages) (from page : ℕ)
    → IsHeap s
    → InHand s page (from + c)
    → ((j : ℕ) → from ≤ j → j < from + c → s.free_lists j ≡ [])
    → Taken s from (split_loop c s from page)
unfolding split_loop
split_loop-Taken zero s from page v h e =
    let z : from + 0 ≡ from = omega arith in
    (v, subst (λ k. InHand s page k) z h, record { first = refl; order = λ q f. refl })
split_loop-Taken (suc c) s from page v h e =
    let i = from + c in
    let n : from + suc c ≡ suc i = omega arith in
    let t = left_listed s page i [] in
    let r =
      list_left s page i v (subst (λ k. InHand s page k) n h) (e i (omega arith) (omega arith)) in
    let w =
      split_loop-Taken c t from (page + pages_of i) r.0 r.1 (λ j l m.
        let f = e j l (omega arith) in let g : (i == j) ≡ false = ground arith in rw g f) in
    (w.0, w.1, Keeps-trans s t (split_loop c t from (page + pages_of i)).0 r.2 w.2)

other_order : (s : Pages) (x k n q : ℕ) → InHand s x k → Head s q → update s.order x n q ≡ s.order q
other_order s x k n q h d = let y = in_hand_ne s x k q h d in ground arith

-- Changing the order of the block in hand changes nothing else.
order_in_hand :
    (s : Pages) (x k n : ℕ)
    → IsHeap s
    → InHand s x k
    → IsHeap (record s { order = update s.order x n })
      × InHand (record s { order = update s.order x n }) x k
      × Keeps s (record s { order = update s.order x n })
order_in_hand s x k n v h =
    let e = λ (q : ℕ) (d : Head s q). other_order s x k n q h d in
    (
      reorder s (update s.order x n) v e,
      reorder_hand s (update s.order x n) x k h e,
      record { first = refl; order = λ q f. e q (inr f) },
    )

split_block-Taken :
    (s : Pages) (from i page : ℕ)
    → from < i
    → IsHeap s
    → InHand s page i
    → ((j : ℕ) → from ≤ j → j < i → s.free_lists j ≡ [])
    → Taken s from (split_block s from i page)
      × ((split_block s from i page).0.order (split_block s from i page).1 ≡ from)
unfolding split_block
split_block-Taken s from i page l v h e =
    let n : from + (i - from) ≡ i = omega arith in
    let r =
      split_loop-Taken (i - from) s from page v (subst (λ k. InHand s page k) (sym n) h)
        (λ j a b. e j a (omega arith)) in
    let w = split_loop (i - from) s from page in
    let o = order_in_hand w.0 w.1 from from r.0 r.1 in
    (
      (o.0, o.1, Keeps-trans s w.0 (record w.0 { order = update w.0.order w.1 from }) r.2 o.2),
      ground arith,
    )

-- the free lists from `i` on, `n` of them, are empty
abbrev pub Empty : Pages → ℕ → ℕ → Type 0
Empty s zero i = Unit
Empty s (suc n) i = (s.free_lists i ≡ []) × Empty s n (suc i)

-- A block of order `k` is found, or there is none of that order or a larger one.
abbrev pub Outcome : Pages → ℕ → Option (Pages × ℕ) → Type 0
Outcome s k none = Empty s (page_max_depth - k) k
Outcome s k (some (t, p)) = Taken s k (t, p) × (t.order p ≡ k)

popped-Keeps : (s : Pages) (k p : ℕ) (rest : List ℕ) → Keeps s (popped s k p rest)
popped-Keeps s k p rest = record { first = refl; order = λ q f. refl }

abbrev Pulled : ℕ → Pages → ℕ → ℕ → Option (Pages × ℕ) → Type 0
Pulled c s from i none = Empty s c i
Pulled c s from i (some (t, p)) = Taken s from (t, p) × (t.order p ≡ from)

Pulled-suc :
    (c : ℕ) (s : Pages) (from i : ℕ) (o : Option (Pages × ℕ))
    → s.free_lists i ≡ []
    → Pulled c s from (suc i) o
    → Pulled (suc c) s from i o
Pulled-suc c s from i none e h = (e, h)
Pulled-suc c s from i (some (t, p)) e h = h

pull-nil :
    (c : ℕ) (s : Pages) (from i : ℕ)
    → s.free_lists i ≡ []
    → pull_loop (suc c) s from i ≡ pull_loop c s from (suc i)
unfolding pull_loop
pull-nil c s from i e = rw (pull_loop, e) refl

pull-cons :
    (c : ℕ) (s : Pages) (from i p : ℕ) (rest : List ℕ)
    → s.free_lists i ≡ p ∷ rest
    → pull_loop (suc c) s from i ≡ some (split_block (popped s i p rest) from i p)
unfolding pull_loop split_block
pull-cons c s from i p rest e = rw (pull_loop, e) refl

List-cases : (xs : List ℕ) → (xs ≡ []) ⊎ ((p : ℕ) × (rest : List ℕ) × (xs ≡ p ∷ rest))
List-cases [] = inl refl
List-cases (p ∷ rest) = inr (p, rest, refl)

below :
    (s : Pages) (i j : ℕ)
    → s.free_lists i ≡ []
    → (j < i → s.free_lists j ≡ [])
    → j < suc i
    → s.free_lists j ≡ []
below s i j e f l = elim (Bool-cases (i == j)) [
  | inl t ↦ let y : i ≡ j = ground arith in ap s.free_lists (sym y) ∙ e
  | inr n ↦ f (ground arith)
]

pull_loop-Outcome :
    (c : ℕ) (s : Pages) (from i : ℕ)
    → IsHeap s
    → from < i
    → i + c ≡ page_max_depth
    → ((j : ℕ) → from ≤ j → j < i → s.free_lists j ≡ [])
    → Pulled c s from i (pull_loop c s from i)
unfolding pull_loop
pull_loop-Outcome zero s from i v l n e = tt
pull_loop-Outcome (suc c) s from i v l n e = elim (List-cases (s.free_lists i)) [
  | inl y ↦
      let r =
        pull_loop-Outcome c s from (suc i) v (omega arith) (omega arith)
          (λ j a b. below s i j y (λ w. e j a w) (omega arith)) in
      rw (pull-nil c s from i y) (Pulled-suc c s from i (pull_loop c s from (suc i)) y r)
  | inr (p, rest, y) ↦
      let t = popped s i p rest in
      let u = pop s i p rest v y in
      let r =
        split_block-Taken t from i p l u.0 u.1
          (λ j a b. let f = e j a b in let g : (i == j) ≡ false = ground arith in rw g f) in
      rw (pull-cons c s from i p rest y) (
        (r.0.0, r.0.1, Keeps-trans s t (split_block t from i p).0 (popped-Keeps s i p rest) r.0.2),
        r.1,
      )
]

Pulled-Outcome :
    (s : Pages) (k : ℕ) (o : Option (Pages × ℕ))
    → page_max_depth - k ≡ suc (page_max_depth - suc k)
    → s.free_lists k ≡ []
    → Pulled (page_max_depth - suc k) s k (suc k) o
    → Outcome s k o
Pulled-Outcome s k none n e h = rw n (e, h)
Pulled-Outcome s k (some (t, p)) n e h = h

take-nil :
    (s : Pages) (k : ℕ)
    → s.free_lists k ≡ []
    → take_block s k ≡ pull_loop (page_max_depth - suc k) s k (suc k)
unfolding take_block buddy_pull_block
take-nil s k e = rw (take_block, e) refl

take-cons :
    (s : Pages) (k p : ℕ) (rest : List ℕ)
    → s.free_lists k ≡ p ∷ rest
    → take_block s k ≡ some (popped s k p rest, p)
unfolding take_block
take-cons s k p rest e = rw (take_block, e) refl

pub take_block-Outcome :
    (s : Pages) (k : ℕ) → IsHeap s → k ≤ page_max_order → Outcome s k (take_block s k)
take_block-Outcome s k v l = elim (List-cases (s.free_lists k)) [
  | inl y ↦
      let n : page_max_depth - k ≡ suc (page_max_depth - suc k) = omega arith in
      let r =
        pull_loop-Outcome (page_max_depth - suc k) s k (suc k) v (omega arith) (omega arith)
          (λ j a b. let z : j ≡ k = omega arith in ap s.free_lists z ∙ y) in
      rw (take-nil s k y)
        (Pulled-Outcome s k (pull_loop (page_max_depth - suc k) s k (suc k)) n y r)
  | inr (p, rest, y) ↦
      let u = pop s k p rest v y in
      rw (take-cons s k p rest y) ((u.0, u.1, popped-Keeps s k p rest), u.2)
]
