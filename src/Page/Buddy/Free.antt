-- ===== src/Page/Buddy/Free.antt =====
-- buddy_free of src/kernel/buddy.c.
use mathlib.Core.Path.{subst}
use cyanurus.Base.{
  ==_iff, fun_ext, ℕ, zero, suc, ◌+◌, ◌-◌, ◌*◌, ◌/◌, ◌%◌, ◌<◌, ◌≤◌, ◌≡◌, ◌≢◌, ◌⊎◌, inl, inr, refl,
  sym, ap, ◌∙◌, Bool, true, false, not, Bool-cases, Option, some, ◌&&◌, ◌||◌, ◌==◌, arith, update,
  Elem,
}
use cyanurus.Page.Buddy.{
  Pages, page_max_order, page_max_depth, pages_of, buddy_find_buddy_index, buddy_list_push,
  buddy_list_remove, buddy_is_free_buddy, merge, buddy_free,
}
use cyanurus.Page.Buddy.Heap.{IsHeap, InHand, Head, list_block, pow_pos, pow_suc, double}
use cyanurus.Page.Buddy.Moves.{
  unlisted, unlisted-Head, unlist, release, reorder, reorder_hand, in_hand_ne, contains-Elem,
}
use cyanurus.Page.Buddy.Alloc.{Keeps, Keeps-trans}

mul_div : (m w : ℕ) → 0 < w → (m * w) / w ≡ m
mul_div m w h = grind arith

-- a flag written with the value that it has
update_same {ℓ} : {A : Type ℓ} (f : ℕ → A) (p : ℕ) (v : A) → f p ≡ v → update f p v ≡ f
update_same f p v e = fun_ext λ q. same q
  where
    same : (q : ℕ) → update f p v q ≡ f q
    same q = elim (Bool-cases (p == q)) [
      | inl t ↦ let y : p ≡ q = ground arith in rw t (sym e ∙ ap f y)
      | inr n ↦ rw n refl
    ]

-- two neighbours of the same order, the left one at an even place
abbrev pub Halves : ℕ → ℕ → ℕ → Type 0
Halves a b k = (b ≡ a + pages_of k) × ((m : ℕ) × (a ≡ (m + m) * pages_of k))

next_place : (n w : ℕ) → (n + 1) * w ≡ n * w + w
next_place n w = omega arith

even_place : (j : ℕ) → ((j + j) % 2 == 1) ≡ false
even_place j = let e : (j + j) % 2 ≡ 0 = omega arith in rw e refl

odd_place : (j : ℕ) → ((j + j + 1) % 2 == 1) ≡ true
odd_place j = let e : (j + j + 1) % 2 ≡ 1 = omega arith in rw e refl

from_odd :
    (p w j : ℕ)
    → 0 < w
    → p ≡ (j + j + 1) * w
    → (((p - w) / w % 2 == 1) ≡ false) × (p ≡ (p - w) + w) × (p - w ≡ (j + j) * w)
from_odd p w j z e =
    let g : p ≡ (j + j) * w + w = e ∙ next_place (j + j) w in
    let b : p - w ≡ (j + j) * w = omega arith in
    let d : (p - w) / w ≡ j + j = ap (λ x. x / w) b ∙ mul_div (j + j) w z in
    (ap (λ x. x % 2 == 1) d ∙ even_place j, omega arith, b)

from_even : (p w j : ℕ) → 0 < w → p ≡ (j + j) * w → ((p + w) / w % 2 == 1) ≡ true
from_even p w j z e =
    let b : p + w ≡ (j + j + 1) * w = ap (λ x. x + w) e ∙ sym (next_place (j + j) w) in
    let d : (p + w) / w ≡ j + j + 1 = ap (λ x. x / w) b ∙ mul_div (j + j + 1) w z in
    ap (λ x. x % 2 == 1) d ∙ odd_place j

-- A block and its buddy are the halves of one block, and the test of buddy_free tells which is left.
buddy-Halves :
    (p k : ℕ)
    → ((m : ℕ) × (p ≡ m * pages_of k))
    → let b = buddy_find_buddy_index p k in
      (((b / pages_of k % 2 == 1) ≡ true) × Halves p b k)
      ⊎ (((b / pages_of k % 2 == 1) ≡ false) × Halves b p k)
buddy-Halves p k (m, e) =
    let w = pages_of k in
    let z = pow_pos k in
    let d : p / w ≡ m = ap (λ x. x / w) e ∙ mul_div m w z in
    elim (Bool-cases (m % 2 == 1)) [
      | inl t ↦
          let f : (p / w % 2 == 1) ≡ true = ap (λ x. x % 2 == 1) d ∙ t in
          let j = m / 2 in
          let n : m ≡ j + j + 1 = omega (arith, (==_iff (m % 2) 1).0 t) in
          let r = from_odd p w j z (e ∙ ap (λ x. x * w) n) in rw f (inr (r.0, (r.1, (j, r.2))))
      | inr n ↦
          let f : (p / w % 2 == 1) ≡ false = ap (λ x. x % 2 == 1) d ∙ n in
          let j = m / 2 in
          let y : m ≡ j + j = ground arith in
          let g = e ∙ ap (λ x. x * w) y in rw f (inl (from_even p w j z g, (refl, (j, g))))
    ]

-- two halves in hand make one block in hand
both :
    (s : Pages) (a b k : ℕ)
    → Halves a b k
    → k < page_max_order
    → InHand s a k
    → InHand s b k
    → InHand s a (suc k)
both s a b k (e, (m, f)) l h g =
    let w = pow_suc k in
    let z = pow_pos k in
    record {
      off = h.off;
      unused = h.unused;
      fits = (
        let y = g.fits.0 in omega arith,
        omega arith,
        (m, f ∙ sym (double m (pages_of k)) ∙ ap (λ x. m * x) (sym w)),
      );
      apart = λ q d.
          (let x = h.apart q d in
            let y = g.apart q d in let u = pow_pos (s.order q) in ground arith);
    }

-- the page `i` is one of the block `p` of order `k`
abbrev pub InBlock : ℕ → ℕ → ℕ → Type 0
InBlock p k i = (p ≤ i) × (i < p + pages_of k)

-- the page is one of a block on a free list
abbrev pub IsFree : Pages → ℕ → Type 0
IsFree s i = (b : ℕ) × (s.free_list b ≡ true) × InBlock b (s.order b) i

-- the blocks on the lists are still on them, with their orders
abbrev Still : Pages → Pages → Type 0
Still s t = (c : ℕ) → s.free_list c ≡ true → (t.free_list c ≡ true) × (t.order c ≡ s.order c)

abbrev Joined : ℕ → ℕ → ℕ → ℕ → Type 0
Joined page b q k = (i : ℕ) → InBlock page k i ⊎ InBlock b k i → InBlock q (suc k) i

-- the merged block in hand, with its order
abbrev Merged : Pages → ℕ → ℕ → ℕ → Pages × ℕ → Type 0
Merged s page b k (t, q) =
    IsHeap t × InHand t q (suc k) × (t.order q ≡ suc k) × Keeps s t × Still s t × Joined page b q k

Halves-Joined : (a b k : ℕ) → Halves a b k → Joined a b a k
Halves-Joined a b k (e, m) i (inl h) = let w = pow_suc k in let z = pow_pos k in omega arith
Halves-Joined a b k (e, m) i (inr h) = let w = pow_suc k in let z = pow_pos k in omega arith

Joined-swap : (a b q k : ℕ) → Joined a b q k → Joined b a q k
Joined-swap a b q k h i (inl x) = h i (inr x)
Joined-swap a b q k h i (inr x) = h i (inl x)

merge-left :
    (s : Pages) (page b : ℕ)
    → (b / pages_of (s.order page) % 2 == 1) ≡ true
    → merge s page b
      ≡ (record s { order = update (update s.order b 0) page (suc (s.order page)) }, page)
unfolding merge
merge-left s page b t = rw (merge, t) refl

merge-right :
    (s : Pages) (page b : ℕ)
    → (b / pages_of (s.order page) % 2 == 1) ≡ false
    → merge s page b ≡ (record s { order = update (update s.order page 0) b (suc (s.order b)) }, b)
unfolding merge
merge-right s page b t = rw (merge, t) refl

-- The orders of the two halves change, where no block begins any more.
reorder-Merged :
    (s : Pages) (page b a c k n : ℕ)
    → IsHeap s
    → InHand s a (suc k)
    → InHand s c k
    → n ≡ suc k
    → Joined page b a k
    → Merged s page b k (record s { order = update (update s.order c 0) a n }, a)
reorder-Merged s page b a c k n v h g y j =
    let e : (q : ℕ) → Head s q → update (update s.order c 0) a n q ≡ s.order q = λ q d.
      (let x = in_hand_ne s a (suc k) q h d in let z = in_hand_ne s c k q g d in ground arith) in
    (
      reorder s (update (update s.order c 0) a n) v e,
      reorder_hand s (update (update s.order c 0) a n) a (suc k) h e,
      ground arith,
      record { first = refl; order = λ q f. e q (inr f) },
      (λ q f. (f, e q (inl f))),
      j,
    )

merge-Merged :
    (s : Pages) (page : ℕ)
    → let k = s.order page in
      let b = buddy_find_buddy_index page k in
      IsHeap s
      → InHand s page k
      → InHand s b k
      → s.order b ≡ k
      → k < page_max_order
      → Merged s page b k (merge s page b)
merge-Merged s page v h g o l =
    let k = s.order page in
    let b = buddy_find_buddy_index page k in
    elim (buddy-Halves page k h.fits.2) [
      | inl (t, e) ↦ rw (merge-left s page b t) (
          reorder-Merged s page b page b k (suc k) v (both s page b k e l h g) g refl
            (Halves-Joined page b k e))
      | inr (t, e) ↦ rw (merge-right s page b t) (
          reorder-Merged s page b b page k (suc (s.order b)) v (both s b page k e l g h) h
            (ap suc o) (Joined-swap b page b k (Halves-Joined b page k e)))
    ]

-- the page given back is no longer in use
abbrev given : Pages → ℕ → Pages
given s page = record s { first_page = update s.first_page page false }

-- what buddy_free makes of the block `page`, which `s` has in hand
abbrev Freed : Pages → ℕ → ℕ → Option Pages → Type 0
Freed s page k o =
    (t : Pages) × (o ≡ some t)
    × IsHeap t
    × Keeps s t
    × ((i : ℕ) → IsFree s i ⊎ InBlock page k i → IsFree t i)

-- put on its list, the block is free, and so is what was
push-IsFree :
    (s : Pages) (page i : ℕ)
    → IsFree s i ⊎ InBlock page (s.order page) i
    → IsFree (buddy_list_push s (s.order page) page) i
push-IsFree s page i (inl (b, f, m)) = (b, ground arith, m)
push-IsFree s page i (inr m) = (page, ground arith, m)

-- what was free in `s`, or is in the block, is free or in the merged block
merge-IsFree :
    (s s3 : Pages) (page b q k i : ℕ)
    → s.order b ≡ k
    → Still (unlisted s k b) s3
    → Joined page b q k
    → IsFree s i ⊎ InBlock page k i
    → IsFree s3 i ⊎ InBlock q (suc k) i
merge-IsFree s s3 page b q k i o h j (inr m) = inr (j i (inl m))
merge-IsFree s s3 page b q k i o h j (inl (c, f, m)) = elim (Bool-cases (b == c)) [
  | inl t ↦
      let e : c ≡ b = ground arith in
      inr (j i (inr (subst (λ x. InBlock b x i) o (subst (λ x. InBlock x (s.order x) i) e m))))
  | inr n ↦ let y = h c (ground arith) in inl (c, y.0, subst (λ x. InBlock c x i) (sym y.1) m)
]

free_step-push :
    (fuel : ℕ) (s : Pages) (page : ℕ)
    → let k = s.order page in
      (k == page_max_order)
          || not (buddy_is_free_buddy (given s page) page (buddy_find_buddy_index page k))
        ≡ true
      → buddy_free (suc fuel) s page ≡ some (buddy_list_push (given s page) k page)
unfolding buddy_free
free_step-push fuel s page t = rw (buddy_free, t) refl

free_step-merge :
    (fuel : ℕ) (s : Pages) (page : ℕ) (r : Pages)
    → let k = s.order page in
      let b = buddy_find_buddy_index page k in
      (k == page_max_order) || not (buddy_is_free_buddy (given s page) page b) ≡ false
      → buddy_list_remove (record (given s page) { free_list = update s.free_list page false }) k b
        ≡ some r
      → buddy_free (suc fuel) s page ≡ buddy_free fuel (merge r page b).0 (merge r page b).1
unfolding buddy_free
free_step-merge fuel s page r t e = rw (buddy_free, t, e) refl

neither : (x y : Bool) → x || not y ≡ false → (x ≡ false) × (y ≡ true)
neither true y e = absurd (ground arith)
neither false true e = (refl, refl)
neither false false e = absurd (ground arith)

each : (x y : Bool) → x && y ≡ true → (x ≡ true) × (y ≡ true)
each true true e = (refl, refl)
each true false e = absurd (ground arith)
each false y e = absurd (ground arith)

-- A block in hand stays in hand when another one is taken off its list.
unlisted-InHand : (s : Pages) (x j k b : ℕ) → InHand s x j → InHand (unlisted s k b) x j
unlisted-InHand s x j k b h = record {
  off = let o = h.off in ground arith;
  unused = h.unused;
  fits = h.fits;
  apart = λ q d. h.apart q (unlisted-Head s k b q d);
}

-- The rounds of buddy_free: no order is larger than PAGE_MAX_ORDER, so a round for each is enough.
free_loop :
    (fuel : ℕ) (s : Pages) (page : ℕ)
    → IsHeap (given s page)
    → InHand (given s page) page (s.order page)
    → page_max_order < s.order page + fuel
    → Freed (given s page) page (s.order page) (buddy_free fuel s page)
free_loop zero s page v h l = let y = h.fits.1 in absurd (omega arith)
free_loop (suc fuel) s page v h l =
    let k = s.order page in
    let b = buddy_find_buddy_index page k in
    let g : Pages = given s page in
    elim (Bool-cases ((k == page_max_order) || not (buddy_is_free_buddy g page b))) [
      | inl t ↦ (
        buddy_list_push g k page,
        free_step-push fuel s page t,
        list_block g page k g.order v h refl (λ q n. refl),
        record { first = refl; order = λ q f. refl },
        λ i m. push-IsFree g page i m,
      )
      | inr t ↦
          let n = neither (k == page_max_order) (buddy_is_free_buddy g page b) t in
          let f = each (s.free_list b) (s.order b == k) n.1 in
          let o : s.order b ≡ k = (==_iff (s.order b) k).0 f.1 in
          let m : Elem b (s.free_lists k) =
            subst (λ j. Elem b (s.free_lists j)) o (v.flagged b f.0) in
          let u = unlist g k b v m in
          let s2 : Pages = unlisted g k b in
          let same = update_same s.free_list page false h.off in
          let w : buddy_list_remove (record g { free_list = update s.free_list page false }) k b
              ≡ some s2 =
            ap (λ z. buddy_list_remove (record g { free_list = z }) k b) same
            ∙ rw (contains-Elem b (s.free_lists k) m) refl in
          let c = h.fits.1 in
          let kb : (k == page_max_order) ≡ false = n.0 in
          let r = merge-Merged s2 page u.0 (unlisted-InHand g page k k b h) u.1 o (ground arith) in
          let s3 = (merge s2 page b).0 in
          let q = (merge s2 page b).1 in
          let e : given s3 q ≡ s3 =
            ap (λ z. record s3 { first_page = z }) (update_same s3.first_page q false r.1.unused) in
          let z =
            free_loop fuel s3 q (subst IsHeap (sym e) r.0)
              (subst (λ j. InHand (given s3 q) q j) (sym r.2)
                (subst (λ x. InHand x q (suc k)) (sym e) r.1))
              (rw r.2 (omega arith)) in
          let a : Keeps g s2 = record { first = refl; order = λ q f. refl } in
          (
            z.0,
            free_step-merge fuel s page s2 t w ∙ z.1,
            z.2,
            Keeps-trans g s2 z.0 a (Keeps-trans s2 s3 z.0 r.3 (subst (λ x. Keeps x z.0) e z.3)),
            λ i m. z.4 i (
                subst (λ j. IsFree s3 i ⊎ InBlock q j i) (sym r.2)
                  (merge-IsFree g s3 page b q k i o r.4 r.5 m)),
          )
    ]

-- buddy_free of a block that was handed out ends and never finds a broken list; the blocks are in
-- order afterwards, the block is not handed out any more, any other block `q` that is handed out
-- stays what it was, and the pages of the block and those that were free are in blocks on the free
-- lists.
pub buddy_free-IsHeap :
    (s : Pages) (page q : ℕ)
    → IsHeap s
    → s.first_page page ≡ true
    → s.first_page q ≡ true
    → page ≢ q
    → (t : Pages) × (buddy_free page_max_depth s page ≡ some t)
      × IsHeap t
      × (t.first_page page ≡ false)
      × (t.first_page q ≡ true)
      × (t.order q ≡ s.order q)
      × ((i : ℕ) → IsFree s i ⊎ InBlock page (s.order page) i → IsFree t i)
buddy_free-IsHeap s page q v f g n =
    let r = release s page v f in
    let (t, e, w, k, c) =
      free_loop page_max_depth s page r.0 r.1 (let y = r.1.fits.1 in omega arith) in
    let y : update s.first_page page false q ≡ true = ground arith in
    (t, e, w, ap (λ z. z page) k.first ∙ ground arith, ap (λ z. z q) k.first ∙ y, k.order q y, c)
