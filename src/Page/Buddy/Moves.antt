-- ===== src/Page/Buddy/Moves.antt =====
-- A block of src/kernel/buddy.c comes into the hand: off a free list, or given back; and out of it,
-- to a user.
use mathlib.Core.Path.{subst}
use cyanurus.Base.{
  Fresh-All, ==_refl, ℕ, ◌≡◌, ◌≢◌, ◌⊎◌, inl, inr, refl, sym, ap, ◌∙◌, true, false, Bool-cases, ◌==◌,
  arith, update, update-each, List, [], ◌∷◌, All, All_mono, All_zip, Fresh, Distinct, Elem,
  All-Elem,
}
use cyanurus.Page.Buddy.{Pages, without, contains}
use cyanurus.Page.Buddy.Heap.{IsHeap, InHand, Head, Disjoint, Fits, swap, off_ne}

pub without-All : (P : ℕ → Type 0) (x : ℕ) (qs : List ℕ) → All P qs → All P (without x qs)
without-All P x [] h = tt
without-All P x (q ∷ qs) h = elim (Bool-cases (q == x)) [
  | inl t ↦ rw t h.1
  | inr f ↦ rw f (h.0, without-All P x qs h.1)
]

pub Fresh-without : (a x : ℕ) (qs : List ℕ) → Fresh a qs → Fresh a (without x qs)
Fresh-without a x [] h = tt
Fresh-without a x (q ∷ qs) h = elim (Bool-cases (q == x)) [
  | inl t ↦ rw t h.1
  | inr f ↦ rw f (h.0, Fresh-without a x qs h.1)
]

pub Distinct-without : (x : ℕ) (qs : List ℕ) → Distinct qs → Distinct (without x qs)
Distinct-without x [] h = tt
Distinct-without x (q ∷ qs) h = elim (Bool-cases (q == x)) [
  | inl t ↦ rw t h.1
  | inr f ↦ rw f (Fresh-without q x qs h.0, Distinct-without x qs h.1)
]

pub without-gone : (x : ℕ) (qs : List ℕ) → Distinct qs → Fresh x (without x qs)
without-gone x [] h = tt
without-gone x (q ∷ qs) h = elim (Bool-cases (q == x)) [
  | inl t ↦ let e : q ≡ x = ground arith in rw t (subst (λ z. Fresh z qs) e h.0)
  | inr f ↦ rw f ((λ e. ground arith), without-gone x qs h.1)
]

pub Elem-without : (p x : ℕ) (qs : List ℕ) → x ≢ p → Elem p qs → Elem p (without x qs)
Elem-without p x [] n m = m
Elem-without p x (q ∷ qs) n (inl e) = let f : (q == x) ≡ false = ground arith in rw f (inl e)
Elem-without p x (q ∷ qs) n (inr m) = elim (Bool-cases (q == x)) [
  | inl t ↦ rw t m
  | inr f ↦ rw f (inr (Elem-without p x qs n m))
]

pub contains-Elem : (p : ℕ) (qs : List ℕ) → Elem p qs → contains p qs ≡ true
contains-Elem p [] m = absurd m
contains-Elem p (q ∷ qs) (inl e) = ground arith
contains-Elem p (q ∷ qs) (inr m) = let r = contains-Elem p qs m in ground arith

-- the block `x` taken off the list `k`
abbrev pub unlisted : Pages → ℕ → ℕ → Pages
unlisted s k x = record s {
  free_lists = update s.free_lists k (without x (s.free_lists k));
  free_list = update s.free_list x false;
}

pub unlisted-Head : (s : Pages) (k x p : ℕ) → Head (unlisted s k x) p → Head s p
unlisted-Head s k x p d = ground arith

Elem-unlisted :
    (lists : ℕ → List ℕ) (k j p x : ℕ)
    → x ≢ p
    → Elem p (lists j)
    → Elem p (update lists k (without x (lists k)) j)
Elem-unlisted lists k j p x n m = elim (Bool-cases (k == j)) [
  | inl t ↦
      let e : j ≡ k = ground arith in
      rw t (Elem-without p x (lists k) n (subst (λ i. Elem p (lists i)) e m))
  | inr f ↦ rw f m
]

kept : (s : Pages) (x p : ℕ) → update s.free_list x false p ≡ true → x ≢ p
kept s x p f e = ground arith

pub unlist :
    (s : Pages) (k x : ℕ)
    → IsHeap s
    → Elem x (s.free_lists k)
    → IsHeap (unlisted s k x) × InHand (unlisted s k x) x k
unlist s k x v m =
    let t : Pages = unlisted s k x in
    let u : (s.free_list x ≡ true) × (s.order x ≡ k) =
      All-Elem (λ p. (s.free_list p ≡ true) × (s.order p ≡ k)) x (s.free_lists k) (v.listed k) m in
    let back = λ (p : ℕ) (d : Head t p). unlisted-Head s k x p d in
    let unused : s.first_page x ≡ false = v.exclusive x u.0 in
    let gone = without-gone x (s.free_lists k) (v.once k) in
    let P = λ (j p : ℕ). (s.free_list p ≡ true) × (s.order p ≡ j) in
    let rest = without x (s.free_lists k) in
    let here =
      All_mono (λ p. (x ≢ p) × P k p) (λ p. (t.free_list p ≡ true) × (s.order p ≡ k)) rest
        (λ p c. (ground arith, c.1.1))
        (All_zip (λ p. x ≢ p) (P k) rest (Fresh-All x rest gone)
          (without-All (P k) x (s.free_lists k) (v.listed k))) in
    let elsewhere : (j : ℕ)
        → k ≢ j
        → All (λ p. (t.free_list p ≡ true) × (s.order p ≡ j)) (s.free_lists j) =
      λ j n.
        All_mono (P j) (λ p. (t.free_list p ≡ true) × (s.order p ≡ j)) (s.free_lists j)
          (λ p c. let y : x ≢ p = λ w. n (sym u.1 ∙ ap s.order w ∙ c.1) in (ground arith, c.1))
          (v.listed j) in
    (
      record {
        fits = λ p d. v.fits p (back p d);
        apart = λ p q d e n. v.apart p q (back p d) (back q e) n;
        exclusive = λ p f. v.exclusive p (ground arith);
        listed =
            update-each (λ j xs. All (λ p. (t.free_list p ≡ true) × (s.order p ≡ j)) xs)
              s.free_lists k (without x (s.free_lists k)) here elsewhere;
        once =
            update-each (λ j xs. Distinct xs) s.free_lists k (without x (s.free_lists k))
              (Distinct-without x (s.free_lists k) (v.once k)) (λ j n. v.once j);
        flagged = λ p f.
            Elem-unlisted s.free_lists k (s.order p) p x (kept s x p f)
              (v.flagged p (ground arith));
      },
      record {
        off = ground arith;
        unused = unused;
        fits = subst (λ z. Fits x z) u.1 (v.fits x (inl u.0));
        apart = λ q d.
            subst (λ z. Disjoint x z q (s.order q)) u.1
              (v.apart x q (inl u.0) (back q d) (λ y.
                let g : s.first_page q ≡ false = subst (λ z. s.first_page z ≡ false) y unused in
                ground arith));
      },
    )

released-Head :
    (s : Pages) (x p : ℕ)
    → Head (record s { first_page = update s.first_page x false }) p
    → Head s p
released-Head s x p d = ground arith

given_ne :
    (s : Pages) (x q : ℕ)
    → IsHeap s
    → s.first_page x ≡ true
    → Head (record s { first_page = update s.first_page x false }) q
    → x ≢ q
given_ne s x q v f (inl a) e =
    let g : s.first_page q ≡ true = ap s.first_page (sym e) ∙ f in
    let h = v.exclusive q a in ground arith
given_ne s x q v f (inr a) e = ground arith

-- a block given back by its user
pub release :
    (s : Pages) (x : ℕ)
    → IsHeap s
    → s.first_page x ≡ true
    → IsHeap (record s { first_page = update s.first_page x false })
      × InHand (record s { first_page = update s.first_page x false }) x (s.order x)
release s x v f =
    let t : Pages = record s { first_page = update s.first_page x false } in
    let back = λ (p : ℕ) (d : Head t p). released-Head s x p d in
    (
      record {
        fits = λ p d. v.fits p (back p d);
        apart = λ p q d e n. v.apart p q (back p d) (back q e) n;
        exclusive = λ p g. let y = v.exclusive p g in ground arith;
        listed = v.listed;
        once = v.once;
        flagged = v.flagged;
      },
      record {
        off = elim (Bool-cases (s.free_list x)) [
          | inl y ↦ let z = v.exclusive x y in absurd (ground arith)
          | inr y ↦ y
        ];
        unused = ground arith;
        fits = v.fits x (inr f);
        apart = λ q d. v.apart x q (inr f) (back q d) (given_ne s x q v f d);
      },
    )

handed-cases :
    (s : Pages) (x p : ℕ)
    → Head (record s { first_page = update s.first_page x true }) p
    → (x ≡ p) ⊎ ((x ≢ p) × Head s p)
handed-cases s x p d = elim (Bool-cases (x == p)) [
  | inl t ↦ inl (ground arith)
  | inr f ↦ inr ((λ e. ground arith), ground arith)
]

-- a block handed out
pub hand_out :
    (s : Pages) (x k : ℕ)
    → IsHeap s
    → InHand s x k
    → s.order x ≡ k
    → IsHeap (record s { first_page = update s.first_page x true })
hand_out s x k v h e =
    let cases = handed-cases s x in
    record {
      fits = λ p d. elim (cases p d) [
        | inl y ↦ subst (λ z. Fits z (s.order z)) y (rw e h.fits)
        | inr (y, c) ↦ v.fits p c
      ];
      apart = λ p q d f n. elim (cases p d) [
        | inl y ↦ elim (cases q f) [
          | inl z ↦ absurd (n (sym y ∙ z))
          | inr (z, c) ↦ subst (λ u. Disjoint u (s.order u) q (s.order q)) y (rw e (h.apart q c))
        ]
        | inr (y, b) ↦ elim (cases q f) [
          | inl z ↦
              subst (λ u. Disjoint p (s.order p) u (s.order u)) z
                (rw e (swap x k p (s.order p) (h.apart p b)))
          | inr (z, c) ↦ v.apart p q b c n
        ]
      ];
      exclusive = λ p f. let y = off_ne s x p h.off f in let z = v.exclusive p f in ground arith;
      listed = v.listed;
      once = v.once;
      flagged = v.flagged;
    }

-- the first block of a list
abbrev pub popped : Pages → ℕ → ℕ → List ℕ → Pages
popped s k p rest = record s {
  free_lists = update s.free_lists k rest;
  free_list = update s.free_list p false;
}

pub pop :
    (s : Pages) (k p : ℕ) (rest : List ℕ)
    → IsHeap s
    → s.free_lists k ≡ p ∷ rest
    → IsHeap (popped s k p rest) × InHand (popped s k p rest) p k × (s.order p ≡ k)
pop s k p rest v e =
    let m : Elem p (s.free_lists k) = rw e (inl refl) in
    let r = unlist s k p v m in
    let w : without p (s.free_lists k) ≡ rest = rw (e, ==_refl p) refl in
    let u =
      All-Elem (λ q. (s.free_list q ≡ true) × (s.order q ≡ k)) p (s.free_lists k) (v.listed k) m in
    let z = subst (λ qs. IsHeap (popped s k p qs) × InHand (popped s k p qs) p k) w r in
    (z.0, z.1, u.1)

-- The order of a page where no block begins does not matter.
pub reorder :
    (s : Pages) (order : ℕ → ℕ)
    → IsHeap s
    → ((q : ℕ) → Head s q → order q ≡ s.order q)
    → IsHeap (record s { order = order })
reorder s order v e = record {
  fits = λ p d. rw (e p d) (v.fits p d);
  apart = λ p q d f n. rw (e p d, e q f) (v.apart p q d f n);
  exclusive = v.exclusive;
  listed = λ k.
      All_mono (λ p. (s.free_list p ≡ true) × (s.order p ≡ k))
        (λ p. (s.free_list p ≡ true) × (order p ≡ k)) (s.free_lists k)
        (λ p c. (c.0, e p (inl c.0) ∙ c.1)) (v.listed k);
  once = v.once;
  flagged = λ p f. rw (e p (inl f)) (v.flagged p f);
}

pub reorder_hand :
    (s : Pages) (order : ℕ → ℕ) (x k : ℕ)
    → InHand s x k
    → ((q : ℕ) → Head s q → order q ≡ s.order q)
    → InHand (record s { order = order }) x k
reorder_hand s order x k h e = record {
  off = h.off;
  unused = h.unused;
  fits = h.fits;
  apart = λ q d. rw (e q d) (h.apart q d);
}

pub in_hand_ne : (s : Pages) (x k q : ℕ) → InHand s x k → Head s q → x ≢ q
in_hand_ne s x k q h (inl a) e = let g = ap s.free_list e ∙ a in let o = h.off in ground arith
in_hand_ne s x k q h (inr a) e = let g = ap s.first_page e ∙ a in let o = h.unused in ground arith
