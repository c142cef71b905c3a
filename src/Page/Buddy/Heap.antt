-- ===== src/Page/Buddy/Heap.antt =====
-- The invariant of the page allocator src/kernel/buddy.c: blocks that do not overlap.
use native.Mathlib.Numerals.{unary_clauses}
use mathlib.Core.Path.{subst}
use cyanurus.Base.{
  All-Fresh, ==_refl, ℕ, zero, suc, ◌+◌, ◌*◌, ◌≤◌, ◌<◌, ◌≡◌, ◌≢◌, ◌⊎◌, inl, inr, refl, sym, ap, ◌∙◌,
  true, false, Bool-cases, ◌==◌, arith, update, update-each, List, ◌∷◌, All, All_mono, Distinct,
  Elem,
}
use cyanurus.Page.{page_num}
use cyanurus.Page.Buddy.{Pages, page_max_order, pages_of}

pub pow_suc : (k : ℕ) → pages_of (suc k) ≡ pages_of k + pages_of k
pow_suc k = simp unary_clauses (omega arith)

pub pow_pos : (k : ℕ) → 0 < pages_of k
pow_pos zero = omega arith
pow_pos (suc k) = let e = pow_suc k in let l = pow_pos k in omega arith

-- a block begins at `p`: on a free list, or handed out
abbrev pub Head : Pages → ℕ → Type 0
Head s p = (s.free_list p ≡ true) ⊎ (s.first_page p ≡ true)

-- two blocks without a common page
abbrev pub Disjoint : ℕ → ℕ → ℕ → ℕ → Type 0
Disjoint p j q k = (p + pages_of j ≤ q) ⊎ (q + pages_of k ≤ p)

pub swap : (p j q k : ℕ) → Disjoint p j q k → Disjoint q k p j
swap p j q k (inl e) = inr e
swap p j q k (inr e) = inl e

-- a block of order `k` that lies in the memory, aligned to its length
abbrev pub Fits : ℕ → ℕ → Type 0
Fits p k = (p + pages_of k ≤ page_num) × (k ≤ page_max_order) × ((m : ℕ) × (p ≡ m * pages_of k))

pub record IsHeap (s : Pages) : Type 0 where
  pub fits : (p : ℕ) → Head s p → Fits p (s.order p)
  pub apart : (p q : ℕ) → Head s p → Head s q → p ≢ q → Disjoint p (s.order p) q (s.order q)
  pub exclusive : (p : ℕ) → s.free_list p ≡ true → s.first_page p ≡ false
  pub listed : (k : ℕ) → All (λ p. (s.free_list p ≡ true) × (s.order p ≡ k)) (s.free_lists k)
  pub once : (k : ℕ) → Distinct (s.free_lists k)
  pub flagged : (p : ℕ) → s.free_list p ≡ true → Elem p (s.free_lists (s.order p))

-- a block of order `k` on its way between the lists and the user
pub record InHand (s : Pages) (x k : ℕ) : Type 0 where
  pub off : s.free_list x ≡ false
  pub unused : s.first_page x ≡ false
  pub fits : Fits x k
  pub apart : (q : ℕ) → Head s q → Disjoint x k q (s.order q)

-- No block begins inside a block in hand.
pub InHand-inside :
    (s : Pages) (x k q : ℕ)
    → InHand s x k
    → x ≤ q
    → q < x + pages_of k
    → (s.free_list q ≡ false) × (s.first_page q ≡ false)
InHand-inside s x k q h l m =
    let w = pow_pos (s.order q) in
    (
      elim (Bool-cases (s.free_list q)) [
        | inl t ↦ let d = h.apart q (inl t) in absurd (ground arith)
        | inr f ↦ f
      ],
      elim (Bool-cases (s.first_page q)) [
        | inl t ↦ let d = h.apart q (inr t) in absurd (ground arith)
        | inr f ↦ f
      ],
    )

pub double : (m w : ℕ) → m * (w + w) ≡ (m + m) * w
double m w = omega arith

after : (m w : ℕ) → m * (w + w) + w ≡ (m + m + 1) * w
after m w = omega arith

-- The two halves of a block in hand.
pub Fits-halves : (x k : ℕ) → Fits x (suc k) → Fits x k × Fits (x + pages_of k) k
Fits-halves x k (l, b, (m, e)) =
    let w = pow_suc k in
    let f : x ≡ m * (pages_of k + pages_of k) = e ∙ ap (λ z. m * z) w in
    (
      (omega arith, omega arith, (m + m, f ∙ double m (pages_of k))),
      (omega arith, omega arith, (m + m + 1, ap (λ z. z + pages_of k) f ∙ after m (pages_of k))),
    )

pub InHand-left : (s : Pages) (x k : ℕ) → InHand s x (suc k) → InHand s x k
InHand-left s x k h =
    let w = pow_suc k in
    record {
      off = h.off;
      unused = h.unused;
      fits = (Fits-halves x k h.fits).0;
      apart = λ q d. let a = h.apart q d in ground arith;
    }

pub InHand-right : (s : Pages) (x k : ℕ) → InHand s x (suc k) → InHand s (x + pages_of k) k
InHand-right s x k h =
    let w = pow_suc k in
    let z = pow_pos k in
    let i = InHand-inside s x (suc k) (x + pages_of k) h (omega arith) (omega arith) in
    record {
      off = i.0;
      unused = i.1;
      fits = (Fits-halves x k h.fits).1;
      apart = λ q d. let a = h.apart q d in ground arith;
    }

-- what begins a block once `x` is on a list
pub Head-cases :
    (s : Pages) (x p : ℕ) (order : ℕ → ℕ) (lists : ℕ → List ℕ)
    → Head (record s { order = order; free_lists = lists; free_list = update s.free_list x true }) p
    → (x ≡ p) ⊎ ((x ≢ p) × Head s p)
Head-cases s x p order lists d = elim (Bool-cases (x == p)) [
  | inl t ↦ inl (ground arith)
  | inr f ↦ inr ((λ e. ground arith), ground arith)
]

pub off_ne : (s : Pages) (x p : ℕ) → s.free_list x ≡ false → s.free_list p ≡ true → x ≢ p
off_ne s x p f t e = let g : s.free_list x ≡ true = ap s.free_list e ∙ t in ground arith

pub Elem-first : (lists : ℕ → List ℕ) (k x : ℕ) → Elem x (update lists k (x ∷ lists k) k)
Elem-first lists k x = rw (==_refl k) (inl refl)

pub Elem-later :
    (lists : ℕ → List ℕ) (k j p x : ℕ) → Elem p (lists j) → Elem p (update lists k (x ∷ lists k) j)
Elem-later lists k j p x m = elim (Bool-cases (k == j)) [
  | inl t ↦ let e : j ≡ k = ground arith in rw t (inr (subst (λ i. Elem p (lists i)) e m))
  | inr f ↦ rw f m
]

-- A block in hand goes on its free list.
pub list_block :
    (s : Pages) (x k : ℕ) (order : ℕ → ℕ)
    → IsHeap s
    → InHand s x k
    → order x ≡ k
    → ((q : ℕ) → x ≢ q → order q ≡ s.order q)
    → IsHeap (record s {
      order = order;
      free_lists = update s.free_lists k (x ∷ s.free_lists k);
      free_list = update s.free_list x true;
    })
list_block s x k order v h e o =
    let lists = update s.free_lists k (x ∷ s.free_lists k) in
    let cases = λ (p : ℕ). Head-cases s x p order lists in
    let still = λ (j : ℕ).
      All_mono (λ p. (s.free_list p ≡ true) × (s.order p ≡ j))
        (λ p. (update s.free_list x true p ≡ true) × (order p ≡ j)) (s.free_lists j)
        (λ p c. (ground arith, o p (off_ne s x p h.off c.0) ∙ c.1)) (v.listed j) in
    record {
      fits = λ p d. elim (cases p d) [
        | inl y ↦ subst (λ z. Fits z (order z)) y (rw e h.fits)
        | inr (y, c) ↦ rw (o p y) (v.fits p c)
      ];
      apart = λ p q d f n. elim (cases p d) [
        | inl y ↦ elim (cases q f) [
          | inl z ↦ absurd (n (sym y ∙ z))
          | inr (z, c) ↦
              rw (o q z) (subst (λ u. Disjoint u (order u) q (s.order q)) y (rw e (h.apart q c)))
        ]
        | inr (y, b) ↦ elim (cases q f) [
          | inl z ↦ rw (o p y) (
              subst (λ u. Disjoint p (s.order p) u (order u)) z
                (rw e (swap x k p (s.order p) (h.apart p b))))
          | inr (z, c) ↦ rw (o p y, o q z) (v.apart p q b c n)
        ]
      ];
      exclusive = λ p f. elim (cases p (inl f)) [
        | inl y ↦ subst (λ z. s.first_page z ≡ false) y h.unused
        | inr (y, c) ↦ v.exclusive p (ground arith)
      ];
      listed =
          update-each (λ j xs. All (λ p. (update s.free_list x true p ≡ true) × (order p ≡ j)) xs)
            s.free_lists k (x ∷ s.free_lists k) ((ground arith, e), still k) (λ j n. still j);
      once =
          update-each (λ j xs. Distinct xs) s.free_lists k (x ∷ s.free_lists k)
            (
              All-Fresh (λ p. (s.free_list p ≡ true) × (s.order p ≡ k)) x (s.free_lists k)
                  (λ p c. off_ne s x p h.off c.0) (v.listed k),
              v.once k,
            )
            (λ j n. v.once j);
      flagged = λ p f. elim (cases p (inl f)) [
        | inl y ↦ subst (λ z. Elem z (lists (order z))) y (rw e (Elem-first s.free_lists k x))
        | inr (y, c) ↦
            rw (o p y) (Elem-later s.free_lists k (s.order p) p x (v.flagged p (ground arith)))
      ];
    }
