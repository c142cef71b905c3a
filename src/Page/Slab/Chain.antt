-- ===== src/Page/Slab/Chain.antt =====
-- The free objects of one slab of src/kernel/slab.c.
use cyanurus.Base.{
  ℕ, zero, suc, ◌+◌, ◌<◌, ◌≤◌, ◌≡◌, refl, sym, ◌∙◌, Bool, true, false, Bool-cases, inl, inr, List,
  [], ◌∷◌, ◌==◌, arith, update, All, Fresh, Distinct, ne→==_false, Fresh_of_eq,
}
use cyanurus.Page.Slab.{slab_free_end, Slab, link_loop, slab_new, take_object, give_object}

-- From position `a` the numbers lead through the objects to the end, which is position `n`.
abbrev pub Chain : ℕ → (ℕ → ℕ) → ℕ → List ℕ → Type 0
Chain n numbers a [] = a ≡ n
Chain n numbers a (x ∷ xs) = (a ≡ x) × Chain n numbers (numbers x) xs

-- `xs` are the free ones of the `n` objects of a slab
pub record IsSlab (n : ℕ) (s : Slab) (xs : List ℕ) : Type 0 where
  pub chain : Chain n s.free_list s.free xs
  pub below : All (λ x. x < n) xs
  pub once : Distinct xs
  pub stop : s.free_list n ≡ slab_free_end
  pub few : n < slab_free_end

abbrev pub is_nil : List ℕ → Bool
is_nil [] = true
is_nil (x ∷ xs) = false

Chain-update :
    (n : ℕ) (numbers : ℕ → ℕ) (a p v : ℕ) (xs : List ℕ)
    → Fresh p xs
    → Chain n numbers a xs
    → Chain n (update numbers p v) a xs
Chain-update n numbers a p v [] f c = c
Chain-update n numbers a p v (x ∷ xs) f (e, c) =
    let g : update numbers p v x ≡ numbers x = ground arith in
    (e, rw g (Chain-update n numbers (numbers x) p v xs f.1 c))

-- where a chain begins is the end, or an object
Chain-start :
    (n : ℕ) (numbers : ℕ → ℕ) (a : ℕ) (xs : List ℕ)
    → Chain n numbers a xs
    → All (λ x. x < n) xs
    → a ≤ n
Chain-start n numbers a [] c b = omega arith
Chain-start n numbers a (x ∷ xs) c b = omega arith

-- The number at the start of a chain is the mark of the end exactly if the chain is empty.
last-is_nil :
    (n : ℕ) (numbers : ℕ → ℕ) (a : ℕ) (xs : List ℕ)
    → Chain n numbers a xs
    → All (λ x. x < n) xs
    → numbers n ≡ slab_free_end
    → n < slab_free_end
    → (numbers a == slab_free_end) ≡ is_nil xs
last-is_nil n numbers a [] c b e l = rw (c, e) refl
last-is_nil n numbers a (x ∷ xs) (e, c) b s l =
    let y = Chain-start n numbers (numbers x) xs c b.1 in
    rw e (ne→==_false (numbers x) slab_free_end (λ z. omega arith))

pub take_object-IsSlab :
    (n x : ℕ) (s : Slab) (xs : List ℕ)
    → IsSlab n s (x ∷ xs)
    → ((take_object s).0 ≡ x) × IsSlab n (take_object s).1 xs × ((take_object s).2 ≡ is_nil xs)
unfolding take_object
take_object-IsSlab n x s xs v =
    let e : s.free ≡ x = v.chain.0 in
    let c : Chain n s.free_list (s.free_list s.free) xs = rw e v.chain.1 in
    let f = Fresh_of_eq x s.free xs (sym e) v.once.0 in
    let numbers = update s.free_list s.free slab_free_end in
    let d = Chain-update n s.free_list (s.free_list s.free) s.free slab_free_end xs f c in
    let b = v.below.0 in
    let w : numbers n ≡ slab_free_end = (let g = v.stop in ground arith) in
    (
      e,
      record { chain = d; below = v.below.1; once = v.once.1; stop = w; few = v.few },
      last-is_nil n numbers (s.free_list s.free) xs d v.below.1 w v.few,
    )

pub give_object-IsSlab :
    (n i : ℕ) (s : Slab) (xs : List ℕ)
    → IsSlab n s xs
    → i < n
    → Fresh i xs
    → IsSlab n (give_object s i).0 (i ∷ xs) × ((give_object s i).1 ≡ is_nil xs)
unfolding give_object
give_object-IsSlab n i s xs v l f =
    let numbers = update s.free_list i s.free in
    let d = Chain-update n s.free_list s.free i s.free xs f v.chain in
    let g : numbers i ≡ s.free = ground arith in
    let w : numbers n ≡ slab_free_end = (let z = v.stop in ground arith) in
    (
      record {
        chain = (refl, rw g d);
        below = (l, v.below);
        once = (f, v.once);
        stop = w;
        few = v.few;
      },
      last-is_nil n numbers s.free xs d v.below w v.few,
    )

-- the objects from `i` on, `k` of them
abbrev pub from : ℕ → ℕ → List ℕ
from zero i = []
from (suc k) i = i ∷ from k (suc i)

link_loop-below : (k i : ℕ) (numbers : ℕ → ℕ) (q : ℕ) → q < i → link_loop k i numbers q ≡ numbers q
unfolding link_loop
link_loop-below zero i numbers q l = refl
link_loop-below (suc k) i numbers q l =
    link_loop-below k (suc i) (update numbers i (suc i)) q (omega arith) ∙ ground arith

link_loop-suc :
    (k i : ℕ) (numbers : ℕ → ℕ) (q : ℕ) → i ≤ q → q < i + k → link_loop k i numbers q ≡ suc q
unfolding link_loop
link_loop-suc zero i numbers q l h = absurd (omega arith)
link_loop-suc (suc k) i numbers q l h = elim (Bool-cases (i == q)) [
  | inl t ↦
      let e : i ≡ q = ground arith in
      link_loop-below k (suc i) (update numbers i (suc i)) q (omega arith) ∙ ground arith
  | inr f ↦ link_loop-suc k (suc i) (update numbers i (suc i)) q (ground arith) (omega arith)
]

from-Chain :
    (n : ℕ) (numbers : ℕ → ℕ) (k i : ℕ)
    → i + k ≡ n
    → ((q : ℕ) → q < n → numbers q ≡ suc q)
    → Chain n numbers i (from k i)
from-Chain n numbers zero i e h = omega arith
from-Chain n numbers (suc k) i e h =
    let g : numbers i ≡ suc i = h i (omega arith) in
    (refl, rw g (from-Chain n numbers k (suc i) (omega arith) h))

from-below : (k i n : ℕ) → i + k ≤ n → All (λ x. x < n) (from k i)
from-below zero i n l = tt
from-below (suc k) i n l = (omega arith, from-below k (suc i) n (omega arith))

from-Fresh : (k i x : ℕ) → x < i → Fresh x (from k i)
from-Fresh zero i x l = tt
from-Fresh (suc k) i x l = ((λ e. omega arith), from-Fresh k (suc i) x (omega arith))

from-Distinct : (k i : ℕ) → Distinct (from k i)
from-Distinct zero i = tt
from-Distinct (suc k) i = (from-Fresh k (suc i) i (omega arith), from-Distinct k (suc i))

linked :
    (n : ℕ) (numbers : ℕ → ℕ) (q : ℕ)
    → q < n
    → update (link_loop n 0 numbers) n slab_free_end q ≡ suc q
linked n numbers q l =
    let g = link_loop-suc n 0 numbers q (omega arith) (omega arith) in ground arith

pub slab_new-IsSlab :
    (n : ℕ) (numbers : ℕ → ℕ) → n < slab_free_end → IsSlab n (slab_new n numbers) (from n 0)
unfolding slab_new
slab_new-IsSlab n numbers l = record {
  chain =
      from-Chain n (update (link_loop n 0 numbers) n slab_free_end) n 0 (omega arith)
        (linked n numbers);
  below = from-below n 0 n (omega arith);
  once = from-Distinct n 0;
  stop = ground arith;
  few = l;
}
