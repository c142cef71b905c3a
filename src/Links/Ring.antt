-- ===== src/Links/Ring.antt =====
-- Rings of cells: the list that a head stands for (src/kernel/lib/list.h).
use cyanurus.Base.{
  ℕ, All, ◌≡◌, ◌≢◌, List, [], ◌∷◌, ◌++◌, arith, Fresh, Distinct, Fresh_of_eq, Fresh_left,
  Fresh_right,
}
use cyanurus.Links.{Links, set_next, set_prev, join}

-- From `a` the links lead through the cells to `b`, and back.
pub data Seg (s : Links) (b : ℕ) : ℕ → List ℕ → Type 0 where
  nil : {a : ℕ} → s.next a ≡ b → s.prev b ≡ a → Seg s b a []
  cons : {a x : ℕ} {xs : List ℕ} → s.next a ≡ x → s.prev x ≡ a → Seg s b x xs → Seg s b a (x ∷ xs)

-- `head` is the ring of the cells `xs`, which are distinct.
abbrev pub IsRing : Links → ℕ → List ℕ → Type 0
IsRing s head xs = Seg s head head xs × Fresh head xs × Distinct xs

pub Seg-set_next :
    {s : Links} {b a : ℕ} {xs : List ℕ} (p v : ℕ)
    → Seg s b a xs
    → p ≢ a
    → Fresh p xs
    → Seg (set_next s p v) b a xs
Seg-set_next p v (nil e g) n f = nil (ground arith) g
Seg-set_next p v (cons e g h) n f = cons (ground arith) g (Seg-set_next p v h f.0 f.1)

pub Seg-set_prev :
    {s : Links} {b a : ℕ} {xs : List ℕ} (p v : ℕ)
    → Seg s b a xs
    → p ≢ b
    → Fresh p xs
    → Seg (set_prev s p v) b a xs
Seg-set_prev p v (nil e g) n f = nil e (ground arith)
Seg-set_prev p v (cons e g h) n f = cons e (ground arith) (Seg-set_prev p v h n f.1)

-- the last cell before `b` is one of the segment's
pub prev_ne :
    {s : Links} {b a : ℕ} {xs : List ℕ} (p : ℕ) → Seg s b a xs → p ≢ a → Fresh p xs → p ≢ s.prev b
prev_ne p (nil e g) n f = ground arith
prev_ne p (cons e g h) n f = prev_ne p h f.0 f.1

pub next_ne :
    {s : Links} {b a : ℕ} {xs : List ℕ} (p : ℕ) → Seg s b a xs → p ≢ b → Fresh p xs → p ≢ s.next a
next_ne p (nil e g) n f = ground arith
next_ne p (cons e g h) n f = ground arith

pub next-join : (s : Links) (i j p : ℕ) → p ≢ s.prev i → (join s i j).next p ≡ s.next p
unfolding join
next-join s i j p n = ground arith

pub prev-join : (s : Links) (i j p : ℕ) → p ≢ s.next j → (join s i j).prev p ≡ s.prev p
unfolding join
prev-join s i j p n = ground arith

-- Two segments put together: the links that `join` makes.
pub Seg-join :
    {s : Links} {i b j a : ℕ} {xs ys : List ℕ}
    → Seg s i a xs
    → Seg s b j ys
    → Fresh a (xs ++ ys)
    → Fresh b (xs ++ ys)
    → Distinct (xs ++ ys)
    → j ≢ a
    → Fresh j xs
    → Seg (join s i j) b a (xs ++ ys)
unfolding join
Seg-join (nil e g) (nil u v) fa fb d n f = nil (ground arith) (ground arith)
Seg-join {s} {i} {b} {j} {a} (nil e g) (cons {xs = ys} u v k) fa fb d n f =
    let t : Links = set_next s (s.prev i) (s.next j) in
    let w : Seg t b _ ys =
      Seg-set_next (s.prev i) (s.next j) k (ground arith)
        (Fresh_of_eq a (s.prev i) ys (ground arith) fa.1) in
    let r =
      Seg-set_prev (t.next j) (t.prev i) w (ground arith)
        (Fresh_of_eq _ (t.next j) ys (ground arith) d.0) in
    cons (ground arith) (ground arith) r
Seg-join {s} {i} {b} {j} {a} {ys = ys} (cons {x = x} {xs = xs} e g h) k fa fb d n f =
    let q : a ≢ s.prev i = prev_ne a h fa.0 (Fresh_left a xs ys fa.1) in
    let p : x ≢ s.next j = next_ne x k (ground arith) (Fresh_right x xs ys d.0) in
    let m : j ≢ s.prev i = prev_ne j h f.0 f.1 in
    let r = Seg-join h k d.0 fb.1 d.1 f.0 f.1 in cons (ground arith) (ground arith) r

-- a segment cut at one of its cells
pub Seg-split :
    {s : Links} {b : ℕ} (a m : ℕ) (xs ys : List ℕ)
    → Seg s b a (xs ++ m ∷ ys)
    → Seg s m a xs × Seg s b m ys
Seg-split a m [] ys (cons e g h) = (nil e g, h)
Seg-split a m (x ∷ xs) ys (cons e g h) = let r = Seg-split x m xs ys h in (cons e g r.0, r.1)

-- What holds of the end and of every cell holds of the cell next to the start, and back.
pub next_All :
    (P : ℕ → Type 0) {s : Links} {b a : ℕ} {xs : List ℕ}
    → Seg s b a xs
    → P b
    → All P xs
    → P (s.next a)
next_All P (nil e g) p all = rw e p
next_All P (cons e g h) p all = rw e all.0

pub prev_All :
    (P : ℕ → Type 0) {s : Links} {b a : ℕ} {xs : List ℕ}
    → Seg s b a xs
    → P a
    → All P xs
    → P (s.prev b)
prev_All P (nil e g) p all = rw g p
prev_All P (cons e g h) p all = prev_All P h all.0 all.1
