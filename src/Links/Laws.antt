-- ===== src/Links/Laws.antt =====
-- Each operation of src/kernel/lib/list.c, on the lists that its heads stand for.
use cyanurus.Base.{
  All, All_left, All_right, Apart-uncons, ℕ, ◌≡◌, ◌≢◌, ◌↔◌, refl, sym, ◌∙◌, true, false, List, [],
  ◌∷◌, ◌++◌, arith, Fresh, Apart, Fresh_of_eq, Fresh_left, Fresh-append, Fresh_middle,
  Distinct-middle, Distinct-append, ◌==◌, ==_iff,
}
use cyanurus.Links.{
  Links, null, set_next, set_prev, list_init, list_add, join, list_concat, list_remove, list_empty,
}
use cyanurus.Links.Ring.{
  next_All, prev_All, Seg, nil, cons, IsRing, Seg-set_next, Seg-set_prev, Seg-join, next-join,
  prev-join, Seg-split, prev_ne, next_ne,
}

-- `p` is neither the head nor a cell of the ring
abbrev pub Outside : ℕ → ℕ → List ℕ → Type 0
Outside p head xs = (p ≢ head) × Fresh p xs

pub list_init-IsRing : (s : Links) (list : ℕ) → IsRing (list_init s list) list []
unfolding list_init
list_init-IsRing s list = (nil (ground arith) (ground arith), tt, tt)

-- list_add puts a cell that is not in the ring in front.
pub list_add-IsRing :
    {s : Links} {list : ℕ} {xs : List ℕ} (item : ℕ)
    → IsRing s list xs
    → Outside item list xs
    → IsRing (list_add s list item) list (item ∷ xs)
unfolding list_add
list_add-IsRing {s} {list} {xs = xs} item (nil e g, f, d) o = (
  cons (ground arith) (ground arith) (nil (ground arith) (ground arith)),
  (ground arith, f),
  (o.1, d),
)
list_add-IsRing {s} {list} item (cons {x = x} {xs = xs} e g h, f, d) o =
    let s1 = set_prev s item list in
    let s2 = set_next s1 item (s1.next list) in
    let s3 = set_next s2 list item in
    let h1 : Seg s1 list x xs = Seg-set_prev item list h o.0 o.1.1 in
    let h2 : Seg s2 list x xs = Seg-set_next item (s1.next list) h1 o.1.0 o.1.1 in
    let h3 : Seg s3 list x xs = Seg-set_next list item h2 f.0 f.1 in
    let y : x ≡ s3.next item = ground arith in
    let h4 =
      Seg-set_prev (s3.next item) item h3 (ground arith) (Fresh_of_eq x (s3.next item) xs y d.0) in
    (
      cons (ground arith) (ground arith) (cons (ground arith) (ground arith) h4),
      (ground arith, f),
      (o.1, d),
    )

-- list_remove of a cell of a ring takes it out and keeps the order of the others.
pub list_remove-IsRing :
    {s : Links} {list : ℕ} (xs ys : List ℕ) (item : ℕ)
    → IsRing s list (xs ++ item ∷ ys)
    → IsRing (list_remove s item) list (xs ++ ys)
unfolding list_remove
list_remove-IsRing {s} {list} xs ys item (c, f, d) =
    let a = Distinct-middle item xs ys d in
    let b = Fresh_middle list item xs ys f in
    let n : item ≢ list = ground arith in
    let r = Seg-split list item xs ys c in
    let j = Seg-join r.0 r.1 b.1 b.1 a.1 n (Fresh_left item xs ys a.0) in
    let u = Seg-set_next item null j n a.0 in (Seg-set_prev item null u n a.0, b.1, a.1)

-- two rings without a common cell
abbrev pub Disjoint : ℕ → List ℕ → ℕ → List ℕ → Type 0
Disjoint list xs other ys = Outside other list xs × Fresh list ys × Apart ys xs

-- list_concat of two rings without a common cell puts the cells of the other one in front, in their
-- order, and leaves the other one empty.
pub list_concat-IsRing :
    {s : Links} {list other : ℕ} {xs ys : List ℕ}
    → IsRing s list xs
    → IsRing s other ys
    → Disjoint list xs other ys
    → IsRing (list_concat s list other) list (ys ++ xs) × IsRing (list_concat s list other) other []
unfolding list_concat list_init
list_concat-IsRing {s} {list} {other} {xs} r (nil e g, q, w) o =
    rw ((==_iff (s.next other) other).1 e) (r, (nil e g, q, w))
list_concat-IsRing {s} {list} {other} {xs} (c, f, d) (cons {x = y} {xs = ys} e g h, fy, dy) o =
    let ne : (s.next other == other) ≡ false = ground arith in
    let s1 = set_prev s (s.next other) list in
    let c1 : Seg s1 list list xs =
      Seg-set_prev (s.next other) list c (ground arith)
        (Fresh_of_eq y (s.next other) xs (ground arith) o.2.0) in
    let h1 : Seg s1 other y ys =
      Seg-set_prev (s.next other) list h (ground arith)
        (Fresh_of_eq y (s.next other) ys (ground arith) dy.0) in
    let fa = Fresh-append y ys xs dy.0 o.2.0 in
    let fl = Fresh-append list ys xs o.1.1 f in
    let all = Distinct-append ys xs dy.1 d o.2.1 in
    let j = Seg-join h1 c1 fa fl all o.1.0 o.1.1 in
    let t : Links = join s1 other list in
    let p : other ≢ s1.prev other = prev_ne other h1 fy.0 fy.1 in
    let q : y ≢ s1.next list = next_ne y c1 (λ w. o.1.0 (sym w)) o.2.0 in
    let r : t.next other ≡ y = next-join s1 other list other p ∙ e in
    let z : s1.prev y ≡ list = ground arith in
    let v : t.prev y ≡ list = prev-join s1 other list y q ∙ z in
    let out = Fresh-append other ys xs fy.1 o.0.1 in
    let j1 = Seg-set_next list (t.next other) j o.1.0 fl in
    let j2 = Seg-set_next other other j1 fy.0 out in
    let j3 = Seg-set_prev other other j2 o.0.0 out in
    rw ne (
      (cons (ground arith) (ground arith) j3, (o.1.0, fl), (fa, all)),
      (nil (ground arith) (ground arith), tt, tt),
    )

pub list_empty_iff :
    {s : Links} {list : ℕ} {xs : List ℕ} → IsRing s list xs → (list_empty s list ≡ true) ↔ (xs ≡ [])
list_empty_iff (nil e g, f, d) = (λ _. refl, λ _. ground arith)
list_empty_iff (cons e g h, f, d) = (λ t. absurd (ground arith), λ t. absurd (ground arith))

Disjoint-All :
    (list other : ℕ) (xs ys : List ℕ)
    → Disjoint list xs other ys
    → All (λ p. Outside p other ys) (list ∷ xs)
Disjoint-All list other [] ys o = (((λ e. o.0.0 (sym e)), o.1), tt)
Disjoint-All list other (x ∷ xs) ys o =
    let a = Apart-uncons ys x xs o.2 in
    let r = Disjoint-All list other xs ys ((o.0.0, o.0.1.1), o.1, a.1) in
    (r.0, (((λ e. o.0.1.0 (sym e)), a.0), r.1))

IsRing-set_next :
    {s : Links} {list : ℕ} {xs : List ℕ} (p v : ℕ)
    → IsRing s list xs
    → Outside p list xs
    → IsRing (set_next s p v) list xs
IsRing-set_next p v r o = (Seg-set_next p v r.0 o.0 o.1, r.1, r.2)

IsRing-set_prev :
    {s : Links} {list : ℕ} {xs : List ℕ} (p v : ℕ)
    → IsRing s list xs
    → Outside p list xs
    → IsRing (set_prev s p v) list xs
IsRing-set_prev p v r o = (Seg-set_prev p v r.0 o.0 o.1, r.1, r.2)

-- A ring stays what it was when an item is added to another one, or removed from it.
list_add-apart :
    {s : Links} {list other : ℕ} {xs ys : List ℕ} (item : ℕ)
    → IsRing s list xs
    → IsRing s other ys
    → Disjoint list xs other ys
    → Outside item list xs
    → Outside item other ys
    → IsRing (list_add s list item) other ys
unfolding list_add
list_add-apart {s} {list} {other} {xs} {ys} item r q o u w =
    let all = Disjoint-All list other xs ys o in
    let h : Outside (s.next list) other ys = next_All (λ p. Outside p other ys) r.0 all.0 all.1 in
    let s1 = set_prev s item list in
    let s2 = set_next s1 item (s1.next list) in
    let s3 = set_next s2 list item in
    let q1 : IsRing s1 other ys = IsRing-set_prev item list q w in
    let q2 : IsRing s2 other ys = IsRing-set_next item (s1.next list) q1 w in
    let q3 : IsRing s3 other ys = IsRing-set_next list item q2 all.0 in
    let e : s3.next item ≡ s.next list = ground arith in
    let k : Outside (s3.next item) other ys = rw e h in IsRing-set_prev (s3.next item) item q3 k

list_remove-apart :
    {s : Links} {list other : ℕ} {ys : List ℕ} (xs zs : List ℕ) (item : ℕ)
    → IsRing s list (xs ++ item ∷ zs)
    → IsRing s other ys
    → Disjoint list (xs ++ item ∷ zs) other ys
    → IsRing (list_remove s item) other ys
unfolding list_remove join
list_remove-apart {s} {list} {other} {ys} xs zs item r q o =
    let P : ℕ → Type 0 = λ p. Outside p other ys in
    let all = Disjoint-All list other (xs ++ item ∷ zs) ys o in
    let rest = All_right P xs (item ∷ zs) all.1 in
    let c = Seg-split list item xs zs r.0 in
    let before : P (s.prev item) = prev_All P c.0 all.0 (All_left P xs (item ∷ zs) all.1) in
    let after : P (s.next item) = next_All P c.1 all.0 rest.1 in
    let t : Links = set_next s (s.prev item) (s.next item) in
    let e : t.next item ≡ s.next item = ground arith in
    let k : P (t.next item) = rw e after in
    let q1 : IsRing t other ys = IsRing-set_next (s.prev item) (s.next item) q before in
    let q2 = IsRing-set_prev (t.next item) (t.prev item) q1 k in
    let q3 = IsRing-set_next item null q2 rest.0 in IsRing-set_prev item null q3 rest.0
