-- ===== src/Links/Walk.antt =====
-- Going round a ring: list_foreach and list_length of src/kernel/lib/list.h and list.c.
use cyanurus.Base.{
  ℕ, zero, suc, ◌+◌, ◌<◌, ◌≡◌, refl, ap, ◌∙◌, false, some, List, arith, Fresh, ◌==◌, length,
}
use cyanurus.Links.{Links, walk, list_foreach, length_loop, list_length}
use cyanurus.Links.Ring.{Seg, nil, cons, IsRing}

walk-Seg :
    {s : Links} {head a : ℕ} {xs : List ℕ} (fuel : ℕ)
    → Seg s head a xs
    → Fresh head xs
    → length xs < fuel
    → walk fuel s head (s.next a) ≡ some xs
unfolding walk
walk-Seg zero h f l = absurd (omega arith)
walk-Seg (suc fuel) (nil e g) f l = ground arith
walk-Seg {s} {head} {a} (suc fuel) (cons {x = x} {xs = xs} e g h) f l =
    let r : walk fuel s head (s.next x) ≡ some xs = walk-Seg fuel h f.1 (omega arith) in
    let n : (x == head) ≡ false = ground arith in rw (e, n, r) refl

length_loop-Seg :
    {s : Links} {head a : ℕ} {xs : List ℕ} (fuel count : ℕ)
    → Seg s head a xs
    → Fresh head xs
    → length xs < fuel
    → length_loop fuel s head (s.next a) count ≡ some (count + length xs)
unfolding length_loop
length_loop-Seg zero count h f l = absurd (omega arith)
length_loop-Seg (suc fuel) count (nil e g) f l = ground arith
length_loop-Seg {s} {head} {a} (suc fuel) count (cons {x = x} {xs = xs} e g h) f l =
    let r = length_loop-Seg fuel (suc count) h f.1 (omega arith) in
    let n : (x == head) ≡ false = ground arith in
    let m : suc count + length xs ≡ count + suc (length xs) = omega arith in rw (e, n, r, m) refl

-- The loop of list_length ends and counts the cells, and list_foreach visits them in order,
-- as soon as the bound is larger than their number.
pub list_length-length :
    {s : Links} {list : ℕ} {xs : List ℕ} (fuel : ℕ)
    → IsRing s list xs
    → length xs < fuel
    → (list_length fuel s list ≡ some (length xs)) × (list_foreach fuel s list ≡ some xs)
unfolding list_length
list_length-length {xs = xs} fuel r l =
    let e : 0 + length xs ≡ length xs = omega arith in
    (length_loop-Seg fuel 0 r.0 r.1 l ∙ ap some e, walk-Seg fuel r.0 r.1 l)
