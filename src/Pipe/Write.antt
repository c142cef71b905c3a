-- ===== src/Pipe/Write.antt =====
-- pipe_write: what it puts into the pipe, and when it sleeps.
use mathlib.Core.List.{append_assoc, append-nil}
use cyanurus.Base.{
  ℕ, zero, suc, ◌+◌, ◌-◌, ◌≤◌, ◌<◌, ◌≡◌, ◌≢◌, refl, sym, ap, ◌∙◌, inl, inr, true, false, List, [],
  ◌∷◌, ◌++◌, arith, ltb, ◌==◌, ne→==_false, Bool-cases, length, take, drop, length-append,
  length-take, length-drop, take-append-drop, take-add, take_all, ℤ, pos, error, sub32, signed32,
}
use cyanurus.Pipe.{
  Pipe, Outcome, returned, sleeping, page_size, wake_reader, write_start, write_length, put_in,
  write_loop, pipe_write,
}
use cyanurus.Pipe.Inv.{
  IsValid, contents, wake_reader-SameRing, write_length_bounds, put_in-IsValid, put_in_ends,
  contents-put_in,
}

-- A call that returns or sleeps, with a property of each.
pub data Ends (R : ℤ → List ℕ → Pipe → Type 0) (S : List ℕ → Pipe → Type 0) : Outcome → Type 0 where
  returns : {r : ℤ} {bs : List ℕ} {q : Pipe} → R r bs q → Ends R S (returned r bs q)
  sleeps : {bs : List ℕ} {q : Pipe} → S bs q → Ends R S (sleeping bs q)

pub mono :
    {R Q : ℤ → List ℕ → Pipe → Type 0} {S T : List ℕ → Pipe → Type 0} {o : Outcome}
    → Ends R S o
    → ((r : ℤ) (bs : List ℕ) (q : Pipe) → R r bs q → Q r bs q)
    → ((bs : List ℕ) (q : Pipe) → S bs q → T bs q)
    → Ends Q T o
mono (returns h) f g = returns (f _ _ _ h)
mono (sleeps h) f g = sleeps (g _ _ h)

abbrev pub space : Pipe → ℕ
space p = page_size - p.len

-- The call returns: all of `left` fitted.
abbrev pub Wrote : Pipe → List ℕ → List ℕ → ℤ → List ℕ → Pipe → Type 0
Wrote p left done r bs q =
    (length left ≤ space p)
    × (r ≡ pos (length bs))
    × (bs ≡ done ++ left)
    × (contents q ≡ contents p ++ left)
    × IsValid q
    × (q.readers ≡ p.readers)

-- The call sleeps on a full pipe, with the first bytes of `left` in it.
abbrev pub Filled : Pipe → List ℕ → List ℕ → List ℕ → Pipe → Type 0
Filled p left done bs q =
    (space p < length left)
    × (q.len ≡ page_size)
    × (bs ≡ done ++ take (space p) left)
    × (contents q ≡ contents p ++ take (space p) left)
    × IsValid q
    × (q.readers ≡ p.readers)

-- The state after a round that put `xs`, the woken reader included.
abbrev after : Pipe → List ℕ → Pipe
after p xs = wake_reader (put_in p xs)

abbrev After : Pipe → List ℕ → Pipe → Type 0
After p xs q =
    IsValid q
    × (q.len ≡ p.len + length xs)
    × (contents q ≡ contents p ++ xs)
    × (q.readers ≡ p.readers)

after_lem :
    {p : Pipe} (xs : List ℕ)
    → IsValid p
    → length xs ≤ space p
    → write_start p + length xs ≤ page_size
    → After p xs (after p xs)
after_lem {p} xs v h k = ground (
  arith,
  wake_reader-SameRing (put_in p xs),
  put_in-IsValid xs v h,
  contents-put_in xs v h k,
  put_in_ends p xs,
)

Wrote-round :
    (p q t : Pipe) (n : ℕ) (left done bs : List ℕ) (r : ℤ)
    → n ≤ length left
    → After p (take n left) q
    → Wrote q (drop n left) (done ++ take n left) r bs t
    → Wrote p left done r bs t
Wrote-round p q t n left done bs r h (v, l, c, e) (a, b, d, f, g, k) = (
  omega (arith, length-drop n left, length-take n left),
  b,
  d ∙ append_assoc done (take n left) (drop n left) ∙ ap (λ s. done ++ s) (take-append-drop n left),
  f ∙ rw (c, append_assoc (contents p) (take n left) (drop n left), take-append-drop n left),
  g,
  k ∙ e,
)

Filled-round :
    (p q t : Pipe) (n : ℕ) (left done bs : List ℕ)
    → n ≤ length left
    → n ≤ space p
    → After p (take n left) q
    → Filled q (drop n left) (done ++ take n left) bs t
    → Filled p left done bs t
Filled-round p q t n left done bs h k (v, l, c, e) (a, z, d, f, g, m) =
    let split : space p ≡ n + space q = omega (arith, length-take n left) in
    (
      omega (arith, length-drop n left, length-take n left),
      z,
      rw (split, take-add n (space q) left)
          (d ∙ append_assoc done (take n left) (take (space q) (drop n left))),
      rw (split, take-add n (space q) left)
          (f ∙ rw (c, append_assoc (contents p) (take n left) (take (space q) (drop n left)))),
      g,
      m ∙ e,
    )

write_loop_lem :
    (fuel me : ℕ) {p : Pipe} (size : ℕ) (done left : List ℕ)
    → IsValid p
    → p.readers ≢ 0
    → 0 < length left
    → size ≡ length done + length left
    → size < 0x8000_0000
    → space p < fuel
    → Ends (Wrote p left done) (Filled p left done) (write_loop fuel me p size done left)
unfolding write_loop
write_loop_lem zero me size done left v ends h e u f = absurd (omega arith)
write_loop_lem (suc fuel) me {p} size done left v ends h e u f =
    elim (Bool-cases (p.len == page_size)) [
      | inl full ↦ rw (ne→==_false p.readers 0 ends, full) (sleeps (none_taken full))
      | inr room ↦
          rw (ne→==_false p.readers 0 ends, room, fits room)
            (elim (Bool-cases (size == length done')) [
              | inl all ↦ rw all (returns (everything room all))
              | inr more ↦ rw more (
                  mono
                    (write_loop_lem fuel me size done' (drop n left) (good room).0
                      (omega (arith, good room, ends))
                      (ground (arith, counts room, length-drop n left))
                      (omega (arith, counts room, length-drop n left)) u
                      (omega (arith, good room, counts room)))
                    (λ r bs t.
                      Wrote-round p (after p xs) t n left done bs r (counts room).0 (good room))
                    (λ bs t.
                      Filled-round p (after p xs) t n left done bs (counts room).0 (counts room).1
                        (good room)))
            ])
    ]
  where
    want : ℕ
    want = sub32 size (length done)

    n : ℕ
    n = write_length p want

    xs : List ℕ
    xs = take n left

    done' : List ℕ
    done' = done ++ xs

    none_taken :
        (p.len == page_size) ≡ true
        → Filled p left done done (record p { writers_waitq = me ∷ p.writers_waitq })
    none_taken full =
        let l : p.len ≡ page_size = ground arith in
        let z : space p ≡ 0 = omega arith in
        rw z (
          h,
          l,
          sym (append-nil done),
          sym (append-nil (contents p)),
          record { offset_in = v.offset_in; len_in = v.len_in },
          refl,
        )

    bounds :
        (p.len == page_size) ≡ false
        → (n ≤ space p) × (write_start p + n ≤ page_size) × (n ≤ want) × (0 < want → 0 < n)
    bounds room = write_length_bounds want v (ground arith)

    counts :
        (p.len == page_size) ≡ false
        → (n ≤ length left)
          × (n ≤ space p)
          × (0 < n)
          × (length xs ≡ n)
          × (length done' ≡ length done + n)
    counts room = omega (
      arith,
      bounds room,
      (bounds room).3 (omega arith),
      length-take n left,
      length-append done xs,
    )

    good : (p.len == page_size) ≡ false → After p xs (after p xs)
    good room =
        after_lem xs v (omega (arith, counts room)) (omega (arith, bounds room, counts room))

    fits : (p.len == page_size) ≡ false → ltb page_size (after p xs).len ≡ false
    fits room = ground (arith, good room, counts room)

    everything :
        (p.len == page_size) ≡ false
        → (size == length done') ≡ true
        → Wrote p left done (signed32 (length done')) done' (after p xs)
    everything room all =
        let k : size ≡ length done' = ground arith in
        let w : xs ≡ left = take_all n left (omega (arith, counts room)) in
        (
          omega (arith, counts room),
          ground arith,
          ap (λ s. done ++ s) w,
          (good room).2 ∙ ap (λ s. contents p ++ s) w,
          (good room).0,
          (good room).3,
        )

-- With a reader left and bytes to write, pipe_write returns their number when they fit behind what
-- the pipe holds, and has then appended them in order. Otherwise it fills the pipe with the first
-- of them and sleeps. No SYSTEM_BUG_ON fires and the rounds given are enough.
pub pipe_write_lem :
    (me : ℕ) {p : Pipe} (bytes : List ℕ)
    → IsValid p
    → p.readers ≢ 0
    → 0 < length bytes
    → length bytes < 0x8000_0000
    → Ends (Wrote p bytes []) (Filled p bytes []) (pipe_write me p bytes)
unfolding pipe_write
pipe_write_lem me {p} bytes v r h u =
    write_loop_lem (page_size + 2) me (length bytes) [] bytes v r h (omega arith) u (omega arith)

loop_no_reader :
    (fuel me : ℕ) (p : Pipe) (size : ℕ) (done left : List ℕ)
    → p.readers ≡ 0
    → write_loop (suc fuel) me p size done left ≡ returned (error 32) done p
unfolding write_loop
loop_no_reader fuel me p size done left e = let t : (p.readers == 0) ≡ true = ground arith in rw t

-- Without a reader pipe_write fails with EPIPE before it writes anything.
pub pipe_write_no_reader :
    (me : ℕ) (p : Pipe) (bytes : List ℕ)
    → p.readers ≡ 0
    → pipe_write me p bytes ≡ returned (error 32) [] p
unfolding pipe_write
pipe_write_no_reader me p bytes e = loop_no_reader (page_size + 1) me p (length bytes) [] bytes e
