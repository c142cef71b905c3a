-- ===== src/Pipe/Read.antt =====
-- pipe_read: how many bytes it returns, and which.
use mathlib.Core.List.{append_assoc}
use cyanurus.Base.{
  ℕ, zero, suc, ◌+◌, ◌-◌, ◌≤◌, ◌<◌, min, ◌≡◌, ap, ◌∙◌, inl, inr, true, false, ◌||◌, List, [], ◌∷◌,
  ◌++◌, arith, leb, ◌==◌, if◌then◌else◌, ne→==_false, Bool-cases, length, take, drop, length-append,
  take-add, drop-add, ℤ, pos, u32, sub32, signed32,
}
use cyanurus.Pipe.{
  Pipe, Outcome, returned, bug, sleeping, page_size, copy_out, wake_writer, read_length, take_out,
  read_loop, pipe_read,
}
use cyanurus.Pipe.Window.{length-copy_out}
use cyanurus.Pipe.Inv.{
  IsValid, contents, wake_writer-SameRing, read_length_bounds, take_out-IsValid, contents-take_out,
  take_out_ends, copy_out-contents,
}

-- A call that returns, with a property of what it returns.
pub data Returns (P : ℤ → List ℕ → Pipe → Type 0) : Outcome → Type 0 where
  returns : {r : ℤ} {bs : List ℕ} {q : Pipe} → P r bs q → Returns P (returned r bs q)

-- The state after a round that took `n` bytes, the woken writer included.
abbrev after : Pipe → ℕ → Pipe
after p n = wake_writer (take_out p n)

after_lem :
    {p : Pipe} (n : ℕ)
    → IsValid p
    → n ≤ p.len
    → IsValid (after p n)
      × ((after p n).len ≡ p.len - n)
      × (contents (after p n) ≡ drop n (contents p))
      × ((after p n).readers ≡ p.readers)
      × ((after p n).writers ≡ p.writers)
after_lem {p} n v h = ground (
  arith,
  wake_writer-SameRing (take_out p n),
  take_out-IsValid n v h,
  contents-take_out n v h,
  take_out_ends p n,
)

pub mono :
    {P Q : ℤ → List ℕ → Pipe → Type 0} {o : Outcome}
    → Returns P o
    → ((r : ℤ) (bs : List ℕ) (q : Pipe) → P r bs q → Q r bs q)
    → Returns Q o
mono (returns h) weaken = returns (weaken _ _ _ h)

-- What the loop has read when it returns.
abbrev pub Read : Pipe → ℕ → List ℕ → ℤ → List ℕ → Pipe → Type 0
Read p want got r bs q =
    (r ≡ pos (length bs))
    × (bs ≡ got ++ take (min want p.len) (contents p))
    × (contents q ≡ drop (min want p.len) (contents p))
    × IsValid q
    × (q.readers ≡ p.readers)
    × (q.writers ≡ p.writers)

-- A round that takes `n` bytes, and what the later rounds read, make up one reading.
Read-round :
    (p q t : Pipe) (want n : ℕ) (got chunk bs : List ℕ) (r : ℤ)
    → n ≤ want
    → n ≤ p.len
    → chunk ≡ take n (contents p)
    → contents q ≡ drop n (contents p)
    → q.len ≡ p.len - n
    → q.readers ≡ p.readers
    → q.writers ≡ p.writers
    → Read q (want - n) (got ++ chunk) r bs t
    → Read p want got r bs t
Read-round p q t want n got chunk bs r hw hp hc hq hl er ew (a, b, c, d, e, g) =
    let k : min want p.len ≡ n + min (want - n) q.len = omega arith in
    (
      a,
      rw (k, take-add n (min (want - n) q.len) (contents p), ← hq, ← hc)
          (b ∙ append_assoc got chunk (take (min (want - n) q.len) (contents q))),
      rw (k, drop-add n (min (want - n) q.len) (contents p), ← hq) c,
      d,
      e ∙ er,
      g ∙ ew,
    )

Read-last :
    (p q : Pipe) (n want : ℕ) (got chunk : List ℕ)
    → n ≡ min want p.len
    → chunk ≡ take n (contents p)
    → length (got ++ chunk) < 0x8000_0000
    → IsValid q
      × (q.len ≡ p.len - n)
      × (contents q ≡ drop n (contents p))
      × (q.readers ≡ p.readers)
      × (q.writers ≡ p.writers)
    → Read p want got (signed32 (length (got ++ chunk))) (got ++ chunk) q
Read-last p q n want got chunk e f small (v, l, c, r, w) =
    (ground arith, ap (λ t. got ++ t) (rw (← e) f), rw (← e) c, v, r, w)

read_loop-Read :
    (fuel me : ℕ) {p : Pipe} (size : ℕ) (got : List ℕ)
    → IsValid p
    → 0 < p.len
    → p.len < fuel
    → length got < size
    → size < u32
    → length got + p.len ≤ page_size
    → Returns (Read p (size - length got) got) (read_loop fuel me p size got)
unfolding read_loop
read_loop-Read zero me size got v full f h u c = absurd (omega arith)
read_loop-Read (suc fuel) me {p} size got v full f h u c =
    rw (ne→==_false p.len 0 (omega arith), small, short)
      (elim (Bool-cases ((q.len == 0) || (size == length got'))) [
        | inl stop ↦ rw stop (
            returns (
              Read-last p (after p n) n (size - length got) got (copy_out p.page p.offset n)
                (ground (arith, bounds, good, wanted, grown)) chunk (omega (arith, bounds, grown))
                good'))
        | inr more ↦ rw more (
            mono
              (read_loop-Read fuel me size got' good'.0 (ground (arith, good', good, bounds))
                (omega (arith, good', bounds, some_taken)) (ground (arith, bounds, grown, wanted)) u
                (omega (arith, bounds, grown, good')))
              (λ r bs t tail.
                Read-round p (after p n) t (size - length got) n got (copy_out p.page p.offset n) bs
                  r (omega (arith, bounds, wanted)) bounds.0 chunk good'.2 good'.1 good'.3 good'.4
                  (let e : size - length got' ≡ size - length got - n = omega (arith, grown) in
                    rw e at tail)))
      ])
  where
    want : ℕ
    want = sub32 size (length got)

    n : ℕ
    n = read_length p want

    q : Pipe
    q = take_out p n

    got' : List ℕ
    got' = got ++ copy_out p.page p.offset n

    bounds : (n ≤ p.len) × (p.offset + n ≤ page_size) × (n ≤ want) × (0 < want → 0 < n)
    bounds = read_length_bounds want v full

    good : IsValid q × (q.len ≡ p.len - n)
    good = take_out-IsValid n v bounds.0

    small : leb page_size q.offset ≡ false
    small = ground (arith, good.0.offset_in)

    short : leb page_size q.len ≡ false
    short = ground (arith, good.1, bounds)

    good' :
        IsValid (after p n)
        × ((after p n).len ≡ p.len - n)
        × (contents (after p n) ≡ drop n (contents p))
        × ((after p n).readers ≡ p.readers)
        × ((after p n).writers ≡ p.writers)
    good' = after_lem n v bounds.0

    chunk : copy_out p.page p.offset n ≡ take n (contents p)
    chunk = copy_out-contents p n bounds.0 bounds.1

    grown : length got' ≡ length got + n
    grown =
        omega
          (arith, length-append got (copy_out p.page p.offset n), length-copy_out p.page p.offset n)

    wanted : want ≡ size - length got
    wanted = omega arith

    some_taken : 0 < n
    some_taken = bounds.3 (omega (arith, wanted))

read_loop_empty :
    (fuel me : ℕ) (p : Pipe) (size : ℕ) (got : List ℕ)
    → p.len ≡ 0
    → read_loop (suc fuel) me p size got ≡ (
        if p.writers == 0
        then returned (pos 0) got p
        else sleeping got (record p { readers_waitq = me ∷ p.readers_waitq }))
unfolding read_loop
read_loop_empty fuel me p size got e = let t : (p.len == 0) ≡ true = ground arith in rw t

read_loop_zero_full :
    (fuel me : ℕ) {p : Pipe} → IsValid p → p.len ≡ page_size → read_loop (suc fuel) me p 0 [] ≡ bug
unfolding read_loop
read_loop_zero_full fuel me {p} v e = rw (ne→==_false p.len 0 (omega arith), small, still)
  where
    n : ℕ
    n = read_length p (sub32 0 0)

    bounds : (n ≤ p.len) × (p.offset + n ≤ page_size) × (n ≤ 0) × (0 < 0 → 0 < n)
    bounds = read_length_bounds 0 v (omega arith)

    good : IsValid (take_out p n) × ((take_out p n).len ≡ p.len - n)
    good = take_out-IsValid n v bounds.0

    small : leb page_size (take_out p n).offset ≡ false
    small = ground (arith, good.0.offset_in)

    still : leb page_size (take_out p n).len ≡ true
    still = ground (arith, good.1, bounds)

-- With a byte in the pipe and a byte asked for, pipe_read returns. It hands out as many bytes as
-- are there and asked for, the oldest first and in order, and leaves exactly the others; no
-- SYSTEM_BUG_ON fires and the rounds given are enough.
pub pipe_read_takes :
    (me : ℕ) {p : Pipe} (size : ℕ)
    → IsValid p
    → 0 < p.len
    → 0 < size
    → size < u32
    → Returns (Read p size []) (pipe_read me p size)
unfolding pipe_read
pipe_read_takes me {p} size v full h u =
    let e : size - 0 ≡ size = omega arith in
    rw e at (read_loop-Read (page_size + 1) me size [] v full (omega arith) h u (omega arith))

-- On an empty pipe pipe_read returns 0, the end of the file, exactly if no writer is left;
-- otherwise it sleeps on the readers' queue. Nothing is read or changed but the queue.
pub pipe_read_empty :
    (me : ℕ) (p : Pipe) (size : ℕ)
    → p.len ≡ 0
    → pipe_read me p size ≡ (
        if p.writers == 0
        then returned (pos 0) [] p
        else sleeping [] (record p { readers_waitq = me ∷ p.readers_waitq }))
unfolding pipe_read
pipe_read_empty me p size e = read_loop_empty page_size me p size [] e

-- A read of no bytes from a full pipe stops the machine: the round leaves `len` at PAGE_SIZE, which
-- the second SYSTEM_BUG_ON of pipe_read takes for a fault.
pub pipe_read_zero_full :
    (me : ℕ) {p : Pipe} → IsValid p → p.len ≡ page_size → pipe_read me p 0 ≡ bug
unfolding pipe_read
pipe_read_zero_full me v e = read_loop_zero_full page_size me v e
