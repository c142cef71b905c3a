-- ===== src/Pipe/Inv.antt =====
-- The representation invariant of a pipe, and the bytes that it holds.
use cyanurus.Base.{
  refl, ℕ, ◌+◌, ◌-◌, ◌%◌, ◌≤◌, ◌<◌, ◌≡◌, sym, ◌∙◌, ◌⊎◌, inl, inr, List, ◌++◌, arith, length, take,
  drop, add32, sub32,
}
use native.Mathlib.Decide.{dec_lt}
use cyanurus.Pipe.{
  Pipe, page_size, copy_out, copy_in, wake_writer, wake_reader, read_length, take_out, write_start,
  write_length, put_in,
}
use cyanurus.Pipe.Window.{
  window, copy_out-window, take-window, drop-window, window-append, window-copy_in,
  window-copy_in_apart,
}

pub record IsValid (p : Pipe) : Type 0 where
  pub offset_in : p.offset < page_size
  pub len_in : p.len ≤ page_size

-- oldest byte first
abbrev pub contents : Pipe → List ℕ
contents p = window p.page p.offset p.len

-- Two pipes with the same page, position and ends; the queues may differ.
abbrev pub SameRing : Pipe → Pipe → Type 0
SameRing p q =
    (q.page ≡ p.page)
    × (q.offset ≡ p.offset)
    × (q.len ≡ p.len)
    × (q.readers ≡ p.readers)
    × (q.writers ≡ p.writers)

pub wake_writer-SameRing : (p : Pipe) → SameRing p (wake_writer p)
unfolding wake_writer
wake_writer-SameRing p = ground arith

pub wake_reader-SameRing : (p : Pipe) → SameRing p (wake_reader p)
unfolding wake_reader
wake_reader-SameRing p = ground arith

-- A round of pipe_read takes at least one byte if one is wanted, and stays within the page.
pub read_length_bounds :
    {p : Pipe} (want : ℕ)
    → IsValid p
    → 0 < p.len
    → let n = read_length p want in
      (n ≤ p.len) × (p.offset + n ≤ page_size) × (n ≤ want) × (0 < want → 0 < n)
unfolding read_length
read_length_bounds want v h = ground arith

pub take_out-IsValid :
    {p : Pipe} (n : ℕ)
    → IsValid p
    → n ≤ p.len
    → IsValid (take_out p n) × ((take_out p n).len ≡ p.len - n)
unfolding take_out
take_out-IsValid n v h = omega arith

pub take_out_ends :
    (p : Pipe) (n : ℕ) → ((take_out p n).readers ≡ p.readers) × ((take_out p n).writers ≡ p.writers)
unfolding take_out
take_out_ends p n = (refl, refl)

pub contents-take_out :
    {p : Pipe} (n : ℕ) → IsValid p → n ≤ p.len → contents (take_out p n) ≡ drop n (contents p)
unfolding take_out
contents-take_out {p} n v h =
    let e : add32 p.offset n ≡ p.offset + n = omega arith in
    let f : sub32 p.len n ≡ p.len - n = omega arith in
    rw (e, f) (sym (drop-window p.page p.offset n p.len v.offset_in h))

pub copy_out-contents :
    (p : Pipe) (n : ℕ)
    → n ≤ p.len
    → p.offset + n ≤ page_size
    → copy_out p.page p.offset n ≡ take n (contents p)
copy_out-contents p n h k =
    copy_out-window p.page p.offset n k ∙ sym (take-window p.page p.offset n p.len h)

-- A round of pipe_write puts at least one byte if there is one and the pipe is not full, and stays
-- within the free part of the page.
pub write_length_bounds :
    {p : Pipe} (want : ℕ)
    → IsValid p
    → p.len < page_size
    → let n = write_length p want in
      (n ≤ page_size - p.len) × (write_start p + n ≤ page_size) × (n ≤ want) × (0 < want → 0 < n)
unfolding write_length write_start
write_length_bounds want v h = ground arith

pub put_in-IsValid :
    {p : Pipe} (xs : List ℕ)
    → IsValid p
    → length xs ≤ page_size - p.len
    → IsValid (put_in p xs) × ((put_in p xs).len ≡ p.len + length xs)
unfolding put_in
put_in-IsValid xs v h = omega arith

pub put_in_ends :
    (p : Pipe) (xs : List ℕ)
    → ((put_in p xs).readers ≡ p.readers) × ((put_in p xs).writers ≡ p.writers)
unfolding put_in
put_in_ends p xs = (refl, refl)

pub contents-put_in :
    {p : Pipe} (xs : List ℕ)
    → IsValid p
    → length xs ≤ page_size - p.len
    → write_start p + length xs ≤ page_size
    → contents (put_in p xs) ≡ contents p ++ xs
unfolding put_in write_start
contents-put_in {p} xs v h k =
    let e : add32 p.len (length xs) ≡ p.len + length xs = omega arith in
    let s : add32 p.offset p.len % page_size ≡ (p.offset + p.len) % page_size = omega arith in
    rw (e, s)
      (window-append (copy_in p.page ((p.offset + p.len) % page_size) xs) p.offset p.len (length xs)
          v.offset_in
        ∙ cc (
          window-copy_in_apart p.page ((p.offset + p.len) % page_size) xs p.offset p.len
              (λ a l. apart a l) v.offset_in,
          window-copy_in p.page ((p.offset + p.len) % page_size) xs (omega arith),
        ))
  where
    apart :
        (a : ℕ)
        → a < p.len
        → ((p.offset + a) % page_size < (p.offset + p.len) % page_size)
          ⊎ ((p.offset + p.len) % page_size + length xs ≤ (p.offset + a) % page_size)
    apart a l = elim (dec_lt (p.offset + p.len) page_size) [
      | yes h1 ↦ inl (omega arith)
      | no h1 ↦ elim (dec_lt (p.offset + a) page_size) [
        | yes h2 ↦ inr (omega arith)
        | no h2 ↦ inl (omega arith)
      ]
    ]
