-- ===== src/Pipe.antt =====
-- Pipes: src/kernel/pipe.c. The buffer is one page used as a ring.
-- A wait queue is the list of the sleeping processes, the one that process_wake takes first in
-- front; `ready` collects, in order, the processes that process_wake has made STATE_READY.
pub mod Window
pub mod Ends
pub mod Inv
pub mod Read
pub mod Write
use cyanurus.Base.{
  ℕ, zero, suc, ◌+◌, ◌-◌, ◌%◌, bit_and, ◌&&◌, ◌||◌, Option, none, some, List, [], ◌∷◌, ◌++◌, ltb,
  leb, ◌==◌, if◌then◌else◌, length, take, drop, update, ℤ, pos, error, add32, sub32, signed32,
}

-- PAGE_SIZE
abbrev pub page_size : ℕ
page_size = 0x1000

-- O_ACCMODE, O_RDONLY and O_WRONLY of lib/unix.h
abbrev pub o_accmode : ℕ
o_accmode = 0o10000003

abbrev pub o_rdonly : ℕ
o_rdonly = 0

abbrev pub o_wronly : ℕ
o_wronly = 1

-- `struct pipe`, with the bytes of its page
pub record Pipe : Type 0 where
  pub page : ℕ → ℕ
  pub offset : ℕ
  pub len : ℕ
  pub readers : ℕ
  pub writers : ℕ
  pub readers_waitq : List ℕ
  pub writers_waitq : List ℕ
  pub ready : List ℕ

-- How a call leaves the kernel: it returns, it sleeps on a queue and will go on at the top of its
-- loop, or SYSTEM_BUG_ON stops the machine. `bytes` is what has been copied so far.
pub data Outcome : Type 0 where
  returned : ℤ → List ℕ → Pipe → Outcome
  sleeping : List ℕ → Pipe → Outcome
  bug : Outcome
  out_of_fuel : Outcome

-- memcpy of `n` bytes out of the page, and of `xs` into it
unfoldable pub copy_out : (ℕ → ℕ) → ℕ → ℕ → List ℕ
copy_out page p zero = []
copy_out page p (suc n) = page p ∷ copy_out page (p + 1) n

unfoldable pub copy_in : (ℕ → ℕ) → ℕ → List ℕ → ℕ → ℕ
copy_in page p [] = page
copy_in page p (x ∷ xs) = copy_in (update page p x) (p + 1) xs

-- pipe_create, over the page that buddy_alloc returns
unfoldable pub create : (ℕ → ℕ) → Pipe
create page = record {
  page = page;
  offset = 0;
  len = 0;
  readers = 1;
  writers = 1;
  readers_waitq = [];
  writers_waitq = [];
  ready = [];
}

unfoldable pub wake_writer : Pipe → Pipe
wake_writer p = elim (p.writers_waitq) [
  | [] ↦ p
  | w ∷ ws ↦ record p { writers_waitq = ws; ready = p.ready ++ (w ∷ []) }
]

unfoldable pub wake_reader : Pipe → Pipe
wake_reader p = elim (p.readers_waitq) [
  | [] ↦ p
  | r ∷ rs ↦ record p { readers_waitq = rs; ready = p.ready ++ (r ∷ []) }
]

-- The bytes that one round of pipe_read may copy without going past the end of the page.
unfoldable pub read_length : Pipe → ℕ → ℕ
read_length p want =
    let start = add32 p.offset p.len % page_size in
    let remaining = if ltb p.offset start then start - p.offset else page_size - p.offset in
    if ltb want remaining then want else remaining

unfoldable pub take_out : Pipe → ℕ → Pipe
take_out p n = record p { offset = add32 p.offset n % page_size; len = sub32 p.len n }

-- The loop of pipe_read. `got` holds the bytes read so far, `size` what is asked for, `me` the
-- caller.
unfoldable pub read_loop : ℕ → (me : ℕ) → Pipe → (size : ℕ) → (got : List ℕ) → Outcome
read_loop zero me p size got = out_of_fuel
read_loop (suc fuel) me p size got =
    let n = read_length p (sub32 size (length got)) in
    let q = take_out p n in
    let got' = got ++ copy_out p.page p.offset n in
    let rest = read_loop fuel me (wake_writer q) size got' in
    if p.len == 0
    then (if p.writers == 0
        then returned (pos 0) got p
        else sleeping got (record p { readers_waitq = me ∷ p.readers_waitq }))
    else if leb page_size q.offset
    then bug
    else if leb page_size q.len
    then bug
    else if (q.len == 0) || (size == length got')
    then returned (signed32 (length got')) got' (wake_writer q)
    else rest

-- A round that goes on empties the end of the page, so `page_size + 1` rounds are more than enough.
pub pipe_read : (me : ℕ) → Pipe → (size : ℕ) → Outcome
pipe_read me p size = read_loop (page_size + 1) me p size []

unfoldable pub write_start : Pipe → ℕ
write_start p = add32 p.offset p.len % page_size

unfoldable pub write_length : Pipe → ℕ → ℕ
write_length p want =
    let start = write_start p in
    let remaining = if ltb start p.offset then p.offset - start else page_size - start in
    if ltb remaining want then remaining else want

unfoldable pub put_in : Pipe → List ℕ → Pipe
put_in p xs = record p { page = copy_in p.page (write_start p) xs; len = add32 p.len (length xs) }

-- The loop of pipe_write. `left` is what is still to be written of the caller's `size` bytes,
-- `done` what has been.
unfoldable pub write_loop : ℕ → (me : ℕ) → Pipe → (size : ℕ) → (done left : List ℕ) → Outcome
write_loop zero me p size done left = out_of_fuel
write_loop (suc fuel) me p size done left =
    let n = write_length p (sub32 size (length done)) in
    let q = wake_reader (put_in p (take n left)) in
    let done' = done ++ take n left in
    let rest = write_loop fuel me q size done' (drop n left) in
    if p.readers == 0
    then returned (error 32) done p
    else if p.len == page_size
    then sleeping done (record p { writers_waitq = me ∷ p.writers_waitq })
    else if ltb page_size q.len
    then bug
    else if size == length done'
    then returned (signed32 (length done')) done' q
    else rest

-- EPIPE is 32; the caller is sent SIGPIPE on that path. A round that goes on fills the page to its
-- end or up to the oldest byte.
pub pipe_write : (me : ℕ) → Pipe → List ℕ → Outcome
pipe_write me p bytes = write_loop (page_size + 2) me p (length bytes) [] bytes

-- pipe_countup; `none` is system_halt
unfoldable pub countup : Pipe → (flags : ℕ) → Option Pipe
countup p flags =
    if bit_and flags o_accmode == o_rdonly
    then some (record p { readers = add32 p.readers 1 })
    else if bit_and flags o_accmode == o_wronly
    then some (record p { writers = add32 p.writers 1 })
    else none

-- `while (process_wake(q));`
unfoldable pub wake_all_writers : Pipe → Pipe
wake_all_writers p = record p { writers_waitq = []; ready = p.ready ++ p.writers_waitq }

unfoldable pub wake_all_readers : Pipe → Pipe
wake_all_readers p = record p { readers_waitq = []; ready = p.ready ++ p.readers_waitq }

-- What pipe_release leaves: the pipe, or its memory given back once both counts are zero.
pub data Released : Type 0 where
  kept : Pipe → Released
  freed : Pipe → Released
  halted : Released

unfoldable pub settle : Pipe → Released
settle p = if (p.readers == 0) && (p.writers == 0) then freed p else kept p

unfoldable pub release : Pipe → (flags : ℕ) → Released
release p flags =
    if bit_and flags o_accmode == o_rdonly
    then (if p.readers == 0
        then halted
        else (let q = record p { readers = sub32 p.readers 1 } in
            settle (if q.readers == 0 then wake_all_writers q else q)))
    else if bit_and flags o_accmode == o_wronly
    then (if p.writers == 0
        then halted
        else (let q = record p { writers = sub32 p.writers 1 } in
            settle (if q.writers == 0 then wake_all_readers q else q)))
    else halted
