-- ===== src/Tests/Pipes.antt =====
-- A pipe whose bytes go round the end of its page.
use cyanurus.Base.{ℕ, ◌%◌, ◌≤◌, ◌≡◌, refl, some, [], ◌∷◌, arith}
use cyanurus.Pipe
use cyanurus.Pipe.{Pipe, bug, pipe_read, pipe_write}
use cyanurus.Pipe.Inv.{IsValid}
use cyanurus.Pipe.Read.{Returns, Read, pipe_read_takes, pipe_read_zero_full}
use cyanurus.Pipe.Write.{Ends, Wrote, Filled, pipe_write_lem}

abbrev pipe : ℕ → Pipe
pipe len = record {
  page = λ a. a % 256;
  offset = 4094;
  len = len;
  readers = 1;
  writers = 1;
  readers_waitq = [];
  writers_waitq = 3 ∷ [];
  ready = [];
}

pipe-IsValid : (len : ℕ) → len ≤ 4096 → IsValid (pipe len)
pipe-IsValid len h = record { offset_in = omega arith; len_in = h }

pipe_read_takes_example : Returns (Read (pipe 5) 3 []) (pipe_read 1 (pipe 5) 3)
pipe_read_takes_example =
    pipe_read_takes 1 3 (pipe-IsValid 5 (omega arith)) (omega arith) (omega arith) (omega arith)

pipe_read_zero_full_example : pipe_read 1 (pipe 4096) 0 ≡ bug
pipe_read_zero_full_example = pipe_read_zero_full 1 (pipe-IsValid 4096 (omega arith)) refl

pipe_write_lem_example :
    Ends
      (Wrote (pipe 5) (7 ∷ 8 ∷ []) [])
      (Filled (pipe 5) (7 ∷ 8 ∷ []) [])
      (pipe_write 1 (pipe 5) (7 ∷ 8 ∷ []))
pipe_write_lem_example =
    pipe_write_lem 1 (7 ∷ 8 ∷ []) (pipe-IsValid 5 (omega arith)) (λ z. absurd (omega arith))
      (omega arith) (omega arith)

abbrev two_writers : Pipe
two_writers = record (pipe 5) { writers = 2 }

counts_up : Pipe.countup (pipe 5) 1 ≡ some two_writers
unfolding Pipe.countup
counts_up = refl
