-- ===== src/Process/Files/Calls.antt =====
-- The system calls on descriptors, and what process_fork, process_exec and process_exit do to them
-- (src/kernel/process.c).
use cyanurus.Base.{
  ℕ, zero, suc, ◌+◌, bit_and, bit_or, Bool, true, false, not, none, some, [], ◌∷◌, ◌++◌, leb, ◌==◌,
  if◌then◌else◌, update, ℤ, pos, negsuc, error, signed32,
}
use cyanurus.Bits.{complement}
use cyanurus.Bitset
use cyanurus.Pipe
use cyanurus.Pipe.{Pipe}
use cyanurus.Process.Files.{
  M, Table, File, pipe, slot, max_fd_size, o_cloexec, o_append, pipe2_flags, file_status_flags,
  load, store, set_slot, mark, unmark, first_free, alloc_file, release_file, countup_file, get_file,
  number, pure, ◌>>=◌, ◌>>◌,
}

-- EBADF is 9.
unfoldable pub process_close : (fd : ℤ) → M ℤ
unfolding set_slot unmark
process_close fd w = elim (get_file fd w) [
  | none ↦ some (error 9, w)
  | some f ↦ (do release_file f; set_slot (number fd) none; unmark (number fd); pure (pos 0)) w
]

-- EINVAL is 22. A negative `from` is out of range too.
unfoldable pub process_dupfd : (fd from : ℤ) (flags : ℕ) → M ℤ
unfolding set_slot mark
process_dupfd fd from flags w =
    let cloexec = not (bit_and flags o_cloexec == 0) in
    elim (get_file fd w) [
      | none ↦ some (error 9, w)
      | some f ↦ elim from [
        | negsuc n ↦ some (error 22, w)
        | pos n ↦ if leb max_fd_size n then some (error 22, w) else (elim (first_free w.files n) [
          | none ↦ some (error 24, w)
          | some i ↦ (do countup_file f; mark cloexec i; set_slot i (some f); pure (pos i)) w
        ])
      ]
    ]

-- `if (process->files[newfd]) process_close(newfd);`
unfoldable pub make_room : ℕ → M (Unit {0})
make_room fd w = elim (slot w.files fd) [
  | none ↦ some (tt, w)
  | some _ ↦ (do _ ← process_close (pos fd); pure tt) w
]

-- What process_dup2 and process_dup3 do once their arguments are accepted.
unfoldable pub replace : (f new : ℕ) → (cloexec : Bool) → M ℤ
unfolding set_slot mark
replace f new cloexec = do
  make_room new
  countup_file f
  mark cloexec new
  set_slot new (some f)
  pure (pos new)

unfoldable pub process_dup2 : (oldfd newfd : ℤ) → M ℤ
process_dup2 oldfd (negsuc n) w = some (error 9, w)
process_dup2 oldfd (pos new) w = elim (get_file oldfd w) [
  | none ↦ some (error 9, w)
  | some f ↦
      if leb max_fd_size new
      then some (error 9, w)
      else if number oldfd == new
      then some (pos new, w)
      else replace f new false w
]

unfoldable pub process_dup3 : (oldfd newfd : ℤ) (flags : ℕ) → M ℤ
process_dup3 oldfd (negsuc n) flags w = some (error 9, w)
process_dup3 oldfd (pos new) flags w = elim (get_file oldfd w) [
  | none ↦ some (error 9, w)
  | some f ↦
      if leb max_fd_size new
      then some (error 9, w)
      else if number oldfd == new
      then some (error 22, w)
      else replace f new (not (bit_and flags o_cloexec == 0)) w
]

-- The objects that process_pipe2 takes from the slab: two files, and the pipe with its page.
pub record Fresh : Type 0 where
  pub rfile : ℕ
  pub wfile : ℕ
  pub pipe : ℕ
  pub page : ℕ → ℕ

abbrev pub pipe_end : ℕ → ℕ → ℕ → File
pipe_end ptr access flags = record {
  type = pipe ptr;
  flags = bit_or (bit_or access o_append) (bit_and flags pipe2_flags);
  offset = 0;
  count = 1;
}

unfoldable pub store_pipe : ℕ → Pipe → M (Unit {0})
store_pipe ptr p w = some (tt, record w { pipe = update w.pipe ptr (some p) })

-- The result is the return value and the two descriptors that are stored in `pipefd`.
unfoldable pub connect : Fresh → (flags rfd wfd : ℕ) → M (ℤ × ℕ × ℕ)
unfolding store store_pipe mark
connect fresh flags rfd wfd = do
  store_pipe fresh.pipe (Pipe.create fresh.page)
  store fresh.rfile (some (pipe_end fresh.pipe 0 flags))
  store fresh.wfile (some (pipe_end fresh.pipe 1 flags))
  mark (not (bit_and flags o_cloexec == 0)) rfd
  mark (not (bit_and flags o_cloexec == 0)) wfd
  pure (pos 0, rfd, wfd)

unfoldable pub process_pipe2 : Fresh → (flags : ℕ) → M (ℤ × ℕ × ℕ)
process_pipe2 fresh flags =
    if not (bit_and flags (complement 32 pipe2_flags) == 0) then pure (error 22, 0, 0) else do
      r ← alloc_file fresh.rfile
      elim r [
        | negsuc e ↦ pure (negsuc e, 0, 0)
        | pos rfd ↦ do
          s ← alloc_file fresh.wfile
          elim s [
            | negsuc e ↦ do _ ← process_close (pos rfd); pure (negsuc e, 0, 0)
            | pos wfd ↦ connect fresh flags rfd wfd
          ]
      ]

unfoldable pub process_pipe : Fresh → M (ℤ × ℕ × ℕ)
unfolding process_pipe2
process_pipe fresh = process_pipe2 fresh 0

-- The commands of process_fcntl64, and any other.
unfoldable pub process_fcntl64 : (fd : ℤ) → (cmd arg : ℕ) → M ℤ
unfolding load store unmark mark
process_fcntl64 fd cmd arg w = elim (get_file fd w) [
  | none ↦ some (error 9, w)
  | some ptr ↦
      if cmd == 0
      then process_dupfd fd (signed32 arg) 0 w
      else if cmd == 1
      then some (if Bitset.test w.close_on_exec (number fd) then pos 1 else pos 0, w)
      else if cmd == 2
      then (if bit_and arg 1 == 0
          then (do unmark (number fd); pure (pos 0)) w
          else (do mark true (number fd); pure (pos 0)) w)
      else if cmd == 3
      then (do
        f ← load ptr
        pure (signed32 (bit_and f.flags (bit_or file_status_flags Pipe.o_accmode))))
          w
      else if cmd == 4
      then (do
        f ← load ptr
        store ptr (
            some (record f {
              flags = bit_or (bit_and arg file_status_flags) (bit_and f.flags Pipe.o_accmode);
            }))
        pure (pos 0))
          w
      else some (error 22, w)
]

-- The loop of process_fork that counts up the files of the copied table.
unfoldable pub countup_all : Table → M (Unit {0})
countup_all [] = pure tt
countup_all (none ∷ t) = countup_all t
countup_all (some f ∷ t) = countup_file f >> countup_all t

-- The child's table joins the others; its close-on-exec bits stay zero, as process_alloc left them.
unfoldable pub fork_files : M (Unit {0})
fork_files w =
    (do countup_all w.files; (λ w'. some (tt, record w' { others = w'.files ++ w'.others }))) w

-- The loops over all descriptors, `left` to come: of process_exec, and of process_exit.
unfoldable pub close_marked : (i : ℕ) → M (Unit {0})
unfolding set_slot unmark
close_marked i w = elim (slot w.files i) [
  | none ↦ some (tt, w)
  | some f ↦
      if Bitset.test w.close_on_exec i
      then (do release_file f; set_slot i none; unmark i) w
      else some (tt, w)
]

unfoldable pub exec_close : (left i : ℕ) → M (Unit {0})
exec_close zero i = pure tt
exec_close (suc left) i = do close_marked i; exec_close left (i + 1)

unfoldable pub exit_close : (left i : ℕ) → M (Unit {0})
exit_close zero i w = some (tt, w)
exit_close (suc left) i w =
    let rest = exit_close left (i + 1) in
    elim (slot w.files i) [ none ↦ rest w | some f ↦ (do set_slot i none; release_file f; rest) w ]
