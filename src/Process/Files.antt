-- ===== src/Process/Files.antt =====
-- File descriptors: the table `files` of the current process, its close-on-exec bits, and the
-- counted `struct file` objects that descriptors of all processes share (src/kernel/process.c, file.h).
pub mod Refs
pub mod Sound
pub mod Objects
pub mod Countup
pub mod Calls
pub mod Close
pub mod Dup
pub mod Seek
pub mod Fork
use cyanurus.Base.{
  ℕ, zero, suc, Bool, Option, none, some, List, [], ◌∷◌, leb, ◌==◌, if◌then◌else◌, get_or, set,
  update, ℤ, pos, negsuc, error, add32, sub32,
}
use cyanurus.Bitset
use cyanurus.Bitset.{Bitset}
use cyanurus.Pipe
use cyanurus.Pipe.{Pipe, kept, freed, halted}

-- MAX_FD_SIZE
abbrev pub max_fd_size : ℕ
max_fd_size = 32

-- `enum file_type`, with what the union holds: a dentry, the terminal's settings, a pipe
pub data FileType : Type 0 where
  unused : FileType
  tty : FileType
  inode : (dentry : ℕ) → FileType
  pipe : (ptr : ℕ) → FileType

-- `struct file`
pub record File : Type 0 where
  pub type : FileType
  pub flags : ℕ
  pub offset : ℕ
  pub count : ℕ

-- A `struct file *` in a descriptor table; `none` is NULL.
abbrev pub Table : Type 0
Table = List (Option ℕ)

-- `files` and `close_on_exec` are the current process's; `others` are the descriptors of all other
-- processes, one table behind the other. `file` and `pipe` are the objects at their addresses.
pub record World : Type 0 where
  pub files : Table
  pub close_on_exec : Bitset
  pub others : Table
  pub file : ℕ → Option File
  pub pipe : ℕ → Option Pipe

-- `none` is a stop of the machine: system_halt, SYSTEM_BUG_ON or a use of freed memory.
abbrev pub M : Type 0 → Type 0
M A = World → Option (A × World)

abbrev pub pure : {A : Type 0} → A → M A
pure a w = some (a, w)

infixl 5 ◌>>=◌ ◌>>◌
abbrev pub ◌>>=◌ : {A B : Type 0} → M A → (A → M B) → M B
◌>>=◌ m f w = elim (m w) [ none ↦ none | some (a, w') ↦ f a w' ]

abbrev pub ◌>>◌ : {B : Type 0} → M (Unit {0}) → M B → M B
m >> k = m >>= λ _. k

abbrev pub halt : {A : Type 0} → M A
halt w = none

-- Descriptor flags and bits of lib/unix.h
abbrev pub o_cloexec : ℕ
o_cloexec = 0o2000000

abbrev pub o_append : ℕ
o_append = 0o2000

-- PIPE2_FLAGS
abbrev pub pipe2_flags : ℕ
pipe2_flags = 0o2204000

-- FILE_STATUS_FLAGS
abbrev pub file_status_flags : ℕ
file_status_flags = 0o5236000

abbrev pub slot : Table → ℕ → Option ℕ
slot t i = get_or t i none

unfoldable pub load : ℕ → M File
load ptr w = elim (w.file ptr) [ none ↦ none | some f ↦ some (f, w) ]

unfoldable pub store : ℕ → Option File → M (Unit {0})
store ptr f w = some (tt, record w { file = update w.file ptr f })

unfoldable pub set_slot : ℕ → Option ℕ → M (Unit {0})
set_slot i f w = some (tt, record w { files = set w.files i f })

unfoldable pub mark : Bool → ℕ → M (Unit {0})
mark flag fd w =
    some (tt, if flag then record w { close_on_exec = Bitset.add w.close_on_exec fd } else w)

unfoldable pub unmark : ℕ → M (Unit {0})
unmark fd w = some (tt, record w { close_on_exec = Bitset.remove w.close_on_exec fd })

-- The first free descriptor from `i` on, for `i` below MAX_FD_SIZE.
unfoldable pub first_free : Table → ℕ → Option ℕ
first_free [] i = none
first_free (none ∷ t) zero = some 0
first_free (some f ∷ t) zero = elim (first_free t 0) [ none ↦ none | some j ↦ some (suc j) ]
first_free (f ∷ t) (suc i) = elim (first_free t i) [ none ↦ none | some j ↦ some (suc j) ]

abbrev pub new_file : File
new_file = record { type = unused; flags = 0; offset = 0; count = 1 }

-- `fresh` is what slab_cache_alloc returns. EMFILE is 24.
unfoldable pub alloc_file : (fresh : ℕ) → M ℤ
unfolding store set_slot
alloc_file fresh w = elim (first_free w.files 0) [
  | none ↦ some (error 24, w)
  | some i ↦ (do store fresh (some new_file); set_slot i (some fresh); pure (pos i)) w
]

-- pipe_release, on the pipe at `ptr`
unfoldable pub release_pipe : (ptr flags : ℕ) → M (Unit {0})
release_pipe ptr flags w = elim (w.pipe ptr) [
  | none ↦ none
  | some p ↦ elim (Pipe.release p flags) [
    | halted ↦ none
    | kept q ↦ some (tt, record w { pipe = update w.pipe ptr (some q) })
    | freed q ↦ some (tt, record w { pipe = update w.pipe ptr none })
  ]
]

unfoldable pub countup_pipe : (ptr flags : ℕ) → M (Unit {0})
countup_pipe ptr flags w = elim (w.pipe ptr) [
  | none ↦ none
  | some p ↦ elim (Pipe.countup p flags) [
    | none ↦ none
    | some q ↦ some (tt, record w { pipe = update w.pipe ptr (some q) })
  ]
]

unfoldable pub release_type : File → M (Unit {0})
release_type f = elim (f.type) [ pipe ptr ↦ release_pipe ptr f.flags | _ ↦ pure tt ]

unfoldable pub countup_type : File → M (Unit {0})
countup_type f = elim (f.type) [ pipe ptr ↦ countup_pipe ptr f.flags | _ ↦ pure tt ]

unfoldable pub release_file : (ptr : ℕ) → M (Unit {0})
unfolding load store
release_file ptr = do
  f ← load ptr
  if f.count == 0 then halt else do
    let c = sub32 f.count 1
    store ptr (some (record f { count = c }))
    release_type f
    if c == 0 then store ptr none else pure tt

unfoldable pub countup_file : (ptr : ℕ) → M (Unit {0})
unfolding load store
countup_file ptr = do
  f ← load ptr
  store ptr (some (record f { count = add32 f.count 1 }))
  countup_type f

unfoldable pub get_file : ℤ → World → Option ℕ
get_file (negsuc n) w = none
get_file (pos n) w = if leb max_fd_size n then none else slot w.files n

-- The number of a descriptor that get_file has accepted.
abbrev pub number : ℤ → ℕ
number (pos n) = n
number (negsuc n) = 0
