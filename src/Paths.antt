-- ===== src/Paths.antt =====
-- Path names: dirname and basename of src/kernel/lib/libgen.c. A path is the memory from its first
-- byte on, and its length is what strlen returns.
pub mod Last
pub mod Parts
use cyanurus.Base.{ℕ, zero, suc, Option, none, some, ◌==◌, if◌then◌else◌, update}

-- '/'
abbrev pub slash : ℕ
slash = 47

-- The static "." or "/", or the string from an offset on in the memory of the path, which is written.
pub data PathName : Type 0 where
  dot : PathName
  root : PathName
  within : ℕ → (ℕ → ℕ) → PathName

-- `while (path[i] == '/')` of dirname, down from `i`; none if all are
unfoldable pub skip_slashes : ℕ → (ℕ → ℕ) → Option ℕ
skip_slashes zero path = if path 0 == slash then none else some 0
skip_slashes (suc i) path =
    let rest = skip_slashes i path in if path (suc i) == slash then rest else some (suc i)

-- `while (path[i] != '/')` of dirname, down from `i`; none if none is
unfoldable pub skip_name : ℕ → (ℕ → ℕ) → Option ℕ
skip_name zero path = if path 0 == slash then some 0 else none
skip_name (suc i) path =
    let rest = skip_name i path in if path (suc i) == slash then some (suc i) else rest

unfoldable pub cut : (ℕ → ℕ) → Option ℕ → PathName
cut path none = root
cut path (some k) = within 0 (update path (suc k) 0)

unfoldable pub dir_before : (ℕ → ℕ) → Option ℕ → PathName
dir_before path none = dot
dir_before path (some j) = cut path (skip_slashes j path)

unfoldable pub dir_of : (ℕ → ℕ) → Option ℕ → PathName
dir_of path none = root
dir_of path (some i) = dir_before path (skip_name i path)

unfoldable pub dirname : (ℕ → ℕ) → ℕ → PathName
dirname path zero = dot
dirname path (suc n) = dir_of path (skip_slashes n path)

-- the first loop of basename: the slashes at the end are overwritten
unfoldable pub strip_loop : ℕ → (ℕ → ℕ) → ℕ × (ℕ → ℕ)
strip_loop zero path = (0, path)
strip_loop (suc i) path =
    let rest = strip_loop i (update path (suc i) 0) in
    if path (suc i) == slash then rest else (suc i, path)

-- the second loop of basename: back to the byte behind a slash
unfoldable pub start_loop : ℕ → (ℕ → ℕ) → ℕ
start_loop zero path = 0
start_loop (suc i) path = let rest = start_loop i path in if path i == slash then suc i else rest

unfoldable pub basename : (ℕ → ℕ) → ℕ → PathName
basename path zero = dot
basename path (suc n) = let (e, m) = strip_loop n path in within (start_loop e m) m
