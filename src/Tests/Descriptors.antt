-- ===== src/Tests/Descriptors.antt =====
-- A process with both ends of a pipe open, as descriptors 0 and 1.
use cyanurus.Base.{
  ◌++◌, error, negsuc, ℕ, ◌+◌, ◌≡◌, ◌≢◌, refl, true, false, Option, none, some, [], ◌∷◌, arith,
  ◌==◌, if◌then◌else◌, is_none, set, replicate, ℤ, pos, error,
}
use cyanurus.Pipe.{Pipe}
use cyanurus.Process.Files.{inode, World, File, get_file, release_file}
use cyanurus.Process.Files.Calls.{process_close, process_dup2}
use cyanurus.Process.Files
use cyanurus.Process.Files.Refs.{weigh, is}
use cyanurus.Process.Files.Sound.{count_of, IsSound, end_of, total, take-IsSound}
use cyanurus.Process.Files.Objects.{release_file-IsSound}
use cyanurus.Process.Files.Close.{process_close-IsSound}
use cyanurus.Process.Files.Calls.{fork_files}
use cyanurus.Process.Files.Fork.{fork_files-IsSound}
use cyanurus.Process.Files.Seek.{in_offset, process_llseek}
use cyanurus.Process.Files.Seek.Target.{target, placed, process_llseek-target}
use cyanurus.Process.Files.Dup.{Dup2Outcome, process_dup2-IsSound}

abbrev end_file : ℕ → File
end_file mode = record { type = Files.pipe 9; flags = mode; offset = 0; count = 1 }

abbrev ring : Pipe
ring = record {
  page = λ a. 0;
  offset = 0;
  len = 0;
  readers = 1;
  writers = 1;
  readers_waitq = [];
  writers_waitq = [];
  ready = [];
}

abbrev objects : ℕ → Option File
objects a = if a == 1 then some (end_file 0) else if a == 2 then some (end_file 1) else none

abbrev world : World
world = record {
  files = some 1 ∷ some 2 ∷ replicate 30 none;
  close_on_exec = 0 ∷ [];
  others = [];
  file = objects;
  pipe = λ p. if p == 9 then some ring else none;
}

world-total : (g : ℕ → ℕ) → total g [] world ≡ g 1 + g 2
unfolding weigh
world-total g = omega arith

world-IsSound : IsSound [] world
world-IsSound = record {
  size = refl;
  few = omega arith;
  few_extra = omega arith;
  counted = λ a. ground (arith, world-total (is a));
  live = λ a f h. ground (arith, h);
  readers = λ p. ground (arith, world-total (λ a. end_of 0 p (objects a)));
  writers = λ p. ground (arith, world-total (λ a. end_of 1 p (objects a)));
  ends = λ a p f h t. ground (arith, h);
}

process_close-IsSound_example :
    (r : ℤ) × (w' : World) × (process_close (pos 1) world ≡ some (r, w'))
    × IsSound [] w'
    × (get_file (pos 1) w' ≡ none)
    × ((is_none (get_file (pos 1) world) ≡ true) → (r ≡ error 9) × (w' ≡ world))
    × ((is_none (get_file (pos 1) world) ≡ false) → r ≡ pos 0)
process_close-IsSound_example = process_close-IsSound (pos 1) world world-IsSound

process_dup2-IsSound_example :
    Dup2Outcome (pos 0) (pos 1) world (process_dup2 (pos 0) (pos 1) world)
process_dup2-IsSound_example = process_dup2-IsSound (pos 0) (pos 1) world world-IsSound

abbrev moved : World
moved = record world { files = set world.files 1 none }

moved-IsSound : IsSound (some 2 ∷ []) moved
moved-IsSound = take-IsSound 1 world-IsSound (omega arith) (omega arith)

release_file-IsSound_example :
    (files : ℕ → Option File) × (pipes : ℕ → Option Pipe) × (release_file 2
        (record moved { files = world.files })
      ≡ some (tt, record moved { files = world.files; file = files; pipe = pipes }))
    × IsSound [] (record moved { file = files; pipe = pipes })
release_file-IsSound_example = release_file-IsSound 2 moved-IsSound world.files

referred : total (is 2) [] world ≢ 0
referred z = absurd (omega (arith, world-total (is 2), z))

fork_files-IsSound_example :
    (w' : World) × (fork_files world ≡ some (tt, w'))
    × IsSound [] w'
    × (w'.files ≡ world.files)
    × (w'.others ≡ world.files ++ [])
    × ((a : ℕ) → count_of (w'.file a) ≡ count_of (objects a) + weigh (is a) world.files)
fork_files-IsSound_example = fork_files-IsSound world world-IsSound (omega arith)

-- Descriptor 0 as a file of the file system, 100 bytes into it.
abbrev seekable : File
seekable = record { type = inode 4; flags = 0; offset = 100; count = 1 }

abbrev reading : World
reading = record world { file = λ a. if a == 1 then some seekable else none }

opened : get_file (pos 0) reading ≡ some 1
unfolding get_file
opened = refl

process_llseek-target_example :
    let next = target (negsuc 29) 1 100 500 in
    process_llseek (λ d. 500) (pos 0) (negsuc 29) 1 reading ≡ (
      if in_offset next
      then some (next, placed reading 1 seekable next)
      else some (error 75, reading))
process_llseek-target_example =
    process_llseek-target (λ d. 500) (pos 0) (negsuc 29) 1 1 4 seekable reading opened refl refl
      (omega arith) (omega arith) (omega arith) (omega arith)
