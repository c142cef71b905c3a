-- ===== src/Process/Files/Close.antt =====
-- process_close: what closing a descriptor does, and that it keeps the invariant.
use cyanurus.Base.{
  ℕ, suc, ◌<◌, ◌≡◌, refl, inl, inr, true, false, Option, none, some, [], ◌∷◌, arith, leb,
  Bool-cases, Option-cases, is_none, length, set, get_or-set_self, ℤ, pos, negsuc, error,
}
use cyanurus.Bitset
use cyanurus.Pipe.{Pipe}
use cyanurus.Process.Files.{Table, World, File, slot, set_slot, unmark, get_file, number}
use cyanurus.Process.Files.Calls.{process_close}
use cyanurus.Process.Files.Sound.{IsSound, take-IsSound}
use cyanurus.Process.Files.Objects.{release_file-IsSound}

leb_32 : (i : ℕ) → i < 32 → leb 32 i ≡ false
leb_32 i h = ground arith

-- Closing the open descriptor `i`: the state that process_close leaves.
pub close_open :
    {extra : Table} {w : World} (i a : ℕ)
    → IsSound extra w
    → i < 32
    → suc (length extra) < 0x1000
    → slot w.files i ≡ some a
    → (files : ℕ → Option File) × (pipes : ℕ → Option Pipe) × (process_close (pos i) w
        ≡ some (
          pos 0,
          record w {
            files = set w.files i none;
            close_on_exec = Bitset.remove w.close_on_exec i;
            file = files;
            pipe = pipes;
          },
        ))
      × IsSound extra (record w {
        files = set w.files i none;
        close_on_exec = Bitset.remove w.close_on_exec i;
        file = files;
        pipe = pipes;
      })
unfolding process_close get_file set_slot unmark
close_open {extra} {w} i a s h k open_at =
    let took : IsSound (some a ∷ extra) (record w { files = set w.files i none }) =
      rw open_at at (take-IsSound {w = w} i s h k) in
    let (files, pipes, run, sound) = release_file-IsSound a took w.files in
    (
      files,
      pipes,
      ground (arith, leb_32 i h, open_at, run),
      record {
        size = sound.size;
        few = sound.few;
        few_extra = sound.few_extra;
        counted = sound.counted;
        live = sound.live;
        readers = sound.readers;
        writers = sound.writers;
        ends = sound.ends;
      },
    )

pub get_file-some :
    (fd : ℤ) {a : ℕ} (w : World)
    → get_file fd w ≡ some a
    → (fd ≡ pos (number fd)) × (number fd < 32) × (slot w.files (number fd) ≡ some a)
unfolding get_file
get_file-some (negsuc n) w e = cc
get_file-some (pos n) w e = (refl, ground (arith, e), ground (arith, e))

get_file-set :
    (fd : ℤ) (w w' : World)
    → w'.files ≡ set w.files (number fd) none
    → length w.files ≡ 32
    → get_file fd w' ≡ none
unfolding get_file
get_file-set (negsuc n) w w' e l = refl
get_file-set (pos n) w w' e l = elim (Bool-cases (leb 32 n)) [
  | inl out ↦ rw out refl
  | inr inside ↦ rw (inside, e) (get_or-set_self w.files n none none (ground (arith, l, inside)))
]

-- process_close never stops the machine in a sound state, and leaves a sound state in which the
-- descriptor is free. It returns 0 on an open descriptor, and on any other -EBADF with the state
-- unchanged.
pub process_close-IsSound :
    (fd : ℤ) (w : World)
    → IsSound [] w
    → (r : ℤ) × (w' : World) × (process_close fd w ≡ some (r, w'))
      × IsSound [] w'
      × (get_file fd w' ≡ none)
      × ((is_none (get_file fd w) ≡ true) → (r ≡ error 9) × (w' ≡ w))
      × ((is_none (get_file fd w) ≡ false) → r ≡ pos 0)
unfolding process_close
process_close-IsSound fd w s = elim (Option-cases (get_file fd w)) [
  | inl closed ↦ (
    error 9,
    w,
    ground (arith, closed),
    s,
    closed,
    λ h. (refl, refl),
    λ h. absurd (ground (arith, closed, h)),
  )
  | inr (a, e) ↦
      let (same, inside, open_at) = get_file-some fd w e in
      let (files, pipes, run, sound) = close_open (number fd) a s inside (omega arith) open_at in
      (
        pos 0,
        record w {
          files = set w.files (number fd) none;
          close_on_exec = Bitset.remove w.close_on_exec (number fd);
          file = files;
          pipe = pipes;
        },
        rw same run,
        sound,
        get_file-set fd w
            (record w {
              files = set w.files (number fd) none;
              close_on_exec = Bitset.remove w.close_on_exec (number fd);
              file = files;
              pipe = pipes;
            })
            refl s.size,
        λ h. absurd (ground (arith, e, h)),
        λ h. refl,
      )
]
