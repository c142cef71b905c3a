-- ===== src/Process/Files/Fork.antt =====
-- What process_fork does to the descriptors: a second table with a reference more to each file.
use cyanurus.Base.{
  ℕ, ◌+◌, ◌<◌, ◌≡◌, ◌≢◌, refl, ◌∙◌, Option, none, some, [], ◌∷◌, ◌++◌, arith, length, length-append,
}
use cyanurus.Pipe.{Pipe}
use cyanurus.Process.Files.{Table, World, File}
use cyanurus.Process.Files.Calls.{countup_all, fork_files}
use cyanurus.Process.Files.Refs.{weigh, is, weigh-cons, weigh-append}
use cyanurus.Process.Files.Sound.{IsSound, total, end_of, count_of}
use cyanurus.Process.Files.Countup.{countup_file-IsSound}

-- The files of `t` counted up once more: the state, and the references that are then held.
abbrev Counted : Table → Table → World → Type 0
Counted t extra w =
    (files : ℕ → Option File) × (pipes : ℕ → Option Pipe) × (held : Table) × (countup_all t w
      ≡ some (tt, record w { file = files; pipe = pipes }))
    × IsSound held (record w { file = files; pipe = pipes })
    × ((g : ℕ → ℕ) → weigh g held ≡ weigh g t + weigh g extra)

countup_all_lem :
    (t extra : Table) (w : World)
    → IsSound extra w
    → ((a : ℕ) → weigh (is a) t ≢ 0 → total (is a) extra w ≢ 0)
    → length t + length extra < 0xfff
    → Counted t extra w
unfolding countup_all weigh
countup_all_lem [] extra w s refs room = (w.file, w.pipe, extra, refl, s, λ g. omega arith)
countup_all_lem (none ∷ t) extra w s refs room = countup_all_lem t extra w s refs (omega arith)
countup_all_lem (some f ∷ t) extra w s refs room =
    let (files, pipes, run, sound) =
      countup_file-IsSound f s (refs f (λ z. absurd (ground (arith, z)))) (omega arith) in
    let (files2, pipes2, held, run2, sound2, sum) =
      countup_all_lem t (some f ∷ extra) (record w { file = files; pipe = pipes }) sound
        (λ a h. more a h) (omega arith) in
    (
      files2,
      pipes2,
      held,
      ground (arith, run, run2),
      sound2,
      λ g. omega (arith, sum g, weigh-cons g (some f) extra),
    )
  where
    more : (a : ℕ) → weigh (is a) t ≢ 0 → total (is a) (some f ∷ extra) w ≢ 0
    more a h z =
        refs a (λ y. h (omega (arith, weigh-cons (is a) (some f) t, y)))
          (omega (arith, z, weigh-cons (is a) (some f) extra))

-- process_fork never stops the machine over the descriptors in a sound state, as long as the other
-- processes have fewer than 2 ^ 30 - 32 of them, and leaves a sound state: the child's table is a copy of
-- the parent's, and each file is counted once more for each descriptor of the child.
pub fork_files-IsSound :
    (w : World)
    → IsSound [] w
    → length w.others < 0x3fff_ffe0
    → (w' : World) × (fork_files w ≡ some (tt, w'))
      × IsSound [] w'
      × (w'.files ≡ w.files)
      × (w'.others ≡ w.files ++ w.others)
      × ((a : ℕ) → count_of (w'.file a) ≡ count_of (w.file a) + weigh (is a) w.files)
unfolding fork_files
fork_files-IsSound w s room =
    let (files, pipes, held, run, sound, sum) =
      countup_all_lem w.files [] w s (λ a h z. absurd (h (omega (arith, z))))
        (omega (arith, s.size)) in
    let moved : (g : ℕ → ℕ)
        → total g held w ≡ total g [] (record w { others = w.files ++ w.others }) =
      λ g. omega (arith, sum g, weigh-append g w.files w.others) in
    (
      record w { others = w.files ++ w.others; file = files; pipe = pipes },
      ground (arith, run),
      record {
        size = s.size;
        few = omega (arith, length-append w.files w.others, s.size, room);
        few_extra = omega arith;
        counted = λ a. sound.counted a ∙ moved (is a);
        live = sound.live;
        readers = λ p. sound.readers p ∙ moved (λ a. end_of 0 p (files a));
        writers = λ p. sound.writers p ∙ moved (λ a. end_of 1 p (files a));
        ends = sound.ends;
      },
      refl,
      refl,
      λ a. omega (arith, sound.counted a, s.counted a, sum (is a)),
    )
