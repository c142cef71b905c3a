-- ===== src/Process/Files/Sound.antt =====
-- The invariant of files, descriptors and pipes, and what each primitive step does to it.
use cyanurus.Base.{
  ℕ, suc, ◌+◌, ◌≤◌, ◌<◌, bit_and, ◌≡◌, ◌≢◌, sym, ap, ◌∙◌, inl, inr, ◌&&◌, Option, none, some, ◌∷◌,
  arith, ◌==◌, if◌then◌else◌, Option-cases, length, set, length-set,
}
use cyanurus.Pipe
use cyanurus.Pipe.{Pipe}
use cyanurus.Process.Files.{Table, World, File, FileType, unused, tty, inode, pipe, slot}
use cyanurus.Process.Files.Refs.{weigh, cost, is, weigh-cons, weigh-set}

abbrev pub access : File → ℕ
access f = bit_and f.flags Pipe.o_accmode

abbrev pub count_of : Option File → ℕ
count_of none = 0
count_of (some f) = f.count

abbrev pub readers_of : Option Pipe → ℕ
readers_of none = 0
readers_of (some p) = p.readers

abbrev pub writers_of : Option Pipe → ℕ
writers_of none = 0
writers_of (some p) = p.writers

-- 1 for a file that is an end of the pipe at `ptr`, with access mode `mode`
abbrev pub end_type : FileType → (mode ptr acc : ℕ) → ℕ
end_type (pipe p) mode ptr acc = if (p == ptr) && (acc == mode) then 1 else 0
end_type (inode d) mode ptr acc = 0
end_type tty mode ptr acc = 0
end_type unused mode ptr acc = 0

abbrev pub end_of : (mode ptr : ℕ) → Option File → ℕ
end_of mode ptr none = 0
end_of mode ptr (some f) = end_type f.type mode ptr (access f)

-- The sum of a weight over every descriptor, those in `extra` included: references that the code
-- holds in a variable.
abbrev pub total : (ℕ → ℕ) → Table → World → ℕ
total g extra w = weigh g w.files + weigh g w.others + weigh g extra

pub record IsSound (extra : Table) (w : World) : Type 0 where
  pub size : length w.files ≡ 32
  pub few : length w.others < 0x4000_0000
  pub few_extra : length extra < 0x1000
  pub counted : (a : ℕ) → count_of (w.file a) ≡ total (is a) extra w
  pub live : (a : ℕ) (f : File) → w.file a ≡ some f → f.count ≢ 0
  pub readers : (p : ℕ) → readers_of (w.pipe p) ≡ total (λ a. end_of 0 p (w.file a)) extra w
  pub writers : (p : ℕ) → writers_of (w.pipe p) ≡ total (λ a. end_of 1 p (w.file a)) extra w
  pub ends : (a p : ℕ) (f : File) → w.file a ≡ some f → f.type ≡ pipe p → access f ≤ 1

-- An object with a reference exists.
pub referenced :
    {extra : Table} {w : World} (a : ℕ)
    → IsSound extra w
    → total (is a) extra w ≢ 0
    → (f : File) × (w.file a ≡ some f)
referenced {extra} {w} a s h = elim (Option-cases (w.file a)) [
  | inl gone ↦ absurd (h (sym (s.counted a) ∙ ap count_of gone))
  | inr found ↦ found
]

-- Moving a descriptor's reference into a variable, and a variable's into a free descriptor.
pub take-IsSound :
    {extra : Table} {w : World} (i : ℕ)
    → IsSound extra w
    → i < 32
    → suc (length extra) < 0x1000
    → IsSound (slot w.files i ∷ extra) (record w { files = set w.files i none })
take-IsSound {extra} {w} i s h k = record {
  size = length-set w.files i none ∙ s.size;
  few = s.few;
  few_extra = k;
  counted = λ a. s.counted a ∙ moved (is a);
  live = s.live;
  readers = λ p. s.readers p ∙ moved (λ a. end_of 0 p (w.file a));
  writers = λ p. s.writers p ∙ moved (λ a. end_of 1 p (w.file a));
  ends = s.ends;
}
  where
    moved :
        (g : ℕ → ℕ)
        → total g extra w
          ≡ total g (slot w.files i ∷ extra) (record w { files = set w.files i none })
    moved g = omega (
      arith,
      weigh-set g w.files i none (omega (arith, s.size)),
      weigh-cons g (slot w.files i) extra,
    )

pub put-IsSound :
    {extra : Table} {w : World} (i : ℕ) (v : Option ℕ)
    → IsSound (v ∷ extra) w
    → i < 32
    → slot w.files i ≡ none
    → IsSound extra (record w { files = set w.files i v })
put-IsSound {extra} {w} i v s h free = record {
  size = length-set w.files i v ∙ s.size;
  few = s.few;
  few_extra = omega (arith, s.few_extra);
  counted = λ a. s.counted a ∙ moved (is a);
  live = s.live;
  readers = λ p. s.readers p ∙ moved (λ a. end_of 0 p (w.file a));
  writers = λ p. s.writers p ∙ moved (λ a. end_of 1 p (w.file a));
  ends = s.ends;
}
  where
    moved :
        (g : ℕ → ℕ) → total g (v ∷ extra) w ≡ total g extra (record w { files = set w.files i v })
    moved g = omega (
      arith,
      weigh-set g w.files i v (omega (arith, s.size)),
      weigh-cons g v extra,
      ap (cost g) free,
    )
