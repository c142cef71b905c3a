-- ===== src/Process/Files/Seek/Target.antt =====
-- process_llseek against the exact place that a program asks for.
use cyanurus.Base.{
  ℕ, ◌≤◌, ◌<◌, ◌≡◌, refl, ◌⊎◌, inl, inr, true, false, some, arith, ◌==◌, if◌then◌else◌, Bool-cases,
  update, ℤ, pos, negsuc, error,
}
use native.Mathlib.Decide.{ℕ_discrete}
use cyanurus.Arithmetic.{ulong_max, add_overflow_long_long, ◌+ℤ◌}
use cyanurus.Arithmetic.Overflow.{IsLongLong}
use cyanurus.Process.Files.{World, File, inode, get_file, load, store}
use cyanurus.Process.Files.Seek.{
  Aim, wrong, aimed, aim_from, aim, in_offset, as_offset, seek, process_llseek,
}

-- Where the file is to be afterwards.
abbrev pub target : (offset : ℤ) → (whence : ℕ) → (current size : ℕ) → ℤ
target offset whence current size =
    if whence == 0
    then offset
    else if whence == 1
    then pos current +ℤ offset
    else pos size +ℤ offset

abbrev pub placed : World → (ptr : ℕ) → File → ℤ → World
placed w ptr f next = record w {
  file = update w.file ptr (some (record f { offset = as_offset next }));
}

-- What overflows a `long long` is no offset.
beyond :
    (base : ℕ) (offset : ℤ)
    → IsLongLong offset
    → base ≤ ulong_max
    → add_overflow_long_long (pos base) offset ≡ true
    → in_offset (pos base +ℤ offset) ≡ false
unfolding add_overflow_long_long
beyond base (pos n) h b e = ground (arith, e)
beyond base (negsuc n) h b e = absurd (ground (arith, e))

-- Either the place is aimed at, or the answer is -EOVERFLOW and the place is no offset.
abbrev Found : Aim → ℤ → Type 0
Found a next = (a ≡ aimed next) ⊎ ((a ≡ wrong (error 75)) × (in_offset next ≡ false))

aim_from_lem :
    (base : ℕ) (offset : ℤ)
    → IsLongLong offset
    → base ≤ ulong_max
    → Found (aim_from base offset) (pos base +ℤ offset)
unfolding aim_from
aim_from_lem base offset h b = elim (Bool-cases (add_overflow_long_long (pos base) offset)) [
  | inl over ↦ inr (rw over refl, beyond base offset h b over)
  | inr within ↦ inl (rw within refl)
]

aim_lem :
    (offset : ℤ) (whence current size : ℕ)
    → IsLongLong offset
    → whence < 3
    → current ≤ ulong_max
    → size ≤ ulong_max
    → Found (aim offset whence current size) (target offset whence current size)
unfolding aim
aim_lem offset whence current size h three c s = elim (ℕ_discrete whence 0) [
  | yes start ↦ rw start (inl refl)
  | no not_start ↦ elim (ℕ_discrete whence 1) [
    | yes here ↦ rw here (aim_from_lem current offset h c)
    | no not_here ↦
        let last : whence ≡ 2 = omega (arith, three, not_start, not_here) in
        rw last (aim_from_lem size offset h s)
  ]
]

seek_lem :
    (ptr : ℕ) (f : File) (offset : ℤ) (whence size : ℕ) (w : World) (next : ℤ)
    → Found (aim offset whence f.offset size) next
    → seek ptr f offset whence size w
      ≡ (if in_offset next then some (next, placed w ptr f next) else some (error 75, w))
unfolding seek store
seek_lem ptr f offset whence size w next (inl hit) = rw (seek, hit) refl
seek_lem ptr f offset whence size w next (inr (miss, out)) = rw (seek, miss, out) refl

-- process_llseek on an open file of the file system, with a known `whence`: if the place asked for, the
-- offset from the start, the current place or the end, is a number of type `unsigned long`, it becomes
-- the file's offset and the answer. Otherwise the answer is -EOVERFLOW and nothing changes.
pub process_llseek-target :
    (size_of : ℕ → ℕ) (fd offset : ℤ) (whence ptr d : ℕ) (f : File) (w : World)
    → get_file fd w ≡ some ptr
    → w.file ptr ≡ some f
    → f.type ≡ inode d
    → IsLongLong offset
    → whence < 3
    → f.offset ≤ ulong_max
    → size_of d ≤ ulong_max
    → let next = target offset whence f.offset (size_of d) in
      process_llseek size_of fd offset whence w
      ≡ (if in_offset next then some (next, placed w ptr f next) else some (error 75, w))
unfolding process_llseek load
process_llseek-target size_of fd offset whence ptr d f w opened at ty h three c s = ground (
  arith,
  opened,
  at,
  ty,
  seek_lem ptr f offset whence (size_of d) w (target offset whence f.offset (size_of d))
      (aim_lem offset whence f.offset (size_of d) h three c s),
)
