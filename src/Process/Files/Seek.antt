-- ===== src/Process/Files/Seek.antt =====
-- process_llseek: moving the offset of an open file.
pub mod Target
use cyanurus.Base.{ℕ, ◌+◌, Bool, not, ◌&&◌, none, some, ◌==◌, if◌then◌else◌, ℤ, pos, negsuc, error}
use cyanurus.Arithmetic.{ulong_max, less, add_overflow_long_long, ◌+ℤ◌}
use cyanurus.Process.Files.{◌>>=◌, ◌>>◌, File, inode, M, load, store, pure, get_file}

-- The result of the switch on `whence`: an error, or the offset that is aimed at. EINVAL is 22.
pub data Aim : Type 0 where
  wrong : (result : ℤ) → Aim
  aimed : (offset : ℤ) → Aim

-- `base` plus the offset, or -EOVERFLOW, which is 75.
unfoldable pub aim_from : (base : ℕ) → (offset : ℤ) → Aim
aim_from base offset =
    if add_overflow_long_long (pos base) offset
    then wrong (error 75)
    else aimed (pos base +ℤ offset)

-- SEEK_SET is 0, SEEK_CUR 1 and SEEK_END 2.
unfoldable pub aim : (offset : ℤ) → (whence : ℕ) → (current size : ℕ) → Aim
aim offset whence current size =
    if whence == 0
    then aimed offset
    else if whence == 1
    then aim_from current offset
    else if whence == 2
    then aim_from size offset
    else wrong (error 22)

abbrev pub in_offset : ℤ → Bool
in_offset offset = not (less offset (pos 0)) && not (less (pos ulong_max) offset)

abbrev pub as_offset : ℤ → ℕ
as_offset (pos n) = n
as_offset (negsuc n) = 0

-- What is done once the file is known to be an inode's. `size` is the size of that inode.
unfoldable pub seek : (ptr : ℕ) → File → (offset : ℤ) → (whence size : ℕ) → M ℤ
unfolding store
seek ptr f offset whence size w = elim (aim offset whence f.offset size) [
  | wrong r ↦ some (r, w)
  | aimed next ↦
      if in_offset next
      then (do store ptr (some (record f { offset = as_offset next })); pure next) w
      else some (error 75, w)
]

-- `size_of` is the size of the inode at each dentry. EBADF is 9 and ESPIPE 29.
unfoldable pub process_llseek : (size_of : ℕ → ℕ) → (fd offset : ℤ) → (whence : ℕ) → M ℤ
unfolding load
process_llseek size_of fd offset whence w = elim (get_file fd w) [
  | none ↦ some (error 9, w)
  | some ptr ↦
      (do
        f ← load ptr
        elim (f.type) [ inode d ↦ seek ptr f offset whence (size_of d) | _ ↦ pure (error 29) ])
        w
]
