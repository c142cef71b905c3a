-- ===== src/Elf/Bounds.antt =====
-- The segments that validate_segment of src/kernel/elf.c accepts.
use cyanurus.Base.{◌+◌, ◌<◌, ◌≤◌, ◌≡◌, ◌↔◌, true, arith, u32}
use cyanurus.Arithmetic.{add_overflow_unsigned_long}
use cyanurus.Elf.{ElfSegment, user_address_start, brk_address_end, validate_segment}

-- the bytes of the file fit, and the segment lies in the memory for programs
abbrev pub IsInPlace : ElfSegment → Type 0
IsInPlace g =
    (g.file_size ≤ g.memory_size)
    × (user_address_start ≤ g.addr)
    × (g.addr + g.memory_size < brk_address_end)

-- validate_segment accepts a segment of 32-bit numbers exactly if its bytes in the file fit into its
-- memory, and the memory with its end lies between the first address of a program and the end of the
-- break; no overflow gets past it.
pub validate_segment_iff :
    (g : ElfSegment)
    → g.addr < u32
    → g.memory_size < u32
    → (validate_segment g ≡ true) ↔ IsInPlace g
unfolding validate_segment add_overflow_unsigned_long
validate_segment_iff g a m = ((λ e. (ground arith, ground arith, ground arith)), λ h. ground arith)
