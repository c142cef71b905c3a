-- ===== src/Elf.antt =====
-- The check of a segment in src/kernel/elf.c, with the addresses of src/kernel/user.h.
pub mod Bounds
use cyanurus.Base.{ℕ, Bool, false, leb, ltb, add32, if◌then◌else◌}
use cyanurus.Arithmetic.{add_overflow_unsigned_long}

-- struct elf_segment, without the page
pub record ElfSegment : Type 0 where
  pub addr : ℕ
  pub file_size : ℕ
  pub memory_size : ℕ

-- USER_ADDRESS_START, BRK_ADDRESS_END
abbrev pub user_address_start : ℕ
user_address_start = 0x0001_0000

abbrev pub brk_address_end : ℕ
brk_address_end = 0x1000_0000

abbrev pub is_executable_address : ℕ → Bool
is_executable_address address =
    if leb user_address_start address then ltb address brk_address_end else false

unfoldable pub validate_segment : ElfSegment → Bool
validate_segment segment =
    if ltb segment.memory_size segment.file_size
    then false
    else if add_overflow_unsigned_long segment.addr segment.memory_size
    then false
    else if is_executable_address segment.addr
    then is_executable_address (add32 segment.addr segment.memory_size)
    else false
