-- ===== src/Tests/Words.antt =====
-- Signal sets, bit sets, strings, numbers and a segment, at concrete values.
use cyanurus.Elf.{ElfSegment, validate_segment}
use cyanurus.Elf.Bounds.{IsInPlace, validate_segment_iff}
use cyanurus.Base.{
  ℕ, ◌≤◌, ◌<◌, ◌≡◌, refl, ◌↔◌, ◌⊎◌, true, false, some, List, [], ◌∷◌, arith, negsuc,
}
use cyanurus.Sigset.{Sigset, sigpeekset}
use cyanurus.Sigset.Member.{member}
use cyanurus.Sigset.Algebra.{sigpeekset_least}
use cyanurus.Arithmetic.{add_overflow_long_long, ◌+ℤ◌}
use cyanurus.Arithmetic.Overflow.{IsLongLong, add_overflow_long_long_iff}
use cyanurus.Text.{strcpy, strcat, strcmp, strlen, text}
use cyanurus.Text.Reading.{strlen-text, length_of}

-- SIGINT and SIGTERM
abbrev some_signals : Sigset
some_signals = record { low = 0x4002; high = 0 }

sigpeekset_least_example :
    ((sigpeekset some_signals ≡ 0) × ((j : ℕ) → (1 ≤ j) × (j < 65) → member some_signals j ≡ false))
    ⊎ (((1 ≤ sigpeekset some_signals) × (sigpeekset some_signals < 65))
        × (member some_signals (sigpeekset some_signals) ≡ true)
        × ((j : ℕ) → 1 ≤ j → j < sigpeekset some_signals → member some_signals j ≡ false))
sigpeekset_least_example = sigpeekset_least some_signals

-- "hi" and "ho", with something behind them
abbrev hi : List ℕ
hi = 104 ∷ 105 ∷ 0 ∷ 7 ∷ []

abbrev ho : List ℕ
ho = 104 ∷ 111 ∷ 0 ∷ []

abbrev room : List ℕ
room = 104 ∷ 0 ∷ 9 ∷ 9 ∷ 9 ∷ []

abbrev two_letters : ℕ → List ℕ
two_letters c = 104 ∷ c ∷ []

text_hi : text hi ≡ some (104 ∷ 105 ∷ [])
unfolding text
text_hi = refl

text_ho : text ho ≡ some (104 ∷ 111 ∷ [])
unfolding text
text_ho = refl

text_room : text room ≡ some (104 ∷ [])
unfolding text
text_room = refl

strlen-text_example : strlen hi ≡ length_of (text hi)
strlen-text_example = strlen-text hi

-- What the loops compute on these strings.
strcmp-hi-ho : strcmp hi ho ≡ some (negsuc 5)
unfolding strcmp
strcmp-hi-ho = refl

strcat-room-hi : strcat room hi ≡ some (104 ∷ 104 ∷ 105 ∷ 0 ∷ 9 ∷ [])
unfolding strcat strcpy
strcat-room-hi = refl

add_overflow_long_long_iff_example :
    (add_overflow_long_long (negsuc 0x7fff_ffff_ffff_fffe) (negsuc 1) ≡ false)
    ↔ IsLongLong (negsuc 0x7fff_ffff_ffff_fffe +ℤ negsuc 1)
add_overflow_long_long_iff_example =
    add_overflow_long_long_iff (negsuc 0x7fff_ffff_ffff_fffe) (negsuc 1) (omega arith) (omega arith)

abbrev program : ElfSegment
program = record { addr = 0x1_0000; file_size = 100; memory_size = 200 }

validate_segment_iff_example : (validate_segment program ≡ true) ↔ IsInPlace program
validate_segment_iff_example = validate_segment_iff program (omega arith) (omega arith)
