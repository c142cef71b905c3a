-- ===== src/Inode/Map.antt =====
-- The allocation maps as sets of numbers: mark_map takes the first free one, unmark_map gives one
-- back.
mod Loops
use cyanurus.Base.{
  ℕ, ◌+◌, ◌-◌, ◌*◌, ◌/◌, ◌%◌, ◌^◌, ◌≤◌, ◌<◌, bit_and, bit_or, ◌≡◌, refl, ◌⊎◌, inl, inr, Bool, true,
  false, not, ◌&&◌, ◌||◌, arith, ◌==◌, if◌then◌else◌, Bool-cases, update,
}
use cyanurus.Bits.{
  test_bit, complement, test_bit-or, test_bit-and, test_bit-pow, test_bit-complement, pow-lt,
}
use cyanurus.Disk.{Disk, block_size, block_read, block_write}
use cyanurus.Inode.{Scan, scanning, stopped, scan_blocks, mark_map, unmark_map}
pub use Loops.{map_bit, IsBytes, AllSet}
use Loops.{Scanned, on, beyond, found, marked, scan_blocks-Scanned}

-- Position of bit `j` against bit `n`.
same_place :
    (n j : ℕ)
    → (n == j) ≡ (
        (n / 8 / block_size == j / 8 / block_size)
        && ((n / 8 % block_size == j / 8 % block_size) && (n % 8 == j % 8)))
same_place n j = ground arith

-- What one write to the byte of bit `n` does to bit `j` of a map.
map_bit-write :
    (d : Disk) (start n j v : ℕ)
    → start + n / 8 / block_size < 0x1_0000
    → start + j / 8 / block_size < 0x1_0000
    → map_bit
        (block_write d
          (start + n / 8 / block_size)
          (update (block_read d (start + n / 8 / block_size)) (n / 8 % block_size) v))
        start
        j
      ≡ (if (n / 8 / block_size == j / 8 / block_size) && (n / 8 % block_size == j / 8 % block_size)
          then test_bit v (j % 8)
          else map_bit d start j)
map_bit-write d start n j v h k = elim (Bool-cases (n / 8 / block_size == j / 8 / block_size)) [
  | inl same ↦ let q : n / 8 / block_size ≡ j / 8 / block_size = ground arith in ground arith
  | inr other ↦ ground arith
]

map_bit-marked :
    (d : Disk) (start n j : ℕ)
    → start + n / 8 / block_size < 0x1_0000
    → start + j / 8 / block_size < 0x1_0000
    → map_bit (marked d start n) start j ≡ ((n == j) || map_bit d start j)
map_bit-marked d start n j h k = ground (
  arith,
  map_bit-write d start n j
      (bit_or (block_read d (start + n / 8 / block_size) (n / 8 % block_size)) (2 ^ (n % 8))) h k,
  test_bit-or (j % 8) (block_read d (start + n / 8 / block_size) (n / 8 % block_size))
      (2 ^ (n % 8)),
  test_bit-pow (j % 8) (n % 8),
  same_place n j,
)

marked-outside :
    (d : Disk) (start n b : ℕ)
    → ((start + n / 8 / block_size) % 0x1_0000 == b) ≡ false
    → marked d start n b ≡ d b
marked-outside d start n b e = rw e refl

-- The number found and marked by mark_map.
abbrev pub FirstFree : Disk → ℕ → ℕ → ℕ → ℕ × Disk → Type 0
FirstFree d start blocks limit (r, d') =
    (r < limit)
    × (r < 8 * (block_size * blocks))
    × AllSet d start r
    × (map_bit d start r ≡ false)
    × ((j : ℕ)
        → j < 8 * (block_size * blocks)
        → map_bit d' start j ≡ ((r == j) || map_bit d start j))
    × ((b : ℕ) → (b < start) ⊎ (start + blocks ≤ b) → d' b ≡ d b)

-- The answer 0 with nothing marked: every number of the map below the limit is taken.
abbrev pub NoneFree : Disk → ℕ → ℕ → ℕ → ℕ × Disk → Type 0
NoneFree d start blocks limit (r, d') =
    (r ≡ 0)
    × (d' ≡ d)
    × ((j : ℕ) → j < limit → j < 8 * (block_size * blocks) → map_bit d start j ≡ true)

module _ (d : Disk) (start end limit : ℕ) where
  result_of : Scan → ℕ × Disk
  result_of s = elim s [ scanning index ↦ (0, d) | stopped r d' ↦ (r, d') ]

  result_lem :
      start ≤ end
      → end < 0x1_0000
      → {s : Scan} → Scanned d start limit (8 * (block_size * (end - start))) s
      → FirstFree d start (end - start) limit (result_of s)
        ⊎ NoneFree d start (end - start) limit (result_of s)
  unfolding result_of
  result_lem h e (on all) = inr (refl, refl, λ j l k. all j k)
  result_lem h e (beyond n past l all) = inr (refl, refl, λ j low k. all j (omega arith))
  result_lem h e (found n low l all clear) = inl (
    low,
    l,
    all,
    clear,
    (λ j k. map_bit-marked d start n j (omega arith) (omega arith)),
    λ b o. marked-outside d start n b (ground arith),
  )

  -- mark_map takes the least free number of a map: it lies below the limit, all numbers below it
  -- were taken, it was free, and its bit is the only one of the map
  -- that changes, and no block outside the map does. Otherwise it answers 0 and
  -- writes nothing, and then no number below the limit is free.
  pub mark_map_first_fit :
      IsBytes d
      → start ≤ end
      → end < 0x1_0000
      → FirstFree d start (end - start) limit (mark_map d start end limit)
        ⊎ NoneFree d start (end - start) limit (mark_map d start end limit)
  unfolding mark_map result_of
  mark_map_first_fit bytes h e = result_lem h e (
      let z : start + 0 ≡ start = omega arith in
      let w : 0 + 8 * (block_size * (end - start)) ≡ 8 * (block_size * (end - start)) =
        omega arith in
      rw (z, w) at
        (scan_blocks-Scanned d start limit bytes (end - start) 0 0 (omega arith) (omega arith)
          (λ j l. absurd (omega arith))))

-- unmark_map clears the bit of its number, and no other of the map.
pub map_bit-unmark_map :
    (d : Disk) (start n j : ℕ)
    → IsBytes d
    → start + n / 8 / block_size < 0x1_0000
    → start + j / 8 / block_size < 0x1_0000
    → map_bit (unmark_map d n start) start j ≡ (map_bit d start j && not (n == j))
unfolding unmark_map
map_bit-unmark_map d start n j bytes h k =
    let v : ℕ = block_read d (start + n / 8 / block_size) (n / 8 % block_size) in
    ground (
      arith,
      map_bit-write d start n j (bit_and v (complement 8 (2 ^ (n % 8)))) h k,
      test_bit-and (j % 8) v (complement 8 (2 ^ (n % 8))),
      test_bit-complement 8 (j % 8) (2 ^ (n % 8)) (pow-lt 8 (n % 8) (omega arith)) (omega arith),
      test_bit-pow (j % 8) (n % 8),
      same_place n j,
    )
