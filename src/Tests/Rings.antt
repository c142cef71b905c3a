-- ===== src/Tests/Rings.antt =====
-- Two rings of list cells, and a block cache that has read nothing yet.
use cyanurus.Base.{if◌then◌else◌, ◌==◌, ℕ, ◌≡◌, ◌%◌, refl, some, arith, [], ◌∷◌, length}
use cyanurus.Links.{Links, list_concat, list_length, list_foreach}
use cyanurus.Links.Ring.{IsRing, nil, cons}
use cyanurus.Links.Laws.{list_concat-IsRing}
use cyanurus.Links.Walk.{list_length-length}
use cyanurus.Disk
use cyanurus.Disk.{Block, Disk}
use cyanurus.Disk.Cache.{Cache, empty_cache, block_read, block_write}
use cyanurus.Disk.Cache.Coherent.{IsCache}
use cyanurus.Disk.Cache.Refines.{device, block_read_refines, block_write_refines}

-- the ring of 7 and 8 at 100, and the ring of 9 at 200
abbrev cells : Links
cells = record {
  prev = λ p.
      if p == 100
      then 8
      else if p == 7
      then 100
      else if p == 8
      then 7
      else if p == 200
      then 9
      else 200;
  next = λ p.
      if p == 100
      then 7
      else if p == 7
      then 8
      else if p == 8
      then 100
      else if p == 200
      then 9
      else 200;
}

cells-IsRing : IsRing cells 100 (7 ∷ 8 ∷ [])
cells-IsRing = (
  cons {a = 100} {x = 7} refl refl (cons {a = 7} {x = 8} refl refl (nil {a = 8} refl refl)),
  (omega arith, (omega arith, tt)),
  ((omega arith, tt), (tt, tt)),
)

other-IsRing : IsRing cells 200 (9 ∷ [])
other-IsRing =
    (cons {a = 200} {x = 9} refl refl (nil {a = 9} refl refl), (omega arith, tt), (tt, tt))

list_concat-IsRing_example :
    IsRing (list_concat cells 100 200) 100 (9 ∷ 7 ∷ 8 ∷ [])
    × IsRing (list_concat cells 100 200) 200 []
list_concat-IsRing_example = list_concat-IsRing cells-IsRing other-IsRing (
  (omega arith, (omega arith, (omega arith, tt))),
  (omega arith, tt),
  ((omega arith, (omega arith, tt)), tt),
)

list_length-length_example :
    (list_length 5 cells 100 ≡ some (length {A = ℕ} (7 ∷ 8 ∷ [])))
    × (list_foreach 5 cells 100 ≡ some (7 ∷ 8 ∷ []))
list_length-length_example = list_length-length 5 cells-IsRing (omega arith)

-- the pages 0, 1, 2 and so on come from the allocator; every byte of the card is 7
abbrev start : Cache
start = empty_cache (λ p. 0) (λ p. 7)

start-IsCache : IsCache (λ n. n) start
start-IsCache = record { spare = refl; placed = tt; apart = tt; unique = tt; coherent = tt }

block_read_refines_example :
    (b : Block) × (t : Cache) × (block_read (λ n. n) start 3 ≡ some (b, t))
    × (b 5 ≡ Disk.block_read (device start) 3 5)
    × (device t ≡ device start)
    × IsCache (λ n. n) t
block_read_refines_example =
    block_read_refines (λ n. n) start 3 5 (λ i j e. e) start-IsCache (omega arith)

block_write_refines_example :
    (t : Cache) × (block_write (λ n. n) start 3 (λ p. p % 256) ≡ some t)
    × (device t 3 5 ≡ Disk.block_write (device start) 3 (λ p. p % 256) 3 5)
    × IsCache (λ n. n) t
block_write_refines_example =
    block_write_refines (λ n. n) start 3 (λ p. p % 256) 3 5 (λ i j e. e) start-IsCache (omega arith)
