-- ===== src/Inode/Zone/Path.antt =====
-- How a block number is turned into zone indices.
use cyanurus.Base.{ℕ, ◌+◌, ◌*◌, ◌≤◌, ◌<◌, ◌≡◌, ◌≢◌, ap, arith, ◌==◌, if◌then◌else◌}
use cyanurus.Inode.Zone.{zones_per_block, zone_slot, indirect, double_outer, double_inner}

-- The entries that lead to a block: the zone of the inode and the indices below it.
abbrev pub path : ℕ → ℕ × ℕ × ℕ
path block =
    if zone_slot block == 7
    then (7, indirect block, 0)
    else if zone_slot block == 8
    then (8, double_outer block, double_inner block)
    else (zone_slot block, 0, 0)

-- The blocks that an inode can reach.
abbrev pub max_blocks : ℕ
max_blocks = 7 + 1024 + 1024 * 1024

-- Every reachable block has indices inside the inode's zones and the blocks of zone numbers.
pub path_bounds :
    (block : ℕ)
    → block < max_blocks
    → ((path block).0 ≤ 8) × ((path block).1 < zones_per_block) × ((path block).2 < zones_per_block)
unfolding zone_slot
path_bounds block h = ground arith

path_injective : (a b : ℕ) → path a ≡ path b → a ≡ b
unfolding zone_slot
path_injective a b e =
    go (ap (λ (p : ℕ × ℕ × ℕ). p.0) e) (ap (λ (p : ℕ × ℕ × ℕ). p.1) e)
      (ap (λ (p : ℕ × ℕ × ℕ). p.2) e)
  where
    go : (path a).0 ≡ (path b).0 → (path a).1 ≡ (path b).1 → (path a).2 ≡ (path b).2 → a ≡ b
    go x y z = ground arith

-- Two different blocks never share their place: the zone of the inode and the indices of the entries.
pub path_ne : (a b : ℕ) → a ≢ b → path a ≢ path b
path_ne a b h e = h (path_injective a b e)
