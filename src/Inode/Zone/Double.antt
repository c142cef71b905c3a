-- ===== src/Inode/Zone/Double.antt =====
-- shrink_zone on every block of a file, those behind zone 8 too: src/kernel/inode.c.
use native.Mathlib.Decide.{dec_lt}
use mathlib.Core.Path.{subst}
use cyanurus.Base.{
  ℕ, ◌+◌, ◌-◌, ◌*◌, ◌/◌, ◌≤◌, ◌<◌, ◌≡◌, ◌≢◌, ◌⊎◌, inl, inr, refl, sym, ap, ◌∙◌, Bool-cases, true,
  ltb, arith, ◌==◌, if◌then◌else◌, ne→==_false,
}
use cyanurus.Disk.{Block, Disk, block_index, block_read, block_write}
use cyanurus.Disk.Words.{load32-store32_self, load32_same, store32_outside}
use cyanurus.Inode.{Superblock, DiskInode, imap_zone_index, unmark_zmap, unmark_map}
use cyanurus.Inode.Zone.{
  double_outer, double_inner, entry, set_entry, set_zone, shrink_block, give_back, zone_of,
}
use cyanurus.Inode.Zone.Laws.{entry_written, slot_double}
use cyanurus.Inode.Zone.Shrink.{zone_of-shrink_near}

-- writing one entry leaves the others
entry_other : (b : Block) (i j v : ℕ) → i ≢ j → entry (set_entry b i v) j ≡ entry b j
entry_other b i j v n =
    load32_same (set_entry b i v) b (4 * j) λ a l h. store32_outside b (4 * i) v a (beside a l h)
  where
    beside : (a : ℕ) → 4 * j ≤ a → a < 4 * j + 4 → (a < 4 * i) ⊎ (4 * i + 4 ≤ a)
    beside a l h = elim (dec_lt j i) [ yes k ↦ inl (omega arith) | no k ↦ inr (omega arith) ]

zone_of_double :
    (d : Disk) (n : DiskInode) (block : ℕ)
    → 7 + 1024 ≤ block
    → zone_of d n block ≡ (
        let z1 = entry (block_read d (n.zone 8)) (double_outer block) in
        if n.zone 8 == 0
        then 0
        else if z1 == 0
        then 0
        else block_index (entry (block_read d z1) (double_inner block)))
unfolding zone_of
zone_of_double d n block h = rw (slot_double block h)

no_zone :
    (d : Disk) (n : DiskInode) (block : ℕ) → 7 + 1024 ≤ block → n.zone 8 ≡ 0 → zone_of d n block ≡ 0
no_zone d n block h e =
    let t : (n.zone 8 == 0) ≡ true = ground arith in zone_of_double d n block h ∙ rw t refl

no_outer :
    (d : Disk) (n : DiskInode) (block : ℕ)
    → 7 + 1024 ≤ block
    → entry (block_read d (n.zone 8)) (double_outer block) ≡ 0
    → zone_of d n block ≡ 0
no_outer d n block h e = zone_of_double d n block h ∙ ground (arith, e)

no_inner :
    (d : Disk) (n : DiskInode) (block z3 : ℕ)
    → 7 + 1024 ≤ block
    → entry (block_read d (n.zone 8)) (double_outer block) ≡ z3
    → entry (block_read d z3) (double_inner block) ≡ 0
    → zone_of d n block ≡ 0
no_inner d n block z3 h e f = zone_of_double d n block h ∙ rw (e, f) (ground arith)

-- the entry of zone 8 after an entry of the block that it names is cleared
outer_after :
    (d dg : Disk) (z1 z3 outer inner : ℕ)
    → block_read dg z1 ≡ block_read d z1
    → entry (block_read d z1) outer ≡ z3
    → let d1 = block_write dg z3 (set_entry (block_read d z3) inner 0) in
      (entry (block_read d1 z1) outer ≡ z3) ⊎ (entry (block_read d1 z1) outer ≡ 0)
outer_after d dg z1 z3 outer inner k e = elim (Bool-cases (block_index z3 == block_index z1)) [
  | inr f ↦ inl (rw f (ap (λ b. entry b outer) k ∙ e))
  | inl t ↦
      let y : block_index z3 ≡ block_index z1 = ground arith in
      let b : block_read d z3 ≡ block_read d z1 = ap d y in
      elim (Bool-cases (inner == outer)) [
        | inl s ↦
            let x : inner ≡ outer = ground arith in
            inr (
              rw t (
                subst (λ o. entry (set_entry (block_read d z3) inner 0) o ≡ 0) x
                  (load32-store32_self (block_read d z3) (4 * inner) 0 (omega arith))))
        | inr s ↦ inl (
            rw t (
              entry_other (block_read d z3) inner outer 0 (ground arith)
              ∙ (ap (λ b. entry b outer) b ∙ e)))
      ]
]

-- The map of zones takes three blocks at most; giving a zone back leaves the blocks behind them.
give_back-behind :
    (sb : Superblock) (d : Disk) (x z1 : ℕ)
    → block_index (imap_zone_index + sb.imap_blocks) + 3 ≤ block_index z1
    → block_read (give_back sb d x) z1 ≡ block_read d z1
unfolding unmark_zmap unmark_map
give_back-behind sb d x z1 h = elim (Bool-cases (ltb (block_index x) sb.firstdatazone)) [
  | inl t ↦ rw t refl
  | inr f ↦
      let start = block_index (imap_zone_index + sb.imap_blocks) in
      let i = block_index x - sb.firstdatazone + 1 in
      let n : block_index (start + i / 8 / 4096) ≢ block_index z1 = λ e. omega arith in
      rw (f, ne→==_false (block_index (start + i / 8 / 4096)) (block_index z1) n) refl
]

-- what shrink_block does to a block behind zone 8
shrunk : Superblock → Disk → DiskInode → ℕ → Disk × DiskInode
shrunk sb d n block =
    let z1 = n.zone 8 in
    let z2 = double_outer block in
    let zones0 = block_read d z1 in
    let z3 = entry zones0 z2 in
    let z4 = double_inner block in
    let zones1 = block_read d z3 in
    let d1 = block_write (give_back sb d (entry zones1 z4)) z3 (set_entry zones1 z4 0) in
    let d2 = block_write (give_back sb d1 z3) z1 (set_entry zones0 z2 0) in
    if z1 == 0
    then (d, n)
    else if z3 == 0
    then (d, n)
    else if entry zones1 z4 == 0
    then (d, n)
    else if z4 == 0
    then (if z2 == 0 then (give_back sb d2 (n.zone 8), set_zone n 8 0) else (d2, n))
    else (d1, n)

shrink_double :
    (sb : Superblock) (d : Disk) (n : DiskInode) (block : ℕ)
    → 7 + 1024 ≤ block
    → shrink_block sb d n block ≡ shrunk sb d n block
unfolding shrink_block shrunk
shrink_double sb d n block h = rw (slot_double block h) refl

zone_of-shrunk :
    (sb : Superblock) (d : Disk) (n : DiskInode) (block : ℕ)
    → 7 + 1024 ≤ block
    → block_index (imap_zone_index + sb.imap_blocks) + 3 ≤ block_index (n.zone 8)
    → zone_of (shrunk sb d n block).0 (shrunk sb d n block).1 block ≡ 0
unfolding shrunk
zone_of-shrunk sb d n block h k =
    let z1 = n.zone 8 in
    let z2 = double_outer block in
    let zones0 = block_read d z1 in
    let z3 = entry zones0 z2 in
    let z4 = double_inner block in
    let zones1 = block_read d z3 in
    let dg = give_back sb d (entry zones1 z4) in
    let d1 = block_write dg z3 (set_entry zones1 z4 0) in
    let d2 = block_write (give_back sb d1 z3) z1 (set_entry zones0 z2 0) in
    elim (Bool-cases (z1 == 0)) [
      | inl t ↦ rw t (no_zone d n block h (ground arith))
      | inr a ↦ elim (Bool-cases (z3 == 0)) [
        | inl t ↦ rw (a, t) (no_outer d n block h (ground arith))
        | inr b ↦ elim (Bool-cases (entry zones1 z4 == 0)) [
          | inl t ↦ rw (a, b, t) (no_inner d n block z3 h refl (ground arith))
          | inr c ↦ elim (Bool-cases (z4 == 0)) [
            | inl t ↦ elim (Bool-cases (z2 == 0)) [
              | inl y ↦
                  rw (a, b, c, t, y) (no_zone (give_back sb d2 z1) (set_zone n 8 0) block h refl)
              | inr y ↦
                  rw (a, b, c, t, y)
                    (no_outer d2 n block h
                      (entry_written (give_back sb d1 z3) z1 z2 0 zones0 (omega arith)))
            ]
            | inr e ↦
                let o =
                  outer_after d dg z1 z3 z2 z4 (give_back-behind sb d (entry zones1 z4) z1 k)
                    refl in
                rw (a, b, c, e)
                  (elim o [
                    | inl x ↦
                        no_inner d1 n block z3 h x (entry_written dg z3 z4 0 zones1 (omega arith))
                    | inr x ↦ no_outer d1 n block h x
                  ])
          ]
        ]
      ]
    ]

-- A round of shrink_zone leaves its block unmapped: get_block answers 0 for it from then on. Behind
-- zone 8 this asks that the block of zone 8 lie behind the three blocks from the start of the map of
-- zones on, which are all that giving a zone back may write.
pub zone_of-shrink_block :
    (sb : Superblock) (d : Disk) (n : DiskInode) (block : ℕ)
    → (block < 7 + 1024)
      ⊎ (block_index (imap_zone_index + sb.imap_blocks) + 3 ≤ block_index (n.zone 8))
    → let (d', n') = shrink_block sb d n block in zone_of d' n' block ≡ 0
zone_of-shrink_block sb d n block (inl h) = zone_of-shrink_near sb d n block h
zone_of-shrink_block sb d n block (inr k) = elim (dec_lt block (7 + 1024)) [
  | yes h ↦ zone_of-shrink_near sb d n block h
  | no h ↦
      subst (λ r. zone_of r.0 r.1 block ≡ 0) (sym (shrink_double sb d n block (omega arith)))
        (zone_of-shrunk sb d n block (omega arith) k)
]
