-- ===== src/Disk/Card.antt =====
-- The card behind the block cache: mmc_read and mmc_write of src/kernel/mmc.c.
-- mmc_read_block and mmc_write_block move 512 bytes through the controller's registers: here a copy.
use cyanurus.Base.{
  ℕ, zero, suc, ◌+◌, ◌-◌, ◌*◌, ◌/◌, ◌%◌, ◌<◌, ◌≤◌, ◌≡◌, ◌⊎◌, ◌∙◌, ap, fun_ext, Option, none, some,
  ◌&&◌, leb, ltb, ◌==◌, if◌then◌else◌, arith,
}

-- bytes by address, of the memory and of the card
abbrev pub Bytes : Type 0
Bytes = ℕ → ℕ

-- `n` bytes of `src` from `a` on, put at `d`
unfoldable pub copy_bytes : Bytes → ℕ → Bytes → ℕ → ℕ → Bytes
copy_bytes dst d src a n p = if leb d p && ltb p (d + n) then src (a + (p - d)) else dst p

-- MMC_BLOCK_SIZE
abbrev pub mmc_block_size : ℕ
mmc_block_size = 512

unfoldable pub mmc_loop : ℕ → Bytes → ℕ → Bytes → ℕ → Bytes
mmc_loop zero dst d src a = dst
mmc_loop (suc k) dst d src a =
    mmc_loop k (copy_bytes dst d src a mmc_block_size) (d + mmc_block_size) src (a + mmc_block_size)

-- The memory with `size` bytes of the card at `buf`; none is the result -1.
unfoldable pub mmc_read : Bytes → ℕ → ℕ → Bytes → ℕ → Option Bytes
mmc_read card address size memory buf =
    if size % mmc_block_size == 0
    then some (mmc_loop (size / mmc_block_size) memory buf card address)
    else none

-- The card with `size` bytes from `buf` on.
unfoldable pub mmc_write : Bytes → ℕ → ℕ → Bytes → ℕ → Option Bytes
mmc_write card address size memory buf =
    if size % mmc_block_size == 0
    then some (mmc_loop (size / mmc_block_size) card address memory buf)
    else none

pub copy_bytes_self :
    (dst : Bytes) (d : ℕ) (src : Bytes) (a n p : ℕ)
    → p < n
    → copy_bytes dst d src a n (d + p) ≡ src (a + p)
unfolding copy_bytes
copy_bytes_self dst d src a n p h = ground arith

pub copy_bytes_apart :
    (dst : Bytes) (d : ℕ) (src : Bytes) (a n q : ℕ)
    → (q < d) ⊎ (d + n ≤ q)
    → copy_bytes dst d src a n q ≡ dst q
unfolding copy_bytes
copy_bytes_apart dst d src a n q h = ground arith

mmc_loop-copy_bytes :
    (k : ℕ) (dst : Bytes) (d : ℕ) (src : Bytes) (a q : ℕ)
    → mmc_loop k dst d src a q ≡ copy_bytes dst d src a (k * mmc_block_size) q
unfolding mmc_loop copy_bytes
mmc_loop-copy_bytes zero dst d src a q = ground arith
mmc_loop-copy_bytes (suc k) dst d src a q =
    let r =
      mmc_loop-copy_bytes k (copy_bytes dst d src a mmc_block_size) (d + mmc_block_size) src
        (a + mmc_block_size) q in
    r ∙ ground arith

-- whole blocks: the loop over the card's 512-byte blocks is one copy
pub mmc_read-copy_bytes :
    (card : Bytes) (address k : ℕ) (memory : Bytes) (buf : ℕ)
    → mmc_read card address (k * mmc_block_size) memory buf
      ≡ some (copy_bytes memory buf card address (k * mmc_block_size))
unfolding mmc_read
mmc_read-copy_bytes card address k memory buf =
    let e : (k * mmc_block_size) % mmc_block_size ≡ 0 = omega arith in
    let g : (k * mmc_block_size) / mmc_block_size ≡ k = omega arith in
    rw (e, g) (ap some (fun_ext λ q. mmc_loop-copy_bytes k memory buf card address q))

pub mmc_write-copy_bytes :
    (card : Bytes) (address k : ℕ) (memory : Bytes) (buf : ℕ)
    → mmc_write card address (k * mmc_block_size) memory buf
      ≡ some (copy_bytes card address memory buf (k * mmc_block_size))
unfolding mmc_write
mmc_write-copy_bytes card address k memory buf =
    let e : (k * mmc_block_size) % mmc_block_size ≡ 0 = omega arith in
    let g : (k * mmc_block_size) / mmc_block_size ≡ k = omega arith in
    rw (e, g) (ap some (fun_ext λ q. mmc_loop-copy_bytes k card address memory buf q))
