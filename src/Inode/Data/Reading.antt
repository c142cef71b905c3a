-- ===== src/Inode/Data/Reading.antt =====
-- inode_read against a reference reading of the file, byte by byte.
use cyanurus.Base.{
  ℕ, zero, suc, ◌+◌, ◌-◌, ◌*◌, ◌/◌, ◌%◌, ◌≤◌, ◌<◌, min, ◌≡◌, refl, sym, ap, ◌⊎◌, inl, inr, true,
  List, [], ◌∷◌, ◌++◌, arith, ltb, leb, if◌then◌else◌, Bool-cases, pos, u32, add32, sub32,
}
use native.Mathlib.Decide.{dec_lt}
use cyanurus.Disk.{Disk, block_size, block_index}
use cyanurus.Inode.{Superblock}
use cyanurus.Inode.Data.{
  Inode, Fs, calculate_block_offset, calculate_block_copy_size, copy_out, read_block, read_loop,
  inode_read,
}
use cyanurus.Inode.Data.Copy.{copy_size_bounds}

module _ (sb : Superblock) (d : Disk) (index : ℕ) where
  -- The byte at position `p` of a file: that of its block, or 0 where no block is mapped.
  pub file_byte : ℕ → ℕ
  file_byte p = read_block sb d index (p / block_size) (p % block_size)

  pub file_bytes : (p n : ℕ) → List ℕ
  unfolding file_byte
  file_bytes p zero = []
  file_bytes p (suc n) = file_byte p ∷ file_bytes (p + 1) n

  file_bytes-add : (p n m : ℕ) → file_bytes p (n + m) ≡ file_bytes p n ++ file_bytes (p + n) m
  unfolding file_bytes
  file_bytes-add p zero m =
      let e : 0 + m ≡ m = omega arith in let f : p + 0 ≡ p = omega arith in rw (e, f)
  file_bytes-add p (suc n) m =
      let e : suc n + m ≡ suc (n + m) = omega arith in
      let f : p + suc n ≡ p + 1 + n = omega arith in
      rw (e, f) (ap (λ t. file_byte p ∷ t) (file_bytes-add (p + 1) n m))

  copy_out-file_bytes :
      (p q n : ℕ)
      → p / block_size ≡ q
      → p % block_size + n ≤ block_size
      → copy_out (read_block sb d index q) (p % block_size) n ≡ file_bytes p n
  unfolding file_bytes copy_out
  copy_out-file_bytes p q zero e h = refl
  copy_out-file_bytes p q (suc zero) e h = rw e
  copy_out-file_bytes p q (suc (suc n)) e h =
      let f : p % block_size + 1 ≡ (p + 1) % block_size = omega arith in
      cc (e, f, copy_out-file_bytes (p + 1) q (suc n) (omega arith) (omega arith))

  read_loop-file_bytes :
      (left zone start size : ℕ)
      → start + size < block_size * 0xffff
      → ((left ≡ 0) × (size ≡ 0))
        ⊎ ((zone ≡ start / block_size) × (zone + left ≡ (start + size) / block_size + 1))
      → read_loop sb d index left zone start size ≡ file_bytes start size
  unfolding read_loop calculate_block_offset
  read_loop-file_bytes zero zone start size h (inl (a, b)) = rw b (unfold file_bytes in refl)
  read_loop-file_bytes zero zone start size h (inr (a, b)) = absurd (omega arith)
  read_loop-file_bytes (suc left) zone start size h (inl (a, b)) = absurd (omega arith)
  read_loop-file_bytes (suc left) zone start size h (inr (a, b)) =
      let c = calculate_block_copy_size start size in
      let bounds = copy_size_bounds start size (omega arith) in
      let next : add32 start c ≡ start + c = omega (arith, bounds) in
      let fewer : sub32 size c ≡ size - c = omega (arith, bounds) in
      let whole : c + (size - c) ≡ size = omega (arith, bounds) in
      rw (next, fewer)
        (cc (
          copy_out-file_bytes start zone c (sym a) (omega (arith, bounds)),
          read_loop-file_bytes left (zone + 1) (start + c) (size - c) (omega (arith, bounds))
              (later c bounds),
          file_bytes-add start c (size - c),
          whole,
        ))
    where
      later :
          (c : ℕ)
          → (start % block_size < block_size)
            × (start % block_size + c ≤ block_size)
            × (c ≤ size)
            × (0 < size → 0 < c)
            × ((c ≡ size) ⊎ (start % block_size + c ≡ block_size))
          → ((left ≡ 0) × (size - c ≡ 0))
            ⊎ ((zone + 1 ≡ (start + c) / block_size)
                × (zone + 1 + left ≡ (start + c + (size - c)) / block_size + 1))
      later c bounds = elim (dec_lt (start % block_size + c) block_size) [
        | yes last ↦ inl (omega (arith, bounds), omega (arith, bounds))
        | no more ↦ inr (omega (arith, bounds), omega (arith, bounds))
      ]

-- Of a file of less than 4096 * 0xffff bytes, where `start + size` is below 2 ^ 32, so that neither the
-- block numbers nor the sum wrap, inode_read returns the number of bytes between `start` and the end
-- of the file, at most `size`, and stores exactly those bytes of the file, zeros where no block is
-- mapped.
pub inode_read-file_bytes :
    (fs : Fs) (n : Inode) (size start : ℕ)
    → n.size < block_size * 0xffff
    → start + size < u32
    → let count = min size (n.size - start) in
      inode_read fs n size start ≡ (pos count, file_bytes fs.sb fs.disk n.index start count)
unfolding inode_read
inode_read-file_bytes fs n size start h k = elim (Bool-cases (leb n.size start)) [
  | inl past ↦
      let e : min size (n.size - start) ≡ 0 = ground arith in
      rw (past, e) (unfold file_bytes in refl)
  | inr within ↦
      let lt : start < n.size = ground arith in
      let taken : (if ltb n.size (add32 start size) then n.size - start else size)
          ≡ min size (n.size - start) =
        ground arith in
      let low : ltb (min size (n.size - start)) 0x8000_0000 ≡ true = ground arith in
      let first : block_index (start / block_size) ≡ start / block_size = omega arith in
      let last : block_index (add32 start (min size (n.size - start)) / block_size)
          ≡ (start + min size (n.size - start)) / block_size =
        omega arith in
      rw (within, taken, low, first, last)
        (ap (λ (bs : List ℕ). (pos (min size (n.size - start)), bs))
          (read_loop-file_bytes fs.sb fs.disk n.index
            ((start + min size (n.size - start)) / block_size + 1 - start / block_size)
            (start / block_size) start (min size (n.size - start)) (omega arith)
            (inr (refl, omega arith))))
]
