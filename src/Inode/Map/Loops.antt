-- ===== src/Inode/Map/Loops.antt =====
-- The three loops of mark_map look at the bits of the map in order, from number 0 on.
use native.Mathlib.Nat.{add_assoc}
use native.Mathlib.Decide.{dec_lt}
use cyanurus.Base.{
  ℕ, zero, suc, ◌+◌, ◌-◌, ◌*◌, ◌/◌, ◌%◌, ◌^◌, ◌≤◌, ◌<◌, bit_and, bit_or, ◌≡◌, ◌≢◌, ap, ◌∙◌, inl,
  inr, Bool, true, false, not, arith, leb, ◌==◌, Bool-cases, set, update, u32, add32,
}
use cyanurus.Bits.{test_bit, test_bit_zero, complement, test_bit-complement, bit_and-pow}
use cyanurus.Disk.{Disk, block_size, block_read, block_write}
use cyanurus.Inode.{Scan, scanning, stopped, scan_bits, scan_byte, scan_bytes, scan_blocks}

-- Bit `n` of the map that begins at block `start`.
abbrev pub map_bit : Disk → ℕ → ℕ → Bool
map_bit d start n =
    test_bit (block_read d (start + n / 8 / block_size) (n / 8 % block_size)) (n % 8)

abbrev pub IsBytes : Disk → Type 0
IsBytes d = (b p : ℕ) → d b p < 2 ^ 8

-- All numbers below `n` are taken.
abbrev pub AllSet : Disk → ℕ → ℕ → Type 0
AllSet d start n = (j : ℕ) → j < n → map_bit d start j ≡ true

-- The disk with bit `n` of the map set.
abbrev pub marked : Disk → ℕ → ℕ → Disk
marked d start n = block_write d (start + n / 8 / block_size) (
    update (block_read d (start + n / 8 / block_size)) (n / 8 % block_size)
      (bit_or (block_read d (start + n / 8 / block_size) (n / 8 % block_size)) (2 ^ (n % 8))))

-- How a scan that has come to bit `target` may have ended.
pub data Scanned (d : Disk) (start limit target : ℕ) : Scan → Type 0 where
  on : AllSet d start target → Scanned d start limit target (scanning target)
  beyond :
      (n : ℕ)
      → limit ≤ n
      → n < target
      → AllSet d start n
      → Scanned d start limit target (stopped 0 d)
  found :
      (n : ℕ)
      → n < limit
      → n < target
      → AllSet d start n
      → map_bit d start n ≡ false
      → Scanned d start limit target (stopped n (marked d start n))

byte_full : (x : ℕ) → x < 2 ^ 8 → ((k : ℕ) → k < 8 → test_bit x k ≡ true) → x ≡ 0xff
unfolding test_bit
byte_full x h all = ground (
  arith,
  all 0 (omega arith),
  all 1 (omega arith),
  all 2 (omega arith),
  all 3 (omega arith),
  all 4 (omega arith),
  all 5 (omega arith),
  all 6 (omega arith),
  all 7 (omega arith),
)

full_bits : (k : ℕ) → k < 8 → test_bit 0xff k ≡ true
unfolding complement
full_bits k h = test_bit-complement 8 k 0 (omega arith) h ∙ ap not (test_bit_zero k)

module _ (d : Disk) (start limit : ℕ) (bytes : IsBytes d) where
  AllSet-suc : (n : ℕ) → AllSet d start n → map_bit d start n ≡ true → AllSet d start (n + 1)
  AllSet-suc n h e j l = elim (Bool-cases (j == n)) [
    | inl same ↦ (let q : j ≡ n = ground arith in rw q e)
    | inr other ↦ h j (ground arith)
  ]

  found_at :
      (n q i b : ℕ)
      → n / 8 / block_size ≡ q
      → n / 8 % block_size ≡ i
      → n % 8 ≡ b
      → {target : ℕ} → n < limit
      → n < target
      → AllSet d start n
      → test_bit (block_read d (start + q) i) b ≡ false
      → Scanned d start limit target (
          stopped n (
            block_write d
              (start + q)
              (update (block_read d (start + q)) i (bit_or (block_read d (start + q) i) (2 ^ b)))))
  found_at n q i b eq ei eb low in_range set clear =
      rw (← eq, ← ei, ← eb) (found n low in_range set (rw (eq, ei, eb) clear))

  set_at :
      (n q i b : ℕ)
      → n / 8 / block_size ≡ q
      → n / 8 % block_size ≡ i
      → n % 8 ≡ b
      → test_bit (block_read d (start + q) i) b ≡ true
      → map_bit d start n ≡ true
  set_at n q i b eq ei eb h = rw (eq, ei, eb) h

  -- One byte, from bit `b` on. The byte is not full, so one of its bits ends the loop.
  scan_bits-Scanned :
      (left b i q index : ℕ)
      → b + left ≡ 8
      → i < block_size
      → index ≡ 8 * (block_size * q + i)
      → index + 8 < u32
      → block_read d (start + q) i ≢ 0xff
      → ((k : ℕ) → k < b → test_bit (block_read d (start + q) i) k ≡ true)
      → AllSet d start (index + b)
      → Scanned d start limit
          (index + 8)
          (scan_bits d (start + q) (block_read d (start + q)) i limit index left b)
  unfolding scan_bits
  scan_bits-Scanned zero b i q index e hi place small free before h =
      absurd
        (free (byte_full (block_read d (start + q) i) (bytes _ i) (λ k l. before k (omega arith))))
  scan_bits-Scanned (suc left) b i q index e hi place small free before h =
      elim (Bool-cases (leb limit (add32 index b))) [
        | inl past ↦ rw past (beyond (index + b) (ground arith) (omega arith) h)
        | inr low ↦ elim (Bool-cases (test_bit v b)) [
          | inl taken ↦
              rw (low, clear, taken)
                (scan_bits-Scanned left (b + 1) i q index (omega arith) hi place small free
                  (λ k l. elim (Bool-cases (k == b)) [
                    | inl same ↦ (let z : k ≡ b = ground arith in rw z taken)
                    | inr other ↦ before k (ground arith)
                  ])
                  (rw (← add_assoc index b 1) (
                    AllSet-suc (index + b) h
                      (set_at (index + b) q i b (omega arith) (omega arith) (omega arith) taken))))
          | inr is_free ↦
              rw (low, clear, is_free, plain)
                (found_at (index + b) q i b (omega arith) (omega arith) (omega arith) (ground arith)
                  (omega arith) h is_free)
        ]
      ]
    where
      v : ℕ
      v = block_read d (start + q) i

      plain : add32 index b ≡ index + b
      plain = omega arith

      clear : (bit_and (complement 8 v) (2 ^ b) == 0) ≡ not (not (test_bit v b))
      clear =
          bit_and-pow b (complement 8 v)
          ∙ ap not (test_bit-complement 8 b v (bytes _ i) (omega arith))

  scan_byte-Scanned :
      (i q index : ℕ)
      → i < block_size
      → index ≡ 8 * (block_size * q + i)
      → index + 8 < u32
      → AllSet d start index
      → Scanned d start limit
          (index + 8)
          (scan_byte d (start + q) (block_read d (start + q)) i limit index)
  unfolding scan_byte
  scan_byte-Scanned i q index hi place small h =
      elim (Bool-cases (block_read d (start + q) i == 0xff)) [
        | inl full ↦
            let all : block_read d (start + q) i ≡ 0xff = ground arith in
            let plain : add32 index 8 ≡ index + 8 = omega arith in
            rw (full, plain)
              (on λ j l. elim (dec_lt j index) [
                | yes old ↦ h j old
                | no new ↦
                    set_at j q i (j - index) (omega arith) (omega arith) (omega arith)
                      (rw all (full_bits (j - index) (omega arith)))
              ])
        | inr free ↦ rw free (
            scan_bits-Scanned 8 0 i q index (omega arith) hi place small (ground arith)
              (λ k l. absurd (omega arith)) (let z : index + 0 ≡ index = omega arith in rw z h))
      ]

  -- A scan goes on where it has come to without a clear bit, and ends as it has ended otherwise.
  go_on :
      (t target : ℕ) (rest : ℕ → Scan)
      → t ≤ target
      → (AllSet d start t → Scanned d start limit target (rest t))
      → {s : Scan} → Scanned d start limit t s
      → Scanned d start limit target (elim s [ scanning i ↦ rest i | stopped r d' ↦ stopped r d' ])
  go_on t target rest le next (on all) = next all
  go_on t target rest le next (beyond n past l all) = beyond n past (omega arith) all
  go_on t target rest le next (found n low l all clear) = found n low (omega arith) all clear

  scan_bytes-Scanned :
      (left i q index : ℕ)
      → i + left ≡ block_size
      → index ≡ 8 * (block_size * q + i)
      → index + 8 * left + 8 < u32
      → AllSet d start index
      → Scanned d start limit
          (index + 8 * left)
          (scan_bytes d (start + q) (block_read d (start + q)) limit left i index)
  unfolding scan_bytes
  scan_bytes-Scanned zero i q index e place small h =
      let z : index + 8 * 0 ≡ index = omega arith in rw z (on h)
  scan_bytes-Scanned (suc left) i q index e place small h =
      go_on (index + 8) (index + 8 * suc left)
        (λ index'. scan_bytes d (start + q) (block_read d (start + q)) limit left (i + 1) index')
        (omega arith)
        (λ all.
          let z : index + 8 * suc left ≡ index + 8 + 8 * left = omega arith in
          rw z (
            scan_bytes-Scanned left (i + 1) q (index + 8) (omega arith) (omega arith) (omega arith)
              all))
        (scan_byte-Scanned i q index (omega arith) place (omega arith) h)

  pub scan_blocks-Scanned :
      (left q index : ℕ)
      → index ≡ 8 * (block_size * q)
      → index + 8 * (block_size * left) + 8 < u32
      → AllSet d start index
      → Scanned d start limit
          (index + 8 * (block_size * left))
          (scan_blocks d limit left (start + q) index)
  unfolding scan_blocks
  scan_blocks-Scanned zero q index place small h =
      let z : index + 8 * (block_size * 0) ≡ index = omega arith in rw z (on h)
  scan_blocks-Scanned (suc left) q index place small h =
      go_on (index + 8 * block_size) (index + 8 * (block_size * suc left))
        (λ index'. scan_blocks d limit left (start + q + 1) index') (omega arith)
        (λ all.
          let z : index + 8 * (block_size * suc left)
              ≡ index + 8 * block_size + 8 * (block_size * left) =
            omega arith in
          rw (z, add_assoc start q 1)
            (scan_blocks-Scanned left (q + 1) (index + 8 * block_size) (omega arith) (omega arith)
              all))
        (scan_bytes-Scanned block_size 0 q index (omega arith) (omega arith) (omega arith) h)
