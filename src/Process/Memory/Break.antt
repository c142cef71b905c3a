-- ===== src/Process/Memory/Break.antt =====
-- process_brk: the break, and the pages that back the heap.
use cyanurus.Base.{
  ℕ, zero, suc, ◌+◌, ◌-◌, ◌*◌, ◌/◌, ◌%◌, ◌≤◌, ◌<◌, ◌≡◌, refl, sym, ◌∙◌, inl, inr, true, false, ◌||◌,
  some, List, [], ◌∷◌, ◌++◌, arith, ltb, leb, if◌then◌else◌, Bool-cases, u32, add32,
}
use cyanurus.Bits.{bit_and-align_page}
use cyanurus.Process.Memory.{Space, page_align, grow_up, page_fuel, process_brk}

-- `count` pages from `start` on, the last one first.
unfoldable pub pages : (count start : ℕ) → List (ℕ × ℕ)
pages zero start = []
pages (suc n) start = (start + n * 0x1000, 0x1000) ∷ pages n start

pages-snoc :
    (n start : ℕ) (xs : List (ℕ × ℕ))
    → pages n (start + 0x1000) ++ ((start, 0x1000) ∷ xs) ≡ pages (suc n) start ++ xs
unfolding pages
pages-snoc zero start xs = let e : start + 0 * 0x1000 ≡ start = omega arith in rw e refl
pages-snoc (suc n) start xs =
    let e : start + 0x1000 + n * 0x1000 ≡ start + suc n * 0x1000 = omega arith in
    rw (e, pages-snoc n start xs) refl

-- The loop maps each page once, and enough fuel is one step a page.
grow_up_lem :
    (fuel n current : ℕ) (mapped : List (ℕ × ℕ))
    → n ≤ fuel
    → current + n * 0x1000 < u32
    → grow_up fuel current (current + n * 0x1000) mapped
      ≡ some (current + n * 0x1000, pages n current ++ mapped)
unfolding grow_up pages
grow_up_lem zero zero current mapped h k =
    let e : current + 0 * 0x1000 ≡ current = omega arith in
    let done : ltb current current ≡ false = ground arith in rw (e, done) refl
grow_up_lem zero (suc n) current mapped h k = absurd (omega arith)
grow_up_lem (suc fuel) zero current mapped h k =
    let e : current + 0 * 0x1000 ≡ current = omega arith in
    let done : ltb current current ≡ false = ground arith in rw (e, done) refl
grow_up_lem (suc fuel) (suc n) current mapped h k =
    let e : current + suc n * 0x1000 ≡ current + 0x1000 + n * 0x1000 = omega arith in
    let step : add32 current 0x1000 ≡ current + 0x1000 = omega arith in
    let more : ltb current (current + 0x1000 + n * 0x1000) ≡ true = ground arith in
    rw
      (
        e,
        more,
        step,
        grow_up_lem fuel n (current + 0x1000) ((current, 0x1000) ∷ mapped) (omega arith)
            (omega arith),
        pages-snoc n current mapped,
      )
      refl

-- What process_brk relies on and keeps: the heap is mapped up to its end, a multiple of the page size
-- at or above the break and in the range for the break.
pub record IsHeap (s : Space) : Type 0 where
  pub full : s.heap.current ≡ s.heap.end
  pub aligned : s.heap.end % 0x1000 ≡ 0
  pub backed : s.brk ≤ s.heap.end
  pub low : s.heap.end ≤ 0x1000_0000

round_up : (a : ℕ) → a < 0x1000_0000 → page_align a ≡ (a + 0xfff) - (a + 0xfff) % 0x1000
round_up a h =
    let e : add32 a 0xfff ≡ a + 0xfff = omega arith in
    rw e (bit_and-align_page (a + 0xfff) (omega arith))

grown :
    (address : ℕ) (s : Space)
    → IsHeap s
    → s.heap.end < address
    → address < 0x1000_0000
    → page_align address ≡ s.heap.end + (page_align address - s.heap.end) / 0x1000 * 0x1000
grown address s h a b = omega (arith, round_up address b, h.aligned)

run_up :
    (current end top n : ℕ) (mapped : List (ℕ × ℕ))
    → current ≡ end
    → top ≡ end + n * 0x1000
    → n ≤ page_fuel
    → top < u32
    → grow_up page_fuel current top mapped ≡ some (top, pages n end ++ mapped)
run_up current end top n mapped e t h k =
    rw (e, t) (grow_up_lem page_fuel n end mapped h (omega arith))

bounded :
    (address : ℕ)
    → address < 0x1000_0000
    → (page_align address ≤ 0x1000_0000)
      × (address ≤ page_align address)
      × (page_align address % 0x1000 ≡ 0)
bounded address h = omega (arith, round_up address h)

-- The heap grows to an address beyond its end.
grows_to :
    (address : ℕ) (s : Space)
    → IsHeap s
    → (ltb address s.brk || leb 0x1000_0000 address) ≡ false
    → ltb s.heap.end address ≡ true
    → address < 0x1000_0000
    → (s' : Space) × (count : ℕ) × (process_brk address s ≡ some (address, s'))
      × IsHeap s'
      × (s'.brk ≡ address)
      × (s'.mapped ≡ pages count s.heap.end ++ s.mapped)
      × (s'.heap.end ≡ s.heap.end + count * 0x1000)
      × (s'.heap.start ≡ s.heap.start)
unfolding process_brk
grows_to address s h ok grows low =
    let n = (page_align address - s.heap.end) / 0x1000 in
    let top = grown address s h (ground (arith, grows)) low in
    let run =
      run_up s.heap.current s.heap.end (page_align address) n s.mapped h.full top
        (omega (arith, (bounded address low).0)) (omega (arith, (bounded address low).0)) in
    (
      record s {
        brk = address;
        heap = record s.heap { current = page_align address; end = page_align address };
        mapped = pages n s.heap.end ++ s.mapped;
      },
      n,
      rw (ok, grows, run) refl,
      record {
        full = refl;
        aligned = (bounded address low).2;
        backed = (bounded address low).1;
        low = (bounded address low).0;
      },
      refl,
      refl,
      top,
      refl,
    )

-- process_brk returns, and keeps the heap's invariant. An address below the break or out of range is
-- answered by the break, with nothing changed. Any other becomes the break and the answer, and the
-- pages between the old and the new end of the heap are mapped, each once and no other.
pub process_brk-IsHeap :
    (address : ℕ) (s : Space)
    → IsHeap s
    → (r : ℕ) × (s' : Space) × (count : ℕ) × (process_brk address s ≡ some (r, s'))
      × IsHeap s'
      × (r ≡ s'.brk)
      × (s'.brk ≡ (if ltb address s.brk || leb 0x1000_0000 address then s.brk else address))
      × (s'.mapped ≡ pages count s.heap.end ++ s.mapped)
      × (s'.heap.end ≡ s.heap.end + count * 0x1000)
      × (s'.heap.start ≡ s.heap.start)
unfolding process_brk pages
process_brk-IsHeap address s h = elim (Bool-cases (ltb address s.brk || leb 0x1000_0000 address)) [
  | inl out ↦
      (s.brk, s, 0, ground (arith, out), h, refl, ground (arith, out), refl, omega arith, refl)
  | inr ok ↦ elim (Bool-cases (ltb s.heap.end address)) [
    | inr fits ↦ (
      address,
      record s { brk = address },
      0,
      ground (arith, ok, fits),
      record { full = h.full; aligned = h.aligned; backed = ground (arith, fits); low = h.low },
      refl,
      ground (arith, ok),
      refl,
      omega arith,
      refl,
    )
    | inl grows ↦
        let (s', n, run, heap, brk, mapped, end, start) =
          grows_to address s h ok grows (ground (arith, ok)) in
        (address, s', n, run, heap, sym brk, brk ∙ ground (arith, ok), mapped, end, start)
  ]
]
