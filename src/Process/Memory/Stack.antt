-- ===== src/Process/Memory/Stack.antt =====
-- process_demand_page: the growth of the stack on a page fault.
use cyanurus.Base.{
  ℕ, zero, suc, ◌+◌, ◌-◌, ◌*◌, ◌/◌, ◌%◌, ◌≤◌, ◌<◌, min, bit_and, ◌≡◌, ◌≢◌, refl, sym, ap, ◌⊎◌, inl,
  inr, true, false, Option, none, some, List, [], ◌∷◌, ◌++◌, arith, ltb, leb, ◌==◌, Bool-cases, u32,
  sub32,
}
use cyanurus.Bits.{bit_and-align_page}
use cyanurus.Process.Memory.{
  Space, Kind, in_text, in_data, in_stack, in_heap, page_mask, grow_down, page_fuel, find_segment,
  segment, demand, process_demand_page,
}

-- `count` pages from `start` on, the first one first.
unfoldable pub ascending : (count start : ℕ) → List (ℕ × ℕ)
ascending zero start = []
ascending (suc n) start = (start, 0x1000) ∷ ascending n (start + 0x1000)

ascending-snoc :
    (n start : ℕ) (xs : List (ℕ × ℕ))
    → ascending n start ++ ((start + n * 0x1000, 0x1000) ∷ xs) ≡ ascending (suc n) start ++ xs
unfolding ascending
ascending-snoc zero start xs = let e : start + 0 * 0x1000 ≡ start = omega arith in rw e refl
ascending-snoc (suc n) start xs =
    let e : start + suc n * 0x1000 ≡ start + 0x1000 + n * 0x1000 = omega arith in
    rw (e, ascending-snoc n (start + 0x1000) xs) refl

-- The loop maps each page once, and enough fuel is one step a page.
grow_down_lem :
    (fuel n base : ℕ) (mapped : List (ℕ × ℕ))
    → n ≤ fuel
    → base + n * 0x1000 < u32
    → grow_down fuel (base + n * 0x1000) base mapped ≡ some (base, ascending n base ++ mapped)
unfolding grow_down ascending
grow_down_lem zero zero base mapped h k =
    let e : base + 0 * 0x1000 ≡ base = omega arith in
    let done : ltb base base ≡ false = ground arith in rw (e, done) refl
grow_down_lem zero (suc n) base mapped h k = absurd (omega arith)
grow_down_lem (suc fuel) zero base mapped h k =
    let e : base + 0 * 0x1000 ≡ base = omega arith in
    let done : ltb base base ≡ false = ground arith in rw (e, done) refl
grow_down_lem (suc fuel) (suc n) base mapped h k =
    let step : sub32 (base + suc n * 0x1000) 0x1000 ≡ base + n * 0x1000 = omega arith in
    let more : ltb base (base + suc n * 0x1000) ≡ true = ground arith in
    rw
      (
        more,
        step,
        grow_down_lem fuel n base ((base + n * 0x1000, 0x1000) ∷ mapped) (omega arith)
            (omega arith),
        ascending-snoc n base mapped,
      )
      refl

grow_down_done :
    (fuel current base : ℕ) (mapped : List (ℕ × ℕ))
    → current ≤ base
    → grow_down fuel current base mapped ≡ some (current, mapped)
unfolding grow_down
grow_down_done zero current base mapped h =
    let done : ltb base current ≡ false = ground arith in rw done refl
grow_down_done (suc fuel) current base mapped h =
    let done : ltb base current ≡ false = ground arith in rw done refl

-- What process_demand_page relies on and keeps: the stack's bounds, in whole pages, and that only the
-- stack grows down.
pub record IsStack (s : Space) : Type 0 where
  pub aligned : (s.stack.current % 0x1000 ≡ 0) × (s.stack.start % 0x1000 ≡ 0)
  pub bounds :
      (s.stack.start ≤ s.stack.current)
      × (s.stack.current ≤ s.stack.end)
      × (s.stack.end ≤ 0x6000_0000)
  pub down : s.stack.flags ≡ 2
  pub up : (s.text.flags ≡ 1) × (s.data_segment.flags ≡ 1) × (s.heap.flags ≡ 1)

-- The addresses that the stack may grow to; text and data come first where segments overlap.
abbrev pub OnStack : ℕ → Space → Type 0
OnStack address s =
    (s.stack.start ≤ address)
    × (address < s.stack.end)
    × ((address < s.text.start) ⊎ (s.text.end ≤ address))
    × ((address < s.data_segment.start) ⊎ (s.data_segment.end ≤ address))

in_stack-OnStack :
    (address : ℕ) (s : Space) → find_segment address s ≡ some in_stack → OnStack address s
unfolding find_segment
in_stack-OnStack address s e =
    (ground (arith, e), ground (arith, e), ground (arith, e), ground (arith, e))

OnStack-in_stack :
    (address : ℕ) (s : Space) → OnStack address s → find_segment address s ≡ some in_stack
unfolding find_segment
OnStack-in_stack address s h = ground (arith, h)

in_stack_bounds :
    (address : ℕ) (s : Space)
    → find_segment address s ≡ some in_stack
    → (s.stack.start ≤ address) × (address < s.stack.end)
unfolding find_segment
in_stack_bounds address s e = (ground (arith, e), ground (arith, e))

walk_down :
    (current base n : ℕ) (mapped : List (ℕ × ℕ))
    → current ≡ base + n * 0x1000
    → n ≤ page_fuel
    → current < u32
    → grow_down page_fuel current base mapped ≡ some (base, ascending n base ++ mapped)
walk_down current base n mapped e h k = rw e (grow_down_lem page_fuel n base mapped h (omega arith))

grown_down :
    (current base : ℕ) (mapped : List (ℕ × ℕ))
    → current % 0x1000 ≡ 0
    → base % 0x1000 ≡ 0
    → current < u32
    → (now : ℕ) × (count : ℕ) × (grow_down page_fuel current base mapped
        ≡ some (now, ascending count now ++ mapped))
      × (now ≡ min current base)
      × (now + count * 0x1000 ≡ current)
unfolding ascending
grown_down current base mapped a b h = elim (Bool-cases (leb current base)) [
  | inl done ↦ (
    current,
    0,
    grow_down_done page_fuel current base mapped (ground (arith, done)),
    ground (arith, done),
    omega arith,
  )
  | inr more ↦
      let below : base < current = ground (arith, more) in
      let n = (current - base) / 0x1000 in
      let e : current ≡ base + n * 0x1000 = omega (arith, a, b, below) in
      (base, n, walk_down current base n mapped e (omega (arith, h)) h, omega (arith, below), sym e)
]

mask_lem :
    (a : ℕ) → a < u32 → (page_mask a % 0x1000 ≡ 0) × (page_mask a ≤ a) × (a < page_mask a + 0x1000)
mask_lem a h = omega (arith, bit_and-align_page a h)

-- A fault that is answered: the stack reaches down to the page of the address, and the pages between
-- there and where it ended before are mapped.
abbrev pub Answered : ℕ → Space → Type 0
Answered address s =
    (s' : Space) × (count : ℕ) × (process_demand_page address s ≡ some (true, s'))
    × IsStack s'
    × (s'.stack.current ≡ min s.stack.current (page_mask address))
    × (s'.stack.current ≤ address)
    × (s'.mapped ≡ ascending count s'.stack.current ++ s.mapped)
    × (s'.stack.current + count * 0x1000 ≡ s.stack.current)
    × (s' ≡ record s { stack = record s.stack { current = s'.stack.current }; mapped = s'.mapped })

run_demand :
    (address now : ℕ) (s : Space) (mapped : List (ℕ × ℕ))
    → find_segment address s ≡ some in_stack
    → (bit_and s.stack.flags 2 == 0) ≡ false
    → ltb address s.stack.start ≡ false
    → grow_down page_fuel s.stack.current (page_mask address) s.mapped ≡ some (now, mapped)
    → process_demand_page address s
      ≡ some (true, record s { stack = record s.stack { current = now }; mapped = mapped })
unfolding process_demand_page demand
run_demand address now s mapped e d b run = rw (process_demand_page, e, d, demand, b, run) refl

answer :
    (address : ℕ) (s : Space)
    → IsStack s
    → address < u32
    → find_segment address s ≡ some in_stack
    → Answered address s
answer address s h low e =
    let inside = in_stack_bounds address s e in
    let mask = mask_lem address low in
    let (now, count, run, least, sum) =
      grown_down s.stack.current (page_mask address) s.mapped h.aligned.0 mask.0
        (omega (arith, h.bounds)) in
    (
      record s {
        stack = record s.stack { current = now };
        mapped = ascending count now ++ s.mapped;
      },
      count,
      run_demand address now s (ascending count now ++ s.mapped) e
          (ap (λ f. bit_and f 2 == 0) h.down) (ground (arith, inside.0)) run,
      record {
        aligned = (omega (arith, least, h.aligned, mask), h.aligned.1);
        bounds = (
          omega (arith, least, h.aligned, h.bounds, mask, inside),
          omega (arith, least, h.bounds),
          h.bounds.2,
        );
        down = h.down;
        up = h.up;
      },
      least,
      omega (arith, least, mask),
      refl,
      sum,
      refl,
    )

-- process_demand_page returns. A fault at an address that is not in the stack, or in the text or the
-- data as well, is not answered, and nothing changes. Any other fault is: the stack then reaches down to the page of the address, the pages between there and
-- where it ended before are mapped, each once and no other, and nothing else changes.
pub process_demand_page-IsStack :
    (address : ℕ) (s : Space)
    → IsStack s
    → address < u32
    → (¬ OnStack address s × (process_demand_page address s ≡ some (false, s)))
      ⊎ (OnStack address s × Answered address s)
unfolding process_demand_page
process_demand_page-IsStack address s h low = go (find_segment address s) refl
  where
    outside :
        (k : Kind)
        → find_segment address s ≡ some k
        → (segment k s).flags ≡ 1
        → k ≢ in_stack
        → ¬ OnStack address s × (process_demand_page address s ≡ some (false, s))
    outside k e one other = (
      (λ z. let y = OnStack-in_stack address s z in absurd (ground (arith, e, y, other))),
      ground (arith, e, one),
    )

    go :
        (o : Option Kind)
        → find_segment address s ≡ o
        → (¬ OnStack address s × (process_demand_page address s ≡ some (false, s)))
          ⊎ (OnStack address s × Answered address s)
    go none e = inl (
      (λ z. let y = OnStack-in_stack address s z in absurd (ground (arith, e, y))),
      ground (arith, e),
    )
    go (some in_text) e = inl (outside in_text e h.up.0 (λ z. absurd (ground (arith, z))))
    go (some in_data) e = inl (outside in_data e h.up.1 (λ z. absurd (ground (arith, z))))
    go (some in_heap) e = inl (outside in_heap e h.up.2 (λ z. absurd (ground (arith, z))))
    go (some in_stack) e = inr (in_stack-OnStack address s e, answer address s h low e)
