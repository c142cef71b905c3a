-- ===== src/Process/Memory.antt =====
-- The address space of a process: its segments, the break and the growth of the stack
-- (src/kernel/process.c). The calls of mmu_alloc are recorded, the newest first.
pub mod Break
pub mod Stack
use cyanurus.Base.{
  ℕ, zero, suc, ◌-◌, bit_and, Bool, true, false, not, ◌&&◌, ◌||◌, Option, none, some, List, [], ◌∷◌,
  ltb, leb, ◌==◌, if◌then◌else◌, add32, sub32,
}
use cyanurus.Bits.{complement}

-- `struct segment`; the flags are 1 for a segment that grows up, 2 for one that grows down.
pub record Segment : Type 0 where
  pub start : ℕ
  pub current : ℕ
  pub end : ℕ
  pub flags : ℕ

-- Of `struct elf_executable`: the address and the size in memory of both parts.
pub record Executable : Type 0 where
  pub text_addr : ℕ
  pub text_size : ℕ
  pub data_addr : ℕ
  pub data_size : ℕ

-- The four segments in the order of the array; `mapped` is the calls of mmu_alloc, by address and size.
pub record Space : Type 0 where
  pub text : Segment
  pub data_segment : Segment
  pub stack : Segment
  pub heap : Segment
  pub brk : ℕ
  pub mapped : List (ℕ × ℕ)

abbrev pub page_size : ℕ
page_size = 0x1000

abbrev pub user_address_end : ℕ
user_address_end = 0x6000_0000

abbrev pub brk_address_end : ℕ
brk_address_end = 0x1000_0000

abbrev pub page_align : ℕ → ℕ
page_align addr = bit_and (add32 addr 0xfff) (complement 32 0xfff)

abbrev pub page_mask : ℕ → ℕ
page_mask addr = bit_and addr (complement 32 0xfff)

unfoldable pub create_segments : Executable → Space → Space
create_segments e s =
    let text_end = page_align (add32 e.text_addr e.text_size) in
    let data_start = page_mask e.data_addr in
    let data_end = page_align (add32 e.data_addr e.data_size) in
    let heap_start = if data_end == 0 then text_end else data_end in
    record s {
      text = record { start = e.text_addr; current = text_end; end = text_end; flags = 1 };
      data_segment = record { start = data_start; current = data_end; end = data_end; flags = 1 };
      heap = record { start = heap_start; current = heap_start; end = heap_start; flags = 1 };
      stack = record {
        start = 0x5800_0000;
        current = user_address_end - 0x1000;
        end = user_address_end;
        flags = 2;
      };
    }

-- The part of a segment that is backed by memory; `none` is a stop at bad flags.
unfoldable pub backed : Segment → Option (ℕ × ℕ)
backed g =
    if not (bit_and g.flags 1 == 0)
    then some (g.start, g.current)
    else if not (bit_and g.flags 2 == 0)
    then some (g.current, g.end)
    else none

unfoldable pub alloc_segment : Segment → List (ℕ × ℕ) → Option (List (ℕ × ℕ))
alloc_segment g mapped = elim (backed g) [
  | none ↦ none
  | some (start, end) ↦ some ((start, sub32 end start) ∷ mapped)
]

unfoldable pub alloc_each : List Segment → List (ℕ × ℕ) → Option (List (ℕ × ℕ))
alloc_each [] mapped = some mapped
alloc_each (g ∷ gs) mapped = elim (alloc_segment g mapped) [
  | none ↦ none
  | some m ↦ alloc_each gs m
]

unfoldable pub alloc_segments : Space → Option Space
alloc_segments s = elim (alloc_each (s.text ∷ s.data_segment ∷ s.stack ∷ s.heap ∷ []) s.mapped) [
  | none ↦ none
  | some m ↦ some (record s { mapped = m })
]

abbrev pub inside : ℕ → Segment → Bool
inside address g = leb g.start address && ltb address g.end

pub data Kind : Type 0 where
  in_text : Kind
  in_data : Kind
  in_stack : Kind
  in_heap : Kind

unfoldable pub find_segment : ℕ → Space → Option Kind
find_segment address s =
    if inside address s.text
    then some in_text
    else if inside address s.data_segment
    then some in_data
    else if inside address s.stack
    then some in_stack
    else if inside address s.heap
    then some in_heap
    else none

abbrev pub segment : Kind → Space → Segment
segment in_text s = s.text
segment in_data s = s.data_segment
segment in_stack s = s.stack
segment in_heap s = s.heap

abbrev pub set_segment : Kind → Segment → Space → Space
set_segment in_text g s = record s { text = g }
set_segment in_data g s = record s { data_segment = g }
set_segment in_stack g s = record s { stack = g }
set_segment in_heap g s = record s { heap = g }

-- The loop of process_brk: a page for each step of `current` up to `end`.
unfoldable pub grow_up : (fuel current end : ℕ) → List (ℕ × ℕ) → Option (ℕ × List (ℕ × ℕ))
grow_up zero current end mapped = if ltb current end then none else some (current, mapped)
grow_up (suc fuel) current end mapped =
    let rest = grow_up fuel (add32 current page_size) end ((current, page_size) ∷ mapped) in
    if ltb current end then rest else some (current, mapped)

-- The loop of process_demand_page: a page for each step of `current` down to `base`.
unfoldable pub grow_down : (fuel current base : ℕ) → List (ℕ × ℕ) → Option (ℕ × List (ℕ × ℕ))
grow_down zero current base mapped = if ltb base current then none else some (current, mapped)
grow_down (suc fuel) current base mapped =
    let rest =
      grow_down fuel (sub32 current page_size) base
        ((sub32 current page_size, page_size) ∷ mapped) in
    if ltb base current then rest else some (current, mapped)

-- The addresses have 2 ^ 20 pages.
abbrev pub page_fuel : ℕ
page_fuel = 0x10_0000

unfoldable pub process_brk : (address : ℕ) → Space → Option (ℕ × Space)
process_brk address s =
    if ltb address s.brk || leb brk_address_end address
    then some (s.brk, s)
    else if ltb s.heap.end address
    then (elim (grow_up page_fuel s.heap.current (page_align address) s.mapped) [
      | none ↦ none
      | some (current, mapped) ↦ some (
        address,
        record s {
          brk = address;
          heap = record s.heap { current = current; end = page_align address };
          mapped = mapped;
        },
      )
    ])
    else some (address, record s { brk = address })

-- The segment that the fault is in, once it is known to grow down.
unfoldable pub demand : Kind → (address : ℕ) → Space → Option (Bool × Space)
demand k address s =
    let g = segment k s in
    if ltb address g.start && leb g.current address
    then some (false, s)
    else (elim (grow_down page_fuel g.current (page_mask address) s.mapped) [
      | none ↦ none
      | some (current, mapped) ↦
          some (true, set_segment k (record g { current = current }) (record s { mapped = mapped }))
    ])

unfoldable pub process_demand_page : (address : ℕ) → Space → Option (Bool × Space)
process_demand_page address s = elim (find_segment address s) [
  | none ↦ some (false, s)
  | some k ↦ if bit_and (segment k s).flags 2 == 0 then some (false, s) else demand k address s
]
