-- ===== src/Tests/Processes.antt =====
-- Signals and memory of a small process.
use cyanurus.Base.{
  ℕ, ◌+◌, ◌*◌, ◌≤◌, ◌<◌, ◌≡◌, ◌≢◌, refl, ◌⊎◌, true, false, ◌||◌, none, some, List, [], ◌∷◌, ◌++◌,
  arith, ltb, leb, if◌then◌else◌, replicate, pos, error,
}
use cyanurus.Sigset.{Sigset}
use cyanurus.Sigset.Member.{member}
use cyanurus.Process.Signals.{
  Action, Signals, Process, Current, Dispatched, resumes, process_sigprocmask, find_process,
  dispatch_signal, enter_handler, process_sigreturn,
}
use cyanurus.Process.Signals.Masks.{blocked_after, process_sigprocmask-member}
use cyanurus.Process.Signals.Delivery.{process_sigreturn-enter_handler}
use cyanurus.Process.Signals.Choice.{ready, Taken, dispatch_signal_takes}
use cyanurus.Process.Memory.{Segment, Space, process_brk, process_demand_page}
use cyanurus.Process.Memory.Break.{IsHeap, pages, process_brk-IsHeap}
use cyanurus.Process.Memory.Stack.{OnStack, Answered, process_demand_page-IsStack}

abbrev none_set : Sigset
none_set = record { low = 0; high = 0 }

abbrev handler : Action
handler = record { handler = 0x8000; flags = 0; restorer = 0x9000; mask = none_set }

-- SIGINT and SIGTERM wait, and SIGINT is blocked.
abbrev signals : Signals
signals = record {
  mask = record { low = 2; high = 0 };
  pending = record { low = 0x4002; high = 0 };
  actions = replicate 64 handler;
}

process_sigprocmask-member_example :
    (process_sigprocmask 0 (some (record { low = 0x4_0100; high = 0 })) signals ≡ (
      if ltb 0 3 then pos 0 else error 22,
      if ltb 0 3 then some signals.mask else none,
      record signals {
        mask = (process_sigprocmask 0 (some (record { low = 0x4_0100; high = 0 })) signals).2.mask;
      },
    ))
    × ((j : ℕ)
        → (1 ≤ j) × (j < 65)
        → member
            ((process_sigprocmask 0 (some (record { low = 0x4_0100; high = 0 })) signals).2.mask)
            j
          ≡ blocked_after 0
              (member signals.mask j)
              (member (record { low = 0x4_0100; high = 0 }) j)
              j)
process_sigprocmask-member_example =
    process_sigprocmask-member 0 (record { low = 0x4_0100; high = 0 }) signals
      (record { low_word = omega arith; high_word = omega arith })

abbrev processes : List Process
processes = record { id = 7; signal = signals } ∷ record { id = 4; signal = signals } ∷ []

found : find_process processes 4 ≡ some 1
unfolding find_process
found = refl

abbrev current : Current
current = record {
  context = record { cpsr = 0x10; r = replicate 13 5; sp = 0x5fff_fff4; lr = 0x8100; pc = 0x8200 };
  signal = signals;
  memory = λ a. 0;
}

process_sigreturn-enter_handler_example :
    let entered = enter_handler handler 15 current in
    let back = process_sigreturn entered.context entered in
    (back.context ≡ current.context)
    × (back.signal ≡ current.signal)
    × ((x : ℕ) → 0x5fff_fff4 ≤ x → back.memory x ≡ current.memory x)
process_sigreturn-enter_handler_example =
    process_sigreturn-enter_handler handler 15 current refl (omega arith) (omega arith)

dispatch_signal_takes_example :
    ((dispatch_signal current ≡ some (resumes current))
      × ((j : ℕ) → (1 ≤ j) × (j < 65) → ready signals j ≡ false))
    ⊎ ((sig : ℕ) × ((1 ≤ sig) × (sig < 65))
        × (ready signals sig ≡ true)
        × ((j : ℕ) → 1 ≤ j → j < sig → ready signals j ≡ false)
        × (((sig ≡ 64) × (dispatch_signal current ≡ none))
            ⊎ ((sig ≢ 64)
                × (d : Dispatched) × (dispatch_signal current ≡ some d)
                × Taken sig current d)))
dispatch_signal_takes_example =
    dispatch_signal_takes current (record { low_word = omega arith; high_word = omega arith }) refl

abbrev segment : (start current end flags : ℕ) → Segment
segment start current end flags = record {
  start = start;
  current = current;
  end = end;
  flags = flags;
}

abbrev space : Space
space = record {
  text = segment 0x8000 0xa000 0xa000 1;
  data_segment = segment 0xa000 0xb000 0xb000 1;
  stack = segment 0x5800_0000 0x5fff_f000 0x6000_0000 2;
  heap = segment 0xb000 0xc000 0xc000 1;
  brk = 0xb800;
  mapped = [];
}

process_brk-IsHeap_example :
    (r : ℕ) × (s' : Space) × (count : ℕ) × (process_brk 0xe001 space ≡ some (r, s'))
    × IsHeap s'
    × (r ≡ s'.brk)
    × (s'.brk ≡ (if ltb 0xe001 0xb800 || leb 0x1000_0000 0xe001 then 0xb800 else 0xe001))
    × (s'.mapped ≡ pages count 0xc000 ++ [])
    × (s'.heap.end ≡ 0xc000 + count * 0x1000)
    × (s'.heap.start ≡ 0xb000)
process_brk-IsHeap_example =
    process_brk-IsHeap 0xe001 space
      (record { full = refl; aligned = omega arith; backed = omega arith; low = omega arith })

process_demand_page-IsStack_example :
    (¬ OnStack 0x5fff_d123 space × (process_demand_page 0x5fff_d123 space ≡ some (false, space)))
    ⊎ (OnStack 0x5fff_d123 space × Answered 0x5fff_d123 space)
process_demand_page-IsStack_example =
    process_demand_page-IsStack 0x5fff_d123 space
      (record {
        aligned = (omega arith, omega arith);
        bounds = (omega arith, omega arith, omega arith);
        down = refl;
        up = (refl, refl, refl);
      })
      (omega arith)
