-- ===== src/Process/Signals.antt =====
-- Signals of a process: sigaction, sigprocmask, kill, the delivery in process_dispatch and the
-- return from a handler (src/kernel/process.c).
pub mod Masks
pub mod Delivery
pub mod Choice
use cyanurus.Base.{
  ℕ, zero, suc, ◌+◌, ◌*◌, bit_and, Bool, ◌||◌, Option, none, some, List, [], ◌∷◌, ◌++◌, ltb, leb,
  ◌==◌, if◌then◌else◌, is_some, length, get_elem?, get_or, set, take, drop, replicate, update, ℤ,
  pos, negsuc, error, add32, sub32,
}
use cyanurus.Bits.{complement}
use cyanurus.Sigset.{Sigset, sigaddset, sigdelset, signotset, sigorset, sigandset, sigpeekset}

-- `struct k_sigaction`; a handler is an address, 0 for SIG_DFL and 1 for SIG_IGN.
pub record Action : Type 0 where
  pub handler : ℕ
  pub flags : ℕ
  pub restorer : ℕ
  pub mask : Sigset

-- `struct process_signal`; the array `actions` has NSIG - 1 entries.
pub record Signals : Type 0 where
  pub mask : Sigset
  pub pending : Sigset
  pub actions : List Action

abbrev pub sigkill : ℕ
sigkill = 9

abbrev pub sigstop : ℕ
sigstop = 19

-- Both `sigdelset` calls on a mask that a program sets.
abbrev pub unblockable : Sigset → Sigset
unblockable s = (sigdelset (sigdelset s (pos sigkill)).1 (pos sigstop)).1

-- The result is the return value, what is stored in `ksa_old`, and the signals; `none` is a use of
-- an entry behind the array. EINVAL is 22.
unfoldable pub process_sigaction :
    (sig : ℤ)
    → (ksa : Option Action) → (wants_old : Bool) → Signals
    → Option (ℤ × Option Action × Signals)
process_sigaction (negsuc n) ksa wants_old s = some (error 22, none, s)
process_sigaction (pos sig) ksa wants_old s =
    if ltb sig 1 || leb 65 sig
    then some (error 22, none, s)
    else if (sig == sigkill) || (sig == sigstop)
    then some (error 22, none, s)
    else (elim (get_elem? s.actions sig) [
      | none ↦ if wants_old || is_some ksa then none else some (pos 0, none, s)
      | some old ↦ some (
        pos 0,
        if wants_old then some old else none,
        elim ksa [
          | none ↦ s
          | some k ↦ record s {
            actions = set s.actions sig (record k { mask = unblockable k.mask });
          }
        ],
      )
    ])

-- `how` and the new mask; the result is the return value and what is stored in `oldset`.
unfoldable pub process_sigprocmask :
    (how : ℕ) → (arg : Option Sigset) → Signals → ℤ × Option Sigset × Signals
process_sigprocmask how none s = (pos 0, some s.mask, s)
process_sigprocmask how (some arg) s =
    if how == 0
    then (pos 0, some s.mask, record s { mask = unblockable (sigorset s.mask arg) })
    else if how == 1
    then (pos 0, some s.mask, record s { mask = sigandset s.mask (signotset arg) })
    else if how == 2
    then (pos 0, some s.mask, record s { mask = unblockable arg })
    else (error 22, none, s)

-- What kill reads and changes of a process.
pub record Process : Type 0 where
  pub id : ℕ
  pub signal : Signals

-- find_process: the index in the list of all processes.
unfoldable pub find_process : List Process → (pid : ℕ) → Option ℕ
find_process [] pid = none
find_process (p ∷ ps) pid =
    let rest : Option ℕ = elim (find_process ps pid) [ none ↦ none | some i ↦ some (suc i) ] in
    if p.id == pid then some 0 else rest

abbrev pub raise : ℕ → Process → Process
raise sig p = record p {
  signal = record p.signal { pending = (sigaddset p.signal.pending (pos sig)).1 };
}

unfoldable pub modify : List Process → ℕ → (Process → Process) → List Process
modify [] i f = []
modify (p ∷ ps) zero f = f p ∷ ps
modify (p ∷ ps) (suc i) f = p ∷ modify ps i f

-- ESRCH is 3.
unfoldable pub process_kill : (pid sig : ℤ) → List Process → ℤ × List Process
process_kill pid (negsuc n) ps = (error 22, ps)
process_kill pid (pos sig) ps = if ltb sig 1 || leb 65 sig then (error 22, ps) else (elim pid [
  | negsuc n ↦ (error 3, ps)
  | pos n ↦ if n == 0 then (error 3, ps) else (elim (find_process ps n) [
    | none ↦ (error 3, ps)
    | some i ↦ (pos 0, modify ps i (raise sig))
  ])
])

-- `struct process_context`
pub record Context : Type 0 where
  pub cpsr : ℕ
  pub r : List ℕ
  pub sp : ℕ
  pub lr : ℕ
  pub pc : ℕ

-- The 17 words of a context with 13 registers, in the order of the structure.
abbrev pub context_words : Context → List ℕ
context_words c = c.cpsr ∷ (c.r ++ (c.sp ∷ c.lr ∷ c.pc ∷ []))

abbrev pub words_context : List ℕ → Context
words_context ws = record {
  cpsr = get_or ws 0 0;
  r = take 13 (drop 1 ws);
  sp = get_or ws 14 0;
  lr = get_or ws 15 0;
  pc = get_or ws 16 0;
}

-- The user's memory, a word at each address that is a multiple of 4.
abbrev pub Memory : Type 0
Memory = ℕ → ℕ

unfoldable pub store_words : Memory → ℕ → List ℕ → Memory
store_words m addr [] = m
store_words m addr (x ∷ xs) = store_words (update m addr x) (addr + 4) xs

unfoldable pub load_words : Memory → ℕ → (count : ℕ) → List ℕ
load_words m addr zero = []
load_words m addr (suc n) = m addr ∷ load_words m (addr + 4) n

-- The stack pointer below `sp` with `size` bytes in between, on a multiple of 8.
abbrev pub push_sp : ℕ → (size : ℕ) → ℕ
push_sp sp size = bit_and (sub32 sp size) (complement 32 7)

unfoldable pub push_to_stack : (sp : ℕ) → List ℕ → Memory → ℕ × Memory
push_to_stack sp ws m = let at = push_sp sp (length ws * 4) in (at, store_words m at ws)

unfoldable pub pop_from_stack : (sp count : ℕ) → Memory → ℕ × List ℕ
pop_from_stack sp count m =
    (bit_and (add32 (add32 sp (count * 4)) 7) (complement 32 7), load_words m sp count)

-- The current process as process_dispatch and sigreturn use it.
pub record Current : Type 0 where
  pub context : Context
  pub signal : Signals
  pub memory : Memory

abbrev pub mask_words : Sigset → List ℕ
mask_words s = s.low ∷ s.high ∷ []

abbrev pub words_mask : List ℕ → Sigset
words_mask ws = record { low = get_or ws 0 0; high = get_or ws 1 0 }

-- The default action leaves the process alone on SIGCHLD, SIGURG and SIGWINCH.
abbrev pub survives : ℕ → Bool
survives sig = (sig == 17) || (sig == 23) || (sig == 28)

-- The user stack and the context on entry to a handler.
unfoldable pub enter_handler : Action → (sig : ℕ) → Current → Current
enter_handler ksa sig c =
    let (sp1, m1) = push_to_stack c.context.sp (context_words c.context) c.memory in
    let (sp2, m2) = push_to_stack sp1 (mask_words c.signal.mask) m1 in
    record {
      context = record {
        cpsr = 0x10;
        r = sig ∷ replicate 12 0;
        sp = sp2;
        lr = ksa.restorer;
        pc = ksa.handler;
      };
      signal = record c.signal { mask = (sigaddset (sigorset c.signal.mask ksa.mask) (pos sig)).1 };
      memory = m2;
    }

abbrev pub cleared : ℕ → Current → Current
cleared sig c = record c {
  signal = record c.signal { pending = (sigdelset c.signal.pending (pos sig)).1 };
}

-- What process_dispatch does with the signals: it goes on in user mode with `resumes`, or the
-- default action ends the process, with the exit status.
pub data Dispatched : Type 0 where
  resumes : Current → Dispatched
  exits : (status : ℕ) → Dispatched

abbrev pub deliverable : Signals → Sigset
deliverable s = sigandset s.pending (signotset s.mask)

-- `none` is a use of the entry behind the array of actions.
unfoldable pub dispatch_signal : Current → Option Dispatched
dispatch_signal c =
    let sig = sigpeekset (deliverable c.signal) in
    if sig == 0 then some (resumes c) else (elim (get_elem? c.signal.actions sig) [
      | none ↦ none
      | some ksa ↦
          if ksa.handler == 0
          then (if survives sig
              then some (resumes (cleared sig c))
              else some (exits (bit_and sig 0x7f)))
          else if ksa.handler == 1
          then some (resumes (cleared sig c))
          else some (resumes (cleared sig (enter_handler ksa sig c)))
    ])

unfoldable pub process_sigreturn : (context : Context) → Current → Current
process_sigreturn context c =
    let (sp1, mask) = pop_from_stack context.sp 2 c.memory in
    let (sp2, saved) = pop_from_stack sp1 17 c.memory in
    record c { signal = record c.signal { mask = words_mask mask }; context = words_context saved }
