-- ===== src/Process/Life.antt =====
-- The life of processes and their scheduling: src/kernel/process.c, from process_alloc to process_exit.
-- A process is named by its pid; a list of processes is List (the rings are Links).
pub mod Sound
pub mod Kept
pub mod Steps
pub mod Turns
pub mod Family
pub mod Reaping
pub mod Exit
use cyanurus.Base.{
  ℕ, suc, Option, none, some, Bool, true, false, List, [], ◌∷◌, ◌++◌, ◌==◌, if◌then◌else◌, update,
  length,
}

-- enum process_state
pub data ProcessState : Type 0 where
  ready : ProcessState
  blocked : ProcessState
  dead : ProcessState

-- The static variables of process.c and, by pid, the fields of `struct process` that they need;
-- a wait queue is named by a number.
pub record Kernel : Type 0 where
  pub current_process : Option ℕ
  pub all_processes : List ℕ
  pub run_queue : List ℕ
  pub max_id : ℕ
  pub state : ℕ → ProcessState
  pub exit_status : ℕ → ℕ
  pub parent : ℕ → ℕ
  pub children : ℕ → List ℕ
  pub waitq : ℕ → List ℕ

-- child_waitq
abbrev pub child_waitq : ℕ
child_waitq = 0

abbrev pub is_ready : ProcessState → Bool
is_ready ready = true
is_ready blocked = false
is_ready dead = false

abbrev pub is_dead : ProcessState → Bool
is_dead ready = false
is_dead blocked = false
is_dead dead = true

-- list_remove, on the list that holds the item
abbrev pub remove : ℕ → List ℕ → List ℕ
remove p [] = []
remove p (q ∷ qs) = if p == q then qs else q ∷ remove p qs

-- The new process is ready: its structure is cleared.
unfoldable pub process_alloc : Kernel → Kernel
process_alloc s =
    let p = s.max_id in
    record s {
      max_id = suc p;
      all_processes = p ∷ s.all_processes;
      state = update s.state p ready;
      exit_status = update s.exit_status p 0;
      parent = update s.parent p 0;
      children = update s.children p [];
    }

-- what process_create does to these fields, once the program is loaded
unfoldable pub process_create : Kernel → Kernel × ℕ
process_create s =
    let p = s.max_id in let s1 = process_alloc s in (record s1 { parent = update s1.parent p p }, p)

-- the process `current` forks
unfoldable pub process_fork : Kernel → ℕ → Kernel × ℕ
process_fork s current =
    let p = s.max_id in
    let s1 = process_alloc s in
    (
      record s1 {
        children = update s1.children current (p ∷ s1.children current);
        parent = update s1.parent p current;
      },
      p,
    )

-- the loop of process_schedule
unfoldable pub schedule_loop : (ℕ → ProcessState) → List ℕ → List ℕ → List ℕ
schedule_loop state [] queue = queue
schedule_loop state (p ∷ ps) queue =
    schedule_loop state ps (if is_ready (state p) then p ∷ queue else queue)

unfoldable pub process_schedule : Kernel → Kernel
process_schedule s = record s { run_queue = schedule_loop s.state s.all_processes s.run_queue }

-- the first of the queue is made the current process
abbrev pub dequeue_first : Kernel → List ℕ → Kernel
dequeue_first s [] = record s { current_process = none }
dequeue_first s (p ∷ rest) = record s { run_queue = rest; current_process = some p }

abbrev pub process_dequeue : Kernel → Kernel
process_dequeue s = dequeue_first s s.run_queue

abbrev pub is_empty : List ℕ → Bool
is_empty [] = true
is_empty (p ∷ ps) = false

-- Afterwards the current process is dispatched; without one the processor idles.
unfoldable pub process_switch : Kernel → Kernel
process_switch s = process_dequeue (if is_empty s.run_queue then process_schedule s else s)

-- the process `p` sleeps on the queue `w`
unfoldable pub process_sleep : Kernel → ℕ → ℕ → Kernel
process_sleep s p w = record s {
  state = update s.state p blocked;
  waitq = update s.waitq w (p ∷ s.waitq w);
}

-- the first of the sleepers on `w` is made ready
abbrev pub wake_first : Kernel → ℕ → List ℕ → Kernel × ℕ
wake_first s w [] = (s, 0)
wake_first s w (p ∷ rest) =
    (record s { state = update s.state p ready; waitq = update s.waitq w rest }, 1)

abbrev pub process_wake : Kernel → ℕ → Kernel × ℕ
process_wake s w = wake_first s w (s.waitq w)

-- `while (process_wake(w));` of src/kernel/pipe.c, with the sleepers `qs`
unfoldable pub wake_each : Kernel → ℕ → List ℕ → Kernel
wake_each s w [] = s
wake_each s w (p ∷ rest) = wake_each (wake_first s w (p ∷ rest)).0 w rest

-- What the release of the files of a process does here: all that sleep on the queues `ws` are
-- woken, those of the pipes that the files are the ends of (Pipe.release).
unfoldable pub release_files : Kernel → List ℕ → Kernel
release_files s [] = s
release_files s (w ∷ ws) = release_files (wake_each s w (s.waitq w)) ws

-- `ws` are the wait queues of the pipes that are released; none when the system shuts down.
unfoldable pub process_exit : Kernel → ℕ → ℕ → List ℕ → Option Kernel
process_exit s p status ws =
    let s1 = record s {
      state = update s.state p dead;
      exit_status = update s.exit_status p status;
    } in
    if length s.all_processes == 1
    then none
    else some (process_wake (release_files s1 ws) child_waitq).0

unfoldable pub find_toplevel_process : (ℕ → ℕ) → List ℕ → Option ℕ
find_toplevel_process parent [] = none
find_toplevel_process parent (p ∷ ps) =
    if parent p == p then some p else find_toplevel_process parent ps

-- the parent of each of `cs` set to `t`
abbrev pub adopt : (ℕ → ℕ) → ℕ → List ℕ → ℕ → ℕ
adopt parent t [] = parent
adopt parent t (c ∷ cs) = adopt (update parent c t) t cs

-- without a top-level process each child becomes one
abbrev pub orphan : (ℕ → ℕ) → List ℕ → ℕ → ℕ
orphan parent [] = parent
orphan parent (c ∷ cs) = orphan (update parent c c) cs

-- The parents and the children when `p` goes: its children are given to the top-level process.
unfoldable pub bequeath : Kernel → ℕ → (ℕ → ℕ) × (ℕ → List ℕ)
bequeath s p =
    let cs = s.children p in
    if is_empty cs
    then (s.parent, s.children)
    else elim (find_toplevel_process s.parent s.all_processes) as (λ _. (ℕ → ℕ) × (ℕ → List ℕ)) [
      | none ↦ (orphan s.parent cs, s.children)
      | some t ↦ (adopt s.parent t cs, update (update s.children t (cs ++ s.children t)) p [])
    ]

-- process_destroy behind its SYSTEM_BUG_ON; the memory that it gives back, the kernel stack, the
-- translation table and the structure, is not part of this state.
unfoldable pub destroy_other : Kernel → ℕ → Kernel
destroy_other s p =
    let s1 = record s {
      run_queue = remove p s.run_queue;
      all_processes = remove p s.all_processes;
      children = λ q. remove p (s.children q);
    } in
    let r = bequeath s1 p in record s1 { parent = r.0; children = r.1 }

-- none is the stop of SYSTEM_BUG_ON: the process `current` is to be destroyed
unfoldable pub process_destroy : Kernel → ℕ → ℕ → Option Kernel
process_destroy s current p = if current == p then none else some (destroy_other s p)

unfoldable pub find_dead : (ℕ → ProcessState) → List ℕ → Option ℕ
find_dead state [] = none
find_dead state (p ∷ ps) = if is_dead (state p) then some p else find_dead state ps

-- One turn of the loop of process_wait: -ECHILD, a child's pid and status, asleep, or a stop of the
-- machine.
pub data WaitResult : Type 0 where
  no_child : WaitResult
  reaped : ℕ → ℕ → WaitResult
  asleep : WaitResult
  halted : WaitResult

abbrev pub destroyed : Kernel → ℕ → ℕ → Option Kernel → Kernel × WaitResult
destroyed s p status none = (s, halted)
destroyed s p status (some t) = (t, reaped p status)

-- the children searched: the dead one is destroyed, without one the process sleeps
unfoldable pub reap : Kernel → ℕ → Option ℕ → Kernel × WaitResult
reap s current none = (process_sleep s current child_waitq, asleep)
reap s current (some p) = destroyed s p (s.exit_status p) (process_destroy s current p)

unfoldable pub process_wait : Kernel → ℕ → Kernel × WaitResult
process_wait s current =
    if is_empty (s.children current)
    then (s, no_child)
    else reap s current (find_dead s.state (s.children current))
