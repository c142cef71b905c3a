-- ===== src/Process/Life/Steps.antt =====
-- Every operation of src/kernel/process.c on processes as a step, and the scheduler's invariant
-- along any sequence of steps.
use cyanurus.Base.{ℕ, suc, ◌≡◌, none, some, List, [], ◌∷◌, update}
use cyanurus.Process.Life.{
  ready, Kernel, process_alloc, process_create, process_fork, process_switch, process_sleep,
  process_wake, process_exit, process_wait,
}
use cyanurus.Process.Life.Sound.{IsScheduled, Running}
use cyanurus.Process.Life.Kept.{
  alloc-IsScheduled, sleep-IsScheduled, wake-IsScheduled, exit-IsScheduled, wait-IsScheduled,
  switch-IsScheduled,
}

-- The operations of a running process or an interrupt, with what holds when the code calls them.
pub data Work : Kernel → Kernel → Type 0 where
  creates : (s : Kernel) → Work s (process_create s).0
  forks : (s : Kernel) (p : ℕ) → Running s p → Work s (process_fork s p).0
  sleeps : (s : Kernel) (p w : ℕ) → Running s p → Work s (process_sleep s p w)
  wakes : (s : Kernel) (w : ℕ) → Work s (process_wake s w).0
  exits :
      (s : Kernel) (p status : ℕ) (ws : List ℕ) {t : Kernel}
      → Running s p
      → process_exit s p status ws ≡ some t
      → Work s t
  waits : (s : Kernel) (p : ℕ) → Running s p → Work s (process_wait s p).0

-- What happens with `n` calls of process_switch in between.
pub data Turns (s : Kernel) : ℕ → Kernel → Type 0 where
  here : Turns s 0 s
  work : {n : ℕ} {t u : Kernel} → Turns s n t → Work t u → Turns s n u
  switch : {n : ℕ} {t : Kernel} → Turns s n t → Turns s (suc n) (process_switch t)

-- process_init
abbrev pub boot : Kernel
boot = record {
  current_process = none;
  all_processes = [];
  run_queue = [];
  max_id = 1;
  state = λ p. ready;
  exit_status = λ p. 0;
  parent = λ p. 0;
  children = λ p. [];
  waitq = λ w. [];
}

boot-IsScheduled : IsScheduled boot
boot-IsScheduled = (
  record {
    known = tt;
    distinct = tt;
    queue = tt;
    once = tt;
    home = λ p. 0;
    sleepers = λ w. tt;
    single = λ w. tt;
  },
  tt,
)

pub Work-IsScheduled : {s t : Kernel} → Work s t → IsScheduled s → IsScheduled t
unfolding process_create process_fork
Work-IsScheduled (creates s) v =
    let a = process_alloc s in alloc-IsScheduled s (update a.parent s.max_id s.max_id) a.children v
Work-IsScheduled (forks s p r) v =
    let a = process_alloc s in
    alloc-IsScheduled s (update a.parent s.max_id p) (update a.children p (s.max_id ∷ a.children p))
      v
Work-IsScheduled (sleeps s p w r) v = sleep-IsScheduled s p w r v
Work-IsScheduled (wakes s w) v = wake-IsScheduled s w v
Work-IsScheduled (exits s p status ws {t} r e) v = exit-IsScheduled s p status ws t r e v
Work-IsScheduled (waits s p r) v = wait-IsScheduled s p r v

pub Turns-IsScheduled :
    {s : Kernel} {n : ℕ} {t : Kernel} → IsScheduled s → Turns s n t → IsScheduled t
Turns-IsScheduled v here = v
Turns-IsScheduled v (work r w) = Work-IsScheduled w (Turns-IsScheduled v r)
Turns-IsScheduled v (switch {t = t} r) = switch-IsScheduled t (Turns-IsScheduled v r).0

-- From the start on, whatever the processes and the interrupts do, the run queue holds ready
-- processes, each once and never the current one, and a sleeper is blocked and on one wait queue,
-- once.
pub Turns-boot : {n : ℕ} {t : Kernel} → Turns boot n t → IsScheduled t
Turns-boot r = Turns-IsScheduled boot-IsScheduled r
