-- ===== src/Tests/Life.antt =====
-- The first process forks, its child runs and exits, and it waits.
use cyanurus.Base.{
  ℕ, ◌≡◌, ◌≢◌, ◌⊎◌, inl, refl, none, some, [], ◌∷◌, arith, update, update-each, Distinct, ◌<◌, All,
  get_elem?,
}
use cyanurus.Process.Life.{
  Kernel, ready, dead, child_waitq, process_create, process_alloc, process_fork, process_switch,
  process_schedule, schedule_loop, process_wake, process_exit, process_wait, process_sleep,
  release_files, wake_each,
}
use cyanurus.Process.Life.Sound.{IsScheduled, Running}
use cyanurus.Process.Life.Steps.{
  creates, forks, sleeps, exits, Turns, here, work, switch, boot, Turns-boot, Turns-IsScheduled,
}
use cyanurus.Process.Life.Turns.{process_switch-turn, process_switch-picks}
use cyanurus.Process.Life.Reaping.{IsTree, WaitOutcome, process_wait-Outcome, Turns-IsTree}
use cyanurus.Process.Life.Exit.{Exited, process_exit-Exited}

abbrev created : Kernel
created = (process_create boot).0

abbrev running : Kernel
running = process_switch created

running-Running : Running running 1
unfolding process_create process_alloc process_switch process_schedule schedule_loop
running-Running = (refl, refl)

abbrev forked : Kernel
forked = (process_fork (process_fork running 1).0 1).0

-- 1 is picked again, and 2 and 3 are on the run queue
abbrev queued : Kernel
queued = process_switch forked

abbrev child : Kernel
child = process_switch queued

child-Running : Running child 2
unfolding process_create process_fork process_alloc process_switch process_schedule schedule_loop
child-Running = (refl, refl)

abbrev exited : Kernel
exited =
    (process_wake
      (record child {
        state = update child.state 2 dead;
        exit_status = update child.exit_status 2 256;
      })
      child_waitq).0

exits_so : process_exit child 2 256 [] ≡ some exited
unfolding process_create process_fork process_alloc process_switch process_schedule schedule_loop
    process_exit release_files
exits_so = refl

abbrev waiting : Kernel
waiting = process_switch (process_switch exited)

waiting-Running : Running waiting 1
unfolding process_create process_fork process_alloc process_switch process_schedule schedule_loop
waiting-Running = (refl, refl)

once-Running : Running (process_fork running 1).0 1
unfolding process_create process_fork process_alloc process_switch process_schedule schedule_loop
once-Running = (refl, refl)

to_forked : Turns created 1 forked
to_forked =
    work (work (switch here) (forks running 1 running-Running))
      (forks (process_fork running 1).0 1 once-Running)

to_queued : Turns created 2 queued
to_queued = switch to_forked

to_waiting : Turns created 5 waiting
to_waiting = switch (switch (work (switch to_queued) (exits child 2 256 [] child-Running exits_so)))

created-IsScheduled : IsScheduled created
created-IsScheduled = Turns-boot (work here (creates boot))

Turns-boot_example : IsScheduled created
Turns-boot_example = Turns-boot (work here (creates boot))

created-IsTree : IsTree created
unfolding process_create process_alloc
created-IsTree = (
  record {
    child = λ q.
        update-each (λ q xs. All (λ c. (created.parent c ≡ q) × (c < 2)) xs) boot.children 1 [] tt
          (λ q n. tt) q;
    once = λ q. update-each (λ q xs. Distinct xs) boot.children 1 [] tt (λ q n. tt) q;
  },
  (1, (refl, inl refl)),
  ((omega arith, inl refl), tt),
)

Turns-IsTree_example : IsTree waiting
Turns-IsTree_example = Turns-IsTree created-IsScheduled created-IsTree to_waiting

second : get_elem? queued.run_queue 1 ≡ some 3
unfolding process_create process_fork process_alloc process_switch process_schedule schedule_loop
second = refl

process_switch-turn_example : (process_switch child).current_process ≡ some 3
process_switch-turn_example =
    process_switch-turn 3 (Turns-IsScheduled created-IsScheduled to_queued) second (switch here)

process_switch-picks_example :
    ((p : ℕ) × ((process_switch forked).current_process ≡ some p) × (forked.state p ≡ ready))
    ⊎ (((process_switch forked).current_process ≡ none)
        × All (λ p. forked.state p ≢ ready) forked.all_processes)
process_switch-picks_example =
    process_switch-picks forked (Turns-IsScheduled created-IsScheduled to_forked)

process_wait-Outcome_example : WaitOutcome waiting 1 (process_wait waiting 1)
process_wait-Outcome_example =
    process_wait-Outcome waiting 1 (Turns-IsScheduled created-IsScheduled to_waiting)
      Turns-IsTree_example waiting-Running

-- 1 sleeps on child_waitq, then 2 on the queue of a pipe, and 3 runs.
abbrev pipe_waitq : ℕ
pipe_waitq = 5

abbrev first_asleep : Kernel
first_asleep = process_sleep queued 1 child_waitq

abbrev then_two : Kernel
then_two = process_switch first_asleep

abbrev both_asleep : Kernel
both_asleep = process_sleep then_two 2 pipe_waitq

abbrev then_three : Kernel
then_three = process_switch both_asleep

queued-Running : Running queued 1
unfolding process_create process_fork process_alloc process_switch process_schedule schedule_loop
queued-Running = (refl, refl)

two-Running : Running then_two 2
unfolding process_create process_fork process_alloc process_switch process_schedule schedule_loop
    process_sleep
two-Running = (refl, refl)

three-Running : Running then_three 3
unfolding process_create process_fork process_alloc process_switch process_schedule schedule_loop
    process_sleep
three-Running = (refl, refl)

to_three : Turns created 4 then_three
to_three = switch (
    work (switch (work to_queued (sleeps queued 1 child_waitq queued-Running)))
      (sleeps then_two 2 pipe_waitq two-Running))

abbrev all_awake : Kernel
all_awake =
    (process_wake
      (release_files
        (record then_three {
          state = update then_three.state 3 dead;
          exit_status = update then_three.exit_status 3 256;
        })
        (pipe_waitq ∷ []))
      child_waitq).0

three_exits : process_exit then_three 3 256 (pipe_waitq ∷ []) ≡ some all_awake
unfolding process_create process_fork process_alloc process_switch process_schedule schedule_loop
    process_sleep process_exit
three_exits = refl

process_exit-Exited_example : Exited then_three 3 256 (pipe_waitq ∷ []) all_awake
process_exit-Exited_example =
    process_exit-Exited then_three 3 256 (pipe_waitq ∷ []) all_awake
      (Turns-IsScheduled created-IsScheduled to_three) three-Running ((λ e. omega arith), tt)
      three_exits

-- 1 and 2 are ready again.
awake_again : (all_awake.state 1 ≡ ready) × (all_awake.state 2 ≡ ready)
unfolding process_create process_fork process_alloc process_switch process_schedule schedule_loop
    process_sleep release_files wake_each
awake_again = (refl, refl)
