-- ===== src/Process/Life/Turns.antt =====
-- Whom process_switch of src/kernel/process.c picks, and when.
use cyanurus.Base.{
  ℕ, zero, suc, ◌<◌, ◌≡◌, ◌≢◌, ◌⊎◌, inl, inr, refl, sym, ap, ◌∙◌, Option, none, some, true, false,
  Bool-cases, List, [], ◌∷◌, arith, update, length, drop, get_elem?, All,
}
use cyanurus.Process.Life.{
  ProcessState, ready, dead, Kernel, child_waitq, is_ready, is_empty, process_alloc, process_create,
  process_fork, schedule_loop, process_schedule, dequeue_first, process_switch, process_sleep,
  wake_first, process_exit, destroy_other, find_dead, wake_each, release_files, process_wait, reap,
}
use cyanurus.Process.Life.Sound.{
  IsReady, IsQueued, IsScheduled, All-Fresh, remove-Fresh, is_ready_iff,
}
use cyanurus.Process.Life.Kept.{
  is_empty_iff, schedule-IsQueued, find_dead-some, ready_ne_dead, process_exit-gone, gone,
  reap-some,
}
use cyanurus.Process.Life.Steps.{
  Work, creates, forks, sleeps, wakes, exits, waits, Turns, here, work, switch, Turns-IsScheduled,
}

wake-queue : (s : Kernel) (w : ℕ) (qs : List ℕ) → (wake_first s w qs).0.run_queue ≡ s.run_queue
wake-queue s w [] = refl
wake-queue s w (p ∷ rest) = refl

destroy-queue :
    (s : Kernel) (p : ℕ)
    → IsQueued s
    → s.state p ≡ dead
    → (destroy_other s p).run_queue ≡ s.run_queue
unfolding destroy_other
destroy-queue s p v e = remove-Fresh p s.run_queue (
    All-Fresh (IsReady s) p s.run_queue (λ q x y. ready_ne_dead (sym x.0 ∙ ap s.state (sym y) ∙ e))
      v.queue)

reap-queue :
    (s : Kernel) (p : ℕ) (o : Option ℕ)
    → IsQueued s
    → ((q : ℕ) → o ≡ some q → s.state q ≡ dead)
    → s.state p ≡ ready
    → (reap s p o).0.run_queue ≡ s.run_queue
unfolding reap process_sleep
reap-queue s p none v h r = refl
reap-queue s p (some q) v h r = rw (reap-some s p q r (h q refl)) (destroy-queue s q v (h q refl))

wait-queue :
    (s : Kernel) (p : ℕ)
    → IsQueued s
    → s.state p ≡ ready
    → (process_wait s p).0.run_queue ≡ s.run_queue
unfolding process_wait
wait-queue s p v r = elim (Bool-cases (is_empty (s.children p))) [
  | inl t ↦ rw t refl
  | inr f ↦ rw f (
      reap-queue s p (find_dead s.state (s.children p)) v
        (λ q e. find_dead-some s.state (s.children p) q e) r)
]

wake_each-queue : (s : Kernel) (w : ℕ) (qs : List ℕ) → (wake_each s w qs).run_queue ≡ s.run_queue
unfolding wake_each
wake_each-queue s w [] = refl
wake_each-queue s w (p ∷ rest) = wake_each-queue (wake_first s w (p ∷ rest)).0 w rest

release_files-queue : (s : Kernel) (ws : List ℕ) → (release_files s ws).run_queue ≡ s.run_queue
unfolding release_files
release_files-queue s [] = refl
release_files-queue s (w ∷ ws) =
    release_files-queue (wake_each s w (s.waitq w)) ws ∙ wake_each-queue s w (s.waitq w)

exit-queue :
    (s : Kernel) (p status : ℕ) (ws : List ℕ) (t : Kernel)
    → process_exit s p status ws ≡ some t
    → t.run_queue ≡ s.run_queue
exit-queue s p status ws t e =
    let g = gone s p status ws in
    ap (λ u. u.run_queue) (sym (process_exit-gone s p status ws t e))
    ∙ wake-queue g child_waitq (g.waitq child_waitq)
    ∙ release_files-queue
        (record s { state = update s.state p dead; exit_status = update s.exit_status p status }) ws

-- Only process_switch takes from the run queue.
Work-queue : {s t : Kernel} → IsQueued s → Work s t → t.run_queue ≡ s.run_queue
unfolding process_create process_fork process_sleep process_alloc
Work-queue v (creates s) = refl
Work-queue v (forks s p r) = refl
Work-queue v (sleeps s p w r) = refl
Work-queue v (wakes s w) = wake-queue s w (s.waitq w)
Work-queue v (exits s p status ws {t} r e) = exit-queue s p status ws t e
Work-queue v (waits s p r) = wait-queue s p v r.1

switch-cons :
    (s : Kernel) (p : ℕ) (rest : List ℕ)
    → s.run_queue ≡ p ∷ rest
    → (process_switch s).run_queue ≡ rest × (process_switch s).current_process ≡ some p
unfolding process_switch
switch-cons s p rest e = rw e (refl, refl)

drop-cons :
    (n : ℕ) (queue : List ℕ)
    → n < length queue
    → (p : ℕ) × (drop n queue ≡ p ∷ drop (suc n) queue) × (get_elem? queue n ≡ some p)
drop-cons n [] l = absurd (omega arith)
drop-cons zero (q ∷ qs) l = (q, refl, refl)
drop-cons (suc n) (q ∷ qs) l = drop-cons n qs (omega arith)

get_elem?-length : (queue : List ℕ) (n p : ℕ) → get_elem? queue n ≡ some p → n < length queue
get_elem?-length [] n p e = absurd (ground arith)
get_elem?-length (q ∷ qs) zero p e = omega arith
get_elem?-length (q ∷ qs) (suc n) p e = let l = get_elem?-length qs n p e in omega arith

Turns-drop :
    {s : Kernel} {n : ℕ} {t : Kernel}
    → IsScheduled s
    → Turns s n t
    → n < suc (length s.run_queue)
    → t.run_queue ≡ drop n s.run_queue
Turns-drop v here l = refl
Turns-drop v (work r w) l = Work-queue (Turns-IsScheduled v r).0 w ∙ Turns-drop v r l
Turns-drop {s} v (switch {n} {t} r) l =
    let (p, d, g) = drop-cons n s.run_queue (omega arith) in
    (switch-cons t p (drop (suc n) s.run_queue) (Turns-drop v r (omega arith) ∙ d)).0

-- A process waits for its turn no longer than the run queue is: with `n` processes before it, it
-- is the current one after the call of process_switch that follows `n` others, whatever the
-- processes and the interrupts do meanwhile.
pub process_switch-turn :
    {s : Kernel} {n : ℕ} {t : Kernel} (p : ℕ)
    → IsScheduled s
    → get_elem? s.run_queue n ≡ some p
    → Turns s n t
    → (process_switch t).current_process ≡ some p
process_switch-turn {s} {n} {t} p v e r =
    let l = get_elem?-length s.run_queue n p e in
    let (q, d, g) = drop-cons n s.run_queue l in
    let c = switch-cons t q (drop (suc n) s.run_queue) (Turns-drop v r (omega arith) ∙ d) in
    c.1 ∙ sym g ∙ e

schedule-ready :
    (state : ℕ → ProcessState) (p : ℕ) (ps queue : List ℕ)
    → is_ready (state p) ≡ true
    → schedule_loop state (p ∷ ps) queue ≡ schedule_loop state ps (p ∷ queue)
unfolding schedule_loop
schedule-ready state p ps queue t = rw t refl

schedule-other :
    (state : ℕ → ProcessState) (p : ℕ) (ps queue : List ℕ)
    → is_ready (state p) ≡ false
    → schedule_loop state (p ∷ ps) queue ≡ schedule_loop state ps queue
unfolding schedule_loop
schedule-other state p ps queue f = rw f refl

schedule_loop_ne :
    (state : ℕ → ProcessState) (ps : List ℕ) (q : ℕ) (qs : List ℕ)
    → schedule_loop state ps (q ∷ qs) ≢ []
unfolding schedule_loop
schedule_loop_ne state [] q qs e = ground arith
schedule_loop_ne state (p ∷ ps) q qs e = elim (Bool-cases (is_ready (state p))) [
  | inl t ↦ schedule_loop_ne state ps p (q ∷ qs) (sym (schedule-ready state p ps (q ∷ qs) t) ∙ e)
  | inr f ↦ schedule_loop_ne state ps q qs (sym (schedule-other state p ps (q ∷ qs) f) ∙ e)
]

schedule_loop-none :
    (state : ℕ → ProcessState) (ps : List ℕ)
    → schedule_loop state ps [] ≡ []
    → All (λ p. state p ≢ ready) ps
unfolding schedule_loop
schedule_loop-none state [] e = tt
schedule_loop-none state (p ∷ ps) e = elim (Bool-cases (is_ready (state p))) [
  | inl t ↦ absurd (schedule_loop_ne state ps p [] (sym (schedule-ready state p ps [] t) ∙ e))
  | inr f ↦ (
    (λ r. let t = (is_ready_iff (state p)).1 r in ground arith),
    schedule_loop-none state ps (sym (schedule-other state p ps [] f) ∙ e),
  )
]

-- what a call of process_switch in `s` makes of the processor in `t`
abbrev Picks : Kernel → Kernel → Type 0
Picks s t =
    ((p : ℕ) × (t.current_process ≡ some p) × (s.state p ≡ ready))
    ⊎ ((t.current_process ≡ none) × All (λ p. s.state p ≢ ready) s.all_processes)

dequeue-Picks :
    (s : Kernel) (queue : List ℕ)
    → All (IsReady s) queue
    → (queue ≡ [] → All (λ p. s.state p ≢ ready) s.all_processes)
    → Picks s (dequeue_first s queue)
dequeue-Picks s [] h k = inr (refl, k refl)
dequeue-Picks s (p ∷ rest) h k = inl (p, refl, h.0.0)

-- process_switch makes a ready process the current one, and leaves the processor idle only when
-- no process is ready.
pub process_switch-picks :
    (s : Kernel)
    → IsScheduled s
    → ((p : ℕ) × ((process_switch s).current_process ≡ some p) × (s.state p ≡ ready))
      ⊎ (((process_switch s).current_process ≡ none) × All (λ p. s.state p ≢ ready) s.all_processes)
unfolding process_switch process_schedule
process_switch-picks s v = elim (Bool-cases (is_empty s.run_queue)) [
  | inl t ↦
      let q = (is_empty_iff s.run_queue).0 t in
      let w = schedule-IsQueued s v.0 q in
      rw t (
        dequeue-Picks (process_schedule s) (process_schedule s).run_queue w.queue (λ e.
          schedule_loop-none s.state s.all_processes
            (sym (ap (schedule_loop s.state s.all_processes) q) ∙ e)))
  | inr f ↦ rw f (
      dequeue-Picks s s.run_queue v.0.queue
        (λ e. let x = (is_empty_iff s.run_queue).1 e in absurd (ground arith)))
]
