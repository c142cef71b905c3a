-- ===== src/Process/Life/Kept.antt =====
-- The scheduler's invariant kept by each operation of src/kernel/process.c on processes.
use mathlib.Core.Path.{subst}
use cyanurus.Base.{
  ℕ, suc, ◌<◌, ◌≤◌, ◌≡◌, ◌≢◌, inl, inr, refl, sym, ap, ◌∙◌, ◌↔◌, Option, none, some, Bool, true,
  false, Bool-cases, List, [], ◌∷◌, ◌==◌, if◌then◌else◌, arith, update, update-each, length, All,
  All_mono, Fresh, Distinct,
}
use cyanurus.Process.Life.{
  ProcessState, ready, blocked, dead, Kernel, child_waitq, is_dead, is_empty, remove, process_alloc,
  process_schedule, process_switch, process_sleep, process_wake, wake_first, dequeue_first, reap,
  process_exit, process_destroy, destroy_other, reaped, find_dead, process_wait, wake_each,
  release_files,
}
use cyanurus.Process.Life.Sound.{
  Away, IsReady, IsAsleep, IsQueued, IsScheduled, Running, All-Fresh, remove-Fresh, remove-All,
  Distinct-remove, Apart-nil, schedule_loop-All, schedule_loop-Distinct,
}

pub ready_ne_blocked : ready ≢ blocked
ready_ne_blocked e = ground arith

pub ready_ne_dead : ready ≢ dead
ready_ne_dead e = ground arith

Away-mono : (o : Option ℕ) (queue : List ℕ) (n m : ℕ) → n ≤ m → Away o queue n → Away o queue m
Away-mono none queue n m l h = tt
Away-mono (some p) queue n m l h = (h.0, omega arith)

pub Away-some :
    (o : Option ℕ) (p : ℕ) (queue : List ℕ) (n : ℕ)
    → o ≡ some p
    → Away o queue n
    → Fresh p queue × (p < n)
Away-some none p queue n e h = absurd (ground arith)
Away-some (some q) p queue n e h = let x : p ≡ q = ground arith in rw x h

-- The new process is ready, and its pid is new.
pub alloc-IsScheduled :
    (s : Kernel) (parent : ℕ → ℕ) (children : ℕ → List ℕ)
    → IsScheduled s
    → IsScheduled (record (process_alloc s) { parent = parent; children = children })
unfolding process_alloc
alloc-IsScheduled s parent children (v, a) = (
  record {
    known = (
      omega arith,
      All_mono (λ p. p < s.max_id) (λ p. p < suc s.max_id) s.all_processes (λ p h. omega arith)
          v.known,
    );
    distinct = (
      All-Fresh (λ p. p < s.max_id) s.max_id s.all_processes (λ q h. ground arith) v.known,
      v.distinct,
    );
    queue =
        All_mono (IsReady s) (IsReady (process_alloc s)) s.run_queue (λ p h. ground arith) v.queue;
    once = v.once;
    home = v.home;
    sleepers = λ w.
        All_mono (IsAsleep s v.home w) (IsAsleep (process_alloc s) v.home w) (s.waitq w)
          (λ p h. ground arith) (v.sleepers w);
    single = v.single;
  },
  Away-mono s.current_process s.run_queue s.max_id (suc s.max_id) (omega arith) a,
)

-- The state of the current process changes: the queue does not notice.
queue-update :
    (s : Kernel) (p : ℕ) (t : ProcessState) (xs : List ℕ)
    → Fresh p xs
    → All (IsReady s) xs
    → All (IsReady (record s { state = update s.state p t })) xs
queue-update s p t [] f h = tt
queue-update s p t (x ∷ xs) f h = (ground arith, queue-update s p t xs f.1 h.1)

-- Neither do the sleepers, since they are not ready.
IsAsleep-update :
    (s : Kernel) (p h : ℕ) (t : ProcessState) (home : ℕ → ℕ) (w q : ℕ)
    → s.state p ≡ ready
    → IsAsleep s home w q
    → IsAsleep (record s { state = update s.state p t }) (update home p h) w q
IsAsleep-update s p h t home w q r x = elim (Bool-cases (p == q)) [
  | inl e ↦ let y : p ≡ q = ground arith in absurd (ready_ne_blocked (sym r ∙ ap s.state y ∙ x.0))
  | inr e ↦ rw e x
]

pub sleep-IsScheduled :
    (s : Kernel) (p w : ℕ) → Running s p → IsScheduled s → IsScheduled (process_sleep s p w)
unfolding process_sleep
sleep-IsScheduled s p w r (v, a) =
    let c = Away-some s.current_process p s.run_queue s.max_id r.0 a in
    let s1 : Kernel = record s { state = update s.state p blocked } in
    let mono = λ (u : ℕ).
      All_mono (IsAsleep s v.home u) (IsAsleep s1 (update v.home p w) u) (s.waitq u)
        (λ q x. IsAsleep-update s p w blocked v.home u q r.1 x) (v.sleepers u) in
    (
      record {
        known = v.known;
        distinct = v.distinct;
        queue = queue-update s p blocked s.run_queue c.0 v.queue;
        once = v.once;
        home = update v.home p w;
        sleepers =
            update-each (λ u qs. All (IsAsleep s1 (update v.home p w) u) qs) s.waitq w
              (p ∷ s.waitq w) (ground arith, mono w) (λ u n. mono u);
        single =
            update-each (λ u qs. Distinct qs) s.waitq w (p ∷ s.waitq w)
              (
                All-Fresh (IsAsleep s v.home w) p (s.waitq w)
                    (λ q x e. ready_ne_blocked (sym r.1 ∙ ap s.state e ∙ x.0)) (v.sleepers w),
                v.single w,
              )
              (λ u n. v.single u);
      },
      a,
    )

wake-others :
    (s : Kernel) (p : ℕ) (home : ℕ → ℕ) (w : ℕ) (xs : List ℕ)
    → Fresh p xs
    → All (IsAsleep s home w) xs
    → All (IsAsleep (record s { state = update s.state p ready }) home w) xs
wake-others s p home w [] f h = tt
wake-others s p home w (x ∷ xs) f h = (ground arith, wake-others s p home w xs f.1 h.1)

-- The sleeper that wakes becomes ready; it was on this queue only.
wake_first-IsScheduled :
    (s : Kernel) (w : ℕ) (qs : List ℕ)
    → IsScheduled s
    → ((h : ℕ → ℕ) × ((u : ℕ) → All (IsAsleep s h u) (s.waitq u)) × All (IsAsleep s h w) qs)
    → Distinct qs
    → IsScheduled (wake_first s w qs).0
wake_first-IsScheduled s w [] (v, a) h d = (v, a)
wake_first-IsScheduled s w (p ∷ rest) (v, a) (home, all, here) d =
    let s1 : Kernel = record s { state = update s.state p ready } in
    (
      record {
        known = v.known;
        distinct = v.distinct;
        queue = All_mono (IsReady s) (IsReady s1) s.run_queue (λ q x. ground arith) v.queue;
        once = v.once;
        home = home;
        sleepers =
            update-each (λ u qs. All (IsAsleep s1 home u) qs) s.waitq w rest
              (wake-others s p home w rest d.0 here.1)
              (λ u n.
                wake-others s p home u (s.waitq u)
                  (All-Fresh (IsAsleep s home u) p (s.waitq u)
                    (λ q x e. n (sym (here.0.1) ∙ ap home e ∙ x.1)) (all u))
                  (all u));
        single = update-each (λ u qs. Distinct qs) s.waitq w rest d.1 (λ u n. v.single u);
      },
      a,
    )

pub wake-IsScheduled : (s : Kernel) (w : ℕ) → IsScheduled s → IsScheduled (process_wake s w).0
wake-IsScheduled s w (v, a) =
    wake_first-IsScheduled s w (s.waitq w) (v, a) (v.home, v.sleepers, v.sleepers w) (v.single w)

pub die-IsScheduled :
    (s : Kernel) (p status : ℕ)
    → Running s p
    → IsScheduled s
    → IsScheduled
        (record s { state = update s.state p dead; exit_status = update s.exit_status p status })
die-IsScheduled s p status r (v, a) =
    let c = Away-some s.current_process p s.run_queue s.max_id r.0 a in
    let s1 : Kernel = record s { state = update s.state p dead } in
    (
      record {
        known = v.known;
        distinct = v.distinct;
        queue = queue-update s p dead s.run_queue c.0 v.queue;
        once = v.once;
        home = update v.home p 0;
        sleepers = λ w.
            All_mono (IsAsleep s v.home w) (IsAsleep s1 (update v.home p 0) w) (s.waitq w)
              (λ q x. IsAsleep-update s p 0 dead v.home w q r.1 x) (v.sleepers w);
        single = v.single;
      },
      a,
    )

returns-some : (b : Bool) (x t : Kernel) → (if b then none else some x) ≡ some t → x ≡ t
returns-some true x t e = absurd (ground arith)
returns-some false x t e = ground arith

pub wake_each-IsScheduled :
    (s : Kernel) (w : ℕ) (qs : List ℕ)
    → s.waitq w ≡ qs
    → IsScheduled s
    → IsScheduled (wake_each s w qs)
unfolding wake_each
wake_each-IsScheduled s w [] e v = v
wake_each-IsScheduled s w (p ∷ rest) e v =
    wake_each-IsScheduled (wake_first s w (p ∷ rest)).0 w rest (ground arith)
      (subst (λ qs. IsScheduled (wake_first s w qs).0) e (wake-IsScheduled s w v))

pub release_files-IsScheduled :
    (s : Kernel) (ws : List ℕ) → IsScheduled s → IsScheduled (release_files s ws)
unfolding release_files
release_files-IsScheduled s [] v = v
release_files-IsScheduled s (w ∷ ws) v =
    release_files-IsScheduled (wake_each s w (s.waitq w)) ws
      (wake_each-IsScheduled s w (s.waitq w) refl v)

-- the process dead, with its status, and its files released
abbrev pub gone : Kernel → ℕ → ℕ → List ℕ → Kernel
gone s p status ws =
    release_files
      (record s { state = update s.state p dead; exit_status = update s.exit_status p status }) ws

pub gone-IsScheduled :
    (s : Kernel) (p status : ℕ) (ws : List ℕ)
    → Running s p
    → IsScheduled s
    → IsScheduled (gone s p status ws)
gone-IsScheduled s p status ws r v =
    release_files-IsScheduled
      (record s { state = update s.state p dead; exit_status = update s.exit_status p status }) ws
      (die-IsScheduled s p status r v)

pub process_exit-gone :
    (s : Kernel) (p status : ℕ) (ws : List ℕ) (t : Kernel)
    → process_exit s p status ws ≡ some t
    → (process_wake (gone s p status ws) child_waitq).0 ≡ t
unfolding process_exit
process_exit-gone s p status ws t e =
    returns-some (length s.all_processes == 1) (process_wake (gone s p status ws) child_waitq).0 t e

pub exit-IsScheduled :
    (s : Kernel) (p status : ℕ) (ws : List ℕ) (t : Kernel)
    → Running s p
    → process_exit s p status ws ≡ some t
    → IsScheduled s
    → IsScheduled t
exit-IsScheduled s p status ws t r e v =
    subst IsScheduled (process_exit-gone s p status ws t e)
      (wake-IsScheduled (gone s p status ws) child_waitq (gone-IsScheduled s p status ws r v))

destroy-IsScheduled :
    (s : Kernel) (p : ℕ) → s.state p ≡ dead → IsScheduled s → IsScheduled (destroy_other s p)
unfolding destroy_other
destroy-IsScheduled s p e (v, a) =
    let f =
      All-Fresh (IsReady s) p s.run_queue
        (λ q x y. ready_ne_dead (sym x.0 ∙ ap s.state (sym y) ∙ e)) v.queue in
    let g : remove p s.run_queue ≡ s.run_queue = remove-Fresh p s.run_queue f in
    (
      record {
        known = remove-All (λ q. q < s.max_id) p s.all_processes v.known;
        distinct = Distinct-remove p s.all_processes v.distinct;
        queue = remove-All (IsReady s) p s.run_queue v.queue;
        once = Distinct-remove p s.run_queue v.once;
        home = v.home;
        sleepers = v.sleepers;
        single = v.single;
      },
      rw g a,
    )

pub taken :
    (b : Bool) (q p : ℕ) (o : Option ℕ) → b ≡ true → (if b then some q else o) ≡ some p → q ≡ p
taken true q p o t e = ground arith
taken false q p o t e = absurd (ground arith)

pub passed :
    (b : Bool) (q p : ℕ) (o : Option ℕ)
    → b ≡ false
    → (if b then some q else o) ≡ some p
    → o ≡ some p
passed true q p o t e = absurd (ground arith)
passed false q p o t e = e

pub is_dead_dead : (t : ProcessState) → is_dead t ≡ true → t ≡ dead
is_dead_dead ready e = absurd (ground arith)
is_dead_dead blocked e = absurd (ground arith)
is_dead_dead dead e = refl

pub find_dead-some :
    (state : ℕ → ProcessState) (ps : List ℕ) (p : ℕ) → find_dead state ps ≡ some p → state p ≡ dead
unfolding find_dead
find_dead-some state [] p e = absurd (ground arith)
find_dead-some state (q ∷ qs) p e = elim (Bool-cases (is_dead (state q))) [
  | inl t ↦
      let x : q ≡ p = taken (is_dead (state q)) q p (find_dead state qs) t e in
      rw (sym x) (is_dead_dead (state q) t)
  | inr f ↦ find_dead-some state qs p (passed (is_dead (state q)) q p (find_dead state qs) f e)
]

-- the process that waits is not the dead one
pub reap-some :
    (s : Kernel) (c p : ℕ)
    → s.state c ≡ ready
    → s.state p ≡ dead
    → reap s c (some p) ≡ (destroy_other s p, reaped p (s.exit_status p))
unfolding reap process_destroy
reap-some s c p r d =
    let n : c ≢ p = λ e. ready_ne_dead (sym r ∙ ap s.state e ∙ d) in
    let f : (c == p) ≡ false = ground arith in rw f refl

reap-IsScheduled :
    (s : Kernel) (p : ℕ) (o : Option ℕ)
    → Running s p
    → ((q : ℕ) → o ≡ some q → s.state q ≡ dead)
    → IsScheduled s
    → IsScheduled (reap s p o).0
unfolding reap
reap-IsScheduled s p none r h v = sleep-IsScheduled s p child_waitq r v
reap-IsScheduled s p (some q) r h v =
    rw (reap-some s p q r.1 (h q refl)) (destroy-IsScheduled s q (h q refl) v)

pub wait-IsScheduled :
    (s : Kernel) (p : ℕ) → Running s p → IsScheduled s → IsScheduled (process_wait s p).0
unfolding process_wait
wait-IsScheduled s p r v = elim (Bool-cases (is_empty (s.children p))) [
  | inl t ↦ rw t v
  | inr f ↦ rw f (
      reap-IsScheduled s p (find_dead s.state (s.children p)) r
        (λ q e. find_dead-some s.state (s.children p) q e) v)
]

dequeue-IsScheduled :
    (s : Kernel) (queue : List ℕ)
    → IsQueued s
    → All (IsReady s) queue
    → Distinct queue
    → IsScheduled (dequeue_first s queue)
dequeue-IsScheduled s [] v h d = (
  record {
    known = v.known;
    distinct = v.distinct;
    queue = v.queue;
    once = v.once;
    home = v.home;
    sleepers = v.sleepers;
    single = v.single;
  },
  tt,
)
dequeue-IsScheduled s (p ∷ rest) v h d = (
  record {
    known = v.known;
    distinct = v.distinct;
    queue = h.1;
    once = d.1;
    home = v.home;
    sleepers = v.sleepers;
    single = v.single;
  },
  (d.0, h.0.1),
)

pub schedule-IsQueued : (s : Kernel) → IsQueued s → s.run_queue ≡ [] → IsQueued (process_schedule s)
unfolding process_schedule
schedule-IsQueued s v e =
    let h =
      schedule_loop-All (λ p. p < s.max_id) (IsReady s) s.state s.all_processes [] (λ p l r. (r, l))
        v.known tt in
    let d =
      schedule_loop-Distinct s.state s.all_processes [] v.distinct tt (Apart-nil s.all_processes) in
    record {
      known = v.known;
      distinct = v.distinct;
      queue = rw e h;
      once = rw e d;
      home = v.home;
      sleepers = v.sleepers;
      single = v.single;
    }

pub is_empty_iff : (xs : List ℕ) → (is_empty xs ≡ true) ↔ (xs ≡ [])
is_empty_iff [] = (λ _. refl, λ _. refl)
is_empty_iff (x ∷ xs) = (λ e. absurd (ground arith), λ e. absurd (ground arith))

pub switch-IsScheduled : (s : Kernel) → IsQueued s → IsScheduled (process_switch s)
unfolding process_switch
switch-IsScheduled s v = elim (Bool-cases (is_empty s.run_queue)) [
  | inl t ↦
      let s1 : Kernel = process_schedule s in
      let w : IsQueued s1 = schedule-IsQueued s v ((is_empty_iff s.run_queue).0 t) in
      rw t (dequeue-IsScheduled s1 s1.run_queue w w.queue w.once)
  | inr f ↦ rw f (dequeue-IsScheduled s s.run_queue v v.queue v.once)
]
