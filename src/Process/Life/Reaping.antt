-- ===== src/Process/Life/Reaping.antt =====
-- What process_wait and the end of a child do: src/kernel/process.c.
use mathlib.Core.Path.{subst}
use cyanurus.Base.{
  Elem, All-Elem, ℕ, suc, ◌<◌, ◌≡◌, ◌≢◌, inl, inr, refl, sym, ap, ◌∙◌, Option, none, some, Bool,
  true, false, Bool-cases, List, [], ◌∷◌, ◌==◌, if◌then◌else◌, arith, update, update-each, All,
  All_mono, All_zip, ==_refl, Fresh, Distinct,
}
use cyanurus.Process.Life.{
  ProcessState, ready, blocked, dead, Kernel, child_waitq, is_dead, is_empty, remove, process_alloc,
  process_create, process_fork, process_switch, process_schedule, dequeue_first, process_sleep,
  wake_first, process_exit, destroy_other, halted, wake_each, release_files, find_dead, WaitResult,
  no_child, reaped, asleep, process_wait, reap,
}
use cyanurus.Process.Life.Sound.{IsQueued, IsScheduled, Running, All-Fresh}
use cyanurus.Process.Life.Kept.{
  Away-some, is_empty_iff, find_dead-some, taken, passed, ready_ne_dead, process_exit-gone, gone,
  reap-some,
}
use cyanurus.Process.Life.Steps.{
  Work, creates, forks, sleeps, wakes, exits, waits, Turns, here, work, switch, Turns-IsScheduled,
}
use cyanurus.Process.Life.Family.{
  Kin, IsFamily, TopLevel, Left, remove-Elem, remove-gone, Kin-remove, bequeath-Left, IsHome,
  destroy-IsHome,
}

-- Listed children are those of their parent, there is a top-level process, and every process is on
-- the list of its parent or is its own parent.
abbrev pub IsTree : Kernel → Type 0
IsTree s =
    IsFamily s
    × ((t : ℕ) × TopLevel s t)
    × All (IsHome s.max_id s.parent s.children) s.all_processes

destroy-Left :
    (s : Kernel) (p c : ℕ)
    → IsFamily s
    → Elem p (s.children c)
    → p ≢ c
    → ((t : ℕ) × TopLevel s t)
    → let r = destroy_other s p in Left r.max_id r.all_processes p (r.parent, r.children)
unfolding destroy_other
destroy-Left s p c k m d (t, (e, i)) =
    let w : (s.parent p ≡ c) × (p < s.max_id) =
      All-Elem (λ x. (s.parent x ≡ c) × (x < s.max_id)) p (s.children c) (k.child c) m in
    let s1 : Kernel = record s {
      run_queue = remove p s.run_queue;
      all_processes = remove p s.all_processes;
      children = λ q. remove p (s.children q);
    } in
    let n : p ≢ t = λ x. d (x ∙ sym e ∙ ap s.parent (sym x) ∙ w.0) in
    bequeath-Left s1 p t (Kin-remove s.max_id s.parent s.children p k)
      (λ q. remove-gone p (s.children q) (k.once q)) (e, remove-Elem p t s.all_processes n i)
      (λ x. d (sym x ∙ w.0))

-- `p`, a child of `c`, goes; every other process stays on the list of its parent.
destroy-Homes :
    (s : Kernel) (p c : ℕ)
    → IsQueued s
    → IsTree s
    → Elem p (s.children c)
    → p ≢ c
    → let r = destroy_other s p in All (IsHome r.max_id r.parent r.children) r.all_processes
destroy-Homes s p c v (k, (t, (e, i)), l) m d =
    let w : (s.parent p ≡ c) × (p < s.max_id) =
      All-Elem (λ x. (s.parent x ≡ c) × (x < s.max_id)) p (s.children c) (k.child c) m in
    destroy-IsHome s p t k (e, i) (λ x. d (x ∙ sym e ∙ ap s.parent (sym x) ∙ w.0))
      (λ x. d (sym x ∙ w.0)) v.known v.distinct l

-- The children of `c` that process_wait looks for.
find_dead-Elem :
    (state : ℕ → ProcessState) (ps : List ℕ) (p : ℕ) → find_dead state ps ≡ some p → Elem p ps
unfolding find_dead
find_dead-Elem state [] p e = ground arith
find_dead-Elem state (q ∷ qs) p e = elim (Bool-cases (is_dead (state q))) [
  | inl t ↦ inl (sym (taken (is_dead (state q)) q p (find_dead state qs) t e))
  | inr f ↦
      inr (find_dead-Elem state qs p (passed (is_dead (state q)) q p (find_dead state qs) f e))
]

dead_is_dead : (t : ProcessState) → is_dead t ≡ false → t ≢ dead
dead_is_dead t f e = let g : is_dead t ≡ true = ap is_dead e in ground arith

none_left :
    (b : Bool) (q : ℕ) (o : Option ℕ) → (if b then some q else o) ≡ none → (b ≡ false) × (o ≡ none)
none_left true q o e = absurd (ground arith)
none_left false q o e = (refl, e)

find_dead-none :
    (state : ℕ → ProcessState) (ps : List ℕ)
    → find_dead state ps ≡ none
    → All (λ p. state p ≢ dead) ps
unfolding find_dead
find_dead-none state [] e = tt
find_dead-none state (q ∷ qs) e =
    let r = none_left (is_dead (state q)) q (find_dead state qs) e in
    (dead_is_dead (state q) r.0, find_dead-none state qs r.1)

-- what process_wait does for the process `c`, by its result
abbrev pub WaitOutcome : Kernel → ℕ → Kernel × WaitResult → Type 0
WaitOutcome s c (t, no_child) = (s.children c ≡ []) × (t ≡ s)
WaitOutcome s c (t, reaped p status) =
    (Elem p (s.children c) × (s.state p ≡ dead) × (status ≡ s.exit_status p))
    × IsTree t
    × Fresh p t.all_processes
    × ((q : ℕ) → p ≢ q → Elem q s.all_processes → Elem q t.all_processes)
    × Fresh p t.run_queue
    × ((q : ℕ) → Fresh p (t.children q))
WaitOutcome s c (t, halted) = ⊥
WaitOutcome s c (t, asleep) =
    All (λ p. s.state p ≢ dead) (s.children c)
    × (s.children c ≢ [])
    × (t.state c ≡ blocked)
    × (t.waitq child_waitq ≡ c ∷ s.waitq child_waitq)

reap-Outcome :
    (s : Kernel) (c : ℕ) (o : Option ℕ)
    → IsScheduled s
    → IsTree s
    → s.state c ≡ ready
    → s.children c ≢ []
    → find_dead s.state (s.children c) ≡ o
    → WaitOutcome s c (reap s c o)
unfolding reap process_sleep destroy_other
reap-Outcome s c none v k r n e =
    (find_dead-none s.state (s.children c) e, n, ground arith, ground arith)
reap-Outcome s c (some p) v (k, m, l) r n e =
    let i = find_dead-Elem s.state (s.children c) p e in
    let d = find_dead-some s.state (s.children c) p e in
    let x : p ≢ c = λ x. ready_ne_dead (sym r ∙ ap s.state (sym x) ∙ d) in
    let w = destroy-Left s p c k i x m in
    let (u, g, h) = w.2 in
    rw (reap-some s c p r d) (
      (i, d, refl),
      (w.0, (u, (g, h)), destroy-Homes s p c v.0 (k, m, l) i x),
      remove-gone p s.all_processes v.0.distinct,
      (λ q y z. remove-Elem p q s.all_processes y z),
      remove-gone p s.run_queue v.0.once,
      w.1,
    )

-- process_wait of the running process `c`, by its result: without children it fails and changes
-- nothing; a child that is dead is taken off the list of processes, the run queue and every list of
-- children, no other process is taken off the first, the tree of processes is still in order, and its
-- exit status is the one returned; the SYSTEM_BUG_ON of process_destroy does not fire;
-- else `c` is blocked and the first to be woken when a process exits.
pub process_wait-Outcome :
    (s : Kernel) (c : ℕ)
    → IsScheduled s
    → IsTree s
    → Running s c
    → WaitOutcome s c (process_wait s c)
unfolding process_wait
process_wait-Outcome s c v k r = elim (Bool-cases (is_empty (s.children c))) [
  | inl t ↦ rw t ((is_empty_iff (s.children c)).0 t, refl)
  | inr f ↦ rw f (
      reap-Outcome s c (find_dead s.state (s.children c)) v k r.1
        (λ x. let y = (is_empty_iff (s.children c)).1 x in ground arith) refl)
]

-- a process just allocated, with the parent `p`, and on no list
Kin-new :
    (n : ℕ) (parent : ℕ → ℕ) (children : ℕ → List ℕ) (p : ℕ)
    → Kin n parent children
    → Kin (suc n) (update (update parent n 0) n p) (update children n [])
Kin-new n parent children p k =
    let P = λ (q c : ℕ). (update (update parent n 0) n p c ≡ q) × (c < suc n) in
    record {
      child =
          update-each (λ q xs. All (P q) xs) children n [] tt
            (λ q e.
              All_mono (λ c. (parent c ≡ q) × (c < n)) (P q) (children q) (λ c h. ground arith)
                (k.child q));
      once = update-each (λ q xs. Distinct xs) children n [] tt (λ q e. k.once q);
    }

-- It is put on its parent's list.
Kin-cons :
    (n : ℕ) (parent : ℕ → ℕ) (children : ℕ → List ℕ) (p c : ℕ)
    → parent c ≡ p
    → c < n
    → Fresh c (children p)
    → Kin n parent children
    → Kin n parent (update children p (c ∷ children p))
Kin-cons n parent children p c e l f k = record {
  child =
      update-each (λ q xs. All (λ d. (parent d ≡ q) × (d < n)) xs) children p (c ∷ children p)
        ((e, l), k.child p) (λ q g. k.child q);
  once =
      update-each (λ q xs. Distinct xs) children p (c ∷ children p) (f, k.once p) (λ q g. k.once q);
}

top-new :
    (s : Kernel) (p t : ℕ)
    → IsQueued s
    → TopLevel s t
    → update (update s.parent s.max_id 0) s.max_id p t ≡ t
top-new s p t v m =
    let l : t < s.max_id = All-Elem (λ q. q < s.max_id) t s.all_processes v.known m.1 in
    ground arith

-- An older process and its parent are not the new one.
older :
    (s : Kernel) (p c : ℕ)
    → c < s.max_id
    → IsHome s.max_id s.parent s.children c
    → (update (update s.parent s.max_id 0) s.max_id p c ≡ s.parent c)
      × (update s.children s.max_id [] (s.parent c) ≡ s.children (s.parent c))
older s p c l (h, m) =
    let f : (s.max_id == c) ≡ false = ground arith in
    let g : (s.max_id == s.parent c) ≡ false = ground arith in (rw f refl, rw g refl)

fork-IsHome :
    (s : Kernel) (p c : ℕ)
    → c < s.max_id
    → IsHome s.max_id s.parent s.children c
    → IsHome
        (suc s.max_id)
        (update (update s.parent s.max_id 0) s.max_id p)
        (update (update s.children s.max_id []) p (s.max_id ∷ update s.children s.max_id [] p))
        c
fork-IsHome s p c l (h, m) =
    let o = older s p c l (h, m) in
    let same = update s.children s.max_id [] in
    rw o.0 (
      omega arith,
      elim m [
        | inl z ↦ inl z
        | inr z ↦ inr (
            update-each (λ q xs. Elem c (same q) → Elem c xs) same p (s.max_id ∷ same p)
              (λ y. inr y) (λ q n y. y) (s.parent c) (subst (Elem c) (sym o.1) z))
      ],
    )

create-IsHome :
    (s : Kernel) (c : ℕ)
    → c < s.max_id
    → IsHome s.max_id s.parent s.children c
    → IsHome
        (suc s.max_id)
        (update (update s.parent s.max_id 0) s.max_id s.max_id)
        (update s.children s.max_id [])
        c
create-IsHome s c l (h, m) =
    let o = older s s.max_id c l (h, m) in
    rw o.0 (omega arith, elim m [ inl z ↦ inl z | inr z ↦ inr (subst (Elem c) (sym o.1) z) ])

fork-IsTree :
    (s : Kernel) (p : ℕ) → IsQueued s → p < s.max_id → IsTree s → IsTree (process_fork s p).0
unfolding process_fork process_alloc
fork-IsTree s p v l (k, (t, m), homes) =
    let n = s.max_id in
    let new = Kin-new n s.parent s.children p k in
    let f : update s.children n [] p ≡ s.children p = ground arith in
    let g : Fresh n (s.children p) =
      All-Fresh (λ c. (s.parent c ≡ p) × (c < n)) n (s.children p) (λ q x y. ground arith)
        (k.child p) in
    (
      Kin-cons (suc n) (update (update s.parent n 0) n p) (update s.children n []) p n
          (ground arith) (omega arith) (rw f g) new,
      (t, (top-new s p t v m, inr m.1)),
      (
        (rw (==_refl n) (ground arith, inr (rw (==_refl p) (inl refl)))),
        All_mono (λ c. (c < n) × IsHome n s.parent s.children c)
            (IsHome (suc n) (update (update s.parent n 0) n p)
              (update (update s.children n []) p (n ∷ update s.children n [] p)))
            s.all_processes (λ c h. fork-IsHome s p c h.0 h.1)
            (All_zip (λ c. c < n) (IsHome n s.parent s.children) s.all_processes v.known homes),
      ),
    )

create-IsTree : (s : Kernel) → IsQueued s → IsTree s → IsTree (process_create s).0
unfolding process_create process_alloc
create-IsTree s v (k, (t, m), homes) =
    let n = s.max_id in
    (
      Kin-new n s.parent s.children n k,
      (t, (top-new s n t v m, inr m.1)),
      (
        (rw (==_refl n) (ground arith, inl refl)),
        All_mono (λ c. (c < n) × IsHome n s.parent s.children c)
            (IsHome (suc n) (update (update s.parent n 0) n n) (update s.children n []))
            s.all_processes (λ c h. create-IsHome s c h.0 h.1)
            (All_zip (λ c. c < n) (IsHome n s.parent s.children) s.all_processes v.known homes),
      ),
    )

wake_first-IsTree : (s : Kernel) (w : ℕ) (qs : List ℕ) → IsTree s → IsTree (wake_first s w qs).0
wake_first-IsTree s w [] k = k
wake_first-IsTree s w (p ∷ rest) k = k

dequeue-IsTree : (s : Kernel) (qs : List ℕ) → IsTree s → IsTree (dequeue_first s qs)
dequeue-IsTree s [] k = k
dequeue-IsTree s (p ∷ rest) k = k

switch-IsTree : (s : Kernel) → IsTree s → IsTree (process_switch s)
unfolding process_switch process_schedule
switch-IsTree s k = elim (Bool-cases (is_empty s.run_queue)) [
  | inl t ↦ rw t (dequeue-IsTree (process_schedule s) (process_schedule s).run_queue k)
  | inr f ↦ rw f (dequeue-IsTree s s.run_queue k)
]

wake_each-IsTree : (s : Kernel) (w : ℕ) (qs : List ℕ) → IsTree s → IsTree (wake_each s w qs)
unfolding wake_each
wake_each-IsTree s w [] k = k
wake_each-IsTree s w (p ∷ rest) k =
    wake_each-IsTree (wake_first s w (p ∷ rest)).0 w rest (wake_first-IsTree s w (p ∷ rest) k)

release_files-IsTree : (s : Kernel) (ws : List ℕ) → IsTree s → IsTree (release_files s ws)
unfolding release_files
release_files-IsTree s [] k = k
release_files-IsTree s (w ∷ ws) k =
    release_files-IsTree (wake_each s w (s.waitq w)) ws (wake_each-IsTree s w (s.waitq w) k)

exit-IsTree :
    (s : Kernel) (p status : ℕ) (ws : List ℕ) (t : Kernel)
    → process_exit s p status ws ≡ some t
    → IsTree s
    → IsTree t
exit-IsTree s p status ws t e k =
    let g = gone s p status ws in
    let s1 : Kernel = record s {
      state = update s.state p dead;
      exit_status = update s.exit_status p status;
    } in
    subst IsTree (process_exit-gone s p status ws t e)
      (wake_first-IsTree g child_waitq (g.waitq child_waitq) (release_files-IsTree s1 ws k))

reap-IsTree :
    (s : Kernel) (c : ℕ) (o : Option ℕ)
    → IsQueued s
    → IsTree s
    → s.state c ≡ ready
    → find_dead s.state (s.children c) ≡ o
    → IsTree (reap s c o).0
unfolding reap process_sleep
reap-IsTree s c none v k r e = k
reap-IsTree s c (some p) v (k, m, l) r e =
    let i = find_dead-Elem s.state (s.children c) p e in
    let d = find_dead-some s.state (s.children c) p e in
    let n : p ≢ c = λ x. ready_ne_dead (sym r ∙ ap s.state (sym x) ∙ d) in
    let w = destroy-Left s p c k i n m in
    let (u, g, h) = w.2 in
    rw (reap-some s c p r d) (w.0, (u, (g, h)), destroy-Homes s p c v (k, m, l) i n)

wait-IsTree :
    (s : Kernel) (c : ℕ) → IsQueued s → s.state c ≡ ready → IsTree s → IsTree (process_wait s c).0
unfolding process_wait
wait-IsTree s c v r k = elim (Bool-cases (is_empty (s.children c))) [
  | inl t ↦ rw t k
  | inr f ↦ rw f (reap-IsTree s c (find_dead s.state (s.children c)) v k r refl)
]

Work-IsTree : {s t : Kernel} → Work s t → IsScheduled s → IsTree s → IsTree t
unfolding process_sleep
Work-IsTree (creates s) v k = create-IsTree s v.0 k
Work-IsTree (forks s p r) v k =
    fork-IsTree s p v.0 (Away-some s.current_process p s.run_queue s.max_id r.0 v.1).1 k
Work-IsTree (sleeps s p w r) v k = k
Work-IsTree (wakes s w) v k = wake_first-IsTree s w (s.waitq w) k
Work-IsTree (exits s p status ws {t} r e) v k = exit-IsTree s p status ws t e k
Work-IsTree (waits s p r) v k = wait-IsTree s p v.0 r.1 k

-- Whatever processes do after the first one is created, every process is on the list of its parent or
-- is its own parent, a list of children has only those of that parent, each once, and there is a
-- process that takes the children of those that go.
pub Turns-IsTree :
    {s : Kernel} {n : ℕ} {t : Kernel} → IsScheduled s → IsTree s → Turns s n t → IsTree t
Turns-IsTree v k here = k
Turns-IsTree v k (work r w) = Work-IsTree w (Turns-IsScheduled v r) (Turns-IsTree v k r)
Turns-IsTree v k (switch {t = t} r) = switch-IsTree t (Turns-IsTree v k r)
