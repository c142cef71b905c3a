-- ===== src/Process/Life/Sound.antt =====
-- The scheduler's invariant, kept by every operation of src/kernel/process.c that touches it.
pub use cyanurus.Base.{All-Fresh}
use cyanurus.Base.{
  ℕ, ◌<◌, ◌≡◌, inl, inr, refl, sym, Option, none, some, true, false, Bool-cases, List, [], ◌∷◌,
  ◌==◌, arith, All, Fresh, Distinct, Apart, ◌↔◌,
}
use cyanurus.Process.Life.{
  ProcessState, ready, blocked, dead, Kernel, is_ready, remove, schedule_loop,
}

-- the current process, if any, is not on the queue
abbrev pub Away : Option ℕ → List ℕ → ℕ → Type 0
Away none queue n = Unit
Away (some p) queue n = Fresh p queue × (p < n)

abbrev pub IsReady : Kernel → ℕ → Type 0
IsReady s p = (s.state p ≡ ready) × (p < s.max_id)

-- `p` sleeps, and on the queue `w` only
abbrev pub IsAsleep : Kernel → (ℕ → ℕ) → ℕ → ℕ → Type 0
IsAsleep s home w p = (s.state p ≡ blocked) × (home p ≡ w) × (p < s.max_id)

-- Between two operations, whoever runs.
pub record IsQueued (s : Kernel) : Type 0 where
  pub known : All (λ p. p < s.max_id) s.all_processes
  pub distinct : Distinct s.all_processes
  pub queue : All (IsReady s) s.run_queue
  pub once : Distinct s.run_queue
  pub home : ℕ → ℕ
  pub sleepers : (w : ℕ) → All (IsAsleep s home w) (s.waitq w)
  pub single : (w : ℕ) → Distinct (s.waitq w)

abbrev pub IsScheduled : Kernel → Type 0
IsScheduled s = IsQueued s × Away s.current_process s.run_queue s.max_id

-- The current process runs: it is ready.
abbrev pub Running : Kernel → ℕ → Type 0
Running s p = (s.current_process ≡ some p) × (s.state p ≡ ready)

pub remove-Fresh : (p : ℕ) (xs : List ℕ) → Fresh p xs → remove p xs ≡ xs
remove-Fresh p [] h = refl
remove-Fresh p (x ∷ xs) h =
    let e : (p == x) ≡ false = ground arith in rw (e, remove-Fresh p xs h.1) refl

pub remove-All : (P : ℕ → Type 0) (p : ℕ) (xs : List ℕ) → All P xs → All P (remove p xs)
remove-All P p [] h = tt
remove-All P p (x ∷ xs) h = elim (Bool-cases (p == x)) [
  | inl t ↦ rw t h.1
  | inr f ↦ rw f (h.0, remove-All P p xs h.1)
]

Fresh-remove : (a p : ℕ) (xs : List ℕ) → Fresh a xs → Fresh a (remove p xs)
Fresh-remove a p [] h = tt
Fresh-remove a p (x ∷ xs) h = elim (Bool-cases (p == x)) [
  | inl t ↦ rw t h.1
  | inr f ↦ rw f (h.0, Fresh-remove a p xs h.1)
]

pub Distinct-remove : (p : ℕ) (xs : List ℕ) → Distinct xs → Distinct (remove p xs)
Distinct-remove p [] h = tt
Distinct-remove p (x ∷ xs) h = elim (Bool-cases (p == x)) [
  | inl t ↦ rw t h.1
  | inr f ↦ rw f (Fresh-remove x p xs h.0, Distinct-remove p xs h.1)
]

Apart-cons : (p : ℕ) (ps queue : List ℕ) → Fresh p ps → Apart ps queue → Apart ps (p ∷ queue)
Apart-cons p [] queue h k = tt
Apart-cons p (x ∷ xs) queue h k = (((λ e. h.0 (sym e)), k.0), Apart-cons p xs queue h.1 k.1)

pub Apart-nil : (ps : List ℕ) → Apart ps []
Apart-nil [] = tt
Apart-nil (p ∷ ps) = (tt, Apart-nil ps)

pub is_ready_iff : (t : ProcessState) → (is_ready t ≡ true) ↔ (t ≡ ready)
is_ready_iff ready = ((λ _. refl), (λ _. refl))
is_ready_iff blocked = ((λ e. absurd (ground arith)), (λ e. absurd (ground arith)))
is_ready_iff dead = ((λ e. absurd (ground arith)), (λ e. absurd (ground arith)))

-- What the scheduler puts on the queue: every ready process, once.
pub schedule_loop-All :
    (Q P : ℕ → Type 0) (state : ℕ → ProcessState) (ps queue : List ℕ)
    → ((p : ℕ) → Q p → state p ≡ ready → P p)
    → All Q ps
    → All P queue
    → All P (schedule_loop state ps queue)
unfolding schedule_loop
schedule_loop-All Q P state [] queue h q k = k
schedule_loop-All Q P state (p ∷ ps) queue h q k = elim (Bool-cases (is_ready (state p))) [
  | inl t ↦
      rw t (
        schedule_loop-All Q P state ps (p ∷ queue) h q.1
          (h p q.0 ((is_ready_iff (state p)).0 t), k))
  | inr f ↦ rw f (schedule_loop-All Q P state ps queue h q.1 k)
]

pub schedule_loop-Distinct :
    (state : ℕ → ProcessState) (ps queue : List ℕ)
    → Distinct ps
    → Distinct queue
    → Apart ps queue
    → Distinct (schedule_loop state ps queue)
unfolding schedule_loop
schedule_loop-Distinct state [] queue h k a = k
schedule_loop-Distinct state (p ∷ ps) queue h k a = elim (Bool-cases (is_ready (state p))) [
  | inl t ↦
      rw t
        (schedule_loop-Distinct state ps (p ∷ queue) h.1 (a.0, k) (Apart-cons p ps queue h.0 a.1))
  | inr f ↦ rw f (schedule_loop-Distinct state ps queue h.1 k a.1)
]
