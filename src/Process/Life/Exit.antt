-- ===== src/Process/Life/Exit.antt =====
-- Whom process_exit of src/kernel/process.c wakes.
use mathlib.Core.Path.{subst}
use cyanurus.Base.{
  ℕ, ◌≡◌, ◌≢◌, inl, inr, refl, sym, ap, ◌∙◌, some, Bool, true, false, Bool-cases, List, [], ◌∷◌,
  ◌==◌, if◌then◌else◌, arith, update, All, All_mono, All-Fresh, Fresh, Distinct,
}
use cyanurus.Process.Life.{
  ready, blocked, dead, Kernel, child_waitq, wake_first, process_exit, wake_each, release_files,
}
use cyanurus.Process.Life.Sound.{IsAsleep, IsScheduled, Running}
use cyanurus.Process.Life.Kept.{
  ready_ne_blocked, process_exit-gone, gone, gone-IsScheduled, wake_each-IsScheduled,
  die-IsScheduled,
}

-- After the exit, of the sleepers `qs` on child_waitq: the first is ready, the others still wait.
abbrev pub Woken : List ℕ → Kernel → Type 0
Woken [] t = t.waitq child_waitq ≡ []
Woken (q ∷ qs) t =
    (t.state q ≡ ready) × (t.waitq child_waitq ≡ qs) × All (λ r. t.state r ≡ blocked) qs

blocked_ne_dead : blocked ≢ dead
blocked_ne_dead e = ground arith

-- what the wakes of one queue leave of the queues and of the others
wake_each-waitq :
    (s : Kernel) (w : ℕ) (qs : List ℕ) (u : ℕ)
    → s.waitq w ≡ qs
    → (wake_each s w qs).waitq u ≡ (if w == u then [] else s.waitq u)
unfolding wake_each
wake_each-waitq s w [] u e = elim (Bool-cases (w == u)) [
  | inl t ↦ let x : w ≡ u = ground arith in rw t (ap s.waitq (sym x) ∙ e)
  | inr f ↦ rw f refl
]
wake_each-waitq s w (p ∷ rest) u e =
    wake_each-waitq (wake_first s w (p ∷ rest)).0 w rest u (ground arith) ∙ ground arith

wake_each-other :
    (s : Kernel) (w : ℕ) (qs : List ℕ) (r : ℕ) → Fresh r qs → (wake_each s w qs).state r ≡ s.state r
unfolding wake_each
wake_each-other s w [] r f = refl
wake_each-other s w (p ∷ rest) r f =
    wake_each-other (wake_first s w (p ∷ rest)).0 w rest r f.1 ∙ ground arith

wake_each-ready :
    (s : Kernel) (w : ℕ) (qs : List ℕ)
    → Distinct qs
    → All (λ q. (wake_each s w qs).state q ≡ ready) qs
unfolding wake_each
wake_each-ready s w [] d = tt
wake_each-ready s w (p ∷ rest) d = (
  wake_each-other (wake_first s w (p ∷ rest)).0 w rest p d.0 ∙ ground arith,
  wake_each-ready (wake_first s w (p ∷ rest)).0 w rest d.1,
)

wake_each-status :
    (s : Kernel) (w : ℕ) (qs : List ℕ) → (wake_each s w qs).exit_status ≡ s.exit_status
unfolding wake_each
wake_each-status s w [] = refl
wake_each-status s w (p ∷ rest) = wake_each-status (wake_first s w (p ∷ rest)).0 w rest

release_files-status : (s : Kernel) (ws : List ℕ) → (release_files s ws).exit_status ≡ s.exit_status
unfolding release_files
release_files-status s [] = refl
release_files-status s (w ∷ ws) =
    release_files-status (wake_each s w (s.waitq w)) ws ∙ wake_each-status s w (s.waitq w)

-- who is not blocked is on no queue
awake-Fresh : (s : Kernel) (r w : ℕ) → IsScheduled s → s.state r ≢ blocked → Fresh r (s.waitq w)
awake-Fresh s r w v n =
    All-Fresh (IsAsleep s v.0.home w) r (s.waitq w) (λ q x e. n (ap s.state e ∙ x.0))
      (v.0.sleepers w)

release_files-awake :
    (s : Kernel) (ws : List ℕ) (r : ℕ)
    → IsScheduled s
    → s.state r ≢ blocked
    → (release_files s ws).state r ≡ s.state r
unfolding release_files
release_files-awake s [] r v n = refl
release_files-awake s (w ∷ ws) r v n =
    let e = wake_each-other s w (s.waitq w) r (awake-Fresh s r w v n) in
    release_files-awake (wake_each s w (s.waitq w)) ws r
      (wake_each-IsScheduled s w (s.waitq w) refl v) (λ b. n (sym e ∙ b))
    ∙ e

-- who sleeps on none of the queues, or not at all
abbrev IsApart : Kernel → List ℕ → ℕ → Type 0
IsApart s ws r = All (λ w. Fresh r (s.waitq w)) ws

still-IsApart :
    (s : Kernel) (w r : ℕ) (ws : List ℕ) → IsApart s ws r → IsApart (wake_each s w (s.waitq w)) ws r
still-IsApart s w r ws h =
    All_mono (λ u. Fresh r (s.waitq u)) (λ u. Fresh r ((wake_each s w (s.waitq w)).waitq u)) ws
      (λ u f. subst (Fresh r) (sym (wake_each-waitq s w (s.waitq w) u refl)) (either (w == u) u f))
      h
  where
    either : (b : Bool) (u : ℕ) → Fresh r (s.waitq u) → Fresh r (if b then [] else s.waitq u)
    either true u f = tt
    either false u f = f

release_files-apart :
    (s : Kernel) (ws : List ℕ) (r : ℕ) → IsApart s ws r → (release_files s ws).state r ≡ s.state r
unfolding release_files
release_files-apart s [] r h = refl
release_files-apart s (w ∷ ws) r h =
    release_files-apart (wake_each s w (s.waitq w)) ws r (still-IsApart s w r ws h.1)
    ∙ wake_each-other s w (s.waitq w) r h.0

release_files-waitq :
    (s : Kernel) (ws : List ℕ) (u : ℕ) → Fresh u ws → (release_files s ws).waitq u ≡ s.waitq u
unfolding release_files
release_files-waitq s [] u f = refl
release_files-waitq s (w ∷ ws) u f =
    let n : (w == u) ≡ false = ground arith in
    release_files-waitq (wake_each s w (s.waitq w)) ws u f.1
    ∙ (wake_each-waitq s w (s.waitq w) u refl ∙ rw n refl)

release_files-ready :
    (s : Kernel) (ws : List ℕ)
    → IsScheduled s
    → All (λ w. All (λ q. (release_files s ws).state q ≡ ready) (s.waitq w)) ws
unfolding release_files
release_files-ready s [] v = tt
release_files-ready s (w ∷ ws) v = (
  here,
  All_mono (λ u. All (λ q. (release_files s' ws).state q ≡ ready) (s'.waitq u))
      (λ u. All (λ q. (release_files s' ws).state q ≡ ready) (s.waitq u)) ws
      (λ u h. elim (Bool-cases (w == u)) [
        | inl t ↦
            let e : w ≡ u = ground arith in
            subst (λ z. All (λ q. (release_files s' ws).state q ≡ ready) (s.waitq z)) e here
        | inr f ↦
            subst (All (λ q. (release_files s' ws).state q ≡ ready))
              (wake_each-waitq s w (s.waitq w) u refl ∙ rw f refl) h
      ])
      (release_files-ready s' ws v'),
)
  where
    s' : Kernel
    s' = wake_each s w (s.waitq w)

    v' : IsScheduled s'
    v' = wake_each-IsScheduled s w (s.waitq w) refl v

    here : All (λ q. (release_files s' ws).state q ≡ ready) (s.waitq w)
    here =
        All_mono (λ q. s'.state q ≡ ready) (λ q. (release_files s' ws).state q ≡ ready) (s.waitq w)
          (λ q e. release_files-awake s' ws q v' (λ b. ready_ne_blocked (sym e ∙ b)) ∙ e)
          (wake_each-ready s w (s.waitq w) (v.0.single w))

still :
    (s : Kernel) (q : ℕ) (qs : List ℕ)
    → Fresh q qs
    → All (λ r. s.state r ≡ blocked) qs
    → All (λ r. update s.state q ready r ≡ blocked) qs
still s q [] f h = tt
still s q (r ∷ rs) f h = (ground arith, still s q rs f.1 h.1)

wake_first-Woken :
    (s : Kernel) (p : ℕ) (qs : List ℕ)
    → s.state p ≡ dead
    → s.waitq child_waitq ≡ qs
    → All (λ q. s.state q ≡ blocked) qs
    → Distinct qs
    → ((wake_first s child_waitq qs).0.state p ≡ dead)
      × ((wake_first s child_waitq qs).0.exit_status ≡ s.exit_status)
      × Woken qs (wake_first s child_waitq qs).0
wake_first-Woken s p [] d e h u = (d, refl, e)
wake_first-Woken s p (q ∷ qs) d e h u =
    let n : q ≢ p = λ x. blocked_ne_dead (sym h.0 ∙ ap s.state x ∙ d) in
    (ground arith, refl, (ground arith, ground arith, still s q qs u.0 h.1))

wake_first-ready :
    (s : Kernel) (w : ℕ) (qs : List ℕ) (r : ℕ)
    → s.state r ≡ ready
    → (wake_first s w qs).0.state r ≡ ready
wake_first-ready s w [] r e = e
wake_first-ready s w (q ∷ qs) r e = ground arith

wake_first-other :
    (s : Kernel) (w : ℕ) (qs : List ℕ) (r : ℕ)
    → Fresh r qs
    → (wake_first s w qs).0.state r ≡ s.state r
wake_first-other s w [] r f = refl
wake_first-other s w (q ∷ qs) r f = ground arith

-- what the exit of `p` with the release of pipes whose queues are `ws` leaves
abbrev pub Exited : Kernel → ℕ → ℕ → List ℕ → Kernel → Type 0
Exited s p status ws t =
    (t.state p ≡ dead)
    × (t.exit_status p ≡ status)
    × Woken (s.waitq child_waitq) t
    × All (λ w. All (λ q. t.state q ≡ ready) (s.waitq w)) ws
    × ((r : ℕ) → r ≢ p → Fresh r (s.waitq child_waitq) → IsApart s ws r → t.state r ≡ s.state r)

gone-Exited :
    (s : Kernel) (p status : ℕ) (ws : List ℕ)
    → IsScheduled s
    → Running s p
    → Fresh child_waitq ws
    → Exited s p status ws (wake_first (gone s p status ws) child_waitq (s.waitq child_waitq)).0
gone-Exited s p status ws v r f =
    let s1 : Kernel = record s {
      state = update s.state p dead;
      exit_status = update s.exit_status p status;
    } in
    let s2 = gone s p status ws in
    let qs = s.waitq child_waitq in
    let v1 = die-IsScheduled s p status r v in
    let v2 = gone-IsScheduled s p status ws r v in
    let e : s2.waitq child_waitq ≡ qs = release_files-waitq s1 ws child_waitq f in
    let h : All (λ q. s2.state q ≡ blocked) qs = subst (All (λ q. s2.state q ≡ blocked)) e (
      All_mono (IsAsleep s2 v2.0.home child_waitq) (λ q. s2.state q ≡ blocked)
        (s2.waitq child_waitq) (λ q x. x.0) (v2.0.sleepers child_waitq)) in
    let a : s1.state p ≡ dead = ground arith in
    let d : s2.state p ≡ dead =
      release_files-awake s1 ws p v1 (λ b. blocked_ne_dead (sym b ∙ a)) ∙ a in
    let w = wake_first-Woken s2 p qs d e h (v.0.single child_waitq) in
    let status_kept : s1.exit_status p ≡ status = ground arith in
    (
      w.0,
      ap (λ g. g p) (w.1 ∙ release_files-status s1 ws) ∙ status_kept,
      w.2,
      All_mono (λ u. All (λ q. s2.state q ≡ ready) (s.waitq u))
          (λ u. All (λ q. (wake_first s2 child_waitq qs).0.state q ≡ ready) (s.waitq u)) ws
          (λ u y.
            All_mono (λ q. s2.state q ≡ ready)
              (λ q. (wake_first s2 child_waitq qs).0.state q ≡ ready) (s.waitq u)
              (λ q z. wake_first-ready s2 child_waitq qs q z) y)
          (release_files-ready s1 ws v1),
      λ q n g i.
          wake_first-other s2 child_waitq qs q g
          ∙ (release_files-apart s1 ws q i
              ∙ (let m : (p == q) ≡ false = ground arith in rw m refl)),
    )

-- process_exit, when it returns, leaves the process dead with its status. It wakes all that sleep on
-- the queues `ws` of the pipes that go with its files, and of the sleepers on child_waitq, which is
-- none of these queues, the one that went to sleep last: every other one there, the parent or not,
-- stays blocked. The state of no other process changes.
pub process_exit-Exited :
    (s : Kernel) (p status : ℕ) (ws : List ℕ) (t : Kernel)
    → IsScheduled s
    → Running s p
    → Fresh child_waitq ws
    → process_exit s p status ws ≡ some t
    → Exited s p status ws t
process_exit-Exited s p status ws t v r f e =
    let s1 : Kernel = record s {
      state = update s.state p dead;
      exit_status = update s.exit_status p status;
    } in
    let g = gone s p status ws in
    let q : g.waitq child_waitq ≡ s.waitq child_waitq = release_files-waitq s1 ws child_waitq f in
    subst (Exited s p status ws)
      (ap (λ z. (wake_first g child_waitq z).0) (sym q) ∙ process_exit-gone s p status ws t e)
      (gone-Exited s p status ws v r f)
