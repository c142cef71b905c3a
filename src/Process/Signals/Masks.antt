-- ===== src/Process/Signals/Masks.antt =====
-- sigprocmask and kill: which signals are blocked and which are pending.
use cyanurus.Base.{
  ℕ, zero, suc, ◌-◌, ◌≡◌, ◌≢◌, refl, ap, ◌∙◌, inl, inr, Bool, true, false, not, ◌&&◌, ◌||◌, none,
  some, List, [], ◌∷◌, arith, ltb, ◌==◌, if◌then◌else◌, Bool-cases, Option-cases, length, get_elem?,
  pos, error,
}
use cyanurus.Bits.{test_bit-or, test_bit-and}
use cyanurus.Sigset.{Sigset, IsWords, sigorset, sigandset, signotset, sigdelset}
use cyanurus.Sigset.Member.{member, IsSignal, member-sigaddset, member-sigdelset}
use cyanurus.Sigset.Algebra.{member_algebra}
use cyanurus.Process.Signals.{
  Signals, Process, unblockable, process_sigprocmask, find_process, raise, modify, process_kill,
}

member-unblockable :
    (s : Sigset) (j : ℕ)
    → IsSignal j
    → member (unblockable s) j ≡ ((member s j && not (9 == j)) && not (19 == j))
member-unblockable s j h =
    (member-sigdelset (sigdelset s (pos 9)).1 19 j (omega arith, omega arith) h).1
    ∙ ap (λ b. b && not (19 == j)) (member-sigdelset s 9 j (omega arith, omega arith) h).1

-- What a mask holds once `how` has been applied to it.
abbrev pub blocked_after : (how : ℕ) → (old arg : Bool) → (j : ℕ) → Bool
blocked_after how old arg j =
    if how == 0
    then ((old || arg) && not (9 == j)) && not (19 == j)
    else if how == 1
    then old && not arg
    else if how == 2
    then (arg && not (9 == j)) && not (19 == j)
    else old

by_or : (s t : Sigset) (j : ℕ) → member (sigorset s t) j ≡ (member s j || member t j)
unfolding sigorset
by_or s t j = ground (arith, test_bit-or (j - 33) s.high t.high, test_bit-or (j - 1) s.low t.low)

pub by_and : (s t : Sigset) (j : ℕ) → member (sigandset s t) j ≡ (member s j && member t j)
unfolding sigandset
by_and s t j = ground (arith, test_bit-and (j - 33) s.high t.high, test_bit-and (j - 1) s.low t.low)

-- process_sigprocmask blocks the union, the difference or the new set, as `how` says, without SIGKILL
-- and SIGSTOP where it adds signals. It returns 0 and the old mask, or for another `how` -EINVAL,
-- with the mask as it was. Pending signals and actions stay.
pub process_sigprocmask-member :
    (how : ℕ) (arg : Sigset) (s : Signals)
    → IsWords arg
    → (process_sigprocmask how (some arg) s ≡ (
      if ltb how 3 then pos 0 else error 22,
      if ltb how 3 then some s.mask else none,
      record s { mask = (process_sigprocmask how (some arg) s).2.mask },
    ))
      × ((j : ℕ)
          → IsSignal j
          → member ((process_sigprocmask how (some arg) s).2.mask) j
            ≡ blocked_after how (member s.mask j) (member arg j) j)
unfolding process_sigprocmask
process_sigprocmask-member how arg s w = (
  ground arith,
  λ j h. ground (
    arith,
    member-unblockable (sigorset s.mask arg) j h,
    member-unblockable arg j h,
    (member_algebra arg s.mask j w h).2,
    by_or s.mask arg j,
    by_and s.mask (signotset arg) j,
  ),
)

-- The first process with the number, if there is one.
find_process-first :
    (ps : List Process) (pid : ℕ) (i : ℕ)
    → find_process ps pid ≡ some i
    → (p : Process) × (get_elem? ps i ≡ some p) × (p.id ≡ pid)
unfolding find_process
find_process-first [] pid i e = cc
find_process-first (p ∷ ps) pid i e = elim (Bool-cases (p.id == pid)) [
  | inl here ↦ let at : 0 ≡ i = ground (arith, e, here) in rw (← at) (p, refl, ground (arith, here))
  | inr not_here ↦ elim (Option-cases (find_process ps pid)) [
    | inl none_here ↦ absurd (ground (arith, e, not_here, none_here))
    | inr (k, q) ↦
        let at : suc k ≡ i = ground (arith, e, not_here, q) in
        rw (← at) (find_process-first ps pid k q)
  ]
]

get_elem-modify :
    (ps : List Process) (i k : ℕ) (f : Process → Process) (q : Process)
    → get_elem? ps k ≡ some q
    → get_elem? (modify ps i f) k ≡ some (if k == i then f q else q)
unfolding modify
get_elem-modify [] i k f q e = cc
get_elem-modify (p ∷ ps) zero zero f q e = ground (arith, e)
get_elem-modify (p ∷ ps) (suc i) zero f q e = ground (arith, e)
get_elem-modify (p ∷ ps) zero (suc k) f q e = ground (arith, e)
get_elem-modify (p ∷ ps) (suc i) (suc k) f q e = ground (arith, get_elem-modify ps i k f q e)

length-modify :
    (ps : List Process) (i : ℕ) (f : Process → Process) → length (modify ps i f) ≡ length ps
unfolding modify
length-modify [] i f = refl
length-modify (p ∷ ps) zero f = refl
length-modify (p ∷ ps) (suc i) f = ap suc (length-modify ps i f)

raised :
    (sig : ℕ) (q : Process) (hit : Bool) (j : ℕ)
    → IsSignal sig
    → IsSignal j
    → member ((if hit then raise sig q else q).signal.pending) j
      ≡ (member q.signal.pending j || (hit && (sig == j)))
raised sig q true j h k = ground (arith, (member-sigaddset q.signal.pending sig j h k).1)
raised sig q false j h k = ground arith

only_pending :
    (sig : ℕ) (q : Process) (hit : Bool)
    → let q' = if hit then raise sig q else q in
      q' ≡ record q { signal = record q.signal { pending = q'.signal.pending } }
only_pending sig q true = refl
only_pending sig q false = refl

-- process_kill, given a signal and the number of a process, returns 0 and makes that signal pending
-- for that process. Every other pending signal, mask, action and process stays as it was.
pub process_kill-pending :
    (n sig : ℕ) (ps : List Process) (i : ℕ)
    → IsSignal sig
    → n ≢ 0
    → find_process ps n ≡ some i
    → (ps' : List Process) × (process_kill (pos n) (pos sig) ps ≡ (pos 0, ps'))
      × (length ps' ≡ length ps)
      × ((p : Process) × (get_elem? ps i ≡ some p) × (p.id ≡ n))
      × ((k : ℕ) (q : Process)
          → get_elem? ps k ≡ some q
          → (q' : Process) × (get_elem? ps' k ≡ some q')
            × (q' ≡ record q { signal = record q.signal { pending = q'.signal.pending } })
            × ((j : ℕ)
                → IsSignal j
                → member q'.signal.pending j
                  ≡ (member q.signal.pending j || ((k == i) && (sig == j)))))
unfolding process_kill
process_kill-pending n sig ps i h nz found = (
  modify ps i (raise sig),
  ground (arith, found),
  length-modify ps i (raise sig),
  find_process-first ps n i found,
  λ k q e. (
    if k == i then raise sig q else q,
    get_elem-modify ps i k (raise sig) q e,
    only_pending sig q (k == i),
    λ j hj. raised sig q (k == i) j h hj,
  ),
)
