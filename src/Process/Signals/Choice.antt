-- ===== src/Process/Signals/Choice.antt =====
-- Which signal process_dispatch takes, and what it leaves pending.
use cyanurus.Base.{
  ℕ, zero, suc, ◌≤◌, ◌<◌, bit_and, ◌≡◌, ◌≢◌, refl, sym, ap, ◌∙◌, ◌⊎◌, inl, inr, Bool, true, false,
  not, ◌&&◌, none, some, List, [], ◌∷◌, arith, ◌==◌, Bool-cases, length, get_elem?,
}
use native.Mathlib.Decide.{ℕ_discrete}
use cyanurus.Sigset.{IsWords, signotset, sigpeekset}
use cyanurus.Sigset.Member.{member, IsSignal, member-sigdelset}
use cyanurus.Sigset.Algebra.{member_algebra, sigpeekset_least}
use cyanurus.Process.Signals.{
  Action, Signals, Current, Dispatched, resumes, exits, survives, cleared, deliverable,
  enter_handler, dispatch_signal,
}
use cyanurus.Process.Signals.Masks.{by_and}

-- `j` waits and is not blocked.
abbrev pub ready : Signals → ℕ → Bool
ready s j = member s.pending j && not (member s.mask j)

-- What is left of the pending signals once `sig` has been taken: or the process is at its end.
abbrev pub Taken : (sig : ℕ) → Current → Dispatched → Type 0
Taken sig c (resumes c') =
    (j : ℕ)
    → IsSignal j
    → member c'.signal.pending j ≡ (member c.signal.pending j && not (sig == j))
Taken sig c (exits status) = status ≡ bit_and sig 0x7f

member-deliverable :
    (s : Signals) (j : ℕ) → IsWords s.mask → IsSignal j → member (deliverable s) j ≡ ready s j
member-deliverable s j w h =
    by_and s.pending (signotset s.mask) j
    ∙ ap (λ b. member s.pending j && b) (member_algebra s.mask s.mask j w h).2

action_at : (xs : List Action) (i : ℕ) → i < length xs → (a : Action) × (get_elem? xs i ≡ some a)
action_at [] i h = absurd (omega arith)
action_at (a ∷ xs) zero h = (a, refl)
action_at (a ∷ xs) (suc i) h = action_at xs i (omega arith)

action_behind : (xs : List Action) (i : ℕ) → length xs ≤ i → get_elem? xs i ≡ none
action_behind [] i h = refl
action_behind (a ∷ xs) zero h = absurd (omega arith)
action_behind (a ∷ xs) (suc i) h = action_behind xs i (omega arith)

Taken-cleared :
    (sig : ℕ) (c c' : Current)
    → IsSignal sig
    → c'.signal.pending ≡ c.signal.pending
    → Taken sig c (resumes (cleared sig c'))
Taken-cleared sig c c' h e j k =
    (member-sigdelset c'.signal.pending sig j h k).1 ∙ ap (λ s. member s j && not (sig == j)) e

dispatch_signal_at :
    (c : Current) (sig : ℕ) (ksa : Action)
    → IsSignal sig
    → sigpeekset (deliverable c.signal) ≡ sig
    → get_elem? c.signal.actions sig ≡ some ksa
    → (d : Dispatched) × (dispatch_signal c ≡ some d) × Taken sig c d
unfolding dispatch_signal enter_handler
dispatch_signal_at c sig ksa h e found = elim (Bool-cases (ksa.handler == 0)) [
  | inl default ↦ elim (Bool-cases (survives sig)) [
    | inl stays ↦ (
      resumes (cleared sig c),
      ground (arith, e, found, default, stays),
      Taken-cleared sig c c h refl,
    )
    | inr ends ↦ (exits (bit_and sig 0x7f), ground (arith, e, found, default, ends), refl)
  ]
  | inr chosen ↦ elim (Bool-cases (ksa.handler == 1)) [
    | inl ignored ↦ (
      resumes (cleared sig c),
      ground (arith, e, found, chosen, ignored),
      Taken-cleared sig c c h refl,
    )
    | inr handled ↦ (
      resumes (cleared sig (enter_handler ksa sig c)),
      ground (arith, e, found, chosen, handled),
      Taken-cleared sig c (enter_handler ksa sig c) h refl,
    )
  ]
]

-- process_dispatch takes the lowest signal that is pending and not blocked, and nothing if there is
-- none. If the signal is not 64, it is handled: the process ends with it, or goes on with that signal
-- and no other taken from the pending ones. Signal 64 has no entry among the 64 actions: the entry
-- behind them is used.
pub dispatch_signal_takes :
    (c : Current)
    → IsWords c.signal.mask
    → length c.signal.actions ≡ 64
    → ((dispatch_signal c ≡ some (resumes c)) × ((j : ℕ) → IsSignal j → ready c.signal j ≡ false))
      ⊎ ((sig : ℕ) × IsSignal sig
          × (ready c.signal sig ≡ true)
          × ((j : ℕ) → 1 ≤ j → j < sig → ready c.signal j ≡ false)
          × (((sig ≡ 64) × (dispatch_signal c ≡ none))
              ⊎ ((sig ≢ 64) × (d : Dispatched) × (dispatch_signal c ≡ some d) × Taken sig c d)))
unfolding dispatch_signal
dispatch_signal_takes c w n = elim (sigpeekset_least (deliverable c.signal)) [
  | inl (z, nothing) ↦
      inl (ground (arith, z), λ j h. sym (member-deliverable c.signal j w h) ∙ nothing j h)
  | inr (is_signal, waits, least) ↦ inr (
    sigpeekset (deliverable c.signal),
    is_signal,
    sym (member-deliverable c.signal (sigpeekset (deliverable c.signal)) w is_signal) ∙ waits,
    λ j a b. sym (member-deliverable c.signal j w (a, omega (arith, b, is_signal.1))) ∙ least j a b,
    elim (ℕ_discrete (sigpeekset (deliverable c.signal)) 64) [
      | yes last ↦
          inl (last, ground (arith, last, action_behind c.signal.actions 64 (omega (arith, n))))
      | no other ↦
          let (ksa, found) =
            action_at c.signal.actions (sigpeekset (deliverable c.signal))
              (omega (arith, is_signal.1, other, n)) in
          let (d, run, taken) =
            dispatch_signal_at c (sigpeekset (deliverable c.signal)) ksa is_signal refl found in
          inr (other, d, run, taken)
    ],
  )
]
