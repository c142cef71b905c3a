-- ===== src/Base/Store.antt =====
-- A store: what each address holds.
use Prim.Native.Nat.{ℕ}
use mathlib.Core.Path.{◌≡◌, subst}
use mathlib.Core.Logic.{◌≢◌, inl, inr}
use native.Mathlib.Omega.{arith}
use cyanurus.Base.Tests.{Bool-cases, ◌==◌, if◌then◌else◌}

module _ {ℓ} {A : Type ℓ} where
  abbrev pub update : (ℕ → A) → ℕ → A → ℕ → A
  update f p v q = if p == q then v else f q

  pub update_self : (f : ℕ → A) (p : ℕ) (v : A) → update f p v p ≡ v
  update_self f p v = ground arith

  pub update_ne : (f : ℕ → A) (p q : ℕ) (v : A) → p ≢ q → update f p v q ≡ f q
  update_ne f p q v h = ground arith

  -- What holds at the address written, and at every other one, holds everywhere.
  pub update-each {κ} :
      (P : ℕ → A → Type κ) (f : ℕ → A) (p : ℕ) (v : A)
      → P p v
      → ((q : ℕ) → p ≢ q → P q (f q))
      → (q : ℕ) → P q (update f p v q)
  update-each P f p v h k q = elim (Bool-cases (p == q)) [
    | inl t ↦ let e : p ≡ q = ground arith in rw t (subst (λ i. P i v) e h)
    | inr n ↦ rw n (k q (ground arith))
  ]
