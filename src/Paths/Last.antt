-- ===== src/Paths/Last.antt =====
-- The name that basename of src/kernel/lib/libgen.c finds.
use mathlib.Core.Path.{subst}
use cyanurus.Base.{
  ℕ, zero, suc, ◌-◌, ◌<◌, ◌≤◌, ◌≡◌, ◌≢◌, ◌⊎◌, refl, sym, ◌∙◌, inl, inr, Bool-cases, ◌==◌, arith,
  update, ==_refl, ne→==_false,
}
use cyanurus.Paths.{slash, PathName, dot, root, within, strip_loop, start_loop, basename}
use cyanurus.Paths.Parts.{Slashes, Name, more}

-- what the first loop of basename leaves: the last byte of the name, and the memory
abbrev Stripped : ℕ → (ℕ → ℕ) → ℕ × (ℕ → ℕ) → Type 0
Stripped i path (k, m) =
    (k ≤ i)
    × ((j : ℕ) → j ≤ k → m j ≡ path j)
    × (m (suc k) ≡ 0)
    × Slashes path (suc k) (suc i)
    × ((k ≡ 0) ⊎ (path k ≢ slash))

Stripped-suc :
    (i : ℕ) (path : ℕ → ℕ) (r : ℕ × (ℕ → ℕ))
    → path (suc i) ≡ slash
    → Stripped i (update path (suc i) 0) r
    → Stripped (suc i) path r
Stripped-suc i path (k, m) e h =
    let same : (j : ℕ) → j < suc i → update path (suc i) 0 j ≡ path j =
      λ j l. (let f = ne→==_false (suc i) j (λ e. omega arith) in rw f refl) in
    (
      omega arith,
      (λ j l. h.1 j l ∙ same j (omega arith)),
      h.2,
      more (λ j. path j ≡ slash) (suc k) (suc i) (λ j l g. sym (same j g) ∙ h.3 j l g) e,
      subst (λ x. (k ≡ 0) ⊎ (x ≢ slash)) (same k (omega arith)) h.4,
    )

strip_loop-Stripped :
    (i : ℕ) (path : ℕ → ℕ) → path (suc i) ≡ 0 → Stripped i path (strip_loop i path)
unfolding strip_loop
strip_loop-Stripped zero path e =
    (omega arith, (λ j l. refl), e, (λ j l g. absurd (omega arith)), inl refl)
strip_loop-Stripped (suc i) path e = elim (Bool-cases (path (suc i) == slash)) [
  | inl t ↦ rw t (
      Stripped-suc i path (strip_loop i (update path (suc i) 0)) (ground arith)
        (strip_loop-Stripped i (update path (suc i) 0) (rw (==_refl (suc i)) refl)))
  | inr f ↦
      rw f (omega arith, (λ j l. refl), e, (λ j l g. absurd (omega arith)), inr (ground arith))
]

-- the start of the name
abbrev Starts : (ℕ → ℕ) → ℕ → ℕ → Type 0
Starts path i s = (s ≤ i) × ((s ≡ 0) ⊎ (path (s - 1) ≡ slash)) × Name path s i

start_loop-Starts : (i : ℕ) (path : ℕ → ℕ) → Starts path i (start_loop i path)
unfolding start_loop
start_loop-Starts zero path = (omega arith, inl refl, λ j l g. absurd (omega arith))
start_loop-Starts (suc i) path = elim (Bool-cases (path i == slash)) [
  | inl t ↦ rw t (
    omega arith,
    inr (let y : suc i - 1 ≡ i = omega arith in rw y (ground arith)),
    λ j l g. absurd (omega arith),
  )
  | inr f ↦ rw f (
      let h = start_loop-Starts i path in
      (omega arith, h.1, more (λ j. path j ≢ slash) (start_loop i path) i h.2 (ground arith)))
]

-- The bytes from `a` up to `e` are the name at the end of the path, or the path is slashes only and
-- they are the first of them.
abbrev pub IsLast : (ℕ → ℕ) → ℕ → ℕ → ℕ → Type 0
IsLast path n a e =
    ((a ≡ 0) × (e ≡ 1) × Slashes path 0 n)
    ⊎ (((a ≡ 0) ⊎ (path (a - 1) ≡ slash)) × Name path a e × Slashes path e n)

-- what basename answers: the name, which ends at a zero; before it the memory is as it was
abbrev pub BaseName : (ℕ → ℕ) → ℕ → PathName → Type 0
BaseName path n dot = n ≡ 0
BaseName path n root = ⊥
BaseName path n (within a m) =
    (e : ℕ) × (a < e) × (e ≤ n) × IsLast path n a e × (m e ≡ 0) × ((j : ℕ) → j < e → m j ≡ path j)

IsLast-of :
    (path : ℕ → ℕ) (n k s : ℕ)
    → ((k ≡ 0) ⊎ (path k ≢ slash))
    → Slashes path (suc k) n
    → Starts path k s
    → IsLast path n s (suc k)
IsLast-of path n k s c z h = elim (Bool-cases (path k == slash)) [
  | inr f ↦ inr (h.1, more (λ j. path j ≢ slash) s k h.2 (ground arith), z)
  | inl t ↦ elim c [
    | inr g ↦ absurd (ground arith)
    | inl g ↦
        let e : path 0 ≡ slash = subst (λ x. path x ≡ slash) g (ground arith) in
        inl (
          let l = h.0 in omega arith,
          omega arith,
          from_first e (subst (λ x. Slashes path (suc x) n) g z),
        )
  ]
]
  where
    from_first : path 0 ≡ slash → Slashes path 1 n → Slashes path 0 n
    from_first e y zero l g = e
    from_first e y (suc j) l g = y (suc j) (omega arith) g

BaseName-within :
    (path : ℕ → ℕ) (n s : ℕ) (r : ℕ × (ℕ → ℕ))
    → Stripped n path r
    → Starts r.1 r.0 s
    → BaseName path (suc n) (within s r.1)
BaseName-within path n s (k, m) h g =
    let same : Name path s k = λ j l y. subst (λ x. x ≢ slash) (h.1 j (omega arith)) (g.2 j l y) in
    let first : (s ≡ 0) ⊎ (path (s - 1) ≡ slash) = elim g.1 [
      | inl z ↦ inl z
      | inr z ↦ inr (sym (h.1 (s - 1) (omega arith)) ∙ z)
    ] in
    (
      suc k,
      omega arith,
      omega arith,
      IsLast-of path (suc n) k s h.4 h.3 (g.0, first, same),
      h.2,
      λ j l. h.1 j (omega arith),
    )

-- basename of a path that ends at its first zero answers the name at its end, without the slashes
-- behind it, or "/" if it is slashes only, and "." for an empty path; what is before stays.
pub basename-BaseName : (path : ℕ → ℕ) (n : ℕ) → path n ≡ 0 → BaseName path n (basename path n)
unfolding basename
basename-BaseName path zero e = refl
basename-BaseName path (suc n) e =
    let r = strip_loop n path in
    BaseName-within path n (start_loop r.0 r.1) r (strip_loop-Stripped n path e)
      (start_loop-Starts r.0 r.1)
