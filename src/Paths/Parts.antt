-- ===== src/Paths/Parts.antt =====
-- The directory that dirname of src/kernel/lib/libgen.c finds.
use mathlib.Core.Path.{subst}
use cyanurus.Base.{
  ℕ, zero, suc, ◌<◌, ◌≤◌, ◌≡◌, ◌≢◌, ◌⊎◌, refl, sym, inl, inr, Bool-cases, Option, none, some, ◌==◌,
  arith, ==_refl, ne→==_false,
}
use cyanurus.Paths.{
  slash, PathName, dot, root, within, skip_slashes, skip_name, cut, dir_before, dir_of, dirname,
}

-- the bytes of the path from `a` on and before `b`
abbrev pub Slashes : (ℕ → ℕ) → ℕ → ℕ → Type 0
Slashes path a b = (j : ℕ) → a ≤ j → j < b → path j ≡ slash

abbrev pub Name : (ℕ → ℕ) → ℕ → ℕ → Type 0
Name path a b = (j : ℕ) → a ≤ j → j < b → path j ≢ slash

pub more :
    (P : ℕ → Type 0) (a i : ℕ)
    → ((j : ℕ) → a ≤ j → j < i → P j)
    → P i
    → (j : ℕ) → a ≤ j
    → j < suc i
    → P j
more P a i h p j l g = elim (Bool-cases (j == i)) [
  | inl t ↦ let e : i ≡ j = ground arith in subst P e p
  | inr f ↦ h j l (ground arith)
]

-- from the end `b` back to the last byte that is no slash, if there is one
abbrev Skipped : (ℕ → ℕ) → ℕ → Option ℕ → Type 0
Skipped path b none = Slashes path 0 b
Skipped path b (some k) = (k < b) × (path k ≢ slash) × Slashes path (suc k) b

Skipped-suc :
    (i : ℕ) (path : ℕ → ℕ) (r : Option ℕ)
    → path i ≡ slash
    → Skipped path i r
    → Skipped path (suc i) r
Skipped-suc i path none e h = more (λ j. path j ≡ slash) 0 i h e
Skipped-suc i path (some k) e h = (omega arith, h.1, more (λ j. path j ≡ slash) (suc k) i h.2 e)

skip_slashes-Skipped : (i : ℕ) (path : ℕ → ℕ) → Skipped path (suc i) (skip_slashes i path)
unfolding skip_slashes
skip_slashes-Skipped zero path = elim (Bool-cases (path 0 == slash)) [
  | inl t ↦ rw t (Skipped-suc 0 path none (ground arith) (λ j l g. absurd (omega arith)))
  | inr f ↦ rw f (omega arith, ground arith, λ j l g. absurd (omega arith))
]
skip_slashes-Skipped (suc i) path = elim (Bool-cases (path (suc i) == slash)) [
  | inl t ↦
      rw t (
        Skipped-suc (suc i) path (skip_slashes i path) (ground arith) (skip_slashes-Skipped i path))
  | inr f ↦ rw f (omega arith, ground arith, λ j l g. absurd (omega arith))
]

-- from the end `b` back to the last slash, if there is one
abbrev Passed : (ℕ → ℕ) → ℕ → Option ℕ → Type 0
Passed path b none = Name path 0 b
Passed path b (some k) = (k < b) × (path k ≡ slash) × Name path (suc k) b

Passed-suc :
    (i : ℕ) (path : ℕ → ℕ) (r : Option ℕ) → path i ≢ slash → Passed path i r → Passed path (suc i) r
Passed-suc i path none e h = more (λ j. path j ≢ slash) 0 i h e
Passed-suc i path (some k) e h = (omega arith, h.1, more (λ j. path j ≢ slash) (suc k) i h.2 e)

skip_name-Passed : (i : ℕ) (path : ℕ → ℕ) → Passed path (suc i) (skip_name i path)
unfolding skip_name
skip_name-Passed zero path = elim (Bool-cases (path 0 == slash)) [
  | inl t ↦ rw t (omega arith, ground arith, λ j l g. absurd (omega arith))
  | inr f ↦ rw f (Passed-suc 0 path none (ground arith) (λ j l g. absurd (omega arith)))
]
skip_name-Passed (suc i) path = elim (Bool-cases (path (suc i) == slash)) [
  | inl t ↦ rw t (omega arith, ground arith, λ j l g. absurd (omega arith))
  | inr f ↦
      rw f (Passed-suc (suc i) path (skip_name i path) (ground arith) (skip_name-Passed i path))
]

-- A path of `n` bytes is a directory of `d` bytes, slashes up to `b`, a name up to `e`, and slashes.
abbrev pub Parts : (ℕ → ℕ) → ℕ → ℕ → ℕ → ℕ → Type 0
Parts path n d b e =
    (d ≤ b) × (b ≤ e) × (e ≤ n) × Slashes path d b × Name path b e × Slashes path e n

-- what dirname answers: the part before the name, without the slashes behind it
abbrev pub Directory : (ℕ → ℕ) → ℕ → PathName → Type 0
Directory path n dot = (e : ℕ) × ((0 < e) ⊎ (n ≡ 0)) × Parts path n 0 0 e
Directory path n root = (b : ℕ) × (e : ℕ) × (0 < b) × Parts path n 0 b e
Directory path n (within offset m) =
    (k : ℕ) × (b : ℕ) × (e : ℕ) × (offset ≡ 0)
    × (path k ≢ slash)
    × (suc k < b)
    × (b < e)
    × Parts path n (suc k) b e
    × (m (suc k) ≡ 0)
    × ((j : ℕ) → j ≤ k → m j ≡ path j)

dirname-cut :
    (path : ℕ → ℕ) (n j i : ℕ) (r : Option ℕ)
    → j < i
    → i < n
    → path j ≡ slash
    → Slashes path (suc i) n
    → Name path (suc j) (suc i)
    → Skipped path (suc j) r
    → Directory path n (cut path r)
unfolding cut
dirname-cut path n j i none l h u z w s =
    (suc j, suc i, omega arith, (omega arith, omega arith, omega arith, s, w, z))
dirname-cut path n j i (some k) l h u z w s =
    let ne : k ≢ j = λ e. s.1 (subst (λ x. path x ≡ slash) (sym e) u) in
    let apart : suc k < suc j = omega arith in
    (
      k,
      suc j,
      suc i,
      refl,
      s.1,
      apart,
      omega arith,
      (omega arith, omega arith, omega arith, s.2, w, z),
      rw (==_refl (suc k)) refl,
      λ q y. let f = ne→==_false (suc k) q (λ e. omega arith) in rw f refl,
    )

dirname-dir_before :
    (path : ℕ → ℕ) (n i : ℕ) (r : Option ℕ)
    → i < n
    → path i ≢ slash
    → Slashes path (suc i) n
    → Passed path (suc i) r
    → Directory path n (dir_before path r)
unfolding dir_before
dirname-dir_before path n i none h u z w = (
  suc i,
  inl (omega arith),
  (omega arith, omega arith, omega arith, (λ j l g. absurd (omega arith)), w, z),
)
dirname-dir_before path n i (some j) h u z w =
    let ne : j ≢ i = λ e. u (subst (λ x. path x ≡ slash) e w.1) in
    dirname-cut path n j i (skip_slashes j path) (omega arith) h w.1 z w.2
      (skip_slashes-Skipped j path)

dirname-dir_of :
    (path : ℕ → ℕ) (n : ℕ) (r : Option ℕ)
    → Skipped path (suc n) r
    → Directory path (suc n) (dir_of path r)
unfolding dir_of
dirname-dir_of path n none s = (
  suc n,
  suc n,
  omega arith,
  (
    omega arith,
    omega arith,
    omega arith,
    s,
    (λ j l g. absurd (omega arith)),
    λ j l g. absurd (omega arith),
  ),
)
dirname-dir_of path n (some i) s =
    dirname-dir_before path (suc n) i (skip_name i path) s.0 s.1 s.2 (skip_name-Passed i path)

-- dirname of a path answers the part before the name, without the slashes behind it and behind the
-- name: "." if there is none, "/" if it is slashes only, and else the path cut off there.
pub dirname-Directory : (path : ℕ → ℕ) (n : ℕ) → Directory path n (dirname path n)
unfolding dirname
dirname-Directory path zero = (
  0,
  inr refl,
  (
    omega arith,
    omega arith,
    omega arith,
    (λ j l g. absurd (omega arith)),
    (λ j l g. absurd (omega arith)),
    λ j l g. absurd (omega arith),
  ),
)
dirname-Directory path (suc n) =
    dirname-dir_of path n (skip_slashes n path) (skip_slashes-Skipped n path)
