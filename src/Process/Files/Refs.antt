-- ===== src/Process/Files/Refs.antt =====
-- References to `struct file` objects: how descriptor tables are counted.
use cyanurus.Base.{
  ℕ, zero, suc, ◌+◌, ◌≤◌, ◌<◌, ◌≡◌, ◌≢◌, refl, sym, ap, ◌∙◌, inl, inr, Option, none, some, [], ◌∷◌,
  ◌++◌, arith, ◌==◌, if◌then◌else◌, Option-cases, length, set,
}
use native.Mathlib.Decide.{ℕ_discrete}
use cyanurus.Process.Files.{Table, slot, first_free}

-- The sum of a weight over the objects that a table refers to, once for each descriptor.
unfoldable pub weigh : (ℕ → ℕ) → Table → ℕ
weigh g [] = 0
weigh g (none ∷ t) = weigh g t
weigh g (some f ∷ t) = g f + weigh g t

abbrev pub cost : (ℕ → ℕ) → Option ℕ → ℕ
cost g none = 0
cost g (some f) = g f

-- the weight that counts the references to `a`
abbrev pub is : ℕ → ℕ → ℕ
is a f = if f == a then 1 else 0

pub weigh-cons : (g : ℕ → ℕ) (o : Option ℕ) (t : Table) → weigh g (o ∷ t) ≡ cost g o + weigh g t
unfolding weigh
weigh-cons g none t = omega arith
weigh-cons g (some f) t = refl

pub weigh-append : (g : ℕ → ℕ) (s t : Table) → weigh g (s ++ t) ≡ weigh g s + weigh g t
unfolding weigh
weigh-append g [] t = omega arith
weigh-append g (none ∷ s) t = weigh-append g s t
weigh-append g (some f ∷ s) t = omega (arith, weigh-append g s t)

pub weigh-set :
    (g : ℕ → ℕ) (t : Table) (i : ℕ) (v : Option ℕ)
    → i < length t
    → weigh g (set t i v) + cost g (slot t i) ≡ weigh g t + cost g v
weigh-set g [] i v h = absurd (omega arith)
weigh-set g (o ∷ t) zero v h = omega (arith, weigh-cons g o t, weigh-cons g v t)
weigh-set g (o ∷ t) (suc i) v h =
    omega (arith, weigh-cons g o t, weigh-cons g o (set t i v), weigh-set g t i v (omega arith))

-- Weights that agree on what a table refers to weigh it the same.
pub weigh_cong :
    (g h : ℕ → ℕ) (t : Table) → ((f : ℕ) → weigh (is f) t ≢ 0 → g f ≡ h f) → weigh g t ≡ weigh h t
unfolding weigh
weigh_cong g h [] same = refl
weigh_cong g h (none ∷ t) same = weigh_cong g h t same
weigh_cong g h (some f ∷ t) same = omega (
  arith,
  same f (λ z. absurd (ground arith)),
  weigh_cong g h t (λ e nz. same e (λ z. nz (ground arith))),
)

pub cost-le-weigh : (g : ℕ → ℕ) (t : Table) (i : ℕ) → cost g (slot t i) ≤ weigh g t
cost-le-weigh g [] i = omega arith
cost-le-weigh g (o ∷ t) zero = omega (arith, weigh-cons g o t)
cost-le-weigh g (o ∷ t) (suc i) = omega (arith, weigh-cons g o t, cost-le-weigh g t i)

-- What a table refers to weighs no more than the table.
pub weight-le-weigh : (g : ℕ → ℕ) (t : Table) (a : ℕ) → weigh (is a) t ≢ 0 → g a ≤ weigh g t
unfolding weigh
weight-le-weigh g [] a h = absurd (h refl)
weight-le-weigh g (none ∷ t) a h = weight-le-weigh g t a h
weight-le-weigh g (some f ∷ t) a h = elim (ℕ_discrete f a) [
  | yes same ↦ rw same (omega arith)
  | no other ↦ omega (arith, weight-le-weigh g t a (λ z. h (ground (arith, other, z))))
]

pub weigh-le-length : (g : ℕ → ℕ) (t : Table) → ((f : ℕ) → g f ≤ 1) → weigh g t ≤ length t
unfolding weigh
weigh-le-length g [] h = omega arith
weigh-le-length g (none ∷ t) h = omega (arith, weigh-le-length g t h)
weigh-le-length g (some f ∷ t) h = omega (arith, h f, weigh-le-length g t h)

abbrev shifted : Option ℕ → Option ℕ
shifted o = elim o [ none ↦ none | some j ↦ some (suc j) ]

found :
    (k : ℕ) (t : Table) {j : ℕ} (o : Option ℕ)
    → (k < length t) × (0 ≤ k) × (slot t k ≡ none)
    → some (suc k) ≡ some j
    → (j < length (o ∷ t)) × (0 ≤ j) × (slot (o ∷ t) j ≡ none)
found k t {j} o h e =
    let q : suc k ≡ j = ground arith in rw (← q) (omega (arith, h), omega arith, h.2)

behind :
    (k : ℕ) (t : Table) (i : ℕ) {j : ℕ} (o : Option ℕ)
    → (k < length t) × (i ≤ k) × (slot t k ≡ none)
    → some (suc k) ≡ some j
    → (j < length (o ∷ t)) × (suc i ≤ j) × (slot (o ∷ t) j ≡ none)
behind k t i {j} o h e =
    let q : suc k ≡ j = ground arith in rw (← q) (omega (arith, h), omega (arith, h), h.2)

-- first_free finds a free descriptor, at or behind the one it starts from.
pub first_free_lem :
    (t : Table) (i : ℕ) {j : ℕ}
    → first_free t i ≡ some j
    → (j < length t) × (i ≤ j) × (slot t j ≡ none)
unfolding first_free
first_free_lem [] i e = cc
first_free_lem (none ∷ t) zero e = ground arith
first_free_lem (some f ∷ t) zero {j} e = elim (Option-cases (first_free t 0)) [
  | inl full ↦ cc (ap (λ o. shifted o) full)
  | inr (k, q) ↦ found k t (some f) (first_free_lem t 0 q) (sym (ap (λ o. shifted o) q) ∙ e)
]
first_free_lem (none ∷ t) (suc i) {j} e = elim (Option-cases (first_free t i)) [
  | inl full ↦ cc (ap (λ o. shifted o) full)
  | inr (k, q) ↦ behind k t i none (first_free_lem t i q) (sym (ap (λ o. shifted o) q) ∙ e)
]
first_free_lem (some f ∷ t) (suc i) {j} e = elim (Option-cases (first_free t i)) [
  | inl full ↦ cc (ap (λ o. shifted o) full)
  | inr (k, q) ↦ behind k t i (some f) (first_free_lem t i q) (sym (ap (λ o. shifted o) q) ∙ e)
]
