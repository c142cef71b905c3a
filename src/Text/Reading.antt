-- ===== src/Text/Reading.antt =====
-- strlen, strcmp and strchr, by the strings that the pointers are to.
use cyanurus.Base.{
  ℕ, zero, suc, ◌%◌, ◌≤◌, ◌<◌, ◌≡◌, ◌≢◌, refl, sym, ap, ◌∙◌, ◌↔◌, ◌⊎◌, inl, inr, Option, none, some,
  List, [], ◌∷◌, arith, ◌==◌, Bool-cases, Option-cases, length, get_or, ℤ, pos,
}
use native.Mathlib.Decide.{ℕ_discrete}
use cyanurus.Text.{strlen, strcmp, difference, strchrnul, text}

abbrev pub length_of : Option (List ℕ) → Option ℕ
length_of none = none
length_of (some t) = some (length t)

pub text-cons :
    (c : ℕ) (s : List ℕ) {t : List ℕ}
    → text (c ∷ s) ≡ some t
    → ((c ≡ 0) × (t ≡ [])) ⊎ ((c ≢ 0) × (u : List ℕ) × (text s ≡ some u) × (t ≡ c ∷ u))
unfolding text
text-cons c s e = elim (Bool-cases (c == 0)) [
  | inl z ↦ inl (ground (arith, z), ground (arith, z, e))
  | inr nz ↦ elim (Option-cases (text s)) [
    | inl gone ↦ absurd (ground (arith, nz, gone, e))
    | inr (u, q) ↦ inr (ground (arith, nz), u, q, ground (arith, nz, q, e))
  ]
]

-- strlen is the length of the string, and runs off the memory exactly if there is no string.
pub strlen-text : (s : List ℕ) → strlen s ≡ length_of (text s)
unfolding strlen text
strlen-text [] = refl
strlen-text (c ∷ s) = elim (Bool-cases (c == 0)) [
  | inl z ↦ rw z refl
  | inr nz ↦ elim (Option-cases (text s)) [
    | inl gone ↦ rw (nz, strlen-text s, gone) refl
    | inr (u, q) ↦ rw (nz, strlen-text s, q) refl
  ]
]

pub off_end : {t : List ℕ} → text [] ≡ some t → ⊥
unfolding text
off_end e = cc

nil_cons : {a : ℕ} {u : List ℕ} → [] ≡ a ∷ u → ⊥
nil_cons e = cc

cons_head : {a b : ℕ} {u v : List ℕ} → a ∷ u ≡ b ∷ v → a ≡ b
cons_head e = cc

cons_tail : {a b : ℕ} {u v : List ℕ} → a ∷ u ≡ b ∷ v → u ≡ v
cons_tail e = cc

cons_eq : {a b : ℕ} {u v : List ℕ} → a ≡ b → u ≡ v → a ∷ u ≡ b ∷ v
cons_eq e h = cc

differ : (a b : ℕ) → difference a b ≡ pos 0 → a ≢ b → ⊥
differ a b e h = ground (arith, e, h)

-- strcmp of two strings answers, and by 0 exactly if they are equal.
pub strcmp-text :
    (s1 s2 t1 t2 : List ℕ)
    → text s1 ≡ some t1
    → text s2 ≡ some t2
    → (r : ℤ) × (strcmp s1 s2 ≡ some r) × ((r ≡ pos 0) ↔ (t1 ≡ t2))
unfolding strcmp
strcmp-text [] s2 t1 t2 e h = absurd (off_end e)
strcmp-text (a ∷ s1) [] t1 t2 e h = absurd (off_end h)
strcmp-text (a ∷ s1) (b ∷ s2) t1 t2 e h =
    go (λ u v p q. strcmp-text s1 s2 u v p q) (text-cons a s1 e) (text-cons b s2 h)
  where
    go :
        ((u v : List ℕ)
          → text s1 ≡ some u
          → text s2 ≡ some v
          → (r : ℤ) × (strcmp s1 s2 ≡ some r) × ((r ≡ pos 0) ↔ (u ≡ v)))
        → ((a ≡ 0) × (t1 ≡ [])) ⊎ ((a ≢ 0) × (u : List ℕ) × (text s1 ≡ some u) × (t1 ≡ a ∷ u))
        → ((b ≡ 0) × (t2 ≡ [])) ⊎ ((b ≢ 0) × (v : List ℕ) × (text s2 ≡ some v) × (t2 ≡ b ∷ v))
        → (r : ℤ) × (strcmp (a ∷ s1) (b ∷ s2) ≡ some r) × ((r ≡ pos 0) ↔ (t1 ≡ t2))
    go rest (inl (x, y)) (inl (z, w)) = (pos 0, ground (arith, x, z), (λ q. y ∙ sym w, λ q. refl))
    go rest (inl (x, y)) (inr (z, v, q, w)) = (
      difference a b,
      ground (arith, x, z),
      (λ r. absurd (differ a b r (ground (arith, x, z))), λ r. absurd (nil_cons (sym y ∙ r ∙ w))),
    )
    go rest (inr (x, u, p, y)) (inl (z, w)) = (
      difference a b,
      ground (arith, x, z),
      (
        λ r. absurd (differ a b r (ground (arith, x, z))),
        λ r. absurd (nil_cons (sym w ∙ sym r ∙ y)),
      ),
    )
    go rest (inr (x, u, p, y)) (inr (z, v, q, w)) = elim (ℕ_discrete a b) [
      | yes same ↦
          let (r, run, both) = rest u v p q in
          (
            r,
            ground (arith, x, z, same, run),
            (λ k. y ∙ cons_eq same (both.0 k) ∙ sym w, λ k. both.1 (cons_tail (sym y ∙ k ∙ w))),
          )
      | no other ↦ (
        difference a b,
        ground (arith, x, z, other),
        (λ r. absurd (differ a b r other), λ r. absurd (other (cons_head (sym y ∙ r ∙ w)))),
      )
    ]

-- strchrnul finds the first place of the character in the string, or else its end.
pub strchrnul-first :
    (s t : List ℕ) (c : ℕ)
    → text s ≡ some t
    → (i : ℕ) × (strchrnul s c ≡ some i)
      × (i ≤ length t)
      × ((j : ℕ) → j < i → get_or s j 0 ≢ c % 256)
      × ((get_or s i 0 ≡ c % 256) ⊎ (i ≡ length t))
unfolding strchrnul
strchrnul-first [] t c e = absurd (off_end e)
strchrnul-first (b ∷ s) t c e = go (λ u q. strchrnul-first s u c q) (text-cons b s e)
  where
    later :
        (i : ℕ)
        → ((j : ℕ) → j < i → get_or s j 0 ≢ c % 256)
        → b ≢ c % 256
        → (j : ℕ) → j < suc i
        → get_or (b ∷ s) j 0 ≢ c % 256
    later i h nb zero k = nb
    later i h nb (suc j) k = h j (omega arith)

    go :
        ((u : List ℕ)
          → text s ≡ some u
          → (i : ℕ) × (strchrnul s c ≡ some i)
            × (i ≤ length u)
            × ((j : ℕ) → j < i → get_or s j 0 ≢ c % 256)
            × ((get_or s i 0 ≡ c % 256) ⊎ (i ≡ length u)))
        → ((b ≡ 0) × (t ≡ [])) ⊎ ((b ≢ 0) × (u : List ℕ) × (text s ≡ some u) × (t ≡ b ∷ u))
        → (i : ℕ) × (strchrnul (b ∷ s) c ≡ some i)
          × (i ≤ length t)
          × ((j : ℕ) → j < i → get_or (b ∷ s) j 0 ≢ c % 256)
          × ((get_or (b ∷ s) i 0 ≡ c % 256) ⊎ (i ≡ length t))
    go rest (inl (z, nil)) =
        (0, ground (arith, z), omega arith, λ j h. absurd (omega arith), inr (rw nil refl))
    go rest (inr (nz, u, q, same)) = elim (ℕ_discrete b (c % 256)) [
      | yes here ↦ (0, ground (arith, nz, here), omega arith, λ j h. absurd (omega arith), inl here)
      | no other ↦
          let (i, run, le, before, at) = rest u q in
          (
            suc i,
            ground (arith, nz, other, run),
            rw same (omega (arith, le)),
            later i before other,
            elim at [ inl x ↦ inl x | inr y ↦ inr (rw same (ap suc y)) ],
          )
    ]
