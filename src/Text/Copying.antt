-- ===== src/Text/Copying.antt =====
-- strcpy and strcat, by the strings that the pointers are to.
use cyanurus.Base.{
  ℕ, suc, ◌+◌, ◌<◌, ◌≡◌, ◌≢◌, refl, ap, ◌⊎◌, inl, inr, Option, some, List, [], ◌∷◌, ◌++◌, arith,
  ne→==_false, length, drop,
}
use cyanurus.Text.{strcpy, strcat, text, cons}
use cyanurus.Text.Reading.{text-cons, off_end}

-- `d` after a string `t` was written to its front: the string, and the memory behind it as it was.
abbrev pub Written : (dest t : List ℕ) → (at : ℕ) → Option (List ℕ) → Type 0
Written dest t at o =
    (d : List ℕ) × (o ≡ some d)
    × (text d ≡ some t)
    × (length d ≡ length dest)
    × (drop at d ≡ drop at dest)

more :
    (c : ℕ) (d0 : ℕ) (dest t : List ℕ) (at : ℕ) (o : Option (List ℕ))
    → c ≢ 0
    → Written dest t at o
    → Written (d0 ∷ dest) (c ∷ t) (suc at) (cons c o)
unfolding text
more c d0 dest t at o nz (d, run, str, len, rest) =
    (c ∷ d, ap (cons c) run, ground (arith, nz, str), ap suc len, rest)

-- strcpy of a string that fits returns. The destination then is that string, and the memory behind its
-- end is as it was.
pub strcpy-text :
    (dest src t : List ℕ)
    → text src ≡ some t
    → length t < length dest
    → Written dest t (suc (length t)) (strcpy dest src)
unfolding strcpy text
strcpy-text dest [] t e h = absurd (off_end e)
strcpy-text [] (c ∷ s) t e h = absurd (omega arith)
strcpy-text (d ∷ dest) (c ∷ s) t e h = go (λ u q k. strcpy-text dest s u q k) (text-cons c s e)
  where
    go :
        ((u : List ℕ)
          → text s ≡ some u
          → length u < length dest
          → Written dest u (suc (length u)) (strcpy dest s))
        → ((c ≡ 0) × (t ≡ [])) ⊎ ((c ≢ 0) × (u : List ℕ) × (text s ≡ some u) × (t ≡ c ∷ u))
        → Written (d ∷ dest) t (suc (length t)) (strcpy (d ∷ dest) (c ∷ s))
    go rest (inl (z, nil)) = rw (z, nil) (0 ∷ dest, refl, refl, refl, refl)
    go rest (inr (nz, u, q, same)) =
        rw (same, ne→==_false c 0 nz)
          (more c d dest u (suc (length u)) (strcpy dest s) nz
            (rest u q (omega (arith, h, ap length same))))

-- strcat of two strings that fit returns. The destination then is the one followed by the other, and the
-- memory behind its end is as it was.
pub strcat-text :
    (dest src a b : List ℕ)
    → text dest ≡ some a
    → text src ≡ some b
    → length a + length b < length dest
    → Written dest (a ++ b) (suc (length (a ++ b))) (strcat dest src)
unfolding strcat
strcat-text [] src a b e f h = absurd (omega arith)
strcat-text (d ∷ dest) src a b e f h =
    go (λ u q k. strcat-text dest src u b q f k) (text-cons d dest e)
  where
    go :
        ((u : List ℕ)
          → text dest ≡ some u
          → length u + length b < length dest
          → Written dest (u ++ b) (suc (length (u ++ b))) (strcat dest src))
        → ((d ≡ 0) × (a ≡ [])) ⊎ ((d ≢ 0) × (u : List ℕ) × (text dest ≡ some u) × (a ≡ d ∷ u))
        → Written (d ∷ dest) (a ++ b) (suc (length (a ++ b))) (strcat (d ∷ dest) src)
    go rest (inl (z, nil)) = rw (nil, z) (strcpy-text (0 ∷ dest) src b f (omega (arith, h)))
    go rest (inr (nz, u, q, same)) =
        rw (same, ne→==_false d 0 nz)
          (more d d dest (u ++ b) (suc (length (u ++ b))) (strcat dest src) nz
            (rest u q (omega (arith, h, ap length same))))
