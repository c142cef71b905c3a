-- ===== src/Base/Repetition.antt =====
-- Lists without repetition.
use native.Mathlib.Omega.{arith}
use Prim.Native.Nat.{ℕ}
use mathlib.Core.Path.{◌≡◌, sym}
use mathlib.Core.Logic.{◌≢◌, ◌⊎◌, inl, inr}
use mathlib.Core.List.{List, [], ◌∷◌, ◌++◌}

abbrev pub Fresh : ℕ → List ℕ → Type 0
Fresh a [] = Unit
Fresh a (x ∷ xs) = (a ≢ x) × Fresh a xs

abbrev pub Distinct : List ℕ → Type 0
Distinct [] = Unit
Distinct (x ∷ xs) = Fresh x xs × Distinct xs

pub Fresh-append : (a : ℕ) (xs ys : List ℕ) → Fresh a xs → Fresh a ys → Fresh a (xs ++ ys)
Fresh-append a [] ys h k = k
Fresh-append a (x ∷ xs) ys h k = (h.0, Fresh-append a xs ys h.1 k)

pub Fresh_left : (a : ℕ) (xs ys : List ℕ) → Fresh a (xs ++ ys) → Fresh a xs
Fresh_left a [] ys h = tt
Fresh_left a (x ∷ xs) ys h = (h.0, Fresh_left a xs ys h.1)

pub Fresh_right : (a : ℕ) (xs ys : List ℕ) → Fresh a (xs ++ ys) → Fresh a ys
Fresh_right a [] ys h = h
Fresh_right a (x ∷ xs) ys h = Fresh_right a xs ys h.1

-- an element taken out of the middle
pub Fresh_middle :
    (a b : ℕ) (xs ys : List ℕ) → Fresh a (xs ++ b ∷ ys) → (a ≢ b) × Fresh a (xs ++ ys)
Fresh_middle a b [] ys h = (h.0, h.1)
Fresh_middle a b (x ∷ xs) ys h = let r = Fresh_middle a b xs ys h.1 in (r.0, (h.0, r.1))

pub Distinct-middle :
    (b : ℕ) (xs ys : List ℕ) → Distinct (xs ++ b ∷ ys) → Fresh b (xs ++ ys) × Distinct (xs ++ ys)
Distinct-middle b [] ys h = (h.0, h.1)
Distinct-middle b (x ∷ xs) ys h =
    let r = Distinct-middle b xs ys h.1 in
    let m = Fresh_middle x b xs ys h.0 in (((λ e. m.0 (sym e)), r.0), (m.1, r.1))

abbrev pub Apart : List ℕ → List ℕ → Type 0
Apart [] ys = Unit
Apart (x ∷ xs) ys = Fresh x ys × Apart xs ys

pub Distinct-append :
    (xs ys : List ℕ) → Distinct xs → Distinct ys → Apart xs ys → Distinct (xs ++ ys)
Distinct-append [] ys h k apart = k
Distinct-append (x ∷ xs) ys h k apart =
    (Fresh-append x xs ys h.0 apart.0, Distinct-append xs ys h.1 k apart.1)

pub Fresh_of_eq : (a b : ℕ) (xs : List ℕ) → a ≡ b → Fresh a xs → Fresh b xs
Fresh_of_eq a b [] e h = tt
Fresh_of_eq a b (x ∷ xs) e h = (ground arith, Fresh_of_eq a b xs e h.1)

pub Apart-uncons :
    (ys : List ℕ) (x : ℕ) (xs : List ℕ) → Apart ys (x ∷ xs) → Fresh x ys × Apart ys xs
Apart-uncons [] x xs h = (tt, tt)
Apart-uncons (y ∷ ys) x xs h =
    let r = Apart-uncons ys x xs h.1 in (((λ e. h.0.0 (sym e)), r.0), (h.0.1, r.1))

abbrev pub All {ℓ κ} : {A : Type ℓ} → (A → Type κ) → List A → Type κ
All P [] = Unit
All P (x ∷ xs) = P x × All P xs

pub All_left {ℓ κ} : {A : Type ℓ} (P : A → Type κ) (xs ys : List A) → All P (xs ++ ys) → All P xs
All_left P [] ys h = tt
All_left P (x ∷ xs) ys h = (h.0, All_left P xs ys h.1)

pub All_right {ℓ κ} : {A : Type ℓ} (P : A → Type κ) (xs ys : List A) → All P (xs ++ ys) → All P ys
All_right P [] ys h = h
All_right P (x ∷ xs) ys h = All_right P xs ys h.1

pub All_mono {ℓ κ μ} :
    {A : Type ℓ} (P : A → Type κ) (Q : A → Type μ) (xs : List A)
    → ((x : A) → P x → Q x)
    → All P xs
    → All Q xs
All_mono P Q [] f h = tt
All_mono P Q (x ∷ xs) f h = (f x h.0, All_mono P Q xs f h.1)

pub All_zip {ℓ κ μ} :
    {A : Type ℓ} (P : A → Type κ) (Q : A → Type μ) (xs : List A)
    → All P xs
    → All Q xs
    → All (λ x. P x × Q x) xs
All_zip P Q [] h k = tt
All_zip P Q (x ∷ xs) h k = ((h.0, k.0), All_zip P Q xs h.1 k.1)

abbrev pub Elem : ℕ → List ℕ → Type 0
Elem a [] = ⊥
Elem a (x ∷ xs) = (a ≡ x) ⊎ Elem a xs

pub All-Elem {κ} : (P : ℕ → Type κ) (a : ℕ) (xs : List ℕ) → All P xs → Elem a xs → P a
All-Elem P a [] h m = absurd m
All-Elem P a (x ∷ xs) h (inl e) = rw e h.0
All-Elem P a (x ∷ xs) h (inr m) = All-Elem P a xs h.1 m

pub All-append {ℓ κ} :
    {A : Type ℓ} (P : A → Type κ) (xs ys : List A) → All P xs → All P ys → All P (xs ++ ys)
All-append P [] ys h k = k
All-append P (x ∷ xs) ys h k = (h.0, All-append P xs ys h.1 k)

pub All-Fresh :
    (P : ℕ → Type 0) (p : ℕ) (xs : List ℕ) → ((q : ℕ) → P q → p ≢ q) → All P xs → Fresh p xs
All-Fresh P p [] f h = tt
All-Fresh P p (x ∷ xs) f h = (f x h.0, All-Fresh P p xs f h.1)

pub Fresh-All : (p : ℕ) (xs : List ℕ) → Fresh p xs → All (λ q. p ≢ q) xs
Fresh-All p [] h = tt
Fresh-All p (x ∷ xs) h = (h.0, Fresh-All p xs h.1)
