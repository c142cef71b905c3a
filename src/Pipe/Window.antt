-- ===== src/Pipe/Window.antt =====
-- The bytes that a ring page holds, and what copying does to them.
use cyanurus.Base.{
  ℕ, zero, suc, ◌+◌, ◌-◌, ◌%◌, ◌≤◌, ◌<◌, ◌≡◌, refl, ap, ◌∙◌, ◌⊎◌, inl, List, [], ◌∷◌, ◌++◌, arith,
  length, take, drop, update, update_self, update_ne,
}
use cyanurus.Pipe.{page_size, copy_out, copy_in}

-- the `n` bytes from `p` on, going round at the end of the page
unfoldable pub window : (ℕ → ℕ) → ℕ → ℕ → List ℕ
window page p zero = []
window page p (suc n) = page p ∷ window page ((p + 1) % page_size) n

pub length-window : (page : ℕ → ℕ) (p n : ℕ) → length (window page p n) ≡ n
unfolding window
length-window page p zero = refl
length-window page p (suc n) = ap suc (length-window page ((p + 1) % page_size) n)

pub length-copy_out : (page : ℕ → ℕ) (p n : ℕ) → length (copy_out page p n) ≡ n
unfolding copy_out
length-copy_out page p zero = refl
length-copy_out page p (suc n) = ap suc (length-copy_out page (p + 1) n)

-- Copying up to the end of the page reads the window.
pub copy_out-window :
    (page : ℕ → ℕ) (p n : ℕ) → p + n ≤ page_size → copy_out page p n ≡ window page p n
unfolding copy_out window
copy_out-window page p zero h = refl
copy_out-window page p (suc zero) h = refl
copy_out-window page p (suc (suc n)) h =
    let e : (p + 1) % page_size ≡ p + 1 = omega arith in
    rw e (ap (λ t. page p ∷ t) (copy_out-window page (p + 1) (suc n) (omega arith)))

pub take-window : (page : ℕ → ℕ) (p n m : ℕ) → n ≤ m → take n (window page p m) ≡ window page p n
unfolding window
take-window page p zero m h = refl
take-window page p (suc n) zero h = absurd (omega arith)
take-window page p (suc n) (suc m) h =
    ap (λ t. page p ∷ t) (take-window page ((p + 1) % page_size) n m (omega arith))

pub drop-window :
    (page : ℕ → ℕ) (p n m : ℕ)
    → p < page_size
    → n ≤ m
    → drop n (window page p m) ≡ window page ((p + n) % page_size) (m - n)
unfolding window
drop-window page p zero m h k =
    let e : (p + 0) % page_size ≡ p = omega arith in let f : m - 0 ≡ m = omega arith in rw (e, f)
drop-window page p (suc n) zero h k = absurd (omega arith)
drop-window page p (suc n) (suc m) h k =
    let e : (p + suc n) % page_size ≡ ((p + 1) % page_size + n) % page_size = omega arith in
    let f : suc m - suc n ≡ m - n = omega arith in
    rw (e, f) (drop-window page ((p + 1) % page_size) n m (omega arith) (omega arith))

pub window-append :
    (page : ℕ → ℕ) (p n m : ℕ)
    → p < page_size
    → window page p (n + m) ≡ window page p n ++ window page ((p + n) % page_size) m
unfolding window
window-append page p zero m h =
    let e : (p + 0) % page_size ≡ p = omega arith in let f : 0 + m ≡ m = omega arith in rw (e, f)
window-append page p (suc n) m h =
    let e : (p + suc n) % page_size ≡ ((p + 1) % page_size + n) % page_size = omega arith in
    let f : suc n + m ≡ suc (n + m) = omega arith in
    rw (e, f) (ap (λ t. page p ∷ t) (window-append page ((p + 1) % page_size) n m (omega arith)))

-- Copying in changes the bytes of its range only.
pub copy_in_outside :
    (page : ℕ → ℕ) (p : ℕ) (xs : List ℕ) (a : ℕ)
    → (a < p) ⊎ (p + length xs ≤ a)
    → copy_in page p xs a ≡ page a
unfolding copy_in
copy_in_outside page p [] a h = refl
copy_in_outside page p (x ∷ xs) a h =
    copy_in_outside (update page p x) (p + 1) xs a (omega arith)
    ∙ update_ne page p a x (omega arith)

-- What was copied in is what the window reads there.
pub window-copy_in :
    (page : ℕ → ℕ) (p : ℕ) (xs : List ℕ)
    → p + length xs ≤ page_size
    → window (copy_in page p xs) p (length xs) ≡ xs
unfolding window copy_in
window-copy_in page p [] h = refl
window-copy_in page p (x ∷ []) h = ap (λ t. t ∷ []) (update_self page p x)
window-copy_in page p (x ∷ y ∷ xs) h =
    let e : (p + 1) % page_size ≡ p + 1 = omega arith in
    rw e (
      cc (
        copy_in_outside (update page p x) (p + 1) (y ∷ xs) p (inl (omega arith)),
        update_self page p x,
        window-copy_in (update page p x) (p + 1) (y ∷ xs) (omega arith),
      ))

-- A window that does not meet the range reads as before.
pub window-copy_in_apart :
    (page : ℕ → ℕ) (start : ℕ) (xs : List ℕ) (p n : ℕ)
    → ((a : ℕ) → a < n → ((p + a) % page_size < start) ⊎ (start + length xs ≤ (p + a) % page_size))
    → p < page_size
    → window (copy_in page start xs) p n ≡ window page p n
unfolding window
window-copy_in_apart page start xs p zero h k = refl
window-copy_in_apart page start xs p (suc n) h k = cc (
  copy_in_outside page start xs p (omega (arith, h 0 (omega arith))),
  window-copy_in_apart page start xs ((p + 1) % page_size) n
      (λ a l.
        let e : (p + suc a) % page_size ≡ ((p + 1) % page_size + a) % page_size = omega arith in
        omega (arith, h (suc a) (omega arith)))
      (omega arith),
)
