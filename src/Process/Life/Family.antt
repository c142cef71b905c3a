-- ===== src/Process/Life/Family.antt =====
-- Parents and children: process_fork, process_wait and process_destroy of src/kernel/process.c.
use mathlib.Core.Path.{subst}
use cyanurus.Base.{
  All-Elem, Fresh-All, ◌⊎◌, ==_refl, Elem, All-append, Fresh-append, ==_iff, ℕ, ◌<◌, ◌≡◌, ◌≢◌, inl,
  inr, refl, sym, ap, ◌∙◌, some, true, false, Bool-cases, List, [], ◌∷◌, ◌++◌, ◌==◌, arith, update,
  update-each, All, All_mono, All_zip, Fresh, Distinct, Apart, Distinct-append,
}
use cyanurus.Process.Life.{
  Kernel, is_empty, remove, find_toplevel_process, adopt, bequeath, destroy_other,
}
use cyanurus.Process.Life.Sound.{All-Fresh, Distinct-remove, remove-All}

-- Each child is on the list of its parent only, and once.
pub record Kin (n : ℕ) (parent : ℕ → ℕ) (children : ℕ → List ℕ) : Type 0 where
  pub child : (q : ℕ) → All (λ c. (parent c ≡ q) × (c < n)) (children q)
  pub once : (q : ℕ) → Distinct (children q)

abbrev pub IsFamily : Kernel → Type 0
IsFamily s = Kin s.max_id s.parent s.children

-- a process with itself as its parent, which process_create makes
abbrev pub TopLevel : Kernel → ℕ → Type 0
TopLevel s t = (s.parent t ≡ t) × Elem t s.all_processes

pub remove-Elem : (p t : ℕ) (xs : List ℕ) → p ≢ t → Elem t xs → Elem t (remove p xs)
remove-Elem p t [] n m = m
remove-Elem p t (x ∷ xs) n (inl e) = let f : (p == x) ≡ false = ground arith in rw f (inl e)
remove-Elem p t (x ∷ xs) n (inr m) = elim (Bool-cases (p == x)) [
  | inl e ↦ rw e m
  | inr e ↦ rw e (inr (remove-Elem p t xs n m))
]

-- removed from a list without repetition, it is gone
pub remove-gone : (p : ℕ) (xs : List ℕ) → Distinct xs → Fresh p (remove p xs)
remove-gone p [] d = tt
remove-gone p (x ∷ xs) d = elim (Bool-cases (p == x)) [
  | inl e ↦ let y : p ≡ x = ground arith in rw e (rw y d.0)
  | inr e ↦ rw e ((λ y. ground arith), remove-gone p xs d.1)
]

find_toplevel-some :
    (parent : ℕ → ℕ) (t : ℕ) (ps : List ℕ)
    → parent t ≡ t
    → Elem t ps
    → (u : ℕ) × (find_toplevel_process parent ps ≡ some u) × (parent u ≡ u) × Elem u ps
unfolding find_toplevel_process
find_toplevel-some parent t [] e m = absurd m
find_toplevel-some parent t (p ∷ ps) e (inl m) =
    let y : (parent p == p) ≡ true = (==_iff (parent p) p).1 (rw (sym m) e) in
    (p, rw y refl, (==_iff (parent p) p).0 y, inl refl)
find_toplevel-some parent t (p ∷ ps) e (inr m) = elim (Bool-cases (parent p == p)) [
  | inl y ↦ (p, rw y refl, (==_iff (parent p) p).0 y, inl refl)
  | inr y ↦ let (u, f, g, h) = find_toplevel-some parent t ps e m in (u, rw y f, g, inr h)
]

adopt_ne :
    (parent : ℕ → ℕ) (t : ℕ) (cs : List ℕ) (q : ℕ) → Fresh q cs → adopt parent t cs q ≡ parent q
adopt_ne parent t [] q f = refl
adopt_ne parent t (c ∷ cs) q f = adopt_ne (update parent c t) t cs q f.1 ∙ ground arith

-- Once its parent is `t`, adoption by `t` does not change it.
adopt-keeps :
    (parent : ℕ → ℕ) (t : ℕ) (cs : List ℕ) (q : ℕ) → parent q ≡ t → adopt parent t cs q ≡ t
adopt-keeps parent t [] q e = e
adopt-keeps parent t (c ∷ cs) q e = adopt-keeps (update parent c t) t cs q (ground arith)

adopt-All : (parent : ℕ → ℕ) (t : ℕ) (cs : List ℕ) → All (λ c. adopt parent t cs c ≡ t) cs
adopt-All parent t [] = tt
adopt-All parent t (c ∷ cs) =
    (adopt-keeps (update parent c t) t cs c (ground arith), adopt-All (update parent c t) t cs)

pub Kin-remove :
    (n : ℕ) (parent : ℕ → ℕ) (children : ℕ → List ℕ) (p : ℕ)
    → Kin n parent children
    → Kin n parent (λ q. remove p (children q))
Kin-remove n parent children p k = record {
  child = λ q. remove-All (λ c. (parent c ≡ q) × (c < n)) p (children q) (k.child q);
  once = λ q. Distinct-remove p (children q) (k.once q);
}

-- no process is on two lists
strangers :
    (n : ℕ) (parent : ℕ → ℕ) (p t : ℕ) (xs ys : List ℕ)
    → p ≢ t
    → All (λ c. (parent c ≡ p) × (c < n)) xs
    → All (λ c. (parent c ≡ t) × (c < n)) ys
    → Apart xs ys
strangers n parent p t [] ys d h k = tt
strangers n parent p t (x ∷ xs) ys d h k = (
  All-Fresh (λ c. (parent c ≡ t) × (c < n)) x ys (λ q y e. d (sym h.0.0 ∙ ap parent e ∙ y.0)) k,
  strangers n parent p t xs ys d h.1 k,
)

-- The children of `p` given to `t`.
Kin-adopt :
    (n : ℕ) (parent : ℕ → ℕ) (children : ℕ → List ℕ) (p t : ℕ)
    → p ≢ t
    → Kin n parent children
    → Kin n
        (adopt parent t (children p))
        (update (update children t (children p ++ children t)) p [])
Kin-adopt n parent children p t d k =
    let cs = children p in
    let P = λ (q c : ℕ). (adopt parent t cs c ≡ q) × (c < n) in
    let own : All (P t) cs =
      All_mono (λ c. (adopt parent t cs c ≡ t) × ((parent c ≡ p) × (c < n))) (P t) cs
        (λ c h. (h.0, h.1.1))
        (All_zip (λ c. adopt parent t cs c ≡ t) (λ c. (parent c ≡ p) × (c < n)) cs
          (adopt-All parent t cs) (k.child p)) in
    let other : (q : ℕ) → p ≢ q → All (P q) (children q) = λ q e.
      All_mono (λ c. (parent c ≡ q) × (c < n)) (P q) (children q)
        (λ c h. (
          adopt_ne parent t cs c (
                All-Fresh (λ x. (parent x ≡ p) × (x < n)) c cs
                  (λ y w z. e (sym w.0 ∙ ap parent (sym z) ∙ h.0)) (k.child p))
              ∙ h.0,
          h.1,
        ))
        (k.child q) in
    record {
      child =
          update-each (λ q xs. All (P q) xs) (update children t (cs ++ children t)) p [] tt
            (λ q e.
              update-each (λ q xs. (p ≢ q) → All (P q) xs) children t (cs ++ children t)
                (λ f. All-append (P t) cs (children t) own (other t f)) (λ q f g. other q g) q e);
      once =
          update-each (λ q xs. Distinct xs) (update children t (cs ++ children t)) p [] tt
            (λ q e.
              update-each (λ q xs. Distinct xs) children t (cs ++ children t)
                (Distinct-append cs (children t) (k.once p) (k.once t)
                  (strangers n parent p t cs (children t) d (k.child p) (k.child t)))
                (λ q f. k.once q) q);
    }

-- what is left of the families when `p` goes
abbrev pub Left : ℕ → List ℕ → ℕ → (ℕ → ℕ) × (ℕ → List ℕ) → Type 0
Left n all p (parent, children) =
    Kin n parent children
    × ((q : ℕ) → Fresh p (children q))
    × ((u : ℕ) × (parent u ≡ u) × Elem u all)

bequeath-some :
    (s : Kernel) (p u : ℕ)
    → is_empty (s.children p) ≡ false
    → find_toplevel_process s.parent s.all_processes ≡ some u
    → bequeath s p ≡ (
      adopt s.parent u (s.children p),
      update (update s.children u (s.children p ++ s.children u)) p [],
    )
unfolding bequeath
bequeath-some s p u f e = rw (f, e) refl

bequeath-none :
    (s : Kernel) (p : ℕ) → is_empty (s.children p) ≡ true → bequeath s p ≡ (s.parent, s.children)
unfolding bequeath
bequeath-none s p t = rw t refl

pub bequeath-Left :
    (s : Kernel) (p t : ℕ)
    → IsFamily s
    → ((q : ℕ) → Fresh p (s.children q))
    → TopLevel s t
    → s.parent p ≢ p
    → Left s.max_id s.all_processes p (bequeath s p)
bequeath-Left s p t k f m d = elim (Bool-cases (is_empty (s.children p))) [
  | inl y ↦ rw (bequeath-none s p y) (k, f, (t, m.0, m.1))
  | inr y ↦
      let (u, e, g, h) = find_toplevel-some s.parent t s.all_processes m.0 m.1 in
      let z : p ≢ u = λ x. d (rw x g) in
      let w = f p in
      rw (bequeath-some s p u y e) (
        Kin-adopt s.max_id s.parent s.children p u z k,
        update-each (λ q xs. Fresh p xs) (update s.children u (s.children p ++ s.children u)) p []
            tt
            (λ q i.
              update-each (λ q xs. Fresh p xs) s.children u (s.children p ++ s.children u)
                (Fresh-append p (s.children p) (s.children u) w (f u)) (λ q j. f q) q),
        (u, adopt-keeps s.parent u (s.children p) u g, h),
      )
]

-- `c` is on the list of its parent, or is its own parent
abbrev pub IsHome : ℕ → (ℕ → ℕ) → (ℕ → List ℕ) → ℕ → Type 0
IsHome n parent children c = (parent c < n) × ((parent c ≡ c) ⊎ Elem c (children (parent c)))

remove-IsHome :
    (n : ℕ) (parent : ℕ → ℕ) (children : ℕ → List ℕ) (p c : ℕ)
    → p ≢ c
    → IsHome n parent children c
    → IsHome n parent (λ q. remove p (children q)) c
remove-IsHome n parent children p c d (l, inl e) = (l, inl e)
remove-IsHome n parent children p c d (l, inr m) =
    (l, inr (remove-Elem p c (children (parent c)) d m))

Elem-left : (c : ℕ) (xs ys : List ℕ) → Elem c xs → Elem c (xs ++ ys)
Elem-left c [] ys m = absurd m
Elem-left c (x ∷ xs) ys (inl e) = inl e
Elem-left c (x ∷ xs) ys (inr m) = inr (Elem-left c xs ys m)

Elem-right : (c : ℕ) (xs ys : List ℕ) → Elem c ys → Elem c (xs ++ ys)
Elem-right c [] ys m = m
Elem-right c (x ∷ xs) ys m = inr (Elem-right c xs ys m)

update-same_list :
    (children : ℕ → List ℕ) (p u : ℕ)
    → p ≢ u
    → update (update children u (children p ++ children u)) p [] u ≡ children p ++ children u
update-same_list children p u d = let f : (p == u) ≡ false = ground arith in rw (f, ==_refl u) refl

update-Elem_list :
    (children : ℕ → List ℕ) (p u q c : ℕ)
    → p ≢ q
    → Elem c (children q)
    → Elem c (update (update children u (children p ++ children u)) p [] q)
update-Elem_list children p u q c d m =
    let f : (p == q) ≡ false = ground arith in
    rw f (elim (Bool-cases (u == q)) [
      | inl t ↦
          let e : q ≡ u = ground arith in
          rw t (Elem-right c (children p) (children u) (subst (λ x. Elem c (children x)) e m))
      | inr n ↦ rw n m
    ])

adopt-IsHome :
    (n : ℕ) (parent : ℕ → ℕ) (children : ℕ → List ℕ) (p u c : ℕ)
    → p ≢ u
    → u < n
    → p ≢ c
    → Kin n parent children
    → IsHome n parent children c
    → IsHome n
        (adopt parent u (children p))
        (update (update children u (children p ++ children u)) p [])
        c
adopt-IsHome n parent children p u c d l e k (h, m) = elim (Bool-cases (parent c == p)) [
  | inl t ↦
      let y : parent c ≡ p = ground arith in
      let i : Elem c (children p) = elim m [
        | inl z ↦ absurd (e (sym y ∙ z))
        | inr z ↦ subst (λ x. Elem c (children x)) y z
      ] in
      let a : adopt parent u (children p) c ≡ u =
        All-Elem (λ x. adopt parent u (children p) x ≡ u) c (children p)
          (adopt-All parent u (children p)) i in
      rw a (
        l,
        inr (
            subst (Elem c) (sym (update-same_list children p u d))
              (Elem-left c (children p) (children u) i)),
      )
  | inr f ↦
      let y : parent c ≢ p = ground arith in
      let a : adopt parent u (children p) c ≡ parent c = adopt_ne parent u (children p) c (
        All-Fresh (λ x. (parent x ≡ p) × (x < n)) c (children p) (λ q w z. y (ap parent z ∙ w.0))
          (k.child p)) in
      rw a (
        h,
        elim m [
          | inl z ↦ inl z
          | inr z ↦ inr (update-Elem_list children p u (parent c) c (λ x. y (sym x)) z)
        ],
      )
]

-- When `p` goes, each other process is still on the list of its parent.
pub bequeath-IsHome :
    (s : Kernel) (p t c : ℕ)
    → IsFamily s
    → TopLevel s t
    → s.parent p ≢ p
    → All (λ q. q < s.max_id) s.all_processes
    → p ≢ c
    → IsHome s.max_id s.parent s.children c
    → IsHome s.max_id (bequeath s p).0 (bequeath s p).1 c
bequeath-IsHome s p t c k m d a n h = elim (Bool-cases (is_empty (s.children p))) [
  | inl y ↦ rw (bequeath-none s p y) h
  | inr y ↦
      let (u, e, g, i) = find_toplevel-some s.parent t s.all_processes m.0 m.1 in
      let z : p ≢ u = λ x. d (rw x g) in
      rw (bequeath-some s p u y e) (
        adopt-IsHome s.max_id s.parent s.children p u c z
          (All-Elem (λ q. q < s.max_id) u s.all_processes a i) n k h)
]

-- of all processes without `p`
pub destroy-IsHome :
    (s : Kernel) (p t : ℕ)
    → IsFamily s
    → TopLevel s t
    → p ≢ t
    → s.parent p ≢ p
    → All (λ q. q < s.max_id) s.all_processes
    → Distinct s.all_processes
    → All (IsHome s.max_id s.parent s.children) s.all_processes
    → let r = destroy_other s p in All (IsHome r.max_id r.parent r.children) r.all_processes
unfolding destroy_other
destroy-IsHome s p t k (e, m) o d a u l =
    let s1 : Kernel = record s {
      run_queue = remove p s.run_queue;
      all_processes = remove p s.all_processes;
      children = λ q. remove p (s.children q);
    } in
    let n = s.max_id in
    let all = remove p s.all_processes in
    let known = remove-All (λ q. q < n) p s.all_processes a in
    All_mono (λ c. (p ≢ c) × IsHome n s.parent s.children c)
      (IsHome n (bequeath s1 p).0 (bequeath s1 p).1) all
      (λ c h.
        bequeath-IsHome s1 p t c (Kin-remove n s.parent s.children p k)
          (e, remove-Elem p t s.all_processes o m) d known h.0
          (remove-IsHome n s.parent s.children p c h.0 h.1))
      (All_zip (λ c. p ≢ c) (IsHome n s.parent s.children) all
        (Fresh-All p all (remove-gone p s.all_processes u))
        (remove-All (IsHome n s.parent s.children) p s.all_processes l))
