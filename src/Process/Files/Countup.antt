-- ===== src/Process/Files/Countup.antt =====
-- countup_file: one reference more to an object that has one.
use cyanurus.Base.{
  ℕ, suc, ◌+◌, ◌≤◌, ◌<◌, bit_and, ◌≡◌, ◌≢◌, refl, sym, ap, ◌∙◌, inl, inr, true, Option, some, ◌∷◌,
  arith, ◌==◌, if◌then◌else◌, ==_refl, Option-cases, length, update, update_self, update_ne, u32,
  add32,
}
use native.Mathlib.Decide.{ℕ_discrete}
use cyanurus.Pipe
use cyanurus.Pipe.{Pipe}
use cyanurus.Process.Files.{
  Table, World, File, FileType, unused, tty, inode, pipe, countup_pipe, countup_type, countup_file,
}
use cyanurus.Process.Files.Refs.{weigh, is, weigh-cons, weight-le-weigh}
use cyanurus.Process.Files.Sound.{
  access, count_of, readers_of, writers_of, end_of, total, IsSound, referenced,
}
use cyanurus.Process.Files.Objects.{Raised, Stepped, end_of-le, total-lt, total_cong}

-- The pipe with one more holder of the end that `flags` name.
abbrev raised : Pipe → ℕ → Pipe
raised q flags =
    if bit_and flags Pipe.o_accmode == 0
    then record q { readers = q.readers + 1 }
    else record q { writers = q.writers + 1 }

countup_pipe_of :
    (ptr flags : ℕ) (w : World) {q : Pipe}
    → w.pipe ptr ≡ some q
    → bit_and flags Pipe.o_accmode ≤ 1
    → suc q.readers < u32
    → suc q.writers < u32
    → countup_pipe ptr flags w
      ≡ some (tt, record w { pipe = update w.pipe ptr (some (raised q flags)) })
unfolding countup_pipe Pipe.countup
countup_pipe_of ptr flags w {q} e m hr hw = ground arith

raised_at :
    (f : File) (w : World) (ptr p : ℕ) (q : Pipe)
    → f.type ≡ pipe ptr
    → w.pipe ptr ≡ some q
    → access f ≤ 1
    → let pipes = update w.pipe ptr (some (raised q f.flags)) in
      (readers_of (pipes p) ≡ readers_of (w.pipe p) + end_of 0 p (some f))
      × (writers_of (pipes p) ≡ writers_of (w.pipe p) + end_of 1 p (some f))
raised_at f w ptr p q e is_q m = elim (ℕ_discrete ptr p) [
  | yes same ↦
      rw (← same, update_self w.pipe ptr (some (raised q f.flags)))
        (ground (arith, e, is_q), ground (arith, e, is_q))
  | no other ↦
      rw (update_ne w.pipe ptr p (some (raised q f.flags)) other)
        (ground (arith, e, other), ground (arith, e, other))
]

countup_type_lem :
    (f : File) (w : World)
    → ((p : ℕ) → f.type ≡ pipe p → access f ≤ 1)
    → ((p : ℕ) → (suc (readers_of (w.pipe p)) < u32) × (suc (writers_of (w.pipe p)) < u32))
    → ((p : ℕ)
        → (end_of 0 p (some f) ≤ readers_of (w.pipe p))
          × (end_of 1 p (some f) ≤ writers_of (w.pipe p)))
    → Stepped (countup_type f) w (Raised f w)
unfolding countup_type
countup_type_lem f w mode small held = go (f.type) refl
  where
    plain :
        ((p : ℕ) → (end_of 0 p (some f) ≡ 0) × (end_of 1 p (some f) ≡ 0))
        → countup_type f w ≡ some (tt, w)
        → Stepped (countup_type f) w (Raised f w)
    plain none_held same = (w.pipe, same, λ p. omega (arith, none_held p))

    at_pipe : (ptr : ℕ) → f.type ≡ pipe ptr → Stepped (countup_type f) w (Raised f w)
    at_pipe ptr e = elim (Option-cases (w.pipe ptr)) [
      | inl gone ↦ absurd (ground (arith, held ptr, gone, e, mode ptr e))
      | inr (q, is_q) ↦ (
        update w.pipe ptr (some (raised q f.flags)),
        rw e (
            countup_pipe_of ptr f.flags w is_q (mode ptr e) (ground (arith, small ptr, is_q))
              (ground (arith, small ptr, is_q))),
        λ p. raised_at f w ptr p q e is_q (mode ptr e),
      )
    ]

    go : (t : FileType) → f.type ≡ t → Stepped (countup_type f) w (Raised f w)
    go unused e = plain (λ p. ground (arith, e)) (rw e)
    go tty e = plain (λ p. ground (arith, e)) (rw e)
    go (inode d) e = plain (λ p. ground (arith, e)) (rw e)
    go (pipe ptr) e = at_pipe ptr e

-- One weight is below the total wherever there is a reference.
end_held :
    (g : ℕ → ℕ) (extra : Table) (w : World) (a : ℕ)
    → total (is a) extra w ≢ 0
    → g a ≤ total g extra w
end_held g extra w a h = elim (ℕ_discrete (weigh (is a) w.files) 0) [
  | no here ↦ omega (arith, weight-le-weigh g w.files a here)
  | yes x ↦ elim (ℕ_discrete (weigh (is a) w.others) 0) [
    | no here ↦ omega (arith, weight-le-weigh g w.others a here)
    | yes y ↦ omega (arith, weight-le-weigh g extra a (λ z. h (omega (arith, x, y, z))))
  ]
]

module _ {extra : Table} {w : World} (a : ℕ) (s : IsSound extra w) (ref : total (is a) extra w ≢ 0)
    (room : suc (length extra) < 0x1000) where
  countup_type_sound :
      (f : File) (file' : ℕ → Option File)
      → w.file a ≡ some f
      → let w' = record w { file = file' } in Stepped (countup_type f) w' (Raised f w')
  countup_type_sound f file' e =
      countup_type_lem f (record w { file = file' }) (λ p t. s.ends a p f e t)
        (λ p. (
          omega (
            arith,
            s.readers p,
            total-lt (λ b. end_of 0 p (w.file b)) s (λ b. end_of-le 0 p (w.file b)),
          ),
          omega (
            arith,
            s.writers p,
            total-lt (λ b. end_of 1 p (w.file b)) s (λ b. end_of-le 1 p (w.file b)),
          ),
        ))
        (λ p. (
          omega (
            arith,
            s.readers p,
            end_held (λ b. end_of 0 p (w.file b)) extra w a ref,
            ap (end_of 0 p) e,
          ),
          omega (
            arith,
            s.writers p,
            end_held (λ b. end_of 1 p (w.file b)) extra w a ref,
            ap (end_of 1 p) e,
          ),
        ))

  abbrev gained : File → ℕ → Option File
  gained f = update w.file a (some (record f { count = add32 f.count 1 }))

  plain_count : (f : File) → w.file a ≡ some f → add32 f.count 1 ≡ suc (total (is a) extra w)
  plain_count f e = omega (arith, s.counted a, ap count_of e, total-lt (is a) s (λ b. ground arith))

  gained_end :
      (f : File) (mode p b : ℕ)
      → w.file a ≡ some f
      → end_of mode p (gained f b) ≡ end_of mode p (w.file b)
  gained_end f mode p b e = elim (ℕ_discrete a b) [
    | yes same ↦ let t : (a == a) ≡ true = ==_refl a in rw (← same, e, t) refl
    | no other ↦ rw (update_ne w.file a b (some (record f { count = add32 f.count 1 })) other)
  ]

  gained-IsSound :
      (f : File) (pipes : ℕ → Option Pipe)
      → w.file a ≡ some f
      → Raised f w pipes
      → IsSound (some a ∷ extra) (record w { file = gained f; pipe = pipes })
  gained-IsSound f pipes e up = record {
    size = s.size;
    few = s.few;
    few_extra = room;
    counted = λ b. elim (ℕ_discrete a b) [
      | yes same ↦
          rw (← same, update_self w.file a (some (record f { count = add32 f.count 1 })))
            (let one : is a a ≡ 1 = ground arith in
              omega (arith, plain_count f e, weigh-cons (is a) (some a) extra, one))
      | no other ↦ rw (update_ne w.file a b (some (record f { count = add32 f.count 1 })) other) (
          let zero_cost : is b a ≡ 0 = ground arith in
          omega (arith, s.counted b, weigh-cons (is b) (some a) extra, zero_cost))
    ];
    live = λ b g h. elim (ℕ_discrete a b) [
      | yes same ↦ ground (arith, plain_count f e, h)
      | no other ↦
          s.live b g
            (sym (update_ne w.file a b (some (record f { count = add32 f.count 1 })) other) ∙ h)
    ];
    readers = λ p. more 0 p (readers_of (pipes p)) (readers_of (w.pipe p)) (up p).0 (s.readers p);
    writers = λ p. more 1 p (writers_of (pipes p)) (writers_of (w.pipe p)) (up p).1 (s.writers p);
    ends = λ b p g h t. elim (ℕ_discrete a b) [
      | yes same ↦
          let (ty, fl) = same_file f g (ap (gained f) same ∙ h) in
          rw fl (s.ends a p f e (sym ty ∙ t))
      | no other ↦
          s.ends b p g
            (sym (update_ne w.file a b (some (record f { count = add32 f.count 1 })) other) ∙ h) t
    ];
  }
    where
      same_file : (f g : File) → gained f a ≡ some g → (g.type ≡ f.type) × (g.flags ≡ f.flags)
      same_file f g h = (ground arith, ground arith)

      more :
          (mode p now before : ℕ)
          → now ≡ before + end_of mode p (some f)
          → before ≡ total (λ b. end_of mode p (w.file b)) extra w
          → now ≡ total (λ b. end_of mode p (gained f b)) (some a ∷ extra) w
      more mode p now before x y = omega (
        arith,
        total_cong (λ b. end_of mode p (gained f b)) (λ b. end_of mode p (w.file b))
            (some a ∷ extra) w (λ b h. gained_end f mode p b e),
        weigh-cons (λ b. end_of mode p (w.file b)) (some a) extra,
        ap (end_of mode p) e,
      )

  -- An object with a reference can be counted up: the machine does not stop, and the invariant
  -- holds with that reference added. Only objects change.
  pub countup_file-IsSound :
      (files : ℕ → Option File) × (pipes : ℕ → Option Pipe) × (countup_file a w
        ≡ some (tt, record w { file = files; pipe = pipes }))
      × IsSound (some a ∷ extra) (record w { file = files; pipe = pipes })
  unfolding countup_file
  countup_file-IsSound = go (referenced a s ref)
    where
      go :
          (f : File) × (w.file a ≡ some f)
          → (files : ℕ → Option File) × (pipes : ℕ → Option Pipe) × (countup_file a w
              ≡ some (tt, record w { file = files; pipe = pipes }))
            × IsSound (some a ∷ extra) (record w { file = files; pipe = pipes })
      go (f, e) =
          let (pipes, run, up) = countup_type_sound f (gained f) e in
          (gained f, pipes, ground (arith, e, run), gained-IsSound f pipes e up)
