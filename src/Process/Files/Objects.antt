-- ===== src/Process/Files/Objects.antt =====
-- countup_file and release_file: one reference more, one reference fewer.
use cyanurus.Base.{
  ℕ, suc, ◌+◌, ◌≤◌, ◌<◌, bit_and, ◌≡◌, ◌≢◌, refl, sym, ap, ◌∙◌, inl, inr, Option, none, some, ◌∷◌,
  arith, ◌==◌, if◌then◌else◌, ne→==_false, Bool-cases, Option-cases, update, update_self, update_ne,
  u32, sub32,
}
use native.Mathlib.Decide.{ℕ_discrete}
use cyanurus.Pipe
use cyanurus.Pipe.{Pipe, Released, kept, freed, halted, settle}
use cyanurus.Process.Files.{
  Table, World, File, FileType, unused, tty, inode, pipe, M, store, pure, release_pipe,
  release_type, release_file,
}
use cyanurus.Process.Files.Sound.{
  access, count_of, readers_of, writers_of, end_type, end_of, total, IsSound, referenced,
}
use cyanurus.Process.Files.Refs.{is, weigh-cons, weigh_cong, weigh-le-length}

-- The pipe that release leaves, if its memory is not given back.
abbrev left_over : Released → Option Pipe
left_over (kept q) = some q
left_over (freed q) = none
left_over halted = none

release_pipe_of :
    (ptr flags : ℕ) (w : World) {q : Pipe}
    → w.pipe ptr ≡ some q
    → Pipe.release q flags ≢ halted
    → release_pipe ptr flags w
      ≡ some (tt, record w { pipe = update w.pipe ptr (left_over (Pipe.release q flags)) })
unfolding release_pipe
release_pipe_of ptr flags w {q} e h = ground arith

-- Releasing an end that is held: the machine does not stop, and that end's count falls by one.
release_counts :
    (q : Pipe) (flags : ℕ)
    → bit_and flags Pipe.o_accmode ≤ 1
    → q.readers < u32
    → q.writers < u32
    → (bit_and flags Pipe.o_accmode ≡ 0 → q.readers ≢ 0)
    → (bit_and flags Pipe.o_accmode ≡ 1 → q.writers ≢ 0)
    → (Pipe.release q flags ≢ halted)
      × (readers_of (left_over (Pipe.release q flags))
            + (if bit_and flags Pipe.o_accmode == 0 then 1 else 0)
          ≡ q.readers)
      × (writers_of (left_over (Pipe.release q flags))
            + (if bit_and flags Pipe.o_accmode == 1 then 1 else 0)
          ≡ q.writers)
unfolding Pipe.release Pipe.settle Pipe.wake_all_readers Pipe.wake_all_writers
release_counts q flags h r w hr hw = (ground arith, ground arith, ground arith)

-- What one step does to the pipes when an end `f` is let go: its pipe's count falls by one.
abbrev pub Lowered : File → World → (ℕ → Option Pipe) → Type 0
Lowered f w pipes =
    (p : ℕ)
    → (readers_of (pipes p) + end_of 0 p (some f) ≡ readers_of (w.pipe p))
      × (writers_of (pipes p) + end_of 1 p (some f) ≡ writers_of (w.pipe p))

abbrev pub Raised : File → World → (ℕ → Option Pipe) → Type 0
Raised f w pipes =
    (p : ℕ)
    → (readers_of (pipes p) ≡ readers_of (w.pipe p) + end_of 0 p (some f))
      × (writers_of (pipes p) ≡ writers_of (w.pipe p) + end_of 1 p (some f))

-- A step on the pipes that succeeds, with what it does to them.
abbrev pub Stepped : M (Unit {0}) → World → ((ℕ → Option Pipe) → Type 0) → Type 0
Stepped m w Q = (pipes : ℕ → Option Pipe) × (m w ≡ some (tt, record w { pipe = pipes })) × Q pipes

lowered :
    (f : File) (w : World) (ptr p : ℕ) (q : Pipe) (o : Option Pipe)
    → f.type ≡ pipe ptr
    → w.pipe ptr ≡ some q
    → (readers_of o + (if bit_and f.flags Pipe.o_accmode == 0 then 1 else 0) ≡ q.readers)
      × (writers_of o + (if bit_and f.flags Pipe.o_accmode == 1 then 1 else 0) ≡ q.writers)
    → (readers_of (update w.pipe ptr o p) + end_of 0 p (some f) ≡ readers_of (w.pipe p))
      × (writers_of (update w.pipe ptr o p) + end_of 1 p (some f) ≡ writers_of (w.pipe p))
lowered f w ptr p q o e is_q c = elim (ℕ_discrete ptr p) [
  | yes same ↦
      rw (← same, update_self w.pipe ptr o) (ground (arith, e, is_q, c), ground (arith, e, is_q, c))
  | no other ↦
      rw (update_ne w.pipe ptr p o other) (ground (arith, e, other), ground (arith, e, other))
]

module _ (f : File) (w : World) (mode : (p : ℕ) → f.type ≡ pipe p → access f ≤ 1)
    (small : (p : ℕ) → (suc (readers_of (w.pipe p)) < u32) × (suc (writers_of (w.pipe p)) < u32))
    (held : (p : ℕ)
      → (end_of 0 p (some f) ≤ readers_of (w.pipe p))
        × (end_of 1 p (some f) ≤ writers_of (w.pipe p))) where
  release_type_pipe : (ptr : ℕ) → f.type ≡ pipe ptr → Stepped (release_type f) w (Lowered f w)
  unfolding release_type
  release_type_pipe ptr e = elim (Option-cases (w.pipe ptr)) [
    | inl gone ↦ absurd (ground (arith, held ptr, gone, e, mode ptr e))
    | inr (q, is_q) ↦
        let counts =
          release_counts q f.flags (mode ptr e) (ground (arith, small ptr, is_q))
            (ground (arith, small ptr, is_q)) (λ z. ground (arith, held ptr, is_q, e, z))
            (λ z. ground (arith, held ptr, is_q, e, z)) in
        (
          update w.pipe ptr (left_over (Pipe.release q f.flags)),
          rw e (release_pipe_of ptr f.flags w is_q counts.0),
          λ p. lowered f w ptr p q (left_over (Pipe.release q f.flags)) e is_q (counts.1, counts.2),
        )
  ]

  release_type_lem : Stepped (release_type f) w (Lowered f w)
  unfolding release_type
  release_type_lem = go (f.type) refl
    where
      plain :
          ((p : ℕ) → (end_of 0 p (some f) ≡ 0) × (end_of 1 p (some f) ≡ 0))
          → release_type f w ≡ some (tt, w)
          → Stepped (release_type f) w (Lowered f w)
      plain none_held same = (w.pipe, same, λ p. omega (arith, none_held p))

      go : (t : FileType) → f.type ≡ t → Stepped (release_type f) w (Lowered f w)
      go unused e = plain (λ p. ground (arith, e)) (rw e)
      go tty e = plain (λ p. ground (arith, e)) (rw e)
      go (inode d) e = plain (λ p. ground (arith, e)) (rw e)
      go (pipe ptr) e = release_type_pipe ptr e

-- The weights of one end never exceed the references, so no count comes near 2 ^ 32.
pub end_of-le : (mode p : ℕ) (o : Option File) → end_of mode p o ≤ 1
end_of-le mode p none = omega arith
end_of-le mode p (some f) = go (f.type)
  where
    go : (t : FileType) → end_type t mode p (access f) ≤ 1
    go unused = omega arith
    go tty = omega arith
    go (inode d) = omega arith
    go (pipe q) = ground arith

pub total-lt :
    {extra : Table} {w : World} (g : ℕ → ℕ)
    → IsSound extra w
    → ((a : ℕ) → g a ≤ 1)
    → suc (total g extra w) < u32
total-lt {extra} {w} g s h = omega (
  arith,
  weigh-le-length g w.files h,
  weigh-le-length g w.others h,
  weigh-le-length g extra h,
  s.size,
  s.few,
  s.few_extra,
)

-- Weights that agree on every object with a reference give the same totals.
pub total_cong :
    (g h : ℕ → ℕ) (extra : Table) (w : World)
    → ((a : ℕ) → total (is a) extra w ≢ 0 → g a ≡ h a)
    → total g extra w ≡ total h extra w
total_cong g h extra w same = omega (
  arith,
  weigh_cong g h w.files (λ a nz. same a (omega arith)),
  weigh_cong g h w.others (λ a nz. same a (omega arith)),
  weigh_cong g h extra (λ a nz. same a (omega arith)),
)

module _ {extra : Table} {w : World} (a : ℕ) (s : IsSound (some a ∷ extra) w) where
  ref_here : total (is a) (some a ∷ extra) w ≢ 0
  ref_here = λ z. absurd (ground (arith, weigh-cons (is a) (some a) extra))

  end_here :
      (mode p : ℕ) (f : File)
      → w.file a ≡ some f
      → end_of mode p (some f) ≤ total (λ b. end_of mode p (w.file b)) (some a ∷ extra) w
  end_here mode p f e =
      omega (arith, weigh-cons (λ b. end_of mode p (w.file b)) (some a) extra, ap (end_of mode p) e)

  -- The object that the reference names can be let go: the pipe, if it is one, has that end.
  release_type_sound :
      (t : Table) (f : File) (file' : ℕ → Option File)
      → w.file a ≡ some f
      → let w' = record w { files = t; file = file' } in Stepped (release_type f) w' (Lowered f w')
  release_type_sound t f file' e =
      release_type_lem f (record w { files = t; file = file' }) (λ p t. s.ends a p f e t)
        (λ p. (
          omega (
            arith,
            s.readers p,
            total-lt (λ b. end_of 0 p (w.file b)) s (λ b. end_of-le 0 p (w.file b)),
          ),
          omega (
            arith,
            s.writers p,
            total-lt (λ b. end_of 1 p (w.file b)) s (λ b. end_of-le 1 p (w.file b)),
          ),
        ))
        (λ p. (
          omega (arith, s.readers p, end_here 0 p f e),
          omega (arith, s.writers p, end_here 1 p f e),
        ))

  -- The objects once the reference is gone.
  abbrev dropped : File → ℕ → Option File
  dropped f =
      if sub32 f.count 1 == 0
      then update (update w.file a (some (record f { count = sub32 f.count 1 }))) a none
      else update w.file a (some (record f { count = sub32 f.count 1 }))

  dropped_ne : (f : File) (b : ℕ) → a ≢ b → dropped f b ≡ w.file b
  dropped_ne f b h = ground (arith, h)

  count_here :
      (f : File)
      → w.file a ≡ some f
      → (f.count ≡ suc (total (is a) extra w))
        × (sub32 f.count 1 ≡ total (is a) extra w)
        × (f.count ≢ 0)
  count_here f e =
      let one : is a a ≡ 1 = ground arith in
      omega (
        arith,
        s.counted a,
        ap count_of e,
        weigh-cons (is a) (some a) extra,
        one,
        total-lt (is a) s (λ b. ground arith),
      )

  dropped_self :
      (f : File)
      → w.file a ≡ some f
      → dropped f a ≡ (
          if total (is a) extra w == 0
          then none
          else some (record f { count = total (is a) extra w }))
  dropped_self f e = let (x, c, y) = count_here f e in rw c (ground arith)

  same_end :
      (f : File) (mode p b : ℕ)
      → w.file a ≡ some f
      → total (is b) extra w ≢ 0
      → end_of mode p (w.file b) ≡ end_of mode p (dropped f b)
  same_end f mode p b e h = elim (ℕ_discrete a b) [
    | yes same ↦
        rw (← same, e, dropped_self f e, ne→==_false (total (is a) extra w) 0 (rw (← same) at h))
          refl
    | no other ↦ rw (dropped_ne f b other)
  ]

  dropped-some :
      (f g : File)
      → w.file a ≡ some f
      → dropped f a ≡ some g
      → (g.type ≡ f.type) × (g.flags ≡ f.flags)
  dropped-some f g e h = (ground (arith, dropped_self f e), ground (arith, dropped_self f e))

  drop_end :
      (t : Table) (f : File) (pipes : ℕ → Option Pipe)
      → (if sub32 f.count 1 == 0 then store a none else pure tt) (record w {
        files = t;
        file = update w.file a (some (record f { count = sub32 f.count 1 }));
        pipe = pipes;
      })
        ≡ some (tt, record w { files = t; file = dropped f; pipe = pipes })
  unfolding store
  drop_end t f pipes = elim (Bool-cases (sub32 f.count 1 == 0)) [ inl z ↦ rw z | inr nz ↦ rw nz ]

  dropped-IsSound :
      (f : File) (pipes : ℕ → Option Pipe)
      → w.file a ≡ some f
      → Lowered f w pipes
      → IsSound extra (record w { file = dropped f; pipe = pipes })
  dropped-IsSound f pipes e low = record {
    size = s.size;
    few = s.few;
    few_extra = omega (arith, s.few_extra);
    counted = λ b. elim (ℕ_discrete a b) [
      | yes same ↦ rw (← same, dropped_self f e) (ground arith)
      | no other ↦ rw (dropped_ne f b other) (
          let zero_cost : is b a ≡ 0 = ground arith in
          omega (arith, s.counted b, weigh-cons (is b) (some a) extra, zero_cost))
    ];
    live = λ b g h. elim (ℕ_discrete a b) [
      | yes same ↦ ground (arith, dropped_self f e, ap (dropped f) same, h)
      | no other ↦ s.live b g (sym (dropped_ne f b other) ∙ h)
    ];
    readers =
        λ p. remaining 0 p (readers_of (pipes p)) (readers_of (w.pipe p)) (low p).0 (s.readers p);
    writers =
        λ p. remaining 1 p (writers_of (pipes p)) (writers_of (w.pipe p)) (low p).1 (s.writers p);
    ends = λ b p g h t. elim (ℕ_discrete a b) [
      | yes same ↦
          let (ty, fl) = dropped-some f g e (ap (dropped f) same ∙ h) in
          rw fl (s.ends a p f e (sym ty ∙ t))
      | no other ↦ s.ends b p g (sym (dropped_ne f b other) ∙ h) t
    ];
  }
    where
      remaining :
          (mode p now before : ℕ)
          → now + end_of mode p (some f) ≡ before
          → before ≡ total (λ b. end_of mode p (w.file b)) (some a ∷ extra) w
          → now ≡ total (λ b. end_of mode p (dropped f b)) extra w
      remaining mode p now before x y = omega (
        arith,
        total_cong (λ b. end_of mode p (w.file b)) (λ b. end_of mode p (dropped f b)) extra w
            (λ b h. same_end f mode p b e h),
        weigh-cons (λ b. end_of mode p (w.file b)) (some a) extra,
        ap (end_of mode p) e,
      )

  -- A reference that is held can be released, whatever the current process's table is by then: the
  -- machine does not stop, and the invariant holds without that reference. Only objects change.
  pub release_file-IsSound :
      (t : Table)
      → (files : ℕ → Option File) × (pipes : ℕ → Option Pipe) × (release_file a
            (record w { files = t })
          ≡ some (tt, record w { files = t; file = files; pipe = pipes }))
        × IsSound extra (record w { file = files; pipe = pipes })
  unfolding release_file
  release_file-IsSound t = go (referenced a s ref_here)
    where
      go :
          (f : File) × (w.file a ≡ some f)
          → (files : ℕ → Option File) × (pipes : ℕ → Option Pipe) × (release_file a
                (record w { files = t })
              ≡ some (tt, record w { files = t; file = files; pipe = pipes }))
            × IsSound extra (record w { file = files; pipe = pipes })
      go (f, e) =
          let (pipes, run, low) =
            release_type_sound t f (update w.file a (some (record f { count = sub32 f.count 1 })))
              e in
          (
            dropped f,
            pipes,
            ground (arith, e, (count_here f e).2, run, drop_end t f pipes),
            dropped-IsSound f pipes e low,
          )
