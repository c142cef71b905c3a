-- ===== src/Process/Files/Dup.antt =====
-- process_dupfd, process_dup2 and process_dup3: a second descriptor of an open file.
use cyanurus.Base.{
  ℕ, zero, suc, ◌<◌, ◌≤◌, bit_and, ◌≡◌, ◌≢◌, refl, sym, ap, ◌∙◌, ◌⊎◌, inl, inr, Bool, true, false,
  not, Option, none, some, [], ◌∷◌, arith, leb, ◌==◌, if◌then◌else◌, Bool-cases, Option-cases,
  is_some, set, get_or-set_self, get_or-set_ne, ℤ, pos, negsuc, error,
}
use native.Mathlib.Decide.{ℕ_discrete}
use cyanurus.Bitset
use cyanurus.Bitset.{Bitset}
use cyanurus.Process.Files.{
  ◌>>◌, Table, World, slot, pure, set_slot, mark, first_free, countup_file, get_file, number,
  o_cloexec,
}
use cyanurus.Process.Files.Calls.{process_dupfd, process_dup2, process_dup3, replace, make_room}
use cyanurus.Process.Files.Refs.{is, cost-le-weigh, first_free_lem}
use cyanurus.Process.Files.Sound.{IsSound, total, put-IsSound}
use cyanurus.Process.Files.Countup.{countup_file-IsSound}
use cyanurus.Process.Files.Close.{close_open, get_file-some}

abbrev marked : Bool → ℕ → Bitset → Bitset
marked flag i c = if flag then Bitset.add c i else c

-- The close-on-exec bits do not count references.
with_bits :
    {extra : Table} {w : World} (c : Bitset)
    → IsSound extra w
    → IsSound extra (record w { close_on_exec = c })
with_bits c s = record {
  size = s.size;
  few = s.few;
  few_extra = s.few_extra;
  counted = s.counted;
  live = s.live;
  readers = s.readers;
  writers = s.writers;
  ends = s.ends;
}

open_here : (w : World) (n a : ℕ) → slot w.files n ≡ some a → total (is a) [] w ≢ 0
open_here w n a e z = absurd (ground (arith, cost-le-weigh (is a) w.files n, e, z))

-- countup_file, the mark and the store, which all of them end with: descriptor `i`, free before,
-- then refers to `a` too.
share :
    {w : World} (a i : ℕ) (flag : Bool)
    → IsSound [] w
    → total (is a) [] w ≢ 0
    → i < 32
    → slot w.files i ≡ none
    → (w' : World) × ((do countup_file a; mark flag i; set_slot i (some a); pure (pos i)) w
        ≡ some (pos i, w'))
      × IsSound [] w'
      × (w'.files ≡ set w.files i (some a))
unfolding mark set_slot
share {w} a i flag s ref inside free =
    let (files, pipes, run, sound) = countup_file-IsSound a s ref (omega arith) in
    let put : IsSound [] (record w { files = set w.files i (some a); file = files; pipe = pipes }) =
      put-IsSound i (some a) sound inside free in
    (
      record w {
        files = set w.files i (some a);
        close_on_exec = marked flag i w.close_on_exec;
        file = files;
        pipe = pipes;
      },
      ground (arith, run),
      with_bits (marked flag i w.close_on_exec) put,
      refl,
    )

get_file_of : (w : World) (i : ℕ) → i < 32 → get_file (pos i) w ≡ slot w.files i
unfolding get_file
get_file_of w i h = ground (arith, h)

pos_injective : {m n : ℕ} → pos m ≡ pos n → m ≡ n
pos_injective e = ground (arith, e)

-- `r` is refused with the state unchanged, or names a descriptor that now refers to what `fd` does.
abbrev pub Shared : (fd : ℤ) (w : World) → ℤ → World → Type 0
Shared fd w r w' =
    ((n : ℕ) × (r ≡ negsuc n) × (w' ≡ w))
    ⊎ ((i : ℕ) × (r ≡ pos i)
        × (get_file (pos i) w' ≡ get_file fd w)
        × (is_some (get_file fd w) ≡ true))

abbrev pub Duplicated : (fd : ℤ) (w : World) → Option (ℤ × World) → Type 0
Duplicated fd w o = (r : ℤ) × (w' : World) × (o ≡ some (r, w')) × IsSound [] w' × Shared fd w r w'

refused : (fd : ℤ) {w : World} (n : ℕ) → IsSound [] w → Duplicated fd w (some (negsuc n, w))
refused fd {w} n s = (negsuc n, w, refl, s, inl (n, refl, refl))

shared_at :
    (fd : ℤ) (i a : ℕ) (w w' : World)
    → i < 32
    → IsSound [] w
    → get_file fd w ≡ some a
    → w'.files ≡ set w.files i (some a)
    → get_file (pos i) w' ≡ get_file fd w
shared_at fd i a w w' inside s e put =
    get_file_of w' i inside
    ∙ rw put (get_or-set_self w.files i (some a) none (omega (arith, s.size, inside)))
    ∙ sym e

outcome :
    (fd : ℤ) {w : World} {o o' : Option (ℤ × World)}
    → o ≡ o'
    → Duplicated fd w o'
    → Duplicated fd w o
outcome fd q (r, w', run, sound, shared) = (r, w', q ∙ run, sound, shared)

dup_open :
    (fd : ℤ) (n : ℕ) (flags a : ℕ) (w : World)
    → IsSound [] w
    → get_file fd w ≡ some a
    → (o : Option ℕ) → first_free w.files n ≡ o
    → Duplicated fd w (elim o [
      | none ↦ some (error 24, w)
      | some i ↦
          (do
            countup_file a
            mark (not (bit_and flags o_cloexec == 0)) i
            set_slot i (some a)
            pure (pos i))
            w
    ])
dup_open fd n flags a w s e none q = refused fd 23 s
dup_open fd n flags a w s e (some i) q =
    let (inside, behind, free) = first_free_lem w.files n q in
    let (same, small, open_at) = get_file-some fd w e in
    let (w', run, sound, put) =
      share a i (not (bit_and flags o_cloexec == 0)) s (open_here w (number fd) a open_at)
        (omega (arith, inside, s.size)) free in
    (
      pos i,
      w',
      run,
      sound,
      inr (i, refl, shared_at fd i a w w' (omega (arith, inside, s.size)) s e put, ap is_some e),
    )

-- process_dupfd never stops the machine in a sound state. It leaves a sound state, and either
-- refuses and changes nothing, or returns a descriptor that refers to the file that `fd` refers to.
pub process_dupfd-IsSound :
    (fd from : ℤ) (flags : ℕ) (w : World)
    → IsSound [] w
    → Duplicated fd w (process_dupfd fd from flags w)
unfolding process_dupfd
process_dupfd-IsSound fd from flags w s = elim (Option-cases (get_file fd w)) [
  | inl closed ↦ outcome fd (ground (arith, closed)) (refused fd 8 s)
  | inr (a, e) ↦ outcome fd (rw (process_dupfd, e) refl) (go a e from)
]
  where
    go :
        (a : ℕ)
        → get_file fd w ≡ some a
        → (from : ℤ)
        → Duplicated fd w (elim from [
          | negsuc n ↦ some (error 22, w)
          | pos n ↦ if leb 32 n then some (error 22, w) else (elim (first_free w.files n) [
            | none ↦ some (error 24, w)
            | some i ↦
                (do
                  countup_file a
                  mark (not (bit_and flags o_cloexec == 0)) i
                  set_slot i (some a)
                  pure (pos i))
                  w
          ])
        ])
    go a e (negsuc n) = refused fd 21 s
    go a e (pos n) = elim (Bool-cases (leb 32 n)) [
      | inl out ↦ rw out (refused fd 21 s)
      | inr inside ↦ rw inside (dup_open fd n flags a w s e (first_free w.files n) refl)
    ]

set-none : (t : Table) (i : ℕ) → slot t i ≡ none → t ≡ set t i none
set-none [] i e = refl
set-none (o ∷ t) zero e = ap (λ x. x ∷ t) e
set-none (o ∷ t) (suc i) e = ap (λ x. o ∷ x) (set-none t i e)

-- Making room at `new`: the descriptor is free then, and the others are as they were.
make_room_lem :
    (new : ℕ) (w : World)
    → IsSound [] w
    → new < 32
    → (w' : World) × (make_room new w ≡ some (tt, w'))
      × IsSound [] w'
      × (w'.files ≡ set w.files new none)
unfolding make_room
make_room_lem new w s inside = elim (Option-cases (slot w.files new)) [
  | inl free ↦ (w, ground (arith, free), s, set-none w.files new free)
  | inr (a, e) ↦
      let (files, pipes, run, sound) = close_open new a s inside (omega arith) e in
      (
        record w {
          files = set w.files new none;
          close_on_exec = Bitset.remove w.close_on_exec new;
          file = files;
          pipe = pipes;
        },
        ground (arith, e, run),
        sound,
        refl,
      )
]

-- `new` refers to what `fd` referred to, and every other descriptor to what it did.
abbrev pub Replaces : (fd : ℤ) (new : ℕ) (w w' : World) → Type 0
Replaces fd new w w' =
    (get_file (pos new) w' ≡ get_file fd w)
    × (is_some (get_file fd w) ≡ true)
    × ((j : ℕ) → j ≢ new → slot w'.files j ≡ slot w.files j)

replace_lem :
    (fd : ℤ) (a new : ℕ) (cloexec : Bool) (w : World)
    → IsSound [] w
    → new < 32
    → get_file fd w ≡ some a
    → number fd ≢ new
    → (w' : World) × (replace a new cloexec w ≡ some (pos new, w'))
      × IsSound [] w'
      × Replaces fd new w w'
unfolding replace
replace_lem fd a new cloexec w s inside e other =
    let (same, small, open_at) = get_file-some fd w e in
    let (w1, room, sound1, cleared) = make_room_lem new w s inside in
    let still : slot w1.files (number fd) ≡ some a =
      rw cleared (get_or-set_ne w.files new (number fd) none none (λ z. other (sym z)) ∙ open_at) in
    let free : slot w1.files new ≡ none =
      rw cleared (get_or-set_self w.files new none none (omega (arith, s.size))) in
    let (w2, run, sound2, put) =
      share a new cloexec sound1 (open_here w1 (number fd) a still) inside free in
    (
      w2,
      ground (arith, room, run),
      sound2,
      (
        get_file_of w2 new inside
            ∙ rw put
                (get_or-set_self w1.files new (some a) none (omega (arith, sound1.size, inside)))
            ∙ sym e,
        ap is_some e,
        λ j n.
            let h = get_or-set_ne w1.files new j (some a) none (λ z. n (sym z)) in
            let k = get_or-set_ne w.files new j none none (λ z. n (sym z)) in
            ap (λ f. slot f j) put ∙ h ∙ ap (λ f. slot f j) cleared ∙ k,
      ),
    )

-- a number that no descriptor has
abbrev pub IsOut : ℤ → Type 0
IsOut (negsuc n) = Unit
IsOut (pos n) = 32 ≤ n

-- The answers of process_dup2: -EBADF for a closed or impossible descriptor, or `new`.
abbrev pub Dup2Answer : (fd new : ℤ) (w : World) → ℤ → World → Type 0
Dup2Answer fd new w r w' =
    ((r ≡ error 9) × (w' ≡ w) × ((get_file fd w ≡ none) ⊎ IsOut new))
    ⊎ ((i : ℕ) × (new ≡ pos i) × (r ≡ pos i) × Replaces fd i w w')

abbrev pub Dup2Outcome : (fd new : ℤ) (w : World) → Option (ℤ × World) → Type 0
Dup2Outcome fd new w o =
    (r : ℤ) × (w' : World) × (o ≡ some (r, w')) × IsSound [] w' × Dup2Answer fd new w r w'

-- process_dup2 never stops the machine in a sound state, and leaves a sound state. It answers -EBADF
-- and changes nothing, which it does only if `fd` is not open or `new` is no descriptor, or it
-- answers `new`: that then refers to the file that `fd` refers to, and every other descriptor to
-- what it did.
pub process_dup2-IsSound :
    (fd new : ℤ) (w : World) → IsSound [] w → Dup2Outcome fd new w (process_dup2 fd new w)
unfolding process_dup2
process_dup2-IsSound fd (negsuc n) w s = (error 9, w, refl, s, inl (refl, refl, inr tt))
process_dup2-IsSound fd (pos new) w s = elim (Option-cases (get_file fd w)) [
  | inl closed ↦ (error 9, w, ground (arith, closed), s, inl (refl, refl, inl closed))
  | inr (a, e) ↦ elim (Bool-cases (leb 32 new)) [
    | inl out ↦ (error 9, w, ground (arith, e, out), s, inl (refl, refl, inr (ground (arith, out))))
    | inr inside ↦ elim (ℕ_discrete (number fd) new) [
      | yes same ↦ (
        pos new,
        w,
        ground (arith, e, inside, same),
        s,
        inr (
          new,
          refl,
          refl,
          (
            ap (λ z. get_file z w) (ap (λ j. pos j) (sym same) ∙ sym (get_file-some fd w e).0),
            ap is_some e,
            λ j n. refl,
          ),
        ),
      )
      | no other ↦
          let (w', run, sound, x) =
            replace_lem fd a new false w s (ground (arith, inside)) e other in
          (pos new, w', ground (arith, e, inside, other, run), sound, inr (new, refl, refl, x))
    ]
  ]
]

-- process_dup3 never stops the machine in a sound state. It leaves a sound state, and either refuses
-- and changes nothing, or returns a descriptor that refers to the file that `fd` referred to.
pub process_dup3-IsSound :
    (fd new : ℤ) (flags : ℕ) (w : World)
    → IsSound [] w
    → Duplicated fd w (process_dup3 fd new flags w)
unfolding process_dup3
process_dup3-IsSound fd (negsuc n) flags w s = refused fd 8 s
process_dup3-IsSound fd (pos new) flags w s = elim (Option-cases (get_file fd w)) [
  | inl closed ↦ outcome fd (ground (arith, closed)) (refused fd 8 s)
  | inr (a, e) ↦ elim (Bool-cases (leb 32 new)) [
    | inl out ↦ outcome fd (ground (arith, e, out)) (refused fd 8 s)
    | inr inside ↦ elim (ℕ_discrete (number fd) new) [
      | yes same ↦ outcome fd (ground (arith, e, inside, same)) (refused fd 21 s)
      | no other ↦
          let flag = not (bit_and flags o_cloexec == 0) in
          let (w', run, sound, x) =
            replace_lem fd a new flag w s (ground (arith, inside)) e other in
          (pos new, w', ground (arith, e, inside, other, run), sound, inr (new, refl, x.0, x.1))
    ]
  ]
]
