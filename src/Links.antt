-- ===== src/Links.antt =====
-- The intrusive circular lists of src/kernel/lib/list.c and list.h: `struct list` cells by address.
pub mod Ring
pub mod Laws
pub mod Walk
use mathlib.Core.Option
use cyanurus.Base.{
  Option, ℕ, zero, suc, Bool, none, some, List, [], ◌∷◌, ◌==◌, if◌then◌else◌, update,
}

-- what each cell's two pointers hold
pub record Links : Type 0 where
  pub prev : ℕ → ℕ
  pub next : ℕ → ℕ

-- NULL
abbrev pub null : ℕ
null = 0

abbrev pub set_next : Links → ℕ → ℕ → Links
set_next s p v = record s { next = update s.next p v }

abbrev pub set_prev : Links → ℕ → ℕ → Links
set_prev s p v = record s { prev = update s.prev p v }

unfoldable pub list_init : Links → ℕ → Links
list_init s list = let s1 = set_next s list list in set_prev s1 list list

unfoldable pub list_add : Links → ℕ → ℕ → Links
list_add s list item =
    let s1 = set_prev s item list in
    let s2 = set_next s1 item (s1.next list) in
    let s3 = set_next s2 list item in set_prev s3 (s3.next item) item

abbrev pub list_empty : Links → ℕ → Bool
list_empty s list = s.next list == list

-- The last cell before `i` and the first cell after `j` are made neighbours.
unfoldable pub join : Links → ℕ → ℕ → Links
join s i j = let s1 = set_next s (s.prev i) (s.next j) in set_prev s1 (s1.next j) (s1.prev i)

unfoldable pub list_concat : Links → ℕ → ℕ → Links
list_concat s list other =
    if list_empty s other
    then s
    else let s1 = set_prev s (s.next other) list in
      let s3 = join s1 other list in let s4 = set_next s3 list (s3.next other) in list_init s4 other

unfoldable pub list_remove : Links → ℕ → Links
list_remove s item = let s1 = join s item item in set_prev (set_next s1 item null) item null

-- The items that `list_foreach` visits, from `item` on; the bound is on their number.
unfoldable pub walk : ℕ → Links → ℕ → ℕ → Option (List ℕ)
walk zero s head item = none
walk (suc fuel) s head item =
    let rest = walk fuel s head (s.next item) in
    if item == head then some [] else Option.map (λ xs. item ∷ xs) rest

abbrev pub list_foreach : ℕ → Links → ℕ → Option (List ℕ)
list_foreach fuel s head = walk fuel s head (s.next head)

unfoldable pub length_loop : ℕ → Links → ℕ → ℕ → ℕ → Option ℕ
length_loop zero s list item count = none
length_loop (suc fuel) s list item count =
    let rest = length_loop fuel s list (s.next item) (suc count) in
    if item == list then some count else rest

unfoldable pub list_length : ℕ → Links → ℕ → Option ℕ
list_length fuel s list = length_loop fuel s list (s.next list) 0
