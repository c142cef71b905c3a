-- ===== src/Text.antt =====
-- Strings and memory blocks: src/kernel/lib/string.c. A pointer is the list of the bytes from there to the
-- end of the memory that may be used; `none` is a use beyond it. `char` is unsigned, as on ARM. Source
-- and destination are different memory.
pub mod Reading
pub mod Copying
use cyanurus.Base.{
  ℕ, zero, suc, ◌-◌, ◌%◌, ◌&&◌, Option, none, some, List, [], ◌∷◌, leb, ◌==◌, if◌then◌else◌, get_or,
  ℤ, pos, negsuc,
}

unfoldable pub strlen : List ℕ → Option ℕ
strlen [] = none
strlen (c ∷ s) =
    let rest : Option ℕ = elim (strlen s) [ none ↦ none | some n ↦ some (suc n) ] in
    if c == 0 then some 0 else rest

-- The byte is read before the count is tested.
unfoldable pub strnlen : List ℕ → (maxlen : ℕ) → Option ℕ
strnlen [] maxlen = none
strnlen (c ∷ s) zero = some 0
strnlen (c ∷ s) (suc n) =
    let rest : Option ℕ = elim (strnlen s n) [ none ↦ none | some k ↦ some (suc k) ] in
    if c == 0 then some 0 else rest

abbrev pub cons : ℕ → Option (List ℕ) → Option (List ℕ)
cons c o = elim o [ none ↦ none | some s ↦ some (c ∷ s) ]

unfoldable pub strcpy : (dest src : List ℕ) → Option (List ℕ)
strcpy dest [] = none
strcpy [] (c ∷ s) = none
strcpy (d ∷ dest) (c ∷ s) =
    let rest = strcpy dest s in if c == 0 then some (0 ∷ dest) else cons c rest

unfoldable pub memset : List ℕ → (c : ℕ) → (size : ℕ) → Option (List ℕ)
memset buf c zero = some buf
memset [] c (suc n) = none
memset (b ∷ buf) c (suc n) = cons (c % 256) (memset buf c n)

unfoldable pub strncpy : (dest src : List ℕ) → (size : ℕ) → Option (List ℕ)
strncpy dest src zero = some dest
strncpy dest [] (suc n) = none
strncpy [] (c ∷ s) (suc n) = none
strncpy (d ∷ dest) (c ∷ s) (suc n) =
    let rest = strncpy dest s n in if c == 0 then memset (d ∷ dest) 0 (suc n) else cons c rest

-- The difference of two bytes as an int.
abbrev pub difference : ℕ → ℕ → ℤ
difference a b = if leb b a then pos (a - b) else negsuc (b - a - 1)

unfoldable pub strcmp : (s1 s2 : List ℕ) → Option ℤ
strcmp [] s2 = none
strcmp (a ∷ s1) [] = none
strcmp (a ∷ s1) (b ∷ s2) =
    let rest = strcmp s1 s2 in
    if (a == 0) && (b == 0) then some (pos 0) else if a == b then rest else some (difference a b)

unfoldable pub strncmp : (s1 s2 : List ℕ) → (size : ℕ) → Option ℤ
strncmp s1 s2 zero = some (pos 0)
strncmp [] s2 (suc n) = none
strncmp (a ∷ s1) [] (suc n) = none
strncmp (a ∷ s1) (b ∷ s2) (suc n) =
    let rest = strncmp s1 s2 n in
    if (a == 0) && (b == 0) then some (pos 0) else if a == b then rest else some (difference a b)

unfoldable pub memcpy : (dest src : List ℕ) → (size : ℕ) → Option (List ℕ)
memcpy dest src zero = some dest
memcpy dest [] (suc n) = none
memcpy [] (c ∷ s) (suc n) = none
memcpy (d ∷ dest) (c ∷ s) (suc n) = cons c (memcpy dest s n)

unfoldable pub memcmp : (buf1 buf2 : List ℕ) → (n : ℕ) → Option ℤ
memcmp s1 s2 zero = some (pos 0)
memcmp [] s2 (suc n) = none
memcmp (a ∷ s1) [] (suc n) = none
memcmp (a ∷ s1) (b ∷ s2) (suc n) =
    let rest = memcmp s1 s2 n in if a == b then rest else some (difference a b)

unfoldable pub strcat : (dest src : List ℕ) → Option (List ℕ)
strcat [] src = none
strcat (d ∷ dest) src =
    let rest = strcat dest src in if d == 0 then strcpy (d ∷ dest) src else cons d rest

-- The second loop of strncat, from the end of the destination on.
unfoldable pub append : (dest src : List ℕ) → (size : ℕ) → Option (List ℕ)
append [] src size = none
append (d ∷ dest) src zero = some (0 ∷ dest)
append (d ∷ dest) [] (suc n) = none
append (d ∷ dest) (c ∷ s) (suc n) =
    let rest = append dest s n in if c == 0 then some (0 ∷ dest) else cons c rest

unfoldable pub strncat : (dest src : List ℕ) → (size : ℕ) → Option (List ℕ)
strncat [] src size = none
strncat (d ∷ dest) src size =
    let rest = strncat dest src size in if d == 0 then append (d ∷ dest) src size else cons d rest

-- The offset of the pointer that strchrnul returns.
unfoldable pub strchrnul : List ℕ → (c : ℕ) → Option ℕ
strchrnul [] c = none
strchrnul (b ∷ s) c =
    let rest : Option ℕ = elim (strchrnul s c) [ none ↦ none | some n ↦ some (suc n) ] in
    if b == 0 then some 0 else if b == c % 256 then some 0 else rest

-- The inner `none` is NULL.
unfoldable pub strchr : List ℕ → (c : ℕ) → Option (Option ℕ)
strchr s c = elim (strchrnul s c) [
  | none ↦ none
  | some i ↦ some (if get_or s i 0 == c % 256 then some i else none)
]

-- The loop of strrchr, down from index `i`.
unfoldable pub search_back : List ℕ → (a : ℕ) → (i : ℕ) → Option ℕ
search_back s a zero = if get_or s 0 0 == a then some 0 else none
search_back s a (suc i) =
    let rest = search_back s a i in if get_or s (suc i) 0 == a then some (suc i) else rest

unfoldable pub strrchr : List ℕ → (c : ℕ) → Option (Option ℕ)
strrchr s c = elim (strlen s) [ none ↦ none | some n ↦ some (search_back s (c % 256) n) ]

-- The string that a pointer is to, without its end; `none` if no byte is zero.
unfoldable pub text : List ℕ → Option (List ℕ)
text [] = none
text (c ∷ s) = let rest = cons c (text s) in if c == 0 then some [] else rest
