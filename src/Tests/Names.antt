-- ===== src/Tests/Names.antt =====
-- The path "a/bc/".
use cyanurus.Base.{ℕ, ◌≡◌, refl, update}
use cyanurus.Paths.{
  within, dirname, basename, skip_slashes, skip_name, cut, dir_before, dir_of, strip_loop,
  start_loop,
}
use cyanurus.Paths.Parts.{Directory, dirname-Directory}
use cyanurus.Paths.Last.{BaseName, basename-BaseName}

abbrev path : ℕ → ℕ
path = update (update (update (update (update (λ i. 0) 0 97) 1 47) 2 98) 3 99) 4 47

dirname-Directory_example : Directory path 5 (dirname path 5)
dirname-Directory_example = dirname-Directory path 5

basename-BaseName_example : BaseName path 5 (basename path 5)
basename-BaseName_example = basename-BaseName path 5 refl

dirname-path : dirname path 5 ≡ within 0 (update path 1 0)
unfolding dirname skip_slashes skip_name cut dir_before dir_of
dirname-path = refl

basename-path : basename path 5 ≡ within 2 (update path 4 0)
unfolding basename strip_loop start_loop
basename-path = refl
