-- ===== src/Tests/Directories.antt =====
-- A directory block at a concrete input.
use caozuokeshe.Base.{get_or-replicate, ℕ, zero, suc, List, [], ◌∷◌, arith, replicate}
use caozuokeshe.Layout.{block_size}
use caozuokeshe.Bitmap.Invariant.{AllBytes}

abbrev pub empty_block : List ℕ
empty_block = replicate block_size zero

abbrev pub name_a : List ℕ
name_a = b'a' ∷ []

zeros : (n : ℕ) → AllBytes (replicate n zero)
zeros n i = omega (arith, get_or-replicate n i zero)

pub name_a-AllBytes : AllBytes name_a
name_a-AllBytes zero = omega arith
name_a-AllBytes (suc i) = omega arith
