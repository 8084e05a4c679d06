-- ===== src/Base/Text.antt =====
-- C strings as lists of bytes without the terminating zero.
use Prim.Native.Nat.{ℕ}
use mathlib.Core.Path.{◌≡◌, refl}
use mathlib.Core.Logic.{◌↔◌}
use mathlib.Core.Bool.{Bool, true, false, ◌&&◌, ◌||◌}
use mathlib.Core.List.{List, [], ◌∷◌, ◌++◌}
use native.Mathlib.Omega.{arith}
use caozuokeshe.Base.Tests.{◌==◌, if◌then◌else◌}

-- `strcmp(a, b) == 0`
unfoldable pub str_eq : List ℕ → List ℕ → Bool
str_eq [] [] = true
str_eq [] (y ∷ ys) = false
str_eq (x ∷ xs) [] = false
str_eq (x ∷ xs) (y ∷ ys) = (x == y) && str_eq xs ys

pub str_eq_refl : (xs : List ℕ) → str_eq xs xs ≡ true
unfolding str_eq
str_eq_refl [] = refl
str_eq_refl (x ∷ xs) = ground (arith, str_eq_refl xs)

pub str_eq→eq : (xs ys : List ℕ) → str_eq xs ys ≡ true → xs ≡ ys
unfolding str_eq
str_eq→eq [] [] e = refl
str_eq→eq [] (y ∷ ys) e = cc
str_eq→eq (x ∷ xs) [] e = cc
str_eq→eq (x ∷ xs) (y ∷ ys) e = ground (arith, str_eq→eq xs ys)

pub str_eq_iff : (xs ys : List ℕ) → (str_eq xs ys ≡ true) ↔ (xs ≡ ys)
str_eq_iff xs ys = (str_eq→eq xs ys, λ e. rw e (str_eq_refl ys))

-- The string that a char array holds: its bytes up to the first zero.
unfoldable pub c_string : List ℕ → List ℕ
c_string [] = []
c_string (b ∷ bytes) = if b == 0 then [] else b ∷ c_string bytes

-- `strchr(s, c) != NULL`
unfoldable pub has_char : List ℕ → ℕ → Bool
has_char [] c = false
has_char (b ∷ bytes) c = (b == c) || has_char bytes c

-- A string of bytes other than zero.
abbrev pub IsString : List ℕ → Type 0
IsString [] = Unit {0}
IsString (b ∷ bytes) = (b ≡ 0 → ⊥) × IsString bytes

pub c_string-append : (s rest : List ℕ) → IsString s → c_string (s ++ 0 ∷ rest) ≡ s
unfolding c_string
c_string-append [] rest h = refl
c_string-append (b ∷ s) rest h = ground (arith, c_string-append s rest h.1)

pub c_string-whole : (s : List ℕ) → IsString s → c_string s ≡ s
unfolding c_string
c_string-whole [] h = refl
c_string-whole (b ∷ s) h = ground (arith, c_string-whole s h.1)
