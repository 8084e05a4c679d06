-- ===== src/Errors.antt =====
-- The error codes of fs.h, and the results of functions that return one.
use mathlib.Core.Path.{◌≡◌, refl}
use mathlib.Core.Logic.{◌⊎◌, inl, inr}
use caozuokeshe.Base.{ℕ}

-- `fs_error_t` without `FS_SUCCESS`, which `Result.ok` stands for, and `undefined`, which no function
-- of the code returns: it marks a call that reads or writes through a null pointer, where C has no
-- behaviour. It ends the function like an error, and nothing is meant by what a caller does with it.
pub data FsError : Type 0 where
  invalid_param no_memory no_space file_not_found file_exists not_directory is_directory : FsError
  permission file_open too_many_open io corrupted not_mounted already_mounted : FsError
  undefined : FsError

-- What a function returns: `FS_SUCCESS` with what it hands out, or an error.
pub data Result {ℓ} (A : Type ℓ) : Type ℓ where
  ok : A → Result A
  err : FsError → Result A

-- The negated code of `fs_error_t`: `FS_ERROR_IO = -11` is 11. The number of `undefined` is none of the code's.
unfoldable pub code : FsError → ℕ
code invalid_param = 1
code no_memory = 2
code no_space = 3
code file_not_found = 4
code file_exists = 5
code not_directory = 6
code is_directory = 7
code permission = 8
code file_open = 9
code too_many_open = 10
code io = 11
code corrupted = 12
code not_mounted = 13
code already_mounted = 14
code undefined = 15

pub Result-cases :
    {A : Type 0} (r : Result A) → ((a : A) × (r ≡ ok a)) ⊎ ((e : FsError) × (r ≡ err e))
Result-cases (ok a) = inl (a, refl)
Result-cases (err e) = inr (e, refl)
