-- ===== src/Tests/Bitmaps.antt =====
-- The bitmaps at concrete inputs.
use caozuokeshe.Base.{
  ℕ, ◌+◌, ◌≡◌, refl, not, ◌&&◌, ◌||◌, List, [], ◌∷◌, arith, ◌==◌, if◌then◌else◌, some, none, true,
  false, replicate,
}
use caozuokeshe.Errors.{ok, err, no_memory, invalid_param}
use caozuokeshe.Bitmap.{
  Bitmap, is_set, init_bitmap, set_bitmap_bit, alloc_bitmap_bit, free_bitmap_bit, byte_count,
}
use caozuokeshe.Bitmap.Invariant.{IsValid}
use caozuokeshe.Bitmap.Alloc.{Taken, alloc_bitmap_bit-Taken, init_bitmap-IsValid}
use caozuokeshe.Bitmap.Single.{set_bitmap_bit-IsValid, free_bitmap_bit-IsValid}

abbrev ten : Bitmap
ten = record { bitmap = some (0 ∷ 0 ∷ []); total_bits = 10; free_count = 10; last_allocated = 0 }

init_ten : init_bitmap true 10 ten ≡ (ok tt, ten)
unfolding init_bitmap
init_ten = refl

-- A failing `calloc` loses the old bitmap and keeps its counts.
init_without_memory : init_bitmap false 10 ten ≡ (err no_memory, record ten { bitmap = none })
unfolding init_bitmap
init_without_memory = refl

-- No bits are refused before `calloc` is called.
init_without_bits : init_bitmap false 0 ten ≡ (err invalid_param, ten)
unfolding init_bitmap
init_without_bits = refl

ten-IsValid : IsValid ten (replicate (byte_count 10) 0)
ten-IsValid = (init_bitmap-IsValid 10 ten {bm = ten} (omega arith) init_ten).0

alloc_bitmap_bit-Taken_example : Taken ten (replicate (byte_count 10) 0) (alloc_bitmap_bit ten)
alloc_bitmap_bit-Taken_example =
    alloc_bitmap_bit-Taken ten (replicate (byte_count 10) 0) ten-IsValid (omega arith)

set_bitmap_bit-IsValid_example :
    (after : List ℕ) × IsValid (set_bitmap_bit ten 3) after
    × ((j : ℕ) → is_set after j ≡ ((3 == j) || is_set (replicate (byte_count 10) 0) j))
    × ((set_bitmap_bit ten 3).free_count + (if is_set (replicate (byte_count 10) 0) 3 then 0 else 1)
        ≡ ten.free_count)
set_bitmap_bit-IsValid_example =
    set_bitmap_bit-IsValid ten (replicate (byte_count 10) 0) 3 ten-IsValid (omega arith)

free_bitmap_bit-IsValid_example :
    (after : List ℕ) × IsValid (free_bitmap_bit ten 3) after
    × ((j : ℕ) → is_set after j ≡ (not (3 == j) && is_set (replicate (byte_count 10) 0) j))
    × ((free_bitmap_bit ten 3).free_count
        ≡ ten.free_count + (if is_set (replicate (byte_count 10) 0) 3 then 1 else 0))
free_bitmap_bit-IsValid_example =
    free_bitmap_bit-IsValid ten (replicate (byte_count 10) 0) 3 ten-IsValid (omega arith)
