-- ===== src/Bitmap.antt =====
-- The allocation bitmaps of fs_ops.c: one bit for each inode or data block, 1 for allocated.
-- A byte is a number below 256, and `uint32_t` counters wrap at 2 ^ 32.
pub mod Invariant
pub mod Search
pub mod Alloc
pub mod Single
use caozuokeshe.Base.{
  ℕ, zero, suc, ◌+◌, ◌-◌, ◌/◌, ◌%◌, ◌^◌, Bool, true, false, Option, none, some, List, ltb, leb,
  ◌==◌, if◌then◌else◌, set, get_or, replicate,
}
use caozuokeshe.Errors.{Result, ok, err, invalid_param, no_memory}
use caozuokeshe.Base.Bits.{test_bit, set_bit, clear_bit}

-- `fs_bitmap_t`; `none` is the null pointer in the field `bitmap`.
pub record Bitmap : Type 0 where
  pub bitmap : Option (List ℕ)
  pub total_bits : ℕ
  pub free_count : ℕ
  pub last_allocated : ℕ

-- `counter--` and `counter++` on a `uint32_t`
abbrev pub dec32 : ℕ → ℕ
dec32 n = (n + (2 ^ 32 - 1)) % 2 ^ 32

abbrev pub inc32 : ℕ → ℕ
inc32 n = (n + 1) % 2 ^ 32

-- `bitmap[bit_num / 8] & (1 << bit_num % 8)`
unfoldable pub is_set : List ℕ → ℕ → Bool
is_set bytes bit_num = test_bit (get_or bytes (bit_num / 8) 0) (bit_num % 8)

-- `bitmap[bit_num / 8] |= (1 << bit_num % 8)`
unfoldable pub mark : List ℕ → ℕ → List ℕ
mark bytes bit_num = set bytes (bit_num / 8) (set_bit (get_or bytes (bit_num / 8) 0) (bit_num % 8))

-- `bitmap[bit_num / 8] &= ~(1 << bit_num % 8)`
unfoldable pub unmark : List ℕ → ℕ → List ℕ
unmark bytes bit_num =
    set bytes (bit_num / 8) (clear_bit (get_or bytes (bit_num / 8) 0) (bit_num % 8))

-- `(total_bits + 7) / 8` in `uint32_t`
abbrev pub byte_count : ℕ → ℕ
byte_count total_bits = (total_bits + 7) % 2 ^ 32 / 8

-- `fs_ops_init_bitmap` on a bitmap; `memory` says whether `calloc` succeeds. Where it does not, its null
-- pointer is stored all the same, beside the old counts.
unfoldable pub init_bitmap : (memory : Bool) → ℕ → Bitmap → Result (Unit {0}) × Bitmap
init_bitmap memory total_bits bm =
    if total_bits == 0
    then (err invalid_param, bm)
    else if memory
    then (
      ok tt,
      record {
        bitmap = some (replicate (byte_count total_bits) 0);
        total_bits = total_bits;
        free_count = total_bits;
        last_allocated = 0;
      },
    )
    else (err no_memory, record bm { bitmap = none })

-- `set_bitmap_bit`
unfoldable pub set_bitmap_bit : Bitmap → ℕ → Bitmap
set_bitmap_bit bm bit_num = elim bm.bitmap [
  | none ↦ bm
  | some bytes ↦
      if leb bm.total_bits bit_num
      then bm
      else if is_set bytes bit_num
      then bm
      else record bm { bitmap = some (mark bytes bit_num); free_count = dec32 bm.free_count }
]

-- The search loop of `alloc_bitmap_bit` from its round `i` on, with the rounds that are left.
unfoldable pub find_clear : (bytes : List ℕ) (start total_bits rounds i : ℕ) → Option ℕ
find_clear bytes start total_bits zero i = none
find_clear bytes start total_bits (suc rounds) i =
    elim (is_set bytes ((start + i) % 2 ^ 32 % total_bits)) [
      | false ↦ some ((start + i) % 2 ^ 32 % total_bits)
      | true ↦ find_clear bytes start total_bits rounds (i + 1)
    ]

-- `alloc_bitmap_bit`: the bit number that it returns, 0 where it fails, and the bitmap.
unfoldable pub alloc_bitmap_bit : Bitmap → ℕ × Bitmap
alloc_bitmap_bit bm = elim bm.bitmap [
  | none ↦ (0, bm)
  | some bytes ↦
      if bm.free_count == 0
      then (0, bm)
      else elim (find_clear bytes bm.last_allocated bm.total_bits bm.total_bits 0) [
        | none ↦ (0, bm)
        | some bit_num ↦ (
          bit_num,
          record bm {
            bitmap = some (mark bytes bit_num);
            free_count = dec32 bm.free_count;
            last_allocated = bit_num;
          },
        )
      ]
]

-- `free_bitmap_bit`
unfoldable pub free_bitmap_bit : Bitmap → ℕ → Bitmap
free_bitmap_bit bm bit_num = elim bm.bitmap [
  | none ↦ bm
  | some bytes ↦
      if leb bm.total_bits bit_num
      then bm
      else if is_set bytes bit_num
      then record bm { bitmap = some (unmark bytes bit_num); free_count = inc32 bm.free_count }
      else bm
]

-- The recount of `fs_ops_read_bitmap`: how many of the first `n` bits are clear.
unfoldable pub count_clear : List ℕ → ℕ → ℕ
count_clear bytes zero = 0
count_clear bytes (suc n) = count_clear bytes n + (if is_set bytes n then 0 else 1)
