-- ===== src/Bitmap/Alloc.antt =====
-- `alloc_bitmap_bit` and `fs_ops_init_bitmap` on a valid bitmap.
use caozuokeshe.Base.{
  ap, ◌∙◌, ℕ, zero, suc, ◌+◌, ◌/◌, ◌%◌, ◌^◌, ◌<◌, ◌≡◌, refl, sym, inl, inr, true, false, ◌||◌, some,
  List, arith, ◌==◌, Option-cases, length, replicate, get_or-replicate, length-replicate,
}
use caozuokeshe.Errors.{ok}
use caozuokeshe.Base.Bits.{test_bit-zero}
use caozuokeshe.Bitmap.{
  Bitmap, is_set, mark, unmark, count_clear, byte_count, find_clear, alloc_bitmap_bit, init_bitmap,
  dec32, inc32,
}
use caozuokeshe.Bitmap.Invariant.{
  IsValid, is_set-mark, AllBytes-mark, AllBytes-unmark, length-mark, length-unmark,
  count_clear-mark, count_clear-unmark, count_clear-le,
}
use caozuokeshe.Bitmap.Search.{find_clear_sound, find_clear-none}

module _ (bm : Bitmap) (bytes : List ℕ) (v : IsValid bm bytes) where
  pub inside : (k : ℕ) → k < bm.total_bits → k / 8 < length bytes
  inside k h = omega (arith, v.sized)

  -- Taking a clear bit keeps the bitmap valid, with one clear bit fewer.
  pub taken-IsValid :
      (k last : ℕ)
      → k < bm.total_bits
      → last < bm.total_bits
      → is_set bytes k ≡ false
      → IsValid
          (record bm {
            bitmap = some (mark bytes k);
            free_count = dec32 bm.free_count;
            last_allocated = last;
          })
          (mark bytes k)
  taken-IsValid k last hk hl clear = record {
    holds = refl;
    sized = length-mark bytes k ∙ v.sized;
    are_bytes = AllBytes-mark bytes k v.are_bytes (inside k hk);
    counted = omega (
      arith,
      v.counted,
      v.small,
      count_clear-le bytes bm.total_bits,
      count_clear-mark bytes k bm.total_bits v.are_bytes (inside k hk) hk clear,
    );
    small = v.small;
    inhabited = v.inhabited;
    last_in = hl;
  }

  -- Giving a set bit back keeps the bitmap valid, with one clear bit more.
  pub given-IsValid :
      (k : ℕ)
      → k < bm.total_bits
      → is_set bytes k ≡ true
      → IsValid
          (record bm { bitmap = some (unmark bytes k); free_count = inc32 bm.free_count })
          (unmark bytes k)
  given-IsValid k hk marked = record {
    holds = refl;
    sized = length-unmark bytes k ∙ v.sized;
    are_bytes = AllBytes-unmark bytes k v.are_bytes (inside k hk);
    counted = omega (
      arith,
      v.counted,
      v.small,
      count_clear-le bytes bm.total_bits,
      count_clear-unmark bytes k bm.total_bits v.are_bytes (inside k hk) hk marked,
    );
    small = v.small;
    inhabited = v.inhabited;
    last_in = v.last_in;
  }

  -- Where a bit is clear, the search finds one.
  pub found :
      0 < bm.free_count
      → (k : ℕ) × (find_clear bytes bm.last_allocated bm.total_bits bm.total_bits 0 ≡ some k)
  found pos =
      elim (Option-cases (find_clear bytes bm.last_allocated bm.total_bits bm.total_bits 0)) [
        | inl e ↦ absurd (
            omega (
              arith,
              find_clear-none bytes bm.last_allocated bm.total_bits v.last_in v.small e,
              v.counted,
            ))
        | inr s ↦ s
      ]

-- What `alloc_bitmap_bit` does to a bitmap with a clear bit: it takes one that was clear, and only it.
pub record Taken (bm : Bitmap) (bytes : List ℕ) (r : ℕ × Bitmap) : Type 0 where
  pub in_range : r.0 < bm.total_bits
  pub was_clear : is_set bytes r.0 ≡ false
  pub valid : IsValid r.1 (mark bytes r.0)
  pub fewer : bm.free_count ≡ r.1.free_count + 1
  pub only : (j : ℕ) → is_set (mark bytes r.0) j ≡ ((r.0 == j) || is_set bytes j)
  pub total : r.1.total_bits ≡ bm.total_bits

-- On a valid bitmap with a clear bit, `alloc_bitmap_bit` returns the number of a bit in range that was
-- clear, sets that bit and no other, counts one free bit less, and leaves the bitmap valid.
pub alloc_bitmap_bit-Taken :
    (bm : Bitmap) (bytes : List ℕ)
    → IsValid bm bytes
    → 0 < bm.free_count
    → Taken bm bytes (alloc_bitmap_bit bm)
unfolding alloc_bitmap_bit
alloc_bitmap_bit-Taken bm bytes v pos =
    let (k, e) = found bm bytes v pos in
    let (clear, lt) =
      find_clear_sound bytes bm.last_allocated bm.total_bits bm.total_bits 0 v.inhabited e in
    let ne : (bm.free_count == 0) ≡ false = ground arith in
    rw (v.holds, ne, e)
      (record {
        in_range = lt;
        was_clear = clear;
        valid = taken-IsValid bm bytes v k k lt lt clear;
        fewer = omega (arith, v.counted, v.small, count_clear-le bytes bm.total_bits);
        only = is_set-mark bytes k v.are_bytes (inside bm bytes v k lt);
        total = refl;
      })

-- With no clear bit left it returns 0 and changes nothing.
pub alloc_bitmap_bit-full : (bm : Bitmap) → bm.free_count ≡ 0 → alloc_bitmap_bit bm ≡ (0, bm)
unfolding alloc_bitmap_bit
alloc_bitmap_bit-full bm e = ground arith

count_clear-replicate : (m n : ℕ) → count_clear (replicate m 0) n ≡ n
unfolding count_clear is_set
count_clear-replicate m zero = refl
count_clear-replicate m (suc n) = ground (
  arith,
  count_clear-replicate m n,
  get_or-replicate {A = ℕ} m (n / 8) 0,
  test_bit-zero (n % 8) (omega arith),
)

-- For fewer than 2 ^ 31 bits, what `fs_ops_init_bitmap` leaves where it succeeds is a valid bitmap of
-- that many bits, all of its bytes 0 and all of its bits counted as free.
pub init_bitmap-IsValid :
    (n : ℕ) (old : Bitmap) {bm : Bitmap}
    → n < 2 ^ 31
    → init_bitmap true n old ≡ (ok tt, bm)
    → IsValid bm (replicate (byte_count n) 0) × (bm.free_count ≡ n) × (bm.total_bits ≡ n)
unfolding init_bitmap
init_bitmap-IsValid zero old small e = absurd (ground (arith, ap (λ r. r.0) e))
init_bitmap-IsValid (suc n) old {bm} small e =
    let made : Bitmap = record {
      bitmap = some (replicate (byte_count (suc n)) 0);
      total_bits = suc n;
      free_count = suc n;
      last_allocated = 0;
    } in
    let nonzero : (suc n == 0) ≡ false = ground arith in
    let built : (init_bitmap true (suc n) old).1 ≡ made = rw (nonzero, init_bitmap) refl in
    let same : made ≡ bm = sym built ∙ ap (λ r. r.1) e in
    let valid : IsValid made (replicate (byte_count (suc n)) 0) = record {
      holds = refl;
      sized = omega (arith, length-replicate {A = ℕ} (byte_count (suc n)) 0);
      are_bytes = λ i. rw (get_or-replicate {A = ℕ} (byte_count (suc n)) i 0) (omega arith);
      counted = sym (count_clear-replicate (byte_count (suc n)) (suc n));
      small = small;
      inhabited = omega arith;
      last_in = omega arith;
    } in
    rw (← same) (valid, refl, refl)
