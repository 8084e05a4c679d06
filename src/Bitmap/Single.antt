-- ===== src/Bitmap/Single.antt =====
-- `set_bitmap_bit` and `free_bitmap_bit` on a valid bitmap, and freeing what was allocated.
use caozuokeshe.Base.{
  ℕ, ◌+◌, ◌<◌, ◌≡◌, sym, ap, ◌∙◌, inl, inr, true, false, not, ◌&&◌, ◌||◌, some, List, arith, leb,
  ◌==◌, if◌then◌else◌, Bool-cases, ==_iff,
}
use caozuokeshe.Bitmap.{
  Bitmap, is_set, mark, unmark, set_bitmap_bit, free_bitmap_bit, alloc_bitmap_bit, dec32, inc32,
}
use caozuokeshe.Bitmap.Invariant.{
  IsValid, is_set-mark, is_set-unmark, count_clear-mark, count_clear-le,
}
use caozuokeshe.Bitmap.Alloc.{alloc_bitmap_bit-Taken, taken-IsValid, given-IsValid, inside}

kept :
    (bytes : List ℕ) (k : ℕ)
    → is_set bytes k ≡ true
    → (j : ℕ) → is_set bytes j ≡ ((k == j) || is_set bytes j)
kept bytes k e j = elim (Bool-cases (k == j)) [
  | inl q ↦ let p : k ≡ j = (==_iff k j).0 q in ground (arith, ap (is_set bytes) p)
  | inr q ↦ rw q
]

cleared :
    (bytes : List ℕ) (k : ℕ)
    → is_set bytes k ≡ false
    → (j : ℕ) → is_set bytes j ≡ (not (k == j) && is_set bytes j)
cleared bytes k e j = elim (Bool-cases (k == j)) [
  | inl q ↦ let p : k ≡ j = (==_iff k j).0 q in ground (arith, ap (is_set bytes) p)
  | inr q ↦ rw q
]

-- Which of its branches each operation takes, at a bit that it accepts.
module _ (bm : Bitmap) (bytes : List ℕ) (k : ℕ) (v : IsValid bm bytes)
    (lt : k < bm.total_bits) where
  in_range : leb bm.total_bits k ≡ false
  in_range = ground arith

  set_bitmap_bit-set : is_set bytes k ≡ true → set_bitmap_bit bm k ≡ bm
  unfolding set_bitmap_bit
  set_bitmap_bit-set e = ground (arith, v.holds, in_range)

  set_bitmap_bit-clear :
      is_set bytes k ≡ false
      → set_bitmap_bit bm k
        ≡ record bm { bitmap = some (mark bytes k); free_count = dec32 bm.free_count }
  unfolding set_bitmap_bit
  set_bitmap_bit-clear e = ground (arith, v.holds, in_range)

  free_bitmap_bit-clear : is_set bytes k ≡ false → free_bitmap_bit bm k ≡ bm
  unfolding free_bitmap_bit
  free_bitmap_bit-clear e = ground (arith, v.holds, in_range)

  free_bitmap_bit-set :
      is_set bytes k ≡ true
      → free_bitmap_bit bm k
        ≡ record bm { bitmap = some (unmark bytes k); free_count = inc32 bm.free_count }
  unfolding free_bitmap_bit
  free_bitmap_bit-set e = ground (arith, v.holds, in_range)

-- On a bit in range of a valid bitmap, `set_bitmap_bit` keeps the bitmap valid, sets that bit and no
-- other, and counts one free bit less exactly if it was clear.
pub set_bitmap_bit-IsValid :
    (bm : Bitmap) (bytes : List ℕ) (k : ℕ)
    → IsValid bm bytes
    → k < bm.total_bits
    → (after : List ℕ) × IsValid (set_bitmap_bit bm k) after
      × ((j : ℕ) → is_set after j ≡ ((k == j) || is_set bytes j))
      × ((set_bitmap_bit bm k).free_count + (if is_set bytes k then 0 else 1) ≡ bm.free_count)
set_bitmap_bit-IsValid bm bytes k v lt = elim (Bool-cases (is_set bytes k)) [
  | inl e ↦ rw (set_bitmap_bit-set bm bytes k v lt e, e) (bytes, v, kept bytes k e, omega arith)
  | inr e ↦
      rw (set_bitmap_bit-clear bm bytes k v lt e, e)
        (
          mark bytes k,
          taken-IsValid bm bytes v k bm.last_allocated lt v.last_in e,
          is_set-mark bytes k v.are_bytes (inside bm bytes v k lt),
          omega (
            arith,
            v.counted,
            v.small,
            count_clear-le bytes bm.total_bits,
            count_clear-mark bytes k bm.total_bits v.are_bytes (inside bm bytes v k lt) lt e,
          ),
        )
]

-- On a bit in range of a valid bitmap, `free_bitmap_bit` keeps the bitmap valid, clears that bit and no
-- other, and counts one free bit more exactly if it was set.
pub free_bitmap_bit-IsValid :
    (bm : Bitmap) (bytes : List ℕ) (k : ℕ)
    → IsValid bm bytes
    → k < bm.total_bits
    → (after : List ℕ) × IsValid (free_bitmap_bit bm k) after
      × ((j : ℕ) → is_set after j ≡ (not (k == j) && is_set bytes j))
      × ((free_bitmap_bit bm k).free_count ≡ bm.free_count + (if is_set bytes k then 1 else 0))
free_bitmap_bit-IsValid bm bytes k v lt = elim (Bool-cases (is_set bytes k)) [
  | inl e ↦
      rw (free_bitmap_bit-set bm bytes k v lt e, e)
        (
          unmark bytes k,
          given-IsValid bm bytes v k lt e,
          is_set-unmark bytes k v.are_bytes (inside bm bytes v k lt),
          omega (arith, v.counted, v.small, count_clear-le bytes bm.total_bits),
        )
  | inr e ↦
      rw (free_bitmap_bit-clear bm bytes k v lt e, e) (bytes, v, cleared bytes k e, omega arith)
]

-- On a valid bitmap with a clear bit, freeing the bit that `alloc_bitmap_bit` has just taken gives every bit and the counter back.
pub free_bitmap_bit-alloc_bitmap_bit :
    (bm : Bitmap) (bytes : List ℕ)
    → IsValid bm bytes
    → 0 < bm.free_count
    → (after : List ℕ) × IsValid
        (free_bitmap_bit (alloc_bitmap_bit bm).1 (alloc_bitmap_bit bm).0)
        after
      × ((j : ℕ) → is_set after j ≡ is_set bytes j)
      × ((free_bitmap_bit (alloc_bitmap_bit bm).1 (alloc_bitmap_bit bm).0).free_count
          ≡ bm.free_count)
free_bitmap_bit-alloc_bitmap_bit bm bytes v pos =
    let t = alloc_bitmap_bit-Taken bm bytes v pos in
    let k = (alloc_bitmap_bit bm).0 in
    let (after, valid, bits, count) =
      free_bitmap_bit-IsValid (alloc_bitmap_bit bm).1 (mark bytes k) k t.valid
        (omega (arith, t.in_range, t.total)) in
    let marked : is_set (mark bytes k) k ≡ true = ground (arith, t.only k) in
    (
      after,
      valid,
      λ j. bits j ∙ undone bytes k t.was_clear t.only j,
      rw marked at count ∙ sym t.fewer,
    )
  where
    undone :
        (bytes : List ℕ) (k : ℕ)
        → is_set bytes k ≡ false
        → ((j : ℕ) → is_set (mark bytes k) j ≡ ((k == j) || is_set bytes j))
        → (j : ℕ) → (not (k == j) && is_set (mark bytes k) j) ≡ is_set bytes j
    undone bytes k clear only j = elim (Bool-cases (k == j)) [
      | inl q ↦ let p : k ≡ j = (==_iff k j).0 q in ground (arith, ap (is_set bytes) p)
      | inr q ↦ ground (arith, only j)
    ]
