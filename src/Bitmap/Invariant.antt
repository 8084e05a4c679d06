-- ===== src/Bitmap/Invariant.antt =====
-- What a valid bitmap is, and what the operations on single bits do to its bytes and its count.
use caozuokeshe.Base.{
  ℕ, zero, suc, ◌+◌, ◌/◌, ◌%◌, ◌^◌, ◌≤◌, ◌<◌, ◌≡◌, ◌≢◌, refl, sym, ap, inl, inr, true, false, not,
  ◌&&◌, ◌||◌, some, List, arith, ◌==◌, Bool-cases, set, get_or, length, length-set, get_or-set_self,
  get_or-set_ne, ==_iff,
}
use caozuokeshe.Base.Bits.{set_bit, clear_bit, test_bit-set_bit, test_bit-clear_bit, bits_lt}
use caozuokeshe.Bitmap.{Bitmap, is_set, mark, unmark, count_clear}

-- Every byte is one, also past the end, where a read gives 0.
abbrev pub AllBytes : List ℕ → Type 0
AllBytes bytes = (i : ℕ) → get_or bytes i 0 < 256

-- A bitmap with its bytes: the array has the size that `total_bits` calls for, and `free_count` is
-- the number of clear bits.
pub record IsValid (bm : Bitmap) (bytes : List ℕ) : Type 0 where
  pub holds : bm.bitmap ≡ some bytes
  pub sized : length bytes ≡ (bm.total_bits + 7) / 8
  pub are_bytes : AllBytes bytes
  pub counted : bm.free_count ≡ count_clear bytes bm.total_bits
  pub small : bm.total_bits < 2 ^ 31
  pub inhabited : 0 < bm.total_bits
  pub last_in : bm.last_allocated < bm.total_bits

pub count_clear-le : (bytes : List ℕ) (n : ℕ) → count_clear bytes n ≤ n
unfolding count_clear
count_clear-le bytes zero = omega arith
count_clear-le bytes (suc n) = ground (arith, count_clear-le bytes n)

-- Bytes that agree on the first `n` bits have the same count.
count_clear-ext :
    (xs ys : List ℕ) (n : ℕ)
    → ((j : ℕ) → j < n → is_set xs j ≡ is_set ys j)
    → count_clear xs n ≡ count_clear ys n
unfolding count_clear
count_clear-ext xs ys zero h = refl
count_clear-ext xs ys (suc n) h =
    ground (arith, h n (omega arith), count_clear-ext xs ys n (λ j p. h j (omega arith)))

-- Bytes that differ in one bit below `n` have counts that differ by one.
count_clear-flip :
    (xs ys : List ℕ) (k n : ℕ)
    → k < n
    → is_set xs k ≡ false
    → is_set ys k ≡ true
    → ((j : ℕ) → k ≢ j → is_set ys j ≡ is_set xs j)
    → count_clear xs n ≡ count_clear ys n + 1
unfolding count_clear
count_clear-flip xs ys k zero lt clear marked same = absurd (omega arith)
count_clear-flip xs ys k (suc n) lt clear marked same = elim (Bool-cases (k == n)) [
  | inl e ↦
      let p : k ≡ n = (==_iff k n).0 e in
      ground (
        arith,
        p,
        count_clear-ext xs ys n (λ j q. sym (same j (omega arith))),
        ap (is_set xs) p,
        ap (is_set ys) p,
      )
  | inr ne ↦
      let p : k ≢ n = ground arith in
      ground (arith, same n p, count_clear-flip xs ys k n (omega arith) clear marked same)
]

module _ (bytes : List ℕ) (k : ℕ) (is : AllBytes bytes) (inside : k / 8 < length bytes) where
  -- `mark` sets bit `k` and leaves every other bit.
  pub is_set-mark : (j : ℕ) → is_set (mark bytes k) j ≡ ((k == j) || is_set bytes j)
  unfolding is_set mark
  is_set-mark j = elim (Bool-cases (k / 8 == j / 8)) [
    | inl e ↦
        let p : k / 8 ≡ j / 8 = (==_iff _ _).0 e in
        let b : ℕ = set_bit (get_or bytes (k / 8) 0) (k % 8) in
        ground (
          arith,
          p,
          get_or-set_self bytes (k / 8) b 0 inside,
          is (k / 8),
          test_bit-set_bit (get_or bytes (k / 8) 0) (k % 8) (j % 8) (is (k / 8)) (omega arith)
              (omega arith),
        )
    | inr e ↦
        let p : k / 8 ≢ j / 8 = ground arith in
        let b : ℕ = set_bit (get_or bytes (k / 8) 0) (k % 8) in
        ground (arith, get_or-set_ne bytes (k / 8) (j / 8) b 0 p)
  ]

  -- `unmark` clears bit `k` and leaves every other bit.
  pub is_set-unmark : (j : ℕ) → is_set (unmark bytes k) j ≡ (not (k == j) && is_set bytes j)
  unfolding is_set unmark
  is_set-unmark j = elim (Bool-cases (k / 8 == j / 8)) [
    | inl e ↦
        let p : k / 8 ≡ j / 8 = (==_iff _ _).0 e in
        let b : ℕ = clear_bit (get_or bytes (k / 8) 0) (k % 8) in
        ground (
          arith,
          p,
          get_or-set_self bytes (k / 8) b 0 inside,
          is (k / 8),
          test_bit-clear_bit (get_or bytes (k / 8) 0) (k % 8) (j % 8) (is (k / 8)) (omega arith)
              (omega arith),
        )
    | inr e ↦
        let p : k / 8 ≢ j / 8 = ground arith in
        let b : ℕ = clear_bit (get_or bytes (k / 8) 0) (k % 8) in
        ground (arith, get_or-set_ne bytes (k / 8) (j / 8) b 0 p)
  ]

  AllBytes-set : (b : ℕ) → b < 256 → AllBytes (set bytes (k / 8) b)
  AllBytes-set b h i = elim (Bool-cases (k / 8 == i)) [
    | inl e ↦
        let p : k / 8 ≡ i = (==_iff _ _).0 e in
        ground (arith, p, get_or-set_self bytes (k / 8) b 0 inside)
    | inr e ↦
        let p : k / 8 ≢ i = ground arith in
        ground (arith, get_or-set_ne bytes (k / 8) i b 0 p, is i)
  ]

  pub AllBytes-mark : AllBytes (mark bytes k)
  unfolding mark
  AllBytes-mark = AllBytes-set _ (bits_lt _ _ (is (k / 8)) (omega arith)).0

  pub AllBytes-unmark : AllBytes (unmark bytes k)
  unfolding unmark
  AllBytes-unmark = AllBytes-set _ (bits_lt _ _ (is (k / 8)) (omega arith)).1

pub length-mark : (bytes : List ℕ) (k : ℕ) → length (mark bytes k) ≡ length bytes
unfolding mark
length-mark bytes k = length-set bytes _ _

pub length-unmark : (bytes : List ℕ) (k : ℕ) → length (unmark bytes k) ≡ length bytes
unfolding unmark
length-unmark bytes k = length-set bytes _ _

-- Marking a clear bit takes one from the count.
pub count_clear-mark :
    (bytes : List ℕ) (k n : ℕ)
    → AllBytes bytes
    → k / 8 < length bytes
    → k < n
    → is_set bytes k ≡ false
    → count_clear bytes n ≡ count_clear (mark bytes k) n + 1
count_clear-mark bytes k n is inside lt clear =
    count_clear-flip bytes (mark bytes k) k n lt clear
      (ground (arith, is_set-mark bytes k is inside k))
      (λ j ne. ground (arith, is_set-mark bytes k is inside j))

-- Clearing a set bit adds one to the count.
pub count_clear-unmark :
    (bytes : List ℕ) (k n : ℕ)
    → AllBytes bytes
    → k / 8 < length bytes
    → k < n
    → is_set bytes k ≡ true
    → count_clear (unmark bytes k) n ≡ count_clear bytes n + 1
count_clear-unmark bytes k n is inside lt marked =
    count_clear-flip (unmark bytes k) bytes k n lt
      (ground (arith, is_set-unmark bytes k is inside k)) marked
      (λ j ne. ground (arith, is_set-unmark bytes k is inside j))
