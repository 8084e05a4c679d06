-- ===== src/Bitmap/Search.antt =====
-- About the search of `alloc_bitmap_bit`.
use caozuokeshe.Base.{
  ℕ, zero, suc, ◌+◌, ◌-◌, ◌%◌, ◌^◌, ◌≤◌, ◌<◌, ◌≡◌, refl, ap, inl, inr, true, false, none, some,
  List, arith, ltb, ltb→lt, ◌==◌, if◌then◌else◌, Bool-cases, ==_iff,
}
use native.Mathlib.Nat.{mod-eq_of_lt}
use caozuokeshe.Bitmap.{is_set, count_clear, find_clear}

-- What the search finds is a clear bit of the bitmap.
pub find_clear_sound :
    (bytes : List ℕ) (start total rounds i : ℕ) {b : ℕ}
    → 0 < total
    → find_clear bytes start total rounds i ≡ some b
    → (is_set bytes b ≡ false) × (b < total)
unfolding find_clear
find_clear_sound bytes start total zero i pos e = cc
find_clear_sound bytes start total (suc rounds) i {b} pos e =
    ground (arith, find_clear_sound bytes start total rounds (i + 1) {b = b} pos)

-- If the search fails, the bits that it went over are all set.
pub find_clear_complete :
    (bytes : List ℕ) (start total rounds i j : ℕ)
    → find_clear bytes start total rounds i ≡ none
    → i ≤ j
    → j < i + rounds
    → is_set bytes ((start + j) % 2 ^ 32 % total) ≡ true
unfolding find_clear
find_clear_complete bytes start total zero i j e lo hi = absurd (omega arith)
find_clear_complete bytes start total (suc rounds) i j e lo hi = elim (Bool-cases (i == j)) [
  | inl q ↦
      let p : i ≡ j = (==_iff i j).0 q in
      ground (arith, p, ap (λ k. is_set bytes ((start + k) % 2 ^ 32 % total)) p)
  | inr q ↦
      let p : i + 1 ≤ j = ground arith in
      ground (arith, p, find_clear_complete bytes start total rounds (i + 1) j)
]

mod_wrap : (x n : ℕ) → x < n → (x + n) % n ≡ x
mod_wrap x n h = grind arith

-- The round in which the search comes to bit `b`.
abbrev round_of : (start total b : ℕ) → ℕ
round_of start total b = if ltb b start then total - start + b else b - start

round_of-lands :
    (start total b : ℕ)
    → start < total
    → b < total
    → total < 2 ^ 31
    → (round_of start total b < total) × ((start + round_of start total b) % 2 ^ 32 % total ≡ b)
round_of-lands start total b hs hb small = elim (Bool-cases (ltb b start)) [
  | inl e ↦
      let lt : b < start = ltb→lt b start e in
      let sum : (start + (total - start + b)) % 2 ^ 32 ≡ b + total = omega arith in
      rw (e, sum) (omega arith, mod_wrap b total hb)
  | inr e ↦
      let ge : start ≤ b = ground arith in
      let sum : (start + (b - start)) % 2 ^ 32 ≡ b = omega arith in
      rw (e, sum) (omega arith, mod-eq_of_lt hb)
]

all_set-count :
    (bytes : List ℕ) (n : ℕ) → ((j : ℕ) → j < n → is_set bytes j ≡ true) → count_clear bytes n ≡ 0
unfolding count_clear
all_set-count bytes zero h = refl
all_set-count bytes (suc n) h =
    ground (arith, h n (omega arith), all_set-count bytes n (λ j p. h j (omega arith)))

-- A search through all rounds fails only if no bit is clear.
pub find_clear-none :
    (bytes : List ℕ) (start total : ℕ)
    → start < total
    → total < 2 ^ 31
    → find_clear bytes start total total 0 ≡ none
    → count_clear bytes total ≡ 0
find_clear-none bytes start total hs small e = all_set-count bytes total (λ j hj.
    let r = round_of-lands start total j hs hj small in
    let t =
      find_clear_complete bytes start total total 0 (round_of start total j) e (omega arith)
        (omega (arith, r.0)) in
    rw r.1 at t)
