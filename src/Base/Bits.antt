-- ===== src/Base/Bits.antt =====
-- Single bits of a byte: `byte & (1 << bit)`, `byte |= 1 << bit`, `byte &= ~(1 << bit)`, with the
-- laws that relate them, each proved by running through all bytes and bit positions.
use caozuokeshe.Base.Tests.{◌==◌, ltb}
use Prim.Native.Nat.{ℕ, zero, suc, ◌-◌, ◌^◌, ◌<◌, bit_and, bit_or}
use mathlib.Core.Path.{◌≡◌, refl}
use mathlib.Core.Bool.{Bool, true, false, not, ◌&&◌, ◌||◌}
use native.Mathlib.Omega.{arith}

-- `(byte & (1 << bit)) != 0`
unfoldable pub test_bit : ℕ → ℕ → Bool
test_bit byte bit = not (bit_and byte (2 ^ bit) == 0)

-- `byte | (1 << bit)`
pub set_bit : ℕ → ℕ → ℕ
set_bit byte bit = bit_or byte (2 ^ bit)

-- `byte & ~(1 << bit)`, at the width of a byte
pub clear_bit : ℕ → ℕ → ℕ
clear_bit byte bit = bit_and byte (255 - 2 ^ bit)

-- The test holds of each number under the limit.
unfoldable pub passes : (test : ℕ → Bool) (limit : ℕ) → Bool
passes test zero = true
passes test (suc limit) = passes test limit && test limit

pub passes_lem :
    (test : ℕ → Bool) (limit : ℕ) {k : ℕ} → k < limit → passes test limit ≡ true → test k ≡ true
unfolding passes
passes_lem test zero lt all = absurd (omega arith)
passes_lem test (suc limit) {k} lt all = ground (arith, passes_lem test limit {k = k})

abbrev eqb : Bool → Bool → Bool
eqb true b = b
eqb false b = not b

eqb→eq : (a b : Bool) → eqb a b ≡ true → a ≡ b
eqb→eq true b h = ground arith
eqb→eq false b h = ground arith

-- A table over all bytes and two bit positions.
table : (ℕ → ℕ → ℕ → Bool) → Bool
unfolding passes
table p = passes (λ x. passes (λ i. passes (λ j. p x i j) 8) 8) 256

table_sound :
    (p : ℕ → ℕ → ℕ → Bool) (x i j : ℕ) → table p ≡ true → x < 256 → i < 8 → j < 8 → p x i j ≡ true
unfolding table
table_sound p x i j t hx hi hj = passes_lem (p x i) 8 hj (
    passes_lem (λ i'. passes (p x i') 8) 8 hi
      (passes_lem (λ x'. passes (λ i'. passes (p x' i') 8) 8) 256 hx t))

abbrev set_bit_row : ℕ → ℕ → ℕ → Bool
set_bit_row x i j = eqb (test_bit (set_bit x i) j) ((i == j) || test_bit x j)

set_bit_table : table set_bit_row ≡ true
unfolding table test_bit set_bit
set_bit_table = refl

abbrev clear_bit_row : ℕ → ℕ → ℕ → Bool
clear_bit_row x i j = eqb (test_bit (clear_bit x i) j) (not (i == j) && test_bit x j)

clear_bit_table : table clear_bit_row ≡ true
unfolding table test_bit clear_bit
clear_bit_table = refl

abbrev width_row : ℕ → ℕ → ℕ → Bool
width_row x i j = ltb (set_bit x i) 256 && ltb (clear_bit x i) 256

width_table : table width_row ≡ true
unfolding table set_bit clear_bit
width_table = refl

pub test_bit-set_bit :
    (x i j : ℕ) → x < 256 → i < 8 → j < 8 → test_bit (set_bit x i) j ≡ ((i == j) || test_bit x j)
test_bit-set_bit x i j hx hi hj = eqb→eq _ _ (table_sound set_bit_row x i j set_bit_table hx hi hj)

pub test_bit-clear_bit :
    (x i j : ℕ)
    → x < 256
    → i < 8
    → j < 8
    → test_bit (clear_bit x i) j ≡ (not (i == j) && test_bit x j)
test_bit-clear_bit x i j hx hi hj =
    eqb→eq _ _ (table_sound clear_bit_row x i j clear_bit_table hx hi hj)

pub bits_lt : (x i : ℕ) → x < 256 → i < 8 → (set_bit x i < 256) × (clear_bit x i < 256)
bits_lt x i hx hi =
    let e = table_sound width_row x i 0 width_table hx hi (omega arith) in
    (ground (arith, e), ground (arith, e))

zero_table : passes (λ j. not (test_bit 0 j)) 8 ≡ true
unfolding passes test_bit
zero_table = refl

pub test_bit-zero : (j : ℕ) → j < 8 → test_bit 0 j ≡ false
test_bit-zero j h = let e = passes_lem (λ j. not (test_bit 0 j)) 8 h zero_table in ground (arith, e)
