-- ===== src/Base/Splice.antt =====
-- `memcpy` into the middle of a buffer.
use Prim.Native.Nat.{ℕ, zero, suc, ◌+◌, ◌-◌, ◌≤◌}
use mathlib.Core.Path.{◌≡◌, refl, ap, ◌∙◌}
use mathlib.Core.List.{List, [], ◌∷◌, ◌++◌}
use native.Mathlib.Omega.{arith}
use caozuokeshe.Base.Lists.{
  length, take, drop, length-take, length-drop, length-append, take-append_of_length,
  drop-append_of_length,
}

module _ {ℓ} {A : Type ℓ} where
  -- `memcpy(buffer + offset, bytes, ...)`
  unfoldable pub splice : (buffer : List A) (offset : ℕ) (bytes : List A) → List A
  splice buffer offset bytes = take offset buffer ++ (bytes ++ drop (offset + length bytes) buffer)

  drop-nil : (m n : ℕ) → drop {A = A} m [] ≡ drop n []
  drop-nil zero zero = refl
  drop-nil zero (suc n) = refl
  drop-nil (suc m) zero = refl
  drop-nil (suc m) (suc n) = refl

  drop-drop : (m n : ℕ) (xs : List A) → drop m (drop n xs) ≡ drop (n + m) xs
  drop-drop m zero xs = let e : m ≡ 0 + m = omega arith in ap (λ k. drop k xs) e
  drop-drop zero (suc n) [] = drop-nil zero (suc n + zero)
  drop-drop (suc m) (suc n) [] = drop-nil (suc m) (suc n + suc m)
  drop-drop m (suc n) (x ∷ xs) =
      let e : suc (n + m) ≡ suc n + m = omega arith in
      drop-drop m n xs ∙ ap (λ k. drop k (x ∷ xs)) e

  -- Past a first part.
  drop-append_of_le :
      (k : ℕ) (xs ys : List A) → length xs ≤ k → drop k (xs ++ ys) ≡ drop (k - length xs) ys
  drop-append_of_le k [] ys h = ap (λ n. drop n ys) (omega arith)
  drop-append_of_le zero (x ∷ xs) ys h = absurd (omega arith)
  drop-append_of_le (suc k) (x ∷ xs) ys h =
      drop-append_of_le k xs ys (omega arith) ∙ ap (λ n. drop n ys) (omega arith)

  -- Within a first part that is a beginning of a list.
  take-drop-take :
      (k o n : ℕ) (xs ys : List A)
      → o + k ≤ n
      → n ≤ length xs
      → take k (drop o (take n xs ++ ys)) ≡ take k (drop o xs)
  take-drop-take zero o n xs ys h len = refl
  take-drop-take (suc k) o zero xs ys h len = absurd (omega arith)
  take-drop-take (suc k) o (suc n) [] ys h len = absurd (omega arith)
  take-drop-take (suc k) zero (suc n) (x ∷ xs) ys h len =
      ap (λ l. x ∷ l) (take-drop-take k zero n xs ys (omega arith) (omega arith))
  take-drop-take (suc k) (suc o) (suc n) (x ∷ xs) ys h len =
      take-drop-take (suc k) o n xs ys (omega arith) (omega arith)

  pub length-splice :
      (buffer : List A) (o : ℕ) (bytes : List A)
      → o + length bytes ≤ length buffer
      → length (splice buffer o bytes) ≡ length buffer
  unfolding splice
  length-splice buffer o bytes h = omega (
    arith,
    length-append (take o buffer) (bytes ++ drop (o + length bytes) buffer),
    length-append bytes (drop (o + length bytes) buffer),
    length-take o buffer,
    length-drop (o + length bytes) buffer,
  )

  -- What was copied in is found there.
  pub splice_same :
      (buffer : List A) (o : ℕ) (bytes : List A)
      → o ≤ length buffer
      → take (length bytes) (drop o (splice buffer o bytes)) ≡ bytes
  unfolding splice
  splice_same buffer o bytes h =
      ap (take (length bytes)) (
        drop-append_of_length o (take o buffer) (bytes ++ drop (o + length bytes) buffer)
          (omega (arith, length-take o buffer)))
      ∙ take-append_of_length (length bytes) bytes (drop (o + length bytes) buffer) refl

  -- What lies before it is as it was.
  pub splice_before :
      (buffer : List A) (o : ℕ) (bytes : List A) (o' k : ℕ)
      → o' + k ≤ o
      → o ≤ length buffer
      → take k (drop o' (splice buffer o bytes)) ≡ take k (drop o' buffer)
  unfolding splice
  splice_before buffer o bytes o' k h len = take-drop-take k o' o buffer _ h len

  -- What lies behind it is as it was.
  pub splice_behind :
      (buffer : List A) (o : ℕ) (bytes : List A) (o' : ℕ)
      → o + length bytes ≤ o'
      → o ≤ length buffer
      → drop o' (splice buffer o bytes) ≡ drop o' buffer
  unfolding splice
  splice_behind buffer o bytes o' h len =
      let l : length (take o buffer) ≡ o = omega (arith, length-take o buffer) in
      drop-append_of_le o' (take o buffer) (bytes ++ drop (o + length bytes) buffer)
        (omega (arith, l))
      ∙ drop-append_of_le (o' - length (take o buffer)) bytes (drop (o + length bytes) buffer)
          (omega (arith, l))
      ∙ drop-drop (o' - length (take o buffer) - length bytes) (o + length bytes) buffer
      ∙ ap (λ n. drop n buffer) (omega (arith, l))
