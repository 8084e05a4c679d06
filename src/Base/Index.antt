-- ===== src/Base/Index.antt =====
-- Lists by their elements: `get_or` of what the list functions make, and equality element by element.
use Prim.Native.Nat.{ℕ, zero, suc, ◌+◌, ◌-◌, ◌≤◌, ◌<◌}
use mathlib.Core.Path.{◌≡◌, refl, ap, ap₂, ◌∙◌}
use mathlib.Core.List.{List, [], ◌∷◌, ◌++◌}
use native.Mathlib.Omega.{arith}
use caozuokeshe.Base.Lists.{length, get_or, take, drop, length-take}
use caozuokeshe.Base.Splice.{splice}

module _ {ℓ} {A : Type ℓ} where
  pub get_or-append_left :
      (xs ys : List A) (i : ℕ) (d : A) → i < length xs → get_or (xs ++ ys) i d ≡ get_or xs i d
  get_or-append_left [] ys i d h = absurd (omega arith)
  get_or-append_left (x ∷ xs) ys zero d h = refl
  get_or-append_left (x ∷ xs) ys (suc i) d h = get_or-append_left xs ys i d (omega arith)

  pub get_or-append_right :
      (xs ys : List A) (i : ℕ) (d : A)
      → length xs ≤ i
      → get_or (xs ++ ys) i d ≡ get_or ys (i - length xs) d
  get_or-append_right [] ys i d h = ap (λ k. get_or ys k d) (omega arith)
  get_or-append_right (x ∷ xs) ys zero d h = absurd (omega arith)
  get_or-append_right (x ∷ xs) ys (suc i) d h =
      get_or-append_right xs ys i d (omega arith) ∙ ap (λ k. get_or ys k d) (omega arith)

  pub get_or-take :
      (n : ℕ) (xs : List A) (i : ℕ) (d : A) → i < n → get_or (take n xs) i d ≡ get_or xs i d
  get_or-take zero xs i d h = absurd (omega arith)
  get_or-take (suc n) [] i d h = refl
  get_or-take (suc n) (x ∷ xs) zero d h = refl
  get_or-take (suc n) (x ∷ xs) (suc i) d h = get_or-take n xs i d (omega arith)

  pub get_or-drop :
      (n : ℕ) (xs : List A) (i : ℕ) (d : A) → get_or (drop n xs) i d ≡ get_or xs (n + i) d
  get_or-drop zero xs i d = ap (λ k. get_or xs k d) (omega arith)
  get_or-drop (suc n) [] i d = refl
  get_or-drop (suc n) (x ∷ xs) i d =
      let e : suc (n + i) ≡ suc n + i = omega arith in
      get_or-drop n xs i d ∙ ap (λ k. get_or (x ∷ xs) k d) e

  pub get_or_past : (xs : List A) (i : ℕ) (d : A) → length xs ≤ i → get_or xs i d ≡ d
  get_or_past [] i d h = refl
  get_or_past (x ∷ xs) zero d h = absurd (omega arith)
  get_or_past (x ∷ xs) (suc i) d h = get_or_past xs i d (omega arith)

  -- Lists of one length with the same elements are the same.
  pub list-ext :
      (xs ys : List A) (d : A)
      → length xs ≡ length ys
      → ((i : ℕ) → i < length xs → get_or xs i d ≡ get_or ys i d)
      → xs ≡ ys
  list-ext [] [] d e h = refl
  list-ext [] (y ∷ ys) d e h = absurd (omega (arith, e))
  list-ext (x ∷ xs) [] d e h = absurd (omega (arith, e))
  list-ext (x ∷ xs) (y ∷ ys) d e h =
      ap₂ (λ a l. a ∷ l) (h 0 (omega arith))
        (list-ext xs ys d (omega (arith, e)) (λ i lt. h (suc i) (omega arith)))

  module _ (buffer : List A) (o : ℕ) (bytes : List A) (i : ℕ) (d : A)
      (fits : o + length bytes ≤ length buffer) where
    front : length (take o buffer) ≡ o
    front = omega (arith, length-take o buffer)

    -- Where bytes were copied in, they are found.
    pub get_or-splice_in :
        o ≤ i → i < o + length bytes → get_or (splice buffer o bytes) i d ≡ get_or bytes (i - o) d
    unfolding splice
    get_or-splice_in lo hi =
        get_or-append_right (take o buffer) _ i d (omega (arith, front))
        ∙ ap (λ k. get_or (bytes ++ drop (o + length bytes) buffer) k d) (omega (arith, front))
        ∙ get_or-append_left bytes _ (i - o) d (omega arith)

    -- Elsewhere the buffer is as it was.
    pub get_or-splice_before : i < o → get_or (splice buffer o bytes) i d ≡ get_or buffer i d
    unfolding splice
    get_or-splice_before lt =
        get_or-append_left (take o buffer) _ i d (omega (arith, front))
        ∙ get_or-take o buffer i d lt

    pub get_or-splice_behind :
        o + length bytes ≤ i → get_or (splice buffer o bytes) i d ≡ get_or buffer i d
    unfolding splice
    get_or-splice_behind ge =
        get_or-append_right (take o buffer) _ i d (omega (arith, front))
        ∙ get_or-append_right bytes _ (i - length (take o buffer)) d (omega (arith, front))
        ∙ get_or-drop (o + length bytes) buffer (i - length (take o buffer) - length bytes) d
        ∙ ap (λ k. get_or buffer k d) (omega (arith, front))
