-- ===== src/Codec.antt =====
-- The packed structs of the C code as bytes: what `memcpy` of a struct to or from a block buffer
-- moves. A field of `width` bytes is little-endian, and fields follow each other with no gap, as
-- `__attribute__((packed))` lays them out. A char array is a run of fields of one byte.
use native.Mathlib.Nat.{pow-suc}
use mathlib.Core.List.{append_assoc}
use caozuokeshe.Base.{
  ℕ, zero, suc, ◌+◌, ◌*◌, ◌/◌, ◌%◌, ◌^◌, ◌<◌, ◌≡◌, refl, ap, List, [], ◌∷◌, ◌++◌, arith, length,
  get_or, replicate, take, drop, take-append_of_length, drop-append_of_length, length-append,
}

unfoldable pub encode_le : (width value : ℕ) → List ℕ
encode_le zero value = []
encode_le (suc width) value = (value % 256) ∷ encode_le width (value / 256)

unfoldable pub decode_le : List ℕ → ℕ
decode_le [] = 0
decode_le (byte ∷ bytes) = byte + 256 * decode_le bytes

-- A struct as the list of its fields' values, beside the list of their widths.
unfoldable pub encode_struct : (widths values : List ℕ) → List ℕ
unfolding encode_le
encode_struct [] values = []
encode_struct (w ∷ ws) [] = encode_le w 0 ++ encode_struct ws []
encode_struct (w ∷ ws) (v ∷ vs) = encode_le w v ++ encode_struct ws vs

unfoldable pub decode_struct : (widths bytes : List ℕ) → List ℕ
unfolding decode_le
decode_struct [] bytes = []
decode_struct (w ∷ ws) bytes = decode_le (take w bytes) ∷ decode_struct ws (drop w bytes)

-- `sizeof`
unfoldable pub size_of : List ℕ → ℕ
size_of [] = 0
size_of (w ∷ ws) = w + size_of ws

-- Every value fits its field, and there are as many values as fields.
abbrev pub Fits : (widths values : List ℕ) → Type 0
Fits [] [] = Unit {0}
Fits [] (v ∷ vs) = ⊥
Fits (w ∷ ws) [] = ⊥
Fits (w ∷ ws) (v ∷ vs) = (v < 256 ^ w) × Fits ws vs

-- A run of fields of one width in front of others.
pub Fits-append :
    (w n : ℕ) (xs ws vs : List ℕ)
    → length xs ≡ n
    → ((i : ℕ) → i < n → get_or xs i 0 < 256 ^ w)
    → Fits ws vs
    → Fits (replicate n w ++ ws) (xs ++ vs)
Fits-append w zero [] ws vs e h f = f
Fits-append w zero (x ∷ xs) ws vs e h f = absurd (omega (arith, e))
Fits-append w (suc n) [] ws vs e h f = absurd (omega (arith, e))
Fits-append w (suc n) (x ∷ xs) ws vs e h f = (
  h 0 (omega arith),
  Fits-append w n xs ws vs (omega (arith, e)) (λ i lt. h (suc i) (omega arith)) f,
)

pub length-encode_le : (w v : ℕ) → length (encode_le w v) ≡ w
unfolding encode_le
length-encode_le zero v = refl
length-encode_le (suc w) v = ap suc (length-encode_le w (v / 256))

pub length-encode_struct : (ws vs : List ℕ) → length (encode_struct ws vs) ≡ size_of ws
unfolding encode_struct size_of
length-encode_struct [] vs = refl
length-encode_struct (w ∷ ws) [] = omega (
  arith,
  length-append (encode_le w 0) (encode_struct ws []),
  length-encode_le w 0,
  length-encode_struct ws [],
)
length-encode_struct (w ∷ ws) (v ∷ vs) = omega (
  arith,
  length-append (encode_le w v) (encode_struct ws vs),
  length-encode_le w v,
  length-encode_struct ws vs,
)

-- A number that fits its field is read back as it was written.
pub decode_le-encode_le : (w v : ℕ) → v < 256 ^ w → decode_le (encode_le w v) ≡ v
unfolding encode_le decode_le
decode_le-encode_le zero v h = omega arith
decode_le-encode_le (suc w) v h =
    omega (arith, decode_le-encode_le w (v / 256) (omega (arith, pow-suc 256 w)))

-- A struct whose values fit is read back as it was written, whatever stands behind it.
pub decode_struct-encode_struct :
    (ws vs rest : List ℕ) → Fits ws vs → decode_struct ws (encode_struct ws vs ++ rest) ≡ vs
unfolding encode_struct decode_struct
decode_struct-encode_struct [] [] rest h = refl
decode_struct-encode_struct [] (v ∷ vs) rest h = absurd h
decode_struct-encode_struct (w ∷ ws) [] rest h = absurd h
decode_struct-encode_struct (w ∷ ws) (v ∷ vs) rest h = rw (
  append_assoc (encode_le w v) (encode_struct ws vs) rest,
  take-append_of_length w (encode_le w v) (encode_struct ws vs ++ rest) (length-encode_le w v),
  drop-append_of_length w (encode_le w v) (encode_struct ws vs ++ rest) (length-encode_le w v),
  decode_le-encode_le w v h.0,
  decode_struct-encode_struct ws vs rest h.1,
)
