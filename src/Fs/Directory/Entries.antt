-- ===== src/Fs/Directory/Entries.antt =====
-- The entries of a directory block, written and read.
use mathlib.Core.List.{append-nil}
use native.Mathlib.Nat.{pow-suc}
use native.Mathlib.Decide.{dec_lt}
use caozuokeshe.Base.{
  get_or-replicate, ℕ, zero, suc, ◌+◌, ◌-◌, ◌*◌, ◌^◌, ◌<◌, ◌≤◌, ◌≡◌, ◌≢◌, refl, ap, sym, ◌∙◌, List,
  [], ◌∷◌, ◌++◌, arith, length, take, drop, replicate, length-replicate, length-take, length-append,
  get_or-drop, get_or-append_left, get_or-append_right, splice_same, splice_before, splice_behind,
  splice, c_string, c_string-append, IsString,
}
use caozuokeshe.Codec.{Fits, Fits-append, decode_le, decode_struct}
use caozuokeshe.Layout.{
  DirEntry, block_size, dir_entry_size, dir_entry_widths, encode_dir_entry, decode_dir_entry,
}
use caozuokeshe.Layout.RoundTrip.{
  DirEntryFits, decode_dir_entry-encode_dir_entry, length-encode_dir_entry,
}
use caozuokeshe.Bitmap.Invariant.{AllBytes}
use caozuokeshe.Fs.Directory.{max_entries, entry_at, put_entry, filename_bytes, new_entry}

Fits-drop : (k : ℕ) (ws vs : List ℕ) → Fits ws vs → Fits (drop k ws) (drop k vs)
Fits-drop zero ws vs f = f
Fits-drop (suc k) [] [] f = f
Fits-drop (suc k) [] (v ∷ vs) f = absurd f
Fits-drop (suc k) (w ∷ ws) [] f = absurd f
Fits-drop (suc k) (w ∷ ws) (v ∷ vs) f = Fits-drop k ws vs f.1

AllBytes-drop : (n : ℕ) (xs : List ℕ) → AllBytes xs → AllBytes (drop n xs)
AllBytes-drop n xs h i = omega (arith, h (n + i), get_or-drop n xs i 0)

AllBytes-take : (n : ℕ) (xs : List ℕ) → AllBytes xs → AllBytes (take n xs)
AllBytes-take zero xs h i = omega arith
AllBytes-take (suc n) [] h i = omega arith
AllBytes-take (suc n) (x ∷ xs) h zero = h 0
AllBytes-take (suc n) (x ∷ xs) h (suc i) = AllBytes-take n xs (λ j. h (suc j)) i

AllBytes-append : (xs ys : List ℕ) → AllBytes xs → AllBytes ys → AllBytes (xs ++ ys)
AllBytes-append xs ys hx hy i = elim (dec_lt i (length xs)) [
  | yes lt ↦ omega (arith, get_or-append_left xs ys i 0 lt, hx i)
  | no ge ↦ omega (arith, ge, get_or-append_right xs ys i 0 (omega (arith, ge)), hy (i - length xs))
]

AllBytes-zeros : (n : ℕ) → AllBytes (replicate n zero)
AllBytes-zeros n i = omega (arith, get_or-replicate n i zero)

-- What is read from bytes fits the fields it is read from.
decode_le-lt : (w : ℕ) (bytes : List ℕ) → AllBytes bytes → decode_le (take w bytes) < 256 ^ w
unfolding decode_le
decode_le-lt zero bytes h = omega arith
decode_le-lt (suc w) [] h = omega (arith, pow-suc 256 w, decode_le-lt w [] h)
decode_le-lt (suc w) (b ∷ bytes) h =
    omega (arith, pow-suc 256 w, h 0, decode_le-lt w bytes (λ i. h (suc i)))

decode_struct-Fits : (ws bytes : List ℕ) → AllBytes bytes → Fits ws (decode_struct ws bytes)
unfolding decode_struct
decode_struct-Fits [] bytes h = tt
decode_struct-Fits (w ∷ ws) bytes h =
    (decode_le-lt w bytes h, decode_struct-Fits ws (drop w bytes) (AllBytes-drop w bytes h))

length-filename_bytes : (filename : List ℕ) → length (filename_bytes filename) ≡ 64
unfolding filename_bytes
length-filename_bytes filename = omega (
  arith,
  length-take 63 filename,
  length-replicate (64 - length (take 63 filename)) zero,
  length-append (take 63 filename) (replicate (64 - length (take 63 filename)) 0),
)

-- The entry that `add_file_to_directory` writes fits its fields.
pub new_entry-DirEntryFits :
    (block filename : List ℕ) (n i : ℕ)
    → AllBytes block
    → AllBytes filename
    → n < 2 ^ 32
    → DirEntryFits (new_entry filename n (entry_at block i))
unfolding new_entry entry_at filename_bytes decode_dir_entry decode_struct
new_entry-DirEntryFits block filename n i bytes name_bytes lt =
    let read = take dir_entry_size (drop (i * dir_entry_size) block) in
    let read_fits = decode_struct-Fits dir_entry_widths read (
      AllBytes-take dir_entry_size (drop (i * dir_entry_size) block)
        (AllBytes-drop (i * dir_entry_size) block bytes)) in
    let padding = Fits-drop 69 dir_entry_widths (decode_struct dir_entry_widths read) read_fits in
    let name =
      AllBytes-append (take 63 filename) (replicate (64 - length (take 63 filename)) 0)
        (AllBytes-take 63 filename name_bytes) (AllBytes-zeros (64 - length (take 63 filename))) in
    record {
      fits = (
        omega (arith, lt),
        (
          omega arith,
          (
            omega arith,
            (
              omega arith,
              Fits-append 1 64 (filename_bytes filename) (1 ∷ replicate 3 1) _
                  (length-filename_bytes filename) (λ k at. name k) (omega arith, padding),
            ),
          ),
        ),
      );
      name_size = length-filename_bytes filename;
    }

take_of_le : (n : ℕ) (xs : List ℕ) → length xs ≤ n → take n xs ≡ xs
take_of_le zero [] h = refl
take_of_le zero (x ∷ xs) h = absurd (omega arith)
take_of_le (suc n) [] h = refl
take_of_le (suc n) (x ∷ xs) h = ap (λ t. x ∷ t) (take_of_le n xs (omega arith))

-- A name of at most 63 bytes is read back.
pub c_string-filename_bytes :
    (filename : List ℕ)
    → IsString filename
    → length filename ≤ 63
    → c_string (filename_bytes filename) ≡ filename
unfolding filename_bytes
c_string-filename_bytes filename h short =
    let whole : take 63 filename ≡ filename = take_of_le 63 filename short in
    let zeros : 64 - length filename ≡ suc (63 - length filename) = omega arith in
    rw (whole, zeros) (c_string-append filename (replicate (63 - length filename) 0) h)

-- An entry that is written is read back, and the others stay.
pub entry_at-put_entry :
    (block : List ℕ) (i : ℕ) (e : DirEntry)
    → length block ≡ block_size
    → i < max_entries
    → DirEntryFits e
    → entry_at (put_entry block i e) i ≡ e
unfolding entry_at put_entry
entry_at-put_entry block i e len lt fits =
    let o = i * dir_entry_size in
    let bytes : take dir_entry_size (drop o (splice block o (encode_dir_entry e)))
        ≡ encode_dir_entry e =
      ap (λ k. take k (drop o (splice block o (encode_dir_entry e))))
        (sym (length-encode_dir_entry e))
      ∙ splice_same block o (encode_dir_entry e) (omega (arith, len)) in
    rw (bytes, ← append-nil (encode_dir_entry e)) (decode_dir_entry-encode_dir_entry e [] fits)

pub entry_at-put_entry_ne :
    (block : List ℕ) (i j : ℕ) (e : DirEntry)
    → length block ≡ block_size
    → i < max_entries
    → i ≢ j
    → entry_at (put_entry block i e) j ≡ entry_at block j
unfolding entry_at put_entry
entry_at-put_entry_ne block i j e len lt ne =
    let o = i * dir_entry_size in
    let size = length-encode_dir_entry e in
    elim (dec_lt i j) [
      | yes before ↦
          ap (λ b. decode_dir_entry (take dir_entry_size b))
            (splice_behind block o (encode_dir_entry e) (j * dir_entry_size)
              (omega (arith, size, before)) (omega (arith, len)))
      | no behind ↦ ap decode_dir_entry (
          splice_before block o (encode_dir_entry e) (j * dir_entry_size) dir_entry_size
            (omega (arith, behind, ne)) (omega (arith, len)))
    ]
