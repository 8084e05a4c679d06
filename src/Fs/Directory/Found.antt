-- ===== src/Fs/Directory/Found.antt =====
-- The search of a directory block after an entry has been added to it.
use caozuokeshe.Base.{
  ℕ, zero, suc, ◌+◌, ◌^◌, ◌<◌, ◌≤◌, ◌≡◌, ◌≢◌, refl, ap, sym, ◌∙◌, inl, inr, true, false, none, some,
  List, arith, length, ◌==◌, ==_iff, Bool-cases, if◌then◌else◌, str_eq, str_eq→eq, c_string,
  IsString,
}
use caozuokeshe.Layout.{DirEntry, block_size}
use caozuokeshe.Layout.RoundTrip.{DirEntryFits}
use caozuokeshe.Bitmap.Invariant.{AllBytes}
use caozuokeshe.Fs.Directory.{
  max_entries, entry_at, put_entry, matches, find_entry, find_free_entry, new_entry,
}
use caozuokeshe.Fs.Directory.Entries.{
  new_entry-DirEntryFits, c_string-filename_bytes, entry_at-put_entry, entry_at-put_entry_ne,
}

-- A free entry that is found is in the block and not in use.
pub find_free_entry_sound :
    (block : List ℕ) (rounds j : ℕ) {i : ℕ}
    → find_free_entry block rounds j ≡ some i
    → (j ≤ i) × (i < rounds + j) × ((entry_at block i).is_valid ≡ 0)
unfolding find_free_entry
find_free_entry_sound block zero j {i} e = cc
find_free_entry_sound block (suc rounds) j {i} e =
    elim (Bool-cases ((entry_at block j).is_valid == 0)) [
      | inl h ↦
          let same : j ≡ i = ground (arith, e, h) in
          (
            omega (arith, same),
            omega (arith, same),
            ap (λ k. (entry_at block k).is_valid) (sym same) ∙ (==_iff _ _).0 h,
          )
      | inr h ↦
          let (lo, hi, free) =
            find_free_entry_sound block rounds (j + 1) {i = i} (ground (arith, e, h)) in
          (omega (arith, lo), omega (arith, hi), free)
    ]

module _ (block : List ℕ) (i : ℕ) (new : DirEntry) (len : length block ≡ block_size)
    (lt : i < max_entries) (fits : DirEntryFits new) where
  -- A name that neither the new entry has nor the one it takes the place of.
  find_entry-put_entry_ne :
      (name : List ℕ)
      → matches new name ≡ false
      → matches (entry_at block i) name ≡ false
      → (rounds j : ℕ)
      → find_entry (put_entry block i new) name rounds j ≡ find_entry block name rounds j
  unfolding find_entry
  find_entry-put_entry_ne name fresh old zero j = refl
  find_entry-put_entry_ne name fresh old (suc rounds) j = elim (Bool-cases (i == j)) [
    | inl e ↦
        let here : i ≡ j = (==_iff i j).0 e in
        let put : matches (entry_at (put_entry block i new) j) name ≡ false =
          ap (λ k. matches (entry_at (put_entry block i new) k) name) (sym here)
          ∙ ap (λ x. matches x name) (entry_at-put_entry block i new len lt fits)
          ∙ fresh in
        let was : matches (entry_at block j) name ≡ false =
          ap (λ k. matches (entry_at block k) name) (sym here) ∙ old in
        rw (put, was, find_entry) (find_entry-put_entry_ne name fresh old rounds (j + 1))
    | inr e ↦
        let apart : i ≢ j = λ z. absurd (ground (arith, z, e)) in
        let kept = entry_at-put_entry_ne block i j new len lt apart in
        elim (Bool-cases (matches (entry_at block j) name)) [
          | inl m ↦
              let put : matches (entry_at (put_entry block i new) j) name ≡ true =
                ap (λ x. matches x name) kept ∙ m in
              rw (put, m, find_entry) (ap (λ x. some x.inode_number) kept)
          | inr m ↦ rw (kept, m, find_entry) (find_entry-put_entry_ne name fresh old rounds (j + 1))
        ]
  ]

  -- The name of the new entry, which no entry had.
  find_entry-put_entry_same :
      (name : List ℕ)
      → matches new name ≡ true
      → (rounds j : ℕ) → j ≤ i
      → i < rounds + j
      → find_entry block name rounds j ≡ none
      → find_entry (put_entry block i new) name rounds j ≡ some new.inode_number
  unfolding find_entry
  find_entry-put_entry_same name fresh zero j lo hi free = absurd (omega arith)
  find_entry-put_entry_same name fresh (suc rounds) j lo hi free = elim (Bool-cases (i == j)) [
    | inl e ↦
        let here : entry_at (put_entry block i new) j ≡ new =
          ap (entry_at (put_entry block i new)) (sym ((==_iff i j).0 e))
          ∙ entry_at-put_entry block i new len lt fits in
        let put : matches (entry_at (put_entry block i new) j) name ≡ true =
          ap (λ x. matches x name) here ∙ fresh in
        rw (put, find_entry) (ap (λ x. some x.inode_number) here)
    | inr e ↦
        let apart : i ≢ j = λ z. absurd (ground (arith, z, e)) in
        elim (Bool-cases (matches (entry_at block j) name)) [
          | inl m ↦ absurd (ground (arith, m, free))
          | inr m ↦
              rw (entry_at-put_entry_ne block i j new len lt apart, m, find_entry)
                (find_entry-put_entry_same name fresh rounds (j + 1) (omega (arith, apart))
                  (omega arith) (ground (arith, m, free)))
        ]
  ]

-- In a directory block of bytes, where `find_free_entry` gives a place and no entry has the new name, a
-- string of at most 63 bytes: once `add_file_to_directory` has put its entry there, the search finds
-- the new file under that name, and under any other name what it found before.
pub find_entry-put_entry :
    (block filename : List ℕ) (n i : ℕ)
    → length block ≡ block_size
    → AllBytes block
    → AllBytes filename
    → IsString filename
    → length filename ≤ 63
    → n < 2 ^ 32
    → find_free_entry block max_entries 0 ≡ some i
    → find_entry block filename max_entries 0 ≡ none
    → (name : List ℕ)
    → find_entry (put_entry block i (new_entry filename n (entry_at block i))) name max_entries 0
      ≡ (if str_eq filename name then some n else find_entry block name max_entries 0)
unfolding new_entry
find_entry-put_entry block filename n i len bytes name_bytes string short small place fresh name =
    let (lo, hi, free) = find_free_entry_sound block max_entries 0 {i = i} place in
    let new = new_entry filename n (entry_at block i) in
    let fits = new_entry-DirEntryFits block filename n i bytes name_bytes small in
    let lt : i < max_entries = omega (arith, hi) in
    let named : c_string new.filename ≡ filename = c_string-filename_bytes filename string short in
    elim (Bool-cases (str_eq filename name)) [
      | inl e ↦
          let same : filename ≡ name = str_eq→eq filename name e in
          let found : matches new name ≡ true = rw (named, e) refl in
          rw e (
            find_entry-put_entry_same block i new len lt fits name found max_entries 0 (omega arith)
              (omega (arith, hi)) (ap (λ x. find_entry block x max_entries 0) (sym same) ∙ fresh))
      | inr e ↦
          let missed : matches new name ≡ false = rw (named, e) refl in
          let unused : matches (entry_at block i) name ≡ false = rw free refl in
          rw e (find_entry-put_entry_ne block i new len lt fits name missed unused max_entries 0)
    ]
