-- ===== src/Fs/Directory/Listed.antt =====
-- `add_file_to_directory` and `find_file_in_directory` one after the other.
use caozuokeshe.Base.{
  ℕ, ◌^◌, ◌<◌, ◌≤◌, ◌≡◌, ◌≢◌, refl, ap, sym, ◌∙◌, inl, inr, true, false, none, some, List, arith,
  length, Bool-cases, str_eq, str_eq→eq, str_eq_refl, IsString,
}
use caozuokeshe.Errors.{ok}
use caozuokeshe.Layout.{Inode}
use caozuokeshe.Layout.RoundTrip.{InodeFits}
use caozuokeshe.Bitmap.Invariant.{AllBytes}
use caozuokeshe.Disk.Host.{Host, IsReliable}
use caozuokeshe.Fs.State.{FsState}
use caozuokeshe.Fs.Directory.{
  max_entries, find_entry, entry_at, put_entry, new_entry, find_free_entry, find_file_in_directory,
  add_file_to_directory,
}
use caozuokeshe.Fs.Directory.Found.{find_entry-put_entry}
use caozuokeshe.Fs.Directory.Stored.{
  IsDirectory, touched, find_file-IsDirectory, added, still, block-length,
}

-- The inode of a directory that has got a new size and new times.
touched-InodeFits :
    (dir : Inode) (now : ℕ) → InodeFits dir → now < 2 ^ 64 → InodeFits (touched dir now)
touched-InodeFits dir now h lt =
    let (
      number,
      (kind, (mode, (uid, (gid, (links, (size, (count, (access, (modify, (change, rest)))))))))),
    ) =
      h.fits in
    record {
      fits = (
        number,
        (
          kind,
          (
            mode,
            (
              uid,
              (
                gid,
                (
                  links,
                  (omega arith, (count, (access, (omega (arith, lt), (omega (arith, lt), rest))))),
                ),
              ),
            ),
          ),
        ),
      );
      direct = h.direct;
    }

-- On a reliable host with times of 64 bits, for a directory in the inode table whose first block lies
-- outside the table, holds bytes and has a free entry, and a name of at most 63 bytes that no entry of
-- the block has: `add_file_to_directory` succeeds, `find_file_in_directory` then gives the new file's
-- inode number under the new name, and under any name that the block had before the number that it had.
pub find_file-add_file :
    (host : Host) (s : FsState) (n : ℕ) (dir : Inode) (block filename name : List ℕ) (i m k : ℕ)
    → IsReliable host
    → ((c : ℕ) → host.time c < 2 ^ 64)
    → IsDirectory s n dir block
    → InodeFits dir
    → AllBytes block
    → find_free_entry block max_entries 0 ≡ some i
    → AllBytes filename
    → IsString filename
    → length filename ≤ 63
    → m ≢ 0
    → m < 2 ^ 32
    → find_entry block filename max_entries 0 ≡ none
    → find_entry block name max_entries 0 ≡ some k
    → let (status, s') = add_file_to_directory host n filename m s in
      (status ≡ ok tt)
      × ((find_file_in_directory host n filename s').0 ≡ ok m)
      × ((find_file_in_directory host n name s').0 ≡ ok k)
find_file-add_file host s n dir block filename name i m k reliable timely d h bytes place name_bytes
      string short numbered small fresh old =
    let fits : (c : ℕ) → InodeFits (touched dir (host.time c)) =
      λ c. touched-InodeFits dir (host.time c) h (timely c) in
    let d' = still host reliable s n dir block d i place filename m numbered fits in
    let ran = added host reliable s n dir block d i place filename m numbered fits in
    let len = block-length host reliable s n dir block d i place filename m numbered fits in
    let finds =
      find_entry-put_entry block filename m i len bytes name_bytes string short small place fresh in
    let self : str_eq filename filename ≡ true = str_eq_refl filename in
    let other : str_eq filename name ≡ false = elim (Bool-cases (str_eq filename name)) [
      | inr e ↦ e
      | inl e ↦
          let same : none ≡ some k =
            sym fresh
            ∙ ap (λ x. find_entry block x max_entries 0) (str_eq→eq filename name e)
            ∙ old in
          cc
    ] in
    let here : find_entry (put_entry block i (new_entry filename m (entry_at block i))) filename
          max_entries 0
        ≡ some m =
      finds filename ∙ rw self refl in
    let there : find_entry (put_entry block i (new_entry filename m (entry_at block i))) name
          max_entries 0
        ≡ some k =
      finds name ∙ rw other old in
    (
      ap (λ r. r.0) ran,
      ap (λ r. (find_file_in_directory host n filename r.1).0) ran
          ∙ find_file-IsDirectory host reliable _ n _ _ filename m d' here,
      ap (λ r. (find_file_in_directory host n name r.1).0) ran
          ∙ find_file-IsDirectory host reliable _ n _ _ name k d' there,
    )
