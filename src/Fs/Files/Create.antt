-- ===== src/Fs/Files/Create.antt =====
-- About `fs_create` on a bitmap whose first bit is clear.
use caozuokeshe.Base.{
  ℕ, zero, suc, ◌%◌, ◌^◌, ◌≡◌, ◌≢◌, ◌⊎◌, refl, ap, inl, inr, false, Option, none, some, List, ◌==◌,
  arith, Bool-cases,
}
use caozuokeshe.Errors.{Result-cases, ok}
use caozuokeshe.Layout.{fs_magic_number}
use caozuokeshe.Bitmap.{Bitmap, is_set, find_clear, alloc_bitmap_bit}
use caozuokeshe.Disk.Host.{Host}
use caozuokeshe.Fs.State.{FsState, ◌>>=◌}
use caozuokeshe.Fs.Directory.{find_file_in_directory}
use caozuokeshe.Fs.Directory.ReadOnly.{find_file_in_directory-IsReadOnly, find_file_in_directory-ok}
use caozuokeshe.Fs.Files.{parse_path, ensure_loaded, resolve, fs_create}

-- A bitmap whose bit 0 is clear and where the search begins: the next allocation hands out bit 0, or
-- nothing.
pub record AtZero (bm : Bitmap) (bytes : List ℕ) : Type 0 where
  pub holds : bm.bitmap ≡ some bytes
  pub clear : is_set bytes 0 ≡ false
  pub at_zero : bm.last_allocated ≡ 0

find_clear-AtZero :
    (bytes : List ℕ) (total : ℕ)
    → is_set bytes 0 ≡ false
    → (find_clear bytes 0 total total 0 ≡ none) ⊎ (find_clear bytes 0 total total 0 ≡ some 0)
unfolding find_clear
find_clear-AtZero bytes zero clear = inl refl
find_clear-AtZero bytes (suc total) clear =
    let first : 0 % 2 ^ 32 % suc total ≡ 0 = omega arith in
    let here : is_set bytes (0 % 2 ^ 32 % suc total) ≡ false = rw first clear in
    inr (rw (here, find_clear) (ap some first))

alloc_bitmap_bit-AtZero :
    (bm : Bitmap) (bytes : List ℕ) → AtZero bm bytes → (alloc_bitmap_bit bm).0 ≡ 0
unfolding alloc_bitmap_bit
alloc_bitmap_bit-AtZero bm bytes z = elim (Bool-cases (bm.free_count == 0)) [
  | inl e ↦ ground (arith, z.holds, e)
  | inr e ↦
      let from : find_clear bytes bm.last_allocated bm.total_bits bm.total_bits 0
          ≡ find_clear bytes 0 bm.total_bits bm.total_bits 0 =
        ap (λ k. find_clear bytes k bm.total_bits bm.total_bits 0) z.at_zero in
      elim (find_clear-AtZero bytes bm.total_bits z.clear) [
        | inl f ↦ ground (arith, z.holds, e, from, f)
        | inr f ↦ ground (arith, z.holds, e, from, f)
      ]
]

resolve-loaded :
    (host : Host) (path : Option (List ℕ)) (s : FsState)
    → s.superblock.magic_number ≡ fs_magic_number
    → (resolve host path s).1 ≡ s
unfolding resolve ensure_loaded
resolve-loaded host none s magic = refl
resolve-loaded host (some p) s magic = elim (Result-cases (parse_path p)) [
  | inr (reason, e) ↦ ground (arith, magic, e)
  | inl ((parent, filename), e) ↦ ground (arith, magic, e)
]

-- Where `alloc_bitmap_bit` would return 0 on the state that the path is resolved in, `fs_create` does
-- not succeed.
pub fs_create-none_left :
    (host : Host) (path : Option (List ℕ)) (s : FsState)
    → (alloc_bitmap_bit (resolve host path s).1.inode_bitmap).0 ≡ 0
    → (fs_create host path s).0 ≢ ok tt
unfolding fs_create
fs_create-none_left host path s zero_left = elim (Result-cases (resolve host path s).0) [
  | inr (reason, e) ↦ rw (e, ◌>>=◌, fs_create) (λ k. cc)
  | inl ((parent, filename), e) ↦
      let s0 = (resolve host path s).1 in
      let (n, f) = find_file_in_directory-ok host parent filename s0 in
      let s1 = (find_file_in_directory host parent filename s0).1 in
      let kept : s1.inode_bitmap ≡ s0.inode_bitmap =
        ap FsState.inode_bitmap (find_file_in_directory-IsReadOnly host parent filename s0) in
      let none_left : (alloc_bitmap_bit s1.inode_bitmap).0 ≡ 0 = rw kept zero_left in
      elim (Bool-cases (n == 0)) [
        | inr g ↦ rw (e, f, g, ◌>>=◌, fs_create) (λ k. cc)
        | inl g ↦ rw (e, f, g, none_left, ◌>>=◌, fs_create) (λ k. cc)
      ]
]

-- In a file system that is in memory and whose inode bitmap has bit 0 clear and its search beginning
-- there, as `fs_ops_init_bitmap` leaves it, `fs_create` does not succeed, whatever the path and the host.
pub fs_create-AtZero :
    (host : Host) (path : Option (List ℕ)) (s : FsState) (bytes : List ℕ)
    → s.superblock.magic_number ≡ fs_magic_number
    → AtZero s.inode_bitmap bytes
    → (fs_create host path s).0 ≢ ok tt
fs_create-AtZero host path s bytes magic z =
    let same : (resolve host path s).1.inode_bitmap ≡ s.inode_bitmap =
      ap FsState.inode_bitmap (resolve-loaded host path s magic) in
    fs_create-none_left host path s (rw same (alloc_bitmap_bit-AtZero s.inode_bitmap bytes z))
