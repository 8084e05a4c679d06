-- ===== src/Fs/Files/Mount.antt =====
-- About `load_filesystem_state` and `fs_create` in a program that has not formatted the disk.
use caozuokeshe.Base.{
  ◌-◌, min, Option-cases, ℕ, zero, suc, ◌+◌, ◌≡◌, ◌≢◌, refl, ap, ◌∙◌, inl, inr, Option, none, some,
  List, ◌==◌, ltb, arith, Bool-cases, if◌then◌else◌, replicate, length,
}
use caozuokeshe.Errors.{Result-cases, ok, err, invalid_param}
use caozuokeshe.Layout.{block_size, fs_magic_number, decode_superblock, superblock_checksum}
use caozuokeshe.Bitmap.{Bitmap, byte_count, alloc_bitmap_bit}
use caozuokeshe.Disk.Host.{Host}
use caozuokeshe.Fs.State.{
  FsState, M, pure, fail, ◌>>=◌, ◌>>◌, modify, read_disk, max_open_files, zero_handle,
}
use caozuokeshe.Fs.Super.{
  read_superblock, superblock_block, inode_bitmap_block, data_bitmap_block, bitmap_blocks,
}
use caozuokeshe.Fs.BitmapIo.{
  Which, inodes, blocks, bitmap_of, read_bitmap_loop, recount, read_bitmap, copy_into,
}
use caozuokeshe.Fs.Directory.ReadOnly.{read_disk-IsReadOnly}
use caozuokeshe.Fs.Files.{parse_path, load_filesystem_state, ensure_loaded, resolve, fs_create}
use caozuokeshe.Fs.Files.Create.{fs_create-none_left}

-- The pointer of the inode bitmap is null.
abbrev IsNull : FsState → Type 0
IsNull s = s.inode_bitmap.bitmap ≡ none

-- A step that allocates no inode bitmap.
abbrev KeepsNull : {A : Type 0} → M A → Type 0
KeepsNull m = (s : FsState) → IsNull s → IsNull (m s).1

bind-KeepsNull :
    {A B : Type 0} (m : M A) (f : A → M B)
    → KeepsNull m
    → ((a : A) → KeepsNull (f a))
    → KeepsNull (m >>= f)
bind-KeepsNull m f first rest s h = elim (Result-cases (m s).0) [
  | inl (a, e) ↦ rw (e, ◌>>=◌) (rest a (m s).1 (first s h))
  | inr (x, e) ↦ rw (e, ◌>>=◌) (first s h)
]

read_disk-KeepsNull : (host : Host) (b : ℕ) → KeepsNull (read_disk host b)
read_disk-KeepsNull host b s h =
    ap (λ bm. bm.bitmap) (ap FsState.inode_bitmap (read_disk-IsReadOnly host b s)) ∙ h

read_superblock-KeepsNull : (host : Host) → KeepsNull (read_superblock host)
unfolding read_superblock
read_superblock-KeepsNull host s h =
    let k = read_disk-KeepsNull host superblock_block s h in
    elim (Result-cases (read_disk host superblock_block s).0) [
      | inr (reason, e) ↦ rw (e, ◌>>=◌, read_superblock) k
      | inl (bytes, e) ↦
          let sb = decode_superblock bytes in
          elim (Bool-cases (sb.magic_number == fs_magic_number)) [
            | inr f ↦ rw (e, f, ◌>>=◌, read_superblock) k
            | inl f ↦ elim (Bool-cases (sb.checksum == superblock_checksum sb)) [
              | inr g ↦ rw (e, f, g, ◌>>=◌, read_superblock) k
              | inl g ↦ rw (e, f, g, ◌>>=◌, read_superblock) k
            ]
          ]
    ]

copied-KeepsNull :
    (which : Which) (offset count : ℕ) (buffer : List ℕ)
    → KeepsNull (copy_into which offset count buffer)
unfolding copy_into
copied-KeepsNull inodes offset count buffer s h = rw (h, copy_into) h
copied-KeepsNull blocks offset count buffer s h = elim (Option-cases s.block_bitmap.bitmap) [
  | inl e ↦ rw (e, copy_into) h
  | inr (bytes, e) ↦ rw (e, copy_into) h
]

recounted-KeepsNull : (which : Which) → KeepsNull (recount which)
unfolding recount
recounted-KeepsNull inodes s h = elim (Bool-cases (s.inode_bitmap.total_bits == 0)) [
  | inl z ↦ rw (h, z, recount) h
  | inr z ↦ rw (h, z, recount) h
]
recounted-KeepsNull blocks s h = elim (Option-cases s.block_bitmap.bitmap) [
  | inr (bytes, e) ↦ rw (e, recount) h
  | inl e ↦ elim (Bool-cases (s.block_bitmap.total_bits == 0)) [
    | inl z ↦ rw (e, z, recount) h
    | inr z ↦ rw (e, z, recount) h
  ]
]

read_bitmap_loop-KeepsNull :
    (host : Host) (which : Which) (rounds block done : ℕ)
    → KeepsNull (read_bitmap_loop host which rounds block done)
unfolding read_bitmap_loop
read_bitmap_loop-KeepsNull host which zero block done s h = h
read_bitmap_loop-KeepsNull host which (suc rounds) block done s h =
    elim (Bool-cases (ltb done (byte_count (bitmap_of s which).total_bits))) [
      | inr e ↦ rw (e, read_bitmap_loop) h
      | inl e ↦
          let k = read_disk-KeepsNull host block s h in
          elim (Result-cases (read_disk host block s).0) [
            | inr (reason, f) ↦ rw (e, f, ◌>>=◌, read_bitmap_loop) k
            | inl (buffer, f) ↦
                let count = min (byte_count (bitmap_of s which).total_bits - done) block_size in
                rw (e, f, ◌>>=◌, read_bitmap_loop)
                  (bind-KeepsNull (copy_into which done count buffer)
                    (λ _. read_bitmap_loop host which rounds (block + 1) (done + count))
                    (copied-KeepsNull which done count buffer)
                    (λ _. read_bitmap_loop-KeepsNull host which rounds (block + 1) (done + count))
                    (read_disk host block s).1 k)
          ]
    ]

read_bitmap-KeepsNull :
    (host : Host) (which : Which) (start_block block_count : ℕ)
    → KeepsNull (read_bitmap host which start_block block_count)
unfolding read_bitmap
read_bitmap-KeepsNull host which start_block block_count =
    bind-KeepsNull (read_bitmap_loop host which block_count start_block 0) (λ _. recount which)
      (read_bitmap_loop-KeepsNull host which block_count start_block 0)
      (λ _. recounted-KeepsNull which)

abbrev close_all : M (Unit {0})
close_all = modify (λ s. record s { open_files = replicate max_open_files zero_handle })

abbrev load_blocks : Host → M (Unit {0})
load_blocks host = read_bitmap host blocks data_bitmap_block bitmap_blocks >> close_all

abbrev load_inodes : Host → M (Unit {0})
load_inodes host = read_bitmap host inodes inode_bitmap_block bitmap_blocks >> load_blocks host

load_blocks-KeepsNull : (host : Host) → KeepsNull (load_blocks host)
load_blocks-KeepsNull host =
    bind-KeepsNull (read_bitmap host blocks data_bitmap_block bitmap_blocks) (λ _. close_all)
      (read_bitmap-KeepsNull host blocks data_bitmap_block bitmap_blocks) (λ _ s h. h)

load_inodes-KeepsNull : (host : Host) → KeepsNull (load_inodes host)
load_inodes-KeepsNull host =
    bind-KeepsNull (read_bitmap host inodes inode_bitmap_block bitmap_blocks)
      (λ _. load_blocks host) (read_bitmap-KeepsNull host inodes inode_bitmap_block bitmap_blocks)
      (λ _. load_blocks-KeepsNull host)

load_filesystem_state-KeepsNull : (host : Host) → KeepsNull (load_filesystem_state host)
unfolding load_filesystem_state
load_filesystem_state-KeepsNull host =
    bind-KeepsNull (read_superblock host) (λ _. load_inodes host) (read_superblock-KeepsNull host)
      (λ _. load_inodes-KeepsNull host)

resolve-KeepsNull : (host : Host) (path : Option (List ℕ)) → KeepsNull (resolve host path)
unfolding resolve ensure_loaded
resolve-KeepsNull host none = λ s h. h
resolve-KeepsNull host (some p) =
    bind-KeepsNull (ensure_loaded host) (λ _. parsed) loaded (λ _. named)
  where
    loaded : KeepsNull (ensure_loaded host)
    loaded s h = elim (Bool-cases (s.superblock.magic_number == fs_magic_number)) [
      | inl e ↦ rw (e, ensure_loaded) h
      | inr e ↦ rw (e, ensure_loaded) (load_filesystem_state-KeepsNull host s h)
    ]

    parsed : M (ℕ × List ℕ)
    parsed = elim (parse_path p) [
      | err e ↦ fail e
      | ok (parent, filename) ↦
          if length filename == 0 then fail invalid_param else pure (parent, filename)
    ]

    named : KeepsNull parsed
    named s h = elim (Result-cases (parse_path p)) [
      | inr (reason, e) ↦ ground (arith, e, h)
      | inl ((parent, filename), e) ↦ ground (arith, e, h)
    ]

-- The bitmaps of a program that has just started.
abbrev pub unallocated : Bitmap
unallocated = record { bitmap = none; total_bits = 0; free_count = 0; last_allocated = 0 }

-- As long as no format has allocated the bitmaps, `fs_create` does not succeed, also where it has first
-- loaded the file system from the disk, whatever the disk holds, the path and the host.
pub fs_create-unallocated :
    (host : Host) (path : Option (List ℕ)) (s : FsState)
    → s.inode_bitmap ≡ unallocated
    → (fs_create host path s).0 ≢ ok tt
unfolding alloc_bitmap_bit
fs_create-unallocated host path s h =
    let null = resolve-KeepsNull host path s (ap (λ bm. bm.bitmap) h) in
    fs_create-none_left host path s (rw (null, alloc_bitmap_bit) refl)
