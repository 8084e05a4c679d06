-- ===== src/Fs/Directory/ReadOnly.antt =====
-- About the functions that only read: `fs_ops_read_inode` and `find_file_in_directory`.
use caozuokeshe.Base.{
  ℕ, ◌≡◌, refl, ap, ◌∙◌, inl, inr, List, [], ◌∷◌, ◌==◌, Bool-cases, Option-cases, drop, take,
}
use caozuokeshe.Errors.{Result, Result-cases, ok, err, io}
use caozuokeshe.Layout.{inode_size, decode_inode, file_type_directory}
use caozuokeshe.Disk.Host.{Host}
use caozuokeshe.Disk.Block.{Disk, DiskStatus, success, read_block}
use caozuokeshe.Fs.State.{FsState, M, pure, ◌>>=◌, read_disk}
use caozuokeshe.Fs.Inodes.{read_inode, is_bad_number, inode_block, inode_offset}
use caozuokeshe.Fs.Directory.{find_file_in_directory, find_in_blocks, find_entry, max_entries}

abbrev with_disk : Disk → FsState → FsState
with_disk d s = record s { disk = d }

-- Whatever it returns, it changes nothing but the disk.
abbrev pub IsReadOnly : {A : Type 0} → M A → Type 0
IsReadOnly m = (s : FsState) → (m s).1 ≡ record s { disk = (m s).1.disk }

pub bind-IsReadOnly :
    {A B : Type 0} (m : M A) (f : A → M B)
    → IsReadOnly m
    → ((a : A) → IsReadOnly (f a))
    → IsReadOnly (m >>= f)
bind-IsReadOnly m f first rest s = elim (Result-cases (m s).0) [
  | inl (a, e) ↦ rw (e, ◌>>=◌) (rest a (m s).1 ∙ ap (with_disk (f a (m s).1).1.disk) (first s))
  | inr (x, e) ↦ rw (e, ◌>>=◌) (first s)
]

pub read_disk-IsReadOnly : (host : Host) (b : ℕ) → IsReadOnly (read_disk host b)
unfolding read_disk
read_disk-IsReadOnly host b s = go (read_block host s.disk b).0
  where
    d : Disk
    d = (read_block host s.disk b).2

    outcome : DiskStatus → Result (List ℕ) × FsState
    outcome status = elim status [
      | success ↦ (ok (read_block host s.disk b).1, record s { disk = d })
      | _ ↦ (err io, record s { disk = d })
    ]

    go : (status : DiskStatus) → (outcome status).1 ≡ record s { disk = (outcome status).1.disk }
    go status = elim status as (λ k. (outcome k).1 ≡ record s { disk = (outcome k).1.disk }) [
      | success ↦ refl
      | _ ↦ refl
    ]

pub read_inode-IsReadOnly : (host : Host) (n : ℕ) → IsReadOnly (read_inode host n)
unfolding read_inode
read_inode-IsReadOnly host n s = elim (Bool-cases (is_bad_number s n)) [
  | inl e ↦ rw (e, read_inode) refl
  | inr e ↦
      let k =
        bind-IsReadOnly (read_disk host (inode_block s.superblock n))
          (λ block. pure (decode_inode (take inode_size (drop (inode_offset n) block))))
          (read_disk-IsReadOnly host (inode_block s.superblock n)) (λ block s'. refl) s in
      rw (e, read_inode) k
]

find_in_blocks-IsReadOnly :
    (host : Host) (filename block_nums : List ℕ)
    → IsReadOnly (find_in_blocks host filename block_nums)
unfolding find_in_blocks
find_in_blocks-IsReadOnly host filename [] s = refl
find_in_blocks-IsReadOnly host filename (b ∷ bs) s = elim (Bool-cases (b == 0)) [
  | inl z ↦ rw (z, find_in_blocks) refl
  | inr z ↦
      let s1 = (read_disk host b s).1 in
      let first = read_disk-IsReadOnly host b s in
      let rest =
        find_in_blocks-IsReadOnly host filename bs s1
        ∙ ap (with_disk (find_in_blocks host filename bs s1).1.disk) first in
      elim (Result-cases (read_disk host b s).0) [
        | inr (reason, f) ↦ rw (z, f, ◌>>=◌, find_in_blocks) rest
        | inl (block, f) ↦ elim (Option-cases (find_entry block filename max_entries 0)) [
          | inl g ↦ rw (z, f, g, ◌>>=◌, find_in_blocks) rest
          | inr (n, g) ↦ rw (z, f, g, ◌>>=◌, find_in_blocks) first
        ]
      ]
]

-- `find_file_in_directory` changes nothing in the state but the disk's calls and statistics, whatever
-- the host does.
pub find_file_in_directory-IsReadOnly :
    (host : Host) (dir_inode_num : ℕ) (filename : List ℕ)
    → IsReadOnly (find_file_in_directory host dir_inode_num filename)
unfolding find_file_in_directory
find_file_in_directory-IsReadOnly host dir filename s = elim (Bool-cases (dir == 0)) [
  | inl z ↦ rw (z, find_file_in_directory) refl
  | inr z ↦
      let s1 = (read_inode host dir s).1 in
      let first = read_inode-IsReadOnly host dir s in
      elim (Result-cases (read_inode host dir s).0) [
        | inr (reason, f) ↦ rw (z, f, ◌>>=◌, find_file_in_directory) first
        | inl (inode, f) ↦ elim (Bool-cases (inode.file_type == file_type_directory)) [
          | inr g ↦ rw (z, f, g, ◌>>=◌, find_file_in_directory) first
          | inl g ↦
              let blocks = inode.direct_blocks in
              rw (z, f, g, ◌>>=◌, find_file_in_directory)
                (find_in_blocks-IsReadOnly host filename blocks s1
                  ∙ ap (with_disk (find_in_blocks host filename blocks s1).1.disk) first)
        ]
      ]
]

in_blocks :
    (host : Host) (filename block_nums : List ℕ) (s : FsState)
    → (n : ℕ) × ((find_in_blocks host filename block_nums s).0 ≡ ok n)
unfolding find_in_blocks
in_blocks host filename [] s = (0, refl)
in_blocks host filename (b ∷ bs) s = elim (Bool-cases (b == 0)) [
  | inl z ↦ rw (z, find_in_blocks) (0, refl)
  | inr z ↦
      let rest = in_blocks host filename bs (read_disk host b s).1 in
      elim (Result-cases (read_disk host b s).0) [
        | inr (reason, f) ↦ rw (z, f, ◌>>=◌, find_in_blocks) rest
        | inl (block, f) ↦ elim (Option-cases (find_entry block filename max_entries 0)) [
          | inl g ↦ rw (z, f, g, ◌>>=◌, find_in_blocks) rest
          | inr (n, g) ↦ rw (z, f, g, ◌>>=◌, find_in_blocks) (n, refl)
        ]
      ]
]

-- Looking for a file never fails.
pub find_file_in_directory-ok :
    (host : Host) (dir_inode_num : ℕ) (filename : List ℕ) (s : FsState)
    → (n : ℕ) × ((find_file_in_directory host dir_inode_num filename s).0 ≡ ok n)
unfolding find_file_in_directory
find_file_in_directory-ok host dir filename s = elim (Bool-cases (dir == 0)) [
  | inl z ↦ rw (z, find_file_in_directory) (0, refl)
  | inr z ↦ elim (Result-cases (read_inode host dir s).0) [
    | inr (reason, f) ↦ rw (z, f, ◌>>=◌, find_file_in_directory) (0, refl)
    | inl (inode, f) ↦ elim (Bool-cases (inode.file_type == file_type_directory)) [
      | inr g ↦ rw (z, f, g, ◌>>=◌, find_file_in_directory) (0, refl)
      | inl g ↦
          rw (z, f, g, ◌>>=◌, find_file_in_directory)
            (in_blocks host filename inode.direct_blocks (read_inode host dir s).1)
    ]
  ]
]
