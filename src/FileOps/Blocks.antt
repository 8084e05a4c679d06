-- ===== src/FileOps/Blocks.antt =====
-- From offsets to data blocks, and the checks and helpers that every operation begins with.
pub mod Handles
use caozuokeshe.Base.{
  ℕ, ◌+◌, ◌-◌, ◌/◌, ◌%◌, ◌^◌, not, none, some, ltb, leb, ◌==◌, if◌then◌else◌, get_or, set, ◌≡◌, ◌⊎◌,
  inl, inr, refl, Bool-cases,
}
use caozuokeshe.Errors.{ok, err, invalid_param, undefined}
use caozuokeshe.Layout.{Inode, block_size, direct_block_count, fs_magic_number}
use caozuokeshe.Bitmap.{is_set, mark, unmark, dec32, inc32, find_clear}
use caozuokeshe.Disk.Host.{Host}
use caozuokeshe.Fs.State.{FsState, zero_handle, max_open_files, M, pure, ◌>>=◌, ◌>>◌}
use caozuokeshe.Fs.Super.{read_superblock, inode_bitmap_block, data_bitmap_block, bitmap_blocks}
use caozuokeshe.Fs.BitmapIo.{inodes, blocks, read_bitmap}

-- `file_ops_calculate_block_position`: the index is a `uint32_t`.
unfoldable pub block_index : (file_offset : ℕ) → ℕ
block_index file_offset = file_offset / block_size % 2 ^ 32

unfoldable pub block_offset : (file_offset : ℕ) → ℕ
block_offset file_offset = file_offset % block_size

-- `file_ops_get_data_block`: 0 where there is none, and behind the direct blocks.
unfoldable pub get_data_block : Inode → (index : ℕ) → ℕ
get_data_block inode index =
    if ltb index direct_block_count then get_or inode.direct_blocks index 0 else 0

-- `alloc_data_block_from_bitmap`: the block number, 0 where no block is free. Its loop
-- reads the bitmap if there is a bit to look at, also through a null pointer.
unfoldable pub alloc_data_block : M ℕ
alloc_data_block s =
    let bm = s.block_bitmap in
    if bm.free_count == 0 then (ok 0, s) else elim bm.bitmap [
      | none ↦ if bm.total_bits == 0 then (ok 0, s) else (err undefined, s)
      | some bytes ↦ elim (find_clear bytes bm.last_allocated bm.total_bits bm.total_bits 0) [
        | none ↦ (ok 0, s)
        | some bit_num ↦ (
          ok ((bit_num + s.superblock.data_blocks_start) % 2 ^ 32),
          record s {
            block_bitmap = record bm {
              bitmap = some (mark bytes bit_num);
              free_count = dec32 bm.free_count;
              last_allocated = bit_num;
            };
          },
        )
      ]
    ]

-- `free_data_block_to_bitmap`
unfoldable pub free_data_block : (block_num : ℕ) → M (Unit {0})
free_data_block block_num s =
    let bm = s.block_bitmap in
    let bit_num = block_num - s.superblock.data_blocks_start in
    if ltb block_num s.superblock.data_blocks_start
    then (ok tt, s)
    else if leb bm.total_bits bit_num
    then (ok tt, s)
    else elim bm.bitmap [
      | none ↦ (err undefined, s)
      | some bytes ↦
          if is_set bytes bit_num
          then (
            ok tt,
            record s {
              block_bitmap = record bm {
                bitmap = some (unmark bytes bit_num);
                free_count = inc32 bm.free_count;
              };
            },
          )
          else (ok tt, s)
    ]

-- `file_ops_allocate_data_block`: the block number and the inode with it.
unfoldable pub allocate_data_block : Inode → (index : ℕ) → M (ℕ × Inode)
allocate_data_block inode index =
    let old = get_or inode.direct_blocks index 0 in
    if ltb index direct_block_count
    then (if old == 0
        then (alloc_data_block >>= λ new_block. pure (
            if ltb 0 new_block
            then (
              new_block,
              record inode { direct_blocks = set inode.direct_blocks index new_block },
            )
            else (old, inode)))
        else pure (old, inode))
    else pure (0, inode)

-- `file_ops_validate_fd`, of a descriptor given as the pattern of an `int`
unfoldable pub validate_fd : (fd : ℕ) → M (Unit {0})
validate_fd fd s =
    if leb max_open_files fd
    then (err invalid_param, s)
    else if (get_or s.open_files fd zero_handle).reference_count == 0
    then (err invalid_param, s)
    else (ok tt, s)

-- `load_filesystem_state_if_needed`, which leaves the open files alone
unfoldable pub load_if_needed : Host → M (Unit {0})
load_if_needed host s =
    if not (s.superblock.magic_number == fs_magic_number)
    then (do
      read_superblock host
      read_bitmap host inodes inode_bitmap_block bitmap_blocks
      read_bitmap host blocks data_bitmap_block bitmap_blocks)
        s
    else (ok tt, s)

-- The position of an open file.
abbrev pub put_position : (fd position : ℕ) → FsState → FsState
put_position fd position s = record s {
  open_files =
      set s.open_files fd
        (record (get_or s.open_files fd zero_handle) { file_position = position });
}

-- `file_ops_validate_fd` leaves the state.
pub validate_fd-cases :
    (fd : ℕ) (s : FsState)
    → (validate_fd fd s ≡ (ok tt, s)) ⊎ (validate_fd fd s ≡ (err invalid_param, s))
unfolding validate_fd
validate_fd-cases fd s = elim (Bool-cases (leb max_open_files fd)) [
  | inl e ↦ inr (rw (e, validate_fd) refl)
  | inr e ↦ elim (Bool-cases ((get_or s.open_files fd zero_handle).reference_count == 0)) [
    | inl f ↦ inr (rw (e, f, validate_fd) refl)
    | inr f ↦ inl (rw (e, f, validate_fd) refl)
  ]
]
