-- ===== src/Fs/Directory.antt =====
-- Directories: `find_file_in_directory` and `add_file_to_directory`.
pub mod ReadOnly
pub mod Entries
pub mod Found
pub mod Stored
pub mod Listed
use caozuokeshe.Base.{
  ℕ, zero, suc, ◌+◌, ◌-◌, ◌*◌, ◌/◌, ◌%◌, ◌^◌, ◌||◌, ◌&&◌, not, Bool, true, false, Option, none,
  some, List, [], ◌∷◌, ◌++◌, leb, ◌==◌, if◌then◌else◌, take, drop, length, replicate, get_or, set,
  str_eq, c_string, splice,
}
use caozuokeshe.Errors.{Result, ok, err, invalid_param, io, not_directory, no_space}
use caozuokeshe.Layout.{
  Inode, DirEntry, block_size, dir_entry_size, encode_dir_entry, decode_dir_entry,
  file_type_directory, file_type_regular, direct_block_count,
}
use caozuokeshe.Bitmap.{alloc_bitmap_bit, free_bitmap_bit}
use caozuokeshe.Disk.Host.{Host}
use caozuokeshe.Fs.State.{
  FsState, M, pure, fail, ◌>>=◌, ◌>>◌, ignore, attempt, get, modify, current_time, read_disk,
  write_disk,
}
use caozuokeshe.Fs.BitmapIo.{Which, inodes, blocks, bitmap_of, put_bitmap}
use caozuokeshe.Fs.Inodes.{read_inode, write_inode}

-- `alloc_bitmap_bit` and `free_bitmap_bit` on a bitmap of the state
abbrev pub alloc_bit : Which → M ℕ
alloc_bit which s =
    let (bit_num, bm) = alloc_bitmap_bit (bitmap_of s which) in (ok bit_num, put_bitmap which bm s)

abbrev pub free_bit : Which → ℕ → M (Unit {0})
free_bit which bit_num s = (ok tt, put_bitmap which (free_bitmap_bit (bitmap_of s which) bit_num) s)

-- `DISK_BLOCK_SIZE / sizeof(fs_dir_entry_t)`
abbrev pub max_entries : ℕ
max_entries = block_size / dir_entry_size

-- `entries[i]` of a block
unfoldable pub entry_at : (block : List ℕ) (i : ℕ) → DirEntry
entry_at block i = decode_dir_entry (take dir_entry_size (drop (i * dir_entry_size) block))

unfoldable pub put_entry : (block : List ℕ) (i : ℕ) → DirEntry → List ℕ
put_entry block i e = splice block (i * dir_entry_size) (encode_dir_entry e)

-- `entries[i].is_valid && strcmp(entries[i].filename, filename) == 0`
abbrev pub matches : DirEntry → (filename : List ℕ) → Bool
matches e filename = not (e.is_valid == 0) && str_eq (c_string e.filename) filename

-- The search through a block's entries from `i` on.
unfoldable pub find_entry : (block filename : List ℕ) (rounds i : ℕ) → Option ℕ
find_entry block filename zero i = none
find_entry block filename (suc rounds) i = elim (matches (entry_at block i) filename) [
  | true ↦ some (entry_at block i).inode_number
  | false ↦ find_entry block filename rounds (i + 1)
]

-- The search through a directory's blocks; a block that cannot be read is passed over.
unfoldable pub find_in_blocks : Host → (filename : List ℕ) → (block_nums : List ℕ) → M ℕ
find_in_blocks host filename [] = pure 0
find_in_blocks host filename (b ∷ bs) = elim (b == 0) [
  | true ↦ pure 0
  | false ↦ attempt (read_disk host b) >>= λ r. elim r [
    | err _ ↦ find_in_blocks host filename bs
    | ok block ↦ elim (find_entry block filename max_entries 0) [
      | some inode_number ↦ pure inode_number
      | none ↦ find_in_blocks host filename bs
    ]
  ]
]

-- `find_file_in_directory`: the inode number, 0 where the file is not found.
unfoldable pub find_file_in_directory : Host → (dir_inode_num : ℕ) → (filename : List ℕ) → M ℕ
find_file_in_directory host dir_inode_num filename =
    if dir_inode_num == 0
    then pure 0
    else attempt (read_inode host dir_inode_num) >>= λ r. elim r [
      | err _ ↦ pure 0
      | ok dir_inode ↦
          if not (dir_inode.file_type == file_type_directory)
          then pure 0
          else find_in_blocks host filename dir_inode.direct_blocks
    ]

-- The first entry that is not in use, from `i` on.
unfoldable pub find_free_entry : (block : List ℕ) (rounds i : ℕ) → Option ℕ
find_free_entry block zero i = none
find_free_entry block (suc rounds) i = elim ((entry_at block i).is_valid == 0) [
  | true ↦ some i
  | false ↦ find_free_entry block rounds (i + 1)
]

-- `strncpy(dst, filename, MAX_FILENAME_LEN - 1)` and the zero behind it: the 64 bytes of the array.
unfoldable pub filename_bytes : List ℕ → List ℕ
filename_bytes filename = take 63 filename ++ replicate (64 - length (take 63 filename)) 0

-- The entry that `add_file_to_directory` writes over a free one, whose padding stays.
unfoldable pub new_entry : (filename : List ℕ) (file_inode_num : ℕ) → (old : DirEntry) → DirEntry
new_entry filename file_inode_num old = record {
  inode_number = file_inode_num;
  entry_length = dir_entry_size;
  filename_length = length filename % 256;
  file_type = file_type_regular;
  filename = filename_bytes filename;
  is_valid = 1;
  padding = old.padding;
}

-- The directory block at `block_idx`: a new one, cleared, where there is none yet.
unfoldable pub directory_block : Host → (block_idx : ℕ) → Inode → M (Inode × List ℕ)
directory_block host block_idx dir_inode =
    let b = get_or dir_inode.direct_blocks block_idx 0 in
    if b == 0
    then (alloc_bit blocks >>= λ new_block.
        if new_block == 0
        then fail no_space
        else get >>= λ s. pure (
          record dir_inode {
            direct_blocks =
                set dir_inode.direct_blocks block_idx
                  ((new_block + s.superblock.data_blocks_start) % 2 ^ 32);
            block_count = (dir_inode.block_count + 1) % 2 ^ 32;
          },
          replicate block_size 0,
        ))
    else (read_disk host b >>= λ block. pure (dir_inode, block))

-- The loop of `add_file_to_directory` over the direct blocks.
unfoldable pub add_loop :
    Host
    → (dir_inode_num : ℕ) (filename : List ℕ) (file_inode_num rounds block_idx : ℕ) → Inode
    → M (Unit {0})
add_loop host dir_inode_num filename file_inode_num zero block_idx dir_inode = fail no_space
add_loop host dir_inode_num filename file_inode_num (suc rounds) block_idx dir_inode = do
  (dir', block) ← directory_block host block_idx dir_inode
  elim (find_free_entry block max_entries 0) [
    | none ↦ add_loop host dir_inode_num filename file_inode_num rounds (block_idx + 1) dir'
    | some i ↦ do
      write_disk host (get_or dir'.direct_blocks block_idx 0)
          (put_entry block i (new_entry filename file_inode_num (entry_at block i)))
      now ← current_time host
      ignore (
          write_inode host dir_inode_num (record dir' {
            file_size = (block_idx + 1) * block_size;
            modify_time = now;
            change_time = now;
          }))
  ]

-- `add_file_to_directory`
unfoldable pub add_file_to_directory :
    Host → (dir_inode_num : ℕ) (filename : List ℕ) (file_inode_num : ℕ) → M (Unit {0})
add_file_to_directory host dir_inode_num filename file_inode_num =
    if (dir_inode_num == 0) || (file_inode_num == 0)
    then fail invalid_param
    else attempt (read_inode host dir_inode_num) >>= λ r. elim r [
      | err _ ↦ fail io
      | ok dir_inode ↦
          if not (dir_inode.file_type == file_type_directory)
          then fail not_directory
          else add_loop host dir_inode_num filename file_inode_num direct_block_count 0 dir_inode
    ]
