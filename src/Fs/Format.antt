-- ===== src/Fs/Format.antt =====
-- `fs_ops_create_root_directory` and `format_disk`.
use caozuokeshe.Base.{
  ℕ, ◌+◌, ◌-◌, ◌*◌, ◌%◌, ◌^◌, not, none, List, ◌∷◌, ◌++◌, ◌==◌, if◌then◌else◌, replicate, splice,
}
use caozuokeshe.Errors.{ok, err, not_mounted, invalid_param}
use caozuokeshe.Layout.{
  Inode, DirEntry, Superblock, zero_inode, block_size, dir_entry_size, encode_dir_entry,
  encode_inode, file_type_directory, root_inode_num, superblock_checksum,
}
use caozuokeshe.Bitmap.{Bitmap, init_bitmap, set_bitmap_bit}
use caozuokeshe.Disk.Host.{Host}
use caozuokeshe.Disk.Block.{called}
use caozuokeshe.Disk.Session.{disk_get_info, disk_sync}
use caozuokeshe.Fs.State.{
  FsState, M, ◌>>=◌, ◌>>◌, attempt, get, modify, current_time, read_disk, write_disk,
}
use caozuokeshe.Fs.Super.{
  set_superblock, init_superblock, write_superblock, inode_bitmap_block, data_bitmap_block,
  bitmap_blocks,
}
use caozuokeshe.Fs.BitmapIo.{Which, inodes, blocks, bitmap_of, put_bitmap, write_bitmap}
use caozuokeshe.Fs.Inodes.{inode_block, inode_offset}

-- The inode of the root directory: `drwxr-xr-x`, of user 0 and group 0, with one data block.
unfoldable pub root_inode : (now data_block : ℕ) → Inode
root_inode now data_block = record zero_inode {
  inode_number = root_inode_num;
  file_type = file_type_directory;
  permissions = 0o755;
  owner_uid = 0;
  owner_gid = 0;
  link_count = 2;
  access_time = now;
  modify_time = now;
  change_time = now;
  create_time = now;
  direct_blocks = data_block ∷ replicate 11 0;
  block_count = 1;
  file_size = 2 * dir_entry_size;
}

-- The entries `.` and `..`, both of the root directory itself.
unfoldable pub dot_entry : (dots : ℕ) → DirEntry
dot_entry dots = record {
  inode_number = root_inode_num;
  entry_length = dir_entry_size;
  filename_length = dots;
  file_type = file_type_directory;
  filename = replicate dots b'.' ++ replicate (64 - dots) 0;
  is_valid = 1;
  padding = replicate 3 0;
}

-- The first data block of the root directory.
unfoldable pub root_block : List ℕ
root_block =
    encode_dir_entry (dot_entry 1)
    ++ (encode_dir_entry (dot_entry 2) ++ replicate (block_size - 2 * dir_entry_size) 0)

abbrev pub set_bit_of : Which → ℕ → M (Unit {0})
set_bit_of which bit_num =
    modify (λ s. put_bitmap which (set_bitmap_bit (bitmap_of s which) bit_num) s)

-- `fs_ops_create_root_directory`. An inode block that cannot be read is taken for a blank one.
unfoldable pub create_root_directory : Host → M (Unit {0})
create_root_directory host = do
  now ← current_time host
  s ← get
  write_disk host s.superblock.data_blocks_start root_block
  found ← attempt (read_disk host (inode_block s.superblock root_inode_num))
  write_disk host (inode_block s.superblock root_inode_num) (
      splice (elim found [ ok block ↦ block | err _ ↦ replicate block_size 0 ])
        (inode_offset root_inode_num)
        (encode_inode (root_inode now s.superblock.data_blocks_start)))
  set_bit_of inodes root_inode_num
  set_bit_of blocks 0

-- `fs_ops_init_bitmap` on a bitmap of the state; without bits it does not call `calloc`.
unfoldable pub init_bitmap_of : Host → Which → (total_bits : ℕ) → M (Unit {0})
init_bitmap_of host which total_bits s =
    let (result, bm) = init_bitmap (host.alloc_ok s.disk.calls) total_bits (bitmap_of s which) in
    let d = if total_bits == 0 then s.disk else called s.disk in
    (result, put_bitmap which bm (record s { disk = d }))

-- The superblock with the free free_counts of the bitmaps, and its checksum.
abbrev free_counts : FsState → Superblock
free_counts s = record (s.superblock) {
  free_inodes = s.inode_bitmap.free_count;
  free_blocks = s.block_bitmap.free_count;
}

abbrev pub with_free_counts : FsState → Superblock
with_free_counts s = record (free_counts s) { checksum = superblock_checksum (free_counts s) }

-- Steps 7 to 9 of `format_disk`: the bitmaps, and the superblock with its free free_counts.
unfoldable pub write_tables : Host → M (Unit {0})
write_tables host = do
  s ← get
  write_bitmap host s.inode_bitmap inode_bitmap_block bitmap_blocks
  write_bitmap host s.block_bitmap data_bitmap_block bitmap_blocks
  modify (λ t. set_superblock (with_free_counts t) t)
  write_superblock host

-- `cleanup`: both bitmaps are freed and their pointers cleared.
abbrev free_bitmap : Bitmap → Bitmap
free_bitmap bm = record bm { bitmap = none }

abbrev pub cleanup : FsState → FsState
cleanup s = record s {
  inode_bitmap = free_bitmap s.inode_bitmap;
  block_bitmap = free_bitmap s.block_bitmap;
}

-- The steps of `format_disk` that end in `cleanup` where they fail.
unfoldable pub fill_disk : Host → M (Unit {0})
fill_disk host s =
    let (r, s') = (create_root_directory host >> write_tables host) s in
    elim r [ ok _ ↦ (ok tt, s') | err e ↦ (err e, cleanup s') ]

-- The end of `format_disk`: a sync that fails is only warned of.
abbrev pub sync_disk : Host → M (Unit {0})
sync_disk host s = (ok tt, record s { disk = (disk_sync host s.disk).1 })

-- `format_disk`. It returns nothing in C: the result here tells where it printed an error and
-- returned. An uninitialised disk and a wrong block size have no error code of their own.
unfoldable pub format_disk : Host → M (Unit {0})
format_disk host s =
    if not s.disk.is_initialized
    then (err not_mounted, s)
    else let (_, total_blocks, size, _) = disk_get_info s.disk in
      if not (size == block_size)
      then (err invalid_param, s)
      else (do
        init_superblock host total_blocks
        write_superblock host
        s' ← get
        init_bitmap_of host inodes s'.superblock.total_inodes
        init_bitmap_of host blocks
            ((total_blocks + 2 ^ 32 - s'.superblock.data_blocks_start) % 2 ^ 32)
        fill_disk host
        sync_disk host)
          s
