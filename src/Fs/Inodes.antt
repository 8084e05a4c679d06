-- ===== src/Fs/Inodes.antt =====
-- `fs_ops_read_inode` and `fs_ops_write_inode`: the inode table on the disk.
pub mod Laws
pub mod Table
use caozuokeshe.Base.{
  ℕ, ◌+◌, ◌-◌, ◌*◌, ◌/◌, ◌%◌, ◌^◌, ◌||◌, List, ◌++◌, Bool, leb, ◌==◌, if◌then◌else◌, take, drop,
  splice,
}
use caozuokeshe.Errors.{Result, ok, err, invalid_param}
use caozuokeshe.Layout.{Inode, Superblock, block_size, inode_size, encode_inode, decode_inode}
use caozuokeshe.Disk.Host.{Host}
use caozuokeshe.Fs.State.{FsState, M, pure, fail, ◌>>=◌, ◌>>◌, get, read_disk, write_disk}

-- `DISK_BLOCK_SIZE / sizeof(fs_inode_t)`
abbrev pub inodes_per_block : ℕ
inodes_per_block = block_size / inode_size

-- Where the inode table has an inode: its block, and its offset there.
unfoldable pub inode_block : Superblock → (inode_number : ℕ) → ℕ
inode_block sb inode_number = (sb.inode_table_start + inode_number / inodes_per_block) % 2 ^ 32

unfoldable pub inode_offset : (inode_number : ℕ) → ℕ
inode_offset inode_number = inode_number % inodes_per_block * inode_size

-- `inode_number == 0 || inode_number >= g_fs_state.superblock.total_inodes`
abbrev pub is_bad_number : FsState → ℕ → Bool
is_bad_number s inode_number = (inode_number == 0) || leb s.superblock.total_inodes inode_number

-- `fs_ops_read_inode`, and `read_inode_from_disk` of file_ops.c, which is the same text
unfoldable pub read_inode : Host → (inode_number : ℕ) → M Inode
read_inode host inode_number = do
  s ← get
  if is_bad_number s inode_number then fail invalid_param else do
    block ← read_disk host (inode_block s.superblock inode_number)
    pure (decode_inode (take inode_size (drop (inode_offset inode_number) block)))

-- `fs_ops_write_inode`, and `write_inode_to_disk` of file_ops.c, which is the same text
unfoldable pub write_inode : Host → (inode_number : ℕ) → Inode → M (Unit {0})
write_inode host inode_number inode = do
  s ← get
  if is_bad_number s inode_number then fail invalid_param else do
    block ← read_disk host (inode_block s.superblock inode_number)
    write_disk host (inode_block s.superblock inode_number)
        (splice block (inode_offset inode_number) (encode_inode inode))
