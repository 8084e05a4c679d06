-- ===== src/Fs/Super.antt =====
-- The superblock: `fs_ops_init_superblock`, `fs_ops_write_superblock`, `fs_ops_read_superblock`.
pub mod Laws
use caozuokeshe.Base.{ℕ, ◌+◌, ◌-◌, ◌*◌, ◌/◌, ◌%◌, ◌^◌, ◌++◌, not, ◌==◌, if◌then◌else◌, replicate}
use caozuokeshe.Errors.{corrupted}
use caozuokeshe.Layout.{
  Superblock, block_size, fs_magic_number, root_inode_num, inode_size, encode_superblock,
  decode_superblock, superblock_checksum,
}
use caozuokeshe.Disk.Host.{Host}
use caozuokeshe.Fs.State.{
  FsState, M, pure, fail, ◌>>=◌, ◌>>◌, get, modify, current_time, read_disk, write_disk,
}

abbrev pub superblock_block : ℕ
superblock_block = 0

abbrev pub inode_bitmap_block : ℕ
inode_bitmap_block = 1

abbrev pub data_bitmap_block : ℕ
data_bitmap_block = 2

abbrev pub inode_table_start : ℕ
inode_table_start = 8

abbrev pub default_max_inodes : ℕ
default_max_inodes = 1024

abbrev pub bitmap_blocks : ℕ
bitmap_blocks = 4

abbrev pub set_superblock : Superblock → FsState → FsState
set_superblock sb s = record s { superblock = sb }

-- `fs_ops_init_superblock`, of the `uint32_t` number of blocks
unfoldable pub make_superblock : (now total_blocks : ℕ) → Superblock
make_superblock now total_blocks = record body { checksum = superblock_checksum body }
  where
    table_blocks : ℕ
    table_blocks = (default_max_inodes * inode_size + block_size - 1) / block_size

    body : Superblock
    body = record {
      magic_number = fs_magic_number;
      version = 1;
      block_size = block_size;
      total_blocks = total_blocks;
      total_inodes = default_max_inodes;
      free_blocks = (total_blocks + 2 ^ 32 - (inode_table_start + table_blocks)) % 2 ^ 32;
      free_inodes = default_max_inodes - 1;
      inode_table_start = inode_table_start;
      inode_table_blocks = table_blocks;
      data_blocks_start = inode_table_start + table_blocks;
      root_inode = root_inode_num;
      mount_count = 0;
      max_mount_count = 100;
      created_time = now;
      last_mount_time = now;
      last_write_time = now;
      last_check_time = now;
      reserved = replicate 16 0;
      checksum = 0;
    }

unfoldable pub init_superblock : Host → (total_blocks : ℕ) → M (Unit {0})
init_superblock host total_blocks = do
  now ← current_time host
  modify (set_superblock (make_superblock now total_blocks))

-- `sizeof(fs_superblock_t)`
abbrev pub superblock_size : ℕ
superblock_size = 152

-- `fs_ops_write_superblock(&g_fs_state.superblock)`
unfoldable pub write_superblock : Host → M (Unit {0})
write_superblock host = do
  s ← get
  write_disk host superblock_block
      (encode_superblock s.superblock ++ replicate (block_size - superblock_size) 0)

-- `fs_ops_read_superblock(&g_fs_state.superblock)`. The state has the new superblock also where it is
-- refused; its checksum is set to 0 only while the bytes before it are summed.
unfoldable pub read_superblock : Host → M (Unit {0})
read_superblock host = do
  bytes ← read_disk host superblock_block
  modify (set_superblock (decode_superblock bytes))
  s ← get
  if not (s.superblock.magic_number == fs_magic_number)
      then fail corrupted
      else if not (s.superblock.checksum == superblock_checksum s.superblock)
      then fail corrupted
      else pure tt
