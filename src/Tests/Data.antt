-- ===== src/Tests/Data.antt =====
-- The hosts, disks and states that the examples run on.
use caozuokeshe.Base.{
  ℕ, ◌+◌, ◌*◌, zero, ◌≡◌, refl, true, false, none, some, List, [], ◌∷◌, arith, length, ◌==◌,
  replicate, length-replicate,
}
use caozuokeshe.Disk.Host.{Host, HostFile, IsReliable}
use caozuokeshe.Disk.Block.{Disk, zero_stats, disk_block_size, header_size, block_to_offset}
use caozuokeshe.Disk.Block.Laws.{IsReady}
use caozuokeshe.Disk.Session.{new_file}
use caozuokeshe.Disk.Session.Reopen.{IsDiskFile}
use caozuokeshe.Layout.{Inode}
use caozuokeshe.Layout.RoundTrip.{InodeFits}
use caozuokeshe.Bitmap.{Bitmap}
use caozuokeshe.Fs.State.{FsState, zero_handle, zero_user, max_open_files, max_users}
use caozuokeshe.Fs.Super.{make_superblock}

abbrev pub good : Host
good = record {
  open_ok = λ n. true;
  seek_ok = λ n. true;
  read_ok = λ n. true;
  sync_ok = λ n. true;
  write_count = λ n k. k;
  alloc_ok = λ n. true;
  time = λ n. n;
}

pub good-IsReliable : IsReliable good
good-IsReliable = record {
  opens = λ n. refl;
  seeks = λ n. refl;
  reads = λ n. refl;
  syncs = λ n. refl;
  allocs = λ n. refl;
  writes = λ n k. refl;
}

-- A host on which every write is cut short.
abbrev pub full_host : Host
full_host = record good { write_count = λ n k. 0 }

abbrev pub disk_name : List ℕ
disk_name = b'd' ∷ []

abbrev pub file16 : HostFile
file16 = new_file 7 16

-- A disk of 16 blocks that is not open; its file is there.
abbrev pub shut16 : Disk
shut16 = record {
  fd = none;
  filename = [];
  total_blocks = 0;
  block_size = 0;
  disk_size = 0;
  is_initialized = false;
  is_read_only = false;
  is_dirty = false;
  stats = zero_stats;
  auto_sync = false;
  last_sync_time = 0;
  files = λ name. some file16;
  calls = 0;
}

abbrev pub disk16 : Disk
disk16 = record shut16 {
  fd = some disk_name;
  filename = disk_name;
  total_blocks = 16;
  block_size = disk_block_size;
  disk_size = 16 * disk_block_size;
  is_initialized = true;
}

pub file16-sized : (b : ℕ) → length (file16.content (block_to_offset b)) ≡ disk_block_size
unfolding new_file block_to_offset
file16-sized b =
    let behind : (header_size + b * disk_block_size == 0) ≡ false = ground arith in
    rw behind (length-replicate disk_block_size zero)

unfoldable pub disk16-IsReady : IsReady disk16
unfolding new_file block_to_offset
disk16-IsReady = record {
  name = disk_name;
  file = file16;
  initialized = refl;
  writable = refl;
  opened = refl;
  present = refl;
  full = omega arith;
  addressable = omega arith;
  sized = file16-sized;
}

pub file16-IsDiskFile : IsDiskFile file16 7 16
unfolding new_file block_to_offset
file16-IsDiskFile = record {
  header = refl;
  timed = omega arith;
  full = omega arith;
  addressable = omega arith;
  sized = file16-sized;
}

abbrev pub ones : List ℕ
ones = replicate disk_block_size 1

abbrev pub no_bitmap : Bitmap
no_bitmap = record { bitmap = none; total_bits = 0; free_count = 0; last_allocated = 0 }

-- A mounted file system of 16 blocks.
abbrev pub state16 : FsState
state16 = record {
  superblock = make_superblock 7 16;
  inode_bitmap = no_bitmap;
  block_bitmap = no_bitmap;
  open_files = replicate max_open_files zero_handle;
  users = replicate max_users zero_user;
  current_user_uid = 0;
  disk = disk16;
}

abbrev pub small_inode : Inode
small_inode = record {
  inode_number = 5;
  file_type = 1;
  permissions = 0o644;
  owner_uid = 1000;
  owner_gid = 1000;
  link_count = 1;
  file_size = 300;
  block_count = 1;
  access_time = 3;
  modify_time = 3;
  change_time = 3;
  create_time = 3;
  direct_blocks = 160 ∷ replicate 11 0;
  indirect_block = 0;
  double_indirect_block = 0;
  triple_indirect_block = 0;
  flags = 0;
  generation = 1;
  reserved = replicate 4 0;
}

pub small_inode-InodeFits : InodeFits small_inode
small_inode-InodeFits = record { fits = omega arith; direct = refl }
