-- ===== src/System/Steps.antt =====
-- The program as a step relation: each step is a call of one function of fs_ops.h, file_ops.h or
-- user_manager.h that changes the global state, with any arguments and whatever outcome, and a run is a
-- sequence of such calls in any order. fs_ops_mount, fs_ops_unmount, fs_ops_sync and fs_ops_check are
-- declared in fs_ops.h and defined nowhere. A call that has no behaviour in C is a step as well, which
-- leaves the state that the call had come to.
use caozuokeshe.Base.{ℕ, Option, List}
use caozuokeshe.Disk.Host.{Host}
use caozuokeshe.Disk.Block.{Disk}
use caozuokeshe.Fs.State.{FsState}
use caozuokeshe.Layout.{Inode}
use caozuokeshe.Bitmap.{Bitmap}
use caozuokeshe.Fs.Super.{init_superblock, write_superblock, read_superblock}
use caozuokeshe.Fs.BitmapIo.{Which, write_bitmap, read_bitmap}
use caozuokeshe.Fs.Inodes.{read_inode, write_inode}
use caozuokeshe.Fs.Format.{init_bitmap_of, create_root_directory, format_disk}
use caozuokeshe.FileOps.Blocks.{allocate_data_block}
use caozuokeshe.Fs.Files.{fs_create, fs_open, fs_close}
use caozuokeshe.FileOps.ReadWrite.{fs_write, fs_read}
use caozuokeshe.FileOps.Position.{fs_seek, fs_size}
use caozuokeshe.Users.Accounts.{create_user, login, logout, user_manager_init}
use caozuokeshe.Users.Owner.{chown, chmod}

-- The calls on files and on the tables of the file system, the latter on the tables of the global
-- state. Any change of the disk alone is a step as well: it stands for the disk simulator's own
-- functions and for calls on a superblock or a bitmap of the caller, which leave the global ones.
pub data FileStep (host : Host) : FsState → FsState → Type 0 where
  formatted : (s : FsState) → FileStep host s (format_disk host s).1
  created : (s : FsState) (path : Option (List ℕ)) → FileStep host s (fs_create host path s).1
  opened : (s : FsState) (path : Option (List ℕ)) → FileStep host s (fs_open host path s).1
  closed : (s : FsState) (fd : ℕ) → FileStep host s (fs_close fd s)
  wrote :
      (s : FsState) (fd : ℕ) (buffer : Option (List ℕ)) (size : ℕ)
      → FileStep host s (fs_write host fd buffer size s).1
  did_read : (s : FsState) (fd size : ℕ) → FileStep host s (fs_read host fd size s).1
  sought :
      (s : FsState) (fd offset whence : ℕ) → FileStep host s (fs_seek host fd offset whence s).1
  sized : (s : FsState) (fd : ℕ) → FileStep host s (fs_size host fd s).1
  owner_changed :
      (s : FsState) (inode_number uid gid : ℕ)
      → FileStep host s (chown host inode_number uid gid s).1
  mode_changed :
      (s : FsState) (inode_number permissions : ℕ)
      → FileStep host s (chmod host inode_number permissions s).1
  superblock_made :
      (s : FsState) (total_blocks : ℕ) → FileStep host s (init_superblock host total_blocks s).1
  superblock_written : (s : FsState) → FileStep host s (write_superblock host s).1
  superblock_read : (s : FsState) → FileStep host s (read_superblock host s).1
  bitmap_made :
      (s : FsState) (which : Which) (total_bits : ℕ)
      → FileStep host s (init_bitmap_of host which total_bits s).1
  bitmap_written :
      (s : FsState) (bm : Bitmap) (start_block block_count : ℕ)
      → FileStep host s (write_bitmap host bm start_block block_count s).1
  bitmap_read :
      (s : FsState) (which : Which) (start_block block_count : ℕ)
      → FileStep host s (read_bitmap host which start_block block_count s).1
  root_created : (s : FsState) → FileStep host s (create_root_directory host s).1
  inode_read : (s : FsState) (inode_number : ℕ) → FileStep host s (read_inode host inode_number s).1
  inode_written :
      (s : FsState) (inode_number : ℕ) (inode : Inode)
      → FileStep host s (write_inode host inode_number inode s).1
  block_allocated :
      (s : FsState) (inode : Inode) (index : ℕ)
      → FileStep host s (allocate_data_block inode index s).1
  disk_changed : (s : FsState) (d : Disk) → FileStep host s (record s { disk = d })

-- Every call: on files, or on the accounts.
pub data Step (host : Host) : FsState → FsState → Type 0 where
  file : {s t : FsState} → FileStep host s t → Step host s t
  account_added :
      (s : FsState) (username password : Option (List ℕ)) (uid gid : ℕ)
      → Step host s (create_user host username password uid gid s).1
  logged_in :
      (s : FsState) (username password : Option (List ℕ))
      → Step host s (login username password s).1
  logged_out : (s : FsState) → Step host s (logout s).1
  accounts_reset : (s : FsState) → Step host s (user_manager_init host s).1

-- A run of calls.
pub data Run (host : Host) : FsState → FsState → Type 0 where
  done : {s : FsState} → Run host s s
  next : {s t u : FsState} → Run host s t → Step host t u → Run host s u
