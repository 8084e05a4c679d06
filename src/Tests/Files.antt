-- ===== src/Tests/Files.antt =====
-- File creation and the file operations at concrete inputs.
use caozuokeshe.Base.{
  none, get_or, ℕ, ◌≡◌, ◌≢◌, refl, true, Option, some, List, [], ◌∷◌, ◌==◌, if◌then◌else◌, arith,
  replicate, splice,
}
use caozuokeshe.Errors.{ok, err, invalid_param, undefined}
use caozuokeshe.Layout.{Inode, encode_inode, decode_inode}
use caozuokeshe.Base.Bits.{test_bit}
use caozuokeshe.Bitmap.{is_set}
use caozuokeshe.Disk.Host.{HostFile}
use caozuokeshe.Disk.Block.{
  block_to_offset, disk_block_size, read_block, write_block, check_block_bounds,
}
use caozuokeshe.Codec.{encode_struct, decode_struct}
use caozuokeshe.Fs.State.{FsState, zero_handle, zero_user, read_disk, write_disk}
use caozuokeshe.Fs.Super.{make_superblock}
use caozuokeshe.Fs.Inodes.{read_inode, write_inode, inode_block, inode_offset}
use caozuokeshe.Fs.Files.{fs_create, fs_close}
use caozuokeshe.FileOps.Blocks.Handles.{validate_fd-fs_close}
use caozuokeshe.Fs.Files.Mount.{fs_create-unallocated}
use caozuokeshe.Fs.Files.Create.{AtZero, fs_create-AtZero}
use caozuokeshe.FileOps.ReadWrite.{
  write_loop, fs_write, open_regular, finish_write, grown, block_for_write,
}
use caozuokeshe.FileOps.ReadWrite.Laws.{Progress, write_loop-Progress, write_loop-enough}
use caozuokeshe.FileOps.Blocks.{
  alloc_data_block, validate_fd, load_if_needed, block_index, block_offset, get_data_block,
}
use caozuokeshe.Users.Accounts.{check_permission, find_user_by_uid}
use caozuokeshe.Tests.Data.{good, state16, disk16, small_inode}

abbrev file_path : Option (List ℕ)
file_path = some (b'/' ∷ b'a' ∷ [])

abbrev fresh16 : FsState
fresh16 = record state16 {
  inode_bitmap = record {
    bitmap = some (2 ∷ 0 ∷ []);
    total_bits = 10;
    free_count = 9;
    last_allocated = 0;
  };
}

fresh16-AtZero : AtZero fresh16.inode_bitmap (2 ∷ 0 ∷ [])
unfolding is_set test_bit
fresh16-AtZero = record { holds = refl; clear = refl; at_zero = refl }

fs_create-AtZero_example : (fs_create good file_path fresh16).0 ≢ ok tt
unfolding make_superblock
fs_create-AtZero_example = fs_create-AtZero good file_path fresh16 (2 ∷ 0 ∷ []) refl fresh16-AtZero

-- With a data block left to allocate.
abbrev allocated16 : FsState
allocated16 = record state16 { block_bitmap = fresh16.inode_bitmap }

-- Through a null bitmap with a bit to look at, allocating has no behaviour.
alloc_without_bitmap :
    (alloc_data_block
      (record allocated16 { block_bitmap = record (fresh16.inode_bitmap) { bitmap = none } })).0
    ≡ err undefined
unfolding alloc_data_block
alloc_without_bitmap = refl

write_loop-Progress_example :
    Progress 3 0 (write_loop good (1 ∷ 2 ∷ 3 ∷ []) 3 0 3 0 small_inode allocated16)
write_loop-Progress_example =
    write_loop-Progress good (1 ∷ 2 ∷ 3 ∷ []) 3 0 3 0 small_inode allocated16 (2 ∷ 0 ∷ [], refl)
      (omega arith)

write_loop-enough_example :
    write_loop good (1 ∷ 2 ∷ 3 ∷ []) 3 0 4 0 small_inode state16
    ≡ write_loop good (1 ∷ 2 ∷ 3 ∷ []) 3 0 3 0 small_inode state16
write_loop-enough_example =
    write_loop-enough good (1 ∷ 2 ∷ 3 ∷ []) 3 0 3 0 small_inode state16 (omega arith)

-- The inode of an open file, whose data are in block 10, as the table holds it.
abbrev stored_inode : Inode
stored_inode = record small_inode { direct_blocks = 10 ∷ replicate 11 0 }

abbrev file_image : HostFile
file_image = record {
  size = block_to_offset 16;
  content = λ o.
      if o == block_to_offset 8
      then splice (replicate disk_block_size 0) (inode_offset 5) (encode_inode stored_inode)
      else replicate disk_block_size 0;
}

-- User 0 has opened inode 5 as descriptor 0.
abbrev opened16 : FsState
opened16 = record state16 {
  open_files = record zero_handle { inode_number = 5; flags = 3; reference_count = 1 } ∷ [];
  users = record zero_user { is_active = true } ∷ [];
  disk = record disk16 { files = λ name. some file_image };
}

written : (fs_write good 0 (some (1 ∷ 2 ∷ 3 ∷ [])) 3 opened16).0 ≡ ok 3
unfolding fs_write open_regular validate_fd load_if_needed read_inode read_disk read_block
    write_loop block_for_write write_disk write_block finish_write write_inode make_superblock
    inode_block inode_offset encode_inode decode_inode check_permission get_data_block block_index
    block_offset block_to_offset splice grown check_block_bounds decode_struct encode_struct
    find_user_by_uid
written = refl

abbrev one_open : FsState
one_open = record state16 {
  open_files =
      record zero_handle { inode_number = 5; flags = 3; reference_count = 1 }
      ∷ replicate 63 zero_handle;
}

validate_fd-fs_close_example :
    ((validate_fd 0 one_open).0 ≡ ok tt)
    × ((validate_fd 0 (fs_close 0 one_open)).0 ≡ err invalid_param)
    × ((validate_fd 1 (fs_close 0 one_open)).0 ≡ (validate_fd 1 one_open).0)
    × (get_or (fs_close 0 one_open).open_files 1 zero_handle
        ≡ get_or one_open.open_files 1 zero_handle)
validate_fd-fs_close_example =
    validate_fd-fs_close 0 one_open refl (omega arith) 1 refl (omega arith)

-- The file system is not in memory: its superblock is loaded first.
abbrev started : FsState
started = record state16 { superblock = record (state16.superblock) { magic_number = 0 } }

fs_create-unallocated_example : (fs_create good file_path started).0 ≢ ok tt
fs_create-unallocated_example = fs_create-unallocated good file_path started refl
