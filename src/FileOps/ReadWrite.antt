-- ===== src/FileOps/ReadWrite.antt =====
-- `fs_write` and `fs_read`. An `int` is given by its 32-bit pattern. Each loop runs on fuel, one
-- round for each byte asked for: every round that goes on moves at least one byte.
pub mod Laws
use caozuokeshe.Base.{
  ℕ, zero, suc, ◌+◌, ◌-◌, ◌*◌, ◌/◌, ◌%◌, ◌^◌, min, not, ◌||◌, Bool, true, false, Option, none, some,
  List, [], ◌∷◌, ◌++◌, ltb, leb, ◌==◌, if◌then◌else◌, get_or, set, take, drop, length, splice,
}
use caozuokeshe.Errors.{FsError, Result, ok, err, invalid_param, permission}
use caozuokeshe.Layout.{Inode, block_size, file_type_regular}
use caozuokeshe.Disk.Host.{Host}
use caozuokeshe.Disk.Block.{not_positive}
use caozuokeshe.Fs.State.{
  FsState, FileHandle, zero_handle, M, pure, fail, ◌>>=◌, ◌>>◌, ignore, attempt, get, modify,
  current_time, read_disk, write_disk,
}
use caozuokeshe.Fs.Inodes.{read_inode, write_inode}
use caozuokeshe.Users.Accounts.{check_permission}
use caozuokeshe.Users.Permission.{perm_owner_read, perm_owner_write}
use caozuokeshe.FileOps.Blocks.{
  block_index, block_offset, get_data_block, allocate_data_block, validate_fd, load_if_needed,
  put_position,
}

-- The block of a round of `fs_write`: the one that is there, or a new one.
unfoldable pub block_for_write : Inode → (index : ℕ) → M (ℕ × Inode)
block_for_write inode index =
    if get_data_block inode index == 0
    then allocate_data_block inode index
    else pure (get_data_block inode index, inode)

-- How many bytes a round moves: to the end of the block, or to the end of what is left.
abbrev pub round_bytes : (offset left : ℕ) → ℕ
round_bytes offset left = min (block_size - block_offset offset) left

-- The loop of `fs_write` with `written` bytes done: how many bytes it has written in all when it
-- ends or breaks off, and the inode.
unfoldable pub write_loop :
    Host → (bytes : List ℕ) (size start fuel written : ℕ) → Inode → M (ℕ × Inode)
write_loop host bytes size start zero written inode = pure (written, inode)
write_loop host bytes size start (suc fuel) written inode = elim (ltb written size) [
  | false ↦ pure (written, inode)
  | true ↦ do
    (block_num, inode') ← block_for_write inode (block_index (start + written))
    elim (block_num == 0) [
      | true ↦ pure (written, inode')
      | false ↦ attempt (read_disk host block_num) >>= λ r. elim r [
        | err _ ↦ pure (written, inode')
        | ok block ↦
            let n = round_bytes (start + written) (size - written) in
            attempt (
              write_disk host block_num
                (splice block (block_offset (start + written)) (take n (drop written bytes))))
            >>= λ w. elim w [
              | err _ ↦ pure (written, inode')
              | ok _ ↦ write_loop host bytes size start fuel (written + n) inode'
            ]
      ]
    ]
]

-- The inode that `fs_write` writes back: a larger size brings the number of blocks up to date.
unfoldable pub grown : Inode → (new_size now : ℕ) → Inode
grown inode new_size now =
    if ltb inode.file_size new_size
    then record inode {
      file_size = new_size;
      block_count = (new_size + block_size - 1) / block_size % 2 ^ 32;
      modify_time = now;
      change_time = now;
    }
    else record inode { modify_time = now; change_time = now }

-- The end of `fs_write`, where `written` bytes have gone out; a failing `write_inode_to_disk` is
-- only warned of.
unfoldable pub finish_write : Host → (fd inode_number position written : ℕ) → Inode → M ℕ
finish_write host fd inode_number position written inode = elim (ltb 0 written) [
  | false ↦ pure written
  | true ↦ do
    now ← current_time host
    ignore (write_inode host inode_number (grown inode ((position + written) % 2 ^ 64) now))
    modify (put_position fd ((position + written) % 2 ^ 64))
    pure written
]

-- What `fs_write` and `fs_read` do before their loops: the handle and its inode, which is a regular
-- file that the current user may write or read.
unfoldable pub open_regular : Host → (fd required : ℕ) → M (FileHandle × Inode)
open_regular host fd required = do
  validate_fd fd
  load_if_needed host
  s ← get
  inode ← read_inode host (get_or s.open_files fd zero_handle).inode_number
  s' ← get
  if not (inode.file_type == file_type_regular)
      then fail invalid_param
      else if not (check_permission s' inode required)
      then fail permission
      else pure (get_or s.open_files fd zero_handle, inode)

-- `fs_write`: how many bytes it has written.
unfoldable pub fs_write : Host → (fd : ℕ) → (buffer : Option (List ℕ)) → (size : ℕ) → M ℕ
fs_write host fd buffer size = elim buffer [
  | none ↦ fail invalid_param
  | some bytes ↦ if not_positive size then fail invalid_param else do
    (handle, inode) ← open_regular host fd perm_owner_write
    (written, inode') ← write_loop host bytes size handle.file_position size 0 inode
    finish_write host fd handle.inode_number handle.file_position written inode'
]

-- The loop of `fs_read` with `done` bytes read: those that follow.
unfoldable pub read_loop : Host → Inode → (size start fuel done : ℕ) → M (List ℕ)
read_loop host inode size start zero done = pure []
read_loop host inode size start (suc fuel) done = elim (ltb done size) [
  | false ↦ pure []
  | true ↦
      let block_num = get_data_block inode (block_index (start + done)) in
      elim (block_num == 0) [
        | true ↦ pure []
        | false ↦ attempt (read_disk host block_num) >>= λ r. elim r [
          | err _ ↦ pure []
          | ok block ↦
              let n = round_bytes (start + done) (size - done) in
              read_loop host inode size start fuel (done + n) >>= λ rest.
              pure (take n (drop (block_offset (start + done)) block) ++ rest)
        ]
      ]
]

-- The end of `fs_read`; a failing `write_inode_to_disk` is not looked at.
unfoldable pub finish_read : Host → (fd inode_number position count : ℕ) → Inode → M (Unit {0})
finish_read host fd inode_number position count inode = elim (ltb 0 count) [
  | false ↦ pure tt
  | true ↦ do
    modify (put_position fd ((position + count) % 2 ^ 64))
    now ← current_time host
    ignore (write_inode host inode_number (record inode { access_time = now }))
]

-- `fs_read` into a buffer that is not null: the bytes read, whose number it returns.
unfoldable pub fs_read : Host → (fd size : ℕ) → M (List ℕ)
fs_read host fd size = if not_positive size then fail invalid_param else do
  (handle, inode) ← open_regular host fd perm_owner_read
  if leb inode.file_size handle.file_position then pure [] else do
    let asked = min size (inode.file_size - handle.file_position)
    bytes ← read_loop host inode asked handle.file_position asked 0
    finish_read host fd handle.inode_number handle.file_position (length bytes) inode
    pure bytes
