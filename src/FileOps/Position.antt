-- ===== src/FileOps/Position.antt =====
-- `fs_seek`, `fs_tell` and `fs_size`. What returns an `int` gives its 32-bit pattern.
pub mod Laws
use caozuokeshe.Base.{
  ℕ, ◌+◌, ◌-◌, ◌%◌, ◌^◌, ◌<◌, ◌≤◌, ◌≡◌, ◌⊎◌, refl, Bool, true, false, Option, none, some, arith,
  ltb, leb, ◌==◌, if◌then◌else◌, get_or, set,
}
use caozuokeshe.Errors.{FsError, Result, ok, err, invalid_param}
use caozuokeshe.Layout.{Inode}
use caozuokeshe.Disk.Host.{Host}
use caozuokeshe.Fs.State.{FsState, FileHandle, zero_handle, M, pure, fail, ◌>>=◌, ◌>>◌, get, modify}
use caozuokeshe.Fs.Inodes.{read_inode}
use caozuokeshe.FileOps.Blocks.{validate_fd, load_if_needed, put_position}

-- An `int` as a `uint64_t`.
unfoldable pub extend64 : ℕ → ℕ
extend64 offset = if ltb offset (2 ^ 31) then offset else offset + (2 ^ 64 - 2 ^ 32)

-- The `switch` of `fs_seek`: `SEEK_SET`, `SEEK_CUR`, `SEEK_END`, as a `uint64_t`.
unfoldable pub seek_target : (position file_size offset whence : ℕ) → Option ℕ
unfolding extend64
seek_target position file_size offset whence =
    if whence == 0
    then some (extend64 offset)
    else if whence == 1
    then some ((position + extend64 offset) % 2 ^ 64)
    else if whence == 2
    then some ((file_size + extend64 offset) % 2 ^ 64)
    else none

-- `fs_seek`
unfoldable pub fs_seek : Host → (fd offset whence : ℕ) → M ℕ
fs_seek host fd offset whence = do
  validate_fd fd
  load_if_needed host
  s ← get
  let handle = get_or s.open_files fd zero_handle
  inode ← read_inode host handle.inode_number
  elim (seek_target handle.file_position inode.file_size offset whence) [
    | none ↦ fail invalid_param
    | some position ↦
        if leb (2 ^ 63) position
        then fail invalid_param
        else modify (put_position fd position) >> pure (position % 2 ^ 32)
  ]

-- `fs_tell`
unfoldable pub fs_tell : (fd : ℕ) → M ℕ
fs_tell fd = do
  validate_fd fd
  s ← get
  pure ((get_or s.open_files fd zero_handle).file_position % 2 ^ 32)

-- `fs_size`
unfoldable pub fs_size : Host → (fd : ℕ) → M ℕ
fs_size host fd = do
  validate_fd fd
  load_if_needed host
  s ← get
  inode ← read_inode host (get_or s.open_files fd zero_handle).inode_number
  pure (inode.file_size % 2 ^ 32)
