-- ===== src/Fs/Files.antt =====
-- `parse_path`, `load_filesystem_state`, `fs_create`, `fs_open` and `fs_close`.
pub mod Create
pub mod Mount
use caozuokeshe.Base.{
  ℕ, zero, suc, ◌+◌, ◌-◌, ◌*◌, ◌/◌, ◌%◌, ◌^◌, not, ◌||◌, Bool, true, false, Option, none, some,
  List, [], ◌∷◌, ◌++◌, leb, ◌==◌, if◌then◌else◌, replicate, length, take, get_or, set, has_char,
}
use caozuokeshe.Errors.{
  FsError, Result, ok, err, io, invalid_param, file_exists, file_not_found, no_space, is_directory,
  permission, too_many_open,
}
use caozuokeshe.Layout.{
  Inode, zero_inode, block_size, file_type_directory, file_type_regular, root_inode_num,
  fs_magic_number,
}
use caozuokeshe.Disk.Host.{Host}
use caozuokeshe.Fs.State.{
  FsState, FileHandle, zero_handle, max_open_files, M, pure, fail, ◌>>=◌, ◌>>◌, ignore, attempt,
  get, modify, current_time,
}
use caozuokeshe.Fs.Super.{read_superblock, inode_bitmap_block, data_bitmap_block, bitmap_blocks}
use caozuokeshe.Fs.BitmapIo.{Which, inodes, blocks, read_bitmap}
use caozuokeshe.Fs.Inodes.{read_inode, write_inode}
use caozuokeshe.Fs.Directory.{find_file_in_directory, add_file_to_directory, alloc_bit, free_bit}
use caozuokeshe.Users.Accounts.{get_current_uid, get_current_gid, check_permission}
use caozuokeshe.Users.Permission.{perm_owner_read}

-- `parse_path`, of a path that is not null: the parent's inode number and the file name, which
-- `strncpy` cuts to 63 characters.
unfoldable pub parse_path : (path : List ℕ) → Result (ℕ × List ℕ)
parse_path [] = ok (root_inode_num, [])
parse_path (c ∷ rest) =
    if c == b'/'
    then (if length rest == 0
        then ok (root_inode_num, [])
        else if has_char rest b'/'
        then err invalid_param
        else ok (root_inode_num, take 63 rest))
    else if has_char (c ∷ rest) b'/'
    then err invalid_param
    else ok (root_inode_num, take 63 (c ∷ rest))

-- `load_filesystem_state`
unfoldable pub load_filesystem_state : Host → M (Unit {0})
load_filesystem_state host = do
  read_superblock host
  read_bitmap host inodes inode_bitmap_block bitmap_blocks
  read_bitmap host blocks data_bitmap_block bitmap_blocks
  modify (λ s. record s { open_files = replicate max_open_files zero_handle })

-- The state is loaded where the superblock in memory is not one.
unfoldable pub ensure_loaded : Host → M (Unit {0})
ensure_loaded host s =
    if not (s.superblock.magic_number == fs_magic_number)
    then load_filesystem_state host s
    else (ok tt, s)

-- The beginning that `fs_create` and `fs_open` share: a path, a loaded state, a name.
unfoldable pub resolve : Host → (path : Option (List ℕ)) → M (ℕ × List ℕ)
resolve host path = elim path [
  | none ↦ fail invalid_param
  | some p ↦ ensure_loaded host >> elim (parse_path p) [
    | err e ↦ fail e
    | ok (parent, filename) ↦
        if length filename == 0 then fail invalid_param else pure (parent, filename)
  ]
]

-- The inode of a new file.
unfoldable pub new_inode : (now inode_number uid gid : ℕ) → Inode
new_inode now inode_number uid gid = record zero_inode {
  inode_number = inode_number;
  file_type = file_type_regular;
  permissions = 0o644;
  owner_uid = uid;
  owner_gid = gid;
  link_count = 1;
  file_size = 0;
  block_count = 0;
  access_time = now;
  modify_time = now;
  change_time = now;
  create_time = now;
}

-- A step that gives the new inode number back where it fails.
unfoldable pub or_free_inode : ℕ → M (Unit {0}) → M (Unit {0})
or_free_inode inode_number step s =
    let (r, s') = step s in
    elim r [ ok _ ↦ (ok tt, s') | err e ↦ (err e, (free_bit inodes inode_number s').1) ]

-- The end of `fs_create`: the superblock's count of free inodes.
abbrev pub update_free_inodes : FsState → FsState
update_free_inodes s = record s {
  superblock = record (s.superblock) { free_inodes = s.inode_bitmap.free_count };
}

-- `fs_create`
unfoldable pub fs_create : Host → (path : Option (List ℕ)) → M (Unit {0})
fs_create host path = do
  (parent, filename) ← resolve host path
  existing ← find_file_in_directory host parent filename
  if not (existing == 0) then fail file_exists else do
    new ← alloc_bit inodes
    if new == 0 then fail no_space else do
      now ← current_time host
      s ← get
      or_free_inode new
          (write_inode host new (new_inode now new (get_current_uid s) (get_current_gid s)))
      or_free_inode new (add_file_to_directory host parent filename new)
      modify update_free_inodes

-- The first handle that is not in use, from `fd` on.
unfoldable pub find_free_handle : List FileHandle → (fd : ℕ) → Option ℕ
find_free_handle [] fd = none
find_free_handle (h ∷ handles) fd =
    let rest = find_free_handle handles (fd + 1) in if h.reference_count == 0 then some fd else rest

-- The end of `fs_open`, with the descriptor found: the handle, and the file's access time.
unfoldable pub open_handle : Host → (fd inode_number : ℕ) → Inode → M ℕ
open_handle host fd inode_number inode = do
  now ← current_time host
  s ← get
  modify (λ s'. record s' {
    open_files = set s'.open_files fd (record {
      inode_number = inode_number;
      flags = 3;
      file_position = 0;
      reference_count = 1;
      open_time = now;
      owner_uid = get_current_uid s;
    });
  })
  now' ← current_time host
  ignore (write_inode host inode_number (record inode { access_time = now' }))
  pure fd

-- `fs_open`: the descriptor.
unfoldable pub fs_open : Host → (path : Option (List ℕ)) → M ℕ
fs_open host path = do
  (parent, filename) ← resolve host path
  inode_number ← find_file_in_directory host parent filename
  if inode_number == 0 then fail file_not_found else do
    inode ← read_inode host inode_number
    s ← get
    if inode.file_type == file_type_directory
        then fail is_directory
        else if not (check_permission s inode perm_owner_read)
        then fail permission
        else elim (find_free_handle s.open_files 0) [
          | none ↦ fail too_many_open
          | some fd ↦ open_handle host fd inode_number inode
        ]

-- `fs_close`, of a descriptor given as the pattern of an `int`
unfoldable pub fs_close : (fd : ℕ) → FsState → FsState
fs_close fd s =
    let h = get_or s.open_files fd zero_handle in
    if leb max_open_files fd then s else if h.reference_count == 0 then s else record s {
      open_files = set s.open_files fd (
          if h.reference_count - 1 == 0
          then zero_handle
          else record h { reference_count = h.reference_count - 1 });
    }
