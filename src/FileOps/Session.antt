-- ===== src/FileOps/Session.antt =====
-- An open file: its handle, its inode in the table, and its data, all in place; and how `fs_write`,
-- `fs_seek` and `fs_read` begin on it.
pub mod Update
pub mod Store
pub mod Written
pub mod Outcome
pub mod Save
pub mod Load
pub mod RoundTrip
use caozuokeshe.Base.{
  ℕ, ◌+◌, ◌<◌, ◌≤◌, ◌≡◌, ◌≢◌, refl, ap, ◌∙◌, sym, not, Bool, true, false, List, arith, length, leb,
  ◌==◌, get_or, take, drop, if◌then◌else◌,
}
use caozuokeshe.Errors.{Result, ok, invalid_param, permission}
use caozuokeshe.Layout.{
  Inode, zero_inode, inode_size, decode_inode, file_type_regular, fs_magic_number,
}
use caozuokeshe.Layout.RoundTrip.{InodeFits}
use caozuokeshe.Disk.Host.{Host, IsReliable}
use caozuokeshe.Disk.Block.{Disk, read_block}
use caozuokeshe.Disk.Block.Laws.{IsReady, Reads, Keeps, block_at, read_block-Reads}
use caozuokeshe.Fs.State.{
  FsState, FileHandle, zero_handle, max_open_files, User, M, ◌>>=◌, ◌>>◌, bind-ok, get, fail, pure,
}
use caozuokeshe.Fs.Inodes.{inode_block, inode_offset, read_inode}
use caozuokeshe.Fs.Inodes.Laws.{on_disk, IsStored, read_inode-ok}
use caozuokeshe.Users.Accounts.{check_permission, get_current_user, get_user_by_uid}
use caozuokeshe.FileOps.Blocks.{validate_fd, load_if_needed}
use caozuokeshe.FileOps.ReadWrite.{open_regular}
use caozuokeshe.FileOps.Content.{IsMounted, IsTaken, Owns}

-- The inode that the table on the disk holds.
unfoldable pub table_inode : FsState → (inode_number : ℕ) → Inode
table_inode s inode_number = decode_inode (
    take inode_size
      (drop (inode_offset inode_number) (block_at s.disk (inode_block s.superblock inode_number))))

abbrev pub handle_of : FsState → (fd : ℕ) → FileHandle
handle_of s fd = get_or s.open_files fd zero_handle

-- The descriptor `fd` is open, on a regular file that fits this inode: its place in the table lies in
-- front of the data blocks, and it owns its blocks in the bitmap of these bytes.
pub record IsHeld (s : FsState) (fd : ℕ) (bits : List ℕ) (inode : Inode) : Type 0 where
  pub valid : fd < max_open_files
  pub handles : length s.open_files ≡ max_open_files
  pub referred : (handle_of s fd).reference_count ≢ 0
  pub loaded : s.superblock.magic_number ≡ fs_magic_number
  pub mounted : IsMounted s bits
  pub owns : Owns s bits inode
  pub stored : IsStored s (handle_of s fd).inode_number
  pub in_tables :
      inode_block s.superblock (handle_of s fd).inode_number < s.superblock.data_blocks_start
  pub fits : InodeFits inode
  pub regular : inode.file_type ≡ file_type_regular

-- The descriptor `fd` is open, and the table holds this inode.
pub record IsOpen (s : FsState) (fd : ℕ) (bits : List ℕ) (inode : Inode) : Type 0 where
  pub held : IsHeld s fd bits inode
  pub holds : table_inode s (handle_of s fd).inode_number ≡ inode

-- The permission check looks at the users and at three fields of the inode only.
abbrev allowed : FsState → Inode → List User → (current uid gid permissions required : ℕ) → Bool
allowed s inode users current uid gid permissions required =
    check_permission (record s { users = users; current_user_uid = current })
      (record inode { owner_uid = uid; owner_gid = gid; permissions = permissions }) required

pub check_permission-ext :
    (s t : FsState) (i j : Inode) (required : ℕ)
    → t.users ≡ s.users
    → t.current_user_uid ≡ s.current_user_uid
    → j ≡ record i {
      direct_blocks = j.direct_blocks;
      file_size = j.file_size;
      block_count = j.block_count;
      modify_time = j.modify_time;
      change_time = j.change_time;
      access_time = j.access_time;
    }
    → check_permission t j required ≡ check_permission s i required
unfolding check_permission get_current_user get_user_by_uid
check_permission-ext s t i j required users current same =
    ap (λ us. allowed s i us t.current_user_uid j.owner_uid j.owner_gid j.permissions required)
      users
    ∙ ap (λ c. allowed s i s.users c j.owner_uid j.owner_gid j.permissions required) current
    ∙ ap (λ x. allowed s i s.users s.current_user_uid x j.owner_gid j.permissions required)
        (ap Inode.owner_uid same)
    ∙ ap (λ x. allowed s i s.users s.current_user_uid i.owner_uid x j.permissions required)
        (ap Inode.owner_gid same)
    ∙ ap (λ x. allowed s i s.users s.current_user_uid i.owner_uid i.owner_gid x required)
        (ap Inode.permissions same)

-- A state that differs in its disk alone.
pub on_disk-IsHeld :
    (s : FsState) (fd : ℕ) (bits : List ℕ) (inode : Inode) (d : Disk)
    → IsHeld s fd bits inode
    → Keeps s.disk d
    → IsHeld (on_disk s d) fd bits inode
on_disk-IsHeld s fd bits inode d o keeps = record {
  valid = o.valid;
  handles = o.handles;
  referred = o.referred;
  loaded = o.loaded;
  mounted = record {
    ready = keeps.ready;
    valid = o.mounted.valid;
    room = omega (arith, o.mounted.room, keeps.total);
    behind = o.mounted.behind;
  };
  owns = record {
    twelve = o.owns.twelve;
    taken = λ i h.
        let t = o.owns.taken i h in record { above = t.above; below = t.below; marked = t.marked };
    distinct = o.owns.distinct;
  };
  stored = record {
    positive = o.stored.positive;
    in_table = o.stored.in_table;
    no_wrap = o.stored.no_wrap;
    on_the_disk = omega (arith, o.stored.on_the_disk, keeps.total);
  };
  in_tables = o.in_tables;
  fits = o.fits;
  regular = o.regular;
}

-- A state that differs in its disk alone, which holds the same blocks.
pub same_blocks-IsOpen :
    (s : FsState) (fd : ℕ) (bits : List ℕ) (inode : Inode) (d : Disk)
    → IsOpen s fd bits inode
    → Keeps s.disk d
    → ((c : ℕ) → block_at d c ≡ block_at s.disk c)
    → IsOpen (on_disk s d) fd bits inode
unfolding table_inode
same_blocks-IsOpen s fd bits inode d o keeps same = record {
  held = on_disk-IsHeld s fd bits inode d o.held keeps;
  holds =
      ap
        (λ block.
          decode_inode (take inode_size (drop (inode_offset (handle_of s fd).inode_number) block)))
        (same (inode_block s.superblock (handle_of s fd).inode_number))
      ∙ o.holds;
}

module _ (host : Host) (reliable : IsReliable host) (s : FsState) (fd : ℕ) (bits : List ℕ)
    (inode : Inode) (o : IsOpen s fd bits inode) where
  pub validate_fd-IsOpen : validate_fd fd s ≡ (ok tt, s)
  unfolding validate_fd
  validate_fd-IsOpen = ground (arith, o.held.valid, o.held.referred)

  pub load_if_needed-IsOpen : load_if_needed host s ≡ (ok tt, s)
  unfolding load_if_needed
  load_if_needed-IsOpen = ground (arith, o.held.loaded)

  abbrev pub seen : Disk
  seen = (read_block host s.disk (inode_block s.superblock (handle_of s fd).inode_number)).2

  pub seen-Reads :
      Reads s.disk
        (inode_block s.superblock (handle_of s fd).inode_number)
        (read_block host s.disk (inode_block s.superblock (handle_of s fd).inode_number))
  seen-Reads =
      read_block-Reads host reliable s.disk o.held.mounted.ready
        (inode_block s.superblock (handle_of s fd).inode_number) o.held.stored.on_the_disk

  pub read_inode-IsOpen :
      read_inode host (handle_of s fd).inode_number s ≡ (ok inode, on_disk s seen)
  unfolding table_inode
  read_inode-IsOpen =
      read_inode-ok host reliable s o.held.mounted.ready (handle_of s fd).inode_number o.held.stored
      ∙ ap (λ i. (ok i, on_disk s seen)) o.holds

  pub seen-IsOpen : IsOpen (on_disk s seen) fd bits inode
  seen-IsOpen = same_blocks-IsOpen s fd bits inode seen o seen-Reads.keeps seen-Reads.same

  -- `fs_write` and `fs_read` find the handle and the inode.
  pub open_regular-IsOpen :
      (required : ℕ)
      → check_permission s inode required ≡ true
      → open_regular host fd required s ≡ (ok (handle_of s fd, inode), on_disk s seen)
  unfolding open_regular
  open_regular-IsOpen required may =
      let still : check_permission (on_disk s seen) inode required ≡ true =
        check_permission-ext s (on_disk s seen) inode inode required refl refl refl ∙ may in
      let kind : (inode.file_type == file_type_regular) ≡ true = ground (arith, o.held.regular) in
      let c = read_inode-IsOpen in
      let allowed_file : Inode → M (FileHandle × Inode) = λ i. get >>= λ s'.
      if not (i.file_type == file_type_regular)
      then fail invalid_param
      else if not (check_permission s' i required)
      then fail permission
      else pure (handle_of s fd, i) in
      let checked : (read_inode host (handle_of s fd).inode_number >>= allowed_file) s
          ≡ (ok (handle_of s fd, inode), on_disk s seen) =
        bind-ok (read_inode host (handle_of s fd).inode_number) allowed_file s c
        ∙ rw (kind, still) refl in
      let rest : M (FileHandle × Inode) = get >>= λ t.
      read_inode host (handle_of t fd).inode_number >>= λ i. get >>= λ s'.
      if not (i.file_type == file_type_regular)
      then fail invalid_param
      else if not (check_permission s' i required)
      then fail permission
      else pure (handle_of t fd, i) in
      bind-ok (validate_fd fd) (λ _. load_if_needed host >> rest) s validate_fd-IsOpen
      ∙ bind-ok (load_if_needed host) (λ _. rest) s load_if_needed-IsOpen
      ∙ checked
