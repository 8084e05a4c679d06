-- ===== src/System/Invariant.antt =====
-- What holds of the accounts, the current user and the open files in every state that the program can
-- reach.
use caozuokeshe.Base.{
  get_or-replicate, ℕ, zero, suc, ◌≤◌, ◌≡◌, ◌⊎◌, ap, ◌∙◌, true, List, [], ◌∷◌, arith, length,
  get_or, set, length-replicate, length-set,
}
use caozuokeshe.Disk.Host.{Host}
use caozuokeshe.Fs.State.{
  FsState, FileHandle, zero_handle, max_open_files, User, zero_user, max_users,
}
use caozuokeshe.Users.Permission.{root_uid}
use caozuokeshe.Users.Accounts.{anonymous_uid}
use caozuokeshe.Users.Accounts.Distinct.{IsDistinct}
use caozuokeshe.System.Keeps.{Touches, emptied, opened, replaced, IsStable}
use caozuokeshe.System.Files.{fs_create-Keeps, fs_open-Keeps, fs_close-Keeps}
use caozuokeshe.System.Storage.{
  read_superblock-Keeps, write_superblock-Keeps, write_bitmap-Keeps, read_bitmap-Keeps,
  read_inode-Keeps, write_inode-Keeps,
}
use caozuokeshe.System.Ops.{
  allocate_data_block-Keeps, fs_write-Keeps, fs_read-Keeps, fs_seek-Keeps, fs_size-Keeps,
}
use caozuokeshe.System.Format.{
  init_superblock-Keeps, init_bitmap_of-Keeps, create_root_directory-Keeps, format_disk-Keeps,
  chown-keeps, chmod-keeps,
}
use caozuokeshe.System.Steps.{FileStep, Step, Run}
use caozuokeshe.System.Steps

-- An active account with this uid.
pub record HasAccount (users : List User) (uid : ℕ) : Type 0 where
  pub slot : ℕ
  pub active : (get_or users slot zero_user).is_active ≡ true
  pub owned : (get_or users slot zero_user).uid ≡ uid

-- The accounts are distinct, the tables have their sizes, no handle is referred to twice, and the
-- current user is root, the anonymous user or the owner of an account.
pub record IsSound (s : FsState) : Type 0 where
  pub distinct : IsDistinct s.users
  pub accounts : length s.users ≡ max_users
  pub handles : length s.open_files ≡ max_open_files
  pub references : (fd : ℕ) → (get_or s.open_files fd zero_handle).reference_count ≤ 1
  pub known :
      (s.current_user_uid ≡ root_uid)
      ⊎ ((s.current_user_uid ≡ anonymous_uid) ⊎ HasAccount s.users s.current_user_uid)

-- What every call on files keeps.
pub file-keeps :
    {I : FsState → Type 0} (st : IsStable I) (host : Host) {s t : FsState}
    → FileStep host s t
    → I s
    → I t
file-keeps st host (Steps.formatted s) i = (format_disk-Keeps st host).keeps s i
file-keeps st host (Steps.created s path) i = (fs_create-Keeps st host path).keeps s i
file-keeps st host (Steps.opened s path) i = (fs_open-Keeps st host path).keeps s i
file-keeps st host (Steps.closed s fd) i = fs_close-Keeps st fd s i
file-keeps st host (Steps.wrote s fd buffer size) i =
    (fs_write-Keeps st host fd buffer size).keeps s i
file-keeps st host (Steps.did_read s fd size) i = (fs_read-Keeps st host fd size).keeps s i
file-keeps st host (Steps.sought s fd offset whence) i =
    (fs_seek-Keeps st host fd offset whence).keeps s i
file-keeps st host (Steps.sized s fd) i = (fs_size-Keeps st host fd).keeps s i
file-keeps st host (Steps.owner_changed s n uid gid) i = chown-keeps st host n uid gid s i
file-keeps st host (Steps.mode_changed s n mode) i = chmod-keeps st host n mode s i
file-keeps st host (Steps.superblock_made s total_blocks) i =
    (init_superblock-Keeps st host total_blocks).keeps s i
file-keeps st host (Steps.superblock_written s) i = (write_superblock-Keeps st host).keeps s i
file-keeps st host (Steps.superblock_read s) i = (read_superblock-Keeps st host).keeps s i
file-keeps st host (Steps.bitmap_made s which total_bits) i =
    (init_bitmap_of-Keeps st host which total_bits).keeps s i
file-keeps st host (Steps.bitmap_written s bm start count) i =
    (write_bitmap-Keeps st host bm start count).keeps s i
file-keeps st host (Steps.bitmap_read s which start count) i =
    (read_bitmap-Keeps st host which start count).keeps s i
file-keeps st host (Steps.root_created s) i = (create_root_directory-Keeps st host).keeps s i
file-keeps st host (Steps.inode_read s n) i = (read_inode-Keeps st host n).keeps s i
file-keeps st host (Steps.inode_written s n inode) i = (write_inode-Keeps st host n inode).keeps s i
file-keeps st host (Steps.block_allocated s inode index) i =
    (allocate_data_block-Keeps st inode index).keeps s i
file-keeps st host (Steps.disk_changed s d) i =
    st.storage s s.superblock s.inode_bitmap s.block_bitmap d i

-- Handles after one of them is set.
set-counts :
    (hs : List FileHandle) (fd : ℕ) (h : FileHandle)
    → h.reference_count ≤ 1
    → ((k : ℕ) → (get_or hs k zero_handle).reference_count ≤ 1)
    → (k : ℕ) → (get_or (set hs fd h) k zero_handle).reference_count ≤ 1
set-counts [] fd h le old k = omega arith
set-counts (x ∷ hs) zero h le old zero = le
set-counts (x ∷ hs) zero h le old (suc k) = old (suc k)
set-counts (x ∷ hs) (suc fd) h le old zero = old zero
set-counts (x ∷ hs) (suc fd) h le old (suc k) = set-counts hs fd h le (λ j. old (suc j)) k

Touches-counts :
    {hs hs' : List FileHandle}
    → Touches hs hs'
    → length hs ≡ max_open_files
    → ((k : ℕ) → (get_or hs k zero_handle).reference_count ≤ 1)
    → (length hs' ≡ max_open_files) × ((k : ℕ) → (get_or hs' k zero_handle).reference_count ≤ 1)
Touches-counts emptied len old = (
  length-replicate max_open_files zero_handle,
  λ k. omega (arith, ap FileHandle.reference_count (get_or-replicate max_open_files k zero_handle)),
)
Touches-counts {hs} (opened fd h one) len old =
    (length-set hs fd h ∙ len, set-counts hs fd h (omega (arith, one)) old)
Touches-counts {hs} (replaced fd h le) len old =
    (length-set hs fd h ∙ len, set-counts hs fd h (omega (arith, le, old fd)) old)

pub IsSound-IsStable : IsStable IsSound
IsSound-IsStable = record {
  storage = λ s sb ib bb d i. record {
    distinct = i.distinct;
    accounts = i.accounts;
    handles = i.handles;
    references = i.references;
    known = i.known;
  };
  handles = λ s hs t i.
      let (len, small) = Touches-counts t i.handles i.references in
      record {
        distinct = i.distinct;
        accounts = i.accounts;
        handles = len;
        references = small;
        known = i.known;
      };
}
