-- ===== src/Fs/State.antt =====
-- `fs_state_t`, and the shape of the functions that work on it: each takes the state to a result and
-- the state that it leaves, also where it fails.
use caozuokeshe.Base.{ℕ, ◌≡◌, ap, Bool, false, some, List, []}
use caozuokeshe.Errors.{FsError, Result, ok, err, io}
use caozuokeshe.Layout.{Superblock}
use caozuokeshe.Bitmap.{Bitmap}
use caozuokeshe.Disk.Host.{Host}
use caozuokeshe.Disk.Block.{Disk, success, called, read_block, write_block}

-- `fs_file_handle_t`
pub record FileHandle : Type 0 where
  pub inode_number : ℕ
  pub flags : ℕ
  pub file_position : ℕ
  pub reference_count : ℕ
  pub open_time : ℕ
  pub owner_uid : ℕ

abbrev pub zero_handle : FileHandle
zero_handle = record {
  inode_number = 0;
  flags = 0;
  file_position = 0;
  reference_count = 0;
  open_time = 0;
  owner_uid = 0;
}

-- `fs_user_t`; the two char arrays by the strings that they hold.
pub record User : Type 0 where
  pub uid : ℕ
  pub gid : ℕ
  pub username : List ℕ
  pub password_hash : List ℕ
  pub created_time : ℕ
  pub is_active : Bool

abbrev pub zero_user : User
zero_user = record {
  uid = 0;
  gid = 0;
  username = [];
  password_hash = [];
  created_time = 0;
  is_active = false;
}

abbrev pub max_open_files : ℕ
max_open_files = 64

abbrev pub max_users : ℕ
max_users = 32

-- `fs_state_t` without the fields that no function uses, with the disk beside it.
pub record FsState : Type 0 where
  pub superblock : Superblock
  pub inode_bitmap : Bitmap
  pub block_bitmap : Bitmap
  pub open_files : List FileHandle
  pub users : List User
  pub current_user_uid : ℕ
  pub disk : Disk

abbrev pub M : Type 0 → Type 0
M A = FsState → Result A × FsState

module _ {A : Type 0} where
  abbrev pub pure : A → M A
  pure a s = (ok a, s)

  abbrev pub fail : FsError → M A
  fail e s = (err e, s)

infixl 5 ◌>>=◌ ◌>>◌
abbrev pub ◌>>=◌ : {A B : Type 0} → M A → (A → M B) → M B
◌>>=◌ m f s = elim (m s).0 [ ok a ↦ f a (m s).1 | err e ↦ (err e, (m s).1) ]

abbrev pub ◌>>◌ : {B : Type 0} → M (Unit {0}) → M B → M B
m >> k = m >>= λ _. k

-- A call whose result is not looked at.
abbrev pub ignore : {A : Type 0} → M A → M (Unit {0})
ignore m s = (ok tt, (m s).1)

-- A call whose result the caller looks at itself.
abbrev pub attempt : {A : Type 0} → M A → M (Result A)
attempt m s = (ok (m s).0, (m s).1)

abbrev pub get : M FsState
get s = (ok s, s)

abbrev pub modify : (FsState → FsState) → M (Unit {0})
modify f s = (ok tt, f s)

-- `time(NULL)`
abbrev pub current_time : Host → M ℕ
current_time host s = (ok (host.time s.disk.calls), record s { disk = called s.disk })

-- `disk_read_block`, where any error becomes `FS_ERROR_IO`
unfoldable pub read_disk : Host → ℕ → M (List ℕ)
read_disk host block_num s =
    let (status, bytes, d) = read_block host s.disk block_num in
    elim status [
      | success ↦ (ok bytes, record s { disk = d })
      | _ ↦ (err io, record s { disk = d })
    ]

-- `disk_write_block`, where any error becomes `FS_ERROR_IO`
unfoldable pub write_disk : Host → ℕ → List ℕ → M (Unit {0})
write_disk host block_num bytes s =
    let (status, d) = write_block host s.disk block_num (some bytes) in
    elim status [ success ↦ (ok tt, record s { disk = d }) | _ ↦ (err io, record s { disk = d }) ]

-- A step that succeeds hands over to the rest, and one that fails ends the run.
abbrev after : {A B : Type 0} → (A → M B) → Result A × FsState → Result B × FsState
after f r = elim r.0 [ ok a ↦ f a r.1 | err e ↦ (err e, r.1) ]

module _ {A B : Type 0} (m : M A) (f : A → M B) (s : FsState) {s' : FsState} where
  pub bind-ok : {a : A} → m s ≡ (ok a, s') → (m >>= f) s ≡ f a s'
  bind-ok e = ap (after f) e

  pub bind-err : {e : FsError} → m s ≡ (err e, s') → (m >>= f) s ≡ (err e, s')
  bind-err e = ap (after f) e
