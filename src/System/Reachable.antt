-- ===== src/System/Reachable.antt =====
-- The states that the program reaches.
use mathlib.Core.Path.{subst}
use caozuokeshe.Base.{
  get_or-replicate, ℕ, ◌≤◌, ◌≡◌, ◌≢◌, ◌⊎◌, not, refl, ap, sym, ◌∙◌, inl, inr, Option, none, some,
  List, [], arith, length, Bool-cases, ◌==◌, get_or, set, replicate, length-replicate, length-set,
  get_or-set_ne, str_eq,
}
use caozuokeshe.Disk.Host.{Host}
use caozuokeshe.Fs.State.{FsState, zero_handle, max_open_files, User, zero_user, max_users}
use caozuokeshe.Users.Password.{hash_password}
use caozuokeshe.Users.Permission.{root_uid}
use caozuokeshe.Users.Accounts.{
  UserStatus, success, find_free_user_slot, create_user, find_user_by_username, find_user_by_uid,
  get_next_available_uid, user_manager_init, login, logout, anonymous_uid, root_gid, root_name,
  root_password, anonymous_name,
}
use caozuokeshe.Users.Accounts.Laws.{find_user_sound, login_sound}
use caozuokeshe.Users.Accounts.Distinct.{create_user-IsDistinct}
use caozuokeshe.Users.Accounts.Added.{Added, unchanged, added, create_user-Added}
use caozuokeshe.System.Steps.{
  FileStep, Step, file, account_added, logged_in, logged_out, accounts_reset, Run, done, next,
}
use caozuokeshe.System.Invariant.{HasAccount, IsSound, file-keeps, IsSound-IsStable}

-- A new record in a free slot leaves the accounts that are there.
set-HasAccount :
    (users : List User) (slot uid : ℕ) (new : User)
    → find_free_user_slot users ≡ some slot
    → HasAccount users uid
    → HasAccount (set users slot new) uid
unfolding find_free_user_slot
set-HasAccount users slot uid new free a =
    let (j, eq, lt, inactive) = find_user_sound (λ u. not u.is_active) users 0 {k = slot} free in
    let here : slot ≡ j = omega (arith, eq) in
    let apart : slot ≢ a.slot = λ e. absurd (
      ground (
        arith,
        inactive,
        a.active,
        ap (λ k. (get_or users k zero_user).is_active) (sym here ∙ e),
      )) in
    let stays = get_or-set_ne users slot a.slot new zero_user apart in
    record {
      slot = a.slot;
      active = ap User.is_active stays ∙ a.active;
      owned = ap User.uid stays ∙ a.owned;
    }

Added-known :
    (s : FsState) {t : FsState}
    → Added s t
    → (s.current_user_uid ≡ root_uid)
      ⊎ ((s.current_user_uid ≡ anonymous_uid) ⊎ HasAccount s.users s.current_user_uid)
    → (t.current_user_uid ≡ root_uid)
      ⊎ ((t.current_user_uid ≡ anonymous_uid) ⊎ HasAccount t.users t.current_user_uid)
Added-known s unchanged k = k
Added-known s (added slot new d free) (inl e) = inl e
Added-known s (added slot new d free) (inr (inl e)) = inr (inl e)
Added-known s (added slot new d free) (inr (inr a)) =
    inr (inr (set-HasAccount s.users slot s.current_user_uid new free a))

Added-tables :
    (s : FsState) {t : FsState}
    → Added s t
    → (length t.users ≡ length s.users) × (t.open_files ≡ s.open_files)
Added-tables s unchanged = (refl, refl)
Added-tables s (added slot new d free) = (length-set s.users slot new, refl)

create_user-IsSound :
    (host : Host) (username password : Option (List ℕ)) (uid gid : ℕ) (s : FsState)
    → IsSound s
    → IsSound (create_user host username password uid gid s).1
create_user-IsSound host username password uid gid s i =
    let a = create_user-Added host username password uid gid s in
    let (sizes, same) = Added-tables s a in
    record {
      distinct = create_user-IsDistinct host username password uid gid s i.distinct;
      accounts = sizes ∙ i.accounts;
      handles = ap length same ∙ i.handles;
      references = λ fd.
          subst (λ hs. (get_or hs fd zero_handle).reference_count ≤ 1) (sym same) (i.references fd);
      known = Added-known s a i.known;
    }

with_user-IsSound :
    (s : FsState) (uid : ℕ)
    → IsSound s
    → (uid ≡ root_uid) ⊎ ((uid ≡ anonymous_uid) ⊎ HasAccount s.users uid)
    → IsSound (record s { current_user_uid = uid })
with_user-IsSound s uid i known = record {
  distinct = i.distinct;
  accounts = i.accounts;
  handles = i.handles;
  references = i.references;
  known = known;
}

login-IsSound :
    (username password : Option (List ℕ)) (s : FsState)
    → IsSound s
    → IsSound (login username password s).1
unfolding login
login-IsSound none password s i = i
login-IsSound (some name) none s i = i
login-IsSound (some name) (some password) s i = elim (login_sound name password s) [
  | inl (ok, (k, lt, active, named, hash, e)) ↦
      rw e
        (with_user-IsSound s _ i (inr (inr (record { slot = k; active = active; owned = refl }))))
  | inr (failed, e) ↦ rw e i
]

logout-IsSound : (s : FsState) → IsSound s → IsSound (logout s).1
unfolding logout
logout-IsSound s i = elim (Bool-cases (s.current_user_uid == anonymous_uid)) [
  | inl e ↦ rw (e, logout) i
  | inr e ↦ rw (e, logout) (with_user-IsSound s anonymous_uid i (inr (inl refl)))
]

-- The state that `user_manager_init` begins with: no account.
blank-IsSound :
    (s : FsState)
    → length s.open_files ≡ max_open_files
    → ((fd : ℕ) → (get_or s.open_files fd zero_handle).reference_count ≤ 1)
    → s.current_user_uid ≡ root_uid
    → IsSound (record s { users = replicate max_users zero_user })
blank-IsSound s len counts user = record {
  distinct = record {
    names = λ i j a b e.
        absurd (ground (arith, a, ap User.is_active (get_or-replicate max_users i zero_user)));
    uids = λ i j a b e.
        absurd (ground (arith, a, ap User.is_active (get_or-replicate max_users i zero_user)));
  };
  accounts = length-replicate max_users zero_user;
  handles = len;
  references = counts;
  known = inl user;
}

-- `user_manager_init`, whether or not it succeeds.
user_manager_init-IsSound :
    (host : Host) (s : FsState)
    → length s.open_files ≡ max_open_files
    → ((fd : ℕ) → (get_or s.open_files fd zero_handle).reference_count ≤ 1)
    → s.current_user_uid ≡ root_uid
    → IsSound (user_manager_init host s).1
unfolding user_manager_init
user_manager_init-IsSound host s len counts user =
    let blank = record s { users = replicate max_users zero_user } in
    let (status, s') =
      create_user host (some root_name) (some root_password) root_uid root_gid blank in
    let one : IsSound s' =
      create_user-IsSound host (some root_name) (some root_password) root_uid root_gid blank
        (blank-IsSound s len counts user) in
    let (status', s'') =
      create_user host (some anonymous_name) (some []) anonymous_uid anonymous_uid s' in
    let two : IsSound s'' =
      create_user-IsSound host (some anonymous_name) (some []) anonymous_uid anonymous_uid s' one in
    both status status' s' s'' one two
  where
    both :
        (status status' : UserStatus) (s' s'' : FsState)
        → IsSound s'
        → IsSound s''
        → IsSound
            (elim status as (λ u. UserStatus × FsState) [
              | success ↦ elim status' as (λ u. UserStatus × FsState) [
                | success ↦ (success, record s'' { current_user_uid = root_uid })
                | other ↦ (other, s'')
              ]
              | other ↦ (other, s')
            ]).1
    both success success s' s'' one two = with_user-IsSound s'' root_uid two (inl refl)
    both success _ s' s'' one two = two
    both _ status' s' s'' one two = one

-- Who is the current user before is of no account.
user_manager_init-by_root :
    (host : Host) (s : FsState)
    → (user_manager_init host (record s { current_user_uid = root_uid })).1
      ≡ (user_manager_init host s).1
unfolding user_manager_init create_user find_user_by_uid find_user_by_username find_free_user_slot
    get_next_available_uid str_eq hash_password
user_manager_init-by_root host s = refl

pub Step-IsSound : (host : Host) {s t : FsState} → Step host s t → IsSound s → IsSound t
Step-IsSound host (file f) i = file-keeps IsSound-IsStable host f i
Step-IsSound host (account_added s username password uid gid) i =
    create_user-IsSound host username password uid gid s i
Step-IsSound host (logged_in s username password) i = login-IsSound username password s i
Step-IsSound host (logged_out s) i = logout-IsSound s i
Step-IsSound host (accounts_reset s) i = subst IsSound (user_manager_init-by_root host s) (
    user_manager_init-IsSound host (record s { current_user_uid = root_uid }) i.handles i.references
      refl)

pub Run-IsSound : (host : Host) {s t : FsState} → Run host s t → IsSound s → IsSound t
Run-IsSound host done i = i
Run-IsSound host (next r st) i = Step-IsSound host st (Run-IsSound host r i)

-- No file is open.
module _ (s : FsState) (empty : s.open_files ≡ replicate max_open_files zero_handle) where
  empty-length : length s.open_files ≡ max_open_files
  empty-length = ap length empty ∙ length-replicate max_open_files zero_handle

  empty-counts : (fd : ℕ) → (get_or s.open_files fd zero_handle).reference_count ≤ 1
  empty-counts fd =
      subst (λ hs. (get_or hs fd zero_handle).reference_count ≤ 1) (sym empty)
        (omega
          (arith, ap (λ h. h.reference_count) (get_or-replicate max_open_files fd zero_handle)))

-- Globals that are zero.
pub zero-IsSound :
    (s : FsState)
    → s.users ≡ replicate max_users zero_user
    → s.open_files ≡ replicate max_open_files zero_handle
    → s.current_user_uid ≡ root_uid
    → IsSound s
zero-IsSound s none_yet empty user =
    subst (λ us. IsSound (record s { users = us })) (sym none_yet)
      (blank-IsSound s (empty-length s empty) (empty-counts s empty) user)

-- With no file open and user 0, `user_manager_init` and then any sequence of calls of the functions of
-- fs_ops.h, file_ops.h and user_manager.h that change the global state and of changes of the disk, with
-- any arguments and on any host, leads to states in which the names and the uids of the active accounts
-- are distinct, the table of accounts and the table of open files have their sizes, no handle has a
-- reference count above 1, and the current user is root, the anonymous user or the owner of an active
-- account.
pub Run-IsSound_init :
    (host : Host) (s t : FsState)
    → s.open_files ≡ replicate max_open_files zero_handle
    → s.current_user_uid ≡ root_uid
    → Run host (user_manager_init host s).1 t
    → IsSound t
Run-IsSound_init host s t empty user run =
    Run-IsSound host run
      (user_manager_init-IsSound host s (empty-length s empty) (empty-counts s empty) user)

-- `format_disk` and the functions that it calls on the superblock, the bitmaps, the inode table and the
-- root directory, those that read them back, creating, opening, closing, writing, reading, seeking and
-- sizing a file, changing its owner or its mode, allocating a data block, and any change of the
-- disk leave the accounts and the current user as they are, whatever the arguments, the state and the
-- host.
pub FileStep-accounts :
    (host : Host) (s t : FsState)
    → FileStep host s t
    → (t.users ≡ s.users) × (t.current_user_uid ≡ s.current_user_uid)
FileStep-accounts host s t step =
    file-keeps {I = λ u. (u.users ≡ s.users) × (u.current_user_uid ≡ s.current_user_uid)}
      (record { storage = λ u sb ib bb d i. i; handles = λ u hs h i. i }) host step (refl, refl)
