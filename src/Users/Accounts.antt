-- ===== src/Users/Accounts.antt =====
-- The user table of user_manager.c: creating accounts, login and logout, and the current user.
pub mod Initial
pub mod Laws
pub mod Distinct
pub mod Added
pub mod Roots
use caozuokeshe.Base.{
  ℕ, zero, suc, ◌+◌, ◌-◌, ◌%◌, ◌^◌, Bool, true, false, not, ◌&&◌, ◌||◌, Option, none, some, List,
  [], ◌∷◌, ◌++◌, length, ltb, leb, ◌==◌, if◌then◌else◌, replicate, set, get_or, take, str_eq,
}
use caozuokeshe.Layout.{Inode}
use caozuokeshe.Disk.Host.{Host}
use caozuokeshe.Disk.Block.{called}
use caozuokeshe.Fs.State.{FsState, User, zero_user, max_users}
use caozuokeshe.Users.Password.{hash_password}
use caozuokeshe.Users.Permission.{is_root, root_uid, check_permission_detailed}

-- `user_error_t`
pub data UserStatus : Type 0 where
  success invalid_param user_exists user_not_found wrong_password no_space permission
        not_logged_in :
      UserStatus

abbrev pub root_gid : ℕ
root_gid = 0

abbrev pub default_uid : ℕ
default_uid = 1000

abbrev pub default_gid : ℕ
default_gid = 1000

abbrev pub anonymous_uid : ℕ
anonymous_uid = 65534

-- The loops that look for the first user that passes a test: its index from `i` on.
unfoldable pub find_user : (User → Bool) → List User → (i : ℕ) → Option ℕ
find_user test [] i = none
find_user test (u ∷ users) i =
    let rest = find_user test users (i + 1) in if test u then some i else rest

abbrev pub has_name : List ℕ → User → Bool
has_name username u = u.is_active && str_eq u.username username

abbrev pub has_uid : ℕ → User → Bool
has_uid uid u = u.is_active && (u.uid == uid)

-- `find_user_by_username`; `none` is -1.
unfoldable pub find_user_by_username : List User → List ℕ → Option ℕ
unfolding find_user
find_user_by_username users username = find_user (has_name username) users 0

-- `find_user_by_uid`
unfoldable pub find_user_by_uid : List User → ℕ → Option ℕ
unfolding find_user
find_user_by_uid users uid = find_user (has_uid uid) users 0

-- `find_free_user_slot`
unfoldable pub find_free_user_slot : List User → Option ℕ
unfolding find_user
find_free_user_slot users = find_user (λ u. not u.is_active) users 0

-- The loop of `get_next_available_uid`, with the rounds that are left before the anonymous uid.
unfoldable pub next_uid : List User → (rounds uid : ℕ) → ℕ
next_uid users zero uid = 0
next_uid users (suc rounds) uid = elim (find_user_by_uid users uid) [
  | none ↦ uid
  | some slot ↦ next_uid users rounds (uid + 1)
]

unfoldable pub get_next_available_uid : List User → ℕ
unfolding next_uid
get_next_available_uid users = next_uid users (anonymous_uid - default_uid) default_uid

-- The end of `user_manager_create_user`, with the uid decided on: the default group for group 0, a
-- free slot, and the new record. A null or empty password leaves the hash all zeros.
create_in_slot :
    Host
    → (username : List ℕ) (password : Option (List ℕ)) (uid gid : ℕ) → FsState
    → UserStatus × FsState
create_in_slot host username password uid gid s = elim (find_free_user_slot s.users) [
  | none ↦ (no_space, s)
  | some slot ↦ (
    success,
    record s {
      users = set s.users slot (record {
        uid = uid;
        gid = if gid == 0 then default_gid else gid;
        username = take 31 username;
        password_hash = elim password [
          | none ↦ []
          | some p ↦ if length p == 0 then [] else hash_password p
        ];
        created_time = host.time s.disk.calls;
        is_active = true;
      });
      disk = called s.disk;
    },
  )
]

-- `user_manager_create_user`
unfoldable pub create_user :
    Host → (username password : Option (List ℕ)) (uid gid : ℕ) → FsState → UserStatus × FsState
unfolding create_in_slot
create_user host username password uid gid s = elim username [
  | none ↦ (invalid_param, s)
  | some name ↦
      if length name == 0
      then (invalid_param, s)
      else if leb 32 (length name)
      then (invalid_param, s)
      else elim (find_user_by_username s.users name) [
        | some slot ↦ (user_exists, s)
        | none ↦
            if uid == 0
            then (if get_next_available_uid s.users == 0
                then (no_space, s)
                else create_in_slot host name password (get_next_available_uid s.users) gid s)
            else elim (find_user_by_uid s.users uid) [
              | some slot ↦ (user_exists, s)
              | none ↦ create_in_slot host name password uid gid s
            ]
      ]
]

abbrev pub root_name : List ℕ
root_name = b'r' ∷ b'o' ∷ b'o' ∷ b't' ∷ []

abbrev pub root_password : List ℕ
root_password = b'r' ∷ b'o' ∷ b'o' ∷ b't' ∷ b'1' ∷ b'2' ∷ b'3' ∷ []

abbrev pub anonymous_name : List ℕ
anonymous_name = b'a' ∷ b'n' ∷ b'o' ∷ b'n' ∷ b'y' ∷ b'm' ∷ b'o' ∷ b'u' ∷ b's' ∷ []

-- `user_manager_init`
unfoldable pub user_manager_init : Host → FsState → UserStatus × FsState
user_manager_init host s =
    let (status, s') =
      create_user host (some root_name) (some root_password) root_uid root_gid
        (record s { users = replicate max_users zero_user }) in
    elim status [
      | success ↦
          let (status', s'') =
            create_user host (some anonymous_name) (some []) anonymous_uid anonymous_uid s' in
          elim status' [
            | success ↦ (success, record s'' { current_user_uid = root_uid })
            | other ↦ (other, s'')
          ]
      | other ↦ (other, s')
    ]

-- `user_manager_login`
unfoldable pub login : (username password : Option (List ℕ)) → FsState → UserStatus × FsState
login none password s = (invalid_param, s)
login (some name) none s = (invalid_param, s)
login (some name) (some password) s = elim (find_user_by_username s.users name) [
  | none ↦ (user_not_found, s)
  | some slot ↦
      let user = get_or s.users slot zero_user in
      if not user.is_active
      then (user_not_found, s)
      else if not (str_eq user.password_hash (hash_password password))
      then (wrong_password, s)
      else (success, record s { current_user_uid = user.uid })
]

-- `user_manager_logout`
unfoldable pub logout : FsState → UserStatus × FsState
logout s =
    if s.current_user_uid == anonymous_uid
    then (not_logged_in, s)
    else (success, record s { current_user_uid = anonymous_uid })

-- `user_manager_get_user_by_uid`, into a buffer that is not null; `none` is `USER_ERROR_USER_NOT_FOUND`.
unfoldable pub get_user_by_uid : FsState → ℕ → Option User
get_user_by_uid s uid = elim (find_user_by_uid s.users uid) [
  | none ↦ none
  | some slot ↦ some (get_or s.users slot zero_user)
]

-- `user_manager_get_user_by_name`, into a buffer that is not null
unfoldable pub get_user_by_name : FsState → List ℕ → Option User
get_user_by_name s username = elim (find_user_by_username s.users username) [
  | none ↦ none
  | some slot ↦ some (get_or s.users slot zero_user)
]

-- `user_manager_get_current_user`
unfoldable pub get_current_user : FsState → Option User
unfolding get_user_by_uid
get_current_user s = get_user_by_uid s s.current_user_uid

-- `user_manager_get_current_uid`
unfoldable pub get_current_uid : FsState → ℕ
get_current_uid s = s.current_user_uid

-- `user_manager_get_current_gid`
unfoldable pub get_current_gid : FsState → ℕ
unfolding get_current_user
get_current_gid s = elim (get_current_user s) [ none ↦ anonymous_uid | some u ↦ u.gid ]

-- `user_manager_check_permission`
unfoldable pub check_permission : FsState → Inode → (required : ℕ) → Bool
unfolding get_current_user check_permission_detailed
check_permission s inode required = elim (get_current_user s) [
  | none ↦ false
  | some u ↦
      check_permission_detailed u.uid u.gid inode.owner_uid inode.owner_gid inode.permissions
        required
]
