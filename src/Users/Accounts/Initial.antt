-- ===== src/Users/Accounts/Initial.antt =====
-- About the user table that `user_manager_init` leaves.
use caozuokeshe.Base.{ℕ, ◌≡◌, refl, false, none, some, List, str_eq}
use caozuokeshe.Layout.{Inode}
use caozuokeshe.Disk.Host.{Host}
use caozuokeshe.Fs.State.{FsState}
use caozuokeshe.Users.Password.{hash_password}
use caozuokeshe.Users.Accounts.{
  success, wrong_password, user_manager_init, create_user, login, check_permission,
  find_user_by_uid, find_user_by_username, get_next_available_uid, find_free_user_slot, root_name,
  root_password, anonymous_name,
}

-- `user_manager_init` succeeds and takes user 0 for logged in, but no user of the table has the uid
-- 0, and `user_manager_check_permission` then refuses every permission on every inode.
pub check_permission-user_manager_init :
    (host : Host) (s : FsState) (inode : Inode) (required : ℕ)
    → let (status, s') = user_manager_init host s in
      (status ≡ success)
      × (s'.current_user_uid ≡ 0)
      × (find_user_by_uid s'.users 0 ≡ none)
      × (check_permission s' inode required ≡ false)
unfolding user_manager_init create_user find_user_by_uid find_user_by_username find_free_user_slot
    get_next_available_uid check_permission str_eq hash_password
check_permission-user_manager_init host s inode required = (refl, refl, refl, refl)

-- After `user_manager_init`, logging in as root with root's password succeeds and makes user 1000 the
-- current one.
pub login-user_manager_init :
    (host : Host) (s : FsState)
    → let (status, s') = login (some root_name) (some root_password) (user_manager_init host s).1 in
      (status ≡ success) × (s'.current_user_uid ≡ 1000)
unfolding user_manager_init create_user find_user_by_uid find_user_by_username find_free_user_slot
    get_next_available_uid str_eq hash_password login
login-user_manager_init host s = (refl, refl)

-- After `user_manager_init`, a login as the anonymous user fails for a wrong password and changes
-- nothing, whatever the password, the empty one included.
pub login-anonymous :
    (host : Host) (s : FsState) (password : List ℕ)
    → let s' = (user_manager_init host s).1 in
      login (some anonymous_name) (some password) s' ≡ (wrong_password, s')
unfolding user_manager_init create_user find_user_by_uid find_user_by_username find_free_user_slot
    get_next_available_uid str_eq hash_password login
login-anonymous host s password = refl
