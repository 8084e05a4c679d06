-- ===== src/Shell/UserCommands.antt =====
-- The commands of main.c on users and permissions.
use caozuokeshe.Base.{ℕ, ◌%◌, ◌^◌, none, some, length, ltb, if◌then◌else◌, get_or}
use caozuokeshe.Errors.{ok, err}
use caozuokeshe.Disk.Host.{Host}
use caozuokeshe.Fs.State.{zero_handle}
use caozuokeshe.Users.Accounts.{
  UserStatus, success, user_not_found, wrong_password, user_exists, no_space, invalid_param, login,
  logout, create_user, get_current_user,
}
use caozuokeshe.Users.Owner.{chown, chmod}
use caozuokeshe.FileOps.Blocks.{validate_fd}
use caozuokeshe.Shell.Lines.{
  Line, cmd_login, cmd_adduser, cmd_chmod, cmd_chown, no_such_user, bad_password, name_taken,
  table_full, bad_argument, unknown_reason, init_first, init_first_hint, login_ok, login_failed,
  logout_ok, logout_failed, adduser_ok, adduser_failed, current_user, no_current_user,
  bad_descriptor, chmod_ok, chmod_failed, chown_ok, chown_failed,
}
use caozuokeshe.Shell.Text.{arg, atoi, strtol}
use caozuokeshe.Shell.State.{Shell, Args, say, say_all, with_fs, if_initialized, if_args, checked}
use caozuokeshe.Shell.Reports.{list_users}

abbrev login_line : UserStatus → Line
login_line result = elim result [
  | success ↦ login_ok
  | user_not_found ↦ login_failed no_such_user
  | wrong_password ↦ login_failed bad_password
  | _ ↦ login_failed unknown_reason
]

-- `cmd_login`
unfoldable pub log_in : Args → Shell → Shell
log_in args s =
    if_initialized init_first_hint
      (if_args cmd_login 3 args (λ t.
        let (result, fs') = login (some (arg args 1)) (some (arg args 2)) t.fs in
        say (login_line result) (with_fs fs' t)))
      s

abbrev logout_line : UserStatus → Line
logout_line result = elim result [ success ↦ logout_ok | _ ↦ logout_failed ]

-- `cmd_logout`
unfoldable pub log_out : Shell → Shell
log_out s =
    if_initialized init_first
      (λ t. let (result, fs') = logout t.fs in say (logout_line result) (with_fs fs' t)) s

abbrev adduser_line : UserStatus → Line
adduser_line result = elim result [
  | success ↦ adduser_ok
  | user_exists ↦ adduser_failed name_taken
  | no_space ↦ adduser_failed table_full
  | invalid_param ↦ adduser_failed bad_argument
  | _ ↦ adduser_failed unknown_reason
]

-- An argument that may be left out, and then is 0.
abbrev pub optional : Args → ℕ → ℕ
optional args i = if ltb i (length args) then atoi (arg args i) else 0

-- `cmd_adduser`
unfoldable pub add_user : Host → Args → Shell → Shell
add_user host args s =
    checked cmd_adduser 3 args
      (λ t.
        let (result, fs') =
          create_user host (some (arg args 1)) (some (arg args 2)) (optional args 3)
            (optional args 4) t.fs in
        say (adduser_line result) (with_fs fs' t))
      s

-- `cmd_whoami`
unfoldable pub who_am_i : Shell → Shell
who_am_i s =
    if_initialized init_first
      (λ t.
        say
          (elim (get_current_user t.fs) [
            | none ↦ no_current_user
            | some u ↦ current_user u.username u.uid u.gid
          ])
          t)
      s

-- `cmd_users`
unfoldable pub show_users : Shell → Shell
show_users s = if_initialized init_first (λ t. say_all (list_users t.fs) t) s

-- The middle of `cmd_chmod` and `cmd_chown`: the inode number of a descriptor that is valid.
unfoldable pub with_inode : (fd : ℕ) → (ℕ → Shell → Shell) → Shell → Shell
with_inode fd body s = elim (validate_fd fd s.fs).0 [
  | err _ ↦ say (bad_descriptor fd) s
  | ok _ ↦ body (get_or s.fs.open_files fd zero_handle).inode_number s
]

abbrev chmod_line : UserStatus → Line
chmod_line result = elim result [ success ↦ chmod_ok | _ ↦ chmod_failed ]

-- The end of `cmd_chmod`; `user_manager_chmod` takes the permissions as a `uint16_t`.
unfoldable pub set_mode : Host → (permissions inode_number : ℕ) → Shell → Shell
set_mode host permissions inode_number s =
    let (result, fs') = chmod host inode_number (permissions % 2 ^ 16) s.fs in
    say (chmod_line result) (with_fs fs' s)

-- `cmd_chmod`
unfoldable pub change_mode : Host → Args → Shell → Shell
unfolding with_inode set_mode
change_mode host args s =
    checked cmd_chmod 3 args
      (with_inode (atoi (arg args 1)) (set_mode host (strtol 8 (arg args 2) % 2 ^ 32))) s

abbrev chown_line : UserStatus → Line
chown_line result = elim result [ success ↦ chown_ok | _ ↦ chown_failed ]

-- The end of `cmd_chown`
unfoldable pub set_owner : Host → (uid gid inode_number : ℕ) → Shell → Shell
set_owner host uid gid inode_number s =
    let (result, fs') = chown host inode_number uid gid s.fs in
    say (chown_line result) (with_fs fs' s)

-- `cmd_chown`
unfoldable pub change_owner : Host → Args → Shell → Shell
unfolding with_inode set_owner
change_owner host args s =
    checked cmd_chown 4 args
      (with_inode (atoi (arg args 1)) (set_owner host (atoi (arg args 2)) (atoi (arg args 3)))) s
