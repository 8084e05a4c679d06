-- ===== src/Shell/Advance/Commands.antt =====
-- Every handler advances the shell.
use caozuokeshe.Base.{
  ℕ, ◌%◌, ◌^◌, ◌≡◌, refl, sym, ap, inl, inr, ◌||◌, some, length, ltb, Bool-cases, get_or,
}
use caozuokeshe.Errors.{Result-cases}
use caozuokeshe.Disk.Host.{Host}
use caozuokeshe.Disk.Block.{called, not_positive}
use caozuokeshe.Fs.State.{FsState, zero_handle, M, ◌>>=◌, get, pure, bind-ok, bind-err}
use caozuokeshe.FileOps.Blocks.{validate_fd, validate_fd-cases}
use caozuokeshe.FileOps.Position.{fs_tell}
use caozuokeshe.System.Steps.{
  file, created, opened, closed, wrote, did_read, sought, sized, owner_changed, mode_changed,
  disk_changed, account_added, logged_in, logged_out,
}
use caozuokeshe.Shell.Lines.{
  cmd_create, cmd_open, cmd_close, cmd_read, cmd_write, cmd_seek, cmd_tell, cmd_size, cmd_adduser,
  cmd_login, cmd_chmod, cmd_chown, init_first, init_first_hint,
}
use caozuokeshe.Shell.Text.{arg, atoi, strtol}
use caozuokeshe.Shell.State.{Shell, Args, with_disk}
use caozuokeshe.Shell.UserCommands.{
  log_in, log_out, add_user, who_am_i, show_users, with_inode, set_mode, set_owner, change_mode,
  change_owner, optional,
}
use caozuokeshe.Shell.FileCommands.{
  create_named, open_named, close_fd, read_bytes, read_fd, write_fd, seek_fd, tell_fd, size_fd,
  list_fds, text_of,
}
use caozuokeshe.Shell.Advance.{
  Advance, Advance-trans, one_call-Advance, print-Advance, still-Advance, if_initialized-Advance,
  if_args-Advance, checked-Advance,
}

-- `fs_tell` leaves the state.
fs_tell-state : (fd : ℕ) (s : FsState) → (fs_tell fd s).1 ≡ s
unfolding fs_tell
fs_tell-state fd s =
    let rest : M ℕ =
      get >>= λ t. pure ((get_or t.open_files fd zero_handle).file_position % 2 ^ 32) in
    elim (validate_fd-cases fd s) [
      | inl e ↦ ap (λ r. r.1) (bind-ok (validate_fd fd) (λ _. rest) s e)
      | inr e ↦ ap (λ r. r.1) (bind-err (validate_fd fd) (λ _. rest) s e)
    ]

module _ (host : Host) (args : Args) (s : Shell) where
  abbrev fd : ℕ
  fd = atoi (arg args 1)

  pub create_named-Advance : Advance host s (create_named host args s)
  unfolding create_named
  create_named-Advance =
      checked-Advance cmd_create 2 args _ s
        (one_call-Advance (file (created s.fs (some (arg args 1)))) refl refl)

  pub open_named-Advance : Advance host s (open_named host args s)
  unfolding open_named
  open_named-Advance =
      checked-Advance cmd_open 2 args _ s
        (one_call-Advance (file (opened s.fs (some (arg args 1)))) refl refl)

  pub close_fd-Advance : Advance host s (close_fd args s)
  unfolding close_fd
  close_fd-Advance =
      checked-Advance cmd_close 2 args _ s (one_call-Advance (file (closed s.fs fd)) refl refl)

  pub write_fd-Advance : Advance host s (write_fd host args s)
  unfolding write_fd
  write_fd-Advance = checked-Advance cmd_write 3 args _ s (
      one_call-Advance (file (wrote s.fs fd (some (text_of args)) (length (text_of args)))) refl
        refl)

  pub seek_fd-Advance : Advance host s (seek_fd host args s)
  unfolding seek_fd
  seek_fd-Advance =
      checked-Advance cmd_seek 4 args _ s
        (one_call-Advance (file (sought s.fs fd (atoi (arg args 2)) (atoi (arg args 3)))) refl refl)

  pub size_fd-Advance : Advance host s (size_fd host args s)
  unfolding size_fd
  size_fd-Advance =
      checked-Advance cmd_size 2 args _ s (one_call-Advance (file (sized s.fs fd)) refl refl)

  pub add_user-Advance : Advance host s (add_user host args s)
  unfolding add_user
  add_user-Advance = checked-Advance cmd_adduser 3 args _ s (
      one_call-Advance
        (account_added s.fs (some (arg args 1)) (some (arg args 2)) (optional args 3)
          (optional args 4))
        refl refl)

  pub log_in-Advance : Advance host s (log_in args s)
  unfolding log_in
  log_in-Advance = if_initialized-Advance init_first_hint _ s (
      if_args-Advance cmd_login 3 args _ s
        (one_call-Advance (logged_in s.fs (some (arg args 1)) (some (arg args 2))) refl refl))

  pub log_out-Advance : Advance host s (log_out s)
  unfolding log_out
  log_out-Advance =
      if_initialized-Advance init_first _ s (one_call-Advance (logged_out s.fs) refl refl)

  pub who_am_i-Advance : Advance host s (who_am_i s)
  unfolding who_am_i
  who_am_i-Advance = if_initialized-Advance init_first _ s (print-Advance s _)

  pub show_users-Advance : Advance host s (show_users s)
  unfolding show_users
  show_users-Advance = if_initialized-Advance init_first _ s (print-Advance s _)

  pub list_fds-Advance : Advance host s (list_fds s)
  unfolding list_fds
  list_fds-Advance = if_initialized-Advance init_first _ s (print-Advance s _)

  pub tell_fd-Advance : Advance host s (tell_fd args s)
  unfolding tell_fd
  tell_fd-Advance =
      checked-Advance cmd_tell 2 args _ s (still-Advance (sym (fs_tell-state fd s.fs)) refl refl)

  pub read_bytes-Advance : (fd bytes : ℕ) → Advance host s (read_bytes host fd bytes s)
  unfolding read_bytes
  read_bytes-Advance fd bytes =
      let d = called s.fs.disk in
      let counted = with_disk d s in
      elim (Bool-cases (not_positive bytes || ltb 1024 bytes)) [
        | inl e ↦ rw (e, read_bytes) (print-Advance s _)
        | inr e ↦ elim (Bool-cases (host.alloc_ok s.fs.disk.calls)) [
          | inl a ↦
              rw (e, a, read_bytes)
                (Advance-trans {t = counted}
                  (one_call-Advance (file (disk_changed s.fs d)) refl refl)
                  (one_call-Advance (file (did_read counted.fs fd bytes)) refl refl))
          | inr a ↦ rw (e, a, read_bytes) (one_call-Advance (file (disk_changed s.fs d)) refl refl)
        ]
      ]

  pub read_fd-Advance : Advance host s (read_fd host args s)
  unfolding read_fd
  read_fd-Advance = checked-Advance cmd_read 3 args _ s (read_bytes-Advance fd (atoi (arg args 2)))

  with_inode-Advance :
      (fd : ℕ) (body : ℕ → Shell → Shell)
      → ((n : ℕ) → Advance host s (body n s))
      → Advance host s (with_inode fd body s)
  unfolding with_inode
  with_inode-Advance fd body a = elim (Result-cases (validate_fd fd s.fs).0) [
    | inl (u, e) ↦ rw (e, with_inode) (a (get_or s.fs.open_files fd zero_handle).inode_number)
    | inr (x, e) ↦ rw (e, with_inode) (print-Advance s _)
  ]

  pub change_mode-Advance : Advance host s (change_mode host args s)
  unfolding change_mode
  change_mode-Advance =
      let mode = strtol 8 (arg args 2) % 2 ^ 32 in
      checked-Advance cmd_chmod 3 args _ s (
        with_inode-Advance fd (set_mode host mode)
          (λ n. one_call-Advance (file (mode_changed s.fs n (mode % 2 ^ 16))) refl refl))

  pub change_owner-Advance : Advance host s (change_owner host args s)
  unfolding change_owner
  change_owner-Advance =
      let uid = atoi (arg args 2) in
      let gid = atoi (arg args 3) in
      checked-Advance cmd_chown 4 args _ s (
        with_inode-Advance fd (set_owner host uid gid)
          (λ n. one_call-Advance (file (owner_changed s.fs n uid gid)) refl refl))
