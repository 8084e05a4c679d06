-- ===== src/Shell/Guards.antt =====
-- Commands before the file system is initialised.
use caozuokeshe.Base.{ℕ, ◌≡◌, ◌≢◌, refl, ap, ◌∙◌, inl, inr, false, some, Option-cases, [], ◌∷◌}
use caozuokeshe.Disk.Host.{Host}
use caozuokeshe.Shell.Lines.{Line, Command, init_first, init_first_hint, not_initialized}
use caozuokeshe.Shell.Lines
use caozuokeshe.Shell.Text.{arg}
use caozuokeshe.Shell.State.{Shell, Args, checked, if_args, if_initialized, if_initialized-off}
use caozuokeshe.Shell.Control.{show_help, exit, show_status}
use caozuokeshe.Shell.UserCommands.{
  log_in, log_out, add_user, who_am_i, show_users, change_mode, change_owner,
}
use caozuokeshe.Shell.FileCommands.{
  create_named, open_named, close_fd, read_fd, write_fd, seek_fd, tell_fd, size_fd, list_fds,
}
use caozuokeshe.Shell.Session.{commands, find_command, handler, execute_command}

-- The file system, the flag and the input are as they were.
abbrev pub IsUntouched : Shell → Shell → Type 0
IsUntouched s t =
    (t.fs ≡ s.fs) × (t.system_initialized ≡ s.system_initialized) × (t.input ≡ s.input)

module _ (s : Shell) (e : s.system_initialized ≡ false) where
  refused : (refusal : Line) (body : Shell → Shell) → IsUntouched s (if_initialized refusal body s)
  refused refusal body =
      let same = if_initialized-off refusal body s e in
      (ap Shell.fs same, ap Shell.system_initialized same, ap Shell.input same)

  refused_args :
      (c : Command) (least : ℕ) (args : Args) (body : Shell → Shell)
      → IsUntouched s (checked c least args body s)
  unfolding checked
  refused_args c least args body = refused init_first (if_args c least args body)

  handler-IsUntouched :
      (host : Host) (c : Command) (args : Args)
      → c ≢ Lines.cmd_init
      → c ≢ Lines.cmd_format
      → IsUntouched s (handler c host args s)
  unfolding handler show_help exit show_status log_in log_out add_user who_am_i show_users
      change_mode change_owner create_named open_named close_fd read_fd write_fd seek_fd tell_fd
      size_fd list_fds
  handler-IsUntouched host Lines.cmd_help args ni nf = (refl, refl, refl)
  handler-IsUntouched host Lines.cmd_exit args ni nf = (refl, refl, refl)
  handler-IsUntouched host Lines.cmd_init args ni nf = absurd (ni refl)
  handler-IsUntouched host Lines.cmd_format args ni nf = absurd (nf refl)
  handler-IsUntouched host Lines.cmd_status args ni nf = refused not_initialized _
  handler-IsUntouched host Lines.cmd_login args ni nf = refused init_first_hint _
  handler-IsUntouched host Lines.cmd_logout args ni nf = refused init_first _
  handler-IsUntouched host Lines.cmd_adduser args ni nf = refused_args Lines.cmd_adduser 3 args _
  handler-IsUntouched host Lines.cmd_whoami args ni nf = refused init_first _
  handler-IsUntouched host Lines.cmd_users args ni nf = refused init_first _
  handler-IsUntouched host Lines.cmd_chmod args ni nf = refused_args Lines.cmd_chmod 3 args _
  handler-IsUntouched host Lines.cmd_chown args ni nf = refused_args Lines.cmd_chown 4 args _
  handler-IsUntouched host Lines.cmd_create args ni nf = refused_args Lines.cmd_create 2 args _
  handler-IsUntouched host Lines.cmd_open args ni nf = refused_args Lines.cmd_open 2 args _
  handler-IsUntouched host Lines.cmd_close args ni nf = refused_args Lines.cmd_close 2 args _
  handler-IsUntouched host Lines.cmd_read args ni nf = refused_args Lines.cmd_read 3 args _
  handler-IsUntouched host Lines.cmd_write args ni nf = refused_args Lines.cmd_write 3 args _
  handler-IsUntouched host Lines.cmd_seek args ni nf = refused_args Lines.cmd_seek 4 args _
  handler-IsUntouched host Lines.cmd_tell args ni nf = refused_args Lines.cmd_tell 2 args _
  handler-IsUntouched host Lines.cmd_size args ni nf = refused_args Lines.cmd_size 2 args _
  handler-IsUntouched host Lines.cmd_ls args ni nf = refused init_first _

-- While the file system is not initialised, `execute_command` leaves the file system, the flag and the
-- input as they are, whatever the arguments, unless the command is `init` or `format`.
pub execute_command-IsUntouched :
    (host : Host) (args : Args) (s : Shell)
    → s.system_initialized ≡ false
    → find_command commands (arg args 0) ≢ some Lines.cmd_init
    → find_command commands (arg args 0) ≢ some Lines.cmd_format
    → IsUntouched s (execute_command host args s)
unfolding execute_command
execute_command-IsUntouched host [] s e ni nf = (refl, refl, refl)
execute_command-IsUntouched host (name ∷ args) s e ni nf =
    elim (Option-cases (find_command commands name)) [
      | inl f ↦ rw (f, execute_command) (refl, refl, refl)
      | inr (c, f) ↦
          rw (f, execute_command)
            (handler-IsUntouched s e host c (name ∷ args) (λ z. absurd (ni (f ∙ ap some z)))
              (λ z. absurd (nf (f ∙ ap some z))))
    ]
