-- ===== src/Shell/Outcomes.antt =====
-- What `init` and `format` leave, and what a command that fails prints.
use mathlib.Core.Path.{subst}
use caozuokeshe.Base.{
  ℕ, ◌≡◌, ◌≢◌, ◌⊎◌, refl, sym, ap, ◌∙◌, inl, inr, true, false, none, some, List, [], ◌∷◌, arith,
}
use caozuokeshe.Errors.{
  FsError, invalid_param, no_memory, no_space, file_not_found, file_exists, not_directory,
  is_directory, permission, file_open, too_many_open, io, corrupted, not_mounted, already_mounted,
  err, code, undefined,
}
use caozuokeshe.Layout.{zero_inode}
use caozuokeshe.Disk.Host.{Host}
use caozuokeshe.Disk.Block.{Disk, DiskStatus, success}
use caozuokeshe.Disk.Session.{disk_init}
use caozuokeshe.Users.Permission.{root_uid}
use caozuokeshe.Users.Accounts.{UserStatus, user_manager_init}
use caozuokeshe.Users.Accounts
use caozuokeshe.Users.Accounts.Initial.{check_permission-user_manager_init}
use caozuokeshe.Shell.Lines.{
  Line, ErrorText, about, error_to_string, int_of, initializing, disk_failed, checking,
  preparing_users, formatting, format_done, format_warning, format_confirm, already_initialized,
  cancelled,
}
use caozuokeshe.Shell.Text.{fgets}
use caozuokeshe.Shell.State.{Shell, say, say_all, with_fs, with_disk, with_input}
use caozuokeshe.Shell.Control.{
  format, check_format, finish_users, init_users, init_rest, init, disk_file, shell_disk_size,
  is_yes, answer, format_confirmed, ask_format,
}
use caozuokeshe.Shell.FileCommands.{value_or_error}

-- The shell is initialised and root is the current user.
abbrev pub IsRootSession : Shell → Type 0
IsRootSession s = (s.system_initialized ≡ true) × (s.fs.current_user_uid ≡ root_uid)

-- What `cmd_init` comes to from `s`, by what `disk_init` returned and the disk that it left.
abbrev pub InitOutcome : DiskStatus → Disk → Shell → Shell → Type 0
InitOutcome status d s t =
    ((status ≡ success) × IsRootSession t)
    ⊎ ((status ≢ success)
        × (t.system_initialized ≡ false)
        × (t ≡ say (disk_failed status) (with_disk d s)))

module _ (host : Host) where
  finish_users-IsRootSession :
      (status : UserStatus) (s : Shell)
      → status ≡ Accounts.success
      → s.fs.current_user_uid ≡ root_uid
      → IsRootSession (finish_users status s)
  unfolding finish_users
  finish_users-IsRootSession Accounts.success s e root = (refl, root)
  finish_users-IsRootSession _ s e root = cc

  init_users-IsRootSession : (s : Shell) → IsRootSession (init_users host s)
  unfolding init_users
  init_users-IsRootSession s =
      let (made, root, unknown, refused) =
        check_permission-user_manager_init host s.fs zero_inode 0 in
      let (status, fs') = user_manager_init host s.fs in
      finish_users-IsRootSession status (with_fs fs' s) made root

  init_rest-InitOutcome :
      (status : DiskStatus) (d : Disk) (s : Shell)
      → s.system_initialized ≡ false
      → InitOutcome status d s (init_rest host status (with_disk d s))
  unfolding init_rest
  init_rest-InitOutcome success d s off = inl (
    refl,
    init_users-IsRootSession
        (say preparing_users (check_format host (say checking (with_disk d s)))),
  )
  init_rest-InitOutcome _ d s off = inr (λ e. ground (arith, e), off, refl)

  init-off :
      (s : Shell)
      → s.system_initialized ≡ false
      → let (status, d) = disk_init host s.fs.disk (some disk_file) shell_disk_size in
        init host s ≡ init_rest host status (with_disk d (say initializing s))
  unfolding init
  init-off s off =
      let (status, d) = disk_init host s.fs.disk (some disk_file) shell_disk_size in
      ap
        (λ b. elim b [
          | true ↦ say already_initialized s
          | false ↦ init_rest host status (with_disk d (say initializing s))
        ])
        off

  format_confirmed-IsRootSession :
      (s : Shell) → s.system_initialized ≡ true → IsRootSession (format_confirmed host s)
  unfolding format_confirmed format
  format_confirmed-IsRootSession s on =
      let f = format host (say formatting s) in
      let (made, root, unknown, refused) =
        check_permission-user_manager_init host f.fs zero_inode 0 in
      let same : format_confirmed host s
          ≡ say format_done (with_fs (user_manager_init host f.fs).1 f) =
        ap
          (λ b.
            say format_done
              (elim b [ true ↦ with_fs (user_manager_init host f.fs).1 f | false ↦ f ]))
          on in
      subst IsRootSession (sym same) (on, root)

  answer-yes :
      (response : List ℕ) (s : Shell)
      → is_yes response ≡ true
      → answer host response s ≡ format_confirmed host s
  unfolding answer
  answer-yes response s e =
      ap (λ b. elim b [ true ↦ format_confirmed host s | false ↦ say cancelled s ]) e

-- `init` in a shell that is not initialised: either `disk_init` succeeds, and the shell is initialised
-- with root as the current user; or it fails, the shell is not initialised, and all that has changed is
-- the disk, which is as `disk_init` leaves it, and the output, to which two messages are added: that the
-- file system is being initialised, and that the disk failed, and how. This holds on every host and for
-- every disk, formatted or not.
pub init-InitOutcome :
    (host : Host) (s : Shell)
    → s.system_initialized ≡ false
    → let (status, d) = disk_init host s.fs.disk (some disk_file) shell_disk_size in
      InitOutcome status d (say initializing s) (init host s)
init-InitOutcome host s off =
    let (status, d) = disk_init host s.fs.disk (some disk_file) shell_disk_size in
    subst (InitOutcome status d (say initializing s)) (sym (init-off host s off))
      (init_rest-InitOutcome host status d (say initializing s) off)

-- `format` with the answer yes in an initialised shell makes root the current user, whoever was it
-- before, on every host and whether or not the disk could be formatted.
pub ask_format-IsRootSession :
    (host : Host) (s : Shell) (r : List ℕ × List ℕ)
    → s.system_initialized ≡ true
    → fgets 10 s.input ≡ some r
    → is_yes r.0 ≡ true
    → IsRootSession (ask_format host s)
unfolding ask_format
ask_format-IsRootSession host s r on read confirmed =
    let asked = say_all (format_warning ∷ format_confirm ∷ []) s in
    let answered : ask_format host s ≡ answer host r.0 (with_input r.1 asked) =
      ap
        (λ o. elim o [
          | none ↦ say cancelled asked
          | some x ↦ answer host x.0 (with_input x.1 asked)
        ])
        read in
    subst IsRootSession (sym (answered ∙ answer-yes host r.0 (with_input r.1 asked) confirmed))
      (format_confirmed-IsRootSession host (with_input r.1 asked) on)

-- A command that shows the `int` that a function has returned takes no error of the code for a value,
-- and the text that it shows is that of the error returned.
pub value_or_error-err :
    (good : ℕ → Line) (bad : ErrorText → Line) (e : FsError)
    → e ≢ undefined
    → value_or_error good bad (int_of (err e)) ≡ bad (about e)
unfolding int_of error_to_string code
value_or_error-err good bad invalid_param ne = refl
value_or_error-err good bad no_memory ne = refl
value_or_error-err good bad no_space ne = refl
value_or_error-err good bad file_not_found ne = refl
value_or_error-err good bad file_exists ne = refl
value_or_error-err good bad not_directory ne = refl
value_or_error-err good bad is_directory ne = refl
value_or_error-err good bad permission ne = refl
value_or_error-err good bad file_open ne = refl
value_or_error-err good bad too_many_open ne = refl
value_or_error-err good bad io ne = refl
value_or_error-err good bad corrupted ne = refl
value_or_error-err good bad not_mounted ne = refl
value_or_error-err good bad already_mounted ne = refl
value_or_error-err good bad undefined ne = absurd (ne refl)
