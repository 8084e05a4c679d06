-- ===== src/Shell/Advance/Rounds.antt =====
-- The commands on the system, and rounds of the main loop, advance the shell.
use mathlib.Core.Path.{subst}
use caozuokeshe.Base.{
  ℕ, zero, suc, ◌-◌, ◌<◌, ◌≤◌, ◌≡◌, refl, inl, inr, Bool, true, false, none, some, Option-cases,
  List, [], ◌∷◌, arith, length, ◌==◌, Bool-cases,
}
use caozuokeshe.Layout.{decode_superblock, fs_magic_number}
use caozuokeshe.Disk.Host.{Host}
use caozuokeshe.Disk.Block.{Disk, DiskStatus, success, read_block}
use caozuokeshe.Disk.Session.{disk_init, disk_close}
use caozuokeshe.Users.Accounts.{UserStatus, user_manager_init, logout}
use caozuokeshe.Users.Accounts
use caozuokeshe.System.Steps.{file, formatted, disk_changed, done, logged_out, accounts_reset}
use caozuokeshe.Shell.Lines.{
  Line, Command, not_initialized, checking, preparing_users, initializing, formatting,
  already_initialized, bad_format, needs_format, format_done, cancelled, format_warning,
  format_confirm, goodbye, cleaning_up,
}
use caozuokeshe.Shell.Lines
use caozuokeshe.Shell.Text.{fgets, read_line}
use caozuokeshe.Shell.State.{Shell, Args, say, say_all, with_fs, with_disk, with_input}
use caozuokeshe.Shell.Control.{
  show_help, exit, format, format_if_needed, finish_users, check_format, init_users, init_rest,
  init, format_confirmed, answer, is_yes, ask_format, show_status, disk_file, shell_disk_size,
}
use caozuokeshe.Shell.Session.{find_command, commands, handler, execute_command, cleanup_and_exit}
use caozuokeshe.Shell.Advance.{
  Advance, Advance-trans, one_call-Advance, print-Advance, still-Advance, if_initialized-Advance,
}
use caozuokeshe.Shell.Advance.Commands.{
  create_named-Advance, open_named-Advance, close_fd-Advance, read_fd-Advance, write_fd-Advance,
  seek_fd-Advance, tell_fd-Advance, size_fd-Advance, list_fds-Advance, log_in-Advance,
  log_out-Advance, add_user-Advance, who_am_i-Advance, show_users-Advance, change_mode-Advance,
  change_owner-Advance,
}

module _ (host : Host) where
  disk-Advance : (s : Shell) (d : Disk) → Advance host s (with_disk d s)
  disk-Advance s d = one_call-Advance (file (disk_changed s.fs d)) refl refl

  format-Advance : (s : Shell) → Advance host s (format host s)
  unfolding format
  format-Advance s = one_call-Advance (file (formatted s.fs)) refl refl

  format_if_needed-Advance :
      (status : DiskStatus) (block : List ℕ) (s : Shell)
      → Advance host s (format_if_needed host status block s)
  unfolding format_if_needed
  format_if_needed-Advance success block s =
      elim (Bool-cases ((decode_superblock block).magic_number == fs_magic_number)) [
        | inl e ↦ rw (e, format_if_needed) (print-Advance s _)
        | inr e ↦
            rw (e, format_if_needed)
              (Advance-trans (print-Advance s _) (format-Advance (say bad_format s)))
      ]
  format_if_needed-Advance _ block s =
      Advance-trans (print-Advance s _) (format-Advance (say needs_format s))

  check_format-Advance : (s : Shell) → Advance host s (check_format host s)
  unfolding check_format
  check_format-Advance s =
      let (status, block, d) = read_block host s.fs.disk 0 in
      Advance-trans (disk-Advance s d) (format_if_needed-Advance status block (with_disk d s))

  finish_users-Advance : (status : UserStatus) (s : Shell) → Advance host s (finish_users status s)
  unfolding finish_users
  finish_users-Advance Accounts.success s = record {
    run = done;
    shorter = omega arith;
    stays = λ e. refl;
  }
  finish_users-Advance _ s = print-Advance s _

  accounts-Advance : (s : Shell) → Advance host s (with_fs (user_manager_init host s.fs).1 s)
  accounts-Advance s = one_call-Advance (accounts_reset s.fs) refl refl

  init_users-Advance : (s : Shell) → Advance host s (init_users host s)
  unfolding init_users
  init_users-Advance s =
      let (status, fs') = user_manager_init host s.fs in
      Advance-trans (accounts-Advance s) (finish_users-Advance status (with_fs fs' s))

  init_rest-Advance : (status : DiskStatus) (s : Shell) → Advance host s (init_rest host status s)
  unfolding init_rest
  init_rest-Advance success s =
      let t = check_format host (say checking s) in
      Advance-trans (print-Advance s _) (
        Advance-trans (check_format-Advance (say checking s))
          (Advance-trans (print-Advance t _) (init_users-Advance (say preparing_users t))))
  init_rest-Advance _ s = print-Advance s _

  init-Advance : (s : Shell) → Advance host s (init host s)
  unfolding init
  init-Advance s =
      let (status, d) = disk_init host s.fs.disk (some disk_file) shell_disk_size in
      let t = with_disk d (say initializing s) in
      go s.system_initialized (
        Advance-trans (print-Advance s _)
          (Advance-trans (disk-Advance (say initializing s) d) (init_rest-Advance status t)))
    where
      go :
          (b : Bool) {t : Shell}
          → Advance host s t
          → Advance host s (elim b [ true ↦ say already_initialized s | false ↦ t ])
      go true a = print-Advance s _
      go false a = a

  format_confirmed-Advance : (s : Shell) → Advance host s (format_confirmed host s)
  unfolding format_confirmed
  format_confirmed-Advance s =
      let t = format host (say formatting s) in
      Advance-trans (Advance-trans (print-Advance s _) (format-Advance (say formatting s)))
        (go t.system_initialized t)
    where
      go :
          (b : Bool) (t : Shell)
          → Advance host t (
              say format_done
                (elim b [ true ↦ with_fs (user_manager_init host t.fs).1 t | false ↦ t ]))
      go true t = one_call-Advance (accounts_reset t.fs) refl refl
      go false t = print-Advance t _

  answer-Advance : (response : List ℕ) (s : Shell) → Advance host s (answer host response s)
  unfolding answer
  answer-Advance response s = elim (Bool-cases (is_yes response)) [
    | inl e ↦ rw (e, answer) (format_confirmed-Advance s)
    | inr e ↦ rw (e, answer) (print-Advance s _)
  ]

  read_line-shorter : (room : ℕ) (input : List ℕ) → length (read_line room input).1 ≤ length input
  unfolding read_line
  read_line-shorter zero input = omega arith
  read_line-shorter (suc room) [] = omega arith
  read_line-shorter (suc room) (c ∷ input) = ground (arith, read_line-shorter room input)

  read_line-less :
      (room c : ℕ) (input : List ℕ)
      → 0 < room
      → length (read_line room (c ∷ input)).1 < suc (length input)
  unfolding read_line
  read_line-less zero c input h = absurd (omega arith)
  read_line-less (suc room) c input h = ground (arith, read_line-shorter room input)

  -- A line that is read takes at least one byte.
  pub fgets-shorter :
      (size : ℕ) (input : List ℕ) (r : List ℕ × List ℕ)
      → 1 < size
      → fgets size input ≡ some r
      → length r.1 < length input
  unfolding fgets
  fgets-shorter size [] r h e = cc
  fgets-shorter size (c ∷ input) r h e =
      subst
        (λ o. elim o as (λ p. Type 0) [
          | none ↦ Unit {0}
          | some p ↦ length p.1 < suc (length input)
        ])
        e (read_line-less (size - 1) c input (omega arith))

  pub fgets-none : (size : ℕ) (input : List ℕ) → fgets size input ≡ none → input ≡ []
  unfolding fgets
  fgets-none size [] e = refl
  fgets-none size (c ∷ input) e = cc

  pub read-Advance :
      (size : ℕ) (s : Shell) (r : List ℕ × List ℕ)
      → 1 < size
      → fgets size s.input ≡ some r
      → Advance host s (with_input r.1 s)
  read-Advance size s r h e = record {
    run = done;
    shorter = omega (arith, fgets-shorter size s.input r h e);
    stays = λ i. i;
  }

  ask_format-Advance : (s : Shell) → Advance host s (ask_format host s)
  unfolding ask_format
  ask_format-Advance s =
      let asked = say_all (format_warning ∷ format_confirm ∷ []) s in
      elim (Option-cases (fgets 10 asked.input)) [
        | inl e ↦ rw (e, ask_format) (print-Advance s _)
        | inr (r, e) ↦
            rw (e, ask_format)
              (Advance-trans (print-Advance s _) (
                Advance-trans (read-Advance 10 asked r (omega arith) e)
                  (answer-Advance r.0 (with_input r.1 asked))))
      ]

  pub handler-Advance :
      (command : Command) (args : Args) (s : Shell) → Advance host s (handler command host args s)
  unfolding handler show_help exit show_status
  handler-Advance Lines.cmd_help args s = print-Advance s _
  handler-Advance Lines.cmd_exit args s = still-Advance refl refl refl
  handler-Advance Lines.cmd_init args s = init-Advance s
  handler-Advance Lines.cmd_format args s = ask_format-Advance s
  handler-Advance Lines.cmd_status args s =
      if_initialized-Advance not_initialized _ s (print-Advance s _)
  handler-Advance Lines.cmd_login args s = log_in-Advance host args s
  handler-Advance Lines.cmd_logout args s = log_out-Advance host args s
  handler-Advance Lines.cmd_adduser args s = add_user-Advance host args s
  handler-Advance Lines.cmd_whoami args s = who_am_i-Advance host args s
  handler-Advance Lines.cmd_users args s = show_users-Advance host args s
  handler-Advance Lines.cmd_chmod args s = change_mode-Advance host args s
  handler-Advance Lines.cmd_chown args s = change_owner-Advance host args s
  handler-Advance Lines.cmd_create args s = create_named-Advance host args s
  handler-Advance Lines.cmd_open args s = open_named-Advance host args s
  handler-Advance Lines.cmd_close args s = close_fd-Advance host args s
  handler-Advance Lines.cmd_read args s = read_fd-Advance host args s
  handler-Advance Lines.cmd_write args s = write_fd-Advance host args s
  handler-Advance Lines.cmd_seek args s = seek_fd-Advance host args s
  handler-Advance Lines.cmd_tell args s = tell_fd-Advance host args s
  handler-Advance Lines.cmd_size args s = size_fd-Advance host args s
  handler-Advance Lines.cmd_ls args s = list_fds-Advance host args s

  pub execute_command-Advance :
      (args : Args) (s : Shell) → Advance host s (execute_command host args s)
  unfolding execute_command
  execute_command-Advance [] s = still-Advance refl refl refl
  execute_command-Advance (name ∷ args) s = elim (Option-cases (find_command commands name)) [
    | inl e ↦ rw (e, execute_command) (print-Advance s _)
    | inr (c, e) ↦ rw (e, execute_command) (handler-Advance c (name ∷ args) s)
  ]

  pub cleanup-Advance : (s : Shell) → Advance host s (cleanup_and_exit host s)
  unfolding cleanup_and_exit
  cleanup-Advance s = go s.system_initialized
    where
      go :
          (b : Bool)
          → Advance host s (
              say goodbye (elim b [
                | false ↦ s
                | true ↦
                    let t = with_fs (logout s.fs).1 (say cleaning_up s) in
                    with_disk (disk_close host t.fs.disk).1 t
              ]))
      go false = print-Advance s _
      go true =
          let t = with_fs (logout s.fs).1 (say cleaning_up s) in
          Advance-trans (one_call-Advance {s = s} {t = t} (logged_out s.fs) refl refl)
            (one_call-Advance (file (disk_changed t.fs (disk_close host t.fs.disk).1)) refl refl)
