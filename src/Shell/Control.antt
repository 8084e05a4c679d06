-- ===== src/Shell/Control.antt =====
-- The commands of main.c on the system: `cmd_help`, `cmd_exit`, `cmd_init`, `cmd_format` and
-- `cmd_status`. What a handler returns is left out, since `main` does not look at it.
use caozuokeshe.Base.{
  ℕ, ◌*◌, Bool, true, false, none, some, List, [], ◌∷◌, ◌==◌, if◌then◌else◌, get_or,
}
use caozuokeshe.Layout.{decode_superblock, fs_magic_number}
use caozuokeshe.Disk.Host.{Host}
use caozuokeshe.Disk.Block.{DiskStatus, success, read_block}
use caozuokeshe.Disk.Session.{disk_init}
use caozuokeshe.Fs.Format.{format_disk}
use caozuokeshe.Users.Accounts.{UserStatus, user_manager_init}
use caozuokeshe.Users.Accounts
use caozuokeshe.Shell.Lines.{
  help_text, already_initialized, initializing, disk_failed, checking, needs_format, bad_format,
  good_format, preparing_users, users_failed, init_done, login_hint, format_warning, format_confirm,
  cancelled, formatting, format_done, not_initialized,
}
use caozuokeshe.Shell.Text.{fgets}
use caozuokeshe.Shell.State.{Shell, say, say_all, with_fs, with_disk, with_input, if_initialized}
use caozuokeshe.Shell.Reports.{print_status}

-- The file `filesystem.img`, of 32 MB.
abbrev pub disk_file : List ℕ
disk_file =
    b'f' ∷ b'i' ∷ b'l' ∷ b'e' ∷ b's' ∷ b'y' ∷ b's' ∷ b't' ∷ b'e' ∷ b'm' ∷ b'.' ∷ b'i' ∷ b'm' ∷ b'g'
    ∷ []

abbrev pub shell_disk_size : ℕ
shell_disk_size = 32 * 1024 * 1024

-- `cmd_help`, which prints a text that is always the same.
unfoldable pub show_help : Shell → Shell
show_help s = say help_text s

-- `cmd_exit`
unfoldable pub exit : Shell → Shell
exit s = record s { shell_running = false }

-- `format_disk` called for its effect.
unfoldable pub format : Host → Shell → Shell
format host s = with_fs (format_disk host s.fs).1 s

-- What `cmd_init` does with block 0 as it has read it: it looks for the file system's magic number,
-- and formats the disk where it is not.
unfoldable pub format_if_needed : Host → DiskStatus → (block : List ℕ) → Shell → Shell
unfolding format
format_if_needed host success block s =
    elim ((decode_superblock block).magic_number == fs_magic_number) [
      | false ↦ format host (say bad_format s)
      | true ↦ say good_format s
    ]
format_if_needed host _ block s = format host (say needs_format s)

unfoldable pub check_format : Host → Shell → Shell
unfolding format_if_needed
check_format host s =
    let (status, bytes, d) = read_block host s.fs.disk 0 in
    format_if_needed host status bytes (with_disk d s)

-- The end of `cmd_init`, by what `user_manager_init` has returned.
unfoldable pub finish_users : UserStatus → Shell → Shell
finish_users Accounts.success s =
    say_all (init_done ∷ login_hint ∷ []) (record s { system_initialized = true })
finish_users _ s = say users_failed s

-- `cmd_init` sets up the users.
unfoldable pub init_users : Host → Shell → Shell
unfolding finish_users
init_users host s =
    let (status, fs') = user_manager_init host s.fs in finish_users status (with_fs fs' s)

-- The middle of `cmd_init`, by what `disk_init` has returned.
unfoldable pub init_rest : Host → DiskStatus → Shell → Shell
unfolding check_format init_users
init_rest host success s =
    init_users host (say preparing_users (check_format host (say checking s)))
init_rest host other s = say (disk_failed other) s

-- `cmd_init`
unfoldable pub init : Host → Shell → Shell
unfolding init_rest
init host s = elim s.system_initialized [
  | true ↦ say already_initialized s
  | false ↦
      let (status, d) = disk_init host s.fs.disk (some disk_file) shell_disk_size in
      init_rest host status (with_disk d (say initializing s))
]

-- The answer to the question of `cmd_format`.
abbrev pub is_yes : List ℕ → Bool
is_yes response = if get_or response 0 0 == b'y' then true else get_or response 0 0 == b'Y'

-- `cmd_format` once it is confirmed.
unfoldable pub format_confirmed : Host → Shell → Shell
unfolding format
format_confirmed host s =
    let formatted = format host (say formatting s) in
    say format_done (elim formatted.system_initialized [
      | true ↦ with_fs (user_manager_init host formatted.fs).1 formatted
      | false ↦ formatted
    ])

-- What `cmd_format` does with the answer it has read.
unfoldable pub answer : Host → (response : List ℕ) → Shell → Shell
unfolding format_confirmed
answer host response s = elim (is_yes response) [
  | true ↦ format_confirmed host s
  | false ↦ say cancelled s
]

-- `cmd_format`
unfoldable pub ask_format : Host → Shell → Shell
unfolding answer
ask_format host s =
    let asked = say_all (format_warning ∷ format_confirm ∷ []) s in
    elim (fgets 10 asked.input) [
      | none ↦ say cancelled asked
      | some r ↦ answer host r.0 (with_input r.1 asked)
    ]

-- `cmd_status`
unfoldable pub show_status : Shell → Shell
show_status s = if_initialized not_initialized (λ t. say_all (print_status t.fs) t) s
