-- ===== src/Shell/Session.antt =====
-- The command table, `execute_command`, `cleanup_and_exit` and `main` of main.c.
use caozuokeshe.Base.{
  ℕ, zero, suc, true, false, Option, none, some, List, [], ◌∷◌, length, if◌then◌else◌, str_eq,
  c_string,
}
use caozuokeshe.Disk.Host.{Host}
use caozuokeshe.Disk.Session.{disk_close}
use caozuokeshe.Users.Accounts.{logout}
use caozuokeshe.Shell.Lines.{
  Command, cmd_help, cmd_exit, cmd_init, cmd_format, cmd_status, cmd_login, cmd_logout, cmd_adduser,
  cmd_whoami, cmd_users, cmd_chmod, cmd_chown, cmd_create, cmd_open, cmd_close, cmd_read, cmd_write,
  cmd_seek, cmd_tell, cmd_size, cmd_ls, welcome, unknown_command, see_help, cleaning_up, goodbye,
}
use caozuokeshe.Shell.Text.{fgets, strip_newline, parse_command, max_input_length}
use caozuokeshe.Shell.State.{Shell, Args, say, say_all, with_fs, with_disk, with_input}
use caozuokeshe.Shell.Reports.{show_prompt}
use caozuokeshe.Shell.Control.{show_help, exit, init, ask_format, show_status}
use caozuokeshe.Shell.UserCommands.{
  log_in, log_out, add_user, who_am_i, show_users, change_mode, change_owner,
}
use caozuokeshe.Shell.FileCommands.{
  create_named, open_named, close_fd, read_fd, write_fd, seek_fd, tell_fd, size_fd, list_fds,
}

-- The table `commands`: the names with their handlers.
abbrev pub commands : List (List ℕ × Command)
commands =
    (b'h' ∷ b'e' ∷ b'l' ∷ b'p' ∷ [], cmd_help)
    ∷ (b'e' ∷ b'x' ∷ b'i' ∷ b't' ∷ [], cmd_exit)
    ∷ (b'q' ∷ b'u' ∷ b'i' ∷ b't' ∷ [], cmd_exit)
    ∷ (b'i' ∷ b'n' ∷ b'i' ∷ b't' ∷ [], cmd_init)
    ∷ (b'f' ∷ b'o' ∷ b'r' ∷ b'm' ∷ b'a' ∷ b't' ∷ [], cmd_format)
    ∷ (b's' ∷ b't' ∷ b'a' ∷ b't' ∷ b'u' ∷ b's' ∷ [], cmd_status)
    ∷ (b'l' ∷ b'o' ∷ b'g' ∷ b'i' ∷ b'n' ∷ [], cmd_login)
    ∷ (b'l' ∷ b'o' ∷ b'g' ∷ b'o' ∷ b'u' ∷ b't' ∷ [], cmd_logout)
    ∷ (b'a' ∷ b'd' ∷ b'd' ∷ b'u' ∷ b's' ∷ b'e' ∷ b'r' ∷ [], cmd_adduser)
    ∷ (b'w' ∷ b'h' ∷ b'o' ∷ b'a' ∷ b'm' ∷ b'i' ∷ [], cmd_whoami)
    ∷ (b'u' ∷ b's' ∷ b'e' ∷ b'r' ∷ b's' ∷ [], cmd_users)
    ∷ (b'c' ∷ b'h' ∷ b'm' ∷ b'o' ∷ b'd' ∷ [], cmd_chmod)
    ∷ (b'c' ∷ b'h' ∷ b'o' ∷ b'w' ∷ b'n' ∷ [], cmd_chown)
    ∷ (b'c' ∷ b'r' ∷ b'e' ∷ b'a' ∷ b't' ∷ b'e' ∷ [], cmd_create)
    ∷ (b'o' ∷ b'p' ∷ b'e' ∷ b'n' ∷ [], cmd_open)
    ∷ (b'c' ∷ b'l' ∷ b'o' ∷ b's' ∷ b'e' ∷ [], cmd_close)
    ∷ (b'r' ∷ b'e' ∷ b'a' ∷ b'd' ∷ [], cmd_read)
    ∷ (b'w' ∷ b'r' ∷ b'i' ∷ b't' ∷ b'e' ∷ [], cmd_write)
    ∷ (b's' ∷ b'e' ∷ b'e' ∷ b'k' ∷ [], cmd_seek)
    ∷ (b't' ∷ b'e' ∷ b'l' ∷ b'l' ∷ [], cmd_tell)
    ∷ (b's' ∷ b'i' ∷ b'z' ∷ b'e' ∷ [], cmd_size)
    ∷ (b'l' ∷ b's' ∷ [], cmd_ls)
    ∷ []

-- The loop of `execute_command`: the first entry with the name.
unfoldable pub find_command : List (List ℕ × Command) → (name : List ℕ) → Option Command
find_command [] name = none
find_command (entry ∷ table) name =
    let rest = find_command table name in if str_eq name entry.0 then some entry.1 else rest

-- The handlers.
unfoldable pub handler : Command → Host → Args → Shell → Shell
handler cmd_help host args s = show_help s
handler cmd_exit host args s = exit s
handler cmd_init host args s = init host s
handler cmd_format host args s = ask_format host s
handler cmd_status host args s = show_status s
handler cmd_login host args s = log_in args s
handler cmd_logout host args s = log_out s
handler cmd_adduser host args s = add_user host args s
handler cmd_whoami host args s = who_am_i s
handler cmd_users host args s = show_users s
handler cmd_chmod host args s = change_mode host args s
handler cmd_chown host args s = change_owner host args s
handler cmd_create host args s = create_named host args s
handler cmd_open host args s = open_named host args s
handler cmd_close host args s = close_fd args s
handler cmd_read host args s = read_fd host args s
handler cmd_write host args s = write_fd host args s
handler cmd_seek host args s = seek_fd host args s
handler cmd_tell host args s = tell_fd args s
handler cmd_size host args s = size_fd host args s
handler cmd_ls host args s = list_fds s

-- `execute_command`
unfoldable pub execute_command : Host → Args → Shell → Shell
unfolding find_command handler
execute_command host [] s = s
execute_command host (name ∷ args) s = elim (find_command commands name) [
  | none ↦ say_all (unknown_command name ∷ see_help ∷ []) s
  | some command ↦ handler command host (name ∷ args) s
]

-- `cleanup_and_exit`; what the two functions return is not looked at.
unfoldable pub cleanup_and_exit : Host → Shell → Shell
cleanup_and_exit host s = say goodbye (elim s.system_initialized [
  | false ↦ s
  | true ↦
      let t = with_fs (logout s.fs).1 (say cleaning_up s) in
      with_disk (disk_close host t.fs.disk).1 t
])

-- A line as `main` takes it from the buffer of `fgets`: the string in it, without its newline.
unfoldable pub line_of : List ℕ → List ℕ
line_of raw = strip_newline (c_string raw)

-- The arguments of a line as `main` takes it.
unfoldable pub parse_line : (raw : List ℕ) → List (List ℕ)
unfolding line_of
parse_line raw = parse_command (line_of raw)

-- A round of `main` on the line that it has read. An empty line has no arguments, and
-- `execute_command` then does nothing, like the `continue` of `main`.
unfoldable pub run_line : Host → (raw : List ℕ) → Shell → Shell
unfolding execute_command
run_line host raw s = execute_command host (parse_line raw) s

-- The loop of `main`, for so many rounds.
unfoldable pub main_loop : Host → (fuel : ℕ) → Shell → Shell
main_loop host zero s = s
main_loop host (suc fuel) s = elim s.shell_running [
  | false ↦ s
  | true ↦
      let shown = show_prompt s in
      elim (fgets max_input_length shown.input) [
        | none ↦ shown
        | some r ↦ main_loop host fuel (run_line host r.0 (with_input r.1 shown))
      ]
]

-- `main`. A round that goes on reads at least one byte, so that one round more than there are bytes
-- in the input is enough.
unfoldable pub main : Host → Shell → Shell
unfolding main_loop
main host s =
    let begun = say welcome s in
    cleanup_and_exit host (main_loop host (suc (length begun.input)) begun)
