-- ===== src/Shell/FileCommands.antt =====
-- The commands of main.c on files.
use caozuokeshe.Base.{
  ℕ, ◌-◌, ◌^◌, Bool, true, false, not, ◌||◌, some, List, drop, length, ltb, [], ◌∷◌, ◌==◌,
  if◌then◌else◌, c_string,
}
use caozuokeshe.Errors.{Result, ok, err, code}
use caozuokeshe.Disk.Host.{Host}
use caozuokeshe.Disk.Block.{called, not_positive}
use caozuokeshe.Fs.Files.{fs_create, fs_open, fs_close}
use caozuokeshe.FileOps.ReadWrite.{fs_read, fs_write}
use caozuokeshe.FileOps.Position.{fs_seek, fs_tell, fs_size}
use caozuokeshe.Shell.Lines.{
  Line, ErrorText, error_to_string, int_of, cmd_create, cmd_open, cmd_close, cmd_read, cmd_write,
  cmd_seek, cmd_tell, cmd_size, init_first, create_ok, create_failed, open_ok, open_failed,
  closed_fd, bad_byte_count, out_of_memory, bytes_read, content_is, end_of_file, read_failed,
  bytes_written, write_failed, moved_to, seek_failed, position_is, tell_failed, size_is,
  size_failed,
}
use caozuokeshe.Shell.Text.{arg, atoi, join_args}
use caozuokeshe.Shell.State.{Shell, Args, say, say_all, with_fs, with_disk, if_initialized, checked}
use caozuokeshe.Shell.Reports.{list_files}

-- `cmd_create`
unfoldable pub create_named : Host → Args → Shell → Shell
create_named host args s =
    checked cmd_create 2 args
      (λ t.
        let (r, fs') = fs_create host (some (arg args 1)) t.fs in
        say
          (elim r [
            | ok _ ↦ create_ok (arg args 1)
            | err e ↦ create_failed (error_to_string (2 ^ 32 - code e))
          ])
          (with_fs fs' t))
      s

-- `result >= 0`, of the pattern of an `int`
abbrev not_negative : ℕ → Bool
not_negative n = ltb n (2 ^ 31)

-- The message of a command that succeeds with an `int` that is not negative, and fails otherwise.
abbrev pub value_or_error : (ℕ → Line) → (ErrorText → Line) → ℕ → Line
value_or_error good bad n = if not_negative n then good n else bad (error_to_string n)

-- `cmd_open`
unfoldable pub open_named : Host → Args → Shell → Shell
open_named host args s =
    checked cmd_open 2 args
      (λ t.
        let (r, fs') = fs_open host (some (arg args 1)) t.fs in
        say (value_or_error (open_ok (arg args 1)) open_failed (int_of r)) (with_fs fs' t))
      s

-- `cmd_close`
unfoldable pub close_fd : Args → Shell → Shell
close_fd args s =
    checked cmd_close 2 args
      (λ t. say (closed_fd (atoi (arg args 1))) (with_fs (fs_close (atoi (arg args 1)) t.fs) t)) s

-- What `cmd_read` prints of a read: `%s` shows the bytes before the first zero.
unfoldable pub read_lines : Result (List ℕ) → List Line
read_lines r = elim r [
  | err e ↦ read_failed (error_to_string (2 ^ 32 - code e)) ∷ []
  | ok bytes ↦
      if not (not_positive (length bytes))
      then bytes_read (length bytes) ∷ content_is (c_string bytes) ∷ []
      else if length bytes == 0
      then end_of_file ∷ []
      else read_failed (error_to_string (length bytes)) ∷ []
]

-- `cmd_read` after the check of the arguments, with a buffer from `malloc`.
unfoldable pub read_bytes : Host → (fd bytes : ℕ) → Shell → Shell
unfolding read_lines
read_bytes host fd bytes s = elim (not_positive bytes || ltb 1024 bytes) [
  | true ↦ say bad_byte_count s
  | false ↦
      let t = with_disk (called s.fs.disk) s in
      elim (host.alloc_ok s.fs.disk.calls) [
        | false ↦ say out_of_memory t
        | true ↦ let (r, fs') = fs_read host fd bytes t.fs in say_all (read_lines r) (with_fs fs' t)
      ]
]

-- `cmd_read`
unfoldable pub read_fd : Host → Args → Shell → Shell
unfolding read_bytes
read_fd host args s =
    checked cmd_read 3 args (read_bytes host (atoi (arg args 1)) (atoi (arg args 2))) s

-- The text that `cmd_write` makes of its arguments.
abbrev pub text_of : Args → List ℕ
text_of args = join_args (drop 2 args)

-- The end of `cmd_write`: `fs_write` of the text with its length.
unfoldable pub write_text : Host → (fd : ℕ) → (text : List ℕ) → Shell → Shell
write_text host fd text s =
    let (r, fs') = fs_write host fd (some text) (length text) s.fs in
    say
      (if not (not_positive (int_of r))
        then bytes_written (int_of r)
        else write_failed (error_to_string (int_of r)))
      (with_fs fs' s)

-- `cmd_write`
unfoldable pub write_fd : Host → Args → Shell → Shell
unfolding write_text
write_fd host args s =
    checked cmd_write 3 args (write_text host (atoi (arg args 1)) (text_of args)) s

-- `cmd_seek`
unfoldable pub seek_fd : Host → Args → Shell → Shell
seek_fd host args s =
    checked cmd_seek 4 args
      (λ t.
        let (r, fs') =
          fs_seek host (atoi (arg args 1)) (atoi (arg args 2)) (atoi (arg args 3)) t.fs in
        say (value_or_error moved_to seek_failed (int_of r)) (with_fs fs' t))
      s

-- `cmd_tell`
unfoldable pub tell_fd : Args → Shell → Shell
tell_fd args s =
    checked cmd_tell 2 args
      (λ t.
        let (r, fs') = fs_tell (atoi (arg args 1)) t.fs in
        say (value_or_error position_is tell_failed (int_of r)) (with_fs fs' t))
      s

-- `cmd_size`
unfoldable pub size_fd : Host → Args → Shell → Shell
size_fd host args s =
    checked cmd_size 2 args
      (λ t.
        let (r, fs') = fs_size host (atoi (arg args 1)) t.fs in
        say (value_or_error size_is size_failed (int_of r)) (with_fs fs' t))
      s

-- `cmd_ls`
unfoldable pub list_fds : Shell → Shell
list_fds s = if_initialized init_first (λ t. say_all (list_files t.fs) t) s
