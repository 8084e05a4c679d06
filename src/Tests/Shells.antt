-- ===== src/Tests/Shells.antt =====
-- The shell at concrete inputs.
use caozuokeshe.Base.{
  ℕ, zero, suc, ◌<◌, ◌≡◌, ◌≢◌, ◌⊎◌, refl, true, false, some, none, List, [], ◌∷◌, ◌++◌, arith,
  length, replicate, take, c_string, str_eq,
}
use caozuokeshe.Disk.Session.{disk_init, disk_close, reset}
use caozuokeshe.Fs.State.{FsState}
use caozuokeshe.Users.Permission.{root_uid}
use caozuokeshe.Users.Accounts.{
  permission, anonymous_uid, login, logout, user_manager_init, root_name, root_password,
}
use caozuokeshe.Users.Accounts.Initial.{login-user_manager_init}
use caozuokeshe.Users.Owner.{chown}
use caozuokeshe.System.Steps.{Run, done, next, accounts_reset}
use caozuokeshe.System.Invariant.{IsSound}
use caozuokeshe.System.Privilege.{chown-login}
use caozuokeshe.Shell.Lines.{bytes_written, moved_to, bytes_read, content_is, initializing}
use caozuokeshe.Shell.Lines
use caozuokeshe.Shell.Text.{
  fgets, newline, join_args, parse_command, max_input_length, strip_newline, parse_loop, strtok,
  skip_delimiters, token, read_line,
}
use caozuokeshe.Shell.State.{Shell, say}
use caozuokeshe.Shell.Reports.{show_prompt}
use caozuokeshe.Shell.Control.{init, exit, ask_format, disk_file, shell_disk_size}
use caozuokeshe.Shell.FileCommands.{text_of}
use caozuokeshe.Shell.Session.{
  execute_command, find_command, commands, main_loop, main, parse_line, run_line, line_of, handler,
  cleanup_and_exit,
}
use caozuokeshe.Shell.Ending.{main_loop-ends, main-IsSound, main-closes}
use caozuokeshe.Shell.Guards.{IsUntouched, execute_command-IsUntouched}
use caozuokeshe.Shell.Outcomes.{
  IsRootSession, InitOutcome, init-InitOutcome, ask_format-IsRootSession,
}
use caozuokeshe.Shell.Words.{words, parse_command-eq-words}
use caozuokeshe.Shell.Words.Joined.{AreWords, parse_line-join_args, text_of-join_args}
use caozuokeshe.Shell.Words.Fits.{text_of-fits}
use caozuokeshe.Tests.Data.{good, state16, disk16}

abbrev exit_word : List ℕ
exit_word = b'e' ∷ b'x' ∷ b'i' ∷ b't' ∷ []

abbrev init_word : List ℕ
init_word = b'i' ∷ b'n' ∷ b'i' ∷ b't' ∷ []

abbrev ls_word : List ℕ
ls_word = b'l' ∷ b's' ∷ []

-- A program that starts, with this typed.
abbrev fresh_fs : FsState
fresh_fs = record state16 { disk = record (reset disk16) { files = λ name. none } }

abbrev typed : List ℕ → Shell
typed bytes = record {
  fs = fresh_fs;
  shell_running = true;
  system_initialized = false;
  input = bytes;
  output = [];
}

abbrev session : Shell
session = typed (ls_word ++ newline ∷ exit_word ++ newline ∷ [])

main-IsSound_example : Run good fresh_fs (main good session).fs × IsSound (main good session).fs
main-IsSound_example = main-IsSound good session refl refl refl

main_loop-ends_example :
    (((main_loop good 9 session).shell_running ≡ false) ⊎ ((main_loop good 9 session).input ≡ []))
    × ((more : ℕ) → 8 < more → main_loop good more session ≡ main_loop good 9 session)
main_loop-ends_example = main_loop-ends good 9 session (omega arith)

-- An initialised shell that is told to exit.
abbrev running : Shell
running = record (typed (exit_word ++ newline ∷ [])) { fs = state16; system_initialized = true }

running_exits : (main good running).system_initialized ≡ true
unfolding main main_loop show_prompt fgets run_line parse_line line_of strip_newline execute_command
    parse_command parse_loop strtok skip_delimiters token find_command handler exit cleanup_and_exit
    logout disk_close c_string str_eq
running_exits = refl

main-closes_example :
    ((main good running).fs.disk.is_initialized ≡ false)
    × ((main good running).fs.current_user_uid ≡ anonymous_uid)
main-closes_example = main-closes good running running_exits

no_ls_init : find_command commands ls_word ≢ some Lines.cmd_init
unfolding find_command str_eq
no_ls_init = ground arith

no_ls_format : find_command commands ls_word ≢ some Lines.cmd_format
unfolding find_command str_eq
no_ls_format = ground arith

execute_command-IsUntouched_example :
    IsUntouched session (execute_command good (ls_word ∷ []) session)
execute_command-IsUntouched_example =
    execute_command-IsUntouched good (ls_word ∷ []) session refl no_ls_init no_ls_format

parse_command-eq-words_example :
    parse_command (32 ∷ ls_word ++ 9 ∷ []) ≡ take 9 (words (32 ∷ ls_word ++ 9 ∷ []))
parse_command-eq-words_example = parse_command-eq-words (32 ∷ ls_word ++ 9 ∷ [])

-- Ten words.
abbrev ten_words : List (List ℕ)
ten_words = (b'w' ∷ []) ∷ replicate 9 (b'0' ∷ [])

zeros-AreWords : (n : ℕ) → AreWords (replicate n (b'0' ∷ []))
zeros-AreWords zero = tt
zeros-AreWords (suc n) = ((λ e. absurd (omega (arith, e)), refl, tt), zeros-AreWords n)

ten_words-AreWords : AreWords ten_words
ten_words-AreWords = ((λ e. absurd (omega (arith, e)), refl, tt), zeros-AreWords 9)

parse_line-join_args_example :
    let line = join_args ten_words ++ newline ∷ [] in
    (fgets max_input_length (join_args ten_words ++ newline ∷ exit_word) ≡ some (line, exit_word))
    × (parse_line line ≡ take 9 ten_words)
unfolding join_args
parse_line-join_args_example =
    parse_line-join_args ten_words exit_word ten_words-AreWords (omega arith)

text_of-join_args_example :
    text_of (parse_line (join_args ten_words ++ newline ∷ []))
    ≡ join_args (take 7 (replicate 8 (b'0' ∷ [])))
text_of-join_args_example =
    text_of-join_args (b'w' ∷ []) (b'0' ∷ []) (replicate 8 (b'0' ∷ [])) ten_words-AreWords

session_line :
    fgets max_input_length session.input ≡ some (ls_word ++ newline ∷ [], exit_word ++ newline ∷ [])
unfolding fgets read_line
session_line = refl

text_of-fits_example : length (text_of (parse_line (ls_word ++ newline ∷ []))) < 512
text_of-fits_example =
    text_of-fits session.input (ls_word ++ newline ∷ []) (exit_word ++ newline ∷ []) session_line

chown-login_example :
    let t = (login (some root_name) (some root_password) (user_manager_init good state16).1).1 in
    (t.current_user_uid ≢ root_uid) × (chown good 5 0 0 t ≡ (permission, t))
chown-login_example =
    chown-login good state16 (user_manager_init good state16).1 root_name root_password 5 0 0 refl
      (next done (accounts_reset state16)) (login-user_manager_init good state16).0

init-InitOutcome_example :
    let (status, d) = disk_init good fresh_fs.disk (some disk_file) shell_disk_size in
    InitOutcome status d (say initializing session) (init good session)
init-InitOutcome_example = init-InitOutcome good session refl

abbrev asked : Shell
asked = record running { input = b'y' ∷ newline ∷ [] }

asked_line : fgets 10 asked.input ≡ some (b'y' ∷ newline ∷ [], [])
unfolding fgets read_line
asked_line = refl

ask_format-IsRootSession_example : IsRootSession (ask_format good asked)
ask_format-IsRootSession_example =
    ask_format-IsRootSession good asked (b'y' ∷ newline ∷ [], []) refl asked_line refl
