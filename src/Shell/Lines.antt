-- ===== src/Shell/Lines.antt =====
-- What main.c prints, a constructor for each message with the values that it shows, and
-- `fs_ops_error_to_string` of fs_ops.c.
use caozuokeshe.Base.{ℕ, ◌-◌, ◌%◌, ◌^◌, List, [], ◌∷◌, get_or}
use caozuokeshe.Errors.{
  FsError, invalid_param, no_memory, no_space, file_not_found, file_exists, not_directory,
  is_directory, permission, file_open, too_many_open, io, corrupted, not_mounted, already_mounted,
  Result, ok, err, code,
}
use caozuokeshe.Disk.Block.{DiskStatus}

-- The handlers of the command table.
pub data Command : Type 0 where
  cmd_help cmd_exit cmd_init cmd_format cmd_status cmd_login cmd_logout cmd_adduser : Command
  cmd_whoami cmd_users cmd_chmod cmd_chown cmd_create cmd_open cmd_close cmd_read : Command
  cmd_write cmd_seek cmd_tell cmd_size cmd_ls : Command

-- The texts of `fs_ops_error_to_string`.
pub data ErrorText : Type 0 where
  no_error unknown_error : ErrorText
  about : FsError → ErrorText

-- The `switch`, by the negated code.
abbrev error_texts : List ErrorText
error_texts =
    no_error
    ∷ about invalid_param
    ∷ about no_memory
    ∷ about no_space
    ∷ about file_not_found
    ∷ about file_exists
    ∷ about not_directory
    ∷ about is_directory
    ∷ about permission
    ∷ about file_open
    ∷ about too_many_open
    ∷ about io
    ∷ about corrupted
    ∷ about not_mounted
    ∷ about already_mounted
    ∷ []

-- `fs_ops_error_to_string`, of the pattern of an `int`
unfoldable pub error_to_string : ℕ → ErrorText
error_to_string error = get_or error_texts ((2 ^ 32 - error) % 2 ^ 32) unknown_error

-- The `int` that a function returns, as its pattern: a value, or the code of an error.
unfoldable pub int_of : Result ℕ → ℕ
int_of (ok n) = n % 2 ^ 32
int_of (err e) = 2 ^ 32 - code e

-- Why `cmd_login` and `cmd_adduser` say that they failed.
pub data Reason : Type 0 where
  no_such_user bad_password name_taken table_full bad_argument unknown_reason : Reason

pub data Line : Type 0 where
  -- `main`, `show_prompt`, `execute_command`, `cleanup_and_exit`
  welcome prompt_uninitialized prompt_unknown see_help help_text cleaning_up goodbye : Line
  prompt unknown_command : List ℕ → Line
  -- `cmd_init` and `cmd_format`
  already_initialized initializing checking needs_format bad_format good_format : Line
  preparing_users users_failed init_done login_hint : Line
  disk_failed : DiskStatus → Line
  format_warning format_confirm cancelled formatting format_done : Line
  -- the checks that handlers begin with
  not_initialized init_first_hint init_first : Line
  usage : Command → Line
  -- users
  login_ok logout_ok logout_failed adduser_ok no_current_user users_header : Line
  login_failed adduser_failed : Reason → Line
  current_user : List ℕ → ℕ → ℕ → Line
  user_row : ℕ → ℕ → List ℕ → ℕ → Line
  users_footer bad_descriptor : ℕ → Line
  chmod_ok chmod_failed chown_ok chown_failed : Line
  -- files
  create_ok : List ℕ → Line
  open_ok : List ℕ → ℕ → Line
  create_failed open_failed read_failed write_failed seek_failed tell_failed size_failed :
      ErrorText → Line
  closed_fd bytes_read bytes_written moved_to position_is size_is : ℕ → Line
  content_is : List ℕ → Line
  bad_byte_count out_of_memory end_of_file files_header no_open_files files_footer : Line
  file_row : ℕ → ℕ → ℕ → ℕ → Line
  -- `fs_ops_print_status`
  superblock_magic superblock_version superblock_block_size superblock_blocks : ℕ → Line
  superblock_inodes superblock_free_blocks superblock_free_inodes superblock_root : ℕ → Line
  inode_bitmap_counts block_bitmap_counts : ℕ → ℕ → Line
