-- ===== src/Shell/Reports.antt =====
-- What the shell prints about the state: `show_prompt`, `fs_ops_print_status` of fs_ops.c,
-- `user_manager_list_users` of user_manager.c, and the table of `cmd_ls`.
use caozuokeshe.Base.{ℕ, ◌+◌, true, false, none, some, List, [], ◌∷◌, ◌++◌, ltb, if◌then◌else◌}
use caozuokeshe.Bitmap.{Bitmap}
use caozuokeshe.Fs.State.{FsState, FileHandle, User}
use caozuokeshe.Users.Accounts.{get_current_user}
use caozuokeshe.Shell.Lines.{
  Line, prompt, prompt_unknown, prompt_uninitialized, users_header, user_row, users_footer,
  files_header, file_row, no_open_files, files_footer, superblock_magic, superblock_version,
  superblock_block_size, superblock_blocks, superblock_inodes, superblock_free_blocks,
  superblock_free_inodes, superblock_root, inode_bitmap_counts, block_bitmap_counts,
}
use caozuokeshe.Shell.State.{Shell, say}

-- `show_prompt`
unfoldable pub show_prompt : Shell → Shell
show_prompt s =
    say
      (elim s.system_initialized [
        | false ↦ prompt_uninitialized
        | true ↦ elim (get_current_user s.fs) [ none ↦ prompt_unknown | some u ↦ prompt u.username ]
      ])
      s

-- What is printed of a bitmap that is allocated.
abbrev bitmap_lines : (ℕ → ℕ → Line) → Bitmap → List Line
bitmap_lines line bm = elim bm.bitmap [
  | none ↦ []
  | some bytes ↦ line bm.total_bits bm.free_count ∷ []
]

-- `fs_ops_print_status`, without its captions.
unfoldable pub print_status : FsState → List Line
print_status s =
    (superblock_magic s.superblock.magic_number
      ∷ superblock_version s.superblock.version
      ∷ superblock_block_size s.superblock.block_size
      ∷ superblock_blocks s.superblock.total_blocks
      ∷ superblock_inodes s.superblock.total_inodes
      ∷ superblock_free_blocks s.superblock.free_blocks
      ∷ superblock_free_inodes s.superblock.free_inodes
      ∷ superblock_root s.superblock.root_inode
      ∷ [])
    ++ (bitmap_lines inode_bitmap_counts s.inode_bitmap
        ++ bitmap_lines block_bitmap_counts s.block_bitmap)

-- The rows of the active users. The time is shown as the number that `localtime` is given.
unfoldable pub user_rows : List User → List Line
user_rows [] = []
user_rows (u ∷ users) =
    let rest = user_rows users in
    if u.is_active then user_row u.uid u.gid u.username u.created_time ∷ rest else rest

-- `user_manager_list_users`
unfoldable pub list_users : FsState → List Line
unfolding user_rows
list_users s = users_header ∷ (user_rows s.users ++ users_footer s.current_user_uid ∷ [])

-- The rows of the handles in use, from descriptor `fd` on.
unfoldable pub handle_rows : List FileHandle → (fd : ℕ) → List Line
handle_rows [] fd = []
handle_rows (h ∷ handles) fd =
    let rest = handle_rows handles (fd + 1) in
    if ltb 0 h.reference_count
    then file_row fd h.inode_number h.file_position h.owner_uid ∷ rest
    else rest

-- The table of `cmd_ls`.
unfoldable pub list_files : FsState → List Line
unfolding handle_rows
list_files s =
    files_header
    ∷ (elim (handle_rows s.open_files 0) [ [] ↦ no_open_files ∷ [] | row ∷ rows ↦ row ∷ rows ]
        ++ files_footer ∷ [])
