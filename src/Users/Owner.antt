-- ===== src/Users/Owner.antt =====
-- `user_manager_chown` and `user_manager_chmod`.
use caozuokeshe.Base.{ℕ, not, ◌&&◌, ◌==◌, if◌then◌else◌}
use caozuokeshe.Errors.{ok, err}
use caozuokeshe.Layout.{Inode}
use caozuokeshe.Disk.Host.{Host}
use caozuokeshe.Disk.Block.{called}
use caozuokeshe.Fs.State.{FsState}
use caozuokeshe.Fs.Inodes.{read_inode, write_inode}
use caozuokeshe.Users.Permission.{is_root}
use caozuokeshe.Users.Accounts.{UserStatus, success, invalid_param, permission}

-- Writing the changed inode back, at the end of both functions.
unfoldable pub write_back : Host → (inode_number : ℕ) → Inode → FsState → UserStatus × FsState
write_back host inode_number inode s =
    let (r, s') =
      write_inode host inode_number (record inode { change_time = host.time s.disk.calls })
        (record s { disk = called s.disk }) in
    elim r [ ok _ ↦ (success, s') | err _ ↦ (invalid_param, s') ]

-- `user_manager_chown`
unfoldable pub chown : Host → (inode_number new_uid new_gid : ℕ) → FsState → UserStatus × FsState
unfolding write_back
chown host inode_number new_uid new_gid s =
    if not (is_root s.current_user_uid)
    then (permission, s)
    else let (r, s') = read_inode host inode_number s in
      elim r [
        | err _ ↦ (invalid_param, s')
        | ok inode ↦
            write_back host inode_number (record inode { owner_uid = new_uid; owner_gid = new_gid })
              s'
      ]

-- `user_manager_chmod`
unfoldable pub chmod : Host → (inode_number new_permissions : ℕ) → FsState → UserStatus × FsState
unfolding write_back
chmod host inode_number new_permissions s =
    let (r, s') = read_inode host inode_number s in
    elim r [
      | err _ ↦ (invalid_param, s')
      | ok inode ↦
          if not (is_root s'.current_user_uid) && not (s'.current_user_uid == inode.owner_uid)
          then (permission, s')
          else write_back host inode_number (record inode { permissions = new_permissions }) s'
    ]
