-- ===== src/System/Files.antt =====
-- Formatting and the operations on files keep what does not depend on the storage and outlives what
-- may happen to the open files.
use caozuokeshe.Base.{
  ℕ, ◌-◌, ◌≤◌, not, refl, inl, inr, Option, none, some, List, arith, Bool-cases, if◌then◌else◌, leb,
  ◌==◌, get_or, set, replicate, length,
}
use caozuokeshe.Errors.{
  Result-cases, invalid_param, permission, file_exists, no_space, file_not_found, is_directory,
  too_many_open,
}
use caozuokeshe.Layout.{Inode, fs_magic_number, file_type_directory}
use caozuokeshe.Disk.Host.{Host}
use caozuokeshe.Fs.State.{FsState, FileHandle, zero_handle, max_open_files, M}
use caozuokeshe.Fs.BitmapIo.{inodes}
use caozuokeshe.Fs.Files.{
  load_filesystem_state, ensure_loaded, parse_path, resolve, new_inode, update_free_inodes,
  or_free_inode, fs_create, find_free_handle, open_handle, fs_open, fs_close,
}
use caozuokeshe.Users.Accounts.{check_permission, get_current_uid, get_current_gid}
use caozuokeshe.Users.Permission.{perm_owner_read}
use caozuokeshe.System.Keeps.{
  emptied, opened, replaced, IsStable, Keeps, pure-Keeps, fail-Keeps, get-Keeps, ignore-Keeps,
  bind-Keeps, then-Keeps, result-Keeps, option-Keeps, modify-Keeps, if-Keeps, current_time-Keeps,
}
use caozuokeshe.System.Storage.{
  read_inode-Keeps, write_inode-Keeps, read_superblock-Keeps, read_bitmap-Keeps,
  find_file_in_directory-Keeps, add_file_to_directory-Keeps, alloc_bit-Keeps, free_bit-Keeps,
}

module _ {I : FsState → Type 0} (st : IsStable I) where
  load_filesystem_state-Keeps : (host : Host) → Keeps I (load_filesystem_state host)
  unfolding load_filesystem_state
  load_filesystem_state-Keeps host = then-Keeps (read_superblock-Keeps st host) (
      then-Keeps (read_bitmap-Keeps st host _ _ _) (
        then-Keeps (read_bitmap-Keeps st host _ _ _) (
          modify-Keeps (λ s. record s { open_files = replicate max_open_files zero_handle })
            (λ s i. st.handles s (replicate max_open_files zero_handle) emptied i))))

  ensure_loaded-Keeps : (host : Host) → Keeps I (ensure_loaded host)
  unfolding ensure_loaded
  ensure_loaded-Keeps host = record {
    keeps = λ s i. elim (Bool-cases (s.superblock.magic_number == fs_magic_number)) [
      | inl e ↦ rw (e, ensure_loaded) i
      | inr e ↦ rw (e, ensure_loaded) ((load_filesystem_state-Keeps host).keeps s i)
    ];
  }

  resolve-Keeps : (host : Host) (path : Option (List ℕ)) → Keeps I (resolve host path)
  unfolding resolve
  resolve-Keeps host none = fail-Keeps
  resolve-Keeps host (some p) = then-Keeps (ensure_loaded-Keeps host) (
      result-Keeps (parse_path p)
        (λ x. if-Keeps (length x.1 == 0) (fail-Keeps {e = invalid_param}) (pure-Keeps {a = x}))
        (λ e. fail-Keeps {e = e}))

  or_free_inode-Keeps :
      (n : ℕ) {step : M (Unit {0})} → Keeps I step → Keeps I (or_free_inode n step)
  unfolding or_free_inode
  or_free_inode-Keeps n {step} k = record {
    keeps = λ s i. elim (Result-cases (step s).0) [
      | inl (x, e) ↦ rw (e, or_free_inode) (k.keeps s i)
      | inr (x, e) ↦
          rw (e, or_free_inode) ((free_bit-Keeps st inodes n).keeps (step s).1 (k.keeps s i))
    ];
  }

  pub fs_create-Keeps : (host : Host) (path : Option (List ℕ)) → Keeps I (fs_create host path)
  unfolding fs_create
  fs_create-Keeps host path = bind-Keeps (resolve-Keeps host path) (λ x.
      bind-Keeps (find_file_in_directory-Keeps st host x.0 x.1) (λ existing.
        if-Keeps (not (existing == 0)) (fail-Keeps {e = file_exists}) (
          bind-Keeps (alloc_bit-Keeps st inodes) (λ new.
            if-Keeps (new == 0) (fail-Keeps {e = no_space}) (
              bind-Keeps (current_time-Keeps st host) (λ now. bind-Keeps get-Keeps (λ s.
                then-Keeps
                  (or_free_inode-Keeps new (
                    write_inode-Keeps st host new
                      (new_inode now new (get_current_uid s) (get_current_gid s))))
                  (then-Keeps
                    (or_free_inode-Keeps new (add_file_to_directory-Keeps st host x.0 x.1 new))
                    (modify-Keeps update_free_inodes (λ s' i.
                      st.storage s'
                        (record (s'.superblock) { free_inodes = s'.inode_bitmap.free_count })
                        s'.inode_bitmap s'.block_bitmap s'.disk i))))))))))

  open_handle-Keeps :
      (host : Host) (fd n : ℕ) (inode : Inode) → Keeps I (open_handle host fd n inode)
  unfolding open_handle
  open_handle-Keeps host fd n inode = bind-Keeps (current_time-Keeps st host) (λ now.
      bind-Keeps get-Keeps (λ s.
        let handle : FileHandle = record {
          inode_number = n;
          flags = 3;
          file_position = 0;
          reference_count = 1;
          open_time = now;
          owner_uid = get_current_uid s;
        } in
        then-Keeps
          (modify-Keeps (λ s'. record s' { open_files = set s'.open_files fd handle })
            (λ s' i. st.handles s' (set s'.open_files fd handle) (opened fd handle refl) i))
          (bind-Keeps (current_time-Keeps st host) (λ now'.
            then-Keeps
              (ignore-Keeps (write_inode-Keeps st host n (record inode { access_time = now' })))
              (pure-Keeps {a = fd})))))

  pub fs_open-Keeps : (host : Host) (path : Option (List ℕ)) → Keeps I (fs_open host path)
  unfolding fs_open
  fs_open-Keeps host path = bind-Keeps (resolve-Keeps host path) (λ x.
      bind-Keeps (find_file_in_directory-Keeps st host x.0 x.1) (λ n.
        if-Keeps (n == 0) (fail-Keeps {e = file_not_found}) (
          bind-Keeps (read_inode-Keeps st host n) (λ inode. bind-Keeps get-Keeps (λ s.
            if-Keeps (inode.file_type == file_type_directory) (fail-Keeps {e = is_directory}) (
              if-Keeps (not (check_permission s inode perm_owner_read))
                (fail-Keeps {e = permission})
                (option-Keeps (find_free_handle s.open_files 0) (fail-Keeps {e = too_many_open})
                  (λ fd. open_handle-Keeps host fd n inode))))))))

  pub fs_close-Keeps : (fd : ℕ) (s : FsState) → I s → I (fs_close fd s)
  unfolding fs_close
  fs_close-Keeps fd s i =
      let h = get_or s.open_files fd zero_handle in
      elim (Bool-cases (leb max_open_files fd)) [
        | inl e ↦ rw (e, fs_close) i
        | inr e ↦ elim (Bool-cases (h.reference_count == 0)) [
          | inl f ↦ rw (e, f, fs_close) i
          | inr f ↦ rw (e, f, fs_close) (st.handles s _ (replaced fd _ (less h)) i)
        ]
      ]
    where
      less :
          (h : FileHandle)
          → (if h.reference_count - 1 == 0
              then zero_handle
              else record h { reference_count = h.reference_count - 1 }).reference_count
            ≤ h.reference_count
      less h = ground (arith)
