-- ===== src/System/Ops.antt =====
-- `fs_write`, `fs_read`, `fs_seek`, `fs_tell` and `fs_size` keep what does not depend on the storage and
-- outlives what may happen to the open files.
use caozuokeshe.Base.{
  ℕ, zero, suc, ◌+◌, ◌-◌, ◌%◌, ◌^◌, not, inl, inr, Option, none, some, Option-cases, List, [], ◌++◌,
  arith, Bool-cases, ltb, leb, ◌==◌, get_or, length, min, take, drop, splice,
}
use caozuokeshe.Errors.{invalid_param, permission}
use caozuokeshe.Layout.{Inode, fs_magic_number, file_type_regular}
use caozuokeshe.Bitmap.{find_clear}
use caozuokeshe.Disk.Host.{Host}
use caozuokeshe.Disk.Block.{not_positive}
use caozuokeshe.Fs.State.{FsState, zero_handle, max_open_files, modify}
use caozuokeshe.Users.Accounts.{check_permission}
use caozuokeshe.Users.Permission.{perm_owner_read, perm_owner_write}
use caozuokeshe.FileOps.Blocks.{
  block_index, block_offset, get_data_block, alloc_data_block, allocate_data_block, validate_fd,
  load_if_needed, put_position,
}
use caozuokeshe.FileOps.ReadWrite.{
  round_bytes, grown, block_for_write, write_loop, finish_write, open_regular, fs_write, read_loop,
  finish_read, fs_read,
}
use caozuokeshe.FileOps.Position.{seek_target, fs_seek, fs_size}
use caozuokeshe.System.Keeps.{
  replaced, IsStable, Keeps, pure-Keeps, fail-Keeps, get-Keeps, ignore-Keeps, bind-Keeps,
  then-Keeps, handle-Keeps, bool-Keeps, option-Keeps, modify-Keeps, if-Keeps, current_time-Keeps,
  read_disk-Keeps, write_disk-Keeps,
}
use caozuokeshe.System.Storage.{
  read_inode-Keeps, write_inode-Keeps, read_superblock-Keeps, read_bitmap-Keeps,
}

module _ {I : FsState → Type 0} (st : IsStable I) where
  alloc_data_block-Keeps : Keeps I alloc_data_block
  unfolding alloc_data_block
  alloc_data_block-Keeps = record {
    keeps = λ s i. elim (Bool-cases (s.block_bitmap.free_count == 0)) [
      | inl e ↦ rw (e, alloc_data_block) i
      | inr e ↦ elim (Option-cases s.block_bitmap.bitmap) [
        | inl f ↦ elim (Bool-cases (s.block_bitmap.total_bits == 0)) [
          | inl g ↦ rw (e, f, g, alloc_data_block) i
          | inr g ↦ rw (e, f, g, alloc_data_block) i
        ]
        | inr (bytes, f) ↦
            elim (Option-cases (
              find_clear bytes s.block_bitmap.last_allocated s.block_bitmap.total_bits
                s.block_bitmap.total_bits 0)) [
                  | inl g ↦ rw (e, f, g, alloc_data_block) i
                  | inr (k, g) ↦
                      rw (e, f, g, alloc_data_block)
                        (st.storage s s.superblock s.inode_bitmap _ s.disk i)
                ]
      ]
    ];
  }

  pub allocate_data_block-Keeps :
      (inode : Inode) (index : ℕ) → Keeps I (allocate_data_block inode index)
  unfolding allocate_data_block
  allocate_data_block-Keeps inode index =
      if-Keeps _ (if-Keeps _ (bind-Keeps alloc_data_block-Keeps (λ b. pure-Keeps)) pure-Keeps)
        pure-Keeps

  block_for_write-Keeps : (inode : Inode) (index : ℕ) → Keeps I (block_for_write inode index)
  unfolding block_for_write
  block_for_write-Keeps inode index = if-Keeps _ (allocate_data_block-Keeps inode index) pure-Keeps

  validate_fd-Keeps : (fd : ℕ) → Keeps I (validate_fd fd)
  unfolding validate_fd
  validate_fd-Keeps fd = record {
    keeps = λ s i. elim (Bool-cases (leb max_open_files fd)) [
      | inl e ↦ rw (e, validate_fd) i
      | inr e ↦ elim (Bool-cases ((get_or s.open_files fd zero_handle).reference_count == 0)) [
        | inl f ↦ rw (e, f, validate_fd) i
        | inr f ↦ rw (e, f, validate_fd) i
      ]
    ];
  }

  load_if_needed-Keeps : (host : Host) → Keeps I (load_if_needed host)
  unfolding load_if_needed
  load_if_needed-Keeps host = record {
    keeps = λ s i. elim (Bool-cases (s.superblock.magic_number == fs_magic_number)) [
      | inl e ↦ rw (e, load_if_needed) i
      | inr e ↦
          rw (e, load_if_needed)
            ((then-Keeps (read_superblock-Keeps st host) (
                then-Keeps (read_bitmap-Keeps st host _ _ _)
                  (read_bitmap-Keeps st host _ _ _))).keeps
              s i)
    ];
  }

  put_position-Keeps : (fd position : ℕ) → Keeps I (modify (put_position fd position))
  put_position-Keeps fd position = modify-Keeps (put_position fd position) (λ s i.
      st.handles s _
        (replaced fd (record (get_or s.open_files fd zero_handle) { file_position = position })
          (omega arith))
        i)

  write_loop-Keeps :
      (host : Host) (bytes : List ℕ) (size start fuel written : ℕ) (inode : Inode)
      → Keeps I (write_loop host bytes size start fuel written inode)
  unfolding write_loop
  write_loop-Keeps host bytes size start zero written inode = pure-Keeps
  write_loop-Keeps host bytes size start (suc fuel) written inode =
      elim (Bool-cases (ltb written size)) [
        | inr e ↦ rw (e, write_loop) pure-Keeps
        | inl e ↦
            rw (e, write_loop)
              (bind-Keeps (block_for_write-Keeps inode (block_index (start + written))) (λ x.
                bool-Keeps (x.0 == 0) (pure-Keeps {a = (written, x.1)}) (
                  handle-Keeps (read_disk-Keeps st host x.0)
                    (λ block.
                      handle-Keeps
                        (write_disk-Keeps st host x.0 (
                          splice block (block_offset (start + written)) (
                            take (round_bytes (start + written) (size - written))
                              (drop written bytes))))
                        (λ done.
                          write_loop-Keeps host bytes size start fuel
                            (written + round_bytes (start + written) (size - written)) x.1)
                        (λ x'. pure-Keeps {a = (written, x.1)}))
                    (λ x'. pure-Keeps {a = (written, x.1)}))))
      ]

  finish_write-Keeps :
      (host : Host) (fd n position written : ℕ) (inode : Inode)
      → Keeps I (finish_write host fd n position written inode)
  unfolding finish_write
  finish_write-Keeps host fd n position written inode = elim (Bool-cases (ltb 0 written)) [
    | inr e ↦ rw (e, finish_write) pure-Keeps
    | inl e ↦
        rw (e, finish_write)
          (bind-Keeps (current_time-Keeps st host) (λ now.
            then-Keeps
              (ignore-Keeps
                (write_inode-Keeps st host n (grown inode ((position + written) % 2 ^ 64) now)))
              (then-Keeps (put_position-Keeps fd ((position + written) % 2 ^ 64))
                (pure-Keeps {a = written}))))
  ]

  open_regular-Keeps : (host : Host) (fd required : ℕ) → Keeps I (open_regular host fd required)
  unfolding open_regular
  open_regular-Keeps host fd required = then-Keeps (validate_fd-Keeps fd) (
      then-Keeps (load_if_needed-Keeps host) (
        bind-Keeps get-Keeps (λ s.
          bind-Keeps (read_inode-Keeps st host (get_or s.open_files fd zero_handle).inode_number)
            (λ inode. bind-Keeps get-Keeps (λ s'.
              if-Keeps (not (inode.file_type == file_type_regular)) (fail-Keeps {e = invalid_param})
                (if-Keeps (not (check_permission s' inode required)) (fail-Keeps {e = permission})
                  (pure-Keeps {a = (get_or s.open_files fd zero_handle, inode)})))))))

  pub fs_write-Keeps :
      (host : Host) (fd : ℕ) (buffer : Option (List ℕ)) (size : ℕ)
      → Keeps I (fs_write host fd buffer size)
  unfolding fs_write
  fs_write-Keeps host fd none size = fail-Keeps
  fs_write-Keeps host fd (some bytes) size =
      if-Keeps (not_positive size) (fail-Keeps {e = invalid_param}) (
        bind-Keeps (open_regular-Keeps host fd perm_owner_write) (λ x.
          bind-Keeps (write_loop-Keeps host bytes size x.0.file_position size 0 x.1)
            (λ y. finish_write-Keeps host fd x.0.inode_number x.0.file_position y.0 y.1)))

  read_loop-Keeps :
      (host : Host) (inode : Inode) (size start fuel done : ℕ)
      → Keeps I (read_loop host inode size start fuel done)
  unfolding read_loop
  read_loop-Keeps host inode size start zero done = pure-Keeps
  read_loop-Keeps host inode size start (suc fuel) done = elim (Bool-cases (ltb done size)) [
    | inr e ↦ rw (e, read_loop) pure-Keeps
    | inl e ↦
        rw (e, read_loop)
          (bool-Keeps (get_data_block inode (block_index (start + done)) == 0) (pure-Keeps {a = []})
            (handle-Keeps
              (read_disk-Keeps st host (get_data_block inode (block_index (start + done))))
              (λ block.
                bind-Keeps
                  (read_loop-Keeps host inode size start fuel
                    (done + round_bytes (start + done) (size - done)))
                  (λ rest.
                    pure-Keeps
                      {a = take (round_bytes (start + done) (size - done))
                          (drop (block_offset (start + done)) block)
                        ++ rest}))
              (λ x. pure-Keeps {a = []})))
  ]

  finish_read-Keeps :
      (host : Host) (fd n position count : ℕ) (inode : Inode)
      → Keeps I (finish_read host fd n position count inode)
  unfolding finish_read
  finish_read-Keeps host fd n position count inode = elim (Bool-cases (ltb 0 count)) [
    | inr e ↦ rw (e, finish_read) pure-Keeps
    | inl e ↦
        rw (e, finish_read)
          (then-Keeps (put_position-Keeps fd ((position + count) % 2 ^ 64)) (
            bind-Keeps (current_time-Keeps st host) (λ now.
              ignore-Keeps (write_inode-Keeps st host n (record inode { access_time = now })))))
  ]

  pub fs_read-Keeps : (host : Host) (fd size : ℕ) → Keeps I (fs_read host fd size)
  unfolding fs_read
  fs_read-Keeps host fd size = if-Keeps (not_positive size) (fail-Keeps {e = invalid_param}) (
      bind-Keeps (open_regular-Keeps host fd perm_owner_read) (λ x.
        if-Keeps (leb x.1.file_size x.0.file_position) (pure-Keeps {a = []}) (
          bind-Keeps
            (read_loop-Keeps host x.1 (min size (x.1.file_size - x.0.file_position))
              x.0.file_position (min size (x.1.file_size - x.0.file_position)) 0)
            (λ bytes.
              then-Keeps
                (finish_read-Keeps host fd x.0.inode_number x.0.file_position (length bytes) x.1)
                (pure-Keeps {a = bytes})))))

  pub fs_seek-Keeps : (host : Host) (fd offset whence : ℕ) → Keeps I (fs_seek host fd offset whence)
  unfolding fs_seek
  fs_seek-Keeps host fd offset whence = then-Keeps (validate_fd-Keeps fd) (
      then-Keeps (load_if_needed-Keeps host) (
        bind-Keeps get-Keeps (λ s.
          let handle = get_or s.open_files fd zero_handle in
          bind-Keeps (read_inode-Keeps st host handle.inode_number) (λ inode.
            option-Keeps (seek_target handle.file_position inode.file_size offset whence)
              (fail-Keeps {e = invalid_param})
              (λ position. if-Keeps (leb (2 ^ 63) position) (fail-Keeps {e = invalid_param}) (
                then-Keeps (put_position-Keeps fd position)
                  (pure-Keeps {a = position % 2 ^ 32})))))))

  pub fs_size-Keeps : (host : Host) (fd : ℕ) → Keeps I (fs_size host fd)
  unfolding fs_size
  fs_size-Keeps host fd = then-Keeps (validate_fd-Keeps fd) (
      then-Keeps (load_if_needed-Keeps host) (
        bind-Keeps get-Keeps (λ s.
          bind-Keeps (read_inode-Keeps st host (get_or s.open_files fd zero_handle).inode_number)
            (λ inode. pure-Keeps {a = inode.file_size % 2 ^ 32}))))
