-- ===== src/System/Format.antt =====
-- `format_disk`, `user_manager_chown` and `user_manager_chmod` keep what does not depend on the storage.
use caozuokeshe.Base.{
  ℕ, ◌+◌, ◌-◌, ◌%◌, ◌^◌, not, ◌&&◌, inl, inr, Bool, Bool-cases, if◌then◌else◌, ◌==◌, replicate,
  splice,
}
use caozuokeshe.Errors.{Result, Result-cases, ok, err, not_mounted, invalid_param}
use caozuokeshe.Layout.{Inode, block_size, root_inode_num, encode_inode}
use caozuokeshe.Bitmap.{set_bitmap_bit}
use caozuokeshe.Disk.Host.{Host}
use caozuokeshe.Disk.Block.{called}
use caozuokeshe.Disk.Session.{disk_sync, disk_get_info}
use caozuokeshe.Fs.State.{FsState, M, ◌>>◌}
use caozuokeshe.Fs.Super.{
  set_superblock, make_superblock, init_superblock, inode_bitmap_block, data_bitmap_block,
  bitmap_blocks,
}
use caozuokeshe.Fs.BitmapIo.{Which, inodes, blocks, bitmap_of}
use caozuokeshe.Fs.Inodes.{inode_block, inode_offset, read_inode, write_inode}
use caozuokeshe.Fs.Format.{
  root_inode, root_block, with_free_counts, create_root_directory, init_bitmap_of, write_tables,
  cleanup, fill_disk, sync_disk, format_disk,
}
use caozuokeshe.Users.Permission.{is_root}
use caozuokeshe.Users.Owner.{write_back, chown, chmod}
use caozuokeshe.System.Keeps.{
  IsStable, Keeps, get-Keeps, attempt-Keeps, bind-Keeps, then-Keeps, modify-Keeps,
  current_time-Keeps, storage-Keeps, read_disk-Keeps, write_disk-Keeps,
}
use caozuokeshe.System.Storage.{
  read_inode-Keeps, write_inode-Keeps, write_superblock-Keeps, write_bitmap-Keeps,
  set_superblock-Keeps, put_bitmap-Keeps,
}

module _ {I : FsState → Type 0} (st : IsStable I) where
  pub init_superblock-Keeps :
      (host : Host) (total_blocks : ℕ) → Keeps I (init_superblock host total_blocks)
  unfolding init_superblock
  init_superblock-Keeps host total_blocks =
      bind-Keeps (current_time-Keeps st host)
        (λ now. set_superblock-Keeps st (make_superblock now total_blocks))

  pub create_root_directory-Keeps : (host : Host) → Keeps I (create_root_directory host)
  unfolding create_root_directory
  create_root_directory-Keeps host = bind-Keeps (current_time-Keeps st host) (λ now.
      bind-Keeps get-Keeps (λ s.
        then-Keeps (write_disk-Keeps st host s.superblock.data_blocks_start root_block) (
          bind-Keeps
            (attempt-Keeps (read_disk-Keeps st host (inode_block s.superblock root_inode_num)))
            (λ found.
              then-Keeps
                (write_disk-Keeps st host (inode_block s.superblock root_inode_num) (
                  splice (elim found [ ok block ↦ block | err _ ↦ replicate block_size 0 ])
                    (inode_offset root_inode_num)
                    (encode_inode (root_inode now s.superblock.data_blocks_start))))
                (then-Keeps
                  (put_bitmap-Keeps st inodes
                    (λ t. set_bitmap_bit (bitmap_of t inodes) root_inode_num))
                  (put_bitmap-Keeps st blocks (λ t. set_bitmap_bit (bitmap_of t blocks) 0)))))))

  pub init_bitmap_of-Keeps :
      (host : Host) (which : Which) (total_bits : ℕ)
      → Keeps I (init_bitmap_of host which total_bits)
  unfolding init_bitmap_of
  init_bitmap_of-Keeps host inodes total_bits = record {
    keeps = λ s i. st.storage s s.superblock _ s.block_bitmap _ i;
  }
  init_bitmap_of-Keeps host blocks total_bits = record {
    keeps = λ s i. st.storage s s.superblock s.inode_bitmap _ _ i;
  }

  write_tables-Keeps : (host : Host) → Keeps I (write_tables host)
  unfolding write_tables
  write_tables-Keeps host = bind-Keeps get-Keeps (λ s.
      then-Keeps (write_bitmap-Keeps st host s.inode_bitmap inode_bitmap_block bitmap_blocks) (
        then-Keeps (write_bitmap-Keeps st host s.block_bitmap data_bitmap_block bitmap_blocks) (
          then-Keeps
            (modify-Keeps (λ t. set_superblock (with_free_counts t) t)
              (λ t i. st.storage t (with_free_counts t) t.inode_bitmap t.block_bitmap t.disk i))
            (write_superblock-Keeps st host))))

  fill_disk-Keeps : (host : Host) → Keeps I (fill_disk host)
  unfolding fill_disk
  fill_disk-Keeps host =
      let steps : M (Unit {0}) = create_root_directory host >> write_tables host in
      let kept : Keeps I steps =
        then-Keeps (create_root_directory-Keeps host) (write_tables-Keeps host) in
      record {
        keeps = λ s i. elim (Result-cases (steps s).0) [
          | inl (x, e) ↦ rw (e, fill_disk) (kept.keeps s i)
          | inr (x, e) ↦
              rw (e, fill_disk)
                (let t = (steps s).1 in
                  let c = cleanup t in
                  st.storage t t.superblock c.inode_bitmap c.block_bitmap t.disk (kept.keeps s i))
        ];
      }

  sync_disk-Keeps : (host : Host) → Keeps I (sync_disk host)
  sync_disk-Keeps host = record {
    keeps = λ s i. storage-Keeps st {d = (disk_sync host s.disk).1} {s = s} i;
  }

  either : (b : Bool) (x y : Result (Unit {0}) × FsState) → I x.1 → I y.1 → I (if b then x else y).1
  either b x y i j = elim (Bool-cases b) [ inl e ↦ rw e i | inr e ↦ rw e j ]

  pub format_disk-Keeps : (host : Host) → Keeps I (format_disk host)
  unfolding format_disk
  format_disk-Keeps host = record {
    keeps = λ s i.
        let total = (disk_get_info s.disk).1 in
        let steps = then-Keeps (init_superblock-Keeps host total) (
          then-Keeps (write_superblock-Keeps st host) (
            bind-Keeps get-Keeps (λ s'.
              then-Keeps (init_bitmap_of-Keeps host inodes s'.superblock.total_inodes) (
                then-Keeps
                  (init_bitmap_of-Keeps host blocks
                    ((total + 2 ^ 32 - s'.superblock.data_blocks_start) % 2 ^ 32))
                  (then-Keeps (fill_disk-Keeps host) (sync_disk-Keeps host)))))) in
        either (not s.disk.is_initialized) (err not_mounted, s) _ i
          (either (not ((disk_get_info s.disk).2 == block_size)) (err invalid_param, s) _ i
            (steps.keeps s i));
  }

  write_back-keeps :
      (host : Host) (n : ℕ) (inode : Inode) (s : FsState) → I s → I (write_back host n inode s).1
  unfolding write_back
  write_back-keeps host n inode s i =
      let t = record s { disk = called s.disk } in
      let new = record inode { change_time = host.time s.disk.calls } in
      let kept =
        (write_inode-Keeps st host n new).keeps t
          (storage-Keeps st {d = called s.disk} {s = s} i) in
      elim (Result-cases (write_inode host n new t).0) [
        | inl (x, e) ↦ rw (e, write_back) kept
        | inr (x, e) ↦ rw (e, write_back) kept
      ]

  pub chown-keeps : (host : Host) (n uid gid : ℕ) (s : FsState) → I s → I (chown host n uid gid s).1
  unfolding chown
  chown-keeps host n uid gid s i =
      let kept = (read_inode-Keeps st host n).keeps s i in
      elim (Bool-cases (is_root s.current_user_uid)) [
        | inr e ↦ rw (e, chown) i
        | inl e ↦ elim (Result-cases (read_inode host n s).0) [
          | inl (inode, f) ↦
              rw (e, f, chown)
                (write_back-keeps host n (record inode { owner_uid = uid; owner_gid = gid })
                  (read_inode host n s).1 kept)
          | inr (x, f) ↦ rw (e, f, chown) kept
        ]
      ]

  pub chmod-keeps : (host : Host) (n mode : ℕ) (s : FsState) → I s → I (chmod host n mode s).1
  unfolding chmod
  chmod-keeps host n mode s i =
      let kept = (read_inode-Keeps st host n).keeps s i in
      let s' = (read_inode host n s).1 in
      elim (Result-cases (read_inode host n s).0) [
        | inr (x, f) ↦ rw (f, chmod) kept
        | inl (inode, f) ↦
            elim (Bool-cases
              (not (is_root s'.current_user_uid) && not (s'.current_user_uid == inode.owner_uid))) [
                | inl e ↦ rw (f, e, chmod) kept
                | inr e ↦
                    rw (f, e, chmod)
                      (write_back-keeps host n (record inode { permissions = mode }) s' kept)
              ]
      ]
