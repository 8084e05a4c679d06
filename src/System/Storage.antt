-- ===== src/System/Storage.antt =====
-- The functions on the tables of the file system keep what does not depend on them.
use caozuokeshe.Base.{
  ℕ, zero, suc, ◌+◌, ◌-◌, ◌*◌, ◌%◌, ◌^◌, not, ◌||◌, inl, inr, Option-cases, List, [], ◌∷◌,
  Bool-cases, ltb, ◌==◌, get_or, set, replicate, min,
}
use caozuokeshe.Errors.{no_space, corrupted}
use caozuokeshe.Layout.{
  Inode, Superblock, block_size, decode_superblock, fs_magic_number, superblock_checksum,
}
use caozuokeshe.Bitmap.{Bitmap, byte_count}
use caozuokeshe.Disk.Host.{Host}
use caozuokeshe.Fs.State.{FsState, modify}
use caozuokeshe.Fs.Super.{set_superblock, write_superblock, read_superblock}
use caozuokeshe.Fs.BitmapIo.{
  Which, inodes, blocks, bitmap_of, put_bitmap, write_bitmap_loop, write_bitmap, read_bitmap_loop,
  read_bitmap, copy_into, recount,
}
use caozuokeshe.Fs.Inodes.{is_bad_number, read_inode, write_inode}
use caozuokeshe.Fs.Directory.{
  alloc_bit, free_bit, find_entry, max_entries, find_in_blocks, find_file_in_directory,
  find_free_entry, directory_block, add_loop, add_file_to_directory,
}
use caozuokeshe.System.Keeps.{
  IsStable, Keeps, pure-Keeps, fail-Keeps, get-Keeps, ignore-Keeps, bind-Keeps, then-Keeps,
  handle-Keeps, option-Keeps, if-Keeps, current_time-Keeps, read_disk-Keeps, write_disk-Keeps,
}

module _ {I : FsState → Type 0} (st : IsStable I) where
  pub set_superblock-Keeps : (sb : Superblock) → Keeps I (modify (set_superblock sb))
  set_superblock-Keeps sb = record {
    keeps = λ s i. st.storage s sb s.inode_bitmap s.block_bitmap s.disk i;
  }

  stored : (which : Which) (bm : Bitmap) (s : FsState) → I s → I (put_bitmap which bm s)
  stored inodes bm s i = st.storage s s.superblock bm s.block_bitmap s.disk i
  stored blocks bm s i = st.storage s s.superblock s.inode_bitmap bm s.disk i

  pub put_bitmap-Keeps :
      (which : Which) (bm : FsState → Bitmap) → Keeps I (modify (λ s. put_bitmap which (bm s) s))
  put_bitmap-Keeps which bm = record { keeps = λ s i. stored which (bm s) s i }

  pub read_inode-Keeps : (host : Host) (n : ℕ) → Keeps I (read_inode host n)
  unfolding read_inode
  read_inode-Keeps host n = record {
    keeps = λ s i. elim (Bool-cases (is_bad_number s n)) [
      | inl e ↦ rw (e, read_inode) i
      | inr e ↦
          rw (e, read_inode)
            ((bind-Keeps (read_disk-Keeps st host _) (λ block. pure-Keeps)).keeps s i)
    ];
  }

  pub write_inode-Keeps : (host : Host) (n : ℕ) (inode : Inode) → Keeps I (write_inode host n inode)
  unfolding write_inode
  write_inode-Keeps host n inode = record {
    keeps = λ s i. elim (Bool-cases (is_bad_number s n)) [
      | inl e ↦ rw (e, write_inode) i
      | inr e ↦
          rw (e, write_inode)
            ((bind-Keeps (read_disk-Keeps st host _) (λ block. write_disk-Keeps st host _ _)).keeps
              s i)
    ];
  }

  pub read_superblock-Keeps : (host : Host) → Keeps I (read_superblock host)
  unfolding read_superblock
  read_superblock-Keeps host = bind-Keeps (read_disk-Keeps st host _) (λ bytes.
      then-Keeps (set_superblock-Keeps (decode_superblock bytes)) (
        bind-Keeps get-Keeps (λ s.
          if-Keeps (not (s.superblock.magic_number == fs_magic_number)) (fail-Keeps {e = corrupted})
            (if-Keeps (not (s.superblock.checksum == superblock_checksum s.superblock))
              (fail-Keeps {e = corrupted}) pure-Keeps))))

  pub write_superblock-Keeps : (host : Host) → Keeps I (write_superblock host)
  unfolding write_superblock
  write_superblock-Keeps host = bind-Keeps get-Keeps (λ s. write_disk-Keeps st host _ _)

  copy_into-Keeps :
      (which : Which) (offset count : ℕ) (buffer : List ℕ)
      → Keeps I (copy_into which offset count buffer)
  unfolding copy_into
  copy_into-Keeps which offset count buffer = record {
    keeps = λ s i. elim (Option-cases (bitmap_of s which).bitmap) [
      | inl e ↦ rw (e, copy_into) i
      | inr (bytes, e) ↦ rw (e, copy_into) (stored which _ s i)
    ];
  }

  recount-Keeps : (which : Which) → Keeps I (recount which)
  unfolding recount
  recount-Keeps which = record {
    keeps = λ s i. elim (Option-cases (bitmap_of s which).bitmap) [
      | inr (bytes, e) ↦ rw (e, recount) (stored which _ s i)
      | inl e ↦ elim (Bool-cases ((bitmap_of s which).total_bits == 0)) [
        | inl z ↦ rw (e, z, recount) (stored which _ s i)
        | inr z ↦ rw (e, z, recount) i
      ]
    ];
  }

  read_bitmap_loop-Keeps :
      (host : Host) (which : Which) (rounds block done : ℕ)
      → Keeps I (read_bitmap_loop host which rounds block done)
  unfolding read_bitmap_loop
  read_bitmap_loop-Keeps host which zero block done = record { keeps = λ s i. i }
  read_bitmap_loop-Keeps host which (suc rounds) block done = record {
    keeps = λ s i. elim (Bool-cases (ltb done (byte_count (bitmap_of s which).total_bits))) [
      | inr e ↦ rw (e, read_bitmap_loop) i
      | inl e ↦
          rw (e, read_bitmap_loop)
            ((bind-Keeps (read_disk-Keeps st host block) (λ buffer.
                then-Keeps
                  (copy_into-Keeps which done
                    (min (byte_count (bitmap_of s which).total_bits - done) block_size) buffer)
                  (read_bitmap_loop-Keeps host which rounds (block + 1) _))).keeps
              s i)
    ];
  }

  pub read_bitmap-Keeps :
      (host : Host) (which : Which) (start count : ℕ) → Keeps I (read_bitmap host which start count)
  unfolding read_bitmap
  read_bitmap-Keeps host which start count =
      then-Keeps (read_bitmap_loop-Keeps host which count start 0) (recount-Keeps which)

  write_bitmap_loop-Keeps :
      (host : Host) (rounds block : ℕ) (rest : List ℕ)
      → Keeps I (write_bitmap_loop host rounds block rest)
  unfolding write_bitmap_loop
  write_bitmap_loop-Keeps host zero block rest = pure-Keeps
  write_bitmap_loop-Keeps host (suc rounds) block [] = pure-Keeps
  write_bitmap_loop-Keeps host (suc rounds) block (b ∷ rest) =
      then-Keeps (write_disk-Keeps st host _ _) (write_bitmap_loop-Keeps host rounds _ _)

  pub write_bitmap-Keeps :
      (host : Host) (bm : Bitmap) (start count : ℕ) → Keeps I (write_bitmap host bm start count)
  unfolding write_bitmap
  write_bitmap-Keeps host bm start count = elim (Option-cases bm.bitmap) [
    | inl e ↦ rw (e, write_bitmap) fail-Keeps
    | inr (bytes, e) ↦
        rw (e, write_bitmap) (if-Keeps _ fail-Keeps (write_bitmap_loop-Keeps host _ _ _))
  ]

  find_in_blocks-Keeps :
      (host : Host) (filename bs : List ℕ) → Keeps I (find_in_blocks host filename bs)
  unfolding find_in_blocks
  find_in_blocks-Keeps host filename [] = pure-Keeps
  find_in_blocks-Keeps host filename (b ∷ bs) = elim (Bool-cases (b == 0)) [
    | inl e ↦ rw (e, find_in_blocks) pure-Keeps
    | inr e ↦
        rw (e, find_in_blocks)
          (handle-Keeps (read_disk-Keeps st host b)
            (λ block. elim (Option-cases (find_entry block filename max_entries 0)) [
              | inl f ↦ rw f (find_in_blocks-Keeps host filename bs)
              | inr (k, f) ↦ rw f pure-Keeps
            ])
            (λ x. find_in_blocks-Keeps host filename bs))
  ]

  pub find_file_in_directory-Keeps :
      (host : Host) (dir : ℕ) (filename : List ℕ)
      → Keeps I (find_file_in_directory host dir filename)
  unfolding find_file_in_directory
  find_file_in_directory-Keeps host dir filename = if-Keeps (dir == 0) pure-Keeps (
      handle-Keeps (read_inode-Keeps host dir)
        (λ inode. if-Keeps _ pure-Keeps (find_in_blocks-Keeps host filename inode.direct_blocks))
        (λ x. pure-Keeps))

  pub alloc_bit-Keeps : (which : Which) → Keeps I (alloc_bit which)
  alloc_bit-Keeps inodes = record {
    keeps = λ s i. st.storage s s.superblock _ s.block_bitmap s.disk i;
  }
  alloc_bit-Keeps blocks = record {
    keeps = λ s i. st.storage s s.superblock s.inode_bitmap _ s.disk i;
  }

  pub free_bit-Keeps : (which : Which) (bit_num : ℕ) → Keeps I (free_bit which bit_num)
  free_bit-Keeps inodes bit_num = record {
    keeps = λ s i. st.storage s s.superblock _ s.block_bitmap s.disk i;
  }
  free_bit-Keeps blocks bit_num = record {
    keeps = λ s i. st.storage s s.superblock s.inode_bitmap _ s.disk i;
  }

  directory_block-Keeps :
      (host : Host) (block_idx : ℕ) (dir : Inode) → Keeps I (directory_block host block_idx dir)
  unfolding directory_block
  directory_block-Keeps host block_idx dir =
      elim (Bool-cases (get_or dir.direct_blocks block_idx 0 == 0)) [
        | inl e ↦
            rw (e, directory_block)
              (bind-Keeps (alloc_bit-Keeps blocks) (λ b.
                if-Keeps (b == 0) (fail-Keeps {e = no_space}) (
                  bind-Keeps get-Keeps (λ s.
                    pure-Keeps
                      {a = (
                        record dir {
                          direct_blocks =
                              set dir.direct_blocks block_idx
                                ((b + s.superblock.data_blocks_start) % 2 ^ 32);
                          block_count = (dir.block_count + 1) % 2 ^ 32;
                        },
                        replicate block_size 0,
                      )}))))
        | inr e ↦
            rw (e, directory_block) (bind-Keeps (read_disk-Keeps st host _) (λ block. pure-Keeps))
      ]

  add_loop-Keeps :
      (host : Host) (dir : ℕ) (filename : List ℕ) (file rounds block_idx : ℕ) (inode : Inode)
      → Keeps I (add_loop host dir filename file rounds block_idx inode)
  unfolding add_loop
  add_loop-Keeps host dir filename file zero block_idx inode = fail-Keeps
  add_loop-Keeps host dir filename file (suc rounds) block_idx inode =
      bind-Keeps (directory_block-Keeps host block_idx inode) (λ x.
        option-Keeps (find_free_entry x.1 max_entries 0)
          (add_loop-Keeps host dir filename file rounds (block_idx + 1) x.0)
          (λ k. then-Keeps (write_disk-Keeps st host _ _) (
            bind-Keeps (current_time-Keeps st host) (λ now. ignore-Keeps (
              write_inode-Keeps host dir (record (x.0) {
                file_size = (block_idx + 1) * block_size;
                modify_time = now;
                change_time = now;
              }))))))

  pub add_file_to_directory-Keeps :
      (host : Host) (dir : ℕ) (filename : List ℕ) (file : ℕ)
      → Keeps I (add_file_to_directory host dir filename file)
  unfolding add_file_to_directory
  add_file_to_directory-Keeps host dir filename file =
      if-Keeps ((dir == 0) || (file == 0)) fail-Keeps (
        handle-Keeps (read_inode-Keeps host dir)
          (λ inode. if-Keeps _ fail-Keeps (add_loop-Keeps host dir filename file _ 0 inode))
          (λ x. fail-Keeps))
