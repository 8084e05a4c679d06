-- ===== src/Tests/Sessions.antt =====
-- An open file at concrete inputs: inode 5, whose data are in block 10, as descriptor 0 of user 0.
use mathlib.Core.Path.{subst}
use caozuokeshe.Base.{
  ℕ, zero, ◌+◌, ◌≤◌, ◌≡◌, ◌⊎◌, refl, sym, ◌∙◌, inl, inr, true, some, List, [], ◌∷◌, arith, length,
  replicate, length-replicate, splice, length-splice, Bool-cases, take, if◌then◌else◌, ◌==◌,
}
use caozuokeshe.Errors.{ok}
use caozuokeshe.Base.Bits.{test_bit}
use caozuokeshe.Layout.{encode_inode}
use caozuokeshe.Layout.RoundTrip.{InodeFits, length-encode_inode}
use caozuokeshe.Bitmap.{is_set}
use caozuokeshe.Disk.Host.{Host, HostFile, IsReliable}
use caozuokeshe.Disk.Block.{disk_block_size, block_to_offset}
use caozuokeshe.Disk.Block.Laws.{IsReady, block_at}
use caozuokeshe.Fs.State.{FsState, zero_handle, zero_user}
use caozuokeshe.Fs.Super.{make_superblock}
use caozuokeshe.Fs.Inodes.{inode_block, inode_offset}
use caozuokeshe.Fs.Inodes.Laws.{decode_spliced}
use caozuokeshe.Users.Accounts.{check_permission, find_user_by_uid}
use caozuokeshe.Users.Permission.{perm_owner_read, perm_owner_write}
use caozuokeshe.FileOps.Blocks.{get_data_block, block_index}
use caozuokeshe.FileOps.Position.{fs_seek, fs_tell}
use caozuokeshe.FileOps.ReadWrite.{fs_read, fs_write}
use caozuokeshe.FileOps.Content.{IsTaken, Owns}
use caozuokeshe.FileOps.Session.{IsOpen, table_inode}
use caozuokeshe.FileOps.Session.RoundTrip.{fs_read-fs_write}
use caozuokeshe.Tests.Data.{good, disk16, disk_name}
use caozuokeshe.Tests.Content.{mounted16, one_taken-IsValid, stored_inode, stored_inode-one, three}

-- A reliable host whose clock stands still.
abbrev pub steady : Host
steady = record good { time = λ n. 7 }

pub steady-IsReliable : IsReliable steady
steady-IsReliable = record {
  opens = λ n. refl;
  seeks = λ n. refl;
  reads = λ n. refl;
  syncs = λ n. refl;
  allocs = λ n. refl;
  writes = λ n k. refl;
}

-- The block of the table that holds the inode.
abbrev table_block : List ℕ
table_block = splice (replicate disk_block_size 0) (inode_offset 5) (encode_inode stored_inode)

abbrev image : HostFile
image = record {
  size = block_to_offset 16;
  content = λ o. if o == block_to_offset 8 then table_block else replicate disk_block_size 0;
}

abbrev pub opened : FsState
opened = record mounted16 {
  open_files =
      record zero_handle { inode_number = 5; flags = 3; reference_count = 1 }
      ∷ replicate 63 zero_handle;
  users = record zero_user { is_active = true } ∷ [];
  disk = record disk16 { files = λ name. some image };
}

image-sized : (b : ℕ) → length (image.content (block_to_offset b)) ≡ disk_block_size
unfolding inode_offset
image-sized b = elim (Bool-cases (block_to_offset b == block_to_offset 8)) [
  | inr e ↦ rw e (length-replicate disk_block_size zero)
  | inl e ↦ rw e (
      length-splice (replicate disk_block_size 0) (inode_offset 5) (encode_inode stored_inode)
        (omega (arith, length-encode_inode stored_inode, length-replicate disk_block_size zero))
      ∙ length-replicate disk_block_size zero)
]

opened-IsReady : IsReady opened.disk
unfolding block_to_offset
opened-IsReady = record {
  name = disk_name;
  file = image;
  initialized = refl;
  writable = refl;
  opened = refl;
  present = refl;
  full = omega arith;
  addressable = omega arith;
  sized = image-sized;
}

opened-Owns : Owns opened (2 ∷ []) stored_inode
unfolding get_data_block is_set test_bit
opened-Owns = record {
  twelve = refl;
  taken = λ i h.
      let e = stored_inode-one i h in
      subst (λ k. IsTaken opened (2 ∷ []) (get_data_block stored_inode k)) (sym e)
        (record { above = omega arith; below = omega arith; marked = refl });
  distinct = λ i j h e. stored_inode-one i h ∙ sym (stored_inode-one j (λ z. h (e ∙ z)));
}

stored_inode-InodeFits : InodeFits stored_inode
stored_inode-InodeFits = record { fits = omega arith; direct = refl }

opened-table : table_inode opened 5 ≡ stored_inode
unfolding table_inode block_at make_superblock inode_block block_to_offset inode_offset
opened-table =
    decode_spliced (replicate disk_block_size 0) (inode_offset 5) stored_inode
      (omega (arith, length-replicate disk_block_size zero)) stored_inode-InodeFits

pub opened-IsOpen : IsOpen opened 0 (2 ∷ []) stored_inode
unfolding make_superblock inode_block
opened-IsOpen = record {
  held = record {
    valid = omega arith;
    handles = refl;
    referred = omega arith;
    loaded = refl;
    mounted = record {
      ready = opened-IsReady;
      valid = one_taken-IsValid;
      room = omega arith;
      behind = omega arith;
    };
    owns = opened-Owns;
    stored = record {
      positive = omega arith;
      in_table = omega arith;
      no_wrap = omega arith;
      on_the_disk = omega arith;
    };
    in_tables = omega arith;
    fits = stored_inode-InodeFits;
    regular = refl;
  };
  holds = opened-table;
}

pub may_write : check_permission opened stored_inode perm_owner_write ≡ true
unfolding check_permission find_user_by_uid
may_write = refl

pub may_read : check_permission opened stored_inode perm_owner_read ≡ true
unfolding check_permission find_user_by_uid
may_read = refl

fs_read-fs_write_example :
    let (status, s') = fs_write steady 0 (some three) 3 opened in
    let (moved, s'') = fs_seek steady 0 0 0 s' in
    (count : ℕ) × (status ≡ ok count)
    × (count ≤ 3)
    × ((count ≡ 3) ⊎ (get_data_block stored_inode (block_index (0 + count)) ≡ 0))
    × ((count ≡ 0)
        ⊎ (((fs_tell 0 s').0 ≡ ok (0 + count))
            × (moved ≡ ok 0)
            × ((fs_read steady 0 count s'').0 ≡ ok (take count three))))
fs_read-fs_write_example =
    fs_read-fs_write steady opened 0 (2 ∷ []) stored_inode three 3 0 steady-IsReliable
      (λ k. omega arith) opened-IsOpen may_write may_read refl (omega arith) (omega arith)
      (omega arith) (omega arith)
