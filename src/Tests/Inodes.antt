-- ===== src/Tests/Inodes.antt =====
-- The inode table and the packed structs at concrete inputs.
use caozuokeshe.Base.{◌≤◌, ◌<◌, ◌≡◌, ◌↔◌, refl, arith, replicate}
use caozuokeshe.Errors.{ok}
use caozuokeshe.Codec.{encode_struct}
use caozuokeshe.Layout.{Superblock, superblock_checksum, calculate_checksum}
use caozuokeshe.Fs.State.{FsState}
use caozuokeshe.Fs.Super.{make_superblock, write_superblock, read_superblock}
use caozuokeshe.Fs.Super.Laws.{read_superblock-write_superblock}
use caozuokeshe.Fs.Inodes.{inode_block, read_inode, write_inode}
use caozuokeshe.Fs.Inodes.Laws.{IsStored, read_inode-write_inode, read_inode-write_inode_ne}
use caozuokeshe.Fs.Inodes.Table.{inode_block-lt-data_blocks_start}
use caozuokeshe.Tests.Data.{
  good, good-IsReliable, disk16-IsReady, state16, small_inode, small_inode-InodeFits,
}

stored5 : IsStored state16 5
unfolding make_superblock inode_block
stored5 = record {
  positive = omega arith;
  in_table = omega arith;
  no_wrap = omega arith;
  on_the_disk = omega arith;
}

stored4 : IsStored state16 4
unfolding make_superblock inode_block
stored4 = record {
  positive = omega arith;
  in_table = omega arith;
  no_wrap = omega arith;
  on_the_disk = omega arith;
}

read_inode-write_inode_example :
    ((write_inode good 5 small_inode state16).0 ≡ ok tt)
    × ((read_inode good 5 (write_inode good 5 small_inode state16).1).0 ≡ ok small_inode)
read_inode-write_inode_example =
    read_inode-write_inode good state16 5 small_inode good-IsReliable disk16-IsReady stored5
      small_inode-InodeFits

read_inode-write_inode_ne_example :
    (read_inode good 4 (write_inode good 5 small_inode state16).1).0 ≡ (read_inode good 4 state16).0
read_inode-write_inode_ne_example =
    read_inode-write_inode_ne good state16 4 5 small_inode good-IsReliable disk16-IsReady stored4
      stored5 (omega arith)

inode_block-lt-data_blocks_start_example :
    ((make_superblock 0 8192).inode_table_start ≤ inode_block (make_superblock 0 8192) 900)
    × ((inode_block (make_superblock 0 8192) 900 < (make_superblock 0 8192).data_blocks_start)
        ↔ (900 < 888))
inode_block-lt-data_blocks_start_example = inode_block-lt-data_blocks_start 0 8192 900 (omega arith)

abbrev plain_superblock : Superblock
plain_superblock = record {
  magic_number = 1397117729;
  version = 1;
  block_size = 1024;
  total_blocks = 16;
  total_inodes = 1024;
  free_blocks = 4;
  free_inodes = 1023;
  inode_table_start = 8;
  inode_table_blocks = 148;
  data_blocks_start = 156;
  root_inode = 1;
  mount_count = 0;
  max_mount_count = 100;
  created_time = 7;
  last_mount_time = 7;
  last_write_time = 7;
  last_check_time = 7;
  reserved = replicate 16 0;
  checksum = 0xdeadbeef;
}

-- With its own checksum.
abbrev sealed_superblock : Superblock
sealed_superblock = record plain_superblock { checksum = 963533949 }

sealed : sealed_superblock.checksum ≡ superblock_checksum sealed_superblock
unfolding superblock_checksum calculate_checksum encode_struct
sealed = refl

abbrev sealed16 : FsState
sealed16 = record state16 { superblock = sealed_superblock }

read_superblock-write_superblock_example :
    let (status, s') = write_superblock good sealed16 in
    let (status', t) = read_superblock good (record s' { superblock = plain_superblock }) in
    (status ≡ ok tt) × (status' ≡ ok tt) × (t.superblock ≡ sealed_superblock)
read_superblock-write_superblock_example =
    read_superblock-write_superblock good sealed16 plain_superblock good-IsReliable disk16-IsReady
      (omega arith) (record { fits = omega arith; reserve = refl }) refl sealed
