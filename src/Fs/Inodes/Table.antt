-- ===== src/Fs/Inodes/Table.antt =====
-- Where the inode table ends.
use caozuokeshe.Base.{ℕ, ◌≤◌, ◌<◌, ◌↔◌, arith}
use caozuokeshe.Fs.Super.{default_max_inodes, make_superblock}
use caozuokeshe.Fs.Inodes.{inode_block}

-- With the layout of `fs_ops_init_superblock`, an inode whose number is below the number of inodes lies
-- behind the beginning of the inode table, and before the data blocks exactly if its number is below
-- 888.
pub inode_block-lt-data_blocks_start :
    (now total_blocks n : ℕ)
    → n < default_max_inodes
    → let sb = make_superblock now total_blocks in
      (sb.inode_table_start ≤ inode_block sb n)
      × ((inode_block sb n < sb.data_blocks_start) ↔ (n < 888))
unfolding inode_block make_superblock
inode_block-lt-data_blocks_start now total_blocks n h =
    (omega arith, ((λ k. omega arith), (λ k. omega arith)))
