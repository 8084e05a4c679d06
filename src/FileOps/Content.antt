-- ===== src/FileOps/Content.antt =====
-- The bytes of a file, as its inode and the disk give them, and which data blocks a file owns.
pub mod Alloc
pub mod Round
pub mod Write
pub mod Read
use caozuokeshe.Base.{ℕ, ◌+◌, ◌-◌, ◌<◌, ◌≤◌, ◌≡◌, ◌≢◌, ap, ◌∙◌, true, List, length, get_or}
use caozuokeshe.Layout.{Inode, direct_block_count}
use caozuokeshe.Bitmap.{is_set}
use caozuokeshe.Bitmap.Invariant.{IsValid}
use caozuokeshe.Disk.Block.{Disk}
use caozuokeshe.Disk.Block.Laws.{IsReady, block_at}
use caozuokeshe.Fs.State.{FsState}
use caozuokeshe.FileOps.Blocks.{block_index, block_offset, get_data_block}

-- The byte of a file at an offset.
unfoldable pub byte_at : Disk → Inode → (file_offset : ℕ) → ℕ
byte_at d inode file_offset =
    get_or (block_at d (get_data_block inode (block_index file_offset))) (block_offset file_offset)
      0

pub byte_at-ext :
    (d d' : Disk) (inode inode' : Inode) (k : ℕ)
    → d' ≡ d
    → get_data_block inode' (block_index k) ≡ get_data_block inode (block_index k)
    → byte_at d' inode' k ≡ byte_at d inode k
unfolding byte_at
byte_at-ext d d' inode inode' k same e =
    ap (λ b. get_or (block_at d' b) (block_offset k) 0) e
    ∙ ap (λ x. get_or (block_at x (get_data_block inode (block_index k))) (block_offset k) 0) same

-- Disks with the same blocks give a file the same bytes.
pub byte_at-blocks :
    (d d' : Disk) (inode : Inode) (k : ℕ)
    → ((c : ℕ) → block_at d' c ≡ block_at d c)
    → byte_at d' inode k ≡ byte_at d inode k
unfolding byte_at
byte_at-blocks d d' inode k same =
    ap (λ block. get_or block (block_offset k) 0) (same (get_data_block inode (block_index k)))

-- The disk and the block bitmap fit each other: the bitmap, whose bytes are `bits`, is valid, and the
-- data blocks that it stands for lie on the disk, behind the blocks of the tables.
pub record IsMounted (s : FsState) (bits : List ℕ) : Type 0 where
  pub ready : IsReady s.disk
  pub valid : IsValid s.block_bitmap bits
  pub room : s.superblock.data_blocks_start + s.block_bitmap.total_bits ≤ s.disk.total_blocks
  pub behind : 0 < s.superblock.data_blocks_start

-- The data block `b` is on the disk and marked in the bitmap.
pub record IsTaken (s : FsState) (bits : List ℕ) (b : ℕ) : Type 0 where
  pub above : s.superblock.data_blocks_start ≤ b
  pub below : b < s.superblock.data_blocks_start + s.block_bitmap.total_bits
  pub marked : is_set bits (b - s.superblock.data_blocks_start) ≡ true

-- An inode whose blocks are its own: each is taken, and none is used twice.
pub record Owns (s : FsState) (bits : List ℕ) (inode : Inode) : Type 0 where
  pub twelve : length inode.direct_blocks ≡ direct_block_count
  pub taken : (i : ℕ) → get_data_block inode i ≢ 0 → IsTaken s bits (get_data_block inode i)
  pub distinct :
      (i j : ℕ)
      → get_data_block inode i ≢ 0
      → get_data_block inode i ≡ get_data_block inode j
      → i ≡ j
