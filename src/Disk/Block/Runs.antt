-- ===== src/Disk/Block/Runs.antt =====
-- `disk_write_blocks` and `disk_read_blocks` over a run of blocks.
use caozuokeshe.Base.{ℕ, zero, suc, ◌+◌, ◌<◌, ◌≤◌, ◌≡◌, List, [], ◌++◌}
use caozuokeshe.Disk.Host.{Host}
use caozuokeshe.Disk.Block.{Disk, DiskStatus, success}
use caozuokeshe.Disk.Block.Laws.{Keeps, block_at}

-- The bytes of `rounds` blocks from `start` on.
pub run_at : Disk → (start rounds : ℕ) → List ℕ
run_at d start zero = []
run_at d start (suc rounds) = block_at d start ++ run_at d (start + 1) rounds

-- What a run of reads returns.
pub record ReadsRun (d : Disk) (start rounds : ℕ) (r : DiskStatus × List ℕ × Disk) : Type 0 where
  pub succeeds : r.0 ≡ success
  pub bytes : r.1 ≡ run_at d start rounds
  pub keeps : Keeps d r.2
  pub same : (c : ℕ) → block_at r.2 c ≡ block_at d c

-- What a run of writes does.
pub record WritesRun (d : Disk) (start rounds : ℕ) (new : List ℕ) (r : DiskStatus × Disk)
    : Type 0 where
  pub succeeds : r.0 ≡ success
  pub keeps : Keeps d r.1
  pub written : run_at r.1 start rounds ≡ new
  pub before : (c : ℕ) → c < start → block_at r.1 c ≡ block_at d c
  pub behind : (c : ℕ) → start + rounds ≤ c → block_at r.1 c ≡ block_at d c
