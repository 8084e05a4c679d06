-- ===== src/Disk/Host.antt =====
-- The host's file system as the simulator uses it: the files, and how the calls `open`, `lseek`,
-- `read`, `write`, `fsync`, `time` and `calloc` turn out. The simulator writes a file in chunks at fixed
-- offsets, its header at 0 and each block at `DISK_BLOCK_TO_OFFSET`, and reads it in the same
-- chunks, so the contents of a file are a chunk for each offset.
use caozuokeshe.Base.{
  ℕ, ◌+◌, ◌≡◌, Bool, true, Option, List, ◌++◌, ltb, ◌==◌, if◌then◌else◌, take, drop, str_eq,
}

pub record HostFile : Type 0 where
  pub size : ℕ
  pub content : ℕ → List ℕ

abbrev pub Files : Type 0
Files = List ℕ → Option HostFile

-- How the `n`-th call of the host turns out. `write_count n k` is how many of `k` bytes a `write`
-- takes; any other number than `k` is a failure to the simulator.
pub record Host : Type 0 where
  pub open_ok : ℕ → Bool
  pub seek_ok : ℕ → Bool
  pub read_ok : ℕ → Bool
  pub sync_ok : ℕ → Bool
  pub write_count : ℕ → ℕ → ℕ
  pub alloc_ok : ℕ → Bool
  pub time : ℕ → ℕ

-- A host on which no call fails.
pub record IsReliable (host : Host) : Type 0 where
  pub opens : (n : ℕ) → host.open_ok n ≡ true
  pub seeks : (n : ℕ) → host.seek_ok n ≡ true
  pub reads : (n : ℕ) → host.read_ok n ≡ true
  pub syncs : (n : ℕ) → host.sync_ok n ≡ true
  pub allocs : (n : ℕ) → host.alloc_ok n ≡ true
  pub writes : (n k : ℕ) → host.write_count n k ≡ k

abbrev pub put_file : Files → List ℕ → Option HostFile → Files
put_file files name f other = if str_eq other name then f else files other

-- The first `k` bytes of `new` written over `old` at `offset`.
abbrev pub put_chunk : HostFile → (offset k : ℕ) → List ℕ → HostFile
put_chunk f offset k new = record f {
  size = if ltb f.size (offset + k) then offset + k else f.size;
  content = λ o. if o == offset then take k new ++ drop k (f.content o) else f.content o;
}
