-- ===== src/Disk/Block.antt =====
-- The disk's state, and reading and writing one block: disk_simulator.h, and of disk_simulator.c
-- `disk_write_block`, `disk_read_block` and the functions over several blocks.
pub mod Laws
pub mod Runs
use caozuokeshe.Base.{
  ℕ, zero, suc, ◌+◌, ◌-◌, ◌*◌, ◌/◌, ◌%◌, ◌^◌, Bool, true, false, not, ◌&&◌, ◌||◌, Option, none,
  some, List, [], ◌∷◌, ◌++◌, ltb, leb, ◌==◌, if◌then◌else◌, take, drop, replicate, str_eq, min,
}
use caozuokeshe.Disk.Host.{Host, HostFile, Files, put_file, put_chunk}

abbrev pub disk_block_size : ℕ
disk_block_size = 1024

-- `sizeof(disk_header_t)`
abbrev pub header_size : ℕ
header_size = 72

-- `disk_error_t`
pub data DiskStatus : Type 0 where
  success invalid_param file_open file_create file_read file_write file_seek : DiskStatus
  block_range not_init already_init disk_full io corrupted : DiskStatus

-- `disk_stats_t` without the two running averages of elapsed time, which are floating-point.
pub record DiskStats : Type 0 where
  pub total_reads : ℕ
  pub total_writes : ℕ
  pub bytes_read : ℕ
  pub bytes_written : ℕ
  pub read_errors : ℕ
  pub write_errors : ℕ
  pub last_operation_time : ℕ

abbrev pub zero_stats : DiskStats
zero_stats = record {
  total_reads = 0;
  total_writes = 0;
  bytes_read = 0;
  bytes_written = 0;
  read_errors = 0;
  write_errors = 0;
  last_operation_time = 0;
}

-- `disk_state_t`, with the files of the host and the number of calls made to it. `fd` is the name
-- of the file that the descriptor stands for, `none` where it stands for none.
pub record Disk : Type 0 where
  pub fd : Option (List ℕ)
  pub filename : List ℕ
  pub total_blocks : ℕ
  pub block_size : ℕ
  pub disk_size : ℕ
  pub is_initialized : Bool
  pub is_read_only : Bool
  pub is_dirty : Bool
  pub stats : DiskStats
  pub auto_sync : Bool
  pub last_sync_time : ℕ
  pub files : Files
  pub calls : ℕ

-- `uint64_t` counters
abbrev pub add64 : ℕ → ℕ → ℕ
add64 a b = (a + b) % 2 ^ 64

-- One more call of the host.
abbrev pub called : Disk → Disk
called d = record d { calls = d.calls + 1 }

-- `update_stats_read`, but for `avg_read_time`
update_stats_read : Host → Disk → ℕ → Disk
update_stats_read host d bytes = called (record d {
  stats = record (d.stats) {
    total_reads = add64 d.stats.total_reads 1;
    bytes_read = add64 d.stats.bytes_read bytes;
    last_operation_time = host.time d.calls;
  };
})

-- `update_stats_write`, but for `avg_write_time`
update_stats_write : Host → Disk → ℕ → Disk
update_stats_write host d bytes = called (record d {
  stats = record (d.stats) {
    total_writes = add64 d.stats.total_writes 1;
    bytes_written = add64 d.stats.bytes_written bytes;
    last_operation_time = host.time d.calls;
  };
  is_dirty = true;
})

abbrev count_read_error : Disk → Disk
count_read_error d = record d {
  stats = record (d.stats) { read_errors = add64 d.stats.read_errors 1 };
}

abbrev count_write_error : Disk → Disk
count_write_error d = record d {
  stats = record (d.stats) { write_errors = add64 d.stats.write_errors 1 };
}

-- `DISK_BLOCK_TO_OFFSET`
unfoldable pub block_to_offset : ℕ → ℕ
block_to_offset block_num = header_size + block_num * disk_block_size

-- `disk_check_block_bounds`. An `int` is given by its 32-bit pattern, negative from 2 ^ 31 on.
unfoldable pub check_block_bounds : Disk → ℕ → Bool
check_block_bounds d block_num =
    ltb block_num (2 ^ 31) && (d.is_initialized && ltb block_num d.total_blocks)

-- `write(fd, data, k)` at an offset: how many bytes it took.
write_file : Host → Disk → (offset : ℕ) → List ℕ → (k : ℕ) → ℕ × Disk
write_file host d offset bytes k = elim d.fd [
  | none ↦ (0, called d)
  | some name ↦ elim (d.files name) [
    | none ↦ (0, called d)
    | some f ↦ (
      host.write_count d.calls k,
      record d {
        files =
            put_file d.files name
              (some (put_chunk f offset (min k (host.write_count d.calls k)) bytes));
        calls = d.calls + 1;
      },
    )
  ]
]

-- `read(fd, buffer, k)` at an offset: the bytes, where it read them all.
read_file : Host → Disk → (offset k : ℕ) → Option (List ℕ)
read_file host d offset k = elim d.fd [
  | none ↦ none
  | some name ↦ elim (d.files name) [
    | none ↦ none
    | some f ↦
        if host.read_ok d.calls && leb (offset + k) f.size then some (f.content offset) else none
  ]
]

-- `fsync` after a write, where `auto_sync` is on; what it returns is not looked at.
abbrev pub sync_after_write : Disk → Disk
sync_after_write d = if d.auto_sync then called d else d

-- The part of `disk_write_block` behind its checks: seek, write, count.
write_at : Host → Disk → (offset : ℕ) → List ℕ → DiskStatus × Disk
unfolding write_file update_stats_write
write_at host d offset bytes =
    if host.seek_ok d.calls
    then (let (count, d') = write_file host (called d) offset bytes disk_block_size in
        if count == disk_block_size
        then (success, sync_after_write (update_stats_write host d' disk_block_size))
        else (file_write, count_write_error d'))
    else (file_seek, count_write_error (called d))

-- `disk_write_block`; `none` is a null pointer.
unfoldable pub write_block : Host → Disk → (block_num : ℕ) → Option (List ℕ) → DiskStatus × Disk
unfolding write_at
write_block host d block_num buffer = elim buffer [
  | none ↦ (invalid_param, d)
  | some bytes ↦
      if not d.is_initialized
      then (not_init, d)
      else if d.is_read_only
      then (io, d)
      else if not (check_block_bounds d block_num)
      then (block_range, d)
      else write_at host d (block_to_offset block_num) bytes
]

-- The part of `disk_read_block` behind its checks.
read_at : Host → Disk → (offset : ℕ) → DiskStatus × List ℕ × Disk
unfolding read_file update_stats_read
read_at host d offset =
    if host.seek_ok d.calls
    then elim (read_file host (called d) offset disk_block_size) [
      | none ↦ (file_read, [], count_read_error (called (called d)))
      | some bytes ↦ (success, bytes, update_stats_read host (called (called d)) disk_block_size)
    ]
    else (file_seek, [], count_read_error (called d))

-- `disk_read_block` into a buffer that is not null: the status, and what a success puts there.
unfoldable pub read_block : Host → Disk → (block_num : ℕ) → DiskStatus × List ℕ × Disk
unfolding read_at
read_block host d block_num =
    if not d.is_initialized
    then (not_init, [], d)
    else if not (check_block_bounds d block_num)
    then (block_range, [], d)
    else read_at host d (block_to_offset block_num)

-- `disk_zero_block`
unfoldable pub zero_block : Host → Disk → ℕ → DiskStatus × Disk
zero_block host d block_num = write_block host d block_num (some (replicate disk_block_size 0))

-- `disk_copy_block`
unfoldable pub copy_block : Host → Disk → (src dst : ℕ) → DiskStatus × Disk
copy_block host d src dst =
    let (status, bytes, d') = read_block host d src in
    elim status [ success ↦ write_block host d' dst (some bytes) | other ↦ (other, d') ]

-- The loop of `disk_write_blocks`, from block `start` on, with `rounds` blocks left.
write_loop : Host → (rounds : ℕ) → Disk → (start : ℕ) → List ℕ → DiskStatus × Disk
write_loop host zero d start bytes = (success, d)
write_loop host (suc rounds) d start bytes =
    let (status, d') = write_block host d start (some (take disk_block_size bytes)) in
    elim status [
      | success ↦ write_loop host rounds d' ((start + 1) % 2 ^ 32) (drop disk_block_size bytes)
      | other ↦ (other, d')
    ]

-- An `int` of this pattern is zero or negative.
abbrev pub not_positive : ℕ → Bool
not_positive n = (n == 0) || leb (2 ^ 31) n

-- `disk_write_blocks`
unfoldable pub write_blocks : Host → Disk → (start count : ℕ) → Option (List ℕ) → DiskStatus × Disk
unfolding write_loop
write_blocks host d start count buffer = elim buffer [
  | none ↦ (invalid_param, d)
  | some bytes ↦
      if not_positive count then (invalid_param, d) else write_loop host count d start bytes
]

-- The loop of `disk_read_blocks`: the blocks read one after the other.
read_loop : Host → (rounds : ℕ) → Disk → (start : ℕ) → DiskStatus × List ℕ × Disk
read_loop host zero d start = (success, [], d)
read_loop host (suc rounds) d start =
    let (status, bytes, d') = read_block host d start in
    elim status [
      | success ↦
          let (status', rest, d'') = read_loop host rounds d' ((start + 1) % 2 ^ 32) in
          (status', bytes ++ rest, d'')
      | other ↦ (other, [], d')
    ]

-- `disk_read_blocks` into a buffer that is not null
unfoldable pub read_blocks : Host → Disk → (start count : ℕ) → DiskStatus × List ℕ × Disk
unfolding read_loop
read_blocks host d start count =
    if not_positive count then (invalid_param, [], d) else read_loop host count d start
