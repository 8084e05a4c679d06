-- ===== src/Disk/Session.antt =====
-- The disk's life: the header of its file, `disk_init`, `disk_sync`, `disk_close`, `disk_format`
-- and the queries of disk_simulator.c.
pub mod Laws
pub mod Reopen
use caozuokeshe.Base.{
  ℕ, zero, suc, ◌+◌, ◌-◌, ◌*◌, ◌/◌, ◌%◌, ◌^◌, Bool, true, false, not, ◌&&◌, ◌||◌, Option, none,
  some, List, [], ◌∷◌, ◌++◌, ltb, leb, ◌==◌, if◌then◌else◌, take, drop, replicate, get_or, length,
  min,
}
use caozuokeshe.Codec.{encode_struct, decode_struct}
use caozuokeshe.Disk.Host.{Host, HostFile, Files, put_file, put_chunk}
use caozuokeshe.Disk.Block.{
  Disk, DiskStats, zero_stats, DiskStatus, success, invalid_param, file_open, file_create,
  file_read, file_write, file_seek, not_init, already_init, io, corrupted, disk_block_size,
  header_size, block_to_offset, check_block_bounds, write_block, called, not_positive,
}

abbrev pub disk_magic_header : ℕ
disk_magic_header = 0x44534B21

abbrev pub disk_version : ℕ
disk_version = 1

-- `disk_header_t`
pub record DiskHeader : Type 0 where
  pub magic_number : ℕ
  pub version : ℕ
  pub block_size : ℕ
  pub total_blocks : ℕ
  pub disk_size : ℕ
  pub created_time : ℕ
  pub last_access_time : ℕ
  pub checksum : ℕ
  pub reserved : List ℕ

-- The fields before `created_time`, which the checksum covers.
abbrev pub stable_widths : List ℕ
stable_widths = 4 ∷ 4 ∷ 4 ∷ 4 ∷ 4 ∷ []

abbrev pub stable_values : DiskHeader → List ℕ
stable_values h = h.magic_number ∷ h.version ∷ h.block_size ∷ h.total_blocks ∷ h.disk_size ∷ []

abbrev pub header_widths : List ℕ
header_widths = stable_widths ++ (8 ∷ 8 ∷ 4 ∷ replicate 32 1)

abbrev pub header_values : DiskHeader → List ℕ
header_values h = stable_values h ++ (h.created_time ∷ h.last_access_time ∷ h.checksum ∷ h.reserved)

abbrev pub header_of_values : List ℕ → DiskHeader
header_of_values vs = record {
  magic_number = get_or vs 0 0;
  version = get_or vs 1 0;
  block_size = get_or vs 2 0;
  total_blocks = get_or vs 3 0;
  disk_size = get_or vs 4 0;
  created_time = get_or vs 5 0;
  last_access_time = get_or vs 6 0;
  checksum = get_or vs 7 0;
  reserved = drop 8 vs;
}

unfoldable pub encode_header : DiskHeader → List ℕ
encode_header h = encode_struct header_widths (header_values h)

unfoldable pub decode_header : List ℕ → DiskHeader
decode_header bytes = header_of_values (decode_struct header_widths bytes)

-- The loop of `calculate_checksum`: add a byte, then rotate the word left by one. The lowest bit of
-- `checksum << 1` is 0, so `|` with the top bit is addition.
rotate_sum : (checksum : ℕ) (bytes : List ℕ) → ℕ
rotate_sum checksum [] = checksum
rotate_sum checksum (byte ∷ bytes) =
    let sum = (checksum + byte) % 2 ^ 32 in rotate_sum (sum * 2 % 2 ^ 32 + sum / 2 ^ 31) bytes

unfoldable pub header_checksum : List ℕ → ℕ
unfolding rotate_sum
header_checksum bytes = rotate_sum 0 bytes

-- The checksum of the fields before `created_time`.
unfoldable pub stable_checksum : DiskHeader → ℕ
stable_checksum h = header_checksum (encode_struct stable_widths (stable_values h))

-- `create_disk_header`; `disk_size` is cut to the `uint32_t` of the field.
unfoldable pub create_disk_header : (now total_blocks : ℕ) → DiskHeader
create_disk_header now total_blocks = record fresh { checksum = stable_checksum fresh }
  where
    fresh : DiskHeader
    fresh = record {
      magic_number = disk_magic_header;
      version = disk_version;
      block_size = disk_block_size;
      total_blocks = total_blocks;
      disk_size = total_blocks * disk_block_size % 2 ^ 32;
      created_time = now;
      last_access_time = now;
      checksum = 0;
      reserved = replicate 32 0;
    }

-- `validate_disk_header`
unfoldable pub validate_disk_header : DiskHeader → DiskStatus
validate_disk_header h =
    if not (h.magic_number == disk_magic_header)
    then corrupted
    else if not (h.version == disk_version)
    then corrupted
    else if not (h.block_size == disk_block_size)
    then corrupted
    else if not (stable_checksum h == h.checksum)
    then corrupted
    else success

-- `memset(&g_disk_state, 0, ...)`, which leaves the host's files as they are. `fd` is then 0, which
-- is no file of the disk.
abbrev pub reset : Disk → Disk
reset d = record {
  fd = none;
  filename = [];
  total_blocks = 0;
  block_size = 0;
  disk_size = 0;
  is_initialized = false;
  is_read_only = false;
  is_dirty = false;
  stats = zero_stats;
  auto_sync = false;
  last_sync_time = 0;
  files = d.files;
  calls = d.calls;
}

-- The end of `disk_init`.
abbrev finish_init : Host → Disk → DiskStatus × Disk
finish_init host d = (
  success,
  called (record d {
    block_size = disk_block_size;
    is_initialized = true;
    is_read_only = false;
    is_dirty = false;
    auto_sync = false;
    last_sync_time = host.time d.calls;
  }),
)

-- `disk_init` on a file that exists: open, read and validate its header, and check its size. Where
-- it fails the descriptor has been closed.
open_existing : Host → Disk → (name : List ℕ) → HostFile → DiskStatus × Disk
open_existing host d name f =
    if not (host.open_ok d.calls)
    then (file_open, called d)
    else if not (host.read_ok (d.calls + 1) && leb header_size f.size)
    then (file_read, called (called d))
    else elim (validate_disk_header header) [
      | success ↦
          if ltb f.size (block_to_offset header.total_blocks)
          then (corrupted, record sized { fd = none })
          else finish_init host sized
      | other ↦ (other, called (called d))
    ]
  where
    header : DiskHeader
    header = decode_header (f.content 0)

    sized : Disk
    sized = record d {
      fd = some name;
      total_blocks = header.total_blocks;
      disk_size = header.disk_size;
      calls = d.calls + 2;
    }

-- An empty file: a read finds zeros wherever nothing has been written.
abbrev pub empty_file : HostFile
empty_file = record { size = 0; content = λ o. replicate disk_block_size 0 }

-- The file of a new disk: its header at 0, and room for its blocks.
unfoldable pub new_file : (now total_blocks : ℕ) → HostFile
new_file now total_blocks = record {
  size = block_to_offset total_blocks;
  content = λ o.
      if o == 0 then encode_header (create_disk_header now total_blocks) else empty_file.content o;
}

-- `disk_init` on a file that does not exist: create it, write the header, and write one zero as its
-- last byte. The chunk at 0 is the header's alone. Where a write or a seek fails the file is removed.
create_new : Host → Disk → (name : List ℕ) → (disk_size : ℕ) → DiskStatus × Disk
create_new host d name disk_size =
    let total = disk_size / disk_block_size in
    if not (host.open_ok d.calls)
    then (file_create, called d)
    else if not (host.write_count (d.calls + 2) header_size == header_size)
    then (file_write, record d { files = put_file d.files name none; calls = d.calls + 3 })
    else if not (host.seek_ok (d.calls + 3))
    then (file_seek, record d { files = put_file d.files name none; calls = d.calls + 4 })
    else if not (host.write_count (d.calls + 4) 1 == 1)
    then (file_write, record d { files = put_file d.files name none; calls = d.calls + 5 })
    else finish_init host (record d {
      fd = some name;
      files = put_file d.files name (some (new_file (host.time (d.calls + 1)) total));
      total_blocks = total;
      disk_size = disk_size;
      calls = d.calls + 5;
    })

-- `disk_init`; `disk_size` is the pattern of an `int`.
unfoldable pub disk_init : Host → Disk → Option (List ℕ) → (disk_size : ℕ) → DiskStatus × Disk
unfolding open_existing create_new
disk_init host d filename disk_size = elim filename [
  | none ↦ (invalid_param, d)
  | some name ↦
      if not_positive disk_size
      then (invalid_param, d)
      else if d.is_initialized
      then (already_init, d)
      else if not (disk_size % disk_block_size == 0)
      then (invalid_param, d)
      else if disk_size / disk_block_size == 0
      then (invalid_param, d)
      else elim (d.files name) [
        | some f ↦ open_existing host (record (reset d) { filename = take 255 name }) name f
        | none ↦ create_new host (record (reset d) { filename = take 255 name }) name disk_size
      ]
]

-- `disk_sync`
unfoldable pub disk_sync : Host → Disk → DiskStatus × Disk
disk_sync host d = if not d.is_initialized then (not_init, d) else elim d.fd [
  | none ↦ (io, d)
  | some name ↦ if not (host.sync_ok d.calls) then (io, called d) else (
    success,
    record d { is_dirty = false; last_sync_time = host.time (d.calls + 1); calls = d.calls + 2 },
  )
]

-- `disk_close`; what `disk_sync` returns is not looked at.
unfoldable pub disk_close : Host → Disk → DiskStatus × Disk
unfolding disk_sync
disk_close host d =
    if not d.is_initialized
    then (not_init, d)
    else (success, reset (if d.is_dirty then (disk_sync host d).1 else d))

-- The loop of `disk_format`, from block `i` on, with `rounds` blocks left.
format_loop : Host → (pattern rounds : ℕ) → Disk → (i : ℕ) → DiskStatus × Disk
format_loop host pattern zero d i = disk_sync host d
format_loop host pattern (suc rounds) d i =
    let (status, d') = write_block host d i (some (replicate disk_block_size pattern)) in
    elim status [ success ↦ format_loop host pattern rounds d' (i + 1) | other ↦ (other, d') ]

-- `disk_format`
unfoldable pub disk_format : Host → Disk → (pattern : ℕ) → DiskStatus × Disk
unfolding format_loop
disk_format host d pattern =
    if not d.is_initialized
    then (not_init, d)
    else if d.is_read_only
    then (io, d)
    else format_loop host pattern d.total_blocks d 0

-- `disk_get_info` with no null pointer among its arguments: blocks, block size, disk size.
unfoldable pub disk_get_info : Disk → DiskStatus × ℕ × ℕ × ℕ
disk_get_info d =
    if d.is_initialized
    then (success, d.total_blocks, d.block_size, d.disk_size)
    else (not_init, 0, 0, 0)

-- `disk_get_stats` into a buffer that is not null
unfoldable pub disk_get_stats : Disk → DiskStatus × DiskStats
disk_get_stats d = if d.is_initialized then (success, d.stats) else (not_init, zero_stats)

-- `disk_reset_stats`
unfoldable pub disk_reset_stats : Disk → DiskStatus × Disk
disk_reset_stats d =
    if d.is_initialized then (success, record d { stats = zero_stats }) else (not_init, d)

-- `disk_get_block_count`
unfoldable pub disk_get_block_count : Disk → ℕ
disk_get_block_count d = if d.is_initialized then d.total_blocks else 0

-- `disk_is_valid_block`
unfoldable pub disk_is_valid_block : Disk → ℕ → Bool
disk_is_valid_block d block_num = check_block_bounds d block_num
