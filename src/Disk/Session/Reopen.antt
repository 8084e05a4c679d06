-- ===== src/Disk/Session/Reopen.antt =====
-- About `disk_init` on a file that is there, `disk_close` and `disk_format`.
use caozuokeshe.Base.{
  ℕ, zero, suc, ◌+◌, ◌%◌, ◌^◌, ◌<◌, ◌≤◌, ◌≡◌, refl, sym, ◌∙◌, true, false, some, List, arith,
  length, if_ne, if_same, take, replicate, length-replicate,
}
use native.Mathlib.Decide.{dec_lt}
use caozuokeshe.Disk.Host.{Host, HostFile, IsReliable}
use caozuokeshe.Disk.Block.{
  Disk, zero_stats, success, disk_block_size, header_size, block_to_offset, write_block,
}
use caozuokeshe.Disk.Block.Laws.{IsReady, block_at, write_block-Writes}
use caozuokeshe.Disk.Session.{
  encode_header, decode_header, create_disk_header, validate_disk_header, disk_init, disk_sync,
  disk_close, disk_format, format_loop, open_existing,
}
use caozuokeshe.Disk.Session.Laws.{
  decode_header-create_disk_header, create_disk_header-valid, block_count-create_disk_header,
}

-- A file of the host that holds a whole disk of `total` blocks.
pub record IsDiskFile (f : HostFile) (now total : ℕ) : Type 0 where
  pub header : f.content 0 ≡ encode_header (create_disk_header now total)
  pub timed : now < 2 ^ 64
  pub full : block_to_offset total ≤ f.size
  pub addressable : total < 2 ^ 31
  pub sized : (b : ℕ) → length (f.content (block_to_offset b)) ≡ disk_block_size

-- The disk that `disk_init` leaves where the file was there.
abbrev reopened : Host → Disk → List ℕ → HostFile → ℕ → Disk
reopened host d name f now = record {
  fd = some name;
  filename = take 255 name;
  total_blocks = (decode_header (f.content 0)).total_blocks;
  block_size = disk_block_size;
  disk_size = (decode_header (f.content 0)).disk_size;
  is_initialized = true;
  is_read_only = false;
  is_dirty = false;
  stats = zero_stats;
  auto_sync = false;
  last_sync_time = host.time (d.calls + 2);
  files = d.files;
  calls = d.calls + 2 + 1;
}

module _ (host : Host) (d : Disk) (name : List ℕ) (f : HostFile) (now total size : ℕ)
    (reliable : IsReliable host) (shut : d.is_initialized ≡ false) (present : d.files name ≡ some f)
    (whole : IsDiskFile f now total) (pos : 0 < size) (small : size < 2 ^ 31)
    (aligned : size % disk_block_size ≡ 0) where
  header_read : decode_header (f.content 0) ≡ create_disk_header now total
  header_read =
      rw whole.header
        (decode_header-create_disk_header now total whole.timed (omega (arith, whole.addressable)))

  total_read : (decode_header (f.content 0)).total_blocks ≡ total
  total_read = rw header_read (block_count-create_disk_header now total)

  valid_read : validate_disk_header (decode_header (f.content 0)) ≡ success
  valid_read = rw header_read (create_disk_header-valid now total)

  long_enough : header_size ≤ f.size
  unfolding block_to_offset
  long_enough = omega (arith, whole.full)

  disk_init-reopened : disk_init host d (some name) size ≡ (success, reopened host d name f now)
  unfolding disk_init open_existing
  disk_init-reopened = ground (
    arith,
    present,
    reliable.opens d.calls,
    reliable.reads (d.calls + 1),
    long_enough,
    valid_read,
    total_read,
    whole.full,
  )

  -- On a reliable host, with a disk that is shut and a valid size asked for, `disk_init` on a file that
  -- holds a whole disk succeeds: the disk is ready, with the number of blocks of the file's header,
  -- whatever size was asked for, and with the blocks of the file.
  pub disk_init-existing :
      let (status, d') = disk_init host d (some name) size in
      (status ≡ success)
      × IsReady d'
      × (d'.total_blocks ≡ total)
      × ((b : ℕ) → block_at d' b ≡ f.content (block_to_offset b))
  unfolding block_at
  disk_init-existing = rw disk_init-reopened (
    refl,
    record {
      name = name;
      file = f;
      initialized = refl;
      writable = refl;
      opened = refl;
      present = present;
      full = rw total_read whole.full;
      addressable = rw total_read whole.addressable;
      sized = whole.sized;
    },
    total_read,
    λ b. ground (arith, present),
  )

block_of_ready :
    (d : Disk) (r : IsReady d) (b : ℕ) → block_at d b ≡ r.file.content (block_to_offset b)
unfolding block_at
block_of_ready d r b = ground (arith, r.opened, r.present)

-- What `disk_close` leaves: a shut disk, and the host's files as they were.
module _ (host : Host) (d : Disk) (up : d.is_initialized ≡ true) where
  disk_sync-files : (disk_sync host d).1.files ≡ d.files
  unfolding disk_sync
  disk_sync-files = ground arith

  pub disk_close-shut :
      ((disk_close host d).0 ≡ success)
      × ((disk_close host d).1.is_initialized ≡ false)
      × ((disk_close host d).1.files ≡ d.files)
  unfolding disk_close
  disk_close-shut = (ground arith, ground arith, ground (arith, disk_sync-files))

-- On a reliable host, `disk_close` of a ready disk whose file has a valid header succeeds, whether or
-- not it has to sync, and a `disk_init` of the same file with any valid size then succeeds with a ready
-- disk of the same number of blocks and every block as it was.
pub disk_init-disk_close :
    (host : Host) (d : Disk) (r : IsReady d) (now size : ℕ)
    → IsReliable host
    → IsDiskFile r.file now d.total_blocks
    → 0 < size
    → size < 2 ^ 31
    → size % disk_block_size ≡ 0
    → let (closed, d') = disk_close host d in
      let (status, d'') = disk_init host d' (some r.name) size in
      (closed ≡ success)
      × (status ≡ success)
      × IsReady d''
      × (d''.total_blocks ≡ d.total_blocks)
      × ((b : ℕ) → block_at d'' b ≡ block_at d b)
disk_init-disk_close host d r now size reliable whole pos small aligned =
    let (closed, shut, files) = disk_close-shut host d r.initialized in
    let present : (disk_close host d).1.files r.name ≡ some r.file = rw files r.present in
    let (status, ready, total, blocks) =
      disk_init-existing host (disk_close host d).1 r.name r.file now d.total_blocks size reliable
        shut present whole pos small aligned in
    (closed, status, ready, total, λ b. blocks b ∙ sym (block_of_ready d r b))

-- The loop of `disk_format`.
module _ (host : Host) (reliable : IsReliable host) (pattern : ℕ) where
  disk_sync-ready :
      (d : Disk)
      → IsReady d
      → ((disk_sync host d).0 ≡ success)
        × ((disk_sync host d).1.is_dirty ≡ false)
        × ((c : ℕ) → block_at (disk_sync host d).1 c ≡ block_at d c)
  unfolding disk_sync block_at
  disk_sync-ready d r = (
    ground (arith, r.initialized, r.opened, reliable.syncs d.calls),
    ground (arith, r.initialized, r.opened, reliable.syncs d.calls),
    λ c. ground (arith, r.initialized, r.opened, reliable.syncs d.calls),
  )

  format_loop-fills :
      (rounds : ℕ) (d : Disk) (i : ℕ)
      → IsReady d
      → i + rounds ≤ d.total_blocks
      → ((format_loop host pattern rounds d i).0 ≡ success)
        × ((format_loop host pattern rounds d i).1.is_dirty ≡ false)
        × ((c : ℕ) → c < i → block_at (format_loop host pattern rounds d i).1 c ≡ block_at d c)
        × ((c : ℕ)
            → i ≤ c
            → c < i + rounds
            → block_at (format_loop host pattern rounds d i).1 c
              ≡ replicate disk_block_size pattern)
  unfolding format_loop
  format_loop-fills zero d i r fits =
      let (ok, clean, same) = disk_sync-ready d r in
      (ok, clean, λ c h. same c, λ c lo hi. absurd (omega arith))
  format_loop-fills (suc rounds) d i r fits =
      let new = replicate disk_block_size pattern in
      let one =
        write_block-Writes host reliable d r i (omega arith) new
          (length-replicate disk_block_size pattern) in
      let d' = (write_block host d i (some new)).1 in
      let (ok, clean, before, filled) =
        format_loop-fills rounds d' (i + 1) one.keeps.ready (omega (arith, one.keeps.total)) in
      rw (one.succeeds, format_loop)
        (
          ok,
          clean,
          λ c h.
              before c (omega arith) ∙ one.updated c ∙ if_ne i c new (block_at d c) (omega arith),
          λ c lo hi. elim (dec_lt i c) [
            | yes lt ↦ filled c (omega arith) (omega arith)
            | no ge ↦
                let e : i ≡ c = omega arith in
                before c (omega arith) ∙ one.updated c ∙ rw e (if_same c new (block_at d c))
          ],
        )

  disk_format-loop :
      (d : Disk)
      → IsReady d
      → disk_format host d pattern ≡ format_loop host pattern d.total_blocks d 0
  unfolding disk_format
  disk_format-loop d r = ground (arith, r.initialized, r.writable)

  -- On a reliable host, `disk_format` of a ready disk succeeds, leaves nothing to sync, and fills every
  -- block of the disk with the pattern.
  pub disk_format-fills :
      (d : Disk) (c : ℕ)
      → IsReady d
      → c < d.total_blocks
      → let (status, d') = disk_format host d pattern in
        (status ≡ success)
        × (d'.is_dirty ≡ false)
        × (block_at d' c ≡ replicate disk_block_size pattern)
  disk_format-fills d c r lt =
      let (ok, clean, before, filled) = format_loop-fills d.total_blocks d 0 r (omega arith) in
      rw (disk_format-loop d r) (ok, clean, filled c (omega arith) (omega arith))
