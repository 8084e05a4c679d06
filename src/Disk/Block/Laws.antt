-- ===== src/Disk/Block/Laws.antt =====
-- `disk_read_block` and `disk_write_block` against a disk that is an array of blocks.
use caozuokeshe.Base.{
  ℕ, ◌+◌, ◌^◌, ◌<◌, ◌≤◌, ◌≡◌, ◌≢◌, refl, sym, ◌∙◌, ◌⊎◌, inl, inr, true, false, Option, none, some,
  List, [], ◌++◌, arith, length, ◌==◌, ==_iff, Bool-cases, Option-cases, if◌then◌else◌, take, drop,
  take-all, drop-all, str_eq_refl,
}
use mathlib.Core.List.{append-nil}
use caozuokeshe.Disk.Host.{Host, HostFile, Files, put_file, put_chunk, IsReliable}
use caozuokeshe.Disk.Block.{
  called, Disk, DiskStatus, success, disk_block_size, header_size, block_to_offset,
  check_block_bounds, read_block, write_block, write_at, sync_after_write, write_file, read_file,
  update_stats_read, update_stats_write,
}

-- The bytes of a block in the file that is open.
unfoldable pub block_at : Disk → ℕ → List ℕ
block_at d block_num = elim d.fd [
  | none ↦ []
  | some name ↦ elim (d.files name) [ none ↦ [] | some f ↦ f.content (block_to_offset block_num) ]
]

-- A disk that `disk_init` has opened on a file of full size.
pub record IsReady (d : Disk) : Type 0 where
  pub name : List ℕ
  pub file : HostFile
  pub initialized : d.is_initialized ≡ true
  pub writable : d.is_read_only ≡ false
  pub opened : d.fd ≡ some name
  pub present : d.files name ≡ some file
  pub full : block_to_offset d.total_blocks ≤ file.size
  pub addressable : d.total_blocks < 2 ^ 31
  pub sized : (b : ℕ) → length (file.content (block_to_offset b)) ≡ disk_block_size

-- A block lies behind the header, and ends before any later block begins.
pub block_to_offset-disjoint :
    (b c : ℕ)
    → b < c
    → (header_size ≤ block_to_offset b) × (block_to_offset b + disk_block_size ≤ block_to_offset c)
unfolding block_to_offset
block_to_offset-disjoint b c lt = omega arith

block_to_offset-injective : (b c : ℕ) → block_to_offset b ≡ block_to_offset c → b ≡ c
unfolding block_to_offset
block_to_offset-injective b c e = omega arith

offset_eq : (b c : ℕ) → (block_to_offset b == block_to_offset c) ≡ (b == c)
offset_eq b c = elim (Bool-cases (b == c)) [
  | inl e ↦ let p : b ≡ c = (==_iff b c).0 e in ground (arith, p)
  | inr e ↦ let p : b ≢ c = ground arith in ground (arith, block_to_offset-injective b c)
]

-- The disk `d'` is ready and has as many blocks as `d`.
pub record Keeps (d d' : Disk) : Type 0 where
  pub ready : IsReady d'
  pub total : d'.total_blocks ≡ d.total_blocks

-- A block that is read is the one that the disk holds, and reading changes no block.
pub record Reads (d : Disk) (b : ℕ) (r : DiskStatus × List ℕ × Disk) : Type 0 where
  pub succeeds : r.0 ≡ success
  pub bytes : r.1 ≡ block_at d b
  pub keeps : Keeps d r.2
  pub same : (c : ℕ) → block_at r.2 c ≡ block_at d c

-- A block that is written is the one that the disk holds from then on, and no other changes.
pub record Writes (d : Disk) (b : ℕ) (new : List ℕ) (r : DiskStatus × Disk) : Type 0 where
  pub succeeds : r.0 ≡ success
  pub keeps : Keeps d r.1
  pub updated : (c : ℕ) → block_at r.1 c ≡ (if b == c then new else block_at d c)

module _ (host : Host) (reliable : IsReliable host) (d : Disk) (r : IsReady d) (b : ℕ)
    (lt : b < d.total_blocks) where
  in_bounds : check_block_bounds d b ≡ true
  unfolding check_block_bounds
  in_bounds = ground (arith, r.addressable, r.initialized)

  in_file : block_to_offset b + disk_block_size ≤ r.file.size
  unfolding block_to_offset
  in_file = omega (arith, r.full)

  read_file-ready :
      read_file host (record d { calls = d.calls + 1 }) (block_to_offset b) disk_block_size
      ≡ some (r.file.content (block_to_offset b))
  unfolding read_file
  read_file-ready = ground (arith, r.opened, r.present, reliable.reads (d.calls + 1), in_file)

  block_at-ready : block_at d b ≡ r.file.content (block_to_offset b)
  unfolding block_at
  block_at-ready = ground (arith, r.opened, r.present)

  read_block-ready : read_block host d b ≡ (
    success,
    r.file.content (block_to_offset b),
    update_stats_read host (record d { calls = d.calls + 1 + 1 }) disk_block_size,
  )
  unfolding read_block
  read_block-ready = ground (
    arith,
    r.initialized,
    in_bounds,
    reliable.seeks d.calls,
    r.opened,
    r.present,
    reliable.reads (d.calls + 1),
    in_file,
  )

  -- On a reliable host, reading a block in range of a ready disk succeeds with the bytes that the disk
  -- holds there, and keeps the disk ready, its size and every block.
  pub read_block-Reads : Reads d b (read_block host d b)
  unfolding update_stats_read block_at
  read_block-Reads = rw read_block-ready (record {
    succeeds = refl;
    bytes = sym block_at-ready;
    keeps = record {
      ready = record {
        name = r.name;
        file = r.file;
        initialized = r.initialized;
        writable = r.writable;
        opened = r.opened;
        present = r.present;
        full = r.full;
        addressable = r.addressable;
        sized = r.sized;
      };
      total = refl;
    };
    same = λ c. refl;
  })

  abbrev new_files : List ℕ → Files
  new_files new =
      put_file d.files r.name (some (put_chunk r.file (block_to_offset b) disk_block_size new))

  write_file-ready :
      (new : List ℕ)
      → write_file host (record d { calls = d.calls + 1 }) (block_to_offset b) new disk_block_size
        ≡ (disk_block_size, record d { files = new_files new; calls = d.calls + 1 + 1 })
  unfolding write_file
  write_file-ready new =
      ground (arith, r.opened, r.present, reliable.writes (d.calls + 1) disk_block_size)

  write_block-ready :
      (new : List ℕ)
      → write_block host d b (some new) ≡ (
        success,
        sync_after_write (
            update_stats_write host
              (record d { files = new_files new; calls = d.calls + 1 + 1 })
              disk_block_size),
      )
  unfolding write_block write_at
  write_block-ready new =
      ground
        (arith, r.initialized, r.writable, in_bounds, reliable.seeks d.calls, write_file-ready new)

  -- A disk that differs from `d` in the file's new contents, its statistics and its calls.
  new_files-Writes :
      (new : List ℕ) (d' : Disk)
      → length new ≡ disk_block_size
      → d'.is_initialized ≡ true
      → d'.is_read_only ≡ false
      → d'.fd ≡ d.fd
      → d'.files ≡ new_files new
      → d'.total_blocks ≡ d.total_blocks
      → Writes d b new (success, d')
  unfolding block_at
  new_files-Writes new d' len ini ro fd files total = record {
    succeeds = refl;
    keeps = record {
      ready = record {
        name = r.name;
        file = put_chunk r.file (block_to_offset b) disk_block_size new;
        initialized = ini;
        writable = ro;
        opened = fd ∙ r.opened;
        present = found;
        full = ground (arith, r.full, total);
        addressable = rw total r.addressable;
        sized = λ c. sizes c;
      };
      total = total;
    };
    updated = λ c. rw (fd ∙ r.opened, found, r.opened, r.present) (chunk c);
  }
    where
      found : d'.files r.name ≡ some (put_chunk r.file (block_to_offset b) disk_block_size new)
      found = rw (files, str_eq_refl r.name)

      chunk :
          (c : ℕ)
          → (if block_to_offset c == block_to_offset b
              then take disk_block_size new
                ++ drop disk_block_size (r.file.content (block_to_offset c))
              else r.file.content (block_to_offset c))
            ≡ (if b == c then new else r.file.content (block_to_offset c))
      chunk c =
          rw
            (
              take-all disk_block_size new len,
              drop-all disk_block_size _ (r.sized c),
              append-nil new,
            )
            (ground (arith, offset_eq c b))

      sizes :
          (c : ℕ)
          → length (
              if block_to_offset c == block_to_offset b
              then take disk_block_size new
                ++ drop disk_block_size (r.file.content (block_to_offset c))
              else r.file.content (block_to_offset c))
            ≡ disk_block_size
      sizes c = rw (chunk c) (ground (arith, len, r.sized c))

  -- On a reliable host, writing 1024 bytes to a block in range of a ready disk succeeds and keeps the
  -- disk ready and its size; from then on the disk holds these bytes there, and in every other block
  -- what it held before.
  pub write_block-Writes :
      (new : List ℕ)
      → length new ≡ disk_block_size
      → Writes d b new (write_block host d b (some new))
  unfolding update_stats_write
  write_block-Writes new len = rw (write_block-ready new) (
      new_files-Writes new _ len (ground (arith, r.initialized)) (ground (arith, r.writable))
        (ground arith) (ground arith) (ground arith))

write_file-frame :
    (host : Host) (d : Disk) (b c k : ℕ) (bytes : List ℕ)
    → b ≢ c
    → block_at (write_file host d (block_to_offset b) bytes k).1 c ≡ block_at d c
unfolding write_file block_at
write_file-frame host d b c k bytes ne = elim (Option-cases d.fd) [
  | inl e ↦ ground (arith, e)
  | inr (name, e) ↦ elim (Option-cases (d.files name)) [
    | inl g ↦ ground (arith, e, g)
    | inr (f, g) ↦ ground (arith, e, g, str_eq_refl name, block_to_offset-injective c b)
  ]
]

-- Whatever the host does and whatever `disk_write_block` returns, every other block is as before.
pub write_block-frame :
    (host : Host) (d : Disk) (b c : ℕ) (buffer : Option (List ℕ))
    → b ≢ c
    → block_at (write_block host d b buffer).1 c ≡ block_at d c
unfolding write_block write_at update_stats_write block_at
write_block-frame host d b c none ne = refl
write_block-frame host d b c (some bytes) ne =
    ground
      (arith, write_file-frame host (record d { calls = d.calls + 1 }) b c disk_block_size bytes ne)

-- A write of a null buffer, to a disk that is not initialised or is read-only, or to a block out of
-- bounds fails and changes nothing at all.
pub write_block-refused :
    (host : Host) (d : Disk) (b : ℕ) (buffer : Option (List ℕ))
    → (buffer ≡ none)
      ⊎ (d.is_initialized ≡ false)
      ⊎ (d.is_read_only ≡ true)
      ⊎ (check_block_bounds d b ≡ false)
    → ((write_block host d b buffer).0 ≢ success) × ((write_block host d b buffer).1 ≡ d)
unfolding write_block
write_block-refused host d b none h = (ground arith, refl)
write_block-refused host d b (some bytes) h = (ground arith, ground arith)

-- A block of a ready disk has 1024 bytes.
pub block_length : (d : Disk) → IsReady d → (b : ℕ) → length (block_at d b) ≡ disk_block_size
unfolding block_at
block_length d r b = ground (arith, r.opened, r.present, r.sized b)

-- The disk of another call of the host.
pub called-Keeps : (d : Disk) → IsReady d → Keeps d (called d)
called-Keeps d r = record {
  ready = record {
    name = r.name;
    file = r.file;
    initialized = r.initialized;
    writable = r.writable;
    opened = r.opened;
    present = r.present;
    full = r.full;
    addressable = r.addressable;
    sized = r.sized;
  };
  total = refl;
}

pub block_at-called : (d : Disk) (c : ℕ) → block_at (called d) c ≡ block_at d c
unfolding block_at
block_at-called d c = refl
