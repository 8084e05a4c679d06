-- ===== src/Disk/Session/Laws.antt =====
-- Opening, closing and formatting a disk.
use mathlib.Core.List.{append-nil}
use caozuokeshe.Base.{
  ℕ, zero, ◌+◌, ◌*◌, ◌/◌, ◌%◌, ◌^◌, ◌<◌, ◌≡◌, refl, ap, sym, ◌∙◌, true, false, none, some, List, [],
  ◌∷◌, arith, ◌==◌, take, replicate, str_eq_refl, length-replicate,
}
use caozuokeshe.Codec.{Fits, encode_struct, decode_struct, decode_struct-encode_struct}
use caozuokeshe.Disk.Host.{Host, put_file, IsReliable}
use caozuokeshe.Disk.Block.{
  Disk, zero_stats, success, disk_block_size, header_size, block_to_offset,
}
use caozuokeshe.Disk.Block.Laws.{IsReady, block_at}
use caozuokeshe.Disk.Session.{
  DiskHeader, stable_widths, stable_values, header_widths, header_values, header_of_values,
  encode_header, decode_header, rotate_sum, header_checksum, stable_checksum, create_disk_header,
  validate_disk_header, disk_init, new_file, create_new,
}

-- The checksum is a `uint32_t`.
rotate_sum-lt : (bytes : List ℕ) (c : ℕ) → c < 2 ^ 32 → rotate_sum c bytes < 2 ^ 32
unfolding rotate_sum
rotate_sum-lt [] c h = h
rotate_sum-lt (byte ∷ bytes) c h = rotate_sum-lt bytes _ (omega arith)

pub stable_checksum-lt : (h : DiskHeader) → stable_checksum h < 2 ^ 32
unfolding stable_checksum header_checksum
stable_checksum-lt h = rotate_sum-lt (encode_struct stable_widths (stable_values h)) 0 (omega arith)

create_disk_header-Fits :
    (now total : ℕ)
    → now < 2 ^ 64
    → total < 2 ^ 32
    → Fits header_widths (header_values (create_disk_header now total))
unfolding create_disk_header
create_disk_header-Fits now total hn ht = omega (arith, stable_checksum-lt)

pub create_disk_header-valid :
    (now total : ℕ) → validate_disk_header (create_disk_header now total) ≡ success
unfolding validate_disk_header create_disk_header stable_checksum
create_disk_header-valid now total = ground arith

pub decode_header-create_disk_header :
    (now total : ℕ)
    → now < 2 ^ 64
    → total < 2 ^ 32
    → decode_header (encode_header (create_disk_header now total)) ≡ create_disk_header now total
unfolding encode_header decode_header
decode_header-create_disk_header now total hn ht =
    let h = create_disk_header now total in
    ap header_of_values (
      ap (decode_struct header_widths)
        (sym (append-nil (encode_struct header_widths (header_values h))))
      ∙ decode_struct-encode_struct header_widths (header_values h) []
          (create_disk_header-Fits now total hn ht))

-- The header that `create_disk_header` makes for a 64-bit time and a 32-bit number of blocks is read back
-- from its bytes as it was, and passes `validate_disk_header`.
pub validate-create_disk_header :
    (now total : ℕ)
    → now < 2 ^ 64
    → total < 2 ^ 32
    → let h = decode_header (encode_header (create_disk_header now total)) in
      (h ≡ create_disk_header now total) × (validate_disk_header h ≡ success)
validate-create_disk_header now total hn ht =
    let e = decode_header-create_disk_header now total hn ht in
    (e, rw e (create_disk_header-valid now total))

-- The disk that `disk_init` leaves where it has created the file.
abbrev created : Host → Disk → List ℕ → ℕ → Disk
created host d name size = record {
  fd = some name;
  filename = take 255 name;
  total_blocks = size / disk_block_size;
  block_size = disk_block_size;
  disk_size = size;
  is_initialized = true;
  is_read_only = false;
  is_dirty = false;
  stats = zero_stats;
  auto_sync = false;
  last_sync_time = host.time (d.calls + 5);
  files =
      put_file d.files name (some (new_file (host.time (d.calls + 1)) (size / disk_block_size)));
  calls = d.calls + 5 + 1;
}

module _ (host : Host) (d : Disk) (name : List ℕ) (size : ℕ) (reliable : IsReliable host)
    (fresh : d.is_initialized ≡ false) (pos : 0 < size) (small : size < 2 ^ 31)
    (aligned : size % disk_block_size ≡ 0) where
  disk_init-created :
      d.files name ≡ none → disk_init host d (some name) size ≡ (success, created host d name size)
  unfolding disk_init create_new
  disk_init-created absent = ground (
    arith,
    reliable.opens d.calls,
    reliable.writes (d.calls + 2) header_size,
    reliable.seeks (d.calls + 3),
    reliable.writes (d.calls + 4) 1,
  )

  created-IsReady : IsReady (created host d name size)
  unfolding new_file block_to_offset
  created-IsReady = record {
    name = name;
    file = new_file (host.time (d.calls + 1)) (size / disk_block_size);
    initialized = refl;
    writable = refl;
    opened = refl;
    present = ground (arith, str_eq_refl name);
    full = omega arith;
    addressable = omega arith;
    sized = λ b. rw (behind b) (length-replicate disk_block_size zero);
  }
    where
      behind : (b : ℕ) → (header_size + b * disk_block_size == 0) ≡ false
      behind b = ground arith

  created-zeros : (b : ℕ) → block_at (created host d name size) b ≡ replicate disk_block_size 0
  unfolding block_at new_file block_to_offset
  created-zeros b = ground (arith, str_eq_refl name)

  -- On a reliable host, with a disk that is shut, a size that is positive, below 2 ^ 31 and a multiple of
  -- 1024, and no file of that name, `disk_init` succeeds with a ready disk of that many blocks, all
  -- zeros.
  pub disk_init-new :
      d.files name ≡ none
      → let (status, d') = disk_init host d (some name) size in
        (status ≡ success)
        × IsReady d'
        × (d'.total_blocks ≡ size / disk_block_size)
        × ((b : ℕ) → block_at d' b ≡ replicate disk_block_size 0)
  disk_init-new absent = rw (disk_init-created absent) (refl, created-IsReady, refl, created-zeros)

pub block_count-create_disk_header :
    (now total : ℕ) → (create_disk_header now total).total_blocks ≡ total
unfolding create_disk_header
block_count-create_disk_header now total = refl
