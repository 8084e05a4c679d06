-- ===== src/Fs/BitmapIo.antt =====
-- The bitmaps on the disk: `fs_ops_write_bitmap` and `fs_ops_read_bitmap`.
use caozuokeshe.Base.{
  ℕ, zero, suc, ◌+◌, ◌-◌, ◌*◌, ◌/◌, ◌==◌, min, none, some, List, [], ◌∷◌, ◌++◌, true, false, ltb,
  if◌then◌else◌, replicate, take, drop, length,
}
use caozuokeshe.Errors.{ok, err, invalid_param, no_space, undefined}
use caozuokeshe.Layout.{block_size}
use caozuokeshe.Bitmap.{Bitmap, byte_count, count_clear}
use caozuokeshe.Disk.Host.{Host}
use caozuokeshe.Fs.State.{FsState, M, pure, fail, ◌>>=◌, ◌>>◌, read_disk, write_disk}

-- Which of the two bitmaps a function is called on.
pub data Which : Type 0 where
  inodes blocks : Which

abbrev pub bitmap_of : FsState → Which → Bitmap
bitmap_of s inodes = s.inode_bitmap
bitmap_of s blocks = s.block_bitmap

abbrev pub put_bitmap : Which → Bitmap → FsState → FsState
put_bitmap inodes bm s = record s { inode_bitmap = bm }
put_bitmap blocks bm s = record s { block_bitmap = bm }

-- The loop of `fs_ops_write_bitmap`: `rest` is the part of the bitmap not yet written, and the loop
-- stops when it is empty or no block is left.
unfoldable pub write_bitmap_loop : Host → (rounds block : ℕ) → (rest : List ℕ) → M (Unit {0})
write_bitmap_loop host zero block rest = pure tt
write_bitmap_loop host (suc rounds) block [] = pure tt
write_bitmap_loop host (suc rounds) block (b ∷ rest) =
    write_disk host block
      (take block_size (b ∷ rest) ++ replicate (block_size - length (b ∷ rest)) 0)
    >> write_bitmap_loop host rounds (block + 1) (drop block_size (b ∷ rest))

-- `fs_ops_write_bitmap`
unfoldable pub write_bitmap : Host → Bitmap → (start_block block_count : ℕ) → M (Unit {0})
write_bitmap host bm start_block block_count = elim bm.bitmap [
  | none ↦ fail invalid_param
  | some bytes ↦
      if ltb (block_count * block_size)
        ((byte_count bm.total_bits + block_size - 1) / block_size * block_size)
      then fail no_space
      else write_bitmap_loop host block_count start_block (take (byte_count bm.total_bits) bytes)
]

-- `memcpy(bitmap->bitmap + offset, buffer, count)` within the array, of at least one byte.
unfoldable pub copy_into : Which → (offset count : ℕ) → (buffer : List ℕ) → M (Unit {0})
copy_into which offset count buffer s =
    let bm = bitmap_of s which in
    elim bm.bitmap [
      | none ↦ (err undefined, s)
      | some bytes ↦
          let copied = take offset bytes ++ (take count buffer ++ drop (offset + count) bytes) in
          (ok tt, put_bitmap which (record bm { bitmap = some copied }) s)
    ]

-- The loop of `fs_ops_read_bitmap`: `done` bytes have been read.
unfoldable pub read_bitmap_loop : Host → Which → (rounds block done : ℕ) → M (Unit {0})
read_bitmap_loop host which zero block done s = (ok tt, s)
read_bitmap_loop host which (suc rounds) block done s =
    let size = byte_count (bitmap_of s which).total_bits in
    elim (ltb done size) [
      | false ↦ (ok tt, s)
      | true ↦
          let count = min (size - done) block_size in
          (do
            buffer ← read_disk host block
            copy_into which done count buffer
            read_bitmap_loop host which rounds (block + 1) (done + count))
            s
    ]

-- The recount at the end of `fs_ops_read_bitmap`. Without bits it reads nothing.
unfoldable pub recount : Which → M (Unit {0})
recount which s =
    let bm = bitmap_of s which in
    elim bm.bitmap [
      | none ↦
          if bm.total_bits == 0
          then (ok tt, put_bitmap which (record bm { free_count = 0 }) s)
          else (err undefined, s)
      | some bytes ↦
          (ok tt, put_bitmap which (record bm { free_count = count_clear bytes bm.total_bits }) s)
    ]

-- `fs_ops_read_bitmap` into a bitmap of the state
unfoldable pub read_bitmap : Host → Which → (start_block block_count : ℕ) → M (Unit {0})
read_bitmap host which start_block block_count = do
  read_bitmap_loop host which block_count start_block 0
  recount which
