-- ===== src/Tests/Disks.antt =====
-- The disk at concrete inputs.
use caozuokeshe.Base.{ℕ, ◌≡◌, refl, false, none, some, arith, length-replicate, replicate}
use caozuokeshe.Disk.Block.{
  Disk, success, disk_block_size, block_to_offset, read_block, write_block,
}
use caozuokeshe.Disk.Block.Laws.{
  IsReady, Reads, Writes, block_at, read_block-Reads, write_block-Writes,
}
use caozuokeshe.Disk.Session.{disk_init, disk_close, disk_format}
use caozuokeshe.Disk.Session.Reopen.{disk_init-existing, disk_init-disk_close, disk_format-fills}
use caozuokeshe.Tests.Data.{
  good, good-IsReliable, disk_name, file16, shut16, disk16, disk16-IsReady, file16-IsDiskFile, ones,
}

read_block-Reads_example : Reads disk16 15 (read_block good disk16 15)
read_block-Reads_example =
    read_block-Reads good good-IsReliable disk16 disk16-IsReady 15 (omega arith)

write_block-Writes_example : Writes disk16 15 ones (write_block good disk16 15 (some ones))
write_block-Writes_example =
    write_block-Writes good good-IsReliable disk16 disk16-IsReady 15 (omega arith) ones
      (length-replicate {A = ℕ} disk_block_size 1)

abbrev no_files : Disk
no_files = record shut16 { files = λ name. none }

disk_init-existing_example :
    let (status, d') = disk_init good shut16 (some disk_name) 4096 in
    (status ≡ success)
    × IsReady d'
    × (d'.total_blocks ≡ 16)
    × ((b : ℕ) → block_at d' b ≡ file16.content (block_to_offset b))
disk_init-existing_example =
    disk_init-existing good shut16 disk_name file16 7 16 4096 good-IsReliable refl refl
      file16-IsDiskFile (omega arith) (omega arith) (omega arith)

disk_init-disk_close_example :
    let (closed, d') = disk_close good disk16 in
    let (status, d'') = disk_init good d' (some disk_name) 4096 in
    (closed ≡ success)
    × (status ≡ success)
    × IsReady d''
    × (d''.total_blocks ≡ 16)
    × ((b : ℕ) → block_at d'' b ≡ block_at disk16 b)
unfolding disk16-IsReady
disk_init-disk_close_example =
    disk_init-disk_close good disk16 disk16-IsReady 7 4096 good-IsReliable file16-IsDiskFile
      (omega arith) (omega arith) (omega arith)

disk_format-fills_example :
    let (status, d') = disk_format good disk16 0xff in
    (status ≡ success) × (d'.is_dirty ≡ false) × (block_at d' 15 ≡ replicate disk_block_size 0xff)
disk_format-fills_example =
    disk_format-fills good good-IsReliable 0xff disk16 15 disk16-IsReady (omega arith)
