-- ===== src/Fs/Super/Laws.antt =====
-- The superblock, written to the disk and read back.
use caozuokeshe.Base.{
  ℕ, zero, ◌-◌, ◌<◌, ◌≡◌, refl, ap, ◌∙◌, true, not, some, List, ◌++◌, arith, length, length-append,
  length-replicate, replicate, [], ◌∷◌, ◌==◌, if_same, if◌then◌else◌,
}
use caozuokeshe.Errors.{ok, corrupted}
use caozuokeshe.Codec.{size_of, length-encode_struct}
use caozuokeshe.Layout.{
  Superblock, block_size, fs_magic_number, superblock_body_widths, superblock_body,
  encode_superblock, decode_superblock, superblock_checksum,
}
use caozuokeshe.Layout.RoundTrip.{SuperblockFits, decode_superblock-encode_superblock}
use caozuokeshe.Disk.Host.{Host, IsReliable}
use caozuokeshe.Disk.Block.{write_block, read_block}
use caozuokeshe.Disk.Block.Laws.{IsReady, block_at, write_block-Writes}
use caozuokeshe.Fs.State.{FsState, M, ◌>>=◌, ◌>>◌, bind-ok, get, modify, fail, pure, read_disk}
use caozuokeshe.Fs.Super.{
  superblock_block, superblock_size, set_superblock, write_superblock, read_superblock,
}
use caozuokeshe.Fs.Inodes.Laws.{on_disk, read_disk-ok, write_disk-ok}

-- The block that `fs_ops_write_superblock` writes.
abbrev image : Superblock → List ℕ
image sb = encode_superblock sb ++ replicate (block_size - superblock_size) 0

image-length : (sb : Superblock) → length (image sb) ≡ block_size
unfolding encode_superblock size_of
image-length sb = omega (
  arith,
  length-append (encode_superblock sb) (replicate (block_size - superblock_size) 0),
  length-encode_struct (superblock_body_widths ++ (4 ∷ []))
      (superblock_body sb ++ (sb.checksum ∷ [])),
  length-replicate (block_size - superblock_size) zero,
)

-- On a reliable host and a ready disk with a first block, where the superblock in memory fits its
-- fields, has the magic number and carries its own checksum: `fs_ops_write_superblock` succeeds, and
-- `fs_ops_read_superblock` then succeeds too and gives that superblock back, whatever superblock the
-- memory holds in between.
pub read_superblock-write_superblock :
    (host : Host) (s : FsState) (other : Superblock)
    → IsReliable host
    → IsReady s.disk
    → 0 < s.disk.total_blocks
    → SuperblockFits s.superblock
    → s.superblock.magic_number ≡ fs_magic_number
    → s.superblock.checksum ≡ superblock_checksum s.superblock
    → let (status, s') = write_superblock host s in
      let (status', t) = read_superblock host (record s' { superblock = other }) in
      (status ≡ ok tt) × (status' ≡ ok tt) × (t.superblock ≡ s.superblock)
unfolding write_superblock read_superblock
read_superblock-write_superblock host s other reliable ready first fits magic checksum =
    let sb = s.superblock in
    let len = image-length sb in
    let written = write_disk-ok host reliable s ready superblock_block first (image sb) len in
    let w = write_block-Writes host reliable s.disk ready superblock_block first (image sb) len in
    let d' = (write_block host s.disk superblock_block (some (image sb))).1 in
    let u : FsState = record s { superblock = other; disk = d' } in
    let inside : 0 < d'.total_blocks = omega (arith, w.keeps.total, first) in
    let d'' = (read_block host d' superblock_block).2 in
    let block : block_at d' superblock_block ≡ image sb =
      w.updated superblock_block
      ∙ if_same superblock_block (image sb) (block_at s.disk superblock_block) in
    let decoded : decode_superblock (block_at d' superblock_block) ≡ sb =
      ap decode_superblock block
      ∙ decode_superblock-encode_superblock sb (replicate (block_size - superblock_size) 0) fits in
    let found = read_disk-ok host reliable u w.keeps.ready superblock_block inside in
    let check : M (Unit {0}) = get >>= λ t.
    if not (t.superblock.magic_number == fs_magic_number)
    then fail corrupted
    else if not (t.superblock.checksum == superblock_checksum t.superblock)
    then fail corrupted
    else pure tt in
    let set_and_check : List ℕ → M (Unit {0}) =
      λ bytes. modify (set_superblock (decode_superblock bytes)) >> check in
    let good_magic : (sb.magic_number == fs_magic_number) ≡ true = ground (arith, magic) in
    let good_checksum : (sb.checksum == superblock_checksum sb) ≡ true = ground (arith, checksum) in
    let checked : set_and_check (block_at d' superblock_block) (on_disk u d'')
        ≡ (ok tt, record u { superblock = sb; disk = d'' }) =
      rw (decoded, good_magic, good_checksum) refl in
    let all : read_superblock host u ≡ (ok tt, record u { superblock = sb; disk = d'' }) =
      bind-ok (read_disk host superblock_block) set_and_check u found ∙ checked in
    let start : write_superblock host s ≡ (ok tt, on_disk s d') = written in
    rw start (refl, ap (λ r. r.0) all, ap (λ r. r.1.superblock) all)
