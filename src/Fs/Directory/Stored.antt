-- ===== src/Fs/Directory/Stored.antt =====
-- A directory on the disk: adding a file to it, and finding it there.
use mathlib.Core.Path.{subst}
use caozuokeshe.Base.{
  ℕ, ◌+◌, ◌*◌, ◌<◌, ◌≡◌, ◌≢◌, refl, ap, sym, ◌∙◌, not, true, false, none, some, ◌||◌, List, ◌∷◌,
  arith, length, ◌==◌, if◌then◌else◌, if_same, if_ne, take, drop, get_or, length-splice,
}
use caozuokeshe.Errors.{Result, ok, err, not_directory, io}
use caozuokeshe.Layout.{
  Inode, block_size, dir_entry_size, inode_size, decode_inode, encode_dir_entry,
  file_type_directory, direct_block_count,
}
use caozuokeshe.Layout.RoundTrip.{InodeFits, length-encode_dir_entry}
use caozuokeshe.Disk.Host.{Host, IsReliable}
use caozuokeshe.Disk.Block.{Disk, success, called, read_block, write_block}
use caozuokeshe.Disk.Block.Laws.{
  IsReady, Reads, Writes, Keeps, block_at, block_length, read_block-Reads, write_block-Writes,
  called-Keeps, block_at-called,
}
use caozuokeshe.Fs.State.{
  FsState, M, ◌>>=◌, ◌>>◌, bind-ok, pure, fail, ignore, attempt, current_time, read_disk,
  write_disk,
}
use caozuokeshe.Fs.Inodes.{inode_block, inode_offset, read_inode, write_inode}
use caozuokeshe.Fs.Inodes.Laws.{
  on_disk, IsStored, read_disk-ok, write_disk-ok, read_inode-ok, write_inode-ok, write_inode-Writes,
  read_once, spliced, decode_spliced, offset_fits,
}
use caozuokeshe.Fs.Directory.{
  max_entries, entry_at, put_entry, find_entry, find_free_entry, new_entry, find_in_blocks,
  find_file_in_directory, directory_block, add_loop, add_file_to_directory,
}
use caozuokeshe.Fs.Directory.Found.{find_free_entry_sound}

-- The inode `n` of the table is a directory, and its first block, outside the table, is this one.
pub record IsDirectory (s : FsState) (n : ℕ) (dir : Inode) (block : List ℕ) : Type 0 where
  pub ready : IsReady s.disk
  pub stored : IsStored s n
  pub holds :
      decode_inode
        (take inode_size (drop (inode_offset n) (block_at s.disk (inode_block s.superblock n))))
      ≡ dir
  pub kind : dir.file_type ≡ file_type_directory
  pub first : ℕ
  pub others : List ℕ
  pub begins : dir.direct_blocks ≡ first ∷ others
  pub present : first ≢ 0
  pub in_range : first < s.disk.total_blocks
  pub apart : inode_block s.superblock n ≢ first
  pub content : block_at s.disk first ≡ block

-- The directory's inode after a file has been added to its first block.
abbrev pub touched : Inode → (now : ℕ) → Inode
touched dir now = record dir {
  file_size = (0 + 1) * block_size;
  modify_time = now;
  change_time = now;
}

module _ (host : Host) (reliable : IsReliable host) where
  -- `read_disk` of the first block.
  read_first :
      (s : FsState) (b : ℕ) (block : List ℕ)
      → IsReady s.disk
      → b < s.disk.total_blocks
      → block_at s.disk b ≡ block
      → read_disk host b s ≡ (ok block, on_disk s (read_block host s.disk b).2)
  read_first s b block r lt e =
      read_disk-ok host reliable s r b lt
      ∙ ap (λ x. (ok x, on_disk s (read_block host s.disk b).2)) e

  found_in_first :
      (s : FsState) (b : ℕ) (bs block name : List ℕ) (k : ℕ)
      → IsReady s.disk
      → b ≢ 0
      → b < s.disk.total_blocks
      → block_at s.disk b ≡ block
      → find_entry block name max_entries 0 ≡ some k
      → (find_in_blocks host name (b ∷ bs) s).0 ≡ ok k
  unfolding find_in_blocks
  found_in_first s b bs block name k r ne lt e found =
      let nonzero : (b == 0) ≡ false = ground (arith, ne) in
      let searched : Result (List ℕ) → M ℕ = λ r. elim r [
        | err _ ↦ find_in_blocks host name bs
        | ok x ↦ elim (find_entry x name max_entries 0) [
          | some inode_number ↦ pure inode_number
          | none ↦ find_in_blocks host name bs
        ]
      ] in
      let d = (read_block host s.disk b).2 in
      let readed : attempt (read_disk host b) s ≡ (ok (ok block), on_disk s d) =
        ap (λ x. (ok x.0, x.1)) (read_first s b block r lt e) in
      rw (nonzero, find_in_blocks)
        (ap (λ x. x.0) (bind-ok (attempt (read_disk host b)) searched s readed) ∙ rw found refl)

  -- The directory's inode is read.
  dir_read :
      (s : FsState) (n : ℕ) (dir : Inode) (block : List ℕ)
      → IsDirectory s n dir block
      → attempt (read_inode host n) s
        ≡ (ok (ok dir), on_disk s (read_block host s.disk (inode_block s.superblock n)).2)
  dir_read s n dir block d =
      let s1 = on_disk s (read_block host s.disk (inode_block s.superblock n)).2 in
      ap (λ x. (ok x.0, x.1))
        (read_inode-ok host reliable s d.ready n d.stored ∙ ap (λ i. (ok i, s1)) d.holds)

  pub find_file-IsDirectory :
      (s : FsState) (n : ℕ) (dir : Inode) (block name : List ℕ) (k : ℕ)
      → IsDirectory s n dir block
      → find_entry block name max_entries 0 ≡ some k
      → (find_file_in_directory host n name s).0 ≡ ok k
  unfolding find_file_in_directory
  find_file-IsDirectory s n dir block name k d found =
      let good : (n == 0) ≡ false = ground (arith, d.stored.positive) in
      let kind : (dir.file_type == file_type_directory) ≡ true = ground (arith, d.kind) in
      let one =
        read_block-Reads host reliable s.disk d.ready (inode_block s.superblock n)
          d.stored.on_the_disk in
      let s1 = on_disk s (read_block host s.disk (inode_block s.superblock n)).2 in
      let looked : Result Inode → M ℕ = λ r. elim r [
        | err _ ↦ pure 0
        | ok dir_inode ↦
            if not (dir_inode.file_type == file_type_directory)
            then pure 0
            else find_in_blocks host name dir_inode.direct_blocks
      ] in
      let begun : find_in_blocks host name dir.direct_blocks s1
          ≡ find_in_blocks host name (d.first ∷ d.others) s1 =
        ap (λ bs. find_in_blocks host name bs s1) d.begins in
      rw good (
        ap (λ x. x.0) (bind-ok (attempt (read_inode host n)) looked s (dir_read s n dir block d))
        ∙ rw kind (
            ap (λ x. x.0) begun
            ∙ found_in_first s1 d.first d.others block name k one.keeps.ready d.present
                (omega (arith, one.keeps.total, d.in_range)) (one.same d.first ∙ d.content) found))

  module _ (s : FsState) (n : ℕ) (dir : Inode) (block : List ℕ) (d : IsDirectory s n dir block)
      (i : ℕ) (place : find_free_entry block max_entries 0 ≡ some i) (filename : List ℕ) (m : ℕ)
      (numbered : m ≢ 0) (fits : (k : ℕ) → InodeFits (touched dir (host.time k))) where
    abbrev new_block : List ℕ
    new_block = put_entry block i (new_entry filename m (entry_at block i))

    -- The states of a call: the inode read, the block read, the block written, the clock read.
    abbrev s1 : FsState
    s1 = on_disk s (read_block host s.disk (inode_block s.superblock n)).2

    abbrev s2 : FsState
    s2 = on_disk s1 (read_block host s1.disk d.first).2

    abbrev s3 : FsState
    s3 = on_disk s2 (write_block host s2.disk d.first (some new_block)).1

    abbrev s4 : FsState
    s4 = on_disk s3 (called s3.disk)

    abbrev s5 : FsState
    s5 = (write_inode host n (touched dir (host.time s3.disk.calls)) s4).1

    one :
        Reads s.disk
          (inode_block s.superblock n)
          (read_block host s.disk (inode_block s.superblock n))
    one =
        read_block-Reads host reliable s.disk d.ready (inode_block s.superblock n)
          d.stored.on_the_disk

    two : Reads s1.disk d.first (read_block host s1.disk d.first)
    two =
        read_block-Reads host reliable s1.disk one.keeps.ready d.first
          (omega (arith, one.keeps.total, d.in_range))

    pub block-length : length block ≡ block_size
    block-length = ap length (sym d.content) ∙ block_length s.disk d.ready d.first

    new_block-length : length new_block ≡ block_size
    unfolding put_entry
    new_block-length =
        let (lo, hi, free) = find_free_entry_sound block max_entries 0 {i = i} place in
        let new = new_entry filename m (entry_at block i) in
        length-splice block (i * dir_entry_size) (encode_dir_entry new)
          (omega (arith, hi, block-length, length-encode_dir_entry new))
        ∙ block-length

    three : Writes s2.disk d.first new_block (write_block host s2.disk d.first (some new_block))
    three =
        write_block-Writes host reliable s2.disk two.keeps.ready d.first
          (omega (arith, one.keeps.total, two.keeps.total, d.in_range)) new_block new_block-length

    first_number : get_or dir.direct_blocks 0 0 ≡ d.first
    first_number = ap (λ bs. get_or bs 0 0) d.begins

    block_found : directory_block host 0 dir s1 ≡ (ok (dir, block), s2)
    unfolding directory_block
    block_found =
        let nonzero : (d.first == 0) ≡ false = ground (arith, d.present) in
        rw (first_number, nonzero, directory_block)
          (bind-ok (read_disk host d.first) (λ x. pure (dir, x)) s1
            (read_first s1 d.first block one.keeps.ready
              (omega (arith, one.keeps.total, d.in_range)) (one.same d.first ∙ d.content)))

    -- The rest of a round, with the block found.
    entered : Inode × List ℕ → M (Unit {0})
    entered p = elim (find_free_entry p.1 max_entries 0) [
      | none ↦ add_loop host n filename m 11 1 p.0
      | some k ↦
          write_disk host (get_or p.0.direct_blocks 0 0)
            (put_entry p.1 k (new_entry filename m (entry_at p.1 k)))
          >> (current_time host >>= λ now. ignore (write_inode host n (touched p.0 now)))
    ]

    block_entered : entered (dir, block) s2 ≡ (ok tt, s5)
    unfolding entered
    block_entered =
        let rest : M (Unit {0}) =
          current_time host >>= λ now. ignore (write_inode host n (touched dir now)) in
        rw (place, entered)
          (ap (λ b. (write_disk host b new_block >> rest) s2) first_number
            ∙ bind-ok (write_disk host d.first new_block) (λ _. rest) s2
                (write_disk-ok host reliable s2 two.keeps.ready d.first
                  (omega (arith, one.keeps.total, two.keeps.total, d.in_range)) new_block
                  new_block-length))

    looped : add_loop host n filename m direct_block_count 0 dir s1 ≡ (ok tt, s5)
    unfolding add_loop entered
    looped = bind-ok (directory_block host 0 dir) entered s1 block_found ∙ block_entered

    abbrev next_dir : Inode
    next_dir = touched dir (host.time s3.disk.calls)

    four : Keeps s3.disk s4.disk
    four = called-Keeps s3.disk three.keeps.ready

    stored4 : IsStored s4 n
    stored4 = record {
      positive = d.stored.positive;
      in_table = d.stored.in_table;
      no_wrap = d.stored.no_wrap;
      on_the_disk = omega (
        arith, four.total, three.keeps.total, two.keeps.total, one.keeps.total,
        d.stored.on_the_disk,
      );
    }

    abbrev five_disk : Disk
    five_disk =
        (write_block host (read_once host reliable s4 four.ready n stored4)
          (inode_block s.superblock n)
          (some (spliced host reliable s4 four.ready n stored4 next_dir))).1

    five :
        Writes s4.disk
          (inode_block s.superblock n)
          (spliced host reliable s4 four.ready n stored4 next_dir)
          (success, five_disk)
    five = write_inode-Writes host reliable s4 four.ready n stored4 next_dir

    pub added : add_file_to_directory host n filename m s ≡ (ok tt, s5)
    unfolding add_file_to_directory
    added =
        let good : ((n == 0) || (m == 0)) ≡ false = ground (arith, d.stored.positive, numbered) in
        let kind : (dir.file_type == file_type_directory) ≡ true = ground (arith, d.kind) in
        let looked : Result Inode → M (Unit {0}) = λ r. elim r [
          | err _ ↦ fail io
          | ok dir_inode ↦
              if not (dir_inode.file_type == file_type_directory)
              then fail not_directory
              else add_loop host n filename m direct_block_count 0 dir_inode
        ] in
        rw good (
          bind-ok (attempt (read_inode host n)) looked s (dir_read s n dir block d)
          ∙ rw kind looped)

    pub still : IsDirectory s5 n next_dir new_block
    still =
        subst (λ t. IsDirectory t n next_dir new_block)
          (sym (ap (λ x. x.1) (write_inode-ok host reliable s4 four.ready n stored4 next_dir)))
          (record {
            ready = five.keeps.ready;
            stored = record {
              positive = d.stored.positive;
              in_table = d.stored.in_table;
              no_wrap = d.stored.no_wrap;
              on_the_disk = omega (arith, five.keeps.total, stored4.on_the_disk);
            };
            holds =
                rw (five.updated (inode_block s.superblock n), if_same (inode_block s.superblock n))
                  (decode_spliced _ (inode_offset n) next_dir
                    (omega (
                      arith,
                      offset_fits host reliable s4 four.ready n stored4,
                      block_length s4.disk four.ready (inode_block s.superblock n),
                    ))
                    (fits s3.disk.calls));
            kind = d.kind;
            first = d.first;
            others = d.others;
            begins = d.begins;
            present = d.present;
            in_range = omega (
              arith, five.keeps.total, four.total, three.keeps.total, two.keeps.total,
              one.keeps.total, d.in_range,
            );
            apart = d.apart;
            content =
                five.updated d.first
                ∙ if_ne (inode_block s.superblock n) d.first _ _ (λ e. absurd (d.apart e))
                ∙ block_at-called s3.disk d.first
                ∙ three.updated d.first
                ∙ if_same d.first _ _;
          })
