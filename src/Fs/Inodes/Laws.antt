-- ===== src/Fs/Inodes/Laws.antt =====
-- About reading and writing inodes in the table on the disk.
use mathlib.Core.List.{append-nil}
use caozuokeshe.Base.{
  ℕ, ◌+◌, ◌/◌, ◌%◌, ◌^◌, ◌<◌, ◌≤◌, ◌≡◌, ◌≢◌, refl, ap, sym, ◌∙◌, ◌⊎◌, inl, inr, false, some, List,
  [], arith, length, ◌==◌, ==_iff, Bool-cases, if◌then◌else◌, if_same, take, drop, splice,
  length-splice, splice_same, splice_before, splice_behind,
}
use native.Mathlib.Decide.{dec_lt}
use caozuokeshe.Errors.{ok}
use caozuokeshe.Layout.{Inode, inode_size, encode_inode, decode_inode}
use caozuokeshe.Layout.RoundTrip.{InodeFits, decode_inode-encode_inode, length-encode_inode}
use caozuokeshe.Disk.Host.{Host, IsReliable}
use caozuokeshe.Disk.Block.{Disk, disk_block_size, success, read_block, write_block}
use caozuokeshe.Disk.Block.Laws.{
  IsReady, Reads, Writes, block_at, block_length, read_block-Reads, write_block-Writes,
}
use caozuokeshe.Fs.State.{FsState, bind-ok, pure, read_disk, write_disk}
use caozuokeshe.Fs.Inodes.{
  inodes_per_block, inode_block, inode_offset, is_bad_number, read_inode, write_inode,
}

-- The state `s` with its disk replaced.
abbrev pub on_disk : FsState → Disk → FsState
on_disk s d = record s { disk = d }

module _ (host : Host) (reliable : IsReliable host) (s : FsState) (r : IsReady s.disk) (b : ℕ)
    (lt : b < s.disk.total_blocks) where
  pub read_disk-ok :
      read_disk host b s ≡ (ok (block_at s.disk b), on_disk s (read_block host s.disk b).2)
  unfolding read_disk
  read_disk-ok =
      let one = read_block-Reads host reliable s.disk r b lt in
      rw (one.succeeds, read_disk, one.bytes)

  pub write_disk-ok :
      (new : List ℕ)
      → length new ≡ disk_block_size
      → write_disk host b new s ≡ (ok tt, on_disk s (write_block host s.disk b (some new)).1)
  unfolding write_disk
  write_disk-ok new len =
      let one = write_block-Writes host reliable s.disk r b lt new len in
      rw (one.succeeds, write_disk)

-- An inode that the table of a ready disk has room for.
pub record IsStored (s : FsState) (n : ℕ) : Type 0 where
  pub positive : 0 < n
  pub in_table : n < s.superblock.total_inodes
  pub no_wrap : s.superblock.inode_table_start + n / inodes_per_block < 2 ^ 32
  pub on_the_disk : inode_block s.superblock n < s.disk.total_blocks

module _ (host : Host) (reliable : IsReliable host) (s : FsState) (r : IsReady s.disk) (n : ℕ)
    (st : IsStored s n) where
  good_number : is_bad_number s n ≡ false
  good_number = ground (arith, st.positive, st.in_table)

  pub offset_fits : inode_offset n + inode_size ≤ disk_block_size
  unfolding inode_offset
  offset_fits = omega arith

  -- What `fs_ops_read_inode` returns.
  pub read_inode-ok : read_inode host n s ≡ (
    ok (
        decode_inode
          (take inode_size (drop (inode_offset n) (block_at s.disk (inode_block s.superblock n))))),
    on_disk s (read_block host s.disk (inode_block s.superblock n)).2,
  )
  unfolding read_inode
  read_inode-ok = rw good_number (
      bind-ok (read_disk host (inode_block s.superblock n))
        (λ block. pure (decode_inode (take inode_size (drop (inode_offset n) block)))) s
        (read_disk-ok host reliable s r (inode_block s.superblock n) st.on_the_disk))

  abbrev pub read_once : Disk
  read_once = (read_block host s.disk (inode_block s.superblock n)).2

  -- The block that `fs_ops_write_inode` writes back.
  abbrev pub spliced : Inode → List ℕ
  spliced i =
      splice (block_at s.disk (inode_block s.superblock n)) (inode_offset n) (encode_inode i)

  one_read :
      Reads s.disk
        (inode_block s.superblock n)
        (read_block host s.disk (inode_block s.superblock n))
  one_read = read_block-Reads host reliable s.disk r (inode_block s.superblock n) st.on_the_disk

  spliced-length : (i : Inode) → length (spliced i) ≡ disk_block_size
  spliced-length i =
      length-splice (block_at s.disk (inode_block s.superblock n)) (inode_offset n) (encode_inode i)
        (omega (
          arith,
          length-encode_inode i,
          offset_fits,
          block_length s.disk r (inode_block s.superblock n),
        ))
      ∙ block_length s.disk r (inode_block s.superblock n)

  pub write_inode-ok :
      (i : Inode)
      → write_inode host n i s ≡ (
        ok tt,
        on_disk s (write_block host read_once (inode_block s.superblock n) (some (spliced i))).1,
      )
  unfolding write_inode
  write_inode-ok i = rw good_number (
      bind-ok (read_disk host (inode_block s.superblock n))
        (λ block.
          write_disk host (inode_block s.superblock n)
            (splice block (inode_offset n) (encode_inode i)))
        s (read_disk-ok host reliable s r (inode_block s.superblock n) st.on_the_disk)
      ∙ write_disk-ok host reliable (on_disk s read_once) one_read.keeps.ready
          (inode_block s.superblock n) (omega (arith, one_read.keeps.total, st.on_the_disk))
          (spliced i) (spliced-length i))

  -- What `fs_ops_write_inode` does to the disk: one block, and there the bytes of the inode.
  pub write_inode-Writes :
      (i : Inode)
      → Writes s.disk
          (inode_block s.superblock n)
          (spliced i)
          (success, (write_block host read_once (inode_block s.superblock n) (some (spliced i))).1)
  write_inode-Writes i =
      let w =
        write_block-Writes host reliable read_once one_read.keeps.ready (inode_block s.superblock n)
          (omega (arith, one_read.keeps.total, st.on_the_disk)) (spliced i) (spliced-length i) in
      record {
        succeeds = refl;
        keeps = record { ready = w.keeps.ready; total = w.keeps.total ∙ one_read.keeps.total };
        updated = λ c. rw (w.updated c, one_read.same c);
      }

pub decode_spliced :
    (buffer : List ℕ) (o : ℕ) (i : Inode)
    → o ≤ length buffer
    → InodeFits i
    → decode_inode (take inode_size (drop o (splice buffer o (encode_inode i)))) ≡ i
decode_spliced buffer o i h fits =
    let bytes : take inode_size (drop o (splice buffer o (encode_inode i))) ≡ encode_inode i =
      ap (λ k. take k (drop o (splice buffer o (encode_inode i)))) (sym (length-encode_inode i))
      ∙ splice_same buffer o (encode_inode i) h in
    rw (bytes, ← append-nil (encode_inode i)) (decode_inode-encode_inode i [] fits)

-- On a reliable host and a ready disk that has room for the inode's place in the table,
-- `fs_ops_write_inode` of an inode whose fields fit succeeds, and `fs_ops_read_inode` then returns it.
pub read_inode-write_inode :
    (host : Host) (s : FsState) (n : ℕ) (i : Inode)
    → IsReliable host
    → IsReady s.disk
    → IsStored s n
    → InodeFits i
    → let (status, s') = write_inode host n i s in
      (status ≡ ok tt) × ((read_inode host n s').0 ≡ ok i)
read_inode-write_inode host s n i reliable r st fits =
    let w = write_inode-Writes host reliable s r n st i in
    let d' =
      (write_block host (read_once host reliable s r n st) (inode_block s.superblock n)
        (some (spliced host reliable s r n st i))).1 in
    let st' : IsStored (on_disk s d') n = record {
      positive = st.positive;
      in_table = st.in_table;
      no_wrap = st.no_wrap;
      on_the_disk = omega (arith, w.keeps.total, st.on_the_disk);
    } in
    rw (write_inode-ok host reliable s r n st i) (
      refl,
      rw
          (
            read_inode-ok host reliable (on_disk s d') w.keeps.ready n st',
            w.updated (inode_block s.superblock n),
            if_same (inode_block s.superblock n),
          )
          (ap ok (
            decode_spliced _ (inode_offset n) i
              (omega (
                arith,
                offset_fits host reliable s r n st,
                block_length s.disk r (inode_block s.superblock n),
              ))
              fits)),
    )

-- Two inodes of one block lie apart in it.
offsets_apart :
    (m n : ℕ)
    → m ≢ n
    → m / inodes_per_block ≡ n / inodes_per_block
    → (inode_offset m + inode_size ≤ inode_offset n)
      ⊎ (inode_offset n + inode_size ≤ inode_offset m)
unfolding inode_offset
offsets_apart m n ne e = elim (dec_lt (m % inodes_per_block) (n % inodes_per_block)) [
  | yes lt ↦ inl (omega arith)
  | no ge ↦ inr (omega arith)
]

-- The bytes of inode `m` in a block into which inode `n` has been spliced.
bytes_apart :
    (buffer : List ℕ) (m n : ℕ) (i : Inode)
    → inode_offset n ≤ length buffer
    → (inode_offset m + inode_size ≤ inode_offset n)
      ⊎ (inode_offset n + inode_size ≤ inode_offset m)
    → take inode_size (drop (inode_offset m) (splice buffer (inode_offset n) (encode_inode i)))
      ≡ take inode_size (drop (inode_offset m) buffer)
bytes_apart buffer m n i len (inl h) =
    splice_before buffer (inode_offset n) (encode_inode i) (inode_offset m) inode_size h len
bytes_apart buffer m n i len (inr h) = ap (take inode_size) (
    splice_behind buffer (inode_offset n) (encode_inode i) (inode_offset m)
      (omega (arith, length-encode_inode i, h)) len)

same_block :
    (m n : ℕ) (s : FsState)
    → IsStored s m
    → IsStored s n
    → inode_block s.superblock n ≡ inode_block s.superblock m
    → m / inodes_per_block ≡ n / inodes_per_block
unfolding inode_block
same_block m n s sm sn e = omega (arith, e, sm.no_wrap, sn.no_wrap)

-- The bytes of inode `m` on a disk whose block of inode `n` has had that inode spliced in.
bytes_kept :
    (s : FsState) (m n : ℕ) (i : Inode)
    → IsReady s.disk
    → IsStored s m
    → IsStored s n
    → m ≢ n
    → take inode_size (
        drop (inode_offset m) (
          if inode_block s.superblock n == inode_block s.superblock m
          then splice
              (block_at s.disk (inode_block s.superblock n))
              (inode_offset n)
              (encode_inode i)
          else block_at s.disk (inode_block s.superblock m)))
      ≡ take inode_size (drop (inode_offset m) (block_at s.disk (inode_block s.superblock m)))
unfolding inode_offset
bytes_kept s m n i r sm sn ne =
    let bm = inode_block s.superblock m in
    let bn = inode_block s.superblock n in
    elim (Bool-cases (bn == bm)) [
      | inr e ↦ rw e
      | inl e ↦
          let q : bn ≡ bm = (==_iff bn bm).0 e in
          rw (e, q)
            (bytes_apart (block_at s.disk bm) m n i
              (omega (arith, offset_in n, block_length s.disk r bm))
              (offsets_apart m n ne (same_block m n s sm sn q)))
    ]
  where
    offset_in : (k : ℕ) → inode_offset k ≤ disk_block_size
    offset_in k = omega arith

-- On a reliable host and a ready disk that has room for both, writing an inode leaves any other inode
-- of the table as `fs_ops_read_inode` reads it.
pub read_inode-write_inode_ne :
    (host : Host) (s : FsState) (m n : ℕ) (i : Inode)
    → IsReliable host
    → IsReady s.disk
    → IsStored s m
    → IsStored s n
    → m ≢ n
    → (read_inode host m (write_inode host n i s).1).0 ≡ (read_inode host m s).0
read_inode-write_inode_ne host s m n i reliable r sm sn ne =
    let w = write_inode-Writes host reliable s r n sn i in
    let bm = inode_block s.superblock m in
    let bn = inode_block s.superblock n in
    let new = spliced host reliable s r n sn i in
    let d' = (write_block host (read_once host reliable s r n sn) bn (some new)).1 in
    let st' : IsStored (on_disk s d') m = record {
      positive = sm.positive;
      in_table = sm.in_table;
      no_wrap = sm.no_wrap;
      on_the_disk = omega (arith, w.keeps.total, sm.on_the_disk);
    } in
    rw
      (
        write_inode-ok host reliable s r n sn i,
        read_inode-ok host reliable (on_disk s d') w.keeps.ready m st',
        read_inode-ok host reliable s r m sm,
        w.updated bm,
      )
      (ap (λ l. ok (decode_inode l)) (bytes_kept s m n i r sm sn ne))
