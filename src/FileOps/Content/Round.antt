-- ===== src/FileOps/Content/Round.antt =====
-- About one round of `fs_write`: a block is read, changed in the middle, and written back.
use caozuokeshe.Base.{
  ℕ, ◌+◌, ◌-◌, ◌^◌, ◌<◌, ◌≤◌, ◌≡◌, ◌≢◌, ◌⊎◌, ap, sym, ◌∙◌, inl, inr, some, List, arith, length,
  ◌==◌, ==_iff, if◌then◌else◌, if_ne, if_same, Bool-cases, get_or, take, splice, length-splice,
  length-take, get_or-take, get_or-splice_in, get_or-splice_before, get_or-splice_behind,
}
use native.Mathlib.Decide.{dec_lt}
use caozuokeshe.Errors.{ok}
use caozuokeshe.Layout.{Inode}
use caozuokeshe.Disk.Host.{Host, IsReliable}
use caozuokeshe.Disk.Block.{Disk, disk_block_size, read_block, write_block}
use caozuokeshe.Disk.Block.Laws.{
  block_at, block_length, Reads, Writes, read_block-Reads, write_block-Writes,
}
use caozuokeshe.Fs.State.{FsState, read_disk, write_disk}
use caozuokeshe.Fs.Inodes.Laws.{on_disk, read_disk-ok, write_disk-ok}
use caozuokeshe.FileOps.Blocks.{block_index, block_offset, get_data_block}
use caozuokeshe.FileOps.ReadWrite.{round_bytes}
use caozuokeshe.FileOps.Content.{byte_at, IsMounted, Owns}

-- Offsets that a `uint32_t` block index tells apart.
abbrev pub max_offset : ℕ
max_offset = 2 ^ 42

-- The round at offset `cursor`, with `left` bytes to go and `bytes` the buffer from there on.
module _ (host : Host) (reliable : IsReliable host) (s : FsState) (bits : List ℕ) (inode : Inode)
    (m : IsMounted s bits) (o : Owns s bits inode) (bytes : List ℕ) (cursor left : ℕ)
    (there : get_data_block inode (block_index cursor) ≢ 0) (enough : left ≤ length bytes) where
  abbrev pub b : ℕ
  b = get_data_block inode (block_index cursor)

  abbrev pub n : ℕ
  n = round_bytes cursor left

  abbrev pub new : List ℕ
  new = splice (block_at s.disk b) (block_offset cursor) (take n bytes)

  on_disk_b : b < s.disk.total_blocks
  on_disk_b = let t = o.taken (block_index cursor) there in omega (arith, t.below, m.room)

  in_block : block_offset cursor + length (take n bytes) ≤ length (block_at s.disk b)
  unfolding block_offset
  in_block = omega (arith, length-take n bytes, block_length s.disk m.ready b)

  count_taken : length (take n bytes) ≡ n
  count_taken = omega (arith, length-take n bytes, enough)

  new-length : length new ≡ disk_block_size
  new-length =
      length-splice (block_at s.disk b) (block_offset cursor) (take n bytes) in_block
      ∙ block_length s.disk m.ready b

  abbrev pub was_read : Disk
  was_read = (read_block host s.disk b).2

  reads : Reads s.disk b (read_block host s.disk b)
  reads = read_block-Reads host reliable s.disk m.ready b on_disk_b

  pub read_round : read_disk host b s ≡ (ok (block_at s.disk b), on_disk s was_read)
  read_round = read_disk-ok host reliable s m.ready b on_disk_b

  abbrev pub after_round : FsState
  after_round = on_disk s (write_block host was_read b (some new)).1

  still_on_disk : b < was_read.total_blocks
  still_on_disk = omega (arith, on_disk_b, reads.keeps.total)

  pub write_round : write_disk host b new (on_disk s was_read) ≡ (ok tt, after_round)
  write_round =
      write_disk-ok host reliable (on_disk s was_read) reads.keeps.ready b still_on_disk new
        new-length

  writes : Writes was_read b new (write_block host was_read b (some new))
  writes =
      write_block-Writes host reliable was_read reads.keeps.ready b still_on_disk new new-length

  pub total_round : after_round.disk.total_blocks ≡ s.disk.total_blocks
  total_round = writes.keeps.total ∙ reads.keeps.total

  pub block_round :
      (c : ℕ) → block_at after_round.disk c ≡ (if b == c then new else block_at s.disk c)
  block_round c = writes.updated c ∙ ap (λ old. if b == c then new else old) (reads.same c)

  pub round-IsMounted : IsMounted after_round bits
  round-IsMounted = record {
    ready = writes.keeps.ready;
    valid = m.valid;
    room = omega (arith, m.room, total_round);
    behind = m.behind;
  }

  pub round-Owns : Owns after_round bits inode
  round-Owns = record {
    twelve = o.twelve;
    taken = λ i h.
        let t = o.taken i h in record { above = t.above; below = t.below; marked = t.marked };
    distinct = o.distinct;
  }

  -- The round leaves the blocks of the tables alone.
  pub tables_round :
      (c : ℕ) → c < s.superblock.data_blocks_start → block_at after_round.disk c ≡ block_at s.disk c
  tables_round c lt =
      let t = o.taken (block_index cursor) there in
      block_round c ∙ if_ne b c new (block_at s.disk c) (λ e. absurd (omega (arith, e, t.above)))

  module _ (k : ℕ) (small : cursor < max_offset) (k_small : k < max_offset) where
    -- The bytes of the round are those of the buffer.
    pub byte_at-round :
        cursor ≤ k → k < cursor + n → byte_at after_round.disk inode k ≡ get_or bytes (k - cursor) 0
    unfolding byte_at block_index block_offset
    byte_at-round lo hi =
        let same : block_index k ≡ block_index cursor = omega arith in
        let at_k : block_offset k ≡ block_offset cursor + (k - cursor) = omega arith in
        ap (λ i. get_or (block_at after_round.disk (get_data_block inode i)) (block_offset k) 0)
          same
        ∙ ap (λ block. get_or block (block_offset k) 0)
            (block_round b ∙ if_same b new (block_at s.disk b))
        ∙ get_or-splice_in (block_at s.disk b) (block_offset cursor) (take n bytes) (block_offset k)
            0 in_block (omega (arith, at_k)) (omega (arith, at_k, count_taken))
        ∙ get_or-take n bytes (block_offset k - block_offset cursor) 0 (omega (arith, at_k))
        ∙ ap (λ i. get_or bytes i 0) (omega (arith, at_k))

    -- Every other byte of the file stays.
    pub byte_at-round_ne :
        (k < cursor) ⊎ (cursor + n ≤ k)
        → get_data_block inode (block_index k) ≢ 0
        → byte_at after_round.disk inode k ≡ byte_at s.disk inode k
    unfolding byte_at block_index block_offset
    byte_at-round_ne out h = elim (Bool-cases (block_index cursor == block_index k)) [
      | inl e ↦
          let same : block_index k ≡ block_index cursor = sym ((==_iff _ _).0 e) in
          ap (λ i. get_or (block_at after_round.disk (get_data_block inode i)) (block_offset k) 0)
            same
          ∙ ap (λ block. get_or block (block_offset k) 0)
              (block_round b ∙ if_same b new (block_at s.disk b))
          ∙ around same
          ∙ ap (λ i. get_or (block_at s.disk (get_data_block inode i)) (block_offset k) 0)
              (sym same)
      | inr e ↦
          let apart : b ≢ get_data_block inode (block_index k) = λ z.
            absurd (ground (arith, o.distinct (block_index cursor) (block_index k) there z, e)) in
          ap (λ block. get_or block (block_offset k) 0)
            (block_round (get_data_block inode (block_index k))
              ∙ if_ne b (get_data_block inode (block_index k)) new
                  (block_at s.disk (get_data_block inode (block_index k))) apart)
    ]
      where
        around :
            block_index k ≡ block_index cursor
            → get_or new (block_offset k) 0 ≡ get_or (block_at s.disk b) (block_offset k) 0
        around same = elim (dec_lt k cursor) [
          | yes lt ↦
              get_or-splice_before (block_at s.disk b) (block_offset cursor) (take n bytes)
                (block_offset k) 0 in_block (omega (arith, same, lt))
          | no ge ↦
              get_or-splice_behind (block_at s.disk b) (block_offset cursor) (take n bytes)
                (block_offset k) 0 in_block (ground (arith, same, ge, out, count_taken))
        ]
