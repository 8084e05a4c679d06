-- ===== src/FileOps/Content/Write.antt =====
-- About the loop of `fs_write`, byte for byte.
use caozuokeshe.Base.{
  ℕ, zero, suc, ◌+◌, ◌-◌, ◌<◌, ◌≤◌, ◌≡◌, ◌≢◌, ◌⊎◌, refl, ap, sym, ◌∙◌, inl, inr, false, List, arith,
  length, ltb, ◌==◌, ==_iff, Bool-cases, get_or, drop, length-drop, get_or-drop,
}
use native.Mathlib.Decide.{dec_lt}
use caozuokeshe.Errors.{Result, ok}
use caozuokeshe.Layout.{Inode}
use caozuokeshe.Disk.Host.{Host, IsReliable}
use caozuokeshe.Disk.Block.Laws.{block_at}
use caozuokeshe.Fs.State.{FsState, ◌>>=◌, read_disk, write_disk}
use caozuokeshe.Fs.Inodes.Laws.{on_disk}
use caozuokeshe.FileOps.Blocks.{block_index, block_offset, get_data_block}
use caozuokeshe.FileOps.ReadWrite.{block_for_write, round_bytes, write_loop}
use caozuokeshe.FileOps.ReadWrite.Laws.{round_bytes-pos}
use caozuokeshe.FileOps.Content.{byte_at, byte_at-ext, IsMounted, Owns}
use caozuokeshe.FileOps.Content.Alloc.{Found, block_for_write-Found}
use caozuokeshe.FileOps.Content.Round.{
  max_offset, after_round, was_read, new, read_round, write_round, round-IsMounted, round-Owns,
  tables_round, total_round, byte_at-round, byte_at-round_ne,
}

-- What the loop of `fs_write`, begun with `written` bytes done, leaves: `count` bytes are written, the
-- file holds them, its other bytes are as before, and the loop stops short of `size` only where the
-- file has no block and none can be allocated.
pub record Wrote (s : FsState) (inode : Inode) (buffer : List ℕ) (size start written : ℕ)
    (r : Result (ℕ × Inode) × FsState) : Type 0 where
  pub count : ℕ
  pub inode' : Inode
  pub bits' : List ℕ
  pub returns : r.0 ≡ ok (count, inode')
  pub further : written ≤ count
  pub within : count ≤ size
  pub mounted : IsMounted r.1 bits'
  pub owns : Owns r.1 bits' inode'
  pub kept : (i : ℕ) → get_data_block inode i ≢ 0 → get_data_block inode' i ≡ get_data_block inode i
  pub there :
      (k : ℕ) → start + written ≤ k → k < start + count → get_data_block inode' (block_index k) ≢ 0
  pub content :
      (k : ℕ)
      → start + written ≤ k
      → k < start + count
      → byte_at r.1.disk inode' k ≡ get_or buffer (k - start) 0
  pub others :
      (k : ℕ)
      → k < max_offset
      → (k < start + written) ⊎ (start + count ≤ k)
      → get_data_block inode (block_index k) ≢ 0
      → byte_at r.1.disk inode' k ≡ byte_at s.disk inode k
  pub stops : (count ≡ size) ⊎ (get_data_block inode' (block_index (start + count)) ≡ 0)
  pub tables :
      (c : ℕ) → c < s.superblock.data_blocks_start → block_at r.1.disk c ≡ block_at s.disk c
  pub total : r.1.disk.total_blocks ≡ s.disk.total_blocks
  pub frame : r.1 ≡ record s { block_bitmap = r.1.block_bitmap; disk = r.1.disk }
  pub inode_frame : inode' ≡ record inode { direct_blocks = inode'.direct_blocks }

abbrev with_parts : FsState → FsState → FsState
with_parts s t = record t { block_bitmap = s.block_bitmap; disk = s.disk }

abbrev with_blocks : Inode → Inode → Inode
with_blocks i j = record j { direct_blocks = i.direct_blocks }

module _ (host : Host) (reliable : IsReliable host) (buffer : List ℕ) (size start : ℕ)
    (enough : size ≤ length buffer) (small : start + size < max_offset) where
  -- The loop that stops where it is, perhaps with the search for a block behind it.
  stopped :
      (s : FsState) (inode : Inode) (bits : List ℕ) (written : ℕ)
      → IsMounted s bits
      → Owns s bits inode
      → written ≤ size
      → (written ≡ size) ⊎ (get_data_block inode (block_index (start + written)) ≡ 0)
      → Wrote s inode buffer size start written (ok (written, inode), s)
  stopped s inode bits written m o le end = record {
    count = written;
    inode' = inode;
    bits' = bits;
    returns = refl;
    further = omega arith;
    within = le;
    mounted = m;
    owns = o;
    kept = λ i h. refl;
    there = λ k lo hi. absurd (omega arith);
    content = λ k lo hi. absurd (omega arith);
    others = λ k lt out h. refl;
    stops = end;
    tables = λ c lt. refl;
    total = refl;
    frame = refl;
    inode_frame = refl;
  }

  -- What follows the search for a block, seen from before it.
  after_search :
      (s : FsState) (inode : Inode) (index written : ℕ) {r1 : Result (ℕ × Inode) × FsState}
      (f : Found s inode index r1) {r : Result (ℕ × Inode) × FsState}
      → Wrote r1.1 f.inode' buffer size start written r
      → Wrote s inode buffer size start written r
  after_search s inode index written {r1} f {r} w = record {
    count = w.count;
    inode' = w.inode';
    bits' = w.bits';
    returns = w.returns;
    further = w.further;
    within = w.within;
    mounted = w.mounted;
    owns = w.owns;
    kept = λ i h. w.kept i (λ z. h (sym (f.kept i h) ∙ z)) ∙ f.kept i h;
    there = w.there;
    content = w.content;
    others = λ k lt out h.
        let e = f.kept (block_index k) h in
        w.others k lt out (λ z. h (sym e ∙ z))
        ∙ byte_at-ext s.disk r1.1.disk inode f.inode' k same_disk e;
    stops = w.stops;
    tables = λ c lt.
        w.tables c
          (omega (arith, lt, ap (λ t. t.data_blocks_start) (ap FsState.superblock f.frame)))
        ∙ ap (λ d. block_at d c) same_disk;
    total = w.total ∙ ap (λ d. d.total_blocks) same_disk;
    frame = w.frame ∙ ap (with_parts r.1) f.frame;
    inode_frame = w.inode_frame ∙ ap (with_blocks w.inode') f.inode_frame;
  }
    where
      same_disk : r1.1.disk ≡ s.disk
      same_disk = ap FsState.disk f.frame

  -- What a round and the rounds after it leave, seen from before the round.
  module _ (s : FsState) (bits : List ℕ) (inode : Inode) (m : IsMounted s bits)
      (o : Owns s bits inode) (written : ℕ) (lt : written < size)
      (there : get_data_block inode (block_index (start + written)) ≢ 0) where
    abbrev cursor : ℕ
    cursor = start + written

    abbrev moved : ℕ
    moved = round_bytes cursor (size - written)

    enough_left : size - written ≤ length (drop written buffer)
    enough_left = omega (arith, length-drop written buffer)

    abbrev next : FsState
    next =
        after_round host reliable s bits inode m o (drop written buffer) cursor (size - written)
          there enough_left

    moves : (0 < moved) × (moved ≤ size - written)
    moves = round_bytes-pos cursor (size - written) (omega arith)

    reads : read_disk host (get_data_block inode (block_index cursor)) s ≡ (
      ok (block_at s.disk (get_data_block inode (block_index cursor))),
      on_disk s (
          was_read host reliable s bits inode m o
            (drop written buffer)
            cursor
            (size - written)
            there
            enough_left),
    )
    reads =
        read_round host reliable s bits inode m o (drop written buffer) cursor (size - written)
          there enough_left

    writes :
        write_disk host
          (get_data_block inode (block_index cursor))
          (new host reliable s bits inode m o
            (drop written buffer)
            cursor
            (size - written)
            there
            enough_left)
          (on_disk s (
            was_read host reliable s bits inode m o
              (drop written buffer)
              cursor
              (size - written)
              there
              enough_left))
        ≡ (ok tt, next)
    writes =
        write_round host reliable s bits inode m o (drop written buffer) cursor (size - written)
          there enough_left

    next-IsMounted : IsMounted next bits
    next-IsMounted =
        round-IsMounted host reliable s bits inode m o (drop written buffer) cursor (size - written)
          there enough_left

    next-Owns : Owns next bits inode
    next-Owns =
        round-Owns host reliable s bits inode m o (drop written buffer) cursor (size - written)
          there enough_left

    -- The offsets that a round covers lie in one block.
    one_block : (k : ℕ) → cursor ≤ k → k < cursor + moved → block_index k ≡ block_index cursor
    unfolding block_index block_offset
    one_block k lo hi = omega arith

    after_one :
        {r : Result (ℕ × Inode) × FsState}
        → Wrote next inode buffer size start (written + moved) r
        → Wrote s inode buffer size start written r
    after_one {r} w = record {
      count = w.count;
      inode' = w.inode';
      bits' = w.bits';
      returns = w.returns;
      further = omega (arith, w.further);
      within = w.within;
      mounted = w.mounted;
      owns = w.owns;
      kept = w.kept;
      there = λ k lo hi. elim (dec_lt k (cursor + moved)) [
        | yes here ↦ λ z. in_round k lo here (sym (w.kept (block_index k) (in_round k lo here)) ∙ z)
        | no later ↦ w.there k (omega (arith, later)) hi
      ];
      content = λ k lo hi. elim (dec_lt k (cursor + moved)) [
        | yes here ↦
            let k_small : k < max_offset = omega (arith, here, moves) in
            w.others k k_small (inl (omega (arith, here))) (in_round k lo here)
            ∙ byte_at-round host reliable s bits inode m o (drop written buffer) cursor
                (size - written) there enough_left k (omega arith) k_small lo here
            ∙ get_or-drop written buffer (k - cursor) 0
            ∙ ap (λ i. get_or buffer i 0) (omega (arith, lo))
        | no later ↦ w.content k (omega (arith, later)) hi
      ];
      others = λ k k_small out h.
          w.others k k_small (before_or_behind k out) h
          ∙ byte_at-round_ne host reliable s bits inode m o (drop written buffer) cursor
              (size - written) there enough_left k (omega arith) k_small (around k out) h;
      stops = w.stops;
      tables = λ c c_lt.
          w.tables c c_lt
          ∙ tables_round host reliable s bits inode m o (drop written buffer) cursor
              (size - written) there enough_left c c_lt;
      total =
          w.total
          ∙ total_round host reliable s bits inode m o (drop written buffer) cursor (size - written)
              there enough_left;
      frame = w.frame;
      inode_frame = w.inode_frame;
    }
      where
        in_round :
            (k : ℕ) → cursor ≤ k → k < cursor + moved → get_data_block inode (block_index k) ≢ 0
        in_round k lo here = λ z. there (ap (get_data_block inode) (sym (one_block k lo here)) ∙ z)

        before_or_behind :
            (k : ℕ)
            → (k < start + written) ⊎ (start + w.count ≤ k)
            → (k < start + (written + moved)) ⊎ (start + w.count ≤ k)
        before_or_behind k (inl h) = inl (omega (arith, h))
        before_or_behind k (inr h) = inr h

        around :
            (k : ℕ)
            → (k < start + written) ⊎ (start + w.count ≤ k)
            → (k < cursor) ⊎ (cursor + moved ≤ k)
        around k (inl h) = inl h
        around k (inr h) = inr (omega (arith, h, w.further))

  -- On a mounted file system of a reliable host, for a file that owns its blocks, a buffer of at
  -- least `size` bytes, offsets below 2^42 and rounds enough for the bytes that are left: the loop
  -- of `fs_write` succeeds with a number of bytes between those done and `size`; the file then has
  -- blocks for them that hold the bytes of the buffer, its other bytes, its other blocks and the
  -- blocks of the tables are as before, the bitmap is valid and the file owns its blocks, and the
  -- loop has stopped short of `size` only where the file has no block.
  pub write_loop-Wrote :
      (fuel : ℕ) (s : FsState) (bits : List ℕ) (inode : Inode) (written : ℕ)
      → IsMounted s bits
      → Owns s bits inode
      → written ≤ size
      → size ≤ fuel + written
      → Wrote s inode buffer size start written
          (write_loop host buffer size start fuel written inode s)
  unfolding write_loop
  write_loop-Wrote zero s bits inode written m o le fuel_left =
      stopped s inode bits written m o le (inl (omega arith))
  write_loop-Wrote (suc fuel) s bits inode written m o le fuel_left =
      elim (Bool-cases (ltb written size)) [
        | inr e ↦ rw (e, write_loop) (stopped s inode bits written m o le (inl (ground (arith, e))))
        | inl e ↦
            let lt : written < size = ground (arith, e) in
            let index = block_index (start + written) in
            let f = block_for_write-Found s inode bits index m o in
            let s1 = (block_for_write inode index s).1 in
            elim (Bool-cases (f.block == 0)) [
              | inl z ↦
                  let none_there : get_data_block f.inode' index ≡ 0 =
                    sym f.here ∙ (==_iff _ _).0 z in
                  rw (e, f.returns, z, ◌>>=◌, write_loop)
                    (after_search s inode index written f
                      (stopped s1 f.inode' f.bits' written f.mounted f.owns le (inr none_there)))
              | inr z ↦
                  let there : get_data_block f.inode' index ≢ 0 =
                    λ q. absurd (ground (arith, z, f.here, q)) in
                  let b = get_data_block f.inode' index in
                  let got : (block_for_write inode index s).0 ≡ ok (b, f.inode') =
                    f.returns ∙ ap (λ x. ok (x, f.inode')) f.here in
                  let nonzero : (b == 0) ≡ false = ground (arith, there) in
                  let read = reads s1 f.bits' f.inode' f.mounted f.owns written lt there in
                  let wrote = writes s1 f.bits' f.inode' f.mounted f.owns written lt there in
                  let moves' = moves s1 f.bits' f.inode' f.mounted f.owns written lt there in
                  let n = round_bytes (start + written) (size - written) in
                  let w =
                    write_loop-Wrote fuel
                      (next s1 f.bits' f.inode' f.mounted f.owns written lt there) f.bits' f.inode'
                      (written + n)
                      (next-IsMounted s1 f.bits' f.inode' f.mounted f.owns written lt there)
                      (next-Owns s1 f.bits' f.inode' f.mounted f.owns written lt there)
                      (omega (arith, moves')) (omega (arith, moves')) in
                  rw
                    (
                      e,
                      got,
                      nonzero,
                      ap (λ r. r.0) read,
                      ap (λ r. r.1) read,
                      ap (λ r. r.0) wrote,
                      ap (λ r. r.1) wrote,
                      ◌>>=◌,
                      write_loop,
                    )
                    (after_search s inode index written f
                      (after_one s1 f.bits' f.inode' f.mounted f.owns written lt there w))
            ]
      ]
