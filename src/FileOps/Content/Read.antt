-- ===== src/FileOps/Content/Read.antt =====
-- About the loop of `fs_read`, byte for byte, and about reading what was written.
use caozuokeshe.Base.{
  ℕ, zero, suc, ◌+◌, ◌-◌, ◌<◌, ◌≤◌, ◌≡◌, ◌≢◌, ◌⊎◌, refl, ap, sym, ◌∙◌, inl, inr, false, List, [],
  ◌++◌, arith, length, ltb, ◌==◌, Bool-cases, get_or, take, drop, length-take, length-drop,
  length-append, get_or-drop, get_or-take, get_or-append_left, get_or-append_right, list-ext,
}
use native.Mathlib.Decide.{dec_lt}
use caozuokeshe.Errors.{Result, ok}
use caozuokeshe.Layout.{Inode}
use caozuokeshe.Disk.Host.{Host, IsReliable}
use caozuokeshe.Disk.Block.{read_block}
use caozuokeshe.Disk.Block.Laws.{IsReady, Reads, block_at, block_length, read_block-Reads}
use caozuokeshe.Fs.State.{FsState, ◌>>=◌, read_disk}
use caozuokeshe.Fs.Inodes.Laws.{on_disk, read_disk-ok}
use caozuokeshe.FileOps.Blocks.{block_index, block_offset, get_data_block}
use caozuokeshe.FileOps.ReadWrite.{round_bytes, read_loop, write_loop}
use caozuokeshe.FileOps.ReadWrite.Laws.{round_bytes-pos}
use caozuokeshe.FileOps.Content.{byte_at, byte_at-blocks, IsMounted, Owns}
use caozuokeshe.FileOps.Content.Round.{max_offset}
use caozuokeshe.FileOps.Content.Write.{write_loop-Wrote}

-- What the loop of `fs_read`, begun with `done` bytes read, returns and leaves.
pub record ReadBack (s : FsState) (inode : Inode) (size start done : ℕ)
    (r : Result (List ℕ) × FsState) : Type 0 where
  pub bytes : List ℕ
  pub returns : r.0 ≡ ok bytes
  pub whole : length bytes + done ≡ size
  pub content :
      (i : ℕ) → i < length bytes → get_or bytes i 0 ≡ byte_at s.disk inode (start + done + i)
  pub ready : IsReady r.1.disk
  pub total : r.1.disk.total_blocks ≡ s.disk.total_blocks
  pub blocks : (c : ℕ) → block_at r.1.disk c ≡ block_at s.disk c
  pub frame : r.1 ≡ record s { disk = r.1.disk }

module _ (host : Host) (reliable : IsReliable host) (inode : Inode) (size start : ℕ)
    (small : start + size < max_offset) where
  module _ (s : FsState) (ready : IsReady s.disk) (done : ℕ) (lt : done < size)
      (on_the_disk : get_data_block inode (block_index (start + done)) < s.disk.total_blocks) where
    abbrev cursor : ℕ
    cursor = start + done

    abbrev b : ℕ
    b = get_data_block inode (block_index cursor)

    abbrev n : ℕ
    n = round_bytes cursor (size - done)

    abbrev next : FsState
    next = on_disk s (read_block host s.disk b).2

    reads : Reads s.disk b (read_block host s.disk b)
    reads = read_block-Reads host reliable s.disk ready b on_the_disk

    read_next : read_disk host b s ≡ (ok (block_at s.disk b), next)
    read_next = read_disk-ok host reliable s ready b on_the_disk

    moves : (0 < n) × (n ≤ size - done)
    moves = round_bytes-pos cursor (size - done) (omega arith)

    abbrev piece : List ℕ
    piece = take n (drop (block_offset cursor) (block_at s.disk b))

    piece-length : length piece ≡ n
    unfolding block_offset
    piece-length = omega (
      arith,
      length-take n (drop (block_offset cursor) (block_at s.disk b)),
      length-drop (block_offset cursor) (block_at s.disk b),
      block_length s.disk ready b,
    )

    piece_content : (i : ℕ) → i < n → get_or piece i 0 ≡ byte_at s.disk inode (cursor + i)
    unfolding byte_at block_index block_offset
    piece_content i i_lt =
        let same : block_index cursor ≡ block_index (cursor + i) = omega arith in
        let at : block_offset cursor + i ≡ block_offset (cursor + i) = omega arith in
        get_or-take n (drop (block_offset cursor) (block_at s.disk b)) i 0 i_lt
        ∙ get_or-drop (block_offset cursor) (block_at s.disk b) i 0
        ∙ ap (λ k. get_or (block_at s.disk b) k 0) at
        ∙ ap (λ j. get_or (block_at s.disk (get_data_block inode j)) (block_offset (cursor + i)) 0)
            same

    after_one :
        {r : Result (List ℕ) × FsState} (w : ReadBack next inode size start (done + n) r)
        → ReadBack s inode size start done (ok (piece ++ w.bytes), r.1)
    after_one {r} w = record {
      bytes = piece ++ w.bytes;
      returns = refl;
      whole = omega (arith, length-append piece w.bytes, piece-length, w.whole);
      content = λ i i_lt. elim (dec_lt i n) [
        | yes here ↦
            get_or-append_left piece w.bytes i 0 (omega (arith, here, piece-length))
            ∙ piece_content i here
        | no later ↦
            get_or-append_right piece w.bytes i 0 (omega (arith, later, piece-length))
            ∙ w.content (i - length piece)
                (omega (arith, later, i_lt, piece-length, length-append piece w.bytes))
            ∙ same_byte (i - length piece)
            ∙ ap (byte_at s.disk inode) (omega (arith, later, piece-length))
      ];
      ready = w.ready;
      total = w.total ∙ reads.keeps.total;
      blocks = λ c. w.blocks c ∙ reads.same c;
      frame = w.frame;
    }
      where
        same_byte :
            (i : ℕ)
            → byte_at next.disk inode (start + (done + n) + i)
              ≡ byte_at s.disk inode (start + (done + n) + i)
        same_byte i = byte_at-blocks s.disk next.disk inode (start + (done + n) + i) reads.same

  pub read_loop-ReadBack :
      (fuel : ℕ) (s : FsState) (done : ℕ)
      → IsReady s.disk
      → done ≤ size
      → size ≤ fuel + done
      → ((k : ℕ) → start + done ≤ k → k < start + size → get_data_block inode (block_index k) ≢ 0)
      → ((k : ℕ)
          → start + done ≤ k
          → k < start + size
          → get_data_block inode (block_index k) < s.disk.total_blocks)
      → ReadBack s inode size start done (read_loop host inode size start fuel done s)
  unfolding read_loop
  read_loop-ReadBack zero s done ready le fuel_left there inside = record {
    bytes = [];
    returns = refl;
    whole = omega arith;
    content = λ i lt. absurd (omega arith);
    ready = ready;
    total = refl;
    blocks = λ c. refl;
    frame = refl;
  }
  read_loop-ReadBack (suc fuel) s done ready le fuel_left there inside =
      elim (Bool-cases (ltb done size)) [
        | inr e ↦
            rw (e, read_loop)
              (record {
                bytes = [];
                returns = refl;
                whole = ground (arith, e);
                content = λ i lt. absurd (omega arith);
                ready = ready;
                total = refl;
                blocks = λ c. refl;
                frame = refl;
              })
        | inl e ↦
            let lt : done < size = ground (arith, e) in
            let here = inside (start + done) (omega arith) (omega arith) in
            let nonzero : (get_data_block inode (block_index (start + done)) == 0) ≡ false =
              ground (arith, there (start + done) (omega arith) (omega arith)) in
            let moved = moves s ready done lt here in
            let got = read_next s ready done lt here in
            let total = (reads s ready done lt here).keeps.total in
            let n = round_bytes (start + done) (size - done) in
            let w =
              read_loop-ReadBack fuel (next s ready done lt here) (done + n)
                (reads s ready done lt here).keeps.ready (omega (arith, moved))
                (omega (arith, moved)) (λ k lo hi. there k (omega (arith, lo)) hi)
                (λ k lo hi. omega (arith, inside k (omega (arith, lo)) hi, total)) in
            rw
              (
                e,
                nonzero,
                ap (λ r. r.0) got,
                ap (λ r. r.1) got,
                w.returns,
                ap (λ r. r.1) got,
                ◌>>=◌,
                read_loop,
              )
              (after_one s ready done lt here w)
      ]

-- The data blocks of a file lie on the disk.
pub in_range :
    (s : FsState) (bits : List ℕ) (inode : Inode)
    → IsMounted s bits
    → Owns s bits inode
    → (i : ℕ) → get_data_block inode i ≢ 0
    → get_data_block inode i < s.disk.total_blocks
in_range s bits inode m o i h = let t = o.taken i h in omega (arith, t.below, m.room)

-- On a mounted file system of a reliable host, for a file that owns its blocks, a buffer of at
-- least `size` bytes and offsets below 2^42: the loop of `fs_write` returns the number of bytes it
-- has written, and the loop of `fs_read` over as many bytes from the same offset then returns the
-- beginning of the buffer of that length; the write stops short of `size` only where the file is
-- left without a block for the next byte.
pub read_loop-write_loop :
    (host : Host) (s : FsState) (bits : List ℕ) (inode : Inode) (buffer : List ℕ) (size start : ℕ)
    → IsReliable host
    → IsMounted s bits
    → Owns s bits inode
    → size ≤ length buffer
    → start + size < max_offset
    → let (status, s') = write_loop host buffer size start size 0 inode s in
      (count : ℕ) × (inode' : Inode) × (status ≡ ok (count, inode'))
      × (count ≤ size)
      × ((count ≡ size) ⊎ (get_data_block inode' (block_index (start + count)) ≡ 0))
      × ((read_loop host inode' count start count 0 s').0 ≡ ok (take count buffer))
read_loop-write_loop host s bits inode buffer size start reliable m o enough small =
    let w =
      write_loop-Wrote host reliable buffer size start enough small size s bits inode 0 m o
        (omega arith) (omega arith) in
    let s' = (write_loop host buffer size start size 0 inode s).1 in
    let inside = λ (k : ℕ) (lo : start + 0 ≤ k) (hi : k < start + w.count).
      in_range s' w.bits' w.inode' w.mounted w.owns (block_index k) (w.there k lo hi) in
    let back =
      read_loop-ReadBack host reliable w.inode' w.count start (omega (arith, w.within)) w.count s' 0
        w.mounted.ready (omega arith) (omega arith) w.there inside in
    let same : back.bytes ≡ take w.count buffer =
      list-ext back.bytes (take w.count buffer) 0
        (omega (arith, back.whole, length-take w.count buffer, w.within))
        (λ i lt.
          back.content i lt
          ∙ w.content (start + 0 + i) (omega arith) (omega (arith, back.whole))
          ∙ ap (λ k. get_or buffer k 0) (omega arith)
          ∙ sym (get_or-take w.count buffer i 0 (omega (arith, back.whole)))) in
    (w.count, w.inode', w.returns, w.within, w.stops, back.returns ∙ ap ok same)
