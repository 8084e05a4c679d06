-- ===== src/FileOps/ReadWrite/Laws.antt =====
-- About the loop of `fs_write`: its rounds, its fuel and its count.
use caozuokeshe.Errors.{Result, Result-cases, ok, err, io}
use caozuokeshe.Layout.{Inode, direct_block_count}
use caozuokeshe.Bitmap.{find_clear, mark}
use caozuokeshe.Base.{
  ℕ, zero, suc, ◌+◌, ◌-◌, ◌%◌, ◌^◌, ◌<◌, ◌≤◌, ◌≡◌, refl, inl, inr, false, some, List, ltb, ◌==◌,
  arith, Bool-cases, Option-cases, take, drop, get_or, splice, ap, ◌∙◌,
}
use caozuokeshe.Disk.Block.{Disk, DiskStatus, success, write_block}
use caozuokeshe.Fs.Directory.ReadOnly.{read_disk-IsReadOnly}
use caozuokeshe.Disk.Host.{Host}
use caozuokeshe.Fs.State.{FsState, ◌>>=◌, read_disk, write_disk}
use caozuokeshe.FileOps.Blocks.{
  block_index, block_offset, get_data_block, alloc_data_block, allocate_data_block,
}
use caozuokeshe.FileOps.ReadWrite.{block_for_write, round_bytes, write_loop}

-- A round moves at least one byte, and no more than is left.
pub round_bytes-pos :
    (offset left : ℕ) → 0 < left → (0 < round_bytes offset left) × (round_bytes offset left ≤ left)
unfolding block_offset
round_bytes-pos offset left h = (omega arith, omega arith)

-- The block bitmap has been allocated.
abbrev pub IsAllocated : FsState → Type 0
IsAllocated s = (bytes : List ℕ) × (s.block_bitmap.bitmap ≡ some bytes)

-- With an allocated bitmap a function succeeds, and the bitmap stays allocated.
abbrev Succeeds : {A : Type 0} → Result A × FsState → Type 0
Succeeds {A} r = (a : A) × (r.0 ≡ ok a) × IsAllocated r.1

-- Finding or allocating the block of a round does not fail: where there is none it gives 0.
alloc_data_block-Succeeds : (s : FsState) → IsAllocated s → Succeeds (alloc_data_block s)
unfolding alloc_data_block
alloc_data_block-Succeeds s (bytes, g) = elim (Bool-cases (s.block_bitmap.free_count == 0)) [
  | inl e ↦ rw (e, alloc_data_block) (0, refl, (bytes, g))
  | inr e ↦
      elim (Option-cases (
        find_clear bytes s.block_bitmap.last_allocated s.block_bitmap.total_bits
          s.block_bitmap.total_bits 0)) [
            | inl h ↦ rw (e, g, h, alloc_data_block) (0, refl, (bytes, g))
            | inr (k, h) ↦
                rw (e, g, h, alloc_data_block)
                  ((k + s.superblock.data_blocks_start) % 2 ^ 32, refl, (mark bytes k, refl))
          ]
]

block_for_write-Succeeds :
    (inode : Inode) (index : ℕ) (s : FsState)
    → IsAllocated s
    → Succeeds (block_for_write inode index s)
unfolding block_for_write allocate_data_block
block_for_write-Succeeds inode index s a = elim (Bool-cases (get_data_block inode index == 0)) [
  | inr e ↦ rw e ((get_data_block inode index, inode), refl, a)
  | inl e ↦ elim (Bool-cases (ltb index direct_block_count)) [
    | inr g ↦ rw (e, g) ((0, inode), refl, a)
    | inl g ↦ elim (Bool-cases (get_or inode.direct_blocks index 0 == 0)) [
      | inr h ↦ rw (e, g, h) ((get_or inode.direct_blocks index 0, inode), refl, a)
      | inl h ↦
          let (b, ok_b, a') = alloc_data_block-Succeeds s a in
          rw (e, g, h, ok_b, ◌>>=◌) (_, refl, a')
    ]
  ]
]

read_disk-IsAllocated :
    (host : Host) (b : ℕ) (s : FsState) → IsAllocated s → IsAllocated (read_disk host b s).1
read_disk-IsAllocated host b s (bytes, g) =
    (bytes, ap (λ t. t.block_bitmap.bitmap) (read_disk-IsReadOnly host b s) ∙ g)

write_disk-IsAllocated :
    (host : Host) (b : ℕ) (bytes : List ℕ) (s : FsState)
    → IsAllocated s
    → IsAllocated (write_disk host b bytes s).1
unfolding write_disk
write_disk-IsAllocated host b bytes s a =
    kept (write_block host s.disk b (some bytes)).0 (write_block host s.disk b (some bytes)).1
  where
    kept :
        (status : DiskStatus) (d : Disk)
        → IsAllocated
            (elim status as (λ x. Result (Unit {0}) × FsState) [
              | success ↦ (ok tt, record s { disk = d })
              | _ ↦ (err io, record s { disk = d })
            ]).1
    kept success d = a
    kept _ d = a

-- What the loop returns: never an error, but how far it has come and the inode.
pub record Progress (size written : ℕ) (r : Result (ℕ × Inode) × FsState) : Type 0 where
  pub count : ℕ
  pub inode : Inode
  pub returns : r.0 ≡ ok (count, inode)
  pub further : written ≤ count
  pub within : count ≤ size

module _ (host : Host) (bytes : List ℕ) (size start : ℕ) where
  stopped :
      (written : ℕ) (inode : Inode) (s : FsState)
      → written ≤ size
      → Progress size written (ok (written, inode), s)
  stopped written inode s le = record {
    count = written;
    inode = inode;
    returns = refl;
    further = omega arith;
    within = le;
  }

  -- Begun with no more than `size` bytes written and with an allocated block bitmap, the loop of
  -- `fs_write` never fails, whatever the host does: it returns a number of bytes between what it began
  -- with and `size`.
  pub write_loop-Progress :
      (fuel written : ℕ) (inode : Inode) (s : FsState)
      → IsAllocated s
      → written ≤ size
      → Progress size written (write_loop host bytes size start fuel written inode s)
  unfolding write_loop
  write_loop-Progress zero written inode s a le = stopped written inode s le
  write_loop-Progress (suc fuel) written inode s a le = elim (Bool-cases (ltb written size)) [
    | inr e ↦ rw (e, ◌>>=◌, write_loop) (stopped written inode s le)
    | inl e ↦
        let left = size - written in
        let n = round_bytes (start + written) left in
        let (pos, most) = round_bytes-pos (start + written) left (ground (arith, e)) in
        let index = block_index (start + written) in
        let ((b, inode'), got, a1) = block_for_write-Succeeds inode index s a in
        let s1 = (block_for_write inode index s).1 in
        elim (Bool-cases (b == 0)) [
          | inl z ↦ rw (e, got, z, ◌>>=◌, write_loop) (stopped written inode' _ le)
          | inr z ↦ elim (Result-cases (read_disk host b s1).0) [
            | inr (reason, f) ↦ rw (e, got, z, f, ◌>>=◌, write_loop) (stopped written inode' _ le)
            | inl (block, f) ↦
                let new =
                  splice block (block_offset (start + written)) (take n (drop written bytes)) in
                let s2 = (read_disk host b s1).1 in
                elim (Result-cases (write_disk host b new s2).0) [
                  | inr (reason, g) ↦
                      rw (e, got, z, f, g, ◌>>=◌, write_loop) (stopped written inode' _ le)
                  | inl (done, g) ↦
                      let more =
                        write_loop-Progress fuel (written + n) inode' (write_disk host b new s2).1
                          (write_disk-IsAllocated host b new s2
                            (read_disk-IsAllocated host b s1 a1))
                          (omega arith) in
                      rw (e, got, z, f, g, ◌>>=◌, write_loop)
                        (record {
                          count = more.count;
                          inode = more.inode;
                          returns = more.returns;
                          further = omega (arith, more.further);
                          within = more.within;
                        })
                ]
          ]
        ]
  ]

  -- With a round for each byte that is left, one round more of fuel changes nothing of what the loop of
  -- `fs_write` returns and leaves.
  pub write_loop-enough :
      (fuel written : ℕ) (inode : Inode) (s : FsState)
      → size ≤ fuel + written
      → write_loop host bytes size start (suc fuel) written inode s
        ≡ write_loop host bytes size start fuel written inode s
  unfolding write_loop
  write_loop-enough zero written inode s enough =
      let e : ltb written size ≡ false = ground arith in rw (e, write_loop) refl
  write_loop-enough (suc fuel) written inode s enough = elim (Bool-cases (ltb written size)) [
    | inr e ↦ rw (e, write_loop) refl
    | inl e ↦
        let left = size - written in
        let n = round_bytes (start + written) left in
        let (pos, most) = round_bytes-pos (start + written) left (ground (arith, e)) in
        let s1 = (block_for_write inode (block_index (start + written)) s).1 in
        elim (Result-cases (block_for_write inode (block_index (start + written)) s).0) [
          | inr (reason, got) ↦ rw (e, got, ◌>>=◌, write_loop) refl
          | inl ((b, inode'), got) ↦ elim (Bool-cases (b == 0)) [
            | inl z ↦ rw (e, got, z, ◌>>=◌, write_loop) refl
            | inr z ↦ elim (Result-cases (read_disk host b s1).0) [
              | inr (reason, f) ↦ rw (e, got, z, f, ◌>>=◌, write_loop) refl
              | inl (block, f) ↦
                  let new =
                    splice block (block_offset (start + written)) (take n (drop written bytes)) in
                  let s2 = (read_disk host b s1).1 in
                  elim (Result-cases (write_disk host b new s2).0) [
                    | inr (reason, g) ↦ rw (e, got, z, f, g, ◌>>=◌, write_loop) refl
                    | inl (done, g) ↦
                        let more =
                          write_loop-enough fuel (written + n) inode' (write_disk host b new s2).1
                            (omega (arith, pos)) in
                        rw (e, got, z, f, g, ◌>>=◌, write_loop) more
                  ]
            ]
          ]
        ]
  ]
