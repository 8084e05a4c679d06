-- ===== src/FileOps/Content/Alloc.antt =====
-- About allocating a data block for a file.
use caozuokeshe.Base.{
  ℕ, ◌+◌, ◌-◌, ◌%◌, ◌^◌, ◌<◌, ◌≡◌, ◌≢◌, refl, ap, sym, ◌∙◌, inl, inr, true, false, List, arith,
  length, ltb, ◌==◌, ==_iff, if◌then◌else◌, Bool-cases, get_or, set, length-set, get_or-set_self,
  get_or-set_ne,
}
use caozuokeshe.Errors.{Result, ok}
use caozuokeshe.Layout.{Inode, direct_block_count}
use caozuokeshe.Bitmap.{is_set, mark, alloc_bitmap_bit}
use caozuokeshe.Bitmap.Invariant.{IsValid}
use caozuokeshe.Bitmap.Alloc.{Taken, alloc_bitmap_bit-Taken, found}
use caozuokeshe.Fs.State.{FsState, ◌>>=◌}
use caozuokeshe.FileOps.Blocks.{get_data_block, alloc_data_block, allocate_data_block}
use caozuokeshe.FileOps.ReadWrite.{block_for_write}
use caozuokeshe.FileOps.Content.{IsMounted, IsTaken, Owns}

-- `alloc_data_block_from_bitmap` is `alloc_bitmap_bit` on the block bitmap, shifted to the number of the
-- block: with a free bit in a valid bitmap, the two take the same bit and leave the same bitmap.
pub alloc_data_block-eq-alloc_bitmap_bit :
    (s : FsState) (bits : List ℕ)
    → IsValid s.block_bitmap bits
    → 0 < s.block_bitmap.free_count
    → let (bit_num, bm) = alloc_bitmap_bit s.block_bitmap in
      alloc_data_block s
      ≡ (ok ((bit_num + s.superblock.data_blocks_start) % 2 ^ 32), record s { block_bitmap = bm })
unfolding alloc_data_block alloc_bitmap_bit
alloc_data_block-eq-alloc_bitmap_bit s bits v pos =
    let (k, e) = found s.block_bitmap bits v pos in
    let ne : (s.block_bitmap.free_count == 0) ≡ false = ground arith in
    ground (arith, v.holds, ne, e)

alloc_data_block-full :
    (s : FsState) → s.block_bitmap.free_count ≡ 0 → alloc_data_block s ≡ (ok 0, s)
unfolding alloc_data_block
alloc_data_block-full s e = ground (arith, e)

-- What `fs_write` gets for one of the file's blocks: the block that the inode then has there, 0 where it
-- has none.
pub record Found (s : FsState) (inode : Inode) (index : ℕ) (r : Result (ℕ × Inode) × FsState)
    : Type 0 where
  pub block : ℕ
  pub inode' : Inode
  pub bits' : List ℕ
  pub returns : r.0 ≡ ok (block, inode')
  pub frame : r.1 ≡ record s { block_bitmap = r.1.block_bitmap }
  pub inode_frame : inode' ≡ record inode { direct_blocks = inode'.direct_blocks }
  pub mounted : IsMounted r.1 bits'
  pub owns : Owns r.1 bits' inode'
  pub here : block ≡ get_data_block inode' index
  pub kept : (i : ℕ) → get_data_block inode i ≢ 0 → get_data_block inode' i ≡ get_data_block inode i

-- A step that changes nothing.
unchanged :
    (s : FsState) (inode : Inode) (bits : List ℕ) (index : ℕ)
    → IsMounted s bits
    → Owns s bits inode
    → (block : ℕ) → block ≡ get_data_block inode index
    → Found s inode index (ok (block, inode), s)
unchanged s inode bits index m o block e = record {
  block = block;
  inode' = inode;
  bits' = bits;
  returns = refl;
  frame = refl;
  inode_frame = refl;
  mounted = m;
  owns = o;
  here = e;
  kept = λ i h. refl;
}

-- The inode with a new block.
abbrev with_block : Inode → (index block : ℕ) → Inode
with_block inode index block = record inode { direct_blocks = set inode.direct_blocks index block }

get_data_block-with_block :
    (inode : Inode) (index block i : ℕ)
    → index < direct_block_count
    → length inode.direct_blocks ≡ direct_block_count
    → get_data_block (with_block inode index block) i
      ≡ (if index == i then block else get_data_block inode i)
unfolding get_data_block
get_data_block-with_block inode index block i lt twelve = elim (Bool-cases (index == i)) [
  | inl e ↦
      let p : index ≡ i = (==_iff index i).0 e in
      let same : get_or (set inode.direct_blocks index block) i 0 ≡ block =
        ap (λ k. get_or (set inode.direct_blocks index block) k 0) (sym p)
        ∙ get_or-set_self inode.direct_blocks index block 0 (omega (arith, twelve)) in
      ground (arith, e, same, p, lt)
  | inr e ↦
      let same =
        get_or-set_ne inode.direct_blocks index i block 0 (λ p. absurd (ground (arith, p, e))) in
      ground (arith, e, same)
]

direct :
    (inode : Inode) (index : ℕ)
    → ltb index direct_block_count ≡ true
    → get_data_block inode index ≡ 0
    → get_or inode.direct_blocks index 0 ≡ 0
unfolding get_data_block
direct inode index lt e = ground (arith, lt, e)

module _ (s : FsState) (inode : Inode) (bits : List ℕ) (index : ℕ) (m : IsMounted s bits)
    (o : Owns s bits inode) (lt : index < direct_block_count)
    (empty : get_data_block inode index ≡ 0) (pos : 0 < s.block_bitmap.free_count) where
  abbrev t : Taken s.block_bitmap bits (alloc_bitmap_bit s.block_bitmap)
  t = alloc_bitmap_bit-Taken s.block_bitmap bits m.valid pos

  abbrev bit_num : ℕ
  bit_num = (alloc_bitmap_bit s.block_bitmap).0

  abbrev new_block : ℕ
  new_block = (bit_num + s.superblock.data_blocks_start) % 2 ^ 32

  abbrev s' : FsState
  s' = record s { block_bitmap = (alloc_bitmap_bit s.block_bitmap).1 }

  no_wrap : new_block ≡ bit_num + s.superblock.data_blocks_start
  no_wrap = omega (arith, m.room, t.in_range, m.ready.addressable)

  -- What was taken is taken still, and is not the new block.
  still : (b : ℕ) → IsTaken s bits b → IsTaken s' (mark bits bit_num) b × (b ≢ new_block)
  still b k = (
    record {
      above = k.above;
      below = omega (arith, k.below, t.total);
      marked = ground (arith, t.only (b - s.superblock.data_blocks_start), k.marked);
    },
    λ e. other e,
  )
    where
      other : b ≡ new_block → ⊥
      other e =
          let bit : b - s.superblock.data_blocks_start ≡ bit_num = omega (arith, e, no_wrap) in
          let set_there : is_set bits bit_num ≡ true = ap (is_set bits) (sym bit) ∙ k.marked in
          absurd (ground (arith, set_there, t.was_clear))

  at_new : IsTaken s' (mark bits bit_num) new_block
  at_new = record {
    above = omega (arith, no_wrap);
    below = omega (arith, no_wrap, t.in_range, t.total);
    marked =
        let bit : new_block - s.superblock.data_blocks_start ≡ bit_num = omega (arith, no_wrap) in
        ap (is_set (mark bits bit_num)) bit ∙ ground (arith, t.only bit_num);
  }

  blocks :
      (i : ℕ)
      → get_data_block (with_block inode index new_block) i
        ≡ (if index == i then new_block else get_data_block inode i)
  blocks i = get_data_block-with_block inode index new_block i lt o.twelve

  taken' :
      (i : ℕ)
      → get_data_block (with_block inode index new_block) i ≢ 0
      → IsTaken s' (mark bits bit_num) (get_data_block (with_block inode index new_block) i)
  taken' i h = elim (Bool-cases (index == i)) [
    | inl e ↦
        let b : get_data_block (with_block inode index new_block) i ≡ new_block =
          ground (arith, blocks i, e) in
        rw b at_new
    | inr e ↦
        let b : get_data_block (with_block inode index new_block) i ≡ get_data_block inode i =
          ground (arith, blocks i, e) in
        rw b (still (get_data_block inode i) (o.taken i (λ z. h (b ∙ z)))).0
  ]

  distinct' :
      (i j : ℕ)
      → get_data_block (with_block inode index new_block) i ≢ 0
      → get_data_block (with_block inode index new_block) i
        ≡ get_data_block (with_block inode index new_block) j
      → i ≡ j
  distinct' i j h e = elim (Bool-cases (index == i)) [
    | inl p ↦ elim (Bool-cases (index == j)) [
      | inl q ↦ sym ((==_iff index i).0 p) ∙ (==_iff index j).0 q
      | inr q ↦ absurd (apart j q (ground (arith, blocks i, blocks j, p, q, e)))
    ]
    | inr p ↦ elim (Bool-cases (index == j)) [
      | inl q ↦ absurd (apart i p (ground (arith, blocks i, blocks j, p, q, e)))
      | inr q ↦
          o.distinct i j (λ z. h (ground (arith, blocks i, p, z)))
            (ground (arith, blocks i, blocks j, p, q, e))
    ]
  ]
    where
      apart : (k : ℕ) → (index == k) ≡ false → get_data_block inode k ≡ new_block → ⊥
      apart k q z =
          (still (get_data_block inode k)
              (o.taken k (λ y. absurd (omega (arith, y, z, no_wrap, m.behind))))).1
            z

  allocated : Found s inode index (ok (new_block, with_block inode index new_block), s')
  allocated = record {
    block = new_block;
    inode' = with_block inode index new_block;
    bits' = mark bits bit_num;
    returns = refl;
    frame = refl;
    inode_frame = refl;
    mounted = record {
      ready = m.ready;
      valid = t.valid;
      room = omega (arith, m.room, t.total);
      behind = m.behind;
    };
    owns = record {
      twelve = length-set inode.direct_blocks index new_block ∙ o.twelve;
      taken = taken';
      distinct = distinct';
    };
    here = ground (arith, blocks index);
    kept = λ i h. elsewhere i h;
  }
    where
      elsewhere :
          (i : ℕ)
          → get_data_block inode i ≢ 0
          → get_data_block (with_block inode index new_block) i ≡ get_data_block inode i
      elsewhere i h = ground (arith, blocks i, h, empty)

-- Finding or allocating a block for a file that owns its blocks.
pub block_for_write-Found :
    (s : FsState) (inode : Inode) (bits : List ℕ) (index : ℕ)
    → IsMounted s bits
    → Owns s bits inode
    → Found s inode index (block_for_write inode index s)
unfolding block_for_write allocate_data_block
block_for_write-Found s inode bits index m o = elim (Bool-cases (get_data_block inode index == 0)) [
  | inr e ↦
      rw (e, block_for_write) (unchanged s inode bits index m o (get_data_block inode index) refl)
  | inl e ↦
      let empty : get_data_block inode index ≡ 0 = (==_iff _ _).0 e in
      elim (Bool-cases (ltb index direct_block_count)) [
        | inr g ↦
            rw (e, g, block_for_write, allocate_data_block)
              (unchanged s inode bits index m o 0 (sym empty))
        | inl g ↦
            let old : get_or inode.direct_blocks index 0 ≡ 0 = direct inode index g empty in
            let old' : (get_or inode.direct_blocks index 0 == 0) ≡ true = ground (arith, old) in
            elim (Bool-cases (s.block_bitmap.free_count == 0)) [
              | inl z ↦
                  let full = alloc_data_block-full s ((==_iff _ _).0 z) in
                  rw
                    (
                      e,
                      g,
                      old',
                      ap (λ r. r.0) full,
                      ap (λ r. r.1) full,
                      ◌>>=◌,
                      block_for_write,
                      allocate_data_block,
                    )
                    (unchanged s inode bits index m o (get_or inode.direct_blocks index 0)
                      (old ∙ sym empty))
              | inr z ↦
                  let pos : 0 < s.block_bitmap.free_count = ground (arith, z) in
                  let lt : index < direct_block_count = ground (arith, g) in
                  let one = alloc_data_block-eq-alloc_bitmap_bit s bits m.valid pos in
                  let yes : ltb 0 (new_block s inode bits index m o lt empty pos) ≡ true =
                    ground (arith, no_wrap s inode bits index m o lt empty pos, m.behind) in
                  rw
                    (
                      e,
                      g,
                      old',
                      ap (λ r. r.0) one,
                      ap (λ r. r.1) one,
                      ◌>>=◌,
                      block_for_write,
                      allocate_data_block,
                      yes,
                    )
                    (allocated s inode bits index m o lt empty pos)
            ]
      ]
]
