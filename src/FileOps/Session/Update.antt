-- ===== src/FileOps/Session/Update.antt =====
-- About writing back the inode of an open file.
use mathlib.Core.Path.{subst}
use caozuokeshe.Base.{
  ℕ, zero, suc, ◌+◌, ◌^◌, ◌-◌, ◌/◌, ◌%◌, ◌<◌, ◌≤◌, ◌≡◌, ap, sym, List, [], ◌∷◌, ◌++◌, arith, length,
  ltb, ◌==◌, Bool-cases, inl, inr, get_or, replicate,
}
use caozuokeshe.Codec.{Fits, Fits-append}
use caozuokeshe.Layout.{Inode, direct_block_count, block_size}
use caozuokeshe.Layout.RoundTrip.{InodeFits}
use caozuokeshe.Fs.State.{FsState}
use caozuokeshe.FileOps.Blocks.{get_data_block}
use caozuokeshe.FileOps.ReadWrite.{grown}
use caozuokeshe.FileOps.Content.{IsMounted, Owns}

-- What stands behind a run of four-byte fields.
Fits-drop :
    (n : ℕ) (xs ws vs : List ℕ) → length xs ≡ n → Fits (replicate n 4 ++ ws) (xs ++ vs) → Fits ws vs
Fits-drop zero [] ws vs e f = f
Fits-drop zero (x ∷ xs) ws vs e f = absurd (omega (arith, e))
Fits-drop (suc n) [] ws vs e f = absurd (omega (arith, e))
Fits-drop (suc n) (x ∷ xs) ws vs e f = Fits-drop n xs ws vs (omega (arith, e)) f.1

-- The blocks of a file that owns them fit their fields.
Owns-small :
    (s : FsState) (bits : List ℕ) (inode : Inode)
    → IsMounted s bits
    → Owns s bits inode
    → (i : ℕ) → i < direct_block_count
    → get_or inode.direct_blocks i 0 < 2 ^ 32
unfolding get_data_block
Owns-small s bits inode m o i lt = elim (Bool-cases (get_or inode.direct_blocks i 0 == 0)) [
  | inl e ↦ ground (arith, e)
  | inr e ↦
      let same : get_data_block inode i ≡ get_or inode.direct_blocks i 0 = ground (arith, lt) in
      let t = o.taken i (λ z. absurd (ground (arith, z, same, e))) in
      omega (arith, t.below, m.room, m.ready.addressable, same)
]

-- An inode that differs from one that fits in the fields that `fs_write` and `fs_read` update.
updated-InodeFits :
    (old : Inode) (ds : List ℕ) (size count access modified changed : ℕ)
    → InodeFits old
    → length ds ≡ 12
    → ((i : ℕ) → i < 12 → get_or ds i 0 < 2 ^ 32)
    → size < 2 ^ 64
    → count < 2 ^ 32
    → access < 2 ^ 64
    → modified < 2 ^ 64
    → changed < 2 ^ 64
    → InodeFits (record old {
      direct_blocks = ds;
      file_size = size;
      block_count = count;
      access_time = access;
      modify_time = modified;
      change_time = changed;
    })
updated-InodeFits old ds size count access modified changed h len small size_lt count_lt access_lt
      modified_lt changed_lt =
    let (
      number,
      (
        kind,
        (
          permission,
          (
            uid,
            (
              gid,
              (
                links,
                (f_size, (f_count, (f_access, (f_modified, (f_changed, (created, blocks)))))),
              ),
            ),
          ),
        ),
      ),
    ) =
      h.fits in
    record {
      fits = (
        number,
        (
          kind,
          (
            permission,
            (
              uid,
              (
                gid,
                (
                  links,
                  (
                    omega (arith, size_lt),
                    (
                      omega (arith, count_lt),
                      (
                        omega (arith, access_lt),
                        (
                          omega (arith, modified_lt),
                          (
                            omega (arith, changed_lt),
                            (
                              created,
                              Fits-append 4 12 ds (replicate 5 4 ++ replicate 4 4) _ len
                                  (λ i lt. omega (arith, small i lt))
                                  (Fits-drop 12 old.direct_blocks (replicate 5 4 ++ replicate 4 4) _
                                    h.direct blocks),
                            ),
                          ),
                        ),
                      ),
                    ),
                  ),
                ),
              ),
            ),
          ),
        ),
      );
      direct = len;
    }

-- The inode that `fs_write` writes back fits its fields.
pub grown-InodeFits :
    (s : FsState) (bits : List ℕ) (old inode : Inode) (new_size now : ℕ)
    → InodeFits old
    → inode ≡ record old { direct_blocks = inode.direct_blocks }
    → IsMounted s bits
    → Owns s bits inode
    → new_size < 2 ^ 64
    → now < 2 ^ 64
    → InodeFits (grown inode new_size now)
unfolding grown
grown-InodeFits s bits old inode new_size now h same m o size_lt now_lt =
    let ds = inode.direct_blocks in
    let small = Owns-small s bits inode m o in
    let (
      number,
      (
        kind,
        (
          permission,
          (
            uid,
            (
              gid,
              (
                links,
                (f_size, (f_count, (f_access, (f_modified, (f_changed, (created, blocks)))))),
              ),
            ),
          ),
        ),
      ),
    ) =
      h.fits in
    let fits : InodeFits (grown (record old { direct_blocks = ds }) new_size now) =
      elim (Bool-cases (ltb old.file_size new_size)) [
        | inl e ↦ rw e (
            updated-InodeFits old ds new_size _ old.access_time now now h o.twelve small size_lt
              (omega arith) (omega (arith, f_access)) now_lt now_lt)
        | inr e ↦ rw e (
            updated-InodeFits old ds old.file_size old.block_count old.access_time now now h
              o.twelve small (omega (arith, f_size)) (omega (arith, f_count))
              (omega (arith, f_access)) now_lt now_lt)
      ] in
    subst (λ i. InodeFits (grown i new_size now)) (sym same) fits

-- The blocks of a file stay its own where other fields of the inode change.
updated-Owns :
    (s : FsState) (bits : List ℕ) (inode : Inode) (size count modified changed : ℕ)
    → Owns s bits inode
    → Owns s bits (record inode {
      file_size = size;
      block_count = count;
      modify_time = modified;
      change_time = changed;
    })
unfolding get_data_block
updated-Owns s bits inode size count modified changed o = record {
  twelve = o.twelve;
  taken = o.taken;
  distinct = o.distinct;
}

pub grown-Owns :
    (s : FsState) (bits : List ℕ) (inode : Inode) (new_size now : ℕ)
    → Owns s bits inode
    → Owns s bits (grown inode new_size now)
unfolding grown
grown-Owns s bits inode new_size now o = elim (Bool-cases (ltb inode.file_size new_size)) [
  | inl e ↦ rw e (updated-Owns s bits inode new_size _ now now o)
  | inr e ↦ rw e (updated-Owns s bits inode inode.file_size inode.block_count now now o)
]

-- What `fs_write` keeps of the inode, and that its size reaches to the end of what is written.
pub grown-file_type :
    (inode : Inode) (new_size now : ℕ) → (grown inode new_size now).file_type ≡ inode.file_type
unfolding grown
grown-file_type inode new_size now = ground (arith)

pub grown-file_size :
    (inode : Inode) (new_size now : ℕ) → new_size ≤ (grown inode new_size now).file_size
unfolding grown
grown-file_size inode new_size now = ground (arith)

pub grown-blocks :
    (inode : Inode) (new_size now i : ℕ)
    → get_data_block (grown inode new_size now) i ≡ get_data_block inode i
unfolding grown get_data_block
grown-blocks inode new_size now i = ground (arith)

pub grown-frame :
    (old inode : Inode) (new_size now : ℕ)
    → inode ≡ record old { direct_blocks = inode.direct_blocks }
    → let j = grown inode new_size now in
      j ≡ record old {
        direct_blocks = j.direct_blocks;
        file_size = j.file_size;
        block_count = j.block_count;
        modify_time = j.modify_time;
        change_time = j.change_time;
        access_time = j.access_time;
      }
unfolding grown
grown-frame old inode new_size now same = elim (Bool-cases (ltb inode.file_size new_size)) [
  | inl e ↦ rw e (
      ap {A = Inode}
        (λ i. record i {
          file_size = new_size;
          block_count = (new_size + block_size - 1) / block_size % 2 ^ 32;
          modify_time = now;
          change_time = now;
          access_time = inode.access_time;
        })
        same)
  | inr e ↦ rw e (
      ap {A = Inode}
        (λ i. record i {
          file_size = inode.file_size;
          block_count = inode.block_count;
          modify_time = now;
          change_time = now;
          access_time = inode.access_time;
        })
        same)
]
