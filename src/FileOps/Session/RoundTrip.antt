-- ===== src/FileOps/Session/RoundTrip.antt =====
-- `fs_write`, `fs_tell`, `fs_seek` and `fs_read` one after the other on an open file.
use mathlib.Core.Path.{subst}
use caozuokeshe.Base.{
  ℕ, ◌+◌, ◌%◌, ◌^◌, ◌<◌, ◌≤◌, ◌≡◌, ◌⊎◌, refl, ap, ◌∙◌, sym, inl, inr, true, List, arith, length,
  length-take, get_or, get_or-take, list-ext, take, some, ◌==◌, ==_iff, Bool-cases,
}
use caozuokeshe.Errors.{ok}
use caozuokeshe.Layout.{Inode}
use caozuokeshe.Disk.Host.{Host, IsReliable}
use caozuokeshe.Disk.Block.{Disk}
use caozuokeshe.Disk.Block.Laws.{Keeps, block_at}
use caozuokeshe.Fs.State.{FsState, FileHandle}
use caozuokeshe.Fs.Inodes.Laws.{on_disk}
use caozuokeshe.Users.Accounts.{check_permission}
use caozuokeshe.Users.Permission.{perm_owner_read, perm_owner_write}
use caozuokeshe.FileOps.Blocks.{block_index, get_data_block, put_position}
use caozuokeshe.FileOps.Position.{fs_seek, fs_tell}
use caozuokeshe.FileOps.ReadWrite.{fs_read, fs_write}
use caozuokeshe.FileOps.Content.{byte_at, byte_at-blocks}
use caozuokeshe.FileOps.Session.{
  IsOpen, handle_of, seen, seen-Reads, seen-IsOpen, same_blocks-IsOpen, check_permission-ext,
}
use caozuokeshe.FileOps.Session.Store.{put_position-IsOpen, handle-put_position}
use caozuokeshe.FileOps.Session.Outcome.{Grown}
use caozuokeshe.FileOps.Session.Save.{fs_write-Saved}
use caozuokeshe.FileOps.Session.Load.{fs_tell-IsOpen, fs_seek-IsOpen, fs_read-IsOpen}

-- An open file `count` bytes further, from which `fs_seek` goes back.
module _ (host : Host) (reliable : IsReliable host) (s : FsState) (fd : ℕ) (inode : Inode)
    (buffer : List ℕ) (count : ℕ) (t : FsState) (g : Grown s fd inode buffer count t)
    (may : check_permission s inode perm_owner_read ≡ true)
    (near : (handle_of s fd).file_position < 2 ^ 31) (int_count : count < 2 ^ 31) (pos : 0 < count)
    (enough : count ≤ length buffer) where
  abbrev p : ℕ
  p = (handle_of s fd).file_position

  pub told : (fs_tell fd t).0 ≡ ok (p + count)
  told =
      let e : (handle_of t fd).file_position % 2 ^ 32 ≡ p + count = omega (arith, g.moved) in
      ap (λ r. r.0) (fs_tell-IsOpen host reliable t fd g.bits g.inode' g.opened) ∙ ap ok e

  abbrev pub back : FsState
  back = put_position fd p (on_disk t (seen host reliable t fd g.bits g.inode' g.opened))

  pub sought : fs_seek host fd p 0 t ≡ (ok p, back)
  sought = fs_seek-IsOpen host reliable t fd g.bits g.inode' g.opened p near

  pub opened : IsOpen back fd g.bits g.inode'
  opened =
      put_position-IsOpen (on_disk t (seen host reliable t fd g.bits g.inode' g.opened)) fd p g.bits
        g.inode' (seen-IsOpen host reliable t fd g.bits g.inode' g.opened)

  at : (handle_of back fd).file_position ≡ p
  at = ap FileHandle.file_position (
      handle-put_position (on_disk t (seen host reliable t fd g.bits g.inode' g.opened)) fd p
        (omega (arith, g.opened.held.valid, g.opened.held.handles)))

  may_still : (d : Disk) → check_permission (on_disk back d) g.inode' perm_owner_read ≡ true
  may_still d =
      check_permission-ext s (on_disk back d) inode g.inode' perm_owner_read g.users g.user
        g.inode_frame
      ∙ may

  -- Reading, also where the host has been called in between.
  module _ (d : Disk) (keeps : Keeps back.disk d)
      (same : (c : ℕ) → block_at d c ≡ block_at back.disk c) where
    pub read_later : (fs_read host fd count (on_disk back d)).0 ≡ ok (take count buffer)
    read_later =
        let open_still = same_blocks-IsOpen back fd g.bits g.inode' d opened keeps same in
        let (bytes, returns, whole, content) =
          fs_read-IsOpen host reliable (on_disk back d) fd g.bits g.inode' open_still count
            (may_still d) pos int_count (omega (arith, at, g.reached)) (omega (arith, at))
            (λ k lo hi. g.there k (omega (arith, lo, at)) (omega (arith, hi, at))) in
        let same_disk = (seen-Reads host reliable t fd g.bits g.inode' g.opened).same in
        let agrees : bytes ≡ take count buffer =
          list-ext bytes (take count buffer) 0 (omega (arith, whole, length-take count buffer))
            (λ i lt.
              content i (omega (arith, whole))
              ∙ ap (λ q. byte_at d g.inode' (q + i)) at
              ∙ byte_at-blocks back.disk d g.inode' (p + i) same
              ∙ byte_at-blocks t.disk back.disk g.inode' (p + i) same_disk
              ∙ g.content (p + i) (omega arith) (omega (arith, whole))
              ∙ ap (λ k. get_or buffer k 0) (omega arith)
              ∙ sym (get_or-take count buffer i 0 (omega (arith, whole)))) in
        returns ∙ ap ok agrees

  pub read_again : (fs_read host fd count back).0 ≡ ok (take count buffer)
  read_again =
      read_later back.disk (record { ready = opened.held.mounted.ready; total = refl }) (λ c. refl)

-- On a reliable host with times of 64 bits, for a descriptor that is open on a regular file with
-- its inode in the table and blocks of its own, at a position `p` below 2^31, and a user who may
-- write and read the file: `fs_write` of `size` bytes, a positive `int`, from a buffer of at least
-- that length returns the number `count` of bytes it has written, all of them unless the file has
-- no block for the next. Unless `count` is 0, `fs_tell` then gives `p + count`, `fs_seek` back to
-- `p` succeeds, and `fs_read` of `count` bytes from there returns the first `count` bytes of the
-- buffer.
pub fs_read-fs_write :
    (host : Host) (s : FsState) (fd : ℕ) (bits : List ℕ) (inode : Inode) (buffer : List ℕ)
    (size p : ℕ)
    → IsReliable host
    → ((k : ℕ) → host.time k < 2 ^ 64)
    → IsOpen s fd bits inode
    → check_permission s inode perm_owner_write ≡ true
    → check_permission s inode perm_owner_read ≡ true
    → (handle_of s fd).file_position ≡ p
    → p < 2 ^ 31
    → 0 < size
    → size < 2 ^ 31
    → size ≤ length buffer
    → let (status, s') = fs_write host fd (some buffer) size s in
      let (moved, s'') = fs_seek host fd p 0 s' in
      (count : ℕ) × (status ≡ ok count)
      × (count ≤ size)
      × ((count ≡ size) ⊎ (get_data_block inode (block_index (p + count)) ≡ 0))
      × ((count ≡ 0)
          ⊎ (((fs_tell fd s').0 ≡ ok (p + count))
              × (moved ≡ ok p)
              × ((fs_read host fd count s'').0 ≡ ok (take count buffer))))
fs_read-fs_write host s fd bits inode buffer size p reliable timely o may_write may_read e near
      some_bytes int_size enough =
    let at : (handle_of s fd).file_position < 2 ^ 31 = omega (arith, e) in
    let w =
      fs_write-Saved host reliable timely s fd bits inode o buffer size may_write some_bytes
        int_size enough (omega arith) in
    let s' = (fs_write host fd (some buffer) size s).1 in
    (
      w.count,
      w.returns,
      w.within,
      subst (λ q. (w.count ≡ size) ⊎ (get_data_block inode (block_index (q + w.count)) ≡ 0)) e
          w.stops,
      elim (Bool-cases (w.count == 0)) [
        | inl z ↦ inl ((==_iff _ _).0 z)
        | inr z ↦ elim w.outcome [
          | inl n ↦ inl n
          | inr g ↦
              let pos : 0 < w.count = ground (arith, z) in
              let int_count : w.count < 2 ^ 31 = omega (arith, w.within) in
              let all : w.count ≤ length buffer = omega (arith, w.within) in
              let found =
                sought host reliable s fd inode buffer w.count s' g may_read at int_count pos all in
              inr (
                subst
                  (λ q.
                    ((fs_tell fd s').0 ≡ ok (q + w.count))
                    × ((fs_seek host fd q 0 s').0 ≡ ok q)
                    × ((fs_read host fd w.count (fs_seek host fd q 0 s').1).0
                        ≡ ok (take w.count buffer)))
                  e
                  (
                    told host reliable s fd inode buffer w.count s' g may_read at int_count pos all,
                    ap (λ r. r.0) found,
                    ap (λ r. (fs_read host fd w.count r.1).0) found
                        ∙ read_again host reliable s fd inode buffer w.count s' g may_read at
                            int_count pos all,
                  ))
        ]
      ],
    )
