-- ===== src/FileOps/Session/Save.antt =====
-- The whole of `fs_write` on an open file.
use mathlib.Core.Path.{subst}
use caozuokeshe.Base.{
  ℕ, ◌+◌, ◌^◌, ◌<◌, ◌≤◌, ◌≡◌, ◌≢◌, ◌⊎◌, refl, ap, ◌∙◌, sym, inl, inr, true, false, List, arith,
  length, ltb, ◌==◌, ==_iff, Bool-cases, some,
}
use caozuokeshe.Errors.{Result, ok}
use caozuokeshe.Layout.{Inode}
use caozuokeshe.Disk.Host.{Host, IsReliable}
use caozuokeshe.Disk.Block.{not_positive}
use caozuokeshe.Fs.State.{FsState, FileHandle, M, ◌>>=◌, bind-ok}
use caozuokeshe.Fs.Inodes.Laws.{on_disk}
use caozuokeshe.Users.Accounts.{check_permission}
use caozuokeshe.Users.Permission.{perm_owner_write}
use caozuokeshe.FileOps.Blocks.{block_index, get_data_block}
use caozuokeshe.FileOps.ReadWrite.{finish_write, fs_write, open_regular, write_loop}
use caozuokeshe.FileOps.Content.Round.{max_offset}
use caozuokeshe.FileOps.Content.Write.{Wrote, write_loop-Wrote}
use caozuokeshe.FileOps.Session.{IsOpen, handle_of, seen, seen-IsOpen, open_regular-IsOpen}
use caozuokeshe.FileOps.Session.Outcome.{Grown, finished, finished-Grown}

-- What `fs_write` of `size` bytes returns and leaves: it stops short only where the file has no block.
pub record Saved (s : FsState) (fd : ℕ) (inode : Inode) (buffer : List ℕ) (size : ℕ)
    (r : Result ℕ × FsState) : Type 0 where
  pub count : ℕ
  pub returns : r.0 ≡ ok count
  pub within : count ≤ size
  pub stops :
      (count ≡ size)
      ⊎ (get_data_block inode (block_index ((handle_of s fd).file_position + count)) ≡ 0)
  pub outcome : (count ≡ 0) ⊎ Grown s fd inode buffer count r.1

module _ (host : Host) (reliable : IsReliable host) (timely : (k : ℕ) → host.time k < 2 ^ 64)
    (s : FsState) (fd : ℕ) (bits : List ℕ) (inode : Inode) (o : IsOpen s fd bits inode)
    (buffer : List ℕ) (size : ℕ) (may : check_permission s inode perm_owner_write ≡ true)
    (some_bytes : 0 < size) (int_size : size < 2 ^ 31) (enough : size ≤ length buffer)
    (small : (handle_of s fd).file_position + size < max_offset) where
  abbrev start : ℕ
  start = (handle_of s fd).file_position

  abbrev s1 : FsState
  s1 = on_disk s (seen host reliable s fd bits inode o)

  o1 : IsOpen s1 fd bits inode
  o1 = seen-IsOpen host reliable s fd bits inode o

  abbrev looping : Result (ℕ × Inode) × FsState
  looping = write_loop host buffer size start size 0 inode s1

  w : Wrote s1 inode buffer size start 0 looping
  w =
      write_loop-Wrote host reliable buffer size start enough small size s1 bits inode 0
        o1.held.mounted o1.held.owns (omega arith) (omega arith)

  loop_result : looping ≡ (
    ok (w.count, w.inode'),
    record s1 { block_bitmap = looping.1.block_bitmap; disk = looping.1.disk },
  )
  loop_result = ap (λ x. (x, looping.1)) w.returns ∙ ap (λ t. (ok (w.count, w.inode'), t)) w.frame

  abbrev finishing : Result ℕ × FsState
  finishing =
      finish_write host fd (handle_of s fd).inode_number start w.count w.inode'
        (record s1 { block_bitmap = looping.1.block_bitmap; disk = looping.1.disk })

  -- What `fs_write` comes to, before its end.
  fs_write-finish : fs_write host fd (some buffer) size s ≡ finishing
  unfolding fs_write
  fs_write-finish =
      let positive : not_positive size ≡ false = ground arith in
      let write_all : FileHandle × Inode → M ℕ = λ x.
        write_loop host buffer size x.0.file_position size 0 x.1 >>= λ y.
        finish_write host fd x.0.inode_number x.0.file_position y.0 y.1 in
      let end : ℕ × Inode → M ℕ =
        λ y. finish_write host fd (handle_of s fd).inode_number start y.0 y.1 in
      rw positive (
        bind-ok (open_regular host fd perm_owner_write) write_all s
          (open_regular-IsOpen host reliable s fd bits inode o perm_owner_write may)
        ∙ bind-ok (write_loop host buffer size start size 0 inode) end s1 loop_result)

  stopped : (w.count ≡ size) ⊎ (get_data_block inode (block_index (start + w.count)) ≡ 0)
  stopped = elim w.stops [
    | inl e ↦ inl e
    | inr e ↦ elim (Bool-cases (get_data_block inode (block_index (start + w.count)) == 0)) [
      | inl z ↦ inr ((==_iff _ _).0 z)
      | inr z ↦
          let there : get_data_block inode (block_index (start + w.count)) ≢ 0 =
            ground (arith, z) in
          absurd (there (sym (w.kept (block_index (start + w.count)) there) ∙ e))
    ]
  ]

  finishing-Saved : Saved s fd inode buffer size finishing
  unfolding finish_write
  finishing-Saved = elim (Bool-cases (ltb 0 w.count)) [
    | inr e ↦ record {
      count = w.count;
      returns = rw (e, finish_write) refl;
      within = w.within;
      stops = stopped;
      outcome = inl (ground (arith, e));
    }
    | inl e ↦
        let pos : 0 < w.count = ground (arith, e) in
        let done = finished host reliable s1 fd bits inode o1 buffer size timely small w pos in
        let g = finished-Grown host reliable s1 fd bits inode o1 buffer size timely small w pos in
        record {
          count = w.count;
          returns = ap (λ r. r.0) done;
          within = w.within;
          stops = stopped;
          outcome = inr (
              rw (ap (λ r. r.1) done) (record {
                bits = g.bits;
                inode' = g.inode';
                opened = g.opened;
                moved = g.moved;
                reached = g.reached;
                there = g.there;
                content = g.content;
                users = g.users;
                user = g.user;
                inode_frame = g.inode_frame;
              }));
        }
  ]

  pub fs_write-Saved : Saved s fd inode buffer size (fs_write host fd (some buffer) size s)
  fs_write-Saved = subst (Saved s fd inode buffer size) (sym fs_write-finish) finishing-Saved
