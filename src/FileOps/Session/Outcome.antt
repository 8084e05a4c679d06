-- ===== src/FileOps/Session/Outcome.antt =====
-- `fs_write` on an open file.
use mathlib.Core.Path.{subst}
use caozuokeshe.Base.{
  ℕ, ◌+◌, ◌-◌, ◌%◌, ◌^◌, ◌<◌, ◌≤◌, ◌≡◌, ◌≢◌, refl, ap, ◌∙◌, sym, List, arith, get_or,
}
use caozuokeshe.Errors.{Result, ok}
use caozuokeshe.Layout.{Inode}
use caozuokeshe.Disk.Host.{Host, IsReliable}
use caozuokeshe.Disk.Block.{called}
use caozuokeshe.Disk.Block.Laws.{called-Keeps, block_at-called, block_at}
use caozuokeshe.Fs.State.{FsState, FileHandle}
use caozuokeshe.Fs.Inodes.{write_inode}
use caozuokeshe.Fs.Inodes.Laws.{on_disk}
use caozuokeshe.FileOps.Blocks.{block_index, block_offset, get_data_block, put_position}
use caozuokeshe.FileOps.ReadWrite.{grown, finish_write}
use caozuokeshe.FileOps.Content.{byte_at, IsMounted, Owns}
use caozuokeshe.FileOps.Content.Round.{max_offset}
use caozuokeshe.FileOps.Content.Write.{Wrote}
use caozuokeshe.FileOps.Session.{IsHeld, IsOpen, handle_of, on_disk-IsHeld}
use caozuokeshe.FileOps.Session.Update.{grown-file_size, grown-blocks, grown-frame}
use caozuokeshe.FileOps.Session.Store.{Stored, put_position-IsOpen, handle-put_position}
use caozuokeshe.FileOps.Session.Written.{with_data, grown-IsHeld, stored_inode, finish_write-ok}

-- The open file in the state `t`, `count` bytes of the buffer further than in `s`.
pub record Grown (s : FsState) (fd : ℕ) (inode : Inode) (buffer : List ℕ) (count : ℕ) (t : FsState)
    : Type 0 where
  pub bits : List ℕ
  pub inode' : Inode
  pub opened : IsOpen t fd bits inode'
  pub moved : (handle_of t fd).file_position ≡ (handle_of s fd).file_position + count
  pub reached : (handle_of s fd).file_position + count ≤ inode'.file_size
  pub there :
      (k : ℕ)
      → (handle_of s fd).file_position ≤ k
      → k < (handle_of s fd).file_position + count
      → get_data_block inode' (block_index k) ≢ 0
  pub content :
      (k : ℕ)
      → (handle_of s fd).file_position ≤ k
      → k < (handle_of s fd).file_position + count
      → byte_at t.disk inode' k ≡ get_or buffer (k - (handle_of s fd).file_position) 0
  pub users : t.users ≡ s.users
  pub user : t.current_user_uid ≡ s.current_user_uid
  pub inode_frame : inode' ≡ record inode {
    direct_blocks = inode'.direct_blocks;
    file_size = inode'.file_size;
    block_count = inode'.block_count;
    modify_time = inode'.modify_time;
    change_time = inode'.change_time;
    access_time = inode'.access_time;
  }

-- The end of `fs_write`, seen from before the loop.
module _ (host : Host) (reliable : IsReliable host) (s : FsState) (fd : ℕ) (bits : List ℕ)
    (inode : Inode) (o : IsOpen s fd bits inode) (buffer : List ℕ) (size : ℕ)
    (timely : (k : ℕ) → host.time k < 2 ^ 64)
    (small : (handle_of s fd).file_position + size < max_offset) {r : Result (ℕ × Inode) × FsState}
    (w : Wrote s inode buffer size (handle_of s fd).file_position 0 r) (pos : 0 < w.count) where
  abbrev start : ℕ
  start = (handle_of s fd).file_position

  abbrev pub looped : FsState
  looped = with_data s r.1.block_bitmap r.1.disk

  abbrev timed : FsState
  timed = on_disk looped (called r.1.disk)

  abbrev next_inode : Inode
  next_inode = grown w.inode' ((start + w.count) % 2 ^ 64) (host.time r.1.disk.calls)

  mounted : IsMounted looped w.bits'
  mounted = subst (λ t. IsMounted t w.bits') w.frame w.mounted

  owned : Owns looped w.bits' w.inode'
  owned = subst (λ t. Owns t w.bits' w.inode') w.frame w.owns

  held : IsHeld timed fd w.bits' next_inode
  held =
      on_disk-IsHeld looped fd w.bits' next_inode (called r.1.disk)
        (grown-IsHeld s fd bits w.bits' inode w.inode' r.1.block_bitmap r.1.disk
          ((start + w.count) % 2 ^ 64) (host.time r.1.disk.calls) o.held mounted owned w.total
          w.inode_frame (omega arith) (timely r.1.disk.calls))
        (called-Keeps r.1.disk w.mounted.ready)

  pub put :
      Stored timed fd w.bits' next_inode
        (write_inode host (handle_of s fd).inode_number next_inode timed)
  put = stored_inode host reliable looped fd w.bits' w.inode' start w.count pos held

  no_wrap : (start + w.count) % 2 ^ 64 ≡ start + w.count
  no_wrap = omega (arith, small, w.within)

  pub finished :
      finish_write host fd (handle_of s fd).inode_number start w.count w.inode' looped
      ≡ (ok w.count, put_position fd ((start + w.count) % 2 ^ 64) (on_disk looped put.disk))
  unfolding put
  finished = finish_write-ok host reliable looped fd w.bits' w.inode' start w.count pos held

  -- The blocks of the file are behind the tables, where the inode's write changes nothing.
  same_byte :
      (k : ℕ)
      → get_data_block w.inode' (block_index k) ≢ 0
      → byte_at put.disk next_inode k ≡ byte_at r.1.disk w.inode' k
  unfolding byte_at
  same_byte k h =
      let b = get_data_block w.inode' (block_index k) in
      let t = owned.taken (block_index k) h in
      ap (λ c. get_or (block_at put.disk c) (block_offset k) 0)
        (grown-blocks w.inode' ((start + w.count) % 2 ^ 64) (host.time r.1.disk.calls)
          (block_index k))
      ∙ ap (λ block. get_or block (block_offset k) 0)
          (put.behind b t.above ∙ block_at-called r.1.disk b)

  pub finished-Grown :
      Grown s fd inode buffer w.count
        (put_position fd ((start + w.count) % 2 ^ 64) (on_disk looped put.disk))
  finished-Grown = record {
    bits = w.bits';
    inode' = next_inode;
    opened =
        put_position-IsOpen (on_disk looped put.disk) fd ((start + w.count) % 2 ^ 64) w.bits'
          next_inode put.opened;
    moved =
        ap FileHandle.file_position (
          handle-put_position (on_disk looped put.disk) fd ((start + w.count) % 2 ^ 64)
            (omega (arith, o.held.valid, o.held.handles)))
        ∙ no_wrap;
    reached = omega (
      arith,
      no_wrap,
      grown-file_size w.inode' ((start + w.count) % 2 ^ 64) (host.time r.1.disk.calls),
    );
    there = λ k lo hi z. w.there k (omega (arith, lo)) hi (
        sym (
          grown-blocks w.inode' ((start + w.count) % 2 ^ 64) (host.time r.1.disk.calls)
            (block_index k))
        ∙ z);
    content = λ k lo hi.
        same_byte k (w.there k (omega (arith, lo)) hi) ∙ w.content k (omega (arith, lo)) hi;
    users = refl;
    user = refl;
    inode_frame =
        grown-frame inode w.inode' ((start + w.count) % 2 ^ 64) (host.time r.1.disk.calls)
          w.inode_frame;
  }
