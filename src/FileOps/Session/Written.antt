-- ===== src/FileOps/Session/Written.antt =====
-- An open file after `fs_write`.
use caozuokeshe.Base.{ℕ, ◌+◌, ◌%◌, ◌^◌, ◌<◌, ◌≡◌, ap, ◌∙◌, true, List, arith, ltb}
use caozuokeshe.Errors.{ok}
use caozuokeshe.Layout.{Inode}
use caozuokeshe.Bitmap.{Bitmap}
use caozuokeshe.Disk.Host.{Host, IsReliable}
use caozuokeshe.Disk.Block.{Disk, called}
use caozuokeshe.Fs.State.{FsState}
use caozuokeshe.Fs.Inodes.{write_inode}
use caozuokeshe.Fs.Inodes.Laws.{on_disk}
use caozuokeshe.FileOps.Blocks.{put_position}
use caozuokeshe.FileOps.ReadWrite.{grown, finish_write}
use caozuokeshe.FileOps.Content.{IsMounted, Owns}
use caozuokeshe.FileOps.Session.{IsHeld, handle_of}
use caozuokeshe.FileOps.Session.Update.{grown-InodeFits, grown-Owns, grown-file_type}
use caozuokeshe.FileOps.Session.Store.{Stored, write_inode-Stored}

-- The state behind the loop: another bitmap and another disk.
abbrev pub with_data : FsState → Bitmap → Disk → FsState
with_data s bm d = record s { block_bitmap = bm; disk = d }

-- An open file with the blocks that the loop of `fs_write` leaves and the inode that goes with them.
pub grown-IsHeld :
    (s : FsState) (fd : ℕ) (bits bits' : List ℕ) (inode inode' : Inode) (bm : Bitmap) (d : Disk)
    (new_size now : ℕ)
    → IsHeld s fd bits inode
    → IsMounted (with_data s bm d) bits'
    → Owns (with_data s bm d) bits' inode'
    → d.total_blocks ≡ s.disk.total_blocks
    → inode' ≡ record inode { direct_blocks = inode'.direct_blocks }
    → new_size < 2 ^ 64
    → now < 2 ^ 64
    → IsHeld (with_data s bm d) fd bits' (grown inode' new_size now)
grown-IsHeld s fd bits bits' inode inode' bm d new_size now o m owns total same size_lt now_lt =
    record {
      valid = o.valid;
      handles = o.handles;
      referred = o.referred;
      loaded = o.loaded;
      mounted = m;
      owns = grown-Owns (with_data s bm d) bits' inode' new_size now owns;
      stored = record {
        positive = o.stored.positive;
        in_table = o.stored.in_table;
        no_wrap = o.stored.no_wrap;
        on_the_disk = omega (arith, o.stored.on_the_disk, total);
      };
      in_tables = o.in_tables;
      fits =
          grown-InodeFits (with_data s bm d) bits' inode inode' new_size now o.fits same m owns
            size_lt now_lt;
      regular = grown-file_type inode' new_size now ∙ ap Inode.file_type same ∙ o.regular;
    }

-- What the end of `fs_write` leaves, where bytes have been written.
module _ (host : Host) (reliable : IsReliable host) (t : FsState) (fd : ℕ) (bits : List ℕ)
    (inode : Inode) (position written : ℕ) (pos : 0 < written)
    (o : IsHeld
      (on_disk t (called t.disk))
      fd
      bits
      (grown inode ((position + written) % 2 ^ 64) (host.time t.disk.calls))) where
  abbrev end : ℕ
  end = (position + written) % 2 ^ 64

  abbrev pub put_inode : Inode
  put_inode = grown inode end (host.time t.disk.calls)

  pub stored_inode :
      Stored
        (on_disk t (called t.disk))
        fd
        bits
        put_inode
        (write_inode host (handle_of t fd).inode_number put_inode (on_disk t (called t.disk)))
  stored_inode = write_inode-Stored host reliable (on_disk t (called t.disk)) fd bits put_inode o

  pub finish_write-ok :
      finish_write host fd (handle_of t fd).inode_number position written inode t
      ≡ (ok written, put_position fd end (on_disk t stored_inode.disk))
  unfolding finish_write
  finish_write-ok =
      let e : ltb 0 written ≡ true = ground arith in
      rw (e, finish_write) (ap (λ r. (ok written, put_position fd end r.1)) stored_inode.returns)
