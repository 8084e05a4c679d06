-- ===== src/FileOps/Session/Store.antt =====
-- An open file whose inode is written back, and whose position moves.
use mathlib.Core.Path.{subst}
use caozuokeshe.Base.{
  ℕ, ◌<◌, ◌≤◌, ◌≡◌, ◌≢◌, ap, ◌∙◌, sym, List, arith, length, if_same, if_ne, take, drop, length-set,
  get_or-set_self, some,
}
use caozuokeshe.Errors.{Result, ok}
use caozuokeshe.Layout.{Inode, inode_size, decode_inode}
use caozuokeshe.Disk.Host.{Host, IsReliable}
use caozuokeshe.Disk.Block.{Disk, write_block}
use caozuokeshe.Disk.Block.Laws.{block_at, block_length}
use caozuokeshe.Fs.State.{FsState, FileHandle, zero_handle}
use caozuokeshe.Fs.Inodes.{inode_block, inode_offset, write_inode}
use caozuokeshe.Fs.Inodes.Laws.{
  on_disk, IsStored, write_inode-ok, write_inode-Writes, read_once, spliced, decode_spliced,
  offset_fits,
}
use caozuokeshe.FileOps.Blocks.{put_position}
use caozuokeshe.FileOps.Session.{IsHeld, IsOpen, handle_of, table_inode, on_disk-IsHeld}

-- What `fs_ops_write_inode` of the file's inode leaves.
pub record Stored (s : FsState) (fd : ℕ) (bits : List ℕ) (inode : Inode)
    (r : Result (Unit {0}) × FsState) : Type 0 where
  pub disk : Disk
  pub returns : r ≡ (ok tt, on_disk s disk)
  pub opened : IsOpen (on_disk s disk) fd bits inode
  pub behind : (c : ℕ) → s.superblock.data_blocks_start ≤ c → block_at disk c ≡ block_at s.disk c

module _ (host : Host) (reliable : IsReliable host) (s : FsState) (fd : ℕ) (bits : List ℕ)
    (inode : Inode) (o : IsHeld s fd bits inode) where
  abbrev n : ℕ
  n = (handle_of s fd).inode_number

  abbrev stored_disk : Disk
  stored_disk =
      (write_block host (read_once host reliable s o.mounted.ready n o.stored)
        (inode_block s.superblock n)
        (some (spliced host reliable s o.mounted.ready n o.stored inode))).1

  pub write_inode-Stored : Stored s fd bits inode (write_inode host n inode s)
  unfolding table_inode
  write_inode-Stored =
      let w = write_inode-Writes host reliable s o.mounted.ready n o.stored inode in
      let at = inode_block s.superblock n in
      record {
        disk = stored_disk;
        returns = write_inode-ok host reliable s o.mounted.ready n o.stored inode;
        opened = record {
          held = on_disk-IsHeld s fd bits inode stored_disk o w.keeps;
          holds =
              ap (λ block. decode_inode (take inode_size (drop (inode_offset n) block)))
                (w.updated at ∙ if_same at _ _)
              ∙ decode_spliced (block_at s.disk at) (inode_offset n) inode
                  (omega (
                    arith,
                    offset_fits host reliable s o.mounted.ready n o.stored,
                    block_length s.disk o.mounted.ready at,
                  ))
                  o.fits;
        };
        behind = λ c le.
            let ne : at ≢ c = omega (arith, o.in_tables, le) in w.updated c ∙ if_ne at c _ _ ne;
      }

-- The position of an open file moves.
pub handle-put_position :
    (s : FsState) (fd position : ℕ)
    → fd < length s.open_files
    → handle_of (put_position fd position s) fd
      ≡ record (handle_of s fd) { file_position = position }
handle-put_position s fd position lt =
    get_or-set_self s.open_files fd (record (handle_of s fd) { file_position = position })
      zero_handle lt

pub put_position-IsOpen :
    (s : FsState) (fd position : ℕ) (bits : List ℕ) (inode : Inode)
    → IsOpen s fd bits inode
    → IsOpen (put_position fd position s) fd bits inode
unfolding table_inode
put_position-IsOpen s fd position bits inode o =
    let h = handle-put_position s fd position (omega (arith, o.held.valid, o.held.handles)) in
    let number : (handle_of (put_position fd position s) fd).inode_number
        ≡ (handle_of s fd).inode_number =
      ap FileHandle.inode_number h in
    let st = o.held.stored in
    record {
      held = record {
        valid = o.held.valid;
        handles = length-set s.open_files fd _ ∙ o.held.handles;
        referred = λ z. o.held.referred (sym (ap FileHandle.reference_count h) ∙ z);
        loaded = o.held.loaded;
        mounted = record {
          ready = o.held.mounted.ready;
          valid = o.held.mounted.valid;
          room = o.held.mounted.room;
          behind = o.held.mounted.behind;
        };
        owns = record {
          twelve = o.held.owns.twelve;
          taken = λ i z.
              let t = o.held.owns.taken i z in
              record { above = t.above; below = t.below; marked = t.marked };
          distinct = o.held.owns.distinct;
        };
        stored = subst (IsStored (put_position fd position s)) (sym number) (record {
          positive = st.positive;
          in_table = st.in_table;
          no_wrap = st.no_wrap;
          on_the_disk = st.on_the_disk;
        });
        in_tables =
            subst (λ k. inode_block s.superblock k < s.superblock.data_blocks_start) (sym number)
              o.held.in_tables;
        fits = o.held.fits;
        regular = o.held.regular;
      };
      holds = ap (table_inode s) number ∙ o.holds;
    }
