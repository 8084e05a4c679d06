-- ===== src/FileOps/Session/Load.antt =====
-- `fs_seek`, `fs_tell` and `fs_read` on an open file.
use caozuokeshe.Base.{
  ℕ, ◌+◌, ◌-◌, ◌%◌, ◌^◌, min, ◌<◌, ◌≤◌, ◌≡◌, ◌≢◌, refl, ap, ◌∙◌, true, false, none, List, [], arith,
  length, ltb, leb, get_or, some, if◌then◌else◌,
}
use caozuokeshe.Errors.{Result, ok, invalid_param}
use caozuokeshe.Layout.{Inode}
use caozuokeshe.Disk.Host.{Host, IsReliable}
use caozuokeshe.Disk.Block.{not_positive}
use caozuokeshe.Fs.State.{FsState, FileHandle, M, ◌>>=◌, ◌>>◌, bind-ok, fail, pure, get, modify}
use caozuokeshe.Fs.Inodes.{read_inode}
use caozuokeshe.Fs.Inodes.Laws.{on_disk}
use caozuokeshe.Users.Accounts.{check_permission}
use caozuokeshe.Users.Permission.{perm_owner_read}
use caozuokeshe.FileOps.Blocks.{
  block_index, get_data_block, put_position, validate_fd, load_if_needed,
}
use caozuokeshe.FileOps.Position.{fs_seek, fs_tell, seek_target, extend64}
use caozuokeshe.FileOps.ReadWrite.{finish_read, fs_read, open_regular, read_loop}
use caozuokeshe.FileOps.Content.{byte_at, byte_at-blocks}
use caozuokeshe.FileOps.Content.Round.{max_offset}
use caozuokeshe.FileOps.Content.Read.{ReadBack, read_loop-ReadBack, in_range}
use caozuokeshe.FileOps.Session.{
  IsOpen, handle_of, seen, seen-Reads, seen-IsOpen, open_regular-IsOpen, read_inode-IsOpen,
  validate_fd-IsOpen, load_if_needed-IsOpen,
}

pub finish_read-ok :
    (host : Host) (fd inode_number position count : ℕ) (inode : Inode) (s : FsState)
    → (finish_read host fd inode_number position count inode s).0 ≡ ok tt
unfolding finish_read
finish_read-ok host fd inode_number position count inode s = ground (arith)

module _ (host : Host) (reliable : IsReliable host) (s : FsState) (fd : ℕ) (bits : List ℕ)
    (inode : Inode) (o : IsOpen s fd bits inode) where
  abbrev start : ℕ
  start = (handle_of s fd).file_position

  abbrev s1 : FsState
  s1 = on_disk s (seen host reliable s fd bits inode o)

  -- `fs_tell` gives the position.
  pub fs_tell-IsOpen : fs_tell fd s ≡ (ok (start % 2 ^ 32), s)
  unfolding fs_tell
  fs_tell-IsOpen =
      let rest : M ℕ = get >>= λ t. pure ((handle_of t fd).file_position % 2 ^ 32) in
      bind-ok (validate_fd fd) (λ _. rest) s (validate_fd-IsOpen host reliable s fd bits inode o)

  -- `fs_seek` from the beginning of the file.
  pub fs_seek-IsOpen : (p : ℕ) → p < 2 ^ 31 → fs_seek host fd p 0 s ≡ (ok p, put_position fd p s1)
  unfolding fs_seek seek_target
  fs_seek-IsOpen p lt =
      let below : ltb p (2 ^ 31) ≡ true = ground arith in
      let positive : leb (2 ^ 63) p ≡ false = ground arith in
      let same : p % 2 ^ 32 ≡ p = omega arith in
      let target : FileHandle → Inode → M ℕ = λ handle i.
        elim (seek_target handle.file_position i.file_size p 0) [
          | none ↦ fail invalid_param
          | some position ↦
              if leb (2 ^ 63) position
              then fail invalid_param
              else modify (put_position fd position) >> pure (position % 2 ^ 32)
        ] in
      let rest : M ℕ =
        get >>= λ t. read_inode host (handle_of t fd).inode_number >>= target (handle_of t fd) in
      let after_read : target (handle_of s fd) inode s1 ≡ (ok p, put_position fd p s1) =
        rw (below, positive, same, seek_target, extend64) refl in
      bind-ok (validate_fd fd) (λ _. load_if_needed host >> rest) s
        (validate_fd-IsOpen host reliable s fd bits inode o)
      ∙ bind-ok (load_if_needed host) (λ _. rest) s
          (load_if_needed-IsOpen host reliable s fd bits inode o)
      ∙ bind-ok (read_inode host (handle_of s fd).inode_number) (target (handle_of s fd)) s
          (read_inode-IsOpen host reliable s fd bits inode o)
      ∙ after_read

  -- `fs_read` of bytes that lie in the file and that the file has blocks for.
  module _ (size : ℕ) (may : check_permission s inode perm_owner_read ≡ true)
      (some_bytes : 0 < size) (int_size : size < 2 ^ 31) (in_file : start + size ≤ inode.file_size)
      (small : start + size < max_offset)
      (there : (k : ℕ)
        → start ≤ k
        → k < start + size
        → get_data_block inode (block_index k) ≢ 0) where
    o1 : IsOpen s1 fd bits inode
    o1 = seen-IsOpen host reliable s fd bits inode o

    abbrev looping : Result (List ℕ) × FsState
    looping = read_loop host inode size start size 0 s1

    w : ReadBack s1 inode size start 0 looping
    w =
        read_loop-ReadBack host reliable inode size start small size s1 0 o1.held.mounted.ready
          (omega arith) (omega arith) (λ k lo hi. there k (omega (arith, lo)) hi)
          (λ k lo hi.
            in_range s1 bits inode o1.held.mounted o1.held.owns (block_index k)
              (there k (omega (arith, lo)) hi))

    fs_read-result : (fs_read host fd size s).0 ≡ ok w.bytes
    unfolding fs_read
    fs_read-result =
        let positive : not_positive size ≡ false = ground arith in
        let inside : leb inode.file_size start ≡ false = ground arith in
        let asked : min size (inode.file_size - start) ≡ size = omega arith in
        let end : List ℕ → M (List ℕ) = λ bytes.
          finish_read host fd (handle_of s fd).inode_number start (length bytes) inode
          >> pure bytes in
        let read_all : FileHandle × Inode → M (List ℕ) = λ x.
          if leb x.1.file_size x.0.file_position
          then pure []
          else read_loop host x.1 (min size (x.1.file_size - x.0.file_position)) x.0.file_position
              (min size (x.1.file_size - x.0.file_position)) 0
            >>= λ bytes.
                finish_read host fd x.0.inode_number x.0.file_position (length bytes) x.1
                >> pure bytes in
        let loop_result : looping ≡ (ok w.bytes, looping.1) = ap (λ x. (x, looping.1)) w.returns in
        let finished : (end w.bytes looping.1).0 ≡ ok w.bytes =
          let last : M (Unit {0}) =
            finish_read host fd (handle_of s fd).inode_number start (length w.bytes) inode in
          ap (λ r. r.0)
            (bind-ok last (λ _. pure w.bytes) looping.1
              (ap (λ x. (x, (last looping.1).1))
                (finish_read-ok host fd (handle_of s fd).inode_number start (length w.bytes) inode
                  looping.1))) in
        let opened : fs_read host fd size s ≡ read_all (handle_of s fd, inode) s1 = rw positive (
          bind-ok (open_regular host fd perm_owner_read) read_all s
            (open_regular-IsOpen host reliable s fd bits inode o perm_owner_read may)) in
        ap (λ r. r.0) opened
        ∙ rw (inside, asked)
            (ap (λ r. r.0) (bind-ok (read_loop host inode size start size 0) end s1 loop_result)
              ∙ finished)

    pub fs_read-IsOpen :
        (bytes : List ℕ) × ((fs_read host fd size s).0 ≡ ok bytes)
        × (length bytes ≡ size)
        × ((i : ℕ) → i < size → get_or bytes i 0 ≡ byte_at s.disk inode (start + i))
    fs_read-IsOpen = (
      w.bytes,
      fs_read-result,
      omega (arith, w.whole),
      λ i lt.
          w.content i (omega (arith, w.whole))
          ∙ byte_at-blocks s.disk s1.disk inode (start + 0 + i)
              (seen-Reads host reliable s fd bits inode o).same
          ∙ ap (byte_at s.disk inode) (omega arith),
    )
