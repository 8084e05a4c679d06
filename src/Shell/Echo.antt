-- ===== src/Shell/Echo.antt =====
-- `write`, `seek` and `read` typed one after the other.
pub mod Parts
use mathlib.Core.Path.{subst}
use mathlib.Core.List.{head-eq_of_cons-eq, tail-eq_of_cons-eq}
use caozuokeshe.Disk.Block.Laws.{called-Keeps, block_at-called}
use caozuokeshe.Base.{
  ℕ, ◌%◌, ◌^◌, ◌<◌, ◌≤◌, ◌≡◌, refl, sym, ap, ◌∙◌, inl, inr, Bool, true, false, not, ◌||◌, some,
  List, [], ◌∷◌, ◌++◌, arith, length, ltb, Bool-cases, take, length-take, c_string, if◌then◌else◌,
}
use caozuokeshe.Errors.{Result, ok}
use caozuokeshe.Layout.{Inode}
use caozuokeshe.Disk.Host.{Host, IsReliable}
use caozuokeshe.Disk.Block.{called, not_positive}
use caozuokeshe.Fs.State.{FsState}
use caozuokeshe.Fs.Inodes.Laws.{on_disk}
use caozuokeshe.Users.Accounts.{check_permission}
use caozuokeshe.Users.Permission.{perm_owner_read, perm_owner_write}
use caozuokeshe.FileOps.ReadWrite.{fs_read, fs_write}
use caozuokeshe.FileOps.Position.{fs_seek}
use caozuokeshe.FileOps.Session.{IsOpen, handle_of}
use caozuokeshe.FileOps.Session.Outcome.{Grown}
use caozuokeshe.FileOps.Session.Save.{fs_write-Saved}
use caozuokeshe.FileOps.Session.RoundTrip.{back, sought, opened, read_later}
use caozuokeshe.Shell.Lines.{
  Line, Command, cmd_write, cmd_seek, cmd_read, init_first, bytes_written, write_failed, moved_to,
  seek_failed, bytes_read, content_is, int_of, error_to_string,
}
use caozuokeshe.Shell.Text.{arg, atoi}
use caozuokeshe.Shell.State.{
  Shell, Args, say, with_fs, checked, if_args, if_initialized-on, if_args-enough,
}
use caozuokeshe.Shell.FileCommands.{
  text_of, write_text, write_fd, seek_fd, read_bytes, read_fd, read_lines, value_or_error,
}
use caozuokeshe.Shell.Echo.Parts.{write_fd-on, seek_fd-on, read_fd-on, write_text-count, int_of-ok}

-- What `seek` and `read` print after a write that has gone well.
abbrev Echoes : Host → (to_seek to_read : Args) → (p n : ℕ) → (text : List ℕ) → Shell → Type 0
Echoes host to_seek to_read p n text written =
    let moved = seek_fd host to_seek written in
    (moved.output ≡ written.output ++ moved_to p ∷ [])
    × ((read_fd host to_read moved).output
        ≡ moved.output ++ bytes_read n ∷ content_is (c_string (take n text)) ∷ [])

module _ (host : Host) (reliable : IsReliable host) (s : Shell) (fd n : ℕ) (inode : Inode)
    (text : List ℕ) (to_seek to_read : Args) (on : s.system_initialized ≡ true)
    (g : Grown s.fs fd inode text n (fs_write host fd (some text) (length text) s.fs).1)
    (may_read : check_permission s.fs inode perm_owner_read ≡ true)
    (near : (handle_of s.fs fd).file_position < 2 ^ 31) (some_bytes : 0 < n)
    (enough : n ≤ length text) (short : n ≤ 1024) where
  abbrev written_fs : FsState
  written_fs = (fs_write host fd (some text) (length text) s.fs).1

  abbrev p : ℕ
  p = (handle_of s.fs fd).file_position

  int_count : n < 2 ^ 31
  int_count = omega (arith, short)

  abbrev moved_fs : FsState
  moved_fs =
      back host reliable s.fs fd inode text n written_fs g may_read near int_count some_bytes enough

  still_open : IsOpen moved_fs fd g.bits g.inode'
  still_open =
      opened host reliable s.fs fd inode text n written_fs g may_read near int_count some_bytes
        enough

  text_comes_back :
      (fs_read host fd n (on_disk moved_fs (called moved_fs.disk))).0 ≡ ok (take n text)
  text_comes_back =
      read_later host reliable s.fs fd inode text n written_fs g may_read near int_count some_bytes
        enough (called moved_fs.disk) (called-Keeps moved_fs.disk still_open.held.mounted.ready)
        (block_at-called moved_fs.disk)

  write_text-Echoes :
      4 ≤ length to_seek
      → atoi (arg to_seek 1) ≡ fd
      → atoi (arg to_seek 2) ≡ p
      → atoi (arg to_seek 3) ≡ 0
      → 3 ≤ length to_read
      → atoi (arg to_read 1) ≡ fd
      → atoi (arg to_read 2) ≡ n
      → Echoes host to_seek to_read p n text (write_text host fd text s)
  unfolding write_text
  write_text-Echoes enough_s is_fd_s is_p is_set enough_r is_fd_r is_n =
      let written = write_text host fd text s in
      let moved = say (moved_to p) (with_fs moved_fs written) in
      let e : seek_fd host to_seek written ≡ moved =
        seek_fd-on host written to_seek fd on is_fd_s p moved_fs enough_s is_p is_set near (
          sought host reliable s.fs fd inode text n written_fs g may_read near int_count some_bytes
            enough) in
      (
        ap Shell.output e,
        subst
            (λ m.
              (read_fd host to_read m).output
              ≡ m.output ++ bytes_read n ∷ content_is (c_string (take n text)) ∷ [])
            (sym e)
            (read_fd-on host moved to_read fd on is_fd_r n (take n text)
              (reliable.allocs moved_fs.disk.calls) enough_r is_n some_bytes short
              (omega (arith, length-take n text)) text_comes_back),
      )

-- On a reliable host with times of 64 bits, in an initialised shell, for a descriptor `fd` that is open
-- on a regular file with its inode in the table and blocks of its own, at a position `p` below 2^31,
-- and a user who may write and read the file: if the command `write fd text`, of at most 1024 bytes,
-- says that it has written `n` bytes, then `seek fd p 0` says that the position is `p`, and `read fd n`
-- after it says that it has read `n` bytes and shows the first `n` bytes of the text, up to a zero.
pub read_fd-write_fd :
    (host : Host) (s : Shell) (fd p n : ℕ) (bits : List ℕ) (inode : Inode)
    (to_write to_seek to_read : Args)
    → IsReliable host
    → ((k : ℕ) → host.time k < 2 ^ 64)
    → s.system_initialized ≡ true
    → IsOpen s.fs fd bits inode
    → check_permission s.fs inode perm_owner_write ≡ true
    → check_permission s.fs inode perm_owner_read ≡ true
    → (handle_of s.fs fd).file_position ≡ p
    → p < 2 ^ 31
    → 3 ≤ length to_write
    → atoi (arg to_write 1) ≡ fd
    → 0 < length (text_of to_write)
    → length (text_of to_write) ≤ 1024
    → (write_fd host to_write s).output ≡ s.output ++ bytes_written n ∷ []
    → 4 ≤ length to_seek
    → atoi (arg to_seek 1) ≡ fd
    → atoi (arg to_seek 2) ≡ p
    → atoi (arg to_seek 3) ≡ 0
    → 3 ≤ length to_read
    → atoi (arg to_read 1) ≡ fd
    → atoi (arg to_read 2) ≡ n
    → let written = write_fd host to_write s in
      let moved = seek_fd host to_seek written in
      (moved.output ≡ written.output ++ moved_to p ∷ [])
      × ((read_fd host to_read moved).output
          ≡ moved.output ++ bytes_read n ∷ content_is (c_string (take n (text_of to_write))) ∷ [])
read_fd-write_fd host s fd p n bits inode to_write to_seek to_read reliable timely on o may_write
      may_read at near enough is_fd some_text short said enough_s is_fd_s is_p is_set enough_r
      is_fd_r is_n =
    let text = text_of to_write in
    let w =
      fs_write-Saved host reliable timely s.fs fd bits inode o text (length text) may_write
        some_text (omega (arith, short)) (omega arith) (omega (arith, at, short)) in
    let e = write_fd-on host s to_write fd on is_fd enough in
    let (told, pos) = write_text-count host s fd text n (ap Shell.output (sym e) ∙ said) in
    let count : w.count ≡ n =
      sym (
        int_of-ok (fs_write host fd (some text) (length text) s.fs).0 w.count w.returns
          (omega (arith, w.within, short)))
      ∙ told in
    let g : Grown s.fs fd inode text n (fs_write host fd (some text) (length text) s.fs).1 =
      elim w.outcome [
        | inl z ↦ absurd (omega (arith, z, count, told, pos))
        | inr g ↦
            subst
              (λ c. Grown s.fs fd inode text c (fs_write host fd (some text) (length text) s.fs).1)
              count g
      ] in
    let within : n ≤ length text = omega (arith, count, w.within) in
    subst (Echoes host to_seek to_read p n text) (sym e) (
      subst (λ q. Echoes host to_seek to_read q n text (write_text host fd text s)) at
        (write_text-Echoes host reliable s fd n inode text to_seek to_read on g may_read
          (omega (arith, at)) (omega (arith, told, pos)) within (omega (arith, within, short))
          enough_s is_fd_s (is_p ∙ sym at) is_set enough_r is_fd_r is_n))
