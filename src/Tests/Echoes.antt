-- ===== src/Tests/Echoes.antt =====
-- Typing `write`, `seek` and `read` at a concrete input.
use caozuokeshe.Base.{
  ℕ, ◌+◌, ◌≡◌, refl, sym, ap, ◌∙◌, inl, inr, true, some, List, [], ◌∷◌, ◌++◌, arith, take, c_string,
}
use caozuokeshe.Errors.{ok}
use caozuokeshe.FileOps.Blocks.{get_data_block, block_index}
use caozuokeshe.FileOps.ReadWrite.{fs_write}
use caozuokeshe.FileOps.Session.Save.{Saved, fs_write-Saved}
use caozuokeshe.Shell.Lines.{bytes_written, moved_to, bytes_read, content_is}
use caozuokeshe.Shell.Text.{atoi, join_args}
use caozuokeshe.Shell.State.{Shell, Args}
use caozuokeshe.Shell.FileCommands.{write_fd, seek_fd, read_fd, text_of}
use caozuokeshe.Shell.Echo.{read_fd-write_fd}
use caozuokeshe.Shell.Echo.Parts.{write_fd-on, write_text-says}
use caozuokeshe.Tests.Content.{stored_inode}
use caozuokeshe.Tests.Sessions.{
  steady, steady-IsReliable, opened, opened-IsOpen, may_write, may_read,
}

abbrev word : ℕ → List ℕ
word c = c ∷ []

abbrev shell : Shell
shell = record {
  fs = opened;
  shell_running = true;
  system_initialized = true;
  input = [];
  output = [];
}

-- `write 0 abc`, `seek 0 0 0`, `read 0 3`
abbrev to_write : Args
to_write = word b'w' ∷ word b'0' ∷ (b'a' ∷ b'b' ∷ b'c' ∷ []) ∷ []

abbrev to_seek : Args
to_seek = word b's' ∷ word b'0' ∷ word b'0' ∷ word b'0' ∷ []

abbrev to_read : Args
to_read = word b'r' ∷ word b'0' ∷ word b'3' ∷ []

atoi_0 : atoi (word b'0') ≡ 0
unfolding atoi
atoi_0 = refl

atoi_3 : atoi (word b'3') ≡ 3
unfolding atoi
atoi_3 = refl

text_abc : text_of to_write ≡ b'a' ∷ b'b' ∷ b'c' ∷ []
unfolding join_args
text_abc = refl

saved :
    Saved opened 0 stored_inode
      (text_of to_write)
      3
      (fs_write steady 0 (some (text_of to_write)) 3 opened)
unfolding join_args
saved =
    fs_write-Saved steady steady-IsReliable (λ k. omega arith) opened 0 (2 ∷ []) stored_inode
      opened-IsOpen (text_of to_write) 3 may_write (omega arith) (omega arith) (omega arith)
      (omega arith)

all_written : saved.count ≡ 3
unfolding get_data_block block_index
all_written = elim saved.stops [
  | inl e ↦ e
  | inr e ↦
      let first : block_index (0 + saved.count) ≡ 0 = omega (arith, saved.within) in
      let none_there : get_data_block stored_inode 0 ≡ 0 =
        sym (ap (get_data_block stored_inode) first) ∙ e in
      absurd (omega (arith, none_there))
]

said : (write_fd steady to_write shell).output ≡ bytes_written 3 ∷ []
unfolding join_args
said =
    ap Shell.output (write_fd-on steady shell to_write 0 refl atoi_0 (omega arith))
    ∙ write_text-says steady shell 0 3 (text_of to_write) (saved.returns ∙ ap ok all_written)
        (omega arith) (omega arith)

read_fd-write_fd_example :
    let written = write_fd steady to_write shell in
    let moved = seek_fd steady to_seek written in
    (moved.output ≡ written.output ++ moved_to 0 ∷ [])
    × ((read_fd steady to_read moved).output
        ≡ moved.output ++ bytes_read 3 ∷ content_is (c_string (take 3 (text_of to_write))) ∷ [])
unfolding join_args
read_fd-write_fd_example =
    read_fd-write_fd steady shell 0 0 3 (2 ∷ []) stored_inode to_write to_seek to_read
      steady-IsReliable (λ k. omega arith) refl opened-IsOpen may_write may_read refl (omega arith)
      (omega arith) atoi_0 (omega arith) (omega arith) said (omega arith) atoi_0 atoi_0 atoi_0
      (omega arith) atoi_0 atoi_3
