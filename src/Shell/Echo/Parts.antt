-- ===== src/Shell/Echo/Parts.antt =====
-- The handlers of `write`, `seek` and `read` in an initialised shell.
use mathlib.Core.List.{head-eq_of_cons-eq, tail-eq_of_cons-eq}
use caozuokeshe.Base.{
  ℕ, ◌%◌, ◌^◌, ◌<◌, ◌≤◌, ◌≡◌, refl, sym, ap, ◌∙◌, inl, inr, Bool, true, false, not, ◌||◌, some,
  List, [], ◌∷◌, ◌++◌, arith, length, ltb, Bool-cases, c_string, if◌then◌else◌,
}
use caozuokeshe.Errors.{Result, ok}
use caozuokeshe.Disk.Host.{Host}
use caozuokeshe.Disk.Block.{called, not_positive}
use caozuokeshe.Fs.State.{FsState}
use caozuokeshe.Fs.Inodes.Laws.{on_disk}
use caozuokeshe.FileOps.ReadWrite.{fs_read, fs_write}
use caozuokeshe.FileOps.Position.{fs_seek}
use caozuokeshe.Shell.Lines.{
  Line, Command, cmd_write, cmd_seek, cmd_read, init_first, bytes_written, write_failed, moved_to,
  seek_failed, bytes_read, content_is, int_of, error_to_string,
}
use caozuokeshe.Shell.Text.{arg, atoi}
use caozuokeshe.Shell.State.{
  Shell, Args, say, with_fs, checked, if_args, if_initialized-on, if_args-enough,
}
use caozuokeshe.Shell.FileCommands.{
  text_of, write_text, write_fd, seek_fd, read_bytes, read_fd, read_lines, value_or_error,
}

checked-on :
    (c : Command) (least : ℕ) (args : Args) (body : Shell → Shell) (s : Shell)
    → s.system_initialized ≡ true
    → least ≤ length args
    → checked c least args body s ≡ body s
unfolding checked
checked-on c least args body s on enough =
    if_initialized-on init_first (if_args c least args body) s on
    ∙ if_args-enough c least args body s (ground (arith, enough))

int_line : (p : ℕ) → p < 2 ^ 31 → value_or_error moved_to seek_failed (int_of (ok p)) ≡ moved_to p
unfolding int_of
int_line p near =
    let same : p % 2 ^ 32 ≡ p = omega arith in
    let positive : ltb p (2 ^ 31) ≡ true = ground arith in rw (same, positive) refl

read_lines-ok :
    (bytes : List ℕ) (n : ℕ)
    → length bytes ≡ n
    → 0 < n
    → n ≤ 1024
    → read_lines (ok bytes) ≡ bytes_read n ∷ content_is (c_string bytes) ∷ []
unfolding read_lines
read_lines-ok bytes n whole pos small =
    let positive : not_positive n ≡ false = ground arith in rw (whole, positive) refl

-- The part of `cmd_read` behind its checks.
read_bytes-on :
    (host : Host) (s : Shell) (fd n : ℕ) (bytes : List ℕ)
    → host.alloc_ok s.fs.disk.calls ≡ true
    → 0 < n
    → n ≤ 1024
    → length bytes ≡ n
    → (fs_read host fd n (on_disk s.fs (called s.fs.disk))).0 ≡ ok bytes
    → (read_bytes host fd n s).output ≡ s.output ++ bytes_read n ∷ content_is (c_string bytes) ∷ []
unfolding read_bytes
read_bytes-on host s fd n bytes alloc pos small whole e =
    let allowed : (not_positive n || ltb 1024 n) ≡ false = ground arith in
    rw (allowed, alloc, read_bytes)
      (ap (λ lines. s.output ++ lines) (ap read_lines e ∙ read_lines-ok bytes n whole pos small))

module _ (host : Host) (s : Shell) (args : Args) (fd : ℕ) (on : s.system_initialized ≡ true)
    (is_fd : atoi (arg args 1) ≡ fd) where
  pub write_fd-on : 3 ≤ length args → write_fd host args s ≡ write_text host fd (text_of args) s
  unfolding write_fd
  write_fd-on enough =
      checked-on cmd_write 3 args (write_text host (atoi (arg args 1)) (text_of args)) s on enough
      ∙ ap (λ k. write_text host k (text_of args) s) is_fd

  pub seek_fd-on :
      (p : ℕ) (t : FsState)
      → 4 ≤ length args
      → atoi (arg args 2) ≡ p
      → atoi (arg args 3) ≡ 0
      → p < 2 ^ 31
      → fs_seek host fd p 0 s.fs ≡ (ok p, t)
      → seek_fd host args s ≡ say (moved_to p) (with_fs t s)
  unfolding seek_fd
  seek_fd-on p t enough is_p is_set near e =
      checked-on cmd_seek 4 args
        (λ u.
          after (fs_seek host (atoi (arg args 1)) (atoi (arg args 2)) (atoi (arg args 3)) u.fs) u)
        s on enough
      ∙ ap (λ k. after (fs_seek host k (atoi (arg args 2)) (atoi (arg args 3)) s.fs) s) is_fd
      ∙ ap (λ k. after (fs_seek host fd k (atoi (arg args 3)) s.fs) s) is_p
      ∙ ap (λ k. after (fs_seek host fd p k s.fs) s) is_set
      ∙ ap (λ r. after r s) e
      ∙ ap (λ line. say line (with_fs t s)) (int_line p near)
    where
      after : Result ℕ × FsState → Shell → Shell
      after r u = say (value_or_error moved_to seek_failed (int_of r.0)) (with_fs r.1 u)

  pub read_fd-on :
      (n : ℕ) (bytes : List ℕ)
      → host.alloc_ok s.fs.disk.calls ≡ true
      → 3 ≤ length args
      → atoi (arg args 2) ≡ n
      → 0 < n
      → n ≤ 1024
      → length bytes ≡ n
      → (fs_read host fd n (on_disk s.fs (called s.fs.disk))).0 ≡ ok bytes
      → (read_fd host args s).output ≡ s.output ++ bytes_read n ∷ content_is (c_string bytes) ∷ []
  unfolding read_fd
  read_fd-on n bytes alloc enough is_n pos small whole e =
      ap Shell.output (
        checked-on cmd_read 3 args (read_bytes host (atoi (arg args 1)) (atoi (arg args 2))) s on
          enough
        ∙ ap (λ k. read_bytes host k (atoi (arg args 2)) s) is_fd
        ∙ ap (λ k. read_bytes host fd k s) is_n)
      ∙ read_bytes-on host s fd n bytes alloc pos small whole e

append_cancel : {A : Type 0} (xs : List A) (a b : A) → xs ++ a ∷ [] ≡ xs ++ b ∷ [] → a ≡ b
append_cancel [] a b e = head-eq_of_cons-eq e
append_cancel (x ∷ xs) a b e = append_cancel xs a b (tail-eq_of_cons-eq e)

-- What `cmd_write` prints of an `int`.
abbrev written_line : Bool → ℕ → Line
written_line refused k = if not refused then bytes_written k else write_failed (error_to_string k)

-- A message that tells how many bytes have been written tells what `fs_write` has returned.
written_line-value :
    (k n : ℕ) → written_line (not_positive k) k ≡ bytes_written n → (k ≡ n) × (0 < k)
written_line-value k n e = elim (Bool-cases (not_positive k)) [
  | inl z ↦
      let failed : write_failed (error_to_string k) ≡ bytes_written n =
        ap (λ b. written_line b k) (sym z) ∙ e in
      cc
  | inr z ↦
      let done : bytes_written k ≡ bytes_written n = ap (λ b. written_line b k) (sym z) ∙ e in
      (cc, ground (arith, z))
]

pub write_text-count :
    (host : Host) (s : Shell) (fd : ℕ) (text : List ℕ) (n : ℕ)
    → (write_text host fd text s).output ≡ s.output ++ bytes_written n ∷ []
    → (int_of (fs_write host fd (some text) (length text) s.fs).0 ≡ n)
      × (0 < int_of (fs_write host fd (some text) (length text) s.fs).0)
unfolding write_text
write_text-count host s fd text n e =
    let k = int_of (fs_write host fd (some text) (length text) s.fs).0 in
    written_line-value k n
      (append_cancel s.output (written_line (not_positive k) k) (bytes_written n) e)

pub int_of-ok : (r : Result ℕ) (n : ℕ) → r ≡ ok n → n < 2 ^ 31 → int_of r ≡ n
unfolding int_of
int_of-ok r n e lt = ap int_of e ∙ omega arith

-- `cmd_write` tells what `fs_write` has returned.
pub write_text-says :
    (host : Host) (s : Shell) (fd n : ℕ) (text : List ℕ)
    → (fs_write host fd (some text) (length text) s.fs).0 ≡ ok n
    → 0 < n
    → n < 2 ^ 31
    → (write_text host fd text s).output ≡ s.output ++ bytes_written n ∷ []
unfolding write_text
write_text-says host s fd n text e pos lt =
    let positive : not_positive n ≡ false = ground arith in
    ap (λ k. s.output ++ written_line (not_positive k) k ∷ [])
      (int_of-ok (fs_write host fd (some text) (length text) s.fs).0 n e lt)
    ∙ ap (λ b. s.output ++ written_line b n ∷ []) positive
