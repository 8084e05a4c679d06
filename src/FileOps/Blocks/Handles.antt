-- ===== src/FileOps/Blocks/Handles.antt =====
-- The file handles that `fs_close` leaves, as `file_ops_validate_fd` judges them.
use caozuokeshe.Base.{
  ℕ, ◌<◌, ◌≡◌, ◌≢◌, refl, ap, sym, ◌∙◌, false, arith, length, leb, ◌==◌, if◌then◌else◌, get_or, set,
  get_or-set_self, get_or-set_ne,
}
use caozuokeshe.Errors.{Result, ok, err, invalid_param}
use caozuokeshe.Fs.State.{FsState, FileHandle, zero_handle, max_open_files}
use caozuokeshe.Fs.Files.{fs_close}
use caozuokeshe.FileOps.Blocks.{validate_fd}

-- What `file_ops_validate_fd` says of a descriptor hangs on its handle alone.
verdict : FileHandle → (fd : ℕ) → Result (Unit {0})
verdict h fd =
    if leb max_open_files fd
    then err invalid_param
    else if h.reference_count == 0
    then err invalid_param
    else ok tt

validate_fd-verdict :
    (fd : ℕ) (s : FsState) → (validate_fd fd s).0 ≡ verdict (get_or s.open_files fd zero_handle) fd
unfolding validate_fd verdict
validate_fd-verdict fd s = ground arith

module _ (fd : ℕ) (s : FsState) (full : length s.open_files ≡ max_open_files)
    (lt : fd < max_open_files) where
  closed_files :
      (get_or s.open_files fd zero_handle).reference_count ≡ 1
      → fs_close fd s ≡ record s { open_files = set s.open_files fd zero_handle }
  unfolding fs_close
  closed_files one = ground (arith, one)

  -- Closing a descriptor in range that is open once makes `file_ops_validate_fd` refuse it, and leaves
  -- what that function says of every other descriptor, and the other handles, as they were.
  pub validate_fd-fs_close :
      (other : ℕ)
      → (get_or s.open_files fd zero_handle).reference_count ≡ 1
      → fd ≢ other
      → ((validate_fd fd s).0 ≡ ok tt)
        × ((validate_fd fd (fs_close fd s)).0 ≡ err invalid_param)
        × ((validate_fd other (fs_close fd s)).0 ≡ (validate_fd other s).0)
        × (get_or (fs_close fd s).open_files other zero_handle
            ≡ get_or s.open_files other zero_handle)
  unfolding validate_fd
  validate_fd-fs_close other one ne =
      let here : get_or (set s.open_files fd zero_handle) fd zero_handle ≡ zero_handle =
        get_or-set_self s.open_files fd zero_handle zero_handle (omega (arith, full, lt)) in
      let there = get_or-set_ne s.open_files fd other zero_handle zero_handle ne in
      let same_verdict =
        validate_fd-verdict other (record s { open_files = set s.open_files fd zero_handle })
        ∙ ap (λ h. verdict h other) there
        ∙ sym (validate_fd-verdict other s) in
      let inside : leb max_open_files fd ≡ false = ground arith in
      rw (closed_files one)
        (ground (arith, one, inside), rw (here, inside, validate_fd) refl, same_verdict, there)
