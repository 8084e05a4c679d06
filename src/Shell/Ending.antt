-- ===== src/Shell/Ending.antt =====
-- How `main` ends, and what it leaves.
use mathlib.Core.Path.{subst}
use caozuokeshe.Base.{
  ℕ, zero, suc, ◌<◌, ◌≡◌, ◌⊎◌, refl, sym, ap, ◌∙◌, inl, inr, Bool, true, false, not, if◌then◌else◌,
  Option, none, some, Option-cases, List, [], arith, length, replicate, Bool-cases, ◌==◌, ==_iff,
}
use caozuokeshe.Disk.Host.{Host}
use caozuokeshe.Disk.Session.{disk_close, disk_sync, reset}
use caozuokeshe.Disk.Block.{Disk, DiskStatus, success, not_init}
use caozuokeshe.Fs.State.{FsState, zero_handle, max_open_files, zero_user, max_users}
use caozuokeshe.Users.Permission.{root_uid}
use caozuokeshe.Users.Accounts.{logout, anonymous_uid}
use caozuokeshe.System.Steps.{Run}
use caozuokeshe.System.Invariant.{IsSound}
use caozuokeshe.System.Reachable.{Run-IsSound, zero-IsSound}
use caozuokeshe.Shell.Lines.{welcome, goodbye, cleaning_up}
use caozuokeshe.Shell.Text.{fgets, max_input_length}
use caozuokeshe.Shell.State.{Shell, say, with_fs, with_disk, with_input}
use caozuokeshe.Shell.Reports.{show_prompt}
use caozuokeshe.Shell.Session.{main_loop, run_line, parse_line, cleanup_and_exit, main}
use caozuokeshe.Shell.Advance.{Advance, Advance-trans, print-Advance}
use caozuokeshe.Shell.Advance.Rounds.{
  execute_command-Advance, cleanup-Advance, fgets-shorter, fgets-none, read-Advance,
}

module _ (host : Host) where
  run_line-Advance : (raw : List ℕ) (s : Shell) → Advance host s (run_line host raw s)
  unfolding run_line
  run_line-Advance raw s = execute_command-Advance host (parse_line raw) s

  -- A round that has read a line.
  after_round : Shell → List ℕ × List ℕ → Shell
  after_round s r = run_line host r.0 (with_input r.1 (show_prompt s))

  abbrev HasLine : Shell → List ℕ × List ℕ → Type 0
  HasLine s r = fgets max_input_length (show_prompt s).input ≡ some r

  round-Advance : (s : Shell) (r : List ℕ × List ℕ) → HasLine s r → Advance host s (after_round s r)
  unfolding after_round show_prompt
  round-Advance s r e = Advance-trans (print-Advance s _) (
      Advance-trans (read-Advance host max_input_length (show_prompt s) r (omega arith) e)
        (run_line-Advance r.0 (with_input r.1 (show_prompt s))))

  round-shorter :
      (s : Shell) (r : List ℕ × List ℕ)
      → HasLine s r
      → length (after_round s r).input < length s.input
  unfolding after_round show_prompt
  round-shorter s r e =
      let less = fgets-shorter host max_input_length s.input r (omega arith) e in
      omega (arith, less, (run_line-Advance r.0 (with_input r.1 (show_prompt s))).shorter)

  module _ (fuel : ℕ) (s : Shell) where
    on_read : Option (List ℕ × List ℕ) → Shell
    on_read o = elim o [ none ↦ show_prompt s | some r ↦ main_loop host fuel (after_round s r) ]

    on_flag : Bool → Shell
    unfolding on_read
    on_flag b = elim b [ false ↦ s | true ↦ on_read (fgets max_input_length (show_prompt s).input) ]

    main_loop-on_flag : main_loop host (suc fuel) s ≡ on_flag s.shell_running
    unfolding main_loop on_flag after_round
    main_loop-on_flag = refl

  -- What a round of the loop comes to: it does not start, it finds no line, or another round follows
  -- it with less input.
  data Round (s : Shell) : Type 0 where
    stopped : s.shell_running ≡ false → ((fuel : ℕ) → main_loop host (suc fuel) s ≡ s) → Round s
    ended : s.input ≡ [] → ((fuel : ℕ) → main_loop host (suc fuel) s ≡ show_prompt s) → Round s
    went_on :
        (t : Shell)
        → Advance host s t
        → length t.input < length s.input
        → ((fuel : ℕ) → main_loop host (suc fuel) s ≡ main_loop host fuel t)
        → Round s

  no_line : (s : Shell) → fgets max_input_length (show_prompt s).input ≡ none → s.input ≡ []
  unfolding show_prompt
  no_line s e = fgets-none host max_input_length s.input e

  round : (s : Shell) → Round s
  unfolding on_flag on_read
  round s = elim (Bool-cases s.shell_running) [
    | inr e ↦ stopped e (λ fuel. main_loop-on_flag fuel s ∙ ap (on_flag fuel s) e)
    | inl e ↦ elim (Option-cases (fgets max_input_length (show_prompt s).input)) [
      | inl n ↦
          ended (no_line s n)
            (λ fuel. main_loop-on_flag fuel s ∙ ap (on_flag fuel s) e ∙ ap (on_read fuel s) n)
      | inr (r, f) ↦
          went_on (after_round s r) (round-Advance s r f) (round-shorter s r f)
            (λ fuel. main_loop-on_flag fuel s ∙ ap (on_flag fuel s) e ∙ ap (on_read fuel s) f)
    ]
  ]

  loop-Advance : (fuel : ℕ) (s : Shell) → Advance host s (main_loop host fuel s)
  unfolding show_prompt main_loop
  loop-Advance zero s = print-Advance s _
  loop-Advance (suc fuel) s = elim (round s) [
    | stopped e same ↦ subst (Advance host s) (sym (same fuel)) (print-Advance s _)
    | ended e same ↦ subst (Advance host s) (sym (same fuel)) (print-Advance s _)
    | went_on t a less same ↦
        subst (Advance host s) (sym (same fuel)) (Advance-trans a (loop-Advance fuel t))
  ]

  abbrev IsEnded : Shell → Type 0
  IsEnded s = (s.shell_running ≡ false) ⊎ (s.input ≡ [])

  loop-IsEnded : (fuel : ℕ) (s : Shell) → length s.input < fuel → IsEnded (main_loop host fuel s)
  unfolding show_prompt
  loop-IsEnded zero s h = absurd (omega arith)
  loop-IsEnded (suc fuel) s h = elim (round s) [
    | stopped e same ↦ subst IsEnded (sym (same fuel)) (inl e)
    | ended e same ↦ subst IsEnded (sym (same fuel)) (inr e)
    | went_on t a less same ↦
        subst IsEnded (sym (same fuel)) (loop-IsEnded fuel t (omega (arith, less)))
  ]

  loop-same :
      (fuel more : ℕ) (s : Shell)
      → length s.input < fuel
      → length s.input < more
      → main_loop host more s ≡ main_loop host fuel s
  loop-same zero more s h k = absurd (omega arith)
  loop-same (suc fuel) zero s h k = absurd (omega arith)
  loop-same (suc fuel) (suc more) s h k = elim (round s) [
    | stopped e same ↦ same more ∙ sym (same fuel)
    | ended e same ↦ same more ∙ sym (same fuel)
    | went_on t a less same ↦
        same more
        ∙ loop-same fuel more t (omega (arith, less)) (omega (arith, less))
        ∙ sym (same fuel)
  ]

-- The loop of `main` ends whatever is typed, on any host and in any state: after more rounds than the
-- input has bytes the shell has been told to exit or the input is used up, and any larger number of
-- rounds gives the same.
pub main_loop-ends :
    (host : Host) (fuel : ℕ) (s : Shell)
    → length s.input < fuel
    → (((main_loop host fuel s).shell_running ≡ false) ⊎ ((main_loop host fuel s).input ≡ []))
      × ((more : ℕ) → length s.input < more → main_loop host more s ≡ main_loop host fuel s)
main_loop-ends host fuel s h =
    (loop-IsEnded host fuel s h, λ more k. loop-same host fuel more s h k)

main-Advance : (host : Host) (s : Shell) → Advance host s (main host s)
unfolding main
main-Advance host s =
    let begun = say welcome s in
    let fuel = suc (length begun.input) in
    Advance-trans (print-Advance s _) (
      Advance-trans (loop-Advance host fuel begun)
        (cleanup-Advance host (main_loop host fuel begun)))

-- From globals that are zero, with no account, no file open and user 0, and on any host, `main` takes
-- the file system through a sequence of calls of the public functions, whatever is typed: it leaves
-- distinct names and uids of active accounts, tables of their sizes, no handle with a reference count
-- above 1, and as current user root, the anonymous user or the owner of an active account.
pub main-IsSound :
    (host : Host) (s : Shell)
    → s.fs.users ≡ replicate max_users zero_user
    → s.fs.open_files ≡ replicate max_open_files zero_handle
    → s.fs.current_user_uid ≡ root_uid
    → Run host s.fs (main host s).fs × IsSound (main host s).fs
main-IsSound host s none_yet none_open root =
    let run = (main-Advance host s).run in
    (run, Run-IsSound host run (zero-IsSound s.fs none_yet none_open root))

logout-anonymous : (s : FsState) → (logout s).1.current_user_uid ≡ anonymous_uid
unfolding logout
logout-anonymous s = elim (Bool-cases (s.current_user_uid == anonymous_uid)) [
  | inl e ↦ rw (e, logout) ((==_iff _ _).0 e)
  | inr e ↦ rw (e, logout) refl
]

disk_close-closed : (host : Host) (d : Disk) → (disk_close host d).1.is_initialized ≡ false
unfolding disk_close
disk_close-closed host d = go d.is_initialized refl
  where
    go :
        (b : Bool)
        → d.is_initialized ≡ b
        → (if◌then◌else◌ {A = DiskStatus × Disk}
            (not b)
            (not_init, d)
            (success, reset (if d.is_dirty then (disk_sync host d).1 else d))).1.is_initialized
          ≡ false
    go true e = refl
    go false e = e

cleanup-closes :
    (host : Host) (s : Shell)
    → (cleanup_and_exit host s).system_initialized ≡ true
    → ((cleanup_and_exit host s).fs.disk.is_initialized ≡ false)
      × ((cleanup_and_exit host s).fs.current_user_uid ≡ anonymous_uid)
unfolding cleanup_and_exit
cleanup-closes host s e = go s.system_initialized refl e
  where
    after : Bool → Shell
    after b = say goodbye (elim b [
      | false ↦ s
      | true ↦
          let t = with_fs (logout s.fs).1 (say cleaning_up s) in
          with_disk (disk_close host t.fs.disk).1 t
    ])

    go :
        (b : Bool)
        → s.system_initialized ≡ b
        → (after b).system_initialized ≡ true
        → ((after b).fs.disk.is_initialized ≡ false)
          × ((after b).fs.current_user_uid ≡ anonymous_uid)
    go false f g = absurd (cc)
    go true f g = (disk_close-closed host (logout s.fs).1.disk, logout-anonymous s.fs)

-- Where `main` ends with an initialised file system, the disk is closed and the anonymous user is the
-- current one, in whatever state it began.
pub main-closes :
    (host : Host) (s : Shell)
    → (main host s).system_initialized ≡ true
    → ((main host s).fs.disk.is_initialized ≡ false)
      × ((main host s).fs.current_user_uid ≡ anonymous_uid)
unfolding main
main-closes host s e =
    let begun = say welcome s in
    cleanup-closes host (main_loop host (suc (length begun.input)) begun) e
