-- ===== src/Shell/Advance.antt =====
-- What a piece of the shell may do to it, and how such pieces are put together.
pub mod Commands
pub mod Rounds
use mathlib.Core.Path.{subst}
use caozuokeshe.Base.{
  ℕ, ◌≤◌, ◌≡◌, refl, ap, sym, inl, inr, Bool, true, false, List, arith, length, ltb, Bool-cases,
}
use caozuokeshe.Disk.Host.{Host}
use caozuokeshe.Fs.State.{FsState}
use caozuokeshe.System.Steps.{Step, Run, done, next}
use caozuokeshe.Shell.Lines.{Line, Command, usage, init_first}
use caozuokeshe.Shell.State.{
  Shell, Args, say, if_initialized, if_args, checked, if_initialized-on, if_initialized-off,
  if_args-few, if_args-enough,
}

-- The file system makes a run of calls, no input is added, and an initialised shell stays one.
pub record Advance (host : Host) (s t : Shell) : Type 0 where
  pub run : Run host s.fs t.fs
  pub shorter : length t.input ≤ length s.input
  pub stays : s.system_initialized ≡ true → t.system_initialized ≡ true

Run-trans : {host : Host} {s t u : FsState} → Run host s t → Run host t u → Run host s u
Run-trans r done = r
Run-trans r (next r' step) = next (Run-trans r r') step

module _ {host : Host} where
  pub Advance-trans : {s t u : Shell} → Advance host s t → Advance host t u → Advance host s u
  Advance-trans a b = record {
    run = Run-trans a.run b.run;
    shorter = omega (arith, a.shorter, b.shorter);
    stays = λ e. b.stays (a.stays e);
  }

  -- One call, or printing alone.
  pub one_call-Advance :
      {s t : Shell}
      → Step host s.fs t.fs
      → t.input ≡ s.input
      → t.system_initialized ≡ s.system_initialized
      → Advance host s t
  one_call-Advance {s} {t} step same flag = record {
    run = next done step;
    shorter = omega (arith, ap length same);
    stays = λ e. rw flag e;
  }

  pub print-Advance : (s : Shell) (lines : List Line) → Advance host s (record s { output = lines })
  print-Advance s lines = record { run = done; shorter = omega arith; stays = λ e. e }

  pub still-Advance :
      {s t : Shell}
      → s.fs ≡ t.fs
      → t.input ≡ s.input
      → t.system_initialized ≡ s.system_initialized
      → Advance host s t
  still-Advance {s} {t} still same flag = record {
    run = subst (Run host s.fs) still done;
    shorter = omega (arith, ap length same);
    stays = λ e. rw flag e;
  }

  pub if_initialized-Advance :
      (refusal : Line) (body : Shell → Shell) (s : Shell)
      → Advance host s (body s)
      → Advance host s (if_initialized refusal body s)
  if_initialized-Advance refusal body s a = elim (Bool-cases s.system_initialized) [
    | inl e ↦ subst (Advance host s) (sym (if_initialized-on refusal body s e)) a
    | inr e ↦ subst (Advance host s) (sym (if_initialized-off refusal body s e)) (print-Advance s _)
  ]

  pub if_args-Advance :
      (command : Command) (least : ℕ) (args : Args) (body : Shell → Shell) (s : Shell)
      → Advance host s (body s)
      → Advance host s (if_args command least args body s)
  if_args-Advance command least args body s a = elim (Bool-cases (ltb (length args) least)) [
    | inl e ↦
        subst (Advance host s) (sym (if_args-few command least args body s e)) (print-Advance s _)
    | inr e ↦ subst (Advance host s) (sym (if_args-enough command least args body s e)) a
  ]

  pub checked-Advance :
      (command : Command) (least : ℕ) (args : Args) (body : Shell → Shell) (s : Shell)
      → Advance host s (body s)
      → Advance host s (checked command least args body s)
  unfolding checked
  checked-Advance command least args body s a =
      if_initialized-Advance init_first (if_args command least args body) s
        (if_args-Advance command least args body s a)
