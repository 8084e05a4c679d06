-- ===== src/Shell/State.antt =====
-- The state of the shell, and what its handlers have in common.
use caozuokeshe.Base.{ℕ, Bool, true, false, List, [], ◌∷◌, ◌++◌, length, ltb, ap, ◌≡◌}
use caozuokeshe.Disk.Block.{Disk}
use caozuokeshe.Fs.State.{FsState}
use caozuokeshe.Shell.Lines.{Line, Command, usage, init_first}

-- `shell_running` and `system_initialized`, the state of the file system, and the two streams: what
-- is still to be read, and what has been printed.
pub record Shell : Type 0 where
  pub fs : FsState
  pub shell_running : Bool
  pub system_initialized : Bool
  pub input : List ℕ
  pub output : List Line

-- `printf`
abbrev pub say : Line → Shell → Shell
say line s = record s { output = s.output ++ line ∷ [] }

abbrev pub say_all : List Line → Shell → Shell
say_all lines s = record s { output = s.output ++ lines }

-- A call that leaves the file system in a new state.
abbrev pub with_fs : FsState → Shell → Shell
with_fs fs' s = record s { fs = fs' }

abbrev pub with_disk : Disk → Shell → Shell
with_disk d s = record s { fs = record (s.fs) { disk = d } }

abbrev pub with_input : List ℕ → Shell → Shell
with_input rest s = record s { input = rest }

abbrev pub Args : Type 0
Args = List (List ℕ)

-- `if (!system_initialized)`, which all handlers but four begin with, with the message that it prints.
unfoldable pub if_initialized : Line → (Shell → Shell) → Shell → Shell
if_initialized refusal body s = elim s.system_initialized [ false ↦ say refusal s | true ↦ body s ]

-- The check of `argc` that follows.
unfoldable pub if_args : Command → (least : ℕ) → Args → (Shell → Shell) → Shell → Shell
if_args command least args body s = elim (ltb (length args) least) [
  | true ↦ say (usage command) s
  | false ↦ body s
]

-- Both.
unfoldable pub checked : Command → (least : ℕ) → Args → (Shell → Shell) → Shell → Shell
unfolding if_initialized if_args
checked command least args body s = if_initialized init_first (if_args command least args body) s

module _ (refusal : Line) (body : Shell → Shell) (s : Shell) where
  pub if_initialized-on : s.system_initialized ≡ true → if_initialized refusal body s ≡ body s
  unfolding if_initialized
  if_initialized-on e = ap (λ b. elim b [ false ↦ say refusal s | true ↦ body s ]) e

  pub if_initialized-off :
      s.system_initialized ≡ false → if_initialized refusal body s ≡ say refusal s
  unfolding if_initialized
  if_initialized-off e = ap (λ b. elim b [ false ↦ say refusal s | true ↦ body s ]) e

module _ (command : Command) (least : ℕ) (args : Args) (body : Shell → Shell) (s : Shell) where
  pub if_args-few :
      ltb (length args) least ≡ true → if_args command least args body s ≡ say (usage command) s
  unfolding if_args
  if_args-few e = ap (λ b. elim b [ true ↦ say (usage command) s | false ↦ body s ]) e

  pub if_args-enough : ltb (length args) least ≡ false → if_args command least args body s ≡ body s
  unfolding if_args
  if_args-enough e = ap (λ b. elim b [ true ↦ say (usage command) s | false ↦ body s ]) e
