-- ===== src/Tests/Systems.antt =====
-- Runs of the program at concrete inputs.
use caozuokeshe.Base.{◌≡◌, refl, some, [], ◌∷◌}
use caozuokeshe.Fs.State.{FsState}
use caozuokeshe.Fs.Files.{fs_create, fs_open}
use caozuokeshe.Users.Accounts.{user_manager_init, login, logout, anonymous_name}
use caozuokeshe.System.Steps.{file, opened, created, logged_in, logged_out, Run, done, next}
use caozuokeshe.System.Invariant.{IsSound}
use caozuokeshe.System.Reachable.{Run-IsSound_init, FileStep-accounts}
use caozuokeshe.Tests.Data.{good, state16}

abbrev begun : FsState
begun = (user_manager_init good state16).1

abbrev made : FsState
made = (fs_create good (some (b'/' ∷ b'a' ∷ [])) begun).1

abbrev left : FsState
left = (logout made).1

abbrev back : FsState
back = (login (some anonymous_name) (some []) left).1

four_calls : Run good begun (fs_open good (some (b'/' ∷ b'a' ∷ [])) back).1
four_calls =
    next {s = begun} {t = back}
      (next {s = begun} {t = left}
        (next {s = begun} {t = made}
          (next {s = begun} {t = begun} done (file (created begun (some (b'/' ∷ b'a' ∷ [])))))
          (logged_out made))
        (logged_in left (some anonymous_name) (some [])))
      (file (opened back (some (b'/' ∷ b'a' ∷ []))))

Run-IsSound_init_example : IsSound (fs_open good (some (b'/' ∷ b'a' ∷ [])) back).1
Run-IsSound_init_example =
    Run-IsSound_init good state16 (fs_open good (some (b'/' ∷ b'a' ∷ [])) back).1 refl refl
      four_calls

FileStep-accounts_example :
    ((fs_create good (some (b'/' ∷ b'a' ∷ [])) begun).1.users ≡ begun.users)
    × ((fs_create good (some (b'/' ∷ b'a' ∷ [])) begun).1.current_user_uid ≡ begun.current_user_uid)
FileStep-accounts_example =
    FileStep-accounts good begun (fs_create good (some (b'/' ∷ b'a' ∷ [])) begun).1
      (created begun (some (b'/' ∷ b'a' ∷ [])))
