-- ===== src/System/Privilege.antt =====
-- Who may be root.
use mathlib.Core.Path.{subst}
use caozuokeshe.Base.{
  ℕ, ◌≡◌, ◌≢◌, refl, ap, sym, ◌∙◌, inl, inr, Option, none, some, List, ==_iff, Bool-cases, ◌==◌,
  replicate,
}
use caozuokeshe.Disk.Host.{Host}
use caozuokeshe.Fs.State.{FsState, zero_user, max_users}
use caozuokeshe.Users.Permission.{root_uid}
use caozuokeshe.Users.Accounts.{success, permission, login, logout, anonymous_uid}
use caozuokeshe.Users.Accounts.Laws.{login_sound}
use caozuokeshe.Users.Accounts.Roots.{
  HasNoRoot, create_user-HasNoRoot, blank-HasNoRoot, user_manager_init-HasNoRoot,
}
use caozuokeshe.Users.Owner.{chown}
use caozuokeshe.System.Steps.{
  Step, file, account_added, logged_in, logged_out, accounts_reset, Run, done, next,
}
use caozuokeshe.System.Reachable.{FileStep-accounts}

login-users :
    (username password : Option (List ℕ)) (s : FsState)
    → (login username password s).1.users ≡ s.users
unfolding login
login-users none password s = refl
login-users (some name) none s = refl
login-users (some name) (some password) s = elim (login_sound name password s) [
  | inl (ok, (k, lt, active, named, hash, e)) ↦ ap FsState.users e
  | inr (failed, e) ↦ ap FsState.users e
]

logout-users : (s : FsState) → (logout s).1.users ≡ s.users
unfolding logout
logout-users s = elim (Bool-cases (s.current_user_uid == anonymous_uid)) [
  | inl e ↦ rw (e, logout) refl
  | inr e ↦ rw (e, logout) refl
]

Step-HasNoRoot :
    (host : Host) {s t : FsState} → Step host s t → HasNoRoot s.users → HasNoRoot t.users
Step-HasNoRoot host (file {s} {t} f) h = subst HasNoRoot (sym (FileStep-accounts host s t f).0) h
Step-HasNoRoot host (account_added s username password uid gid) h =
    create_user-HasNoRoot host username password uid gid s h
Step-HasNoRoot host (logged_in s username password) h =
    subst HasNoRoot (sym (login-users username password s)) h
Step-HasNoRoot host (logged_out s) h = subst HasNoRoot (sym (logout-users s)) h
Step-HasNoRoot host (accounts_reset s) h = user_manager_init-HasNoRoot host s

Run-HasNoRoot : (host : Host) {s t : FsState} → Run host s t → HasNoRoot s.users → HasNoRoot t.users
Run-HasNoRoot host done h = h
Run-HasNoRoot host (next r step) h = Step-HasNoRoot host step (Run-HasNoRoot host r h)

-- Whoever logs in is not root.
login-not_root :
    (name password : List ℕ) (s : FsState)
    → HasNoRoot s.users
    → (login (some name) (some password) s).0 ≡ success
    → (login (some name) (some password) s).1.current_user_uid ≢ root_uid
login-not_root name password s h e = elim (login_sound name password s) [
  | inl (ok, (k, lt, active, named, hash, f)) ↦
      λ z. absurd (h k active (sym (ap FsState.current_user_uid f) ∙ z))
  | inr (failed, f) ↦ absurd (failed e)
]

chown-refused :
    (host : Host) (n uid gid : ℕ) (s : FsState)
    → s.current_user_uid ≢ root_uid
    → chown host n uid gid s ≡ (permission, s)
unfolding chown
chown-refused host n uid gid s ne = elim (Bool-cases (s.current_user_uid == root_uid)) [
  | inl e ↦ absurd (ne ((==_iff _ _).0 e))
  | inr e ↦ rw (e, chown) refl
]

-- From a table with no account, after any sequence of calls of the functions of fs_ops.h, file_ops.h and
-- user_manager.h that change the global state, `user_manager_init` among them, and of changes of the
-- disk, with any arguments and on any host: a login that succeeds never makes root the current user, and
-- `user_manager_chown` is then refused for every file, user and group and changes nothing.
pub chown-login :
    (host : Host) (s t : FsState) (name password : List ℕ) (inode_number uid gid : ℕ)
    → s.users ≡ replicate max_users zero_user
    → Run host s t
    → (login (some name) (some password) t).0 ≡ success
    → let t' = (login (some name) (some password) t).1 in
      (t'.current_user_uid ≢ root_uid) × (chown host inode_number uid gid t' ≡ (permission, t'))
chown-login host s t name password n uid gid none_yet run ok =
    let h = Run-HasNoRoot host run (subst HasNoRoot (sym none_yet) blank-HasNoRoot) in
    let ne = login-not_root name password t h ok in
    (ne, chown-refused host n uid gid (login (some name) (some password) t).1 ne)
