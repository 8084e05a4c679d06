-- ===== src/Tests/Accounts.antt =====
-- The user table at concrete inputs.
use caozuokeshe.Fs.State.{User, zero_user, max_users}
use caozuokeshe.Users.Password.{hash_password}
use caozuokeshe.Users.Permission.{check_permission_detailed}
use caozuokeshe.Base.{
  ℕ, ◌≡◌, ◌≢◌, ◌<◌, ◌⊎◌, ◌∙◌, sym, ap, true, false, none, some, [], length, replicate, get_or,
  get_or-replicate, arith, ◌+◌, ◌*◌, ◌||◌, ◌==◌,
}
use caozuokeshe.Base.Bits.{test_bit}
use caozuokeshe.Users.Permission.Digits.{class_of, owner_bit, check_permission_detailed-eq-test_bit}
use caozuokeshe.Users.Accounts.{
  success, wrong_password, user_manager_init, login, check_permission, find_user_by_uid, root_name,
  root_password, anonymous_name,
}
use caozuokeshe.Users.Accounts.Initial.{check_permission-user_manager_init, login-anonymous}
use caozuokeshe.Users.Accounts.Laws.{login_sound}
use caozuokeshe.Users.Accounts.Distinct.{IsDistinct}
use caozuokeshe.Tests.Data.{good, state16, small_inode}

check_permission-user_manager_init_example :
    let (status, s') = user_manager_init good state16 in
    (status ≡ success)
    × (s'.current_user_uid ≡ 0)
    × (find_user_by_uid s'.users 0 ≡ none)
    × (check_permission s' small_inode 0o400 ≡ false)
check_permission-user_manager_init_example =
    check_permission-user_manager_init good state16 small_inode 0o400

login-anonymous_example :
    let s' = (user_manager_init good state16).1 in
    login (some anonymous_name) (some []) s' ≡ (wrong_password, s')
login-anonymous_example = login-anonymous good state16 []

login_sound_example :
    let (status, s') = login (some root_name) (some root_password) state16 in
    ((status ≡ success)
      × ((k : ℕ) × (k < length state16.users)
          × ((get_or state16.users k zero_user).is_active ≡ true)
          × ((get_or state16.users k zero_user).username ≡ root_name)
          × ((get_or state16.users k zero_user).password_hash ≡ hash_password root_password)
          × (s' ≡ record state16 { current_user_uid = (get_or state16.users k zero_user).uid })))
    ⊎ ((status ≢ success) × (s' ≡ state16))
login_sound_example = login_sound root_name root_password state16

no_users-IsDistinct : IsDistinct (replicate max_users zero_user)
no_users-IsDistinct = record {
  names = λ i j a b e. absurd (idle i a);
  uids = λ i j a b e. absurd (idle i a);
}
  where
    idle : (i : ℕ) → (get_or (replicate max_users zero_user) i zero_user).is_active ≡ true → ⊥
    idle i a =
        let e : false ≡ true =
          sym (ap User.is_active (get_or-replicate {A = User} max_users i zero_user)) ∙ a in
        absurd (cc)

-- A member of the file's group asks to write.
check_permission_detailed-eq-test_bit_example :
    check_permission_detailed 7 1000 1000 1000 0o640 (owner_bit 1)
    ≡ ((7 == 0) || test_bit 0o640 (1 + 3 * class_of 7 1000 1000 1000))
check_permission_detailed-eq-test_bit_example =
    check_permission_detailed-eq-test_bit 7 1000 1000 1000 0o640 1 (omega arith) (omega arith)
