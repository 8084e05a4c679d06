-- ===== src/Users/Accounts/Laws.antt =====
-- What the searches of the user table find, and the login and account creation on top of them.
use caozuokeshe.Base.{
  ℕ, zero, suc, ◌+◌, ◌<◌, ◌≡◌, ◌≢◌, ◌⊎◌, refl, sym, inl, inr, Bool, true, false, none, some, List,
  [], ◌∷◌, arith, length, Bool-cases, Option-cases, get_or, str_eq, str_eq→eq,
}
use caozuokeshe.Fs.State.{FsState, User, zero_user}
use caozuokeshe.Users.Password.{hash_password}
use caozuokeshe.Users.Accounts.{success, find_user, find_user_by_username, has_name, login}

-- What a search finds passes the test, and stands in the table.
pub find_user_sound :
    (test : User → Bool) (users : List User) (i : ℕ) {k : ℕ}
    → find_user test users i ≡ some k
    → (j : ℕ) × (k ≡ i + j) × (j < length users) × (test (get_or users j zero_user) ≡ true)
unfolding find_user
find_user_sound test [] i e = cc
find_user_sound test (u ∷ users) i {k} e = elim (Bool-cases (test u)) [
  | inl t ↦ (0, ground (arith, t, e), omega arith, t)
  | inr f ↦
      let (j, eq, lt, ok) = find_user_sound test users (i + 1) {k = k} (ground (arith, f, e)) in
      (suc j, omega (arith, eq), omega arith, ok)
]

-- Where it finds none, no entry passes.
pub find_user-none :
    (test : User → Bool) (users : List User) (i j : ℕ)
    → find_user test users i ≡ none
    → test zero_user ≡ false
    → test (get_or users j zero_user) ≡ false
unfolding find_user
find_user-none test [] i j e z = z
find_user-none test (u ∷ users) i zero e z = elim (Bool-cases (test u)) [
  | inl t ↦ absurd (ground (arith, t, e))
  | inr f ↦ f
]
find_user-none test (u ∷ users) i (suc j) e z = elim (Bool-cases (test u)) [
  | inl t ↦ absurd (ground (arith, t, e))
  | inr f ↦ find_user-none test users (i + 1) j (ground (arith, f, e)) z
]

-- The entry that a search by name finds is active and has that name.
pub named_sound :
    (users : List User) (name : List ℕ) {k : ℕ}
    → find_user_by_username users name ≡ some k
    → ((get_or users k zero_user).is_active ≡ true)
      × ((get_or users k zero_user).username ≡ name)
      × (k < length users)
unfolding find_user_by_username
named_sound users name {k} e =
    let (j, eq, lt, ok) = find_user_sound (has_name name) users 0 {k = k} e in
    let same : j ≡ k = omega (arith, eq) in
    let u = get_or users j zero_user in
    let both : (u.is_active ≡ true) × (str_eq u.username name ≡ true) = ground (arith, ok) in
    rw (sym same) (both.0, str_eq→eq u.username name both.1, lt)

-- A login that succeeds names an active account, with the hash of its password, and makes it the
-- current user; one that fails changes nothing.
pub login_sound :
    (name password : List ℕ) (s : FsState)
    → let (status, s') = login (some name) (some password) s in
      ((status ≡ success)
        × ((k : ℕ) × (k < length s.users)
            × ((get_or s.users k zero_user).is_active ≡ true)
            × ((get_or s.users k zero_user).username ≡ name)
            × ((get_or s.users k zero_user).password_hash ≡ hash_password password)
            × (s' ≡ record s { current_user_uid = (get_or s.users k zero_user).uid })))
      ⊎ ((status ≢ success) × (s' ≡ s))
unfolding login
login_sound name password s = elim (Option-cases (find_user_by_username s.users name)) [
  | inl e ↦ rw (e, login) (inr (ground arith, refl))
  | inr (k, e) ↦
      let (active, named, lt) = named_sound s.users name {k = k} e in
      let u = get_or s.users k zero_user in
      elim (Bool-cases (str_eq u.password_hash (hash_password password))) [
        | inl h ↦
            rw (e, active, h, login)
              (inl (
                refl,
                (k, lt, active, named, str_eq→eq u.password_hash (hash_password password) h, refl),
              ))
        | inr h ↦ rw (e, active, h, login) (inr (ground arith, refl))
      ]
]
