-- ===== src/Users/Accounts/Roots.antt =====
-- The uid 0 among the accounts.
use caozuokeshe.Base.{
  get_or-replicate, ℕ, zero, suc, ◌≡◌, ◌≢◌, ap, inl, inr, true, Option, none, some, List, [], ◌∷◌,
  arith, length, leb, Bool-cases, Option-cases, ◌==◌, get_or, set, replicate,
}
use caozuokeshe.Disk.Host.{Host}
use caozuokeshe.Fs.State.{FsState, User, zero_user, max_users}
use caozuokeshe.Users.Permission.{root_uid}
use caozuokeshe.Users.Accounts.{
  UserStatus, success, find_user_by_username, find_user_by_uid, find_free_user_slot,
  get_next_available_uid, create_in_slot, create_user, user_manager_init, anonymous_uid, root_gid,
  root_name, root_password, anonymous_name,
}

-- No active account has the uid 0.
abbrev pub HasNoRoot : List User → Type 0
HasNoRoot users =
    (i : ℕ) → (get_or users i zero_user).is_active ≡ true → (get_or users i zero_user).uid ≢ 0

set-HasNoRoot :
    (users : List User) (slot : ℕ) (new : User)
    → new.uid ≢ 0
    → HasNoRoot users
    → HasNoRoot (set users slot new)
set-HasNoRoot [] slot new ne h i a = h i a
set-HasNoRoot (u ∷ users) zero new ne h zero a = ne
set-HasNoRoot (u ∷ users) zero new ne h (suc i) a = h (suc i) a
set-HasNoRoot (u ∷ users) (suc slot) new ne h zero a = h zero a
set-HasNoRoot (u ∷ users) (suc slot) new ne h (suc i) a =
    set-HasNoRoot users slot new ne (λ j. h (suc j)) i a

create_in_slot-HasNoRoot :
    (host : Host) (name : List ℕ) (password : Option (List ℕ)) (uid gid : ℕ) (s : FsState)
    → uid ≢ 0
    → HasNoRoot s.users
    → HasNoRoot (create_in_slot host name password uid gid s).1.users
unfolding create_in_slot
create_in_slot-HasNoRoot host name password uid gid s ne h =
    elim (Option-cases (find_free_user_slot s.users)) [
      | inl e ↦ rw (e, create_in_slot) h
      | inr (slot, e) ↦ rw (e, create_in_slot) (set-HasNoRoot s.users slot _ ne h)
    ]

-- `user_manager_create_user` takes uid 0 for a request to choose one.
pub create_user-HasNoRoot :
    (host : Host) (username password : Option (List ℕ)) (uid gid : ℕ) (s : FsState)
    → HasNoRoot s.users
    → HasNoRoot (create_user host username password uid gid s).1.users
unfolding create_user
create_user-HasNoRoot host none password uid gid s h = h
create_user-HasNoRoot host (some name) password uid gid s h = elim (Bool-cases (length name == 0)) [
  | inl e ↦ rw (e, create_user) h
  | inr e ↦ elim (Bool-cases (leb 32 (length name))) [
    | inl f ↦ rw (e, f, create_user) h
    | inr f ↦ elim (Option-cases (find_user_by_username s.users name)) [
      | inr (k, g) ↦ rw (e, f, g, create_user) h
      | inl g ↦ elim (Bool-cases (uid == 0)) [
        | inl z ↦ elim (Bool-cases (get_next_available_uid s.users == 0)) [
          | inl w ↦ rw (e, f, g, z, w, create_user) h
          | inr w ↦
              rw (e, f, g, z, w, create_user)
                (create_in_slot-HasNoRoot host name password (get_next_available_uid s.users) gid s
                  (λ n. absurd (ground (arith, n, w))) h)
        ]
        | inr z ↦ elim (Option-cases (find_user_by_uid s.users uid)) [
          | inr (k, w) ↦ rw (e, f, g, z, w, create_user) h
          | inl w ↦
              rw (e, f, g, z, w, create_user)
                (create_in_slot-HasNoRoot host name password uid gid s
                  (λ n. absurd (ground (arith, n, z))) h)
        ]
      ]
    ]
  ]
]

pub blank-HasNoRoot : HasNoRoot (replicate max_users zero_user)
blank-HasNoRoot i a =
    absurd (ground (arith, a, ap User.is_active (get_or-replicate max_users i zero_user)))

pub user_manager_init-HasNoRoot :
    (host : Host) (s : FsState) → HasNoRoot (user_manager_init host s).1.users
unfolding user_manager_init
user_manager_init-HasNoRoot host s =
    let blank = record s { users = replicate max_users zero_user } in
    let (status, s') =
      create_user host (some root_name) (some root_password) root_uid root_gid blank in
    let one : HasNoRoot s'.users =
      create_user-HasNoRoot host (some root_name) (some root_password) root_uid root_gid blank
        blank-HasNoRoot in
    let (status', s'') =
      create_user host (some anonymous_name) (some []) anonymous_uid anonymous_uid s' in
    let two : HasNoRoot s''.users =
      create_user-HasNoRoot host (some anonymous_name) (some []) anonymous_uid anonymous_uid s'
        one in
    both status status' s' s'' one two
  where
    both :
        (status status' : UserStatus) (s' s'' : FsState)
        → HasNoRoot s'.users
        → HasNoRoot s''.users
        → HasNoRoot
            (elim status as (λ u. UserStatus × FsState) [
              | success ↦ elim status' as (λ u. UserStatus × FsState) [
                | success ↦ (success, record s'' { current_user_uid = root_uid })
                | other ↦ (other, s'')
              ]
              | other ↦ (other, s')
            ]).1.users
    both success success s' s'' one two = two
    both success _ s' s'' one two = two
    both _ status' s' s'' one two = one
