-- ===== src/Users/Accounts/Added.antt =====
-- What `user_manager_create_user` may do to the table: nothing, or a record in a free slot.
use caozuokeshe.Base.{
  ℕ, ◌≡◌, inl, inr, Option, none, some, Option-cases, List, length, leb, ◌==◌, Bool-cases, set,
}
use caozuokeshe.Disk.Host.{Host}
use caozuokeshe.Disk.Block.{Disk}
use caozuokeshe.Fs.State.{FsState, User}
use caozuokeshe.Users.Accounts.{
  find_user_by_username, find_user_by_uid, find_free_user_slot, get_next_available_uid,
  create_in_slot, create_user,
}

pub data Added (s : FsState) : FsState → Type 0 where
  unchanged : Added s s
  added :
      (slot : ℕ) (new : User) (d : Disk)
      → find_free_user_slot s.users ≡ some slot
      → Added s (record s { users = set s.users slot new; disk = d })

create_in_slot-Added :
    (host : Host) (name : List ℕ) (password : Option (List ℕ)) (uid gid : ℕ) (s : FsState)
    → Added s (create_in_slot host name password uid gid s).1
unfolding create_in_slot
create_in_slot-Added host name password uid gid s =
    elim (Option-cases (find_free_user_slot s.users)) [
      | inl e ↦ rw (e, create_in_slot) unchanged
      | inr (slot, e) ↦ rw (e, create_in_slot) (added slot _ _ e)
    ]

pub create_user-Added :
    (host : Host) (username password : Option (List ℕ)) (uid gid : ℕ) (s : FsState)
    → Added s (create_user host username password uid gid s).1
unfolding create_user
create_user-Added host none password uid gid s = unchanged
create_user-Added host (some name) password uid gid s = elim (Bool-cases (length name == 0)) [
  | inl e ↦ rw (e, create_user) unchanged
  | inr e ↦ elim (Bool-cases (leb 32 (length name))) [
    | inl f ↦ rw (e, f, create_user) unchanged
    | inr f ↦ elim (Option-cases (find_user_by_username s.users name)) [
      | inr (k, g) ↦ rw (e, f, g, create_user) unchanged
      | inl g ↦ elim (Bool-cases (uid == 0)) [
        | inl h ↦ elim (Bool-cases (get_next_available_uid s.users == 0)) [
          | inl z ↦ rw (e, f, g, h, z, create_user) unchanged
          | inr z ↦
              rw (e, f, g, h, z, create_user)
                (create_in_slot-Added host name password (get_next_available_uid s.users) gid s)
        ]
        | inr h ↦ elim (Option-cases (find_user_by_uid s.users uid)) [
          | inr (k, z) ↦ rw (e, f, g, h, z, create_user) unchanged
          | inl z ↦
              rw (e, f, g, h, z, create_user) (create_in_slot-Added host name password uid gid s)
        ]
      ]
    ]
  ]
]
