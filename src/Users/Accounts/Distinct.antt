-- ===== src/Users/Accounts/Distinct.antt =====
-- About creating accounts beside those that are there.
use caozuokeshe.Base.{
  ℕ, zero, suc, ◌+◌, ◌-◌, ◌<◌, ◌≤◌, ◌≡◌, ◌≢◌, refl, sym, ap, ◌∙◌, inl, inr, true, false, not,
  Option, none, some, List, [], ◌∷◌, arith, length, leb, ◌==◌, ==_iff, Bool-cases, Option-cases,
  set, get_or, get_or-set_self, get_or-set_ne, take, str_eq, str_eq_refl,
}
use caozuokeshe.Disk.Host.{Host}
use caozuokeshe.Fs.State.{FsState, User, zero_user}
use caozuokeshe.Users.Accounts.{
  find_user_by_username, find_user_by_uid, find_free_user_slot, has_name, has_uid, next_uid,
  get_next_available_uid, create_in_slot, create_user, anonymous_uid, default_uid,
}
use caozuokeshe.Users.Accounts.Laws.{find_user_sound, find_user-none}

-- No two active accounts share a name or a uid.
pub record IsDistinct (users : List User) : Type 0 where
  pub names :
      (i j : ℕ)
      → (get_or users i zero_user).is_active ≡ true
      → (get_or users j zero_user).is_active ≡ true
      → (get_or users i zero_user).username ≡ (get_or users j zero_user).username
      → i ≡ j
  pub uids :
      (i j : ℕ)
      → (get_or users i zero_user).is_active ≡ true
      → (get_or users j zero_user).is_active ≡ true
      → (get_or users i zero_user).uid ≡ (get_or users j zero_user).uid
      → i ≡ j

unnamed :
    (users : List User) (name : List ℕ) (j : ℕ)
    → find_user_by_username users name ≡ none
    → (get_or users j zero_user).is_active ≡ true
    → (get_or users j zero_user).username ≢ name
unfolding find_user_by_username
unnamed users name j e active same =
    let no = find_user-none (has_name name) users 0 j e refl in
    let yes : str_eq (get_or users j zero_user).username name ≡ true = rw same (str_eq_refl name) in
    absurd (ground (arith, no, yes, active))

unnumbered :
    (users : List User) (uid j : ℕ)
    → find_user_by_uid users uid ≡ none
    → (get_or users j zero_user).is_active ≡ true
    → (get_or users j zero_user).uid ≢ uid
unfolding find_user_by_uid
unnumbered users uid j e active same =
    let no = find_user-none (has_uid uid) users 0 j e refl in
    absurd (ground (arith, no, active, same))

-- A uid that `get_next_available_uid` gives is no active account's.
next_uid-fresh :
    (users : List User) (rounds uid : ℕ)
    → next_uid users rounds uid ≢ 0
    → find_user_by_uid users (next_uid users rounds uid) ≡ none
unfolding next_uid
next_uid-fresh users zero uid h = absurd (h refl)
next_uid-fresh users (suc rounds) uid h = elim (Option-cases (find_user_by_uid users uid)) [
  | inl e ↦ rw (e, next_uid) e
  | inr (k, e) ↦
      let same : next_uid users (suc rounds) uid ≡ next_uid users rounds (uid + 1) =
        rw (e, next_uid) refl in
      rw same (next_uid-fresh users rounds (uid + 1) (λ z. h (same ∙ z)))
]

-- A new account in a slot keeps the table distinct if no active account has its name or its uid.
set-IsDistinct :
    (users : List User) (slot : ℕ) (new : User)
    → IsDistinct users
    → slot < length users
    → ((j : ℕ)
        → (get_or users j zero_user).is_active ≡ true
        → (get_or users j zero_user).username ≢ new.username)
    → ((j : ℕ)
        → (get_or users j zero_user).is_active ≡ true
        → (get_or users j zero_user).uid ≢ new.uid)
    → IsDistinct (set users slot new)
set-IsDistinct users slot new d lt fresh_name fresh_uid = record {
  names = λ i j. one-sided User.username d.names fresh_name i j;
  uids = λ i j. one-sided User.uid d.uids fresh_uid i j;
}
  where
    one-sided :
        {A : Type 0} (key : User → A)
        → ((i j : ℕ)
            → (get_or users i zero_user).is_active ≡ true
            → (get_or users j zero_user).is_active ≡ true
            → key (get_or users i zero_user) ≡ key (get_or users j zero_user)
            → i ≡ j)
        → ((j : ℕ)
            → (get_or users j zero_user).is_active ≡ true
            → key (get_or users j zero_user) ≢ key new)
        → (i j : ℕ) → (get_or (set users slot new) i zero_user).is_active ≡ true
        → (get_or (set users slot new) j zero_user).is_active ≡ true
        → key (get_or (set users slot new) i zero_user)
          ≡ key (get_or (set users slot new) j zero_user)
        → i ≡ j
    one-sided key old fresh i j ai aj e = elim (Bool-cases (slot == i)) [
      | inl p ↦ elim (Bool-cases (slot == j)) [
        | inl q ↦ sym ((==_iff slot i).0 p) ∙ (==_iff slot j).0 q
        | inr q ↦
            let stays =
              get_or-set_ne users slot j new zero_user (λ z. absurd (ground (arith, z, q))) in
            let here : get_or (set users slot new) i zero_user ≡ new =
              ap (λ k. get_or (set users slot new) k zero_user) (sym ((==_iff slot i).0 p))
              ∙ get_or-set_self users slot new zero_user lt in
            absurd (
              fresh j (sym (ap User.is_active stays) ∙ aj)
                (sym (ap key stays) ∙ sym e ∙ ap key here))
      ]
      | inr p ↦
          let stays =
            get_or-set_ne users slot i new zero_user (λ z. absurd (ground (arith, z, p))) in
          elim (Bool-cases (slot == j)) [
            | inl q ↦
                let here : get_or (set users slot new) j zero_user ≡ new =
                  ap (λ k. get_or (set users slot new) k zero_user) (sym ((==_iff slot j).0 q))
                  ∙ get_or-set_self users slot new zero_user lt in
                absurd (
                  fresh i (sym (ap User.is_active stays) ∙ ai)
                    (sym (ap key stays) ∙ e ∙ ap key here))
            | inr q ↦
                let stays' =
                  get_or-set_ne users slot j new zero_user (λ z. absurd (ground (arith, z, q))) in
                old i j (sym (ap User.is_active stays) ∙ ai) (sym (ap User.is_active stays') ∙ aj)
                  (sym (ap key stays) ∙ e ∙ ap key stays')
          ]
    ]

free_slot-lt :
    (users : List User) {slot : ℕ} → find_free_user_slot users ≡ some slot → slot < length users
unfolding find_free_user_slot
free_slot-lt users {slot} e =
    let (j, eq, lt, ok) = find_user_sound (λ u. not u.is_active) users 0 {k = slot} e in
    omega (arith, eq)

create_in_slot-IsDistinct :
    (host : Host) (name : List ℕ) (password : Option (List ℕ)) (uid gid : ℕ) (s : FsState)
    → IsDistinct s.users
    → length name < 32
    → find_user_by_username s.users name ≡ none
    → find_user_by_uid s.users uid ≡ none
    → IsDistinct (create_in_slot host name password uid gid s).1.users
unfolding create_in_slot
create_in_slot-IsDistinct host name password uid gid s d short no_name no_uid =
    elim (Option-cases (find_free_user_slot s.users)) [
      | inl e ↦ rw (e, create_in_slot) d
      | inr (slot, e) ↦
          let whole : take 31 name ≡ name = take_short 31 name (omega arith) in
          rw (e, create_in_slot)
            (set-IsDistinct s.users slot _ d (free_slot-lt s.users {slot = slot} e)
              (λ j a z. unnamed s.users name j no_name a (z ∙ whole))
              (λ j a z. unnumbered s.users uid j no_uid a z))
    ]
  where
    take_short : (n : ℕ) (xs : List ℕ) → length xs ≤ n → take n xs ≡ xs
    take_short zero [] h = refl
    take_short zero (x ∷ xs) h = absurd (omega arith)
    take_short (suc n) [] h = refl
    take_short (suc n) (x ∷ xs) h = ap (λ t. x ∷ t) (take_short n xs (omega arith))

available-fresh :
    (users : List User)
    → (get_next_available_uid users == 0) ≡ false
    → find_user_by_uid users (get_next_available_uid users) ≡ none
unfolding get_next_available_uid
available-fresh users z =
    next_uid-fresh users (anonymous_uid - default_uid) default_uid
      (λ e. absurd (ground (arith, e, z)))

-- `user_manager_create_user`, whatever it is called with and whether or not it succeeds, keeps the
-- names and the uids of the active accounts distinct.
pub create_user-IsDistinct :
    (host : Host) (username password : Option (List ℕ)) (uid gid : ℕ) (s : FsState)
    → IsDistinct s.users
    → IsDistinct (create_user host username password uid gid s).1.users
unfolding create_user
create_user-IsDistinct host none password uid gid s d = d
create_user-IsDistinct host (some name) password uid gid s d =
    elim (Bool-cases (length name == 0)) [
      | inl e ↦ rw (e, create_user) d
      | inr e ↦ elim (Bool-cases (leb 32 (length name))) [
        | inl f ↦ rw (e, f, create_user) d
        | inr f ↦ elim (Option-cases (find_user_by_username s.users name)) [
          | inr (k, g) ↦ rw (e, f, g, create_user) d
          | inl g ↦
              let short : length name < 32 = ground (arith, f) in
              elim (Bool-cases (uid == 0)) [
                | inl h ↦ elim (Bool-cases (get_next_available_uid s.users == 0)) [
                  | inl z ↦ rw (e, f, g, h, z, create_user) d
                  | inr z ↦
                      rw (e, f, g, h, z, create_user)
                        (create_in_slot-IsDistinct host name password
                          (get_next_available_uid s.users) gid s d short g
                          (available-fresh s.users z))
                ]
                | inr h ↦ elim (Option-cases (find_user_by_uid s.users uid)) [
                  | inr (k, z) ↦ rw (e, f, g, h, z, create_user) d
                  | inl z ↦
                      rw (e, f, g, h, z, create_user)
                        (create_in_slot-IsDistinct host name password uid gid s d short g z)
                ]
              ]
        ]
      ]
    ]
