-- ===== src/Users/Permission.antt =====
-- `user_manager_check_permission_detailed`, `user_manager_permissions_to_string`, and the inline
-- `fs_check_permission_internal` of fs.h.
pub mod Laws
pub mod Digits
use caozuokeshe.Base.{
  ℕ, ◌+◌, ◌/◌, ◌%◌, ◌^◌, ◌<◌, ◌≡◌, ◌≢◌, ◌⊎◌, inl, inr, refl, Bool, true, false, not, ◌||◌, List, [],
  ◌∷◌, ◌==◌, if◌then◌else◌, bit_and, arith, Bool-cases,
}

abbrev pub root_uid : ℕ
root_uid = 0

abbrev pub perm_owner_read : ℕ
perm_owner_read = 0o400

abbrev pub perm_owner_write : ℕ
perm_owner_write = 0o200

-- `user_manager_is_root`
abbrev pub is_root : ℕ → Bool
is_root uid = uid == root_uid

-- The three `switch` statements, one for each class of user: the read, write or execute bit of the
-- class, whichever class's bit is asked for, and any other value as it is.
unfoldable pub class_perm : (read write exec required : ℕ) → ℕ
class_perm read write exec required =
    if (required == 0o400) || ((required == 0o040) || (required == 0o004))
    then read
    else if (required == 0o200) || ((required == 0o020) || (required == 0o002))
    then write
    else if (required == 0o100) || ((required == 0o010) || (required == 0o001))
    then exec
    else required

-- `user_manager_check_permission_detailed`
unfoldable pub check_permission_detailed :
    (user_uid user_gid file_uid file_gid file_permissions required : ℕ) → Bool
unfolding class_perm
check_permission_detailed user_uid user_gid file_uid file_gid file_permissions required =
    if is_root user_uid
    then true
    else not (
        bit_and file_permissions (
          if user_uid == file_uid
          then class_perm 0o400 0o200 0o100 required
          else if user_gid == file_gid
          then class_perm 0o040 0o020 0o010 required
          else class_perm 0o004 0o002 0o001 required)
        == 0)

-- `fs_check_permission_internal`
unfoldable pub check_permission_internal :
    (file_perms user_uid user_gid file_uid file_gid required : ℕ) → Bool
check_permission_internal file_perms user_uid user_gid file_uid file_gid required =
    if user_uid == 0
    then true
    else if user_uid == file_uid
    then not (bit_and file_perms required == 0)
    else if user_gid == file_gid
    then not (bit_and file_perms (required / 2 ^ 3) == 0)
    else not (bit_and file_perms (required / 2 ^ 6) == 0)

-- `(permissions & bit) ? c : '-'`
abbrev letter : (permissions bit c : ℕ) → ℕ
letter permissions bit c = if bit_and permissions bit == 0 then b'-' else c

-- `user_manager_permissions_to_string`
unfoldable pub permissions_to_string : ℕ → List ℕ
permissions_to_string p =
    letter p 0o400 b'r'
    ∷ letter p 0o200 b'w'
    ∷ letter p 0o100 b'x'
    ∷ letter p 0o040 b'r'
    ∷ letter p 0o020 b'w'
    ∷ letter p 0o010 b'x'
    ∷ letter p 0o004 b'r'
    ∷ letter p 0o002 b'w'
    ∷ letter p 0o001 b'x'
    ∷ []
