-- ===== src/Users/Permission/Laws.antt =====
-- What the permission checks decide.
use caozuokeshe.Base.{ℕ, ◌≡◌, ◌⊎◌, inl, inr, arith}
use caozuokeshe.Users.Permission.{check_permission_detailed, check_permission_internal}

-- One of the three bits that callers ask for: the owner's read, write or execute bit.
abbrev pub IsOwnerBit : ℕ → Type 0
IsOwnerBit required = (required ≡ 0o400) ⊎ (required ≡ 0o200) ⊎ (required ≡ 0o100)

-- For each of the owner's read, write and execute bits, which is what callers ask for, the check of
-- user_manager.c and the inline one of fs.h decide alike, whoever the user and the owner are.
pub check_permission_detailed-eq-check_permission_internal :
    (user_uid user_gid file_uid file_gid perms required : ℕ)
    → IsOwnerBit required
    → check_permission_detailed user_uid user_gid file_uid file_gid perms required
      ≡ check_permission_internal perms user_uid user_gid file_uid file_gid required
unfolding check_permission_detailed check_permission_internal
check_permission_detailed-eq-check_permission_internal uu ug fu fg perms required (inl e) =
    rw e (ground arith)
check_permission_detailed-eq-check_permission_internal uu ug fu fg perms required (inr (inl e)) =
    rw e (ground arith)
check_permission_detailed-eq-check_permission_internal uu ug fu fg perms required (inr (inr e)) =
    rw e (ground arith)
