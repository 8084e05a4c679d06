-- ===== src/Users/Permission/Digits.antt =====
-- About the permission check and the nine bits of a mode: three for each class of user.
use caozuokeshe.Base.{
  ℕ, ◌+◌, ◌*◌, ◌^◌, ◌<◌, ◌≡◌, ◌||◌, refl, inl, inr, Bool, true, false, not, ◌==◌, if◌then◌else◌,
  arith, bit_and, Bool-cases,
}
use caozuokeshe.Base.Bits.{test_bit, passes, passes_lem}
use caozuokeshe.Users.Permission.{check_permission_detailed, class_perm}

-- Which of the three octal digits counts for a user: 2 for the owner, 1 for the owner's group, 0 for
-- the others.
abbrev pub class_of : (user_uid user_gid file_uid file_gid : ℕ) → ℕ
class_of user_uid user_gid file_uid file_gid =
    if user_uid == file_uid then 2 else if user_gid == file_gid then 1 else 0

-- The owner's bit for `k`: 0 to execute, 1 to write, 2 to read.
abbrev pub owner_bit : ℕ → ℕ
owner_bit k = 2 ^ (6 + k)

abbrev same : Bool → Bool → Bool
same true b = b
same false b = not b

same_eq : (a b : Bool) → same a b ≡ true → a ≡ b
same_eq true b h = ground arith
same_eq false b h = ground arith

abbrev asked : (c k : ℕ) → ℕ
asked c k =
    if c == 2
    then class_perm 0o400 0o200 0o100 (owner_bit k)
    else if c == 1
    then class_perm 0o040 0o020 0o010 (owner_bit k)
    else class_perm 0o004 0o002 0o001 (owner_bit k)

abbrev row : (perms c k : ℕ) → Bool
row perms c k = same (not (bit_and perms (asked c k) == 0)) (test_bit perms (k + 3 * c))

rows : passes (λ perms. passes (λ c. passes (row perms c) 3) 3) 512 ≡ true
unfolding passes class_perm test_bit
rows = refl

row_lem :
    (perms c k : ℕ)
    → perms < 512
    → c < 3
    → k < 3
    → not (bit_and perms (asked c k) == 0) ≡ test_bit perms (k + 3 * c)
row_lem perms c k hp hc hk = same_eq _ _ (
    passes_lem (row perms c) 3 hk (
      passes_lem (λ c'. passes (row perms c') 3) 3 hc
        (passes_lem (λ p. passes (λ c'. passes (row p c') 3) 3) 512 hp rows)))

-- For a mode of nine bits and the owner's bit of a kind of access, the check of user_manager.c allows
-- the superuser everything, and any other user exactly what the bit of that kind in the octal digit of
-- the user's class says: the owner's digit alone for the owner, and the group's alone for its members.
pub check_permission_detailed-eq-test_bit :
    (user_uid user_gid file_uid file_gid perms k : ℕ)
    → perms < 512
    → k < 3
    → check_permission_detailed user_uid user_gid file_uid file_gid perms (owner_bit k)
      ≡ ((user_uid == 0) || test_bit perms (k + 3 * class_of user_uid user_gid file_uid file_gid))
unfolding check_permission_detailed
check_permission_detailed-eq-test_bit uu ug fu fg perms k hp hk = elim (Bool-cases (uu == 0)) [
  | inl e ↦ rw (e, check_permission_detailed) refl
  | inr e ↦ elim (Bool-cases (uu == fu)) [
    | inl f ↦ rw (e, f, check_permission_detailed) (row_lem perms 2 k hp (omega arith) hk)
    | inr f ↦ elim (Bool-cases (ug == fg)) [
      | inl g ↦ rw (e, f, g, check_permission_detailed) (row_lem perms 1 k hp (omega arith) hk)
      | inr g ↦ rw (e, f, g, check_permission_detailed) (row_lem perms 0 k hp (omega arith) hk)
    ]
  ]
]
