-- ===== src/Users/Password.antt =====
-- `user_manager_hash_password`: the hash of a password, printed as eight hexadecimal digits.
use caozuokeshe.Base.{
  ℕ, zero, suc, ◌+◌, ◌-◌, ◌*◌, ◌/◌, ◌%◌, ◌^◌, List, [], ◌∷◌, ◌++◌, ltb, if◌then◌else◌,
}

-- `*str` as the signed `char` of x86, added to a `uint32_t`
abbrev pub sign_extend : ℕ → ℕ
sign_extend byte = if ltb byte 128 then byte else byte + (2 ^ 32 - 256)

-- The loop of `user_manager_hash_password`: `hash = ((hash << 5) + hash) + *str++`.
unfoldable pub hash_loop : (hash : ℕ) → List ℕ → ℕ
hash_loop hash [] = hash
hash_loop hash (byte ∷ bytes) =
    hash_loop ((hash * 32 % 2 ^ 32 + hash + sign_extend byte) % 2 ^ 32) bytes

unfoldable pub hex_digit : ℕ → ℕ
hex_digit n = if ltb n 10 then b'0' + n else b'a' + (n - 10)

-- The last `width` hexadecimal digits of a number, as `%08x` prints a `uint32_t` at width 8.
unfoldable pub hex : (width n : ℕ) → List ℕ
unfolding hex_digit
hex zero n = []
hex (suc width) n = hex width (n / 16) ++ (hex_digit (n % 16) ∷ [])

unfoldable pub hash_password : List ℕ → List ℕ
unfolding hash_loop hex
hash_password password = hex 8 (hash_loop 5381 password)
