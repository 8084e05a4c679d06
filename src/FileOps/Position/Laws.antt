-- ===== src/FileOps/Position/Laws.antt =====
-- Where `fs_seek` goes.
use mathlib.Core.Path.{subst}
use caozuokeshe.Base.{
  ℕ, zero, suc, ◌+◌, ◌%◌, ◌^◌, ◌<◌, ◌≤◌, ◌≡◌, ◌⊎◌, ◌↔◌, refl, some, arith, ltb, ◌==◌, if◌then◌else◌,
  inl, inr, Bool-cases,
}
use caozuokeshe.FileOps.Position.{seek_target, extend64}

-- What an offset is counted from: the beginning, the position, or the end.
abbrev pub base_of : (position file_size whence : ℕ) → ℕ
base_of position file_size whence =
    if whence == 0 then 0 else if whence == 1 then position else file_size

moved :
    (base offset : ℕ)
    → base < 2 ^ 62
    → offset < 2 ^ 32
    → let t = (base + extend64 offset) % 2 ^ 64 in
      ((t < 2 ^ 63) ↔ ((offset < 2 ^ 31) ⊎ (2 ^ 32 ≤ base + offset)))
      × ((t + (if ltb offset (2 ^ 31) then 0 else 2 ^ 32)) % 2 ^ 64 ≡ base + offset)
unfolding extend64
moved base offset small pattern = elim (Bool-cases (ltb offset (2 ^ 31))) [
  | inl e ↦ rw e (ground (arith, e), ground (arith, e))
  | inr e ↦ rw e (ground (arith, e), ground (arith, e))
]

-- For a position and a file size below 2 ^ 62, `fs_seek` moves to the sum of its base and its signed
-- offset, whose 32-bit pattern is `offset`, and it accepts the target exactly if that is not negative.
pub seek_target-signed :
    (position file_size offset whence : ℕ)
    → position < 2 ^ 62
    → file_size < 2 ^ 62
    → offset < 2 ^ 32
    → whence < 3
    → let base = base_of position file_size whence in
      (t : ℕ) × (seek_target position file_size offset whence ≡ some t)
      × ((t < 2 ^ 63) ↔ ((offset < 2 ^ 31) ⊎ (2 ^ 32 ≤ base + offset)))
      × ((t + (if ltb offset (2 ^ 31) then 0 else 2 ^ 32)) % 2 ^ 64 ≡ base + offset)
unfolding seek_target extend64
seek_target-signed position file_size offset zero hp hs ho hw =
    let e : (0 + extend64 offset) % 2 ^ 64 ≡ extend64 offset = ground arith in
    let (a, b) =
      subst
        (λ t.
          ((t < 2 ^ 63) ↔ ((offset < 2 ^ 31) ⊎ (2 ^ 32 ≤ 0 + offset)))
          × ((t + (if ltb offset (2 ^ 31) then 0 else 2 ^ 32)) % 2 ^ 64 ≡ 0 + offset))
        e (moved 0 offset (omega arith) ho) in
    (extend64 offset, refl, a, b)
seek_target-signed position file_size offset (suc zero) hp hs ho hw =
    let (a, b) = moved position offset hp ho in ((position + extend64 offset) % 2 ^ 64, refl, a, b)
seek_target-signed position file_size offset (suc (suc zero)) hp hs ho hw =
    let (a, b) = moved file_size offset hs ho in
    ((file_size + extend64 offset) % 2 ^ 64, refl, a, b)
seek_target-signed position file_size offset (suc (suc (suc k))) hp hs ho hw = absurd (omega arith)
