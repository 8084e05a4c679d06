-- ===== src/Tests/Content.antt =====
-- The contents of files at concrete inputs: a file system whose data blocks begin at block 9, with an
-- inode whose data are in block 10.
use mathlib.Core.Path.{subst}
use caozuokeshe.Base.{
  get_or-replicate, ℕ, zero, suc, ◌+◌, ◌≤◌, ◌<◌, ◌≡◌, ◌≢◌, ◌⊎◌, refl, sym, ◌∙◌, some, List, [], ◌∷◌,
  arith, get_or, replicate, take,
}
use caozuokeshe.Errors.{ok}
use caozuokeshe.Base.Bits.{test_bit}
use caozuokeshe.Layout.{Inode}
use caozuokeshe.Bitmap.{Bitmap, is_set, count_clear}
use caozuokeshe.Bitmap.Invariant.{IsValid}
use caozuokeshe.Fs.State.{FsState}
use caozuokeshe.FileOps.Blocks.{get_data_block, block_index}
use caozuokeshe.FileOps.ReadWrite.{write_loop, read_loop}
use caozuokeshe.FileOps.Content.{IsMounted, IsTaken, Owns}
use caozuokeshe.FileOps.Content.Write.{Wrote, write_loop-Wrote}
use caozuokeshe.FileOps.Content.Read.{read_loop-write_loop}
use caozuokeshe.Tests.Data.{good, good-IsReliable, state16, disk16-IsReady, small_inode}

abbrev pub one_taken : Bitmap
one_taken = record { bitmap = some (2 ∷ []); total_bits = 7; free_count = 6; last_allocated = 1 }

pub one_taken-IsValid : IsValid one_taken (2 ∷ [])
unfolding is_set test_bit count_clear
one_taken-IsValid = record {
  holds = refl;
  sized = refl;
  are_bytes = bytes;
  counted = refl;
  small = omega arith;
  inhabited = omega arith;
  last_in = omega arith;
}
  where
    bytes : (i : ℕ) → get_or (2 ∷ []) i 0 < 256
    bytes zero = omega arith
    bytes (suc i) = omega arith

abbrev pub mounted16 : FsState
mounted16 = record state16 {
  superblock = record (state16.superblock) { data_blocks_start = 9 };
  block_bitmap = one_taken;
}

mounted16-IsMounted : IsMounted mounted16 (2 ∷ [])
mounted16-IsMounted = record {
  ready = disk16-IsReady;
  valid = one_taken-IsValid;
  room = omega arith;
  behind = omega arith;
}

abbrev pub stored_inode : Inode
stored_inode = record small_inode { direct_blocks = 10 ∷ replicate 11 0 }

pub stored_inode-one : (i : ℕ) → get_data_block stored_inode i ≢ 0 → i ≡ 0
unfolding get_data_block
stored_inode-one zero h = refl
stored_inode-one (suc i) h = absurd (h (ground (arith, get_or-replicate 11 i zero)))

stored_inode-Owns : Owns mounted16 (2 ∷ []) stored_inode
unfolding get_data_block is_set test_bit
stored_inode-Owns = record {
  twelve = refl;
  taken = λ i h.
      let e = stored_inode-one i h in
      subst (λ k. IsTaken mounted16 (2 ∷ []) (get_data_block stored_inode k)) (sym e)
        (record { above = omega arith; below = omega arith; marked = refl });
  distinct = λ i j h e. stored_inode-one i h ∙ sym (stored_inode-one j (λ z. h (e ∙ z)));
}

abbrev pub three : List ℕ
three = 1 ∷ 2 ∷ 3 ∷ []

read_loop-write_loop_example :
    let (status, s') = write_loop good three 3 1023 3 0 stored_inode mounted16 in
    (count : ℕ) × (inode' : Inode) × (status ≡ ok (count, inode'))
    × (count ≤ 3)
    × ((count ≡ 3) ⊎ (get_data_block inode' (block_index (1023 + count)) ≡ 0))
    × ((read_loop good inode' count 1023 count 0 s').0 ≡ ok (take count three))
read_loop-write_loop_example =
    read_loop-write_loop good mounted16 (2 ∷ []) stored_inode three 3 1023 good-IsReliable
      mounted16-IsMounted stored_inode-Owns (omega arith) (omega arith)

write_loop-Wrote_example :
    Wrote mounted16 stored_inode three 3 1023 0
      (write_loop good three 3 1023 3 0 stored_inode mounted16)
write_loop-Wrote_example =
    write_loop-Wrote good good-IsReliable three 3 1023 (omega arith) (omega arith) 3 mounted16
      (2 ∷ []) stored_inode 0 mounted16-IsMounted stored_inode-Owns (omega arith) (omega arith)
