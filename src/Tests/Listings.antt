-- ===== src/Tests/Listings.antt =====
-- A directory on the disk at concrete inputs: inode 5, whose first block is block 10, with one file.
use caozuokeshe.Base.{
  ℕ, zero, suc, ◌≡◌, ◌∙◌, ◌&&◌, refl, inl, inr, Bool, Bool-cases, true, none, some, List, [], ◌∷◌,
  arith, ltb, length, replicate, length-replicate, splice, length-splice, c_string, str_eq,
  if◌then◌else◌, ◌==◌,
}
use caozuokeshe.Codec.{decode_le, decode_struct, encode_le, encode_struct}
use caozuokeshe.Errors.{ok}
use caozuokeshe.Layout.{
  Inode, encode_inode, encode_dir_entry, decode_dir_entry, file_type_directory,
}
use caozuokeshe.Layout.RoundTrip.{InodeFits, length-encode_inode}
use caozuokeshe.Bitmap.Invariant.{AllBytes}
use caozuokeshe.Disk.Host.{HostFile}
use caozuokeshe.Disk.Block.{disk_block_size, block_to_offset}
use caozuokeshe.Disk.Block.Laws.{IsReady, block_at}
use caozuokeshe.Fs.State.{FsState}
use caozuokeshe.Fs.Super.{make_superblock}
use caozuokeshe.Fs.Inodes.{inode_block, inode_offset}
use caozuokeshe.Fs.Inodes.Laws.{decode_spliced}
use caozuokeshe.Fs.Directory.{
  max_entries, entry_at, put_entry, find_entry, find_free_entry, new_entry, filename_bytes,
  find_file_in_directory, add_file_to_directory,
}
use caozuokeshe.Fs.Directory.Stored.{IsDirectory}
use caozuokeshe.Fs.Directory.Listed.{find_file-add_file}
use caozuokeshe.Tests.Data.{disk16, disk_name}
use caozuokeshe.Tests.Content.{mounted16, stored_inode}
use caozuokeshe.Tests.Sessions.{steady, steady-IsReliable}
use caozuokeshe.Tests.Directories.{empty_block, name_a, name_a-AllBytes}

abbrev name_b : List ℕ
name_b = b'b' ∷ []

-- The file `b` is inode 6.
abbrev block_b : List ℕ
block_b = put_entry empty_block 0 (new_entry name_b 6 (entry_at empty_block 0))

abbrev all_bytes : List ℕ → Bool
all_bytes [] = true
all_bytes (b ∷ bytes) = ltb b 256 && all_bytes bytes

all_bytes-AllBytes : (xs : List ℕ) → all_bytes xs ≡ true → AllBytes xs
all_bytes-AllBytes [] e i = omega arith
all_bytes-AllBytes (b ∷ bytes) e zero = ground (arith, e)
all_bytes-AllBytes (b ∷ bytes) e (suc i) = all_bytes-AllBytes bytes (ground (arith, e)) i

block_b-AllBytes : AllBytes block_b
unfolding put_entry entry_at new_entry filename_bytes encode_dir_entry decode_dir_entry
    decode_struct decode_le encode_struct encode_le splice
block_b-AllBytes = all_bytes-AllBytes block_b refl

second_is_free : find_free_entry block_b max_entries 0 ≡ some 1
unfolding put_entry entry_at new_entry filename_bytes encode_dir_entry decode_dir_entry
    decode_struct decode_le encode_struct encode_le splice find_free_entry
second_is_free = refl

no_a : find_entry block_b name_a max_entries 0 ≡ none
unfolding put_entry entry_at new_entry filename_bytes encode_dir_entry decode_dir_entry
    decode_struct decode_le encode_struct encode_le splice find_entry c_string str_eq
no_a = refl

b_is_6 : find_entry block_b name_b max_entries 0 ≡ some 6
unfolding put_entry entry_at new_entry filename_bytes encode_dir_entry decode_dir_entry
    decode_struct decode_le encode_struct encode_le splice find_entry c_string str_eq
b_is_6 = refl

abbrev dir5 : Inode
dir5 = record stored_inode { file_type = file_type_directory }

dir5-InodeFits : InodeFits dir5
dir5-InodeFits = record { fits = omega arith; direct = refl }

abbrev dir_table : List ℕ
dir_table = splice (replicate disk_block_size 0) (inode_offset 5) (encode_inode dir5)

abbrev dir_image : HostFile
dir_image = record {
  size = block_to_offset 16;
  content = λ o.
      if o == block_to_offset 8
      then dir_table
      else if o == block_to_offset 10
      then block_b
      else replicate disk_block_size 0;
}

abbrev listing : FsState
listing = record mounted16 { disk = record disk16 { files = λ name. some dir_image } }

dir_table-length : length dir_table ≡ disk_block_size
unfolding inode_offset
dir_table-length =
    length-splice (replicate disk_block_size 0) (inode_offset 5) (encode_inode dir5)
      (omega (arith, length-encode_inode dir5, length-replicate disk_block_size zero))
    ∙ length-replicate disk_block_size zero

block_b-length : length block_b ≡ disk_block_size
unfolding put_entry entry_at new_entry filename_bytes encode_dir_entry decode_dir_entry
    decode_struct decode_le encode_struct encode_le splice
block_b-length = refl

dir_image-sized : (b : ℕ) → length (dir_image.content (block_to_offset b)) ≡ disk_block_size
dir_image-sized b = elim (Bool-cases (block_to_offset b == block_to_offset 8)) [
  | inl e ↦ rw e dir_table-length
  | inr e ↦ elim (Bool-cases (block_to_offset b == block_to_offset 10)) [
    | inl f ↦ rw (e, f) block_b-length
    | inr f ↦ rw (e, f) (length-replicate disk_block_size zero)
  ]
]

listing-IsReady : IsReady listing.disk
unfolding block_to_offset
listing-IsReady = record {
  name = disk_name;
  file = dir_image;
  initialized = refl;
  writable = refl;
  opened = refl;
  present = refl;
  full = omega arith;
  addressable = omega arith;
  sized = dir_image-sized;
}

listing-IsDirectory : IsDirectory listing 5 dir5 block_b
unfolding make_superblock inode_block block_at block_to_offset inode_offset
listing-IsDirectory = record {
  ready = listing-IsReady;
  stored = record {
    positive = omega arith;
    in_table = omega arith;
    no_wrap = omega arith;
    on_the_disk = omega arith;
  };
  holds =
      decode_spliced (replicate disk_block_size 0) (inode_offset 5) dir5
        (omega (arith, length-replicate disk_block_size zero)) dir5-InodeFits;
  kind = refl;
  first = 10;
  others = replicate 11 0;
  begins = refl;
  present = λ e. absurd (omega (arith, e));
  in_range = omega arith;
  apart = λ e. absurd (omega (arith, e));
  content = refl;
}

find_file-add_file_example :
    let (status, s') = add_file_to_directory steady 5 name_a 7 listing in
    (status ≡ ok tt)
    × ((find_file_in_directory steady 5 name_a s').0 ≡ ok 7)
    × ((find_file_in_directory steady 5 name_b s').0 ≡ ok 6)
find_file-add_file_example =
    find_file-add_file steady listing 5 dir5 block_b name_a name_b 1 7 6 steady-IsReliable
      (λ k. omega arith) listing-IsDirectory dir5-InodeFits block_b-AllBytes second_is_free
      name_a-AllBytes (λ e. absurd (omega (arith, e)), tt) (omega arith)
      (λ e. absurd (omega (arith, e))) (omega arith) no_a b_is_6
