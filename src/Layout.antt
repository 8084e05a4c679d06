-- ===== src/Layout.antt =====
-- The on-disk structs of fs.h, field by field, and their images as bytes.
pub mod RoundTrip
use caozuokeshe.Base.{
  ℕ, zero, suc, ◌+◌, ◌/◌, ◌%◌, ◌-◌, ◌^◌, List, [], ◌∷◌, ◌++◌, ◌==◌, if◌then◌else◌, take, drop,
  get_or, replicate, bit_xor, bit_and,
}
use caozuokeshe.Codec.{encode_struct, decode_struct}

abbrev pub block_size : ℕ
block_size = 1024

abbrev pub direct_block_count : ℕ
direct_block_count = 12

abbrev pub max_filename_len : ℕ
max_filename_len = 64

abbrev pub fs_magic_number : ℕ
fs_magic_number = 0x53465321

abbrev pub root_inode_num : ℕ
root_inode_num = 1

-- `FS_FILE_TYPE_REGULAR` and `FS_FILE_TYPE_DIRECTORY`
abbrev pub file_type_regular : ℕ
file_type_regular = 1

abbrev pub file_type_directory : ℕ
file_type_directory = 2

-- `fs_superblock_t`
pub record Superblock : Type 0 where
  pub magic_number : ℕ
  pub version : ℕ
  pub block_size : ℕ
  pub total_blocks : ℕ
  pub total_inodes : ℕ
  pub free_blocks : ℕ
  pub free_inodes : ℕ
  pub inode_table_start : ℕ
  pub inode_table_blocks : ℕ
  pub data_blocks_start : ℕ
  pub root_inode : ℕ
  pub mount_count : ℕ
  pub max_mount_count : ℕ
  pub created_time : ℕ
  pub last_mount_time : ℕ
  pub last_write_time : ℕ
  pub last_check_time : ℕ
  pub reserved : List ℕ
  pub checksum : ℕ

-- The widths of the fields that stand before `checksum`.
abbrev pub superblock_body_widths : List ℕ
superblock_body_widths =
    4 ∷ 4 ∷ 4 ∷ 4 ∷ 4 ∷ 4 ∷ 4 ∷ 4 ∷ 4 ∷ 4 ∷ 4 ∷ 4 ∷ 4 ∷ 8 ∷ 8 ∷ 8 ∷ 8 ∷ replicate 16 4

abbrev pub superblock_body : Superblock → List ℕ
superblock_body sb =
    sb.magic_number ∷ sb.version ∷ sb.block_size ∷ sb.total_blocks ∷ sb.total_inodes
    ∷ sb.free_blocks ∷ sb.free_inodes ∷ sb.inode_table_start ∷ sb.inode_table_blocks
    ∷ sb.data_blocks_start ∷ sb.root_inode ∷ sb.mount_count ∷ sb.max_mount_count ∷ sb.created_time
    ∷ sb.last_mount_time ∷ sb.last_write_time ∷ sb.last_check_time ∷ sb.reserved

abbrev pub superblock_of_values : List ℕ → Superblock
superblock_of_values vs = record {
  magic_number = get_or vs 0 0;
  version = get_or vs 1 0;
  block_size = get_or vs 2 0;
  total_blocks = get_or vs 3 0;
  total_inodes = get_or vs 4 0;
  free_blocks = get_or vs 5 0;
  free_inodes = get_or vs 6 0;
  inode_table_start = get_or vs 7 0;
  inode_table_blocks = get_or vs 8 0;
  data_blocks_start = get_or vs 9 0;
  root_inode = get_or vs 10 0;
  mount_count = get_or vs 11 0;
  max_mount_count = get_or vs 12 0;
  created_time = get_or vs 13 0;
  last_mount_time = get_or vs 14 0;
  last_write_time = get_or vs 15 0;
  last_check_time = get_or vs 16 0;
  reserved = take 16 (drop 17 vs);
  checksum = get_or (drop 33 vs) 0 0;
}

-- `sizeof(fs_superblock_t)` is 152, and `checksum` stands at offset 148.
unfoldable pub encode_superblock : Superblock → List ℕ
encode_superblock sb =
    encode_struct (superblock_body_widths ++ (4 ∷ [])) (superblock_body sb ++ (sb.checksum ∷ []))

unfoldable pub decode_superblock : List ℕ → Superblock
decode_superblock bytes =
    superblock_of_values (decode_struct (superblock_body_widths ++ (4 ∷ [])) bytes)

-- `fs_inode_t`
pub record Inode : Type 0 where
  pub inode_number : ℕ
  pub file_type : ℕ
  pub permissions : ℕ
  pub owner_uid : ℕ
  pub owner_gid : ℕ
  pub link_count : ℕ
  pub file_size : ℕ
  pub block_count : ℕ
  pub access_time : ℕ
  pub modify_time : ℕ
  pub change_time : ℕ
  pub create_time : ℕ
  pub direct_blocks : List ℕ
  pub indirect_block : ℕ
  pub double_indirect_block : ℕ
  pub triple_indirect_block : ℕ
  pub flags : ℕ
  pub generation : ℕ
  pub reserved : List ℕ

abbrev pub inode_widths : List ℕ
inode_widths =
    4
    ∷ 2
    ∷ 2
    ∷ 4
    ∷ 4
    ∷ 4
    ∷ 8
    ∷ 4
    ∷ 8
    ∷ 8
    ∷ 8
    ∷ 8
    ∷ (replicate 12 4 ++ (4 ∷ 4 ∷ 4 ∷ 4 ∷ 4 ∷ replicate 4 4))

abbrev pub inode_values : Inode → List ℕ
inode_values i =
    i.inode_number
    ∷ i.file_type
    ∷ i.permissions
    ∷ i.owner_uid
    ∷ i.owner_gid
    ∷ i.link_count
    ∷ i.file_size
    ∷ i.block_count
    ∷ i.access_time
    ∷ i.modify_time
    ∷ i.change_time
    ∷ i.create_time
    ∷ (i.direct_blocks
        ++ (i.indirect_block ∷ i.double_indirect_block ∷ i.triple_indirect_block ∷ i.flags
            ∷ i.generation ∷ i.reserved))

abbrev pub inode_of_values : List ℕ → Inode
inode_of_values vs = record {
  inode_number = get_or vs 0 0;
  file_type = get_or vs 1 0;
  permissions = get_or vs 2 0;
  owner_uid = get_or vs 3 0;
  owner_gid = get_or vs 4 0;
  link_count = get_or vs 5 0;
  file_size = get_or vs 6 0;
  block_count = get_or vs 7 0;
  access_time = get_or vs 8 0;
  modify_time = get_or vs 9 0;
  change_time = get_or vs 10 0;
  create_time = get_or vs 11 0;
  direct_blocks = take 12 (drop 12 vs);
  indirect_block = get_or (drop 12 (drop 12 vs)) 0 0;
  double_indirect_block = get_or (drop 12 (drop 12 vs)) 1 0;
  triple_indirect_block = get_or (drop 12 (drop 12 vs)) 2 0;
  flags = get_or (drop 12 (drop 12 vs)) 3 0;
  generation = get_or (drop 12 (drop 12 vs)) 4 0;
  reserved = drop 5 (drop 12 (drop 12 vs));
}

-- `sizeof(fs_inode_t)`
abbrev pub inode_size : ℕ
inode_size = 148

unfoldable pub encode_inode : Inode → List ℕ
encode_inode i = encode_struct inode_widths (inode_values i)

unfoldable pub decode_inode : List ℕ → Inode
decode_inode bytes = inode_of_values (decode_struct inode_widths bytes)

-- `memset(&inode, 0, sizeof(fs_inode_t))`
abbrev pub zero_inode : Inode
zero_inode = record {
  inode_number = 0;
  file_type = 0;
  permissions = 0;
  owner_uid = 0;
  owner_gid = 0;
  link_count = 0;
  file_size = 0;
  block_count = 0;
  access_time = 0;
  modify_time = 0;
  change_time = 0;
  create_time = 0;
  direct_blocks = replicate 12 0;
  indirect_block = 0;
  double_indirect_block = 0;
  triple_indirect_block = 0;
  flags = 0;
  generation = 0;
  reserved = replicate 4 0;
}

-- `fs_dir_entry_t`; `filename` holds the 64 bytes of the array.
pub record DirEntry : Type 0 where
  pub inode_number : ℕ
  pub entry_length : ℕ
  pub filename_length : ℕ
  pub file_type : ℕ
  pub filename : List ℕ
  pub is_valid : ℕ
  pub padding : List ℕ

-- `sizeof(fs_dir_entry_t)`
abbrev pub dir_entry_size : ℕ
dir_entry_size = 76

abbrev pub dir_entry_widths : List ℕ
dir_entry_widths = 4 ∷ 2 ∷ 1 ∷ 1 ∷ (replicate 64 1 ++ (1 ∷ replicate 3 1))

abbrev pub dir_entry_values : DirEntry → List ℕ
dir_entry_values e =
    e.inode_number
    ∷ e.entry_length
    ∷ e.filename_length
    ∷ e.file_type
    ∷ (e.filename ++ (e.is_valid ∷ e.padding))

abbrev pub dir_entry_of_values : List ℕ → DirEntry
dir_entry_of_values vs = record {
  inode_number = get_or vs 0 0;
  entry_length = get_or vs 1 0;
  filename_length = get_or vs 2 0;
  file_type = get_or vs 3 0;
  filename = take 64 (drop 4 vs);
  is_valid = get_or (drop 64 (drop 4 vs)) 0 0;
  padding = drop 1 (drop 64 (drop 4 vs));
}

unfoldable pub encode_dir_entry : DirEntry → List ℕ
encode_dir_entry e = encode_struct dir_entry_widths (dir_entry_values e)

unfoldable pub decode_dir_entry : List ℕ → DirEntry
decode_dir_entry bytes = dir_entry_of_values (decode_struct dir_entry_widths bytes)

-- `fs_ops_calculate_checksum`: eight shifts for each byte, over `uint32_t`.
crc_shift : (rounds checksum : ℕ) → ℕ
crc_shift zero checksum = checksum
crc_shift (suc rounds) checksum =
    crc_shift rounds
      (if bit_and checksum 1 == 0 then checksum / 2 else bit_xor (checksum / 2) 0xEDB88320)

crc_bytes : (bytes : List ℕ) (checksum : ℕ) → ℕ
unfolding crc_shift
crc_bytes [] checksum = checksum
crc_bytes (byte ∷ bytes) checksum = crc_bytes bytes (crc_shift 8 (bit_xor checksum byte))

unfoldable pub calculate_checksum : List ℕ → ℕ
unfolding crc_bytes
calculate_checksum [] = 0
calculate_checksum (byte ∷ bytes) = bit_xor (crc_bytes (byte ∷ bytes) 0xFFFFFFFF) 0xFFFFFFFF

-- The checksum of a superblock: over the bytes before the field.
unfoldable pub superblock_checksum : Superblock → ℕ
superblock_checksum sb =
    calculate_checksum (encode_struct superblock_body_widths (superblock_body sb))
