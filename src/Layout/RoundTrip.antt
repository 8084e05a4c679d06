-- ===== src/Layout/RoundTrip.antt =====
-- About structs that are copied into a buffer and read back.
use caozuokeshe.Base.{
  ℕ, ◌≡◌, ap, ◌∙◌, List, [], ◌∷◌, ◌++◌, length, take-append_of_length, drop-append_of_length,
}
use caozuokeshe.Codec.{Fits, size_of, decode_struct-encode_struct, length-encode_struct}
use caozuokeshe.Layout.{
  Superblock, superblock_body_widths, superblock_body, superblock_of_values, encode_superblock,
  decode_superblock, Inode, inode_size, inode_widths, inode_values, inode_of_values, encode_inode,
  decode_inode, DirEntry, dir_entry_size, dir_entry_widths, dir_entry_values, dir_entry_of_values,
  encode_dir_entry, decode_dir_entry,
}

-- Every field of an inode fits its width, and its arrays have their lengths.
pub record InodeFits (i : Inode) : Type 0 where
  pub fits : Fits inode_widths (inode_values i)
  pub direct : length i.direct_blocks ≡ 12

inode_of_values-inode_values :
    (i : Inode) → length i.direct_blocks ≡ 12 → inode_of_values (inode_values i) ≡ i
inode_of_values-inode_values i e = rw (
  take-append_of_length 12 i.direct_blocks
      (i.indirect_block ∷ i.double_indirect_block ∷ i.triple_indirect_block ∷ i.flags ∷ i.generation
        ∷ i.reserved)
      e,
  drop-append_of_length 12 i.direct_blocks
      (i.indirect_block ∷ i.double_indirect_block ∷ i.triple_indirect_block ∷ i.flags ∷ i.generation
        ∷ i.reserved)
      e,
)

-- An inode whose fields fit their widths is read back unchanged from a buffer that begins with its
-- bytes, whatever follows them.
pub decode_inode-encode_inode :
    (i : Inode) (rest : List ℕ) → InodeFits i → decode_inode (encode_inode i ++ rest) ≡ i
unfolding decode_inode encode_inode
decode_inode-encode_inode i rest h =
    ap inode_of_values (decode_struct-encode_struct inode_widths (inode_values i) rest h.fits)
    ∙ inode_of_values-inode_values i h.direct

pub length-encode_inode : (i : Inode) → length (encode_inode i) ≡ inode_size
unfolding encode_inode size_of
length-encode_inode i = length-encode_struct inode_widths (inode_values i)

pub record SuperblockFits (sb : Superblock) : Type 0 where
  pub fits : Fits (superblock_body_widths ++ (4 ∷ [])) (superblock_body sb ++ (sb.checksum ∷ []))
  pub reserve : length sb.reserved ≡ 16

superblock_of_values-values :
    (sb : Superblock)
    → length sb.reserved ≡ 16
    → superblock_of_values (superblock_body sb ++ (sb.checksum ∷ [])) ≡ sb
superblock_of_values-values sb e = rw (
  take-append_of_length 16 sb.reserved (sb.checksum ∷ []) e,
  drop-append_of_length 16 sb.reserved (sb.checksum ∷ []) e,
)

-- A superblock whose fields fit their widths is read back unchanged from a buffer that begins with its
-- bytes, whatever follows them.
pub decode_superblock-encode_superblock :
    (sb : Superblock) (rest : List ℕ)
    → SuperblockFits sb
    → decode_superblock (encode_superblock sb ++ rest) ≡ sb
unfolding decode_superblock encode_superblock
decode_superblock-encode_superblock sb rest h =
    ap superblock_of_values (
      decode_struct-encode_struct (superblock_body_widths ++ (4 ∷ []))
        (superblock_body sb ++ (sb.checksum ∷ [])) rest h.fits)
    ∙ superblock_of_values-values sb h.reserve

pub record DirEntryFits (e : DirEntry) : Type 0 where
  pub fits : Fits dir_entry_widths (dir_entry_values e)
  pub name_size : length e.filename ≡ 64

dir_entry_of_values-values :
    (e : DirEntry) → length e.filename ≡ 64 → dir_entry_of_values (dir_entry_values e) ≡ e
dir_entry_of_values-values e h = rw (
  take-append_of_length 64 e.filename (e.is_valid ∷ e.padding) h,
  drop-append_of_length 64 e.filename (e.is_valid ∷ e.padding) h,
)

-- A directory entry whose fields fit their widths is read back unchanged from a buffer that begins with its
-- bytes, whatever follows them.
pub decode_dir_entry-encode_dir_entry :
    (e : DirEntry) (rest : List ℕ)
    → DirEntryFits e
    → decode_dir_entry (encode_dir_entry e ++ rest) ≡ e
unfolding decode_dir_entry encode_dir_entry
decode_dir_entry-encode_dir_entry e rest h =
    ap dir_entry_of_values
      (decode_struct-encode_struct dir_entry_widths (dir_entry_values e) rest h.fits)
    ∙ dir_entry_of_values-values e h.name_size

pub length-encode_dir_entry : (e : DirEntry) → length (encode_dir_entry e) ≡ dir_entry_size
unfolding encode_dir_entry size_of
length-encode_dir_entry e = length-encode_struct dir_entry_widths (dir_entry_values e)
