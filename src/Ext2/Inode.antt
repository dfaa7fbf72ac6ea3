-- ===== src/Ext2/Inode.antt =====
-- `struct ext2_inode`, `struct ext2_inode_large` and `struct ext2_dir_entry` of src/ext2fs.h. Of
-- the unions the Linux members are kept.
use node_ext2fs.Base.{ℕ, ◌+◌, ◌%◌, ◌^◌, List}

pub record Inode : Type 0 where
  pub i_mode : ℕ
  pub i_uid : ℕ
  pub i_size : ℕ
  pub i_atime : ℕ
  pub i_ctime : ℕ
  pub i_mtime : ℕ
  pub i_dtime : ℕ
  pub i_gid : ℕ
  pub i_links_count : ℕ
  pub i_blocks : ℕ
  pub i_flags : ℕ
  pub l_i_version : ℕ
  pub i_block : List ℕ
  pub i_generation : ℕ
  pub i_file_acl : ℕ
  pub i_size_high : ℕ
  pub i_faddr : ℕ
  pub l_i_blocks_hi : ℕ
  pub l_i_file_acl_high : ℕ
  pub l_i_uid_high : ℕ
  pub l_i_gid_high : ℕ
  pub l_i_checksum_lo : ℕ
  pub l_i_reserved : ℕ

-- The large inode begins with the fields of the small one, so `(struct ext2_inode *)&inode` is
-- its field `base`.
pub record InodeLarge : Type 0 where
  pub base : Inode
  pub i_extra_isize : ℕ
  pub i_checksum_hi : ℕ
  pub i_ctime_extra : ℕ
  pub i_mtime_extra : ℕ
  pub i_atime_extra : ℕ
  pub i_crtime : ℕ
  pub i_crtime_extra : ℕ
  pub i_version_hi : ℕ
  pub i_projid : ℕ

-- `name` holds the characters of the field, of which `name_len & 0xff` are the name.
pub record DirEntry : Type 0 where
  pub inode : ℕ
  pub rec_len : ℕ
  pub name_len : ℕ
  pub name : List ℕ

abbrev pub increment_version : Inode → Inode
increment_version i = record i { l_i_version = (i.l_i_version + 1) % 2 ^ 32 }
