-- ===== src/Ext2/Filsys.antt =====
-- The state that a call of src/glue.c reads and writes: the fields of `struct struct_ext2_filsys`
-- that the glue uses, the open files and the buffers of `malloc_from_js` by their address, the
-- JavaScript arrays by their object id,
-- and what belongs to libext2fs and its disk (a type `D` that the glue never looks into).
use node_ext2fs.Base.{ℕ, Bool, List, bit_or}
use node_ext2fs.Ext2.Inode.{Inode}
use node_ext2fs.Ext2.Modes.{
  has, ext2_flag_dirty, ext2_flag_changed, ext2_feature_incompat_extents,
  ext4_feature_incompat_inline_data,
}

abbrev pub Bytes : Type 0
Bytes = List ℕ

abbrev pub Ino : Type 0
Ino = ℕ

-- `struct ext2_super_block`
pub record SuperBlock : Type 0 where
  pub s_inodes_count : ℕ
  pub s_blocks_count : ℕ
  pub s_r_blocks_count : ℕ
  pub s_free_blocks_count : ℕ
  pub s_free_inodes_count : ℕ
  pub s_first_data_block : ℕ
  pub s_feature_compat : ℕ
  pub s_feature_incompat : ℕ
  pub s_feature_ro_compat : ℕ

abbrev pub ext2fs_has_feature_inline_data : SuperBlock → Bool
ext2fs_has_feature_inline_data sb = has sb.s_feature_incompat ext4_feature_incompat_inline_data

abbrev pub ext2fs_has_feature_extents : SuperBlock → Bool
ext2fs_has_feature_extents sb = has sb.s_feature_incompat ext2_feature_incompat_extents

-- `block_map` says whether the pointer is set.
pub record Filsys : Type 0 where
  pub flags : ℕ
  pub super : SuperBlock
  pub blocksize : ℕ
  pub block_map : Bool

-- `struct ext2_file`; its `fs` is the one mounted filesystem.
pub record File : Type 0 where
  pub magic : ℕ
  pub ino : Ino
  pub inode : Inode
  pub flags : ℕ
  pub pos : ℕ
  pub blockno : ℕ
  pub physblock : ℕ
  pub buf : Bytes

pub record World (D : Type 0) : Type 0 where
  pub fs : Filsys
  pub files : ℕ → File
  pub arrays : ℕ → List Bytes
  pub heap : ℕ → Bytes
  pub lib : D

module _ {D : Type 0} where
  abbrev pub ext2fs_mark_super_dirty : World D → World D
  ext2fs_mark_super_dirty w = record w {
    fs = record w.fs { flags = bit_or w.fs.flags (bit_or ext2_flag_dirty ext2_flag_changed) };
  }
