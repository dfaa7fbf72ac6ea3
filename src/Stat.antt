-- ===== src/Stat.antt =====
-- `getUInt64Number` and the `node_ext2fs_stat_` functions of src/glue.c.
pub mod Size
use node_ext2fs.Base.{ℕ, ℤ, signed32, ◌*◌, ◌%◌, ◌^◌, bit_or}
use node_ext2fs.Ext2.Filsys.{World}

-- A 64-bit number from its halves. As a C `double` it is exact below 2^53.
unfoldable pub get_uint64_number : (hi lo : ℕ) → ℕ
get_uint64_number hi lo = bit_or (hi * 2 ^ 32 % 2 ^ 64) lo

-- The `node_ext2fs_stat_` functions: what is cached in the open file. An `int` result has 32 bits.
module _ {D : Type 0} (file : ℕ) (w : World D) where
  unfoldable pub node_ext2fs_stat_i_mode : ℤ
  node_ext2fs_stat_i_mode = signed32 (w.files file).inode.i_mode

  unfoldable pub node_ext2fs_stat_i_links_count : ℤ
  node_ext2fs_stat_i_links_count = signed32 (w.files file).inode.i_links_count

  unfoldable pub node_ext2fs_stat_i_uid : ℤ
  node_ext2fs_stat_i_uid = signed32 (w.files file).inode.i_uid

  unfoldable pub node_ext2fs_stat_i_gid : ℤ
  node_ext2fs_stat_i_gid = signed32 (w.files file).inode.i_gid

  unfoldable pub node_ext2fs_stat_blocksize : ℤ
  node_ext2fs_stat_blocksize = signed32 w.fs.blocksize

  unfoldable pub node_ext2fs_stat_i_size : ℕ
  unfolding get_uint64_number
  node_ext2fs_stat_i_size =
      get_uint64_number (w.files file).inode.i_size_high (w.files file).inode.i_size

  unfoldable pub node_ext2fs_stat_ino : ℤ
  node_ext2fs_stat_ino = signed32 (w.files file).ino

  unfoldable pub node_ext2fs_stat_i_blocks : ℤ
  node_ext2fs_stat_i_blocks = signed32 (w.files file).inode.i_blocks

  unfoldable pub node_ext2fs_stat_i_atime : ℤ
  node_ext2fs_stat_i_atime = signed32 (w.files file).inode.i_atime

  unfoldable pub node_ext2fs_stat_i_mtime : ℤ
  node_ext2fs_stat_i_mtime = signed32 (w.files file).inode.i_mtime

  unfoldable pub node_ext2fs_stat_i_ctime : ℤ
  node_ext2fs_stat_i_ctime = signed32 (w.files file).inode.i_ctime
