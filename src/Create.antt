-- ===== src/Create.antt =====
-- `create_file` of src/glue.c, and the linking of a name that it shares with rename and link.
pub mod Laws
pub mod Filled
pub mod Made
use node_ext2fs.Base.{
  ℕ, pos, pos_part, wrap, ◌%◌, ◌^◌, bit_and, bit_or, false, replicate, ◌==◌, if◌then◌else◌,
}
use node_ext2fs.Ext2.Errors.{eisdir, enotdir, ext2_et_dir_no_space}
use node_ext2fs.Ext2.Filsys.{
  Bytes, Ino, World, ext2fs_has_feature_inline_data, ext2fs_has_feature_extents,
}
use node_ext2fs.Ext2.Inode.{Inode}
use node_ext2fs.Ext2.Library.{Ext2fs, Call}
use node_ext2fs.Ext2.Modes.{
  has, ext2_ft_reg_file, linux_s_ifreg, not_linux_s_ifmt, ext4_inline_data_fl,
}
use node_ext2fs.Paths.{get_filename, get_parent_dir_ino}
use node_ext2fs.Prog.{
  Exit, next, ret, Prog, ◌>>=◌, ◌>>◌, pure, exit_if, on, run, modify, or_exit, call_ret,
}

-- An inode whose bytes are all zero, as `memset` leaves it.
abbrev pub zero_inode : Inode
zero_inode = record {
  i_mode = 0;
  i_uid = 0;
  i_size = 0;
  i_atime = 0;
  i_ctime = 0;
  i_mtime = 0;
  i_dtime = 0;
  i_gid = 0;
  i_links_count = 0;
  i_blocks = 0;
  i_flags = 0;
  l_i_version = 0;
  i_block = replicate 15 0;
  i_generation = 0;
  i_file_acl = 0;
  i_size_high = 0;
  i_faddr = 0;
  l_i_blocks_hi = 0;
  l_i_file_acl_high = 0;
  l_i_uid_high = 0;
  l_i_gid_high = 0;
  l_i_checksum_lo = 0;
  l_i_reserved = 0;
}

-- `~EXT4_EXTENTS_FL`
abbrev pub not_ext4_extents_fl : ℕ
not_ext4_extents_fl = 0xfff7_ffff

module _ {D : Type 0} (lib : Ext2fs D) where
  -- `ext2fs_link`, once more after `ext2fs_expand_dir` if the directory has no space.
  unfoldable pub link_expanding : (dir : Ino) → Bytes → (ino : Ino) (flags : ℕ) → Call D (Unit {0})
  link_expanding dir name ino flags w =
      let (e, _, w₁) = lib.link dir name ino flags w in
      if e == ext2_et_dir_no_space
      then (let (e₂, _, w₂) = lib.expand_dir dir w₁ in
          if e₂ == 0 then lib.link dir name ino flags w₂ else (e₂, tt, w₂))
      else (e, tt, w₁)

  -- The new inode's flags and block map, by the features of the filesystem.
  abbrev pub init_block_map : Ino → Inode → Prog D Inode
  init_block_map ino inode w =
      if ext2fs_has_feature_inline_data w.fs.super
      then (next (record inode { i_flags = bit_or inode.i_flags ext4_inline_data_fl }), w)
      else if ext2fs_has_feature_extents w.fs.super
      then call_ret
          (lib.extent_open2 ino
            (record inode { i_flags = bit_and inode.i_flags not_ext4_extents_fl }))
          w
      else (next inode, w)

  -- From the test for inline data to the end.
  unfoldable pub write_filled : Ino → Inode → Prog D (Unit {0})
  write_filled ino inode = do
    inode ← init_block_map ino inode
    call_ret (lib.write_new_inode ino inode)
    on (has inode.i_flags ext4_inline_data_fl) (call_ret (lib.inline_data_init ino))

  -- From `ext2fs_inode_alloc_stats2` to the end: the inode of an empty file.
  unfoldable pub fill_inode : Ino → (mode : ℕ) → Prog D (Unit {0})
  fill_inode ino mode = do
    modify (lib.inode_alloc_stats2 ino (pos 1) false)
    now ← run lib.time
    inode ← call_ret (
        lib.inode_size_set
          (record zero_inode {
            i_mode = bit_or (bit_and mode not_linux_s_ifmt) linux_s_ifreg % 2 ^ 16;
            i_atime = wrap 32 now;
            i_ctime = wrap 32 now;
            i_mtime = wrap 32 now;
            i_links_count = 1;
          })
          0)
    write_filled ino inode

  -- From `ext2fs_link` to the end: the new inode gets its name.
  unfoldable pub name_file : (parent_ino : Ino) → Bytes → (ino : Ino) (mode : ℕ) → Prog D Ino
  name_file parent_ino filename ino mode = do
    call_ret (link_expanding parent_ino filename ino ext2_ft_reg_file)
    fill_inode ino mode
    pure ino

  -- What comes behind the look-up of the directory.
  unfoldable pub create_in : (parent_ino : Ino) → Bytes → (mode : ℕ) → Prog D Ino
  create_in parent_ino path mode = do
    ino ← call_ret (lib.new_inode parent_ino mode)
    filename ← or_exit (get_filename path) (pos eisdir)
    name_file parent_ino filename ino mode

  unfoldable pub create_file_body : Bytes → (mode : ℕ) → Prog D Ino
  create_file_body path mode = do
    parent_ino ← run (get_parent_dir_ino lib path)
    exit_if (parent_ino == 0) (pos enotdir)
    create_in parent_ino path mode

  -- The error code, not negated, and the inode number (0 with an error: no caller reads it).
  abbrev pub created : Exit Ino × World D → ℕ × Ino × World D
  created (next ino, w) = (0, ino, w)
  created (ret r, w) = (pos_part r, 0, w)

  unfoldable pub create_file : Bytes → (mode : ℕ) → Call D Ino
  create_file path mode w = created (create_file_body path mode w)
