-- ===== src/Widths/Created.antt =====
-- create_file and node_ext2fs_mkdir keep every inode within its types.
use node_ext2fs.Base.{
  ℕ, ℤ, pos, neg, wrap, ◌%◌, ◌^◌, bit_and, bit_or, false, ◌==◌, arith, if◌then◌else◌,
}
use node_ext2fs.Base.Bits.{bit_and-bound, bit_or-bound}
use node_ext2fs.Create.{
  zero_inode, not_ext4_extents_fl, init_block_map, write_filled, fill_inode, name_file, create_in,
  create_file_body, created, create_file,
}
use node_ext2fs.Dirs.{node_ext2fs_mkdir, make_dir, set_dir_mode}
use node_ext2fs.Ext2.Errors.{eisdir, enotdir}
use node_ext2fs.Ext2.Filsys.{
  Bytes, Ino, World, ext2fs_has_feature_inline_data, ext2fs_has_feature_extents,
}
use node_ext2fs.Ext2.Inode.{Inode}
use node_ext2fs.Ext2.Library.{Ext2fs}
use node_ext2fs.Ext2.Modes.{
  has, ext2_ft_reg_file, linux_s_ifreg, linux_s_ifdir, not_linux_s_ifmt, ext4_inline_data_fl,
}
use node_ext2fs.Paths.{get_filename}
use node_ext2fs.Prog.{Exit, next, ret, call_ret}
use node_ext2fs.Widths.{Any, Fits, Within, Kept, Keeps, KeepsCmd, KeepsCall}
use node_ext2fs.Widths.Library.{WidthLaws}
use node_ext2fs.Widths.Rules.{
  if-either, Keeps-pure, Keeps-bind, Keeps-exit_if, Keeps-on, Keeps-run, Keeps-call_neg,
  Keeps-call_ret, Keeps-raw, Keeps-modify, Keeps-or_exit, Keeps-function,
}
use node_ext2fs.Widths.Shared.{wrap-bound, get_parent_dir_ino-Keeps, link_expanding-Keeps}

-- The new inode of `create_file`.
new_file-Fits :
    (mode : ℕ) (now : ℤ)
    → Fits (record zero_inode {
      i_mode = bit_or (bit_and mode not_linux_s_ifmt) linux_s_ifreg % 2 ^ 16;
      i_atime = wrap 32 now;
      i_ctime = wrap 32 now;
      i_mtime = wrap 32 now;
      i_links_count = 1;
    })
new_file-Fits mode now = ground (arith, wrap-bound now)

module _ {D : Type 0} (lib : Ext2fs D) (Stored : D → Type 0) (laws : WidthLaws lib Stored) where
  init_block_map-Keeps :
      (ino : Ino) (i : Inode) → Fits i → Keeps Stored Fits (init_block_map lib ino i)
  init_block_map-Keeps ino i h = record {
    at = λ w ok.
        let inline : Inode = record i { i_flags = bit_or i.i_flags ext4_inline_data_fl } in
        let extents : Inode = record i { i_flags = bit_and i.i_flags not_ext4_extents_fl } in
        if-either (Kept Stored Fits) (ext2fs_has_feature_inline_data w.fs.super) (next inline, w)
          (if ext2fs_has_feature_extents w.fs.super
            then call_ret (lib.extent_open2 ino extents) w
            else (next i, w))
          (ground (arith, bit_or-bound 32 i.i_flags ext4_inline_data_fl), ok)
          (if-either (Kept Stored Fits) (ext2fs_has_feature_extents w.fs.super)
            (call_ret (lib.extent_open2 ino extents) w) (next i, w)
            ((Keeps-call_ret (
                laws.extent_open2 ino extents
                  (ground (arith, bit_and-bound 32 i.i_flags not_ext4_extents_fl)))).at
              w ok)
            (h, ok));
  }

  write_filled-Keeps : (ino : Ino) (i : Inode) → Fits i → Keeps Stored Any (write_filled lib ino i)
  unfolding write_filled
  write_filled-Keeps ino i h = Keeps-bind (init_block_map-Keeps ino i h) λ i' h'.
      Keeps-bind (Keeps-call_ret (laws.write_new_inode ino i' h')) λ _ _.
        Keeps-on (has i'.i_flags ext4_inline_data_fl) (Keeps-call_ret (laws.inline_data_init ino))

  fill_inode-Keeps : (ino : Ino) (mode : ℕ) → Keeps Stored Any (fill_inode lib ino mode)
  unfolding fill_inode
  fill_inode-Keeps ino mode =
      Keeps-bind (Keeps-modify (laws.inode_alloc_stats2 ino (pos 1) false)) λ _ _.
        Keeps-bind (Keeps-run laws.time) λ now _.
          Keeps-bind
            (Keeps-call_ret (
              laws.inode_size_set
                (record zero_inode {
                  i_mode = bit_or (bit_and mode not_linux_s_ifmt) linux_s_ifreg % 2 ^ 16;
                  i_atime = wrap 32 now;
                  i_ctime = wrap 32 now;
                  i_mtime = wrap 32 now;
                  i_links_count = 1;
                })
                0 (new_file-Fits mode now)))
            λ i h. write_filled-Keeps ino i h

  create_file_body-Keeps :
      (path : Bytes) (mode : ℕ) → Keeps Stored Any (create_file_body lib path mode)
  unfolding create_file_body create_in name_file
  create_file_body-Keeps path mode =
      Keeps-bind (Keeps-run (get_parent_dir_ino-Keeps lib Stored laws path)) λ parent _.
        Keeps-bind (Keeps-exit_if (parent == 0) (pos enotdir)) λ _ _.
          Keeps-bind (Keeps-call_ret (laws.new_inode parent mode)) λ ino _.
            Keeps-bind (Keeps-or_exit (get_filename path) (pos eisdir)) λ name _.
              Keeps-bind
                (Keeps-call_ret
                  (link_expanding-Keeps lib Stored laws parent name ino ext2_ft_reg_file))
                λ _ _. Keeps-bind (fill_inode-Keeps ino mode) λ _ _. Keeps-pure ino tt

  created-Within :
      (x : Exit Ino × World D)
      → Kept Stored Any x
      → Any (created lib x).1 × Within Stored (created lib x).2
  created-Within (next ino, w) h = h
  created-Within (ret r, w) ok = (tt, ok)

  pub create_file-Keeps :
      (path : Bytes) (mode : ℕ) → KeepsCall Stored Any (create_file lib path mode)
  unfolding create_file
  create_file-Keeps path mode = record {
    at = λ w ok.
        created-Within (create_file_body lib path mode w)
          ((create_file_body-Keeps path mode).at w ok);
  }

  set_dir_mode-Keeps : (newdir : Ino) (mode : ℕ) → Keeps Stored Any (set_dir_mode lib newdir mode)
  unfolding set_dir_mode
  set_dir_mode-Keeps newdir mode = Keeps-bind (Keeps-call_neg (laws.read_inode newdir)) λ i h.
      Keeps-bind
        (Keeps-raw (
          laws.write_inode newdir
            (record i { i_mode = bit_or (bit_and mode not_linux_s_ifmt) linux_s_ifdir % 2 ^ 16 })
            (ground arith)))
        λ x _. Keeps-pure (neg x.0) tt

  pub node_ext2fs_mkdir-Keeps :
      (path : Bytes) (mode : ℕ) → KeepsCmd Stored Any (node_ext2fs_mkdir lib path mode)
  unfolding node_ext2fs_mkdir make_dir
  node_ext2fs_mkdir-Keeps path mode = Keeps-function (
      Keeps-bind (Keeps-run (get_parent_dir_ino-Keeps lib Stored laws path)) λ parent _.
        Keeps-bind (Keeps-exit_if (parent == 0) (neg enotdir)) λ _ _.
          Keeps-bind (Keeps-or_exit (get_filename path) (neg eisdir)) λ name _.
            Keeps-bind (Keeps-call_neg (laws.new_inode parent linux_s_ifdir)) λ newdir _.
              Keeps-bind (Keeps-call_neg (laws.mkdir parent newdir name))
                λ _ _. set_dir_mode-Keeps newdir mode)
