-- ===== src/Widths/Linked.antt =====
-- link, symlink and readlink keep every inode within its types.
use node_ext2fs.Base.{
  ℕ, pos, neg, ◌+◌, ◌%◌, ◌^◌, false, not, [], ◌∷◌, ◌++◌, ◌||◌, ◌==◌, arith, if◌then◌else◌,
}
use node_ext2fs.Dirs.{array_push_buffer}
use node_ext2fs.Ext2.Errors.{einval, enoent, enomem}
use node_ext2fs.Ext2.Filsys.{Bytes, Ino}
use node_ext2fs.Ext2.Inode.{Inode, InodeLarge}
use node_ext2fs.Ext2.Library.{Ext2fs}
use node_ext2fs.Ext2.Modes.{has, ext2_root_ino, linux_s_islnk, ext4_inline_data_fl}
use node_ext2fs.FileType.{ext2_file_type}
use node_ext2fs.Link.{
  c_string, block_bytes, add_link, node_ext2fs_link, symlink_expanding, node_ext2fs_symlink,
  link_target, node_ext2fs_readlink,
}
use node_ext2fs.Link.Target.{IsText}
use node_ext2fs.Paths.{strrchr, slash}
use node_ext2fs.Prog.{pure, gets, call_neg, ◌>>=◌, ◌>>◌}
use node_ext2fs.Remove.{with_links}
use node_ext2fs.Widths.{Any, FitsLarge, Kept, Keeps, KeepsCmd, KeepsCall}
use node_ext2fs.Widths.Library.{WidthLaws}
use node_ext2fs.Widths.Renamed.{exit_translate_if-Keeps}
use node_ext2fs.Widths.Rules.{
  if-either, Keeps-pure, Keeps-bind, Keeps-exit_if, Keeps-run, Keeps-call_or, Keeps-call_neg,
  Keeps-raw, Keeps-gets, Keeps-modify, Keeps-or_exit, Keeps-unless_zero, Keeps-function,
}
use node_ext2fs.Widths.Shared.{
  Keeps-call_translate, string_to_inode-Keeps, update_ctime_at-Keeps, update_mtime-Keeps,
  expanding-Keeps, link_expanding-Keeps,
}

-- One link more, in 16 bits.
added-FitsLarge :
    (i : InodeLarge) → FitsLarge i → FitsLarge (with_links ((i.base.i_links_count + 1) % 2 ^ 16) i)
added-FitsLarge i h = ground arith

module _ {D : Type 0} (lib : Ext2fs D) (Stored : D → Type 0) (laws : WidthLaws lib Stored) where
  -- The look-up of the directory before the last slash.
  abbrev directory_of : Bytes → Bytes
  directory_of before = before ++ slash ∷ []

  add_link-Keeps :
      (ino parent : Ino) (name : Bytes) → Keeps Stored Any (add_link lib ino parent name)
  unfolding add_link
  add_link-Keeps ino parent name =
      Keeps-bind (Keeps-call_translate lib Stored laws ino (laws.read_inode_full ino)) λ i h.
        Keeps-bind
          (Keeps-run (
            update_ctime_at-Keeps lib Stored laws
              (with_links ((i.base.i_links_count + 1) % 2 ^ 16) i) (added-FitsLarge i h)))
          λ i₂ h₂.
            Keeps-bind (Keeps-call_translate lib Stored laws ino (laws.write_inode_full ino i₂ h₂))
              λ _ _.
                Keeps-bind
                  (Keeps-call_translate lib Stored laws parent (
                    link_expanding-Keeps lib Stored laws parent name ino
                      (ext2_file_type i₂.base.i_mode)))
                  λ _ _.
                    Keeps-bind (Keeps-unless_zero (update_mtime-Keeps lib Stored laws parent))
                      λ _ _. Keeps-pure (pos 0) tt

  pub node_ext2fs_link-Keeps :
      (src dest : Bytes) → KeepsCmd Stored Any (node_ext2fs_link lib src dest)
  unfolding node_ext2fs_link
  node_ext2fs_link-Keeps src dest = Keeps-function (
      Keeps-bind (Keeps-run laws.strdup_succeeds) λ copied _.
        Keeps-bind (Keeps-exit_if (not copied) (neg enomem)) λ _ _.
          Keeps-bind (Keeps-or_exit (strrchr dest) (neg enomem)) λ x _.
            Keeps-bind
              (Keeps-call_or {handler = λ e w. (pos 0, w)} (λ e. record { at = λ w ok. (tt, ok) })
                (laws.namei ext2_root_ino ext2_root_ino (directory_of x.0)))
              λ parent _. Keeps-bind (Keeps-raw (laws.namei ext2_root_ino ext2_root_ino src)) λ y _.
                Keeps-bind
                  (exit_translate_if-Keeps lib Stored laws (not (y.0 == 0) || y.1 == 0) 0 y.0)
                  λ _ _. add_link-Keeps y.1 parent x.1)

  symlink_expanding-Keeps :
      (parent : Ino) (name target : Bytes)
      → IsText target
      → KeepsCall Stored Any (symlink_expanding lib parent name target)
  unfolding symlink_expanding
  symlink_expanding-Keeps parent name target h =
      expanding-Keeps lib Stored laws parent (lib.symlink parent 0 name target)
        (laws.symlink parent 0 name target h)

  pub node_ext2fs_symlink-Keeps :
      (src dest : Bytes) → IsText src → KeepsCmd Stored Any (node_ext2fs_symlink lib src dest)
  unfolding node_ext2fs_symlink
  node_ext2fs_symlink-Keeps src dest h = Keeps-function (
      Keeps-bind (Keeps-run laws.strdup_succeeds) λ copied _.
        Keeps-bind (Keeps-exit_if (not copied) (neg enomem)) λ _ _.
          Keeps-bind (Keeps-or_exit (strrchr dest) (neg enomem)) λ x _.
            Keeps-bind
              (Keeps-call_translate lib Stored laws 0
                (laws.namei ext2_root_ino ext2_root_ino (directory_of x.0)))
              λ parent _.
                Keeps-bind
                  (Keeps-call_translate lib Stored laws parent
                    (symlink_expanding-Keeps parent x.1 src h))
                  λ _ _.
                    Keeps-bind (Keeps-unless_zero (update_mtime-Keeps lib Stored laws parent))
                      λ _ _.
                        Keeps-bind
                          (Keeps-call_translate lib Stored laws 0
                            (laws.namei ext2_root_ino ext2_root_ino dest))
                          λ child _.
                            Keeps-bind
                              (Keeps-call_translate lib Stored laws child
                                (laws.read_inode_full child))
                              λ i fits.
                                Keeps-bind
                                  (Keeps-call_translate lib Stored laws child
                                    (laws.write_inode_full child i fits))
                                  λ _ _. Keeps-pure (pos 0) tt)

  inline_target-Keeps :
      (ino : Ino) (ei : Inode)
      → Keeps Stored Any
          (call_neg (lib.get_memzero ei.i_size) >> call_neg (lib.inline_data_get ino ei))
  inline_target-Keeps ino ei =
      Keeps-bind (Keeps-call_neg (laws.get_memzero ei.i_size))
        λ _ _. Keeps-call_neg (laws.inline_data_get ino ei)

  block_target-Keeps :
      (ino : Ino) (ei : Inode)
      → Keeps Stored Any (
          call_neg (lib.bmap2 ino ei 0) >>= λ blk. gets (λ v. v.fs.blocksize) >>= λ size.
          call_neg (lib.get_mem size) >> call_neg (lib.io_channel_read_blk64 blk 1))
  block_target-Keeps ino ei = Keeps-bind (Keeps-call_neg (laws.bmap2 ino ei 0)) λ blk _.
      Keeps-bind (Keeps-gets Any {f = λ v. v.fs.blocksize} (λ w ok. tt)) λ size _.
        Keeps-bind (Keeps-call_neg (laws.get_mem size))
          λ _ _. Keeps-call_neg (laws.io_channel_read_blk64 blk 1)

  link_target-Keeps : (ino : Ino) (ei : Inode) → Keeps Stored Any (link_target lib ino ei)
  unfolding link_target
  link_target-Keeps ino ei = record {
    at = λ w ok.
        let inline =
          (call_neg (lib.get_memzero ei.i_size) >> call_neg (lib.inline_data_get ino ei)) w in
        let block =
          (call_neg (lib.bmap2 ino ei 0) >>= λ blk. gets (λ v. v.fs.blocksize) >>= λ size.
          call_neg (lib.get_mem size) >> call_neg (lib.io_channel_read_blk64 blk 1))
            w in
        if-either (Kept Stored Any) (lib.is_fast_symlink ei) (pure (block_bytes ei.i_block) w)
          (if has ei.i_flags ext4_inline_data_fl then inline else block) (tt, ok)
          (if-either (Kept Stored Any) (has ei.i_flags ext4_inline_data_fl) inline block
            ((inline_target-Keeps ino ei).at w ok) ((block_target-Keeps ino ei).at w ok));
  }

  pub node_ext2fs_readlink-Keeps :
      (path : Bytes) (id : ℕ) → KeepsCmd Stored Any (node_ext2fs_readlink lib path id)
  unfolding node_ext2fs_readlink
  node_ext2fs_readlink-Keeps path id = Keeps-function (
      Keeps-bind (Keeps-run (string_to_inode-Keeps lib Stored laws path false)) λ ino _.
        Keeps-bind (Keeps-exit_if (ino == 0) (neg enoent)) λ _ _.
          Keeps-bind (Keeps-call_neg (laws.read_inode ino)) λ ei _.
            Keeps-bind (Keeps-exit_if (not (linux_s_islnk ei.i_mode)) (neg einval)) λ _ _.
              Keeps-bind (link_target-Keeps ino ei) λ pathname _.
                Keeps-bind
                  (Keeps-modify {f = array_push_buffer id (c_string pathname)} (λ w ok. ok))
                  λ _ _. Keeps-pure (pos 0) tt)
