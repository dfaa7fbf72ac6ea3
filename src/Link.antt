-- ===== src/Link.antt =====
-- `node_ext2fs_link`, `node_ext2fs_symlink` and `node_ext2fs_readlink` of src/glue.c.
pub mod Counts
pub mod Laws
pub mod Linked
pub mod Outcome
pub mod Symlinks
pub mod Target
use node_ext2fs.Base.{
  ℕ, ℤ, pos, neg, ◌+◌, ◌/◌, ◌%◌, ◌^◌, false, not, List, [], ◌∷◌, ◌++◌, ◌||◌, ◌==◌, if◌then◌else◌,
}
use node_ext2fs.Create.{link_expanding}
use node_ext2fs.Dirs.{array_push_buffer}
use node_ext2fs.Ext2.Errors.{ext2_et_dir_no_space, einval, enoent, enomem}
use node_ext2fs.Ext2.Filsys.{Bytes, Ino}
use node_ext2fs.Ext2.Inode.{Inode}
use node_ext2fs.Ext2.Library.{Ext2fs, Call, Cmd}
use node_ext2fs.Ext2.Modes.{has, ext2_root_ino, linux_s_islnk, ext4_inline_data_fl}
use node_ext2fs.FileType.{ext2_file_type}
use node_ext2fs.Paths.{slash, strrchr, string_to_inode}
use node_ext2fs.Prog.{
  Prog, ◌>>=◌, ◌>>◌, pure, exit_if, raw, run, gets, modify, or_exit, call_or, call_neg, unless_zero,
  function,
}
use node_ext2fs.Remove.{with_links}
use node_ext2fs.Rename.{exit_translate_if}
use node_ext2fs.Times.{update_ctime_at, update_mtime}
use node_ext2fs.Translate.{call_translate}

-- The characters up to the first NUL, or to the end of the buffer.
unfoldable pub c_string : Bytes → Bytes
c_string [] = []
c_string (c ∷ s) = let rest = c_string s in if c == 0 then [] else c ∷ rest

-- The bytes of 32-bit words in little-endian order.
unfoldable pub block_bytes : List ℕ → Bytes
block_bytes [] = []
block_bytes (b ∷ bs) =
    b % 256 ∷ b / 256 % 256 ∷ b / 65536 % 256 ∷ b / 16777216 % 256 ∷ block_bytes bs

module _ {D : Type 0} (lib : Ext2fs D) where
  -- The inode gets another link, and the directory its name.
  unfoldable pub add_link : (ino parent : Ino) (name : Bytes) → Prog D ℤ
  add_link ino parent name = do
    inode ← call_translate lib ino (lib.read_inode_full ino)
    inode ← run (update_ctime_at lib (with_links ((inode.base.i_links_count + 1) % 2 ^ 16) inode))
    call_translate lib ino (lib.write_inode_full ino inode)
    call_translate lib parent
        (link_expanding lib parent name ino (ext2_file_type inode.base.i_mode))
    unless_zero (update_mtime lib parent)
    pure (pos 0)

  -- A failing look-up of the parent sets `err`, and the function returns `ret`, which is still 0.
  unfoldable pub node_ext2fs_link : (src dest : Bytes) → Cmd D ℤ
  node_ext2fs_link src dest = function do
    copied ← run lib.strdup_succeeds
    exit_if (not copied) (neg enomem)
    (before, name) ← or_exit (strrchr dest) (neg enomem)
    parent ←
        call_or (λ e w. (pos 0, w)) (lib.namei ext2_root_ino ext2_root_ino (before ++ slash ∷ []))
    (err, ino) ← raw (lib.namei ext2_root_ino ext2_root_ino src)
    exit_translate_if lib (not (err == 0) || ino == 0) 0 err
    add_link ino parent name

  -- `ext2fs_symlink`, once more after `ext2fs_expand_dir` if the directory has no space.
  unfoldable pub symlink_expanding : (parent : Ino) → (name target : Bytes) → Call D (Unit {0})
  symlink_expanding parent name target w =
      let (e, _, w₁) = lib.symlink parent 0 name target w in
      if e == ext2_et_dir_no_space
      then (let (e₂, _, w₂) = lib.expand_dir parent w₁ in
          if e₂ == 0 then lib.symlink parent 0 name target w₂ else (e₂, tt, w₂))
      else (e, tt, w₁)

  unfoldable pub node_ext2fs_symlink : (src dest : Bytes) → Cmd D ℤ
  node_ext2fs_symlink src dest = function do
    copied ← run lib.strdup_succeeds
    exit_if (not copied) (neg enomem)
    (before, name) ← or_exit (strrchr dest) (neg enomem)
    parent ← call_translate lib 0 (lib.namei ext2_root_ino ext2_root_ino (before ++ slash ∷ []))
    call_translate lib parent (symlink_expanding parent name src)
    unless_zero (update_mtime lib parent)
    child ← call_translate lib 0 (lib.namei ext2_root_ino ext2_root_ino dest)
    inode ← call_translate lib child (lib.read_inode_full child)
    call_translate lib child (lib.write_inode_full child inode)
    pure (pos 0)

  -- Where the target of a symbolic link is: in the block numbers of its inode, in the inode's
  -- inline data, or in the first block of its data.
  unfoldable pub link_target : Ino → Inode → Prog D Bytes
  link_target ino ei w =
      if lib.is_fast_symlink ei
      then pure (block_bytes ei.i_block) w
      else if has ei.i_flags ext4_inline_data_fl
      then (do call_neg (lib.get_memzero ei.i_size); call_neg (lib.inline_data_get ino ei)) w
      else (do
        blk ← call_neg (lib.bmap2 ino ei 0)
        size ← gets (λ v. v.fs.blocksize)
        call_neg (lib.get_mem size)
        call_neg (lib.io_channel_read_blk64 blk 1))
          w

  unfoldable pub node_ext2fs_readlink : Bytes → (array_id : ℕ) → Cmd D ℤ
  node_ext2fs_readlink path array_id = function do
    ino ← run (string_to_inode lib path false)
    exit_if (ino == 0) (neg enoent)
    ei ← call_neg (lib.read_inode ino)
    exit_if (not (linux_s_islnk ei.i_mode)) (neg einval)
    pathname ← link_target ino ei
    modify (array_push_buffer array_id (c_string pathname))
    pure (pos 0)
