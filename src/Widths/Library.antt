-- ===== src/Widths/Library.antt =====
-- What is assumed of libext2fs: the inodes that it reads, changes and keeps are within the types of
-- their fields, as those of C are, and so are those of the open files.
use node_ext2fs.Base.{ℕ, ℤ, Bool}
use node_ext2fs.Ext2.Filsys.{Bytes, Ino, World}
use node_ext2fs.Ext2.Inode.{Inode, InodeLarge}
use node_ext2fs.Ext2.Library.{Ext2fs, Visit}
use node_ext2fs.Link.Target.{IsText}
use node_ext2fs.Widths.{Any, Fits, FitsLarge, Within, KeepsCmd, KeepsCall}

module _ {D : Type 0} (lib : Ext2fs D) (Stored : D → Type 0) where
  pub record WidthLaws : Type 1 where
    -- the filesystem and its bitmaps
    pub fs_open : (name : Bytes) (flags : ℕ) → KeepsCall Stored Any (lib.fs_open name flags)
    pub fs_close : KeepsCall Stored Any lib.fs_close
    pub read_bitmaps : KeepsCall Stored Any lib.read_bitmaps
    pub read_block_bitmap : KeepsCall Stored Any lib.read_block_bitmap
    pub flush : KeepsCall Stored Any lib.flush
    pub flush2 : (flags : ℕ) → KeepsCall Stored Any (lib.flush2 flags)
    pub io_channel_discard :
        (block count : ℕ) → KeepsCall Stored Any (lib.io_channel_discard block count)
    pub io_channel_read_blk64 :
        (block count : ℕ) → KeepsCall Stored Any (lib.io_channel_read_blk64 block count)
    -- names and directories
    pub namei : (root cwd : Ino) (path : Bytes) → KeepsCall Stored Any (lib.namei root cwd path)
    pub namei_follow :
        (root cwd : Ino) (path : Bytes) → KeepsCall Stored Any (lib.namei_follow root cwd path)
    pub link :
        (dir : Ino) (name : Bytes) (ino : Ino) (flags : ℕ)
        → KeepsCall Stored Any (lib.link dir name ino flags)
    pub unlink :
        (dir : Ino) (name : Bytes) (ino : Ino) (flags : ℕ)
        → KeepsCall Stored Any (lib.unlink dir name ino flags)
    pub expand_dir : (dir : Ino) → KeepsCall Stored Any (lib.expand_dir dir)
    pub mkdir : (parent ino : Ino) (name : Bytes) → KeepsCall Stored Any (lib.mkdir parent ino name)
    pub symlink :
        (parent ino : Ino) (name target : Bytes)
        → IsText target
        → KeepsCall Stored Any (lib.symlink parent ino name target)
    pub check_directory : (ino : Ino) → KeepsCall Stored Any (lib.check_directory ino)
    pub dir_iterate :
        (P : Type 0) (dir : Ino) (flags : ℕ) (f : Visit P) (p : P)
        → KeepsCall Stored Any (lib.dir_iterate dir flags f p)
    pub dir_iterate2 :
        (P : Type 0) (dir : Ino) (flags : ℕ) (f : Visit P) (p : P)
        → KeepsCall Stored Any (lib.dir_iterate2 dir flags f p)
    -- inodes
    pub new_inode : (dir : Ino) (mode : ℕ) → KeepsCall Stored Any (lib.new_inode dir mode)
    pub read_inode : (ino : Ino) → KeepsCall Stored Fits (lib.read_inode ino)
    pub write_inode :
        (ino : Ino) (i : Inode) → Fits i → KeepsCall Stored Any (lib.write_inode ino i)
    pub write_new_inode :
        (ino : Ino) (i : Inode) → Fits i → KeepsCall Stored Any (lib.write_new_inode ino i)
    pub read_inode_full : (ino : Ino) → KeepsCall Stored FitsLarge (lib.read_inode_full ino)
    pub write_inode_full :
        (ino : Ino) (i : InodeLarge)
        → FitsLarge i
        → KeepsCall Stored Any (lib.write_inode_full ino i)
    pub inode_alloc_stats2 :
        (ino : Ino) (inuse : ℤ) (isdir : Bool) (w : World D)
        → Within Stored w
        → Within Stored (lib.inode_alloc_stats2 ino inuse isdir w)
    pub inode_size_set :
        (i : Inode) (size : ℕ) → Fits i → KeepsCall Stored Fits (lib.inode_size_set i size)
    pub extent_open2 :
        (ino : Ino) (i : Inode) → Fits i → KeepsCall Stored Fits (lib.extent_open2 ino i)
    pub inline_data_init : (ino : Ino) → KeepsCall Stored Any (lib.inline_data_init ino)
    pub inline_data_get : (ino : Ino) (i : Inode) → KeepsCall Stored Any (lib.inline_data_get ino i)
    pub free_ext_attr :
        (ino : Ino) (i : InodeLarge)
        → FitsLarge i
        → KeepsCall Stored FitsLarge (lib.free_ext_attr ino i)
    pub punch :
        (ino : Ino) (i : Inode) (start end : ℕ)
        → Fits i
        → KeepsCall Stored Fits (lib.punch ino i start end)
    pub bmap2 : (ino : Ino) (i : Inode) (block : ℕ) → KeepsCall Stored Any (lib.bmap2 ino i block)
    -- open files
    pub file_open : (ino : Ino) (flags : ℕ) → KeepsCall Stored Any (lib.file_open ino flags)
    pub file_close : (file : ℕ) → KeepsCall Stored Any (lib.file_close file)
    pub file_read : (file buf wanted : ℕ) → KeepsCall Stored Any (lib.file_read file buf wanted)
    pub file_write : (file buf nbytes : ℕ) → KeepsCall Stored Any (lib.file_write file buf nbytes)
    pub file_flush : (file : ℕ) → KeepsCall Stored Any (lib.file_flush file)
    pub file_llseek :
        (file offset whence : ℕ) → KeepsCall Stored Any (lib.file_llseek file offset whence)
    pub file_set_size2 : (file size : ℕ) → KeepsCall Stored Any (lib.file_set_size2 file size)
    -- memory and the clock
    pub get_mem : (size : ℕ) → KeepsCall Stored Any (lib.get_mem size)
    pub get_memzero : (size : ℕ) → KeepsCall Stored Any (lib.get_memzero size)
    pub strdup_succeeds : KeepsCmd Stored Any lib.strdup_succeeds
    pub clock_gettime : KeepsCmd Stored Any lib.clock_gettime
    pub time : KeepsCmd Stored Any lib.time
