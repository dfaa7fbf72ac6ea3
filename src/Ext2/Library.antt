-- ===== src/Ext2/Library.antt =====
-- The functions of libext2fs, the C library and the clock that src/glue.c calls. Their code is not
-- part of the repository (e2fsprogs is a submodule), so they are the fields of a record, a
-- parameter of every definition that calls them.
use node_ext2fs.Base.{ℕ, ℤ, Bool, Option}
use node_ext2fs.Ext2.Filsys.{Bytes, Ino, World}
use node_ext2fs.Ext2.Inode.{Inode, InodeLarge, DirEntry}

-- A call returns its `errcode_t`, zero for success, and what it stored through its pointers.
abbrev pub Call : Type 0 → Type 0 → Type 0
Call D A = World D → ℕ × A × World D

-- A call with no error code.
abbrev pub Cmd : Type 0 → Type 0 → Type 0
Cmd D A = World D → A × World D

pub record Timespec : Type 0 where
  pub tv_sec : ℤ
  pub tv_nsec : ℕ

-- What a directory iterator calls for each entry: it returns its flags, the entry as it leaves it
-- and its private data.
abbrev pub Visit : Type 0 → Type 0
Visit P = DirEntry → P → ℕ × DirEntry × P

pub record Ext2fs (D : Type 0) : Type 1 where
  -- the filesystem and its bitmaps
  pub fs_open : (name : Bytes) (flags : ℕ) → Call D ℕ
  pub fs_close : Call D (Unit {0})
  pub read_bitmaps : Call D (Unit {0})
  pub read_block_bitmap : Call D (Unit {0})
  pub test_block_bitmap : (blk : ℕ) → World D → Bool
  pub test_inode_bitmap2 : Ino → World D → Bool
  pub flush : Call D (Unit {0})
  pub flush2 : (flags : ℕ) → Call D (Unit {0})
  pub io_channel_discard : (block count : ℕ) → Call D (Unit {0})
  pub io_channel_read_blk64 : (block count : ℕ) → Call D Bytes
  -- names and directories
  pub namei : (root cwd : Ino) → Bytes → Call D Ino
  pub namei_follow : (root cwd : Ino) → Bytes → Call D Ino
  pub link : (dir : Ino) → Bytes → (ino : Ino) (flags : ℕ) → Call D (Unit {0})
  pub unlink : (dir : Ino) → Bytes → (ino : Ino) (flags : ℕ) → Call D (Unit {0})
  pub expand_dir : (dir : Ino) → Call D (Unit {0})
  pub mkdir : (parent inum : Ino) → Bytes → Call D (Unit {0})
  pub symlink : (parent ino : Ino) → (name target : Bytes) → Call D (Unit {0})
  pub check_directory : Ino → Call D (Unit {0})
  pub dirent_name_len : DirEntry → ℕ
  pub dir_iterate : {P : Type 0} → (dir : Ino) (flags : ℕ) → Visit P → P → Call D P
  pub dir_iterate2 : {P : Type 0} → (dir : Ino) (flags : ℕ) → Visit P → P → Call D P
  -- inodes
  pub new_inode : (dir : Ino) (mode : ℕ) → Call D Ino
  pub read_inode : Ino → Call D Inode
  pub write_inode : Ino → Inode → Call D (Unit {0})
  pub write_new_inode : Ino → Inode → Call D (Unit {0})
  pub read_inode_full : Ino → Call D InodeLarge
  pub write_inode_full : Ino → InodeLarge → Call D (Unit {0})
  pub inode_alloc_stats2 : Ino → (inuse : ℤ) (isdir : Bool) → World D → World D
  pub inode_size_set : Inode → (size : ℕ) → Call D Inode
  pub extent_open2 : Ino → Inode → Call D Inode
  pub inline_data_init : Ino → Call D (Unit {0})
  pub inline_data_get : Ino → Inode → Call D Bytes
  pub free_ext_attr : Ino → InodeLarge → Call D InodeLarge
  pub inode_has_valid_blocks2 : Inode → World D → Bool
  pub punch : Ino → Inode → (start end : ℕ) → Call D Inode
  pub is_fast_symlink : Inode → Bool
  pub bmap2 : Ino → Inode → (block : ℕ) → Call D ℕ
  -- open files, by their address
  pub file_open : Ino → (flags : ℕ) → Call D ℕ
  pub file_close : ℕ → Call D (Unit {0})
  pub file_read : ℕ → (buf wanted : ℕ) → Call D ℕ
  pub file_write : ℕ → (buf nbytes : ℕ) → Call D ℕ
  pub file_flush : ℕ → Call D (Unit {0})
  pub file_llseek : ℕ → (offset whence : ℕ) → Call D (Unit {0})
  pub file_set_size2 : ℕ → (size : ℕ) → Call D (Unit {0})
  -- memory, the clock and the platform's errno.h
  pub get_mem : (size : ℕ) → Call D (Unit {0})
  pub get_memzero : (size : ℕ) → Call D (Unit {0})
  pub strdup_succeeds : Cmd D Bool
  pub clock_gettime : Cmd D (ℕ × Timespec)
  pub time : Cmd D ℤ
  pub enodata : Option ℕ
  pub eopnotsupp : ℕ
