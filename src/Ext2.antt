-- ===== src/Ext2.antt =====
-- The data of src/ext2fs.h and the interface of libext2fs that src/glue.c calls.
pub mod Errors
pub mod Modes
pub mod Inode
pub mod Filsys
pub mod Library
