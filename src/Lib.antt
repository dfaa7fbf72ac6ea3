-- ===== src/Lib.antt =====
-- The glue of node-ext2fs: a C library that is compiled to WebAssembly and gives JavaScript an ext2,
-- ext3 or ext4 filesystem on a disk that JavaScript provides.
--
-- The program. JavaScript calls the `node_ext2fs_` functions of src/glue.c, one at a time by the
-- queue of lib/queue.js; a result below zero is a negated errno value, which lib/util.js throws.
-- Those functions call libext2fs, which in turn reads and writes the disk through the I/O manager at
-- the end of src/glue.c, and that calls back into JavaScript, where src/pre.js knows the disks and
-- arrays by number.
--
-- The model. A function of the glue is a function from a state to a result and a state. The state
-- (`World` in Ext2/Filsys) has what the glue itself reads and writes: the fields of the filesystem
-- handle, the open files, the arrays that JavaScript passes, and a part `lib` of any type, which is
-- the state of libext2fs. The library is a git submodule whose sources are not in the repository:
-- it is a record of calls (`Ext2fs` in Ext2/Library) that every definition takes, and a call gives
-- an error code, a value and a new state. What the proofs assume of it is in the records of Laws,
-- Translate/Codes, Trim/Loop, Names/Library, Create/Laws, Link/Laws, Files/Opened, Io/Written,
-- Js/Disk/Partitions, Widths/Library and Js/Hooks/Ids; Tests has a small filesystem and a disk in
-- memory that meet them. `Prog` has the notation for a C function with early returns: `call_neg` is
-- `if (ret) return -ret;`, `call_translate` is a failing call whose code goes through
-- `translate_error`.
--
-- Which file models which part of src/glue.c and src/ext2fs.h:
--   Base            numbers, 32-bit and signed conversions, bit operations, lists
--   Ext2            src/ext2fs.h: error codes, flags, inodes, the filesystem handle, the library
--   Translate       __translate_error
--   Paths           get_filename, get_parent_dir_ino, string_to_inode
--   Times           the ext4 time macros, get_now, update_atime, update_ctime, update_mtime
--   Create          create_file
--   Files           node_ext2fs_open, _read, _write, _chmod, _chown, _close, update_xtime
--   Stat, FileType  the node_ext2fs_stat_ functions, getUInt64Number, ext2_file_type
--   Modes           lemmas on the mode bits
--   Dirs            node_ext2fs_readdir, node_ext2fs_mkdir
--   Remove          node_ext2fs_unlink, node_ext2fs_rmdir, remove_inode
--   Rename, Link    node_ext2fs_rename; node_ext2fs_link, _symlink, _readlink
--   Names           the names of a filesystem, as a bag, and the functions that change them;
--                   Names/Agreement has a relation of steps
--   Widths          the C types of an inode's numbers, and that every exported function keeps them
--   Mount, Trim     node_ext2fs_mount, _umount; node_ext2fs_trim
--   Io              blk_read, blk_write, discard, flush, the js_..._entry functions and
--                   get_js_io_manager
--   Js              lib/queue.js, with its requests as steps of a relation; the object numbers of
--                   src/pre.js; the wrapper of lib/disk.js; usePath, ErrnoException and ccallThrow
--                   of lib/util.js; the table of lib/wasi.js; mount, umount and withMountedDisk
--                   of lib/ext2fs.js; the hooks of lib/util.js in Js/Hooks; of lib/fs.js, the options and
--                   flags in Js/Options, and open, close, write, writeFile and appendFile in
--                   Js/Files
--   Laws            what is assumed of the library about inodes, names and directories
--   Tests           the filesystem in memory and the theorems at concrete inputs
--
-- Numbers are natural numbers; where the source can wrap, the remainder is written out. Those of an
-- inode are below the bound of their C type, by Widths. A C string is the list of its characters
-- without the final NUL.
--
-- Loops and fuel. The only loop of the glue is that of `node_ext2fs_trim`, whose counter is an
-- `unsigned int`: it runs on fuel, and the number of blocks and two more rounds are enough. The
-- digits of a number run on fuel too: ten are enough for 32 bits. `writeAll` of lib/fs.js runs on
-- one round for each byte and one more, which is enough if each write stores some byte.
--
-- Not modelled: the messages to stdout and stderr, the buffers that the glue itself frees, `malloc`
-- and `free` behind `malloc_from_js` and `free_from_js`, the bodies of libext2fs, and the suspended
-- WebAssembly stack during a disk access, since the queue awaits one request at a time. Of the
-- JavaScript, the rest of lib/ is not modelled: calls that overlap while one is awaited, the
-- functions of lib/fs.js that only pass their arguments on, and its streams, file handles and
-- callbacks, whose code depends on the classes of node.
pub mod Base
pub mod Ext2
pub mod Prog
pub mod Translate
pub mod Paths
pub mod Times
pub mod Create
pub mod Files
pub mod Stat
pub mod Dirs
pub mod Laws
pub mod Names
pub mod Remove
pub mod FileType
pub mod Rename
pub mod Link
pub mod Mount
pub mod Js
pub mod Trim
pub mod Widths
pub mod Io
pub mod Modes
pub mod Tests
