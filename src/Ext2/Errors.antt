-- ===== src/Ext2/Errors.antt =====
-- The error numbers that src/glue.c names: the codes of libext2fs (src/ext2fs.h) and the errno
-- values of the WebAssembly system interface, as lib/wasi.js lists them.
use node_ext2fs.Base.{ℕ}

abbrev pub ext2_et_base : ℕ
ext2_et_base = 2133571328

abbrev pub ext2_et_magic_ext2_file : ℕ
ext2_et_magic_ext2_file = 2133571343

abbrev pub ext2_et_dir_no_space : ℕ
ext2_et_dir_no_space = 2133571366

abbrev pub ext2_et_toosmall : ℕ
ext2_et_toosmall = 2133571372

abbrev pub ext2_et_symlink_loop : ℕ
ext2_et_symlink_loop = 2133571392

abbrev pub ext2_et_llseek_failed : ℕ
ext2_et_llseek_failed = 2133571397

abbrev pub ext2_et_no_memory : ℕ
ext2_et_no_memory = 2133571398

abbrev pub ext2_et_invalid_argument : ℕ
ext2_et_invalid_argument = 2133571399

abbrev pub ext2_et_block_alloc_fail : ℕ
ext2_et_block_alloc_fail = 2133571400

abbrev pub ext2_et_inode_alloc_fail : ℕ
ext2_et_inode_alloc_fail = 2133571401

abbrev pub ext2_et_no_directory : ℕ
ext2_et_no_directory = 2133571402

abbrev pub ext2_et_file_not_found : ℕ
ext2_et_file_not_found = 2133571404

abbrev pub ext2_et_unimplemented : ℕ
ext2_et_unimplemented = 2133571408

abbrev pub ext2_et_file_too_big : ℕ
ext2_et_file_too_big = 2133571410

abbrev pub ext2_et_tdb_err_oom : ℕ
ext2_et_tdb_err_oom = 2133571428

abbrev pub ext2_et_tdb_err_exists : ℕ
ext2_et_tdb_err_exists = 2133571429

abbrev pub ext2_et_mmp_failed : ℕ
ext2_et_mmp_failed = 2133571467

abbrev pub ext2_et_mmp_fsck_on : ℕ
ext2_et_mmp_fsck_on = 2133571468

abbrev pub ext2_et_file_exists : ℕ
ext2_et_file_exists = 2133571483

abbrev pub ext2_et_ea_key_not_found : ℕ
ext2_et_ea_key_not_found = 2133571490

abbrev pub ext2_et_ea_no_space : ℕ
ext2_et_ea_no_space = 2133571491

abbrev pub ext2_et_magic_io_channel : ℕ
ext2_et_magic_io_channel = 2133571333

abbrev pub ext2_et_magic_io_manager : ℕ
ext2_et_magic_io_manager = 2133571335

abbrev pub ebadf : ℕ
ebadf = 8

abbrev pub ebusy : ℕ
ebusy = 10

abbrev pub eexist : ℕ
eexist = 20

abbrev pub efault : ℕ
efault = 21

abbrev pub efbig : ℕ
efbig = 22

abbrev pub einval : ℕ
einval = 28

abbrev pub eio : ℕ
eio = 29

abbrev pub eisdir : ℕ
eisdir = 31

abbrev pub emlink : ℕ
emlink = 34

abbrev pub enoent : ℕ
enoent = 44

abbrev pub enomem : ℕ
enomem = 48

abbrev pub enospc : ℕ
enospc = 51

abbrev pub enotdir : ℕ
enotdir = 54

abbrev pub enotempty : ℕ
enotempty = 55
