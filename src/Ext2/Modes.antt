-- ===== src/Ext2/Modes.antt =====
-- The flags and mode bits of src/ext2fs.h and of the head of src/glue.c.
use node_ext2fs.Base.{ℕ, Bool, not, bit_and, ◌==◌}

-- `(x & m) != 0`
abbrev pub has : ℕ → ℕ → Bool
has x m = not (bit_and x m == 0)

abbrev pub o_wronly : ℕ
o_wronly = 0o1

abbrev pub o_rdwr : ℕ
o_rdwr = 0o2

abbrev pub o_creat : ℕ
o_creat = 0o100

abbrev pub o_excl : ℕ
o_excl = 0o200

abbrev pub o_trunc : ℕ
o_trunc = 0o1000

abbrev pub o_append : ℕ
o_append = 0o2000

abbrev pub o_directory : ℕ
o_directory = 0o200000

abbrev pub o_nofollow : ℕ
o_nofollow = 0o400000

abbrev pub o_noatime : ℕ
o_noatime = 0o1000000

abbrev pub ext2_file_write : ℕ
ext2_file_write = 1

abbrev pub ext2_file_create : ℕ
ext2_file_create = 2

abbrev pub ext2_root_ino : ℕ
ext2_root_ino = 2

abbrev pub ext2_seek_set : ℕ
ext2_seek_set = 0

abbrev pub ext2_seek_end : ℕ
ext2_seek_end = 2

abbrev pub ext2_flag_rw : ℕ
ext2_flag_rw = 0x01

abbrev pub ext2_flag_changed : ℕ
ext2_flag_changed = 0x02

abbrev pub ext2_flag_dirty : ℕ
ext2_flag_dirty = 0x04

abbrev pub ext4_inline_data_fl : ℕ
ext4_inline_data_fl = 0x10000000

abbrev pub ext4_extents_fl : ℕ
ext4_extents_fl = 0x00080000

abbrev pub dirent_changed : ℕ
dirent_changed = 1

abbrev pub dirent_abort : ℕ
dirent_abort = 2

abbrev pub linux_s_ifmt : ℕ
linux_s_ifmt = 0o170000

abbrev pub linux_s_ifsock : ℕ
linux_s_ifsock = 0o140000

abbrev pub linux_s_iflnk : ℕ
linux_s_iflnk = 0o120000

abbrev pub linux_s_ifreg : ℕ
linux_s_ifreg = 0o100000

abbrev pub linux_s_ifblk : ℕ
linux_s_ifblk = 0o060000

abbrev pub linux_s_ifdir : ℕ
linux_s_ifdir = 0o040000

abbrev pub linux_s_ifchr : ℕ
linux_s_ifchr = 0o020000

abbrev pub linux_s_ififo : ℕ
linux_s_ififo = 0o010000

-- `~LINUX_S_IFMT` on a 32-bit `int`
abbrev pub not_linux_s_ifmt : ℕ
not_linux_s_ifmt = 0xffff_0fff

abbrev pub linux_s_islnk : ℕ → Bool
linux_s_islnk m = bit_and m linux_s_ifmt == linux_s_iflnk

abbrev pub linux_s_isreg : ℕ → Bool
linux_s_isreg m = bit_and m linux_s_ifmt == linux_s_ifreg

abbrev pub linux_s_isdir : ℕ → Bool
linux_s_isdir m = bit_and m linux_s_ifmt == linux_s_ifdir

abbrev pub linux_s_ischr : ℕ → Bool
linux_s_ischr m = bit_and m linux_s_ifmt == linux_s_ifchr

abbrev pub linux_s_isblk : ℕ → Bool
linux_s_isblk m = bit_and m linux_s_ifmt == linux_s_ifblk

abbrev pub linux_s_isfifo : ℕ → Bool
linux_s_isfifo m = bit_and m linux_s_ifmt == linux_s_ififo

abbrev pub linux_s_issock : ℕ → Bool
linux_s_issock m = bit_and m linux_s_ifmt == linux_s_ifsock

abbrev pub ext2_ft_reg_file : ℕ
ext2_ft_reg_file = 1

abbrev pub ext2_ft_dir : ℕ
ext2_ft_dir = 2

abbrev pub ext2_ft_chrdev : ℕ
ext2_ft_chrdev = 3

abbrev pub ext2_ft_blkdev : ℕ
ext2_ft_blkdev = 4

abbrev pub ext2_ft_fifo : ℕ
ext2_ft_fifo = 5

abbrev pub ext2_ft_sock : ℕ
ext2_ft_sock = 6

abbrev pub ext2_ft_symlink : ℕ
ext2_ft_symlink = 7

abbrev pub ext2_feature_incompat_extents : ℕ
ext2_feature_incompat_extents = 0x0040

abbrev pub ext4_feature_incompat_inline_data : ℕ
ext4_feature_incompat_inline_data = 0x8000
