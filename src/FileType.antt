-- ===== src/FileType.antt =====
-- `ext2_file_type` of src/glue.c: the type of a directory entry from the mode of its inode.
use node_ext2fs.Base.{ℕ, if◌then◌else◌}
use node_ext2fs.Ext2.Modes.{
  linux_s_isreg, linux_s_isdir, linux_s_ischr, linux_s_isblk, linux_s_islnk, linux_s_isfifo,
  linux_s_issock, ext2_ft_reg_file, ext2_ft_dir, ext2_ft_chrdev, ext2_ft_blkdev, ext2_ft_symlink,
  ext2_ft_fifo, ext2_ft_sock,
}

unfoldable pub ext2_file_type : ℕ → ℕ
ext2_file_type mode =
    if linux_s_isreg mode
    then ext2_ft_reg_file
    else if linux_s_isdir mode
    then ext2_ft_dir
    else if linux_s_ischr mode
    then ext2_ft_chrdev
    else if linux_s_isblk mode
    then ext2_ft_blkdev
    else if linux_s_islnk mode
    then ext2_ft_symlink
    else if linux_s_isfifo mode
    then ext2_ft_fifo
    else if linux_s_issock mode
    then ext2_ft_sock
    else 0
