-- ===== src/Widths/Calls.antt =====
-- Any sequence of calls of the functions that src/glue.c exports keeps every inode within its types. The
-- functions that read an inode's numbers leave the state as it is, and are left out.
use node_ext2fs.Base.{ℕ, ℤ, some, ◌≡◌}
use node_ext2fs.Dirs.{node_ext2fs_readdir, node_ext2fs_mkdir}
use node_ext2fs.Ext2.Filsys.{Bytes, World}
use node_ext2fs.Ext2.Library.{Ext2fs}
use node_ext2fs.Files.{
  node_ext2fs_open, node_ext2fs_read, node_ext2fs_write, node_ext2fs_chmod, node_ext2fs_chown,
  node_ext2fs_close,
}
use node_ext2fs.Link.{node_ext2fs_link, node_ext2fs_symlink, node_ext2fs_readlink}
use node_ext2fs.Link.Target.{IsText}
use node_ext2fs.Mount.{node_ext2fs_mount, node_ext2fs_umount}
use node_ext2fs.Remove.{node_ext2fs_unlink, node_ext2fs_rmdir}
use node_ext2fs.Rename.{node_ext2fs_rename}
use node_ext2fs.Trim.{node_ext2fs_trim}
use node_ext2fs.Widths.{Within}
use node_ext2fs.Widths.Created.{node_ext2fs_mkdir-Keeps}
use node_ext2fs.Widths.Files.{
  node_ext2fs_open-Keeps, node_ext2fs_read-Keeps, node_ext2fs_write-Keeps, node_ext2fs_chmod-Keeps,
  node_ext2fs_chown-Keeps, node_ext2fs_close-Keeps,
}
use node_ext2fs.Widths.Library.{WidthLaws}
use node_ext2fs.Widths.Linked.{
  node_ext2fs_link-Keeps, node_ext2fs_symlink-Keeps, node_ext2fs_readlink-Keeps,
}
use node_ext2fs.Widths.Mounted.{
  node_ext2fs_mount-Keeps, node_ext2fs_umount-Keeps, node_ext2fs_readdir-Keeps,
  node_ext2fs_trim-Within,
}
use node_ext2fs.Widths.Removed.{node_ext2fs_unlink-Keeps, node_ext2fs_rmdir-Keeps}
use node_ext2fs.Widths.Renamed.{node_ext2fs_rename-Keeps}

-- The states that sequences of calls lead to, with any arguments and any results. The target of a new
-- symbolic link has characters of eight bits and no NUL, and a trim has come to its end.
pub data Calls {D : Type 0} (lib : Ext2fs D) (from : World D) : World D → Type 0 where
  here : Calls lib from from
  mounts :
      (disk_id : ℕ) {w : World D}
      → Calls lib from w
      → Calls lib from (node_ext2fs_mount lib disk_id w).1
  umounts : {w : World D} → Calls lib from w → Calls lib from (node_ext2fs_umount lib w).1
  trims :
      (fuel : ℕ) {w w' : World D} (r : ℤ)
      → Calls lib from w
      → node_ext2fs_trim lib fuel w ≡ some (r, w')
      → Calls lib from w'
  opens :
      (path : Bytes) (flags mode : ℕ) {w : World D}
      → Calls lib from w
      → Calls lib from (node_ext2fs_open lib path flags mode w).1
  reads :
      (file flags buffer length position : ℕ) {w : World D}
      → Calls lib from w
      → Calls lib from (node_ext2fs_read lib file flags buffer length position w).1
  writes :
      (file flags buffer length position : ℕ) {w : World D}
      → Calls lib from w
      → Calls lib from (node_ext2fs_write lib file flags buffer length position w).1
  chmods :
      (file mode : ℕ) {w : World D}
      → Calls lib from w
      → Calls lib from (node_ext2fs_chmod lib file mode w).1
  chowns :
      (file uid gid : ℕ) {w : World D}
      → Calls lib from w
      → Calls lib from (node_ext2fs_chown lib file uid gid w).1
  closes :
      (file : ℕ) {w : World D} → Calls lib from w → Calls lib from (node_ext2fs_close lib file w).1
  lists :
      (path : Bytes) (id : ℕ) {w : World D}
      → Calls lib from w
      → Calls lib from (node_ext2fs_readdir lib path id w).1
  makes_dir :
      (path : Bytes) (mode : ℕ) {w : World D}
      → Calls lib from w
      → Calls lib from (node_ext2fs_mkdir lib path mode w).1
  removes_dir :
      (path : Bytes) {w : World D}
      → Calls lib from w
      → Calls lib from (node_ext2fs_rmdir lib path w).1
  unlinks :
      (path : Bytes) {w : World D}
      → Calls lib from w
      → Calls lib from (node_ext2fs_unlink lib path w).1
  renames :
      (source target : Bytes) {w : World D}
      → Calls lib from w
      → Calls lib from (node_ext2fs_rename lib source target w).1
  links :
      (source target : Bytes) {w : World D}
      → Calls lib from w
      → Calls lib from (node_ext2fs_link lib source target w).1
  symlinks :
      (source target : Bytes) {w : World D}
      → IsText source
      → Calls lib from w
      → Calls lib from (node_ext2fs_symlink lib source target w).1
  reads_link :
      (path : Bytes) (id : ℕ) {w : World D}
      → Calls lib from w
      → Calls lib from (node_ext2fs_readlink lib path id w).1

module _ {D : Type 0} (lib : Ext2fs D) (Stored : D → Type 0) (laws : WidthLaws lib Stored) where
  -- Where the calls of the library keep and give inodes whose numbers are within the types of their
  -- fields in C: if the numbers of each inode are so, those of the library and those of the open files,
  -- they are so after any sequence of calls of the exported functions, with any arguments and whatever
  -- the calls return. No number that a function computes is too large for its field. The target of a
  -- new symbolic link has characters of eight bits and no NUL, and a trim has come to its end.
  pub Calls-Within : {v w : World D} → Calls lib v w → Within Stored v → Within Stored w
  Calls-Within here ok = ok
  Calls-Within (mounts disk_id {w} c) ok =
      ((node_ext2fs_mount-Keeps lib Stored laws disk_id).at w (Calls-Within c ok)).1
  Calls-Within (umounts {w} c) ok =
      ((node_ext2fs_umount-Keeps lib Stored laws).at w (Calls-Within c ok)).1
  Calls-Within (trims fuel {w} {w'} r c e) ok =
      node_ext2fs_trim-Within lib Stored laws fuel w r w' e (Calls-Within c ok)
  Calls-Within (opens path flags mode {w} c) ok =
      ((node_ext2fs_open-Keeps lib Stored laws path flags mode).at w (Calls-Within c ok)).1
  Calls-Within (reads file flags buffer length position {w} c) ok =
      ((node_ext2fs_read-Keeps lib Stored laws file flags buffer length position).at w
        (Calls-Within c ok)).1
  Calls-Within (writes file flags buffer length position {w} c) ok =
      ((node_ext2fs_write-Keeps lib Stored laws file flags buffer length position).at w
        (Calls-Within c ok)).1
  Calls-Within (chmods file mode {w} c) ok =
      ((node_ext2fs_chmod-Keeps lib Stored laws file mode).at w (Calls-Within c ok)).1
  Calls-Within (chowns file uid gid {w} c) ok =
      ((node_ext2fs_chown-Keeps lib Stored laws file uid gid).at w (Calls-Within c ok)).1
  Calls-Within (closes file {w} c) ok =
      ((node_ext2fs_close-Keeps lib Stored laws file).at w (Calls-Within c ok)).1
  Calls-Within (lists path id {w} c) ok =
      ((node_ext2fs_readdir-Keeps lib Stored laws path id).at w (Calls-Within c ok)).1
  Calls-Within (makes_dir path mode {w} c) ok =
      ((node_ext2fs_mkdir-Keeps lib Stored laws path mode).at w (Calls-Within c ok)).1
  Calls-Within (removes_dir path {w} c) ok =
      ((node_ext2fs_rmdir-Keeps lib Stored laws path).at w (Calls-Within c ok)).1
  Calls-Within (unlinks path {w} c) ok =
      ((node_ext2fs_unlink-Keeps lib Stored laws path).at w (Calls-Within c ok)).1
  Calls-Within (renames source target {w} c) ok =
      ((node_ext2fs_rename-Keeps lib Stored laws source target).at w (Calls-Within c ok)).1
  Calls-Within (links source target {w} c) ok =
      ((node_ext2fs_link-Keeps lib Stored laws source target).at w (Calls-Within c ok)).1
  Calls-Within (symlinks source target {w} text c) ok =
      ((node_ext2fs_symlink-Keeps lib Stored laws source target text).at w (Calls-Within c ok)).1
  Calls-Within (reads_link path id {w} c) ok =
      ((node_ext2fs_readlink-Keeps lib Stored laws path id).at w (Calls-Within c ok)).1
