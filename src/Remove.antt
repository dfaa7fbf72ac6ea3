-- ===== src/Remove.antt =====
-- Taking names and inodes away in src/glue.c: unlink and rmdir, and what they share.
pub mod Counts
pub mod Empty
pub mod Links
use node_ext2fs.Base.{
  ℕ, ℤ, pos, negsuc, neg, wrap, ◌-◌, bit_and, Bool, true, false, not, none, some, ◌&&◌, ltb, ◌==◌,
  if◌then◌else◌,
}
use node_ext2fs.Dirs.{dot, char_at, next_char}
use node_ext2fs.Ext2.Errors.{eisdir, enotempty}
use node_ext2fs.Ext2.Filsys.{Bytes, Ino, World}
use node_ext2fs.Ext2.Inode.{InodeLarge}
use node_ext2fs.Ext2.Library.{Ext2fs, Cmd, Visit}
use node_ext2fs.Ext2.Modes.{ext2_root_ino, linux_s_isdir}
use node_ext2fs.Paths.{strrchr}
use node_ext2fs.Prog.{Prog, ◌>>=◌, ◌>>◌, pure, exit_if, on, raw, run, unless_zero, function}
use node_ext2fs.Times.{update_ctime_at, update_mtime, update_mtime_at}
use node_ext2fs.Translate.{translate_error, call_translate}

-- The inode with another link count.
abbrev pub with_links : ℕ → InodeLarge → InodeLarge
with_links n i = record i { base = record i.base { i_links_count = n } }

abbrev pub with_dtime : ℕ → InodeLarge → InodeLarge
with_dtime t i = record i { base = record i.base { i_dtime = t } }

pub record RdStruct : Type 0 where
  pub parent : Ino
  pub empty : Bool

-- Looks through the entries of a directory: notes its parent, and any entry but `.` and `..`.
unfoldable pub rmdir_proc : Visit RdStruct
rmdir_proc dirent rds =
    let len = bit_and dirent.name_len 0xff in
    let first = char_at dirent.name == dot in
    let second = char_at (next_char dirent.name) == dot in
    (
      0,
      dirent,
      if dirent.inode == 0
          then rds
          else if len == 1 && first
          then rds
          else if len == 2 && first && second
          then record rds { parent = dirent.inode }
          else record rds { empty = false },
    )

module _ {D : Type 0} (lib : Ext2fs D) where
  unfoldable pub unlink_file_by_name : Bytes → Cmd D ℤ
  unlink_file_by_name path = function do
    dir ← elim (strrchr path) [
      | some (before, _) ↦ call_translate lib 0 (lib.namei ext2_root_ino ext2_root_ino before)
      | none ↦ pure ext2_root_ino
    ]
    let name : Bytes = elim (strrchr path) [ some (_, behind) ↦ behind | none ↦ path ]
    call_translate lib dir (lib.unlink dir name 0 0)
    run (update_mtime lib dir)

  -- What `remove_inode` does to an inode with no link left, before it writes it; with the inode the
  -- value of `ret`. An error of `ext2fs_free_ext_attr` skips the rest, and is not returned.
  unfoldable pub free_blocks : Ino → InodeLarge → Cmd D (ℤ × InodeLarge)
  free_blocks ino inode w =
      let (err, inode₁, w₁) = lib.free_ext_attr ino inode w in
      let freed = λ (i : InodeLarge) (v : World D).
        lib.inode_alloc_stats2 ino (negsuc 0) (linux_s_isdir i.base.i_mode) v in
      if err == 0
      then if lib.inode_has_valid_blocks2 inode₁.base w₁
        then (let (err₂, base, w₂) = lib.punch ino inode₁.base 0 0xffff_ffff_ffff_ffff w₁ in
            let inode₂ : InodeLarge = record inode₁ { base = base } in
            if err₂ == 0
            then ((pos 0, inode₂), freed inode₂ w₂)
            else (let (r, w₃) = translate_error lib ino err₂ w₂ in ((r, inode₂), w₃)))
        else ((pos 0, inode₁), freed inode₁ w₁)
      else ((pos 0, inode₁), w₁)

  -- The inode with one link less, and with a deletion time if that was the last one.
  unfoldable pub drop_link : InodeLarge → Cmd D InodeLarge
  drop_link inode w =
      let i = with_links (inode.base.i_links_count - 1) inode in
      if inode.base.i_links_count == 1
      then (let (now, w₁) = lib.time w in (with_dtime (wrap 32 now) i, w₁))
      else (i, w)

  unfoldable pub remove_inode : Ino → Cmd D ℤ
  remove_inode ino = function do
    found ← call_translate lib ino (lib.read_inode_full ino)
    exit_if (found.base.i_links_count == 0) (pos 0)
    dropped ← run (drop_link found)
    stamped ← run (update_ctime_at lib dropped)
    (r, inode) ←
        if stamped.base.i_links_count == 0
        then run (free_blocks ino stamped)
        else pure (pos 0, stamped)
    call_translate lib ino (lib.write_inode_full ino inode)
    pure r

  unfoldable pub node_ext2fs_unlink : Bytes → Cmd D ℤ
  node_ext2fs_unlink path = function do
    ino ← call_translate lib 0 (lib.namei ext2_root_ino ext2_root_ino path)
    (err, _) ← raw (lib.check_directory ino)
    exit_if (err == 0) (neg eisdir)
    unless_zero (unlink_file_by_name path)
    run (remove_inode ino)

  -- The last part of `node_ext2fs_rmdir`: the parent has a subdirectory less.
  unfoldable pub drop_parent_link : Ino → Prog D (Unit {0})
  drop_parent_link parent = do
    inode ← call_translate lib parent (lib.read_inode_full parent)
    let n = inode.base.i_links_count
    inode ← run (update_mtime_at lib (if ltb 1 n then with_links (n - 1) inode else inode))
    call_translate lib parent (lib.write_inode_full parent inode)

  unfoldable pub node_ext2fs_rmdir : Bytes → Cmd D ℤ
  node_ext2fs_rmdir path = function do
    child ← call_translate lib 0 (lib.namei ext2_root_ino ext2_root_ino path)
    rds ←
        call_translate lib child
          (lib.dir_iterate2 child 0 rmdir_proc (record { parent = 0; empty = true }))
    exit_if (not rds.empty) (neg enotempty)
    unless_zero (unlink_file_by_name path)
    unless_zero (remove_inode child)
    unless_zero (remove_inode child)
    on (not (rds.parent == 0)) (drop_parent_link rds.parent)
    pure (pos 0)
