-- ===== src/Remove/Empty.antt =====
-- Which directories `node_ext2fs_rmdir` takes for empty, what it refuses, and the parent that it finds.
use node_ext2fs.Base.{
  pos, neg, Bool, true, false, not, if◌then◌else◌, List, [], ◌∷◌, ◌&&◌, ◌||◌, bit_and, ◌≡◌, refl,
  ap, ◌∙◌, arith, ◌==◌,
}
use node_ext2fs.Dirs.{dot, char_at, next_char}
use node_ext2fs.Ext2.Errors.{enotempty}
use node_ext2fs.Ext2.Filsys.{Bytes, Ino, World}
use node_ext2fs.Ext2.Inode.{DirEntry}
use node_ext2fs.Ext2.Library.{Ext2fs, Call}
use node_ext2fs.Ext2.Modes.{ext2_root_ino}
use node_ext2fs.Laws.{visit_all, IsReadOnly, IterateLaws}
use node_ext2fs.Remove.{RdStruct, rmdir_proc, node_ext2fs_rmdir}
use node_ext2fs.Translate.Codes.{ErrnoLaws, translate_error-ne_zero}

-- An entry that is deleted, or is named `.` or `..`.
abbrev pub is_dots : DirEntry → Bool
is_dots d =
    let len = bit_and d.name_len 0xff in
    d.inode == 0
    || (len == 1 && char_at d.name == dot)
    || (len == 2 && char_at d.name == dot && char_at (next_char d.name) == dot)

abbrev pub all_dots : List DirEntry → Bool
all_dots [] = true
all_dots (d ∷ ds) = is_dots d && all_dots ds

-- Looking through the entries finds a directory empty exactly if all its entries are of that kind.
visit_all-empty :
    (ds : List DirEntry) (rds : RdStruct)
    → (visit_all rmdir_proc ds rds).empty ≡ (rds.empty && all_dots ds)
unfolding rmdir_proc
visit_all-empty [] rds = ground arith
visit_all-empty (d ∷ ds) rds = ground (arith, visit_all-empty ds (rmdir_proc d rds).2)

-- An entry that is not deleted and is named `..`.
abbrev pub is_dotdot : DirEntry → Bool
is_dotdot d =
    not (d.inode == 0)
    && bit_and d.name_len 0xff == 2
    && char_at d.name == dot
    && char_at (next_char d.name) == dot

-- The inode of the last entry named `..`, and 0 if there is none.
abbrev pub last_dotdot : List DirEntry → Ino
last_dotdot [] = 0
last_dotdot (d ∷ ds) =
    let later = last_dotdot ds in if later == 0 then (if is_dotdot d then d.inode else 0) else later

-- Looking through the entries notes the inode of the last of them that is named `..`.
pub visit_all-parent :
    (ds : List DirEntry) (rds : RdStruct)
    → (visit_all rmdir_proc ds rds).parent
      ≡ (if last_dotdot ds == 0 then rds.parent else last_dotdot ds)
unfolding rmdir_proc
visit_all-parent [] rds = ground arith
visit_all-parent (d ∷ ds) rds = ground (arith, visit_all-parent ds (rmdir_proc d rds).2)

pub rmdir_proc-IsReadOnly : IsReadOnly rmdir_proc
unfolding rmdir_proc
rmdir_proc-IsReadOnly d p = (refl, refl)

module _ {D : Type 0} (lib : Ext2fs D) (entries : D → Ino → List DirEntry)
    (laws : IterateLaws lib entries) where
  -- The entries of the directory at a path are read, as `node_ext2fs_rmdir` does it.
  abbrev pub entries_read : Bytes → Call D RdStruct
  entries_read path w =
      let (_, child, w₁) = lib.namei ext2_root_ino ext2_root_ino path w in
      lib.dir_iterate2 child 0 rmdir_proc (record { parent = 0; empty = true }) w₁

  iterate-empty :
      (dir : Ino) (w : World D)
      → (lib.dir_iterate2 dir 0 rmdir_proc (record { parent = 0; empty = true }) w).0 ≡ 0
      → (lib.dir_iterate2 dir 0 rmdir_proc (record { parent = 0; empty = true }) w).1.empty
        ≡ all_dots (entries w.lib dir)
  iterate-empty dir w h =
      ap (λ r. r.empty)
        (laws.iterate2_value RdStruct dir rmdir_proc (record { parent = 0; empty = true }) w
          rmdir_proc-IsReadOnly h)
      ∙ visit_all-empty (entries w.lib dir) (record { parent = 0; empty = true })

  -- If the path is found and its entries can be read, and one of them is not deleted and is named
  -- neither `.` nor `..`, the call is refused with `ENOTEMPTY`, and nothing happens after the
  -- entries are read.
  -- It assumes the law of the iterators (IterateLaws).
  pub node_ext2fs_rmdir-refuses :
      (path : Bytes) (w : World D)
      → (lib.namei ext2_root_ino ext2_root_ino path w).0 ≡ 0
      → (entries_read path w).0 ≡ 0
      → all_dots (
          entries
            (lib.namei ext2_root_ino ext2_root_ino path w).2.lib
            (lib.namei ext2_root_ino ext2_root_ino path w).1)
        ≡ false
      → node_ext2fs_rmdir lib path w ≡ (neg enotempty, (entries_read path w).2)
  unfolding node_ext2fs_rmdir
  node_ext2fs_rmdir-refuses path w found read other =
      let (_, child, w₁) = lib.namei ext2_root_ino ext2_root_ino path w in
      ground (arith, iterate-empty child w₁ read)

  -- If removing a directory returns 0, each of its entries was deleted or named `.` or `..`; the
  -- platform's errno values are positive.
  -- It assumes the law of the iterators (IterateLaws).
  pub node_ext2fs_rmdir-empty :
      (path : Bytes) (w : World D)
      → ErrnoLaws lib
      → (node_ext2fs_rmdir lib path w).0 ≡ pos 0
      → let (_, child, w₁) = lib.namei ext2_root_ino ext2_root_ino path w in
        all_dots (entries w₁.lib child) ≡ true
  unfolding node_ext2fs_rmdir
  node_ext2fs_rmdir-empty path w errno h =
      let (e, child, w₁) = lib.namei ext2_root_ino ext2_root_ino path w in
      let (e₂, _, w₂) =
        lib.dir_iterate2 child 0 rmdir_proc (record { parent = 0; empty = true }) w₁ in
      ground (
        arith,
        iterate-empty child w₁,
        translate_error-ne_zero lib 0 e w₁ errno,
        translate_error-ne_zero lib child e₂ w₂ errno,
      )
