-- ===== src/Names/Replaced.antt =====
-- The target of `node_ext2fs_rename`, if there is one, is removed.
use node_ext2fs.Base.{pos, Bool, true, false, not, List, ◌≡◌, refl, sym, ◌∙◌, ◌==◌, if◌then◌else◌}
use node_ext2fs.Ext2.Filsys.{Bytes, Ino, World}
use node_ext2fs.Ext2.Inode.{Inode, InodeLarge, DirEntry}
use node_ext2fs.Ext2.Library.{Ext2fs}
use node_ext2fs.Ext2.Modes.{ext2_root_ino, linux_s_isdir}
use node_ext2fs.Laws.{InodeLaws, IterateLaws}
use node_ext2fs.Names.{Names}
use node_ext2fs.Names.Library.{NamesLaws, EntriesLaws}
use node_ext2fs.Names.Removing.{unlinking, node_ext2fs_unlink-IsGone}
use node_ext2fs.Names.RemovingDirs.{rmdir_proc-MovesDotdot, emptied, node_ext2fs_rmdir-IsGone}
use node_ext2fs.Prog.{on, unless_zero}
use node_ext2fs.Prog.Rules.{Post, Post-unless_zero_last, Post-call_translate}
use node_ext2fs.Remove.{RdStruct, rmdir_proc, node_ext2fs_rmdir, node_ext2fs_unlink}
use node_ext2fs.Rename.{remove_target}
use node_ext2fs.Translate.Codes.{ErrnoLaws}
use node_ext2fs.Names.Renaming.{Gone}

module _ {D : Type 0} (lib : Ext2fs D) (stored : D → Ino → InodeLarge) (view : D → Names)
    (inode_laws : InodeLaws lib stored) (laws : NamesLaws lib stored view) (errno : ErrnoLaws lib)
    (entries : D → Ino → List DirEntry) (iterate_laws : IterateLaws lib entries)
    (entries_laws : EntriesLaws lib entries view) where
  -- The name at the end of a path is gone, from the directory that is looked up.
  abbrev IsDropped : Bytes → World D → World D → Type 0
  IsDropped = Gone lib stored view inode_laws laws errno

  unlink-IsDropped :
      (path : Bytes) (w : World D)
      → (node_ext2fs_unlink lib path w).0 ≡ pos 0
      → IsDropped path w (node_ext2fs_unlink lib path w).1
  unlink-IsDropped path w h =
      let (_, ino, w₁) = lib.namei ext2_root_ino ext2_root_ino path w in
      (
        unlinking lib stored view inode_laws laws errno path w,
        laws.check_directory_view ino w₁ ∙ laws.namei_view path w,
        node_ext2fs_unlink-IsGone lib stored view inode_laws laws errno path w h,
      )

  rmdir-IsDropped :
      (path : Bytes) (w : World D)
      → (node_ext2fs_rmdir lib path w).0 ≡ pos 0
      → IsDropped path w (node_ext2fs_rmdir lib path w).1
  rmdir-IsDropped path w h =
      let (_, child, w₁) = lib.namei ext2_root_ino ext2_root_ino path w in
      (
        emptied lib stored view inode_laws laws errno path w,
        laws.dir_iterate2_view RdStruct child rmdir_proc (record { parent = 0; empty = true }) w₁
              (rmdir_proc-MovesDotdot lib stored view inode_laws laws errno)
            ∙ laws.namei_view path w,
        node_ext2fs_rmdir-IsGone lib stored view inode_laws laws errno entries iterate_laws
            entries_laws path w h,
      )

  pub IsDropped-from :
      (path : Bytes) (w w₁ v : World D)
      → view w₁.lib ≡ view w.lib
      → IsDropped path w₁ v
      → IsDropped path w v
  IsDropped-from path w w₁ v e (x, same, (r, gone)) = (x, same ∙ e, (r, sym e ∙ gone))

  remove_target-Post :
      (to_ino : Ino) (to : Bytes) (w : World D)
      → Post (λ (_ : Unit {0}) v. IsDropped to w v) (remove_target lib to_ino to w)
  unfolding remove_target
  remove_target-Post to_ino to w =
      let Q = λ (_ : Unit {0}) (v : World D). IsDropped to w v in
      let (_, i, w₁) = lib.read_inode to_ino w in
      let remove = λ (i : Inode) (v : World D).
        if linux_s_isdir i.i_mode
        then node_ext2fs_rmdir lib to v
        else node_ext2fs_unlink lib to v in
      Post-call_translate lib errno Q to_ino (lib.read_inode to_ino) (λ i. unless_zero (remove i)) w
        λ _. Post-unless_zero_last Q (remove i) w₁ λ done.
          IsDropped-from to w w₁ (remove i w₁).1 (laws.read_view to_ino w)
            (by_type (linux_s_isdir i.i_mode) w₁ done)
    where
      by_type :
          (b : Bool) (w₁ : World D)
          → (if b then node_ext2fs_rmdir lib to w₁ else node_ext2fs_unlink lib to w₁).0 ≡ pos 0
          → IsDropped to w₁
              (if b then node_ext2fs_rmdir lib to w₁ else node_ext2fs_unlink lib to w₁).1
      by_type true w₁ h = rmdir-IsDropped to w₁ h
      by_type false w₁ h = unlink-IsDropped to w₁ h

  -- The target, if there is one, is taken away.
  pub target-IsDropped :
      (to : Bytes) (to_ino : Ino) (w : World D)
      → Post
          (λ (_ : Unit {0}) u. if to_ino == 0 then view u.lib ≡ view w.lib else IsDropped to w u)
          (on (not (to_ino == 0)) (remove_target lib to_ino to) w)
  target-IsDropped to to_ino w = by_test (to_ino == 0) (remove_target-Post to_ino to w)
    where
      by_test :
          (b : Bool)
          → Post (λ (_ : Unit {0}) u. IsDropped to w u) (remove_target lib to_ino to w)
          → Post
              (λ (_ : Unit {0}) u. if b then view u.lib ≡ view w.lib else IsDropped to w u)
              (on (not b) (remove_target lib to_ino to) w)
      by_test true h = refl
      by_test false h = h
