-- ===== src/Names/RemovingDirs.antt =====
-- The names after `node_ext2fs_rmdir`: the one of the path is gone.
use node_ext2fs.Base.{
  ℕ, pos, ◌-◌, Bool, true, false, not, List, ltb, ◌≡◌, refl, sym, ap, ◌∙◌, arith, ◌==◌,
  if◌then◌else◌, inl,
}
use node_ext2fs.Ext2.Filsys.{Bytes, Ino, World}
use node_ext2fs.Ext2.Inode.{Inode, InodeLarge, DirEntry}
use node_ext2fs.Ext2.Library.{Ext2fs}
use node_ext2fs.Ext2.Modes.{ext2_root_ino}
use node_ext2fs.Laws.{InodeLaws, IterateLaws}
use node_ext2fs.Names.{Names, add, children}
use node_ext2fs.Names.Library.{SameData, NamesLaws, MovesDotdot, EntriesLaws}
use node_ext2fs.Names.Keeps.{
  translate_error-view, get_now-view, remove_inode-view, write_back, read_full-SameData,
  stamped-SameData,
}
use node_ext2fs.Names.Removing.{last_part, dir_found, unlink_file_by_name-IsGone, fewer_children}
use node_ext2fs.Remove.{
  RdStruct, rmdir_proc, with_links, unlink_file_by_name, remove_inode, drop_parent_link,
  node_ext2fs_rmdir,
}
use node_ext2fs.Remove.Empty.{node_ext2fs_rmdir-empty}
use node_ext2fs.Times.{get_now, set_mtime, set_ctime, bump_version, update_mtime_at}
use node_ext2fs.Times.Stored.{get_now-keeps}
use node_ext2fs.Translate.Codes.{ErrnoLaws, translate_error-ne_zero}

module _ {D : Type 0} (lib : Ext2fs D) (stored : D → Ino → InodeLarge) (view : D → Names)
    (inode_laws : InodeLaws lib stored) (laws : NamesLaws lib stored view)
    (errno : ErrnoLaws lib) where
  counted-SameData :
      (n : ℕ) (c : Bool) (i : InodeLarge) (j : Inode)
      → SameData i.base j
      → SameData (if c then with_links n i else i).base j
  counted-SameData n true i j h = h
  counted-SameData n false i j h = h

  drop_parent_link-view :
      (parent : Ino) (w : World D) → view (drop_parent_link lib parent w).1.lib ≡ view w.lib
  unfolding drop_parent_link update_mtime_at
  drop_parent_link-view parent w =
      let (e, i, w₁) = lib.read_inode_full parent w in
      let n = i.base.i_links_count in
      let dropped = if ltb 1 n then with_links (n - 1) i else i in
      let (now, w₂) = get_now lib w₁ in
      let i' = bump_version (set_ctime now (set_mtime now dropped)) in
      let (e₃, _, w₃) = lib.write_inode_full parent i' w₂ in
      let kept =
        get_now-keeps lib stored inode_laws parent w₁
        ∙ inode_laws.read_full_keeps parent parent w in
      ground (
        arith,
        laws.read_full_view parent w,
        get_now-view lib stored view inode_laws laws w₁,
        λ (read : e ≡ 0). write_back lib stored view inode_laws laws parent i' w w₂ kept (
            stamped-SameData lib stored view inode_laws laws now dropped (stored w.lib parent).base
              (counted-SameData (n - 1) (ltb 1 n) i (stored w.lib parent).base
                (read_full-SameData lib stored view inode_laws laws parent w read))),
        translate_error-view lib stored view inode_laws laws parent e w₁,
        translate_error-view lib stored view inode_laws laws parent e₃ w₃,
      )

  pub rmdir_proc-MovesDotdot : MovesDotdot lib rmdir_proc
  unfolding rmdir_proc
  rmdir_proc-MovesDotdot d p = inl refl

  -- The world in which `node_ext2fs_rmdir` takes the name away, after it has read the entries.
  abbrev pub emptied : Bytes → World D → World D
  emptied path w =
      let (_, child, w₁) = lib.namei ext2_root_ino ext2_root_ino path w in
      (lib.dir_iterate2 child 0 rmdir_proc (record { parent = 0; empty = true }) w₁).2

  -- What has happened on the way to the result 0.
  steps :
      (path : Bytes) (w : World D)
      → (node_ext2fs_rmdir lib path w).0 ≡ pos 0
      → let (e, child, w₁) = lib.namei ext2_root_ino ext2_root_ino path w in
        let (e₂, rds, w₂) =
          lib.dir_iterate2 child 0 rmdir_proc (record { parent = 0; empty = true }) w₁ in
        let (r₃, w₃) = unlink_file_by_name lib path w₂ in
        let (_, w₄) = remove_inode lib child w₃ in
        let (_, w₅) = remove_inode lib child w₄ in
        (r₃ ≡ pos 0)
        × (view (node_ext2fs_rmdir lib path w).1.lib
            ≡ view
                (if not (rds.parent == 0) then (drop_parent_link lib rds.parent w₅).1 else w₅).lib)
  unfolding node_ext2fs_rmdir
  steps path w h =
      let (e, child, w₁) = lib.namei ext2_root_ino ext2_root_ino path w in
      let (e₂, rds, w₂) =
        lib.dir_iterate2 child 0 rmdir_proc (record { parent = 0; empty = true }) w₁ in
      ground (
        arith,
        translate_error-ne_zero lib 0 e w₁ errno,
        translate_error-ne_zero lib child e₂ w₂ errno,
      )

  parent_dropped :
      (c : Bool) (parent : Ino) (w : World D)
      → view (if c then (drop_parent_link lib parent w).1 else w).lib ≡ view w.lib
  parent_dropped true parent w = drop_parent_link-view parent w
  parent_dropped false parent w = refl

  module _ (entries : D → Ino → List DirEntry) (iterate_laws : IterateLaws lib entries)
      (entries_laws : EntriesLaws lib entries view) where
    -- If removing a directory returns 0, the names are those that there were without the last part of
    -- the path in its directory.
    -- It assumes the laws on inodes, names and iterators (InodeLaws, NamesLaws, IterateLaws,
    -- EntriesLaws) and positive errno values (ErrnoLaws).
    pub node_ext2fs_rmdir-IsGone :
        (path : Bytes) (w : World D)
        → (node_ext2fs_rmdir lib path w).0 ≡ pos 0
        → (r : Ino) × (view w.lib
            ≡ add
                (record {
                  dir = dir_found lib stored view inode_laws laws errno path (emptied path w);
                  name = last_part path;
                  ino = r;
                })
                (view (node_ext2fs_rmdir lib path w).1.lib))
    node_ext2fs_rmdir-IsGone path w h =
        let (e, child, w₁) = lib.namei ext2_root_ino ext2_root_ino path w in
        let (e₂, rds, w₂) =
          lib.dir_iterate2 child 0 rmdir_proc (record { parent = 0; empty = true }) w₁ in
        let (r₃, w₃) = unlink_file_by_name lib path w₂ in
        let (_, w₄) = remove_inode lib child w₃ in
        let (_, w₅) = remove_inode lib child w₄ in
        let (done, last) = steps path w h in
        let (r, gone) =
          unlink_file_by_name-IsGone lib stored view inode_laws laws errno path w₂ done in
        let same =
          laws.dir_iterate2_view RdStruct child rmdir_proc (record { parent = 0; empty = true }) w₁
            rmdir_proc-MovesDotdot in
        let empty₁ =
          entries_laws.all_dots_children child w₁
            (node_ext2fs_rmdir-empty lib entries iterate_laws path w errno h) in
        let empty₃ =
          fewer_children lib stored view inode_laws laws errno child _ (view w₂.lib) (view w₃.lib)
            gone (ap (children child) same ∙ empty₁) in
        let kept₄ = remove_inode-view lib stored view inode_laws laws child w₃ empty₃ in
        let kept₅ =
          remove_inode-view lib stored view inode_laws laws child w₄
            (ap (children child) kept₄ ∙ empty₃) in
        let after = last ∙ parent_dropped (not (rds.parent == 0)) rds.parent w₅ ∙ kept₅ ∙ kept₄ in
        (r, sym (same ∙ laws.namei_view path w) ∙ gone ∙ ap (add _) (sym after))
