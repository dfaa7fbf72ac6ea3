-- ===== src/Remove/Counts.antt =====
-- The link counts after `node_ext2fs_unlink` and `node_ext2fs_rmdir`.
use node_ext2fs.Base.{
  ℕ, List, pos, ◌-◌, true, not, ◌&&◌, ltb, ◌≡◌, refl, arith, ap, ◌∙◌, ◌==◌, if◌then◌else◌,
  Bool-cases, Option-cases, inl, inr, eq_of_==,
}
use node_ext2fs.Ext2.Filsys.{Bytes, Ino, World}
use node_ext2fs.Ext2.Inode.{DirEntry, InodeLarge}
use node_ext2fs.Ext2.Library.{Ext2fs, Call}
use node_ext2fs.Ext2.Modes.{ext2_root_ino}
use node_ext2fs.Laws.{InodeLaws, NameLaws, IterateLaws, links}
use node_ext2fs.Paths.{strrchr}
use node_ext2fs.Prog.{function, ◌>>◌, pure}
use node_ext2fs.Remove.{
  RdStruct, with_links, rmdir_proc, unlink_file_by_name, remove_inode, node_ext2fs_unlink,
  drop_parent_link, node_ext2fs_rmdir,
}
use node_ext2fs.Remove.Empty.{last_dotdot, visit_all-parent, rmdir_proc-IsReadOnly}
use node_ext2fs.Remove.Links.{remove_inode-keeps, remove_inode-links}
use node_ext2fs.Times.{update_mtime_at, set_mtime, set_ctime}
use node_ext2fs.Times.Stored.{get_now-keeps, update_mtime-links}
use node_ext2fs.Translate.Codes.{ErrnoLaws, translate_error-ne_zero}

module _ {D : Type 0} (lib : Ext2fs D) (stored : D → Ino → InodeLarge) (laws : InodeLaws lib stored)
    (name_laws : NameLaws lib stored) (errno : ErrnoLaws lib) where
  remove_inode-counts :
      (ino j : Ino) (w : World D)
      → (remove_inode lib ino w).0 ≡ pos 0
      → links stored (remove_inode lib ino w).1 j
        ≡ (if j == ino then links stored w j - 1 else links stored w j)
  remove_inode-counts ino j w h = elim (Bool-cases (j == ino)) [
    | inl same ↦ rw (same, eq_of_== j ino same) (remove_inode-links lib stored laws ino w errno h)
    | inr other ↦
        rw other (
          ap (λ i. i.base.i_links_count)
            (remove_inode-keeps lib stored laws ino j w (ground arith)))
  ]

  unlink_file_by_name-links :
      (path : Bytes) (j : Ino) (w : World D)
      → (unlink_file_by_name lib path w).0 ≡ pos 0
      → links stored (unlink_file_by_name lib path w).1 j ≡ links stored w j
  unfolding unlink_file_by_name
  unlink_file_by_name-links path j w h = elim (Option-cases (strrchr path)) [
    | inl root ↦
        let (e, _, w₁) = lib.unlink ext2_root_ino path 0 0 w in
        ground (
          arith,
          name_laws.unlink_links ext2_root_ino path j w,
          update_mtime-links lib stored laws ext2_root_ino j w₁ errno,
          translate_error-ne_zero lib ext2_root_ino e w₁ errno,
        )
    | inr ((before, behind), split) ↦
        let (e, dir, w₁) = lib.namei ext2_root_ino ext2_root_ino before w in
        let (e₂, _, w₂) = lib.unlink dir behind 0 0 w₁ in
        ground (
          arith,
          name_laws.namei_links before j w,
          name_laws.unlink_links dir behind j w₁,
          update_mtime-links lib stored laws dir j w₂ errno,
          translate_error-ne_zero lib 0 e w₁ errno,
          translate_error-ne_zero lib dir e₂ w₂ errno,
        )
  ]

  -- If removing a name returns 0, the link count of its inode is one lower, or was 0 and still is,
  -- and no other count changes.
  -- It assumes the laws on inodes and names (InodeLaws, NameLaws) and positive errno values
  -- (ErrnoLaws).
  pub node_ext2fs_unlink-links :
      (path : Bytes) (j : Ino) (w : World D)
      → (node_ext2fs_unlink lib path w).0 ≡ pos 0
      → links stored (node_ext2fs_unlink lib path w).1 j ≡ (
          if j == (lib.namei ext2_root_ino ext2_root_ino path w).1
          then links stored w j - 1
          else links stored w j)
  unfolding node_ext2fs_unlink
  node_ext2fs_unlink-links path j w h =
      let (e, ino, w₁) = lib.namei ext2_root_ino ext2_root_ino path w in
      let (_, _, w₂) = lib.check_directory ino w₁ in
      let (_, w₃) = unlink_file_by_name lib path w₂ in
      ground (
        arith,
        name_laws.namei_links path j w,
        name_laws.check_directory_links ino j w₁,
        unlink_file_by_name-links path j w₂,
        remove_inode-counts ino j w₃,
        translate_error-ne_zero lib 0 e w₁ errno,
      )

  update_mtime_at-keeps :
      (j : Ino) (i : InodeLarge) (w : World D)
      → stored (update_mtime_at lib i w).1.lib j ≡ stored w.lib j
  unfolding update_mtime_at
  update_mtime_at-keeps j i w = get_now-keeps lib stored laws j w

  update_mtime_at-links :
      (i : InodeLarge) (w : World D)
      → (update_mtime_at lib i w).0.base.i_links_count ≡ i.base.i_links_count
  unfolding update_mtime_at set_mtime set_ctime
  update_mtime_at-links i w = refl

  drop_parent_link-links :
      (parent j : Ino) (w : World D)
      → (function (drop_parent_link lib parent >> pure (pos 0)) w).0 ≡ pos 0
      → links stored (function (drop_parent_link lib parent >> pure (pos 0)) w).1 j ≡ (
          if j == parent && ltb 1 (links stored w j)
          then links stored w j - 1
          else links stored w j)
  unfolding drop_parent_link
  drop_parent_link-links parent j w h =
      let (e, i, w₁) = lib.read_inode_full parent w in
      let n = i.base.i_links_count in
      let dropped = if ltb 1 n then with_links (n - 1) i else i in
      let (i', w₂) = update_mtime_at lib dropped w₁ in
      let (e₃, _, w₃) = lib.write_inode_full parent i' w₂ in
      elim (Bool-cases (j == parent)) [
        | inl same ↦ ground (
          arith,
          laws.read_full_value parent w,
          update_mtime_at-links dropped w₁,
          laws.write_full_value parent i' w₂,
          translate_error-ne_zero lib parent e w₁ errno,
          translate_error-ne_zero lib parent e₃ w₃ errno,
        )
        | inr other ↦ ground (
          arith,
          laws.read_full_keeps parent j w,
          update_mtime_at-keeps j dropped w₁,
          laws.write_full_keeps parent j i' w₂,
          translate_error-ne_zero lib parent e w₁ errno,
          translate_error-ne_zero lib parent e₃ w₃ errno,
        )
      ]

  -- The entries of the directory at a path, as `node_ext2fs_rmdir` looks through them.
  abbrev looked_through : Bytes → Call D RdStruct
  looked_through path w =
      let (_, child, w₁) = lib.namei ext2_root_ino ext2_root_ino path w in
      lib.dir_iterate2 child 0 rmdir_proc (record { parent = 0; empty = true }) w₁

  -- The count of a directory that has lost a subdirectory.
  abbrev pub dropped_parent : (parent j : Ino) → ℕ → ℕ
  dropped_parent parent j n = if not (parent == 0) && (j == parent && ltb 1 n) then n - 1 else n

  -- The counts, with the parent that looking through the entries gives.
  node_ext2fs_rmdir-seen_links :
      (path : Bytes) (j : Ino) (w : World D)
      → (node_ext2fs_rmdir lib path w).0 ≡ pos 0
      → links stored (node_ext2fs_rmdir lib path w).1 j
        ≡ dropped_parent (looked_through path w).1.parent j (
            if j == (lib.namei ext2_root_ino ext2_root_ino path w).1
            then links stored w j - 2
            else links stored w j)
  unfolding node_ext2fs_rmdir
  node_ext2fs_rmdir-seen_links path j w h =
      let (e, child, w₁) = lib.namei ext2_root_ino ext2_root_ino path w in
      let (e₂, rds, w₂) = looked_through path w in
      let (_, w₃) = unlink_file_by_name lib path w₂ in
      let (_, w₄) = remove_inode lib child w₃ in
      let (_, w₅) = remove_inode lib child w₄ in
      ground (
        arith,
        name_laws.namei_links path j w,
        name_laws.dir_iterate2_links RdStruct child rmdir_proc (record { parent = 0; empty = true })
            j w₁,
        unlink_file_by_name-links path j w₂,
        remove_inode-counts child j w₃,
        remove_inode-counts child j w₄,
        drop_parent_link-links rds.parent j w₅,
        translate_error-ne_zero lib 0 e w₁ errno,
        translate_error-ne_zero lib child e₂ w₂ errno,
      )

  -- If removing a directory returns 0, its entries have been read.
  rmdir-looked_through :
      (path : Bytes) (w : World D)
      → (node_ext2fs_rmdir lib path w).0 ≡ pos 0
      → (looked_through path w).0 ≡ 0
  unfolding node_ext2fs_rmdir
  rmdir-looked_through path w h =
      let (e, child, w₁) = lib.namei ext2_root_ino ext2_root_ino path w in
      let (e₂, rds, w₂) = looked_through path w in
      ground (
        arith,
        translate_error-ne_zero lib 0 e w₁ errno,
        translate_error-ne_zero lib child e₂ w₂ errno,
      )

  module _ (entries : D → Ino → List DirEntry) (iterate_laws : IterateLaws lib entries) where
    -- The parent that looking through the entries gives is the one that they name.
    iterate-parent :
        (dir : Ino) (w : World D)
        → (lib.dir_iterate2 dir 0 rmdir_proc (record { parent = 0; empty = true }) w).0 ≡ 0
        → (lib.dir_iterate2 dir 0 rmdir_proc (record { parent = 0; empty = true }) w).1.parent
          ≡ last_dotdot (entries w.lib dir)
    iterate-parent dir w h =
        let start : RdStruct = record { parent = 0; empty = true } in
        ground (
          arith,
          ap (λ r. r.parent)
              (iterate_laws.iterate2_value RdStruct dir rmdir_proc start w rmdir_proc-IsReadOnly h),
          visit_all-parent (entries w.lib dir) start,
        )

    -- If removing a directory returns 0, its link count is two lower, or 0; that of the inode that
    -- its last entry named `..` names is one lower if it was above one; and no other count changes.
    -- No parent's count changes if no entry that is not deleted is named `..`.
    -- It assumes the laws on inodes and names (InodeLaws, NameLaws), the law of the iterators
    -- (IterateLaws) and positive errno values (ErrnoLaws).
    pub node_ext2fs_rmdir-links :
        (path : Bytes) (j : Ino) (w : World D)
        → (node_ext2fs_rmdir lib path w).0 ≡ pos 0
        → let (_, child, w₁) = lib.namei ext2_root_ino ext2_root_ino path w in
          links stored (node_ext2fs_rmdir lib path w).1 j
          ≡ dropped_parent
              (last_dotdot (entries w₁.lib child))
              j
              (if j == child then links stored w j - 2 else links stored w j)
    node_ext2fs_rmdir-links path j w h =
        let (_, child, w₁) = lib.namei ext2_root_ino ext2_root_ino path w in
        node_ext2fs_rmdir-seen_links path j w h
        ∙ ap
            (λ parent.
              dropped_parent parent j
                (if j == child then links stored w j - 2 else links stored w j))
            (iterate-parent child w₁ (rmdir-looked_through path w h))
