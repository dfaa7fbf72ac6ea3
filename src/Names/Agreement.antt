-- ===== src/Names/Agreement.antt =====
-- Files, hard links and symbolic links are made and names are removed, one after another: the link
-- count of an inode stays the number of its names.
use node_ext2fs.Base.{
  ℕ, ◌==◌, Bool-cases, inl, inr, eq_of_==, pos, ◌-◌, ◌^◌, ◌<◌, some, ◌≡◌, ◌≢◌, sym, ap, ◌∙◌, arith,
}
use node_ext2fs.Create.{create_file}
use node_ext2fs.Create.Laws.{OtherLinks, CreateLaws}
use node_ext2fs.Create.Made.{create_file-IsMade}
use node_ext2fs.Link.Laws.{SymlinkLaws}
use node_ext2fs.Link.Symlinks.{node_ext2fs_symlink-IsLinked}
use node_ext2fs.Ext2.Filsys.{Bytes, Ino, World}
use node_ext2fs.Ext2.Inode.{InodeLarge}
use node_ext2fs.Ext2.Library.{Ext2fs}
use node_ext2fs.Ext2.Modes.{ext2_root_ino}
use node_ext2fs.Laws.{InodeLaws, NameLaws, links}
use node_ext2fs.Link.{node_ext2fs_link, node_ext2fs_symlink}
use node_ext2fs.Link.Counts.{parent_found, source_found, node_ext2fs_link-links}
use node_ext2fs.Names.{Names, add, refs, counted-add}
use node_ext2fs.Names.Library.{NamesLaws, LookupLaws}
use node_ext2fs.Names.Linking.{node_ext2fs_link-adds}
use node_ext2fs.Names.Removing.{unlinking, unlink_steps, unlinked_in, unlinking-view}
use node_ext2fs.Paths.{strrchr, get_parent_dir_ino}
use node_ext2fs.Remove.{node_ext2fs_unlink}
use node_ext2fs.Remove.Counts.{node_ext2fs_unlink-links}
use node_ext2fs.Translate.Codes.{ErrnoLaws}

module _ {D : Type 0} (lib : Ext2fs D) where
  -- A call that returns 0: a hard link whose directory and old name are found, to an inode with fewer
  -- than 2^16 - 1 links, the removal of a name by a path with a slash, or a new file or symbolic link.
  pub data Step (stored : D → Ino → InodeLarge) : World D → World D → Type 0 where
    link :
        (src dest before name : Bytes) (w : World D)
        → strrchr dest ≡ some (before, name)
        → (parent_found lib before w).0 ≡ 0
        → (source_found lib src before w).1 ≢ 0
        → links stored w (source_found lib src before w).1 < 2 ^ 16 - 1
        → (node_ext2fs_link lib src dest w).0 ≡ pos 0
        → Step stored w (node_ext2fs_link lib src dest w).1
    unlink :
        (path before name : Bytes) (w : World D)
        → strrchr path ≡ some (before, name)
        → (node_ext2fs_unlink lib path w).0 ≡ pos 0
        → Step stored w (node_ext2fs_unlink lib path w).1
    create :
        (path : Bytes) (mode : ℕ) (w : World D)
        → (create_file lib path mode w).0 ≡ 0
        → Step stored w (create_file lib path mode w).2
    symlink :
        (src dest before name : Bytes) (w : World D)
        → strrchr dest ≡ some (before, name)
        → (node_ext2fs_symlink lib src dest w).0 ≡ pos 0
        → Step stored w (node_ext2fs_symlink lib src dest w).1

  pub data Reach (stored : D → Ino → InodeLarge) (w : World D) : World D → Type 0 where
    here : Reach stored w w
    later : {u v : World D} → Reach stored w u → Step stored u v → Reach stored w v

module _ {D : Type 0} (lib : Ext2fs D) (stored : D → Ino → InodeLarge) (view : D → Names)
    (inode_laws : InodeLaws lib stored) (name_laws : NameLaws lib stored)
    (laws : NamesLaws lib stored view) (lookup_laws : LookupLaws lib view) (errno : ErrnoLaws lib)
    (create_laws : CreateLaws lib stored view) (symlink_laws : SymlinkLaws lib stored view) where
  -- The link count of the inode is the number of its names.
  abbrev pub Agrees : Ino → World D → Type 0
  Agrees j w = links stored w j ≡ refs j (view w.lib)

  -- The name that is removed is one of the inode that loses a link.
  unlink-removes :
      (path before name : Bytes) (w : World D)
      → strrchr path ≡ some (before, name)
      → (node_ext2fs_unlink lib path w).0 ≡ pos 0
      → let ino = (lib.namei ext2_root_ino ext2_root_ino path w).1 in
        let dir =
          (lib.namei ext2_root_ino ext2_root_ino before
            (unlinking lib stored view inode_laws laws errno path w)).1 in
        view w.lib
        ≡ add
            (record { dir = dir; name = name; ino = ino })
            (view (node_ext2fs_unlink lib path w).1.lib)
  unlink-removes path before name w split h =
      let (_, ino, w₁) = lib.namei ext2_root_ino ext2_root_ino path w in
      let w₂ = unlinking lib stored view inode_laws laws errno path w in
      let (found, file, done, _) = unlink_steps lib stored view inode_laws laws errno path w h in
      let (found', removed, after) =
        unlinked_in lib stored view inode_laws laws errno path before name w₂ split done in
      let same =
        laws.namei_view before w₂ ∙ laws.check_directory_view ino w₁ ∙ laws.namei_view path w in
      sym same
      ∙ lookup_laws.finds path before name w split found (ground arith) found' removed
      ∙ ap (add _) (sym (unlinking-view lib stored view inode_laws laws errno path w h ∙ after))

  -- A new name for an inode that had none, and has one link.
  new_name-Agrees :
      (j dir ino : Ino) (name : Bytes) (w v : World D)
      → view v.lib ≡ add (record { dir = dir; name = name; ino = ino }) (view w.lib)
      → refs ino (view w.lib) ≡ 0
      → links stored v ino ≡ 1
      → OtherLinks stored ino v w
      → Agrees j w
      → Agrees j v
  new_name-Agrees j dir ino name w v adds unnamed one others agrees =
      let names = ap (refs j) adds ∙ counted-add _ _ (view w.lib) in
      elim (Bool-cases (j == ino)) [
        | inl same ↦
            let is : j ≡ ino = eq_of_== j ino same in
            ground
              (arith, names, unnamed, one, ap (links stored v) is, ap (λ i. refs i (view w.lib)) is)
        | inr other ↦ ground (arith, names, agrees, others j (ground arith))
      ]

  Step-Agrees : (j : Ino) {w v : World D} → Step lib stored w v → Agrees j w → Agrees j v
  Step-Agrees j (link src dest before name w split found there few h) agrees =
      let ino = (source_found lib src before w).1 in
      let counts =
        node_ext2fs_link-links lib stored inode_laws name_laws src dest before name j w errno split
          found there h in
      let names =
        ap (refs j) (
          node_ext2fs_link-adds lib stored view inode_laws laws errno src dest before name w split
            found there h)
        ∙ counted-add _ _ (view w.lib) in
      ground (arith, few, agrees, counts, names)
  Step-Agrees j (unlink path before name w split h) agrees =
      let ino = (lib.namei ext2_root_ino ext2_root_ino path w).1 in
      let counts = node_ext2fs_unlink-links lib stored inode_laws name_laws errno path j w h in
      let names =
        ap (refs j) (unlink-removes path before name w split h)
        ∙ counted-add _ _ (view (node_ext2fs_unlink lib path w).1.lib) in
      ground (arith, agrees, counts, names)
  Step-Agrees j (create path mode w h) agrees =
      let (name, _, _, adds, unnamed, _, others, (_, _, _, one, _, _, _)) =
        create_file-IsMade lib stored view inode_laws laws create_laws name_laws path mode w h in
      new_name-Agrees j (get_parent_dir_ino lib path w).0 (create_file lib path mode w).1 name w
        (create_file lib path mode w).2 adds unnamed one others agrees
  Step-Agrees j (symlink src dest before name w split h) agrees =
      let (ino, _, adds, unnamed, one, others, _) =
        node_ext2fs_symlink-IsLinked lib stored view inode_laws laws errno symlink_laws name_laws
          src dest before name w split h in
      new_name-Agrees j (parent_found lib before w).1 ino name w
        (node_ext2fs_symlink lib src dest w).1 adds unnamed one others agrees

  -- If the link count of an inode is the number of its names, it is so after any sequence of calls that
  -- return 0, each a hard link whose directory and old name are found, to an inode with fewer than
  -- 2^16 - 1 links, the removal of a name by a path with a slash, a new file, or a new symbolic link at
  -- a path with a slash.
  -- It assumes the laws on inodes, names, look-ups, new inodes and new links (InodeLaws, NameLaws,
  -- NamesLaws, LookupLaws, CreateLaws, SymlinkLaws) and positive errno values (ErrnoLaws).
  pub Reach-Agrees : (j : Ino) {w v : World D} → Reach lib stored w v → Agrees j w → Agrees j v
  Reach-Agrees j here agrees = agrees
  Reach-Agrees j (later r s) agrees = Step-Agrees j s (Reach-Agrees j r agrees)
