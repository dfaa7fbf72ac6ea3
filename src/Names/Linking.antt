-- ===== src/Names/Linking.antt =====
-- The names after `node_ext2fs_link`: one more.
use node_ext2fs.Base.{
  ℕ, pos, ◌+◌, ◌%◌, ◌^◌, some, [], ◌∷◌, ◌++◌, ◌≡◌, ◌≢◌, ap, ◌∙◌, arith, ◌==◌, Bool-cases, inl, inr,
}
use node_ext2fs.Create.{link_expanding}
use node_ext2fs.Ext2.Errors.{ext2_et_dir_no_space}
use node_ext2fs.Ext2.Filsys.{Bytes, Ino, World}
use node_ext2fs.Ext2.Inode.{Inode, InodeLarge}
use node_ext2fs.Ext2.Library.{Ext2fs}
use node_ext2fs.FileType.{ext2_file_type}
use node_ext2fs.Laws.{InodeLaws}
use node_ext2fs.Link.{add_link, node_ext2fs_link}
use node_ext2fs.Link.Counts.{parent_found, source_found}
use node_ext2fs.Names.{Names, add}
use node_ext2fs.Names.Library.{SameData, NamesLaws}
use node_ext2fs.Names.Keeps.{
  update_ctime_at-view, update_mtime-view, write_back, read_full-SameData,
}
use node_ext2fs.Paths.{slash, strrchr}
use node_ext2fs.Prog.{function}
use node_ext2fs.Remove.{with_links}
use node_ext2fs.Remove.Links.{update_ctime_at-keeps}
use node_ext2fs.Times.{set_ctime, update_ctime_at, update_mtime}
use node_ext2fs.Translate.Codes.{ErrnoLaws, translate_error-ne_zero}

module _ {D : Type 0} (lib : Ext2fs D) (stored : D → Ino → InodeLarge) (view : D → Names)
    (laws : NamesLaws lib stored view) where
  pub link_expanding-adds :
      (dir : Ino) (name : Bytes) (ino : Ino) (flags : ℕ) (w : World D)
      → (link_expanding lib dir name ino flags w).0 ≡ 0
      → view (link_expanding lib dir name ino flags w).2.lib
        ≡ add (record { dir = dir; name = name; ino = ino }) (view w.lib)
  unfolding link_expanding
  link_expanding-adds dir name ino flags w h =
      let (e, _, w₁) = lib.link dir name ino flags w in
      let (e₂, _, w₂) = lib.expand_dir dir w₁ in
      elim (Bool-cases (e == ext2_et_dir_no_space)) [
        | inl full ↦
            let fails = laws.link_fails dir name ino flags w (ground arith) in
            let okay : (lib.link dir name ino flags w₂).0 ≡ 0 = ground arith in
            ground (
              arith,
              ap (add (record { dir = dir; name = name; ino = ino }))
                  (laws.expand_dir_view dir w₁ ∙ fails),
              laws.link_adds dir name ino flags w₂ okay,
            )
        | inr other ↦ ground (arith, laws.link_adds dir name ino flags w)
      ]

module _ {D : Type 0} (lib : Ext2fs D) (stored : D → Ino → InodeLarge) (view : D → Names)
    (inode_laws : InodeLaws lib stored) (laws : NamesLaws lib stored view)
    (errno : ErrnoLaws lib) where
  raised-SameData :
      (n : ℕ) (i : InodeLarge) (j : Inode) (w : World D)
      → SameData i.base j
      → SameData (update_ctime_at lib (with_links n i) w).0.base j
  unfolding update_ctime_at set_ctime
  raised-SameData n i j w h = h

  -- The inode with one link more, and the world in which it is written.
  abbrev raised_inode : Ino → World D → InodeLarge × World D
  raised_inode ino w =
      let (_, i, w₁) = lib.read_inode_full ino w in
      update_ctime_at lib (with_links ((i.base.i_links_count + 1) % 2 ^ 16) i) w₁

  -- What has happened on the way to the result 0.
  steps :
      (ino parent : Ino) (name : Bytes) (w : World D)
      → (function (add_link lib ino parent name) w).0 ≡ pos 0
      → let (i', w₂) = raised_inode ino w in
        let (_, _, w₃) = lib.write_inode_full ino i' w₂ in
        let (e₄, _, w₄) = link_expanding lib parent name ino (ext2_file_type i'.base.i_mode) w₃ in
        ((lib.read_inode_full ino w).0 ≡ 0)
        × (e₄ ≡ 0)
        × ((function (add_link lib ino parent name) w).1 ≡ (update_mtime lib parent w₄).1)
  unfolding add_link
  steps ino parent name w h =
      let (e, _, w₁) = lib.read_inode_full ino w in
      let (i', w₂) = raised_inode ino w in
      let (e₃, _, w₃) = lib.write_inode_full ino i' w₂ in
      let (e₄, _, w₄) = link_expanding lib parent name ino (ext2_file_type i'.base.i_mode) w₃ in
      ground (
        arith,
        translate_error-ne_zero lib ino e w₁ errno,
        translate_error-ne_zero lib ino e₃ w₃ errno,
        translate_error-ne_zero lib parent e₄ w₄ errno,
      )

  add_link-adds :
      (ino parent : Ino) (name : Bytes) (w : World D)
      → (function (add_link lib ino parent name) w).0 ≡ pos 0
      → view (function (add_link lib ino parent name) w).1.lib
        ≡ add (record { dir = parent; name = name; ino = ino }) (view w.lib)
  add_link-adds ino parent name w h =
      let (_, i, w₁) = lib.read_inode_full ino w in
      let n = (i.base.i_links_count + 1) % 2 ^ 16 in
      let (i', w₂) = raised_inode ino w in
      let (_, _, w₃) = lib.write_inode_full ino i' w₂ in
      let flags = ext2_file_type i'.base.i_mode in
      let (_, _, w₄) = link_expanding lib parent name ino flags w₃ in
      let (read, linked, last) = steps ino parent name w h in
      let kept =
        update_ctime_at-keeps lib stored inode_laws ino (with_links n i) w₁
        ∙ inode_laws.read_full_keeps ino ino w in
      let same =
        write_back lib stored view inode_laws laws ino i' w w₂ kept (
          raised-SameData n i (stored w.lib ino).base w₁
            (read_full-SameData lib stored view inode_laws laws ino w read))
        ∙ update_ctime_at-view lib stored view inode_laws laws (with_links n i) w₁
        ∙ laws.read_full_view ino w in
      ap (λ v. view v.lib) last
      ∙ update_mtime-view lib stored view inode_laws laws parent w₄
      ∙ link_expanding-adds lib stored view laws parent name ino flags w₃ linked
      ∙ ap (add _) same

  -- If a hard link returns 0, and the directory of the new name and the inode of the old name are
  -- found, the names are those that there were and the new one, whether or not the directory had that
  -- name before.
  -- It assumes the laws on inodes and names (InodeLaws, NamesLaws) and positive errno values
  -- (ErrnoLaws).
  pub node_ext2fs_link-adds :
      (src dest before name : Bytes) (w : World D)
      → strrchr dest ≡ some (before, name)
      → (parent_found lib before w).0 ≡ 0
      → (source_found lib src before w).1 ≢ 0
      → (node_ext2fs_link lib src dest w).0 ≡ pos 0
      → view (node_ext2fs_link lib src dest w).1.lib
        ≡ add
            (record {
              dir = (parent_found lib before w).1;
              name = name;
              ino = (source_found lib src before w).1;
            })
            (view w.lib)
  unfolding node_ext2fs_link
  node_ext2fs_link-adds src dest before name w split found there h =
      let w₀ = (lib.strdup_succeeds w).1 in
      let (_, parent, w₁) = parent_found lib before w in
      let (e₂, ino, w₂) = source_found lib src before w in
      let same : view w₂.lib ≡ view w.lib =
        laws.namei_view src w₁ ∙ laws.namei_view (before ++ slash ∷ []) w₀ ∙ laws.strdup_view w in
      ground (
        arith,
        add_link-adds ino parent name w₂,
        ap (add (record { dir = parent; name = name; ino = ino })) same,
        translate_error-ne_zero lib 0 e₂ w₂ errno,
      )
