-- ===== src/Link/Counts.antt =====
-- The link counts after `node_ext2fs_link`.
use node_ext2fs.Base.{
  ℕ, pos, ◌+◌, ◌%◌, ◌^◌, some, [], ◌∷◌, ◌++◌, ◌≡◌, ◌≢◌, arith, ◌==◌, if◌then◌else◌, Bool-cases, inl,
  inr,
}
use node_ext2fs.Create.{link_expanding}
use node_ext2fs.Ext2.Filsys.{Bytes, Ino, World}
use node_ext2fs.Ext2.Inode.{InodeLarge}
use node_ext2fs.Ext2.Library.{Ext2fs}
use node_ext2fs.Ext2.Modes.{ext2_root_ino}
use node_ext2fs.FileType.{ext2_file_type}
use node_ext2fs.Laws.{InodeLaws, NameLaws, links}
use node_ext2fs.Link.{add_link, node_ext2fs_link}
use node_ext2fs.Paths.{slash, strrchr}
use node_ext2fs.Prog.{function}
use node_ext2fs.Remove.{with_links}
use node_ext2fs.Remove.Links.{update_ctime_at-keeps, update_ctime_at-links}
use node_ext2fs.Times.{update_ctime_at}
use node_ext2fs.Times.Stored.{update_mtime-links}
use node_ext2fs.Translate.Codes.{ErrnoLaws, translate_error-ne_zero}

module _ {D : Type 0} (lib : Ext2fs D) where
  -- The look-up of the new name's directory, and behind it that of the old name.
  abbrev pub parent_found : Bytes → World D → ℕ × Ino × World D
  parent_found before w =
      lib.namei ext2_root_ino ext2_root_ino (before ++ slash ∷ []) (lib.strdup_succeeds w).1

  abbrev pub source_found : (src before : Bytes) → World D → ℕ × Ino × World D
  source_found src before w = lib.namei ext2_root_ino ext2_root_ino src (parent_found before w).2

module _ {D : Type 0} (lib : Ext2fs D) (stored : D → Ino → InodeLarge) (laws : InodeLaws lib stored)
    (name_laws : NameLaws lib stored) where
  pub link_expanding-links :
      (dir : Ino) (name : Bytes) (ino : Ino) (flags : ℕ) (j : Ino) (w : World D)
      → links stored (link_expanding lib dir name ino flags w).2 j ≡ links stored w j
  unfolding link_expanding
  link_expanding-links dir name ino flags j w =
      let w₁ = (lib.link dir name ino flags w).2 in
      let w₂ = (lib.expand_dir dir w₁).2 in
      ground (
        arith,
        name_laws.link_links dir name ino flags j w,
        name_laws.expand_dir_links dir j w₁,
        name_laws.link_links dir name ino flags j w₂,
      )

  -- The read, the change and the write of the inode that gets another link.
  written-links :
      (ino j : Ino) (w : World D)
      → (lib.read_inode_full ino w).0 ≡ 0
      → let (_, found, w₁) = lib.read_inode_full ino w in
        let (i, w₂) =
          update_ctime_at lib (with_links ((found.base.i_links_count + 1) % 2 ^ 16) found) w₁ in
        (lib.write_inode_full ino i w₂).0 ≡ 0
        → links stored (lib.write_inode_full ino i w₂).2 j
          ≡ (if j == ino then (links stored w j + 1) % 2 ^ 16 else links stored w j)
  written-links ino j w read written =
      let (_, found, w₁) = lib.read_inode_full ino w in
      let raised = with_links ((found.base.i_links_count + 1) % 2 ^ 16) found in
      let (i, w₂) = update_ctime_at lib raised w₁ in
      elim (Bool-cases (j == ino)) [
        | inl same ↦ ground (
          arith,
          laws.read_full_value ino w,
          update_ctime_at-links lib stored laws raised w₁,
          laws.write_full_value ino i w₂,
        )
        | inr other ↦ ground (
          arith,
          laws.read_full_keeps ino j w,
          update_ctime_at-keeps lib stored laws j raised w₁,
          laws.write_full_keeps ino j i w₂,
        )
      ]

  add_link-links :
      (ino parent : Ino) (name : Bytes) (j : Ino) (w : World D)
      → ErrnoLaws lib
      → (function (add_link lib ino parent name) w).0 ≡ pos 0
      → links stored (function (add_link lib ino parent name) w).1 j
        ≡ (if j == ino then (links stored w j + 1) % 2 ^ 16 else links stored w j)
  unfolding add_link
  add_link-links ino parent name j w errno h =
      let (e₃, found_inode, w₃) = lib.read_inode_full ino w in
      let raised = with_links ((found_inode.base.i_links_count + 1) % 2 ^ 16) found_inode in
      let (i, w₄) = update_ctime_at lib raised w₃ in
      let (e₅, _, w₅) = lib.write_inode_full ino i w₄ in
      let (e₆, _, w₆) = link_expanding lib parent name ino (ext2_file_type i.base.i_mode) w₅ in
      ground (
        arith,
        written-links ino j w,
        link_expanding-links parent name ino (ext2_file_type i.base.i_mode) j w₅,
        update_mtime-links lib stored laws parent j w₆ errno,
        translate_error-ne_zero lib ino e₃ w₃ errno,
        translate_error-ne_zero lib ino e₅ w₅ errno,
        translate_error-ne_zero lib parent e₆ w₆ errno,
      )

  -- If a hard link returns 0, and the directory of the new name and the inode of the old name are
  -- found, the link count of that inode is one higher in its 16 bits, and no other count changes.
  -- It assumes the laws on inodes and names (InodeLaws, NameLaws) and positive errno values
  -- (ErrnoLaws).
  pub node_ext2fs_link-links :
      (src dest before name : Bytes) (j : Ino) (w : World D)
      → ErrnoLaws lib
      → strrchr dest ≡ some (before, name)
      → (parent_found lib before w).0 ≡ 0
      → (source_found lib src before w).1 ≢ 0
      → (node_ext2fs_link lib src dest w).0 ≡ pos 0
      → links stored (node_ext2fs_link lib src dest w).1 j ≡ (
          if j == (source_found lib src before w).1
          then (links stored w j + 1) % 2 ^ 16
          else links stored w j)
  unfolding node_ext2fs_link
  node_ext2fs_link-links src dest before name j w errno split found there h =
      let w₀ = (lib.strdup_succeeds w).1 in
      let (_, parent, w₁) = parent_found lib before w in
      let (e₂, ino, w₂) = source_found lib src before w in
      ground (
        arith,
        name_laws.strdup_links j w,
        name_laws.namei_links (before ++ slash ∷ []) j w₀,
        name_laws.namei_links src j w₁,
        add_link-links ino parent name j w₂ errno,
        translate_error-ne_zero lib 0 e₂ w₂ errno,
      )
