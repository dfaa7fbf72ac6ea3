-- ===== src/Link/Linked.antt =====
-- What the calls of libext2fs in `node_ext2fs_symlink` of src/glue.c leave of a new name and its inode.
use node_ext2fs.Base.{
  ◌≤◌, ◌⊎◌, length, ◌==◌, ◌≡◌, ◌≢◌, ap, sym, ◌∙◌, arith, Bool-cases, eq_of_==, inl, inr,
}
use mathlib.Core.Path.{subst}
use node_ext2fs.Ext2.Errors.{ext2_et_dir_no_space}
use node_ext2fs.Ext2.Filsys.{Bytes, Ino, World}
use node_ext2fs.Ext2.Inode.{InodeLarge}
use node_ext2fs.Ext2.Library.{Ext2fs}
use node_ext2fs.Create.Laws.{SameLinks}
use node_ext2fs.Laws.{InodeLaws, NameLaws}
use node_ext2fs.Link.{symlink_expanding}
use node_ext2fs.Link.Laws.{IsTarget, IsLinked, SymlinkLaws}
use node_ext2fs.Names.{Names, add, refs}
use node_ext2fs.Names.Keeps.{write_back, read_full-SameData}
use node_ext2fs.Names.Library.{NamesLaws}
use node_ext2fs.Translate.Codes.{ErrnoLaws}

module _ {D : Type 0} (lib : Ext2fs D) (stored : D → Ino → InodeLarge) (view : D → Names)
    (inode_laws : InodeLaws lib stored) (laws : NamesLaws lib stored view) (errno : ErrnoLaws lib)
    (symlink_laws : SymlinkLaws lib stored view) (name_laws : NameLaws lib stored) where
  -- What comes after a world with the new name and inode, or before one, may leave both as they are.
  pub IsLinked-after :
      (dir : Ino) (name target : Bytes) (w v v' : World D)
      → view v'.lib ≡ view v.lib
      → ((j : Ino) → j ≢ dir → stored v'.lib j ≡ stored v.lib j)
      → SameLinks stored v' v
      → IsLinked lib stored view dir name target w v
      → IsLinked lib stored view dir name target w v'
  IsLinked-after dir name target w v v' same keeps counts
        (ino, other, adds, unnamed, one, others, holds) =
      (
        ino,
        other,
        same ∙ adds,
        unnamed,
        counts ino ∙ one,
        λ j ne. counts j ∙ others j ne,
        subst (λ i. (60 ≤ length target) ⊎ IsTarget lib i.base target) (sym (keeps ino other))
            holds,
      )

  pub IsLinked-before :
      (dir : Ino) (name target : Bytes) (w w' v : World D)
      → view w.lib ≡ view w'.lib
      → SameLinks stored w w'
      → IsLinked lib stored view dir name target w v
      → IsLinked lib stored view dir name target w' v
  IsLinked-before dir name target w w' v same counts
        (ino, other, adds, unnamed, one, others, holds) =
      (
        ino,
        other,
        adds ∙ ap (add _) same,
        ap (refs ino) (sym same) ∙ unnamed,
        one,
        λ j ne. others j ne ∙ counts j,
        holds,
      )

  pub symlink_expanding-IsLinked :
      (dir : Ino) (name target : Bytes) (w : World D)
      → (symlink_expanding lib dir name target w).0 ≡ 0
      → IsLinked lib stored view dir name target w (symlink_expanding lib dir name target w).2
  unfolding symlink_expanding
  symlink_expanding-IsLinked dir name target w h =
      let (e, _, w₁) = lib.symlink dir 0 name target w in
      let (e₂, _, w₂) = lib.expand_dir dir w₁ in
      elim (Bool-cases (e == ext2_et_dir_no_space)) [
        | inl full ↦ elim (Bool-cases (e₂ == 0)) [
          | inl more ↦
              let okay : (lib.symlink dir 0 name target w₂).0 ≡ 0 = ground arith in
              let (same, counts) = symlink_laws.symlink_fails dir name target w (ground arith) in
              rw (full, more)
                (IsLinked-before dir name target w₂ w (lib.symlink dir 0 name target w₂).2
                  (laws.expand_dir_view dir w₁ ∙ same)
                  (λ j. name_laws.expand_dir_links dir j w₁ ∙ counts j)
                  (symlink_laws.symlink_links dir name target w₂ okay))
          | inr none ↦ ground arith
        ]
        | inr other ↦ rw other (symlink_laws.symlink_links dir name target w (ground arith))
      ]

  -- An inode that is read and written back is as it was.
  pub written_back-keeps :
      (child j : Ino) (w : World D)
      → let (e, i, w₁) = lib.read_inode_full child w in
        let (e₂, _, w₂) = lib.write_inode_full child i w₁ in
        e ≡ 0 → e₂ ≡ 0 → stored w₂.lib j ≡ stored w.lib j
  written_back-keeps child j w read wrote =
      let (_, i, w₁) = lib.read_inode_full child w in
      elim (Bool-cases (j == child)) [
        | inl same ↦
            rw (eq_of_== j child same) (
              inode_laws.write_full_value child i w₁ wrote
              ∙ inode_laws.read_full_value child w read)
        | inr other ↦
            inode_laws.write_full_keeps child j i w₁ (ground arith)
            ∙ inode_laws.read_full_keeps child j w
      ]

  pub written_back-view :
      (child : Ino) (w : World D)
      → let (e, i, w₁) = lib.read_inode_full child w in
        e ≡ 0 → view (lib.write_inode_full child i w₁).2.lib ≡ view w.lib
  written_back-view child w read =
      let (_, i, w₁) = lib.read_inode_full child w in
      write_back lib stored view inode_laws laws child i w w₁
        (inode_laws.read_full_keeps child child w)
        (read_full-SameData lib stored view inode_laws laws child w read)
      ∙ laws.read_full_view child w
