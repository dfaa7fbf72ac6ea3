-- ===== src/Link/Symlinks/Read.antt =====
-- `node_ext2fs_readlink` of src/glue.c reads what `node_ext2fs_symlink` has made.
use node_ext2fs.Base.{
  ℕ, pos, ◌<◌, some, false, ◌++◌, [], ◌∷◌, length, ◌==◌, ◌≡◌, ◌≢◌, refl, ap, sym, ◌∙◌, arith, inl,
  inr, ==-true,
}
use mathlib.Core.Path.{subst}
use node_ext2fs.Ext2.Filsys.{Bytes, Ino, World}
use node_ext2fs.Ext2.Inode.{InodeLarge}
use node_ext2fs.Ext2.Library.{Ext2fs}
use node_ext2fs.Laws.{InodeLaws, NameLaws}
use node_ext2fs.Link.{node_ext2fs_symlink, node_ext2fs_readlink}
use node_ext2fs.Link.Counts.{parent_found}
use node_ext2fs.Link.Symlinks.{IsTarget, SymlinkLaws, node_ext2fs_symlink-IsLinked}
use node_ext2fs.Link.Target.{IsText, node_ext2fs_readlink-words}
use node_ext2fs.Names.{Names, add, counted-add, refs}
use node_ext2fs.Names.Library.{NamesLaws}
use node_ext2fs.Paths.{string_to_inode, strrchr}
use node_ext2fs.Translate.Codes.{ErrnoLaws}

-- One name more tells which inode it stands for.
add-ino :
    (dir i j : Ino) (name : Bytes) (n : Names)
    → add (record { dir = dir; name = name; ino = i }) n
      ≡ add (record { dir = dir; name = name; ino = j }) n
    → i ≡ j
add-ino dir i j name n e =
    let one = counted-add (λ x. x.ino == j) (record { dir = dir; name = name; ino = i }) n in
    let other = counted-add (λ x. x.ino == j) (record { dir = dir; name = name; ino = j }) n in
    ground (arith, one, other, ap (refs j) e, ==-true j j refl)

module _ {D : Type 0} (lib : Ext2fs D) (stored : D → Ino → InodeLarge) (view : D → Names)
    (inode_laws : InodeLaws lib stored) (laws : NamesLaws lib stored view) (errno : ErrnoLaws lib)
    (symlink_laws : SymlinkLaws lib stored view) (name_laws : NameLaws lib stored) where
  string_to_inode-keeps :
      (path : Bytes) (j : Ino) (w : World D)
      → stored (string_to_inode lib path false w).1.lib j ≡ stored w.lib j
  unfolding string_to_inode
  string_to_inode-keeps path j w = symlink_laws.namei_keeps path j w

  -- If making a symbolic link returns 0, for a target of fewer than 60 characters, each of eight bits
  -- and none of them NUL, then a path that is looked up to the inode of the new name, without an error
  -- when that inode is read, is read as a symbolic link: the result is 0, and the target is appended to
  -- the array.
  -- It assumes the laws on inodes, names, link counts and new links (InodeLaws, NamesLaws, NameLaws,
  -- SymlinkLaws) and positive errno values (ErrnoLaws).
  pub node_ext2fs_readlink-symlink :
      (src dest before name path : Bytes) (id : ℕ) (w : World D)
      → let (r, v) = node_ext2fs_symlink lib src dest w in
        let (ino, v₁) = string_to_inode lib path false v in
        let (e, _, v₂) = lib.read_inode ino v₁ in
        strrchr dest ≡ some (before, name)
        → r ≡ pos 0
        → length src < 60
        → IsText src
        → view v.lib
          ≡ add
              (record { dir = (parent_found lib before w).1; name = name; ino = ino })
              (view w.lib)
        → ino ≢ 0
        → e ≡ 0
        → ((node_ext2fs_readlink lib path id v).0 ≡ pos 0)
          × ((node_ext2fs_readlink lib path id v).1.arrays id ≡ v₂.arrays id ++ src ∷ [])
  node_ext2fs_readlink-symlink src dest before name path id w split made short text named there
        read =
      let v = (node_ext2fs_symlink lib src dest w).1 in
      let (found, v₁) = string_to_inode lib path false v in
      let dir = (parent_found lib before w).1 in
      let (ino, _, adds, _, _, _, holds) =
        node_ext2fs_symlink-IsLinked lib stored view inode_laws laws errno symlink_laws name_laws
          src dest before name w split made in
      let same : ino ≡ found = add-ino dir ino found name (view w.lib) (sym adds ∙ named) in
      let target : IsTarget lib (stored v.lib ino).base src = elim holds [
        | inl long ↦ absurd (omega arith)
        | inr is ↦ is
      ] in
      let value : (lib.read_inode found v₁).1 ≡ (stored v.lib ino).base =
        inode_laws.read_value found v₁ read
        ∙ ap (λ i. i.base) (string_to_inode-keeps path found v)
        ∙ ap (λ j. (stored v.lib j).base) (sym same) in
      let (is_link, fast, (k, holds_words)) = subst (λ i. IsTarget lib i src) (sym value) target in
      node_ext2fs_readlink-words lib path src k id v there read is_link fast holds_words text
