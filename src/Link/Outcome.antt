-- ===== src/Link/Outcome.antt =====
-- What has happened when `node_ext2fs_link` returns 0.
use node_ext2fs.Base.{
  Bool, false, pos, ◌+◌, ◌%◌, ◌^◌, not, some, [], ◌∷◌, ◌++◌, ◌&&◌, ◌≡◌, ap, ◌∙◌, arith, ◌==◌,
  if◌then◌else◌, Bool-cases, inl, inr,
}
use node_ext2fs.Ext2.Filsys.{Bytes, Ino, World}
use node_ext2fs.Ext2.Inode.{InodeLarge}
use node_ext2fs.Ext2.Library.{Ext2fs}
use node_ext2fs.Laws.{InodeLaws, NameLaws, links}
use node_ext2fs.Link.{node_ext2fs_link}
use node_ext2fs.Link.Counts.{parent_found, source_found, node_ext2fs_link-links}
use node_ext2fs.Names.{Names, add}
use node_ext2fs.Names.Library.{NamesLaws}
use node_ext2fs.Names.Linking.{node_ext2fs_link-adds}
use node_ext2fs.Paths.{slash, strrchr}
use node_ext2fs.Translate.Codes.{ErrnoLaws, translate_error_low, translate_error-ne_zero}

module _ {D : Type 0} (lib : Ext2fs D) (stored : D → Ino → InodeLarge) (view : D → Names)
    (inode_laws : InodeLaws lib stored) (name_laws : NameLaws lib stored)
    (names_laws : NamesLaws lib stored view) (errno : ErrnoLaws lib) where
  -- The two look-ups give a directory for the new name and an inode for the old one.
  abbrev both_found : (src before : Bytes) → World D → Bool
  both_found src before w =
      (parent_found lib before w).0 == 0 && not ((source_found lib src before w).1 == 0)

  -- The name and the link are there, or neither.
  abbrev pub HasLinked : (src before name : Bytes) → World D → World D → Type 0
  HasLinked src before name w w' =
      let (e, parent, _) = parent_found lib before w in
      let (_, ino, _) = source_found lib src before w in
      if both_found src before w
      then (view w'.lib ≡ add (record { dir = parent; name = name; ino = ino }) (view w.lib))
        × ((j : Ino)
            → links stored w' j
              ≡ (if j == ino then (links stored w j + 1) % 2 ^ 16 else links stored w j))
      else (view w'.lib ≡ view w.lib) × ((j : Ino) → links stored w' j ≡ links stored w j)

  -- Where a look-up has failed and the result is 0, nothing follows the look-ups.
  only_looked_up :
      (src dest before name : Bytes) (w : World D)
      → strrchr dest ≡ some (before, name)
      → both_found src before w ≡ false
      → (node_ext2fs_link lib src dest w).0 ≡ pos 0
      → (node_ext2fs_link lib src dest w).1 ≡ (
          if (parent_found lib before w).0 == 0
          then (source_found lib src before w).2
          else (parent_found lib before w).2)
  unfolding node_ext2fs_link
  only_looked_up src dest before name w split none h =
      let (e, ino, w₂) = source_found lib src before w in
      ground (arith, translate_error_low lib 0 e w₂, translate_error-ne_zero lib 0 e w₂ errno)

  looked_up-view :
      (src before : Bytes) (b : Bool) (w : World D)
      → view (if b then (source_found lib src before w).2 else (parent_found lib before w).2).lib
        ≡ view w.lib
  looked_up-view src before b w =
      let w₀ = (lib.strdup_succeeds w).1 in
      ground (
        arith,
        names_laws.strdup_view w,
        names_laws.namei_view (before ++ slash ∷ []) w₀,
        names_laws.namei_view src (parent_found lib before w).2,
      )

  looked_up-links :
      (src before : Bytes) (b : Bool) (j : Ino) (w : World D)
      → links stored
          (if b then (source_found lib src before w).2 else (parent_found lib before w).2)
          j
        ≡ links stored w j
  looked_up-links src before b j w =
      let w₀ = (lib.strdup_succeeds w).1 in
      ground (
        arith,
        name_laws.strdup_links j w,
        name_laws.namei_links (before ++ slash ∷ []) j w₀,
        name_laws.namei_links src j (parent_found lib before w).2,
      )

  -- If a hard link returns 0, and the new name has a slash, then: where the directory of the new name
  -- and the inode of the old name are found, the new name is among the names, the link count of that
  -- inode is one higher in its 16 bits, and nothing else has changed of the names and counts; where one
  -- of them is not found, no name and no count has changed, although the result is 0.
  -- It assumes the laws on inodes, names and link counts (InodeLaws, NamesLaws, NameLaws) and positive
  -- errno values (ErrnoLaws).
  pub node_ext2fs_link-HasLinked :
      (src dest before name : Bytes) (w : World D)
      → strrchr dest ≡ some (before, name)
      → (node_ext2fs_link lib src dest w).0 ≡ pos 0
      → HasLinked src before name w (node_ext2fs_link lib src dest w).1
  node_ext2fs_link-HasLinked src dest before name w split h =
      elim (Bool-cases (both_found src before w)) [
        | inl found ↦ rw found (
          node_ext2fs_link-adds lib stored view inode_laws names_laws errno src dest before name w
              split (ground arith) (ground arith) h,
          λ j.
              node_ext2fs_link-links lib stored inode_laws name_laws src dest before name j w errno
                split (ground arith) (ground arith) h,
        )
        | inr missing ↦
            let looked = only_looked_up src dest before name w split missing h in
            let b = (parent_found lib before w).0 == 0 in
            rw missing (
              ap (λ v. view v.lib) looked ∙ looked_up-view src before b w,
              λ j. ap (λ v. links stored v j) looked ∙ looked_up-links src before b j w,
            )
      ]
