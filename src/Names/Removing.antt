-- ===== src/Names/Removing.antt =====
-- The names after `node_ext2fs_unlink`: the one of the path is gone.
use node_ext2fs.Base.{
  pos, false, none, some, ◌≡◌, refl, sym, ap, ◌∙◌, arith, ◌==◌, Option-cases, inl, inr,
}
use node_ext2fs.Ext2.Filsys.{Bytes, Ino, World}
use node_ext2fs.Ext2.Inode.{InodeLarge}
use node_ext2fs.Ext2.Library.{Ext2fs}
use node_ext2fs.Ext2.Modes.{ext2_root_ino}
use node_ext2fs.Laws.{InodeLaws}
use node_ext2fs.Names.{Name, Names, add, children, counted-add}
use node_ext2fs.Names.Library.{NamesLaws}
use node_ext2fs.Names.Keeps.{update_mtime-view, remove_inode-view}
use node_ext2fs.Paths.{strrchr}
use node_ext2fs.Remove.{unlink_file_by_name, remove_inode, node_ext2fs_unlink}
use node_ext2fs.Translate.Codes.{ErrnoLaws, translate_error-ne_zero}

-- The last part of a path.
abbrev pub last_part : Bytes → Bytes
last_part path = elim (strrchr path) [ some (_, behind) ↦ behind | none ↦ path ]

module _ {D : Type 0} (lib : Ext2fs D) (stored : D → Ino → InodeLarge) (view : D → Names)
    (inode_laws : InodeLaws lib stored) (laws : NamesLaws lib stored view)
    (errno : ErrnoLaws lib) where
  -- The directory in which the last part of a path stands.
  abbrev pub dir_found : Bytes → World D → Ino
  dir_found path w = elim (strrchr path) [
    | some (before, _) ↦ (lib.namei ext2_root_ino ext2_root_ino before w).1
    | none ↦ ext2_root_ino
  ]

  -- From `w` to `w'` one name is gone: the last part of the path, in its directory.
  abbrev pub IsGone : Bytes → (dir : Ino) → World D → World D → Type 0
  IsGone path dir w w' =
      (r : Ino) × (view w.lib
        ≡ add (record { dir = dir; name = last_part path; ino = r }) (view w'.lib))

  unlinked :
      (dir : Ino) (name : Bytes) (w w' : World D)
      → (lib.unlink dir name 0 0 w).0 ≡ 0
      → view w'.lib ≡ view (lib.unlink dir name 0 0 w).2.lib
      → (r : Ino) × (view w.lib ≡ add (record { dir = dir; name = name; ino = r }) (view w'.lib))
  unlinked dir name w w' okay same =
      let (r, e) = laws.unlink_removes dir name w okay in (r, rw same e)

  pub IsGone-of :
      (path name : Bytes) (dir dir' : Ino) (w w₁ w' : World D)
      → last_part path ≡ name
      → dir' ≡ dir
      → view w₁.lib ≡ view w.lib
      → (r : Ino) × (view w₁.lib ≡ add (record { dir = dir; name = name; ino = r }) (view w'.lib))
      → IsGone path dir' w w'
  IsGone-of path name dir dir' w w₁ w' last same kept (r, e) = (r, rw (last, same) (sym kept ∙ e))

  -- What has happened, for a path with a slash, on the way to the result 0.
  pub unlinked_in :
      (path before name : Bytes) (w : World D)
      → strrchr path ≡ some (before, name)
      → (unlink_file_by_name lib path w).0 ≡ pos 0
      → let (e, dir, w₁) = lib.namei ext2_root_ino ext2_root_ino before w in
        let (e₂, _, w₂) = lib.unlink dir name 0 0 w₁ in
        (e ≡ 0) × (e₂ ≡ 0) × (view (unlink_file_by_name lib path w).1.lib ≡ view w₂.lib)
  unfolding unlink_file_by_name
  unlinked_in path before name w split h =
      let (e, dir, w₁) = lib.namei ext2_root_ino ext2_root_ino before w in
      let (e₂, _, w₂) = lib.unlink dir name 0 0 w₁ in
      let found : e ≡ 0 = ground (arith, translate_error-ne_zero lib 0 e w₁ errno) in
      let okay : e₂ ≡ 0 = ground (arith, translate_error-ne_zero lib dir e₂ w₂ errno) in
      (found, okay, ground (arith, update_mtime-view lib stored view inode_laws laws dir w₂))

  pub unlink_file_by_name-IsGone :
      (path : Bytes) (w : World D)
      → (unlink_file_by_name lib path w).0 ≡ pos 0
      → IsGone path (dir_found path w) w (unlink_file_by_name lib path w).1
  unfolding unlink_file_by_name
  unlink_file_by_name-IsGone path w h = elim (Option-cases (strrchr path)) [
    | inl root ↦
        let (e, _, w₁) = lib.unlink ext2_root_ino path 0 0 w in
        let okay : e ≡ 0 = ground (arith, translate_error-ne_zero lib ext2_root_ino e w₁ errno) in
        let after : view (unlink_file_by_name lib path w).1.lib ≡ view w₁.lib =
          ground (arith, update_mtime-view lib stored view inode_laws laws ext2_root_ino w₁) in
        IsGone-of path path ext2_root_ino (dir_found path w) w w (unlink_file_by_name lib path w).1
          (rw (root, last_part) refl) (rw (root, dir_found) refl) refl
          (unlinked ext2_root_ino path w (unlink_file_by_name lib path w).1 okay after)
    | inr ((before, behind), split) ↦
        let (e, dir, w₁) = lib.namei ext2_root_ino ext2_root_ino before w in
        let (_, okay, after) = unlinked_in path before behind w split h in
        IsGone-of path behind dir (dir_found path w) w w₁ (unlink_file_by_name lib path w).1
          (rw (split, last_part) refl) (rw (split, dir_found) refl) (laws.namei_view before w)
          (unlinked dir behind w₁ (unlink_file_by_name lib path w).1 okay after)
  ]

  -- The world in which `node_ext2fs_unlink` takes the name away, after the look-ups.
  abbrev pub unlinking : Bytes → World D → World D
  unlinking path w =
      let (_, ino, w₁) = lib.namei ext2_root_ino ext2_root_ino path w in
      (lib.check_directory ino w₁).2

  pub fewer_children :
      (dir : Ino) (x : Name) (n m : Names) → n ≡ add x m → children dir n ≡ 0 → children dir m ≡ 0
  fewer_children dir x n m e empty =
      omega (arith, ap (children dir) e, empty, counted-add (λ y. y.dir == dir) x m)

  -- What has happened on the way to the result 0.
  pub unlink_steps :
      (path : Bytes) (w : World D)
      → (node_ext2fs_unlink lib path w).0 ≡ pos 0
      → let (e, ino, w₁) = lib.namei ext2_root_ino ext2_root_ino path w in
        let (e₂, _, w₂) = lib.check_directory ino w₁ in
        let (r₃, w₃) = unlink_file_by_name lib path w₂ in
        (e ≡ 0)
        × ((e₂ == 0) ≡ false)
        × (r₃ ≡ pos 0)
        × (node_ext2fs_unlink lib path w ≡ remove_inode lib ino w₃)
  unfolding node_ext2fs_unlink
  unlink_steps path w h =
      let (e, ino, w₁) = lib.namei ext2_root_ino ext2_root_ino path w in
      ground (arith, translate_error-ne_zero lib 0 e w₁ errno)

  -- After the name is taken away, the names stay.
  pub unlinking-view :
      (path : Bytes) (w : World D)
      → (node_ext2fs_unlink lib path w).0 ≡ pos 0
      → view (node_ext2fs_unlink lib path w).1.lib
        ≡ view (unlink_file_by_name lib path (unlinking path w)).1.lib
  unlinking-view path w h =
      let (e, ino, w₁) = lib.namei ext2_root_ino ext2_root_ino path w in
      let (e₂, _, w₂) = lib.check_directory ino w₁ in
      let (r₃, w₃) = unlink_file_by_name lib path w₂ in
      let (_, file, done, last) = unlink_steps path w h in
      let (r, gone) = unlink_file_by_name-IsGone path w₂ done in
      let empty =
        ap (children ino) (laws.check_directory_view ino w₁)
        ∙ laws.check_directory_fails ino w₁ (ground arith) in
      let empty₃ = fewer_children ino _ (view w₂.lib) (view w₃.lib) gone empty in
      ap (λ x. view x.1.lib) last ∙ remove_inode-view lib stored view inode_laws laws ino w₃ empty₃

  -- If removing a name returns 0, the names are those that there were without the last part of the
  -- path in its directory.
  -- It assumes the laws on inodes and names (InodeLaws, NamesLaws) and positive errno values
  -- (ErrnoLaws).
  pub node_ext2fs_unlink-IsGone :
      (path : Bytes) (w : World D)
      → (node_ext2fs_unlink lib path w).0 ≡ pos 0
      → (r : Ino) × (view w.lib
          ≡ add
              (record { dir = dir_found path (unlinking path w); name = last_part path; ino = r })
              (view (node_ext2fs_unlink lib path w).1.lib))
  node_ext2fs_unlink-IsGone path w h =
      let (e, ino, w₁) = lib.namei ext2_root_ino ext2_root_ino path w in
      let w₂ = unlinking path w in
      let (_, _, done, _) = unlink_steps path w h in
      let (r, gone) = unlink_file_by_name-IsGone path w₂ done in
      IsGone-of path (last_part path) (dir_found path w₂) (dir_found path w₂) w w₂
        (node_ext2fs_unlink lib path w).1 refl refl
        (laws.check_directory_view ino w₁ ∙ laws.namei_view path w)
        (r, gone ∙ ap (add _) (sym (unlinking-view path w h)))
