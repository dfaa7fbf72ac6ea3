-- ===== src/Names/Moved.antt =====
-- The names after `node_ext2fs_rename`, from its parts.
use node_ext2fs.Base.{
  ℤ, pos, neg, Bool, true, false, not, some, List, [], ◌∷◌, ◌++◌, ◌≡◌, ◌≢◌, sym, ap, ◌∙◌, arith,
  ◌==◌, if◌then◌else◌,
}
use mathlib.Core.Path.{subst}
use node_ext2fs.Ext2.Errors.{enomem, ext2_et_file_not_found}
use node_ext2fs.Ext2.Filsys.{Bytes, Ino, World}
use node_ext2fs.Ext2.Inode.{InodeLarge, DirEntry}
use node_ext2fs.Ext2.Library.{Ext2fs}
use node_ext2fs.Ext2.Modes.{ext2_root_ino}
use node_ext2fs.Laws.{InodeLaws, IterateLaws}
use node_ext2fs.Names.{Names, add}
use node_ext2fs.Names.Library.{NamesLaws, EntriesLaws}
use node_ext2fs.Paths.{slash, strrchr}
use node_ext2fs.Prog.{◌>>=◌, ◌>>◌, on, exit_if, run, function}
use node_ext2fs.Prog.Rules.{Post, Post-weaken, Post-bind, Post-exit_if, Post-finish}
use node_ext2fs.Rename.{
  dir_of_path, remove_target, place_name, drop_old_name, move_entry, rename_dirs, rename_found,
  node_ext2fs_rename,
}
use node_ext2fs.Translate.Codes.{ErrnoLaws, translate_error-ne_zero}
use node_ext2fs.Names.Renaming.{
  NamesAre, Gone, place_name-Post, drop_old_name-Post, dir_of_path-Post,
}
use node_ext2fs.Names.Replaced.{IsDropped-from, target-IsDropped}

module _ {D : Type 0} (lib : Ext2fs D) (stored : D → Ino → InodeLarge) (view : D → Names)
    (inode_laws : InodeLaws lib stored) (laws : NamesLaws lib stored view) (errno : ErrnoLaws lib)
    (entries : D → Ino → List DirEntry) (iterate_laws : IterateLaws lib entries)
    (entries_laws : EntriesLaws lib entries view) where
  abbrev pub IsDropped : Bytes → World D → World D → Type 0
  IsDropped = Gone lib stored view inode_laws laws errno

  -- The name that a rename has added, and the names that it has taken away.
  abbrev pub IsRenamed : (from to : Bytes) (from_ino to_ino : Ino) → World D → World D → Type 0
  IsRenamed from to from_ino to_ino w v =
      (before name : Bytes) × (y : World D) × (u : World D) × (x : World D) × (strrchr to
        ≡ some (before, name))
      × (view y.lib ≡ view w.lib)
      × (if to_ino == 0 then view u.lib ≡ view w.lib else IsDropped to w u)
      × (view x.lib
          ≡ add
              (record {
                dir = (lib.namei ext2_root_ino ext2_root_ino (before ++ slash ∷ []) y).1;
                name = name;
                ino = from_ino;
              })
              (view u.lib))
      × IsDropped from x v

  move_entry-Post :
      (from to before name : Bytes) (from_ino to_ino from_dir : Ino) (y w : World D)
      → strrchr to ≡ some (before, name)
      → view y.lib ≡ view w.lib
      → Post
          (λ (_ : ℤ) v. IsRenamed from to from_ino to_ino w v)
          (move_entry lib from to from_ino to_ino from_dir
            (name, (lib.namei ext2_root_ino ext2_root_ino (before ++ slash ∷ []) y).1)
            w)
  unfolding move_entry
  move_entry-Post from to before name from_ino to_ino from_dir y w split same =
      let to_dir = (lib.namei ext2_root_ino ext2_root_ino (before ++ slash ∷ []) y).1 in
      let Q = λ (_ : ℤ) (v : World D). IsRenamed from to from_ino to_ino w v in
      let R = λ (_ : Unit {0}) (u : World D).
        if to_ino == 0 then view u.lib ≡ view w.lib else IsDropped to w u in
      let drop = drop_old_name lib from from_ino to_dir in
      let place = place_name lib from_ino from_dir to_dir name in
      let n =
        λ (u : World D). add (record { dir = to_dir; name = name; ino = from_ino }) (view u.lib) in
      Post-bind R Q (on (not (to_ino == 0)) (remove_target lib to_ino to) w) (λ _. place >> drop)
        (target-IsDropped lib stored view inode_laws laws errno entries iterate_laws entries_laws to
          to_ino w)
        λ _ u gone.
          Post-bind {A = Unit {0}} (NamesAre lib stored view inode_laws laws errno (n u)) Q
            (place u) (λ _. drop)
            (place_name-Post lib stored view inode_laws laws errno from_ino from_dir to_dir name u)
            λ _ x added.
              Post-weaken (λ (_ : ℤ) v. IsDropped from x v) Q (drop x)
                (drop_old_name-Post lib stored view inode_laws laws errno from from_ino to_dir x)
                λ _ v dropped. (before, name, y, u, x, split, same, gone, added, dropped)

  IsRenamed-from :
      (from to : Bytes) (from_ino to_ino : Ino) (w w₁ v : World D)
      → view w₁.lib ≡ view w.lib
      → IsRenamed from to from_ino to_ino w₁ v
      → IsRenamed from to from_ino to_ino w v
  IsRenamed-from from to from_ino to_ino w w₁ v e
        (before, name, y, u, x, split, same, gone, added, dropped) =
      (before, name, y, u, x, split, same ∙ e, by_test (to_ino == 0) gone, added, dropped)
    where
      by_test :
          (b : Bool)
          → (if b then view u.lib ≡ view w₁.lib else IsDropped to w₁ u)
          → (if b then view u.lib ≡ view w.lib else IsDropped to w u)
      by_test true g = g ∙ e
      by_test false g =
          IsDropped-from lib stored view inode_laws laws errno entries iterate_laws entries_laws to
            w w₁ u e g

  rename_dirs-Post :
      (from to : Bytes) (from_ino to_ino : Ino) (w : World D)
      → Post
          (λ (_ : ℤ) v. IsRenamed from to from_ino to_ino w v)
          (rename_dirs lib from to from_ino to_ino w)
  unfolding rename_dirs
  rename_dirs-Post from to from_ino to_ino w =
      let Q = λ (_ : ℤ) (v : World D). IsRenamed from to from_ino to_ino w v in
      let Found = λ (path : Bytes) (w : World D) (p : Bytes × Ino) (v : World D).
        (before : Bytes) × (strrchr path ≡ some (before, p.0))
        × (p.1 ≡ (lib.namei ext2_root_ino ext2_root_ino (before ++ slash ∷ []) w).1)
        × (view v.lib ≡ view w.lib) in
      let move = λ (dir : Ino). move_entry lib from to from_ino to_ino dir in
      Post-bind (Found from w) Q (dir_of_path lib from w) (λ p. dir_of_path lib to >>= move p.1)
        (dir_of_path-Post lib stored view inode_laws laws errno from w)
        λ p w₁ f.
          let (_, _, _, same₁) = f in
          Post-bind (Found to w₁) Q (dir_of_path lib to w₁) (move p.1)
            (dir_of_path-Post lib stored view inode_laws laws errno to w₁)
            λ q w₂ g.
              let (before, split, is, same₂) = g in
              Post-weaken (λ (_ : ℤ) v. IsRenamed from to from_ino to_ino w₂ v) Q (move p.1 q w₂)
                (subst
                  (λ d.
                    Post (λ (_ : ℤ) v. IsRenamed from to from_ino to_ino w₂ v)
                      (move p.1 (q.0, d) w₂))
                  (sym is)
                  (move_entry-Post from to before q.0 from_ino to_ino p.1 w₁ w₂ split (sym same₂)))
                λ _ v. IsRenamed-from from to from_ino to_ino w w₂ v (same₂ ∙ same₁)

  rename_found-IsRenamed :
      (from to : Bytes) (from_ino to_ino : Ino) (w : World D)
      → (function (rename_found lib from to from_ino to_ino) w).0 ≡ pos 0
      → IsRenamed from to from_ino to_ino w
          (function (rename_found lib from to from_ino to_ino) w).1
  unfolding rename_found
  rename_found-IsRenamed from to from_ino to_ino w =
      let Q = λ (_ : ℤ) (v : World D). IsRenamed from to from_ino to_ino w v in
      let (c, w₁) = lib.strdup_succeeds w in
      let (c₂, w₂) = lib.strdup_succeeds w₁ in
      let dirs = rename_dirs lib from to from_ino to_ino in
      let copy = run lib.strdup_succeeds in
      Post-finish Q (rename_found lib from to from_ino to_ino w) (
        Post-exit_if Q (not c) (neg enomem) (copy >>= λ d. exit_if (not d) (neg enomem) >> dirs) w₁
          (λ e. cc)
          λ _.
            Post-exit_if Q (not c₂) (neg enomem) dirs w₂ (λ e. cc)
              λ _.
                Post-weaken (λ (_ : ℤ) v. IsRenamed from to from_ino to_ino w₂ v) Q (dirs w₂)
                  (rename_dirs-Post from to from_ino to_ino w₂)
                  λ _ v.
                    IsRenamed-from from to from_ino to_ino w w₂ v
                      (laws.strdup_view w₁ ∙ laws.strdup_view w))

  -- The inodes that a rename finds at the old path and, 0 if there is none, at the new path.
  abbrev pub from_found : (from : Bytes) → World D → Ino
  from_found from w = (lib.namei ext2_root_ino ext2_root_ino from w).1

  abbrev pub to_found : (from to : Bytes) → World D → Ino
  to_found from to w =
      let (e, found, _) =
        lib.namei ext2_root_ino ext2_root_ino to (lib.namei ext2_root_ino ext2_root_ino from w).2 in
      if e == ext2_et_file_not_found then 0 else found

  steps :
      (from to : Bytes) (w : World D)
      → from_found from w ≢ 0
      → to_found from to w ≢ from_found from w
      → (node_ext2fs_rename lib from to w).0 ≡ pos 0
      → let w₁ = (lib.namei ext2_root_ino ext2_root_ino from w).2 in
        node_ext2fs_rename lib from to w
        ≡ function
            (rename_found lib from to (from_found from w) (to_found from to w))
            (lib.namei ext2_root_ino ext2_root_ino to w₁).2
  unfolding node_ext2fs_rename
  steps from to w there other h =
      let (e, _, w₁) = lib.namei ext2_root_ino ext2_root_ino from w in
      let (e₂, _, w₂) = lib.namei ext2_root_ino ext2_root_ino to w₁ in
      ground
        (arith, translate_error-ne_zero lib 0 e w₁ errno, translate_error-ne_zero lib 0 e₂ w₂ errno)

  -- If a rename returns 0, the old path is found and the new path is not the same inode, then, in this
  -- order: the new name is taken away, if its path was found; the new name for the inode is added; the
  -- old name is taken away. The directory of the added name is looked up while the names are those
  -- before the rename, that of a name that is taken away while they are those before that step.
  -- It assumes the laws on inodes, names and iterators (InodeLaws, NamesLaws, IterateLaws,
  -- EntriesLaws) and positive errno values (ErrnoLaws).
  pub node_ext2fs_rename-IsRenamed :
      (from to : Bytes) (w : World D)
      → from_found from w ≢ 0
      → to_found from to w ≢ from_found from w
      → (node_ext2fs_rename lib from to w).0 ≡ pos 0
      → IsRenamed from to
          (from_found from w)
          (to_found from to w)
          w
          (node_ext2fs_rename lib from to w).1
  node_ext2fs_rename-IsRenamed from to w there other h =
      let w₁ = (lib.namei ext2_root_ino ext2_root_ino from w).2 in
      let w₂ = (lib.namei ext2_root_ino ext2_root_ino to w₁).2 in
      let a = from_found from w in
      let b = to_found from to w in
      let same = steps from to w there other h in
      IsRenamed-from from to a b w w₂ (node_ext2fs_rename lib from to w).1
        (laws.namei_view to w₁ ∙ laws.namei_view from w)
        (subst (λ r. IsRenamed from to a b w₂ r.1) (sym same)
          (rename_found-IsRenamed from to a b w₂ (sym (ap (λ r. r.0) same) ∙ h)))
