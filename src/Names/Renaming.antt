-- ===== src/Names/Renaming.antt =====
-- The names after `node_ext2fs_rename`: the new one is there and the old one is gone.
use node_ext2fs.Base.{
  ℕ, ℤ, pos, neg, ◌+◌, ◌-◌, ◌%◌, ◌^◌, some, [], ◌∷◌, ◌++◌, ◌≡◌, refl, sym, ap, ◌∙◌, ◌==◌,
  Bool-cases, inl, inr,
}
use mathlib.Core.Path.{subst}
use node_ext2fs.Create.{link_expanding}
use node_ext2fs.Ext2.Errors.{einval, enoent}
use node_ext2fs.Ext2.Filsys.{Bytes, Ino, World}
use node_ext2fs.Ext2.Inode.{Inode, InodeLarge, DirEntry}
use node_ext2fs.Ext2.Library.{Ext2fs}
use node_ext2fs.Ext2.Modes.{ext2_root_ino, linux_s_isdir}
use node_ext2fs.FileType.{ext2_file_type}
use node_ext2fs.Laws.{InodeLaws}
use node_ext2fs.Names.{Name, Names, add}
use node_ext2fs.Names.Library.{SameData, NamesLaws, MovesDotdot, is_dotdot}
use node_ext2fs.Names.Keeps.{update_ctime-view, update_mtime-view}
use node_ext2fs.Names.Linking.{link_expanding-adds}
use node_ext2fs.Names.Removing.{dir_found, IsGone, unlink_file_by_name-IsGone}
use node_ext2fs.Paths.{slash, strrchr}
use node_ext2fs.Prog.{◌>>=◌, ◌>>◌, pure, on, unless_zero, exit_if}
use node_ext2fs.Prog.Rules.{
  Post, Post-bind, Post-on, Post-or_exit, Post-exit_if, Post-unless_zero, Post-call_translate,
  Post-call_translate_last,
}
use node_ext2fs.Remove.{unlink_file_by_name}
use node_ext2fs.Rename.{
  update_dotdot_helper, change_links, move_dotdot, dir_of_path, place_name, drop_old_name,
}
use node_ext2fs.Times.{update_ctime, update_mtime}
use node_ext2fs.Translate.{call_translate}
use node_ext2fs.Translate.Codes.{ErrnoLaws}

module _ {D : Type 0} (lib : Ext2fs D) (stored : D → Ino → InodeLarge) (view : D → Names)
    (inode_laws : InodeLaws lib stored) (laws : NamesLaws lib stored view)
    (errno : ErrnoLaws lib) where
  -- The names are `n`.
  abbrev pub NamesAre : {A : Type 0} → Names → A → World D → Type 0
  NamesAre n _ w = view w.lib ≡ n

  counted-SameData :
      (f : ℕ → ℕ) (i : Inode) (s : InodeLarge)
      → i ≡ s.base
      → SameData (record i { i_links_count = f i.i_links_count }) s.base
  counted-SameData f i s e = rw e (refl, refl, refl, refl)

  change_links-Post :
      (f : ℕ → ℕ) (dir : Ino) (w : World D)
      → Post (NamesAre (view w.lib)) (change_links lib f dir w)
  unfolding change_links
  change_links-Post f dir w =
      let (_, i, w₁) = lib.read_inode dir w in
      let write =
        λ (i : Inode). lib.write_inode dir (record i { i_links_count = f i.i_links_count }) in
      Post-call_translate lib errno (NamesAre (view w.lib)) dir (lib.read_inode dir)
        (λ i. call_translate lib dir (write i)) w
        λ read. Post-call_translate_last lib errno (NamesAre (view w.lib)) dir (write i) w₁ λ _.
          laws.write_view dir _ w₁ (
            subst (λ s. SameData (record i { i_links_count = f i.i_links_count }) s.base)
              (sym (inode_laws.read_keeps dir dir w))
              (counted-SameData f i (stored w.lib dir) (inode_laws.read_value dir w read)))
          ∙ laws.read_view dir w

  update_dotdot-MovesDotdot :
      (to_dir : Ino)
      → MovesDotdot lib (λ (d : DirEntry). update_dotdot_helper to_dir (lib.dirent_name_len d) d)
  unfolding update_dotdot_helper
  update_dotdot-MovesDotdot to_dir d p = elim (Bool-cases (is_dotdot lib d)) [
    | inl dots ↦ rw dots (inr (refl, refl))
    | inr other ↦ rw other (inl refl)
  ]

  move_dotdot-Post :
      (ino from_dir to_dir : Ino) (w : World D)
      → Post (NamesAre (view w.lib)) (move_dotdot lib ino from_dir to_dir w)
  unfolding move_dotdot
  move_dotdot-Post ino from_dir to_dir w =
      let n = view w.lib in
      let visit = λ (d : DirEntry). update_dotdot_helper to_dir (lib.dirent_name_len d) d in
      let iterate = lib.dir_iterate2 ino 0 visit tt in
      let w₁ = (iterate w).2 in
      let down = change_links lib (λ k. (k + 2 ^ 16 - 1) % 2 ^ 16) from_dir in
      let up = change_links lib (λ k. (k + 1) % 2 ^ 16) to_dir in
      let same =
        laws.dir_iterate2_view (Unit {0}) ino visit tt w (update_dotdot-MovesDotdot to_dir) in
      Post-call_translate lib errno (NamesAre n) ino iterate (λ _. down >> up) w
        λ _.
          Post-bind (NamesAre n) (NamesAre n) (down w₁) (λ _. up)
            (subst (λ m. Post (NamesAre m) (down w₁)) same (change_links-Post _ from_dir w₁))
            λ _ w₂ e. subst (λ m. Post (NamesAre m) (up w₂)) e (change_links-Post _ to_dir w₂)

  pub place_name-Post :
      (from_ino from_dir to_dir : Ino) (name : Bytes) (w : World D)
      → Post
          (NamesAre (add (record { dir = to_dir; name = name; ino = from_ino }) (view w.lib)))
          (place_name lib from_ino from_dir to_dir name w)
  unfolding place_name
  place_name-Post from_ino from_dir to_dir name w =
      let x : Name = record { dir = to_dir; name = name; ino = from_ino } in
      let n = add x (view w.lib) in
      let read = lib.read_inode from_ino in
      let link = λ (i : Inode). link_expanding lib to_dir name from_ino (ext2_file_type i.i_mode) in
      let (_, i, w₁) = read w in
      let w₂ = (link i w₁).2 in
      let w₃ = (read w₂).2 in
      let dots =
        λ (i : Inode). on (linux_s_isdir i.i_mode) (move_dotdot lib from_ino from_dir to_dir) in
      let rest = λ (_ : Unit {0}). call_translate lib from_ino read >>= dots in
      Post-call_translate lib errno (NamesAre n) from_ino read
        (λ i. call_translate lib to_dir (link i) >>= rest) w
        λ _. Post-call_translate lib errno (NamesAre n) to_dir (link i) rest w₁ λ linked.
          let linked_view =
            laws.read_view from_ino w₂
            ∙ link_expanding-adds lib stored view laws to_dir name from_ino
                (ext2_file_type i.i_mode) w₁ linked
            ∙ ap (add x) (laws.read_view from_ino w) in
          Post-call_translate lib errno (NamesAre n) from_ino read dots w₂ λ _.
            Post-on (NamesAre n) _ (move_dotdot lib from_ino from_dir to_dir) w₃
              (λ _.
                subst (λ m. Post (NamesAre m) (move_dotdot lib from_ino from_dir to_dir w₃))
                  linked_view (move_dotdot-Post from_ino from_dir to_dir w₃))
              λ _. linked_view

  -- From `w` to `v` the last part of the path is gone from its directory, which is looked up while
  -- the names are those of `w`.
  abbrev pub Gone : Bytes → World D → World D → Type 0
  Gone path w v =
      (x : World D) × (view x.lib ≡ view w.lib)
      × IsGone lib stored view inode_laws laws errno path
          (dir_found lib stored view inode_laws laws errno path x) w v

  pub drop_old_name-Post :
      (from : Bytes) (from_ino to_dir : Ino) (w : World D)
      → Post (λ (_ : ℤ) v. Gone from w v) (drop_old_name lib from from_ino to_dir w)
  unfolding drop_old_name
  drop_old_name-Post from from_ino to_dir w =
      let Q = λ (_ : ℤ) (v : World D). Gone from w v in
      let w₁ = (update_ctime lib from_ino w).1 in
      let w₂ = (update_mtime lib to_dir w₁).1 in
      let w₃ = (unlink_file_by_name lib from w₂).1 in
      let same =
        update_mtime-view lib stored view inode_laws laws to_dir w₁
        ∙ update_ctime-view lib stored view inode_laws laws from_ino w in
      let done = λ (_ : Unit {0}). pure {A = ℤ} (pos 0) in
      let flush = call_translate lib 0 (lib.flush2 0) >>= done in
      let unlink = unless_zero (unlink_file_by_name lib from) >> flush in
      Post-unless_zero Q (update_ctime lib from_ino)
        (unless_zero (update_mtime lib to_dir) >> unlink) w
        λ _. Post-unless_zero Q (update_mtime lib to_dir) unlink w₁ λ _.
          Post-unless_zero Q (unlink_file_by_name lib from) flush w₂ λ unlinked.
            Post-call_translate lib errno Q 0 (lib.flush2 0) done w₃ λ _.
              let (r, gone) =
                unlink_file_by_name-IsGone lib stored view inode_laws laws errno from w₂ unlinked in
              (w₂, same, (r, sym same ∙ gone ∙ ap (add _) (sym (laws.flush2_view w₃))))

  pub dir_of_path-Post :
      (path : Bytes) (w : World D)
      → Post
          (λ (p : Bytes × Ino) v.
            (before : Bytes) × (strrchr path ≡ some (before, p.0))
            × (p.1 ≡ (lib.namei ext2_root_ino ext2_root_ino (before ++ slash ∷ []) w).1)
            × (view v.lib ≡ view w.lib))
          (dir_of_path lib path w)
  unfolding dir_of_path
  dir_of_path-Post path w =
      let Q = λ (p : Bytes × Ino) (v : World D).
        (before : Bytes) × (strrchr path ≡ some (before, p.0))
        × (p.1 ≡ (lib.namei ext2_root_ino ext2_root_ino (before ++ slash ∷ []) w).1)
        × (view v.lib ≡ view w.lib) in
      let find = λ (p : Bytes × Bytes). lib.namei ext2_root_ino ext2_root_ino (p.0 ++ slash ∷ []) in
      let rest = λ (p : Bytes × Bytes) (dir : Ino).
        exit_if (dir == 0) (neg enoent) >> pure {A = Bytes × Ino} (p.1, dir) in
      Post-or_exit Q (strrchr path) (neg einval) (λ p. call_translate lib 0 (find p) >>= rest p) w
        (λ e. cc)
        λ p split. Post-call_translate lib errno Q 0 (find p) (rest p) w λ _.
          Post-exit_if Q _ (neg enoent) (pure {A = Bytes × Ino} (p.1, (find p w).1)) (find p w).2
            (λ e. cc) λ _. (p.0, split, refl, laws.namei_view (p.0 ++ slash ∷ []) w)
