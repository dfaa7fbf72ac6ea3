-- ===== src/Widths/Renamed.antt =====
-- A rename keeps every inode within its types.
use node_ext2fs.Base.{
  ℕ, ℤ, pos, neg, ◌+◌, ◌-◌, ◌<◌, ◌%◌, ◌^◌, Bool, true, false, not, [], ◌∷◌, ◌++◌, ◌||◌, ◌&&◌, ◌==◌,
  arith, if◌then◌else◌,
}
use node_ext2fs.Ext2.Errors.{einval, enoent, enomem, ext2_et_file_not_found}
use node_ext2fs.Ext2.Filsys.{Bytes, Ino, World}
use node_ext2fs.Ext2.Inode.{Inode}
use node_ext2fs.Ext2.Library.{Ext2fs}
use node_ext2fs.Ext2.Modes.{ext2_root_ino, linux_s_isdir}
use node_ext2fs.FileType.{ext2_file_type}
use node_ext2fs.Paths.{strrchr, slash}
use node_ext2fs.Remove.{node_ext2fs_rmdir, node_ext2fs_unlink}
use node_ext2fs.Rename.{
  update_dotdot_helper, exit_translate_if, change_links, move_dotdot, dir_of_path, remove_target,
  place_name, drop_old_name, move_entry, rename_dirs, rename_found, node_ext2fs_rename,
}
use node_ext2fs.Widths.{Any, Fits, Within, Keeps, KeepsCmd}
use node_ext2fs.Widths.Library.{WidthLaws}
use node_ext2fs.Widths.Removed.{
  unlink_file_by_name-Keeps, node_ext2fs_unlink-Keeps, node_ext2fs_rmdir-Keeps,
}
use node_ext2fs.Widths.Rules.{
  if-either, Keeps-pure, Keeps-bind, Keeps-exit_if, Keeps-on, Keeps-run, Keeps-raw, Keeps-or_exit,
  Keeps-unless_zero, Keeps-function,
}
use node_ext2fs.Widths.Shared.{
  translate_error-Keeps, Keeps-call_translate, update_ctime-Keeps, update_mtime-Keeps,
  link_expanding-Keeps,
}

links-Fits : (n : ℕ) (i : Inode) → n < 2 ^ 16 → Fits i → Fits (record i { i_links_count = n })
links-Fits n i b h = ground arith

module _ {D : Type 0} (lib : Ext2fs D) (Stored : D → Type 0) (laws : WidthLaws lib Stored) where
  pub exit_translate_if-Keeps :
      (b : Bool) (ino : Ino) (err : ℕ) → Keeps Stored Any (exit_translate_if lib b ino err)
  exit_translate_if-Keeps true ino err = record {
    at = λ w ok. ((translate_error-Keeps lib Stored laws ino err).at w ok).1;
  }
  exit_translate_if-Keeps false ino err = record { at = λ w ok. (tt, ok) }

  change_links-Keeps :
      (f : ℕ → ℕ) (dir : Ino) → ((n : ℕ) → f n < 2 ^ 16) → Keeps Stored Any (change_links lib f dir)
  unfolding change_links
  change_links-Keeps f dir bound =
      Keeps-bind (Keeps-call_translate lib Stored laws dir (laws.read_inode dir)) λ i h.
        Keeps-call_translate lib Stored laws dir (
          laws.write_inode dir (record i { i_links_count = f i.i_links_count })
            (links-Fits (f i.i_links_count) i (bound i.i_links_count) h))

  move_dotdot-Keeps :
      (ino from_dir to_dir : Ino) → Keeps Stored Any (move_dotdot lib ino from_dir to_dir)
  unfolding move_dotdot
  move_dotdot-Keeps ino from_dir to_dir =
      Keeps-bind
        (Keeps-call_translate lib Stored laws ino (
          laws.dir_iterate2 (Unit {0}) ino 0
            (λ dirent. update_dotdot_helper to_dir (lib.dirent_name_len dirent) dirent) tt))
        λ _ _.
          Keeps-bind
            (change_links-Keeps (λ n. (n + 2 ^ 16 - 1) % 2 ^ 16) from_dir (λ n. omega arith))
            λ _ _. change_links-Keeps (λ n. (n + 1) % 2 ^ 16) to_dir (λ n. omega arith)

  dir_of_path-Keeps : (path : Bytes) → Keeps Stored Any (dir_of_path lib path)
  unfolding dir_of_path
  dir_of_path-Keeps path = Keeps-bind (Keeps-or_exit (strrchr path) (neg einval)) λ x _.
      Keeps-bind
        (Keeps-call_translate lib Stored laws 0
          (laws.namei ext2_root_ino ext2_root_ino (x.0 ++ slash ∷ [])))
        λ dir _. Keeps-bind (Keeps-exit_if (dir == 0) (neg enoent)) λ _ _. Keeps-pure (x.1, dir) tt

  remove_target-Keeps : (to_ino : Ino) (to : Bytes) → Keeps Stored Any (remove_target lib to_ino to)
  unfolding remove_target
  remove_target-Keeps to_ino to =
      Keeps-bind (Keeps-call_translate lib Stored laws to_ino (laws.read_inode to_ino)) λ i _.
        Keeps-unless_zero
          {c = λ w.
            if linux_s_isdir i.i_mode
            then node_ext2fs_rmdir lib to w
            else node_ext2fs_unlink lib to w}
          (record {
            at = λ w ok.
                if-either (λ (x : ℤ × World D). Unit × Within Stored x.1) (linux_s_isdir i.i_mode)
                  (node_ext2fs_rmdir lib to w) (node_ext2fs_unlink lib to w)
                  ((node_ext2fs_rmdir-Keeps lib Stored laws to).at w ok)
                  ((node_ext2fs_unlink-Keeps lib Stored laws to).at w ok);
          })

  place_name-Keeps :
      (from_ino from_dir to_dir : Ino) (name : Bytes)
      → Keeps Stored Any (place_name lib from_ino from_dir to_dir name)
  unfolding place_name
  place_name-Keeps from_ino from_dir to_dir name =
      Keeps-bind (Keeps-call_translate lib Stored laws from_ino (laws.read_inode from_ino)) λ i _.
        Keeps-bind
          (Keeps-call_translate lib Stored laws to_dir
            (link_expanding-Keeps lib Stored laws to_dir name from_ino (ext2_file_type i.i_mode)))
          λ _ _.
            Keeps-bind (Keeps-call_translate lib Stored laws from_ino (laws.read_inode from_ino))
              λ i₂ _.
                Keeps-on (linux_s_isdir i₂.i_mode) (move_dotdot-Keeps from_ino from_dir to_dir)

  drop_old_name-Keeps :
      (from : Bytes) (from_ino to_dir : Ino)
      → Keeps Stored Any (drop_old_name lib from from_ino to_dir)
  unfolding drop_old_name
  drop_old_name-Keeps from from_ino to_dir =
      Keeps-bind (Keeps-unless_zero (update_ctime-Keeps lib Stored laws from_ino)) λ _ _.
        Keeps-bind (Keeps-unless_zero (update_mtime-Keeps lib Stored laws to_dir)) λ _ _.
          Keeps-bind (Keeps-unless_zero (unlink_file_by_name-Keeps lib Stored laws from)) λ _ _.
            Keeps-bind (Keeps-call_translate lib Stored laws 0 (laws.flush2 0))
              λ _ _. Keeps-pure (pos 0) tt

  rename_dirs-Keeps :
      (from to : Bytes) (from_ino to_ino : Ino)
      → Keeps Stored Any (rename_dirs lib from to from_ino to_ino)
  unfolding rename_dirs move_entry
  rename_dirs-Keeps from to from_ino to_ino = Keeps-bind (dir_of_path-Keeps from) λ source _.
      Keeps-bind (dir_of_path-Keeps to) λ target _.
        Keeps-bind (Keeps-on (not (to_ino == 0)) (remove_target-Keeps to_ino to)) λ _ _.
          Keeps-bind (place_name-Keeps from_ino source.1 target.1 target.0)
            λ _ _. drop_old_name-Keeps from from_ino target.1

  pub node_ext2fs_rename-Keeps :
      (from to : Bytes) → KeepsCmd Stored Any (node_ext2fs_rename lib from to)
  unfolding node_ext2fs_rename rename_found
  node_ext2fs_rename-Keeps from to = Keeps-function (
      Keeps-bind (Keeps-raw (laws.namei ext2_root_ino ext2_root_ino from)) λ x _.
        Keeps-bind (exit_translate_if-Keeps (not (x.0 == 0) || x.1 == 0) 0 x.0) λ _ _.
          Keeps-bind (Keeps-raw (laws.namei ext2_root_ino ext2_root_ino to)) λ y _.
            Keeps-bind
              (exit_translate_if-Keeps (not (y.0 == 0) && not (y.0 == ext2_et_file_not_found)) 0
                y.0)
              λ _ _.
                let to_ino : Ino = if y.0 == ext2_et_file_not_found then 0 else y.1 in
                Keeps-bind (Keeps-exit_if (not (to_ino == 0) && to_ino == x.1) (pos 0)) λ _ _.
                  Keeps-bind (Keeps-run laws.strdup_succeeds) λ copied_to _.
                    Keeps-bind (Keeps-exit_if (not copied_to) (neg enomem)) λ _ _.
                      Keeps-bind (Keeps-run laws.strdup_succeeds) λ copied_from _.
                        Keeps-bind (Keeps-exit_if (not copied_from) (neg enomem))
                          λ _ _. rename_dirs-Keeps from to x.1 to_ino)
