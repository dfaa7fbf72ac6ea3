-- ===== src/Rename.antt =====
-- `node_ext2fs_rename` of src/glue.c.
pub mod Counts
use node_ext2fs.Base.{
  ℕ, ℤ, pos, neg, ◌+◌, ◌-◌, ◌%◌, ◌^◌, bit_or, Bool, not, [], ◌∷◌, ◌++◌, ◌||◌, ◌&&◌, ◌==◌,
  if◌then◌else◌,
}
use node_ext2fs.Create.{link_expanding}
use node_ext2fs.Dirs.{dot, char_at, next_char}
use node_ext2fs.Ext2.Errors.{ext2_et_file_not_found, einval, enoent, enomem}
use node_ext2fs.Ext2.Filsys.{Bytes, Ino}
use node_ext2fs.Ext2.Library.{Ext2fs, Cmd, Visit}
use node_ext2fs.Ext2.Modes.{ext2_root_ino, linux_s_isdir, dirent_changed, dirent_abort}
use node_ext2fs.FileType.{ext2_file_type}
use node_ext2fs.Paths.{slash, strrchr}
use node_ext2fs.Prog.{
  Prog, ◌>>=◌, ◌>>◌, pure, exit_if, on, raw, run, or_exit, returning, unless_zero, function,
}
use node_ext2fs.Remove.{unlink_file_by_name, node_ext2fs_unlink, node_ext2fs_rmdir}
use node_ext2fs.Times.{update_ctime, update_mtime}
use node_ext2fs.Translate.{translate_error, call_translate}

-- Makes the `..` entry of a moved directory point at its new parent.
unfoldable pub update_dotdot_helper : (new_dotdot : Ino) → (name_len : ℕ) → Visit (Unit {0})
update_dotdot_helper new_dotdot name_len dirent ud =
    if name_len == 2 && char_at dirent.name == dot && char_at (next_char dirent.name) == dot
    then (bit_or dirent_changed dirent_abort, record dirent { inode = new_dotdot }, ud)
    else (0, dirent, ud)

module _ {D : Type 0} (lib : Ext2fs D) where
  -- `ret = translate_error(fs, ino, err); goto out;`, where a test holds.
  abbrev pub exit_translate_if : Bool → Ino → ℕ → Prog D (Unit {0})
  exit_translate_if b ino err w = on b (λ v. returning (translate_error lib ino err v)) w

  -- A link count that changes: read, modify and write of a directory's inode.
  unfoldable pub change_links : (ℕ → ℕ) → Ino → Prog D (Unit {0})
  change_links f dir = do
    inode ← call_translate lib dir (lib.read_inode dir)
    call_translate lib dir
        (lib.write_inode dir (record inode { i_links_count = f inode.i_links_count }))

  -- What a moved directory needs: its `..` entry, and the link counts of the two parents. A count
  -- has 16 bits.
  unfoldable pub move_dotdot : (ino from_dir to_dir : Ino) → Prog D (Unit {0})
  move_dotdot ino from_dir to_dir = do
    _ ← call_translate lib ino (
        lib.dir_iterate2 ino 0
          (λ dirent. update_dotdot_helper to_dir (lib.dirent_name_len dirent) dirent) tt)
    change_links (λ n. (n + 2 ^ 16 - 1) % 2 ^ 16) from_dir
    change_links (λ n. (n + 1) % 2 ^ 16) to_dir

  -- The directory part of a path, with its slash, and the inode number that it names.
  unfoldable pub dir_of_path : Bytes → Prog D (Bytes × Ino)
  dir_of_path path = do
    (before, behind) ← or_exit (strrchr path) (neg einval)
    dir ← call_translate lib 0 (lib.namei ext2_root_ino ext2_root_ino (before ++ slash ∷ []))
    exit_if (dir == 0) (neg enoent)
    pure (behind, dir)

  -- `If the target exists, unlink it first`
  unfoldable pub remove_target : Ino → Bytes → Prog D (Unit {0})
  remove_target to_ino to = do
    inode ← call_translate lib to_ino (lib.read_inode to_ino)
    unless_zero (λ w.
        if linux_s_isdir inode.i_mode
        then node_ext2fs_rmdir lib to w
        else node_ext2fs_unlink lib to w)

  -- `Link in the new file`, and what a moved directory needs.
  unfoldable pub place_name :
      (from_ino from_dir_ino to_dir_ino : Ino) (name : Bytes) → Prog D (Unit {0})
  place_name from_ino from_dir_ino to_dir_ino name = do
    inode ← call_translate lib from_ino (lib.read_inode from_ino)
    call_translate lib to_dir_ino
        (link_expanding lib to_dir_ino name from_ino (ext2_file_type inode.i_mode))
    inode ← call_translate lib from_ino (lib.read_inode from_ino)
    on (linux_s_isdir inode.i_mode) (move_dotdot from_ino from_dir_ino to_dir_ino)

  -- `Update timestamps`, `Remove the old file` and `Flush the whole mess out`.
  unfoldable pub drop_old_name : (from : Bytes) (from_ino to_dir_ino : Ino) → Prog D ℤ
  drop_old_name from from_ino to_dir_ino = do
    unless_zero (update_ctime lib from_ino)
    unless_zero (update_mtime lib to_dir_ino)
    unless_zero (unlink_file_by_name lib from)
    call_translate lib 0 (lib.flush2 0)
    pure (pos 0)

  -- From `If the target exists, unlink it first` to the end; the name and the directory are those of
  -- the new path.
  unfoldable pub move_entry :
      (from to : Bytes) (from_ino to_ino from_dir_ino : Ino) → Bytes × Ino → Prog D ℤ
  move_entry from to from_ino to_ino from_dir_ino (name, to_dir_ino) = do
    on (not (to_ino == 0)) (remove_target to_ino to)
    place_name from_ino from_dir_ino to_dir_ino name
    drop_old_name from from_ino to_dir_ino

  -- The two directories are found first.
  unfoldable pub rename_dirs : (from to : Bytes) (from_ino to_ino : Ino) → Prog D ℤ
  rename_dirs from to from_ino to_ino = do
    (_, from_dir_ino) ← dir_of_path from
    target ← dir_of_path to
    move_entry from to from_ino to_ino from_dir_ino target

  -- What comes behind `Already the same file?`.
  unfoldable pub rename_found : (from to : Bytes) (from_ino to_ino : Ino) → Prog D ℤ
  rename_found from to from_ino to_ino = do
    copied_to ← run lib.strdup_succeeds
    exit_if (not copied_to) (neg enomem)
    copied_from ← run lib.strdup_succeeds
    exit_if (not copied_from) (neg enomem)
    rename_dirs from to from_ino to_ino

  unfoldable pub node_ext2fs_rename : (from to : Bytes) → Cmd D ℤ
  node_ext2fs_rename from to = function do
    (err, from_ino) ← raw (lib.namei ext2_root_ino ext2_root_ino from)
    exit_translate_if (not (err == 0) || from_ino == 0) 0 err
    (err, found) ← raw (lib.namei ext2_root_ino ext2_root_ino to)
    exit_translate_if (not (err == 0) && not (err == ext2_et_file_not_found)) 0 err
    let to_ino : Ino = if err == ext2_et_file_not_found then 0 else found
    exit_if (not (to_ino == 0) && to_ino == from_ino) (pos 0)
    rename_found from to from_ino to_ino
