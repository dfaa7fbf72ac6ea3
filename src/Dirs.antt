-- ===== src/Dirs.antt =====
-- Directories in src/glue.c: list one, make one.
pub mod Made
pub mod Names
use node_ext2fs.Base.{
  ℕ, zero, suc, ℤ, neg, ◌%◌, ◌^◌, bit_and, bit_or, Bool, true, false, not, List, [], ◌∷◌, ◌++◌,
  take, ◌&&◌, ◌==◌, if◌then◌else◌,
}
use node_ext2fs.Ext2.Errors.{eisdir, enoent, enotdir}
use node_ext2fs.Ext2.Filsys.{Ino, Bytes, World}
use node_ext2fs.Ext2.Library.{Ext2fs, Cmd, Visit}
use node_ext2fs.Ext2.Modes.{linux_s_ifdir, not_linux_s_ifmt}
use node_ext2fs.Paths.{get_filename, get_parent_dir_ino, string_to_inode}
use node_ext2fs.Prog.{
  Prog, ◌>>=◌, ◌>>◌, pure, exit_if, raw, run, gets, modify, or_exit, call_neg, function,
}

abbrev pub dot : ℕ
dot = 0x2e

-- The character that a pointer to a string points at: behind its end it is the final NUL.
abbrev pub char_at : Bytes → ℕ
char_at [] = 0
char_at (c ∷ s) = c

abbrev pub next_char : Bytes → Bytes
next_char [] = []
next_char (c ∷ s) = s

-- `strncmp(s, t, n) == 0`
unfoldable pub strncmp_is_zero : Bytes → Bytes → ℕ → Bool
strncmp_is_zero s t zero = true
strncmp_is_zero s t (suc n) =
    let rest = strncmp_is_zero (next_char s) (next_char t) n in
    if char_at s == char_at t then (if char_at s == 0 then true else rest) else false

module _ {D : Type 0} where
  abbrev pub set_array : ℕ → List Bytes → World D → World D
  set_array id a w = record w { arrays = λ j. if j == id then a else w.arrays j }

  -- `array_push_buffer`
  abbrev pub array_push_buffer : ℕ → Bytes → World D → World D
  array_push_buffer id value w = set_array id (w.arrays id ++ value ∷ []) w

module _ {D : Type 0} (lib : Ext2fs D) where
  -- The private data is the JavaScript array; the entry is left as it is.
  unfoldable pub copy_filename_to_result : Visit (List Bytes)
  copy_filename_to_result dirent result =
      let len = lib.dirent_name_len dirent in
      (
        0,
        dirent,
        if not (strncmp_is_zero dirent.name (dot ∷ []) len)
              && not (strncmp_is_zero dirent.name (dot ∷ dot ∷ []) len)
            then result ++ take len dirent.name ∷ []
            else result,
      )

  -- The file that it opens for the directory is not closed on any path.
  unfoldable pub node_ext2fs_readdir : Bytes → (array_id : ℕ) → Cmd D ℤ
  node_ext2fs_readdir path array_id = function do
    ino ← run (string_to_inode lib path true)
    exit_if (ino == 0) (neg enoent)
    _ ← call_neg (lib.file_open ino 0)
    call_neg (lib.check_directory ino)
    result ← gets (λ w. w.arrays array_id)
    (e, result') ← raw (lib.dir_iterate ino 0 copy_filename_to_result result)
    modify (set_array array_id result')
    pure (neg e)

  -- The permissions of the new directory, from `ext2fs_read_inode` to the end.
  unfoldable pub set_dir_mode : (newdir : Ino) (mode : ℕ) → Prog D ℤ
  set_dir_mode newdir mode = do
    inode ← call_neg (lib.read_inode newdir)
    (e, _) ← raw (
        lib.write_inode newdir
          (record inode { i_mode = bit_or (bit_and mode not_linux_s_ifmt) linux_s_ifdir % 2 ^ 16 }))
    pure (neg e)

  -- From `ext2fs_new_inode` to the end.
  unfoldable pub make_dir : (parent_ino : Ino) → Bytes → (mode : ℕ) → Prog D ℤ
  make_dir parent_ino filename mode = do
    newdir ← call_neg (lib.new_inode parent_ino linux_s_ifdir)
    call_neg (lib.mkdir parent_ino newdir filename)
    set_dir_mode newdir mode

  unfoldable pub node_ext2fs_mkdir : Bytes → (mode : ℕ) → Cmd D ℤ
  node_ext2fs_mkdir path mode = function do
    parent_ino ← run (get_parent_dir_ino lib path)
    exit_if (parent_ino == 0) (neg enotdir)
    filename ← or_exit (get_filename path) (neg eisdir)
    make_dir parent_ino filename mode
