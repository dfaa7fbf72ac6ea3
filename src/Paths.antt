-- ===== src/Paths.antt =====
-- How src/glue.c takes a path apart at its last slash. A C string is the list of its characters,
-- without the final NUL; `0x2f` is the slash.
pub mod Split
use node_ext2fs.Base.{
  ℕ, Bool, true, false, Option, none, some, List, [], ◌∷◌, ◌++◌, ◌==◌, if◌then◌else◌,
}
use node_ext2fs.Ext2.Filsys.{Bytes, Ino}
use node_ext2fs.Ext2.Library.{Ext2fs, Cmd}
use node_ext2fs.Ext2.Modes.{ext2_root_ino}

abbrev pub slash : ℕ
slash = 0x2f

-- `strrchr(path, '/')`: the characters before the last slash and those behind it.
unfoldable pub strrchr : Bytes → Option (Bytes × Bytes)
strrchr [] = none
strrchr (c ∷ path) = elim (strrchr path) [
  | some (before, behind) ↦ some (c ∷ before, behind)
  | none ↦ if c == slash then some ([], path) else none
]

abbrev pub file_part : Option (Bytes × Bytes) → Option Bytes
file_part none = none
file_part (some (before, [])) = none
file_part (some (before, c ∷ behind)) = some (c ∷ behind)

abbrev pub dir_part : Option (Bytes × Bytes) → Option Bytes
dir_part none = none
dir_part (some (before, behind)) = some (before ++ slash ∷ [])

-- The last component, or none if the path has no slash or ends with one.
unfoldable pub get_filename : Bytes → Option Bytes
unfolding strrchr
get_filename path = file_part (strrchr path)

-- `strndup(path, last_slash - path + 1)`: up to the last slash, and with it.
unfoldable pub parent_path : Bytes → Option Bytes
unfolding strrchr
parent_path path = dir_part (strrchr path)

module _ {D : Type 0} (lib : Ext2fs D) where
  -- The inode number of a path, 0 if it cannot be found.
  unfoldable pub string_to_inode : Bytes → (follow : Bool) → Cmd D Ino
  string_to_inode str follow w =
      let (retval, ino, w') =
        if follow
        then lib.namei_follow ext2_root_ino ext2_root_ino str w
        else lib.namei ext2_root_ino ext2_root_ino str w in
      (if retval == 0 then ino else 0, w')

  -- The inode number of the directory that a path names an entry of, 0 if there is none.
  unfoldable pub get_parent_dir_ino : Bytes → Cmd D Ino
  unfolding parent_path string_to_inode
  get_parent_dir_ino path w = elim (parent_path path) [
    | none ↦ (0, w)
    | some parent ↦ string_to_inode parent true w
  ]
