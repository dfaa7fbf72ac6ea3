-- ===== src/Dirs/Names.antt =====
-- Which names `node_ext2fs_readdir` puts into the array of JavaScript.
use node_ext2fs.Base.{
  ℕ, zero, suc, pos, Bool, true, false, not, List, [], ◌∷◌, ◌++◌, take, ◌&&◌, ◌==◌, ◌≡◌, ◌≢◌, refl,
  sym, arith, if◌then◌else◌,
}
use mathlib.Core.List.{append_assoc, append-nil}
use node_ext2fs.Dirs.{dot, strncmp_is_zero, copy_filename_to_result, node_ext2fs_readdir}
use node_ext2fs.Ext2.Filsys.{Bytes, Ino, World}
use node_ext2fs.Ext2.Inode.{DirEntry}
use node_ext2fs.Ext2.Library.{Ext2fs}
use node_ext2fs.Paths.{string_to_inode}
use node_ext2fs.Laws.{visit_all, IsReadOnly, IterateLaws, ListLaws}

-- The empty name, `.` and `..`.
abbrev pub is_dot : Bytes → Bool
is_dot [] = true
is_dot (c ∷ []) = c == dot
is_dot (c ∷ d ∷ []) = c == dot && d == dot
is_dot (c ∷ d ∷ e ∷ s) = false

-- The first `n` characters are there, and none is NUL.
abbrev pub HasName : ℕ → Bytes → Type 0
HasName zero s = Unit
HasName (suc n) [] = ⊥
HasName (suc n) (c ∷ s) = (c ≢ 0) × HasName n s

-- Neither `strncmp` against `.` nor that against `..` is zero exactly for the other names.
strncmp-is_dot :
    (n : ℕ) (s : Bytes)
    → HasName n s
    → (not (strncmp_is_zero s (dot ∷ []) n) && not (strncmp_is_zero s (dot ∷ dot ∷ []) n))
      ≡ not (is_dot (take n s))
unfolding strncmp_is_zero
strncmp-is_dot zero s h = refl
strncmp-is_dot (suc zero) (c ∷ s) h = ground arith
strncmp-is_dot (suc zero) [] h = absurd h
strncmp-is_dot (suc (suc zero)) (c ∷ d ∷ s) h = ground arith
strncmp-is_dot (suc (suc zero)) [] h = absurd h
strncmp-is_dot (suc (suc zero)) (c ∷ []) h = absurd h.1
strncmp-is_dot (suc (suc (suc n))) (c ∷ d ∷ e ∷ s) h = ground arith
strncmp-is_dot (suc (suc (suc n))) [] h = absurd h
strncmp-is_dot (suc (suc (suc n))) (c ∷ []) h = absurd h.1
strncmp-is_dot (suc (suc (suc n))) (c ∷ d ∷ []) h = absurd h.1.1

module _ {D : Type 0} (lib : Ext2fs D) where
  abbrev pub HaveNames : List DirEntry → Type 0
  HaveNames [] = Unit
  HaveNames (d ∷ ds) = HasName (lib.dirent_name_len d) d.name × HaveNames ds

  -- The names of the entries, in order, without the empty name, `.` and `..`.
  abbrev pub names : List DirEntry → List Bytes
  names [] = []
  names (d ∷ ds) =
      let name = take (lib.dirent_name_len d) d.name in
      let rest = names ds in if is_dot name then rest else name ∷ rest

  copy_filename-IsReadOnly : IsReadOnly (copy_filename_to_result lib)
  unfolding copy_filename_to_result
  copy_filename-IsReadOnly d p = (refl, refl)

  append_if :
      (c : Bool) (result rest : List Bytes) (name : Bytes)
      → (if not c then result ++ name ∷ [] else result) ++ rest
        ≡ result ++ (if c then rest else name ∷ rest)
  append_if true result rest name = refl
  append_if false result rest name = append_assoc result (name ∷ []) rest

  visit_all-names :
      (ds : List DirEntry) (result : List Bytes)
      → HaveNames ds
      → visit_all (copy_filename_to_result lib) ds result ≡ result ++ names ds
  unfolding copy_filename_to_result
  visit_all-names [] result h = sym (append-nil result)
  visit_all-names (d ∷ ds) result h =
      let n = lib.dirent_name_len d in
      rw (strncmp-is_dot n d.name h.0, visit_all-names ds _ h.1)
        (append_if (is_dot (take n d.name)) result (names ds) (take n d.name))

module _ {D : Type 0} (lib : Ext2fs D) (entries : D → Ino → List DirEntry)
    (laws : IterateLaws lib entries) (keeps : ListLaws lib entries) where
  -- If listing a directory returns 0, the names of its entries are appended in order to the array,
  -- the empty name, `.` and `..` left out. The name of each entry is as long as it says, and has no
  -- NUL.
  -- It assumes the laws on iterators and listing (IterateLaws, ListLaws).
  pub node_ext2fs_readdir-names :
      (path : Bytes) (id : ℕ) (w : World D)
      → (node_ext2fs_readdir lib path id w).0 ≡ pos 0
      → HaveNames lib (entries w.lib (string_to_inode lib path true w).0)
      → (node_ext2fs_readdir lib path id w).1.arrays id
        ≡ w.arrays id ++ names lib (entries w.lib (string_to_inode lib path true w).0)
  unfolding node_ext2fs_readdir string_to_inode
  node_ext2fs_readdir-names path id w h named =
      let (ino, w₁) = string_to_inode lib path true w in
      let (_, file, w₂) = lib.file_open ino 0 w₁ in
      let (_, _, w₃) = lib.check_directory ino w₂ in
      let (e, result, w₄) = lib.dir_iterate ino 0 (copy_filename_to_result lib) (w₃.arrays id) w₃ in
      ground (
        arith,
        keeps.follow_arrays path id w,
        keeps.follow_entries path ino w,
        keeps.open_arrays ino id w₁,
        keeps.open_entries ino ino w₁,
        keeps.check_arrays ino id w₂,
        keeps.check_entries ino ino w₂,
        laws.iterate_value (List Bytes) ino (copy_filename_to_result lib) (w₃.arrays id) w₃
            (copy_filename-IsReadOnly lib),
        visit_all-names lib (entries w.lib ino) (w₃.arrays id) named,
      )
