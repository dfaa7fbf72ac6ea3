-- ===== src/Names/Library.antt =====
-- What the proofs assume of libext2fs about the names of a filesystem. `view` gives the names in the
-- state of the library, which the glue cannot see.
use node_ext2fs.Base.{ℕ, ℤ, Bool, List, ◌&&◌, ◌≡◌, ◌≢◌, ◌⊎◌, ◌==◌, true, some}
use node_ext2fs.Dirs.{dot, char_at, next_char}
use node_ext2fs.Ext2.Filsys.{Bytes, Ino, World}
use node_ext2fs.Ext2.Inode.{Inode, InodeLarge, DirEntry}
use node_ext2fs.Ext2.Library.{Ext2fs, Visit}
use node_ext2fs.Ext2.Modes.{ext2_root_ino}
use node_ext2fs.Names.{Names, add, children}
use node_ext2fs.Paths.{strrchr}
use node_ext2fs.Remove.Empty.{all_dots}

-- The fields of an inode that say where its data are are the same.
abbrev pub SameData : Inode → Inode → Type 0
SameData i j =
    (i.i_block ≡ j.i_block)
    × (i.i_mode ≡ j.i_mode)
    × (i.i_size ≡ j.i_size)
    × (i.i_flags ≡ j.i_flags)

module _ {D : Type 0} (lib : Ext2fs D) where
  abbrev pub is_dotdot : DirEntry → Bool
  is_dotdot d =
      lib.dirent_name_len d == 2 && char_at d.name == dot && char_at (next_char d.name) == dot

  -- A visitor that changes no entry but `..`, and of that only the inode number.
  abbrev pub MovesDotdot : {P : Type 0} → Visit P → Type 0
  MovesDotdot {P} f =
      (d : DirEntry) (p : P)
      → ((f d p).1 ≡ d)
        ⊎ ((is_dotdot d ≡ true) × ((f d p).1 ≡ record d { inode = (f d p).1.inode }))

  pub record NamesLaws (stored : D → Ino → InodeLarge) (view : D → Names) : Type 1 where
    -- a name is added, or is not
    pub link_adds :
        (dir : Ino) (name : Bytes) (ino : Ino) (flags : ℕ) (w : World D)
        → (lib.link dir name ino flags w).0 ≡ 0
        → view (lib.link dir name ino flags w).2.lib
          ≡ add (record { dir = dir; name = name; ino = ino }) (view w.lib)
    pub link_fails :
        (dir : Ino) (name : Bytes) (ino : Ino) (flags : ℕ) (w : World D)
        → (lib.link dir name ino flags w).0 ≢ 0
        → view (lib.link dir name ino flags w).2.lib ≡ view w.lib
    -- a name is taken away
    pub unlink_removes :
        (dir : Ino) (name : Bytes) (w : World D)
        → (lib.unlink dir name 0 0 w).0 ≡ 0
        → (r : Ino) × (view w.lib
            ≡ add
                (record { dir = dir; name = name; ino = r })
                (view (lib.unlink dir name 0 0 w).2.lib))
    -- other calls about names
    pub namei_view :
        (path : Bytes) (w : World D)
        → view (lib.namei ext2_root_ino ext2_root_ino path w).2.lib ≡ view w.lib
    pub check_directory_view :
        (ino : Ino) (w : World D) → view (lib.check_directory ino w).2.lib ≡ view w.lib
    pub check_directory_fails :
        (ino : Ino) (w : World D)
        → (lib.check_directory ino w).0 ≢ 0
        → children ino (view w.lib) ≡ 0
    pub dir_iterate2_view :
        (P : Type 0) (dir : Ino) (f : Visit P) (p : P) (w : World D)
        → MovesDotdot f
        → view (lib.dir_iterate2 dir 0 f p w).2.lib ≡ view w.lib
    pub expand_dir_view : (dir : Ino) (w : World D) → view (lib.expand_dir dir w).2.lib ≡ view w.lib
    -- inodes
    pub read_view : (ino : Ino) (w : World D) → view (lib.read_inode ino w).2.lib ≡ view w.lib
    pub read_full_view :
        (ino : Ino) (w : World D) → view (lib.read_inode_full ino w).2.lib ≡ view w.lib
    pub write_view :
        (ino : Ino) (i : Inode) (w : World D)
        → SameData i (stored w.lib ino).base
        → view (lib.write_inode ino i w).2.lib ≡ view w.lib
    pub write_full_view :
        (ino : Ino) (i : InodeLarge) (w : World D)
        → SameData i.base (stored w.lib ino).base
        → view (lib.write_inode_full ino i w).2.lib ≡ view w.lib
    -- an inode with no names in it
    pub write_full_childless :
        (ino : Ino) (i : InodeLarge) (w : World D)
        → children ino (view w.lib) ≡ 0
        → view (lib.write_inode_full ino i w).2.lib ≡ view w.lib
    pub free_ext_attr_childless :
        (ino : Ino) (i : InodeLarge) (w : World D)
        → children ino (view w.lib) ≡ 0
        → view (lib.free_ext_attr ino i w).2.lib ≡ view w.lib
    pub punch_childless :
        (ino : Ino) (i : Inode) (a b : ℕ) (w : World D)
        → children ino (view w.lib) ≡ 0
        → view (lib.punch ino i a b w).2.lib ≡ view w.lib
    pub alloc_stats_view :
        (ino : Ino) (n : ℤ) (d : Bool) (w : World D)
        → view (lib.inode_alloc_stats2 ino n d w).lib ≡ view w.lib
    -- flushing, memory and the clock
    pub flush_view : (w : World D) → view (lib.flush w).2.lib ≡ view w.lib
    pub flush2_view : (w : World D) → view (lib.flush2 0 w).2.lib ≡ view w.lib
    pub strdup_view : (w : World D) → view (lib.strdup_succeeds w).1.lib ≡ view w.lib
    pub clock_view : (w : World D) → view (lib.clock_gettime w).1.lib ≡ view w.lib
    pub time_view : (w : World D) → view (lib.time w).1.lib ≡ view w.lib

-- A directory whose entries are all deleted or named `.` or `..` has no names in it.
pub record EntriesLaws {D : Type 0} (lib : Ext2fs D) (entries : D → Ino → List DirEntry)
    (view : D → Names) : Type 0 where
  pub all_dots_children :
      (dir : Ino) (w : World D)
      → all_dots (entries w.lib dir) ≡ true
      → children dir (view w.lib) ≡ 0

-- The inode that a path is looked up to is that of the name that is then removed from the directory
-- of the path, if it is no directory.
pub record LookupLaws {D : Type 0} (lib : Ext2fs D) (view : D → Names) : Type 0 where
  pub finds :
      (path before name : Bytes) (w : World D)
      → strrchr path ≡ some (before, name)
      → let (e, ino, w₁) = lib.namei ext2_root_ino ext2_root_ino path w in
        let (e₂, _, w₂) = lib.check_directory ino w₁ in
        let (e₃, dir, w₃) = lib.namei ext2_root_ino ext2_root_ino before w₂ in
        let (e₄, _, w₄) = lib.unlink dir name 0 0 w₃ in
        e ≡ 0
        → e₂ ≢ 0
        → e₃ ≡ 0
        → e₄ ≡ 0
        → view w₃.lib ≡ add (record { dir = dir; name = name; ino = ino }) (view w₄.lib)
