-- ===== src/Laws.antt =====
-- What the proofs assume of libext2fs about inodes: an inode that is read is the one last written,
-- and no call but a write of that inode changes it. `stored` looks an inode up in the state of the
-- library, which the glue cannot see.
use node_ext2fs.Base.{ℕ, ℤ, Bool, List, [], ◌∷◌, ◌≡◌, ◌≢◌}
use node_ext2fs.Ext2.Filsys.{Bytes, Ino, World}
use node_ext2fs.Ext2.Inode.{Inode, InodeLarge, DirEntry}
use node_ext2fs.Ext2.Library.{Ext2fs, Visit}
use node_ext2fs.Ext2.Modes.{ext2_root_ino}

module _ {D : Type 0} (lib : Ext2fs D) (stored : D → Ino → InodeLarge) where
  pub record InodeLaws : Type 0 where
    -- reads
    pub read_value :
        (ino : Ino) (w : World D)
        → (lib.read_inode ino w).0 ≡ 0
        → (lib.read_inode ino w).1 ≡ (stored w.lib ino).base
    pub read_keeps :
        (ino j : Ino) (w : World D) → stored (lib.read_inode ino w).2.lib j ≡ stored w.lib j
    pub read_files :
        (ino : Ino) (h : ℕ) (w : World D) → (lib.read_inode ino w).2.files h ≡ w.files h
    pub read_full_value :
        (ino : Ino) (w : World D)
        → (lib.read_inode_full ino w).0 ≡ 0
        → (lib.read_inode_full ino w).1 ≡ stored w.lib ino
    pub read_full_keeps :
        (ino j : Ino) (w : World D) → stored (lib.read_inode_full ino w).2.lib j ≡ stored w.lib j
    -- writes
    pub write_value :
        (ino : Ino) (i : Inode) (w : World D)
        → (lib.write_inode ino i w).0 ≡ 0
        → stored (lib.write_inode ino i w).2.lib ino ≡ record (stored w.lib ino) { base = i }
    pub write_keeps :
        (ino j : Ino) (i : Inode) (w : World D)
        → j ≢ ino
        → stored (lib.write_inode ino i w).2.lib j ≡ stored w.lib j
    pub write_full_value :
        (ino : Ino) (i : InodeLarge) (w : World D)
        → (lib.write_inode_full ino i w).0 ≡ 0
        → stored (lib.write_inode_full ino i w).2.lib ino ≡ i
    pub write_full_keeps :
        (ino j : Ino) (i : InodeLarge) (w : World D)
        → j ≢ ino
        → stored (lib.write_inode_full ino i w).2.lib j ≡ stored w.lib j
    -- calls about another inode, or about none
    pub clock_keeps :
        (j : Ino) (w : World D) → stored (lib.clock_gettime w).1.lib j ≡ stored w.lib j
    pub time_keeps : (j : Ino) (w : World D) → stored (lib.time w).1.lib j ≡ stored w.lib j
    pub flush_keeps : (j : Ino) (w : World D) → stored (lib.flush w).2.lib j ≡ stored w.lib j
    pub free_ext_attr_keeps :
        (ino j : Ino) (i : InodeLarge) (w : World D)
        → j ≢ ino
        → stored (lib.free_ext_attr ino i w).2.lib j ≡ stored w.lib j
    pub free_ext_attr_links :
        (ino : Ino) (i : InodeLarge) (w : World D)
        → (lib.free_ext_attr ino i w).1.base.i_links_count ≡ i.base.i_links_count
    pub punch_keeps :
        (ino j : Ino) (i : Inode) (a b : ℕ) (w : World D)
        → j ≢ ino
        → stored (lib.punch ino i a b w).2.lib j ≡ stored w.lib j
    pub punch_links :
        (ino : Ino) (i : Inode) (a b : ℕ) (w : World D)
        → (lib.punch ino i a b w).1.i_links_count ≡ i.i_links_count
    pub alloc_stats_keeps :
        (ino j : Ino) (n : ℤ) (d : Bool) (w : World D)
        → stored (lib.inode_alloc_stats2 ino n d w).lib j ≡ stored w.lib j

-- A visitor goes through the entries in order, if it never stops the iteration nor changes an entry.
abbrev pub visit_all : {P : Type 0} → Visit P → List DirEntry → P → P
visit_all f [] p = p
visit_all f (d ∷ ds) p = visit_all f ds (f d p).2

abbrev pub IsReadOnly : {P : Type 0} → Visit P → Type 0
IsReadOnly {P} f = (d : DirEntry) (p : P) → ((f d p).0 ≡ 0) × ((f d p).1 ≡ d)

-- What is assumed of the iterators: a read-only visitor has seen the entries of the directory.
pub record IterateLaws {D : Type 0} (lib : Ext2fs D) (entries : D → Ino → List DirEntry)
    : Type 1 where
  pub iterate_value :
      (P : Type 0) (dir : Ino) (f : Visit P) (p : P) (w : World D)
      → IsReadOnly f
      → (lib.dir_iterate dir 0 f p w).0 ≡ 0
      → (lib.dir_iterate dir 0 f p w).1 ≡ visit_all f (entries w.lib dir) p
  pub iterate2_value :
      (P : Type 0) (dir : Ino) (f : Visit P) (p : P) (w : World D)
      → IsReadOnly f
      → (lib.dir_iterate2 dir 0 f p w).0 ≡ 0
      → (lib.dir_iterate2 dir 0 f p w).1 ≡ visit_all f (entries w.lib dir) p

-- What is assumed of the look-up of a path, of opening a file and of the test for a directory: they
-- change no entry of a directory, and no array of JavaScript.
pub record ListLaws {D : Type 0} (lib : Ext2fs D) (entries : D → Ino → List DirEntry) : Type 0 where
  pub follow_arrays :
      (path : Bytes) (id : ℕ) (w : World D)
      → (lib.namei_follow ext2_root_ino ext2_root_ino path w).2.arrays id ≡ w.arrays id
  pub follow_entries :
      (path : Bytes) (dir : Ino) (w : World D)
      → entries (lib.namei_follow ext2_root_ino ext2_root_ino path w).2.lib dir ≡ entries w.lib dir
  pub open_arrays :
      (ino : Ino) (id : ℕ) (w : World D) → (lib.file_open ino 0 w).2.arrays id ≡ w.arrays id
  pub open_entries :
      (ino dir : Ino) (w : World D) → entries (lib.file_open ino 0 w).2.lib dir ≡ entries w.lib dir
  pub check_arrays :
      (ino : Ino) (id : ℕ) (w : World D) → (lib.check_directory ino w).2.arrays id ≡ w.arrays id
  pub check_entries :
      (ino dir : Ino) (w : World D)
      → entries (lib.check_directory ino w).2.lib dir ≡ entries w.lib dir

-- The link count of an inode.
abbrev pub links : {D : Type 0} → (stored : D → Ino → InodeLarge) → World D → Ino → ℕ
links stored w j = (stored w.lib j).base.i_links_count

-- What is assumed of the calls about names: they change no link count, which the glue looks after.
pub record NameLaws {D : Type 0} (lib : Ext2fs D) (stored : D → Ino → InodeLarge) : Type 1 where
  pub namei_links :
      (path : Bytes) (j : Ino) (w : World D)
      → links stored (lib.namei ext2_root_ino ext2_root_ino path w).2 j ≡ links stored w j
  pub link_links :
      (dir : Ino) (name : Bytes) (ino : Ino) (flags : ℕ) (j : Ino) (w : World D)
      → links stored (lib.link dir name ino flags w).2 j ≡ links stored w j
  pub unlink_links :
      (dir : Ino) (name : Bytes) (j : Ino) (w : World D)
      → links stored (lib.unlink dir name 0 0 w).2 j ≡ links stored w j
  pub expand_dir_links :
      (dir : Ino) (j : Ino) (w : World D)
      → links stored (lib.expand_dir dir w).2 j ≡ links stored w j
  pub check_directory_links :
      (ino : Ino) (j : Ino) (w : World D)
      → links stored (lib.check_directory ino w).2 j ≡ links stored w j
  pub dir_iterate2_links :
      (P : Type 0) (dir : Ino) (f : Visit P) (p : P) (j : Ino) (w : World D)
      → links stored (lib.dir_iterate2 dir 0 f p w).2 j ≡ links stored w j
  pub strdup_links :
      (j : Ino) (w : World D) → links stored (lib.strdup_succeeds w).1 j ≡ links stored w j
  pub flush2_links : (j : Ino) (w : World D) → links stored (lib.flush2 0 w).2 j ≡ links stored w j
