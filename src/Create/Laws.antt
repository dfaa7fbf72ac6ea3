-- ===== src/Create/Laws.antt =====
-- What the proofs assume of libext2fs about the making of files and directories.
use node_ext2fs.Base.{ℕ, ◌≡◌, ◌≢◌}
use node_ext2fs.Ext2.Filsys.{Bytes, Ino, World}
use node_ext2fs.Ext2.Inode.{Inode, InodeLarge}
use node_ext2fs.Ext2.Library.{Ext2fs}
use node_ext2fs.Ext2.Modes.{ext2_root_ino}
use node_ext2fs.Names.{Names, add, children, refs}
use node_ext2fs.Laws.{links}

-- The same type, permissions, owner, link count and times.
abbrev pub SameMeta : Inode → Inode → Type 0
SameMeta i j =
    (i.i_mode ≡ j.i_mode)
    × (i.i_uid ≡ j.i_uid)
    × (i.i_gid ≡ j.i_gid)
    × (i.i_links_count ≡ j.i_links_count)
    × (i.i_atime ≡ j.i_atime)
    × (i.i_ctime ≡ j.i_ctime)
    × (i.i_mtime ≡ j.i_mtime)

-- No link count has changed, or none but that of one inode.
abbrev pub SameLinks : {D : Type 0} → (stored : D → Ino → InodeLarge) → World D → World D → Type 0
SameLinks stored v w = (j : Ino) → links stored v j ≡ links stored w j

abbrev pub OtherLinks :
    {D : Type 0} → (stored : D → Ino → InodeLarge) → Ino → World D → World D → Type 0
OtherLinks stored ino v w = (j : Ino) → j ≢ ino → links stored v j ≡ links stored w j

pub record CreateLaws {D : Type 0} (lib : Ext2fs D) (stored : D → Ino → InodeLarge)
    (view : D → Names) : Type 0 where
  pub namei_follow_view :
      (path : Bytes) (w : World D)
      → view (lib.namei_follow ext2_root_ino ext2_root_ino path w).2.lib ≡ view w.lib
  pub namei_follow_links :
      (path : Bytes) (w : World D)
      → SameLinks stored (lib.namei_follow ext2_root_ino ext2_root_ino path w).2 w
  -- an inode that is free is another than the directory's, has no names in it, and no name itself
  pub new_inode_view :
      (dir : Ino) (mode : ℕ) (w : World D) → view (lib.new_inode dir mode w).2.lib ≡ view w.lib
  pub new_inode_free :
      (dir : Ino) (mode : ℕ) (w : World D)
      → (lib.new_inode dir mode w).0 ≡ 0
      → ((lib.new_inode dir mode w).1 ≢ dir)
        × (children (lib.new_inode dir mode w).1 (view w.lib) ≡ 0)
        × (refs (lib.new_inode dir mode w).1 (view w.lib) ≡ 0)
  pub new_inode_links :
      (dir : Ino) (mode : ℕ) (w : World D) → SameLinks stored (lib.new_inode dir mode w).2 w
  -- the size and the block map
  pub size_set_view :
      (i : Inode) (size : ℕ) (w : World D) → view (lib.inode_size_set i size w).2.lib ≡ view w.lib
  pub size_set_links :
      (i : Inode) (size : ℕ) (w : World D) → SameLinks stored (lib.inode_size_set i size w).2 w
  pub size_set_meta :
      (i : Inode) (size : ℕ) (w : World D) → SameMeta (lib.inode_size_set i size w).1 i
  pub extent_open_view :
      (ino : Ino) (i : Inode) (w : World D) → view (lib.extent_open2 ino i w).2.lib ≡ view w.lib
  pub extent_open_links :
      (ino : Ino) (i : Inode) (w : World D) → SameLinks stored (lib.extent_open2 ino i w).2 w
  pub extent_open_meta :
      (ino : Ino) (i : Inode) (w : World D) → SameMeta (lib.extent_open2 ino i w).1 i
  pub inline_data_view :
      (ino : Ino) (w : World D) → view (lib.inline_data_init ino w).2.lib ≡ view w.lib
  pub inline_data_links :
      (ino : Ino) (w : World D) → OtherLinks stored ino (lib.inline_data_init ino w).2 w
  pub inline_data_meta :
      (ino : Ino) (w : World D)
      → SameMeta (stored (lib.inline_data_init ino w).2.lib ino).base (stored w.lib ino).base
  -- a new inode is written
  pub write_new_value :
      (ino : Ino) (i : Inode) (w : World D)
      → (lib.write_new_inode ino i w).0 ≡ 0
      → (stored (lib.write_new_inode ino i w).2.lib ino).base ≡ i
  pub write_new_links :
      (ino : Ino) (i : Inode) (w : World D)
      → OtherLinks stored ino (lib.write_new_inode ino i w).2 w
  pub write_new_childless :
      (ino : Ino) (i : Inode) (w : World D)
      → children ino (view w.lib) ≡ 0
      → view (lib.write_new_inode ino i w).2.lib ≡ view w.lib
  -- a directory is made
  pub mkdir_adds :
      (dir ino : Ino) (name : Bytes) (w : World D)
      → (lib.mkdir dir ino name w).0 ≡ 0
      → view (lib.mkdir dir ino name w).2.lib
        ≡ add (record { dir = dir; name = name; ino = ino }) (view w.lib)
  pub write_childless :
      (ino : Ino) (i : Inode) (w : World D)
      → children ino (view w.lib) ≡ 0
      → view (lib.write_inode ino i w).2.lib ≡ view w.lib
