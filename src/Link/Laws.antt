-- ===== src/Link/Laws.antt =====
-- What the proofs assume of libext2fs about the making of symbolic links.
use node_ext2fs.Base.{ℕ, ◌≤◌, ◌⊎◌, ◌++◌, length, replicate, true, ◌≡◌, ◌≢◌}
use node_ext2fs.Ext2.Filsys.{Bytes, Ino, World}
use node_ext2fs.Ext2.Inode.{Inode, InodeLarge}
use node_ext2fs.Ext2.Library.{Ext2fs}
use node_ext2fs.Ext2.Modes.{ext2_root_ino, linux_s_islnk}
use node_ext2fs.Create.Laws.{SameLinks, OtherLinks}
use node_ext2fs.Laws.{links}
use node_ext2fs.Link.Target.{words}
use node_ext2fs.Names.{Names, add, refs}

module _ {D : Type 0} (lib : Ext2fs D) where
  -- The inode of a short symbolic link.
  abbrev pub IsTarget : Inode → Bytes → Type 0
  IsTarget i s =
      (linux_s_islnk i.i_mode ≡ true)
      × (lib.is_fast_symlink i ≡ true)
      × ((k : ℕ) × (i.i_block ≡ words s ++ replicate k 0))

  -- A new name, for an inode that had none and now has one link, with that target if it fits in the
  -- block numbers; no other link count has changed.
  abbrev pub IsLinked :
      (stored : D → Ino → InodeLarge)
      → (view : D → Names) → (dir : Ino) → (name target : Bytes) → World D
      → World D
      → Type 0
  IsLinked stored view dir name target w v =
      (ino : Ino) × (ino ≢ dir)
      × (view v.lib ≡ add (record { dir = dir; name = name; ino = ino }) (view w.lib))
      × (refs ino (view w.lib) ≡ 0)
      × (links stored v ino ≡ 1)
      × OtherLinks stored ino v w
      × ((60 ≤ length target) ⊎ IsTarget (stored v.lib ino).base target)

  pub record SymlinkLaws (stored : D → Ino → InodeLarge) (view : D → Names) : Type 0 where
    pub symlink_links :
        (dir : Ino) (name target : Bytes) (w : World D)
        → (lib.symlink dir 0 name target w).0 ≡ 0
        → IsLinked stored view dir name target w (lib.symlink dir 0 name target w).2
    pub symlink_fails :
        (dir : Ino) (name target : Bytes) (w : World D)
        → (lib.symlink dir 0 name target w).0 ≢ 0
        → (view (lib.symlink dir 0 name target w).2.lib ≡ view w.lib)
          × SameLinks stored (lib.symlink dir 0 name target w).2 w
    pub namei_keeps :
        (path : Bytes) (j : Ino) (w : World D)
        → stored (lib.namei ext2_root_ino ext2_root_ino path w).2.lib j ≡ stored w.lib j
