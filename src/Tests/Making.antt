-- ===== src/Tests/Making.antt =====
-- The theorems on new files and directories, and on symbolic links, at inputs that meet their hypotheses.
use node_ext2fs.Base.{
  bit_or, inr, pos, ◌≡◌, refl, [], ◌∷◌, ◌++◌, ◌==◌, replicate, arith, if◌then◌else◌,
}
use node_ext2fs.Create.{
  create_file, create_file_body, create_in, name_file, fill_inode, write_filled, link_expanding,
}
use node_ext2fs.Create.Made.{IsMade, create_file-IsMade}
use node_ext2fs.Dirs.{node_ext2fs_mkdir, make_dir, set_dir_mode}
use node_ext2fs.Dirs.Made.{IsMadeDir, node_ext2fs_mkdir-IsMadeDir}
use node_ext2fs.Ext2.Modes.{o_creat, o_excl, o_trunc}
use node_ext2fs.Files.{node_ext2fs_open, open_inode}
use node_ext2fs.Files.Opened.{IsOpened, node_ext2fs_open-IsOpened}
use node_ext2fs.Ext2.Filsys.{World}
use node_ext2fs.Link.{node_ext2fs_readlink, node_ext2fs_symlink, symlink_expanding}
use node_ext2fs.Link.Laws.{IsLinked}
use node_ext2fs.Link.Symlinks.{node_ext2fs_symlink-IsLinked}
use node_ext2fs.Link.Symlinks.Read.{node_ext2fs_readlink-symlink}
use node_ext2fs.Times.{update_mtime, get_now}
use node_ext2fs.Names.{add, counted}
use mathlib.Core.Quot
use node_ext2fs.Link.Target.{words}
use node_ext2fs.Paths.{get_parent_dir_ino, string_to_inode, parent_path, get_filename, strrchr}
use node_ext2fs.Tests.Memory.{
  Store, memory, stored, find_entry, walk, step_down, find, add_entry, take_inode, make_link,
  open_at,
}
use node_ext2fs.Tests.MemoryLaws.{memory-InodeLaws, memory-NameLaws, memory-ErrnoLaws}
use node_ext2fs.Tests.MemoryNames.{
  view, count-append, memory-NamesLaws, memory-CreateLaws, memory-SymlinkLaws, memory-OpenLaws,
}
use node_ext2fs.Tests.World.{codes, world, store, large}

create_file-IsMade_example :
    IsMade memory stored view memory-InodeLaws memory-NamesLaws memory-CreateLaws memory-NameLaws
      (codes "/d/g")
      0o644
      11
      world
      14
      (create_file memory (codes "/d/g") 0o644 world).2
unfolding create_file create_file_body create_in name_file fill_inode write_filled link_expanding
    get_parent_dir_ino string_to_inode parent_path get_filename strrchr find add_entry take_inode
create_file-IsMade_example =
    create_file-IsMade memory stored view memory-InodeLaws memory-NamesLaws memory-CreateLaws
      memory-NameLaws (codes "/d/g") 0o644 world refl

node_ext2fs_mkdir-IsMadeDir_example :
    IsMadeDir memory stored view memory-InodeLaws memory-NamesLaws memory-CreateLaws
      (codes "/d/g")
      0o755
      11
      world
      (node_ext2fs_mkdir memory (codes "/d/g") 0o755 world).1
unfolding node_ext2fs_mkdir make_dir set_dir_mode get_parent_dir_ino string_to_inode parent_path
    get_filename strrchr find add_entry take_inode
node_ext2fs_mkdir-IsMadeDir_example =
    node_ext2fs_mkdir-IsMadeDir memory stored view memory-InodeLaws memory-NamesLaws
      memory-CreateLaws (codes "/d/g") 0o755 world refl

-- The same world with a symbolic link in place of the file `/d/f`.
abbrev linked : World Store
linked = record world {
  lib = record store {
    inodes = λ ino.
        if ino == 12
        then record (large 0o120777 1) {
          base = record (large 0o120777 1).base {
            i_block = words (codes "../e/g") ++ replicate 13 0;
          };
        }
        else store.inodes ino;
  };
}

node_ext2fs_symlink-IsLinked_example :
    IsLinked memory stored view 11
      (codes "g")
      (codes "../e/g")
      world
      (node_ext2fs_symlink memory (codes "../e/g") (codes "/d/g") world).1
unfolding node_ext2fs_symlink symlink_expanding strrchr find make_link update_mtime get_now
node_ext2fs_symlink-IsLinked_example =
    node_ext2fs_symlink-IsLinked memory stored view memory-InodeLaws memory-NamesLaws
      memory-ErrnoLaws memory-SymlinkLaws memory-NameLaws (codes "../e/g") (codes "/d/g")
      (codes "/d") (codes "g") world refl refl

node_ext2fs_readlink-symlink_example :
    let v = (node_ext2fs_symlink memory (codes "ab") (codes "/d/g") world).1 in
    ((node_ext2fs_readlink memory (codes "/d/g") 5 v).0 ≡ pos 0)
    × ((node_ext2fs_readlink memory (codes "/d/g") 5 v).1.arrays 5 ≡ codes "ab" ∷ [])
unfolding node_ext2fs_symlink symlink_expanding strrchr find make_link string_to_inode update_mtime
    get_now find_entry walk step_down add
node_ext2fs_readlink-symlink_example =
    node_ext2fs_readlink-symlink memory stored view memory-InodeLaws memory-NamesLaws
      memory-ErrnoLaws memory-SymlinkLaws memory-NameLaws (codes "ab") (codes "/d/g") (codes "/d")
      (codes "g") (codes "/d/g") 5 world refl refl (omega arith)
      (omega arith, omega arith, (omega arith, omega arith, tt))
      (Quot.sound (λ p. count-append p _ store.entries refl)) (λ e. omega arith) refl

-- O_CREAT, O_EXCL and O_TRUNC
node_ext2fs_open-IsOpened_example :
    let flags = bit_or o_creat (bit_or o_excl o_trunc) in
    let (r, v) = node_ext2fs_open memory (codes "/d/g") flags 0o644 world in
    IsOpened memory stored view memory-InodeLaws memory-NamesLaws memory-CreateLaws memory-NameLaws
      memory-OpenLaws
      (codes "/d/g")
      flags
      0
      11
      world
      r
      v
unfolding node_ext2fs_open open_inode create_file create_file_body create_in name_file fill_inode
    write_filled link_expanding get_parent_dir_ino string_to_inode parent_path get_filename strrchr
    find add_entry take_inode open_at find_entry walk step_down counted
node_ext2fs_open-IsOpened_example =
    node_ext2fs_open-IsOpened memory stored view memory-InodeLaws memory-NamesLaws memory-CreateLaws
      memory-NameLaws memory-OpenLaws (codes "/d/g") (bit_or o_creat (bit_or o_excl o_trunc)) 0o644
      world (inr refl) refl
