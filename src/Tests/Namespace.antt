-- ===== src/Tests/Namespace.antt =====
-- The theorems on the names of a filesystem, and on the end of a trim, at inputs that meet their
-- hypotheses.
use node_ext2fs.Base.{◌-◌, ◌^◌, ◌≡◌, none, refl, arith}
use node_ext2fs.Create.{
  link_expanding, create_file, create_file_body, create_in, name_file, fill_inode, write_filled,
}
use node_ext2fs.Rename.{
  node_ext2fs_rename, rename_found, rename_dirs, move_entry, place_name, drop_old_name, dir_of_path,
  remove_target, move_dotdot, change_links, update_dotdot_helper,
}
use node_ext2fs.Ext2.Filsys.{World}
use node_ext2fs.FileType.{ext2_file_type}
use node_ext2fs.Link.{add_link, node_ext2fs_link}
use node_ext2fs.Names.{add}
use node_ext2fs.Names.{counted}
use node_ext2fs.Names.Agreement.{Agrees, Reach-Agrees}
use node_ext2fs.Names.Agreement.Reach.{here, later}
use node_ext2fs.Names.Agreement.Step.{link, unlink, create}
use node_ext2fs.Tests.MemoryLookups.{memory-LookupLaws}
use node_ext2fs.Link.Outcome.{HasLinked, node_ext2fs_link-HasLinked}
use node_ext2fs.Names.Linking.{node_ext2fs_link-adds}
use node_ext2fs.Names.Moved.{IsRenamed, node_ext2fs_rename-IsRenamed}
use node_ext2fs.Names.Removing.{IsGone, node_ext2fs_unlink-IsGone}
use node_ext2fs.Names.RemovingDirs.{node_ext2fs_rmdir-IsGone}
use node_ext2fs.Paths.{strrchr, get_parent_dir_ino, string_to_inode, parent_path, get_filename}
use node_ext2fs.Remove.{
  free_blocks, drop_link, node_ext2fs_unlink, node_ext2fs_rmdir, unlink_file_by_name,
  drop_parent_link, rmdir_proc, remove_inode,
}
use node_ext2fs.Tests.Memory.{
  Store, memory, stored, find, iterate, visit, add_entry, drop_entry, check, take_inode,
}
use node_ext2fs.Tests.MemoryLaws.{
  memory-InodeLaws, memory-ErrnoLaws, memory-NameLaws, listed, memory-IterateLaws,
}
use node_ext2fs.Tests.MemoryNames.{
  view, memory-NamesLaws, memory-CreateLaws, memory-SymlinkLaws, memory-EntriesLaws,
}
use node_ext2fs.Tests.World.{codes, world}
use node_ext2fs.Times.{
  get_now, update_ctime, update_ctime_at, update_mtime, update_mtime_at, set_ctime, set_mtime,
  ext4_encode_extra_time,
}
use node_ext2fs.Trim.{node_ext2fs_trim, load_bitmap}
use node_ext2fs.Trim.Ends.{node_ext2fs_trim-none}

-- A filesystem with as many blocks as a 32-bit number can count, but one.
abbrev full : World Store
full = record world {
  fs = record world.fs { super = record world.fs.super { s_blocks_count = 2 ^ 32 - 1 } };
}

node_ext2fs_trim-none_example : node_ext2fs_trim memory 3 full ≡ none
unfolding load_bitmap
node_ext2fs_trim-none_example =
    node_ext2fs_trim-none memory 3 full (λ start n v. refl) refl refl (omega arith)

node_ext2fs_link-adds_example :
    view (node_ext2fs_link memory (codes "/d/f") (codes "/e/g") world).1.lib
    ≡ add (record { dir = 13; name = codes "g"; ino = 12 }) (view world.lib)
unfolding find update_ctime_at get_now set_ctime ext4_encode_extra_time node_ext2fs_link add_link
    link_expanding update_mtime set_mtime strrchr add_entry
node_ext2fs_link-adds_example =
    node_ext2fs_link-adds memory stored view memory-InodeLaws memory-NamesLaws memory-ErrnoLaws
      (codes "/d/f") (codes "/e/g") (codes "/e") (codes "g") world refl refl (λ e. omega arith) refl

-- The directory `/x` does not exist.
node_ext2fs_link-HasLinked_example :
    HasLinked memory stored view memory-InodeLaws memory-NameLaws memory-NamesLaws memory-ErrnoLaws
      (codes "/d/f")
      (codes "/x")
      (codes "g")
      world
      (node_ext2fs_link memory (codes "/d/f") (codes "/x/g") world).1
unfolding find node_ext2fs_link strrchr
node_ext2fs_link-HasLinked_example =
    node_ext2fs_link-HasLinked memory stored view memory-InodeLaws memory-NameLaws memory-NamesLaws
      memory-ErrnoLaws (codes "/d/f") (codes "/x/g") (codes "/x") (codes "g") world refl refl

node_ext2fs_unlink-IsGone_example :
    IsGone memory stored view memory-InodeLaws memory-NamesLaws memory-ErrnoLaws
      (codes "/d/f")
      11
      world
      (node_ext2fs_unlink memory (codes "/d/f") world).1
unfolding find remove_inode free_blocks drop_link update_ctime_at get_now set_ctime
    ext4_encode_extra_time node_ext2fs_unlink unlink_file_by_name update_mtime update_mtime_at
    set_mtime strrchr drop_entry check
node_ext2fs_unlink-IsGone_example =
    node_ext2fs_unlink-IsGone memory stored view memory-InodeLaws memory-NamesLaws memory-ErrnoLaws
      (codes "/d/f") world refl

node_ext2fs_rmdir-IsGone_example :
    IsGone memory stored view memory-InodeLaws memory-NamesLaws memory-ErrnoLaws
      (codes "/e")
      2
      world
      (node_ext2fs_rmdir memory (codes "/e") world).1
unfolding find iterate remove_inode free_blocks drop_link update_ctime_at get_now set_ctime
    ext4_encode_extra_time node_ext2fs_rmdir unlink_file_by_name update_mtime update_mtime_at
    set_mtime drop_parent_link rmdir_proc strrchr drop_entry
node_ext2fs_rmdir-IsGone_example =
    node_ext2fs_rmdir-IsGone memory stored view memory-InodeLaws memory-NamesLaws memory-ErrnoLaws
      (λ d. listed d.entries) memory-IterateLaws memory-EntriesLaws (codes "/e") world refl

node_ext2fs_rename-IsRenamed_example :
    IsRenamed memory stored view memory-InodeLaws memory-NamesLaws memory-ErrnoLaws
      (λ d. listed d.entries)
      memory-IterateLaws
      memory-EntriesLaws
      (codes "/e")
      (codes "/d/f")
      13
      12
      world
      (node_ext2fs_rename memory (codes "/e") (codes "/d/f") world).1
unfolding find iterate visit remove_inode free_blocks drop_link update_ctime_at get_now set_ctime
    ext4_encode_extra_time node_ext2fs_unlink unlink_file_by_name update_mtime update_mtime_at
    set_mtime strrchr drop_entry add_entry check link_expanding ext2_file_type update_ctime
    node_ext2fs_rename rename_found rename_dirs move_entry place_name drop_old_name dir_of_path
    remove_target move_dotdot change_links update_dotdot_helper
node_ext2fs_rename-IsRenamed_example =
    node_ext2fs_rename-IsRenamed memory stored view memory-InodeLaws memory-NamesLaws
      memory-ErrnoLaws (λ d. listed d.entries) memory-IterateLaws memory-EntriesLaws (codes "/e")
      (codes "/d/f") world (λ e. omega arith) (λ e. omega arith) refl

Reach-Agrees_example :
    let linked = (node_ext2fs_link memory (codes "/d/f") (codes "/e/g") world).1 in
    Agrees memory stored view memory-InodeLaws memory-NameLaws memory-NamesLaws memory-LookupLaws
      memory-ErrnoLaws memory-CreateLaws memory-SymlinkLaws 12
      (create_file memory
        (codes "/d/h")
        0o644
        (node_ext2fs_unlink memory (codes "/d/f") linked).1).2
unfolding find update_ctime_at get_now set_ctime ext4_encode_extra_time node_ext2fs_link add_link
    link_expanding update_mtime update_mtime_at set_mtime strrchr add_entry remove_inode free_blocks
    drop_link node_ext2fs_unlink unlink_file_by_name drop_entry check counted create_file
    create_file_body create_in name_file fill_inode write_filled get_parent_dir_ino string_to_inode
    parent_path get_filename take_inode
Reach-Agrees_example =
    Reach-Agrees memory stored view memory-InodeLaws memory-NameLaws memory-NamesLaws
      memory-LookupLaws memory-ErrnoLaws memory-CreateLaws memory-SymlinkLaws 12
      (later
        (later
          (later here (
            link (codes "/d/f") (codes "/e/g") (codes "/e") (codes "g") world refl refl
              (λ e. omega arith) (omega arith) refl))
          (unlink (codes "/d/f") (codes "/d") (codes "f") _ refl refl))
        (create (codes "/d/h") 0o644 _ refl))
      refl
