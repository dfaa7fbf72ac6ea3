-- ===== src/Tests/Counts.antt =====
-- The theorems on names and link counts at inputs that meet their hypotheses.
use node_ext2fs.Base.{neg, true, [], ◌++◌, ◌≡◌, refl, arith}
use node_ext2fs.Ext2.Errors.{enotempty}
use node_ext2fs.Tests.Memory.{memory, stored, find, iterate, drop_entry}
use node_ext2fs.Tests.MemoryLaws.{memory-InodeLaws, memory-ErrnoLaws, listed, memory-IterateLaws}
use node_ext2fs.Paths.{strrchr, string_to_inode}
use node_ext2fs.Remove.{
  free_blocks, drop_link, node_ext2fs_rmdir, unlink_file_by_name, drop_parent_link, rmdir_proc,
}
use node_ext2fs.Remove.Empty.{
  all_dots, entries_read, node_ext2fs_rmdir-refuses, node_ext2fs_rmdir-empty,
}
use node_ext2fs.Times.{
  get_now, update_ctime_at, update_mtime, update_mtime_at, set_ctime, ext4_encode_extra_time,
  set_mtime,
}
use node_ext2fs.Remove.{remove_inode}
use node_ext2fs.Tests.World.{codes, store, world}
use node_ext2fs.Dirs.{node_ext2fs_readdir, copy_filename_to_result, strncmp_is_zero}
use node_ext2fs.Dirs.Names.{names, node_ext2fs_readdir-names}
use node_ext2fs.Laws.{links}
use node_ext2fs.Link.{add_link, node_ext2fs_link}
use node_ext2fs.Link.Counts.{node_ext2fs_link-links}
use node_ext2fs.Create.{link_expanding}
use node_ext2fs.Remove.{node_ext2fs_unlink}
use node_ext2fs.Remove.Counts.{node_ext2fs_unlink-links, node_ext2fs_rmdir-links}
use node_ext2fs.Rename.{move_dotdot}
use node_ext2fs.Rename.Counts.{GoesOn, lowered, move_dotdot-GoesOn}
use node_ext2fs.Tests.Memory.{add_entry, check, open_at}
use node_ext2fs.Tests.MemoryLaws.{memory-NameLaws, memory-ListLaws}

node_ext2fs_rmdir-refuses_example : node_ext2fs_rmdir memory (codes "/d") world ≡ (
  neg enotempty,
  (entries_read memory (λ d. listed d.entries) memory-IterateLaws (codes "/d") world).2,
)
unfolding find iterate
node_ext2fs_rmdir-refuses_example =
    node_ext2fs_rmdir-refuses memory (λ d. listed d.entries) memory-IterateLaws (codes "/d") world
      refl refl refl

node_ext2fs_rmdir-empty_example :
    all_dots (listed store.entries (memory.namei 2 2 (codes "/e") world).1) ≡ true
unfolding find iterate remove_inode free_blocks drop_link update_ctime_at get_now set_ctime
    ext4_encode_extra_time node_ext2fs_rmdir unlink_file_by_name update_mtime update_mtime_at
    set_mtime drop_parent_link rmdir_proc strrchr drop_entry
node_ext2fs_rmdir-empty_example =
    node_ext2fs_rmdir-empty memory (λ d. listed d.entries) memory-IterateLaws (codes "/e") world
      memory-ErrnoLaws refl

node_ext2fs_readdir-names_example :
    (node_ext2fs_readdir memory (codes "/d") 5 world).1.arrays 5
    ≡ [] ++ names memory (listed store.entries 11)
unfolding find iterate string_to_inode node_ext2fs_readdir copy_filename_to_result strncmp_is_zero
    check open_at
node_ext2fs_readdir-names_example =
    node_ext2fs_readdir-names memory (λ d. listed d.entries) memory-IterateLaws memory-ListLaws
      (codes "/d") 5 world refl
      (
        (λ e. omega arith, tt),
        ((λ e. omega arith, (λ e. omega arith, tt)), ((λ e. omega arith, tt), tt)),
      )

node_ext2fs_unlink-links_example :
    links stored (node_ext2fs_unlink memory (codes "/d/f") world).1 12 ≡ 0
unfolding find remove_inode free_blocks drop_link update_ctime_at get_now set_ctime
    ext4_encode_extra_time node_ext2fs_unlink unlink_file_by_name update_mtime update_mtime_at
    set_mtime strrchr drop_entry check
node_ext2fs_unlink-links_example =
    node_ext2fs_unlink-links memory stored memory-InodeLaws memory-NameLaws memory-ErrnoLaws
      (codes "/d/f") 12 world refl

node_ext2fs_rmdir-links_example : links stored (node_ext2fs_rmdir memory (codes "/e") world).1 2 ≡ 3
unfolding find iterate remove_inode free_blocks drop_link update_ctime_at get_now set_ctime
    ext4_encode_extra_time node_ext2fs_rmdir unlink_file_by_name update_mtime update_mtime_at
    set_mtime drop_parent_link rmdir_proc strrchr drop_entry
node_ext2fs_rmdir-links_example =
    node_ext2fs_rmdir-links memory stored memory-InodeLaws memory-NameLaws memory-ErrnoLaws
      (λ d. listed d.entries) memory-IterateLaws (codes "/e") 2 world refl

node_ext2fs_link-links_example :
    links stored (node_ext2fs_link memory (codes "/d/f") (codes "/e/g") world).1 12 ≡ 2
unfolding find update_ctime_at get_now set_ctime ext4_encode_extra_time node_ext2fs_link add_link
    link_expanding update_mtime set_mtime strrchr add_entry
node_ext2fs_link-links_example =
    node_ext2fs_link-links memory stored memory-InodeLaws memory-NameLaws (codes "/d/f")
      (codes "/e/g") (codes "/e") (codes "g") 12 world memory-ErrnoLaws refl refl (λ e. omega arith)
      refl

move_dotdot-GoesOn_example :
    GoesOn memory stored memory-InodeLaws memory-NameLaws memory-ErrnoLaws 2
      (lowered memory stored memory-InodeLaws memory-NameLaws memory-ErrnoLaws 4)
      (move_dotdot memory 13 2 11 world)
move_dotdot-GoesOn_example =
    move_dotdot-GoesOn memory stored memory-InodeLaws memory-NameLaws memory-ErrnoLaws 13 2 11 2
      world
