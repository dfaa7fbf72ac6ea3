-- ===== src/Tests/MemoryLaws.antt =====
-- The filesystem in memory keeps the laws that the theorems assume of the library.
use node_ext2fs.Base.{
  List, [], ◌∷◌, ◌==◌, refl, ==-true, ==-false, arith, if◌then◌else◌, ◌≡◌, Bool-cases, inl, inr,
}
use node_ext2fs.Ext2.Filsys.{Ino}
use node_ext2fs.Ext2.Inode.{DirEntry}
use node_ext2fs.Ext2.Library.{Visit}
use node_ext2fs.Names.{Name}
use node_ext2fs.Laws.{InodeLaws, IterateLaws, ListLaws, NameLaws, visit_all}
use node_ext2fs.Trim.Loop.{DiscardLaws}
use node_ext2fs.Translate.Codes.{ErrnoLaws}
use node_ext2fs.Tests.Memory.{
  memory, shown, stored, visit, find, iterate, check, open_at, add_entry, drop_entry,
}

pub memory-InodeLaws : InodeLaws memory stored
memory-InodeLaws = record {
  read_value = λ ino w h. refl;
  read_keeps = λ ino j w. refl;
  read_files = λ ino h w. refl;
  read_full_value = λ ino w h. refl;
  read_full_keeps = λ ino j w. refl;
  write_value = λ ino i w h. rw (==-true ino ino refl);
  write_keeps = λ ino j i w ne. rw (==-false j ino ne);
  write_full_value = λ ino i w h. rw (==-true ino ino refl);
  write_full_keeps = λ ino j i w ne. rw (==-false j ino ne);
  clock_keeps = λ j w. refl;
  time_keeps = λ j w. refl;
  flush_keeps = λ j w. refl;
  free_ext_attr_keeps = λ ino j i w ne. refl;
  free_ext_attr_links = λ ino i w. refl;
  punch_keeps = λ ino j i a b w ne. refl;
  punch_links = λ ino i a b w. refl;
  alloc_stats_keeps = λ ino j n d w. refl;
}

pub memory-DiscardLaws : DiscardLaws memory (λ w. w.lib.discarded)
memory-DiscardLaws = record { discards = λ start n b w h. refl; keeps_bitmap = λ start n b w. refl }

pub memory-ErrnoLaws : ErrnoLaws memory
memory-ErrnoLaws = record { eopnotsupp_pos = omega arith; enodata_pos = λ e h. ground arith }

-- The entries of a directory, as the iterators show them.
abbrev pub listed : List Name → Ino → List DirEntry
listed [] dir = []
listed (e ∷ es) dir = if e.dir == dir then shown e ∷ listed es dir else listed es dir

visit-listed :
    {P : Type 0} (dir : Ino) (f : Visit P) (p : P) (es : List Name)
    → visit dir f p es ≡ visit_all f (listed es dir) p
unfolding visit
visit-listed dir f p [] = refl
visit-listed dir f p (e ∷ es) = elim (Bool-cases (e.dir == dir)) [
  | inl here ↦ rw here (visit-listed dir f _ es)
  | inr there ↦ rw there (visit-listed dir f p es)
]

pub memory-IterateLaws : IterateLaws memory (λ d. listed d.entries)
unfolding iterate
memory-IterateLaws = record {
  iterate_value = λ P dir f p w r h. visit-listed dir f p w.lib.entries;
  iterate2_value = λ P dir f p w r h. visit-listed dir f p w.lib.entries;
}

pub memory-ListLaws : ListLaws memory (λ d. listed d.entries)
unfolding find check open_at
memory-ListLaws = record {
  follow_arrays = λ path id w. refl;
  follow_entries = λ path dir w. refl;
  open_arrays = λ ino id w. refl;
  open_entries = λ ino dir w. refl;
  check_arrays = λ ino id w. refl;
  check_entries = λ ino dir w. refl;
}

pub memory-NameLaws : NameLaws memory stored
unfolding find check iterate add_entry drop_entry
memory-NameLaws = record {
  namei_links = λ path j w. refl;
  link_links = λ dir name ino flags j w. ground arith;
  unlink_links = λ dir name j w. ground arith;
  expand_dir_links = λ dir j w. refl;
  check_directory_links = λ ino j w. refl;
  dir_iterate2_links = λ P dir f p j w. refl;
  strdup_links = λ j w. refl;
  flush2_links = λ j w. refl;
}
