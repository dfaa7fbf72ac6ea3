-- ===== src/Tests/MemoryNames.antt =====
-- The filesystem in memory keeps the laws that the theorems assume of the names in the library.
use node_ext2fs.Base.{
  ◌-◌, not, length, ◌+◌, Bool, true, false, List, [], ◌∷◌, ◌++◌, ◌==◌, ◌||◌, ==-true, ==-false, ◌≡◌,
  refl, ap, arith, bytes_eq, if◌then◌else◌, Bool-cases, inl, inr,
}
use mathlib.Core.Quot
use mathlib.Core.Quot.{Quot}
use node_ext2fs.Ext2.Filsys.{Bytes, Ino}
use node_ext2fs.Names.{Name, Names, of_list, count, add, counted, children, refs}
use node_ext2fs.Names.Library.{NamesLaws, EntriesLaws}
use node_ext2fs.Create.Laws.{CreateLaws}
use node_ext2fs.Files.Opened.{OpenLaws}
use node_ext2fs.Link.Laws.{SymlinkLaws}
use node_ext2fs.Link.Target.{words}
use node_ext2fs.Remove.Empty.{all_dots}
use node_ext2fs.Tests.Memory.{
  Store, memory, stored, visible, is_entry, has_entry, remove_entry, has_children, has_refs, find,
  iterate, check, add_entry, drop_entry, take_inode, find_entry, link_inode, make_link, open_at,
  blank_file,
}
use node_ext2fs.Tests.MemoryLaws.{listed, memory-InodeLaws}

-- The entries that are visible.
abbrev pub shown_names : List Name → List Name
shown_names [] = []
shown_names (e ∷ es) = if visible e then e ∷ shown_names es else shown_names es

abbrev pub view : Store → Names
view d = of_list (shown_names d.entries)

bytes_eq-≡ : (xs ys : Bytes) → bytes_eq xs ys ≡ true → xs ≡ ys
bytes_eq-≡ [] [] h = refl
bytes_eq-≡ [] (y ∷ ys) h = ground arith
bytes_eq-≡ (x ∷ xs) [] h = ground arith
bytes_eq-≡ (x ∷ xs) (y ∷ ys) h = ground (arith, bytes_eq-≡ xs ys)

pub count-append :
    (p : Name → Bool) (e : Name) (es : List Name)
    → visible e ≡ true
    → count p (shown_names (es ++ e ∷ [])) ≡ (if p e then 1 else 0) + count p (shown_names es)
count-append p e [] h = rw h refl
count-append p e (x ∷ es) h = elim (Bool-cases (visible x)) [
  | inl v ↦ rw v (omega (arith, count-append p e es h))
  | inr v ↦ rw v (count-append p e es h)
]

is_entry-≡ :
    (dir : Ino) (name : Bytes) (e : Name)
    → is_entry dir name e ≡ true
    → (visible e ≡ true) × (e ≡ record { dir = dir; name = name; ino = e.ino })
is_entry-≡ dir name e h =
    let here : e.dir ≡ dir = ground arith in
    let same : bytes_eq e.name name ≡ true = ground arith in
    let spelled : e.name ≡ name = bytes_eq-≡ e.name name same in (ground arith, cc)

pub count-remove_entry :
    (dir : Ino) (name : Bytes) (es : List Name)
    → has_entry dir name es ≡ true
    → (p : Name → Bool)
    → count p (shown_names es)
      ≡ (if p (record { dir = dir; name = name; ino = find_entry dir name es }) then 1 else 0)
        + count p (shown_names (remove_entry dir name es))
unfolding find_entry
count-remove_entry dir name [] h p = ground arith
count-remove_entry dir name (e ∷ es) h p = elim (Bool-cases (is_entry dir name e)) [
  | inl here ↦
      let (seen, same) = is_entry-≡ dir name e here in
      rw (here, seen) (ap (λ x. (if p x then 1 else 0) + count p (shown_names es)) same)
  | inr there ↦
      let counts = count-remove_entry dir name es (ground arith) p in
      elim (Bool-cases (visible e)) [
        | inl v ↦ rw (there, v) (omega (arith, counts))
        | inr v ↦ rw (there, v) counts
      ]
]

children-has_children :
    (dir : Ino) (es : List Name)
    → has_children dir es ≡ false
    → children dir (of_list (shown_names es)) ≡ 0
unfolding counted
children-has_children dir [] h = refl
children-has_children dir (e ∷ es) h = let rest = children-has_children dir es in ground arith

refs-has_refs :
    (ino : Ino) (es : List Name) → has_refs ino es ≡ false → refs ino (of_list (shown_names es)) ≡ 0
unfolding counted
refs-has_refs ino [] h = refl
refs-has_refs ino (e ∷ es) h = let rest = refs-has_refs ino es in ground arith

children-all_dots :
    (dir : Ino) (es : List Name)
    → all_dots (listed es dir) ≡ true
    → children dir (of_list (shown_names es)) ≡ 0
unfolding counted
children-all_dots dir [] h = refl
children-all_dots dir (e ∷ es) h = let rest = children-all_dots dir es in ground arith

pub memory-NamesLaws : NamesLaws memory stored view
unfolding find check iterate add_entry drop_entry add counted
memory-NamesLaws = record {
  link_adds = λ dir name ino flags w h.
      elim (Bool-cases (visible (record { dir = dir; name = name; ino = ino }))) [
        | inl v ↦ rw v (Quot.sound (λ p. count-append p _ w.lib.entries v))
        | inr v ↦ ground arith
      ];
  link_fails = λ dir name ino flags w h. ground arith;
  unlink_removes = λ dir name w h. elim (Bool-cases (has_entry dir name w.lib.entries)) [
    | inl here ↦ (
      find_entry dir name w.lib.entries,
      rw here (Quot.sound (count-remove_entry dir name w.lib.entries here)),
    )
    | inr there ↦ ground arith
  ];
  namei_view = λ path w. refl;
  check_directory_view = λ ino w. refl;
  check_directory_fails =
      λ ino w h. let none = children-has_children ino w.lib.entries in ground arith;
  dir_iterate2_view = λ P dir f p w h. refl;
  expand_dir_view = λ dir w. refl;
  read_view = λ ino w. refl;
  read_full_view = λ ino w. refl;
  write_view = λ ino i w h. refl;
  write_full_view = λ ino i w h. refl;
  write_full_childless = λ ino i w h. refl;
  free_ext_attr_childless = λ ino i w h. refl;
  punch_childless = λ ino i a b w h. refl;
  alloc_stats_view = λ ino n d w. refl;
  flush_view = λ w. refl;
  flush2_view = λ w. refl;
  strdup_view = λ w. refl;
  clock_view = λ w. refl;
  time_view = λ w. refl;
}

pub memory-EntriesLaws : EntriesLaws memory (λ d. listed d.entries) view
memory-EntriesLaws = record { all_dots_children = λ dir w h. children-all_dots dir w.lib.entries h }

pub memory-CreateLaws : CreateLaws memory stored view
unfolding find add_entry take_inode add counted
memory-CreateLaws = record {
  namei_follow_view = λ path w. refl;
  new_inode_view = λ dir mode w. ground arith;
  new_inode_free = λ dir mode w h.
      let ino = w.lib.last_inode + 1 in
      elim (Bool-cases
        (ino == dir || has_children ino w.lib.entries || has_refs ino w.lib.entries)) [
          | inl taken ↦ ground arith
          | inr free ↦ rw free (
            (λ e. ground arith),
            children-has_children ino w.lib.entries (ground arith),
            refs-has_refs ino w.lib.entries (ground arith),
          )
        ];
  namei_follow_links = λ path w j. refl;
  new_inode_links = λ dir mode w j. ground arith;
  size_set_links = λ i size w j. refl;
  extent_open_links = λ ino i w j. refl;
  inline_data_links = λ ino w j ne. refl;
  write_new_links =
      λ ino i w j ne. ap (λ s. s.base.i_links_count) (memory-InodeLaws.write_keeps ino j i w ne);
  size_set_view = λ i size w. refl;
  size_set_meta = λ i size w. (refl, refl, refl, refl, refl, refl, refl);
  extent_open_view = λ ino i w. refl;
  extent_open_meta = λ ino i w. (refl, refl, refl, refl, refl, refl, refl);
  inline_data_view = λ ino w. refl;
  inline_data_meta = λ ino w. (refl, refl, refl, refl, refl, refl, refl);
  write_new_value = λ ino i w h. rw (==-true ino ino refl);
  write_new_childless = λ ino i w h. refl;
  mkdir_adds = λ dir ino name w h. memory-NamesLaws.link_adds dir name ino 2 w h;
  write_childless = λ ino i w h. refl;
}

pub memory-SymlinkLaws : SymlinkLaws memory stored view
unfolding find make_link add
memory-SymlinkLaws = record {
  symlink_links = λ dir name target w h.
      let ino = w.lib.last_inode + 1 in
      let e : Name = record { dir = dir; name = name; ino = ino } in
      elim (Bool-cases (ino == dir || has_refs ino w.lib.entries || not (visible e))) [
        | inl refused ↦ ground arith
        | inr made ↦
            let seen : visible e ≡ true = ground arith in
            let i = link_inode target (w.lib.inodes ino) in
            rw made (
              ino,
              (λ e. ground arith),
              Quot.sound (λ p. count-append p e w.lib.entries seen),
              refs-has_refs ino w.lib.entries (ground arith),
              ap (λ b. (if b then i else w.lib.inodes ino).base.i_links_count)
                  (==-true ino ino refl),
              (λ j ne.
                  ap (λ b. (if b then i else w.lib.inodes j).base.i_links_count)
                    (==-false j ino ne)),
              inr (rw (==-true ino ino refl) (refl, refl, (15 - length (words target), refl))),
            )
      ];
  symlink_fails = λ dir name target w h. (ground arith, λ j. ground arith);
  namei_keeps = λ path j w. refl;
}

pub memory-OpenLaws : OpenLaws memory view
unfolding open_at
memory-OpenLaws = record {
  file_open_ino = λ ino flags w h.
      ap (λ b. (if b then blank_file ino (w.lib.inodes ino).base else w.files ino).ino)
        (==-true ino ino refl);
  file_open_view = λ ino flags w. refl;
  set_size_ino = λ file w. refl;
  set_size_view = λ file w h. refl;
}
