-- ===== src/Tests/Memory.antt =====
-- A small filesystem in memory that stands for libext2fs in the examples. It keeps what the laws
-- ask of the library, and it computes.
use node_ext2fs.Base.{
  ℕ, pos, ◌+◌, Bool, true, false, some, List, [], ◌∷◌, ◌++◌, ◌&&◌, ◌||◌, ltb, leb, ◌==◌, bytes_eq,
  ◌-◌, replicate, length, not, bit_and, if◌then◌else◌,
}
use node_ext2fs.Ext2.Errors.{ext2_et_file_not_found, ext2_et_no_directory}
use node_ext2fs.Ext2.Filsys.{Bytes, Ino, File, World}
use node_ext2fs.Ext2.Inode.{Inode, InodeLarge, DirEntry}
use node_ext2fs.Ext2.Library.{Ext2fs, Call, Visit, Timespec}
use node_ext2fs.Ext2.Modes.{linux_s_isdir}
use node_ext2fs.Link.Target.{words}
use node_ext2fs.Names.{Name}
use node_ext2fs.Paths.{slash}
use node_ext2fs.Remove.Empty.{is_dots}

pub record Store : Type 0 where
  pub inodes : Ino → InodeLarge
  pub entries : List Name
  pub last_inode : Ino
  pub used : ℕ → Bool
  pub discarded : ℕ → Bool
  pub contents : Ino → Bytes
  pub seconds : ℕ

abbrev pub ok : {D : Type 0} {A : Type 0} → A → Call D A
ok a w = (0, a, w)

abbrev pub on_store : (Store → Store) → World Store → World Store
on_store f w = record w { lib = f w.lib }

-- An entry, as the iterators show it.
abbrev pub shown : Name → DirEntry
shown e = record { inode = e.ino; rec_len = 0; name_len = length e.name; name = e.name }

-- Entries other than those that are named `.` or `..`, or are deleted.
abbrev pub visible : Name → Bool
visible e = not (is_dots (shown e))

abbrev pub is_entry : Ino → Bytes → Name → Bool
is_entry dir name e = visible e && e.dir == dir && bytes_eq e.name name

unfoldable pub find_entry : Ino → Bytes → List Name → Ino
find_entry dir name [] = 0
find_entry dir name (e ∷ es) =
    let rest = find_entry dir name es in if is_entry dir name e then e.ino else rest

abbrev pub has_entry : Ino → Bytes → List Name → Bool
has_entry dir name [] = false
has_entry dir name (e ∷ es) = is_entry dir name e || has_entry dir name es

abbrev pub remove_entry : Ino → Bytes → List Name → List Name
remove_entry dir name [] = []
remove_entry dir name (e ∷ es) =
    let rest = remove_entry dir name es in if is_entry dir name e then es else e ∷ rest

abbrev pub has_children : Ino → List Name → Bool
has_children dir [] = false
has_children dir (e ∷ es) = (visible e && e.dir == dir) || has_children dir es

abbrev pub has_refs : Ino → List Name → Bool
has_refs ino [] = false
has_refs ino (e ∷ es) = (visible e && e.ino == ino) || has_refs ino es

-- From a directory down the components of a path; a component that is empty stays.
unfoldable pub step_down : List Name → Ino → Bytes → Ino
step_down es dir [] = dir
step_down es dir (c ∷ name) = find_entry dir (c ∷ name) es

unfoldable pub walk : List Name → Ino → (name : Bytes) → Bytes → Ino
unfolding step_down find_entry
walk es dir name [] = step_down es dir name
walk es dir name (c ∷ path) =
    let down = walk es (step_down es dir name) [] path in
    let on = walk es dir (name ++ c ∷ []) path in if c == slash then down else on

unfoldable pub find : (root cwd : Ino) → Bytes → Call Store Ino
unfolding walk find_entry
find root cwd path w =
    let ino = walk w.lib.entries root [] path in
    (if ino == 0 then ext2_et_file_not_found else 0, ino, w)

-- The entries of a directory, in order.
unfoldable pub visit : {P : Type 0} → Ino → Visit P → P → List Name → P
visit dir f p [] = p
visit dir f p (e ∷ es) = visit dir f (if e.dir == dir then (f (shown e) p).2 else p) es

unfoldable pub iterate : {P : Type 0} → Ino → ℕ → Visit P → P → Call Store P
unfolding visit
iterate dir flags f p w = (0, visit dir f p w.lib.entries, w)

abbrev pub put_inode : Ino → InodeLarge → Store → Store
put_inode ino i d = record d { inodes = λ j. if j == ino then i else d.inodes j }

abbrev discard_range : ℕ → ℕ → Store → Store
discard_range start n d = record d {
  discarded = λ b. d.discarded b || (leb start b && ltb b (start + n));
}

-- Only names that are visible can be added, and removed.
unfoldable pub add_entry : Ino → Bytes → Ino → ℕ → Call Store (Unit {0})
add_entry dir name ino flags w =
    let e : Name = record { dir = dir; name = name; ino = ino } in
    if visible e
    then (0, tt, on_store (λ d. record d { entries = d.entries ++ e ∷ [] }) w)
    else (ext2_et_no_directory, tt, w)

unfoldable pub drop_entry : Ino → Bytes → Ino → ℕ → Call Store (Unit {0})
drop_entry dir name ino flags w =
    if has_entry dir name w.lib.entries
    then (0, tt, on_store (λ d. record d { entries = remove_entry dir name d.entries }) w)
    else (ext2_et_file_not_found, tt, w)

unfoldable pub check : Ino → Call Store (Unit {0})
check ino w = (
  if linux_s_isdir (w.lib.inodes ino).base.i_mode || has_children ino w.lib.entries
      then 0
      else ext2_et_no_directory,
  tt,
  w,
)

abbrev pub blank_file : Ino → Inode → File
blank_file ino i = record {
  magic = 0;
  ino = ino;
  inode = i;
  flags = 0;
  pos = 0;
  blockno = 0;
  physblock = 0;
  buf = [];
}

-- Files are opened at the address of their inode's number.
unfoldable pub open_at : Ino → ℕ → Call Store ℕ
open_at ino flags w = (
  0,
  ino,
  record w { files = λ p. if p == ino then blank_file ino (w.lib.inodes ino).base else w.files p },
)

-- The number after the last one, unless an entry already has it.
unfoldable pub take_inode : Ino → (mode : ℕ) → Call Store Ino
take_inode dir mode w =
    let ino = w.lib.last_inode + 1 in
    if ino == dir || has_children ino w.lib.entries || has_refs ino w.lib.entries
    then (ext2_et_file_not_found, 0, w)
    else (0, ino, on_store (λ d. record d { last_inode = ino }) w)

abbrev pub link_inode : Bytes → InodeLarge → InodeLarge
link_inode target old = record old {
  base = record old.base {
    i_mode = 0o120777;
    i_links_count = 1;
    i_block = words target ++ replicate (15 - length (words target)) 0;
  };
}

-- A link is made at the number after the last one, unless an entry already has it.
unfoldable pub make_link : Ino → (name target : Bytes) → Call Store (Unit {0})
make_link dir name target w =
    let ino = w.lib.last_inode + 1 in
    let e : Name = record { dir = dir; name = name; ino = ino } in
    let i = link_inode target (w.lib.inodes ino) in
    if ino == dir || has_refs ino w.lib.entries || not (visible e)
    then (ext2_et_file_not_found, tt, w)
    else (
      0,
      tt,
      on_store (λ d. record (put_inode ino i d) { last_inode = ino; entries = d.entries ++ e ∷ [] })
          w,
    )

abbrev clock : World Store → Timespec
clock w = record { tv_sec = pos w.lib.seconds; tv_nsec = 0 }

abbrev pub memory : Ext2fs Store
memory = record {
  fs_open = λ name flags. ok 1;
  fs_close = ok tt;
  read_bitmaps = ok tt;
  read_block_bitmap = λ w. (0, tt, record w { fs = record w.fs { block_map = true } });
  test_block_bitmap = λ blk w. w.lib.used blk;
  test_inode_bitmap2 = λ ino w. false;
  flush = ok tt;
  flush2 = λ flags. ok tt;
  io_channel_discard = λ start n w. (0, tt, on_store (discard_range start n) w);
  io_channel_read_blk64 = λ block count. ok [];
  namei = find;
  namei_follow = find;
  link = add_entry;
  unlink = drop_entry;
  expand_dir = λ dir. ok tt;
  mkdir = λ parent inum name. add_entry parent name inum 2;
  symlink = λ parent ino. make_link parent;
  check_directory = check;
  dirent_name_len = λ dirent. bit_and dirent.name_len 0xff;
  dir_iterate = iterate;
  dir_iterate2 = iterate;
  new_inode = take_inode;
  read_inode = λ ino w. (0, (w.lib.inodes ino).base, w);
  write_inode =
      λ ino i w. (0, tt, on_store (λ d. put_inode ino (record (d.inodes ino) { base = i }) d) w);
  write_new_inode =
      λ ino i w. (0, tt, on_store (λ d. put_inode ino (record (d.inodes ino) { base = i }) d) w);
  read_inode_full = λ ino w. (0, w.lib.inodes ino, w);
  write_inode_full = λ ino i w. (0, tt, on_store (put_inode ino i) w);
  inode_alloc_stats2 = λ ino inuse isdir w. w;
  inode_size_set = λ i size. ok i;
  extent_open2 = λ ino i. ok i;
  inline_data_init = λ ino. ok tt;
  inline_data_get = λ ino i. ok [];
  free_ext_attr = λ ino i. ok i;
  inode_has_valid_blocks2 = λ i w. false;
  punch = λ ino i start end. ok i;
  is_fast_symlink = λ i. true;
  bmap2 = λ ino i block. ok 0;
  file_open = open_at;
  file_close = λ file. ok tt;
  file_read = λ file buf wanted. ok wanted;
  file_write = λ file buf nbytes. ok nbytes;
  file_flush = λ file. ok tt;
  file_llseek = λ file offset whence. ok tt;
  file_set_size2 = λ file size. ok tt;
  get_mem = λ size. ok tt;
  get_memzero = λ size. ok tt;
  strdup_succeeds = λ w. (true, w);
  clock_gettime = λ w. ((0, clock w), w);
  time = λ w. (pos w.lib.seconds, w);
  enodata = some 116;
  eopnotsupp = 138;
}

abbrev pub stored : Store → Ino → InodeLarge
stored d = d.inodes
