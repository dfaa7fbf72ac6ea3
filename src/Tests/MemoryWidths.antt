-- ===== src/Tests/MemoryWidths.antt =====
-- In the filesystem in memory every inode is within its types, and its calls keep it so.
use node_ext2fs.Base.{
  ℕ, zero, suc, ◌+◌, ◌-◌, ◌∷◌, [], ◌++◌, ◌||◌, replicate, length, not, ◌==◌, arith,
}
use node_ext2fs.Ext2.Errors.{ext2_et_file_not_found, ext2_et_no_directory}
use node_ext2fs.Ext2.Filsys.{Bytes, Ino, World}
use node_ext2fs.Ext2.Inode.{Inode, InodeLarge}
use node_ext2fs.Ext2.Library.{Visit}
use node_ext2fs.Link.Target.{IsText, words}
use node_ext2fs.Names.{Name}
use node_ext2fs.Tests.Memory.{
  Store, memory, ok, on_store, find, iterate, check, open_at, add_entry, drop_entry, take_inode,
  make_link, link_inode, has_entry, remove_entry, has_children, has_refs, visible, blank_file,
  put_inode,
}
use node_ext2fs.Widths.{Any, AllWords, Fits, FitsLarge, Within, KeepsCall}
use node_ext2fs.Widths.Library.{WidthLaws}
use node_ext2fs.Widths.Removed.{based-FitsLarge}
use node_ext2fs.Widths.Rules.{if-either}

abbrev pub AllFit : Store → Type 0
AllFit d = (ino : Ino) → FitsLarge (d.inodes ino)

abbrev Left : World Store → Type 0
Left w = Unit × Within AllFit w

-- Calls that leave the state as it is.
still : {A : Type 0} {Q : A → Type 0} (a : A) → Q a → KeepsCall AllFit Q (ok a)
still a h = record { at = λ w ok. (h, ok) }

find-Keeps : (root cwd : Ino) (path : Bytes) → KeepsCall AllFit Any (find root cwd path)
unfolding find
find-Keeps root cwd path = record { at = λ w ok. (tt, ok) }

put-AllFit :
    (ino : Ino) (i : InodeLarge) (w : World Store)
    → FitsLarge i
    → Within AllFit w
    → Within AllFit (on_store (put_inode ino i) w)
put-AllFit ino i w h (ok, files) =
    (λ j. if-either FitsLarge (j == ino) i (w.lib.inodes j) h (ok j), files)

AllWords-zeros : (n : ℕ) → AllWords (replicate n 0)
AllWords-zeros zero = tt
AllWords-zeros (suc n) = (omega arith, AllWords-zeros n)

words-AllWords : (s : Bytes) (n : ℕ) → IsText s → AllWords (words s ++ replicate n 0)
words-AllWords [] n h = AllWords-zeros n
words-AllWords (a ∷ []) n h = (omega arith, AllWords-zeros n)
words-AllWords (a ∷ b ∷ []) n h = (omega arith, AllWords-zeros n)
words-AllWords (a ∷ b ∷ c ∷ []) n h = (omega arith, AllWords-zeros n)
words-AllWords (a ∷ b ∷ c ∷ d ∷ s) n (_, p, (_, q, (_, r, (_, t, rest)))) =
    (omega arith, words-AllWords s n rest)

add_entry-Keeps :
    (dir : Ino) (name : Bytes) (ino : Ino) (flags : ℕ)
    → KeepsCall AllFit Any (add_entry dir name ino flags)
unfolding add_entry
add_entry-Keeps dir name ino flags = record {
  at = λ w ok.
      let e : Name = record { dir = dir; name = name; ino = ino } in
      if-either (λ (x : ℕ × Unit {0} × World Store). Left x.2) (visible e)
        (0, tt, on_store (λ d. record d { entries = d.entries ++ e ∷ [] }) w)
        (ext2_et_no_directory, tt, w) (tt, ok) (tt, ok);
}

drop_entry-Keeps :
    (dir : Ino) (name : Bytes) (ino : Ino) (flags : ℕ)
    → KeepsCall AllFit Any (drop_entry dir name ino flags)
unfolding drop_entry
drop_entry-Keeps dir name ino flags = record {
  at = λ w ok.
      if-either (λ (x : ℕ × Unit {0} × World Store). Left x.2) (has_entry dir name w.lib.entries)
        (0, tt, on_store (λ d. record d { entries = remove_entry dir name d.entries }) w)
        (ext2_et_file_not_found, tt, w) (tt, ok) (tt, ok);
}

take_inode-Keeps : (dir : Ino) (mode : ℕ) → KeepsCall AllFit Any (take_inode dir mode)
unfolding take_inode
take_inode-Keeps dir mode = record {
  at = λ w ok.
      let ino = w.lib.last_inode + 1 in
      if-either (λ (x : ℕ × Ino × World Store). Left x.2)
        (ino == dir || has_children ino w.lib.entries || has_refs ino w.lib.entries)
        (ext2_et_file_not_found, 0, w) (0, ino, on_store (λ d. record d { last_inode = ino }) w)
        (tt, ok) (tt, ok);
}

open_at-Keeps : (ino : Ino) (flags : ℕ) → KeepsCall AllFit Any (open_at ino flags)
unfolding open_at
open_at-Keeps ino flags = record {
  at = λ w ok. (
    tt,
    (
      ok.0,
      λ h.
          if-either (λ f. Fits f.inode) (h == ino) (blank_file ino (w.lib.inodes ino).base)
            (w.files h) (ok.0 ino).0 (ok.1 h),
    ),
  );
}

link_inode-FitsLarge :
    (target : Bytes) (i : InodeLarge)
    → IsText target
    → FitsLarge i
    → FitsLarge (link_inode target i)
link_inode-FitsLarge target i text h =
    let blocks = words-AllWords target (15 - length (words target)) text in ground (arith, blocks)

make_link-Keeps :
    (dir : Ino) (name target : Bytes)
    → IsText target
    → KeepsCall AllFit Any (make_link dir name target)
unfolding make_link
make_link-Keeps dir name target text = record {
  at = λ w ok.
      let ino = w.lib.last_inode + 1 in
      let e : Name = record { dir = dir; name = name; ino = ino } in
      let i = link_inode target (w.lib.inodes ino) in
      if-either (λ (x : ℕ × Unit {0} × World Store). Left x.2)
        (ino == dir || has_refs ino w.lib.entries || not (visible e))
        (ext2_et_file_not_found, tt, w)
        (
          0,
          tt,
          on_store
              (λ d. record (put_inode ino i d) { last_inode = ino; entries = d.entries ++ e ∷ [] })
              w,
        )
        (tt, ok)
        (
          tt,
          put-AllFit ino i w (link_inode-FitsLarge target (w.lib.inodes ino) text (ok.0 ino)) ok,
        );
}

-- The inode without its extra fields is written.
write-AllFit :
    (ino : Ino) (i : Inode) (w : World Store)
    → Fits i
    → Within AllFit w
    → Within AllFit (on_store (λ d. put_inode ino (record (d.inodes ino) { base = i }) d) w)
write-AllFit ino i w h ok =
    put-AllFit ino (record (w.lib.inodes ino) { base = i }) w
      (based-FitsLarge i (w.lib.inodes ino) h (ok.0 ino)) ok

iterate-Keeps :
    (P : Type 0) (dir : Ino) (flags : ℕ) (f : Visit P) (p : P)
    → KeepsCall AllFit Any (iterate dir flags f p)
unfolding iterate
iterate-Keeps P dir flags f p = record { at = λ w ok. (tt, ok) }

check-Keeps : (ino : Ino) → KeepsCall AllFit Any (check ino)
unfolding check
check-Keeps ino = record { at = λ w ok. (tt, ok) }

pub memory-WidthLaws : WidthLaws memory AllFit
memory-WidthLaws = record {
  fs_open = λ name flags. still 1 tt;
  fs_close = still tt tt;
  read_bitmaps = still tt tt;
  read_block_bitmap = record { at = λ w ok. (tt, ok) };
  flush = still tt tt;
  flush2 = λ flags. still tt tt;
  io_channel_discard = λ start n. record { at = λ w ok. (tt, ok) };
  io_channel_read_blk64 = λ block count. still [] tt;
  namei = find-Keeps;
  namei_follow = find-Keeps;
  link = add_entry-Keeps;
  unlink = drop_entry-Keeps;
  expand_dir = λ dir. still tt tt;
  mkdir = λ parent ino name. add_entry-Keeps parent name ino 2;
  symlink = λ parent ino name target text. make_link-Keeps parent name target text;
  check_directory = check-Keeps;
  dir_iterate = iterate-Keeps;
  dir_iterate2 = iterate-Keeps;
  new_inode = take_inode-Keeps;
  read_inode = λ ino. record { at = λ w ok. ((ok.0 ino).0, ok) };
  write_inode = λ ino i h. record { at = λ w ok. (tt, write-AllFit ino i w h ok) };
  write_new_inode = λ ino i h. record { at = λ w ok. (tt, write-AllFit ino i w h ok) };
  read_inode_full = λ ino. record { at = λ w ok. (ok.0 ino, ok) };
  write_inode_full = λ ino i h. record { at = λ w ok. (tt, put-AllFit ino i w h ok) };
  inode_alloc_stats2 = λ ino inuse isdir w ok. ok;
  inode_size_set = λ i size h. still i h;
  extent_open2 = λ ino i h. still i h;
  inline_data_init = λ ino. still tt tt;
  inline_data_get = λ ino i. still [] tt;
  free_ext_attr = λ ino i h. still i h;
  punch = λ ino i start end h. still i h;
  bmap2 = λ ino i block. still 0 tt;
  file_open = open_at-Keeps;
  file_close = λ file. still tt tt;
  file_read = λ file buf wanted. still wanted tt;
  file_write = λ file buf nbytes. still nbytes tt;
  file_flush = λ file. still tt tt;
  file_llseek = λ file offset whence. still tt tt;
  file_set_size2 = λ file size. still tt tt;
  get_mem = λ size. still tt tt;
  get_memzero = λ size. still tt tt;
  strdup_succeeds = record { at = λ w ok. (tt, ok) };
  clock_gettime = record { at = λ w ok. (tt, ok) };
  time = record { at = λ w ok. (tt, ok) };
}
