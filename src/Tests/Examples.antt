-- ===== src/Tests/Examples.antt =====
-- The theorems at inputs that meet their hypotheses.
use node_ext2fs.Base.{pos, neg, signed32, replicate, true, ◌≡◌, refl, arith, if◌then◌else◌}
use node_ext2fs.Ext2.Filsys.{ext2fs_mark_super_dirty}
use node_ext2fs.Ext2.Errors.{ext2_et_dir_no_space}
use node_ext2fs.Tests.Memory.{memory, stored, find, check, open_at}
use node_ext2fs.Tests.MemoryLaws.{memory-InodeLaws, memory-DiscardLaws}
use node_ext2fs.Tests.OneDisk.{one_disk}
use node_ext2fs.Ext2.Modes.{o_wronly, o_directory}
use node_ext2fs.Files.{
  open_inode, translate_open_flags, node_ext2fs_open, node_ext2fs_write, node_ext2fs_chmod,
  no_position,
}
use node_ext2fs.Files.Guards.{may_open, node_ext2fs_open-may_open, node_ext2fs_write-flush}
use node_ext2fs.Files.Stored.{chmodded, node_ext2fs_chmod-stored}
use node_ext2fs.Io.{
  js_read_blk_entry, js_read_blk64_entry, js_write_blk64_entry, js_discard_entry, status,
  read_status,
}
use node_ext2fs.Io.Ranges.{js_entries-ranges, js_read_blk_entry-64k}
use node_ext2fs.Paths.{string_to_inode}
use node_ext2fs.Times.{get_atime, set_atime, get_mtime, set_mtime}
use node_ext2fs.Times.Extra.{get_xtime-set_xtime}
use node_ext2fs.Translate.{translate_error}
use node_ext2fs.Translate.Codes.{errno_of, translate_error-errno_of}
use node_ext2fs.Trim.{load_bitmap, node_ext2fs_trim}
use node_ext2fs.Trim.Exact.{TrimDone, node_ext2fs_trim-TrimDone}
use node_ext2fs.Tests.World.{codes, large, store, world, channel, channel_64k, disk, stamp}

node_ext2fs_trim-TrimDone_example :
    TrimDone memory
      (λ w. w.lib.discarded)
      (load_bitmap memory world).1
      3
      (node_ext2fs_trim memory 20 world)
unfolding load_bitmap
node_ext2fs_trim-TrimDone_example =
    node_ext2fs_trim-TrimDone memory (λ w. w.lib.discarded) memory-DiscardLaws 20 3 world
      (omega arith) (omega arith)

translate_error-errno_of_example : translate_error memory 12 ext2_et_dir_no_space world ≡ (
  neg (errno_of memory ext2_et_dir_no_space).0,
  if (errno_of memory ext2_et_dir_no_space).1
      then (memory.flush (ext2fs_mark_super_dirty world)).2
      else world,
)
translate_error-errno_of_example =
    translate_error-errno_of memory 12 ext2_et_dir_no_space world (omega arith)

get_xtime-set_xtime_example :
    (get_atime (set_atime stamp (large 0o100644 1)) ≡ stamp)
    × (get_mtime (set_mtime stamp (large 0o100644 1)) ≡ stamp)
get_xtime-set_xtime_example =
    get_xtime-set_xtime stamp (large 0o100644 1) (omega arith, omega arith, omega arith)
      (omega arith)

node_ext2fs_open-may_open_example : may_open memory world (codes "/d") o_directory 0 ≡ true
unfolding string_to_inode find node_ext2fs_open open_inode translate_open_flags check open_at
node_ext2fs_open-may_open_example =
    node_ext2fs_open-may_open memory world (codes "/d") o_directory 0 refl

node_ext2fs_write-flush_example :
    (node_ext2fs_write memory 12 o_wronly 64 100 no_position world).0 ≡ signed32 100
node_ext2fs_write-flush_example =
    node_ext2fs_write-flush memory world 12 o_wronly 64 100 refl refl refl refl

node_ext2fs_chmod-stored_example :
    stored (node_ext2fs_chmod memory 12 0o755 world).1.lib 12 ≡ chmodded 0o755 (stored store 12)
unfolding node_ext2fs_chmod
node_ext2fs_chmod-stored_example =
    node_ext2fs_chmod-stored memory stored memory-InodeLaws 12 world 0o755 (omega arith) refl

js_entries-ranges_example :
    (js_read_blk64_entry one_disk channel 7 1 disk ≡ (
      read_status (one_disk.read 3 (pos 1024) (pos 7168) disk).0,
      (one_disk.read 3 (pos 1024) (pos 7168) disk).0,
      (one_disk.read 3 (pos 1024) (pos 7168) disk).1,
    ))
    × (js_write_blk64_entry one_disk channel 7 1 (replicate 1024 5) disk ≡ (
      status (one_disk.write 3 (replicate 1024 5) (pos 7168) disk).0,
      (one_disk.write 3 (replicate 1024 5) (pos 7168) disk).1,
    ))
    × (js_discard_entry one_disk channel 7 1 disk ≡ (
      status (one_disk.discard 3 (pos 7168) (pos 1024) disk).0,
      (one_disk.discard 3 (pos 7168) (pos 1024) disk).1,
    ))
js_entries-ranges_example =
    js_entries-ranges one_disk channel 7 1 (omega arith) (omega arith) (omega arith)
      (replicate 1024 5) disk refl

js_read_blk_entry-64k_example : js_read_blk_entry one_disk channel_64k 7 2 disk ≡ (
  read_status (one_disk.read 3 (pos 0) (pos 0) disk).0,
  (one_disk.read 3 (pos 0) (pos 0) disk).0,
  (one_disk.read 3 (pos 0) (pos 0) disk).1,
)
js_read_blk_entry-64k_example =
    js_read_blk_entry-64k one_disk channel_64k 7 2 disk refl (omega arith)
