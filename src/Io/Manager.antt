-- ===== src/Io/Manager.antt =====
-- The table of the I/O manager of src/glue.c, through which libext2fs calls its functions.
use node_ext2fs.Base.{ℕ, Option, none}
use Prim.Native.String.{String}
use node_ext2fs.Ext2.Errors.{ext2_et_magic_io_manager}
use node_ext2fs.Ext2.Filsys.{Bytes}
use node_ext2fs.Io.{
  Disks, IoChannel, js_open_entry, set_blksize, js_read_blk_entry, js_write_blk_entry,
  js_flush_entry, js_read_blk64_entry, js_write_blk64_entry, js_discard_entry,
  js_cache_readahead_entry, js_zeroout_entry,
}

-- `struct struct_io_manager`: `none` is a null pointer. An entry that gives a channel back changes
-- nothing else; the others change the disks.
pub record IoManager (S : Type 0) : Type 0 where
  pub magic : ℕ
  pub name : String
  pub open_channel : (disk_id_str : Bytes) (flags : ℕ) → ℕ × Option IoChannel
  pub close_channel : IoChannel → ℕ
  pub set_blksize : IoChannel → (blksize : ℕ) → ℕ × IoChannel
  pub read_blk : IoChannel → (block count : ℕ) → S → ℕ × Option Bytes × S
  pub write_blk : IoChannel → (block count : ℕ) → Bytes → S → ℕ × S
  pub flush : IoChannel → S → ℕ × S
  pub write_byte : Option (IoChannel → (offset count : ℕ) → Bytes → S → ℕ × S)
  pub set_option : Option (IoChannel → (option arg : Bytes) → S → ℕ × S)
  pub get_stats : Option (IoChannel → S → ℕ × S)
  pub read_blk64 : IoChannel → (block count : ℕ) → S → ℕ × Option Bytes × S
  pub write_blk64 : IoChannel → (block count : ℕ) → Bytes → S → ℕ × S
  pub discard : IoChannel → (block count : ℕ) → S → ℕ × S
  pub cache_readahead : IoChannel → (block count : ℕ) → S → ℕ × S
  pub zeroout : IoChannel → (block count : ℕ) → S → ℕ × S

-- `free_mem` is the error code of `ext2fs_free_mem`.
abbrev pub js_close_entry : (free_mem : ℕ) → IoChannel → ℕ
js_close_entry free_mem channel = free_mem

-- What is not set in the global variable is null. `get_mem` and `free_mem` are the error codes of
-- the library's functions of those names.
abbrev pub get_js_io_manager : {S : Type 0} → Disks S → (get_mem free_mem : ℕ) → IoManager S
get_js_io_manager disks get_mem free_mem = record {
  magic = ext2_et_magic_io_manager;
  name = "JavaScript IO Manager";
  open_channel = λ disk_id_str flags. js_open_entry get_mem disk_id_str;
  close_channel = js_close_entry free_mem;
  set_blksize = set_blksize;
  read_blk = js_read_blk_entry disks;
  write_blk = js_write_blk_entry disks;
  flush = js_flush_entry disks;
  write_byte = none;
  set_option = none;
  get_stats = none;
  read_blk64 = js_read_blk64_entry disks;
  write_blk64 = js_write_blk64_entry disks;
  discard = js_discard_entry disks;
  cache_readahead = js_cache_readahead_entry disks;
  zeroout = js_zeroout_entry disks;
}
