-- ===== src/Io.antt =====
-- The JavaScript I/O manager of src/glue.c: how libext2fs reads and writes the disk. A number that
-- crosses from C to JavaScript has 32 bits and a sign.
pub mod Manager
pub mod Ranges
pub mod Written
use node_ext2fs.Base.{
  ℕ, ℤ, pos, negsuc, pos_part, neg_part, is_neg, neg, signed32, wrap, ◌+◌, ◌-◌, ◌*◌, ◌*ℤ◌, ◌%◌, ◌^◌,
  Bool, true, false, Option, none, some, List, take, replicate, ltb, ◌==◌, if◌then◌else◌,
}
use node_ext2fs.Ext2.Errors.{eio, ext2_et_magic_io_channel, ext2_et_magic_io_manager}
use node_ext2fs.Ext2.Filsys.{Bytes}
use node_ext2fs.Mount.{sscanf_d}

-- The disks behind the object ids (lib/disk.js and what the caller of the package gives): `none`
-- and `false` are exceptions.
pub record Disks (S : Type 0) : Type 0 where
  pub read : (disk_id : ℕ) (size offset : ℤ) → S → Option Bytes × S
  pub write : (disk_id : ℕ) → Bytes → (offset : ℤ) → S → Bool × S
  pub discard : (disk_id : ℕ) (offset size : ℤ) → S → Bool × S
  pub flush : (disk_id : ℕ) → S → Bool × S

-- `struct struct_io_channel`, the fields that the manager sets and reads. `block_size` is an `int`,
-- as its 32-bit pattern.
pub record IoChannel : Type 0 where
  pub magic : ℕ
  pub block_size : ℕ
  pub private_data : ℕ

-- The conversion of an `int` to the `short` that the JavaScript functions take.
abbrev pub to_short : ℕ → ℤ
to_short n = let m = n % 2 ^ 16 in if ltb m (2 ^ 15) then pos m else negsuc (2 ^ 16 - 1 - m)

-- Where a transfer begins and how long it is: a negative count is a number of bytes.
unfoldable pub byte_offset : (block_size : ℤ) (block : ℕ) → ℤ
byte_offset block_size block = signed32 block *ℤ block_size

unfoldable pub byte_size : (block_size : ℤ) (count : ℕ) → ℤ
byte_size block_size count =
    if is_neg (signed32 count)
    then pos (neg_part (signed32 count))
    else signed32 count *ℤ block_size

abbrev pub status : Bool → ℕ
status true = 0
status false = eio

abbrev pub read_status : Option Bytes → ℕ
read_status (some bytes) = 0
read_status none = eio

module _ {S : Type 0} (disks : Disks S) where
  -- The value is the error code and what was read.
  unfoldable pub blk_read :
      (disk_id : ℕ) (block_size : ℤ) (block count : ℕ) → S → ℕ × Option Bytes × S
  blk_read disk_id block_size block count s =
      let (r, s') =
        disks.read disk_id (byte_size block_size count) (byte_offset block_size block) s in
      (read_status r, r, s')

  -- JavaScript sees as many bytes of the memory at `bytes` as the transfer is long.
  unfoldable pub blk_write : (disk_id : ℕ) (block_size : ℤ) (block count : ℕ) → Bytes → S → ℕ × S
  blk_write disk_id block_size block count bytes s =
      let size = byte_size block_size count in
      let (r, s') =
        disks.write disk_id (take (pos_part size) bytes) (byte_offset block_size block) s in
      (status r, s')

  unfoldable pub discard : (disk_id : ℕ) (block_size : ℤ) (block count : ℕ) → S → ℕ × S
  discard disk_id block_size block count s =
      let (r, s') =
        disks.discard disk_id (byte_offset block_size block) (byte_size block_size count) s in
      (status r, s')

  unfoldable pub flush : (disk_id : ℕ) → S → ℕ × S
  flush disk_id s = let (r, s') = disks.flush disk_id s in (status r, s')

  unfoldable pub js_read_blk_entry : IoChannel → (block count : ℕ) → S → ℕ × Option Bytes × S
  unfolding blk_read
  js_read_blk_entry channel = blk_read channel.private_data (to_short channel.block_size)

  unfoldable pub js_write_blk_entry : IoChannel → (block count : ℕ) → Bytes → S → ℕ × S
  unfolding blk_write
  js_write_blk_entry channel = blk_write channel.private_data (to_short channel.block_size)

  unfoldable pub js_flush_entry : IoChannel → S → ℕ × S
  unfolding flush
  js_flush_entry channel = flush channel.private_data

  -- `unsigned long long block` becomes the `unsigned long` of the function that it calls.
  unfoldable pub js_read_blk64_entry : IoChannel → (block count : ℕ) → S → ℕ × Option Bytes × S
  unfolding js_read_blk_entry
  js_read_blk64_entry channel block count = js_read_blk_entry channel (block % 2 ^ 32) count

  unfoldable pub js_write_blk64_entry : IoChannel → (block count : ℕ) → Bytes → S → ℕ × S
  unfolding js_write_blk_entry
  js_write_blk64_entry channel block count = js_write_blk_entry channel (block % 2 ^ 32) count

  unfoldable pub js_discard_entry : IoChannel → (block count : ℕ) → S → ℕ × S
  unfolding discard
  js_discard_entry channel block count =
      discard channel.private_data (to_short channel.block_size) (block % 2 ^ 32) (count % 2 ^ 32)

  unfoldable pub js_cache_readahead_entry : IoChannel → (block count : ℕ) → S → ℕ × S
  js_cache_readahead_entry channel block count s = (0, s)

  -- An unsigned count is never negative; the size has 64 bits, and 32 for `malloc` and `memset`.
  unfoldable pub js_zeroout_entry : IoChannel → (block count : ℕ) → S → ℕ × S
  unfolding blk_write discard
  js_zeroout_entry channel block count s =
      let size = count * wrap 64 (signed32 channel.block_size) % 2 ^ 64 in
      let bytes = replicate (size % 2 ^ 32) 0 in
      let short = to_short channel.block_size in
      let (e, s₁) =
        blk_write channel.private_data short (block % 2 ^ 32) (count % 2 ^ 32) bytes s in
      if e == 0
      then discard channel.private_data short (block % 2 ^ 32) (count % 2 ^ 32) s₁
      else (e, s₁)

-- `get_mem` is the error code of `ext2fs_get_mem`. The channel's block size is zero at first.
unfoldable pub js_open_entry : (get_mem : ℕ) → (disk_id_str : Bytes) → ℕ × Option IoChannel
unfolding sscanf_d
js_open_entry get_mem disk_id_str =
    if get_mem == 0
    then (
      0,
      some (record {
        magic = ext2_et_magic_io_channel;
        block_size = 0;
        private_data = sscanf_d 0 disk_id_str;
      }),
    )
    else (get_mem, none)

unfoldable pub set_blksize : IoChannel → (blksize : ℕ) → ℕ × IoChannel
set_blksize channel blksize = (0, record channel { block_size = blksize })
