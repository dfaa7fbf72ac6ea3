-- ===== src/Js/Disk.antt =====
-- lib/disk.js: a disk of the caller, from an offset on; and the disks that the I/O manager finds by
-- their numbers in src/pre.js.
pub mod Partitions
use node_ext2fs.Base.{ℕ, ℤ, pos, ◌+ℤ◌, Bool, false, Option, none, some}
use node_ext2fs.Ext2.Filsys.{Bytes}
use node_ext2fs.Io.{Disks}
use node_ext2fs.Js.Objects.{Objects, get_object}

-- `disk` is the number of a disk that a caller gives.
pub record DiskWrapper : Type 0 where
  pub disk : ℕ
  pub offset : ℕ

module _ {S : Type 0} (disks : Disks S) where
  abbrev pub wrapper_read : DiskWrapper → (length file_offset : ℤ) → S → Option Bytes × S
  wrapper_read d length file_offset = disks.read d.disk length (file_offset +ℤ pos d.offset)

  abbrev pub wrapper_write : DiskWrapper → Bytes → (file_offset : ℤ) → S → Bool × S
  wrapper_write d buffer file_offset = disks.write d.disk buffer (file_offset +ℤ pos d.offset)

  abbrev pub wrapper_discard : DiskWrapper → (offset length : ℤ) → S → Bool × S
  wrapper_discard d offset length = disks.discard d.disk (offset +ℤ pos d.offset) length

  abbrev pub wrapper_flush : DiskWrapper → S → Bool × S
  wrapper_flush d = disks.flush d.disk

  -- A call of a disk that is not found throws, inside the `try` of the function that makes it.
  abbrev pub with_disk :
      {A : Type 0} → Option DiskWrapper → A → (DiskWrapper → S → A × S) → S → A × S
  with_disk none thrown f s = (thrown, s)
  with_disk (some d) thrown f s = f d s

  -- The disks as the functions of src/glue.c see them.
  unfoldable pub mounted : Objects DiskWrapper → Disks S
  mounted objects = record {
    read =
        λ id size offset. with_disk (get_object id objects) none (λ d. wrapper_read d size offset);
    write = λ id bytes offset.
        with_disk (get_object id objects) false (λ d. wrapper_write d bytes offset);
    discard = λ id offset size.
        with_disk (get_object id objects) false (λ d. wrapper_discard d offset size);
    flush = λ id. with_disk (get_object id objects) false wrapper_flush;
  }
