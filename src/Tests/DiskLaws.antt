-- ===== src/Tests/DiskLaws.antt =====
-- The disk in memory gives back what was written to it; the I/O manager on it.
use node_ext2fs.Base.{
  zero, ◌≤◌, inl, length-replicate, ℕ, suc, ◌+◌, ◌<◌, [], ◌∷◌, some, length, replicate, ◌≡◌, refl,
  ap, ◌∙◌, arith,
}
use node_ext2fs.Mount.{sprintf_d}
use node_ext2fs.Ext2.Errors.{ext2_et_magic_io_channel}
use node_ext2fs.Ext2.Filsys.{Bytes}
use node_ext2fs.Io.{
  IoChannel, js_open_entry, set_blksize, js_write_blk64_entry, js_read_blk64_entry,
}
use node_ext2fs.Io.Manager.{get_js_io_manager}
use node_ext2fs.Io.Written.{WriteLaws, get_js_io_manager-written}
use node_ext2fs.Js.Disk.{DiskWrapper, mounted}
use node_ext2fs.Js.Disk.Partitions.{DisjointLaws, js_write_blk64_entry-other}
use node_ext2fs.Js.Objects.{Objects, no_objects, set_object}
use node_ext2fs.Tests.OneDisk.{one_disk, bytes_from, byte_at}
use node_ext2fs.Tests.World.{disk}

-- Bytes that are on the disk, one by one, are read there.
bytes_from-byte_at :
    (d : ℕ → ℕ) (offset : ℕ) (bytes : Bytes)
    → ((k : ℕ) → k < length bytes → d (offset + k) ≡ byte_at bytes k)
    → bytes_from d offset (length bytes) ≡ bytes
bytes_from-byte_at d offset [] h = refl
bytes_from-byte_at d offset (b ∷ bytes) h =
    let here : d offset ≡ b = ap d (omega arith) ∙ h 0 (omega arith) in
    let rest =
      bytes_from-byte_at d (offset + 1) bytes
        λ k small. ap d (omega arith) ∙ h (suc k) (omega arith) in
    rw (here, rest) refl

one_disk-WriteLaws : WriteLaws one_disk
one_disk-WriteLaws = record {
  read_written =
      λ id bytes offset d h. ap some (bytes_from-byte_at _ offset bytes λ k small. ground arith);
}

-- Bytes that did not change are read as they were.
bytes_from-same :
    (d d' : ℕ → ℕ) (offset size : ℕ)
    → ((n : ℕ) → offset ≤ n → n < offset + size → d n ≡ d' n)
    → bytes_from d offset size ≡ bytes_from d' offset size
bytes_from-same d d' offset zero h = refl
bytes_from-same d d' offset (suc size) h =
    let here : d offset ≡ d' offset = h offset (omega arith) (omega arith) in
    let rest =
      bytes_from-same d d' (offset + 1) size
        λ n low high. h n (omega (arith, low)) (omega (arith, high)) in
    rw (here, rest) refl

one_disk-DisjointLaws : DisjointLaws one_disk
one_disk-DisjointLaws = record {
  read_other = λ id bytes offset size at d apart.
      ap some (bytes_from-same _ d at size λ n low high. ground (arith, apart, low, high));
}

-- The channel of disk 3, with blocks of 1024 bytes.
abbrev disk_channel : IoChannel
disk_channel = record { magic = ext2_et_magic_io_channel; block_size = 1024; private_data = 3 }

get_js_io_manager-written_example :
    let m = get_js_io_manager one_disk 0 0 in
    let wrote = (m.write_blk64 disk_channel 5 1 (replicate 1024 7) disk).1 in
    let (e, read, _) = m.read_blk64 disk_channel 5 1 wrote in
    (e ≡ 0) × (read ≡ some (replicate 1024 7))
unfolding js_open_entry set_blksize sprintf_d js_write_blk64_entry
get_js_io_manager-written_example =
    get_js_io_manager-written one_disk one_disk-WriteLaws 0 0 3 0 1024 5 1 (replicate 1024 7) disk
      disk_channel (omega arith) (omega arith) (omega arith) (omega arith) refl refl refl

-- Two wrappers of one disk, 4096 bytes apart, and the channels of the two, with blocks of 1024 bytes.
abbrev two_wrappers : Objects DiskWrapper
two_wrappers =
    let first : Objects DiskWrapper = (set_object (record { disk = 0; offset = 0 }) no_objects).1 in
    (set_object (record { disk = 0; offset = 4096 }) first).1

abbrev channel_of : ℕ → IoChannel
channel_of id = record { magic = ext2_et_magic_io_channel; block_size = 1024; private_data = id }

js_write_blk64_entry-other_example :
    let m = mounted one_disk two_wrappers in
    (js_read_blk64_entry m
      (channel_of 2)
      0
      1
      (js_write_blk64_entry m (channel_of 1) 2 2 (replicate 2048 7) disk).1).1
    ≡ (js_read_blk64_entry m (channel_of 2) 0 1 disk).1
unfolding set_object
js_write_blk64_entry-other_example =
    js_write_blk64_entry-other one_disk two_wrappers one_disk-DisjointLaws (channel_of 1)
      (channel_of 2) (record { disk = 0; offset = 0 }) (record { disk = 0; offset = 4096 }) 2 2 0 1
      (replicate 2048 7) disk refl refl refl (omega arith, omega arith, omega arith)
      (omega arith, omega arith, omega arith) (length-replicate {A = ℕ} 2048 7) (inl (omega arith))
