-- ===== src/Js/Disk/Partitions.antt =====
-- Filesystems at different offsets of one disk.
use node_ext2fs.Base.{
  ℕ, pos, ◌+◌, ◌*◌, ◌^◌, ◌<◌, ◌≤◌, ◌+ℤ◌, false, none, some, length, length-replicate, replicate,
  ◌⊎◌, inl, inr, ◌≡◌, sym, ap, ◌∙◌, arith, Option-cases,
}
use node_ext2fs.Ext2.Filsys.{Bytes}
use node_ext2fs.Io.{Disks, IoChannel, js_read_blk64_entry, js_write_blk64_entry}
use node_ext2fs.Io.Ranges.{js_entries-ranges}
use node_ext2fs.Io.Written.{WriteLaws}
use node_ext2fs.Js.Disk.{DiskWrapper, mounted, with_disk, wrapper_read, wrapper_write}
use node_ext2fs.Js.Objects.{Objects, get_object}

-- A write to a disk leaves its other bytes as they were.
pub record DisjointLaws {S : Type 0} (disks : Disks S) : Type 0 where
  pub read_other :
      (id : ℕ) (bytes : Bytes) (offset size at : ℕ) (s : S)
      → (offset + length bytes ≤ at) ⊎ (at + size ≤ offset)
      → (disks.read id (pos size) (pos at) (disks.write id bytes (pos offset) s).1).0
        ≡ (disks.read id (pos size) (pos at) s).0

pos-+ℤ : (m n : ℕ) → pos m +ℤ pos n ≡ pos (m + n)
pos-+ℤ m n = ground arith

module _ {S : Type 0} (disks : Disks S) (objects : Objects DiskWrapper) where
  mounted-read :
      (id : ℕ) (d : DiskWrapper) (size offset : ℕ) (s : S)
      → get_object id objects ≡ some d
      → (mounted disks objects).read id (pos size) (pos offset) s
        ≡ disks.read d.disk (pos size) (pos (offset + d.offset)) s
  unfolding mounted
  mounted-read id d size offset s found =
      ap (λ o. with_disk disks o none (λ d. wrapper_read disks d (pos size) (pos offset)) s) found
      ∙ ap (λ k. disks.read d.disk (pos size) k s) (pos-+ℤ offset d.offset)

  mounted-write :
      (id : ℕ) (d : DiskWrapper) (bytes : Bytes) (offset : ℕ) (s : S)
      → get_object id objects ≡ some d
      → (mounted disks objects).write id bytes (pos offset) s
        ≡ disks.write d.disk bytes (pos (offset + d.offset)) s
  unfolding mounted
  mounted-write id d bytes offset s found =
      ap (λ o. with_disk disks o false (λ d. wrapper_write disks d bytes (pos offset)) s) found
      ∙ ap (λ k. disks.write d.disk bytes k s) (pos-+ℤ offset d.offset)

  mounted-write_none :
      (id : ℕ) (bytes : Bytes) (offset : ℕ) (s : S)
      → get_object id objects ≡ none
      → ((mounted disks objects).write id bytes (pos offset) s).0 ≡ false
  unfolding mounted
  mounted-write_none id bytes offset s missing =
      ap (λ o. (with_disk disks o false (λ d. wrapper_write disks d bytes (pos offset)) s).0)
        missing

  -- The wrapped disks give back what was written to them last, if the disks do.
  mounted-WriteLaws : WriteLaws disks → WriteLaws (mounted disks objects)
  mounted-WriteLaws laws = record {
    read_written = λ id bytes offset s done. elim (Option-cases (get_object id objects)) [
      | inl missing ↦ absurd (cc (done, mounted-write_none id bytes offset s missing))
      | inr (d, found) ↦
          let wrote = mounted-write id d bytes offset s found in
          let s' = ((mounted disks objects).write id bytes (pos offset) s).1 in
          ap (λ x. x.0) (mounted-read id d (length bytes) offset s' found)
          ∙ ap (λ x. (disks.read d.disk (pos (length bytes)) (pos (offset + d.offset)) x.1).0) wrote
          ∙ laws.read_written d.disk bytes (offset + d.offset) s (ap (λ x. x.0) (sym wrote) ∙ done)
    ];
  }

  -- If two channels are those of two wrappers of the same disk, with block sizes below 2^15, and block
  -- numbers and counts below 2^31, and the blocks of the one end on that disk before those of the other
  -- begin, then a write of as many bytes as its blocks have through the one leaves what a read through
  -- the other gives as it was.
  -- It assumes that a write to a disk leaves its other bytes as they were (DisjointLaws).
  pub js_write_blk64_entry-other :
      (laws : DisjointLaws disks) (c c' : IoChannel) (d d' : DiskWrapper)
      (block count block' count' : ℕ) (bytes : Bytes) (s : S)
      → get_object c.private_data objects ≡ some d
      → get_object c'.private_data objects ≡ some d'
      → d.disk ≡ d'.disk
      → (c.block_size < 2 ^ 15) × (block < 2 ^ 31) × (count < 2 ^ 31)
      → (c'.block_size < 2 ^ 15) × (block' < 2 ^ 31) × (count' < 2 ^ 31)
      → length bytes ≡ count * c.block_size
      → (d.offset + (block + count) * c.block_size ≤ d'.offset + block' * c'.block_size)
        ⊎ (d'.offset + (block' + count') * c'.block_size ≤ d.offset + block * c.block_size)
      → let m = mounted disks objects in
        (js_read_blk64_entry m c' block' count' (js_write_blk64_entry m c block count bytes s).1).1
        ≡ (js_read_blk64_entry m c' block' count' s).1
  js_write_blk64_entry-other laws c c' d d' block count block' count' bytes s found found' same
        (b, l, f) (b', l', f') len apart =
      let m = mounted disks objects in
      let at = block * c.block_size in
      let at' = block' * c'.block_size in
      let size = count' * c'.block_size in
      let s' = (js_write_blk64_entry m c block count bytes s).1 in
      let (_, wrote, _) = js_entries-ranges m c block count b l f bytes s len in
      let written : s' ≡ (disks.write d.disk bytes (pos (at + d.offset)) s).1 =
        ap (λ x. x.1) wrote ∙ ap (λ x. x.1) (mounted-write c.private_data d bytes at s found) in
      let reads : (t : S)
          → (js_read_blk64_entry m c' block' count' t).1
            ≡ (disks.read d'.disk (pos size) (pos (at' + d'.offset)) t).0 =
        λ t.
          let (is, _, _) =
            js_entries-ranges m c' block' count' b' l' f' (replicate size 0) t
              (length-replicate size 0) in
          ap (λ x. x.1) is ∙ ap (λ x. x.0) (mounted-read c'.private_data d' size at' t found') in
      reads s'
      ∙ ap (λ x. (disks.read d'.disk (pos size) (pos (at' + d'.offset)) x).0) written
      ∙ ap
          (λ k.
            (disks.read k (pos size) (pos (at' + d'.offset))
              (disks.write d.disk bytes (pos (at + d.offset)) s).1).0)
          (sym same)
      ∙ laws.read_other d.disk bytes (at + d.offset) size (at' + d'.offset) s (ranges apart)
      ∙ ap (λ k. (disks.read k (pos size) (pos (at' + d'.offset)) s).0) same
      ∙ sym (reads s)
    where
      ranges :
          (d.offset + (block + count) * c.block_size ≤ d'.offset + block' * c'.block_size)
            ⊎ (d'.offset + (block' + count') * c'.block_size ≤ d.offset + block * c.block_size)
          → (block * c.block_size + d.offset + length bytes ≤ block' * c'.block_size + d'.offset)
            ⊎ (block' * c'.block_size + d'.offset + count' * c'.block_size
                ≤ block * c.block_size + d.offset)
      ranges (inl before) = inl (omega (arith, before, len))
      ranges (inr behind) = inr (omega (arith, behind))
