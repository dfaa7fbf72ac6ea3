-- ===== src/Io/Written.antt =====
-- What libext2fs writes to a disk through the table of the I/O manager, it reads back.
use node_ext2fs.Base.{
  ℕ, zero, suc, Option, pos, ◌*◌, ◌^◌, ◌<◌, Bool, true, some, length, ◌≡◌, refl, ap, false, sym,
  ◌∙◌, arith,
}
use mathlib.Core.Option
use mathlib.Core.Option.{some_inj}
use node_ext2fs.Ext2.Errors.{ext2_et_magic_io_channel}
use node_ext2fs.Ext2.Filsys.{Bytes}
use node_ext2fs.Io.{
  Disks, IoChannel, status, read_status, js_open_entry, set_blksize, js_write_blk64_entry,
}
use node_ext2fs.Io.Manager.{IoManager, get_js_io_manager}
use node_ext2fs.Io.Ranges.{js_entries-ranges, js_open_entry-sprintf_d}
use node_ext2fs.Mount.{sprintf_d}

-- A disk gives back what was written to it last.
pub record WriteLaws {S : Type 0} (disks : Disks S) : Type 0 where
  pub read_written :
      (id : ℕ) (bytes : Bytes) (offset : ℕ) (s : S)
      → (disks.write id bytes (pos offset) s).0 ≡ true
      → (disks.read id (pos (length bytes)) (pos offset) (disks.write id bytes (pos offset) s).1).0
        ≡ some bytes

-- The channel that the manager opens for a disk's number, once its block size is set.
abbrev pub opened : {S : Type 0} → IoManager S → (id flags blksize : ℕ) → Option IoChannel
opened m id flags blksize =
    Option.map (λ c. (m.set_blksize c blksize).1) (m.open_channel (sprintf_d id) flags).1

status-zero : (b : Bool) → status b ≡ 0 → b ≡ true
status-zero true h = refl
status-zero false h = ground arith

opened-channel :
    {S : Type 0} (disks : Disks S) (get_mem free_mem id flags bs : ℕ) (channel : IoChannel)
    → id < 10 ^ 10
    → opened (get_js_io_manager disks get_mem free_mem) id flags bs ≡ some channel
    → channel ≡ record { magic = ext2_et_magic_io_channel; block_size = bs; private_data = id }
unfolding set_blksize js_open_entry
opened-channel disks zero free_mem id flags bs channel small h =
    let e =
      ap (λ x. Option.map (λ c. (set_blksize c bs).1) x.1) (js_open_entry-sprintf_d id small) in
    some_inj.0 (sym h ∙ e)
opened-channel disks (suc n) free_mem id flags bs channel small h = ground arith

module _ {S : Type 0} (disks : Disks S) (laws : WriteLaws disks) (get_mem free_mem : ℕ) where
  -- If the manager opens a channel for a disk's number below 10^10, the block size that is then set is
  -- below 2^15, and the block number and the count are below 2^31, then a write of as many bytes as
  -- those blocks have, if it returns 0, is read back: a read of the same blocks after it returns 0 and
  -- those bytes.
  -- It assumes that a disk gives back what was written to it last (WriteLaws).
  pub get_js_io_manager-written :
      (id flags bs block count : ℕ) (bytes : Bytes) (s : S) (channel : IoChannel)
      → id < 10 ^ 10
      → bs < 2 ^ 15
      → block < 2 ^ 31
      → count < 2 ^ 31
      → length bytes ≡ count * bs
      → let m = get_js_io_manager disks get_mem free_mem in
        opened m id flags bs ≡ some channel
        → (m.write_blk64 channel block count bytes s).0 ≡ 0
        → let (e, read, _) =
            m.read_blk64 channel block count (m.write_blk64 channel block count bytes s).1 in
          (e ≡ 0) × (read ≡ some bytes)
  get_js_io_manager-written id flags bs block count bytes s channel i b l c len o w =
      let bs_eq : channel.block_size ≡ bs =
        ap (λ c. c.block_size) (opened-channel disks get_mem free_mem id flags bs channel i o) in
      let small : channel.block_size < 2 ^ 15 = rw bs_eq b in
      let len' : length bytes ≡ count * channel.block_size = rw bs_eq len in
      let s' = (js_write_blk64_entry disks channel block count bytes s).1 in
      let (_, wrote, _) = js_entries-ranges disks channel block count small l c bytes s len' in
      let (reads, _, _) = js_entries-ranges disks channel block count small l c bytes s' len' in
      let offset = block * channel.block_size in
      let id' = channel.private_data in
      let done =
        status-zero (disks.write id' bytes (pos offset) s).0 (ap (λ x. x.0) (sym wrote) ∙ w) in
      let at : s' ≡ (disks.write id' bytes (pos offset) s).1 = ap (λ x. x.1) wrote in
      let back : (disks.read id' (pos (count * channel.block_size)) (pos offset) s').0
          ≡ some bytes =
        rw (at, ← len') (laws.read_written id' bytes offset s done) in
      (ap (λ x. x.0) reads ∙ ap read_status back, ap (λ x. x.1) reads ∙ back)
