-- ===== src/Tests/OneDisk.antt =====
-- A disk in memory, for the I/O manager.
use node_ext2fs.Base.{
  ℕ, zero, suc, pos_part, ◌+◌, ◌-◌, true, some, [], ◌∷◌, ◌&&◌, ltb, leb, length, if◌then◌else◌,
}
use node_ext2fs.Ext2.Filsys.{Bytes}
use node_ext2fs.Io.{Disks}

abbrev pub bytes_from : (ℕ → ℕ) → (offset size : ℕ) → Bytes
bytes_from s offset zero = []
bytes_from s offset (suc n) = s offset ∷ bytes_from s (offset + 1) n

abbrev pub byte_at : Bytes → ℕ → ℕ
byte_at [] n = 0
byte_at (b ∷ bs) zero = b
byte_at (b ∷ bs) (suc n) = byte_at bs n

-- One disk whose bytes can all be read and written, and are zero where they were discarded.
abbrev pub one_disk : Disks (ℕ → ℕ)
one_disk = record {
  read = λ id size offset s. (some (bytes_from s (pos_part offset) (pos_part size)), s);
  write = λ id bytes offset s. (
    true,
    λ n.
        if leb (pos_part offset) n && ltb n (pos_part offset + length bytes)
        then byte_at bytes (n - pos_part offset)
        else s n,
  );
  discard = λ id offset size s. (
    true,
    λ n. if leb (pos_part offset) n && ltb n (pos_part offset + pos_part size) then 0 else s n,
  );
  flush = λ id s. (true, s);
}
