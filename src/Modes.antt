-- ===== src/Modes.antt =====
-- The mode of an inode under `node_ext2fs_chmod`, and the type of its directory entry.
use node_ext2fs.Base.{ℕ, ◌+◌, ◌*◌, ◌/◌, ◌%◌, ◌^◌, ◌<◌, bit_and, bit_or, ◌≡◌, refl, arith}
use node_ext2fs.Base.Bits.{
  bit_and_split, bit_and-zero, bit_or_split, bit_or_high_low, bit_or_low_high, bit_or-zero,
  bit_and_ones,
}
use node_ext2fs.FileType.{ext2_file_type}
use node_ext2fs.Ext2.Modes.{linux_s_ifmt, not_linux_s_ifmt}

-- The type bits of a 16-bit mode are its upper four bits.
and_ifmt : (m : ℕ) → m < 2 ^ 16 → bit_and m linux_s_ifmt ≡ m / 2 ^ 12 * 2 ^ 12
and_ifmt m h = ground (
  arith,
  bit_and_split 12 (m / 2 ^ 12) 15 (m % 2 ^ 12) 0,
  bit_and-zero (m % 2 ^ 12),
  bit_and_ones 4 (m / 2 ^ 12),
)

-- The other bits, in 16 bits.
and_not_ifmt : (m : ℕ) → bit_and m not_linux_s_ifmt % 2 ^ 16 ≡ m % 2 ^ 12
and_not_ifmt m = ground (
  arith,
  bit_and_split 12 (m / 2 ^ 12) 0xffff0 (m % 2 ^ 12) 0xfff,
  bit_and_ones 12 (m % 2 ^ 12),
  bit_and_split 4 (m / 2 ^ 16) 0xffff (m / 2 ^ 12 % 16) 0,
  bit_and-zero (m / 2 ^ 12 % 16),
)

-- A new inode has the type that it is given and the other twelve bits from the argument.
pub typed_bits :
    (t mode : ℕ)
    → t < 16
    → bit_or (bit_and mode not_linux_s_ifmt) (t * 2 ^ 12) % 2 ^ 16 ≡ t * 2 ^ 12 + mode % 2 ^ 12
typed_bits t mode h = ground (
  arith,
  and_not_ifmt mode,
  bit_or_split 16 (bit_and mode not_linux_s_ifmt / 2 ^ 16) 0 (mode % 2 ^ 12) (t * 2 ^ 12),
  bit_or-zero (bit_and mode not_linux_s_ifmt / 2 ^ 16),
  bit_or_low_high 12 t (mode % 2 ^ 12),
)

-- `chmod` keeps the type bits and takes the other twelve from its argument.
pub chmod_bits :
    (m mode : ℕ)
    → m < 2 ^ 16
    → bit_or (bit_and m linux_s_ifmt) (bit_and mode not_linux_s_ifmt) % 2 ^ 16
      ≡ m / 2 ^ 12 * 2 ^ 12 + mode % 2 ^ 12
chmod_bits m mode h = ground (
  arith,
  and_ifmt m h,
  and_not_ifmt mode,
  bit_or_split 16 0 (bit_and mode not_linux_s_ifmt / 2 ^ 16) (m / 2 ^ 12 * 2 ^ 12) (mode % 2 ^ 12),
  bit_or_high_low 12 (m / 2 ^ 12) (mode % 2 ^ 12),
)

-- So the type of the directory entry stays what it is.
pub chmod_bits-ext2_file_type :
    (m mode : ℕ)
    → m < 2 ^ 16
    → ext2_file_type (m / 2 ^ 12 * 2 ^ 12 + mode % 2 ^ 12) ≡ ext2_file_type m
unfolding ext2_file_type
chmod_bits-ext2_file_type m mode h =
    let n = m / 2 ^ 12 * 2 ^ 12 + mode % 2 ^ 12 in
    let same : n / 2 ^ 12 ≡ m / 2 ^ 12 = omega arith in
    rw (and_ifmt n (omega arith), and_ifmt m h, same) refl
