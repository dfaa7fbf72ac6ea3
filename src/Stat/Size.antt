-- ===== src/Stat/Size.antt =====
-- The size of a file from the two halves in its inode.
use node_ext2fs.Base.{ℕ, ◌+◌, ◌*◌, ◌%◌, ◌^◌, ◌<◌, ◌≡◌, refl, arith}
use node_ext2fs.Base.Bits.{bit_or_high_low}
use node_ext2fs.Ext2.Filsys.{World}
use node_ext2fs.Stat.{get_uint64_number, node_ext2fs_stat_i_size}

-- The size of an open file whose halves have 32 bits is the upper half times 2^32 and the lower half,
-- and has 64 bits.
node_ext2fs_stat_i_size_lem :
    {D : Type 0} (file : ℕ) (w : World D)
    → (w.files file).inode.i_size_high < 2 ^ 32
    → (w.files file).inode.i_size < 2 ^ 32
    → (node_ext2fs_stat_i_size file w
        ≡ (w.files file).inode.i_size_high * 2 ^ 32 + (w.files file).inode.i_size)
      × (node_ext2fs_stat_i_size file w < 2 ^ 64)
unfolding node_ext2fs_stat_i_size get_uint64_number
node_ext2fs_stat_i_size_lem file w high low =
    let i = (w.files file).inode in
    let e : i.i_size_high * 2 ^ 32 % 2 ^ 64 ≡ i.i_size_high * 2 ^ 32 = omega arith in
    rw (e, bit_or_high_low 32 i.i_size_high i.i_size low) (refl, omega arith)
