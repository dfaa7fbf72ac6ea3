-- ===== src/Files/Stored.antt =====
-- What `node_ext2fs_chmod` and `node_ext2fs_chown` leave on the disk.
use node_ext2fs.Base.{ℕ, pos, ◌+◌, ◌*◌, ◌/◌, ◌%◌, ◌^◌, ◌<◌, bit_and, bit_or, ◌≡◌, ◌≢◌, arith}
use node_ext2fs.Base.Bits.{bit_and_split, bit_and-zero, bit_and_ones}
use node_ext2fs.Ext2.Filsys.{Ino, World}
use node_ext2fs.Ext2.Inode.{Inode, InodeLarge, increment_version}
use node_ext2fs.Ext2.Library.{Ext2fs}
use node_ext2fs.Ext2.Modes.{linux_s_ifmt, not_linux_s_ifmt}
use node_ext2fs.Files.{set_file_inode, node_ext2fs_chmod, node_ext2fs_chown}
use node_ext2fs.Laws.{InodeLaws}
use node_ext2fs.FileType.{ext2_file_type}
use node_ext2fs.Modes.{chmod_bits, chmod_bits-ext2_file_type}

-- The inode with the mode and the version that `chmod` gives it.
abbrev pub chmodded : (mode : ℕ) → InodeLarge → InodeLarge
chmodded mode i = record i {
  base = record i.base {
    i_mode = i.base.i_mode / 2 ^ 12 * 2 ^ 12 + mode % 2 ^ 12;
    l_i_version = (i.base.l_i_version + 1) % 2 ^ 32;
  };
}

-- The inode with the owner that `chown` gives it.
abbrev pub chowned : (uid gid : ℕ) → InodeLarge → InodeLarge
chowned uid gid i = record i {
  base = record i.base {
    i_uid = uid % 2 ^ 16;
    i_gid = gid % 2 ^ 16;
    l_i_version = (i.base.l_i_version + 1) % 2 ^ 32;
  };
}

and_word : (n : ℕ) → bit_and n 0xffff ≡ n % 2 ^ 16
and_word n = ground (
  arith,
  bit_and_split 16 (n / 2 ^ 16) 0 (n % 2 ^ 16) 0xffff,
  bit_and-zero (n / 2 ^ 16),
  bit_and_ones 16 (n % 2 ^ 16),
)

module _ {D : Type 0} (lib : Ext2fs D) (stored : D → Ino → InodeLarge) (laws : InodeLaws lib stored)
    (file : ℕ) (w : World D) where
  -- A `chmod` that returns 0 has stored the inode of the open file with its type bits kept, its other
  -- twelve mode bits from the argument and its version increased, and nothing else changed in it;
  -- the mode that was stored has 16 bits.
  -- It assumes the laws on inodes (InodeLaws).
  pub node_ext2fs_chmod-stored :
      (mode : ℕ)
      → (stored w.lib (w.files file).ino).base.i_mode < 2 ^ 16
      → (node_ext2fs_chmod lib file mode w).0 ≡ pos 0
      → stored (node_ext2fs_chmod lib file mode w).1.lib (w.files file).ino
        ≡ chmodded mode (stored w.lib (w.files file).ino)
  unfolding node_ext2fs_chmod
  node_ext2fs_chmod-stored mode small h =
      let ino = (w.files file).ino in
      let (e, i, w₁) = lib.read_inode ino w in
      let i' : Inode = increment_version (record i {
        i_mode = bit_or (bit_and i.i_mode linux_s_ifmt) (bit_and mode not_linux_s_ifmt) % 2 ^ 16;
      }) in
      let w₂ = set_file_inode file i' (set_file_inode file i w₁) in
      ground (
        arith,
        laws.read_value ino w,
        laws.read_keeps ino ino w,
        laws.read_files ino file w,
        laws.write_value ino i' w₂,
        chmod_bits i.i_mode mode,
      )

  -- A `chmod` that returns 0 leaves the stored inode with the file type that it had, whatever the
  -- type bits of the argument; the mode that was stored has 16 bits.
  -- It assumes the laws on inodes (InodeLaws).
  node_ext2fs_chmod-ext2_file_type :
      (mode : ℕ)
      → (stored w.lib (w.files file).ino).base.i_mode < 2 ^ 16
      → (node_ext2fs_chmod lib file mode w).0 ≡ pos 0
      → ext2_file_type
          (stored (node_ext2fs_chmod lib file mode w).1.lib (w.files file).ino).base.i_mode
        ≡ ext2_file_type (stored w.lib (w.files file).ino).base.i_mode
  node_ext2fs_chmod-ext2_file_type mode small h =
      rw (node_ext2fs_chmod-stored mode small h)
        (chmod_bits-ext2_file_type (stored w.lib (w.files file).ino).base.i_mode mode small)

  chmod-keeps :
      (j : Ino) (mode : ℕ)
      → j ≢ (w.files file).ino
      → stored (node_ext2fs_chmod lib file mode w).1.lib j ≡ stored w.lib j
  unfolding node_ext2fs_chmod
  chmod-keeps j mode ne =
      let ino = (w.files file).ino in
      let (e, i, w₁) = lib.read_inode ino w in
      let i' : Inode = increment_version (record i {
        i_mode = bit_or (bit_and i.i_mode linux_s_ifmt) (bit_and mode not_linux_s_ifmt) % 2 ^ 16;
      }) in
      let w₂ = set_file_inode file i' (set_file_inode file i w₁) in
      ground (
        arith,
        laws.read_keeps ino j w,
        laws.read_files ino file w,
        laws.write_keeps ino j i' w₂ ne,
      )

  -- A `chown` that returns 0 has stored the inode with the low 16 bits of both ids and its version
  -- increased, and nothing else changed in it.
  -- It assumes the laws on inodes (InodeLaws).
  node_ext2fs_chown-stored :
      (uid gid : ℕ)
      → (node_ext2fs_chown lib file uid gid w).0 ≡ pos 0
      → stored (node_ext2fs_chown lib file uid gid w).1.lib (w.files file).ino
        ≡ chowned uid gid (stored w.lib (w.files file).ino)
  unfolding node_ext2fs_chown
  node_ext2fs_chown-stored uid gid h =
      let ino = (w.files file).ino in
      let (e, i, w₁) = lib.read_inode ino w in
      let i' : Inode =
        increment_version (record i { i_uid = bit_and uid 0xffff; i_gid = bit_and gid 0xffff }) in
      let w₂ = set_file_inode file i' (set_file_inode file i w₁) in
      ground (
        arith,
        laws.read_value ino w,
        laws.read_keeps ino ino w,
        laws.read_files ino file w,
        laws.write_value ino i' w₂,
        and_word uid,
        and_word gid,
      )

  -- Neither call changes any other inode, whatever it returns.
  -- It assumes the laws on inodes (InodeLaws).
  chmod_chown-keeps :
      (j : Ino) (mode uid gid : ℕ)
      → j ≢ (w.files file).ino
      → (stored (node_ext2fs_chmod lib file mode w).1.lib j ≡ stored w.lib j)
        × (stored (node_ext2fs_chown lib file uid gid w).1.lib j ≡ stored w.lib j)
  unfolding node_ext2fs_chown
  chmod_chown-keeps j mode uid gid ne =
      let ino = (w.files file).ino in
      let (e, i, w₁) = lib.read_inode ino w in
      let i' : Inode =
        increment_version (record i { i_uid = bit_and uid 0xffff; i_gid = bit_and gid 0xffff }) in
      let w₂ = set_file_inode file i' (set_file_inode file i w₁) in
      (
        chmod-keeps j mode ne,
        ground (
          arith,
          laws.read_keeps ino j w,
          laws.read_files ino file w,
          laws.write_keeps ino j i' w₂ ne,
        ),
      )
