-- ===== src/Remove/Links.antt =====
-- What `remove_inode` does to the link counts.
use node_ext2fs.Base.{ℕ, pos, negsuc, ◌-◌, ◌≡◌, ◌≢◌, refl, arith}
use node_ext2fs.Ext2.Filsys.{Ino, World, ext2fs_mark_super_dirty}
use node_ext2fs.Ext2.Inode.{InodeLarge}
use node_ext2fs.Ext2.Library.{Ext2fs}
use node_ext2fs.Ext2.Modes.{linux_s_isdir}
use node_ext2fs.Laws.{InodeLaws}
use node_ext2fs.Remove.{free_blocks, drop_link, remove_inode}
use node_ext2fs.Times.{get_now, update_ctime_at, set_ctime}
use node_ext2fs.Translate.{translate_error}
use node_ext2fs.Translate.Codes.{ErrnoLaws, translate_error-ne_zero}

module _ {D : Type 0} (lib : Ext2fs D) (stored : D → Ino → InodeLarge)
    (laws : InodeLaws lib stored) where
  pub translate_error-keeps :
      (ino j : Ino) (e : ℕ) (w : World D)
      → stored (translate_error lib ino e w).1.lib j ≡ stored w.lib j
  unfolding translate_error
  translate_error-keeps ino j e w = ground (arith, laws.flush_keeps j (ext2fs_mark_super_dirty w))

  pub update_ctime_at-keeps :
      (j : Ino) (i : InodeLarge) (w : World D)
      → stored (update_ctime_at lib i w).1.lib j ≡ stored w.lib j
  unfolding update_ctime_at get_now
  update_ctime_at-keeps j i w =
      ground (arith, laws.clock_keeps j w, laws.time_keeps j (lib.clock_gettime w).1)

  free_blocks-keeps :
      (ino j : Ino) (i : InodeLarge) (w : World D)
      → j ≢ ino
      → stored (free_blocks lib ino i w).1.lib j ≡ stored w.lib j
  unfolding free_blocks
  free_blocks-keeps ino j i w ne =
      let (_, i₁, w₁) = lib.free_ext_attr ino i w in
      let (e, b, w₂) = lib.punch ino i₁.base 0 0xffff_ffff_ffff_ffff w₁ in
      ground (
        arith,
        laws.free_ext_attr_keeps ino j i w ne,
        laws.punch_keeps ino j i₁.base 0 0xffff_ffff_ffff_ffff w₁ ne,
        laws.alloc_stats_keeps ino j (negsuc 0) (linux_s_isdir b.i_mode) w₂,
        laws.alloc_stats_keeps ino j (negsuc 0) (linux_s_isdir i₁.base.i_mode) w₁,
        translate_error-keeps ino j e w₂,
      )

  free_blocks-links :
      (ino : Ino) (i : InodeLarge) (w : World D)
      → (free_blocks lib ino i w).0.1.base.i_links_count ≡ i.base.i_links_count
  unfolding free_blocks
  free_blocks-links ino i w =
      let (_, i₁, w₁) = lib.free_ext_attr ino i w in
      ground (
        arith,
        laws.free_ext_attr_links ino i w,
        laws.punch_links ino i₁.base 0 0xffff_ffff_ffff_ffff w₁,
      )

  pub drop_link-keeps :
      (j : Ino) (i : InodeLarge) (w : World D) → stored (drop_link lib i w).1.lib j ≡ stored w.lib j
  unfolding drop_link
  drop_link-keeps j i w = ground (arith, laws.time_keeps j w)

  drop_link-links :
      (i : InodeLarge) (w : World D)
      → (drop_link lib i w).0.base.i_links_count ≡ i.base.i_links_count - 1
  unfolding drop_link
  drop_link-links i w = ground arith

  pub update_ctime_at-links :
      (i : InodeLarge) (w : World D)
      → (update_ctime_at lib i w).0.base.i_links_count ≡ i.base.i_links_count
  unfolding update_ctime_at set_ctime
  update_ctime_at-links i w = refl

  -- What `remove_inode` does to inodes: no other one changes, whatever it returns.
  -- It assumes the laws on inodes (InodeLaws).
  pub remove_inode-keeps :
      (ino j : Ino) (w : World D)
      → j ≢ ino
      → stored (remove_inode lib ino w).1.lib j ≡ stored w.lib j
  unfolding remove_inode
  remove_inode-keeps ino j w ne =
      let (e, found, w₁) = lib.read_inode_full ino w in
      let (dropped, w₂) = drop_link lib found w₁ in
      let (stamped, w₃) = update_ctime_at lib dropped w₂ in
      let ((r, freed), w₄) = free_blocks lib ino stamped w₃ in
      let (e₄, _, w₅) = lib.write_inode_full ino freed w₄ in
      let (e₃, _, w₆) = lib.write_inode_full ino stamped w₃ in
      ground (
        arith,
        laws.read_full_keeps ino j w,
        translate_error-keeps ino j e w₁,
        drop_link-keeps j found w₁,
        update_ctime_at-keeps j dropped w₂,
        free_blocks-keeps ino j stamped w₃ ne,
        laws.write_full_keeps ino j freed w₄ ne,
        laws.write_full_keeps ino j stamped w₃ ne,
        translate_error-keeps ino j e₄ w₅,
        translate_error-keeps ino j e₃ w₆,
      )

  -- `remove_inode` that returns 0 has taken one link from the inode, or found none.
  -- It assumes the laws on inodes (InodeLaws) and positive errno values (ErrnoLaws).
  pub remove_inode-links :
      (ino : Ino) (w : World D)
      → ErrnoLaws lib
      → (remove_inode lib ino w).0 ≡ pos 0
      → (stored (remove_inode lib ino w).1.lib ino).base.i_links_count
        ≡ (stored w.lib ino).base.i_links_count - 1
  unfolding remove_inode
  remove_inode-links ino w errno h =
      let (e, found, w₁) = lib.read_inode_full ino w in
      let (dropped, w₂) = drop_link lib found w₁ in
      let (stamped, w₃) = update_ctime_at lib dropped w₂ in
      let ((r, freed), w₄) = free_blocks lib ino stamped w₃ in
      let (e₄, _, w₅) = lib.write_inode_full ino freed w₄ in
      let (e₃, _, w₆) = lib.write_inode_full ino stamped w₃ in
      ground (
        arith,
        laws.read_full_value ino w,
        laws.read_full_keeps ino ino w,
        drop_link-links found w₁,
        update_ctime_at-links dropped w₂,
        free_blocks-links ino stamped w₃,
        laws.write_full_value ino freed w₄,
        laws.write_full_value ino stamped w₃,
        translate_error-ne_zero lib ino e w₁ errno,
        translate_error-ne_zero lib ino e₄ w₅ errno,
        translate_error-ne_zero lib ino e₃ w₆ errno,
      )
