-- ===== src/Names/Keeps.antt =====
-- The functions of src/glue.c that leave the names as they are: the times, the error translation and
-- the inode that loses a link.
use node_ext2fs.Base.{ℕ, negsuc, ◌≡◌, refl, sym, ap, ◌∙◌, arith}
use mathlib.Core.Path.{subst}
use node_ext2fs.Ext2.Filsys.{Ino, World, ext2fs_mark_super_dirty}
use node_ext2fs.Ext2.Inode.{Inode, InodeLarge}
use node_ext2fs.Ext2.Library.{Ext2fs, Timespec}
use node_ext2fs.Ext2.Modes.{linux_s_isdir}
use node_ext2fs.Laws.{InodeLaws}
use node_ext2fs.Names.{Names, children}
use node_ext2fs.Names.Library.{SameData, NamesLaws}
use node_ext2fs.Remove.{drop_link, free_blocks, remove_inode}
use node_ext2fs.Times.{
  get_now, set_mtime, set_ctime, bump_version, update_mtime, update_ctime, update_ctime_at,
}
use node_ext2fs.Times.Stored.{get_now-keeps}
use node_ext2fs.Translate.{translate_error}

module _ {D : Type 0} (lib : Ext2fs D) (stored : D → Ino → InodeLarge) (view : D → Names)
    (inode_laws : InodeLaws lib stored) (laws : NamesLaws lib stored view) where
  pub translate_error-view :
      (ino : Ino) (e : ℕ) (w : World D) → view (translate_error lib ino e w).1.lib ≡ view w.lib
  unfolding translate_error
  translate_error-view ino e w = ground (arith, laws.flush_view (ext2fs_mark_super_dirty w))

  pub get_now-view : (w : World D) → view (get_now lib w).1.lib ≡ view w.lib
  unfolding get_now
  get_now-view w = ground (arith, laws.clock_view w, laws.time_view (lib.clock_gettime w).1)

  pub update_ctime_at-view :
      (i : InodeLarge) (w : World D) → view (update_ctime_at lib i w).1.lib ≡ view w.lib
  unfolding update_ctime_at
  update_ctime_at-view i w = get_now-view w

  -- The inode that was read without an error is the stored one.
  pub read_full-SameData :
      (ino : Ino) (w : World D)
      → (lib.read_inode_full ino w).0 ≡ 0
      → SameData (lib.read_inode_full ino w).1.base (stored w.lib ino).base
  read_full-SameData ino w h =
      subst (λ i. SameData i.base (stored w.lib ino).base)
        (sym (inode_laws.read_full_value ino w h)) (refl, refl, refl, refl)

  -- An inode is written whose data are where those of the stored one are.
  pub write_back :
      (ino : Ino) (i : InodeLarge) (w w₂ : World D)
      → stored w₂.lib ino ≡ stored w.lib ino
      → SameData i.base (stored w.lib ino).base
      → view (lib.write_inode_full ino i w₂).2.lib ≡ view w₂.lib
  write_back ino i w w₂ kept same =
      laws.write_full_view ino i w₂ (subst (λ s. SameData i.base s.base) (sym kept) same)

  pub stamped-SameData :
      (now : Timespec) (i : InodeLarge) (j : Inode)
      → SameData i.base j
      → SameData (bump_version (set_ctime now (set_mtime now i))).base j
  unfolding set_ctime set_mtime
  stamped-SameData now i j h = h

  changed-SameData :
      (now : Timespec) (i : InodeLarge) (j : Inode)
      → SameData i.base j
      → SameData (set_ctime now (bump_version i)).base j
  unfolding set_ctime
  changed-SameData now i j h = h

  pub update_mtime-view :
      (ino : Ino) (w : World D) → view (update_mtime lib ino w).1.lib ≡ view w.lib
  unfolding update_mtime
  update_mtime-view ino w =
      let (e, i, w₁) = lib.read_inode_full ino w in
      let (now, w₂) = get_now lib w₁ in
      let i' = bump_version (set_ctime now (set_mtime now i)) in
      let (e₃, _, w₃) = lib.write_inode_full ino i' w₂ in
      let kept =
        get_now-keeps lib stored inode_laws ino w₁ ∙ inode_laws.read_full_keeps ino ino w in
      ground (
        arith,
        laws.read_full_view ino w,
        get_now-view w₁,
        λ (read : e ≡ 0).
            write_back ino i' w w₂ kept
              (stamped-SameData now i (stored w.lib ino).base (read_full-SameData ino w read)),
        translate_error-view ino e w₁,
        translate_error-view ino e₃ w₃,
      )

  pub update_ctime-view :
      (ino : Ino) (w : World D) → view (update_ctime lib ino w).1.lib ≡ view w.lib
  unfolding update_ctime
  update_ctime-view ino w =
      let (now, w₁) = get_now lib w in
      let (e, i, w₂) = lib.read_inode_full ino w₁ in
      let i' = set_ctime now (bump_version i) in
      let (e₃, _, w₃) = lib.write_inode_full ino i' w₂ in
      ground (
        arith,
        get_now-view w,
        laws.read_full_view ino w₁,
        λ (read : e ≡ 0).
            write_back ino i' w₁ w₂ (inode_laws.read_full_keeps ino ino w₁)
              (changed-SameData now i (stored w₁.lib ino).base (read_full-SameData ino w₁ read)),
        translate_error-view ino e w₂,
        translate_error-view ino e₃ w₃,
      )

  drop_link-view : (i : InodeLarge) (w : World D) → view (drop_link lib i w).1.lib ≡ view w.lib
  unfolding drop_link
  drop_link-view i w = ground (arith, laws.time_view w)

  free_blocks-view :
      (ino : Ino) (i : InodeLarge) (w : World D)
      → children ino (view w.lib) ≡ 0
      → view (free_blocks lib ino i w).1.lib ≡ view w.lib
  unfolding free_blocks
  free_blocks-view ino i w none =
      let (_, i₁, w₁) = lib.free_ext_attr ino i w in
      let (e, b, w₂) = lib.punch ino i₁.base 0 0xffff_ffff_ffff_ffff w₁ in
      let freed = laws.free_ext_attr_childless ino i w none in
      ground (
        arith,
        freed,
        laws.punch_childless ino i₁.base 0 0xffff_ffff_ffff_ffff w₁
            (ap (children ino) freed ∙ none),
        laws.alloc_stats_view ino (negsuc 0) (linux_s_isdir b.i_mode) w₂,
        laws.alloc_stats_view ino (negsuc 0) (linux_s_isdir i₁.base.i_mode) w₁,
        translate_error-view ino e w₂,
      )

  -- An inode with no names in it can lose a link, and its blocks, without a change to the names.
  pub remove_inode-view :
      (ino : Ino) (w : World D)
      → children ino (view w.lib) ≡ 0
      → view (remove_inode lib ino w).1.lib ≡ view w.lib
  unfolding remove_inode
  remove_inode-view ino w none =
      let (e, found, w₁) = lib.read_inode_full ino w in
      let (dropped, w₂) = drop_link lib found w₁ in
      let (stamped, w₃) = update_ctime_at lib dropped w₂ in
      let ((r, freed), w₄) = free_blocks lib ino stamped w₃ in
      let (e₄, _, w₅) = lib.write_inode_full ino freed w₄ in
      let (e₃, _, w₆) = lib.write_inode_full ino stamped w₃ in
      let same₃ =
        update_ctime_at-view dropped w₂ ∙ drop_link-view found w₁ ∙ laws.read_full_view ino w in
      let none₃ = ap (children ino) same₃ ∙ none in
      let same₄ = free_blocks-view ino stamped w₃ none₃ in
      ground (
        arith,
        laws.read_full_view ino w,
        same₃,
        same₄,
        laws.write_full_childless ino freed w₄ (ap (children ino) same₄ ∙ none₃),
        laws.write_full_childless ino stamped w₃ none₃,
        translate_error-view ino e w₁,
        translate_error-view ino e₄ w₅,
        translate_error-view ino e₃ w₆,
      )
