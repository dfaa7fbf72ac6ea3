-- ===== src/Times/Stored.antt =====
-- What `update_mtime` and `update_ctime` leave on the disk.
use node_ext2fs.Base.{pos, ◌≤◌, ◌≡◌, ◌≢◌, refl, arith, ap, ◌==◌, Bool-cases, inl, inr, eq_of_==}
use node_ext2fs.Ext2.Filsys.{Ino, World}
use node_ext2fs.Ext2.Inode.{InodeLarge}
use node_ext2fs.Ext2.Library.{Ext2fs}
use node_ext2fs.Laws.{InodeLaws, links}
use node_ext2fs.Times.{get_now, set_mtime, set_ctime, get_mtime, bump_version, update_mtime}
use node_ext2fs.Times.Extra.{IsStampable, get_xtime-set_xtime}
use node_ext2fs.Translate.Codes.{ErrnoLaws, translate_error-ne_zero}

module _ {D : Type 0} (lib : Ext2fs D) (stored : D → Ino → InodeLarge)
    (laws : InodeLaws lib stored) where
  pub get_now-keeps : (j : Ino) (w : World D) → stored (get_now lib w).1.lib j ≡ stored w.lib j
  unfolding get_now
  get_now-keeps j w =
      ground (arith, laws.clock_keeps j w, laws.time_keeps j (lib.clock_gettime w).1)

  update_mtime-stored :
      (ino : Ino) (w : World D)
      → ErrnoLaws lib
      → (update_mtime lib ino w).0 ≡ pos 0
      → let (now, _) = get_now lib (lib.read_inode_full ino w).2 in
        stored (update_mtime lib ino w).1.lib ino
        ≡ bump_version (set_ctime now (set_mtime now (stored w.lib ino)))
  unfolding update_mtime
  update_mtime-stored ino w errno h =
      let (e, i, w₁) = lib.read_inode_full ino w in
      let (now, w₂) = get_now lib w₁ in
      let i' = bump_version (set_ctime now (set_mtime now i)) in
      let (e₃, _, w₃) = lib.write_inode_full ino i' w₂ in
      ground (
        arith,
        laws.read_full_value ino w,
        laws.write_full_value ino i' w₂,
        translate_error-ne_zero lib ino e w₁ errno,
        translate_error-ne_zero lib ino e₃ w₃ errno,
      )

  pub update_mtime-keeps :
      (ino j : Ino) (w : World D)
      → ErrnoLaws lib
      → j ≢ ino
      → (update_mtime lib ino w).0 ≡ pos 0
      → stored (update_mtime lib ino w).1.lib j ≡ stored w.lib j
  unfolding update_mtime
  update_mtime-keeps ino j w errno ne h =
      let (e, i, w₁) = lib.read_inode_full ino w in
      let (now, w₂) = get_now lib w₁ in
      let i' = bump_version (set_ctime now (set_mtime now i)) in
      let (e₃, _, w₃) = lib.write_inode_full ino i' w₂ in
      ground (
        arith,
        laws.read_full_keeps ino j w,
        get_now-keeps j w₁,
        laws.write_full_keeps ino j i' w₂ ne,
        translate_error-ne_zero lib ino e w₁ errno,
        translate_error-ne_zero lib ino e₃ w₃ errno,
      )

  -- `update_mtime` that returns 0 changes no link count.
  pub update_mtime-links :
      (ino j : Ino) (w : World D)
      → ErrnoLaws lib
      → (update_mtime lib ino w).0 ≡ pos 0
      → links stored (update_mtime lib ino w).1 j ≡ links stored w j
  unfolding set_mtime set_ctime
  update_mtime-links ino j w errno h = elim (Bool-cases (j == ino)) [
    | inl same ↦
        rw (eq_of_== j ino same)
          (ap (λ i. i.base.i_links_count) (update_mtime-stored ino w errno h))
    | inr other ↦ ap (λ i. i.base.i_links_count) (update_mtime-keeps ino j w errno (ground arith) h)
  ]

  -- If `update_mtime` returns 0 on an inode with room for the extra fields, and the seconds and
  -- nanoseconds of the clock fit those fields, the last modification that is read from the stored
  -- inode is the clock's time, and its mode, size, user id and link count are as they were.
  -- It assumes the laws on inodes (InodeLaws) and positive errno values (ErrnoLaws).
  update_mtime-get_mtime :
      (ino : Ino) (w : World D)
      → ErrnoLaws lib
      → (update_mtime lib ino w).0 ≡ pos 0
      → IsStampable (get_now lib (lib.read_inode_full ino w).2).0
      → 16 ≤ (stored w.lib ino).i_extra_isize
      → let old = (stored w.lib ino).base in
        let new = stored (update_mtime lib ino w).1.lib ino in
        (get_mtime new ≡ (get_now lib (lib.read_inode_full ino w).2).0)
        × (new.base.i_mode ≡ old.i_mode)
        × (new.base.i_size ≡ old.i_size)
        × (new.base.i_uid ≡ old.i_uid)
        × (new.base.i_links_count ≡ old.i_links_count)
  unfolding set_ctime set_mtime get_mtime
  update_mtime-get_mtime ino w errno h stampable room =
      let now = (get_now lib (lib.read_inode_full ino w).2).0 in
      rw (update_mtime-stored ino w errno h)
        ((get_xtime-set_xtime now (stored w.lib ino) stampable room).1, refl, refl, refl, refl)
