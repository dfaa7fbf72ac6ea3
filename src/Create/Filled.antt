-- ===== src/Create/Filled.antt =====
-- How `create_file` of src/glue.c writes the inode of a new file.
use node_ext2fs.Base.{
  ℕ, ℤ, bit_and, bit_or, if◌then◌else◌, pos, pos_part, wrap, Bool, true, false, ◌+◌, ◌%◌, ◌^◌, ◌≡◌,
  ◌≢◌, refl, sym, ap, ◌∙◌, arith,
}
use node_ext2fs.Create.{zero_inode, init_block_map, not_ext4_extents_fl, write_filled, fill_inode}
use node_ext2fs.Create.Laws.{SameMeta, SameLinks, OtherLinks, CreateLaws}
use node_ext2fs.Ext2.Filsys.{Ino, World, ext2fs_has_feature_inline_data, ext2fs_has_feature_extents}
use node_ext2fs.Ext2.Inode.{Inode, InodeLarge}
use node_ext2fs.Ext2.Library.{Ext2fs}
use node_ext2fs.Ext2.Modes.{has, not_linux_s_ifmt, linux_s_ifreg, ext4_inline_data_fl}
use node_ext2fs.Laws.{InodeLaws}
use node_ext2fs.Modes.{typed_bits}
use node_ext2fs.Names.{Names, children}
use node_ext2fs.Names.Library.{NamesLaws}
use mathlib.Core.Path.{subst}
use node_ext2fs.Prog.{next, Prog, call_ret, on, ◌>>◌}
use node_ext2fs.Prog.Rules.{PostOr, PostOr-bind, PostOr-call_or, PostOr-on, PostOr-call_or_last}

-- An empty file of that mode, made at that time.
abbrev pub empty_file : (mode : ℕ) (now : ℤ) → Inode
empty_file mode now = record zero_inode {
  i_mode = linux_s_ifreg + mode % 2 ^ 12;
  i_atime = wrap 32 now;
  i_ctime = wrap 32 now;
  i_mtime = wrap 32 now;
  i_links_count = 1;
}

SameMeta-trans : (i j k : Inode) → SameMeta i j → SameMeta j k → SameMeta i k
SameMeta-trans i j k (a, b, c, d, e, f, g) (a', b', c', d', e', f', g') =
    (a ∙ a', b ∙ b', c ∙ c', d ∙ d', e ∙ e', f ∙ f', g ∙ g')

-- A body that returns before its end gives an error code.
abbrev pub IsCode : ℤ → Type 0
IsCode r = pos_part r ≢ 0

module _ {D : Type 0} (lib : Ext2fs D) (stored : D → Ino → InodeLarge) (view : D → Names)
    (inode_laws : InodeLaws lib stored) (laws : NamesLaws lib stored view)
    (create_laws : CreateLaws lib stored view) where
  abbrev pub IsFilled : Ino → (mode : ℕ) → World D → World D → Type 0
  IsFilled ino mode w v =
      (view v.lib ≡ view w.lib)
      × OtherLinks stored ino v w
      × ((now : ℤ) × SameMeta (stored v.lib ino).base (empty_file mode now))

  -- The inode `j` is `i` with another block map.
  abbrev IsMapped : Inode → World D → Inode → World D → Type 0
  IsMapped i w j v = SameMeta j i × (view v.lib ≡ view w.lib) × SameLinks stored v w

  init_block_map-PostOr :
      (ino : Ino) (i : Inode) (w : World D)
      → PostOr IsCode (IsMapped i w) (init_block_map lib ino i w)
  init_block_map-PostOr ino i w =
      by_features (ext2fs_has_feature_inline_data w.fs.super)
        (ext2fs_has_feature_extents w.fs.super)
    where
      same : SameMeta i i
      same = (refl, refl, refl, refl, refl, refl, refl)

      with_extents : Inode
      with_extents = record i { i_flags = bit_and i.i_flags not_ext4_extents_fl }

      by_features :
          (a b : Bool)
          → PostOr IsCode (IsMapped i w) (
              if a
              then (next (record i { i_flags = bit_or i.i_flags ext4_inline_data_fl }), w)
              else if b
              then call_ret (lib.extent_open2 ino with_extents) w
              else (next i, w))
      by_features true b = (same, refl, λ j. refl)
      by_features false true =
          PostOr-call_or_last IsCode pos (IsMapped i w) (lib.extent_open2 ino with_extents) w
            (λ e ne. ne)
            λ okay. (
              create_laws.extent_open_meta ino with_extents w,
              create_laws.extent_open_view ino with_extents w,
              create_laws.extent_open_links ino with_extents w,
            )
      by_features false false = (same, refl, λ j. refl)

  write_filled-IsFilled :
      (ino : Ino) (mode : ℕ) (now : ℤ) (i : Inode) (w w₁ : World D)
      → children ino (view w.lib) ≡ 0
      → SameMeta i (empty_file mode now)
      → view w₁.lib ≡ view w.lib
      → SameLinks stored w₁ w
      → PostOr IsCode (λ _ v. IsFilled ino mode w v) (write_filled lib ino i w₁)
  unfolding write_filled
  write_filled-IsFilled ino mode now i w w₁ empty meta before links_before =
      PostOr-bind IsCode (IsMapped i w₁) (λ _ v. IsFilled ino mode w v)
        (init_block_map lib ino i w₁) rest (init_block_map-PostOr ino i w₁)
        λ j v (kept, same, mapped).
          PostOr-call_or IsCode pos (λ _ u. IsFilled ino mode w u) (lib.write_new_inode ino j)
            (λ _. last j) v (λ e ne. ne)
            (written j v (SameMeta-trans j i (empty_file mode now) kept meta) (same ∙ before)
              (λ j. mapped j ∙ links_before j))
    where
      last : Inode → Prog D (Unit {0})
      last j = on (has j.i_flags ext4_inline_data_fl) (call_ret (lib.inline_data_init ino))

      rest : Inode → Prog D (Unit {0})
      rest j = call_ret (lib.write_new_inode ino j) >> last j

      inlined :
          (u : World D) → IsFilled ino mode w u → IsFilled ino mode w (lib.inline_data_init ino u).2
      inlined u (same, others, (at, meta)) = (
        create_laws.inline_data_view ino u ∙ same,
        λ j ne. create_laws.inline_data_links ino u j ne ∙ others j ne,
        (
          at,
          SameMeta-trans (stored (lib.inline_data_init ino u).2.lib ino).base
              (stored u.lib ino).base (empty_file mode at) (create_laws.inline_data_meta ino u)
              meta,
        ),
      )

      written :
          (j : Inode) (v : World D)
          → SameMeta j (empty_file mode now)
          → view v.lib ≡ view w.lib
          → SameLinks stored v w
          → (lib.write_new_inode ino j v).0 ≡ 0
          → PostOr IsCode (λ _ u. IsFilled ino mode w u) (last j (lib.write_new_inode ino j v).2)
      written j v meta same links_same wrote =
          let u = (lib.write_new_inode ino j v).2 in
          let filled : IsFilled ino mode w u = (
            create_laws.write_new_childless ino j v (ap (children ino) same ∙ empty) ∙ same,
            λ k ne. create_laws.write_new_links ino j v k ne ∙ links_same k,
            (
              now,
              subst (λ x. SameMeta x (empty_file mode now))
                  (sym (create_laws.write_new_value ino j v wrote)) meta,
            ),
          ) in
          PostOr-on IsCode (λ _ u. IsFilled ino mode w u) (has j.i_flags ext4_inline_data_fl)
            (call_ret (lib.inline_data_init ino)) u
            (λ _.
              PostOr-call_or_last IsCode pos (λ _ u. IsFilled ino mode w u)
                (lib.inline_data_init ino) u (λ e ne. ne) (λ _. inlined u filled))
            (λ _. filled)

  pub fill_inode-IsFilled :
      (ino : Ino) (mode : ℕ) (w : World D)
      → children ino (view w.lib) ≡ 0
      → PostOr IsCode (λ _ v. IsFilled ino mode w v) (fill_inode lib ino mode w)
  unfolding fill_inode
  fill_inode-IsFilled ino mode w empty =
      let w₁ = lib.inode_alloc_stats2 ino (pos 1) false w in
      let (now, w₂) = lib.time w₁ in
      let i = record (empty_file mode now) {
        i_mode = bit_or (bit_and mode not_linux_s_ifmt) linux_s_ifreg % 2 ^ 16;
      } in
      let (_, j, w₃) = lib.inode_size_set i 0 w₂ in
      let meta : SameMeta i (empty_file mode now) =
        (typed_bits 8 mode (omega arith), refl, refl, refl, refl, refl, refl) in
      PostOr-call_or IsCode pos (λ _ v. IsFilled ino mode w v) (lib.inode_size_set i 0)
        (λ i. write_filled lib ino i) w₂ (λ e ne. ne)
        λ sized.
          write_filled-IsFilled ino mode now j w w₃ empty
            (SameMeta-trans j i (empty_file mode now) (create_laws.size_set_meta i 0 w₂) meta)
            (create_laws.size_set_view i 0 w₂
              ∙ laws.time_view w₁
              ∙ laws.alloc_stats_view ino (pos 1) false w)
            (λ j.
              create_laws.size_set_links i 0 w₂ j
              ∙ ap (λ s. s.base.i_links_count)
                  (inode_laws.time_keeps j w₁ ∙ inode_laws.alloc_stats_keeps ino j (pos 1) false w))
