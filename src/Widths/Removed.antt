-- ===== src/Widths/Removed.antt =====
-- Taking names and inodes away keeps every inode within its types.
use node_ext2fs.Base.{
  ℕ, ℤ, pos, negsuc, neg, wrap, ◌-◌, ◌<◌, ◌^◌, true, not, Option, none, some, ltb, ◌==◌, arith,
  if◌then◌else◌,
}
use node_ext2fs.Ext2.Errors.{eisdir, enotempty}
use node_ext2fs.Ext2.Filsys.{Bytes, Ino, World}
use node_ext2fs.Ext2.Inode.{Inode, InodeLarge}
use node_ext2fs.Ext2.Library.{Ext2fs}
use node_ext2fs.Ext2.Modes.{ext2_root_ino, linux_s_isdir}
use node_ext2fs.Paths.{strrchr}
use node_ext2fs.Prog.{pure, run}
use node_ext2fs.Remove.{
  with_links, with_dtime, RdStruct, rmdir_proc, unlink_file_by_name, free_blocks, drop_link,
  remove_inode, node_ext2fs_unlink, drop_parent_link, node_ext2fs_rmdir,
}
use node_ext2fs.Translate.{translate_error, call_translate}
use node_ext2fs.Widths.{Any, Fits, FitsLarge, Within, Keeps, KeepsCmd}
use node_ext2fs.Widths.Library.{WidthLaws}
use node_ext2fs.Widths.Rules.{
  if-either, Keeps-pure, Keeps-bind, Keeps-exit_if, Keeps-on, Keeps-run, Keeps-raw,
  Keeps-unless_zero, Keeps-function,
}
use node_ext2fs.Widths.Shared.{
  wrap-bound, translate_error-Keeps, Keeps-call_translate, update_ctime_at-Keeps,
  update_mtime_at-Keeps, update_mtime-Keeps,
}

-- One link less.
dropped-FitsLarge :
    (i : InodeLarge) → FitsLarge i → FitsLarge (with_links (i.base.i_links_count - 1) i)
dropped-FitsLarge i h = ground arith

dtime-FitsLarge : (t : ℕ) (i : InodeLarge) → t < 2 ^ 32 → FitsLarge i → FitsLarge (with_dtime t i)
dtime-FitsLarge t i b h = ground arith

pub based-FitsLarge :
    (b : Inode) (i : InodeLarge) → Fits b → FitsLarge i → FitsLarge (record i { base = b })
based-FitsLarge b i hb (_, p, q, r, s, t, u, v, x, y) = (hb, p, q, r, s, t, u, v, x, y)

module _ {D : Type 0} (lib : Ext2fs D) (Stored : D → Type 0) (laws : WidthLaws lib Stored) where
  pub unlink_file_by_name-Keeps :
      (path : Bytes) → KeepsCmd Stored Any (unlink_file_by_name lib path)
  unfolding unlink_file_by_name
  unlink_file_by_name-Keeps path = Keeps-function (
      Keeps-bind (find-Keeps (strrchr path)) λ dir _.
        Keeps-bind
          (Keeps-call_translate lib Stored laws dir
            (laws.unlink dir (elim (strrchr path) [ some (_, behind) ↦ behind | none ↦ path ]) 0 0))
          λ _ _. Keeps-run (update_mtime-Keeps lib Stored laws dir))
    where
      find-Keeps :
          (split : Option (Bytes × Bytes))
          → Keeps Stored Any (elim split [
            | some (before, _) ↦ call_translate lib 0 (lib.namei ext2_root_ino ext2_root_ino before)
            | none ↦ pure ext2_root_ino
          ])
      find-Keeps none = Keeps-pure ext2_root_ino tt
      find-Keeps (some (before, behind)) =
          Keeps-call_translate lib Stored laws 0 (laws.namei ext2_root_ino ext2_root_ino before)

  drop_link-Keeps : (i : InodeLarge) → FitsLarge i → KeepsCmd Stored FitsLarge (drop_link lib i)
  unfolding drop_link
  drop_link-Keeps i h = record {
    at = λ w ok.
        let (now, w₁) = lib.time w in
        let i' = with_links (i.base.i_links_count - 1) i in
        if-either (λ (x : InodeLarge × World D). FitsLarge x.0 × Within Stored x.1)
          (i.base.i_links_count == 1) (with_dtime (wrap 32 now) i', w₁) (i', w)
          (
            dtime-FitsLarge (wrap 32 now) i' (wrap-bound now) (dropped-FitsLarge i h),
            (laws.time.at w ok).1,
          )
          (dropped-FitsLarge i h, ok);
  }

  free_blocks-Keeps :
      (ino : Ino) (i : InodeLarge)
      → FitsLarge i
      → KeepsCmd Stored (λ x. FitsLarge x.1) (free_blocks lib ino i)
  unfolding free_blocks
  free_blocks-Keeps ino i h = record {
    at = λ w ok.
        let (err, i₁, w₁) = lib.free_ext_attr ino i w in
        let (h₁, ok₁) = (laws.free_ext_attr ino i h).at w ok in
        let (err₂, base, w₂) = lib.punch ino i₁.base 0 0xffff_ffff_ffff_ffff w₁ in
        let (hb, ok₂) = (laws.punch ino i₁.base 0 0xffff_ffff_ffff_ffff h₁.0).at w₁ ok₁ in
        let i₂ : InodeLarge = record i₁ { base = base } in
        let h₂ = based-FitsLarge base i₁ hb h₁ in
        let (r, w₃) = translate_error lib ino err₂ w₂ in
        let freed = λ (i : InodeLarge) (v : World D).
          lib.inode_alloc_stats2 ino (negsuc 0) (linux_s_isdir i.base.i_mode) v in
        let Freed : (ℤ × InodeLarge) × World D → Type 0 =
          λ x. FitsLarge x.0.1 × Within Stored x.1 in
        if-either Freed (err == 0)
          (if lib.inode_has_valid_blocks2 i₁.base w₁
            then (if err₂ == 0 then ((pos 0, i₂), freed i₂ w₂) else ((r, i₂), w₃))
            else ((pos 0, i₁), freed i₁ w₁))
          ((pos 0, i₁), w₁)
          (if-either Freed (lib.inode_has_valid_blocks2 i₁.base w₁)
            (if err₂ == 0 then ((pos 0, i₂), freed i₂ w₂) else ((r, i₂), w₃))
            ((pos 0, i₁), freed i₁ w₁)
            (if-either Freed (err₂ == 0) ((pos 0, i₂), freed i₂ w₂) ((r, i₂), w₃)
              (h₂, laws.inode_alloc_stats2 ino (negsuc 0) (linux_s_isdir i₂.base.i_mode) w₂ ok₂)
              (h₂, ((translate_error-Keeps lib Stored laws ino err₂).at w₂ ok₂).1))
            (h₁, laws.inode_alloc_stats2 ino (negsuc 0) (linux_s_isdir i₁.base.i_mode) w₁ ok₁))
          (h₁, ok₁);
  }

  pub remove_inode-Keeps : (ino : Ino) → KeepsCmd Stored Any (remove_inode lib ino)
  unfolding remove_inode
  remove_inode-Keeps ino = Keeps-function (
      Keeps-bind (Keeps-call_translate lib Stored laws ino (laws.read_inode_full ino)) λ found h.
        Keeps-bind (Keeps-exit_if (found.base.i_links_count == 0) (pos 0)) λ _ _.
          Keeps-bind (Keeps-run (drop_link-Keeps found h)) λ dropped h₁.
            Keeps-bind (Keeps-run (update_ctime_at-Keeps lib Stored laws dropped h₁)) λ stamped h₂.
              Keeps-bind
                (if-either (Keeps Stored (λ x. FitsLarge x.1)) (stamped.base.i_links_count == 0)
                  (run (free_blocks lib ino stamped)) (pure (pos 0, stamped))
                  (Keeps-run (free_blocks-Keeps ino stamped h₂)) (Keeps-pure (pos 0, stamped) h₂))
                λ x h₃.
                  Keeps-bind
                    (Keeps-call_translate lib Stored laws ino (laws.write_inode_full ino x.1 h₃))
                    λ _ _. Keeps-pure x.0 tt)

  pub node_ext2fs_unlink-Keeps : (path : Bytes) → KeepsCmd Stored Any (node_ext2fs_unlink lib path)
  unfolding node_ext2fs_unlink
  node_ext2fs_unlink-Keeps path = Keeps-function (
      Keeps-bind
        (Keeps-call_translate lib Stored laws 0 (laws.namei ext2_root_ino ext2_root_ino path))
        λ ino _. Keeps-bind (Keeps-raw (laws.check_directory ino)) λ x _.
          Keeps-bind (Keeps-exit_if (x.0 == 0) (neg eisdir)) λ _ _.
            Keeps-bind (Keeps-unless_zero (unlink_file_by_name-Keeps path))
              λ _ _. Keeps-run (remove_inode-Keeps ino))

  drop_parent_link-Keeps : (parent : Ino) → Keeps Stored Any (drop_parent_link lib parent)
  unfolding drop_parent_link
  drop_parent_link-Keeps parent =
      Keeps-bind (Keeps-call_translate lib Stored laws parent (laws.read_inode_full parent)) λ i h.
        let n = i.base.i_links_count in
        let i' = if ltb 1 n then with_links (n - 1) i else i in
        let h' = if-either FitsLarge (ltb 1 n) (with_links (n - 1) i) i (dropped-FitsLarge i h) h in
        Keeps-bind (Keeps-run (update_mtime_at-Keeps lib Stored laws i' h'))
          λ i₂ h₂. Keeps-call_translate lib Stored laws parent (laws.write_inode_full parent i₂ h₂)

  pub node_ext2fs_rmdir-Keeps : (path : Bytes) → KeepsCmd Stored Any (node_ext2fs_rmdir lib path)
  unfolding node_ext2fs_rmdir
  node_ext2fs_rmdir-Keeps path = Keeps-function (
      Keeps-bind
        (Keeps-call_translate lib Stored laws 0 (laws.namei ext2_root_ino ext2_root_ino path))
        λ child _.
          Keeps-bind
            (Keeps-call_translate lib Stored laws child
              (laws.dir_iterate2 RdStruct child 0 rmdir_proc (record { parent = 0; empty = true })))
            λ rds _. Keeps-bind (Keeps-exit_if (not rds.empty) (neg enotempty)) λ _ _.
              Keeps-bind (Keeps-unless_zero (unlink_file_by_name-Keeps path)) λ _ _.
                Keeps-bind (Keeps-unless_zero (remove_inode-Keeps child)) λ _ _.
                  Keeps-bind (Keeps-unless_zero (remove_inode-Keeps child)) λ _ _.
                    Keeps-bind
                      (Keeps-on (not (rds.parent == 0)) (drop_parent_link-Keeps rds.parent))
                      λ _ _. Keeps-pure (pos 0) tt)
