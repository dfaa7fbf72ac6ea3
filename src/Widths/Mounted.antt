-- ===== src/Widths/Mounted.antt =====
-- mount, umount, readdir and trim keep every inode within its types.
use mathlib.Core.Option
use mathlib.Core.Path.{subst}
use node_ext2fs.Base.{
  ℕ, zero, suc, ℤ, neg, signed32, ◌+◌, ◌-◌, ◌%◌, ◌^◌, Bool, true, false, Option, none, some, List,
  ◌||◌, ◌==◌, leb, ltb, ◌≡◌, if◌then◌else◌,
}
use node_ext2fs.Dirs.{copy_filename_to_result, node_ext2fs_readdir, set_array}
use node_ext2fs.Ext2.Errors.{enoent}
use node_ext2fs.Ext2.Filsys.{Bytes, World}
use node_ext2fs.Ext2.Library.{Ext2fs}
use node_ext2fs.Ext2.Modes.{ext2_flag_rw}
use node_ext2fs.Mount.{node_ext2fs_mount, node_ext2fs_umount, sprintf_d}
use node_ext2fs.Prog.{Exit, next, ret}
use node_ext2fs.Trim.{
  trimmed_all, trim_round, trim_loop, load_bitmap, trim_loaded, node_ext2fs_trim,
}
use node_ext2fs.Widths.{Any, Within, KeepsCmd}
use node_ext2fs.Widths.Library.{WidthLaws}
use node_ext2fs.Widths.Rules.{
  if-either, Keeps-pure, Keeps-bind, Keeps-exit_if, Keeps-run, Keeps-call_neg, Keeps-raw,
  Keeps-gets, Keeps-modify, Keeps-function,
}
use node_ext2fs.Widths.Shared.{string_to_inode-Keeps}

module _ {D : Type 0} (lib : Ext2fs D) (Stored : D → Type 0) (laws : WidthLaws lib Stored) where
  pub node_ext2fs_mount-Keeps : (disk_id : ℕ) → KeepsCmd Stored Any (node_ext2fs_mount lib disk_id)
  unfolding node_ext2fs_mount
  node_ext2fs_mount-Keeps disk_id = Keeps-function (
      Keeps-bind (Keeps-call_neg (laws.fs_open (sprintf_d disk_id) ext2_flag_rw))
        λ fs _. Keeps-bind (Keeps-call_neg laws.read_bitmaps) λ _ _. Keeps-pure (signed32 fs) tt)

  pub node_ext2fs_umount-Keeps : KeepsCmd Stored Any (node_ext2fs_umount lib)
  unfolding node_ext2fs_umount
  node_ext2fs_umount-Keeps = record { at = λ w ok. (tt, (laws.fs_close.at w ok).1) }

  pub node_ext2fs_readdir-Keeps :
      (path : Bytes) (id : ℕ) → KeepsCmd Stored Any (node_ext2fs_readdir lib path id)
  unfolding node_ext2fs_readdir
  node_ext2fs_readdir-Keeps path id = Keeps-function (
      Keeps-bind (Keeps-run (string_to_inode-Keeps lib Stored laws path true)) λ ino _.
        Keeps-bind (Keeps-exit_if (ino == 0) (neg enoent)) λ _ _.
          Keeps-bind (Keeps-call_neg (laws.file_open ino 0)) λ _ _.
            Keeps-bind (Keeps-call_neg (laws.check_directory ino)) λ _ _.
              Keeps-bind (Keeps-gets Any {f = λ w. w.arrays id} (λ w ok. tt)) λ result _.
                Keeps-bind
                  (Keeps-raw
                    (laws.dir_iterate (List Bytes) ino 0 (copy_filename_to_result lib) result))
                  λ x _.
                    Keeps-bind (Keeps-modify {f = set_array id x.1} (λ w ok. ok))
                      λ _ _. Keeps-pure (neg x.0) tt)

  -- A state within its bounds, or none where the fuel has run out.
  abbrev LeftBy : {A : Type 0} → Option (A × World D) → Type 0
  LeftBy none = Unit
  LeftBy (some (r, w)) = Within Stored w

  trim_round-Within :
      (start blk count : ℕ) (w : World D)
      → Within Stored w
      → Within Stored (trim_round lib start blk count w).1
  unfolding trim_round
  trim_round-Within start blk count w ok =
      let Ok : Exit ℕ × World D → Type 0 = λ x. Within Stored x.1 in
      let (e, _, w₁) = lib.io_channel_discard start (blk - start) w in
      let discards : Exit ℕ × World D =
        (if e == 0 then next ((blk + 1) % 2 ^ 32) else ret (neg e), w₁) in
      let goes_on : Exit ℕ × World D = (next ((blk + 1) % 2 ^ 32), w) in
      if-either Ok (blk == count || lib.test_block_bitmap blk w)
        (if ltb start blk then discards else goes_on) (next start, w)
        (if-either Ok (ltb start blk) discards goes_on
          ((laws.io_channel_discard start (blk - start)).at w ok).1 ok)
        ok

  trim_loop-LeftBy :
      (fuel start blk count : ℕ) (w : World D)
      → Within Stored w
      → LeftBy (trim_loop lib fuel start blk count w)
  unfolding trim_loop
  trim_loop-LeftBy zero start blk count w ok = tt
  trim_loop-LeftBy (suc fuel) start blk count w ok =
      by_round (leb blk count) (trim_round lib start blk count w)
        (trim_round-Within start blk count w ok)
        (λ start' w₁ ok₁. trim_loop-LeftBy fuel start' ((blk + 1) % 2 ^ 32) count w₁ ok₁)
    where
      by_round :
          (b : Bool) (x : Exit ℕ × World D)
          → Within Stored x.1
          → ((start' : ℕ) (w₁ : World D)
              → Within Stored w₁
              → LeftBy (trim_loop lib fuel start' ((blk + 1) % 2 ^ 32) count w₁))
          → LeftBy (elim b [
            | false ↦ some (next tt, w)
            | true ↦ elim x.0 [
              | next start' ↦ trim_loop lib fuel start' ((blk + 1) % 2 ^ 32) count x.1
              | ret r ↦ some (ret r, x.1)
            ]
          ])
      by_round false x ok₁ rest = ok
      by_round true (next start', w₁) ok₁ rest = rest start' w₁ ok₁
      by_round true (ret r, w₁) ok₁ rest = ok₁

  trimmed-LeftBy :
      (x : Option (Exit (Unit {0}) × World D)) → LeftBy x → LeftBy (Option.map trimmed_all x)
  trimmed-LeftBy none h = tt
  trimmed-LeftBy (some (next _, w)) h = h
  trimmed-LeftBy (some (ret r, w)) h = h

  trim_loaded-LeftBy :
      (fuel : ℕ) (x : Exit (Unit {0}) × World D)
      → Within Stored x.1
      → LeftBy (trim_loaded lib fuel x)
  unfolding trim_loaded
  trim_loaded-LeftBy fuel (ret r, w) ok = ok
  trim_loaded-LeftBy fuel (next _, w) ok =
      let first = w.fs.super.s_first_data_block in
      trimmed-LeftBy (trim_loop lib fuel first first w.fs.super.s_blocks_count w)
        (trim_loop-LeftBy fuel first first w.fs.super.s_blocks_count w ok)

  load_bitmap-Within : (w : World D) → Within Stored w → Within Stored (load_bitmap lib w).1
  unfolding load_bitmap
  load_bitmap-Within w ok =
      let (e, _, w₁) = lib.read_block_bitmap w in
      if-either (λ (x : Exit (Unit {0}) × World D). Within Stored x.1) w.fs.block_map (next tt, w)
        (if e == 0 then next tt else ret (neg e), w₁) ok (laws.read_block_bitmap.at w ok).1

  -- A trim that has come to its end.
  pub node_ext2fs_trim-Within :
      (fuel : ℕ) (w : World D) (r : ℤ) (w' : World D)
      → node_ext2fs_trim lib fuel w ≡ some (r, w')
      → Within Stored w
      → Within Stored w'
  unfolding node_ext2fs_trim
  node_ext2fs_trim-Within fuel w r w' h ok =
      subst LeftBy h (trim_loaded-LeftBy fuel (load_bitmap lib w) (load_bitmap-Within w ok))
