-- ===== src/Trim.antt =====
-- `node_ext2fs_trim` of src/glue.c: discards every run of unused blocks. Its variables are
-- `unsigned int`, so the counter wraps; the loop runs on fuel, and `none` means that it ran out.
pub mod Ends
pub mod Exact
pub mod Loop
use node_ext2fs.Base.{
  ℕ, zero, suc, ℤ, pos, neg, ◌+◌, ◌-◌, ◌%◌, ◌^◌, Bool, true, false, Option, none, some, ◌||◌, ltb,
  leb, ◌==◌, if◌then◌else◌,
}
use mathlib.Core.Option
use node_ext2fs.Ext2.Filsys.{World}
use node_ext2fs.Ext2.Library.{Ext2fs}
use node_ext2fs.Prog.{Exit, next, ret, finish}

-- The value that `node_ext2fs_trim` returns behind its loop.
abbrev pub trimmed_all : {D : Type 0} → Exit (Unit {0}) × World D → ℤ × World D
trimmed_all (next _, w) = (pos 0, w)
trimmed_all (ret r, w) = (r, w)

module _ {D : Type 0} (lib : Ext2fs D) where
  -- One round at `blk`; its value is the new `start`.
  unfoldable pub trim_round : (start blk count : ℕ) → World D → Exit ℕ × World D
  trim_round start blk count w =
      if blk == count || lib.test_block_bitmap blk w
      then if ltb start blk
        then (let (e, _, w₁) = lib.io_channel_discard start (blk - start) w in
            (if e == 0 then next ((blk + 1) % 2 ^ 32) else ret (neg e), w₁))
        else (next ((blk + 1) % 2 ^ 32), w)
      else (next start, w)

  unfoldable pub trim_loop :
      (fuel start blk count : ℕ) → World D → Option (Exit (Unit {0}) × World D)
  unfolding trim_round
  trim_loop zero start blk count w = none
  trim_loop (suc f) start blk count w =
      let (x, w₁) = trim_round start blk count w in
      elim (leb blk count) [
        | false ↦ some (next tt, w)
        | true ↦ elim x [
          | next start' ↦ trim_loop f start' ((blk + 1) % 2 ^ 32) count w₁
          | ret r ↦ some (ret r, w₁)
        ]
      ]

  -- The block bitmap is read first, if it is not there.
  unfoldable pub load_bitmap : World D → Exit (Unit {0}) × World D
  load_bitmap w =
      if w.fs.block_map
      then (next tt, w)
      else (let (e, _, w₁) = lib.read_block_bitmap w in
          (if e == 0 then next tt else ret (neg e), w₁))

  unfoldable pub trim_loaded : (fuel : ℕ) → Exit (Unit {0}) × World D → Option (ℤ × World D)
  unfolding trim_loop
  trim_loaded fuel (ret r, w) = some (r, w)
  trim_loaded fuel (next _, w) =
      let first = w.fs.super.s_first_data_block in
      Option.map trimmed_all (trim_loop fuel first first w.fs.super.s_blocks_count w)

  unfoldable pub node_ext2fs_trim : (fuel : ℕ) → World D → Option (ℤ × World D)
  unfolding trim_loaded load_bitmap
  node_ext2fs_trim fuel w = trim_loaded fuel (load_bitmap w)
