-- ===== src/Trim/Ends.antt =====
-- When the loop of `node_ext2fs_trim` ends.
use node_ext2fs.Base.{
  ℕ, zero, suc, ◌+◌, ◌-◌, ◌%◌, ◌^◌, ◌≤◌, ◌<◌, Option, none, some, leb, ◌≡◌, ◌≢◌, refl, ap, arith,
  Bool-cases, inl, inr,
}
use mathlib.Core.Option
use node_ext2fs.Ext2.Filsys.{World}
use node_ext2fs.Ext2.Library.{Ext2fs}
use node_ext2fs.Prog.{Exit, next, ret}
use node_ext2fs.Trim.{
  trim_round, trim_loop, trimmed_all, load_bitmap, trim_loaded, node_ext2fs_trim,
}

module _ {D : Type 0} (lib : Ext2fs D) where
  trim_loop-ends :
      (f start blk count : ℕ) (w : World D)
      → count < 2 ^ 32 - 1
      → 0 < f
      → count + 1 < blk + f
      → trim_loop lib f start blk count w ≢ none
  unfolding trim_loop
  trim_loop-ends zero start blk count w small some_fuel fuel = absurd (omega arith)
  trim_loop-ends (suc f) start blk count w small some_fuel fuel =
      elim (Bool-cases (leb blk count)) [
        | inr over ↦ rw (over, trim_loop) (λ e. cc)
        | inl more ↦
            rw (more, trim_loop)
              (resume (trim_round lib start blk count w) λ start' w₁.
                trim_loop-ends f start' ((blk + 1) % 2 ^ 32) count w₁ small (ground arith)
                  (ground arith))
      ]
    where
      resume :
          (r : Exit ℕ × World D)
          → ((start' : ℕ) (w₁ : World D)
              → trim_loop lib f start' ((blk + 1) % 2 ^ 32) count w₁ ≢ none)
          → elim r.0 [
            | next start' ↦ trim_loop lib f start' ((blk + 1) % 2 ^ 32) count r.1
            | ret e ↦ some (ret e, r.1)
          ]
            ≢ none
      resume (next start', w₁) again = again start' w₁
      resume (ret e, w₁) again = λ h. cc

  -- On a filesystem with fewer than 2^32 - 1 blocks, a trim whose fuel exceeds their number by more
  -- than one ends, whatever the library does.
  node_ext2fs_trim-ends :
      (fuel : ℕ) (w : World D)
      → (load_bitmap lib w).1.fs.super.s_blocks_count < 2 ^ 32 - 1
      → (load_bitmap lib w).1.fs.super.s_blocks_count + 1 < fuel
      → node_ext2fs_trim lib fuel w ≢ none
  unfolding node_ext2fs_trim trim_loaded
  node_ext2fs_trim-ends fuel w small enough = after (load_bitmap lib w) small enough
    where
      after :
          (x : Exit (Unit {0}) × World D)
          → x.1.fs.super.s_blocks_count < 2 ^ 32 - 1
          → x.1.fs.super.s_blocks_count + 1 < fuel
          → trim_loaded lib fuel x ≢ none
      after (ret r, w) small enough = λ e. cc
      after (next _, w) small enough =
          let first = w.fs.super.s_first_data_block in
          let count = w.fs.super.s_blocks_count in
          mapped _ (trim_loop-ends fuel first first count w small (omega arith) (omega arith))
        where
          mapped :
              (r : Option (Exit (Unit {0}) × World D)) → r ≢ none → Option.map trimmed_all r ≢ none
          mapped none h = absurd (h refl)
          mapped (some x) h = λ e. cc

  trim_loop-none :
      (f start blk count : ℕ) (w : World D)
      → ((start' n : ℕ) (v : World D) → (lib.io_channel_discard start' n v).0 ≡ 0)
      → count ≡ 2 ^ 32 - 1
      → blk ≤ count
      → trim_loop lib f start blk count w ≡ none
  unfolding trim_loop trim_round
  trim_loop-none zero start blk count w okay full le = refl
  trim_loop-none (suc f) start blk count w okay full le =
      let (e, _, w₁) = lib.io_channel_discard start (blk - start) w in
      let next_blk = (blk + 1) % 2 ^ 32 in
      ground (
        arith,
        okay start (blk - start) w,
        trim_loop-none f next_blk next_blk count w₁ okay full (omega arith),
        trim_loop-none f next_blk next_blk count w okay full (omega arith),
        trim_loop-none f start next_blk count w okay full (omega arith),
      )

  -- With 2^32 - 1 blocks, and a first data block of 32 bits, the counter wraps before the loop's
  -- condition can fail: a trim whose bitmap can be read and whose discards all succeed runs out of any
  -- fuel.
  pub node_ext2fs_trim-none :
      (fuel : ℕ) (w : World D)
      → ((start n : ℕ) (v : World D) → (lib.io_channel_discard start n v).0 ≡ 0)
      → (load_bitmap lib w).0 ≡ next tt
      → (load_bitmap lib w).1.fs.super.s_blocks_count ≡ 2 ^ 32 - 1
      → (load_bitmap lib w).1.fs.super.s_first_data_block ≤ 2 ^ 32 - 1
      → node_ext2fs_trim lib fuel w ≡ none
  unfolding node_ext2fs_trim trim_loaded
  node_ext2fs_trim-none fuel w okay loaded full first = after (load_bitmap lib w) loaded full first
    where
      after :
          (x : Exit (Unit {0}) × World D)
          → x.0 ≡ next tt
          → x.1.fs.super.s_blocks_count ≡ 2 ^ 32 - 1
          → x.1.fs.super.s_first_data_block ≤ 2 ^ 32 - 1
          → trim_loaded lib fuel x ≡ none
      after (ret r, w) e full first = cc
      after (next _, w) e full first =
          let start = w.fs.super.s_first_data_block in
          ap (Option.map trimmed_all)
            (trim_loop-none fuel start start w.fs.super.s_blocks_count w okay full (omega arith))
