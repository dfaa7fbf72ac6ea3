-- ===== src/Trim/Exact.antt =====
-- What `node_ext2fs_trim` discards.
use node_ext2fs.Base.{
  ℕ, zero, suc, ℤ, pos, neg, ◌+◌, ◌-◌, ◌^◌, ◌<◌, Bool, true, false, Option, none, some, ◌==◌, ◌≡◌,
  ◌⊎◌, refl, is_neg, arith, if◌then◌else◌, ==-false, inl, inr,
}
use mathlib.Core.Option
use node_ext2fs.Ext2.Filsys.{World}
use node_ext2fs.Ext2.Library.{Ext2fs}
use node_ext2fs.Prog.{Exit, next, ret}
use node_ext2fs.Trim.{trimmed_all, load_bitmap, trim_loaded, node_ext2fs_trim}
use node_ext2fs.Trim.Loop.{DiscardLaws, trimmed, Done, trim_loop-Done}

-- How a trim that began at the world `w`, with the bitmap there, has left a block.
abbrev pub TrimDone :
    {D : Type 0} → Ext2fs D → (World D → ℕ → Bool) → World D → ℕ → Option (ℤ × World D) → Type 0
TrimDone lib discarded w b none = ⊥
TrimDone lib discarded w b (some (r, w')) =
    ((r ≡ pos 0)
      × (discarded w' b
          ≡ trimmed (λ k. lib.test_block_bitmap k w) w.fs.super.s_first_data_block
              w.fs.super.s_blocks_count b (discarded w b)))
    ⊎ (is_neg r ≡ true)

module _ {D : Type 0} (lib : Ext2fs D) (discarded : World D → ℕ → Bool)
    (laws : DiscardLaws lib discarded) where
  Done-TrimDone :
      (w : World D) (b : ℕ) (small : w.fs.super.s_blocks_count < 2 ^ 32 - 1)
      → (r : Option (Exit (Unit {0}) × World D))
      → Done lib discarded laws
          (λ k. lib.test_block_bitmap k w)
          w.fs.super.s_first_data_block
          w.fs.super.s_blocks_count
          small
          b
          (discarded w b)
          r
      → TrimDone lib discarded w b (Option.map trimmed_all r)
  Done-TrimDone w b small none d = d
  Done-TrimDone w b small (some (next _, w')) d = inl (refl, d)
  Done-TrimDone w b small (some (ret r, w')) d = inr d

  trim_loaded-TrimDone :
      (fuel b : ℕ) (w : World D)
      → w.fs.super.s_blocks_count < 2 ^ 32 - 1
      → w.fs.super.s_blocks_count + 1 < fuel
      → TrimDone lib discarded w b (trim_loaded lib fuel (next tt, w))
  unfolding trim_loaded
  trim_loaded-TrimDone fuel b w small enough =
      let first = w.fs.super.s_first_data_block in
      Done-TrimDone w b small _ (
        trim_loop-Done lib discarded laws _ first _ small b (discarded w b) fuel first first w
          (record {
            bitmap = λ k. refl;
            ordered = omega arith;
            ended = λ p. p;
            from_first = omega arith;
            free_run = λ p q. absurd (omega arith);
            so_far = ground arith;
          })
          (omega arith) (omega arith))

  -- A bitmap that cannot be read ends the function with a negated error code.
  abbrev Loaded : Exit (Unit {0}) × World D → Type 0
  Loaded (next _, w) = Unit
  Loaded (ret r, w) = is_neg r ≡ true

  Loaded-if :
      (c : Bool) (x y : Exit (Unit {0}) × World D)
      → Loaded x
      → Loaded y
      → Loaded (if c then x else y)
  Loaded-if true x y p q = p
  Loaded-if false x y p q = q

  read-Loaded : (e : ℕ) (w : World D) → Loaded (if e == 0 then next tt else ret (neg e), w)
  read-Loaded zero w = tt
  read-Loaded (suc e) w = rw (==-false (suc e) 0 (omega arith)) refl

  load_bitmap-Loaded : (w : World D) → Loaded (load_bitmap lib w)
  unfolding load_bitmap
  load_bitmap-Loaded w = Loaded-if w.fs.block_map _ _ tt (read-Loaded _ _)

  after_load :
      (fuel b : ℕ) (x : Exit (Unit {0}) × World D)
      → Loaded x
      → x.1.fs.super.s_blocks_count < 2 ^ 32 - 1
      → x.1.fs.super.s_blocks_count + 1 < fuel
      → TrimDone lib discarded x.1 b (trim_loaded lib fuel x)
  unfolding trim_loaded
  after_load fuel b (next tt, w) l small enough = trim_loaded-TrimDone fuel b w small enough
  after_load fuel b (ret r, w) l small enough = inr l

  -- On a filesystem with fewer than 2^32 - 1 blocks, a trim whose fuel exceeds their number by more
  -- than one ends: either with a negated error code, or with 0, and then a block is discarded exactly
  -- if it was before, or if it lies from the first data block up to the number of blocks and the
  -- bitmap, once read, has it unused.
  -- It assumes the laws on discards (DiscardLaws).
  pub node_ext2fs_trim-TrimDone :
      (fuel b : ℕ) (w : World D)
      → (load_bitmap lib w).1.fs.super.s_blocks_count < 2 ^ 32 - 1
      → (load_bitmap lib w).1.fs.super.s_blocks_count + 1 < fuel
      → TrimDone lib discarded (load_bitmap lib w).1 b (node_ext2fs_trim lib fuel w)
  unfolding node_ext2fs_trim
  node_ext2fs_trim-TrimDone fuel b w small enough =
      after_load fuel b (load_bitmap lib w) (load_bitmap-Loaded w) small enough
