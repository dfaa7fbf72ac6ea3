-- ===== src/Trim/Loop.antt =====
-- The loop of `node_ext2fs_trim`: what holds from round to round, and what it has done.
use node_ext2fs.Base.{
  ℕ, zero, suc, neg, ◌+◌, ◌-◌, ◌%◌, ◌^◌, ◌≤◌, ◌<◌, Bool, true, false, not, Option, none, some, ◌||◌,
  ◌&&◌, ltb, leb, ◌==◌, ◌≡◌, ◌∙◌, is_neg, arith, if◌then◌else◌, Bool-cases, eq_of_==, is_neg-neg,
  inl, inr,
}
use node_ext2fs.Ext2.Filsys.{World}
use node_ext2fs.Ext2.Library.{Ext2fs}
use node_ext2fs.Prog.{Exit, next, ret}
use node_ext2fs.Trim.{trim_round, trim_loop}

-- What is assumed of libext2fs and the disk: the discard of a range that succeeds discards the
-- blocks of that range and no other, and no discard changes the bitmap.
pub record DiscardLaws {D : Type 0} (lib : Ext2fs D) (discarded : World D → ℕ → Bool) : Type 0 where
  pub discards :
      (start n b : ℕ) (w : World D)
      → (lib.io_channel_discard start n w).0 ≡ 0
      → discarded (lib.io_channel_discard start n w).2 b
        ≡ (discarded w b || (leb start b && ltb b (start + n)))
  pub keeps_bitmap :
      (start n b : ℕ) (w : World D)
      → lib.test_block_bitmap b (lib.io_channel_discard start n w).2 ≡ lib.test_block_bitmap b w

-- What is discarded after the blocks from `first` up to `count` that `used` spares.
abbrev pub trimmed : (used : ℕ → Bool) (first count b : ℕ) → Bool → Bool
trimmed used first count b before = before || (leb first b && (ltb b count && not (used b)))

module _ {D : Type 0} (lib : Ext2fs D) (discarded : World D → ℕ → Bool)
    (laws : DiscardLaws lib discarded) (used : ℕ → Bool) (first count : ℕ)
    (small : count < 2 ^ 32 - 1) (b : ℕ) (before : Bool) where
  -- The state of the loop, as far as the block `b` is concerned.
  pub record At (start blk : ℕ) (w : World D) : Type 0 where
    pub bitmap : (k : ℕ) → lib.test_block_bitmap k w ≡ used k
    pub ordered : start ≤ blk
    pub ended : count < blk → count < start
    pub from_first : first ≤ start
    pub free_run : start ≤ b → b < blk → used b ≡ false
    pub so_far :
        discarded w b ≡ trimmed used first (if ltb count start then count else start) b before

  -- What holds after a round at `blk`.
  abbrev After : ℕ → Exit ℕ × World D → Type 0
  After blk (next start, w) = At start (suc blk) w
  After blk (ret r, w) = is_neg r ≡ true

  discard-At :
      (start blk : ℕ) (w : World D)
      → At start blk w
      → blk ≤ count
      → start < blk
      → ((blk == count) || used blk) ≡ true
      → (lib.io_channel_discard start (blk - start) w).0 ≡ 0
      → At (suc blk) (suc blk) (lib.io_channel_discard start (blk - start) w).2
  discard-At start blk w at le lt stop okay = record {
    bitmap = λ k. laws.keeps_bitmap start (blk - start) k w ∙ at.bitmap k;
    ordered = omega arith;
    ended = λ p. p;
    from_first = ground arith;
    free_run = λ p q. absurd (omega arith);
    so_far = ground (arith, laws.discards start (blk - start) b w okay);
  }

  -- The round at a used block, or at the end, that finds no run before it.
  skip-At :
      (start blk : ℕ) (w : World D)
      → At start blk w
      → blk ≤ count
      → ¬ (start < blk)
      → ((blk == count) || used blk) ≡ true
      → At (suc blk) (suc blk) w
  skip-At start blk w at le lt stop = record {
    bitmap = at.bitmap;
    ordered = omega arith;
    ended = λ p. p;
    from_first = ground arith;
    free_run = λ p q. absurd (omega arith);
    so_far = ground arith;
  }

  -- The round at an unused block.
  free-At :
      (start blk : ℕ) (w : World D)
      → At start blk w
      → blk ≤ count
      → ((blk == count) || used blk) ≡ false
      → At start (suc blk) w
  free-At start blk w at le go = record {
    bitmap = at.bitmap;
    ordered = ground arith;
    ended = λ p. ground arith;
    from_first = ground arith;
    free_run = λ p q. ground arith;
    so_far = ground arith;
  }

  next_blk : (blk : ℕ) → blk ≤ count → (blk + 1) % 2 ^ 32 ≡ suc blk
  next_blk blk le = omega arith

  -- A discard that fails ends the loop with a negated error code.
  discard-After :
      (start blk : ℕ) (w : World D)
      → At start blk w
      → blk ≤ count
      → start < blk
      → ((blk == count) || used blk) ≡ true
      → let (e, _, w₁) = lib.io_channel_discard start (blk - start) w in
        After blk (if e == 0 then next ((blk + 1) % 2 ^ 32) else ret (neg e), w₁)
  discard-After start blk w at le lt stop =
      let e = (lib.io_channel_discard start (blk - start) w).0 in
      elim (Bool-cases (e == 0)) [
        | inl okay ↦
            rw (okay, next_blk blk le) (discard-At start blk w at le lt stop (eq_of_== e 0 okay))
        | inr failed ↦ rw failed (is_neg-neg e (ground arith))
      ]

  trim_round-After :
      (start blk : ℕ) (w : World D)
      → At start blk w
      → blk ≤ count
      → After blk (trim_round lib start blk count w)
  unfolding trim_round
  trim_round-After start blk w at le =
      rw (at.bitmap blk) (elim (Bool-cases (blk == count || used blk)) [
        | inr go ↦ rw go (free-At start blk w at le go)
        | inl stop ↦ rw stop (elim (Bool-cases (ltb start blk)) [
          | inr none_free ↦
              rw (none_free, next_blk blk le) (skip-At start blk w at le (ground arith) stop)
          | inl run ↦ rw run (discard-After start blk w at le (ground arith) stop)
        ])
      ])

  -- What the loop has done: it has ended, and without an error exactly the unused blocks of the
  -- range are discarded.
  abbrev pub Done : Option (Exit (Unit {0}) × World D) → Type 0
  Done none = ⊥
  Done (some (next _, w)) = discarded w b ≡ trimmed used first count b before
  Done (some (ret r, w)) = is_neg r ≡ true

  pub trim_loop-Done :
      (f start blk : ℕ) (w : World D)
      → At start blk w
      → 0 < f
      → count + 1 < blk + f
      → Done (trim_loop lib f start blk count w)
  unfolding trim_loop
  trim_loop-Done zero start blk w at some_fuel fuel = absurd (omega arith)
  trim_loop-Done (suc f) start blk w at some_fuel fuel = elim (Bool-cases (leb blk count)) [
    | inr over ↦ rw (over, trim_loop, Done) (ground (arith, at.so_far))
    | inl more ↦
        rw (more, trim_loop, Done)
          (resume (ground arith) (trim_round lib start blk count w)
            (trim_round-After start blk w at (ground arith))
            λ start' w₁ at'. trim_loop-Done f start' (suc blk) w₁ at' (ground arith) (omega arith))
  ]
    where
      resume :
          blk ≤ count
          → (r : Exit ℕ × World D) → After blk r
          → ((start' : ℕ) (w₁ : World D)
              → At start' (suc blk) w₁
              → Done (trim_loop lib f start' (suc blk) count w₁))
          → Done (elim r.0 [
            | next start' ↦ trim_loop lib f start' ((blk + 1) % 2 ^ 32) count r.1
            | ret e ↦ some (ret e, r.1)
          ])
      resume le (next start', w₁) a again = rw (next_blk blk le) (again start' w₁ a)
      resume le (ret e, w₁) a again = a
