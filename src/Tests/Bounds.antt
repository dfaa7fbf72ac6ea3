-- ===== src/Tests/Bounds.antt =====
-- The theorem on the types of an inode's numbers at a sequence of calls.
use node_ext2fs.Base.{ℕ, ◌<◌, ◌^◌, ◌==◌, arith, if◌then◌else◌}
use node_ext2fs.Ext2.Filsys.{World}
use node_ext2fs.Ext2.Modes.{o_creat}
use node_ext2fs.Tests.Memory.{Store, memory}
use node_ext2fs.Tests.MemoryWidths.{AllFit, memory-WidthLaws}
use node_ext2fs.Tests.World.{codes, large, store, world}
use node_ext2fs.Widths.{FitsLarge, Within}
use node_ext2fs.Widths.Calls.{Calls, here, opens, chmods, chowns, links, removes_dir, Calls-Within}
use node_ext2fs.Widths.Rules.{if-either}

large-FitsLarge : (mode n : ℕ) → mode < 2 ^ 16 → n < 2 ^ 16 → FitsLarge (large mode n)
large-FitsLarge mode n p q = ground arith

store-AllFit : AllFit store
store-AllFit ino =
    if-either FitsLarge (ino == 2) (large 0o040755 4)
      (if ino == 11
        then large 0o040755 2
        else if ino == 12
        then large 0o100644 1
        else if ino == 13
        then large 0o040755 2
        else large 0 0)
      (large-FitsLarge 0o040755 4 (omega arith) (omega arith))
      (if-either FitsLarge (ino == 11) (large 0o040755 2)
        (if ino == 12 then large 0o100644 1 else if ino == 13 then large 0o040755 2 else large 0 0)
        (large-FitsLarge 0o040755 2 (omega arith) (omega arith))
        (if-either FitsLarge (ino == 12) (large 0o100644 1)
          (if ino == 13 then large 0o040755 2 else large 0 0)
          (large-FitsLarge 0o100644 1 (omega arith) (omega arith))
          (if-either FitsLarge (ino == 13) (large 0o040755 2) (large 0 0)
            (large-FitsLarge 0o040755 2 (omega arith) (omega arith))
            (large-FitsLarge 0 0 (omega arith) (omega arith)))))

world-Within : Within AllFit world
world-Within = (store-AllFit, λ h. (large-FitsLarge 0o100644 1 (omega arith) (omega arith)).0)

-- A new file is opened, its mode and its owner are set to numbers that are too large, a link is made,
-- and a directory is removed.
abbrev after_calls : (w : World Store) × Calls memory world w
after_calls = (
  _,
  removes_dir (codes "/e") (
      links (codes "/d/f") (codes "/g") (
        chowns 14 0xabcd_ef01 0x1_2345_6789
          (chmods 14 0xffff_ffff (opens (codes "/h") o_creat 0o644 here)))),
)

Calls-Within_example : Within AllFit after_calls.0
Calls-Within_example = Calls-Within memory AllFit memory-WidthLaws after_calls.1 world-Within
