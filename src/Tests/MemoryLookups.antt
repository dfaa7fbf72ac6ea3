-- ===== src/Tests/MemoryLookups.antt =====
-- In the filesystem in memory a path leads to the entry that is removed by it.
use node_ext2fs.Base.{
  none, some, Option-cases, true, false, List, [], ◌∷◌, ◌++◌, ◌==◌, ◌≡◌, refl, sym, ◌∙◌, ap, arith,
  Bool-cases, inl, inr,
}
use mathlib.Core.List.{append-nil, append_assoc}
use mathlib.Core.Quot
use mathlib.Core.Quot.{Quot}
use node_ext2fs.Ext2.Filsys.{Bytes, Ino}
use node_ext2fs.Ext2.Modes.{ext2_root_ino}
use node_ext2fs.Names.{Name, add}
use node_ext2fs.Names.Library.{LookupLaws}
use node_ext2fs.Paths.{slash, strrchr}
use node_ext2fs.Tests.Memory.{
  memory, has_entry, has_children, find, check, drop_entry, find_entry, walk, step_down,
}
use node_ext2fs.Tests.MemoryNames.{view, count-remove_entry}

-- A directory with an entry has one.
has_entry-has_children :
    (dir : Ino) (name : Bytes) (es : List Name)
    → has_entry dir name es ≡ true
    → has_children dir es ≡ true
has_entry-has_children dir name [] h = h
has_entry-has_children dir name (e ∷ es) h =
    let rest = has_entry-has_children dir name es in ground arith

-- The path to an entry goes to the directory first.
walk-plain :
    (es : List Name) (dir : Ino) (seen path : Bytes)
    → strrchr path ≡ none
    → walk es dir seen path ≡ step_down es dir (seen ++ path)
unfolding walk strrchr
walk-plain es dir seen [] h = ap (step_down es dir) (sym (append-nil seen))
walk-plain es dir seen (c ∷ path) h = elim (Option-cases (strrchr path)) [
  | inl plain ↦ elim (Bool-cases (c == slash)) [
    | inl at ↦ ground arith
    | inr on ↦ rw on (
        walk-plain es dir (seen ++ c ∷ []) path plain
        ∙ ap (step_down es dir) (append_assoc seen (c ∷ []) path))
  ]
  | inr (parts, split) ↦ ground arith
]

walk-strrchr :
    (es : List Name) (dir : Ino) (seen path before name : Bytes)
    → strrchr path ≡ some (before, name)
    → walk es dir seen path ≡ step_down es (walk es dir seen before) name
unfolding walk strrchr
walk-strrchr es dir seen [] before name h = ground arith
walk-strrchr es dir seen (c ∷ path) before name h = elim (Option-cases (strrchr path)) [
  | inl plain ↦ elim (Bool-cases (c == slash)) [
    | inl at ↦
        let none_before : before ≡ [] = ground arith in
        let whole : name ≡ path = ground arith in
        rw (at, none_before, whole) (walk-plain es (step_down es dir seen) [] path plain)
    | inr on ↦ ground arith
  ]
  | inr ((b, n), split) ↦
      let longer : before ≡ c ∷ b = ground arith in
      let same : name ≡ n = ground arith in
      elim (Bool-cases (c == slash)) [
        | inl at ↦ rw (longer, same, at) (walk-strrchr es (step_down es dir seen) [] path b n split)
        | inr on ↦ rw (longer, same, on) (walk-strrchr es dir (seen ++ c ∷ []) path b n split)
      ]
]

-- A path that leads to no directory leads to the entry that is removed.
found_entry :
    (es : List Name) (dir : Ino) (name : Bytes)
    → has_entry dir name es ≡ true
    → has_children (step_down es dir name) es ≡ false
    → step_down es dir name ≡ find_entry dir name es
unfolding step_down
found_entry es dir [] h file = ground (arith, has_entry-has_children dir [] es h)
found_entry es dir (c ∷ name) h file = refl

pub memory-LookupLaws : LookupLaws memory view
unfolding find check drop_entry add
memory-LookupLaws = record {
  finds = λ path before name w split e e₂ e₃ e₄.
      let es = w.lib.entries in
      let dir = walk es ext2_root_ino [] before in
      elim (Bool-cases (has_entry dir name es)) [
        | inl here ↦
            let down = walk-strrchr es ext2_root_ino [] path before name split in
            let file : has_children (walk es ext2_root_ino [] path) es ≡ false = ground arith in
            let same =
              down ∙ found_entry es dir name here (ap (λ i. has_children i es) (sym down) ∙ file) in
            rw (here, same) (Quot.sound (count-remove_entry dir name es here))
        | inr away ↦ ground arith
      ];
}
