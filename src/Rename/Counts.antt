-- ===== src/Rename/Counts.antt =====
-- The link counts of the two parents of a directory that `node_ext2fs_rename` moves.
use node_ext2fs.Base.{ℕ, ◌+◌, ◌-◌, ◌%◌, ◌^◌, ◌≡◌, arith, ◌==◌, if◌then◌else◌, Bool-cases, inl, inr}
use mathlib.Core.Path.{subst}
use node_ext2fs.Ext2.Filsys.{Ino, World}
use node_ext2fs.Ext2.Inode.{Inode, InodeLarge, DirEntry}
use node_ext2fs.Ext2.Library.{Ext2fs}
use node_ext2fs.Laws.{InodeLaws, NameLaws, links}
use node_ext2fs.Prog.{Exit, ◌>>◌}
use node_ext2fs.Prog.Rules.{Post, Post-bind, Post-call_translate, Post-call_translate_last}
use node_ext2fs.Rename.{update_dotdot_helper, change_links, move_dotdot}
use node_ext2fs.Translate.{call_translate}
use node_ext2fs.Translate.Codes.{ErrnoLaws}

module _ {D : Type 0} (lib : Ext2fs D) (stored : D → Ino → InodeLarge) (laws : InodeLaws lib stored)
    (name_laws : NameLaws lib stored) (errno : ErrnoLaws lib) where
  -- A count that has 16 bits, one lower and one higher.
  abbrev pub lowered : ℕ → ℕ
  lowered n = (n + 2 ^ 16 - 1) % 2 ^ 16

  abbrev pub raised : ℕ → ℕ
  raised n = (n + 1) % 2 ^ 16

  -- What a step of a function has done to the count of `j`, if the function goes on.
  abbrev HasLinks : Ino → ℕ → {A : Type 0} → A → World D → Type 0
  HasLinks j n a w = links stored w j ≡ n

  abbrev pub GoesOn : Ino → ℕ → Exit (Unit {0}) × World D → Type 0
  GoesOn j n = Post (HasLinks j n)

  change_links-GoesOn :
      (f : ℕ → ℕ) (dir j : Ino) (w : World D)
      → GoesOn j
          (if j == dir then f (links stored w j) else links stored w j)
          (change_links lib f dir w)
  unfolding change_links
  change_links-GoesOn f dir j w =
      let (_, i, w₁) = lib.read_inode dir w in
      let i' : Inode = record i { i_links_count = f i.i_links_count } in
      let n = if j == dir then f (links stored w j) else links stored w j in
      let write =
        λ (i : Inode). lib.write_inode dir (record i { i_links_count = f i.i_links_count }) in
      Post-call_translate lib errno (HasLinks j n) dir (lib.read_inode dir)
        (λ i. call_translate lib dir (write i)) w
        λ read. Post-call_translate_last lib errno (HasLinks j n) dir (write i) w₁ λ written.
          elim (Bool-cases (j == dir)) [
            | inl same ↦ ground (arith, laws.read_value dir w, laws.write_value dir i' w₁)
            | inr other ↦ ground (arith, laws.read_keeps dir j w, laws.write_keeps dir j i' w₁)
          ]

  -- When a moved directory's `..` entry has been changed and the function goes on, the count of the
  -- old parent is one lower and that of the new parent one higher, in 16 bits, and no other count
  -- has changed. When the function returns there, it does not return 0.
  -- It assumes the laws on inodes and names (InodeLaws, NameLaws) and positive errno values
  -- (ErrnoLaws).
  pub move_dotdot-GoesOn :
      (ino from_dir to_dir j : Ino) (w : World D)
      → let n = if j == from_dir then lowered (links stored w j) else links stored w j in
        GoesOn j (if j == to_dir then raised n else n) (move_dotdot lib ino from_dir to_dir w)
  unfolding move_dotdot
  move_dotdot-GoesOn ino from_dir to_dir j w =
      let n = if j == from_dir then lowered (links stored w j) else links stored w j in
      let m = if j == to_dir then raised n else n in
      let visit = λ (d : DirEntry). update_dotdot_helper to_dir (lib.dirent_name_len d) d in
      let w₁ = (lib.dir_iterate2 ino 0 visit tt w).2 in
      let kept = name_laws.dir_iterate2_links (Unit {0}) ino visit tt j w in
      let up = change_links lib raised to_dir in
      Post-call_translate lib errno (HasLinks j m) ino (lib.dir_iterate2 ino 0 visit tt)
        (λ _. change_links lib lowered from_dir >> up) w
        λ read.
          Post-bind (HasLinks j n) (HasLinks j m) (change_links lib lowered from_dir w₁) (λ _. up)
            (subst
              (λ k.
                GoesOn j (if j == from_dir then lowered k else k)
                  (change_links lib lowered from_dir w₁))
              kept (change_links-GoesOn lowered from_dir j w₁))
            λ _ w₂ e.
              subst (λ k. GoesOn j (if j == to_dir then raised k else k) (up w₂)) e
                (change_links-GoesOn raised to_dir j w₂)
