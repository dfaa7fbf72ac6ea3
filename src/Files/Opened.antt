-- ===== src/Files/Opened.antt =====
-- What `node_ext2fs_open` of src/glue.c opens: the inode that the path leads to, or a new file's.
use node_ext2fs.Base.{
  ℕ, ℤ, neg, signed32, is_neg, is_neg-neg, if◌then◌else◌, Bool, true, false, not, some, ◌==◌, ◌⊎◌,
  ◌≡◌, ◌≢◌, refl, sym, ap, ◌∙◌, arith, inl, inr,
}
use mathlib.Core.Path.{subst}
use node_ext2fs.Create.{create_file}
use node_ext2fs.Create.Laws.{CreateLaws}
use node_ext2fs.Create.Made.{create_file-IsMade}
use node_ext2fs.Ext2.Errors.{enotdir, enoent, eexist}
use node_ext2fs.Ext2.Filsys.{Bytes, Ino, World}
use node_ext2fs.Ext2.Inode.{InodeLarge}
use node_ext2fs.Ext2.Library.{Ext2fs}
use node_ext2fs.Ext2.Modes.{has, o_creat, o_excl, o_trunc, o_directory, o_nofollow}
use node_ext2fs.Files.{translate_open_flags, open_inode, node_ext2fs_open}
use node_ext2fs.Laws.{InodeLaws, NameLaws}
use node_ext2fs.Names.{Names, add, children}
use node_ext2fs.Names.Library.{NamesLaws}
use node_ext2fs.Paths.{get_filename, get_parent_dir_ino, string_to_inode}
use node_ext2fs.Prog.{Prog, Exit, next, ret, finish, pure, on, call_or, call_neg, ◌>>=◌, ◌>>◌}
use node_ext2fs.Prog.Rules.{PostOr, PostOr-bind, PostOr-on, PostOr-call_or, PostOr-call_or_last}

-- What is assumed of open files: an opened one is of the inode that is asked for, and opening changes
-- no name; and a file that is cut to the length 0 changes no name, if there are none in its inode.
pub record OpenLaws {D : Type 0} (lib : Ext2fs D) (view : D → Names) : Type 0 where
  pub file_open_ino :
      (ino : Ino) (flags : ℕ) (w : World D)
      → (lib.file_open ino flags w).0 ≡ 0
      → ((lib.file_open ino flags w).2.files (lib.file_open ino flags w).1).ino ≡ ino
  pub file_open_view :
      (ino : Ino) (flags : ℕ) (w : World D) → view (lib.file_open ino flags w).2.lib ≡ view w.lib
  pub set_size_ino :
      (file : ℕ) (w : World D)
      → ((lib.file_set_size2 file 0 w).2.files file).ino ≡ (w.files file).ino
  pub set_size_view :
      (file : ℕ) (w : World D)
      → children (w.files file).ino (view w.lib) ≡ 0
      → view (lib.file_set_size2 file 0 w).2.lib ≡ view w.lib

-- A body that returns before its end gives a negative result.
abbrev IsError : ℤ → Type 0
IsError r = is_neg r ≡ true

neg-IsError : (e : ℕ) → e ≢ 0 → IsError (neg e)
neg-IsError e ne = is_neg-neg e (ground arith)

module _ {D : Type 0} (lib : Ext2fs D) (stored : D → Ino → InodeLarge) (view : D → Names)
    (inode_laws : InodeLaws lib stored) (laws : NamesLaws lib stored view)
    (create_laws : CreateLaws lib stored view) (name_laws : NameLaws lib stored)
    (open_laws : OpenLaws lib view) where
  -- The inode that was found, or that of a new name.
  abbrev pub IsChosen :
      (path : Bytes) (flags : ℕ) (found dir ino : Ino) → World D → World D → Type 0
  IsChosen path flags found dir ino w v =
      ((ino ≡ found) × (found ≢ 0) × (view v.lib ≡ view w.lib))
      ⊎ ((found ≡ 0)
          × (has flags o_creat ≡ true)
          × ((name : Bytes) × (get_filename path ≡ some name)
              × (view v.lib ≡ add (record { dir = dir; name = name; ino = ino }) (view w.lib))
              × (children ino (view v.lib) ≡ 0)))

  -- An open file of such an inode.
  abbrev pub IsOpened :
      (path : Bytes) (flags : ℕ) (found dir : Ino) → World D → ℤ → World D → Type 0
  IsOpened path flags found dir w r v =
      (file : ℕ) × (r ≡ signed32 file) × IsChosen path flags found dir (v.files file).ino w v

  IsChosen-view :
      (path : Bytes) (flags : ℕ) (found dir ino : Ino) (w v v' : World D)
      → view v'.lib ≡ view v.lib
      → IsChosen path flags found dir ino w v
      → IsChosen path flags found dir ino w v'
  IsChosen-view path flags found dir ino w v v' same (inl (is, there, kept)) =
      inl (is, there, same ∙ kept)
  IsChosen-view path flags found dir ino w v v' same
        (inr (none, creat, (name, named, adds, empty))) =
      inr (none, creat, (name, named, same ∙ adds, ap (children ino) same ∙ empty))

  -- A file that is cut has no names in it.
  childless :
      (path : Bytes) (flags : ℕ) (found dir ino : Ino) (w v : World D)
      → children found (view w.lib) ≡ 0
      → IsChosen path flags found dir ino w v
      → children ino (view v.lib) ≡ 0
  childless path flags found dir ino w v empty (inl (is, there, kept)) =
      ap (λ i. children i (view v.lib)) is ∙ ap (children found) kept ∙ empty
  childless path flags found dir ino w v empty (inr (_, _, (_, _, _, none))) = none

  open_inode-IsChosen :
      (path : Bytes) (flags mode : ℕ) (found : Ino) (w : World D)
      → PostOr IsError
          (λ ino v. IsChosen path flags found (get_parent_dir_ino lib path w).0 ino w v)
          (open_inode lib path flags mode found w)
  unfolding open_inode
  open_inode-IsChosen path flags mode found w =
      by_tests (found == 0) (has flags o_creat) (has flags o_excl) (λ e. ground arith)
        (λ e. ground arith) (λ e. e)
    where
      Q : Ino → World D → Type 0
      Q ino v = IsChosen path flags found (get_parent_dir_ino lib path w).0 ino w v

      created :
          found ≡ 0
          → has flags o_creat ≡ true
          → PostOr IsError Q (call_neg (create_file lib path mode) w)
      created none creat =
          PostOr-call_or_last IsError neg Q (create_file lib path mode) w neg-IsError λ made.
            let (name, _, named, adds, _, empty, _, _) =
              create_file-IsMade lib stored view inode_laws laws create_laws name_laws path mode w
                made in
            inr (none, creat, (name, named, adds, empty))

      by_tests :
          (none creat excl : Bool)
          → (none ≡ true → found ≡ 0)
          → (none ≡ false → found ≢ 0)
          → (creat ≡ true → has flags o_creat ≡ true)
          → PostOr IsError Q (
              if none
              then (if creat then call_neg (create_file lib path mode) w else (ret (neg enoent), w))
              else if excl
              then (ret (neg eexist), w)
              else (next found, w))
      by_tests true true excl zero there asked = created (zero refl) (asked refl)
      by_tests true false excl zero there asked = refl
      by_tests false creat true zero there asked = refl
      by_tests false creat false zero there asked = inl (refl, there refl, refl)

  abbrev cut : (flags file : ℕ) → Prog D ℤ
  cut flags file =
      on (has flags o_trunc) (call_neg (lib.file_set_size2 file 0)) >> pure (signed32 file)

  abbrev open_chosen : (flags : ℕ) → Ino → Prog D ℤ
  open_chosen flags ino = call_neg (lib.file_open ino (translate_open_flags flags)) >>= cut flags

  abbrev test_chosen : (flags : ℕ) → Ino → Prog D ℤ
  test_chosen flags ino =
      on (has flags o_directory) (call_or (λ e w. (neg enotdir, w)) (lib.check_directory ino))
      >> open_chosen flags ino

  cut-IsOpened :
      (path : Bytes) (flags : ℕ) (found dir : Ino) (file : ℕ) (w v : World D)
      → (has flags o_trunc ≡ false) ⊎ (children found (view w.lib) ≡ 0)
      → IsChosen path flags found dir (v.files file).ino w v
      → PostOr IsError (IsOpened path flags found dir w) (cut flags file v)
  cut-IsOpened path flags found dir file w v harmless chosen =
      PostOr-bind IsError (λ _ u. IsChosen path flags found dir (u.files file).ino w u)
        (IsOpened path flags found dir w)
        (on (has flags o_trunc) (call_neg (lib.file_set_size2 file 0)) v)
        (λ _. pure (signed32 file))
        (PostOr-on IsError (λ _ u. IsChosen path flags found dir (u.files file).ino w u)
          (has flags o_trunc) (call_neg (lib.file_set_size2 file 0)) v shortened (λ other. chosen))
        λ _ u is. (file, refl, is)
    where
      shortened :
          has flags o_trunc ≡ true
          → PostOr IsError
              (λ _ u. IsChosen path flags found dir (u.files file).ino w u)
              (call_neg (lib.file_set_size2 file 0) v)
      shortened asked = elim harmless [
        | inl never ↦ absurd cc
        | inr empty ↦
            PostOr-call_or_last IsError neg
              (λ _ u. IsChosen path flags found dir (u.files file).ino w u)
              (lib.file_set_size2 file 0) v neg-IsError
              λ done.
                let u = (lib.file_set_size2 file 0 v).2 in
                subst (λ i. IsChosen path flags found dir i w u)
                  (sym (open_laws.set_size_ino file v))
                  (IsChosen-view path flags found dir (v.files file).ino w v u
                    (open_laws.set_size_view file v
                      (childless path flags found dir (v.files file).ino w v empty chosen))
                    chosen)
      ]

  open_chosen-IsOpened :
      (path : Bytes) (flags : ℕ) (found dir ino : Ino) (w v : World D)
      → (has flags o_trunc ≡ false) ⊎ (children found (view w.lib) ≡ 0)
      → IsChosen path flags found dir ino w v
      → PostOr IsError (IsOpened path flags found dir w) (open_chosen flags ino v)
  open_chosen-IsOpened path flags found dir ino w v harmless chosen =
      let bits = translate_open_flags flags in
      let (_, file, u) = lib.file_open ino bits v in
      PostOr-call_or IsError neg (IsOpened path flags found dir w) (lib.file_open ino bits)
        (cut flags) v neg-IsError
        λ opened. cut-IsOpened path flags found dir file w u harmless (
          subst (λ i. IsChosen path flags found dir i w u)
            (sym (open_laws.file_open_ino ino bits v opened))
            (IsChosen-view path flags found dir ino w v u (open_laws.file_open_view ino bits v)
              chosen))

  test_chosen-IsOpened :
      (path : Bytes) (flags : ℕ) (found dir ino : Ino) (w v : World D)
      → (has flags o_trunc ≡ false) ⊎ (children found (view w.lib) ≡ 0)
      → IsChosen path flags found dir ino w v
      → PostOr IsError (IsOpened path flags found dir w) (test_chosen flags ino v)
  test_chosen-IsOpened path flags found dir ino w v harmless chosen =
      PostOr-bind IsError (λ _ u. IsChosen path flags found dir ino w u)
        (IsOpened path flags found dir w)
        (on (has flags o_directory) (call_or (λ e w. (neg enotdir, w)) (lib.check_directory ino)) v)
        (λ _. open_chosen flags ino)
        (PostOr-on IsError (λ _ u. IsChosen path flags found dir ino w u) (has flags o_directory)
          (call_or (λ e w. (neg enotdir, w)) (lib.check_directory ino)) v
          (λ asked.
            PostOr-call_or_last IsError (λ _. neg enotdir)
              (λ _ u. IsChosen path flags found dir ino w u) (lib.check_directory ino) v
              (λ e ne. refl)
              λ is_dir.
                IsChosen-view path flags found dir ino w v (lib.check_directory ino v).2
                  (laws.check_directory_view ino v) chosen)
          (λ other. chosen))
        λ _ u is. open_chosen-IsOpened path flags found dir ino w u harmless is

  finish-IsError :
      (Q : ℤ → World D → Type 0) (x : Exit ℤ × World D)
      → PostOr IsError Q x
      → is_neg (finish x).0 ≡ false
      → Q (finish x).0 (finish x).1
  finish-IsError Q (next r, w) h e = h
  finish-IsError Q (ret r, w) h e = absurd cc

  -- If opening a path gives a result that is not negative, it is the address of an open file, as a
  -- 32-bit number with a sign. The file's inode is that which the path was looked up to, and no name
  -- has changed since; or nothing was found, O_CREAT was given, and the names are those that there
  -- were after the look-up and the last part of the path in its directory, for that inode. The
  -- condition is that O_TRUNC was not given, or that there are no names in the inode that was found.
  -- It assumes the laws on inodes, names, link counts, new inodes and open files (InodeLaws, NamesLaws,
  -- NameLaws, CreateLaws, OpenLaws).
  pub node_ext2fs_open-IsOpened :
      (path : Bytes) (flags mode : ℕ) (w : World D)
      → let (found, w₁) = string_to_inode lib path (not (has flags o_nofollow)) w in
        let (r, v) = node_ext2fs_open lib path flags mode w in
        (has flags o_trunc ≡ false) ⊎ (children found (view w₁.lib) ≡ 0)
        → is_neg r ≡ false
        → IsOpened path flags found (get_parent_dir_ino lib path w₁).0 w₁ r v
  unfolding node_ext2fs_open
  node_ext2fs_open-IsOpened path flags mode w harmless fine =
      let (found, w₁) = string_to_inode lib path (not (has flags o_nofollow)) w in
      let dir = (get_parent_dir_ino lib path w₁).0 in
      finish-IsError (IsOpened path flags found dir w₁) _
        (PostOr-bind IsError (λ ino v. IsChosen path flags found dir ino w₁ v)
          (IsOpened path flags found dir w₁) (open_inode lib path flags mode found w₁)
          (test_chosen flags) (open_inode-IsChosen path flags mode found w₁)
          λ ino v chosen. test_chosen-IsOpened path flags found dir ino w₁ v harmless chosen)
        fine
