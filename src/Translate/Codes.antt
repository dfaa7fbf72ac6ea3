-- ===== src/Translate/Codes.antt =====
-- What `__translate_error` returns for every code, against a table, and what it does to the
-- filesystem.
use node_ext2fs.Base.{
  ℕ, pos, neg, is_neg, is_neg-neg, Bool, true, false, none, some, List, [], ◌∷◌, ◌≤◌, ◌<◌, ◌≡◌, ◌≢◌,
  refl, ap, arith, ltb, ◌==◌, if◌then◌else◌, Option-cases, Bool-cases, inl, inr, not-ltb,
}
use node_ext2fs.Ext2.Errors.{
  ext2_et_base, ext2_et_no_memory, ext2_et_tdb_err_oom, ext2_et_invalid_argument,
  ext2_et_llseek_failed, ext2_et_no_directory, ext2_et_file_not_found, ext2_et_dir_no_space,
  ext2_et_toosmall, ext2_et_block_alloc_fail, ext2_et_inode_alloc_fail, ext2_et_ea_no_space,
  ext2_et_symlink_loop, ext2_et_file_too_big, ext2_et_tdb_err_exists, ext2_et_file_exists,
  ext2_et_mmp_failed, ext2_et_mmp_fsck_on, ext2_et_ea_key_not_found, ext2_et_magic_ext2_file,
  ext2_et_unimplemented, enomem, einval, enotdir, enoent, enospc, emlink, efbig, eexist, ebusy,
  efault, eio,
}
use node_ext2fs.Ext2.Filsys.{Ino, World, ext2fs_mark_super_dirty}
use node_ext2fs.Ext2.Library.{Ext2fs}
use node_ext2fs.Translate.{translate_code, translate_error}

-- The platform's errno values that the glue takes from outside are positive.
pub record ErrnoLaws {D : Type 0} (lib : Ext2fs D) : Type 0 where
  pub eopnotsupp_pos : 0 < lib.eopnotsupp
  pub enodata_pos : (e : ℕ) → lib.enodata ≡ some e → 0 < e

-- The codes that have an errno value of their own, and whether they are worth a report.
abbrev pub table : ℕ → ℕ → List (ℕ × ℕ × Bool)
table enodata eopnotsupp =
    (ext2_et_magic_ext2_file, efault, false)
    ∷ (ext2_et_dir_no_space, enospc, true)
    ∷ (ext2_et_toosmall, enospc, false)
    ∷ (ext2_et_symlink_loop, emlink, false)
    ∷ (ext2_et_llseek_failed, einval, false)
    ∷ (ext2_et_no_memory, enomem, false)
    ∷ (ext2_et_invalid_argument, einval, false)
    ∷ (ext2_et_block_alloc_fail, enospc, false)
    ∷ (ext2_et_inode_alloc_fail, enospc, false)
    ∷ (ext2_et_no_directory, enotdir, false)
    ∷ (ext2_et_file_not_found, enoent, false)
    ∷ (ext2_et_unimplemented, eopnotsupp, false)
    ∷ (ext2_et_file_too_big, efbig, false)
    ∷ (ext2_et_tdb_err_oom, enomem, false)
    ∷ (ext2_et_tdb_err_exists, eexist, false)
    ∷ (ext2_et_mmp_failed, ebusy, false)
    ∷ (ext2_et_mmp_fsck_on, ebusy, false)
    ∷ (ext2_et_file_exists, eexist, false)
    ∷ (ext2_et_ea_key_not_found, enodata, false)
    ∷ (ext2_et_ea_no_space, enospc, false)
    ∷ []

-- The errno value of a code, `EIO` and a report for any other.
abbrev pub find_errno : ℕ → List (ℕ × ℕ × Bool) → ℕ × Bool
find_errno err [] = (eio, true)
find_errno err ((code, errno, report) ∷ rest) =
    if err == code then (errno, report) else find_errno err rest

unfoldable pub errno_of : {D : Type 0} → Ext2fs D → ℕ → ℕ × Bool
errno_of lib err =
    find_errno err (table (elim lib.enodata [ none ↦ enoent | some e ↦ e ]) lib.eopnotsupp)

pair-if :
    {A B : Type 0} (c : Bool) (a : A) (x y : B)
    → ◌≡◌ {A = A × B} (if c then (a, x) else (a, y)) (a, if c then x else y)
pair-if true a x y = refl
pair-if false a x y = refl

module _ {D : Type 0} (lib : Ext2fs D) where
  translate_code-errno_of :
      (err : ℕ) → translate_code lib err ≡ (neg (errno_of lib err).0, (errno_of lib err).1)
  unfolding translate_code errno_of
  translate_code-errno_of err = ground arith

  errno_of_pos : (err : ℕ) → ErrnoLaws lib → 0 < (errno_of lib err).0
  unfolding errno_of
  errno_of_pos err laws = elim (Option-cases lib.enodata) [
    | inl undefined ↦ ground (arith, laws.eopnotsupp_pos)
    | inr (e, defined) ↦ ground (arith, laws.eopnotsupp_pos, laws.enodata_pos e defined)
  ]

  -- For every code of libext2fs the result is the negated errno value of the table. The filesystem
  -- is marked dirty and flushed if the table says that the code is worth a report, and is left as
  -- it is otherwise.
  pub translate_error-errno_of :
      (ino : Ino) (err : ℕ) (w : World D)
      → ext2_et_base ≤ err
      → translate_error lib ino err w ≡ (
        neg (errno_of lib err).0,
        if (errno_of lib err).1 then (lib.flush (ext2fs_mark_super_dirty w)).2 else w,
      )
  unfolding translate_error
  translate_error-errno_of ino err w h =
      rw (not-ltb err ext2_et_base h, translate_code-errno_of err)
        (pair-if (errno_of lib err).1 _ _ _)

  -- For every code of libext2fs the result is negative, as the callers in JavaScript expect of an
  -- error; it assumes that the platform's errno values are positive.
  is_neg-translate_error :
      (ino : Ino) (err : ℕ) (w : World D)
      → ErrnoLaws lib
      → ext2_et_base ≤ err
      → is_neg (translate_error lib ino err w).0 ≡ true
  is_neg-translate_error ino err w laws h =
      rw (translate_error-errno_of ino err w h) (is_neg-neg _ (errno_of_pos err laws))

  -- A code that is not one of libext2fs is returned as it is, and not negated.
  pub translate_error_low :
      (ino : Ino) (err : ℕ) (w : World D)
      → ltb err ext2_et_base ≡ true
      → translate_error lib ino err w ≡ (pos err, w)
  unfolding translate_error
  translate_error_low ino err w h = rw h

  -- An error is never translated to 0.
  pub translate_error-ne_zero :
      (ino : Ino) (err : ℕ) (w : World D)
      → ErrnoLaws lib
      → 0 < err
      → (translate_error lib ino err w).0 ≢ pos 0
  translate_error-ne_zero ino err w laws h zero_code = elim (Bool-cases (ltb err ext2_et_base)) [
    | inl low ↦ ground (arith, translate_error_low ino err w low)
    | inr high ↦ cc (is_neg-translate_error ino err w laws (ground arith), ap is_neg zero_code)
  ]
