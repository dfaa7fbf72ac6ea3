-- ===== src/Js/Calls/Translated.antt =====
-- The errors of `translate_error` as the callers in JavaScript see them.
use Prim.Native.String.{String}
use node_ext2fs.Base.{
  ℕ, zero, suc, pos, neg, neg_part, is_neg-neg, Bool, some, List, [], ◌∷◌, ◌<◌, ◌==◌, ◌⊎◌, inl, inr,
  ◌≡◌, ◌≢◌, refl, ap, arith, Bool-cases, eq_of_==, ltb, if◌then◌else◌,
}
use node_ext2fs.Ext2.Errors.{ext2_et_base, ext2_et_unimplemented, ext2_et_ea_key_not_found}
use node_ext2fs.Ext2.Filsys.{Ino, World}
use node_ext2fs.Ext2.Library.{Ext2fs}
use node_ext2fs.Js.Calls.{
  code_to_errno, errno_to_code, with_code, errno_exception, returned, threw, ccall_throw,
}
use node_ext2fs.Translate.{translate_error}
use node_ext2fs.Translate.Codes.{
  table, find_errno, errno_of, translate_error-errno_of, translate_error_low,
}

-- The errno value has a name in lib/wasi.js.
abbrev pub IsNamed : ℕ → Type 0
IsNamed errno = (code : String) × (errno_to_code code_to_errno errno ≡ some code)

-- Each row is that of another code, or its errno value has a name.
abbrev AreNamed : ℕ → List (ℕ × ℕ × Bool) → Type 0
AreNamed err [] = Unit
AreNamed err ((code, errno, report) ∷ rows) = ((err ≢ code) ⊎ IsNamed errno) × AreNamed err rows

find_errno-IsNamed :
    (err : ℕ) (rows : List (ℕ × ℕ × Bool)) → AreNamed err rows → IsNamed (find_errno err rows).0
find_errno-IsNamed err [] h = ("EIO", refl)
find_errno-IsNamed err ((code, errno, report) ∷ rows) (row, h) = elim (Bool-cases (err == code)) [
  | inl here ↦ rw here (named row (eq_of_== err code here))
  | inr other ↦ rw other (find_errno-IsNamed err rows h)
]
  where
    named : (err ≢ code) ⊎ IsNamed errno → err ≡ code → IsNamed errno
    named (inl away) same = absurd (away same)
    named (inr is) same = is

errno_of-IsNamed :
    {D : Type 0} (lib : Ext2fs D) (err : ℕ)
    → err ≢ ext2_et_unimplemented
    → err ≢ ext2_et_ea_key_not_found
    → IsNamed (errno_of lib err).0
unfolding errno_of
errno_of-IsNamed lib err one two = find_errno-IsNamed err (table _ _) (
  inr ("EFAULT", refl),
  (
    inr ("ENOSPC", refl),
    (
      inr ("ENOSPC", refl),
      (
        inr ("EMLINK", refl),
        (
          inr ("EINVAL", refl),
          (
            inr ("ENOMEM", refl),
            (
              inr ("EINVAL", refl),
              (
                inr ("ENOSPC", refl),
                (
                  inr ("ENOSPC", refl),
                  (
                    inr ("ENOTDIR", refl),
                    (
                      inr ("ENOENT", refl),
                      (
                        inl one,
                        (
                          inr ("EFBIG", refl),
                          (
                            inr ("ENOMEM", refl),
                            (
                              inr ("EEXIST", refl),
                              (
                                inr ("EBUSY", refl),
                                (
                                  inr ("EBUSY", refl),
                                  (inr ("EEXIST", refl), (inl two, (inr ("ENOSPC", refl), tt))),
                                ),
                              ),
                            ),
                          ),
                        ),
                      ),
                    ),
                  ),
                ),
              ),
            ),
          ),
        ),
      ),
    ),
  ),
)

IsNamed-pos : (errno : ℕ) → IsNamed errno → 0 < errno
IsNamed-pos zero (code, named) = absurd (cc named)
IsNamed-pos (suc n) named = omega arith

neg_part-neg : (n : ℕ) → neg_part (neg n) ≡ n
neg_part-neg zero = refl
neg_part-neg (suc n) = refl

errno_exception-some :
    (errno : ℕ) (code : String)
    → errno_to_code code_to_errno errno ≡ some code
    → errno_exception errno ≡ record { errno = errno; code = code }
unfolding errno_exception
errno_exception-some errno code named = ap (with_code errno) named

ccall_throw-neg :
    (errno : ℕ) (code : String)
    → errno_to_code code_to_errno errno ≡ some code
    → ccall_throw (neg errno) ≡ threw (record { errno = errno; code = code })
unfolding ccall_throw
ccall_throw-neg errno code named =
    rw (is_neg-neg errno (IsNamed-pos errno (code, named)), neg_part-neg errno)
      (ap threw (errno_exception-some errno code named))

-- A code of libext2fs, other than that of an operation that is not implemented and that of a missing
-- attribute, reaches the callers as an exception whose errno value is that of the table of codes and
-- whose code is the name of that value in `CODE_TO_ERRNO`, never `UNKNOWN`. A code that is not one
-- of libext2fs is returned to the callers as if it were a result.
pub ccall_throw-translate_error :
    {D : Type 0} (lib : Ext2fs D) (ino : Ino) (err : ℕ) (w : World D)
    → err ≢ ext2_et_unimplemented
    → err ≢ ext2_et_ea_key_not_found
    → if ltb err ext2_et_base
      then ccall_throw (translate_error lib ino err w).0 ≡ returned (pos err)
      else (code : String) × (errno_to_code code_to_errno (errno_of lib err).0 ≡ some code)
        × (ccall_throw (translate_error lib ino err w).0
            ≡ threw (record { errno = (errno_of lib err).0; code = code }))
unfolding ccall_throw
ccall_throw-translate_error lib ino err w one two = elim (Bool-cases (ltb err ext2_et_base)) [
  | inl low ↦ rw (low, translate_error_low lib ino err w low) refl
  | inr high ↦
      let (code, named) = errno_of-IsNamed lib err one two in
      rw (high, translate_error-errno_of lib ino err w (ground arith))
        (code, named, ccall_throw-neg (errno_of lib err).0 code named)
]
