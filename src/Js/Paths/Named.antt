-- ===== src/Js/Paths/Named.antt =====
-- A path that comes from JavaScript and has a directory has a file name, too.
use mathlib.Core.List.{append_assoc, append-nil}
use mathlib.Core.Option.{some_inj}
use mathlib.Core.Path.{subst}
use node_ext2fs.Base.{
  ℕ, zero, suc, ◌≤◌, Option, none, some, [], ◌∷◌, ◌++◌, length, take, replicate, ◌≡◌, ◌≢◌, refl,
  sym, ap, ◌∙◌, arith, Bool-cases, Option-cases, inl, inr, eq_of_==,
}
use node_ext2fs.Ext2.Filsys.{Bytes, World}
use node_ext2fs.Ext2.Library.{Ext2fs}
use node_ext2fs.Js.Paths.{byte_at, is_slash, strip_to, has_nul, use_path}
use node_ext2fs.Paths.{
  slash, strrchr, file_part, dir_part, get_filename, parent_path, get_parent_dir_ino,
}
use node_ext2fs.Paths.Split.{Splits, strrchr-Splits}

abbrev last : Bytes → Option ℕ
last [] = none
last (b ∷ []) = some b
last (b ∷ c ∷ buf) = last (c ∷ buf)

last-append : (buf : Bytes) (b : ℕ) → last (buf ++ b ∷ []) ≡ some b
last-append [] b = refl
last-append (c ∷ []) b = refl
last-append (c ∷ d ∷ buf) b = last-append (d ∷ buf) b

take-suc :
    (buf : Bytes) (n b : ℕ) → byte_at buf n ≡ some b → take (suc n) buf ≡ take n buf ++ b ∷ []
take-suc [] n b h = ground arith
take-suc (c ∷ buf) zero b h = ground arith
take-suc (c ∷ buf) (suc n) b h = ap (λ l. c ∷ l) (take-suc buf n b h)

byte_at-length : (buf : Bytes) (n : ℕ) → suc n ≤ length buf → byte_at buf n ≢ none
byte_at-length [] n h = absurd (omega arith)
byte_at-length (c ∷ buf) zero h = λ e. cc
byte_at-length (c ∷ buf) (suc n) h = byte_at-length buf n (omega arith)

-- A text without the slashes at its end.
abbrev IsStripped : (buf stripped : Bytes) → Type 0
IsStripped buf stripped =
    ((k : ℕ) × (buf ≡ stripped ++ replicate k slash)) × (last stripped ≢ some slash)

replicate-append : (k : ℕ) → replicate k slash ++ slash ∷ [] ≡ replicate (suc k) slash
replicate-append zero = refl
replicate-append (suc k) = ap (λ l. slash ∷ l) (replicate-append k)

take-length : (buf : Bytes) → take (length buf) buf ≡ buf
take-length [] = refl
take-length (b ∷ buf) = ap (λ l. b ∷ l) (take-length buf)

strip_to-IsStripped :
    (n : ℕ) (buf : Bytes) → n ≤ length buf → IsStripped (take n buf) (strip_to n buf)
unfolding strip_to
strip_to-IsStripped zero buf h = ((0, refl), λ e. cc)
strip_to-IsStripped (suc n) buf h = elim (Option-cases (byte_at buf n)) [
  | inl behind ↦ absurd (byte_at-length buf n h behind)
  | inr (b, there) ↦ elim (Bool-cases (is_slash (byte_at buf n))) [
    | inl at ↦
        let is : b ≡ slash = eq_of_== b slash (ap is_slash (sym there) ∙ at) in
        let ((k, shorter), ends) = strip_to-IsStripped n buf (omega arith) in
        rw at (
          (
            suc k,
            take-suc buf n b there
                ∙ ap (λ l. l ++ b ∷ []) shorter
                ∙ ap (λ c. (strip_to n buf ++ replicate k slash) ++ c ∷ []) is
                ∙ append_assoc (strip_to n buf) (replicate k slash) (slash ∷ [])
                ∙ ap (λ l. strip_to n buf ++ l) (replicate-append k),
          ),
          ends,
        )
    | inr other ↦ rw other (
      (0, sym (append-nil (take (suc n) buf))),
      λ ends.
          let same : is_slash (byte_at buf n) ≡ is_slash (some slash) = ap is_slash (
            there
            ∙ sym (last-append (take n buf) b)
            ∙ ap last (sym (take-suc buf n b there))
            ∙ ends) in
          ground (arith, same),
    )
  ]
]

get_filename-last : (q : Bytes) → last q ≢ some slash → get_filename q ≡ none → parent_path q ≡ none
unfolding get_filename parent_path
get_filename-last q ends h = by_parts (strrchr q) (strrchr-Splits q) h
  where
    by_parts : (r : Option (Bytes × Bytes)) → Splits q r → file_part r ≡ none → dir_part r ≡ none
    by_parts none s e = refl
    by_parts (some (before, [])) s e = absurd (ends (ap last s.0 ∙ last-append before slash))
    by_parts (some (before, c ∷ behind)) s e = absurd cc

module _ {D : Type 0} (lib : Ext2fs D) (p q : Bytes) (w : World D) where
  -- The C string that `usePath` makes of a path is the path without the slashes at its end; and if the
  -- directory of that string is found, the string has a file name, so that `create_file` and
  -- `node_ext2fs_mkdir` do not take the branch for a path without one.
  pub use_path-get_filename :
      use_path p ≡ some q
      → (get_parent_dir_ino lib q w).0 ≢ 0
      → ((k : ℕ) × (p ≡ q ++ replicate k slash)) × ((name : Bytes) × (get_filename q ≡ some name))
  unfolding use_path get_parent_dir_ino
  use_path-get_filename used found = elim (Bool-cases (has_nul p)) [
    | inl nul ↦ ground arith
    | inr text ↦
        let same : strip_to (length p) p ≡ q = some_inj.0 (ground arith) in
        let (stripped, ends) = strip_to-IsStripped (length p) p (omega arith) in
        let ((k, whole), ends') = subst (IsStripped (take (length p) p)) same (stripped, ends) in
        ((k, sym (take-length p) ∙ whole), named ends')
  ]
    where
      named : last q ≢ some slash → (name : Bytes) × (get_filename q ≡ some name)
      named ends = elim (Option-cases (get_filename q)) [
        | inl without ↦
            let no_parent = get_filename-last q ends without in
            absurd (found (rw (no_parent, get_parent_dir_ino) refl))
        | inr (name, is) ↦ (name, is)
      ]
