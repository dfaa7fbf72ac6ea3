-- ===== src/Paths/Split.antt =====
-- How a path is put together again from its directory and its file name.
use node_ext2fs.Base.{
  ℕ, Option, none, some, [], ◌∷◌, ◌++◌, ◌==◌, ◌≡◌, ◌≢◌, refl, ap, sym, ◌∙◌, arith, inl, inr,
  if◌then◌else◌, Bool-cases, eq_of_==,
}
use mathlib.Core.Path.{subst}
use mathlib.Core.List.{append_assoc}
use node_ext2fs.Ext2.Filsys.{Bytes}
use node_ext2fs.Paths.{slash, strrchr, file_part, dir_part, get_filename, parent_path}

-- No character of the text is a slash.
abbrev pub NoSlash : Bytes → Type 0
NoSlash [] = Unit
NoSlash (c ∷ s) = (c ≢ slash) × NoSlash s

-- What `strrchr` says of a text.
abbrev pub Splits : Bytes → Option (Bytes × Bytes) → Type 0
Splits path none = NoSlash path
Splits path (some (before, behind)) = (path ≡ before ++ slash ∷ behind) × NoSlash behind

Splits-cons :
    (c : ℕ) (path : Bytes) (r : Option (Bytes × Bytes))
    → Splits path r
    → Splits (c ∷ path) (elim r [
      | some (before, behind) ↦ some (c ∷ before, behind)
      | none ↦ if c == slash then some ([], path) else none
    ])
Splits-cons c path (some (before, behind)) h = (ap (λ t. c ∷ t) h.0, h.1)
Splits-cons c path none h = elim (Bool-cases (c == slash)) [
  | inl is ↦ rw (is, eq_of_== c slash is) (refl, h)
  | inr other ↦ rw other (λ e. ground arith, h)
]

pub strrchr-Splits : (path : Bytes) → Splits path (strrchr path)
unfolding strrchr
strrchr-Splits [] = tt
strrchr-Splits (c ∷ path) = Splits-cons c path (strrchr path) (strrchr-Splits path)

-- The other way round.
strrchr-none : (path : Bytes) → NoSlash path → strrchr path ≡ none
unfolding strrchr
strrchr-none [] h = refl
strrchr-none (c ∷ path) h = ground (arith, strrchr-none path h.1)

pub strrchr-append :
    (before behind : Bytes)
    → NoSlash behind
    → strrchr (before ++ slash ∷ behind) ≡ some (before, behind)
unfolding strrchr
strrchr-append [] behind h = ground (arith, strrchr-none behind h)
strrchr-append (c ∷ before) behind h = ground (arith, strrchr-append before behind h)

module _ (path name : Bytes) where
  named_parts :
      (r : Option (Bytes × Bytes))
      → Splits path r
      → file_part r ≡ some name
      → (dir : Bytes) × (dir_part r ≡ some dir) × (path ≡ dir ++ name) × NoSlash name × (name ≢ [])
  named_parts none h e = cc
  named_parts (some (before, [])) h e = cc
  named_parts (some (before, c ∷ behind)) h e =
      let same : c ∷ behind ≡ name = cc in
      (
        before ++ slash ∷ [],
        refl,
        h.0 ∙ ap (λ t. before ++ slash ∷ t) same ∙ sym (append_assoc before (slash ∷ []) name),
        subst NoSlash same h.1,
        λ empty. cc,
      )

  -- If a path has a file name, the path is the text of its directory, which ends with the slash,
  -- followed by the name; the name is not empty and has no slash.
  get_filename_parts :
      get_filename path ≡ some name
      → (dir : Bytes) × (parent_path path ≡ some dir)
        × (path ≡ dir ++ name)
        × NoSlash name
        × (name ≢ [])
  unfolding get_filename parent_path
  get_filename_parts h = named_parts (strrchr path) (strrchr-Splits path) h

  -- A directory, a slash and a name that is not empty and has no slash are taken apart again.
  get_filename-append :
      NoSlash name
      → name ≢ []
      → (get_filename (path ++ slash ∷ name) ≡ some name)
        × (parent_path (path ++ slash ∷ name) ≡ some (path ++ slash ∷ []))
  unfolding get_filename parent_path
  get_filename-append h ne = rw (strrchr-append path name h) (last_part name ne, refl)
    where
      last_part : (n : Bytes) → n ≢ [] → file_part (some (path, n)) ≡ some n
      last_part [] ne = absurd (ne refl)
      last_part (c ∷ n) ne = refl
